-- ===== src/Mmio/Dispatch.antt =====
-- `mmio_handle_write` of src/mmio.c, for handlers that do not write to the table of regions.
use blackhv.Base.{
  ℕ, zero, suc, ◌≤◌, ◌<◌, ◌≡◌, refl, sym, ap, ◌∙◌, ◌≢◌, ◌⊎◌, inl, inr, true, false, some, List, [],
  ◌∷◌, ◌++◌, append_assoc, arith, ltb, if◌then◌else◌, Bool-cases, length, get_elem?, set,
  length-append, get_elem?-append, length-set, get_elem?-some, ℤ, Returns, ok, returns, pos, negsuc,
}
use blackhv.Mmio.{
  MmioRegion, MmioCall, max_mmio_region_count, takes, call_of, handle_loop, mmio_handle_write,
  mmio_unregister,
}

module _ {S : Type 0} (act : MmioCall → S → S) where
  -- A handler that acts on the state and leaves the table alone.
  abbrev pub call : MmioCall → List MmioRegion × S → List MmioRegion × S
  call c state = (state.0, act c state.1)

  -- What the regions that take the address do to the state, in the table's order.
  abbrev pub act_all : List MmioRegion → (i address : ℕ) → List ℕ → (len : ℕ) → S → S
  act_all [] i address bytes len s = s
  act_all (r ∷ rs) i address bytes len s =
      act_all rs (suc i) address bytes len
        (if takes r address then act (call_of r i address bytes len) s else s)

  handle_loop-act_all :
      (done rest : List MmioRegion) (address : ℕ) (bytes : List ℕ) (len : ℕ) (s : S)
      → handle_loop call (length rest) (length done) address bytes len (done ++ rest, s)
        ≡ ok (done ++ rest, act_all rest (length done) address bytes len s)
  unfolding handle_loop
  handle_loop-act_all done [] address bytes len s = refl
  handle_loop-act_all done (r ∷ rest) address bytes len s =
      let here = get_elem?-append done r (length done) rest refl in
      let regroup : done ++ (r ∷ rest) ≡ (done ++ (r ∷ [])) ++ rest = simp append_assoc in
      let len' : length (done ++ (r ∷ [])) ≡ suc (length done) =
        omega (arith, length-append done (r ∷ [])) in
      let next : (s' : S)
          → handle_loop call (length rest) (suc (length done)) address bytes len
              (done ++ (r ∷ rest), s')
            ≡ ok (done ++ (r ∷ rest), act_all rest (suc (length done)) address bytes len s') =
        λ s'.
          rw (regroup, sym len')
            (handle_loop-act_all (done ++ (r ∷ [])) rest address bytes len s') in
      elim (Bool-cases (takes r address)) [
        | inl hit ↦ rw (here, hit) (next _)
        | inr miss ↦ rw (here, miss) (next _)
      ]

  -- With handlers that leave the table of 64 regions alone, `mmio_handle_write` calls the handler
  -- of every region that holds the address and has one, once each, in the order of the table, and
  -- does not fault.
  pub mmio_handle_write-act_all :
      (table : List MmioRegion) (address : ℕ) (bytes : List ℕ) (len : ℕ) (s : S)
      → length table ≡ max_mmio_region_count
      → mmio_handle_write call address bytes len (table, s)
        ≡ ok (table, act_all table 0 address bytes len s)
  unfolding mmio_handle_write
  mmio_handle_write-act_all table address bytes len s full =
      ap (λ n. handle_loop call n 0 address bytes len (table, s)) (sym full)
      ∙ handle_loop-act_all [] table address bytes len s

  -- One write to the regions from slot `i` on, by address: the handler of each that holds it and has
  -- one is called with the region's own data, in order, and the others are passed over.
  pub data Called (address : ℕ) (bytes : List ℕ) (len : ℕ)
      : List MmioRegion → (i : ℕ) → S → S → Type 0 where
    no_more : {i : ℕ} {s : S} → Called address bytes len [] i s s
    calls_it :
        {r : MmioRegion} {rs : List MmioRegion} {i : ℕ} {s s' : S}
        → r.base_address ≤ address
        → address < r.high_address
        → r.write_handler ≢ 0
        → Called address bytes len rs
            (suc i)
            (act
              (record {
                handler = r.write_handler;
                index = i;
                address = address;
                bytes = bytes;
                len = len;
                arg = r.data';
              })
              s)
            s'
        → Called address bytes len (r ∷ rs) i s s'
    passes_it :
        {r : MmioRegion} {rs : List MmioRegion} {i : ℕ} {s s' : S}
        → (address < r.base_address) ⊎ (r.high_address ≤ address) ⊎ (r.write_handler ≡ 0)
        → Called address bytes len rs (suc i) s s'
        → Called address bytes len (r ∷ rs) i s s'

  act_all-Called :
      (rs : List MmioRegion) (i address : ℕ) (bytes : List ℕ) (len : ℕ) (s : S)
      → Called address bytes len rs i s (act_all rs i address bytes len s)
  act_all-Called [] i address bytes len s = no_more
  act_all-Called (r ∷ rs) i address bytes len s = elim (Bool-cases (takes r address)) [
    | inl hit ↦ rw hit (
        calls_it (ground arith) (ground arith) (ground arith)
          (act_all-Called rs (suc i) address bytes len (act (call_of r i address bytes len) s)))
    | inr miss ↦ rw miss (passes_it (ground arith) (act_all-Called rs (suc i) address bytes len s))
  ]

  pub Called-act_all :
      {address len : ℕ} {bytes : List ℕ} {rs : List MmioRegion} {i : ℕ} {s s' : S}
      → Called address bytes len rs i s s'
      → act_all rs i address bytes len s ≡ s'
  Called-act_all no_more = refl
  Called-act_all {address} (calls_it {r = r} low high there more) =
      let hit : takes r address ≡ true = ground (arith, low, high, there) in
      rw hit (Called-act_all more)
  Called-act_all {address} (passes_it {r = r} out more) =
      let miss : takes r address ≡ false = ground (arith, out) in rw miss (Called-act_all more)

  -- With handlers that leave the table of 64 regions alone, `mmio_handle_write` does not fault,
  -- leaves the table alone and calls, in the order of the table and once each, the handlers of
  -- the regions whose base address is at or below the address, whose high address is above it and
  -- whose handler is not NULL, with the region's own data, and no others.
  pub mmio_handle_write-Called :
      (table : List MmioRegion) (address : ℕ) (bytes : List ℕ) (len : ℕ) (s : S)
      → length table ≡ max_mmio_region_count
      → Returns
          (λ (table', s'). (table' ≡ table) × Called address bytes len table 0 s s')
          (mmio_handle_write call address bytes len (table, s))
  mmio_handle_write-Called table address bytes len s full =
      rw (mmio_handle_write-act_all table address bytes len s full)
        (returns (refl, act_all-Called table 0 address bytes len s))

  act_all-set :
      (table : List MmioRegion) (k i address : ℕ) (bytes : List ℕ) (len : ℕ) (s : S)
      (r : MmioRegion) (id : ℤ)
      → get_elem? table k ≡ some r
      → act_all (set table k (record r { id = id })) i address bytes len s
        ≡ act_all table i address bytes len s
  act_all-set [] k i address bytes len s r id at = refl
  act_all-set (q ∷ table) zero i address bytes len s r id at = let e : q ≡ r = cc in rw e refl
  act_all-set (q ∷ table) (suc k) i address bytes len s r id at =
      act_all-set table k (suc i) address bytes len _ r id at

  -- With handlers that leave the table of 64 regions alone, `mmio_unregister` of any id that is
  -- not negative does not fault, and a write after it does to the state what the same write did
  -- before it.
  pub mmio_unregister-still_called :
      (table : List MmioRegion) (id address : ℕ) (bytes : List ℕ) (len : ℕ) (s : S)
      → length table ≡ max_mmio_region_count
      → Returns
          (λ table'.
            mmio_handle_write call address bytes len (table', s)
            ≡ ok (table', act_all table 0 address bytes len s))
          (mmio_unregister (pos id) table)
  unfolding mmio_unregister
  mmio_unregister-still_called table id address bytes len s full =
      elim (Bool-cases (ltb id max_mmio_region_count)) [
        | inr past ↦ rw past (returns (mmio_handle_write-act_all table address bytes len s full))
        | inl inside ↦
            let (r, at) = get_elem?-some table id (ground arith) in
            rw (inside, at)
              (returns (
                mmio_handle_write-act_all (set table id (record r { id = negsuc 0 })) address bytes
                  len s (length-set table id (record r { id = negsuc 0 }) ∙ full)
                ∙ ap (λ s'. ok (set table id (record r { id = negsuc 0 }), s'))
                    (act_all-set table id 0 address bytes len s r (negsuc 0) at)))
      ]
