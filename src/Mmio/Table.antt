-- ===== src/Mmio/Table.antt =====
-- Registration and unregistration in src/mmio.c: which slot is taken, and what the table keeps.
use blackhv.Base.{
  ℕ, suc, ◌+◌, ◌≡◌, refl, ap, ◌≢◌, ◌⊎◌, inl, inr, true, false, Option, none, some, List, [], ◌∷◌,
  ◌++◌, arith, ◌==◌, Bool-cases, length, All, minus_one, sub_u64, pos,
}
use blackhv.Memory.{Memory, Host, HostCall, memory_mmio, memory_alloc}
use blackhv.Mmio.{MmioRegion, is_free, take_slot, mmio_register}

-- The old table is `before`, all in use, a free slot `i` and the rest; the new one has the region
-- with its id in that slot.
pub record TookSlot (table table' : List MmioRegion) (i : ℕ) (region : MmioRegion) : Type 0 where
  pub before : List MmioRegion
  pub old : MmioRegion
  pub after : List MmioRegion
  pub was : table ≡ before ++ (old ∷ after)
  pub used : All (λ r. is_free r ≡ false) before
  pub free_slot : is_free old ≡ true
  pub index : i ≡ length before
  pub now : table' ≡ before ++ (record region { id = pos i } ∷ after)

-- The same for the loop from slot `start`.
take_slot-cases :
    (table : List MmioRegion) (start : ℕ) (region : MmioRegion)
    → ((take_slot table start region ≡ none) × All (λ r. is_free r ≡ false) table)
      ⊎ ((before : List MmioRegion) × (old : MmioRegion) × (after : List MmioRegion) × (table
            ≡ before ++ (old ∷ after))
          × (All (λ r. is_free r ≡ false) before)
          × (is_free old ≡ true)
          × (take_slot table start region
              ≡ some (
                start + length before,
                before ++ (record region { id = pos (start + length before) } ∷ after),
              )))
unfolding take_slot
take_slot-cases [] start region = inl (refl, tt)
take_slot-cases (r ∷ rs) start region =
    let origin : start + 0 ≡ start = omega arith in
    elim (Bool-cases (is_free r)) [
      | inl free ↦ inr ([], r, rs, refl, tt, free, rw (free, origin) refl)
      | inr busy ↦ elim (take_slot-cases rs (suc start) region) [
        | inl (e, all) ↦ inl (rw (busy, e), (busy, all))
        | inr (before, old, after, was, used, free, e) ↦
            let shift : suc start + length before ≡ start + suc (length before) = omega arith in
            inr
              (r ∷ before, old, after, ap (λ l. r ∷ l) was, (busy, used), free, rw (busy, e, shift))
      ]
    ]

-- The call of `memory_alloc` in `mmio_register`.
abbrev pub reserve : Host → Option Memory → MmioRegion → ℕ × Option Memory × List HostCall
reserve host mem region =
    memory_alloc host mem region.base_address (sub_u64 region.high_address region.base_address)
      memory_mmio

-- `mmio_register` returns -1 and leaves the region and the table alone where `memory_alloc`
-- refuses the range; the same, with the range left allocated, where every slot is in use; and
-- otherwise it takes the first free slot, returns its number and writes it to the region's id.
-- The memory is always what `memory_alloc` left.
pub mmio_register-cases :
    (host : Host) (mem : Option Memory) (region : MmioRegion) (table : List MmioRegion)
    → let r = mmio_register host mem region table in
      let a = reserve host mem region in
      (r.mem ≡ a.1)
      × (((a.0 ≡ 0) × (r.result ≡ minus_one) × (r.table ≡ table) × (r.region ≡ region))
          ⊎ (((a.0 ≢ 0)
                × All (λ q. is_free q ≡ false) table
                × (r.result ≡ minus_one)
                × (r.table ≡ table)
                × (r.region ≡ region))
              ⊎ ((i : ℕ) × (a.0 ≢ 0)
                  × TookSlot table r.table i region
                  × (r.result ≡ pos i)
                  × (r.region ≡ record region { id = pos i }))))
unfolding mmio_register
mmio_register-cases host mem region table = elim (Bool-cases ((reserve host mem region).0 == 0)) [
  | inl refused ↦ rw refused (refl, inl (ground arith, refl, refl, refl))
  | inr granted ↦ elim (take_slot-cases table 0 region) [
    | inl (e, all) ↦ rw (granted, e) (refl, inr (inl (λ z. ground arith, all, refl, refl, refl)))
    | inr (before, old, after, was, used, free, e) ↦
        let origin : 0 + length before ≡ length before = omega arith in
        rw (granted, e)
          (
            refl,
            inr (
                inr (
                  length before,
                  λ z. ground arith,
                  record {
                    before = before;
                    old = old;
                    after = after;
                    was = was;
                    used = used;
                    free_slot = free;
                    index = refl;
                    now = (rw origin refl);
                  },
                  (rw origin refl),
                  (rw origin refl),
                )),
          )
  ]
]
