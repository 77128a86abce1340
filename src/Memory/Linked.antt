-- ===== src/Memory/Linked.antt =====
-- `find_entry` and `check_addr_available` of src/memory.c as they stand: loops over the linked list of
-- src/linked_list.c, whose values are pointers to entries. The other modules have them on the list
-- of the entries.
pub mod Tests
use blackhv.Base.{
  ℕ, zero, suc, ◌+◌, ◌-◌, ◌*◌, ◌/◌, ◌%◌, ◌^◌, ◌≤◌, ◌<◌, min, ◌≡◌, refl, sym, ap, ◌∙◌, ◌≢◌, ◌↔◌, ◌⊎◌,
  inl, inr, Bool, true, false, not, ◌&&◌, ◌||◌, Option, none, some, List, [], ◌∷◌, ◌++◌, map,
  append_assoc, append-nil, arith, ltb, leb, ◌==◌, if◌then◌else◌, int_of, ==_iff, ==_refl, ==_false,
  lt→ltb, le→ltb, Bool-cases, Option-cases, length, get_elem?, set, take, drop, replicate, All,
  length-append, get_elem?-append, length-set, length-take, length-drop, length-replicate,
  get_elem?-set_self, get_elem?-set_ne, get_elem?-some, drop-cons_of_get, take_cons, set-append,
  take-drop, take-append_take, take_all, drop_all, minus_one, s64_of, add_u64, sub_u64,
  s64_of_small, ℤ, access, Returns-mono, Returns-bind, Returns-value, Exec, Returns, ok, fault,
  out_of_fuel, returns, pos, negsuc,
}
use blackhv.LinkedList.{LinkedList, linked_list_add}
use blackhv.LinkedList.Cells.{Ptr, null, Heap, Cmd, pure, ◌>>=◌, load, load-ok}
use blackhv.LinkedList.Chain.{Items, values, first, Chain, IsList}
use blackhv.LinkedList.Add.{Added, linked_list_add-append}
use blackhv.Memory.{MemoryEntry, covers, clashes, find_entry, check_addr_available}

-- What the `struct memory_entry` at each address is; `none` where there is none.
module _ (entry_at : Ptr → Option MemoryEntry) where
  load_entry : Ptr → Cmd MemoryEntry
  load_entry p h = elim (entry_at p) [ none ↦ fault | some e ↦ ok (e, h) ]

  -- The loop of `find_entry`.
  unfoldable pub find_walk : (fuel : ℕ) → (current : Ptr) → (addr : ℕ) → Cmd (Option MemoryEntry)
  unfolding load_entry
  find_walk zero current addr = λ h. out_of_fuel
  find_walk (suc fuel) current addr = if current == null then pure none else do
    elt ← load current
    entry ← load_entry elt.value
    let rest = find_walk fuel elt.next addr
    if covers entry addr then pure (some entry) else rest

  -- The loop of `check_addr_available`.
  unfoldable pub check_walk : (fuel : ℕ) → (current : Ptr) → (phys_addr size : ℕ) → Cmd ℕ
  unfolding load_entry
  check_walk zero current phys_addr size = λ h. out_of_fuel
  check_walk (suc fuel) current phys_addr size = if current == null then pure 1 else do
    elt ← load current
    entry ← load_entry elt.value
    let rest = check_walk fuel elt.next phys_addr size
    if clashes entry phys_addr size then pure 0 else rest

  -- The values of the list point to the entries, in order.
  abbrev pub PointTo : Items → List MemoryEntry → Type 0
  PointTo [] [] = Unit
  PointTo [] (e ∷ es) = ⊥
  PointTo ((a, v) ∷ xs) [] = ⊥
  PointTo ((a, v) ∷ xs) (e ∷ es) = (entry_at v ≡ some e) × PointTo xs es

  load_entry-ok :
      (h : Heap) (v : Ptr) (e : MemoryEntry) → entry_at v ≡ some e → load_entry v h ≡ ok (e, h)
  unfolding load_entry
  load_entry-ok h v e at = rw (at, load_entry) refl

  find_walk-find_entry :
      (fuel : ℕ) (h : Heap) (before : Ptr) (xs : Items) (es : List MemoryEntry) (addr : ℕ)
      → Chain h before xs
      → PointTo xs es
      → length xs < fuel
      → find_walk fuel (first xs) addr h ≡ ok (find_entry es addr, h)
  unfolding find_walk find_entry
  find_walk-find_entry zero h before xs es addr c pt enough = absurd (omega arith)
  find_walk-find_entry (suc fuel) h before [] [] addr c pt enough = refl
  find_walk-find_entry (suc fuel) h before [] (e ∷ es) addr c pt enough = absurd pt
  find_walk-find_entry (suc fuel) h before ((a, v) ∷ xs) [] addr c pt enough = absurd pt
  find_walk-find_entry (suc fuel) h before ((a, v) ∷ xs) (e ∷ es) addr c (at, pt) enough =
      let rest = find_walk-find_entry fuel h a xs es addr c.3 pt (omega arith) in
      rw (==_false a null c.0, load-ok h c.0 c.1, load_entry-ok h v e at)
        (elim (Bool-cases (covers e addr)) [ inl on ↦ rw on refl | inr off ↦ rw off rest ])

  check_walk-check_addr_available :
      (fuel : ℕ) (h : Heap) (before : Ptr) (xs : Items) (es : List MemoryEntry) (p s : ℕ)
      → Chain h before xs
      → PointTo xs es
      → length xs < fuel
      → check_walk fuel (first xs) p s h ≡ ok (check_addr_available es p s, h)
  unfolding check_walk check_addr_available
  check_walk-check_addr_available zero h before xs es p s c pt enough = absurd (omega arith)
  check_walk-check_addr_available (suc fuel) h before [] [] p s c pt enough = refl
  check_walk-check_addr_available (suc fuel) h before [] (e ∷ es) p s c pt enough = absurd pt
  check_walk-check_addr_available (suc fuel) h before ((a, v) ∷ xs) [] p s c pt enough = absurd pt
  check_walk-check_addr_available (suc fuel) h before ((a, v) ∷ xs) (e ∷ es) p s c (at, pt) enough =
      let rest = check_walk-check_addr_available fuel h a xs es p s c.3 pt (omega arith) in
      rw (==_false a null c.0, load-ok h c.0 c.1, load_entry-ok h v e at)
        (elim (Bool-cases (clashes e p s)) [ inl on ↦ rw on refl | inr off ↦ rw off rest ])

  PointTo-snoc :
      (xs : Items) (es : List MemoryEntry) (a v : Ptr) (e : MemoryEntry)
      → PointTo xs es
      → entry_at v ≡ some e
      → PointTo (xs ++ ((a, v) ∷ [])) (es ++ (e ∷ []))
  PointTo-snoc [] [] a v e pt at = (at, tt)
  PointTo-snoc [] (f ∷ es) a v e pt at = absurd pt
  PointTo-snoc ((b, w) ∷ xs) [] a v e pt at = absurd pt
  PointTo-snoc ((b, w) ∷ xs) (f ∷ es) a v e (here, pt) at = (here, PointTo-snoc xs es a v e pt at)

  -- After `linked_list_add` of a pointer to an entry to a well-linked list whose values point to
  -- entries, and with more fuel than elements, the loops of `find_entry` and
  -- `check_addr_available` over the linked list answer as those functions do on the list of the
  -- entries with the new one at its end.
  pub walks-linked_list_add :
      (h : Heap) (list : LinkedList) (before : Ptr) (xs : Items) (es : List MemoryEntry)
      (fresh v : Ptr) (e : MemoryEntry) (fuel addr p s : ℕ)
      → IsList h list before xs
      → PointTo xs es
      → entry_at v ≡ some e
      → fresh ≢ null
      → h fresh ≡ none
      → length xs + 1 < fuel
      → Returns
          (λ (r, h').
            (list' : LinkedList) × (r ≡ (1, some list'))
            × (find_walk fuel list'.head addr h' ≡ ok (find_entry (es ++ (e ∷ [])) addr, h'))
            × (check_walk fuel list'.head p s h'
                ≡ ok (check_addr_available (es ++ (e ∷ [])) p s, h')))
          (linked_list_add fresh (some list) v h)
  walks-linked_list_add h list before xs es fresh v e fuel addr p s is pt at ne unused enough =
      Returns-mono (linked_list_add-append h list before xs fresh v is ne unused)
        λ ((r, out), h') (one, (list', is_some, is', kept), same).
          let xs' : Items = xs ++ ((fresh, v) ∷ []) in
          let pt' : PointTo xs' (es ++ (e ∷ [])) = PointTo-snoc xs es fresh v e pt at in
          let fuel_left : length xs' < fuel = omega (arith, length-append xs ((fresh, v) ∷ [])) in
          (
            list',
            rw (one, is_some) refl,
            rw is'.head
                (find_walk-find_entry fuel h' _ xs' (es ++ (e ∷ [])) addr is'.chain pt' fuel_left),
            rw is'.head (
                check_walk-check_addr_available fuel h' _ xs' (es ++ (e ∷ [])) p s is'.chain pt'
                  fuel_left),
          )
