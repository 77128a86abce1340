-- ===== src/LinkedList/Add.antt =====
-- `linked_list_add` of src/linked_list.c.
use blackhv.Base.{
  ℕ, ◌+◌, ◌%◌, ◌^◌, ◌≡◌, refl, sym, ◌∙◌, ◌≢◌, Option, none, some, [], ◌∷◌, ◌++◌, arith, ==_false,
  length-append, Returns, returns,
}
use blackhv.LinkedList.{LinkedList, linked_list_add}
use blackhv.LinkedList.Cells.{
  Ptr, null, elt, Heap, write, write_self, write_ne, set_next-ok, set_prev-ok,
}
use blackhv.LinkedList.Chain.{
  Items, last_or, IsList, SameOutside, frame-write, unused-Absent, last_or-ne_null, Absent-last,
  Chain-set_prev, Chain-snoc,
}

-- What the `prev` of the first element is after an add: the new element, unless the list was empty.
abbrev pub before_after_add : Items → Ptr → Ptr
before_after_add [] fresh = null
before_after_add ((a, w) ∷ xs) fresh = fresh

abbrev pub Added : Heap → LinkedList → Items → Ptr → ℕ → (ℕ × Option LinkedList) × Heap → Type 0
Added h list xs fresh v ((r, out), g) =
    (r ≡ 1)
    × ((list' : LinkedList) × (out ≡ some list')
        × IsList g list' (before_after_add xs fresh) (xs ++ ((fresh, v) ∷ []))
        × (list'.free_func ≡ list.free_func))
    × SameOutside xs fresh h g

last_or-snoc : (p fresh : Ptr) (v : ℕ) (xs : Items) → last_or p (xs ++ ((fresh, v) ∷ [])) ≡ fresh
last_or-snoc p fresh v [] = refl
last_or-snoc p fresh v ((a, w) ∷ xs) = last_or-snoc a fresh v xs

-- On a well-linked list, and with a fresh element that is not NULL, `linked_list_add` returns 1
-- and leaves a well-linked list with the value behind the others. The `prev` of the first element
-- is then the new element, unless the list was empty.
pub linked_list_add-append :
    (h : Heap) (list : LinkedList) (before : Ptr) (xs : Items) (fresh : Ptr) (v : ℕ)
    → IsList h list before xs
    → fresh ≢ null
    → h fresh ≡ none
    → Returns (Added h list xs fresh v) (linked_list_add fresh (some list) v h)
unfolding linked_list_add
linked_list_add-append h list before [] fresh v is ne unused =
    rw (==_false fresh null ne, is.tail)
      (returns (
        refl,
        (
          record list { head = fresh; tail = fresh; size = (list.size + 1) % 2 ^ 32 },
          refl,
          record {
            chain = (ne, write_self h fresh _, tt, tt);
            head = refl;
            tail = refl;
            size = omega (arith, is.size);
          },
          refl,
        ),
        λ b m out. write_ne h fresh b _ out,
      ))
linked_list_add-append h list before ((a, w) ∷ xs) fresh v is ne unused =
    let new = unused-Absent h before fresh ((a, w) ∷ xs) is.chain unused in
    let h1 = write h fresh (some (elt (last_or a xs) null v)) in
    let c1 = frame-write h before ((a, w) ∷ xs) fresh _ is.chain new in
    let (e, holds, c2) = Chain-snoc h1 before a w xs fresh v c1 new ne (write_self h fresh _) in
    let last_ok = last_or-ne_null h before a w xs is.chain in
    rw
      (
        ==_false fresh null ne,
        is.tail,
        is.head,
        ==_false (last_or a xs) null last_ok,
        set_next-ok h1 last_ok holds fresh,
        set_prev-ok _ is.chain.0 c2.1 fresh,
      )
      (returns (
        refl,
        (
          record list { head = a; tail = fresh; size = (list.size + 1) % 2 ^ 32 },
          refl,
          record {
            chain = Chain-set_prev _ before fresh a w (xs ++ ((fresh, v) ∷ [])) c2;
            head = refl;
            tail = sym (last_or-snoc a fresh v xs);
            size = omega (arith, is.size, length-append xs ((fresh, v) ∷ []));
          },
          refl,
        ),
        λ b m out.
            write_ne _ a b _ m.0
            ∙ write_ne h1 (last_or a xs) b _ (Absent-last b a w xs m)
            ∙ write_ne h fresh b _ out,
      ))
