-- ===== src/LinkedList/Free.antt =====
-- `linked_list_free` of src/linked_list.c.
use blackhv.Base.{
  ℕ, zero, suc, ◌<◌, ◌≡◌, refl, ◌∙◌, Bool, none, some, List, [], ◌∷◌, arith, if◌then◌else◌,
  ==_false, length, Exec, Returns, returns,
}
use blackhv.LinkedList.{LinkedList, linked_list_free, free_loop}
use blackhv.LinkedList.Cells.{
  Ptr, null, Heap, write, write_self, write_ne, load-ok, free-ok, then_run, pure,
}
use blackhv.LinkedList.Chain.{Items, values, first, Absent, Chain, IsList, frame-write}

abbrev pub AllFreed : Heap → Items → Type 0
AllFreed g [] = Unit
AllFreed g ((a, v) ∷ xs) = (g a ≡ none) × AllFreed g xs

-- All elements are given back, no other address changes, and `free_func`, where there is one, is
-- called on each value in order.
abbrev pub Released : Heap → Bool → Items → List ℕ × Heap → Type 0
Released h frees xs (calls, g) =
    (calls ≡ (if frees then values xs else []))
    × AllFreed g xs
    × ((a : Ptr) → Absent a xs → g a ≡ h a)

free_loop-Released :
    (fuel : ℕ) (h : Heap) (frees : Bool) (before : Ptr) (xs : Items)
    → Chain h before xs
    → length xs < fuel
    → Returns (Released h frees xs) (free_loop fuel frees (first xs) h)
unfolding free_loop
free_loop-Released zero h frees before xs c enough = absurd (omega arith)
free_loop-Released (suc fuel) h frees before [] c enough = returns (ground arith, tt, λ a m. refl)
free_loop-Released (suc fuel) h frees before ((a, v) ∷ xs) (ne, at, out, c) enough =
    rw (==_false a null ne, load-ok h ne at, free-ok h ne at)
      (after (
        free_loop-Released fuel (write h a none) frees a xs (frame-write h a xs a none c out)
          (omega arith)))
  where
    after :
        {r : Exec (List ℕ × Heap)}
        → Returns (Released (write h a none) frees xs) r
        → Returns
            (Released h frees ((a, v) ∷ xs))
            (then_run r (λ freed. pure (if frees then v ∷ freed else freed)))
    after (returns {a = (calls, g)} (e, gone, same)) = returns (
      rw e (ground arith),
      (same a out ∙ write_self h a none, gone),
      λ b m. same b m.1 ∙ write_ne h a b none m.0,
    )

-- On a well-linked list and with more fuel than elements, `linked_list_free` gives every element
-- back once, calls `free_func`, where there is one, on every value in order, and touches no other
-- address.
pub linked_list_free-Released :
    (fuel : ℕ) (h : Heap) (list : LinkedList) (before : Ptr) (xs : Items)
    → IsList h list before xs
    → length xs < fuel
    → Returns (Released h list.free_func xs) (linked_list_free fuel (some list) h)
unfolding linked_list_free
linked_list_free-Released fuel h list before xs is enough =
    rw is.head (free_loop-Released fuel h list.free_func before xs is.chain enough)
