-- ===== src/LinkedList/RemoveAt.antt =====
-- `linked_list_remove_at` of src/linked_list.c, and the first element of a list.
use blackhv.Base.{
  ℕ, ◌^◌, ◌≤◌, ◌<◌, ◌≡◌, refl, ap, ◌∙◌, ◌⊎◌, Option, some, List, [], ◌∷◌, ◌++◌, arith, length, Exec,
  Returns, ok, returns,
}
use blackhv.LinkedList.{remove_at_loop, LinkedList, linked_list_remove_at}
use blackhv.LinkedList.Cells.{Ptr, null, Heap, pure, then_run}
use blackhv.LinkedList.Chain.{Items, IsList}
use blackhv.LinkedList.Remove.{Removed, remove_elt-any, remove_at_loop-found, remove_at_loop-past}

abbrev pub RemovedAt :
    Heap → LinkedList → Ptr → ℕ → Ptr → Items → (ℕ × Option LinkedList × List ℕ) × Heap → Type 0
RemovedAt h list p v before xs ((r, out, f), g) =
    (r ≡ 1)
    × ((list' : LinkedList) × (out ≡ some list') × Removed h list p v before xs ((list', f), g))

-- With more fuel than elements before the index, `linked_list_remove_at` at the index of an
-- element that is not the first, or whose `prev` is NULL, returns 1, frees that element and no
-- other, gives its value to `free_func` where there is one, and leaves a well-linked list of the
-- other elements in order.
pub linked_list_remove_at-Removed :
    (fuel : ℕ) (h : Heap) (list : LinkedList) (before : Ptr) (zs : Items) (p : Ptr) (v : ℕ)
    (back : Items)
    → IsList h list before (zs ++ ((p, v) ∷ back))
    → (0 < length zs) ⊎ (before ≡ null)
    → length zs < fuel
    → length zs < 2 ^ 32
    → Returns
        (RemovedAt h list p v before (zs ++ back))
        (linked_list_remove_at fuel (some list) (length zs) h)
unfolding linked_list_remove_at
linked_list_remove_at-Removed fuel h list before zs p v back is ok_first enough small =
    let found =
      ap (λ q. remove_at_loop fuel list q 0 (length zs) h) is.head
      ∙ remove_at_loop-found fuel h list before zs p v back 0 (length zs) is.chain enough
          (omega arith) small in
    rw found (run (remove_elt-any h list before zs p v back is ok_first))
  where
    run :
        {r : Exec ((LinkedList × List ℕ) × Heap)}
        → Returns (Removed h list p v before (zs ++ back)) r
        → Returns
            (RemovedAt h list p v before (zs ++ back))
            (then_run (then_run r (λ (l, f). pure (1, l, f))) (λ (r, l, f). pure (r, some l, f)))
    run (returns w) = returns (refl, (_, refl, w))

-- On a well-linked list and with more fuel than elements, `linked_list_remove_at` at an index of
-- 32 bits past the end returns 0 and changes nothing.
pub linked_list_remove_at-past :
    (fuel : ℕ) (h : Heap) (list : LinkedList) (before : Ptr) (xs : Items) (index : ℕ)
    → IsList h list before xs
    → length xs < fuel
    → length xs ≤ index
    → index < 2 ^ 32
    → linked_list_remove_at fuel (some list) index h ≡ ok ((0, some list, []), h)
unfolding linked_list_remove_at
linked_list_remove_at-past fuel h list before xs index is enough past small =
    let missed =
      ap (λ q. remove_at_loop fuel list q 0 index h) is.head
      ∙ remove_at_loop-past fuel h list before xs 0 index is.chain enough (omega arith)
          (omega arith) in
    rw missed
