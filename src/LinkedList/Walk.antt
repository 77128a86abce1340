-- ===== src/LinkedList/Walk.antt =====
-- The functions of src/linked_list.c that walk from the head and change nothing:
-- `linked_list_get` and `linked_list_for_each`.
use blackhv.Base.{
  ℕ, zero, suc, ◌+◌, ◌%◌, ◌^◌, ◌<◌, ◌≡◌, refl, true, false, some, List, [], ◌∷◌, arith, ◌==◌,
  ==_false, length, ok,
}
use blackhv.LinkedList.{LinkedList, linked_list_get, get_loop, linked_list_for_each, for_each_loop}
use blackhv.LinkedList.Cells.{Ptr, null, Heap, load-ok}
use blackhv.LinkedList.Chain.{Items, values, first, Chain, IsList}

-- The element at an index, NULL past the end.
abbrev pub value_at : List ℕ → ℕ → ℕ
value_at [] i = null
value_at (v ∷ vs) zero = v
value_at (v ∷ vs) (suc i) = value_at vs i

get_loop-value_at :
    (fuel : ℕ) (h : Heap) (before : Ptr) (xs : Items) (i d : ℕ)
    → Chain h before xs
    → length xs < fuel
    → i + length xs < 2 ^ 32
    → get_loop fuel (first xs) i (i + d) h ≡ ok (value_at (values xs) d, h)
unfolding get_loop
get_loop-value_at zero h before xs i d c enough small = absurd (omega arith)
get_loop-value_at (suc fuel) h before [] i d c enough small = refl
get_loop-value_at (suc fuel) h before ((a, v) ∷ xs) i zero c enough small =
    let e : (i == i + 0) ≡ true = ground arith in
    rw (==_false a null c.0, load-ok h c.0 c.1, e) refl
get_loop-value_at (suc fuel) h before ((a, v) ∷ xs) i (suc d) c enough small =
    let e : (i == i + suc d) ≡ false = ground arith in
    let up : i + suc d ≡ (i + 1) + d = omega arith in
    let next : (i + 1) % 2 ^ 32 ≡ i + 1 = omega arith in
    rw (==_false a null c.0, load-ok h c.0 c.1, e, next, up)
      (get_loop-value_at fuel h a xs (i + 1) d c.3 (omega arith) (omega arith))

-- On a well-linked list of fewer than 2^32 elements and with more fuel than elements,
-- `linked_list_get` gives the value at the index, NULL past the end, and changes nothing.
pub linked_list_get-value_at :
    (h : Heap) (list : LinkedList) (before : Ptr) (xs : Items) (fuel index : ℕ)
    → IsList h list before xs
    → length xs < 2 ^ 32
    → length xs < fuel
    → linked_list_get fuel (some list) index h ≡ ok (value_at (values xs) index, h)
unfolding linked_list_get
linked_list_get-value_at h list before xs fuel index is small enough =
    let e : 0 + index ≡ index = omega arith in
    let found = get_loop-value_at fuel h before xs 0 index is.chain enough (omega arith) in
    rw is.head (rw e at found)

-- Each value with its index, from `i` on.
abbrev pub numbered : ℕ → List ℕ → List (ℕ × ℕ)
numbered i [] = []
numbered i (v ∷ vs) = (i, v) ∷ numbered (i + 1) vs

for_each_loop-numbered :
    (fuel : ℕ) (h : Heap) (before : Ptr) (xs : Items) (i : ℕ)
    → Chain h before xs
    → length xs < fuel
    → i + length xs < 2 ^ 32
    → for_each_loop fuel (first xs) i h ≡ ok (numbered i (values xs), h)
unfolding for_each_loop
for_each_loop-numbered zero h before xs i c enough small = absurd (omega arith)
for_each_loop-numbered (suc fuel) h before [] i c enough small = refl
for_each_loop-numbered (suc fuel) h before ((a, v) ∷ xs) i c enough small =
    let next : (i + 1) % 2 ^ 32 ≡ i + 1 = omega arith in
    rw
      (
        ==_false a null c.0,
        load-ok h c.0 c.1,
        next,
        for_each_loop-numbered fuel h a xs (i + 1) c.3 (omega arith) (omega arith),
      )
      refl

-- On a well-linked list of fewer than 2^32 elements and with more fuel than elements,
-- `linked_list_for_each` calls its function on every value in order, with its index, and changes
-- nothing.
pub linked_list_for_each-numbered :
    (h : Heap) (list : LinkedList) (before : Ptr) (xs : Items) (fuel : ℕ)
    → IsList h list before xs
    → length xs < 2 ^ 32
    → length xs < fuel
    → linked_list_for_each fuel (some list) h ≡ ok (numbered 0 (values xs), h)
unfolding linked_list_for_each
linked_list_for_each-numbered h list before xs fuel is small enough =
    rw is.head (for_each_loop-numbered fuel h before xs 0 is.chain enough (omega arith))
