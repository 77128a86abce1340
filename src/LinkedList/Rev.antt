-- ===== src/LinkedList/Rev.antt =====
-- `linked_list_for_each_rev` of src/linked_list.c on a list whose first `prev` is NULL.
use blackhv.Base.{
  ℕ, zero, suc, ◌+◌, ◌^◌, ◌<◌, ◌≡◌, refl, ap, ◌∙◌, some, List, [], ◌∷◌, arith, ==_false, length, ok,
}
use blackhv.LinkedList.{
  LinkedList, linked_list_for_each, linked_list_for_each_rev, for_each_rev_loop, pred_u32,
}
use blackhv.LinkedList.Cells.{Ptr, null, Heap, load-ok}
use blackhv.LinkedList.Chain.{Items, values, last_or, Chain, IsList}
use blackhv.LinkedList.Walk.{numbered, linked_list_for_each-numbered}

-- `ys` turned round, ahead of `xs`.
abbrev pub turn : {A : Type 0} → List A → List A → List A
turn [] xs = xs
turn (y ∷ ys) xs = turn ys (y ∷ xs)

-- Each value with the number of those behind it.
abbrev pub counted_down : Items → List (ℕ × ℕ)
counted_down [] = []
counted_down ((a, v) ∷ ys) = (length ys, v) ∷ counted_down ys

abbrev first_or : Ptr → Items → Ptr
first_or before [] = before
first_or before ((a, v) ∷ ys) = a

turn-Chain :
    (h : Heap) (before : Ptr) (ys xs : Items)
    → Chain h before (turn ys xs)
    → Chain h (first_or before ys) xs
turn-Chain h before [] xs c = c
turn-Chain h before ((a, v) ∷ ys) xs c = (turn-Chain h before ys ((a, v) ∷ xs) c).3

turn-last_or :
    (before : Ptr) (ys xs : Items) → last_or before (turn ys xs) ≡ last_or (first_or before ys) xs
turn-last_or before [] xs = refl
turn-last_or before ((a, v) ∷ ys) xs = turn-last_or before ys ((a, v) ∷ xs)

turn-length : (ys xs : Items) → length (turn ys xs) ≡ length ys + length xs
turn-length [] xs = omega arith
turn-length ((a, v) ∷ ys) xs = turn-length ys ((a, v) ∷ xs) ∙ omega arith

turn-numbered :
    (ys xs : Items)
    → numbered 0 (values (turn ys xs)) ≡ turn (counted_down ys) (numbered (length ys) (values xs))
turn-numbered [] xs = refl
turn-numbered ((a, v) ∷ ys) xs =
    let one : length ys + 1 ≡ length ((a, v) ∷ ys) = omega arith in
    let rest = turn-numbered ys ((a, v) ∷ xs) in rw one at rest

for_each_rev_loop-counted_down :
    (fuel : ℕ) (h : Heap) (ys xs : Items) (i : ℕ)
    → Chain h null (turn ys xs)
    → length ys < fuel
    → length ys < 2 ^ 32
    → i ≡ pred_u32 (length ys)
    → for_each_rev_loop fuel (first_or null ys) i h ≡ ok (counted_down ys, h)
unfolding for_each_rev_loop
for_each_rev_loop-counted_down zero h ys xs i c enough small at = absurd (omega arith)
for_each_rev_loop-counted_down (suc fuel) h [] xs i c enough small at = refl
for_each_rev_loop-counted_down (suc fuel) h ((a, v) ∷ ys) xs i c enough small at =
    let here = turn-Chain h null ys ((a, v) ∷ xs) c in
    let last : i ≡ length ys = at ∙ omega arith in
    rw
      (
        ==_false a null here.0,
        load-ok h here.0 here.1,
        for_each_rev_loop-counted_down fuel h ys ((a, v) ∷ xs) (pred_u32 i) c (omega arith)
            (omega arith) (ap pred_u32 last),
        last,
      )
      refl

-- On a well-linked list of fewer than 2^32 elements whose first `prev` is NULL, and with more
-- fuel than elements, `linked_list_for_each_rev` makes the calls that `linked_list_for_each`
-- makes, each value with its index, in the reverse order, and neither changes anything.
pub linked_list_for_each_rev-turn :
    (h : Heap) (list : LinkedList) (ys : Items) (fuel : ℕ)
    → IsList h list null (turn ys [])
    → length ys < 2 ^ 32
    → length ys < fuel
    → (linked_list_for_each_rev fuel (some list) h ≡ ok (counted_down ys, h))
      × (linked_list_for_each fuel (some list) h ≡ ok (turn (counted_down ys) [], h))
unfolding linked_list_for_each_rev
linked_list_for_each_rev-turn h list ys fuel is small enough =
    let long : length (turn ys []) ≡ length ys = turn-length ys [] ∙ omega arith in
    let count : pred_u32 list.size ≡ pred_u32 (length ys) =
      ap pred_u32 (is.size ∙ omega (arith, long)) in
    let end : list.tail ≡ first_or null ys = is.tail ∙ turn-last_or null ys [] in
    (
      ap (λ p. for_each_rev_loop fuel p (pred_u32 list.size) h) end
          ∙ for_each_rev_loop-counted_down fuel h ys [] (pred_u32 list.size) is.chain enough small
              count,
      linked_list_for_each-numbered h list null (turn ys []) fuel is (omega (arith, long))
            (omega (arith, long))
          ∙ ap (λ cs. ok (cs, h)) (turn-numbered ys []),
    )
