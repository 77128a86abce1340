-- ===== src/LinkedList/RemoveEq.antt =====
-- `linked_list_remove_eq` of src/linked_list.c.
use blackhv.Base.{
  ℕ, zero, suc, ◌+◌, ◌%◌, ◌^◌, ◌<◌, ◌≡◌, refl, ap, ◌∙◌, ◌⊎◌, inl, inr, Bool, true, false, Option,
  some, List, [], ◌∷◌, ◌++◌, append_assoc, arith, ◌==◌, if◌then◌else◌, int_of, ==_false, Bool-cases,
  length, length-append, Exec, Returns, returns,
}
use blackhv.LinkedList.{LinkedList, remove_eq_loop, linked_list_remove_eq}
use blackhv.LinkedList.Cells.{Ptr, null, Heap, load-ok, then_run}
use blackhv.LinkedList.Chain.{Items, first, last_or, Chain, IsList}
use blackhv.LinkedList.Remove.{Removed, remove_elt-any}

-- The elements that `eq_func` leaves, the number of the others, and what of these is freed.
abbrev pub kept : (ℕ → ℕ) → Items → Items
kept eq [] = []
kept eq ((a, v) ∷ xs) = if eq v == 1 then kept eq xs else ((a, v) ∷ kept eq xs)

abbrev pub matches : (ℕ → ℕ) → Items → ℕ
matches eq [] = 0
matches eq ((a, v) ∷ xs) = int_of (eq v == 1) + matches eq xs

abbrev pub freed_all : Bool → (ℕ → ℕ) → Items → List ℕ
freed_all free_func eq [] = []
freed_all free_func eq ((a, v) ∷ xs) =
    (if eq v == 1 then (if free_func then v ∷ [] else []) else []) ++ freed_all free_func eq xs

-- A list behind `zs` without its matching elements.
abbrev pub Left :
    (ℕ → ℕ)
    → LinkedList
    → Ptr
    → (zs xs : Items) → (removed : ℕ) → (ℕ × LinkedList × List ℕ) × Heap
    → Type 0
Left eq list before zs xs removed ((r, list', out), g) =
    IsList g list' before (zs ++ kept eq xs)
    × (r ≡ (removed + matches eq xs) % 2 ^ 32)
    × (out ≡ freed_all list.free_func eq xs)
    × (list'.free_func ≡ list.free_func)

Returns-then_run :
    {A B : Type 0} {P : A × Heap → Type 0} {Q : B × Heap → Type 0} {r : Exec (A × Heap)}
    {k : A → Heap → Exec (B × Heap)}
    → Returns P r
    → ((a : A) (g : Heap) → P (a, g) → Returns Q (k a g))
    → Returns Q (then_run r k)
Returns-then_run (returns {a = (a, g)} p) next = next a g p

Chain-behind :
    (h : Heap) (before : Ptr) (zs xs : Items)
    → Chain h before (zs ++ xs)
    → Chain h (last_or before zs) xs
Chain-behind h before [] xs c = c
Chain-behind h before ((a, v) ∷ zs) xs c = Chain-behind h a zs xs c.3

Left-removed :
    (eq : ℕ → ℕ) (list : LinkedList) (before : Ptr) (zs : Items) (p v : Ptr) (back : Items)
    (removed r : ℕ) (list' : LinkedList) (out : List ℕ) (g : Heap)
    → (eq v == 1) ≡ true
    → IsList g list' before (zs ++ kept eq back)
    → r ≡ (removed + (1 + matches eq back)) % 2 ^ 32
    → out ≡ (if list.free_func then v ∷ [] else []) ++ freed_all list.free_func eq back
    → list'.free_func ≡ list.free_func
    → Left eq list before zs ((p, v) ∷ back) removed ((r, list', out), g)
Left-removed eq list before zs p v back removed r list' out g on left count gone func =
    rw on (left, count, gone, func)

Left-kept :
    (eq : ℕ → ℕ) (list : LinkedList) (before : Ptr) (zs : Items) (p v : Ptr) (back : Items)
    (removed r : ℕ) (list' : LinkedList) (out : List ℕ) (g : Heap)
    → (eq v == 1) ≡ false
    → IsList g list' before (zs ++ ((p, v) ∷ kept eq back))
    → r ≡ (removed + matches eq back) % 2 ^ 32
    → out ≡ freed_all list.free_func eq back
    → list'.free_func ≡ list.free_func
    → Left eq list before zs ((p, v) ∷ back) removed ((r, list', out), g)
Left-kept eq list before zs p v back removed r list' out g off left count gone func =
    rw off (left, count ∙ omega arith, gone, func)

remove_eq_loop-Left :
    (fuel : ℕ) (eq : ℕ → ℕ) (h : Heap) (list : LinkedList) (before : Ptr) (zs xs : Items)
    (removed : ℕ)
    → IsList h list before (zs ++ xs)
    → (0 < length zs) ⊎ (before ≡ null)
    → length xs < fuel
    → removed < 2 ^ 32
    → Returns (Left eq list before zs xs removed) (remove_eq_loop fuel eq list (first xs) removed h)
unfolding remove_eq_loop
remove_eq_loop-Left zero eq h list before zs xs removed is ok_first enough small =
    absurd (omega arith)
remove_eq_loop-Left (suc fuel) eq h list before zs [] removed is ok_first enough small =
    returns (is, omega arith, refl, refl)
remove_eq_loop-Left (suc fuel) eq h list before zs ((p, v) ∷ back) removed is ok_first enough
      small =
    let c = Chain-behind h before zs ((p, v) ∷ back) is.chain in
    let there : (p == null) ≡ false = ==_false p null c.0 in
    elim (Bool-cases (eq v == 1)) [
      | inl on ↦
          let less : (removed + 1) % 2 ^ 32 < 2 ^ 32 = omega arith in
          rw (there, load-ok h c.0 c.1, on)
            (Returns-then_run
              (Returns-then_run
                {Q = λ ((r, l, f), g).
                  (r ≡ (removed + 1) % 2 ^ 32) × Removed h list p v before (zs ++ back) ((l, f), g)}
                (remove_elt-any h list before zs p v back is ok_first)
                λ (l, f) g done. returns (refl, done))
              λ (r, l, f) g (count, (is', func, out, gone, same)). rw count (
                Returns-then_run
                  (remove_eq_loop-Left fuel eq g l before zs back ((removed + 1) % 2 ^ 32) is'
                    ok_first (omega arith) less)
                  λ (r', l', f') g' (left, count', out', func'). returns (
                    Left-removed eq list before zs p v back removed r' l' (f ++ f') g' on left
                      (count' ∙ omega arith) (rw (out, out', func) refl) (func' ∙ func))))
      | inr off ↦
          let regroup : (zs ++ ((p, v) ∷ [])) ++ back ≡ zs ++ ((p, v) ∷ back) =
            append_assoc zs ((p, v) ∷ []) back in
          let regroup' : (zs ++ ((p, v) ∷ [])) ++ kept eq back ≡ zs ++ ((p, v) ∷ kept eq back) =
            append_assoc zs ((p, v) ∷ []) (kept eq back) in
          rw (there, load-ok h c.0 c.1, off)
            (Returns-then_run
              (remove_eq_loop-Left fuel eq h list before (zs ++ ((p, v) ∷ [])) back removed
                (rw regroup is) (inl (omega (arith, length-append zs ((p, v) ∷ [])))) (omega arith)
                small)
              λ (r, l, f) g (left, count, out, func). returns (
                Left-kept eq list before zs p v back removed r l f g off (rw regroup' at left) count
                  out func))
    ]

-- What `linked_list_remove_eq` returns on a list, with the values freed.
abbrev pub LeftOption :
    (ℕ → ℕ) → LinkedList → Ptr → Items → (ℕ × Option LinkedList × List ℕ) × Heap → Type 0
LeftOption eq list before xs ((r, out, f), g) =
    (list' : LinkedList) × (out ≡ some list') × Left eq list before [] xs 0 ((r, list', f), g)

-- On a well-linked list whose first `prev` is NULL, and with more fuel than elements,
-- `linked_list_remove_eq` removes the elements for which `eq_func` gives 1 and no other, gives
-- their values to `free_func` in order where there is one, leaves a well-linked list of the other
-- elements in order, and returns the number of the removed ones in 32 bits.
pub linked_list_remove_eq-Left :
    (fuel : ℕ) (eq : ℕ → ℕ) (h : Heap) (list : LinkedList) (xs : Items)
    → IsList h list null xs
    → length xs < fuel
    → Returns (LeftOption eq list null xs) (linked_list_remove_eq fuel (some list) (some eq) h)
unfolding linked_list_remove_eq
linked_list_remove_eq-Left fuel eq h list xs is enough =
    let start = ap (λ q. remove_eq_loop fuel eq list q 0 h) is.head in
    rw start (
      Returns-then_run
        (remove_eq_loop-Left fuel eq h list null [] xs 0 is (inr refl) enough (omega arith))
        λ (r, l, f) g left. returns (l, refl, left))
