-- ===== src/LinkedList/Tests.antt =====
-- The theorems on src/linked_list.c at a list of three elements, whose first `prev` is the last one.
use blackhv.Base.{
  ℕ, ◌≡◌, refl, inl, int_of, ◌==◌, ◌||◌, true, false, none, some, [], ◌∷◌, arith, Returns, ok,
  fault, out_of_fuel,
}
use blackhv.LinkedList.{
  LinkedList, linked_list_add, linked_list_get, linked_list_pop_tail, linked_list_pop_front,
  linked_list_remove_at, linked_list_remove_eq, linked_list_for_each, linked_list_for_each_rev,
  linked_list_free,
}
use blackhv.LinkedList.Cells.{null, elt, Heap, write, ◌>>=◌}
use blackhv.LinkedList.Chain.{Items, Chain, IsList}
use blackhv.LinkedList.Add.{Added, linked_list_add-append}
use blackhv.LinkedList.Walk.{linked_list_get-value_at, linked_list_for_each-numbered}
use blackhv.LinkedList.Pop.{
  Popped, linked_list_pop_front-tail, linked_list_pop_tail-snoc, pop_tail_add-fault,
}
use blackhv.LinkedList.RemoveAt.{RemovedAt, linked_list_remove_at-Removed}
use blackhv.LinkedList.RemoveEq.{LeftOption, linked_list_remove_eq-Left}
use blackhv.LinkedList.Rev.{linked_list_for_each_rev-turn}
use blackhv.LinkedList.Cycle.{linked_list_for_each_rev-endless, remove_first-endless}
use blackhv.LinkedList.Free.{Released, linked_list_free-Released}

-- The values 70, 80 and 90 at the addresses 1, 2 and 3.
abbrev items : Items
items = (1, 70) ∷ (2, 80) ∷ (3, 90) ∷ []

abbrev cells : Heap
cells =
    write (write (write (λ a. none) 1 (some (elt 3 2 70))) 2 (some (elt 1 3 80))) 3
      (some (elt 2 0 90))

abbrev three : LinkedList
three = record { head = 1; tail = 3; size = 3; free_func = true }

items-Chain : Chain cells 3 items
unfolding write
items-Chain = (
  omega arith,
  refl,
  (omega arith, (omega arith, tt)),
  (omega arith, refl, (omega arith, tt), (omega arith, refl, tt, tt)),
)

three-IsList : IsList cells three 3 items
three-IsList = record { chain = items-Chain; head = refl; tail = refl; size = refl }

linked_list_add-append_example :
    Returns (Added cells three items 9 60) (linked_list_add 9 (some three) 60 cells)
unfolding write
linked_list_add-append_example =
    linked_list_add-append cells three 3 items 9 60 three-IsList (omega arith) refl

linked_list_get-value_at_example : linked_list_get 4 (some three) 2 cells ≡ ok (90, cells)
linked_list_get-value_at_example =
    linked_list_get-value_at cells three 3 items 4 2 three-IsList (omega arith) (omega arith)

linked_list_for_each-numbered_example :
    linked_list_for_each 4 (some three) cells ≡ ok ((0, 70) ∷ (1, 80) ∷ (2, 90) ∷ [], cells)
linked_list_for_each-numbered_example =
    linked_list_for_each-numbered cells three 3 items 4 three-IsList (omega arith) (omega arith)

linked_list_pop_front-tail_example :
    Returns
      (Popped cells three 1 70 null ((2, 80) ∷ (3, 90) ∷ []))
      (linked_list_pop_front (some three) cells)
linked_list_pop_front-tail_example =
    linked_list_pop_front-tail cells three 3 1 70 ((2, 80) ∷ (3, 90) ∷ []) three-IsList

linked_list_pop_tail-snoc_example :
    Returns
      (Popped cells three 3 90 3 ((1, 70) ∷ (2, 80) ∷ []))
      (linked_list_pop_tail (some three) cells)
linked_list_pop_tail-snoc_example =
    linked_list_pop_tail-snoc cells three 3 1 70 ((2, 80) ∷ []) 3 90 three-IsList

linked_list_remove_at-Removed_example :
    Returns
      (RemovedAt cells three 2 80 3 ((1, 70) ∷ (3, 90) ∷ []))
      (linked_list_remove_at 4 (some three) 1 cells)
linked_list_remove_at-Removed_example =
    linked_list_remove_at-Removed 4 cells three 3 ((1, 70) ∷ []) 2 80 ((3, 90) ∷ []) three-IsList
      (inl (omega arith)) (omega arith) (omega arith)

-- The same list with NULL before its first element.
abbrev cells_null : Heap
cells_null =
    write (write (write (λ a. none) 1 (some (elt null 2 70))) 2 (some (elt 1 3 80))) 3
      (some (elt 2 0 90))

cells_null-Chain : Chain cells_null null items
unfolding write
cells_null-Chain = (
  omega arith,
  refl,
  (omega arith, (omega arith, tt)),
  (omega arith, refl, (omega arith, tt), (omega arith, refl, tt, tt)),
)

abbrev is_70_or_90 : ℕ → ℕ
is_70_or_90 v = int_of ((v == 70) || (v == 90))

three-from_null : IsList cells_null three null items
three-from_null = record { chain = cells_null-Chain; head = refl; tail = refl; size = refl }

linked_list_for_each_rev-turn_example :
    (linked_list_for_each_rev 4 (some three) cells_null
      ≡ ok ((2, 90) ∷ (1, 80) ∷ (0, 70) ∷ [], cells_null))
    × (linked_list_for_each 4 (some three) cells_null
        ≡ ok ((0, 70) ∷ (1, 80) ∷ (2, 90) ∷ [], cells_null))
linked_list_for_each_rev-turn_example =
    linked_list_for_each_rev-turn cells_null three ((3, 90) ∷ (2, 80) ∷ (1, 70) ∷ []) 4
      three-from_null (omega arith) (omega arith)

linked_list_remove_eq-Left_example :
    Returns
      (LeftOption is_70_or_90 three null items)
      (linked_list_remove_eq 4 (some three) (some is_70_or_90) cells_null)
linked_list_remove_eq-Left_example =
    linked_list_remove_eq-Left 4 is_70_or_90 cells_null three items three-from_null (omega arith)

linked_list_free-Released_example :
    Returns (Released cells true items) (linked_list_free 4 (some three) cells)
linked_list_free-Released_example =
    linked_list_free-Released 4 cells three 3 items three-IsList (omega arith)

linked_list_for_each_rev-endless_example :
    linked_list_for_each_rev 1000 (some three) cells ≡ out_of_fuel
linked_list_for_each_rev-endless_example =
    linked_list_for_each_rev-endless 1000 cells three 1 70 ((2, 80) ∷ (3, 90) ∷ []) three-IsList

remove_first-endless_example :
    (do (r, out, f) ← linked_list_remove_at 4 (some three) 0; linked_list_for_each 1000 out) cells
    ≡ out_of_fuel
remove_first-endless_example =
    remove_first-endless cells three 1 70 2 80 ((3, 90) ∷ []) three-IsList 3 1000

-- One element that is left of two, with the `prev` that an add gave it.
abbrev last_cell : Heap
last_cell = write (λ a. none) 1 (some (elt 2 0 70))

abbrev single : LinkedList
single = record { head = 1; tail = 1; size = 1; free_func = false }

single-IsList : IsList last_cell single 2 ((1, 70) ∷ [])
unfolding write
single-IsList = record {
  chain = (omega arith, refl, tt, tt);
  head = refl;
  tail = refl;
  size = refl;
}

pop_tail_add-fault_example :
    (do (r, out) ← linked_list_pop_tail (some single); linked_list_add 9 out 60) last_cell ≡ fault
pop_tail_add-fault_example =
    pop_tail_add-fault last_cell single 2 1 70 9 60 single-IsList (omega arith) (omega arith)
