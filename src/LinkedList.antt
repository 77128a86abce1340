-- ===== src/LinkedList.antt =====
-- src/linked_list.c: a doubly linked list over an explicit heap of elements.
-- A `linked_list_t *` is an Option, `none` for NULL; a function that updates the structure returns
-- the new one. Callbacks appear as what they are called with: `free_func` and `func` as the list of
-- their calls in order. Loops run on fuel.
pub mod Cells
pub mod Chain
pub mod Add
pub mod Walk
pub mod Pop
pub mod Relink
pub mod Remove
pub mod RemoveAt
pub mod RemoveEq
pub mod Rev
pub mod Cycle
pub mod Free
pub mod Tests
use blackhv.Base.{
  ℕ, zero, suc, ◌+◌, ◌-◌, ◌*◌, ◌/◌, ◌%◌, ◌^◌, ◌≤◌, ◌<◌, min, ◌≡◌, refl, sym, ap, ◌∙◌, ◌≢◌, ◌↔◌, ◌⊎◌,
  inl, inr, Bool, true, false, not, ◌&&◌, ◌||◌, Option, none, some, List, [], ◌∷◌, ◌++◌, map,
  append_assoc, append-nil, arith, ltb, leb, ◌==◌, if◌then◌else◌, int_of, ==_iff, ==_refl, ==_false,
  lt→ltb, le→ltb, Bool-cases, Option-cases, length, get_elem?, set, take, drop, replicate, All,
  length-append, length-set, length-take, length-drop, length-replicate, get_elem?-set_self,
  get_elem?-set_ne, get_elem?-some, drop-cons_of_get, take_cons, access, Returns-mono, Returns-bind,
  Returns-value, Exec, Returns, ok, fault, out_of_fuel, returns,
}
use blackhv.LinkedList.Cells.{
  Ptr, null, LinkedListElt, elt, Heap, write, Cmd, pure, ◌>>=◌, ◌>>◌, load, set_next, set_prev,
  free,
}

-- `linked_list_t`; of `free_func` the model keeps whether it is set.
pub record LinkedList : Type 0 where
  pub head : Ptr
  pub tail : Ptr
  pub size : ℕ
  pub free_func : Bool

-- `linked_list_new`, with whether `malloc` succeeds.
pub linked_list_new : (memory : Bool) (free_func : Bool) → Option LinkedList
linked_list_new false free_func = none
linked_list_new true free_func =
    some (record { head = null; tail = null; size = 0; free_func = free_func })

-- `linked_list_add`; `fresh` is what `malloc` returns.
link_last : (fresh : Ptr) → LinkedList → Cmd LinkedList
link_last fresh list =
    if not (list.tail == null)
    then (do set_next list.tail fresh; set_prev list.head fresh; pure list)
    else pure (record list { head = fresh })

pub linked_list_add : (fresh : Ptr) → Option LinkedList → ℕ → Cmd (ℕ × Option LinkedList)
unfolding link_last
linked_list_add fresh none value = pure (0, none)
linked_list_add fresh (some list) value = if fresh == null then pure (0, some list) else do
  λ h. ok (tt, write h fresh (some (elt list.tail null value)))
  list' ← link_last fresh list
  pure (1, some (record list' { tail = fresh; size = (list.size + 1) % 2 ^ 32 }))

-- `linked_list_get`'s loop.
get_loop : ℕ → Ptr → (i index : ℕ) → Cmd ℕ
get_loop zero p i index = λ h. out_of_fuel
get_loop (suc fuel) p i index = if p == null then pure null else do
  e ← load p
  let rest = get_loop fuel e.next ((i + 1) % 2 ^ 32) index
  if i == index then pure e.value else rest

pub linked_list_get : (fuel : ℕ) → Option LinkedList → ℕ → Cmd ℕ
unfolding get_loop
linked_list_get fuel none index = pure null
linked_list_get fuel (some list) index = get_loop fuel list.head 0 index

-- `--list->size` on an `unsigned int`.
abbrev pub pred_u32 : ℕ → ℕ
pred_u32 n = (n + 2 ^ 32 - 1) % 2 ^ 32

unlink_tail : LinkedList → Ptr → Cmd LinkedList
unlink_tail list tail =
    if tail == list.head
    then pure (record list { tail = null; head = null; size = 0 })
    else (do e ← load tail; set_next e.prev null; pure (record list { size = pred_u32 list.size }))

pub linked_list_pop_tail : Option LinkedList → Cmd (ℕ × Option LinkedList)
unfolding unlink_tail
linked_list_pop_tail none = pure (null, none)
linked_list_pop_tail (some list) = if list.tail == null then pure (null, some list) else do
  e ← load list.tail
  list' ← unlink_tail list list.tail
  last ← load list.tail
  free list.tail
  pure (e.value, some (record list' { tail = last.prev }))

unlink_front : LinkedList → Ptr → Cmd LinkedList
unlink_front list head =
    if head == list.tail
    then pure (record list { head = null; tail = null; size = 0 })
    else (do e ← load head; set_prev e.next null; pure (record list { size = pred_u32 list.size }))

pub linked_list_pop_front : Option LinkedList → Cmd (ℕ × Option LinkedList)
unfolding unlink_front
linked_list_pop_front none = pure (null, none)
linked_list_pop_front (some list) = if list.head == null then pure (null, some list) else do
  e ← load list.head
  list' ← unlink_front list list.head
  first ← load list.head
  free list.head
  pure (e.value, some (record list' { head = first.next }))

-- `remove_elt`; the values given to `free_func` come back as a list.
pub remove_elt : LinkedList → Ptr → Cmd (LinkedList × List ℕ)
remove_elt list p = do
  e ← load p
  (if e.prev == null then pure tt else set_next e.prev e.next)
  e ← load p
  (if e.next == null then pure tt else set_prev e.next e.prev)
  e ← load p
  let head = if list.head == p then e.next else list.head
  let tail = if list.tail == p then e.prev else list.tail
  free p
  pure (
    record list { head = head; tail = tail; size = pred_u32 list.size },
    if list.free_func then e.value ∷ [] else [],
  )

-- `linked_list_remove_at`'s loop: the result, the list and the values freed.
pub remove_at_loop : ℕ → LinkedList → Ptr → (i index : ℕ) → Cmd (ℕ × LinkedList × List ℕ)
remove_at_loop zero list p i index = λ h. out_of_fuel
remove_at_loop (suc fuel) list p i index = if p == null then pure (0, list, []) else do
  let removal = (do (list', freed) ← remove_elt list p; pure (1, list', freed))
  e ← load p
  let rest = remove_at_loop fuel list e.next ((i + 1) % 2 ^ 32) index
  if i == index then removal else rest

pub linked_list_remove_at :
    (fuel : ℕ) → Option LinkedList → ℕ → Cmd (ℕ × Option LinkedList × List ℕ)
unfolding remove_at_loop
linked_list_remove_at fuel none index = pure (0, none, [])
linked_list_remove_at fuel (some list) index = do
  (r, list', freed) ← remove_at_loop fuel list list.head 0 index
  pure (r, some list', freed)

-- `linked_list_remove_eq`'s loop, `eq` being `eq_func`.
pub remove_eq_loop : ℕ → (ℕ → ℕ) → LinkedList → Ptr → (removed : ℕ) → Cmd (ℕ × LinkedList × List ℕ)
remove_eq_loop zero eq list p removed = λ h. out_of_fuel
remove_eq_loop (suc fuel) eq list p removed = if p == null then pure (removed, list, []) else do
  e ← load p
  (removed', list', freed) ←
      (if eq e.value == 1
        then (do (l, f) ← remove_elt list p; pure ((removed + 1) % 2 ^ 32, l, f))
        else pure (removed, list, []))
  (r, list'', freed') ← remove_eq_loop fuel eq list' e.next removed'
  pure (r, list'', freed ++ freed')

pub linked_list_remove_eq :
    (fuel : ℕ) → Option LinkedList → Option (ℕ → ℕ) → Cmd (ℕ × Option LinkedList × List ℕ)
unfolding remove_eq_loop
linked_list_remove_eq fuel none eq_func = pure (0, none, [])
linked_list_remove_eq fuel (some list) none = pure (0, some list, [])
linked_list_remove_eq fuel (some list) (some eq) = do
  (r, list', freed) ← remove_eq_loop fuel eq list list.head 0
  pure (r, some list', freed)

-- The calls `func(i, value)` of `linked_list_for_each`.
for_each_loop : ℕ → Ptr → (i : ℕ) → Cmd (List (ℕ × ℕ))
for_each_loop zero p i = λ h. out_of_fuel
for_each_loop (suc fuel) p i = if p == null then pure [] else do
  e ← load p
  calls ← for_each_loop fuel e.next ((i + 1) % 2 ^ 32)
  pure ((i, e.value) ∷ calls)

pub linked_list_for_each : (fuel : ℕ) → Option LinkedList → Cmd (List (ℕ × ℕ))
unfolding for_each_loop
linked_list_for_each fuel none = pure []
linked_list_for_each fuel (some list) = for_each_loop fuel list.head 0

for_each_rev_loop : ℕ → Ptr → (i : ℕ) → Cmd (List (ℕ × ℕ))
for_each_rev_loop zero p i = λ h. out_of_fuel
for_each_rev_loop (suc fuel) p i = if p == null then pure [] else do
  e ← load p
  calls ← for_each_rev_loop fuel e.prev (pred_u32 i)
  pure ((i, e.value) ∷ calls)

pub linked_list_for_each_rev : (fuel : ℕ) → Option LinkedList → Cmd (List (ℕ × ℕ))
unfolding for_each_rev_loop
linked_list_for_each_rev fuel none = pure []
linked_list_for_each_rev fuel (some list) = for_each_rev_loop fuel list.tail (pred_u32 list.size)

-- `linked_list_size`.
pub linked_list_size : Option LinkedList → ℕ
linked_list_size none = 0
linked_list_size (some list) = list.size

-- `linked_list_free`: the values given to `free_func`.
pub free_loop : ℕ → Bool → Ptr → Cmd (List ℕ)
free_loop zero frees p = λ h. out_of_fuel
free_loop (suc fuel) frees p = if p == null then pure [] else do
  e ← load p
  free p
  freed ← free_loop fuel frees e.next
  pure (if frees then e.value ∷ freed else freed)

pub linked_list_free : (fuel : ℕ) → Option LinkedList → Cmd (List ℕ)
unfolding free_loop
linked_list_free fuel none = pure []
linked_list_free fuel (some list) = free_loop fuel list.free_func list.head
