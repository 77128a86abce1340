-- ===== src/LinkedList/Cells.antt =====
-- The memory that the elements of src/linked_list.c live in, and the accesses to it.
use blackhv.Base.{
  ℕ, ◌≡◌, ◌≢◌, Option, none, some, ◌==◌, if◌then◌else◌, ==_refl, ==_false, Exec, ok, fault,
  out_of_fuel,
}

-- An address; 0 is NULL.
abbrev pub Ptr : Type 0
Ptr = ℕ

abbrev pub null : Ptr
null = 0

-- `struct linked_list_elt`. The value is a `void *` that the list never looks into.
pub record LinkedListElt : Type 0 where
  pub prev : Ptr
  pub next : Ptr
  pub value : ℕ

abbrev pub elt : Ptr → Ptr → ℕ → LinkedListElt
elt p n v = record { prev = p; next = n; value = v }

-- What each address holds; `none` where no element is allocated.
abbrev pub Heap : Type 0
Heap = Ptr → Option LinkedListElt

unfoldable pub write : Heap → Ptr → Option LinkedListElt → Heap
write h p c a = if a == p then c else h a

-- C statements: they run on a heap and leave one.
abbrev pub Cmd : Type 0 → Type 0
Cmd A = Heap → Exec (A × Heap)

abbrev pub pure : {A : Type 0} → A → Cmd A
pure a h = ok (a, h)

module _ {A B : Type 0} where
  abbrev pub then_run : Exec (A × Heap) → (A → Cmd B) → Exec (B × Heap)
  then_run (ok (a, h)) k = k a h
  then_run fault k = fault
  then_run out_of_fuel k = out_of_fuel

  infixl 5 ◌>>=◌ ◌>>◌
  abbrev pub ◌>>=◌ : Cmd A → (A → Cmd B) → Cmd B
  m >>= k = λ h. then_run (m h) k

  abbrev pub ◌>>◌ : Cmd A → Cmd B → Cmd B
  m >> n = m >>= λ _. n

-- `*p`: undefined at NULL and where nothing is allocated.
unfoldable pub load : Ptr → Cmd LinkedListElt
load p h = if p == null then fault else elim (h p) [ none ↦ fault | some e ↦ ok (e, h) ]

-- `p->next = q`
unfoldable pub set_next : Ptr → Ptr → Cmd (Unit {0})
set_next p q = do e ← load p; λ h. ok (tt, write h p (some (record e { next = q })))

-- `p->prev = q`
unfoldable pub set_prev : Ptr → Ptr → Cmd (Unit {0})
set_prev p q = do e ← load p; λ h. ok (tt, write h p (some (record e { prev = q })))

-- `free(p)` of an element.
unfoldable pub free : Ptr → Cmd (Unit {0})
free p = do e ← load p; λ h. ok (tt, write h p none)

module _ (h : Heap) {p : Ptr} {e : LinkedListElt} (ne : p ≢ null) (holds : h p ≡ some e) where
  pub load-ok : load p h ≡ ok (e, h)
  unfolding load
  load-ok = rw (==_false p null ne, holds)

  pub set_next-ok : (q : Ptr) → set_next p q h ≡ ok (tt, write h p (some (record e { next = q })))
  unfolding set_next
  set_next-ok q = rw load-ok

  pub set_prev-ok : (q : Ptr) → set_prev p q h ≡ ok (tt, write h p (some (record e { prev = q })))
  unfolding set_prev
  set_prev-ok q = rw load-ok

  pub free-ok : free p h ≡ ok (tt, write h p none)
  unfolding free
  free-ok = rw load-ok

pub write_self : (h : Heap) (p : Ptr) (c : Option LinkedListElt) → write h p c p ≡ c
unfolding write
write_self h p c = rw (==_refl p)

pub write_ne : (h : Heap) (p a : Ptr) (c : Option LinkedListElt) → a ≢ p → write h p c a ≡ h a
unfolding write
write_ne h p a c ne = rw (==_false a p ne)
