-- ===== src/LinkedList/Cycle.antt =====
-- What happens in src/linked_list.c where the `prev` of the first element is the last element, as
-- `linked_list_add` leaves it in any list of at least two.
use native.Mathlib.Decide.{ℕ_discrete}
use blackhv.Base.{
  ℕ, zero, suc, ◌+◌, ◌%◌, ◌^◌, ◌≡◌, refl, sym, ap, ◌∙◌, ◌≢◌, ◌⊎◌, inl, inr, Option, none, some,
  List, [], ◌∷◌, arith, ==_refl, ==_false, Exec, Returns, out_of_fuel, returns,
}
use blackhv.LinkedList.{
  LinkedList, remove_elt, linked_list_remove_at, remove_at_loop, linked_list_for_each,
  for_each_loop, linked_list_for_each_rev, for_each_rev_loop, pred_u32,
}
use blackhv.LinkedList.Cells.{
  Ptr, null, LinkedListElt, elt, Heap, write, write_self, write_ne, load-ok, set_next-ok,
  set_prev-ok, free-ok, ◌>>=◌, pure, then_run,
}
use blackhv.LinkedList.Remove.{remove_at_loop-found}
use blackhv.LinkedList.Chain.{
  Items, first, last_or, Absent, Chain, IsList, last_or-ne_null, Absent-last,
}

abbrev In : Ptr → Items → Type 0
In a [] = ⊥
In a ((b, v) ∷ xs) = (a ≡ b) ⊎ In a xs

-- Among the elements of `xs` a field leads only to elements of `xs`.
abbrev Closed : (LinkedListElt → Ptr) → Heap → Items → Type 0
Closed field h xs =
    (a : Ptr) → In a xs → (a ≢ null) × ((e : LinkedListElt) × (h a ≡ some e) × In (field e) xs)

In-last : (a : Ptr) (v : ℕ) (xs : Items) → In (last_or a xs) ((a, v) ∷ xs)
In-last a v [] = inl refl
In-last a v ((b, w) ∷ xs) = inr (In-last b w xs)

In-eq : (a b : Ptr) (xs : Items) → a ≡ b → In b xs → In a xs
In-eq a b xs e m = rw e m

-- A walk in a closed set never ends.
for_each_loop-endless :
    (fuel : ℕ) (h : Heap) (xs : Items) (p : Ptr) (i : ℕ)
    → Closed (λ e. e.next) h xs
    → In p xs
    → for_each_loop fuel p i h ≡ out_of_fuel
unfolding for_each_loop
for_each_loop-endless zero h xs p i closed m = refl
for_each_loop-endless (suc fuel) h xs p i closed m =
    let (ne, (e, at, n)) = closed p m in
    rw (
      ==_false p null ne,
      load-ok h ne at,
      for_each_loop-endless fuel h xs e.next ((i + 1) % 2 ^ 32) closed n,
    )

for_each_rev_loop-endless :
    (fuel : ℕ) (h : Heap) (xs : Items) (p : Ptr) (i : ℕ)
    → Closed (λ e. e.prev) h xs
    → In p xs
    → for_each_rev_loop fuel p i h ≡ out_of_fuel
unfolding for_each_rev_loop
for_each_rev_loop-endless zero h xs p i closed m = refl
for_each_rev_loop-endless (suc fuel) h xs p i closed m =
    let (ne, (e, at, n)) = closed p m in
    rw (
      ==_false p null ne,
      load-ok h ne at,
      for_each_rev_loop-endless fuel h xs e.prev (pred_u32 i) closed n,
    )

-- In a chain each `prev` is `before` or an element.
Chain-prev :
    (h : Heap) (before : Ptr) (xs : Items) (a : Ptr)
    → Chain h before xs
    → In a xs
    → (a ≢ null) × ((e : LinkedListElt) × (h a ≡ some e) × ((e.prev ≡ before) ⊎ In e.prev xs))
Chain-prev h before [] a c m = elim m [ ]
Chain-prev h before ((b, v) ∷ xs) a (ne, at, out, c) (inl q) =
    rw q (ne, (elt before (first xs) v, at, inl refl))
Chain-prev h before ((b, v) ∷ xs) a (ne, at, out, c) (inr m) =
    let (na, (e, ate, k)) = Chain-prev h b xs a c m in
    (na, (e, ate, elim k [ inl q ↦ inr (inl q) | inr n ↦ inr (inr n) ]))

-- On a well-linked list whose first `prev` is its last element, `linked_list_for_each_rev` has
-- not ended after any number of rounds.
pub linked_list_for_each_rev-endless :
    (fuel : ℕ) (h : Heap) (list : LinkedList) (a : Ptr) (v : ℕ) (xs : Items)
    → IsList h list (last_or a xs) ((a, v) ∷ xs)
    → linked_list_for_each_rev fuel (some list) h ≡ out_of_fuel
unfolding linked_list_for_each_rev
linked_list_for_each_rev-endless fuel h list a v xs is = rw is.tail (
    for_each_rev_loop-endless fuel h ((a, v) ∷ xs) (last_or a xs) (pred_u32 list.size) closed
      (In-last a v xs))
  where
    closed : Closed (λ e. e.prev) h ((a, v) ∷ xs)
    closed b m =
        let (nb, (e, at, k)) = Chain-prev h (last_or a xs) ((a, v) ∷ xs) b is.chain m in
        (
          nb,
          (
            e,
            at,
            elim k [ inl q ↦ In-eq _ (last_or a xs) ((a, v) ∷ xs) q (In-last a v xs) | inr n ↦ n ],
          ),
        )

-- In a chain each `next` but the last one's is an element.
Chain-next :
    (h : Heap) (before b : Ptr) (w : ℕ) (xs : Items) (c : Ptr)
    → Chain h before ((b, w) ∷ xs)
    → In c ((b, w) ∷ xs)
    → (c ≢ null)
      × ((e : LinkedListElt) × (h c ≡ some e) × ((c ≡ last_or b xs) ⊎ In e.next ((b, w) ∷ xs)))
Chain-next h before b w [] c (ne, at, _, _) (inl q) = rw q (ne, (elt before null w, at, inl refl))
Chain-next h before b w [] c k (inr m) = elim m [ ]
Chain-next h before b w ((d, u) ∷ xs) c (ne, at, _, _) (inl q) =
    rw q (ne, (elt before d w, at, inr (inr (inl refl))))
Chain-next h before b w ((d, u) ∷ xs) c (_, _, _, k) (inr m) =
    let (nc, (e, ate, l)) = Chain-next h b d u xs c k m in
    (nc, (e, ate, elim l [ inl q ↦ inl q | inr n ↦ inr (inr n) ]))

-- A write whose `next` stays among the elements keeps, or makes, the set closed.
Closed-write :
    (h : Heap) (b : Ptr) (e : LinkedListElt) (xs : Items)
    → ((c : Ptr)
        → In c xs
        → c ≢ b
        → (c ≢ null) × ((f : LinkedListElt) × (h c ≡ some f) × In f.next xs))
    → b ≢ null
    → In e.next xs
    → Closed (λ e. e.next) (write h b (some e)) xs
Closed-write h b e xs others nb n c m = elim (ℕ_discrete c b) [
  | yes q ↦ rw q (nb, (e, write_self h b _, n))
  | no q ↦ let (nc, (f, at, k)) = others c m q in (nc, (f, write_ne h b c _ q ∙ at, k))
]

Closed-elsewhere :
    (h : Heap) (a : Ptr) (xs : Items)
    → Closed (λ e. e.next) h xs
    → Absent a xs
    → Closed (λ e. e.next) (write h a none) xs
Closed-elsewhere h a xs closed out c m =
    let (nc, (f, at, k)) = closed c m in (nc, (f, write_ne h a c none (apart xs c out m) ∙ at, k))
  where
    apart : (ys : Items) (d : Ptr) → Absent a ys → In d ys → d ≢ a
    apart [] d o i q = i
    apart ((b, v) ∷ ys) d (n, o) (inl p) q = n (sym q ∙ p)
    apart ((b, v) ∷ ys) d (n, o) (inr i) q = apart ys d o i q

-- The run of `remove_elt` on the first of at least two elements, whose `prev` is the last one.
module _ (h : Heap) (list : LinkedList) (a : Ptr) (v : ℕ) (b : Ptr) (w : ℕ) (xs : Items)
    (is : IsList h list (last_or b xs) ((a, v) ∷ (b, w) ∷ xs)) where
  -- What is left in memory is a ring.
  Ring : LinkedList × List ℕ → Heap → Type 0
  Ring (list', f) g = (list'.head ≡ b) × Closed (λ e. e.next) g ((b, w) ∷ xs)

  remove_first-Ring : Returns (λ (out, g). Ring out g) (remove_elt list a h)
  unfolding remove_elt Ring
  remove_first-Ring =
      let (na, at, out, c) = is.chain in
      let z = last_or b xs in
      let nz : z ≢ null = last_or-ne_null h a b w xs c in
      let az : a ≢ z = Absent-last a b w xs out in
      let (_, (ez, atz, _)) = Chain-next h a b w xs z c (In-last b w xs) in
      let g1 = write h z (some (record ez { next = b })) in
      let closed1 =
        Closed-write h z (record ez { next = b }) ((b, w) ∷ xs)
          (λ d m q.
            let (nd, (f, atd, k)) = Chain-next h a b w xs d c m in
            (nd, (f, atd, elim k [ inl r ↦ absurd (q r) | inr n ↦ n ])))
          nz (inl refl) in
      let at1 : g1 a ≡ some (elt z b v) = write_ne h z a _ az ∙ at in
      let (nb, (f, atb, kb)) = closed1 b (inl refl) in
      let g2 = write g1 b (some (record f { prev = z })) in
      let closed2 =
        Closed-write g1 b (record f { prev = z }) ((b, w) ∷ xs) (λ d m q. closed1 d m) nb kb in
      let at2 : g2 a ≡ some (elt z b v) = write_ne g1 b a _ out.0 ∙ at1 in
      rw
        (
          load-ok h na at,
          ==_false z null nz,
          set_next-ok h nz atz b,
          load-ok g1 na at1,
          ==_false b null nb,
          set_prev-ok g1 nb atb z,
          load-ok g2 na at2,
          is.head,
          ==_refl a,
          free-ok g2 na at2,
        )
        (returns (refl, Closed-elsewhere g2 a ((b, w) ∷ xs) closed2 out))

  -- On a well-linked list of at least two elements whose first `prev` is its last element,
  -- `linked_list_for_each` after `linked_list_remove_at` of the first element has not ended after
  -- any number of rounds.
  pub remove_first-endless :
      (k fuel : ℕ)
      → ((do
        (r, out, f) ← linked_list_remove_at (suc k) (some list) 0
        linked_list_for_each fuel out)
          h)
        ≡ out_of_fuel
  unfolding linked_list_remove_at linked_list_for_each Ring
  remove_first-endless k fuel =
      let found =
        ap (λ q. remove_at_loop (suc k) list q 0 0 h) is.head
        ∙ remove_at_loop-found (suc k) h list (last_or b xs) [] a v ((b, w) ∷ xs) 0 0 is.chain
            (omega arith) (omega arith) (omega arith) in
      rw found (walk remove_first-Ring)
    where
      walk :
          {r : Exec ((LinkedList × List ℕ) × Heap)}
          → Returns (λ (out, g). Ring out g) r
          → then_run {A = ℕ × Option LinkedList × List ℕ} {B = List (ℕ × ℕ)}
              (then_run {A = ℕ × LinkedList × List ℕ} {B = ℕ × Option LinkedList × List ℕ}
                (then_run {A = LinkedList × List ℕ} {B = ℕ × LinkedList × List ℕ} r
                  (λ (l, f). pure (1, l, f)))
                (λ (r, l, f). pure (r, some l, f)))
              (λ (r, out, f). linked_list_for_each fuel out)
            ≡ out_of_fuel
      walk (returns {a = ((l, f), g)} (q, closed)) =
          rw q (for_each_loop-endless fuel g ((b, w) ∷ xs) b 0 closed (inl refl))
