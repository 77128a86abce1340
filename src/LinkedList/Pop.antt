-- ===== src/LinkedList/Pop.antt =====
-- `linked_list_pop_front` and `linked_list_pop_tail` of src/linked_list.c.
use blackhv.Base.{
  Option-cases, Bool-cases, fault, inl, inr, ◌==◌, ℕ, suc, ◌+◌, ◌%◌, ◌^◌, ◌≡◌, refl, sym, ap, ◌∙◌,
  ◌≢◌, inl, inr, Option, none, some, [], ◌∷◌, ◌++◌, arith, ◌==◌, ==_refl, ==_false, Bool-cases,
  Option-cases, length, length-append, Returns, ok, fault, returns,
}
use blackhv.LinkedList.{
  set_prev, LinkedList, linked_list_pop_front, linked_list_pop_tail, linked_list_add, pred_u32,
}
use blackhv.LinkedList.Cells.{
  Ptr, null, LinkedListElt, elt, Heap, write, write_self, write_ne, load, load-ok, set_next,
  set_prev, set_next-ok, set_prev-ok, free-ok, Cmd, ◌>>=◌, ◌>>◌, pure, then_run,
}
use blackhv.LinkedList.Chain.{
  Absent-split, Items, first, last_or, Absent, Chain, IsList, SameOutside, frame-write,
  last_or-ne_null, Absent-last, Chain-set_prev,
}

-- A pop gives the value `v`, frees the element at `a` and leaves the list `xs`.
abbrev pub Popped :
    Heap → LinkedList → Ptr → ℕ → Ptr → Items → (ℕ × Option LinkedList) × Heap → Type 0
Popped h list a v before xs ((r, out), g) =
    (r ≡ v)
    × ((list' : LinkedList) × (out ≡ some list')
        × IsList g list' before xs
        × (list'.free_func ≡ list.free_func))
    × (g a ≡ none)
    × SameOutside xs a h g

pred_size : (n k : ℕ) → n ≡ suc k % 2 ^ 32 → pred_u32 n ≡ k % 2 ^ 32
pred_size n k e = omega arith

-- On a well-linked list with an element, `linked_list_pop_front` gives the first value, frees its
-- element and leaves a well-linked list of the others, whose first `prev` is NULL.
pub linked_list_pop_front-tail :
    (h : Heap) (list : LinkedList) (before a : Ptr) (v : ℕ) (xs : Items)
    → IsList h list before ((a, v) ∷ xs)
    → Returns (Popped h list a v null xs) (linked_list_pop_front (some list) h)
unfolding linked_list_pop_front
linked_list_pop_front-tail h list before a v [] is =
    let (ne, at, out, c) = is.chain in
    rw
      (
        is.head,
        is.tail,
        ==_false a null ne,
        load-ok h ne at,
        ==_refl a,
        load-ok h ne at,
        free-ok h ne at,
      )
      (returns (
        refl,
        (
          record list { head = null; tail = null; size = 0 },
          refl,
          record { chain = tt; head = refl; tail = refl; size = refl },
          refl,
        ),
        write_self h a none,
        λ b m o. write_ne h a b none o,
      ))
linked_list_pop_front-tail h list before a v ((b, w) ∷ xs) is =
    let (ne, at, out, c) = is.chain in
    let (nb, atb, outb, cb) = c in
    let g1 = write h b (some (elt null (first xs) w)) in
    let at1 : g1 a ≡ some (elt before b v) = write_ne h b a _ out.0 ∙ at in
    rw
      (
        is.head,
        is.tail,
        ==_false a null ne,
        load-ok h ne at,
        ==_false a (last_or b xs) (Absent-last a b w xs out),
        load-ok h ne at,
        set_prev-ok h nb atb null,
        load-ok g1 ne at1,
        free-ok g1 ne at1,
      )
      (returns (
        refl,
        (
          record list { head = b; tail = last_or b xs; size = pred_u32 list.size },
          refl,
          record {
            chain = frame-write g1 null ((b, w) ∷ xs) a none (Chain-set_prev h a null b w xs c) out;
            head = refl;
            tail = refl;
            size = pred_size list.size (length ((b, w) ∷ xs)) is.size;
          },
          refl,
        ),
        write_self g1 a none,
        λ d m o. write_ne g1 a d none o ∙ write_ne h b d _ m.0,
      ))

-- On an empty list both pops give NULL and change nothing.
pub pop-empty :
    (h : Heap) (list : LinkedList) (before : Ptr)
    → IsList h list before []
    → (linked_list_pop_front (some list) h ≡ ok ((null, some list), h))
      × (linked_list_pop_tail (some list) h ≡ ok ((null, some list), h))
unfolding linked_list_pop_front linked_list_pop_tail
pop-empty h list before is = (rw is.head, rw is.tail)

-- The chain less its last element, whose `prev` is the last of what is left.
Chain-unsnoc :
    (h : Heap) (before a : Ptr) (w : ℕ) (xs : Items) (p : Ptr) (v : ℕ)
    → Chain h before (((a, w) ∷ xs) ++ ((p, v) ∷ []))
    → (e : LinkedListElt) × (h (last_or a xs) ≡ some e)
      × (h p ≡ some (elt (last_or a xs) null v))
      × (p ≢ null)
      × (last_or a xs ≢ p)
      × Absent p ((a, w) ∷ xs)
      × Chain (write h (last_or a xs) (some (record e { next = null }))) before ((a, w) ∷ xs)
Chain-unsnoc h before a w [] p v (ne, at, (out, _), (np, atp, _, _)) =
    (elt before p w, at, atp, np, out, ((λ e. out (sym e)), tt), (ne, write_self h a _, tt, tt))
Chain-unsnoc h before a w ((b, u) ∷ xs) p v (ne, at, out, c) =
    let (e, holds, atp, np, lp, outp, c') = Chain-unsnoc h a b u xs p v c in
    let (here, (ap, _)) = Absent-split a ((b, u) ∷ xs) ((p, v) ∷ []) out in
    (
      e,
      holds,
      atp,
      np,
      lp,
      ((λ e. ap (sym e)), outp),
      (ne, write_ne h (last_or b xs) a _ (Absent-last a b u xs here) ∙ at, here, c'),
    )

last_or-snoc : (q p : Ptr) (v : ℕ) (xs : Items) → last_or q (xs ++ ((p, v) ∷ [])) ≡ p
last_or-snoc q p v [] = refl
last_or-snoc q p v ((a, w) ∷ xs) = last_or-snoc a p v xs

-- On a well-linked list with at least two elements, `linked_list_pop_tail` gives the last value,
-- frees its element and leaves a well-linked list of the others, whose first `prev` is as it was.
pub linked_list_pop_tail-snoc :
    (h : Heap) (list : LinkedList) (before a : Ptr) (w : ℕ) (xs : Items) (p : Ptr) (v : ℕ)
    → IsList h list before (((a, w) ∷ xs) ++ ((p, v) ∷ []))
    → Returns (Popped h list p v before ((a, w) ∷ xs)) (linked_list_pop_tail (some list) h)
unfolding linked_list_pop_tail
linked_list_pop_tail-snoc h list before a w xs p v is =
    let (e, holds, atp, np, lp, outp, c) = Chain-unsnoc h before a w xs p v is.chain in
    let nl = last_or-ne_null _ before a w xs c in
    let g1 = write h (last_or a xs) (some (record e { next = null })) in
    let atp1 : g1 p ≡ some (elt (last_or a xs) null v) =
      write_ne h (last_or a xs) p _ (λ q. lp (sym q)) ∙ atp in
    let at_tail : list.tail ≡ p = is.tail ∙ last_or-snoc a p v xs in
    rw
      (
        at_tail,
        is.head,
        ==_false p null np,
        load-ok h np atp,
        ==_false p a outp.0,
        load-ok h np atp,
        set_next-ok h nl holds null,
        load-ok g1 np atp1,
        free-ok g1 np atp1,
      )
      (returns (
        refl,
        (
          record list { head = a; tail = last_or a xs; size = pred_u32 list.size },
          refl,
          record {
            chain = frame-write g1 before ((a, w) ∷ xs) p none c outp;
            head = refl;
            tail = refl;
            size =
                pred_size list.size (length ((a, w) ∷ xs)) (
                  is.size
                  ∙ ap (λ n. suc n % 2 ^ 32) (length-append xs ((p, v) ∷ []) ∙ omega arith));
          },
          refl,
        ),
        write_self g1 p none,
        λ d m o. write_ne g1 p d none o ∙ write_ne h (last_or a xs) d _ (Absent-last d a w xs m),
      ))

-- The last element alone: the structure's `tail` becomes the `prev` of the freed element.
pub linked_list_pop_tail-one :
    (h : Heap) (list : LinkedList) (before a : Ptr) (v : ℕ)
    → IsList h list before ((a, v) ∷ [])
    → linked_list_pop_tail (some list) h
      ≡ ok ((v, some (record list { head = null; tail = before; size = 0 })), write h a none)
unfolding linked_list_pop_tail
linked_list_pop_tail-one h list before a v is =
    let (ne, at, _, _) = is.chain in
    rw (
      is.head,
      is.tail,
      ==_false a null ne,
      load-ok h ne at,
      ==_refl a,
      load-ok h ne at,
      free-ok h ne at,
    )

-- A store to NULL's `prev` behind a store to some element's `next` never succeeds.
set_prev-null_fault :
    {B : Type 0} (p q r : Ptr) (k : Cmd B) (h : Heap)
    → ((do set_next p q; set_prev null r; k) h) ≡ fault
unfolding set_next set_prev load
set_prev-null_fault p q r k h = elim (Bool-cases (p == null)) [
  | inl z ↦ rw z
  | inr n ↦ elim (Option-cases (h p)) [ inl e ↦ rw (n, e) | inr (e, at) ↦ rw (n, at) ]
]

-- If the `prev` of the only element is not NULL, `linked_list_pop_tail` leaves a list on which
-- `linked_list_add` is undefined.
pub pop_tail_add-fault :
    (h : Heap) (list : LinkedList) (before a : Ptr) (v : ℕ) (fresh : Ptr) (w : ℕ)
    → IsList h list before ((a, v) ∷ [])
    → before ≢ null
    → fresh ≢ null
    → ((do (r, out) ← linked_list_pop_tail (some list); linked_list_add fresh out w) h) ≡ fault
unfolding linked_list_add
pop_tail_add-fault h list before a v fresh w is nb nf =
    rw
      (
        linked_list_pop_tail-one h list before a v is,
        ==_false fresh null nf,
        ==_false before null nb,
      )
      (ap
        (λ m.
          then_run m (λ (l : LinkedList).
            pure (1, some (record l { tail = fresh; size = (0 + 1) % 2 ^ 32 }))))
        (set_prev-null_fault before fresh fresh
          (pure (record list { head = null; tail = before; size = 0 })) _))
