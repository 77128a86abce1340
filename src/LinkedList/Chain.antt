-- ===== src/LinkedList/Chain.antt =====
-- The shape of a list of src/linked_list.c in memory.
use blackhv.Base.{
  ℕ, ◌%◌, ◌^◌, ◌≡◌, refl, sym, ap, ◌∙◌, ◌≢◌, Option, none, some, List, [], ◌∷◌, ◌++◌, length,
}
use blackhv.LinkedList.{LinkedList}
use blackhv.LinkedList.Cells.{Ptr, null, LinkedListElt, elt, Heap, write, write_self, write_ne}

-- What a list stands for: the address and the value of each element, in order.
abbrev pub Items : Type 0
Items = List (Ptr × ℕ)

abbrev pub values : Items → List ℕ
values [] = []
values ((a, v) ∷ xs) = v ∷ values xs

abbrev pub first : Items → Ptr
first [] = null
first ((a, v) ∷ xs) = a

-- The address of the last element, `p` where there is none.
abbrev pub last_or : Ptr → Items → Ptr
last_or p [] = p
last_or p ((a, v) ∷ xs) = last_or a xs

abbrev pub Absent : Ptr → Items → Type 0
Absent a [] = Unit
Absent a ((b, v) ∷ xs) = (a ≢ b) × Absent a xs

-- The elements of `xs` are linked in order, at distinct addresses. The first one's `prev` is `before`,
-- and any other one's is the element ahead of it.
abbrev pub Chain : Heap → Ptr → Items → Type 0
Chain h before [] = Unit
Chain h before ((a, v) ∷ xs) =
    (a ≢ null) × (h a ≡ some (elt before (first xs) v)) × Absent a xs × Chain h a xs

-- The structure and the elements of a list. What the `prev` of its first element is, is left open:
-- the code does not keep it NULL.
pub record IsList (h : Heap) (list : LinkedList) (before : Ptr) (xs : Items) : Type 0 where
  pub chain : Chain h before xs
  pub head : list.head ≡ first xs
  pub tail : list.tail ≡ last_or null xs
  pub size : list.size ≡ length xs % 2 ^ 32

-- `g` differs from `h` at most at the elements of `xs` and at `a`.
abbrev pub SameOutside : Items → Ptr → Heap → Heap → Type 0
SameOutside xs a h g = (b : Ptr) → Absent b xs → b ≢ a → g b ≡ h b

-- A chain is as it was where its elements are.
pub frame :
    (h g : Heap) (before : Ptr) (xs : Items)
    → Chain h before xs
    → ((a : Ptr) → (Absent a xs → ⊥) → g a ≡ h a)
    → Chain g before xs
frame h g before [] c same = tt
frame h g before ((a, v) ∷ xs) (ne, at, out, c) same =
    (ne, same a (λ (n, _). n refl) ∙ at, out, frame h g a xs c (λ b m. same b (λ (_, n). m n)))

-- A write elsewhere.
pub frame-write :
    (h : Heap) (before : Ptr) (xs : Items) (p : Ptr) (c : Option LinkedListElt)
    → Chain h before xs
    → Absent p xs
    → Chain (write h p c) before xs
frame-write h before xs p c k out =
    frame h (write h p c) before xs k (λ a m. write_ne h p a c (λ e. m (rw e out)))

pub unused-Absent :
    (h : Heap) (before p : Ptr) (xs : Items) → Chain h before xs → h p ≡ none → Absent p xs
unused-Absent h before p [] c free = tt
unused-Absent h before p ((a, v) ∷ xs) (ne, at, out, c) free =
    (λ e. cc (ap h e), unused-Absent h a p xs c free)

-- The last element of a nonempty chain.
pub last_or-ne_null :
    (h : Heap) (before a : Ptr) (v : ℕ) (xs : Items)
    → Chain h before ((a, v) ∷ xs)
    → last_or a xs ≢ null
last_or-ne_null h before a v [] c = c.0
last_or-ne_null h before a v ((b, w) ∷ xs) c = last_or-ne_null h a b w xs c.3

pub Absent-last : (b a : Ptr) (v : ℕ) (xs : Items) → Absent b ((a, v) ∷ xs) → b ≢ last_or a xs
Absent-last b a v [] m = m.0
Absent-last b a v ((c, w) ∷ xs) m = Absent-last b c w xs m.1

pub Absent-append : (b : Ptr) (xs ys : Items) → Absent b xs → Absent b ys → Absent b (xs ++ ys)
Absent-append b [] ys m n = n
Absent-append b ((a, v) ∷ xs) ys m n = (m.0, Absent-append b xs ys m.1 n)

-- `head->prev = q` on a chain.
pub Chain-set_prev :
    (h : Heap) (before q a : Ptr) (v : ℕ) (xs : Items)
    → Chain h before ((a, v) ∷ xs)
    → Chain (write h a (some (elt q (first xs) v))) q ((a, v) ∷ xs)
Chain-set_prev h before q a v xs (ne, at, out, c) =
    (ne, write_self h a _, out, frame-write h a xs a _ c out)

-- Linking an element behind the last one.
pub Chain-snoc :
    (h : Heap) (before a : Ptr) (w : ℕ) (xs : Items) (fresh : Ptr) (v : ℕ)
    → Chain h before ((a, w) ∷ xs)
    → Absent fresh ((a, w) ∷ xs)
    → fresh ≢ null
    → h fresh ≡ some (elt (last_or a xs) null v)
    → (e : LinkedListElt) × (h (last_or a xs) ≡ some e)
      × Chain
          (write h (last_or a xs) (some (record e { next = fresh })))
          before
          (((a, w) ∷ xs) ++ ((fresh, v) ∷ []))
Chain-snoc h before a w [] fresh v (ne, at, out, c) new nf made = (
  elt before null w,
  at,
  (
    ne,
    write_self h a _,
    ((λ e. new.0 (sym e)), tt),
    (nf, write_ne h a fresh _ new.0 ∙ made, tt, tt),
  ),
)
Chain-snoc h before a w ((b, u) ∷ xs) fresh v (ne, at, out, c) new nf made =
    let (e, holds, c') = Chain-snoc h a b u xs fresh v c new.1 nf made in
    (
      e,
      holds,
      (
        ne,
        write_ne h (last_or b xs) a _ (Absent-last a b u xs out) ∙ at,
        Absent-append a ((b, u) ∷ xs) ((fresh, v) ∷ []) out ((λ e. new.0 (sym e)), tt),
        c',
      ),
    )

pub Absent-split : (b : Ptr) (xs ys : Items) → Absent b (xs ++ ys) → Absent b xs × Absent b ys
Absent-split b [] ys m = (tt, m)
Absent-split b ((a, v) ∷ xs) ys (n, m) = let (l, r) = Absent-split b xs ys m in ((n, l), r)
