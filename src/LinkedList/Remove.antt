-- ===== src/LinkedList/Remove.antt =====
-- `linked_list_remove_at` of src/linked_list.c.
use blackhv.Base.{
  ℕ, zero, suc, ◌+◌, ◌%◌, ◌^◌, ◌≤◌, ◌<◌, ◌≡◌, refl, sym, ◌∙◌, ◌⊎◌, inl, inr, true, false, none,
  some, List, [], ◌∷◌, ◌++◌, arith, ◌==◌, ==_refl, ==_false, length, length-append, Returns, ok,
  returns,
}
use blackhv.LinkedList.{LinkedList, remove_elt, remove_at_loop, pred_u32}
use blackhv.LinkedList.Cells.{
  Ptr, null, elt, Heap, write, write_self, write_ne, load-ok, set_prev-ok, free-ok, ◌>>=◌, pure,
}
use blackhv.LinkedList.Chain.{
  Items, first, last_or, Chain, IsList, SameOutside, frame-write, Absent-last, Absent-split,
  Chain-set_prev,
}
use blackhv.LinkedList.Relink.{Chain-Between, remove_elt-Between, relinked_ne, freed, shortened}

-- An element `(p, v)` is taken out: its value goes to `free_func`, it is freed, and `xs` is left.
abbrev pub Removed :
    Heap → LinkedList → Ptr → ℕ → Ptr → Items → (LinkedList × List ℕ) × Heap → Type 0
Removed h list p v before xs ((list', out), g) =
    IsList g list' before xs
    × (list'.free_func ≡ list.free_func)
    × (out ≡ freed list v)
    × (g p ≡ none)
    × SameOutside xs p h g

last_or-append :
    (q p : Ptr) (v : ℕ) (xs back : Items) → last_or q (xs ++ ((p, v) ∷ back)) ≡ last_or p back
last_or-append q p v [] back = refl
last_or-append q p v ((a, w) ∷ xs) back = last_or-append a p v xs back

tail_left :
    (list : LinkedList) (a p : Ptr) (front back : Items)
    → list.tail ≡ last_or p back
    → (shortened list (last_or a front) back).tail ≡ last_or a (front ++ back)
tail_left list a p [] [] e = refl
tail_left list a p [] ((b, u) ∷ back) e = e
tail_left list a p ((c, x) ∷ front) [] e = tail_left list c p front [] e
tail_left list a p ((c, x) ∷ front) ((b, u) ∷ back) e = tail_left list c p front ((b, u) ∷ back) e

size_left :
    (n : ℕ) (zs back : Items) (p : Ptr) (v : ℕ)
    → n ≡ length (zs ++ ((p, v) ∷ back)) % 2 ^ 32
    → pred_u32 n ≡ length (zs ++ back) % 2 ^ 32
size_left n zs back p v e = omega (arith, length-append zs ((p, v) ∷ back), length-append zs back)

shortened_fields :
    (list : LinkedList) (q : Ptr) (back : Items)
    → ((shortened list q back).head ≡ list.head)
      × ((shortened list q back).size ≡ pred_u32 list.size)
      × ((shortened list q back).free_func ≡ list.free_func)
shortened_fields list q [] = (refl, refl, refl)
shortened_fields list q (b ∷ back) = (refl, refl, refl)

-- The element is not the first one.
remove_elt-behind :
    (h : Heap) (list : LinkedList) (before a : Ptr) (w : ℕ) (front : Items) (p : Ptr) (v : ℕ)
    (back : Items)
    → IsList h list before (((a, w) ∷ front) ++ ((p, v) ∷ back))
    → Returns (Removed h list p v before (((a, w) ∷ front) ++ back)) (remove_elt list p h)
remove_elt-behind h list before a w front p v back is =
    let i = Chain-Between h before a w front p v back is.chain in
    let at_tail = is.tail ∙ last_or-append a p v front back in
    let (fh, fs, ff) = shortened_fields list (last_or a front) back in
    let (pf, pb) = Absent-split p ((a, w) ∷ front) back i.absent in
    rw (remove_elt-Between h list before a w front p v back i is.head at_tail) (
      returns (
        record {
          chain = frame-write _ before (((a, w) ∷ front) ++ back) p none i.chain i.absent;
          head = fh ∙ is.head;
          tail = tail_left list a p front back at_tail;
          size = fs ∙ size_left list.size ((a, w) ∷ front) back p v is.size;
        },
        ff,
        refl,
        write_self _ p none,
        λ d m o.
            let (df, db) = Absent-split d ((a, w) ∷ front) back m in
            write_ne _ p d none o
            ∙ relinked_ne h (last_or a front) d i.ahead back (Absent-last d a w front df) db,
      ))

-- The element is the first one, and its `prev` is NULL.
remove_elt-first :
    (h : Heap) (list : LinkedList) (p : Ptr) (v : ℕ) (back : Items)
    → IsList h list null ((p, v) ∷ back)
    → Returns (Removed h list p v null back) (remove_elt list p h)
unfolding remove_elt
remove_elt-first h list p v [] is =
    let (np, at, _, _) = is.chain in
    rw
      (
        is.head,
        is.tail,
        load-ok h np at,
        load-ok h np at,
        load-ok h np at,
        ==_refl p,
        free-ok h np at,
      )
      (returns (
        record {
          chain = tt;
          head = refl;
          tail = refl;
          size = size_left list.size [] [] p v is.size;
        },
        refl,
        refl,
        write_self h p none,
        λ d m o. write_ne h p d none o,
      ))
remove_elt-first h list p v ((b, u) ∷ back) is =
    let (np, at, (pb, mb), c) = is.chain in
    let (nb, atb, outb, cb) = c in
    let g1 = write h b (some (elt null (first back) u)) in
    let at1 : g1 p ≡ some (elt null b v) = write_ne h b p _ pb ∙ at in
    rw
      (
        is.head,
        is.tail,
        load-ok h np at,
        load-ok h np at,
        ==_false b null nb,
        set_prev-ok h nb atb null,
        load-ok g1 np at1,
        ==_refl p,
        ==_false (last_or b back) p (λ q. Absent-last p b u back (pb, mb) (sym q)),
        free-ok g1 np at1,
      )
      (returns (
        record {
          chain =
              frame-write g1 null ((b, u) ∷ back) p none (Chain-set_prev h p null b u back c)
                (pb, mb);
          head = refl;
          tail = refl;
          size = size_left list.size [] ((b, u) ∷ back) p v is.size;
        },
        refl,
        refl,
        write_self g1 p none,
        λ d m o. write_ne g1 p d none o ∙ write_ne h b d _ m.0,
      ))

-- The loop comes to the element at the index and removes it.
pub remove_at_loop-found :
    (fuel : ℕ) (h : Heap) (list : LinkedList) (before : Ptr) (zs : Items) (p : Ptr) (v : ℕ)
    (back : Items) (i index : ℕ)
    → Chain h before (zs ++ ((p, v) ∷ back))
    → length zs < fuel
    → index ≡ i + length zs
    → index < 2 ^ 32
    → remove_at_loop fuel list (first (zs ++ ((p, v) ∷ back))) i index h
      ≡ (do (l, f) ← remove_elt list p; pure (1, l, f)) h
unfolding remove_at_loop
remove_at_loop-found zero h list before zs p v back i index c enough at small = absurd (omega arith)
remove_at_loop-found (suc fuel) h list before [] p v back i index c enough at small =
    let e : (i == index) ≡ true = ground arith in
    rw (==_false p null c.0, load-ok h c.0 c.1, e) refl
remove_at_loop-found (suc fuel) h list before ((a, w) ∷ zs) p v back i index c enough at small =
    let e : (i == index) ≡ false = ground arith in
    let next : (i + 1) % 2 ^ 32 ≡ i + 1 = omega arith in
    rw (==_false a null c.0, load-ok h c.0 c.1, e, next)
      (remove_at_loop-found fuel h list a zs p v back (i + 1) index c.3 (omega arith) (omega arith)
        small)

-- Past the end the loop finds nothing.
pub remove_at_loop-past :
    (fuel : ℕ) (h : Heap) (list : LinkedList) (before : Ptr) (xs : Items) (i index : ℕ)
    → Chain h before xs
    → length xs < fuel
    → i + length xs ≤ index
    → i + length xs < 2 ^ 32
    → remove_at_loop fuel list (first xs) i index h ≡ ok ((0, list, []), h)
unfolding remove_at_loop
remove_at_loop-past zero h list before xs i index c enough past small = absurd (omega arith)
remove_at_loop-past (suc fuel) h list before [] i index c enough past small = refl
remove_at_loop-past (suc fuel) h list before ((a, w) ∷ xs) i index c enough past small =
    let e : (i == index) ≡ false = ground arith in
    let next : (i + 1) % 2 ^ 32 ≡ i + 1 = omega arith in
    rw (==_false a null c.0, load-ok h c.0 c.1, e, next)
      (remove_at_loop-past fuel h list a xs (i + 1) index c.3 (omega arith) (omega arith)
        (omega arith))

-- Either of the two.
pub remove_elt-any :
    (h : Heap) (list : LinkedList) (before : Ptr) (zs : Items) (p : Ptr) (v : ℕ) (back : Items)
    → IsList h list before (zs ++ ((p, v) ∷ back))
    → (0 < length zs) ⊎ (before ≡ null)
    → Returns (Removed h list p v before (zs ++ back)) (remove_elt list p h)
remove_elt-any h list before [] p v back is (inl some_ahead) = absurd (omega arith)
remove_elt-any h list before [] p v back is (inr e) =
    rw e (remove_elt-first h list p v back (rw e at is))
remove_elt-any h list before ((a, w) ∷ zs) p v back is _ =
    remove_elt-behind h list before a w zs p v back is
