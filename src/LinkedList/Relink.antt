-- ===== src/LinkedList/Relink.antt =====
-- `remove_elt` of src/linked_list.c, on an element behind another one.
use blackhv.Base.{
  ℕ, ◌≡◌, sym, ap, ◌∙◌, ◌≢◌, none, some, List, [], ◌∷◌, ◌++◌, if◌then◌else◌, ==_refl, ==_false, ok,
}
use blackhv.LinkedList.{LinkedList, remove_elt, pred_u32}
use blackhv.LinkedList.Cells.{
  Ptr, null, LinkedListElt, elt, Heap, write, write_self, write_ne, load-ok, set_next-ok,
  set_prev-ok, free-ok,
}
use blackhv.LinkedList.Chain.{
  Items, first, last_or, Absent, Chain, frame-write, Absent-last, Absent-append, Absent-split,
  Chain-set_prev,
}

-- The heap once the element `q`, which is `e`, and the elements `back` are linked to one another.
abbrev pub relinked : Heap → Ptr → LinkedListElt → Items → Heap
relinked h q e [] = write h q (some (record e { next = null }))
relinked h q e ((b, u) ∷ back) =
    write (write h q (some (record e { next = b }))) b (some (elt q (first back) u))

pub relinked_ne :
    (h : Heap) (q a : Ptr) (e : LinkedListElt) (back : Items)
    → a ≢ q
    → Absent a back
    → relinked h q e back a ≡ h a
relinked_ne h q a e [] n m = write_ne h q a _ n
relinked_ne h q a e ((b, u) ∷ back) n m = write_ne _ b a _ m.0 ∙ write_ne h q a _ n

-- The element `p` between `(a, w) ∷ front` and `back`, and what linking these two leaves.
pub record Between (h : Heap) (before a : Ptr) (w : ℕ) (front : Items) (p : Ptr) (v : ℕ)
    (back : Items) : Type 0 where
  pub ahead : LinkedListElt
  pub ahead_at : h (last_or a front) ≡ some ahead
  pub ahead_null : last_or a front ≢ null
  pub here : h p ≡ some (elt (last_or a front) (first back) v)
  pub not_null : p ≢ null
  pub apart : last_or a front ≢ p
  pub apart_back : Absent (last_or a front) back
  pub absent : Absent p (((a, w) ∷ front) ++ back)
  pub behind : Chain h p back
  pub chain : Chain (relinked h (last_or a front) ahead back) before (((a, w) ∷ front) ++ back)

pub Chain-Between :
    (h : Heap) (before a : Ptr) (w : ℕ) (front : Items) (p : Ptr) (v : ℕ) (back : Items)
    → Chain h before (((a, w) ∷ front) ++ ((p, v) ∷ back))
    → Between h before a w front p v back
Chain-Between h before a w [] p v back (ne, at, (ap, out), (np, atp, outp, c)) = record {
  ahead = elt before p w;
  ahead_at = at;
  ahead_null = ne;
  here = atp;
  not_null = np;
  apart = ap;
  apart_back = out;
  absent = ((λ e. ap (sym e)), outp);
  behind = c;
  chain = relink back c out;
}
  where
    relink :
        (ys : Items)
        → Chain h p ys
        → Absent a ys
        → Chain (relinked h a (elt before p w) ys) before ((a, w) ∷ ys)
    relink [] k m = (ne, write_self h a _, tt, tt)
    relink ((b, u) ∷ ys) k m = (
      ne,
      write_ne _ b a _ m.0 ∙ write_self h a _,
      m,
      Chain-set_prev _ p a b u ys (frame-write h p ((b, u) ∷ ys) a _ k m),
    )
Chain-Between h before a w ((b, u) ∷ front) p v back (ne, at, out, c) =
    let i = Chain-Between h a b u front p v back c in
    let (of, (ap, ob)) = Absent-split a ((b, u) ∷ front) ((p, v) ∷ back) out in
    record {
      ahead = i.ahead;
      ahead_at = i.ahead_at;
      ahead_null = i.ahead_null;
      here = i.here;
      not_null = i.not_null;
      apart = i.apart;
      apart_back = i.apart_back;
      absent = ((λ e. ap (sym e)), i.absent);
      behind = i.behind;
      chain = (
        ne,
        relinked_ne h (last_or b front) a i.ahead back (Absent-last a b u front of) ob ∙ at,
        Absent-append a ((b, u) ∷ front) back of ob,
        i.chain,
      );
    }

-- The structure once the last of `front` has taken the place of `p`.
abbrev pub shortened : LinkedList → Ptr → Items → LinkedList
shortened list q [] = record list { tail = q; size = pred_u32 list.size }
shortened list q (b ∷ back) = record list { size = pred_u32 list.size }

abbrev pub freed : LinkedList → ℕ → List ℕ
freed list v = if list.free_func then v ∷ [] else []

-- `remove_elt` links its neighbours and frees the element.
pub remove_elt-Between :
    (h : Heap) (list : LinkedList) (before a : Ptr) (w : ℕ) (front : Items) (p : Ptr) (v : ℕ)
    (back : Items) (i : Between h before a w front p v back)
    → list.head ≡ a
    → list.tail ≡ last_or p back
    → remove_elt list p h
      ≡ ok (
        (shortened list (last_or a front) back, freed list v),
        write (relinked h (last_or a front) i.ahead back) p none,
      )
unfolding remove_elt
remove_elt-Between h list before a w front p v [] i eh et =
    let g1 = write h (last_or a front) (some (record i.ahead { next = null })) in
    let at1 : g1 p ≡ some (elt (last_or a front) null v) =
      write_ne h (last_or a front) p _ (λ q. i.apart (sym q)) ∙ i.here in
    let np = i.not_null in
    rw (
      eh,
      et,
      load-ok h np i.here,
      ==_false (last_or a front) null i.ahead_null,
      set_next-ok h i.ahead_null i.ahead_at null,
      load-ok g1 np at1,
      load-ok g1 np at1,
      ==_false a p (λ q. i.absent.0 (sym q)),
      ==_refl p,
      free-ok g1 np at1,
    )
remove_elt-Between h list before a w front p v ((b, u) ∷ back) i eh et =
    let (nb, atb, outb, cb) = i.behind in
    let bq : b ≢ last_or a front = λ q. i.apart_back.0 (sym q) in
    let (_, (pb, mb)) = Absent-split p ((a, w) ∷ front) ((b, u) ∷ back) i.absent in
    let g1 = write h (last_or a front) (some (record i.ahead { next = b })) in
    let at1 : g1 p ≡ some (elt (last_or a front) b v) =
      write_ne h (last_or a front) p _ (λ q. i.apart (sym q)) ∙ i.here in
    let atb1 : g1 b ≡ some (elt p (first back) u) = write_ne h (last_or a front) b _ bq ∙ atb in
    let g2 = write g1 b (some (elt (last_or a front) (first back) u)) in
    let at2 : g2 p ≡ some (elt (last_or a front) b v) = write_ne g1 b p _ pb ∙ at1 in
    let np = i.not_null in
    rw (
      eh,
      et,
      load-ok h np i.here,
      ==_false (last_or a front) null i.ahead_null,
      set_next-ok h i.ahead_null i.ahead_at b,
      load-ok g1 np at1,
      ==_false b null nb,
      set_prev-ok g1 nb atb1 (last_or a front),
      load-ok g2 np at2,
      ==_false a p (λ q. i.absent.0 (sym q)),
      ==_false (last_or b back) p (λ q. Absent-last p b u back (pb, mb) (sym q)),
      free-ok g2 np at2,
    )
