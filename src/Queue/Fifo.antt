-- ===== src/Queue/Fifo.antt =====
-- The first-in first-out queue that a ring of src/queue.c stands for.
use native.Mathlib.Nat.{mod-add-mod, mod-eq_of_lt, mod-eq-sub-mod}
use native.Mathlib.Decide.{dec_lt}
use blackhv.Base.{
  ℕ, suc, ◌+◌, ◌-◌, ◌%◌, ◌^◌, ◌≤◌, ◌<◌, ◌≡◌, ◌≢◌, ap, ◌∙◌, some, List, [], ◌∷◌, ◌++◌, arith,
  get_elem?, length, set, ◌==◌, int_of, get_elem?-set_self, get_elem?-set_ne,
}
use blackhv.Queue.{Queue}

-- From index `h` on, going round at `cap`, the bytes of `xs` lie in the buffer.
abbrev pub Window : List ℕ → ℕ → ℕ → List ℕ → Type 0
Window buf cap h [] = Unit
Window buf cap h (x ∷ xs) = (get_elem? buf h ≡ some x) × Window buf cap ((h + 1) % cap) xs

-- The ring holds the bytes `xs`, oldest first, whatever its flag says.
pub record Holds (q : Queue) (xs : List ℕ) : Type 0 where
  pub positive : 0 < q.buffer_size
  pub word : q.buffer_size < 2 ^ 64
  pub stored : length q.buffer ≡ q.buffer_size
  pub front_in : q.front < q.buffer_size
  pub fits : length xs ≤ q.buffer_size
  pub rear_at : q.rear ≡ (q.front + length xs) % q.buffer_size
  pub bytes : Window q.buffer q.buffer_size q.front xs

-- The same with the flag set exactly when the ring is full: how a queue stands between calls.
pub record IsFifo (q : Queue) (xs : List ℕ) : Type 0 where
  pub holds : Holds q xs
  pub flag : q.is_full ≡ int_of (length xs == q.buffer_size)

-- Fewer than `cap` steps round the ring do not come back to the start.
pub add-mod-ne : (cap h k : ℕ) → h < cap → 0 < k → k < cap → (h + k) % cap ≢ h
add-mod-ne cap h k hh pos hk = elim (dec_lt (h + k) cap) [
  | yes p ↦ omega (arith, mod-eq_of_lt p)
  | no p ↦ omega (
    arith,
    mod-eq-sub-mod {n = h + k} {m = cap} (omega arith),
    mod-eq_of_lt {n = h + k - cap} {m = cap} (omega arith),
  )
]

-- A whole turn comes back.
pub add-mod_self : (cap h : ℕ) → h < cap → (h + cap) % cap ≡ h
add-mod_self cap h p = grind arith

pub shift-mod : (cap h n : ℕ) → (h + suc n) % cap ≡ ((h + 1) % cap + n) % cap
shift-mod cap h n = rw mod-add-mod (ap (λ k. k % cap) (omega arith))

pub next-in : (cap i : ℕ) → 0 < cap → (i + 1) % cap < cap
next-in cap i p = omega arith

-- The byte written just past a window extends it.
pub Window-set :
    (buf : List ℕ) (cap x h i : ℕ) (xs : List ℕ)
    → length buf ≡ cap
    → h < cap
    → length xs < cap
    → i ≡ (h + length xs) % cap
    → Window buf cap h xs
    → Window (set buf i x) cap h (xs ++ (x ∷ []))
Window-set buf cap x h i [] s hh hn e w =
    let at : i ≡ h = omega (arith, mod-eq_of_lt {n = h + 0} {m = cap} (omega arith)) in
    (rw at (get_elem?-set_self buf h x (omega arith)), tt)
Window-set buf cap x h i (y ∷ xs) s hh hn e w = (
  get_elem?-set_ne buf i h x (rw e (add-mod-ne cap h (suc (length xs)) hh (omega arith) hn)) ∙ w.0,
  Window-set buf cap x ((h + 1) % cap) i xs s (omega arith) (omega arith)
      (e ∙ shift-mod cap h (length xs)) w.1,
)
