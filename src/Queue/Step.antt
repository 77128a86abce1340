-- ===== src/Queue/Step.antt =====
-- One round of src/queue.c's loops: where the indices go and what the ring then holds.
use native.Mathlib.Nat.{mod-eq_of_lt, mod-add-mod}
use native.Mathlib.Decide.{dec_lt}
use blackhv.Base.{
  lt→ltb, ◌^◌, ℕ, ◌+◌, ◌%◌, ◌<◌, ◌≡◌, ap, ◌∙◌, List, [], ◌∷◌, ◌++◌, arith, length, set, ◌==◌, ok,
  length-set, length-append,
}
use blackhv.Queue.{Queue, advance, store, put_byte}
use blackhv.Queue.Fifo.{Holds, add-mod-ne, add-mod_self, Window-set}

-- The queue behind one byte written.
abbrev pub after_put : Queue → ℕ → Queue
after_put q b = record q { buffer = set q.buffer q.rear b; rear = (q.rear + 1) % q.buffer_size }

module _ {q : Queue} {xs : List ℕ} (h : Holds q xs) where
  pub rear-in : q.rear < q.buffer_size
  rear-in = omega (arith, h.rear_at, h.positive)

  pub advance-ok : (i : ℕ) → i < q.buffer_size → advance q i ≡ ok ((i + 1) % q.buffer_size)
  unfolding advance
  advance-ok i p =
      ground (arith, h.word, mod-eq_of_lt {n = i + 1} {m = 2 ^ 64} (omega (arith, h.word)))

  -- A byte fits behind the others, and the store is inside the buffer.
  pub put_byte-ok : (b : ℕ) → put_byte q b ≡ ok (after_put q b)
  unfolding put_byte store
  put_byte-ok b = rw (
    lt→ltb q.rear (length q.buffer) (omega (arith, h.stored, rear-in)),
    advance-ok q.rear rear-in,
  )

  pub after_put-Holds : (b : ℕ) → length xs < q.buffer_size → Holds (after_put q b) (xs ++ (b ∷ []))
  after_put-Holds b p = record {
    positive = h.positive;
    word = h.word;
    stored = length-set q.buffer q.rear b ∙ h.stored;
    front_in = h.front_in;
    fits = omega (arith, length-append xs (b ∷ []));
    rear_at =
        rw (h.rear_at, mod-add-mod)
          (ap (λ k. k % q.buffer_size) (omega (arith, length-append xs (b ∷ []))));
    bytes =
        Window-set q.buffer q.buffer_size b q.front q.rear xs h.stored h.front_in p h.rear_at
          h.bytes;
  }

  -- With a byte in it, the ring has its two indices equal exactly when it is full.
  pub full-test : 0 < length xs → (q.front == q.rear) ≡ (length xs == q.buffer_size)
  full-test pos = elim (dec_lt (length xs) q.buffer_size) [
    | yes p ↦
        ground (arith, h.rear_at, add-mod-ne q.buffer_size q.front (length xs) h.front_in pos p)
    | no p ↦ ground (arith, h.rear_at, h.fits, add-mod_self q.buffer_size q.front h.front_in)
  ]

-- The flag is no part of what the ring holds.
pub Holds-flag :
    {q : Queue} {xs : List ℕ} → Holds q xs → (f : ℕ) → Holds (record q { is_full = f }) xs
Holds-flag h f = record {
  positive = h.positive;
  word = h.word;
  stored = h.stored;
  front_in = h.front_in;
  fits = h.fits;
  rear_at = h.rear_at;
  bytes = h.bytes;
}
