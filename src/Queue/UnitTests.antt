-- ===== src/Queue/UnitTests.antt =====
-- src/tests.c: the unit tests of the queue, on a queue whose memory is granted. `bytes` is what the
-- buffer holds then, and a loop is given its number of rounds.
use blackhv.Base.{
  ◌>>=◌, ℕ, zero, suc, ◌+◌, ◌%◌, ◌^◌, ◌≤◌, ◌<◌, ◌≡◌, ◌∙◌, Bool, true, Option, some, List, [], ◌∷◌,
  ◌++◌, append_assoc, append-nil, arith, ◌==◌, if◌then◌else◌, ==_refl, length, get_elem?,
  length-append, access, Returns-mono, Returns-bind, Exec, Returns, ok, fault, returns,
}
use blackhv.Queue.{Queue, queue_new, queue_write, queue_read, queue_empty}
use blackhv.Queue.Fifo.{IsFifo}
use blackhv.Queue.Write.{queue_write-append}
use blackhv.Queue.Read.{queue_read-take}
use blackhv.Queue.Calls.{queue_new-IsFifo, queue_empty-IsFifo}

-- A failed assertion ends the test.
abbrev cr_assert : Bool → Exec {0} Unit
cr_assert b = if b then ok tt else fault

infixl 5 ◌>>◌
abbrev ◌>>◌ : {A : Type 0} → Exec {0} Unit → Exec A → Exec A
r >> s = r >>= λ u. s

-- The test comes to its end.
abbrev Passes : Exec {0} Unit → Type 0
Passes r = Returns (λ u. Unit) r

-- `Test(queue, queue_create)`.
queue_create : (bytes : List ℕ) → Exec {0} Unit
queue_create bytes = do
  q ← access (queue_new true (some bytes) 1024)
  cr_assert (q.buffer_size == 1024)
  cr_assert (q.is_full == 0)
  cr_assert (q.front == 0)
  cr_assert (q.rear == 0)

-- `Test(queue, queue_add_pop)`.
queue_add_pop : (bytes : List ℕ) → Exec {0} Unit
queue_add_pop bytes = do
  (n, q) ← queue_write (queue_new true (some bytes) 512) (65 ∷ []) 1
  cr_assert (n == 1)
  (m, readed, q) ← queue_read q (65 ∷ []) 1
  cr_assert (m == 1)
  r ← access (get_elem? readed 0)
  cr_assert (65 == r)
  cr_assert (queue_empty q == 1)
  (m, readed, q) ← queue_read q readed 1
  cr_assert (m == 0)

-- The loops of `Test(queue, queue_add_multiple)`.
add_loop : (rounds i : ℕ) → Option Queue → Exec (Option Queue)
add_loop zero i q = ok q
add_loop (suc n) i q = do
  (r, q') ← queue_write q (i ∷ []) 1
  cr_assert (r == 1)
  add_loop n ((i + 1) % 2 ^ 8) q'

pop_loop : (rounds i : ℕ) → Option Queue → Exec (Option Queue)
pop_loop zero i q = ok q
pop_loop (suc n) i q = do
  (r, readed, q') ← queue_read q (66 ∷ []) 1
  cr_assert (r == 1)
  b ← access (get_elem? readed 0)
  cr_assert (i == b)
  pop_loop n ((i + 1) % 2 ^ 8) q'

queue_add_multiple : (bytes : List ℕ) → Exec {0} Unit
queue_add_multiple bytes = do
  q ← add_loop 16 0 (queue_new true (some bytes) 512)
  q ← pop_loop 16 0 q
  cr_assert (queue_empty q == 1)
  (r, readed, q) ← queue_read q (0 ∷ []) 1
  cr_assert (r == 0)

-- The bytes that the loops count through.
abbrev counted : (rounds i : ℕ) → List ℕ
counted zero i = []
counted (suc n) i = i ∷ counted n ((i + 1) % 2 ^ 8)

-- A queue of so many places that holds `xs`.
abbrev Holding : ℕ → List ℕ → Option Queue → Type 0
Holding places xs out = (q : Queue) × (out ≡ some q) × IsFifo q xs × (q.buffer_size ≡ places)

add_one :
    {places : ℕ} {xs : List ℕ} {out : Option Queue} (b : ℕ)
    → Holding places xs out
    → length xs < places
    → Returns
        (λ (n, out'). (n ≡ 1) × Holding places (xs ++ (b ∷ [])) out')
        (queue_write out (b ∷ []) 1)
add_one {xs = xs} b (q, e, is, same) room = rw e (
    Returns-mono (queue_write-append q xs (b ∷ []) 1 is (omega arith))
      λ (n, out') (count, (q', e', is', same')).
        let one : n ≡ 1 = omega arith in (one, (q', e', rw one at is', same' ∙ same)))

pop_one :
    {places b : ℕ} {xs : List ℕ} {out : Option Queue} (c : ℕ)
    → Holding places (b ∷ xs) out
    → Returns
        (λ (n, readed, out'). (n ≡ 1) × (readed ≡ b ∷ []) × Holding places xs out')
        (queue_read out (c ∷ []) 1)
pop_one {b} {xs} c (q, e, is, same) = rw e (
    Returns-mono (queue_read-take q (b ∷ xs) (c ∷ []) 1 is (omega arith))
      λ (n, readed, out') (count, bytes, (q', e', is', same')).
        let one : n ≡ 1 = omega arith in
        (one, rw one at bytes, (q', e', rw one at is', same' ∙ same)))

pop_none :
    {places : ℕ} {out : Option Queue} (c : ℕ)
    → Holding places [] out
    → Returns (λ (n, readed, out'). n ≡ 0) (queue_read out (c ∷ []) 1)
pop_none c (q, e, is, same) = rw e (
    Returns-mono (queue_read-take q [] (c ∷ []) 1 is (omega arith))
      λ (n, readed, out') (count, bytes, more). omega arith)

add_loop-Holding :
    {places : ℕ} {xs : List ℕ} {out : Option Queue} (n i : ℕ)
    → Holding places xs out
    → length xs + n ≤ places
    → Returns (Holding places (xs ++ counted n i)) (add_loop n i out)
unfolding add_loop
add_loop-Holding {xs = xs} zero i holds room = let e = append-nil xs in rw e (returns holds)
add_loop-Holding {xs = xs} (suc n) i holds room =
    let e = append_assoc xs (i ∷ []) (counted n ((i + 1) % 2 ^ 8)) in
    Returns-bind (add_one i holds (omega arith)) λ (r, out') (one, holds').
      let rest =
        add_loop-Holding n ((i + 1) % 2 ^ 8) holds' (omega (arith, length-append xs (i ∷ []))) in
      rw one (rw e at rest)

pop_loop-Holding :
    {places : ℕ} {out : Option Queue} (n i : ℕ)
    → Holding places (counted n i) out
    → Returns (Holding places []) (pop_loop n i out)
unfolding pop_loop
pop_loop-Holding zero i holds = returns holds
pop_loop-Holding (suc n) i holds =
    Returns-bind (pop_one 66 holds) λ (r, readed, out') (one, byte, holds').
      rw (one, byte, ==_refl i) (pop_loop-Holding n ((i + 1) % 2 ^ 8) holds')

queue_empty-Holding :
    {places : ℕ} {out : Option Queue} → Holding places [] out → queue_empty out ≡ 1
queue_empty-Holding (q, e, is, same) = rw e (queue_empty-IsFifo q is)

new-Holding :
    (bytes : List ℕ) → length bytes ≡ 512 → Holding 512 [] (queue_new true (some bytes) 512)
new-Holding bytes len = queue_new-IsFifo bytes 512 (omega arith) (omega arith) len

-- With a buffer of the asked size, whatever it holds, the test passes.
queue_add_pop-Passes : (bytes : List ℕ) → length bytes ≡ 512 → Passes (queue_add_pop bytes)
unfolding queue_add_pop
queue_add_pop-Passes bytes len =
    Returns-bind (add_one 65 (new-Holding bytes len) (omega arith)) λ (n, out) (one, holds).
      rw one (
        Returns-bind (pop_one 65 holds) λ (m, readed, out') (one', byte, holds').
          rw (one', byte, queue_empty-Holding holds')
            (Returns-bind (pop_none 65 holds') λ (k, readed', out'') no. rw no (returns tt)))

-- With a buffer of the asked size, whatever it holds, the test passes.
queue_add_multiple-Passes :
    (bytes : List ℕ) → length bytes ≡ 512 → Passes (queue_add_multiple bytes)
unfolding queue_add_multiple
queue_add_multiple-Passes bytes len =
    Returns-bind (add_loop-Holding 16 0 (new-Holding bytes len) (omega arith)) λ out holds.
      Returns-bind (pop_loop-Holding 16 0 holds) λ out' holds'.
        rw (queue_empty-Holding holds')
          (Returns-bind (pop_none 0 holds') λ (k, readed', out'') no. rw no (returns tt))

-- The test passes whatever the buffer holds.
queue_create-Passes : (bytes : List ℕ) → Passes (queue_create bytes)
unfolding queue_create queue_new
queue_create-Passes bytes = returns tt
