-- ===== src/Queue/Calls.antt =====
-- Sequences of calls on one queue, against a bounded first-in first-out queue of bytes.
use native.Mathlib.Nat.{mod-eq_of_lt}
use blackhv.Base.{
  ℕ, ◌-◌, ◌^◌, ◌≤◌, ◌<◌, min, ◌≡◌, refl, ap, ◌∙◌, true, Option, some, List, [], ◌∷◌, ◌++◌, arith,
  ◌==◌, int_of, length, take, drop, All, ◌>>=◌, Returns-bind, Exec, Returns, ok, returns,
}
use blackhv.Queue.Fifo.{IsFifo}
use blackhv.Queue.Write.{queue_write-append}
use blackhv.Queue.Read.{empty_flags, queue_read-take}
use blackhv.Queue.{
  ok, Exec, Exec, List, ℕ, ℕ, Option, Option, ℕ, List, Queue, queue_new, queue_write, queue_read,
  queue_empty,
}

-- A call, with the buffer that it is given and the size.
pub data Call : Type 0 where
  write read : List ℕ → ℕ → Call
  empty : Call

-- What the caller sees of a call: the result, and what a read leaves in its buffer.
abbrev pub Reply : Type 0
Reply = ℕ × List ℕ

-- One call of src/queue.c.
pub perform : Option Queue → Call → Exec (Reply × Option Queue)
perform q (write buffer size) = do (n, q') ← queue_write q buffer size; ok ((n, buffer), q')
perform q (read buffer size) = do (n, buffer', q') ← queue_read q buffer size; ok ((n, buffer'), q')
perform q empty = ok ((queue_empty q, []), q)

pub perform_all : Option Queue → List Call → Exec (List Reply × Option Queue)
unfolding perform
perform_all q [] = ok ([], q)
perform_all q (c ∷ cs) = do (r, q') ← perform q c; (rs, q'') ← perform_all q' cs; ok (r ∷ rs, q'')

-- The buffers are as long as the sizes say.
abbrev pub HasRoom : Call → Type 0
HasRoom (write buffer size) = size ≤ length buffer
HasRoom (read buffer size) = size ≤ length buffer
HasRoom empty = Unit

-- The same calls on the bytes waiting, at most `cap` of them.
module _ (cap : ℕ) where
  unfoldable pub serve : List ℕ → Call → Reply × List ℕ
  serve xs (write buffer size) =
      let n = min size (cap - length xs) in ((n, buffer), xs ++ take n buffer)
  serve xs (read buffer size) =
      let n = min size (length xs) in ((n, take n xs ++ drop n buffer), drop n xs)
  serve xs empty = ((int_of (length xs == 0), []), xs)

  unfoldable pub serve_all : List ℕ → List Call → List Reply × List ℕ
  unfolding serve
  serve_all xs [] = ([], xs)
  serve_all xs (c ∷ cs) =
      let (r, xs') = serve xs c in let (rs, xs'') = serve_all xs' cs in (r ∷ rs, xs'')

-- A queue that stands for the bytes `out.1`, with the replies `out.0`.
abbrev pub Stands : {R : Type 0} → ℕ → R × List ℕ → R × Option Queue → Type 0
Stands size (r, xs) (r', out) =
    (r' ≡ r) × ((q : Queue) × (out ≡ some q) × IsFifo q xs × (q.buffer_size ≡ size))

-- `queue_empty` says 1 of an empty queue and 0 of any other.
pub queue_empty-IsFifo :
    (q : Queue) {xs : List ℕ} → IsFifo q xs → queue_empty (some q) ≡ int_of (length xs == 0)
unfolding queue_empty
queue_empty-IsFifo q {xs} h = ground (arith, empty_flags h, h.flag)

perform-serve :
    (q : Queue) (xs : List ℕ) (c : Call)
    → IsFifo q xs
    → HasRoom c
    → Returns (Stands q.buffer_size (serve q.buffer_size xs c)) (perform (some q) c)
unfolding perform serve
perform-serve q xs (write buffer size) h room =
    Returns-bind (queue_write-append q xs buffer size h room)
      λ (n, out) (count, (q', e, is, same)). returns (rw count, (q', e, rw count at is, same))
perform-serve q xs (read buffer size) h room =
    Returns-bind (queue_read-take q xs buffer size h room)
      λ (n, b, out) (count, bytes, (q', e, is, same)).
        returns (rw (bytes, count), (q', e, rw count at is, same))
perform-serve q xs empty h room = returns (rw (queue_empty-IsFifo q h), (q, refl, h, refl))

-- From a ring that holds the bytes `xs`, any sequence of writes, reads and tests of emptiness,
-- each with a buffer as long as its size, runs without a fault; every call is answered as a
-- bounded queue of the same capacity answers it, and the ring then holds what that queue holds.
pub perform_all-serve_all :
    (cs : List Call) (q : Queue) (xs : List ℕ)
    → IsFifo q xs
    → All HasRoom cs
    → Returns (Stands q.buffer_size (serve_all q.buffer_size xs cs)) (perform_all (some q) cs)
unfolding perform_all serve_all
perform_all-serve_all [] q xs h room = returns (refl, (q, refl, h, refl))
perform_all-serve_all (c ∷ cs) q xs h (now, later) =
    Returns-bind (perform-serve q xs c h now) λ (r, out) (e, (q', e', is, same)). rw e' (
      Returns-bind (perform_all-serve_all cs q' _ is later) λ (rs, out') (f, (q'', f', is', same')).
        returns (
          rw e (ap (λ l. (serve q.buffer_size xs c).0 ∷ l) (rw same at f)),
          (q'', f', rw same at is', same' ∙ same),
        ))

-- A fresh queue over `malloc`'s memory is empty.
pub queue_new-IsFifo :
    (bytes : List ℕ) (size : ℕ)
    → 0 < size
    → size < 2 ^ 64
    → length bytes ≡ size
    → (q : Queue) × (queue_new true (some bytes) size ≡ some q)
      × IsFifo q []
      × (q.buffer_size ≡ size)
unfolding queue_new
queue_new-IsFifo bytes size pos word len = (
  record { buffer = bytes; buffer_size = size; front = 0; rear = 0; is_full = 0 },
  refl,
  record {
    holds = record {
      positive = pos;
      word = word;
      stored = len;
      front_in = pos;
      fits = omega arith;
      rear_at = omega (arith, mod-eq_of_lt {n = 0} {m = size} pos);
      bytes = tt;
    };
    flag = ground arith;
  },
  refl,
)
