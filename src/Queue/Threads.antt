-- ===== src/Queue/Threads.antt =====
-- Threads on one queue of src/queue.c. `queue_write` and `queue_read` make their test before they take
-- the mutex, so that another thread's call may come between the test and the body. A body, which
-- runs under the mutex, is one step, and the tests fall between bodies.
use Prim.Native.Nat.{◌≤◌}
use blackhv.Base.{
  take-drop, take-append_take, ℕ, ◌+◌, ◌-◌, ◌%◌, ◌≤◌, ◌<◌, min, ◌≡◌, sym, ap, ◌∙◌, ◌≢◌, Bool, false,
  ◌&&◌, ◌||◌, Option, none, some, List, [], ◌∷◌, ◌++◌, append_assoc, arith, ◌==◌, ==_false, length,
  take, drop, length-append, length-take, length-drop, ◌>>=◌, Returns-mono, Returns-bind,
  Returns-value, Exec, Returns, ok, returns,
}
use blackhv.Queue.{Queue, locked_write, locked_read}
use blackhv.Queue.Fifo.{IsFifo, add-mod_self, add-mod-ne}
use blackhv.Queue.Step.{after_put, put_byte-ok}
use blackhv.Queue.Write.{locked_write-IsFifo}
use blackhv.Queue.Read.{locked_read-IsFifo, empty_flags}

-- The tests on which the two functions return 0.
abbrev pub refuses_write : Queue → ℕ → Bool
refuses_write q size = (size == 0) || (q.is_full == 1)

abbrev pub refuses_read : Queue → ℕ → Bool
refuses_read q size = (size == 0) || ((q.is_full == 0) && (q.front == q.rear))

-- One thread that writes and one that reads, each between calls or, with its buffer and size, between
-- its test and its body. The bytes taken and given so far are kept beside the queue.
pub record System : Type 0 where
  pub queue : Queue
  pub writer : Option (List ℕ × ℕ)
  pub reader : Option (List ℕ × ℕ)
  pub accepted : List ℕ
  pub delivered : List ℕ

-- A test that fails leaves all as it is.
pub data Step : System → System → Type 0 where
  write_test :
      (s : System) (buffer : List ℕ) (size : ℕ)
      → s.writer ≡ none
      → size ≤ length buffer
      → refuses_write s.queue size ≡ false
      → Step s (record s { writer = some (buffer, size) })
  write_body :
      (s : System) (buffer : List ℕ) (size n : ℕ) (q : Queue)
      → s.writer ≡ some (buffer, size)
      → locked_write s.queue buffer size ≡ ok (n, q)
      → Step s (record s { queue = q; writer = none; accepted = s.accepted ++ take n buffer })
  read_test :
      (s : System) (buffer : List ℕ) (size : ℕ)
      → s.reader ≡ none
      → size ≤ length buffer
      → refuses_read s.queue size ≡ false
      → Step s (record s { reader = some (buffer, size) })
  read_body :
      (s : System) (buffer : List ℕ) (size n : ℕ) (buffer' : List ℕ) (q : Queue)
      → s.reader ≡ some (buffer, size)
      → locked_read s.queue buffer size ≡ ok (n, buffer', q)
      → Step s (record s { queue = q; reader = none; delivered = s.delivered ++ take n buffer' })

pub data Reach (s : System) : System → Type 0 where
  start : Reach s s
  later : {t u : System} → Reach s t → Step t u → Reach s u

-- A pending call has a size within its buffer, and there are `n` bytes or places for it, at least one.
abbrev pub Ready : Option (List ℕ × ℕ) → ℕ → Type 0
Ready none n = Unit
Ready (some (buffer, size)) n = (0 < size) × (size ≤ length buffer) × (0 < n)

-- The queue holds the bytes that were taken and not given yet; a pending write has room for a byte,
-- and a pending read finds one.
pub record InOrder (s : System) : Type 0 where
  pub waiting : List ℕ
  pub fifo : IsFifo s.queue waiting
  pub order : s.accepted ≡ s.delivered ++ waiting
  pub write_ready : Ready s.writer (s.queue.buffer_size - length waiting)
  pub read_ready : Ready s.reader (length waiting)

Ready-mono : (call : Option (List ℕ × ℕ)) (n m : ℕ) → n ≤ m → Ready call n → Ready call m
Ready-mono none n m le r = tt
Ready-mono (some (buffer, size)) n m le (more, inside, pos') = (more, inside, omega arith)

-- What a body that returned has done, from the lemma that it returns.
Returns-ok : {A : Type 0} (P : A → Type 0) {r : Exec A} {a : A} → Returns P r → r ≡ ok a → P a
Returns-ok P {a = a} h e =
    let (b, returned, p) = Returns-value h in let same : b ≡ a = cc in rw same at p

Step-InOrder : {s t : System} → Step s t → InOrder s → InOrder t
Step-InOrder (write_test s buffer size idle inside test) inv = record {
  waiting = inv.waiting;
  fifo = inv.fifo;
  order = inv.order;
  write_ready = (ground arith, inside, ground (arith, inv.fifo.flag, inv.fifo.holds.fits));
  read_ready = inv.read_ready;
}
Step-InOrder (read_test s buffer size idle inside test) inv = record {
  waiting = inv.waiting;
  fifo = inv.fifo;
  order = inv.order;
  write_ready = inv.write_ready;
  read_ready = (ground arith, inside, ground (arith, empty_flags inv.fifo));
}
Step-InOrder (write_body s buffer size n q pending body) inv =
    let (more, inside, room) = (rw pending at inv.write_ready) in
    let (count, fifo, same) =
      Returns-ok _
        (locked_write-IsFifo buffer size inv.fifo.holds (ground (arith, inv.fifo.flag))
          (omega arith) more inside)
        body in
    record {
      waiting = inv.waiting ++ take n buffer;
      fifo = rw count fifo;
      order = rw inv.order (append_assoc s.delivered inv.waiting (take n buffer));
      write_ready = tt;
      read_ready =
          Ready-mono s.reader _ _ (omega (arith, length-append inv.waiting (take n buffer)))
            inv.read_ready;
    }
Step-InOrder (read_body s buffer size n buffer' q pending body) inv =
    let (more, inside, some_bytes) = (rw pending at inv.read_ready) in
    let (count, bytes, fifo, same) =
      Returns-ok _ (locked_read-IsFifo buffer size inv.fifo.holds some_bytes more inside) body in
    let given : take n buffer' ≡ take n inv.waiting =
      rw (bytes, ← count) (take-append_take n inv.waiting (drop n buffer) (omega (arith, count))) in
    record {
      waiting = drop n inv.waiting;
      fifo = rw count fifo;
      order =
          inv.order
          ∙ ap (λ l. s.delivered ++ l) (sym (take-drop n inv.waiting))
          ∙ sym (append_assoc s.delivered (take n inv.waiting) (drop n inv.waiting))
          ∙ ap (λ l. (s.delivered ++ l) ++ drop n inv.waiting) (sym given);
      write_ready =
          Ready-mono s.writer _ _ (omega (arith, same, length-drop n inv.waiting)) inv.write_ready;
      read_ready = tt;
    }

-- However the tests and the bodies of one writing and one reading thread fall, from a ring that
-- holds the bytes taken and not given yet, with a byte or a place for each pending call, every
-- state reached is such a ring again: the bytes given are the first of those taken, in order.
pub Reach-InOrder : {s t : System} → Reach s t → InOrder s → InOrder t
Reach-InOrder start inv = inv
Reach-InOrder (later r st) inv = Step-InOrder st (Reach-InOrder r inv)

abbrev pub Finishes : System → Type 0
Finishes s =
    ((buffer : List ℕ) (size : ℕ)
      → s.writer ≡ some (buffer, size)
      → Returns (λ out. 0 < out.0) (locked_write s.queue buffer size))
    × ((buffer : List ℕ) (size : ℕ)
        → s.reader ≡ some (buffer, size)
        → Returns (λ out. 0 < out.0) (locked_read s.queue buffer size))

-- In every state that one writing and one reading thread reach from a ring that holds the bytes
-- taken and not given yet, with a byte or a place for each pending call, a pending body returns,
-- and takes or gives a byte at least.
pub Reach-Finishes : {s t : System} → Reach s t → InOrder s → Finishes t
Reach-Finishes {t} r inv = (writes, reads)
  where
    now : InOrder t
    now = Reach-InOrder r inv

    writes :
        (buffer : List ℕ) (size : ℕ)
        → t.writer ≡ some (buffer, size)
        → Returns (λ out. 0 < out.0) (locked_write t.queue buffer size)
    writes buffer size pending =
        let (more, inside, room) = (rw pending at now.write_ready) in
        Returns-mono
          (locked_write-IsFifo buffer size now.fifo.holds (ground (arith, now.fifo.flag))
            (omega arith) more inside)
          (λ out (count, _, _). omega (arith, count))

    reads :
        (buffer : List ℕ) (size : ℕ)
        → t.reader ≡ some (buffer, size)
        → Returns (λ out. 0 < out.0) (locked_read t.queue buffer size)
    reads buffer size pending =
        let (more, inside, some_bytes) = (rw pending at now.read_ready) in
        Returns-mono (locked_read-IsFifo buffer size now.fifo.holds some_bytes more inside)
          (λ out (count, _, _, _). omega (arith, count))

-- A byte written to a full ring leaves its two indices apart and its flag up.
overwrite :
    (q : Queue) (xs : List ℕ) (b : ℕ)
    → IsFifo q xs
    → 1 < q.buffer_size
    → length xs ≡ q.buffer_size
    → Returns (λ out. (ys : List ℕ) → ¬ (IsFifo out.1 ys)) (locked_write q (b ∷ []) 1)
unfolding locked_write
overwrite q xs b h two full = rw runs (returns broken)
  where
    at_front : q.rear ≡ q.front
    at_front = rw (h.holds.rear_at, full) (add-mod_self q.buffer_size q.front h.holds.front_in)

    next_ne : (q.rear + 1) % q.buffer_size ≢ q.front
    next_ne = rw at_front (add-mod-ne q.buffer_size q.front 1 h.holds.front_in (omega arith) two)

    broken : (ys : List ℕ) → ¬ (IsFifo (after_put q b) ys)
    broken ys f =
        let raised : q.is_full ≡ 1 = ground (arith, h.flag) in
        let as_many : length ys ≡ q.buffer_size = ground (arith, f.flag) in
        next_ne (
          f.holds.rear_at
          ∙ ap (λ k. (q.front + k) % q.buffer_size) as_many
          ∙ add-mod_self q.buffer_size q.front h.holds.front_in)

    apart : (q.front == (q.rear + 1) % q.buffer_size) ≡ false
    apart = ==_false _ _ (λ e. next_ne (sym e))

    runs : locked_write q (b ∷ []) 1 ≡ ok (1, after_put q b)
    runs = rw (put_byte-ok h.holds b) (ground (arith, apart))

-- On a ring of more than one byte with one place left, two writes of one byte whose tests both
-- come before the two bodies leave a ring that stands for no queue.
pub two_writers-broken :
    (q : Queue) (xs : List ℕ) (a b : ℕ)
    → IsFifo q xs
    → 1 < q.buffer_size
    → length xs + 1 ≡ q.buffer_size
    → (refuses_write q 1 ≡ false)
      × Returns
          (λ out. (ys : List ℕ) → ¬ (IsFifo out.1 ys))
          (do (n, q') ← locked_write q (a ∷ []) 1; locked_write q' (b ∷ []) 1)
two_writers-broken q xs a b h two last = (
  ground (arith, h.flag),
  Returns-bind
      (locked_write-IsFifo (a ∷ []) 1 h.holds (ground (arith, h.flag)) (omega arith) (omega arith)
        (omega arith))
      λ (n, q') (count, fifo, same).
        overwrite q' _ b fifo (omega arith)
          (omega (arith, same, length-append xs (take m (a ∷ [])), length-take m (a ∷ []))),
)
  where
    m : ℕ
    m = min 1 (q.buffer_size - length xs)
