-- ===== src/Queue/Read.antt =====
-- `queue_read` of src/queue.c, on a ring that stands for a queue.
use blackhv.Base.{
  set-append, ◌||◌, length-drop, false, Returns-bind, some, Option, lt→ltb, ℕ, zero, suc, ◌+◌, ◌-◌,
  ◌%◌, ◌≤◌, ◌<◌, min, ◌≡◌, refl, ◌∙◌, List, [], ◌∷◌, ◌++◌, arith, append_assoc, inl, inr, not, ◌&&◌,
  length, take, drop, ltb, ◌==◌, Returns, Returns-mono, returns, length-append, Bool-cases,
}
use blackhv.Queue.Step.{full-test, Holds-flag, advance-ok}
use blackhv.Queue.{queue_read, locked_read, store, Queue, store, read_loop}
use blackhv.Queue.Step.{advance-ok}
use native.Mathlib.Nat.{mod-eq_of_lt}
use blackhv.Queue.Fifo.{IsFifo, Holds, add-mod-ne, shift-mod, next-in}

module _ {q : Queue} {x : ℕ} {xs : List ℕ} (h : Holds q (x ∷ xs)) where
  -- The queue behind one byte read.
  after_get-Holds : Holds (record q { front = (q.front + 1) % q.buffer_size }) xs
  after_get-Holds = record {
    positive = h.positive;
    word = h.word;
    stored = h.stored;
    front_in = next-in q.buffer_size q.front h.positive;
    fits = omega (arith, h.fits);
    rear_at = h.rear_at ∙ shift-mod q.buffer_size q.front (length xs);
    bytes = h.bytes.1;
  }

  empty-test : ((q.front + 1) % q.buffer_size == q.rear) ≡ (length xs == 0)
  empty-test = elim (Bool-cases (length xs == 0)) [
    | inl e ↦ ground (arith, h.rear_at)
    | inr e ↦ ground (
      arith,
      shift-mod q.buffer_size q.front (length xs),
      h.rear_at,
      h.fits,
      add-mod-ne q.buffer_size ((q.front + 1) % q.buffer_size) (length xs)
          (next-in q.buffer_size q.front h.positive),
    )
  ]

-- How `read_loop` ends, started behind the bytes `done`, with room for `rest` more.
record Taken (q : Queue) (xs done rest : List ℕ) (m : ℕ) (out : ℕ × List ℕ × Queue) : Type 0 where
  count : out.0 ≡ length done + m
  bytes : out.1 ≡ done ++ (take m xs ++ drop m rest)
  holds : Holds out.2 (drop m xs)
  same_flag : out.2.is_full ≡ q.is_full
  same_size : out.2.buffer_size ≡ q.buffer_size

abbrev after_get : Queue → Queue
after_get q = record q { front = (q.front + 1) % q.buffer_size }

module _ {q : Queue} {x r : ℕ} {xs done rest : List ℕ} (h : Holds q (x ∷ xs)) where
  Taken-more :
      {m : ℕ} {out : ℕ × List ℕ × Queue}
      → Taken (after_get q) xs (done ++ (x ∷ [])) rest m out
      → Taken q (x ∷ xs) done (r ∷ rest) (suc m) out
  Taken-more {m} t = record {
    count = omega (arith, t.count, length-append done (x ∷ []));
    bytes = t.bytes ∙ append_assoc done (x ∷ []) (take m xs ++ drop m rest);
    holds = t.holds;
    same_flag = t.same_flag;
    same_size = t.same_size;
  }

  Taken-last :
      Taken q (x ∷ xs) done (r ∷ rest) 1 (length done + 1, (done ++ (x ∷ [])) ++ rest, after_get q)
  Taken-last = record {
    count = refl;
    bytes = append_assoc done (x ∷ []) rest;
    holds = after_get-Holds h;
    same_flag = refl;
    same_size = refl;
  }

read_loop-Taken :
    (fuel : ℕ) {q : Queue} (xs done rest : List ℕ) (size i : ℕ)
    → Holds q xs
    → 0 < length xs
    → i ≡ length done
    → i < size
    → size ≤ i + length rest
    → size - i ≤ fuel
    → Returns
        (Taken q xs done rest (min (size - i) (length xs)))
        (read_loop fuel q (done ++ rest) size i)
unfolding read_loop store
read_loop-Taken zero xs done rest size i h pos at more inside enough = absurd (omega arith)
read_loop-Taken (suc fuel) [] done rest size i h pos at more inside enough = absurd (omega arith)
read_loop-Taken (suc fuel) (x ∷ xs) done [] size i h pos at more inside enough =
    absurd (omega arith)
read_loop-Taken (suc fuel) {q} (x ∷ xs) done (r ∷ rest) size i h pos at more inside enough =
    let open_end : i < length (done ++ (r ∷ rest)) = omega (arith, length-append done (r ∷ rest)) in
    rw
      (
        h.bytes.0,
        lt→ltb i (length (done ++ (r ∷ rest))) open_end,
        set-append done r x i rest at,
        advance-ok h q.front h.front_in,
      )
      (elim (Bool-cases (not ((q.front + 1) % q.buffer_size == q.rear) && ltb (i + 1) size)) [
        | inl on ↦
            let left : 0 < length xs = ground (arith, empty-test h) in
            let longer : i + 1 < size = ground arith in
            let e : min (size - i) (length (x ∷ xs)) ≡ suc (min (size - (i + 1)) (length xs)) =
              omega arith in
            rw (on, e)
              (Returns-mono
                (read_loop-Taken fuel xs (done ++ (x ∷ [])) rest size (i + 1) (after_get-Holds h)
                  left (omega (arith, length-append done (x ∷ []))) longer (omega arith)
                  (omega arith))
                (λ out. Taken-more h))
        | inr off ↦
            let e : min (size - i) (length (x ∷ xs)) ≡ 1 = ground (arith, empty-test h) in
            rw (off, e, at) (returns (Taken-last h))
      ])

-- With the flag cleared a ring that has given a byte is a queue again.
cleared-IsFifo :
    {q : Queue} {ys : List ℕ}
    → Holds q ys
    → length ys < q.buffer_size
    → IsFifo (record q { is_full = 0 }) ys
cleared-IsFifo h less = record { holds = Holds-flag h 0; flag = ground arith }

-- What a read may do to a queue that holds `xs`: it takes the oldest bytes, as many as there are and
-- as the destination is to have, puts them at the start of the destination, and says how many.
abbrev pub WasRead : Queue → List ℕ → List ℕ → ℕ → ℕ × List ℕ × Option Queue → Type 0
WasRead q xs buffer size (n, buffer', out) =
    (n ≡ min size (length xs))
    × (buffer' ≡ take n xs ++ drop n buffer)
    × ((q' : Queue) × (out ≡ some q') × IsFifo q' (drop n xs) × (q'.buffer_size ≡ q.buffer_size))

-- Under the mutex.
pub locked_read-IsFifo :
    {q : Queue} {xs : List ℕ} (buffer : List ℕ) (size : ℕ)
    → Holds q xs
    → 0 < length xs
    → 0 < size
    → size ≤ length buffer
    → let n = min size (length xs) in
      Returns
        (λ out.
          (out.0 ≡ n)
          × (out.1 ≡ take n xs ++ drop n buffer)
          × IsFifo out.2 (drop n xs)
          × (out.2.buffer_size ≡ q.buffer_size))
        (locked_read q buffer size)
unfolding locked_read
locked_read-IsFifo {q} {xs} buffer size h pos more inside =
    Returns-bind
      (read_loop-Taken size xs [] buffer size 0 h pos refl more (omega arith) (omega arith))
      λ (i, b, q') t.
        let e : size - 0 ≡ size = omega arith in
        let t' : Taken q xs [] buffer (min size (length xs)) (i, b, q') = rw e at t in
        let some_read : (i == 0) ≡ false = ground (arith, t'.count) in
        rw some_read (
          returns (
            omega (arith, t'.count),
            t'.bytes,
            cleared-IsFifo t'.holds
                (omega (arith, t'.same_size, h.fits, length-drop (min size (length xs)) xs)),
            t'.same_size,
          ))

-- The test on which `queue_read` gives up is that the queue is empty.
pub empty_flags :
    {q : Queue} {xs : List ℕ}
    → IsFifo q xs
    → ((q.is_full == 0) && (q.front == q.rear)) ≡ (length xs == 0)
empty_flags {q} {xs = []} h =
    ground (arith, h.flag, h.holds.positive, h.holds.rear_at, add-mod_zero)
  where
    add-mod_zero : (q.front + 0) % q.buffer_size ≡ q.front
    add-mod_zero = omega (
      arith,
      mod-eq_of_lt {n = q.front + 0} {m = q.buffer_size} (omega (arith, h.holds.front_in)),
    )
empty_flags {q} {xs = x ∷ xs} h = ground (arith, h.flag, full-test h.holds (omega arith))

-- On a ring that holds `xs`, with a buffer as long as the size, `queue_read` gives the first
-- bytes of `xs`, as many as the size and `xs` allow, at the front of the buffer, returns their
-- number and leaves a ring that holds the rest.
pub queue_read-take :
    (q : Queue) (xs buffer : List ℕ) (size : ℕ)
    → IsFifo q xs
    → size ≤ length buffer
    → Returns (WasRead q xs buffer size) (queue_read (some q) buffer size)
unfolding queue_read
queue_read-take q xs buffer size h inside =
    elim (Bool-cases ((size == 0) || ((q.is_full == 0) && (q.front == q.rear)))) [
      | inl none_given ↦
          let no : 0 ≡ min size (length xs) = ground (arith, empty_flags h) in
          rw none_given (returns (no, refl, (q, refl, h, refl)))
      | inr open_end ↦ rw open_end (
          Returns-bind
            (locked_read-IsFifo buffer size h.holds (ground (arith, empty_flags h)) (ground arith)
              inside)
            (λ (n, b, q') (count, bytes, is, same).
              returns (count, rw count bytes, (q', refl, rw count is, same))))
    ]
