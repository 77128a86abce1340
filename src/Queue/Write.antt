-- ===== src/Queue/Write.antt =====
-- `queue_write` of src/queue.c, on a ring that stands for a queue.
use blackhv.Base.{
  ◌||◌, Option, ℕ, zero, suc, ◌+◌, ◌-◌, ◌%◌, ◌≤◌, ◌<◌, min, ◌≡◌, refl, ◌∙◌, some, List, [], ◌∷◌,
  ◌++◌, arith, append_assoc, append-nil, inl, inr, not, ◌&&◌, get_elem?, length, take, drop, ltb,
  ◌==◌, if◌then◌else◌, ok, Returns, take_cons, Returns-mono, Returns-bind, returns, length-append,
  length-take, Bool-cases, get_elem?-some, drop-cons_of_get,
}
use blackhv.Queue.{queue_write, Queue, write_loop, locked_write}
use blackhv.Queue.Step.{after_put, put_byte-ok, after_put-Holds, full-test, Holds-flag}
use blackhv.Queue.Fifo.{Holds, IsFifo}

-- How `write_loop` ends, started with `i` bytes of the source written.
record Wrote (q : Queue) (xs buffer : List ℕ) (size i : ℕ) (out : ℕ × Queue) : Type 0 where
  count : out.0 ≡ i + min (size - i) (q.buffer_size - length xs)
  holds : Holds out.1 (xs ++ take (min (size - i) (q.buffer_size - length xs)) (drop i buffer))
  same_flag : out.1.is_full ≡ q.is_full
  same_size : out.1.buffer_size ≡ q.buffer_size

module _ {q : Queue} {xs : List ℕ} (h : Holds q xs) (buffer : List ℕ) (size i : ℕ) {b : ℕ} where
  -- One more round in front of the rest of the loop.
  Wrote-more :
      {out : ℕ × Queue}
      → get_elem? buffer i ≡ some b
      → length xs + 1 < q.buffer_size
      → i + 1 < size
      → Wrote (after_put q b) (xs ++ (b ∷ [])) buffer size (i + 1) out
      → Wrote q xs buffer size i out
  Wrote-more {out} got room more w =
      let room' = length-append xs (b ∷ []) in
      let n : ℕ = min (size - (i + 1)) (q.buffer_size - length (xs ++ (b ∷ []))) in
      record {
        count = omega (arith, w.count, room');
        holds =
            rw
              (
                take_cons (min (size - i) (q.buffer_size - length xs)) n (omega (arith, room'))
                    (drop-cons_of_get buffer i got),
                ← append_assoc xs (b ∷ []) (take n (drop (i + 1) buffer)),
              )
              w.holds;
        same_flag = w.same_flag;
        same_size = w.same_size;
      }

  -- The last round: the ring is full or the source is used up.
  Wrote-last :
      get_elem? buffer i ≡ some b
      → length xs < q.buffer_size
      → i < size
      → min (size - i) (q.buffer_size - length xs) ≡ 1
      → Returns (Wrote q xs buffer size i) (ok (i + 1, after_put q b))
  Wrote-last got room more one = returns (record {
    count = omega arith;
    holds =
        rw
          (take_cons (min (size - i) (q.buffer_size - length xs)) 0 one
            (drop-cons_of_get buffer i got))
          (after_put-Holds h b room);
    same_flag = refl;
    same_size = refl;
  })

write_loop-Wrote :
    (fuel : ℕ) {q : Queue} {xs : List ℕ} (buffer : List ℕ) (size i : ℕ)
    → Holds q xs
    → length xs < q.buffer_size
    → i < size
    → size ≤ length buffer
    → size - i ≤ fuel
    → Returns (Wrote q xs buffer size i) (write_loop fuel q buffer size i)
unfolding write_loop
write_loop-Wrote zero buffer size i h room more inside enough = absurd (omega arith)
write_loop-Wrote (suc fuel) {q} {xs} buffer size i h room more inside enough =
    let (b, got) = get_elem?-some buffer i (omega arith) in
    let len = length-append xs (b ∷ []) in
    let full = full-test (after_put-Holds h b room) (omega (arith, len)) in
    rw (got, put_byte-ok h b)
      (elim (Bool-cases (not (q.front == (q.rear + 1) % q.buffer_size) && ltb (i + 1) size)) [
        | inl on ↦
            let roomy : length xs + 1 < q.buffer_size = ground (arith, full, len) in
            let longer : i + 1 < size = ground arith in
            rw on (
              Returns-mono
                (write_loop-Wrote fuel buffer size (i + 1) (after_put-Holds h b room)
                  (omega (arith, len)) longer inside (omega arith))
                (λ out. Wrote-more h buffer size i got roomy longer))
        | inr off ↦ rw off (Wrote-last h buffer size i got room more (ground (arith, full, len)))
      ])

-- The flag is set where the loop has come round to the front.
abbrev raised : Queue → Queue
raised q = if q.front == q.rear then record q { is_full = 1 } else q

raise_flag :
    {q : Queue} {ys : List ℕ} → Holds q ys → q.is_full ≡ 0 → 0 < length ys → IsFifo (raised q) ys
raise_flag {q} {ys} h flag pos = elim (Bool-cases (q.front == q.rear)) [
  | inl e ↦ rw e (record { holds = Holds-flag h 1; flag = ground (arith, full-test h pos) })
  | inr e ↦ rw e (record { holds = h; flag = ground (arith, full-test h pos) })
]

raise_flag_size : (q : Queue) → (raised q).buffer_size ≡ q.buffer_size
raise_flag_size q = ground arith

-- Under the mutex, `queue_write` takes as many bytes as the source has and the ring has room for,
-- and leaves the flag right.
pub locked_write-IsFifo :
    {q : Queue} {xs : List ℕ} (buffer : List ℕ) (size : ℕ)
    → Holds q xs
    → q.is_full ≡ 0
    → length xs < q.buffer_size
    → 0 < size
    → size ≤ length buffer
    → let n = min size (q.buffer_size - length xs) in
      Returns
        (λ out.
          (out.0 ≡ n) × IsFifo out.1 (xs ++ take n buffer) × (out.1.buffer_size ≡ q.buffer_size))
        (locked_write q buffer size)
unfolding locked_write
locked_write-IsFifo {q} {xs} buffer size h flag room some_bytes inside =
    Returns-bind (write_loop-Wrote size buffer size 0 h room some_bytes inside (omega arith))
      (λ (n, q') w. returns (
        omega (arith, w.count),
        raise_flag (Holds-after w) (w.same_flag ∙ flag)
            (omega (arith, length-append xs (take m buffer), length-take m buffer)),
        raise_flag_size q' ∙ w.same_size,
      ))
  where
    m : ℕ
    m = min size (q.buffer_size - length xs)

    Holds-after :
        {out : ℕ × Queue} → Wrote q xs buffer size 0 out → Holds out.1 (xs ++ take m buffer)
    Holds-after w = let e : size - 0 ≡ size = omega arith in rw e at w.holds

-- What a write may do to a queue that holds `xs`: it takes as many bytes as the source has and the
-- ring has room for, in order, and says how many.
abbrev pub Written : Queue → List ℕ → List ℕ → ℕ → ℕ × Option Queue → Type 0
Written q xs buffer size (n, out) =
    (n ≡ min size (q.buffer_size - length xs))
    × ((q' : Queue) × (out ≡ some q')
        × IsFifo q' (xs ++ take n buffer)
        × (q'.buffer_size ≡ q.buffer_size))

-- On a ring that holds `xs`, with a source as long as the size, `queue_write` takes the first
-- bytes of the source, as many as the size and the free room allow, returns their number and
-- leaves a ring that holds them behind `xs`.
pub queue_write-append :
    (q : Queue) (xs buffer : List ℕ) (size : ℕ)
    → IsFifo q xs
    → size ≤ length buffer
    → Returns (Written q xs buffer size) (queue_write (some q) buffer size)
unfolding queue_write
queue_write-append q xs buffer size h inside = elim (Bool-cases ((size == 0) || (q.is_full == 1))) [
  | inl none_taken ↦
      let n : ℕ = min size (q.buffer_size - length xs) in
      let no : 0 ≡ n = ground (arith, h.flag) in
      rw none_taken (returns (no, (q, refl, let e : xs ++ [] ≡ xs = append-nil xs in rw e h, refl)))
  | inr open_end ↦ rw open_end (
      Returns-bind
        (locked_write-IsFifo buffer size h.holds (ground (arith, h.flag))
          (ground (arith, h.flag, h.holds.fits)) (ground arith) inside)
        (λ (n, q') (count, is, same). returns (count, (q', refl, rw count is, same))))
]
