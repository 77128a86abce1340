-- ===== src/Queue.antt =====
-- src/queue.c: a ring of bytes with a flag that tells a full ring from an empty one.
-- A `queue_t *` is an Option, `none` for NULL. The mutex makes each body one step, and the
-- checks outside of it are taken with it. A byte is any number: the queue only moves it.
pub mod Fifo
pub mod Step
pub mod Write
pub mod Read
pub mod Calls
pub mod Threads
pub mod UnitTests
pub mod Tests
use blackhv.Base.{
  [], ◌∷◌, ℕ, zero, suc, ◌+◌, ◌%◌, ◌^◌, Bool, true, false, not, ◌&&◌, ◌||◌, Option, none, some,
  List, get_elem?, length, ltb, ◌==◌, if◌then◌else◌, int_of, set, Exec, ok, fault, out_of_fuel,
  ◌>>=◌, access,
}

-- `queue_t`; the allocation behind `buffer` is the list.
pub record Queue : Type 0 where
  pub buffer : List ℕ
  pub buffer_size : ℕ
  pub front : ℕ
  pub rear : ℕ
  pub is_full : ℕ

-- `queue_new`. `malloc` gives the structure's memory or not, and the buffer's memory (whatever it
-- holds) or not.
pub queue_new : (struct_memory : Bool) (buffer_memory : Option (List ℕ)) → ℕ → Option Queue
queue_new false buffer_memory buffer_size = none
queue_new true none buffer_size = none
queue_new true (some bytes) buffer_size =
    some (record { buffer = bytes; buffer_size = buffer_size; front = 0; rear = 0; is_full = 0 })

-- What `queue_destroy` gives to `free`, in order.
pub data Allocation : Type 0 where
  queue_buffer : Allocation
  queue_struct : Allocation

pub queue_destroy : Option Queue → List Allocation
queue_destroy none = []
queue_destroy (some q) = queue_buffer ∷ queue_struct ∷ []

-- `(index + 1) % buffer_size`, where a zero size is a division by zero.
pub advance : Queue → ℕ → Exec ℕ
advance q index = if q.buffer_size == 0 then fault else ok ((index + 1) % 2 ^ 64 % q.buffer_size)

-- A store to `queue->buffer[i]`.
pub store : List ℕ → ℕ → ℕ → Exec (List ℕ)
store bytes i b = if ltb i (length bytes) then ok (set bytes i b) else fault

-- The statements of `queue_write`'s loop body that change the queue.
pub put_byte : Queue → ℕ → Exec Queue
unfolding advance store
put_byte q b = do
  bytes ← store q.buffer q.rear b
  rear ← advance q q.rear
  ok (record q { buffer = bytes; rear = rear })

-- `queue_write`'s do-while loop from round `i`, with the source buffer.
write_loop : ℕ → Queue → List ℕ → (size i : ℕ) → Exec (ℕ × Queue)
write_loop zero q buffer size i = out_of_fuel
write_loop (suc fuel) q buffer size i = do
  b ← access (get_elem? buffer i)
  q' ← put_byte q b
  let rest = write_loop fuel q' buffer size (i + 1)
  if not (q'.front == q'.rear) && ltb (i + 1) size then rest else ok (i + 1, q')

-- What `queue_write` does under the mutex.
pub locked_write : Queue → List ℕ → ℕ → Exec (ℕ × Queue)
unfolding write_loop
locked_write q buffer size = do
  (i, q') ← write_loop size q buffer size 0
  ok (i, if q'.front == q'.rear then record q' { is_full = 1 } else q')

-- `queue_write`: the count of bytes taken, and the queue.
pub queue_write : Option Queue → List ℕ → ℕ → Exec (ℕ × Option Queue)
queue_write none buffer size = ok (0, none)
queue_write (some q) buffer size =
    if (size == 0) || (q.is_full == 1)
    then ok (0, some q)
    else do (i, q') ← locked_write q buffer size; ok (i, some q')

-- `queue_read`'s do-while loop from round `i`, with the destination buffer.
read_loop : ℕ → Queue → List ℕ → (size i : ℕ) → Exec (ℕ × List ℕ × Queue)
read_loop zero q buffer size i = out_of_fuel
read_loop (suc fuel) q buffer size i = do
  b ← access (get_elem? q.buffer q.front)
  buffer' ← store buffer i b
  front ← advance q q.front
  let rest = read_loop fuel (record q { front = front }) buffer' size (i + 1)
  if not (front == q.rear) && ltb (i + 1) size
      then rest
      else ok (i + 1, buffer', record q { front = front })

-- What `queue_read` does under the mutex.
pub locked_read : Queue → List ℕ → ℕ → Exec (ℕ × List ℕ × Queue)
unfolding read_loop
locked_read q buffer size = do
  (i, buffer', q') ← read_loop size q buffer size 0
  ok (i, buffer', if not (i == 0) then record q' { is_full = 0 } else q')

-- `queue_read`: the count of bytes given, the destination buffer and the queue.
pub queue_read : Option Queue → List ℕ → ℕ → Exec (ℕ × List ℕ × Option Queue)
queue_read none buffer size = ok (0, buffer, none)
queue_read (some q) buffer size =
    if (size == 0) || ((q.is_full == 0) && (q.front == q.rear))
    then ok (0, buffer, some q)
    else do (i, buffer', q') ← locked_read q buffer size; ok (i, buffer', some q')

-- `queue_empty`.
pub queue_empty : Option Queue → ℕ
queue_empty none = 0
queue_empty (some q) = int_of (not (q.is_full == 1) && (q.front == q.rear))
