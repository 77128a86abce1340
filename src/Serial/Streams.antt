-- ===== src/Serial/Streams.antt =====
-- Whole transfers over a serial port of src/serial.c: what one side sends, the other receives.
use blackhv.Base.{
  ℕ, zero, suc, ◌+◌, ◌-◌, ◌≤◌, min, ◌≡◌, refl, ap, ◌∙◌, some, List, [], ◌∷◌, ◌++◌, append_assoc,
  append-nil, arith, length, take, drop, length-append, ◌>>=◌, Returns-mono, Returns-bind, Exec,
  Returns, ok, returns,
}
use blackhv.Queue.Write.{queue_write-append}
use blackhv.Queue.Read.{queue_read-take}
use blackhv.Serial.{Serial, serial_outb, serial_inb, serial_read, serial_write}
use blackhv.Serial.Registers.{Carries, serial_outb-append, serial_inb_data}

-- A guest that writes the bytes to the first register, one after another.
unfoldable pub send_all : List ℕ → Serial → Exec Serial
send_all [] serial = ok serial
send_all (b ∷ bs) serial = do serial' ← serial_outb serial.port b (some serial); send_all bs serial'

-- A guest that reads the first register so many times.
unfoldable pub receive_all : ℕ → Serial → Exec (List ℕ × Serial)
receive_all zero serial = ok ([], serial)
receive_all (suc n) serial = do
  (b, serial') ← serial_inb serial.port (some serial)
  (bs, serial'') ← receive_all n serial'
  ok (b ∷ bs, serial'')

send_all-append :
    (bs : List ℕ) (serial : Serial) (size : ℕ) (to_host to_guest : List ℕ)
    → Carries serial size to_host to_guest
    → length to_host + length bs ≤ size
    → Returns (λ serial'. Carries serial' size (to_host ++ bs) to_guest) (send_all bs serial)
unfolding send_all
send_all-append [] serial size to_host to_guest c room = returns (rw (append-nil to_host) c)
send_all-append (b ∷ bs) serial size to_host to_guest c room =
    Returns-bind (serial_outb-append serial size b to_host to_guest c) λ serial' (c', _).
      let one : min 1 (size - length to_host) ≡ 1 = omega arith in
      let c1 : Carries serial' size (to_host ++ (b ∷ [])) to_guest = rw one at c' in
      rw (← append_assoc to_host (b ∷ []) bs) (
        send_all-append bs serial' size (to_host ++ (b ∷ [])) to_guest c1
          (omega (arith, length-append to_host (b ∷ []))))

-- `serial_read` gives the host the oldest bytes that the guest has sent.
pub serial_read-take :
    (serial : Serial) (size : ℕ) (to_host to_guest buffer : List ℕ) (len : ℕ)
    → Carries serial size to_host to_guest
    → len ≤ length buffer
    → let n = min len (length to_host) in
      Returns
        (λ (r, out, after).
          (r ≡ n)
          × (out ≡ some (take n to_host ++ drop n buffer))
          × ((serial' : Serial) × (after ≡ some serial')
              × Carries serial' size (drop n to_host) to_guest))
        (serial_read (some serial) (some buffer) len)
unfolding serial_read
serial_read-take serial size to_host to_guest buffer len c inside = rw c.guest_at (
    Returns-bind (queue_read-take c.guest to_host buffer len c.guest_fifo inside)
      λ (n, bytes, out) (count, got, (q, e, is, same)). returns (
        count,
        ap some (rw count at got),
        (
          record serial { guest_queue = out },
          refl,
          record {
            guest = q;
            host = c.host;
            guest_at = e;
            host_at = c.host_at;
            guest_fifo = rw count at is;
            host_fifo = c.host_fifo;
            guest_size = same ∙ c.guest_size;
            host_size = c.host_size;
          },
        ),
      ))

-- `serial_write`, with a buffer as long as the size, queues for the guest as many bytes as asked
-- for and as there is room for, in order, and returns their number.
pub serial_write-append :
    (serial : Serial) (size : ℕ) (to_host to_guest buffer : List ℕ) (len : ℕ)
    → Carries serial size to_host to_guest
    → len ≤ length buffer
    → let n = min len (size - length to_guest) in
      Returns
        (λ (r, after).
          (r ≡ n)
          × ((serial' : Serial) × (after ≡ some serial')
              × Carries serial' size to_host (to_guest ++ take n buffer)))
        (serial_write (some serial) (some buffer) len)
unfolding serial_write
serial_write-append serial size to_host to_guest buffer len c inside = rw c.host_at (
    Returns-bind (queue_write-append c.host to_guest buffer len c.host_fifo inside)
      λ (n, out) (count, (q, e, is, same)).
        let m : n ≡ min len (size - length to_guest) = omega (arith, count, c.host_size) in
        returns (
          m,
          (
            record serial { host_queue = out },
            refl,
            record {
              guest = c.guest;
              host = q;
              guest_at = c.guest_at;
              host_at = e;
              guest_fifo = c.guest_fifo;
              host_fifo = rw m at is;
              guest_size = c.guest_size;
              host_size = same ∙ c.host_size;
            },
          ),
        ))

-- The bytes that the guest writes to the first register of a port on which none waits for the
-- host, no more than the queue's size, are what `serial_read` of their number then gives, in
-- order.
pub serial_read-send_all :
    (bs : List ℕ) (serial : Serial) (size : ℕ) (to_guest buffer : List ℕ)
    → Carries serial size [] to_guest
    → length bs ≤ size
    → length buffer ≡ length bs
    → Returns
        (λ (n, out, after). (n ≡ length bs) × (out ≡ some bs))
        (do serial' ← send_all bs serial; serial_read (some serial') (some buffer) (length bs))
serial_read-send_all bs serial size to_guest buffer c room same =
    Returns-bind (send_all-append bs serial size [] to_guest c (omega arith)) λ serial' c'.
      let all : min (length bs) (length bs) ≡ length bs = omega arith in
      Returns-mono (serial_read-take serial' size bs to_guest buffer (length bs) c' (omega arith))
        (λ (n, out, after) (count, got, _).
          (count ∙ all, got ∙ ap some (rw all (whole bs buffer same))))
  where
    whole :
        (xs ys : List ℕ) → length ys ≡ length xs → take (length xs) xs ++ drop (length xs) ys ≡ xs
    whole [] [] e = refl
    whole [] (y ∷ ys) e = absurd (omega arith)
    whole (x ∷ xs) [] e = absurd (omega arith)
    whole (x ∷ xs) (y ∷ ys) e = ap (λ l. x ∷ l) (whole xs ys (omega arith))

-- Where bytes wait for the guest, reading the first register once for each of them gives them in
-- order and leaves none.
pub receive_all-take :
    (to_guest : List ℕ) (serial : Serial) (size : ℕ) (to_host : List ℕ)
    → Carries serial size to_host to_guest
    → Returns
        (λ (bs, serial'). (bs ≡ to_guest) × Carries serial' size to_host [])
        (receive_all (length to_guest) serial)
unfolding receive_all
receive_all-take [] serial size to_host c = returns (refl, c)
receive_all-take (b ∷ bs) serial size to_host c =
    Returns-bind (serial_inb_data serial size to_host (b ∷ bs) c) λ (x, serial') (e, c', _).
      Returns-bind (receive_all-take bs serial' size to_host c')
        λ (xs, serial'') (e', c''). returns (rw (e, e') refl, c'')
