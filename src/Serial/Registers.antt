-- ===== src/Serial/Registers.antt =====
-- What the guest and the host see of a serial port of src/serial.c.
use Prim.Native.Nat.{bit_and, bit_or}
use blackhv.Base.{
  ℕ, suc, ◌+◌, ◌-◌, ◌*◌, ◌^◌, ◌<◌, min, ◌≡◌, refl, ◌∙◌, Bool, true, false, not, some, List, [], ◌∷◌,
  ◌++◌, arith, ◌==◌, int_of, length, get_elem?, take, drop, access, Returns-bind, Returns, ok,
  returns,
}
use blackhv.Queue.{Queue, queue_empty}
use blackhv.Queue.Fifo.{IsFifo}
use blackhv.Queue.Write.{queue_write-append}
use blackhv.Queue.Read.{queue_read-take}
use blackhv.Queue.Calls.{queue_empty-IsFifo}
use blackhv.Serial.{Serial, register_of, serial_outb, serial_inb, line_status, lsr}

-- The bytes on the way to the host, and those on the way to the guest.
pub record Carries (serial : Serial) (size : ℕ) (to_host to_guest : List ℕ) : Type 0 where
  pub guest : Queue
  pub host : Queue
  pub guest_at : serial.guest_queue ≡ some guest
  pub host_at : serial.host_queue ≡ some host
  pub guest_fifo : IsFifo guest to_host
  pub host_fifo : IsFifo host to_guest
  pub guest_size : guest.buffer_size ≡ size
  pub host_size : host.buffer_size ≡ size

own_register : (serial : Serial) → register_of serial serial.port ≡ 0
own_register serial = omega arith

-- A byte that the guest writes to the first register is queued for the host, if there is room.
pub serial_outb-append :
    (serial : Serial) (size b : ℕ) (to_host to_guest : List ℕ)
    → Carries serial size to_host to_guest
    → Returns
        (λ serial'.
          Carries serial' size (to_host ++ take (min 1 (size - length to_host)) (b ∷ [])) to_guest
          × (serial'.port ≡ serial.port))
        (serial_outb serial.port b (some serial))
unfolding serial_outb
serial_outb-append serial size b to_host to_guest c =
    rw (own_register serial, c.guest_at)
      (Returns-bind (queue_write-append c.guest to_host (b ∷ []) 1 c.guest_fifo (omega arith))
        λ (n, out) (count, (q, e, is, same)). returns (
          record {
            guest = q;
            host = c.host;
            guest_at = e;
            host_at = c.host_at;
            guest_fifo =
                let m : n ≡ min 1 (size - length to_host) = omega (arith, count, c.guest_size) in
                rw m at is;
            host_fifo = c.host_fifo;
            guest_size = same ∙ c.guest_size;
            host_size = c.host_size;
          },
          refl,
        ))

-- The first byte waiting, or the 0 that `serial_inb` starts from.
abbrev pub first_byte : List ℕ → ℕ
first_byte [] = 0
first_byte (b ∷ bs) = b

byte_read :
    (xs : List ℕ)
    → access (get_elem? (take (min 1 (length xs)) xs ++ drop (min 1 (length xs)) (0 ∷ [])) 0)
      ≡ ok (first_byte xs)
byte_read [] = refl
byte_read (x ∷ xs) = let e : min 1 (suc (length xs)) ≡ 1 = omega arith in rw e

drop_one : (xs : List ℕ) → drop (min 1 (length xs)) xs ≡ drop 1 xs
drop_one [] = refl
drop_one (x ∷ xs) = let e : min 1 (suc (length xs)) ≡ 1 = omega arith in rw e

-- A read of the first register gives the guest the oldest byte from the host, or 0 if there is none.
pub serial_inb_data :
    (serial : Serial) (size : ℕ) (to_host to_guest : List ℕ)
    → Carries serial size to_host to_guest
    → Returns
        (λ (b, serial').
          (b ≡ first_byte to_guest)
          × Carries serial' size to_host (drop 1 to_guest)
          × (serial'.port ≡ serial.port))
        (serial_inb serial.port (some serial))
unfolding serial_inb
serial_inb_data serial size to_host to_guest c =
    rw (own_register serial, c.host_at)
      (Returns-bind (queue_read-take c.host to_guest (0 ∷ []) 1 c.host_fifo (omega arith))
        λ (n, bytes, out) (count, got, (q, e, is, same)).
          rw (got, count)
            (rw (byte_read to_guest) (
              returns (
                refl,
                record {
                  guest = c.guest;
                  host = q;
                  guest_at = c.guest_at;
                  host_at = e;
                  guest_fifo = c.guest_fifo;
                  host_fifo = rw (drop_one to_guest) at (rw count at is);
                  guest_size = c.guest_size;
                  host_size = same ∙ c.host_size;
                },
                refl,
              ))))

status_bits :
    (b : Bool)
    → bit_or 0x0 (bit_or (bit_and (int_of (int_of b == 0)) 0x1) (0x1 * 2 ^ 5)) ≡ 32 + int_of (not b)
status_bits true = refl
status_bits false = refl

waiting_status :
    (serial : Serial) {q : Queue} (b : Bool)
    → serial.host_queue ≡ some q
    → queue_empty (some q) ≡ int_of b
    → line_status serial ≡ 32 + int_of (not b)
unfolding line_status
waiting_status serial {q} b at e = rw (at, e) (status_bits b)

-- A read of the line status of a port below 2^16 says that bytes may be sent, in bit 5, and in
-- bit 0 whether bytes wait for the guest, and changes nothing.
pub serial_inb_status :
    (serial : Serial) (size : ℕ) (to_host to_guest : List ℕ)
    → Carries serial size to_host to_guest
    → serial.port + lsr < 2 ^ 16
    → serial_inb (serial.port + lsr) (some serial)
      ≡ ok (32 + int_of (not (length to_guest == 0)), serial)
unfolding serial_inb
serial_inb_status serial size to_host to_guest c small =
    let five : register_of serial (serial.port + lsr) ≡ 5 = omega arith in
    let waiting = queue_empty-IsFifo c.host c.host_fifo in
    rw (five, waiting_status serial (length to_guest == 0) c.host_at waiting)
