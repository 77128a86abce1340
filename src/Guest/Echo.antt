-- ===== src/Guest/Echo.antt =====
-- The guest of examples/guests/guest32.c on the serial port of src/serial.c.
use Prim.Native.Nat.{bit_and}
use blackhv.Base.{
  ℕ, suc, ◌+◌, ◌-◌, ◌/◌, ◌^◌, ◌≤◌, ◌<◌, min, ◌≡◌, refl, sym, ap, ◌∙◌, ◌≢◌, Bool, true, false, not,
  some, List, [], ◌∷◌, ◌++◌, append_assoc, append-nil, arith, ◌==◌, int_of, ==_false, length, All,
  length-append, Returns-mono, Returns-bind, Exec, Returns, ok, returns,
}
use blackhv.Serial.{Serial, serial_inb, serial_outb}
use blackhv.Serial.Registers.{Carries, serial_outb-append, serial_inb_data, serial_inb_status}
use blackhv.Guest.{com1, serial_write_char, serial_write_str, serial_read, echo}

-- The instructions on the first serial port.
abbrev pub in_serial : (addr : ℕ) → Serial → Exec (ℕ × Serial)
in_serial addr s = serial_inb addr (some s)

abbrev pub out_serial : (addr value : ℕ) → Serial → Exec Serial
out_serial addr value s = serial_outb addr value (some s)

-- A port at COM1 that carries these bytes.
pub record IsLine (s : Serial) (size : ℕ) (to_host to_guest : List ℕ) : Type 0 where
  pub at_com1 : s.port ≡ com1
  pub carries : Carries s size to_host to_guest

status-IsLine :
    (s : Serial) (size : ℕ) (to_host to_guest : List ℕ)
    → IsLine s size to_host to_guest
    → in_serial (com1 + 5) s ≡ ok (32 + int_of (not (length to_guest == 0)), s)
status-IsLine s size to_host to_guest l =
    ap (λ p. serial_inb (p + 5) (some s)) (sym l.at_com1)
    ∙ serial_inb_status s size to_host to_guest l.carries (omega (arith, l.at_com1))

-- The bit of the status that the guest polls before it sends.
ready_bit : (waiting : Bool) → (bit_and ((32 + int_of waiting) / 2 ^ 5) 1 == 0) ≡ false
ready_bit true = refl
ready_bit false = refl

-- A byte to the host: the port is ready at the first look.
serial_write_char-IsLine :
    (fuel c : ℕ) (s : Serial) (size : ℕ) (to_host to_guest : List ℕ)
    → IsLine s size to_host to_guest
    → length to_host < size
    → Returns
        (λ s'. IsLine s' size (to_host ++ (c ∷ [])) to_guest)
        (serial_write_char in_serial out_serial (suc fuel) c s)
unfolding serial_write_char
serial_write_char-IsLine fuel c s size to_host to_guest l room =
    rw
      (status-IsLine s size to_host to_guest l, ready_bit (not (length to_guest == 0)), ← l.at_com1)
      (Returns-mono (serial_outb-append s size c to_host to_guest l.carries) (λ s' (carries, same).
        record {
          at_com1 = same ∙ l.at_com1;
          carries =
              let fits : min 1 (size - length to_host) ≡ 1 = omega arith in rw fits at carries;
        }))

-- A byte from the host.
serial_read-IsLine :
    (fuel c : ℕ) (s : Serial) (size : ℕ) (to_host to_guest : List ℕ)
    → IsLine s size to_host (c ∷ to_guest)
    → Returns
        (λ (b, s'). (b ≡ c) × IsLine s' size to_host to_guest)
        (serial_read in_serial out_serial (suc fuel) s)
unfolding serial_read
serial_read-IsLine fuel c s size to_host to_guest l =
    let waits : (length (c ∷ to_guest) == 0) ≡ false = ground arith in
    rw (status-IsLine s size to_host (c ∷ to_guest) l, waits, ← l.at_com1)
      (Returns-mono (serial_inb_data s size to_host (c ∷ to_guest) l.carries)
        (λ (b, s') (e, carries, same).
          (e, record { at_com1 = same ∙ l.at_com1; carries = carries })))

-- Any text that fits is sent up to its end.
pub serial_write_str-IsLine :
    (fuel : ℕ) (str : List ℕ) (rest : List ℕ) (s : Serial) (size : ℕ) (to_host to_guest : List ℕ)
    → All (λ c. c ≢ 0) str
    → IsLine s size to_host to_guest
    → length to_host + length str ≤ size
    → Returns
        (λ s'. IsLine s' size (to_host ++ str) to_guest)
        (serial_write_str in_serial out_serial (suc fuel) (str ++ (0 ∷ rest)) s)
unfolding serial_write_str
serial_write_str-IsLine fuel [] rest s size to_host to_guest some_text l room =
    returns (rw (append-nil to_host) l)
serial_write_str-IsLine fuel (c ∷ str) rest s size to_host to_guest (not_end, some_text) l room =
    rw (==_false c 0 not_end) (
      Returns-bind (serial_write_char-IsLine fuel c s size to_host to_guest l (omega arith))
        λ s1 l1.
          Returns-mono
            (serial_write_str-IsLine fuel str rest s1 size (to_host ++ (c ∷ [])) to_guest some_text
              l1 (omega (arith, length-append to_host (c ∷ []))))
            (λ s' l'. rw (← append_assoc to_host (c ∷ []) str) l'))

-- With a round of polling at least, the echo loop ends after one round for each byte that waits
-- for the guest, if the queue for the host has room for them; the host then finds those bytes
-- behind the ones on the way, in order.
pub echo-IsLine :
    (fuel : ℕ) (bs : List ℕ) (s : Serial) (size : ℕ) (to_host : List ℕ)
    → IsLine s size to_host bs
    → length to_host + length bs ≤ size
    → Returns
        (λ s'. IsLine s' size (to_host ++ bs) [])
        (echo in_serial out_serial (suc fuel) (length bs) s)
unfolding echo
echo-IsLine fuel [] s size to_host l room = returns (rw (append-nil to_host) l)
echo-IsLine fuel (c ∷ bs) s size to_host l room =
    Returns-bind (serial_read-IsLine fuel c s size to_host bs l) λ (b, s1) (e, l1). rw e (
      Returns-bind (serial_write_char-IsLine fuel c s1 size to_host bs l1 (omega arith)) λ s2 l2.
        Returns-mono
          (echo-IsLine fuel bs s2 size (to_host ++ (c ∷ [])) l2
            (omega (arith, length-append to_host (c ∷ []))))
          (λ s' l'. rw (← append_assoc to_host (c ∷ []) bs) l'))
