-- ===== src/Guest.antt =====
-- examples/guests/guest32.c: the guest program that greets, draws a picture and echoes what it reads.
-- `inb` and `outb` are the instructions, which leave to the host: Guest/Echo.antt says what a serial
-- port answers. The polling loops take fuel. A text is its bytes, the last one zero.
pub mod Echo
pub mod Splash
pub mod Start
pub mod Tests
use Prim.Native.Nat.{bit_and}
use blackhv.Base.{
  ℕ, zero, suc, ◌+◌, ◌-◌, ◌*◌, ◌/◌, ◌%◌, ◌^◌, ◌≤◌, ◌<◌, min, ◌≡◌, refl, sym, ap, ◌∙◌, ◌≢◌, ◌↔◌, ◌⊎◌,
  inl, inr, Bool, true, false, not, ◌&&◌, ◌||◌, Option, none, some, List, [], ◌∷◌, ◌++◌, map,
  append_assoc, append-nil, arith, ltb, leb, ◌==◌, if◌then◌else◌, int_of, ==_iff, ==_refl, ==_false,
  lt→ltb, le→ltb, Bool-cases, Option-cases, length, get_elem?, set, take, drop, replicate, All,
  length-append, get_elem?-append, length-set, length-take, length-drop, length-replicate,
  get_elem?-set_self, get_elem?-set_ne, get_elem?-some, drop-cons_of_get, take_cons, set-append,
  take-drop, take-append_take, take_all, drop_all, minus_one, s64_of, add_u64, sub_u64, ℤ, ◌>>=◌,
  access, Returns-mono, Returns-bind, Returns-value, Exec, Returns, ok, fault, out_of_fuel, returns,
  pos, negsuc,
}

abbrev pub com1 : ℕ
com1 = 0x3F8

module _ {S : Type 0} (inb : (addr : ℕ) → S → Exec (ℕ × S))
    (outb : (addr value : ℕ) → S → Exec S) where
  -- `while (((status >> 5) & 1) == 0)` in `serial_write_char`.
  unfoldable pub wait_ready : ℕ → (status : ℕ) → S → Exec S
  wait_ready zero status s = out_of_fuel
  wait_ready (suc fuel) status s =
      let again = (do (status', s') ← inb (com1 + 5) s; wait_ready fuel status' s') in
      if bit_and (status / 2 ^ 5) 1 == 0 then again else ok s

  unfoldable pub serial_write_char : (fuel c : ℕ) → S → Exec S
  unfolding wait_ready
  serial_write_char fuel c s = do
    (status, s1) ← inb (com1 + 5) s
    s2 ← wait_ready fuel status s1
    outb com1 c s2

  -- `serial_write_str`, from the character reached; a text with no end is read out of bounds.
  unfoldable pub serial_write_str : (fuel : ℕ) → (str : List ℕ) → S → Exec S
  unfolding serial_write_char
  serial_write_str fuel [] s = fault
  serial_write_str fuel (c ∷ cs) s =
      if c == 0 then ok s else do s' ← serial_write_char fuel c s; serial_write_str fuel cs s'

  -- `while ((status & 0x1) == 0)` in `serial_read`.
  unfoldable pub wait_data : ℕ → (status : ℕ) → S → Exec S
  wait_data zero status s = out_of_fuel
  wait_data (suc fuel) status s =
      let again = (do (status', s') ← inb (com1 + 5) s; wait_data fuel status' s') in
      if bit_and status 1 == 0 then again else ok s

  unfoldable pub serial_read : (fuel : ℕ) → S → Exec (ℕ × S)
  unfolding wait_data
  serial_read fuel s = do
    (status, s1) ← inb (com1 + 5) s
    s2 ← wait_data fuel status s1
    inb com1 s2

  -- So many rounds of the last loop of `_start`, which has no end.
  unfoldable pub echo : (fuel rounds : ℕ) → S → Exec S
  unfolding serial_read
  echo fuel zero s = ok s
  echo fuel (suc n) s = do
    (c, s1) ← serial_read fuel s
    s2 ← serial_write_char fuel c s1
    echo fuel n s2
