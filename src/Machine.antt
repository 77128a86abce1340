-- ===== src/Machine.antt =====
-- The devices of a machine behind the I/O table: the serial port of src/serial.c and the drive of
-- src/atapi.c. The handlers are those that `serial_new` and `atapi_init` register, each on its device.
pub mod Port
pub mod Words
pub mod Drive
pub mod Tests
use blackhv.Base.{
  ℕ, zero, suc, ◌+◌, ◌-◌, ◌*◌, ◌/◌, ◌%◌, ◌^◌, ◌≤◌, ◌<◌, min, ◌≡◌, refl, sym, ap, ◌∙◌, ◌≢◌, ◌↔◌, ◌⊎◌,
  inl, inr, Bool, true, false, not, ◌&&◌, ◌||◌, Option, none, some, List, [], ◌∷◌, ◌++◌, map,
  append_assoc, append-nil, arith, ltb, leb, ◌==◌, if◌then◌else◌, int_of, ==_iff, ==_refl, ==_false,
  lt→ltb, le→ltb, Bool-cases, Option-cases, length, get_elem?, set, take, drop, replicate, All,
  length-append, get_elem?-append, length-set, length-take, length-drop, length-replicate,
  get_elem?-set_self, get_elem?-set_ne, get_elem?-some, drop-cons_of_get, take_cons, set-append,
  take-drop, take-append_take, minus_one, s64_of, add_u64, sub_u64, ℤ, ◌>>=◌, access, Returns-mono,
  Returns-bind, Returns-value, Exec, Returns, ok, fault, out_of_fuel, returns, pos, negsuc,
}
use blackhv.Io.{Handler}
use blackhv.Serial.{Serial, serial_outb, serial_inb}
use blackhv.Atapi.{Atapi}

pub record Devices : Type 0 where
  pub serial : Serial
  pub drive : Atapi

-- The handler that `serial_new` makes; its `params` is the address of the structure.
abbrev pub serial_handler : (address : ℕ) → Handler Devices
serial_handler address = record {
  params = address;
  outb_handler = some (λ port b params s. do
    serial' ← serial_outb port b (some s.serial)
    ok (record s { serial = serial' }));
  outw_handler = none;
  inb_handler = some (λ port params s. do
    (b, serial') ← serial_inb port (some s.serial)
    ok (b, record s { serial = serial' }));
  inw_handler = none;
}

-- An access to the drive among the devices.
abbrev pub drive_out :
    Option ((port data' params : ℕ) → Atapi → Exec Atapi)
    → Option ((port data' params : ℕ) → Devices → Exec Devices)
drive_out none = none
drive_out (some f) = some (λ port data' params s. do
  drive' ← f port data' params s.drive
  ok (record s { drive = drive' }))

abbrev pub drive_in :
    Option ((port params : ℕ) → Atapi → Exec (ℕ × Atapi))
    → Option ((port params : ℕ) → Devices → Exec (ℕ × Devices))
drive_in none = none
drive_in (some f) =
    some
      (λ port params s. do (v, drive') ← f port params s.drive; ok (v, record s { drive = drive' }))

-- A handler that `atapi_init` makes, in a machine that has the serial port too.
abbrev pub on_drive : Handler Atapi → Handler Devices
on_drive h = record {
  params = h.params;
  outb_handler = drive_out h.outb_handler;
  outw_handler = drive_out h.outw_handler;
  inb_handler = drive_in h.inb_handler;
  inw_handler = drive_in h.inw_handler;
}
