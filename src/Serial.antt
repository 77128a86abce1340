-- ===== src/Serial.antt =====
-- src/serial.c: a serial port as two queues of bytes behind eight I/O ports.
-- The registers that the code does not know print a message, which is not modelled.
pub mod Registers
pub mod Streams
pub mod Ports
pub mod Tests
use Prim.Native.Nat.{bit_and, bit_or}
use blackhv.Base.{
  ℕ, zero, suc, ◌+◌, ◌-◌, ◌*◌, ◌/◌, ◌%◌, ◌^◌, ◌≤◌, ◌<◌, min, ◌≡◌, refl, sym, ap, ◌∙◌, ◌≢◌, ◌↔◌, ◌⊎◌,
  inl, inr, Bool, true, false, not, ◌&&◌, ◌||◌, Option, none, some, List, [], ◌∷◌, ◌++◌, map,
  append_assoc, append-nil, arith, ltb, leb, ◌==◌, if◌then◌else◌, int_of, ==_iff, ==_refl, ==_false,
  lt→ltb, le→ltb, Bool-cases, Option-cases, length, get_elem?, set, take, drop, replicate, All,
  length-append, length-set, length-take, length-drop, length-replicate, get_elem?-set_self,
  get_elem?-set_ne, get_elem?-some, drop-cons_of_get, take_cons, set-append, minus_one, s64_of,
  add_u64, sub_u64, ℤ, ◌>>=◌, access, Returns-mono, Returns-bind, Returns-value, Exec, Returns, ok,
  fault, out_of_fuel, returns, pos, negsuc,
}
use blackhv.Queue.{Queue, queue_new, queue_write, queue_read, queue_empty}
use blackhv.Io.{Handler, Handlers, io_register_handler, io_unregister_handler}

-- The registers that the code serves.
abbrev pub thr : ℕ
thr = 0x0

abbrev pub rbr : ℕ
rbr = 0x0

abbrev pub lsr : ℕ
lsr = 0x5

-- `serial_t`.
pub record Serial : Type 0 where
  pub port : ℕ
  pub guest_queue : Option Queue
  pub host_queue : Option Queue

-- `port - serial->port` as a `u16`.
abbrev pub register_of : Serial → ℕ → ℕ
register_of serial port = (port + 2 ^ 16 - serial.port) % 2 ^ 16

-- `write_data`.
unfoldable pub write_data : Serial → ℕ → Exec Serial
write_data serial b = do
  (n, q) ← queue_write serial.guest_queue (b ∷ []) 1
  ok (record serial { guest_queue = q })

-- `serial_outb`; NULL parameters end the program.
unfoldable pub serial_outb : (port b : ℕ) → Option Serial → Exec Serial
unfolding write_data
serial_outb port b none = fault
serial_outb port b (some serial) =
    if register_of serial port == thr then write_data serial b else ok serial

-- The line status: data ready, and ready to receive.
unfoldable pub line_status : Serial → ℕ
line_status serial =
    bit_or 0x0 (bit_or (bit_and (int_of (queue_empty serial.host_queue == 0)) 0x1) (0x1 * 2 ^ 5))

-- The read of the receiver buffer in `serial_inb`: 0 where the queue gives nothing.
unfoldable pub read_data : Serial → Exec (ℕ × Serial)
read_data serial = do
  (n, out, q) ← queue_read serial.host_queue (0 ∷ []) 1
  b ← access (get_elem? out 0)
  ok (b, record serial { host_queue = q })

-- `serial_inb`.
unfoldable pub serial_inb : (port : ℕ) → Option Serial → Exec (ℕ × Serial)
unfolding read_data line_status
serial_inb port none = fault
serial_inb port (some serial) =
    if register_of serial port == rbr
    then read_data serial
    else if register_of serial port == lsr
    then ok (line_status serial, serial)
    else ok (0, serial)

-- `serial_new`'s loop: the handler at `port + i`, a `u16`, for `i` up to 8.
unfoldable pub register_loop :
    {S : Type 0} → (rounds i : ℕ) → Handlers S → (port : ℕ) → Handler S → Exec (Handlers S)
register_loop zero i handlers port hdl = ok handlers
register_loop (suc n) i handlers port hdl = do
  handlers' ← io_register_handler handlers ((port + i) % 2 ^ 16) hdl
  register_loop n (i + 1) handlers' port hdl

-- What `malloc` gives to `serial_new`: the structure, and for each queue its structure and buffer.
pub record SerialMemory : Type 0 where
  pub struct_memory : Bool
  pub guest_struct : Bool
  pub guest_buffer : Option (List ℕ)
  pub host_struct : Bool
  pub host_buffer : Option (List ℕ)

-- `serial_new`; `hdl` is the handler with `serial_inb`, `serial_outb` and the new structure's address.
unfoldable pub serial_new :
    {S : Type 0}
    → SerialMemory
    → Handlers S
    → Handler S
    → (port internal_buffer_size : ℕ) → Exec (Option Serial × Handlers S)
unfolding register_loop
serial_new memory handlers hdl port size =
    if not memory.struct_memory
    then ok (none, handlers)
    else (let guest = queue_new memory.guest_struct memory.guest_buffer size in
        let host = queue_new memory.host_struct memory.host_buffer size in
        elim guest [
          | none ↦ ok (none, handlers)
          | some g ↦ elim host [
            | none ↦ ok (none, handlers)
            | some h ↦ do
              handlers' ← register_loop 8 0 handlers port hdl
              ok (
                some (record { port = port; guest_queue = some g; host_queue = some h }),
                handlers',
              )
          ]
        ])

-- `serial_destroy`'s loop.
unfoldable pub unregister_loop :
    {S : Type 0} → (rounds i : ℕ) → Handlers S → (port : ℕ) → Exec (Handlers S)
unregister_loop zero i handlers port = ok handlers
unregister_loop (suc n) i handlers port = do
  handlers' ← io_unregister_handler handlers ((port + i) % 2 ^ 16)
  unregister_loop n (i + 1) handlers' port

unfoldable pub serial_destroy : {S : Type 0} → Handlers S → Option Serial → Exec (Handlers S)
unfolding unregister_loop
serial_destroy handlers none = ok handlers
serial_destroy handlers (some serial) = unregister_loop 8 0 handlers serial.port

-- `serial_read` and `serial_write`; `none` is a NULL serial port or buffer. `-1` as a `size_t`.
unfoldable pub serial_read :
    Option Serial → Option (List ℕ) → (len : ℕ) → Exec (ℕ × Option (List ℕ) × Option Serial)
serial_read none buffer len = ok (2 ^ 64 - 1, buffer, none)
serial_read (some serial) none len = ok (2 ^ 64 - 1, none, some serial)
serial_read (some serial) (some buffer) len = do
  (n, out, q) ← queue_read serial.guest_queue buffer len
  ok (n, some out, some (record serial { guest_queue = q }))

unfoldable pub serial_write : Option Serial → Option (List ℕ) → (len : ℕ) → Exec (ℕ × Option Serial)
serial_write none buffer len = ok (2 ^ 64 - 1, none)
serial_write (some serial) none len = ok (2 ^ 64 - 1, some serial)
serial_write (some serial) (some buffer) len = do
  (n, q) ← queue_write serial.host_queue buffer len
  ok (n, some (record serial { host_queue = q }))
