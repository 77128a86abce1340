-- ===== src/Machine/Port.antt =====
-- Bytes that go through the exits of src/vm.c and the table of src/io.c to and from src/serial.c.
use blackhv.Base.{
  take_all, drop_all, ℕ, ◌+◌, ◌-◌, ◌≤◌, ◌<◌, min, ◌≡◌, refl, sym, ap, ◌∙◌, true, some, List, [],
  ◌∷◌, ◌++◌, map, append_assoc, append-nil, arith, lt→ltb, length, set, take, drop, length-append,
  get_elem?-append, set-append, ◌>>=◌, Returns-bind, Returns-value, Returns, ok, returns,
}
use blackhv.Io.{Handlers, handlers_length, io_handle_outb, io_handle_inb}
use blackhv.Mmio.{MmioRegion, MmioCall}
use blackhv.Serial.{Serial, serial_outb, serial_inb, serial_read}
use blackhv.Serial.Registers.{Carries, serial_outb-append, serial_inb_data}
use blackhv.Serial.Streams.{serial_read-take}
use blackhv.Vm.Run.{KvmExit, exit_io, exit_io_in, exit_io_out, handle_exit, vm_run}
use blackhv.Vm.Exits.{IsFinal, Handles, nothing, one_more, vm_run-Handles}
use blackhv.Atapi.{Atapi}
use blackhv.Machine.{Devices, serial_handler}

-- An access of one byte at the port, where the shared page has `before` ahead of the byte.
abbrev pub out_byte : (before behind : List ℕ) (port b : ℕ) → KvmExit
out_byte before behind port b =
    exit_io (record { direction = exit_io_out; size = 1; port = port; data_offset = length before })
      (before ++ (b ∷ behind))

abbrev pub in_byte : (before behind : List ℕ) (port b : ℕ) → KvmExit
in_byte before behind port b =
    exit_io (record { direction = exit_io_in; size = 1; port = port; data_offset = length before })
      (before ++ (b ∷ behind))

abbrev pub pages : (before behind : List ℕ) → List ℕ → List (List ℕ)
pages before behind [] = []
pages before behind (b ∷ bs) = (before ++ (b ∷ behind)) ∷ pages before behind bs

-- The line carries these bytes, its port is the same, and the drive is as it was.
pub record Line (s : Devices) (port size : ℕ) (to_host to_guest : List ℕ) (drive : Atapi)
    : Type 0 where
  pub carries : Carries s.serial size to_host to_guest
  pub same_port : s.serial.port ≡ port
  pub same_drive : s.drive ≡ drive

-- A machine whose table has the serial port's handler, and a shared page with the byte between
-- `before` and `behind`.
module _ (handlers : Handlers Devices)
    (call : MmioCall → List MmioRegion × Devices → List MmioRegion × Devices)
    (before behind : List ℕ) (address port : ℕ) (here : handlers port ≡ serial_handler address)
    (small : port < handlers_length) where
  -- One byte out: the exit calls `serial_outb`.
  out_byte-Line :
      (b : ℕ) (table : List MmioRegion) (s : Devices) (size : ℕ) (to_host to_guest : List ℕ)
      (drive : Atapi)
      → Line s port size to_host to_guest drive
      → length to_host < size
      → (s' : Devices) × (handle_exit handlers call (out_byte before behind port b) (table, s)
          ≡ ok (some ((before ++ (b ∷ behind)) ∷ [], (table, s'))))
        × Line s' port size (to_host ++ (b ∷ [])) to_guest drive
  unfolding handle_exit io_handle_outb
  out_byte-Line b table s size to_host to_guest drive l room =
      let (serial', sent, (c, same)) =
        Returns-value (serial_outb-append s.serial size b to_host to_guest l.carries) in
      let sent' : serial_outb port b (some s.serial) ≡ ok serial' =
        ap (λ p. serial_outb p b (some s.serial)) (sym l.same_port) ∙ sent in
      let fits : min 1 (size - length to_host) ≡ 1 = omega arith in
      (
        record s { serial = serial' },
        rw (
          get_elem?-append before b (length before) behind refl,
          lt→ltb port handlers_length small,
          here,
          sent',
        ),
        record {
          carries = rw fits at c;
          same_port = same ∙ l.same_port;
          same_drive = l.same_drive;
        },
      )

  -- One byte in: the page has the first byte that waited.
  in_byte-Line :
      (x b : ℕ) (table : List MmioRegion) (s : Devices) (size : ℕ) (to_host to_guest : List ℕ)
      (drive : Atapi)
      → Line s port size to_host (b ∷ to_guest) drive
      → (s' : Devices) × (handle_exit handlers call (in_byte before behind port x) (table, s)
          ≡ ok (some ((before ++ (b ∷ behind)) ∷ [], (table, s'))))
        × Line s' port size to_host to_guest drive
  unfolding handle_exit io_handle_inb
  in_byte-Line x b table s size to_host to_guest drive l =
      let ((y, serial'), given, (e, c, same)) =
        Returns-value (serial_inb_data s.serial size to_host (b ∷ to_guest) l.carries) in
      let given' : serial_inb port (some s.serial) ≡ ok (b, serial') =
        ap (λ p. serial_inb p (some s.serial)) (sym l.same_port)
        ∙ given
        ∙ ap (λ z. ok (z, serial')) e in
      let filled : set (before ++ (x ∷ behind)) (length before) b ≡ before ++ (b ∷ behind) =
        set-append before x b (length before) behind refl ∙ append_assoc before (b ∷ []) behind in
      (
        record s { serial = serial' },
        rw (
          get_elem?-append before x (length before) behind refl,
          lt→ltb port handlers_length small,
          here,
          given',
          filled,
        ),
        record { carries = c; same_port = same ∙ l.same_port; same_drive = l.same_drive },
      )

  -- Many bytes out.
  pub out_bytes-Handles :
      (bs : List ℕ) (table : List MmioRegion) (s : Devices) (size : ℕ) (to_host to_guest : List ℕ)
      (drive : Atapi)
      → Line s port size to_host to_guest drive
      → length to_host + length bs ≤ size
      → (s' : Devices) × Handles handlers call
          (map (out_byte before behind port) bs)
          (table, s)
          (pages before behind bs)
          (table, s')
        × Line s' port size (to_host ++ bs) to_guest drive
  out_bytes-Handles [] table s size to_host to_guest drive l room =
      (s, nothing, rw (append-nil to_host) l)
  out_bytes-Handles (b ∷ bs) table s size to_host to_guest drive l room =
      let (s1, step, l1) = out_byte-Line b table s size to_host to_guest drive l (omega arith) in
      let (s', rest, l') =
        out_bytes-Handles bs table s1 size (to_host ++ (b ∷ [])) to_guest drive l1
          (omega (arith, length-append to_host (b ∷ []))) in
      (s', one_more step rest, rw (← append_assoc to_host (b ∷ []) bs) l')

  -- Many bytes in.
  pub in_bytes-Handles :
      (xs : List ℕ) (bs : List ℕ) (table : List MmioRegion) (s : Devices) (size : ℕ)
      (to_host : List ℕ) (drive : Atapi)
      → length xs ≡ length bs
      → Line s port size to_host bs drive
      → (s' : Devices) × Handles handlers call
          (map (in_byte before behind port) xs)
          (table, s)
          (pages before behind bs)
          (table, s')
        × Line s' port size to_host [] drive
  in_bytes-Handles [] [] table s size to_host drive same l = (s, nothing, l)
  in_bytes-Handles [] (b ∷ bs) table s size to_host drive same l = absurd (omega arith)
  in_bytes-Handles (x ∷ xs) [] table s size to_host drive same l = absurd (omega arith)
  in_bytes-Handles (x ∷ xs) (b ∷ bs) table s size to_host drive same l =
      let (s1, step, l1) = in_byte-Line x b table s size to_host bs drive l in
      let (s', rest, l') = in_bytes-Handles xs bs table s1 size to_host drive (omega arith) l1 in
      (s', one_more step rest, l')

  -- Where the table has the handler of the serial port, a guest that writes bytes to a port on
  -- which none waits for the host, no more than the queue has room for, and then stops, makes
  -- `vm_run` return 0, and a `serial_read` of as many bytes gives them in order and leaves the
  -- bytes for the guest alone.
  pub serial_read-vm_run :
      (bs : List ℕ) (table : List MmioRegion) (s : Devices) (size : ℕ) (to_guest : List ℕ)
      (drive : Atapi) (e : KvmExit) (rest : List KvmExit) (buffer : List ℕ)
      → Line s port size [] to_guest drive
      → length bs ≤ size
      → length buffer ≡ length bs
      → IsFinal e
      → Returns
          (λ (result, n, out, serial').
            (result ≡ 0)
            × (n ≡ length bs)
            × (out ≡ some bs)
            × ((serial'' : Serial) × (serial' ≡ some serial'') × Carries serial'' size [] to_guest))
          (do
            (result, shown, (table', s')) ←
                vm_run handlers call true
                  (map (out_byte before behind port) bs ++ (e ∷ rest))
                  (table, s)
            (n, out, serial') ← serial_read (some s'.serial) (some buffer) (length bs)
            ok (result, n, out, serial'))
  serial_read-vm_run bs table s size to_guest drive e rest buffer l room same fin =
      let (s', run, l') = out_bytes-Handles bs table s size [] to_guest drive l (omega arith) in
      let all : min (length bs) (length bs) ≡ length bs = omega arith in
      let given : take (length bs) bs ++ drop (length bs) buffer ≡ bs =
        rw (take_all (length bs) bs (omega arith), drop_all (length bs) buffer (omega arith))
          (append-nil bs) in
      let none_left : drop (length bs) bs ≡ [] = drop_all (length bs) bs (omega arith) in
      rw (vm_run-Handles handlers call _ e rest (table, s) (table, s') _ run fin) (
        Returns-bind
          (serial_read-take s'.serial size bs to_guest buffer (length bs) l'.carries (omega arith))
          λ (n, out, after) (count, got, (serial'', is, c)). returns (
            refl,
            count ∙ all,
            got ∙ ap some (rw all given),
            (serial'', is, rw (all, none_left) at c),
          ))

  -- Where the table has the handler of the serial port, a guest that reads the port once for each
  -- byte that waits for it, and then stops, makes `vm_run` return 0 with those bytes in the
  -- shared page, in order, and no byte left.
  pub vm_run-pages :
      (xs bs : List ℕ) (table : List MmioRegion) (s : Devices) (size : ℕ) (to_host : List ℕ)
      (drive : Atapi) (e : KvmExit) (rest : List KvmExit)
      → length xs ≡ length bs
      → Line s port size to_host bs drive
      → IsFinal e
      → Returns
          (λ (result, shown, (table', s')).
            (result ≡ 0) × (shown ≡ pages before behind bs) × Line s' port size to_host [] drive)
          (vm_run handlers call true (map (in_byte before behind port) xs ++ (e ∷ rest)) (table, s))
  vm_run-pages xs bs table s size to_host drive e rest same l fin =
      let (s', run, l') = in_bytes-Handles xs bs table s size to_host drive same l in
      rw (vm_run-Handles handlers call _ e rest (table, s) (table, s') _ run fin)
        (returns (refl, refl, l'))
