-- ===== src/Programs/Guests/Starts.antt =====
-- `main` of examples/guests/main.c up to the call of `vm_run`, where all that it asks for is granted.
use blackhv.Base.{
  ℕ, ◌+◌, ◌≤◌, ◌<◌, ◌≡◌, refl, ap, ◌∙◌, true, false, some, List, [], ◌∷◌, arith, ◌==◌, length,
  Returns-bind, Returns, returns, pos,
}
use blackhv.Memory.{memory_alloc, memory_usable}
use blackhv.Memory.Access.{Bytes, e820_table_get}
use blackhv.Memory.Lookup.{find_entry_complete}
use blackhv.Memory.Transfer.{Stored, host_at}
use blackhv.Mmio.{MmioRegion}
use blackhv.Serial.{Serial}
use blackhv.Serial.Registers.{Carries}
use blackhv.Vm.{Vm, is_negative}
use blackhv.Vm.Regs.{vm_get_regs, vm_set_regs}
use blackhv.Loader.Binary.{start_address, load_binary, file_bytes, Room, load_binary-Stored}
use blackhv.Programs.{mb_1, com1, init_vm, entries_of}
use blackhv.Programs.Granted.{GrantsSerial, serial_new-granted}
use blackhv.Programs.Ram.{
  Grants, GrantsRam, ram, fresh_vm, init_vm-fresh_vm, memory_alloc-ram, start_screen_lem,
}
use blackhv.Programs.Guests.Region.{device, main_table, registered, dumped-rows}
use blackhv.Programs.Guests.{
  GuestsHost, Launched, guest_serial_handler, dump_e820_table, start_cpu, start_devices,
  load_and_start, launch,
}

-- What the kernel, `malloc` and SDL grant, and a binary that fits behind the start address.
pub record GrantsGuests (host : GuestsHost) (g h : List ℕ) : Type 0 where
  pub arguments : host.argc ≡ 2
  pub opened : is_negative host.open_result ≡ false
  pub vm : Grants host.vm_host
  pub memory : GrantsRam host.ram_host mb_1
  pub fits : start_address + length (file_bytes host.chunks) ≤ mb_1
  pub region_entry : host.mmio_host.entry_memory ≡ true
  pub region_element : host.mmio_host.element_memory ≡ true
  pub read : host.get_result ≡ pos 0
  pub written : host.set_result ≡ pos 0
  pub serial : GrantsSerial host.serial_memory g h
  pub table : host.table_memory ≡ true
  pub rows : host.entries_memory ≡ true
  pub screen : host.sdl.screen_memory ≡ true

-- The program when it calls `vm_run`.
pub record Started (host : GuestsHost) (m : Bytes) (l : Launched) : Type 0 where
  pub loaded : Stored m (host.ram_host.mmap_result + start_address) (file_bytes host.chunks) l.bytes
  pub registers : l.cpu ≡ record host.cpu { rip = start_address; rflags = 2 }
  pub regions : l.table ≡ main_table host.handler
  pub dumped : l.dumped ≡ (0, mb_1, 1) ∷ (0xC0000000, 0x1000000, 2) ∷ []
  pub line :
      (serial : Serial) × (l.devices.serial ≡ some serial)
      × (serial.port ≡ com1)
      × Carries serial 1024 [] []
  pub serial_ports :
      (i : ℕ) → i < 8 → l.handlers (com1 + i) ≡ guest_serial_handler host.serial_address
  pub page : l.vm.kvm_run ≡ host.vm_host.kvm.mmap_result

start_cpu_lem :
    (host : GuestsHost)
    → host.get_result ≡ pos 0
    → host.set_result ≡ pos 0
    → start_cpu host ≡ record host.cpu { rip = start_address; rflags = 2 }
unfolding start_cpu vm_get_regs vm_set_regs
start_cpu_lem host read written = rw (read, written) refl

binary-Room : (p n : ℕ) → start_address + n ≤ mb_1 → Room (ram p mb_1 ∷ []) (ram p mb_1) 0 n
binary-Room p n fits = record {
  usable = refl;
  fit = omega arith;
  from = omega arith;
  within = omega arith;
  found = λ a within.
      find_entry_complete (ram p mb_1 ∷ []) a 0 (omega arith, tt, tt) refl
        (omega arith, omega arith);
}

dump-rows :
    (host : GuestsHost) (g h : List ℕ) (vm : Vm) (p : ℕ)
    → GrantsGuests host g h
    → vm.mem ≡ some (record { memory_entries = ram p mb_1 ∷ device ∷ []; next_slot = 1 })
    → Returns
        (λ rows. rows ≡ (0, mb_1, 1) ∷ (0xC0000000, 0x1000000, 2) ∷ [])
        (dump_e820_table (e820_table_get host.table_memory host.entries_memory (entries_of vm)))
dump-rows host g h vm p k mem =
    let listed : entries_of vm ≡ ram p mb_1 ∷ device ∷ [] = rw mem refl in
    rw (k.table, k.rows, listed, dumped-rows p) (returns refl)

start_devices-Started :
    (host : GuestsHost) (g h : List ℕ) (vm : Vm) (p : ℕ) (table : List MmioRegion) (m m' : Bytes)
    → GrantsGuests host g h
    → vm.mem ≡ some (record { memory_entries = ram p mb_1 ∷ device ∷ []; next_slot = 1 })
    → vm.kvm_run ≡ host.vm_host.kvm.mmap_result
    → table ≡ main_table host.handler
    → Stored m (host.ram_host.mmap_result + start_address) (file_bytes host.chunks) m'
    → Returns
        (λ r. (l : Launched) × (r ≡ some l) × Started host m l)
        (start_devices host vm table m')
unfolding start_devices
start_devices-Started host g h vm p table m m' k mem same_page regions stored =
    Returns-bind
      (serial_new-granted host.serial_memory (guest_serial_handler host.serial_address) g h
        k.serial)
      λ (out, handlers) (line, taken). Returns-bind (dump-rows host g h vm p k mem) λ rows printed.
        Returns-bind (start_screen_lem host.screen_host host.sdl vm 0xC2000000 k.screen)
          λ (vm', screen) page. returns (
            _,
            refl,
            record {
              loaded = stored;
              registers = start_cpu_lem host k.read k.written;
              regions = regions;
              dumped = printed;
              line = line;
              serial_ports = taken;
              page = page ∙ same_page;
            },
          )

load_and_start-Started :
    (host : GuestsHost) (g h : List ℕ) (vm : Vm) (m : Bytes)
    → GrantsGuests host g h
    → vm.mem
      ≡ some (record { memory_entries = ram host.ram_host.mmap_result mb_1 ∷ []; next_slot = 1 })
    → vm.kvm_run ≡ host.vm_host.kvm.mmap_result
    → Returns (λ r. (l : Launched) × (r ≡ some l) × Started host m l) (load_and_start host vm m)
unfolding load_and_start
load_and_start-Started host g h vm m k mem page =
    let p = host.ram_host.mmap_result in
    let listed : entries_of vm ≡ ram p mb_1 ∷ [] = rw mem refl in
    let (good, table, mem') =
      registered host.mmio_host p host.handler vm.mem k.region_entry k.region_element mem in
    let at : host_at (ram p mb_1) (start_address + 0) ≡ p + start_address = omega arith in
    let loaded : Returns
        (λ r.
          (m' : Bytes) × (r ≡ some (0 + length (file_bytes host.chunks), m'))
          × Stored m (p + start_address) (file_bytes host.chunks) m')
        (load_binary (entries_of vm) host.chunks 0 m) =
      rw (listed, ← at)
        (load_binary-Stored (ram p mb_1 ∷ []) (ram p mb_1) host.chunks 0 m (omega (arith, k.fits))
          (binary-Room p (length (file_bytes host.chunks)) k.fits)) in
    Returns-bind loaded λ r (m', is, stored).
      rw is (rw good (start_devices-Started host g h _ p _ m m' k mem' page table stored))

-- With all that is asked for granted and a binary that ends in the first megabyte, `main` comes
-- to `vm_run`: the binary is at the start address, where the processor starts, the region is
-- first in the table, the two rows of the memory map are printed, and the serial port is at its
-- eight ports with empty queues.
pub guests_launch-Started :
    (host : GuestsHost) (g h : List ℕ) (m : Bytes)
    → GrantsGuests host g h
    → Returns (λ r. (l : Launched) × (r ≡ some l) × Started host m l) (launch host m)
unfolding launch
guests_launch-Started host g h m k =
    let two : (host.argc == 2) ≡ true = rw k.arguments refl in
    let made : Returns (λ r. r ≡ some (fresh_vm host.vm_host)) (init_vm host.vm_host) =
      rw (init_vm-fresh_vm host.vm_host k.vm) (returns refl) in
    let allocated = memory_alloc-ram host.ram_host mb_1 k.memory in
    let given : ((memory_alloc host.ram_host (fresh_vm host.vm_host).mem 0 mb_1 memory_usable).0
          == 0)
        ≡ false =
      rw allocated refl in
    rw (two, k.opened)
      (Returns-bind made λ r is.
        rw is (rw given (load_and_start-Started host g h _ m k (ap (λ a. a.1) allocated) refl)))
