-- ===== src/Programs/Guests.antt =====
-- `main`, `dump_e820_table` and `mmio_write_handler` of examples/guests/main.c.
pub mod Region
pub mod Starts
pub mod Tests
use blackhv.Base.{
  ℕ, zero, suc, ◌+◌, ◌-◌, ◌*◌, ◌/◌, ◌%◌, ◌^◌, ◌≤◌, ◌<◌, min, ◌≡◌, refl, sym, ap, ◌∙◌, ◌≢◌, ◌↔◌, ◌⊎◌,
  inl, inr, Bool, true, false, not, ◌&&◌, ◌||◌, Option, none, some, List, [], ◌∷◌, ◌++◌, map,
  append_assoc, append-nil, arith, ltb, leb, ◌==◌, if◌then◌else◌, int_of, ==_iff, ==_refl, ==_false,
  lt→ltb, le→ltb, Bool-cases, Option-cases, length, get_elem?, set, take, drop, replicate, All,
  length-append, get_elem?-append, length-set, length-take, length-drop, length-replicate,
  get_elem?-set_self, get_elem?-set_ne, get_elem?-some, drop-cons_of_get, take_cons, set-append,
  take-drop, take-append_take, take_all, drop_all, minus_one, s64_of, add_u64, sub_u64,
  s64_of_small, ℤ, ◌>>=◌, access, Returns-mono, Returns-bind, Returns-value, bind_ok, Exec, Returns,
  ok, fault, out_of_fuel, returns, pos, negsuc,
}
use blackhv.Io.{Handler, Handlers, no_handler}
use blackhv.Memory.{Host, HostCall, memory_alloc, memory_usable}
use blackhv.Memory.Access.{Bytes, E820Entry, e820_table_get}
use blackhv.Mmio.{MmioRegion, MmioCall, mmio_init, mmio_register}
use blackhv.Serial.{Serial, SerialMemory, serial_outb, serial_inb, serial_new}
use blackhv.Screen.{Screen, ScreenVm, Sdl, SdlCall, screen_uninit}
use blackhv.Vm.{Vm, is_negative, vm_destroy}
use blackhv.Vm.Regs.{KvmRegs, vm_get_regs, vm_set_regs}
use blackhv.Vm.Run.{KvmExit, vm_run}
use blackhv.Loader.Binary.{start_address, load_binary}
use blackhv.Programs.{get_or, VmHost, mb_1, com1, init_vm, start_screen, no_regions, entries_of}

-- What `mmio_write_handler` prints: the region's id, the address, the length and the bytes.
pub record MmioLine : Type 0 where
  pub id : ℤ
  pub address : ℕ
  pub len : ℕ
  pub bytes : List ℕ

-- The devices: the serial port, which may be missing, and what the MMIO region printed.
pub record GuestDevices : Type 0 where
  pub serial : Option Serial
  pub printed : List MmioLine

-- `mmio_write_handler`; `region` points to the table, and the length is eight at most.
unfoldable pub mmio_write_handler :
    MmioCall → List MmioRegion × GuestDevices → List MmioRegion × GuestDevices
mmio_write_handler c (table, s) = elim (get_elem? table c.index) [
  | none ↦ (table, s)
  | some region ↦ (
    table,
    record s {
      printed =
          s.printed
          ++ (record {
            id = region.id;
            address = c.address;
            len = c.len;
            bytes = take c.len c.bytes;
          }
              ∷ []);
    },
  )
]

-- The handler that `serial_new` makes.
abbrev pub guest_serial_handler : (address : ℕ) → Handler GuestDevices
guest_serial_handler address = record {
  params = address;
  outb_handler = some (λ port b params s. do
    serial' ← serial_outb port b s.serial
    ok (record s { serial = some serial' }));
  outw_handler = none;
  inb_handler = some (λ port params s. do
    (b, serial') ← serial_inb port s.serial
    ok (b, record s { serial = some serial' }));
  inw_handler = none;
}

-- `dump_e820_table`: the rows that are printed.
unfoldable pub dump_rows : List E820Entry → (n i : ℕ) → Exec (List (ℕ × ℕ × ℕ))
dump_rows rows zero i = ok []
dump_rows rows (suc n) i = do
  r ← access (get_elem? rows i)
  rest ← dump_rows rows n (i + 1)
  ok ((r.base_address, r.size, r.type) ∷ rest)

unfoldable pub dump_e820_table : (table : Option (ℕ × List E820Entry)) → Exec (List (ℕ × ℕ × ℕ))
unfolding dump_rows
dump_e820_table none = ok []
dump_e820_table (some (n, rows)) = dump_rows rows n 0

-- What the program is answered, in the order in which it asks. `handler` is the address of
-- `mmio_write_handler`, `unset` is what `regs` holds before it is filled, and `cpu` is what the
-- processor holds.
pub record GuestsHost : Type 0 where
  pub argc : ℕ
  pub open_result : ℤ
  pub vm_host : VmHost
  pub ram_host : Host
  pub chunks : List (List ℕ)
  pub handler : ℕ
  pub mmio_host : Host
  pub get_result : ℤ
  pub unset : KvmRegs
  pub cpu : KvmRegs
  pub set_result : ℤ
  pub serial_memory : SerialMemory
  pub serial_address : ℕ
  pub table_memory : Bool
  pub entries_memory : Bool
  pub screen_host : Host
  pub sdl : Sdl

-- The program when it calls `vm_run`; `dumped` is what `dump_e820_table` printed.
pub record Launched : Type 0 where
  pub vm : Vm
  pub screen : Option Screen
  pub bytes : Bytes
  pub cpu : KvmRegs
  pub table : List MmioRegion
  pub devices : GuestDevices
  pub handlers : Handlers GuestDevices
  pub dumped : List (ℕ × ℕ × ℕ)

-- The region that `main` registers.
abbrev pub main_region : (handler : ℕ) → MmioRegion
main_region handler = record {
  id = pos 0;
  base_address = 0xC0000000;
  high_address = 0xC1000000;
  write_handler = handler;
  read_handler = 0;
  data' = 0;
}

-- The registers, whose results are not looked at: the processor afterwards.
unfoldable pub start_cpu : GuestsHost → KvmRegs
unfolding vm_get_regs vm_set_regs
start_cpu host =
    let (got, filled) = vm_get_regs host.get_result (some host.unset) host.cpu in
    let regs = get_or filled host.unset in
    (vm_set_regs host.set_result (some (record regs { rip = start_address; rflags = 2 }))
      host.cpu).1

-- `main` from `serial_new` to the call of `vm_run`.
unfoldable pub start_devices : GuestsHost → Vm → List MmioRegion → Bytes → Exec (Option Launched)
unfolding serial_new dump_e820_table start_screen start_cpu
start_devices host vm table m = do
  (serial, handlers) ←
      serial_new host.serial_memory (λ q. no_handler) (guest_serial_handler host.serial_address)
        com1 1024
  dumped ← dump_e820_table (e820_table_get host.table_memory host.entries_memory (entries_of vm))
  (vm', screen) ← start_screen host.screen_host host.sdl vm 0xC2000000
  ok (
      some (record {
        vm = vm';
        screen = screen;
        bytes = m;
        cpu = start_cpu host;
        table = table;
        devices = record { serial = serial; printed = [] };
        handlers = handlers;
        dumped = dumped;
      }))

-- `main` from the loading of the binary on.
unfoldable pub load_and_start : GuestsHost → Vm → Bytes → Exec (Option Launched)
unfolding load_binary mmio_init mmio_register start_devices
load_and_start host vm m = do
  loaded ← load_binary (entries_of vm) host.chunks 0 m
  elim loaded [
    | none ↦ ok none
    | some (readed, m') ↦
        (let reg =
            mmio_register host.mmio_host vm.mem (main_region host.handler) (mmio_init no_regions) in
          if is_negative reg.result
          then ok none
          else start_devices host (record vm { mem = reg.mem }) reg.table m')
  ]

-- `main` up to the call of `vm_run`.
unfoldable pub launch : GuestsHost → Bytes → Exec (Option Launched)
unfolding init_vm memory_alloc load_and_start
launch host m =
    if not (host.argc == 2) then ok none else if is_negative host.open_result then ok none else (do
      made ← init_vm host.vm_host
      elim made [
        | none ↦ ok none
        | some vm ↦
            (let (allocated, mem', calls) =
                memory_alloc host.ram_host vm.mem 0 mb_1 memory_usable in
              if allocated == 0 then ok none else load_and_start host (record vm { mem = mem' }) m)
      ])

-- How `main` ends: `none` where it exits with a message. Else it waits for its threads, which never end,
-- before it destroys the screen and the machine.
unfoldable pub finish :
    Launched → (result : ℕ) → Exec (Option (List SdlCall × List HostCall × List ℤ))
finish l result = if not (result == 1) then ok none else out_of_fuel

-- `main`; `exits` are those of the guest.
unfoldable pub main :
    List KvmExit → GuestsHost → Bytes → Exec (Option (List SdlCall × List HostCall × List ℤ))
unfolding launch finish vm_run mmio_write_handler
main exits host m = do
  started ← launch host m
  elim started [
    | none ↦ ok none
    | some l ↦ (do
      (result, shown, state) ←
          vm_run l.handlers mmio_write_handler (not (l.vm.kvm_run == 0)) exits (l.table, l.devices)
      finish l result)
  ]
