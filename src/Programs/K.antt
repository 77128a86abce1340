-- ===== src/Programs/K.antt =====
-- `main` of examples/k/main.c, with the `init_vm` before it. The threads for the serial port and the
-- screen are those of Queue/Threads.antt and Screen.antt and run beside it.
pub mod Layout
pub mod Loads
pub mod Starts
pub mod Ends
use blackhv.Base.{
  ℕ, zero, suc, ◌+◌, ◌-◌, ◌*◌, ◌/◌, ◌%◌, ◌^◌, ◌≤◌, ◌<◌, min, ◌≡◌, refl, sym, ap, ◌∙◌, ◌≢◌, ◌↔◌, ◌⊎◌,
  inl, inr, Bool, true, false, not, ◌&&◌, ◌||◌, Option, none, some, List, [], ◌∷◌, ◌++◌, map,
  append_assoc, append-nil, arith, ltb, leb, ◌==◌, if◌then◌else◌, int_of, ==_iff, ==_refl, ==_false,
  lt→ltb, le→ltb, Bool-cases, Option-cases, length, get_elem?, set, take, drop, replicate, All,
  length-append, get_elem?-append, length-set, length-take, length-drop, length-replicate,
  get_elem?-set_self, get_elem?-set_ne, get_elem?-some, drop-cons_of_get, take_cons, set-append,
  take-drop, take-append_take, take_all, drop_all, minus_one, s64_of, add_u64, sub_u64,
  s64_of_small, ℤ, ◌>>=◌, access, Returns-mono, Returns-bind, Returns-value, bind_ok, Exec, Returns,
  ok, fault, out_of_fuel, returns, pos, negsuc,
}
use blackhv.Io.{Handlers, no_handler}
use blackhv.Memory.{MemoryEntry, Host, HostCall}
use blackhv.Memory.Access.{Bytes, memory_get_ptr, e820_table_get}
use blackhv.Mmio.{MmioRegion, MmioCall}
use blackhv.Serial.{SerialMemory, serial_new}
use blackhv.Atapi.{initial}
use blackhv.Atapi.Init.{atapi_init}
use blackhv.Screen.{Screen, ScreenVm, Sdl, SdlCall, screen_uninit}
use blackhv.Vm.{Vm, vm_destroy}
use blackhv.Vm.Run.{KvmExit, vm_run}
use blackhv.Loader.{in_region, bounded, store, FileHost, load_file, Regs}
use blackhv.Loader.Segments.{ProgramHeader}
use blackhv.Loader.K.{multiboot_guest, cmdline_guest, info_size, setup_e820, load_k}
use blackhv.Machine.{Devices, serial_handler, on_drive}
use blackhv.Programs.{
  entries_of, VmHost, gb_1, com1, init_vm, give_memory, start_screen, no_regions, u64_of,
}

abbrev pub framebuffer_guest : ℕ
framebuffer_guest = 0xC2000000

-- What the program is answered, in the order in which it asks; `image` is the file at `argv[1]` and
-- `cmdline` is `argv[3]` with its zero byte.
pub record KHost : Type 0 where
  pub argc : ℕ
  pub vm_host : VmHost
  pub ram_host : Host
  pub image_file : FileHost
  pub image : List ℕ
  pub cmdline : List ℕ
  pub table_memory : Bool
  pub entries_memory : Bool
  pub get_regs : Option Regs
  pub set_regs : Bool
  pub serial_memory : SerialMemory
  pub serial_address : ℕ
  pub disk_fd : ℤ
  pub screen_host : Host
  pub sdl : Sdl

-- The program when it calls `vm_run`.
pub record Launched : Type 0 where
  pub vm : Vm
  pub screen : Option Screen
  pub regs : Regs
  pub bytes : Bytes
  pub devices : Devices
  pub handlers : Handlers Devices

-- How `main` ends: with a message before the guest runs, with the message that the run failed, where
-- the devices are as the guest left them, or with 0 and what it destroys, unmaps and closes then.
-- What was given back before a message is not kept.
pub data Exit : Type 0 where
  stopped : Exit
  run_failed : Devices → Exit
  finished : List SdlCall → List HostCall → List ℤ → Exit

unfoldable pub finish : KHost → Launched → Devices → (result : ℕ) → Exit
unfolding screen_uninit vm_destroy
finish host l devices result =
    if result == 0
    then run_failed devices
    else (let screen_vm : Option ScreenVm = elim l.vm.mem [
      | none ↦ none
      | some mem ↦ some (record { mem = mem; screen = l.screen })
    ] in
        let (unmapped, closed) = vm_destroy (some l.vm) in
        finished (screen_uninit screen_vm) unmapped (host.disk_fd ∷ closed))

module _ (program_header : (image : List ℕ) → (i : ℕ) → Exec ProgramHeader)
    (e_phnum e_entry : (image : List ℕ) → ℕ) (read_at : (fd offset : ℕ) → List ℕ) where
  -- `load_k` on the mapped file; on NULL it faults when it comes to the header.
  unfoldable pub load_mapped : KHost → Vm → Bytes → Exec (Option (Regs × Bytes))
  unfolding load_file load_k setup_e820 store
  load_mapped host vm m =
      let entries = entries_of vm in
      let multiboot = memory_get_ptr entries multiboot_guest in
      elim (load_file host.image_file).0 [
        | some mapped ↦
            load_k program_header e_phnum e_entry host.table_memory host.entries_memory entries
              host.get_regs host.set_regs host.image host.cmdline m
        | none ↦
            if multiboot == 0
            then ok none
            else bounded (in_region entries multiboot_guest info_size) (do
              filled ←
                  setup_e820 entries (e820_table_get host.table_memory host.entries_memory entries)
                    multiboot (store m multiboot (replicate info_size 0))
              elim filled [
                | none ↦ ok none
                | some m1 ↦ if memory_get_ptr entries cmdline_guest == 0 then ok none else fault
              ])
      ]

  -- The devices and the screen.
  unfoldable pub start_devices : KHost → Vm → Regs → Bytes → Exec (Option Launched)
  unfolding serial_new start_screen
  start_devices host vm regs m = do
    (serial, handlers) ←
        serial_new host.serial_memory (λ q. no_handler) (serial_handler host.serial_address) com1
          1024
    elim serial [
      | none ↦ ok none
      | some s ↦ do
        handlers' ← atapi_init on_drive read_at (u64_of host.disk_fd) handlers
        (vm', screen) ← start_screen host.screen_host host.sdl vm framebuffer_guest
        ok (
            some (record {
              vm = vm';
              screen = screen;
              regs = regs;
              bytes = m;
              devices = record { serial = s; drive = initial };
              handlers = handlers';
            }))
    ]

  -- `main` up to the call of `vm_run`.
  unfoldable pub launch : KHost → Bytes → Exec (Option Launched)
  unfolding init_vm give_memory load_mapped start_devices
  launch host m = if not (host.argc == 4) then ok none else do
    made ← init_vm host.vm_host
    elim made [
      | none ↦ ok none
      | some vm0 ↦ elim (give_memory host.ram_host vm0 gb_1) [
        | none ↦ ok none
        | some vm ↦ (do
          loaded ← load_mapped host vm m
          elim loaded [ none ↦ ok none | some r ↦ start_devices host vm r.0 r.1 ])
      ]
    ]

  -- `main`; `call` is what a handler of an MMIO region does, and `exits` are those of the guest.
  unfoldable pub main :
      (call : MmioCall → List MmioRegion × Devices → List MmioRegion × Devices)
      → List KvmExit
      → KHost
      → Bytes
      → Exec Exit
  unfolding launch finish vm_run
  main call exits host m = do
    started ← launch host m
    elim started [
      | none ↦ ok stopped
      | some l ↦ (do
        (result, shown, state) ←
            vm_run l.handlers call (not (l.vm.kvm_run == 0)) exits (no_regions, l.devices)
        ok (finish host l state.1 result))
    ]
