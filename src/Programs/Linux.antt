-- ===== src/Programs/Linux.antt =====
-- `main` of examples/linux/main.c. `struct boot_params` is a parameter, as in Loader/Linux.antt.
pub mod Ends
pub mod Starts
pub mod Tests
use blackhv.Base.{
  ℕ, zero, suc, ◌+◌, ◌-◌, ◌*◌, ◌/◌, ◌%◌, ◌^◌, ◌≤◌, ◌<◌, min, ◌≡◌, refl, sym, ap, ◌∙◌, ◌≢◌, ◌↔◌, ◌⊎◌,
  inl, inr, Bool, true, false, not, ◌&&◌, ◌||◌, Option, none, some, List, [], ◌∷◌, ◌++◌, map,
  append_assoc, append-nil, arith, ltb, leb, ◌==◌, if◌then◌else◌, int_of, ==_iff, ==_refl, ==_false,
  lt→ltb, le→ltb, Bool-cases, Option-cases, length, get_elem?, set, take, drop, replicate, All,
  length-append, get_elem?-append, length-set, length-take, length-drop, length-replicate,
  get_elem?-set_self, get_elem?-set_ne, get_elem?-some, drop-cons_of_get, take_cons, set-append,
  take-drop, take-append_take, take_all, drop_all, minus_one, s64_of, add_u64, sub_u64,
  s64_of_small, ℤ, ◌>>=◌, access, Returns-mono, Returns-bind, Returns-value, bind_ok, Exec, Returns,
  ok, fault, out_of_fuel, returns, pos, negsuc,
}
use blackhv.Io.{Handlers, no_handler}
use blackhv.Memory.{Host, HostCall}
use blackhv.Memory.Access.{Bytes, E820Entry, memory_get_ptr}
use blackhv.Mmio.{MmioRegion, MmioCall}
use blackhv.Serial.{SerialMemory, serial_new}
use blackhv.Atapi.{initial}
use blackhv.Vm.{Vm, vm_destroy}
use blackhv.Vm.Run.{KvmExit, vm_run}
use blackhv.Loader.{FileHost, load_file, Regs}
use blackhv.Loader.Linux.{SetupHeader, boot_params_addr, load_linux}
use blackhv.Machine.{Devices, serial_handler}
use blackhv.Programs.{VmHost, gb_1, com1, init_vm, give_memory, no_regions, entries_of}

-- What the program is answered, in the order in which it asks; `image` is the file at `argv[1]`.
pub record LinuxHost : Type 0 where
  pub argc : ℕ
  pub vm_host : VmHost
  pub ram_host : Host
  pub image_file : FileHost
  pub image : List ℕ
  pub table_memory : Bool
  pub entries_memory : Bool
  pub get_regs : Option Regs
  pub set_regs : Bool
  pub serial_memory : SerialMemory
  pub serial_address : ℕ

-- The program when it calls `vm_run`. The drive is not one of its devices: no handler reaches it.
pub record Launched : Type 0 where
  pub vm : Vm
  pub regs : Regs
  pub bytes : Bytes
  pub devices : Devices
  pub handlers : Handlers Devices

-- The serial port.
unfoldable pub start_serial : LinuxHost → Vm → Regs → Bytes → Exec (Option Launched)
unfolding serial_new
start_serial host vm regs m = do
  (serial, handlers) ←
      serial_new host.serial_memory (λ q. no_handler) (serial_handler host.serial_address) com1 1024
  elim serial [
    | none ↦ ok none
    | some s ↦ ok (
        some (record {
          vm = vm;
          regs = regs;
          bytes = m;
          devices = record { serial = s; drive = initial };
          handlers = handlers;
        }))
  ]

-- How `main` ends: `none` where it exits with a message, else it returns 0 and this is what it unmaps
-- and closes at its end. What was given back before a message is not kept.
unfoldable pub finish : Launched → (result : ℕ) → Option (List HostCall × List ℤ)
unfolding vm_destroy
finish l result = if result == 0 then none else some (vm_destroy (some l.vm))

module _ (boot_params_size : ℕ) (get_header : Bytes → (boot_params : ℕ) → SetupHeader)
    (put_header : Bytes → (boot_params : ℕ) → SetupHeader → Bytes)
    (put_e820 : Bytes → (boot_params i : ℕ) → E820Entry → Bytes)
    (put_e820_entries : Bytes → (boot_params length : ℕ) → Bytes) where
  -- `load_linux` on the mapped file; NULL is read as soon as the parameters have their place.
  unfoldable pub load_mapped : LinuxHost → Vm → Bytes → Exec (Option (Regs × Bytes))
  unfolding load_file load_linux
  load_mapped host vm m =
      let entries = entries_of vm in
      elim (load_file host.image_file).0 [
        | some mapped ↦
            load_linux boot_params_size get_header put_header put_e820 put_e820_entries
              host.table_memory host.entries_memory entries host.get_regs host.set_regs host.image
              mapped.1 m
        | none ↦ if memory_get_ptr entries boot_params_addr == 0 then ok none else fault
      ]

  -- `main` up to the call of `vm_run`.
  unfoldable pub launch : LinuxHost → Bytes → Exec (Option Launched)
  unfolding init_vm give_memory load_mapped start_serial
  launch host m = if not (host.argc == 2) then ok none else do
    made ← init_vm host.vm_host
    elim made [
      | none ↦ ok none
      | some vm0 ↦ elim (give_memory host.ram_host vm0 gb_1) [
        | none ↦ ok none
        | some vm ↦ (do
          loaded ← load_mapped host vm m
          elim loaded [ none ↦ ok none | some r ↦ start_serial host vm r.0 r.1 ])
      ]
    ]

  -- `main`; `call` is what a handler of an MMIO region does, and `exits` are those of the guest.
  unfoldable pub main :
      (call : MmioCall → List MmioRegion × Devices → List MmioRegion × Devices)
      → List KvmExit
      → LinuxHost
      → Bytes
      → Exec (Option (List HostCall × List ℤ))
  unfolding launch finish vm_run
  main call exits host m = do
    started ← launch host m
    elim started [
      | none ↦ ok none
      | some l ↦ (do
        (result, shown, state) ←
            vm_run l.handlers call (not (l.vm.kvm_run == 0)) exits (no_regions, l.devices)
        ok (finish l result))
    ]
