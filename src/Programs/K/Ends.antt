-- ===== src/Programs/K/Ends.antt =====
-- How `main` of examples/k/main.c ends.
use blackhv.Base.{
  ℕ, ◌≤◌, ◌≡◌, refl, ◌≢◌, inl, inr, false, not, List, [], ◌∷◌, ◌++◌, map, arith, ◌==◌, ==_false,
  Option-cases, length, Returns-value, bind_ok, Exec, Returns, ok, fault, out_of_fuel, returns,
}
use blackhv.Memory.Access.{Bytes}
use blackhv.Mmio.{MmioRegion, MmioCall}
use blackhv.Vm.Run.{KvmExit, vm_run}
use blackhv.Vm.Exits.{vm_run-OnlyZero}
use blackhv.Loader.Segments.{ProgramHeader}
use blackhv.Machine.{Devices, serial_handler}
use blackhv.Programs.{no_regions}
use blackhv.Loader.{Regs}
use blackhv.Vm.Exits.{IsFinal, vm_run-Handles}
use blackhv.Atapi.{initial}
use blackhv.Programs.{com1}
use blackhv.Machine.Port.{out_byte, Line, out_bytes-Handles}
use blackhv.Programs.K.Layout.{Layout}
use blackhv.Programs.K.Loads.{GrantsK}
use blackhv.Programs.K.Starts.{k_launch-Started}
use blackhv.Serial.Registers.{Carries}
use blackhv.Programs.K.{Exit, stopped, run_failed, finished, KHost, launch, finish, main}

-- `main` has ended with a message and so with EXIT_FAILURE.
abbrev pub Fails : Exit → Type 0
Fails stopped = Unit
Fails (run_failed devices) = Unit
Fails (finished sdl unmapped closed) = ⊥

-- Where the run ends, it has ended so.
abbrev pub EndsFailing : Exec Exit → Type 0
EndsFailing (ok r) = Fails r
EndsFailing fault = Unit
EndsFailing out_of_fuel = Unit

ends_failing : (run : Exec Exit) → ((r : Exit) → run ≡ ok r → Fails r) → EndsFailing run
ends_failing (ok r) each = each r refl
ends_failing fault each = tt
ends_failing out_of_fuel each = tt

-- The run has failed, with these bytes at the serial port for the host.
abbrev pub Sent : List ℕ → Exit → Type 0
Sent bs stopped = ⊥
Sent bs (run_failed devices) = Carries devices.serial 1024 bs []
Sent bs (finished sdl unmapped closed) = ⊥

module _ (program_header : (image : List ℕ) → (i : ℕ) → Exec ProgramHeader)
    (e_phnum e_entry : (image : List ℕ) → ℕ) (read_at : (fd offset : ℕ) → List ℕ) where
  -- A run of `main` that ends.
  main_ends :
      (call : MmioCall → List MmioRegion × Devices → List MmioRegion × Devices)
      (exits : List KvmExit) (host : KHost) (m : Bytes) (r : Exit)
      → main program_header e_phnum e_entry read_at call exits host m ≡ ok r
      → Fails r
  unfolding main finish
  main_ends call exits host m r e =
      let (started, launched, rest) =
        bind_ok (launch program_header e_phnum e_entry read_at host m) _ r e in
      elim (Option-cases started) [
        | inl none_l ↦ let other = rw none_l at rest in let is : r ≡ stopped = cc in rw is tt
        | inr (l, is) ↦
            let (x, ran, done) =
              bind_ok
                (vm_run l.handlers call (not (l.vm.kvm_run == 0)) exits (no_regions, l.devices)) _ r
                (rw is at rest) in
            let zero : x.0 ≡ 0 = rw ran at (
              vm_run-OnlyZero {S = Devices} l.handlers call (not (l.vm.kvm_run == 0)) exits
                (no_regions, l.devices)) in
            let same : r ≡ finish host l x.2.1 x.0 = cc in rw (same, zero) tt
      ]

  -- `main` never returns 0, whatever it is granted and whatever the guest does: where it ends it
  -- exits with a message, and does not come to what it destroys and closes at its end.
  pub k_main-EndsFailing :
      (call : MmioCall → List MmioRegion × Devices → List MmioRegion × Devices)
      (exits : List KvmExit) (host : KHost) (m : Bytes)
      → EndsFailing (main program_header e_phnum e_entry read_at call exits host m)
  k_main-EndsFailing call exits host m = ends_failing _ (main_ends call exits host m)

  -- Where `main` is granted what it asks for and the image fits, and the processor has its page,
  -- a guest that writes at most 1024 bytes to the serial port and then stops makes `main` end
  -- with the message that the run failed, and these bytes are then at the serial port for the
  -- host, in order.
  pub k_main-Sent :
      (call : MmioCall → List MmioRegion × Devices → List MmioRegion × Devices) (host : KHost)
      (regs : Regs) (g h : List ℕ) (headers : ℕ → ProgramHeader) (m : Bytes)
      (before behind bs : List ℕ) (e : KvmExit) (rest : List KvmExit)
      → GrantsK host regs g h
      → Layout program_header (e_phnum host.image) host.image host.cmdline headers
      → host.vm_host.kvm.mmap_result ≢ 0
      → length bs ≤ 1024
      → IsFinal e
      → Returns (Sent bs) (
          main program_header e_phnum e_entry read_at call
            (map (out_byte before behind com1) bs ++ (e ∷ rest))
            host
            m)
  unfolding main finish
  k_main-Sent call host regs g h headers m before behind bs e rest k layout page room fin =
      let (r, launched, (l, is, started)) = Returns-value (
        k_launch-Started program_header e_phnum e_entry read_at host regs g h headers m k layout) in
      let ready = started.ready in
      let here : l.handlers com1 ≡ serial_handler host.serial_address =
        ready.serial_ports 0 (omega arith) in
      let there : (l.vm.kvm_run == 0) ≡ false = ==_false _ _ (rw ready.page page) in
      let line : Line l.devices com1 1024 [] [] initial = record {
        carries = ready.line;
        same_port = ready.port;
        same_drive = ready.drive;
      } in
      let (s', run, line') =
        out_bytes-Handles l.handlers call before behind host.serial_address com1 here (omega arith)
          bs no_regions l.devices 1024 [] [] initial line (omega arith) in
      rw (launched, is, there, vm_run-Handles l.handlers call _ e rest _ _ _ run fin)
        (returns line'.carries)
