-- ===== src/Programs/Linux/Ends.antt =====
-- How `main` of examples/linux/main.c ends.
use blackhv.Base.{
  ℕ, ◌≡◌, refl, ◌∙◌, inl, inr, not, Option, none, List, ◌==◌, Option-cases, ℤ, bind_ok, ok,
}
use blackhv.Memory.{HostCall}
use blackhv.Memory.Access.{Bytes}
use blackhv.Mmio.{MmioRegion, MmioCall}
use blackhv.Vm.Run.{KvmExit, vm_run}
use blackhv.Vm.Exits.{vm_run-OnlyZero}
use blackhv.Loader.Linux.{SetupHeader}
use blackhv.Memory.Access.{E820Entry}
use blackhv.Machine.{Devices}
use blackhv.Programs.{OnlyReturns, OnlyReturns-ok, no_regions}
use blackhv.Programs.Linux.{LinuxHost, launch, finish, main}

module _ (boot_params_size : ℕ) (get_header : Bytes → (boot_params : ℕ) → SetupHeader)
    (put_header : Bytes → (boot_params : ℕ) → SetupHeader → Bytes)
    (put_e820 : Bytes → (boot_params i : ℕ) → E820Entry → Bytes)
    (put_e820_entries : Bytes → (boot_params length : ℕ) → Bytes) where
  -- A run of `main` that ends.
  main_ends :
      (call : MmioCall → List MmioRegion × Devices → List MmioRegion × Devices)
      (exits : List KvmExit) (host : LinuxHost) (m : Bytes) (r : Option (List HostCall × List ℤ))
      → main boot_params_size get_header put_header put_e820 put_e820_entries call exits host m
        ≡ ok r
      → r ≡ none
  unfolding main finish
  main_ends call exits host m r e =
      let (started, launched, rest) =
        bind_ok (launch boot_params_size get_header put_header put_e820 put_e820_entries host m) _ r
          e in
      elim (Option-cases started) [
        | inl stopped ↦ let other = rw stopped at rest in cc
        | inr (l, is) ↦
            let (x, ran, done) =
              bind_ok
                (vm_run l.handlers call (not (l.vm.kvm_run == 0)) exits (no_regions, l.devices)) _ r
                (rw is at rest) in
            let zero : x.0 ≡ 0 = rw ran at (
              vm_run-OnlyZero {S = Devices} l.handlers call (not (l.vm.kvm_run == 0)) exits
                (no_regions, l.devices)) in
            let same : r ≡ finish l x.0 = cc in same ∙ rw zero refl
      ]

  -- `main` never returns 0: wherever it ends it exits with a message.
  pub linux_main_fails :
      (call : MmioCall → List MmioRegion × Devices → List MmioRegion × Devices)
      (exits : List KvmExit) (host : LinuxHost) (m : Bytes)
      → OnlyReturns none
          (main boot_params_size get_header put_header put_e820 put_e820_entries call exits host m)
  linux_main_fails call exits host m = OnlyReturns-ok _ _ (main_ends call exits host m)
