-- ===== src/Programs.antt =====
-- The `main` functions of examples/k/main.c, examples/linux/main.c and examples/guests/main.c, up to the
-- call of `vm_run` and behind it. This module has what they share. An exit with a message is `none`. The
-- threads that they start are not part of these functions.
pub mod Ram
pub mod Granted
pub mod Workers
pub mod K
pub mod Linux
pub mod Guests
pub mod Tests
use Prim.Native.Nat.{bit_or}
use mathlib.Core.Option.{get_or}
use blackhv.Base.{
  ℕ, zero, suc, ◌+◌, ◌-◌, ◌*◌, ◌/◌, ◌%◌, ◌^◌, ◌≤◌, ◌<◌, min, ◌≡◌, refl, sym, ap, ◌∙◌, ◌≢◌, ◌↔◌, ◌⊎◌,
  inl, inr, Bool, true, false, not, ◌&&◌, ◌||◌, Option, none, some, List, [], ◌∷◌, ◌++◌, map,
  append_assoc, append-nil, arith, ltb, leb, ◌==◌, if◌then◌else◌, int_of, ==_iff, ==_refl, ==_false,
  lt→ltb, le→ltb, Bool-cases, Option-cases, length, get_elem?, set, take, drop, replicate, All,
  length-append, get_elem?-append, length-set, length-take, length-drop, length-replicate,
  get_elem?-set_self, get_elem?-set_ne, get_elem?-some, drop-cons_of_get, take_cons, set-append,
  take-drop, take-append_take, take_all, drop_all, minus_one, s64_of, add_u64, sub_u64,
  s64_of_small, ℤ, ◌>>=◌, access, Returns-mono, Returns-bind, Returns-value, bind_ok, Exec, Returns,
  ok, fault, out_of_fuel, returns, pos, negsuc,
}
use blackhv.Memory.{MemoryEntry, Host, memory_alloc, memory_usable}
use blackhv.Mmio.{MmioRegion, max_mmio_region_count}
use blackhv.Screen.{Screen, ScreenVm, Sdl, screen_init}
use blackhv.Vm.{Vm, vm_new}
use blackhv.Vm.Vcpu.{Kvm, protected_mode, create_irqchip, create_pit, is_zero}
use blackhv.Vm.Setup.{vm_vcpu_init_state}

abbrev pub gb_1 : ℕ
gb_1 = 2 ^ 30

abbrev pub mb_1 : ℕ
mb_1 = 2 ^ 20

-- COM1 of include/blackhv/serial.h.
abbrev pub com1 : ℕ
com1 = 0x3F8

-- What `vm_new` and `vm_vcpu_init_state` are answered.
pub record VmHost : Type 0 where
  pub fd : ℤ
  pub vm_fd : ℤ
  pub vm_memory : Bool
  pub struct_memory : Bool
  pub list_memory : Bool
  pub kvm : Kvm

-- PROTECTED_MODE | CREATE_IRQCHIP | CREATE_PIT.
abbrev pub vm_mode : ℕ
vm_mode = bit_or (bit_or protected_mode create_irqchip) create_pit

-- `init_vm`, which examples/guests/main.c has in its `main`.
unfoldable pub init_vm : VmHost → Exec (Option Vm)
unfolding vm_new vm_vcpu_init_state
init_vm host = do
  (made, closed) ← vm_new host.fd host.vm_fd host.vm_memory host.struct_memory host.list_memory
  elim made [
    | none ↦ ok none
    | some vm ↦
        (let o = vm_vcpu_init_state host.kvm vm 0xffffd000 0xffffc000 vm_mode in
          if is_zero o.result then ok none else ok (some o.vm))
  ]

-- The allocation of the guest's memory at address 0.
unfoldable pub give_memory : Host → Vm → (size : ℕ) → Option Vm
unfolding memory_alloc
give_memory host vm size =
    let (result, mem', calls) = memory_alloc host vm.mem 0 size memory_usable in
    if result == 1 then some (record vm { mem = mem' }) else none

-- The screen, whose result the programs do not look at.
abbrev pub screen_vm : Vm → Option ScreenVm
screen_vm vm = elim vm.mem [ none ↦ none | some mem ↦ some (record { mem = mem; screen = none }) ]

unfoldable pub start_screen : Host → Sdl → Vm → (framebuffer_phys : ℕ) → Exec (Vm × Option Screen)
unfolding screen_init
start_screen host sdl vm framebuffer_phys = do
  (result, vm', calls) ← screen_init host sdl (screen_vm vm) framebuffer_phys
  elim vm' [ none ↦ ok (vm, none) | some v ↦ ok (record vm { mem = some v.mem }, v.screen) ]

-- The table of MMIO regions that the program starts with.
abbrev pub no_regions : List MmioRegion
no_regions = replicate max_mmio_region_count (record {
  id = pos 0;
  base_address = 0;
  high_address = 0;
  write_handler = 0;
  read_handler = 0;
  data' = 0;
})

-- A descriptor cast to a `u64`.
abbrev pub u64_of : ℤ → ℕ
u64_of (pos n) = n
u64_of (negsuc n) = 2 ^ 64 - 1 - n

-- The entries of `vm->mem`.
abbrev pub entries_of : Vm → List MemoryEntry
entries_of vm = elim vm.mem [ none ↦ [] | some mem ↦ mem.memory_entries ]

-- If the run returns, it returns `a`.
abbrev pub OnlyReturns : {A : Type 0} → A → Exec A → Type 0
OnlyReturns a (ok x) = x ≡ a
OnlyReturns a fault = Unit
OnlyReturns a out_of_fuel = Unit

pub OnlyReturns-ok :
    {A : Type 0} (a : A) (r : Exec A) → ((x : A) → r ≡ ok x → x ≡ a) → OnlyReturns a r
OnlyReturns-ok a (ok x) each = each x refl
OnlyReturns-ok a fault each = tt
OnlyReturns-ok a out_of_fuel each = tt
