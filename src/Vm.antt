-- ===== src/Vm.antt =====
-- src/vm.c and include/blackhv/cpu.h: the machine, the set-up of its processor and its run loop.
-- The kernel's answers are parameters: those to the calls of the set-up are a `Kvm`, and the exits that
-- `KVM_RUN` returns with are a list. Vm/Vcpu.antt has the set-up and Vm/Run.antt the loop.
pub mod Vcpu
pub mod Run
pub mod Setup
pub mod Exits
pub mod Effects
pub mod Life
pub mod Regs
pub mod Tests
use blackhv.Base.{
  ℕ, zero, suc, ◌+◌, ◌-◌, ◌*◌, ◌/◌, ◌%◌, ◌^◌, ◌≤◌, ◌<◌, min, ◌≡◌, refl, sym, ap, ◌∙◌, ◌≢◌, ◌↔◌, ◌⊎◌,
  inl, inr, Bool, true, false, not, ◌&&◌, ◌||◌, Option, none, some, List, [], ◌∷◌, ◌++◌, map,
  append_assoc, append-nil, arith, ltb, leb, ◌==◌, if◌then◌else◌, int_of, ==_iff, ==_refl, ==_false,
  lt→ltb, le→ltb, Bool-cases, Option-cases, length, get_elem?, set, take, drop, replicate, All,
  length-append, get_elem?-append, length-set, length-take, length-drop, length-replicate,
  get_elem?-set_self, get_elem?-set_ne, get_elem?-some, drop-cons_of_get, take_cons, set-append,
  minus_one, s64_of, add_u64, sub_u64, ℤ, ◌>>=◌, access, Returns-mono, Returns-bind, Returns-value,
  Exec, Returns, ok, fault, out_of_fuel, returns, pos, negsuc,
}
use blackhv.Memory.{Memory, HostCall, memory_new, memory_destroy}

-- `vm_t`, without the screen; `kvm_run` is an address, 0 for NULL.
pub record Vm : Type 0 where
  pub kvm_fd : ℤ
  pub vm_fd : ℤ
  pub vcpu_fd : ℤ
  pub kvm_run : ℕ
  pub mem : Option Memory

abbrev pub is_negative : ℤ → Bool
is_negative (pos n) = false
is_negative (negsuc n) = true

-- `vm_new`, with the descriptors that `open` and KVM_CREATE_VM answer with, and whether the
-- allocations of the machine and of its memory succeed: the machine, if there is one, and the
-- descriptors that were closed. The block is zeroed before it is compared with NULL.
unfoldable pub vm_new :
    (fd vm_fd : ℤ) → (vm_memory struct_memory list_memory : Bool) → Exec (Option Vm × List ℤ)
vm_new fd vm_fd vm_memory struct_memory list_memory =
    if is_negative fd
    then ok (none, [])
    else if is_negative vm_fd
    then ok (none, [])
    else if not vm_memory
    then fault
    else elim (memory_new struct_memory list_memory) [
      | none ↦ ok (none, fd ∷ [])
      | some mem ↦ ok (
        some (record { kvm_fd = fd; vm_fd = vm_fd; vcpu_fd = pos 0; kvm_run = 0; mem = some mem }),
        [],
      )
    ]

-- `vm_destroy`: the memory that is unmapped and the descriptors that are closed.
unfoldable pub vm_destroy : Option Vm → List HostCall × List ℤ
vm_destroy none = ([], [])
vm_destroy (some vm) = (memory_destroy vm.mem, vm.kvm_fd ∷ vm.vm_fd ∷ [])
