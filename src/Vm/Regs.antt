-- ===== src/Vm/Regs.antt =====
-- The registers of the processor in src/vm.c: `vm_set_regs`, `vm_get_regs` and `vm_dump_regs`.
use blackhv.Base.{
  ℕ, ◌≡◌, refl, Bool, false, Option, none, some, List, [], ◌∷◌, ◌==◌, if◌then◌else◌, set, ℤ, pos,
  negsuc,
}
use blackhv.Vm.Vcpu.{is_zero}

-- The fields of `struct kvm_regs` that are printed.
pub record KvmRegs : Type 0 where
  pub rax : ℕ
  pub rbx : ℕ
  pub rcx : ℕ
  pub rdx : ℕ
  pub rsi : ℕ
  pub rsp : ℕ
  pub r8 : ℕ
  pub r9 : ℕ
  pub r10 : ℕ
  pub r11 : ℕ
  pub r12 : ℕ
  pub r13 : ℕ
  pub r14 : ℕ
  pub r15 : ℕ
  pub rip : ℕ
  pub rflags : ℕ

-- The processor's registers; the kernel answers both calls with `result`, and a call that it
-- answers with 0 has its effect.
unfoldable pub vm_set_regs : (result : ℤ) → (regs : Option KvmRegs) → KvmRegs → ℕ × KvmRegs
vm_set_regs result none cpu = (0, cpu)
vm_set_regs result (some regs) cpu = if is_zero result then (1, regs) else (0, cpu)

unfoldable pub vm_get_regs : (result : ℤ) → (regs : Option KvmRegs) → KvmRegs → ℕ × Option KvmRegs
vm_get_regs result none cpu = (0, none)
vm_get_regs result (some regs) cpu = if is_zero result then (1, some cpu) else (0, some regs)

abbrev is_minus_one : ℤ → Bool
is_minus_one (pos n) = false
is_minus_one (negsuc n) = n == 0

-- `vm_dump_regs`: the result, and the values in the order in which they are printed.
unfoldable pub vm_dump_regs : (result : ℤ) → KvmRegs → ℕ × List ℕ
vm_dump_regs result cpu = if is_minus_one result then (0, []) else (
  1,
  cpu.rax ∷ cpu.rbx ∷ cpu.rcx ∷ cpu.rdx ∷ cpu.rsi ∷ cpu.rsp ∷ cpu.r8 ∷ cpu.r9 ∷ cpu.r10 ∷ cpu.r11
      ∷ cpu.r12 ∷ cpu.r13 ∷ cpu.r14 ∷ cpu.r15 ∷ cpu.rip ∷ cpu.rflags ∷ [],
)

-- Where the kernel grants both calls, the registers that are read after `vm_set_regs` are the ones
-- that were set, whatever they were before and whatever the buffer held.
pub vm_get_regs-vm_set_regs :
    (regs buffer cpu : KvmRegs)
    → (let (set, cpu') = vm_set_regs (pos 0) (some regs) cpu in
        (set ≡ 1) × (vm_get_regs (pos 0) (some buffer) cpu' ≡ (1, some regs)))
unfolding vm_set_regs vm_get_regs
vm_get_regs-vm_set_regs regs buffer cpu = (refl, refl)
