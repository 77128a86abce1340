-- ===== src/Vm/Vcpu.antt =====
-- The set-up of the processor in src/vm.c, with the constants of include/blackhv/cpu.h. `Kvm` has what
-- each ioctl answers, and the calls made are recorded with what they pass to the kernel.
use Prim.Native.Nat.{bit_or, bit_and}
use blackhv.Base.{
  ℕ, ◌*◌, ◌^◌, Bool, false, not, List, [], ◌∷◌, ◌==◌, if◌then◌else◌, int_of, minus_one, ℤ, pos,
  negsuc,
}
use blackhv.Vm.{is_negative}

-- `SEGMENT_SELECTOR`.
unfoldable pub segment_selector : (index ti rpl : ℕ) → ℕ
segment_selector index ti rpl =
    bit_or (bit_or (index * 2 ^ 3) (bit_and ti 1 * 2 ^ 2)) (bit_and rpl 3)

abbrev pub gdt_type_wr : ℕ
gdt_type_wr = 2

abbrev pub gdt_type_rd : ℕ
gdt_type_rd = 2

abbrev pub gdt_type_exec : ℕ
gdt_type_exec = 8

abbrev pub cr0_pe : ℕ
cr0_pe = 1

-- The flags of `vm_vcpu_init_state`.
abbrev pub real_mode : ℕ
real_mode = 1

abbrev pub protected_mode : ℕ
protected_mode = 2

abbrev pub create_irqchip : ℕ
create_irqchip = 4

abbrev pub create_pit : ℕ
create_pit = 8

abbrev pub has : (mode flag : ℕ) → Bool
has mode flag = not (bit_and mode flag == 0)

-- `struct kvm_segment` and the special registers that src/vm.c names.
pub record Segment : Type 0 where
  pub base : ℕ
  pub limit : ℕ
  pub selector : ℕ
  pub type : ℕ
  pub s : ℕ
  pub dpl : ℕ
  pub present : ℕ
  pub avl : ℕ
  pub l : ℕ
  pub db : ℕ
  pub g : ℕ

pub record Sregs : Type 0 where
  pub cs : Segment
  pub ss : Segment
  pub ds : Segment
  pub es : Segment
  pub fs : Segment
  pub gs : Segment
  pub cr0 : ℕ

-- `struct kvm_cpuid_entry2`, without its index and flags.
pub record CpuidEntry : Type 0 where
  pub function : ℕ
  pub eax : ℕ
  pub ebx : ℕ
  pub ecx : ℕ
  pub edx : ℕ

pub record Kvm : Type 0 where
  pub set_tss_addr : ℤ
  pub set_identity_map_addr : ℤ
  pub create_irqchip : ℤ
  pub create_pit2 : ℤ
  pub create_vcpu : ℤ
  pub get_vcpu_mmap_size : ℤ
  pub mmap_result : ℕ
  pub get_supported_cpuid : ℤ
  pub supported : List CpuidEntry
  pub set_cpuid2 : ℤ
  pub get_sregs : ℤ
  pub sregs : Sregs
  pub set_sregs : ℤ

pub data KvmCall : Type 0 where
  set_tss_addr : ℕ → KvmCall
  set_identity_map_addr : ℕ → KvmCall
  create_irqchip_call : KvmCall
  create_pit2 : KvmCall
  create_vcpu : KvmCall
  get_vcpu_mmap_size : KvmCall
  mmap_run : ℤ → KvmCall
  get_supported_cpuid : KvmCall
  set_cpuid2 : List CpuidEntry → KvmCall
  get_sregs : KvmCall
  set_sregs : Sregs → KvmCall

-- `set_real_mode`: the segment is changed in the local copy only.
unfoldable pub set_real_mode : Kvm → ℤ × List KvmCall
set_real_mode kvm =
    if is_negative kvm.get_sregs then (minus_one, get_sregs ∷ []) else (pos 0, get_sregs ∷ [])

-- The segments and the registers of `set_protected_mode`.
unfoldable pub flat_segment : (selector type : ℕ) → Segment
flat_segment selector type = record {
  base = 0;
  limit = 0xFFFFFFFF;
  selector = selector;
  type = type;
  s = 1;
  dpl = 0;
  present = 1;
  avl = 0;
  l = 0;
  db = 1;
  g = 1;
}

unfoldable pub protected_sregs : Sregs → Sregs
unfolding flat_segment segment_selector
protected_sregs sregs =
    let code = flat_segment (segment_selector 1 0 0) (bit_or gdt_type_rd gdt_type_exec) in
    let data' = flat_segment (segment_selector 2 0 0) gdt_type_wr in
    record {
      cs = code;
      ss = data';
      ds = data';
      es = data';
      fs = data';
      gs = data';
      cr0 = bit_or sregs.cr0 cr0_pe;
    }

abbrev pub is_zero : ℤ → Bool
is_zero (pos n) = n == 0
is_zero (negsuc n) = false

-- `set_protected_mode`.
unfoldable pub set_protected_mode : Kvm → ℤ × List KvmCall
unfolding protected_sregs
set_protected_mode kvm = if is_negative kvm.get_sregs then (pos 0, get_sregs ∷ []) else (
  pos (int_of (is_zero kvm.set_sregs)),
  get_sregs ∷ set_sregs (protected_sregs kvm.sregs) ∷ [],
)

-- KVM_CPUID_SIGNATURE and KVM_CPUID_FEATURES.
abbrev pub kvm_cpuid_signature : ℕ
kvm_cpuid_signature = 0x40000000

abbrev pub kvm_cpuid_features : ℕ
kvm_cpuid_features = 0x40000001

-- The body of the loop of `setup_cpuid`, and the loop.
unfoldable pub sign_entry : CpuidEntry → CpuidEntry
sign_entry e =
    if e.function == kvm_cpuid_signature
    then record e { eax = kvm_cpuid_features; ebx = 0x4b4d564b; ecx = 0x564b4d56; edx = 0x4d }
    else e

unfoldable pub sign_entries : List CpuidEntry → List CpuidEntry
unfolding sign_entry
sign_entries [] = []
sign_entries (e ∷ es) = sign_entry e ∷ sign_entries es

-- `setup_cpuid`.
unfoldable pub setup_cpuid : Kvm → ℤ × List KvmCall
unfolding sign_entries
setup_cpuid kvm =
    if not (is_zero kvm.get_supported_cpuid)
    then (pos 0, get_supported_cpuid ∷ [])
    else (kvm.set_cpuid2, get_supported_cpuid ∷ set_cpuid2 (sign_entries kvm.supported) ∷ [])
