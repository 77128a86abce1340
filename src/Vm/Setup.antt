-- ===== src/Vm/Setup.antt =====
-- `vm_vcpu_init_state` of src/vm.c, and what it returns and hands to the kernel in its modes.
use Prim.Native.Nat.{bit_or}
use blackhv.Base.{
  ℕ, ◌+◌, ◌-◌, ◌/◌, ◌%◌, ◌^◌, ◌<◌, ◌≡◌, refl, ◌⊎◌, inl, inr, true, false, ◌&&◌, ◌||◌, Option, none,
  some, List, [], ◌∷◌, ◌++◌, arith, leb, ◌==◌, if◌then◌else◌, int_of, Bool-cases, minus_one, ℤ, pos,
}
use blackhv.Vm.{Vm, is_negative}
use blackhv.Vm.Vcpu.{
  segment_selector, Segment, Segment, set_sregs, get_sregs, get_sregs, set_cpuid2,
  get_supported_cpuid, mmap_run, mmap_run, set_identity_map_addr, set_identity_map_addr,
  get_vcpu_mmap_size, set_tss_addr, create_irqchip_call, set_tss_addr, create_pit2, create_vcpu,
  gdt_type_wr, gdt_type_rd, gdt_type_exec, real_mode, protected_mode, create_irqchip, create_pit,
  has, Sregs, Kvm, KvmCall, set_real_mode, flat_segment, protected_sregs, is_zero,
  set_protected_mode, sign_entries, setup_cpuid,
}

-- The result, the machine and the calls made so far, in order.
pub record Outcome : Type 0 where
  pub result : ℤ
  pub vm : Vm
  pub calls : List KvmCall

abbrev pub after : List KvmCall → Outcome → Outcome
after before o = record o { calls = before ++ o.calls }

abbrev pub stop : Vm → Outcome
stop vm = record { result = pos 0; vm = vm; calls = [] }

-- MAP_FAILED.
abbrev pub map_failed : ℕ
map_failed = 2 ^ 64 - 1

-- The last part of `vm_vcpu_init_state`: the CPU identification and the mode.
unfoldable pub init_mode : Kvm → Vm → (mode : ℕ) → Outcome
unfolding setup_cpuid set_real_mode set_protected_mode
init_mode kvm vm mode =
    let (cpuid, calls) = setup_cpuid kvm in
    after calls (
      if is_negative cpuid
      then stop vm
      else if has mode real_mode
      then record { result = (set_real_mode kvm).0; vm = vm; calls = (set_real_mode kvm).1 }
      else if has mode protected_mode
      then record {
        result = (set_protected_mode kvm).0;
        vm = vm;
        calls = (set_protected_mode kvm).1;
      }
      else record { result = pos 1; vm = vm; calls = [] })

-- The part before it: the processor and its shared page.
unfoldable pub init_vcpu : Kvm → Vm → (mode : ℕ) → Outcome
unfolding init_mode
init_vcpu kvm vm mode =
    let vm' = record vm { vcpu_fd = kvm.create_vcpu } in
    after (create_vcpu ∷ []) (
      if is_negative kvm.create_vcpu
      then stop vm'
      else after (get_vcpu_mmap_size ∷ []) (
          if is_negative kvm.get_vcpu_mmap_size || is_zero kvm.get_vcpu_mmap_size
          then stop vm'
          else after (mmap_run kvm.get_vcpu_mmap_size ∷ []) (
              if kvm.mmap_result == map_failed
              then stop (record vm' { kvm_run = kvm.mmap_result })
              else init_mode kvm (record vm' { kvm_run = kvm.mmap_result }) mode)))

-- The part before it: the interrupt controller and the timer.
unfoldable pub init_devices : Kvm → Vm → (mode : ℕ) → Outcome
unfolding init_vcpu
init_devices kvm vm mode =
    let pit =
      if has mode create_pit
      then after (create_pit2 ∷ [])
          (if is_negative kvm.create_pit2 then stop vm else init_vcpu kvm vm mode)
      else init_vcpu kvm vm mode in
    if has mode create_irqchip
    then after (create_irqchip_call ∷ []) (if is_negative kvm.create_irqchip then stop vm else pit)
    else pit

-- `vm_vcpu_init_state`.
unfoldable pub vm_vcpu_init_state : Kvm → Vm → (tss_address identity_map_addr mode : ℕ) → Outcome
unfolding init_devices
vm_vcpu_init_state kvm vm tss_address identity_map_addr mode =
    after (set_tss_addr tss_address ∷ []) (
      if is_negative kvm.set_tss_addr
      then stop vm
      else after (set_identity_map_addr identity_map_addr ∷ [])
          (if is_negative kvm.set_identity_map_addr then stop vm else init_devices kvm vm mode))

-- No call of the set-up up to the mode fails.
pub record Accepts (kvm : Kvm) : Type 0 where
  pub tss : is_negative kvm.set_tss_addr ≡ false
  pub identity_map : is_negative kvm.set_identity_map_addr ≡ false
  pub irqchip : is_negative kvm.create_irqchip ≡ false
  pub pit : is_negative kvm.create_pit2 ≡ false
  pub vcpu : is_negative kvm.create_vcpu ≡ false
  pub page_size : (is_negative kvm.get_vcpu_mmap_size || is_zero kvm.get_vcpu_mmap_size) ≡ false
  pub page : (kvm.mmap_result == map_failed) ≡ false
  pub supported_cpuid : is_zero kvm.get_supported_cpuid ≡ true
  pub cpuid : is_negative kvm.set_cpuid2 ≡ false

-- The calls of a set-up that goes through, before those of the mode.
abbrev pub device_calls : (mode : ℕ) → List KvmCall
device_calls mode =
    (if has mode create_irqchip then create_irqchip_call ∷ [] else [])
    ++ (if has mode create_pit then create_pit2 ∷ [] else [])

abbrev pub setup_calls : Kvm → (tss identity_map mode : ℕ) → List KvmCall
setup_calls kvm tss identity_map mode =
    (set_tss_addr tss ∷ set_identity_map_addr identity_map ∷ [])
    ++ device_calls mode
    ++ (create_vcpu
        ∷ get_vcpu_mmap_size
        ∷ mmap_run kvm.get_vcpu_mmap_size
        ∷ get_supported_cpuid
        ∷ set_cpuid2 (sign_entries kvm.supported)
        ∷ [])

-- The mode's own result and calls.
abbrev pub enter_mode : Kvm → (mode : ℕ) → ℤ × List KvmCall
enter_mode kvm mode =
    if has mode real_mode
    then set_real_mode kvm
    else if has mode protected_mode
    then set_protected_mode kvm
    else (pos 1, [])

-- Where the kernel accepts every call before the mode, the set-up makes them in this order, the machine
-- has the processor's descriptor and page, and the mode's result is returned.
pub vm_vcpu_init_state-enter_mode :
    (kvm : Kvm) (vm : Vm) (tss identity_map mode : ℕ)
    → Accepts kvm
    → vm_vcpu_init_state kvm vm tss identity_map mode ≡ record {
      result = (enter_mode kvm mode).0;
      vm = record vm { vcpu_fd = kvm.create_vcpu; kvm_run = kvm.mmap_result };
      calls = setup_calls kvm tss identity_map mode ++ (enter_mode kvm mode).1;
    }
unfolding vm_vcpu_init_state
vm_vcpu_init_state-enter_mode kvm vm tss identity_map mode a =
    rw
      (
        a.tss, a.identity_map, a.irqchip, a.pit, a.vcpu, a.page_size, a.page, a.supported_cpuid,
        a.cpuid,
      )
      (ground arith)

-- What the processor does with an offset in a segment: its linear address, `none` past the limit, which
-- KVM counts in bytes, or where the segment is not present.
abbrev linear : Segment → (offset : ℕ) → Option ℕ
linear seg offset =
    if (seg.present == 1) && leb offset seg.limit then some ((seg.base + offset) % 2 ^ 32) else none

-- A segment of 32 bits at this index of the GDT, of the highest privilege and neither a system segment
-- nor one of 64 bits, in which each offset is its own linear address.
pub record IsFlat (index : ℕ) (seg : Segment) : Type 0 where
  pub identity : (offset : ℕ) → offset < 2 ^ 32 → linear seg offset ≡ some offset
  pub at_index : seg.selector / 8 ≡ index
  pub in_gdt : seg.selector % 8 ≡ 0
  pub ordinary : seg.s ≡ 1
  pub highest : seg.dpl ≡ 0
  pub wide : seg.db ≡ 1
  pub narrow : seg.l ≡ 0
  pub pages : seg.g ≡ 1

-- Types 10 and 2 of segments: code that may be read, and data that may be written.
pub record IsProtected (before sregs : Sregs) : Type 0 where
  pub code : IsFlat 1 sregs.cs × (sregs.cs.type ≡ 10)
  pub stack : IsFlat 2 sregs.ss × (sregs.ss.type ≡ 2)
  pub data' : IsFlat 2 sregs.ds × (sregs.ds.type ≡ 2)
  pub extra : IsFlat 2 sregs.es × (sregs.es.type ≡ 2)
  pub fs : IsFlat 2 sregs.fs × (sregs.fs.type ≡ 2)
  pub gs : IsFlat 2 sregs.gs × (sregs.gs.type ≡ 2)
  pub mode : sregs.cr0 ≡ bit_or before.cr0 1

flat_segment-IsFlat :
    (index type : ℕ)
    → segment_selector index 0 0 / 8 ≡ index
    → segment_selector index 0 0 % 8 ≡ 0
    → IsFlat index (flat_segment (segment_selector index 0 0) type)
unfolding flat_segment
flat_segment-IsFlat index type at gdt = record {
  identity = λ offset small.
      let inside : leb offset 0xFFFFFFFF ≡ true = ground (arith, small) in
      let same : (0 + offset) % 2 ^ 32 ≡ offset = omega (arith, small) in rw (inside, same) refl;
  at_index = at;
  in_gdt = gdt;
  ordinary = refl;
  highest = refl;
  wide = refl;
  narrow = refl;
  pages = refl;
}

protected_sregs-IsProtected : (sregs : Sregs) → IsProtected sregs (protected_sregs sregs)
unfolding protected_sregs
protected_sregs-IsProtected sregs =
    let data_flat = flat_segment-IsFlat 2 gdt_type_wr refl refl in
    record {
      code = (flat_segment-IsFlat 1 (bit_or gdt_type_rd gdt_type_exec) refl refl, refl);
      stack = (data_flat, refl);
      data' = (data_flat, refl);
      extra = (data_flat, refl);
      fs = (data_flat, refl);
      gs = (data_flat, refl);
      mode = refl;
    }

-- How the protected mode is entered behind the calls `before`: the registers are handed over where they
-- could be read.
abbrev pub Entered : Kvm → (before : List KvmCall) → Outcome → Type 0
Entered kvm before o =
    ((is_negative kvm.get_sregs ≡ true)
      × (o.result ≡ pos 0)
      × (o.calls ≡ before ++ (get_sregs ∷ [])))
    ⊎ ((is_negative kvm.get_sregs ≡ false)
        × (o.result ≡ pos (int_of (is_zero kvm.set_sregs)))
        × ((sregs : Sregs) × (o.calls ≡ before ++ (get_sregs ∷ set_sregs sregs ∷ []))
            × IsProtected kvm.sregs sregs))

-- In protected mode without real mode, where the kernel accepts every call before the mode,
-- `vm_vcpu_init_state` returns 0 and hands nothing over if the special registers cannot be read;
-- else it hands registers over and returns 1 exactly if the kernel takes them. In each of the six
-- segments an offset of 32 bits is its own linear address; the code segment is readable code at
-- index 1 of the GDT, the five others are writable data at index 2, and CR0 is as it was with the
-- protection bit set.
pub vm_vcpu_init_state-protected :
    (kvm : Kvm) (vm : Vm) (tss identity_map mode : ℕ)
    → Accepts kvm
    → has mode real_mode ≡ false
    → has mode protected_mode ≡ true
    → Entered kvm
        (setup_calls kvm tss identity_map mode)
        (vm_vcpu_init_state kvm vm tss identity_map mode)
unfolding set_protected_mode
vm_vcpu_init_state-protected kvm vm tss identity_map mode a real prot =
    rw (vm_vcpu_init_state-enter_mode kvm vm tss identity_map mode a, real, prot)
      (elim (Bool-cases (is_negative kvm.get_sregs)) [
        | inl refused ↦ rw refused (inl (refl, refl, refl))
        | inr given ↦ rw given (
            inr (
              refl,
              refl,
              (protected_sregs kvm.sregs, refl, protected_sregs-IsProtected kvm.sregs),
            ))
      ])

-- In real mode, where the kernel accepts every call before the mode, `vm_vcpu_init_state` returns
-- -1 if the special registers cannot be read and else 0, and hands no registers to the kernel.
pub vm_vcpu_init_state-real :
    (kvm : Kvm) (vm : Vm) (tss identity_map mode : ℕ)
    → Accepts kvm
    → has mode real_mode ≡ true
    → let o = vm_vcpu_init_state kvm vm tss identity_map mode in
      (o.result ≡ (if is_negative kvm.get_sregs then minus_one else pos 0))
      × (o.calls ≡ setup_calls kvm tss identity_map mode ++ (get_sregs ∷ []))
unfolding set_real_mode
vm_vcpu_init_state-real kvm vm tss identity_map mode a real =
    rw (vm_vcpu_init_state-enter_mode kvm vm tss identity_map mode a, real) (ground arith)
