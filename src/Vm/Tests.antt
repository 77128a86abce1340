-- ===== src/Vm/Tests.antt =====
-- The theorems on src/vm.c at a kernel that accepts every call and a run of three exits.
use blackhv.Base.{
  ℕ, ◌+◌, ◌≡◌, refl, true, false, none, some, List, [], ◌∷◌, ◌++◌, arith, Returns, ok, pos,
}
use blackhv.Io.{Handlers, no_handler}
use blackhv.Mmio.{MmioRegion, MmioCall}
use blackhv.Memory.{Host, memory_usable, memory_mmio}
use blackhv.Memory.Balance.{Request}
use blackhv.Vm.{Vm}
use blackhv.Vm.Life.{IsClean, lifetime, lifetime-IsClean}
use blackhv.Vm.Vcpu.{Kvm, get_sregs, Segment, Sregs}
use blackhv.Vm.Setup.{
  Accepts, setup_calls, vm_vcpu_init_state, vm_vcpu_init_state-protected, vm_vcpu_init_state-real,
}
use blackhv.Vm.Run.{KvmExit, run_failed, exit_io, exit_hlt, exit_other, exit_io_out, vm_run}
use blackhv.Mmio.Dispatch.{call}
use blackhv.Vm.Setup.{Entered}
use blackhv.Vm.Run.{exit_io_in}
use blackhv.Vm.Effects.{Effects, no_exits, then_exits, byte_out, byte_in, halted, vm_run-Effects}
use blackhv.Vm.Exits.{OnlyZero, unknown, vm_run-OnlyZero}

abbrev flat : Segment
flat = record {
  base = 0;
  limit = 0xFFFF;
  selector = 0;
  type = 3;
  s = 1;
  dpl = 0;
  present = 1;
  avl = 0;
  l = 0;
  db = 0;
  g = 0;
}

abbrev reset : Sregs
reset = record {
  cs = flat;
  ss = flat;
  ds = flat;
  es = flat;
  fs = flat;
  gs = flat;
  cr0 = 0x60000010;
}

abbrev pub kvm : Kvm
kvm = record {
  set_tss_addr = pos 0;
  set_identity_map_addr = pos 0;
  create_irqchip = pos 0;
  create_pit2 = pos 0;
  create_vcpu = pos 6;
  get_vcpu_mmap_size = pos 12288;
  mmap_result = 0x700000;
  get_supported_cpuid = pos 0;
  supported = [];
  set_cpuid2 = pos 0;
  get_sregs = pos 0;
  sregs = reset;
  set_sregs = pos 0;
}

abbrev vm : Vm
vm = record { kvm_fd = pos 3; vm_fd = pos 4; vcpu_fd = pos 0; kvm_run = 0; mem = none }

pub kvm-Accepts : Accepts kvm
kvm-Accepts = record {
  tss = refl;
  identity_map = refl;
  irqchip = refl;
  pit = refl;
  vcpu = refl;
  page_size = refl;
  page = refl;
  supported_cpuid = refl;
  cpuid = refl;
}

vm_vcpu_init_state-protected_example :
    Entered kvm
      (setup_calls kvm 0xFFFBD000 0xFFFBC000 14)
      (vm_vcpu_init_state kvm vm 0xFFFBD000 0xFFFBC000 14)
vm_vcpu_init_state-protected_example =
    vm_vcpu_init_state-protected kvm vm 0xFFFBD000 0xFFFBC000 14 kvm-Accepts refl refl

vm_vcpu_init_state-real_example :
    let o = vm_vcpu_init_state kvm vm 0xFFFBD000 0xFFFBC000 1 in
    (o.result ≡ pos 0) × (o.calls ≡ setup_calls kvm 0xFFFBD000 0xFFFBC000 1 ++ (get_sregs ∷ []))
vm_vcpu_init_state-real_example =
    vm_vcpu_init_state-real kvm vm 0xFFFBD000 0xFFFBC000 1 kvm-Accepts refl

-- A latch at every port, and no MMIO handlers.
abbrev latches : Handlers ℕ
latches q = record no_handler { outb_handler = some (λ port b params s. ok b) }

abbrev no_call : MmioCall → List MmioRegion × ℕ → List MmioRegion × ℕ
no_call c state = state

abbrev out : KvmExit
out =
    exit_io (record { direction = exit_io_out; size = 1; port = 0x70; data_offset = 1 })
      (0 ∷ 42 ∷ [])

-- A byte in from the latch's other side, where 7 waits.
abbrev both_ways : Handlers ℕ
both_ways q = record no_handler {
  outb_handler = some (λ port b params s. ok b);
  inb_handler = some (λ port params s. ok (7, s + 1));
}

abbrev in' : KvmExit
in' =
    exit_io (record { direction = exit_io_in; size = 1; port = 0x71; data_offset = 0 }) (0 ∷ 9 ∷ [])

no_act : MmioCall → ℕ → ℕ
no_act c s = s

out_in_halt-Effects :
    Effects both_ways no_act
      (out ∷ in' ∷ exit_hlt ∷ [])
      ([], 5)
      ((0 ∷ 42 ∷ []) ∷ (7 ∷ 9 ∷ []) ∷ [])
      ([], 43)
out_in_halt-Effects =
    then_exits {s' = ([], 42)} {p = (0 ∷ 42 ∷ []) ∷ []} (byte_out (omega arith) refl refl refl) (
      then_exits {s' = ([], 43)} {p = (7 ∷ 9 ∷ []) ∷ []} (byte_in (omega arith) refl refl refl)
        (then_exits {s' = ([], 43)} {p = []} halted no_exits))

vm_run-Effects_example :
    vm_run both_ways (call no_act) true (out ∷ in' ∷ exit_hlt ∷ exit_other 17 ∷ []) ([], 5)
    ≡ ok (0, (0 ∷ 42 ∷ []) ∷ (7 ∷ 9 ∷ []) ∷ [], ([], 43))
vm_run-Effects_example =
    vm_run-Effects both_ways no_act (out ∷ in' ∷ exit_hlt ∷ []) (exit_other 17) [] ([], 5) ([], 43)
      ((0 ∷ 42 ∷ []) ∷ (7 ∷ 9 ∷ []) ∷ []) out_in_halt-Effects unknown

vm_run-OnlyZero_example :
    OnlyZero latches no_call (vm_run latches no_call true (out ∷ run_failed ∷ []) ([], 5))
vm_run-OnlyZero_example = vm_run-OnlyZero latches no_call true (out ∷ run_failed ∷ []) ([], 5)

-- A machine with a megabyte of RAM and a device; the second region of RAM is refused.
abbrev granting : Host
granting = record {
  entry_memory = true;
  mmap_result = 0x7000;
  region_accepted = true;
  element_memory = true;
}

abbrev requests : List Request
requests =
    record { host = granting; phys_addr = 0; size = 0x100000; type = memory_usable }
    ∷ record { host = granting; phys_addr = 0xC0000000; size = 0x1000; type = memory_mmio }
    ∷ record {
      host = record granting { region_accepted = false };
      phys_addr = 0x200000;
      size = 0x1000;
      type = memory_usable;
    }
    ∷ []

lifetime-IsClean_example : Returns (IsClean (pos 3) (pos 4)) (lifetime (pos 3) (pos 4) requests)
lifetime-IsClean_example =
    lifetime-IsClean (pos 3) (pos 4) requests refl refl (refl, (refl, (refl, tt)))
