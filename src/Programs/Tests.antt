-- ===== src/Programs/Tests.antt =====
-- The theorems on the programs at hosts that grant everything, with a short image and a short binary.
use blackhv.Base.{
  ℕ, ◌≡◌, refl, inl, true, false, some, List, [], ◌∷◌, ◌++◌, map, arith, ◌==◌, replicate,
  length-replicate, Returns, pos,
}
use blackhv.Memory.{Host}
use blackhv.Mmio.{MmioRegion, MmioCall}
use blackhv.Serial.{Serial, SerialMemory}
use blackhv.Serial.Registers.{Carries}
use blackhv.Serial.Tests.{com1, host_queue, host_queue-IsFifo}
use blackhv.Atapi.Tests.{disk}
use blackhv.Screen.{Sdl}
use blackhv.Vm.Tests.{kvm, kvm-Accepts}
use blackhv.Vm.Run.{run_failed}
use blackhv.Vm.Exits.{failure}
use blackhv.Loader.Tests.{
  cleared, regs, header_table, one_header, entry_point, headers, elf, quiet_line,
}
use blackhv.Machine.{Devices}
use blackhv.Machine.Port.{out_byte}
use blackhv.Programs.{VmHost}
use blackhv.Programs.Granted.{GrantsSerial}
use blackhv.Programs.Ram.{Grants}
use blackhv.Programs.Workers.{worker1, worker1-take}
use blackhv.Programs.K.{KHost, Launched, launch, main}
use blackhv.Programs.K.Layout.{Layout}
use blackhv.Programs.K.Loads.{GrantsK}
use blackhv.Programs.K.Starts.{Started, k_launch-Started}
use blackhv.Programs.K.Ends.{Sent, EndsFailing, k_main-EndsFailing, k_main-Sent}

abbrev pub vm_host : VmHost
vm_host = record {
  fd = pos 3;
  vm_fd = pos 4;
  vm_memory = true;
  struct_memory = true;
  list_memory = true;
  kvm = kvm;
}

pub vm_host-Grants : Grants vm_host
vm_host-Grants = record {
  opened = refl;
  created = refl;
  vm_given = refl;
  struct_given = refl;
  list_given = refl;
  accepts = kvm-Accepts;
  sregs_read = refl;
  sregs_set = refl;
}

-- A host that maps at 0x7000.
abbrev pub ram_host : Host
ram_host = record {
  entry_memory = true;
  mmap_result = 0x7000;
  region_accepted = true;
  element_memory = true;
}

abbrev pub serial_memory : SerialMemory
serial_memory = record {
  struct_memory = true;
  guest_struct = true;
  guest_buffer = some (replicate 1024 0);
  host_struct = true;
  host_buffer = some (replicate 1024 0);
}

pub serial_memory-Grants : GrantsSerial serial_memory (replicate 1024 0) (replicate 1024 0)
serial_memory-Grants = record {
  serial = refl;
  guest_struct = refl;
  host_struct = refl;
  guest_buffer = refl;
  host_buffer = refl;
  guest_length = length-replicate {A = ℕ} 1024 0;
  host_length = length-replicate {A = ℕ} 1024 0;
}

abbrev pub sdl : Sdl
sdl = record { screen_memory = true; window = 1; renderer = 2; texture = 3 }

abbrev k_host : KHost
k_host = record {
  argc = 4;
  vm_host = vm_host;
  ram_host = ram_host;
  image_file = record {
    open_result = pos 5;
    fstat_fails = false;
    st_size = 7;
    mmap_result = 0x5000;
  };
  image = elf;
  cmdline = quiet_line;
  table_memory = true;
  entries_memory = true;
  get_regs = some regs;
  set_regs = true;
  serial_memory = serial_memory;
  serial_address = 9;
  disk_fd = pos 6;
  screen_host = ram_host;
  sdl = sdl;
}

k_host-GrantsK : GrantsK k_host regs (replicate 1024 0) (replicate 1024 0)
k_host-GrantsK = record {
  arguments = refl;
  vm = vm_host-Grants;
  memory = record {
    entry = refl;
    element = refl;
    region = refl;
    mapped = λ e. absurd (omega arith);
    within = omega arith;
  };
  file = record { opened = refl; measured = refl; mapped = λ e. absurd (omega arith) };
  table = refl;
  rows = refl;
  read = refl;
  written = refl;
  serial = serial_memory-Grants;
  screen = refl;
}

elf-Layout : Layout header_table 1 elf quiet_line headers
elf-Layout = record {
  short_line = omega arith;
  there = λ k less. (let first : (k == 0) ≡ true = ground arith in rw first refl);
  fits = λ k less on. record {
    in_file = omega arith;
    in_memory = omega arith;
    starts = omega arith;
    ends = omega arith;
    info = inl (omega arith);
    map = inl (omega arith);
    line = inl (omega arith);
  };
  apart = λ k k' less on on'. absurd (omega arith);
}

k_launch-Started_example :
    Returns
      (λ r.
        (l : Launched) × (r ≡ some l)
        × Started header_table one_header entry_point disk k_host regs headers cleared l)
      (launch header_table one_header entry_point disk k_host cleared)
k_launch-Started_example =
    k_launch-Started header_table one_header entry_point disk k_host regs (replicate 1024 0)
      (replicate 1024 0) headers cleared k_host-GrantsK elf-Layout

abbrev no_calls : MmioCall → List MmioRegion × Devices → List MmioRegion × Devices
no_calls c s = s

k_main-Sent_example : Returns (Sent (72 ∷ 105 ∷ [])) (
    main header_table one_header entry_point disk no_calls
      (map (out_byte (0 ∷ []) [] 0x3F8) (72 ∷ 105 ∷ []) ++ (run_failed ∷ []))
      k_host
      cleared)
k_main-Sent_example =
    k_main-Sent header_table one_header entry_point disk no_calls k_host regs (replicate 1024 0)
      (replicate 1024 0) headers cleared (0 ∷ []) [] (72 ∷ 105 ∷ []) run_failed [] k_host-GrantsK
      elf-Layout (λ e. absurd (omega arith)) (omega arith) failure

k_main-EndsFailing_example : EndsFailing (
    main header_table one_header entry_point disk no_calls
      (map (out_byte (0 ∷ []) [] 0x3F8) (72 ∷ 105 ∷ []) ++ (run_failed ∷ []))
      k_host
      cleared)
k_main-EndsFailing_example =
    k_main-EndsFailing header_table one_header entry_point disk no_calls
      (map (out_byte (0 ∷ []) [] 0x3F8) (72 ∷ 105 ∷ []) ++ (run_failed ∷ [])) k_host cleared

-- A port with the bytes 5 and 6 on both sides.
abbrev busy : Serial
busy = record com1 { guest_queue = some host_queue }

busy-Carries : Carries busy 4 (5 ∷ 6 ∷ []) (5 ∷ 6 ∷ [])
busy-Carries = record {
  guest = host_queue;
  host = host_queue;
  guest_at = refl;
  host_at = refl;
  guest_fifo = host_queue-IsFifo;
  host_fifo = host_queue-IsFifo;
  guest_size = refl;
  host_size = refl;
}

worker1-take_example :
    Returns
      (λ (printed, after).
        (printed ≡ 5 ∷ [])
        × ((serial' : Serial) × (after ≡ some serial') × Carries serial' 4 (6 ∷ []) (5 ∷ 6 ∷ [])))
      (worker1 1 (some busy) 0)
worker1-take_example = worker1-take 1 0 busy 4 (5 ∷ 6 ∷ []) (5 ∷ 6 ∷ []) busy-Carries
