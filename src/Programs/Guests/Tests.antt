-- ===== src/Programs/Guests/Tests.antt =====
-- The theorem on examples/guests/main.c at a host that grants everything and a short binary.
use blackhv.Base.{◌≡◌, refl, true, some, [], ◌∷◌, arith, replicate, Returns, pos}
use blackhv.Vm.Regs.{KvmRegs}
use blackhv.Loader.Tests.{cleared}
use blackhv.Programs.Guests
use blackhv.Programs.Guests.{GuestsHost}
use blackhv.Programs.Guests.Starts.{GrantsGuests, guests_launch-Started}
use blackhv.Programs.Tests.{
  vm_host, vm_host-Grants, ram_host, serial_memory, serial_memory-Grants, sdl,
}

-- The binary is three bytes in two chunks.
abbrev cpu : KvmRegs
cpu = record {
  rax = 0;
  rbx = 0;
  rcx = 0;
  rdx = 1;
  rsi = 0;
  rsp = 0;
  r8 = 0;
  r9 = 0;
  r10 = 0;
  r11 = 0;
  r12 = 0;
  r13 = 0;
  r14 = 0;
  r15 = 0;
  rip = 0xFFF0;
  rflags = 2;
}

abbrev guests_host : GuestsHost
guests_host = record {
  argc = 2;
  open_result = pos 7;
  vm_host = vm_host;
  ram_host = ram_host;
  chunks = (1 ∷ 2 ∷ []) ∷ (3 ∷ []) ∷ [];
  handler = 0x4000;
  mmio_host = ram_host;
  get_result = pos 0;
  unset = cpu;
  cpu = cpu;
  set_result = pos 0;
  serial_memory = serial_memory;
  serial_address = 9;
  table_memory = true;
  entries_memory = true;
  screen_host = ram_host;
  sdl = sdl;
}

guests_host-GrantsGuests : GrantsGuests guests_host (replicate 1024 0) (replicate 1024 0)
guests_host-GrantsGuests = record {
  arguments = refl;
  opened = refl;
  vm = vm_host-Grants;
  memory = record {
    entry = refl;
    element = refl;
    region = refl;
    mapped = λ e. absurd (omega arith);
    within = omega arith;
  };
  fits = omega arith;
  region_entry = refl;
  region_element = refl;
  read = refl;
  written = refl;
  serial = serial_memory-Grants;
  table = refl;
  rows = refl;
  screen = refl;
}

guests_launch-Started_example :
    Returns
      (λ r. (l : Guests.Launched) × (r ≡ some l) × Guests.Starts.Started guests_host cleared l)
      (Guests.launch guests_host cleared)
guests_launch-Started_example =
    guests_launch-Started guests_host (replicate 1024 0) (replicate 1024 0) cleared
      guests_host-GrantsGuests
