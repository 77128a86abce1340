-- ===== src/Programs/Linux/Tests.antt =====
-- The theorem on examples/linux/main.c at a host that grants everything and a short image.
use blackhv.Base.{
  ℕ, ◌≡◌, refl, true, false, some, arith, length, replicate, length-replicate, Returns, pos,
}
use blackhv.Loader.Linux.Tests.{
  read_fields, write_fields, write_row, write_count, bytes-Layout, bzimage, image_header,
  bzimage_header, registers, cleared,
}
use blackhv.Programs.Linux.{LinuxHost, Launched, launch}
use blackhv.Programs.Linux.Starts.{GrantsLinux, FitsLinux, Started, linux_launch-Started}
use blackhv.Programs.Tests.{vm_host, vm_host-Grants, ram_host, serial_memory, serial_memory-Grants}

abbrev linux_host : LinuxHost
linux_host = record {
  argc = 2;
  vm_host = vm_host;
  ram_host = ram_host;
  image_file = record {
    open_result = pos 5;
    fstat_fails = false;
    st_size = length bzimage;
    mmap_result = 0x5000;
  };
  image = bzimage;
  table_memory = true;
  entries_memory = true;
  get_regs = some registers;
  set_regs = true;
  serial_memory = serial_memory;
  serial_address = 9;
}

linux_host-GrantsLinux : GrantsLinux linux_host registers (replicate 1024 0) (replicate 1024 0)
linux_host-GrantsLinux = record {
  arguments = refl;
  vm = vm_host-Grants;
  memory = record {
    entry = refl;
    element = refl;
    region = refl;
    mapped = λ e. absurd (omega arith);
    within = omega arith;
  };
  file = record { opened = refl; measured = refl; mapped = λ e. absurd (omega arith) };
  size = refl;
  table = refl;
  rows = refl;
  read = refl;
  written = refl;
  serial = serial_memory-Grants;
}

bzimage-FitsLinux : FitsLinux 32 bzimage image_header
bzimage-FitsLinux =
    let size = length-replicate {A = ℕ} 2600 7 in
    record {
      has_params = omega arith;
      has_setup = omega arith;
      has_line = omega arith;
      params_end = omega arith;
      line_end = omega arith;
      kernel_end = omega arith;
    }

linux_launch-Started_example :
    Returns
      (λ r.
        (l : Launched) × (r ≡ some l)
        × Started 32 read_fields write_fields write_row write_count linux_host registers
            image_header l)
      (launch 32 read_fields write_fields write_row write_count linux_host cleared)
linux_launch-Started_example =
    linux_launch-Started 32 read_fields write_fields write_row write_count linux_host registers
      (replicate 1024 0) (replicate 1024 0) image_header cleared linux_host-GrantsLinux
      bzimage-FitsLinux bytes-Layout bzimage_header
