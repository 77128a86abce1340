-- ===== src/Programs/Linux/Starts.antt =====
-- `main` of examples/linux/main.c up to the call of `vm_run`, where all that it asks for is granted.
use blackhv.Base.{
  ℕ, ◌+◌, ◌-◌, ◌^◌, ◌≤◌, ◌<◌, ◌≡◌, refl, ◌≢◌, inr, true, some, List, [], ◌∷◌, arith, ◌==◌, length,
  take, Returns-bind, Returns, returns,
}
use blackhv.Memory.Access.{Bytes, E820Entry}
use blackhv.Serial.Registers.{Carries}
use blackhv.Vm.{Vm}
use blackhv.Loader.{Regs, clear_and_copy}
use blackhv.Loader.Linux.{
  SetupHeader, boot_params_addr, kernel_addr, cmd_line, setup_size, load_linux,
}
use blackhv.Loader.Linux.Params.{Layout, Site, Booted, params_at, load_linux-Booted}
use blackhv.Machine.{serial_handler}
use blackhv.Programs.{gb_1, com1, init_vm, entries_of}
use blackhv.Programs.Granted.{GrantsFile, GrantsSerial, load_file-mapped, serial_new-granted}
use blackhv.Programs.Ram.{
  Grants, GrantsRam, ram, fresh_vm, init_vm-fresh_vm, give_memory-ram, memory_get_ptr-ram,
  in_region-ram,
}
use blackhv.Programs.Linux.{LinuxHost, Launched, load_mapped, start_serial, launch}

-- What the kernel and `malloc` grant, and the size of the file.
pub record GrantsLinux (host : LinuxHost) (regs : Regs) (g h : List ℕ) : Type 0 where
  pub arguments : host.argc ≡ 2
  pub vm : Grants host.vm_host
  pub memory : GrantsRam host.ram_host gb_1
  pub file : GrantsFile host.image_file
  pub size : host.image_file.st_size ≡ length host.image
  pub table : host.table_memory ≡ true
  pub rows : host.entries_memory ≡ true
  pub read : host.get_regs ≡ some regs
  pub written : host.set_regs ≡ true
  pub serial : GrantsSerial host.serial_memory g h

-- The parameters end below the command line, the command line below the kernel, and the kernel in
-- the gigabyte; the image has its parameters and its set-up.
pub record FitsLinux (boot_params_size : ℕ) (image : List ℕ) (hdr : SetupHeader) : Type 0 where
  pub has_params : boot_params_size ≤ length image
  pub has_setup : setup_size hdr.setup_sects ≤ length image
  pub has_line : length cmd_line ≤ hdr.cmdline_size
  pub params_end : boot_params_addr + boot_params_size ≤ 0x9DE00
  pub line_end : 0x9DE00 + hdr.cmdline_size ≤ kernel_addr
  pub kernel_end : kernel_addr + length image ≤ gb_1

-- The machine with its memory.
abbrev linux_vm : LinuxHost → Vm
linux_vm host = record (fresh_vm host.vm_host) {
  mem = some (record { memory_entries = ram host.ram_host.mmap_result gb_1 ∷ []; next_slot = 1 });
}

module _ (boot_params_size : ℕ) (get_header : Bytes → (boot_params : ℕ) → SetupHeader)
    (put_header : Bytes → (boot_params : ℕ) → SetupHeader → Bytes)
    (put_e820 : Bytes → (boot_params i : ℕ) → E820Entry → Bytes)
    (put_e820_entries : Bytes → (boot_params length : ℕ) → Bytes) where
  ram-Site :
      (p : ℕ) (image : List ℕ) (hdr : SetupHeader)
      → p ≢ 0
      → p + gb_1 < 2 ^ 64
      → FitsLinux boot_params_size image hdr
      → Site boot_params_size get_header put_header put_e820 put_e820_entries
          (ram p gb_1 ∷ [])
          image
          hdr
  ram-Site p image hdr mapped within f =
      let params_end = f.params_end in
      let line_end = f.line_end in
      let kernel_end = f.kernel_end in
      let params = memory_get_ptr-ram p gb_1 boot_params_addr (omega arith) within in
      let line = memory_get_ptr-ram p gb_1 0x9DE00 (omega arith) within in
      let kernel = memory_get_ptr-ram p gb_1 kernel_addr (omega arith) within in
      record {
        few = omega arith;
        small = omega arith;
        has_params = f.has_params;
        has_setup = f.has_setup;
        has_line = f.has_line;
        params_there = rw params (λ e. absurd (omega arith));
        line_there = rw line (λ e. absurd (omega arith));
        kernel_there = rw kernel (λ e. absurd (omega arith));
        params_within =
            in_region-ram p gb_1 boot_params_addr boot_params_size (omega arith) within
              (omega arith);
        line_within =
            in_region-ram p gb_1 0x9DE00 hdr.cmdline_size (omega arith) within (omega arith);
        kernel_within =
            in_region-ram p gb_1 kernel_addr (length image - setup_size hdr.setup_sects)
              (omega arith) within (omega arith);
        line_params = rw (line, params) (inr (omega arith));
        kernel_params = rw (kernel, params) (inr (omega arith));
        kernel_line = rw (kernel, line) (inr (omega arith));
      }

  -- The program when it calls `vm_run`.
  pub record Started (host : LinuxHost) (regs : Regs) (hdr : SetupHeader) (l : Launched)
      : Type 0 where
    pub bytes :
        Booted boot_params_size get_header put_header put_e820 put_e820_entries
          (ram host.ram_host.mmap_result gb_1 ∷ [])
          host.image
          hdr
          l.bytes
    pub registers : l.regs ≡ record regs { rsi = boot_params_addr; rip = hdr.code32_start }
    pub line : Carries l.devices.serial 1024 [] []
    pub port : l.devices.serial.port ≡ com1
    pub serial_ports : (i : ℕ) → i < 8 → l.handlers (com1 + i) ≡ serial_handler host.serial_address
    pub page : l.vm.kvm_run ≡ host.vm_host.kvm.mmap_result

  load_linux-granted :
      (host : LinuxHost) (regs : Regs) (g h : List ℕ) (m : Bytes)
      → GrantsLinux host regs g h
      → load_linux boot_params_size get_header put_header put_e820 put_e820_entries
          host.table_memory host.entries_memory
          (entries_of (linux_vm host))
          host.get_regs
          host.set_regs
          host.image
          host.image_file.st_size
          m
        ≡ load_linux boot_params_size get_header put_header put_e820 put_e820_entries true true
            (ram host.ram_host.mmap_result gb_1 ∷ [])
            (some regs)
            true
            host.image
            (length host.image)
            m
  load_linux-granted host regs g h m k = rw (k.table, k.rows, k.read, k.written, k.size) refl

  load_mapped-Booted :
      (host : LinuxHost) (regs : Regs) (g h : List ℕ) (hdr : SetupHeader) (m : Bytes)
      → GrantsLinux host regs g h
      → FitsLinux boot_params_size host.image hdr
      → Layout boot_params_size get_header put_header put_e820 put_e820_entries
      → (let b = params_at (ram host.ram_host.mmap_result gb_1 ∷ []) in
          get_header (clear_and_copy m b boot_params_size (take boot_params_size host.image)) b
          ≡ hdr)
      → Returns
          (λ r.
            (m' : Bytes) × (r
              ≡ some (record regs { rsi = boot_params_addr; rip = hdr.code32_start }, m'))
            × Booted boot_params_size get_header put_header put_e820 put_e820_entries
                (ram host.ram_host.mmap_result gb_1 ∷ [])
                host.image
                hdr
                m')
          (load_mapped boot_params_size get_header put_header put_e820 put_e820_entries host
            (linux_vm host)
            m)
  unfolding load_mapped
  load_mapped-Booted host regs g h hdr m k f lay is =
      rw (load_file-mapped host.image_file k.file, load_mapped)
        (rw (load_linux-granted host regs g h m k) (
          load_linux-Booted boot_params_size get_header put_header put_e820 put_e820_entries
            (ram host.ram_host.mmap_result gb_1 ∷ []) host.image hdr regs m lay
            (ram-Site host.ram_host.mmap_result host.image hdr k.memory.mapped k.memory.within f)
            is))

  -- Over any layout of the parameters whose header has fields of 8, 16 and 32 bits and is read as
  -- it was written, with all that is asked for granted, and an image that has its parameters and
  -- its set-up, whose parts end below each other and in the gigabyte of memory, `main` comes to
  -- `vm_run`: the kernel is at its address, the command line is padded with zeros, the header is
  -- the one of the image with the loader's fields set, the guest starts at its entry point with
  -- the address of the parameters, and the serial port is at its eight ports with empty queues.
  pub linux_launch-Started :
      (host : LinuxHost) (regs : Regs) (g h : List ℕ) (hdr : SetupHeader) (m : Bytes)
      → GrantsLinux host regs g h
      → FitsLinux boot_params_size host.image hdr
      → Layout boot_params_size get_header put_header put_e820 put_e820_entries
      → (let b = params_at (ram host.ram_host.mmap_result gb_1 ∷ []) in
          get_header (clear_and_copy m b boot_params_size (take boot_params_size host.image)) b
          ≡ hdr)
      → Returns
          (λ r. (l : Launched) × (r ≡ some l) × Started host regs hdr l)
          (launch boot_params_size get_header put_header put_e820 put_e820_entries host m)
  unfolding launch start_serial
  linux_launch-Started host regs g h hdr m k f lay is =
      let two : (host.argc == 2) ≡ true = rw k.arguments refl in
      let made : Returns (λ r. r ≡ some (fresh_vm host.vm_host)) (init_vm host.vm_host) =
        rw (init_vm-fresh_vm host.vm_host k.vm) (returns refl) in
      rw two (
        Returns-bind made λ r0 is0. rw is0 (
          rw (give_memory-ram host.ram_host (fresh_vm host.vm_host) gb_1 refl k.memory) (
            Returns-bind (load_mapped-Booted host regs g h hdr m k f lay is) λ r (m', is', booted).
              rw is' (
                Returns-bind
                  (serial_new-granted host.serial_memory (serial_handler host.serial_address) g h
                    k.serial)
                  λ (out, handlers) ((serial, there, same_port, carries), taken). rw there (
                    returns (
                      _,
                      refl,
                      record {
                        bytes = booted;
                        registers = refl;
                        line = carries;
                        port = same_port;
                        serial_ports = taken;
                        page = refl;
                      },
                    ))))))
