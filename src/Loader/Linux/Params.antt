-- ===== src/Loader/Linux/Params.antt =====
-- `load_linux` of examples/linux/main.c as a whole, over any layout of `struct boot_params`.
use blackhv.Base.{
  ℕ, zero, suc, ◌+◌, ◌-◌, ◌^◌, ◌≤◌, ◌<◌, ◌≡◌, refl, ◌∙◌, ◌≢◌, true, false, some, List, ◌++◌, arith,
  leb, ◌==◌, length, take, drop, replicate, length-drop, get_elem?-some, Returns-mono, Returns-bind,
  Returns, returns,
}
use blackhv.Memory.{MemoryEntry}
use blackhv.Memory.Access.{Bytes, E820Entry, memory_get_ptr, e820_table_get}
use blackhv.Memory.Table.{e820_table_get-DescribeAll}
use blackhv.Memory.Transfer.{peek, Stored}
use blackhv.Loader.{
  in_region, in_region-less, source_bytes, Regs, peek-kept, clear_and_copy, clear_and_copy-peek,
}
use blackhv.Loader.K.Boots.{Disjoint, DescribeAll-length}
use blackhv.Loader.Linux.{
  kernel_addr, HasWidths, boot_params_addr, cmd_line, setup_size, SetupHeader, set_setup_header,
  start_linux, fill_e820, setup_e820, load_kernel, load_linux,
}
use blackhv.Loader.Linux.Kernel.{kernel_at, load_image_into_memory-Stored}

abbrev pub params_at : List MemoryEntry → ℕ
params_at entries = memory_get_ptr entries boot_params_addr

-- `REAL_MODE_ADDR + heap_end_ptr`.
abbrev pub line_at : List MemoryEntry → ℕ
line_at entries = memory_get_ptr entries 0x9DE00

set_setup_header-HasWidths : (h : SetupHeader) → HasWidths h → HasWidths (set_setup_header h)
unfolding set_setup_header
set_setup_header-HasWidths h w = record {
  setup_sects = w.setup_sects;
  vid_mode = omega arith;
  type_of_loader = omega arith;
  loadflags = omega arith;
  code32_start = w.code32_start;
  ramdisk_image = omega arith;
  ramdisk_size = omega arith;
  heap_end_ptr = omega arith;
  ext_loader_ver = omega arith;
  ext_loader_type = omega arith;
  cmd_line_ptr = omega arith;
  cmdline_size = w.cmdline_size;
}

module _ (boot_params_size : ℕ) (get_header : Bytes → (boot_params : ℕ) → SetupHeader)
    (put_header : Bytes → (boot_params : ℕ) → SetupHeader → Bytes)
    (put_e820 : Bytes → (boot_params i : ℕ) → E820Entry → Bytes)
    (put_e820_entries : Bytes → (boot_params length : ℕ) → Bytes) where
  -- The fields of a struct: they have their widths, the header is read as it was written, the table is no part of it, and
  -- the struct is in its own bytes.
  pub record Layout : Type 0 where
    pub get_put :
        (m : Bytes) (b : ℕ) (h : SetupHeader) → HasWidths h → get_header (put_header m b h) b ≡ h
    pub widths : (m : Bytes) (b : ℕ) → HasWidths (get_header m b)
    pub get_e820 :
        (m : Bytes) (b i : ℕ) (r : E820Entry) → get_header (put_e820 m b i r) b ≡ get_header m b
    pub get_entries : (m : Bytes) (b n : ℕ) → get_header (put_e820_entries m b n) b ≡ get_header m b
    pub within :
        (m m' : Bytes) (b : ℕ)
        → ((c : ℕ) → (b ≤ c) × (c < b + boot_params_size) → m' c ≡ m c)
        → get_header m' b ≡ get_header m b

  fill_e820-header :
      (rows : List E820Entry) (n i b : ℕ) (m : Bytes)
      → Layout
      → i + n ≡ length rows
      → Returns
          (λ m'. get_header m' b ≡ get_header m b)
          (fill_e820 boot_params_size get_header put_header put_e820 put_e820_entries rows n i b m)
  unfolding fill_e820
  fill_e820-header rows zero i b m lay size = returns refl
  fill_e820-header rows (suc n) i b m lay size =
      let (r, at) = get_elem?-some rows i (omega arith) in
      rw at (
        Returns-mono (fill_e820-header rows n (i + 1) b (put_e820 m b i r) lay (omega arith))
          λ m' same. same ∙ lay.get_e820 m b i r)

  setup_e820-header :
      (entries : List MemoryEntry) (b : ℕ) (m : Bytes)
      → Layout
      → length entries < 2 ^ 32
      → Returns
          (λ r. (m' : Bytes) × (r ≡ some m') × (get_header m' b ≡ get_header m b))
          (setup_e820 boot_params_size get_header put_header put_e820 put_e820_entries
            (e820_table_get true true entries)
            b
            m)
  unfolding setup_e820
  setup_e820-header entries b m lay small =
      let (rows, table, d) = e820_table_get-DescribeAll entries small in
      let n : length rows ≡ length entries = DescribeAll-length entries rows d in
      rw table (
        Returns-bind (fill_e820-header rows (length entries) 0 b m lay (omega arith))
          λ m1 same. returns (_, refl, lay.get_entries m1 b (length entries) ∙ same))

  -- The places of the parameters, the command line and the kernel: usable memory, apart from each other.
  pub record Site (entries : List MemoryEntry) (image : List ℕ) (h : SetupHeader) : Type 0 where
    pub few : length entries < 2 ^ 32
    pub small : length image < 2 ^ 64
    pub has_params : boot_params_size ≤ length image
    pub has_setup : setup_size h.setup_sects ≤ length image
    pub has_line : length cmd_line ≤ h.cmdline_size
    pub params_there : params_at entries ≢ 0
    pub line_there : line_at entries ≢ 0
    pub kernel_there : kernel_at entries ≢ 0
    pub params_within : in_region entries boot_params_addr boot_params_size ≡ true
    pub line_within : in_region entries 0x9DE00 h.cmdline_size ≡ true
    pub kernel_within :
        in_region entries kernel_addr (length image - setup_size h.setup_sects) ≡ true
    pub line_params : Disjoint (line_at entries) h.cmdline_size (params_at entries) boot_params_size
    pub kernel_params :
        Disjoint
          (kernel_at entries)
          (length image - setup_size h.setup_sects)
          (params_at entries)
          boot_params_size
    pub kernel_line :
        Disjoint
          (kernel_at entries)
          (length image - setup_size h.setup_sects)
          (line_at entries)
          h.cmdline_size

  -- The kernel, the command line padded with zeros, and the header with its fields set.
  pub record Booted (entries : List MemoryEntry) (image : List ℕ) (h : SetupHeader) (m' : Bytes)
      : Type 0 where
    pub kernel :
        peek m' (kernel_at entries) (length (drop (setup_size h.setup_sects) image))
        ≡ drop (setup_size h.setup_sects) image
    pub line :
        peek m' (line_at entries) h.cmdline_size
        ≡ cmd_line ++ replicate (h.cmdline_size - length cmd_line) 0
    pub header : get_header m' (params_at entries) ≡ set_setup_header h

  -- The command line and the kernel are clear of the parameters and of each other.
  places-Booted :
      (entries : List MemoryEntry) (image : List ℕ) (h : SetupHeader) (m m' : Bytes)
      → Layout
      → Site entries image h
      → get_header m (params_at entries) ≡ set_setup_header h
      → Stored
          (clear_and_copy m (line_at entries) h.cmdline_size cmd_line)
          (kernel_at entries)
          (drop (setup_size h.setup_sects) image)
          m'
      → Booted entries image h m'
  places-Booted entries image h m m' lay site hdr (held, same) =
      let m1 : Bytes = clear_and_copy m (line_at entries) h.cmdline_size cmd_line in
      let (line, off) =
        clear_and_copy-peek m (line_at entries) h.cmdline_size cmd_line site.has_line in
      let rest : length (drop (setup_size h.setup_sects) image)
          ≡ length image - setup_size h.setup_sects =
        length-drop (setup_size h.setup_sects) image in
      record {
        kernel = held;
        line =
            peek-kept m1 m' (line_at entries) h.cmdline_size
              (λ c at. same c (ground (arith, rest, site.kernel_line)))
            ∙ line;
        header =
            lay.within m1 m' (params_at entries)
              (λ c at. same c (ground (arith, rest, site.kernel_params)))
            ∙ (lay.within m m1 (params_at entries)
                  (λ c at. off c (ground (arith, site.line_params)))
                ∙ hdr);
      }

  load_kernel-Booted :
      (entries : List MemoryEntry) (image : List ℕ) (h : SetupHeader) (m : Bytes)
      → Layout
      → Site entries image h
      → get_header m (params_at entries) ≡ set_setup_header h
      → Returns
          (λ r. (m' : Bytes) × (r ≡ some m') × Booted entries image h m')
          (load_kernel boot_params_size get_header put_header put_e820 put_e820_entries entries
            (params_at entries)
            image
            (length image)
            m)
  unfolding load_kernel set_setup_header
  load_kernel-Booted entries image h m lay site hdr =
      let found : (memory_get_ptr entries 0x9DE00 == 0) ≡ false = ground (arith, site.line_there) in
      let m1 : Bytes = clear_and_copy m (line_at entries) h.cmdline_size cmd_line in
      let (line, off) =
        clear_and_copy-peek m (line_at entries) h.cmdline_size cmd_line site.has_line in
      let hdr1 : get_header m1 (params_at entries) ≡ set_setup_header h =
        lay.within m m1 (params_at entries) (λ c at. off c (ground (arith, site.line_params)))
        ∙ hdr in
      let in_line = site.line_within in
      let in_text =
        in_region-less entries 0x9DE00 h.cmdline_size (length cmd_line) site.has_line
          site.line_within in
      rw (hdr, found, in_line, in_text, hdr1)
        (Returns-mono
          (load_image_into_memory-Stored entries h.setup_sects image m1 site.kernel_there site.small
            site.has_setup site.kernel_within)
          λ r (m', is, st). (m', is, places-Booted entries image h m m' lay site hdr st))

  -- Over any layout of the parameters whose header is read as it was written, with room for the
  -- parameters, the command line and the kernel, apart from each other, an image that has its
  -- set-up, and registers that can be read and set, `load_linux` returns: the kernel is at its
  -- address, the command line is padded with zeros, the header is the one of the image with the
  -- fields of the loader set, and the guest starts at the entry point of the header with the
  -- address of the parameters.
  pub load_linux-Booted :
      (entries : List MemoryEntry) (image : List ℕ) (h : SetupHeader) (regs : Regs) (m : Bytes)
      → Layout
      → Site entries image h
      → get_header
          (clear_and_copy m (params_at entries) boot_params_size (take boot_params_size image))
          (params_at entries)
        ≡ h
      → Returns
          (λ r.
            (m' : Bytes) × (r
              ≡ some (record regs { rsi = boot_params_addr; rip = h.code32_start }, m'))
            × Booted entries image h m')
          (load_linux boot_params_size get_header put_header put_e820 put_e820_entries true true
            entries
            (some regs)
            true
            image
            (length image)
            m)
  unfolding load_linux start_linux source_bytes set_setup_header
  load_linux-Booted entries image h regs m lay site hdr =
      let found : (memory_get_ptr entries boot_params_addr == 0) ≡ false =
        ground (arith, site.params_there) in
      let inside : leb (0 + boot_params_size) (length image) ≡ true =
        ground (arith, site.has_params) in
      let b : ℕ = params_at entries in
      let m1 : Bytes = clear_and_copy m b boot_params_size (take boot_params_size image) in
      let m2 : Bytes = put_header m1 b (set_setup_header h) in
      let in_params = site.params_within in
      let w : HasWidths h = rw hdr at (lay.widths m1 b) in
      rw (found, in_params, inside, hdr)
        (Returns-bind (setup_e820-header entries b m2 lay site.few) λ r (m3, is, same). rw is (
          Returns-bind
            (load_kernel-Booted entries image h m3 lay site
              (same ∙ lay.get_put m1 b (set_setup_header h) (set_setup_header-HasWidths h w)))
            λ r' (m4, is', booted). rw (is', booted.header) (returns (m4, refl, booted))))
