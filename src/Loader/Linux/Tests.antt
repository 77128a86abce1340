-- ===== src/Loader/Linux/Tests.antt =====
-- `load_linux` at a layout of `struct boot_params` whose fields have their widths, one behind the other.
use blackhv.Base.{
  ℕ, zero, suc, ◌+◌, ◌-◌, ◌*◌, ◌/◌, ◌%◌, ◌^◌, ◌≤◌, ◌<◌, ◌≡◌, refl, ◌∙◌, inr, true, ◌&&◌, some, List,
  [], ◌∷◌, ◌++◌, arith, ltb, leb, ◌==◌, if◌then◌else◌, length, take, replicate, length-replicate,
  Returns,
}
use blackhv.Memory.{MemoryEntry, find_entry, memory_usable}
use blackhv.Memory.Access.{Bytes, poke, E820Entry, memory_get_ptr}
use blackhv.Loader.{in_region, Regs, store, clear_and_copy}
use blackhv.Loader.Linux.{HasWidths, SetupHeader, load_linux}
use blackhv.Loader.Linux.Params.{Layout, Site, Booted, params_at, load_linux-Booted}

-- One gigabyte from the guest's address 0 on, at 0x7000 in the host.
abbrev gigabyte : List MemoryEntry
gigabyte =
    record { memory_ptr = 0x7000; guest_phys = 0; size = 2 ^ 30; slot = 0; type = memory_usable }
    ∷ []

gigabyte_at : (a : ℕ) → a < 2 ^ 30 → memory_get_ptr gigabyte a ≡ 0x7000 + a
unfolding memory_get_ptr find_entry
gigabyte_at a small = ground arith

-- Words of 16 and 32 bits from their bytes, the lowest first.
abbrev word : (a b : ℕ) → ℕ
word a b = a % 256 + 256 * (b % 256)

abbrev double_word : (a b c d : ℕ) → ℕ
double_word a b c d = a % 256 + 256 * (b % 256) + 65536 * (c % 256) + 16777216 * (d % 256)

-- A header from its bytes.
abbrev header_of : (ℕ → ℕ) → SetupHeader
header_of f = record {
  setup_sects = f 0 % 256;
  vid_mode = word (f 1) (f 2);
  type_of_loader = f 3 % 256;
  loadflags = f 4 % 256;
  code32_start = double_word (f 5) (f 6) (f 7) (f 8);
  ramdisk_image = double_word (f 9) (f 10) (f 11) (f 12);
  ramdisk_size = double_word (f 13) (f 14) (f 15) (f 16);
  heap_end_ptr = word (f 17) (f 18);
  ext_loader_ver = f 19 % 256;
  ext_loader_type = f 20 % 256;
  cmd_line_ptr = double_word (f 21) (f 22) (f 23) (f 24);
  cmdline_size = double_word (f 25) (f 26) (f 27) (f 28);
}

abbrev pub read_fields : Bytes → (b : ℕ) → SetupHeader
read_fields m b = header_of (λ k. m (b + k))

header_of-same : (f g : ℕ → ℕ) → ((k : ℕ) → k < 29 → f k ≡ g k) → header_of f ≡ header_of g
header_of-same f g same =
    rw
      (
        same 0 (omega arith),
        same 1 (omega arith),
        same 2 (omega arith),
        same 3 (omega arith),
        same 4 (omega arith),
        same 5 (omega arith),
        same 6 (omega arith),
        same 7 (omega arith),
        same 8 (omega arith),
        same 9 (omega arith),
        same 10 (omega arith),
        same 11 (omega arith),
        same 12 (omega arith),
        same 13 (omega arith),
        same 14 (omega arith),
        same 15 (omega arith),
        same 16 (omega arith),
        same 17 (omega arith),
        same 18 (omega arith),
        same 19 (omega arith),
        same 20 (omega arith),
        same 21 (omega arith),
        same 22 (omega arith),
        same 23 (omega arith),
        same 24 (omega arith),
        same 25 (omega arith),
        same 26 (omega arith),
        same 27 (omega arith),
        same 28 (omega arith),
      )
      refl

abbrev bytes_of : SetupHeader → List ℕ
bytes_of h =
    h.setup_sects % 256
    ∷ h.vid_mode % 256
    ∷ h.vid_mode / 2 ^ 8 % 256
    ∷ h.type_of_loader % 256
    ∷ h.loadflags % 256
    ∷ h.code32_start % 256
    ∷ h.code32_start / 2 ^ 8 % 256
    ∷ h.code32_start / 2 ^ 16 % 256
    ∷ h.code32_start / 2 ^ 24 % 256
    ∷ h.ramdisk_image % 256
    ∷ h.ramdisk_image / 2 ^ 8 % 256
    ∷ h.ramdisk_image / 2 ^ 16 % 256
    ∷ h.ramdisk_image / 2 ^ 24 % 256
    ∷ h.ramdisk_size % 256
    ∷ h.ramdisk_size / 2 ^ 8 % 256
    ∷ h.ramdisk_size / 2 ^ 16 % 256
    ∷ h.ramdisk_size / 2 ^ 24 % 256
    ∷ h.heap_end_ptr % 256
    ∷ h.heap_end_ptr / 2 ^ 8 % 256
    ∷ h.ext_loader_ver % 256
    ∷ h.ext_loader_type % 256
    ∷ h.cmd_line_ptr % 256
    ∷ h.cmd_line_ptr / 2 ^ 8 % 256
    ∷ h.cmd_line_ptr / 2 ^ 16 % 256
    ∷ h.cmd_line_ptr / 2 ^ 24 % 256
    ∷ h.cmdline_size % 256
    ∷ h.cmdline_size / 2 ^ 8 % 256
    ∷ h.cmdline_size / 2 ^ 16 % 256
    ∷ h.cmdline_size / 2 ^ 24 % 256
    ∷ []

abbrev byte_at : List ℕ → ℕ → ℕ
byte_at [] k = 0
byte_at (x ∷ xs) zero = x
byte_at (x ∷ xs) (suc k) = byte_at xs k

-- Two headers of the same fields.
header_ext :
    (a b : SetupHeader)
    → a.setup_sects ≡ b.setup_sects
    → a.vid_mode ≡ b.vid_mode
    → a.type_of_loader ≡ b.type_of_loader
    → a.loadflags ≡ b.loadflags
    → a.code32_start ≡ b.code32_start
    → a.ramdisk_image ≡ b.ramdisk_image
    → a.ramdisk_size ≡ b.ramdisk_size
    → a.heap_end_ptr ≡ b.heap_end_ptr
    → a.ext_loader_ver ≡ b.ext_loader_ver
    → a.ext_loader_type ≡ b.ext_loader_type
    → a.cmd_line_ptr ≡ b.cmd_line_ptr
    → a.cmdline_size ≡ b.cmdline_size
    → a ≡ b
header_ext a b e0 e1 e2 e3 e4 e5 e6 e7 e8 e9 e10 e11 = λ i. record {
  setup_sects = e0 i;
  vid_mode = e1 i;
  type_of_loader = e2 i;
  loadflags = e3 i;
  code32_start = e4 i;
  ramdisk_image = e5 i;
  ramdisk_size = e6 i;
  heap_end_ptr = e7 i;
  ext_loader_ver = e8 i;
  ext_loader_type = e9 i;
  cmd_line_ptr = e10 i;
  cmdline_size = e11 i;
}

decoded : (h : SetupHeader) → HasWidths h → header_of (byte_at (bytes_of h)) ≡ h
decoded h w =
    header_ext (header_of (byte_at (bytes_of h))) h (omega (arith, w.setup_sects))
      (omega (arith, w.vid_mode)) (omega (arith, w.type_of_loader)) (omega (arith, w.loadflags))
      (omega (arith, w.code32_start)) (omega (arith, w.ramdisk_image))
      (omega (arith, w.ramdisk_size)) (omega (arith, w.heap_end_ptr))
      (omega (arith, w.ext_loader_ver)) (omega (arith, w.ext_loader_type))
      (omega (arith, w.cmd_line_ptr)) (omega (arith, w.cmdline_size))

header_of-HasWidths : (f : ℕ → ℕ) → HasWidths (header_of f)
header_of-HasWidths f = record {
  setup_sects = omega arith;
  vid_mode = omega arith;
  type_of_loader = omega arith;
  loadflags = omega arith;
  code32_start = omega arith;
  ramdisk_image = omega arith;
  ramdisk_size = omega arith;
  heap_end_ptr = omega arith;
  ext_loader_ver = omega arith;
  ext_loader_type = omega arith;
  cmd_line_ptr = omega arith;
  cmdline_size = omega arith;
}

abbrev pub write_fields : Bytes → (b : ℕ) → SetupHeader → Bytes
write_fields m b h c = if leb b c && ltb c (b + 29) then byte_at (bytes_of h) (c - b) else m c

abbrev pub write_row : Bytes → (b i : ℕ) → E820Entry → Bytes
write_row m b i r = poke m (b + 30 + i) (r.type % 256)

abbrev pub write_count : Bytes → (b n : ℕ) → Bytes
write_count m b n = poke m (b + 29) (n % 256)

field_at :
    (m : Bytes) (b k : ℕ) (h : SetupHeader)
    → k < 29
    → write_fields m b h (b + k) ≡ byte_at (bytes_of h) k
field_at m b k h small =
    let inside : (leb b (b + k) && ltb (b + k) (b + 29)) ≡ true = ground arith in
    let offset : b + k - b ≡ k = omega arith in rw (inside, offset) refl

-- A poke behind the header does not change it.
behind : (m : Bytes) (b a v : ℕ) → b + 29 ≤ a → read_fields (poke m a v) b ≡ read_fields m b
unfolding poke
behind m b a v later =
    header_of-same (λ k. poke m a v (b + k)) (λ k. m (b + k)) (λ k small. ground arith)

pub bytes-Layout : Layout 32 read_fields write_fields write_row write_count
bytes-Layout = record {
  get_put = λ m b h w.
      header_of-same (λ k. write_fields m b h (b + k)) (byte_at (bytes_of h))
        (λ k small. field_at m b k h small)
      ∙ decoded h w;
  widths = λ m b. header_of-HasWidths (λ k. m (b + k));
  get_e820 = λ m b i r. behind m b (b + 30 + i) (r.type % 256) (omega arith);
  get_entries = λ m b n. behind m b (b + 29) (n % 256) (omega arith);
  within = λ m m' b same.
      header_of-same (λ k. m' (b + k)) (λ k. m (b + k)) (λ k small. same (b + k) (omega arith));
}

-- An image whose fields are 0 but for the entry point, 9, and the size of the command line, 20.
abbrev pub bzimage : List ℕ
bzimage =
    (0 ∷ 0 ∷ 0 ∷ 0 ∷ 0 ∷ 9 ∷ 0 ∷ 0 ∷ 0 ∷ 0 ∷ 0 ∷ 0 ∷ 0 ∷ 0 ∷ 0 ∷ 0 ∷ 0 ∷ 0 ∷ 0 ∷ 0 ∷ 0 ∷ 0 ∷ 0 ∷ 0
      ∷ 0 ∷ 20 ∷ 0 ∷ 0 ∷ 0 ∷ [])
    ++ replicate 2600 7

abbrev pub image_header : SetupHeader
image_header = header_of (λ k. if k == 5 then 9 else if k == 25 then 20 else 0)

abbrev pub cleared : Bytes
cleared a = 0

abbrev pub registers : Regs
registers = record { rax = 0; rbx = 0; rsi = 0; rip = 0 }

gigabyte_in : (a n : ℕ) → a < 2 ^ 30 → a + n ≤ 2 ^ 30 → in_region gigabyte a n ≡ true
unfolding in_region find_entry
gigabyte_in a n small ends = ground arith

bzimage-Site : Site 32 read_fields write_fields write_row write_count gigabyte bzimage image_header
bzimage-Site =
    let params = gigabyte_at 0x10000 (omega arith) in
    let line = gigabyte_at 0x9DE00 (omega arith) in
    let kernel = gigabyte_at 0x100000 (omega arith) in
    let size = length-replicate {A = ℕ} 2600 7 in
    record {
      few = omega arith;
      small = omega arith;
      has_params = omega arith;
      has_setup = omega arith;
      has_line = omega arith;
      params_there = λ none_there. omega arith;
      line_there = λ none_there. omega arith;
      kernel_there = λ none_there. omega arith;
      params_within = gigabyte_in 0x10000 32 (omega arith) (omega arith);
      line_within = gigabyte_in 0x9DE00 20 (omega arith) (omega arith);
      kernel_within = gigabyte_in 0x100000 (length bzimage - 2560) (omega arith) (omega arith);
      line_params = inr (omega arith);
      kernel_params = inr (omega arith);
      kernel_line = inr (omega arith);
    }

pub bzimage_header :
    read_fields
      (clear_and_copy cleared (params_at gigabyte) 32 (take 32 bzimage))
      (params_at gigabyte)
    ≡ image_header
unfolding clear_and_copy store poke memory_get_ptr find_entry
bzimage_header = refl

load_linux-Booted_example :
    Returns
      (λ r.
        (m' : Bytes) × (r ≡ some (record registers { rsi = 0x10000; rip = 9 }, m'))
        × Booted 32 read_fields write_fields write_row write_count gigabyte bzimage image_header m')
      (load_linux 32 read_fields write_fields write_row write_count true true gigabyte
        (some registers)
        true
        bzimage
        (length bzimage)
        cleared)
load_linux-Booted_example =
    load_linux-Booted 32 read_fields write_fields write_row write_count gigabyte bzimage
      image_header registers cleared bytes-Layout bzimage-Site bzimage_header
