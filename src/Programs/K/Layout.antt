-- ===== src/Programs/K/Layout.antt =====
-- The image and the three places of `load_k` of examples/k/main.c in the gigabyte of memory that `main`
-- gives the guest, by guest addresses.
use blackhv.Base.{
  ℕ, ◌+◌, ◌-◌, ◌*◌, ◌^◌, ◌≤◌, ◌<◌, ◌≡◌, ◌≢◌, inl, inr, true, List, [], ◌∷◌, arith, length, Exec, ok,
}
use blackhv.Memory.{MemoryEntry}
use blackhv.Memory.Access.{memory_get_ptr}
use blackhv.Loader.Segments.{ProgramHeader, is_loaded}
use blackhv.Loader.K.{multiboot_guest, cmdline_guest, memory_guest, map_size, info_size}
use blackhv.Loader.K.Boots.{Disjoint}
use blackhv.Loader.K.Image.{Site, Clear, WellFormed}
use blackhv.Programs.{gb_1}
use blackhv.Programs.Ram.{ram, memory_get_ptr-ram, in_region-ram}

-- A loaded segment lies in the file and in memory, and clear of the three places.
pub record Fits (image cmdline : List ℕ) (ph : ProgramHeader) : Type 0 where
  pub in_file : ph.p_offset + ph.p_filesz ≤ length image
  pub in_memory : ph.p_filesz ≤ ph.p_memsz
  pub starts : ph.p_paddr < gb_1
  pub ends : ph.p_paddr + ph.p_memsz ≤ gb_1
  pub info : Disjoint ph.p_paddr ph.p_memsz multiboot_guest info_size
  pub map : Disjoint ph.p_paddr ph.p_memsz memory_guest map_size
  pub line : Disjoint ph.p_paddr ph.p_memsz cmdline_guest (length cmdline)

-- The image has its program headers, and the loaded ones fit and do not overlap.
pub record Layout (program_header : (image : List ℕ) → (i : ℕ) → Exec ProgramHeader) (n : ℕ)
    (image cmdline : List ℕ) (headers : ℕ → ProgramHeader) : Type 0 where
  pub short_line : length cmdline ≤ memory_guest - cmdline_guest
  pub there : (k : ℕ) → k < n → program_header image k ≡ ok (headers k)
  pub fits : (k : ℕ) → k < n → is_loaded (headers k) ≡ true → Fits image cmdline (headers k)
  pub apart :
      (k k' : ℕ)
      → (k < k') × (k' < n)
      → is_loaded (headers k) ≡ true
      → is_loaded (headers k') ≡ true
      → Disjoint (headers k).p_paddr (headers k).p_memsz (headers k').p_paddr (headers k').p_memsz

-- The gigabyte is mapped at `p`.
module _ (program_header : (image : List ℕ) → (i : ℕ) → Exec ProgramHeader)
    (e_phnum e_entry : (image : List ℕ) → ℕ) (image cmdline : List ℕ) (headers : ℕ → ProgramHeader)
    (p : ℕ) (mapped : p ≢ 0) (within : p + gb_1 < 2 ^ 64)
    (layout : Layout program_header (e_phnum image) image cmdline headers) where
  abbrev pub entries : List MemoryEntry
  entries = ram p gb_1 ∷ []

  ptr : (a : ℕ) → a < gb_1 → memory_get_ptr entries a ≡ p + a
  ptr a lt = memory_get_ptr-ram p gb_1 a lt within

  pub layout-Site : Site entries cmdline
  layout-Site =
      let info = ptr multiboot_guest (omega arith) in
      let map = ptr memory_guest (omega arith) in
      let line = ptr cmdline_guest (omega arith) in
      let short = layout.short_line in
      record {
        few = omega arith;
        info_there = rw info (λ e. absurd (omega arith));
        map_there = rw map (λ e. absurd (omega arith));
        line_there = rw line (λ e. absurd (omega arith));
        info_within =
            in_region-ram p gb_1 multiboot_guest info_size (omega arith) within (omega arith);
        map_within =
            in_region-ram p gb_1 memory_guest (length entries * map_size) (omega arith) within
              (omega arith);
        line_within =
            in_region-ram p gb_1 cmdline_guest (length cmdline) (omega arith) within (omega arith);
        info_map = rw (info, map) (inl (omega arith));
        line_info = rw (line, info) (inr (omega arith));
        line_map = rw (line, map) (inl (omega arith));
      }

  layout-Clear :
      (k : ℕ) → k < e_phnum image → is_loaded (headers k) ≡ true → Clear entries cmdline (headers k)
  layout-Clear k lt on =
      let f = layout.fits k lt on in
      let at = ptr (headers k).p_paddr f.starts in
      let info = ptr multiboot_guest (omega arith) in
      let map = ptr memory_guest (omega arith) in
      let line = ptr cmdline_guest (omega arith) in
      record {
        info = rw (at, info) (ground (arith, f.info));
        map = rw (at, map) (ground (arith, f.map));
        line = rw (at, line) (ground (arith, f.line));
      }

  pub layout-WellFormed : WellFormed program_header e_phnum e_entry entries image cmdline headers
  layout-WellFormed = record {
    there = layout.there;
    loadable = λ k lt on.
        let f = layout.fits k lt on in
        record {
          address = rw (ptr (headers k).p_paddr f.starts) (λ e. absurd (omega arith));
          within =
              in_region-ram p gb_1 (headers k).p_paddr (headers k).p_memsz f.starts within f.ends;
          in_file = f.in_file;
          fits = f.in_memory;
        };
    clear = layout-Clear;
    apart = λ k k' lt on on'.
        let at = ptr (headers k).p_paddr (layout.fits k (omega arith) on).starts in
        let at' = ptr (headers k').p_paddr (layout.fits k' (omega arith) on').starts in
        rw (at, at') (ground (arith, layout.apart k k' lt on on'));
  }
