-- ===== src/Loader/K/Image.antt =====
-- `load_k` of examples/k/main.c as a whole: what it leaves in memory and in the registers.
use blackhv.Base.{
  ℕ, ◌+◌, ◌*◌, ◌^◌, ◌≤◌, ◌<◌, ◌≡◌, refl, ◌∙◌, ◌≢◌, ◌⊎◌, inl, inr, true, false, some, List, arith,
  ◌==◌, length, set, replicate, Returns-mono, Returns-bind, Exec, Returns, ok, returns,
}
use blackhv.Memory.{MemoryEntry}
use blackhv.Memory.Access.{Bytes, memory_get_ptr}
use blackhv.Memory.Transfer.{peek}
use blackhv.Loader.{in_region, store, Regs, store-Stored, peek-kept}
use blackhv.Loader.Segments.{
  Outside, ProgramHeader, is_loaded, Loadable, Holds, Apart, load_segments-Loaded,
}
use blackhv.Loader.K.{
  multiboot_guest, cmdline_guest, memory_guest, multiboot_header_magic, map_size, info_size,
  start_k, load_image, load_k,
}
use blackhv.Loader.K.Boots.{
  length-little_endian, MapSet, MapSet-kept, Disjoint, word, word-held, peek-word,
  setup_e820-MapSet,
}

-- The places of the information, the memory map and the command line in host memory.
abbrev pub info_at : List MemoryEntry → ℕ
info_at entries = memory_get_ptr entries multiboot_guest

abbrev pub map_at : List MemoryEntry → ℕ
map_at entries = memory_get_ptr entries memory_guest

abbrev pub line_at : List MemoryEntry → ℕ
line_at entries = memory_get_ptr entries cmdline_guest

-- Usable memory for the whole of each of the three, which do not overlap.
pub record Site (entries : List MemoryEntry) (cmdline : List ℕ) : Type 0 where
  pub few : length entries < 2 ^ 32
  pub info_there : info_at entries ≢ 0
  pub map_there : map_at entries ≢ 0
  pub line_there : line_at entries ≢ 0
  pub info_within : in_region entries multiboot_guest info_size ≡ true
  pub map_within : in_region entries memory_guest (length entries * map_size) ≡ true
  pub line_within : in_region entries cmdline_guest (length cmdline) ≡ true
  pub info_map : Disjoint (info_at entries) info_size (map_at entries) (length entries * map_size)
  pub line_info : Disjoint (line_at entries) (length cmdline) (info_at entries) info_size
  pub line_map :
      Disjoint (line_at entries) (length cmdline) (map_at entries) (length entries * map_size)

-- A segment that is clear of the three.
pub record Clear (entries : List MemoryEntry) (cmdline : List ℕ) (ph : ProgramHeader) : Type 0 where
  pub info : Disjoint (memory_get_ptr entries ph.p_paddr) ph.p_memsz (info_at entries) info_size
  pub map :
      Disjoint
        (memory_get_ptr entries ph.p_paddr)
        ph.p_memsz
        (map_at entries)
        (length entries * map_size)
  pub line :
      Disjoint (memory_get_ptr entries ph.p_paddr) ph.p_memsz (line_at entries) (length cmdline)

-- The command line and the segments are in memory, and the memory map is still there.
pub record Booted (entries : List MemoryEntry) (image cmdline : List ℕ) (n : ℕ)
    (headers : ℕ → ProgramHeader) (m m' : Bytes) : Type 0 where
  pub map : MapSet entries (info_at entries) m m'
  pub line_held : peek m' (line_at entries) (length cmdline) ≡ cmdline
  pub line_addr : peek m' (info_at entries + 16) 4 ≡ word cmdline_guest
  pub segments : (k : ℕ) → k < n → is_loaded (headers k) ≡ true → Holds entries image m' (headers k)

module _ (program_header : (image : List ℕ) → (i : ℕ) → Exec ProgramHeader)
    (e_phnum e_entry : (image : List ℕ) → ℕ) (entries : List MemoryEntry) (image cmdline : List ℕ)
    (headers : ℕ → ProgramHeader) where
  -- The image has its program headers, and the loaded ones fit and do not overlap.
  pub record WellFormed : Type 0 where
    pub there : (k : ℕ) → k < e_phnum image → program_header image k ≡ ok (headers k)
    pub loadable :
        (k : ℕ)
        → k < e_phnum image
        → is_loaded (headers k) ≡ true
        → Loadable entries image (headers k)
    pub clear :
        (k : ℕ)
        → k < e_phnum image
        → is_loaded (headers k) ≡ true
        → Clear entries cmdline (headers k)
    pub apart :
        (k k' : ℕ)
        → (k < k') × (k' < e_phnum image)
        → is_loaded (headers k) ≡ true
        → is_loaded (headers k') ≡ true
        → Apart entries (headers k) (headers k')

  -- Memory that no segment covers is as it was.
  abbrev pub Untouched : (m m' : Bytes) → Type 0
  Untouched m m' =
      (a : ℕ)
      → ((k : ℕ)
          → (0 ≤ k) × (k < 0 + e_phnum image)
          → is_loaded (headers k) ≡ true
          → Outside entries a (headers k))
      → m' a ≡ m a

  Untouched-info :
      (m m' : Bytes) (a : ℕ)
      → WellFormed
      → Untouched m m'
      → (info_at entries ≤ a) × (a < info_at entries + info_size)
      → m' a ≡ m a
  Untouched-info m m' a wf same within = same a (λ k in_table on.
      let c : Clear entries cmdline (headers k) = wf.clear k (omega arith) on in
      ground (arith, c.info))

  Untouched-map :
      (m m' : Bytes) (a : ℕ)
      → WellFormed
      → Untouched m m'
      → (map_at entries ≤ a) × (a < map_at entries + length entries * map_size)
      → m' a ≡ m a
  Untouched-map m m' a wf same within = same a (λ k in_table on.
      let c : Clear entries cmdline (headers k) = wf.clear k (omega arith) on in
      ground (arith, c.map))

  Untouched-line :
      (m m' : Bytes) (a : ℕ)
      → WellFormed
      → Untouched m m'
      → (line_at entries ≤ a) × (a < line_at entries + length cmdline)
      → m' a ≡ m a
  Untouched-line m m' a wf same within = same a (λ k in_table on.
      let c : Clear entries cmdline (headers k) = wf.clear k (omega arith) on in
      ground (arith, c.line))

  -- The command line and its address do not touch the map.
  line-map :
      (m : Bytes) (c : ℕ)
      → Site entries cmdline
      → ((map_at entries ≤ c) × (c < map_at entries + length entries * map_size))
        ⊎ ((info_at entries + 4 ≤ c) × (c < info_at entries + 8))
        ⊎ ((info_at entries + 44 ≤ c) × (c < info_at entries + 52))
      → store (store m (line_at entries) cmdline) (info_at entries + 16) (word cmdline_guest) c
        ≡ m c
  line-map m c site within =
      let size : length (word cmdline_guest) ≡ 4 = length-little_endian 4 cmdline_guest in
      (store-Stored (store m (line_at entries) cmdline) (info_at entries + 16)
          (word cmdline_guest)).1
        c (ground (arith, size, site.info_map))
      ∙ (store-Stored m (line_at entries) cmdline).1 c
          (ground (arith, site.line_map, site.line_info))

  line_image-Booted :
      (m0 m m' : Bytes)
      → Site entries cmdline
      → WellFormed
      → MapSet entries (info_at entries) m0 m
      → ((k : ℕ)
          → k < e_phnum image
          → is_loaded (headers k) ≡ true
          → Holds entries image m' (headers k))
      → Untouched
          (store (store m (line_at entries) cmdline) (info_at entries + 16) (word cmdline_guest))
          m'
      → Booted entries image cmdline (e_phnum image) headers m0 m'
  line_image-Booted m0 m m' site wf set held same =
      let m1 : Bytes = store m (line_at entries) cmdline in
      let m2 : Bytes = store m1 (info_at entries + 16) (word cmdline_guest) in
      record {
        map = MapSet-kept entries (info_at entries) m0 m m' set (λ c within.
            elim within [
              | inl at_map ↦ Untouched-map m2 m' c wf same at_map
              | inr at_info ↦ Untouched-info m2 m' c wf same (ground arith)
            ]
            ∙ line-map m c site within);
        line_held =
            peek-kept m2 m' (line_at entries) (length cmdline)
              (λ c within. Untouched-line m2 m' c wf same within)
            ∙ (peek-word m1 (line_at entries) (length cmdline) (info_at entries + 16) cmdline_guest
                  (ground (arith, site.line_info))
                ∙ (store-Stored m (line_at entries) cmdline).0);
        line_addr =
            peek-kept m2 m' (info_at entries + 16) 4
              (λ c within. Untouched-info m2 m' c wf same (omega arith))
            ∙ word-held m1 (info_at entries + 16) cmdline_guest;
        segments = held;
      }

  load_image-Booted :
      (m0 m : Bytes)
      → Site entries cmdline
      → WellFormed
      → MapSet entries (info_at entries) m0 m
      → Returns
          (λ r.
            (m' : Bytes) × (r ≡ some m')
            × Booted entries image cmdline (e_phnum image) headers m0 m')
          (load_image program_header e_phnum e_entry entries (info_at entries) image cmdline m)
  unfolding load_image
  load_image-Booted m0 m site wf set =
      let found : (memory_get_ptr entries cmdline_guest == 0) ≡ false =
        ground (arith, site.line_there) in
      let m1 : Bytes = store m (line_at entries) cmdline in
      let m2 : Bytes = store m1 (info_at entries + 16) (word cmdline_guest) in
      let in_line = site.line_within in
      rw (found, in_line)
        (Returns-mono
          (load_segments-Loaded program_header entries image headers (e_phnum image) 0 m2
            (λ k within. wf.there k (omega arith)) (λ k within. wf.loadable k (omega arith))
            (λ k k' within. wf.apart k k' (omega arith)))
          λ r (m', is, held, same).
            (m', is, line_image-Booted m0 m m' site wf set (λ k within. held k (omega arith)) same))

  -- With regions of usable memory that hold the whole of the multiboot information, the map and
  -- the command line, which do not overlap, an image whose loaded segments lie whole in the file
  -- and in a region of memory, apart from each other and from the three places, and registers
  -- that can be read and set, `load_k` returns: every loaded segment holds its bytes of the file
  -- and then zeros, the command line is in place, the map has a row for each region of memory,
  -- and the guest starts at the entry point with the magic number and the address of the
  -- information.
  pub load_k-Booted :
      (m : Bytes) (regs : Regs)
      → Site entries cmdline
      → WellFormed
      → Returns
          (λ r.
            (m' : Bytes) × (r
              ≡ some (
                record regs {
                  rax = multiboot_header_magic;
                  rbx = multiboot_guest;
                  rip = e_entry image;
                },
                m',
              ))
            × Booted entries image cmdline
                (e_phnum image)
                headers
                (store m (info_at entries) (replicate info_size 0))
                m')
          (load_k program_header e_phnum e_entry true true entries (some regs) true image cmdline m)
  unfolding load_k start_k
  load_k-Booted m regs site wf =
      let found : (memory_get_ptr entries multiboot_guest == 0) ≡ false =
        ground (arith, site.info_there) in
      let m0 : Bytes = store m (info_at entries) (replicate info_size 0) in
      let in_info = site.info_within in
      rw (found, in_info)
        (Returns-bind
          (setup_e820-MapSet entries (info_at entries) m0 site.few site.map_there site.map_within
            site.info_map)
          λ r (m1, is, set). rw is (
            Returns-bind (load_image-Booted m0 m1 site wf set)
              λ r' (m2, is', booted). rw is' (returns (m2, refl, booted))))
