-- ===== src/Loader/Tests.antt =====
-- The theorems on the loaders at a machine with one region of usable memory and short images.
use blackhv.Base.{
  List, List, List, List, List, List, List, List, List, List, List, List, List, List, List, List,
  List, List, List, List, List, List, List, List, ℕ, ◌+◌, ◌^◌, ◌≤◌, ◌<◌, ◌≡◌, refl, inl, inr, true,
  some, List, [], ◌∷◌, arith, ◌==◌, if◌then◌else◌, replicate, Exec, Returns, ok, fault,
}
use blackhv.Memory.{MemoryEntry, find_entry, memory_usable}
use blackhv.Memory.Access.{Bytes, memory_get_ptr}
use blackhv.Memory.Transfer.{Stored, host_at}
use blackhv.Loader.{in_region, Regs, store}
use blackhv.Loader.Segments.{ProgramHeader}
use blackhv.Loader.K.{load_k, info_size}
use blackhv.Loader.K.Image.{info_at, Site, WellFormed, Booted, load_k-Booted}
use blackhv.Loader.Linux.{load_image_into_memory}
use blackhv.Loader.Linux.Kernel.{load_image_into_memory-fault}
use blackhv.Loader.Binary.{load_binary, Room, load_binary-Stored}

-- One gigabyte from the guest's address 0 on, at 0x7000 in the host.
abbrev ram : MemoryEntry
ram = record { memory_ptr = 0x7000; guest_phys = 0; size = 2 ^ 30; slot = 0; type = memory_usable }

abbrev regions : List MemoryEntry
regions = ram ∷ []

regions_at : (a : ℕ) → a < 2 ^ 30 → memory_get_ptr regions a ≡ 0x7000 + a
unfolding memory_get_ptr find_entry
regions_at a small = ground arith

regions_in : (a n : ℕ) → a < 2 ^ 30 → a + n ≤ 2 ^ 30 → in_region regions a n ≡ true
unfolding in_region find_entry
regions_in a n small ends = ground arith

abbrev pub cleared : Bytes
cleared a = 0

abbrev pub regs : Regs
regs = record { rax = 0; rbx = 0; rsi = 0; rip = 0 }

-- An image with one segment, of three bytes in the file and five in memory.
abbrev pub segment : ProgramHeader
segment = record { p_type = 1; p_offset = 4; p_paddr = 0x100000; p_filesz = 3; p_memsz = 5 }

abbrev pub header_table : (image : List ℕ) → (i : ℕ) → Exec ProgramHeader
header_table image i = if i == 0 then ok segment else fault

abbrev pub one_header : (image : List ℕ) → ℕ
one_header image = 1

abbrev pub entry_point : (image : List ℕ) → ℕ
entry_point image = 0x100000

abbrev pub headers : ℕ → ProgramHeader
headers i = segment

abbrev pub elf : List ℕ
elf = 0 ∷ 0 ∷ 0 ∷ 0 ∷ 1 ∷ 2 ∷ 3 ∷ []

abbrev pub quiet_line : List ℕ
quiet_line = 113 ∷ 0 ∷ []

elf-Site : Site regions quiet_line
elf-Site =
    let info = regions_at 0xC10000 (omega arith) in
    let line = regions_at 0xC20000 (omega arith) in
    let map = regions_at 0xC30000 (omega arith) in
    record {
      few = omega arith;
      info_there = λ none_there. omega arith;
      map_there = λ none_there. omega arith;
      line_there = λ none_there. omega arith;
      info_within = regions_in 0xC10000 120 (omega arith) (omega arith);
      map_within = regions_in 0xC30000 24 (omega arith) (omega arith);
      line_within = regions_in 0xC20000 2 (omega arith) (omega arith);
      info_map = inl (omega arith);
      line_info = inr (omega arith);
      line_map = inl (omega arith);
    }

elf-WellFormed : WellFormed header_table one_header entry_point regions elf quiet_line headers
elf-WellFormed =
    let info = regions_at 0xC10000 (omega arith) in
    let line = regions_at 0xC20000 (omega arith) in
    let map = regions_at 0xC30000 (omega arith) in
    let loaded = regions_at 0x100000 (omega arith) in
    record {
      there = λ k less. (let first : (k == 0) ≡ true = ground arith in rw first refl);
      loadable = λ k less on. record {
        address = λ none_there. omega arith;
        within = regions_in 0x100000 5 (omega arith) (omega arith);
        in_file = omega arith;
        fits = omega arith;
      };
      clear = λ k less on. record {
        info = inl (omega arith);
        map = inl (omega arith);
        line = inl (omega arith);
      };
      apart = λ k k' less on on'. absurd (omega arith);
    }

load_k-Booted_example :
    Returns
      (λ r.
        (m' : Bytes) × (r
          ≡ some (record regs { rax = 0x1BADB002; rbx = 0xC10000; rip = 0x100000 }, m'))
        × Booted regions elf quiet_line 1 headers
            (store cleared (info_at regions) (replicate info_size 0))
            m')
      (load_k header_table one_header entry_point true true regions
        (some regs)
        true
        elf
        quiet_line
        cleared)
load_k-Booted_example =
    load_k-Booted header_table one_header entry_point regions elf quiet_line headers cleared regs
      elf-Site elf-WellFormed

load_image_into_memory-fault_example : load_image_into_memory regions 1 (7 ∷ []) 1 cleared ≡ fault
load_image_into_memory-fault_example =
    load_image_into_memory-fault regions 1 (7 ∷ []) cleared
      (λ none_there. (let kernel = regions_at 0x100000 (omega arith) in omega arith)) (omega arith)
      (omega arith)

abbrev chunks : List (List ℕ)
chunks = (1 ∷ 2 ∷ []) ∷ (3 ∷ []) ∷ []

ram-Room : Room regions ram 0 3
unfolding find_entry
ram-Room = record {
  usable = refl;
  fit = omega arith;
  from = omega arith;
  within = omega arith;
  found = λ a inside. ground arith;
}

load_binary-Stored_example :
    Returns
      (λ r.
        (m' : Bytes) × (r ≡ some (3, m')) × Stored cleared (host_at ram 0x7C00) (1 ∷ 2 ∷ 3 ∷ []) m')
      (load_binary regions chunks 0 cleared)
load_binary-Stored_example = load_binary-Stored regions ram chunks 0 cleared (omega arith) ram-Room
