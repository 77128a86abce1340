-- ===== src/Memory/Tests.antt =====
-- The theorems on src/memory.c at two regions of RAM with a gap and a device between them.
use blackhv.Base.{
  ℕ, ◌-◌, ◌^◌, ◌≤◌, ◌≡◌, refl, ◌≢◌, ◌↔◌, inl, inr, true, false, none, some, List, [], ◌∷◌, ◌++◌,
  arith, get_elem?, All, s64_of, ◌>>=◌, Returns,
}
use blackhv.Memory.{
  allocate, MemoryEntry, Memory, Host, HostCall, find_entry, check_addr_available, memory_alloc,
  memory_usable, memory_mmio, memory_framebuffer,
}
use blackhv.Memory.Regions.{
  AreApart, Apart, Clear, Kept, check_addr_available_iff, memory_alloc-AreApart,
}
use blackhv.Memory.Lookup.{Contains, find_entry_sound, find_entry_complete}
use blackhv.Memory.Access.{
  Bytes, E820Entry, memory_write, memory_read, memory_get_ptr, e820_table_get, align_up, align_down,
  is_align,
}
use blackhv.Memory.Transfer.{
  Stored, peek, memory_write-Stored, memory_read-peek, memory_read-memory_write,
  memory_get_ptr-host_at,
}
use blackhv.Memory.Table.{
  DescribeAll, e820_table_get-DescribeAll, align_up-least, align_down-greatest,
}
use blackhv.Memory.Limits.{
  check_addr_available_wraps, memory_alloc_framebuffer, memory_alloc_unlisted,
}

abbrev low : MemoryEntry
low = record { memory_ptr = 0x7000; guest_phys = 0; size = 0x1000; slot = 0; type = memory_usable }

abbrev device : MemoryEntry
device = record { memory_ptr = 0; guest_phys = 0x2000; size = 0x100; slot = 0; type = memory_mmio }

abbrev high : MemoryEntry
high = record {
  memory_ptr = 0x9000;
  guest_phys = 0x10000;
  size = 0x1000;
  slot = 1;
  type = memory_usable;
}

abbrev entries : List MemoryEntry
entries = low ∷ device ∷ high ∷ []

abbrev mem : Memory
mem = record { memory_entries = entries; next_slot = 2 }

abbrev host : Host
host = record {
  entry_memory = true;
  mmap_result = 0xB000;
  region_accepted = true;
  element_memory = true;
}

abbrev full_host : Host
full_host = record host { element_memory = false }

abbrev zeros : Bytes
zeros a = 0

entries-AreApart : AreApart entries
entries-AreApart = (
  omega arith,
  (inr (omega arith), (inr (omega arith), tt)),
  (omega arith, (inr (omega arith), tt), (omega arith, tt, tt)),
)

found : find_entry entries 0x10FFE ≡ some high
unfolding find_entry
found = refl

free_range : check_addr_available entries 0x20000 0x1000 ≡ 1
unfolding check_addr_available
free_range = refl

memory_alloc-AreApart_example : Kept (memory_alloc host (some mem) 0x20000 0x1000 memory_usable).1
memory_alloc-AreApart_example =
    memory_alloc-AreApart host mem 0x20000 0x1000 memory_usable entries-AreApart (omega arith)

check_addr_available_iff_example :
    (check_addr_available entries 0x20000 0x1000 ≡ 1) ↔ All (Clear 0x20000 0x1000) entries
check_addr_available_iff_example =
    check_addr_available_iff entries 0x20000 0x1000 (omega arith, (omega arith, (omega arith, tt)))
      (omega arith)

find_entry_sound_example : ((i : ℕ) × (get_elem? entries i ≡ some high)) × Contains high 0x10FFE
find_entry_sound_example = find_entry_sound entries 0x10FFE entries-AreApart found

find_entry_complete_example : find_entry entries 0x20FF ≡ some device
find_entry_complete_example =
    find_entry_complete entries 0x20FF 1 entries-AreApart refl (omega arith, omega arith)

memory_write-Stored_example :
    Returns
      (λ (r, m'). (r ≡ s64_of 2) × Stored zeros 0x9FFE (1 ∷ 2 ∷ []) m')
      (memory_write zeros entries 0x10FFE (1 ∷ 2 ∷ 3 ∷ []) 3)
memory_write-Stored_example =
    memory_write-Stored zeros entries 0x10FFE (1 ∷ 2 ∷ 3 ∷ []) 3 found refl (omega arith)
      (omega arith, omega arith) (omega arith)

memory_read-peek_example :
    Returns
      (λ (r, b). (r ≡ s64_of 2) × (b ≡ peek zeros 0x9FFE 2 ++ (9 ∷ [])))
      (memory_read zeros entries 0x10FFE (9 ∷ 9 ∷ 9 ∷ []) 3)
memory_read-peek_example =
    memory_read-peek zeros entries 0x10FFE (9 ∷ 9 ∷ 9 ∷ []) 3 found (inl refl) (omega arith)
      (omega arith, omega arith) (omega arith)

memory_read-memory_write_example :
    Returns
      (λ (r, b). (r ≡ s64_of 2) × (b ≡ 1 ∷ 2 ∷ 9 ∷ []))
      (do
        (w, m') ← memory_write zeros entries 0x10FFE (1 ∷ 2 ∷ 3 ∷ []) 3
        memory_read m' entries 0x10FFE (9 ∷ 9 ∷ 9 ∷ []) 3)
memory_read-memory_write_example =
    memory_read-memory_write zeros entries 0x10FFE (1 ∷ 2 ∷ 3 ∷ []) (9 ∷ 9 ∷ 9 ∷ []) 3 found refl
      (omega arith) (omega arith, omega arith) (omega arith) (omega arith)

memory_get_ptr-host_at_example : memory_get_ptr entries 0x10FFE ≡ 0x9FFE
memory_get_ptr-host_at_example =
    memory_get_ptr-host_at entries 0x10FFE found refl (omega arith) (omega arith, omega arith)
      (omega arith)

e820_table_get-DescribeAll_example :
    (rows : List E820Entry) × (e820_table_get true true entries ≡ some (3, rows))
    × DescribeAll entries rows
e820_table_get-DescribeAll_example = e820_table_get-DescribeAll entries (omega arith)

align_up-least_example :
    (is_align (align_up 0x1001) ≡ 1)
    × (0x1001 ≤ align_up 0x1001)
    × ((b : ℕ) → is_align b ≡ 1 → 0x1001 ≤ b → align_up 0x1001 ≤ b)
align_up-least_example = align_up-least 0x1001 (omega arith)

align_down-greatest_example :
    (is_align (align_down 0x1FFF) ≡ 1)
    × (align_down 0x1FFF ≤ 0x1FFF)
    × ((b : ℕ) → is_align b ≡ 1 → b ≤ 0x1FFF → b ≤ align_down 0x1FFF)
align_down-greatest_example = align_down-greatest 0x1FFF

check_addr_available_wraps_example :
    (check_addr_available (high ∷ []) 0x8000 (2 ^ 64 - 0x8000) ≡ 1)
    × ¬ (Apart high 0x8000 (2 ^ 64 - 0x8000))
check_addr_available_wraps_example =
    check_addr_available_wraps high 0x8000 (2 ^ 64 - 0x8000) (omega arith) (omega arith)
      (omega arith) (omega arith)

memory_alloc_framebuffer_example :
    (e : MemoryEntry) × (mem' : Memory) × (calls : List HostCall) × (memory_alloc host
        (some mem)
        0x20000
        0x1000
        memory_framebuffer
      ≡ (1, some mem', calls))
    × (mem'.memory_entries ≡ entries ++ (e ∷ []))
    × (e.guest_phys ≡ 0x20000)
    × (e.size ≡ 0x1000)
    × (e.type ≡ memory_usable)
    × (e.memory_ptr ≡ 0xB000)
memory_alloc_framebuffer_example =
    memory_alloc_framebuffer host mem 0x20000 0x1000 refl refl (omega arith) refl free_range

made : (allocate full_host mem 0x20000 0x1000 memory_mmio).0 ≢ none
unfolding allocate
made e = cc

memory_alloc_unlisted_example :
    (mem' : Memory) × (calls : List HostCall) × (memory_alloc full_host
        (some mem)
        0x20000
        0x1000
        memory_mmio
      ≡ (1, some mem', calls))
    × (mem'.memory_entries ≡ entries)
memory_alloc_unlisted_example =
    memory_alloc_unlisted full_host mem 0x20000 0x1000 memory_mmio refl made free_range
