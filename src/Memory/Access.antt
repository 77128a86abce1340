-- ===== src/Memory/Access.antt =====
-- src/memory.c: copying to and from guest memory, pointers into it, and the E820 table.
-- Host memory is a function from addresses to bytes. A buffer of the caller is a list; an access
-- behind its end is undefined.
use blackhv.Base.{
  ℕ, zero, suc, ◌+◌, ◌-◌, ◌%◌, ◌^◌, Bool, not, ◌&&◌, Option, none, some, List, [], ◌∷◌, map, ltb,
  ◌==◌, if◌then◌else◌, int_of, length, get_elem?, set, minus_one, s64_of, add_u64, sub_u64, ℤ,
  ◌>>=◌, access, Exec, ok, fault, out_of_fuel,
}
use blackhv.Memory.{MemoryEntry, find_entry, memory_usable, memory_framebuffer}

abbrev pub Bytes : Type 0
Bytes = ℕ → ℕ

unfoldable pub poke : Bytes → ℕ → ℕ → Bytes
poke m a b c = if c == a then b else m c

-- The loop of `memory_write` from round `written`, where `ptr` is the address of the first byte.
unfoldable pub write_loop :
    ℕ → Bytes → (ptr : ℕ) → (buffer : List ℕ) → (mem_limit size written : ℕ) → Exec (ℕ × Bytes)
write_loop zero m ptr buffer mem_limit size written = out_of_fuel
write_loop (suc fuel) m ptr buffer mem_limit size written =
    let step = (do
      b ← access (get_elem? buffer written)
      write_loop fuel (poke m (ptr + written) b) ptr buffer mem_limit size (written + 1)) in
    if ltb written mem_limit && ltb written size then step else ok (written, m)

-- `memory_write`, on a list of entries. The loop has `size + 1` rounds.
unfoldable pub memory_write :
    Bytes → List MemoryEntry → (dest : ℕ) → List ℕ → (size : ℕ) → Exec (ℤ × Bytes)
unfolding write_loop
memory_write m entries dest buffer size = elim (find_entry entries dest) [
  | none ↦ ok (minus_one, m)
  | some e ↦
      if not (e.type == memory_usable)
      then ok (minus_one, m)
      else (let base_address = sub_u64 dest e.guest_phys in
          let mem_limit = sub_u64 e.size base_address in
          do
            (written, m') ←
                write_loop (size + 1) m (e.memory_ptr + base_address) buffer mem_limit size 0
            ok (s64_of written, m'))
]

-- The loop of `memory_read` from round `done`; it fills the destination buffer.
unfoldable pub read_loop :
    ℕ → Bytes → (ptr : ℕ) → (buffer : List ℕ) → (mem_limit size done : ℕ) → Exec (ℕ × List ℕ)
read_loop zero m ptr buffer mem_limit size done = out_of_fuel
read_loop (suc fuel) m ptr buffer mem_limit size done =
    let step =
      (if ltb done (length buffer)
        then read_loop fuel m ptr (set buffer done (m (ptr + done))) mem_limit size (done + 1)
        else fault) in
    if ltb done mem_limit && ltb done size then step else ok (done, buffer)

-- `memory_read`.
unfoldable pub memory_read :
    Bytes → List MemoryEntry → (src_phys : ℕ) → List ℕ → (size : ℕ) → Exec (ℤ × List ℕ)
unfolding read_loop
memory_read m entries src_phys buffer size = elim (find_entry entries src_phys) [
  | none ↦ ok (minus_one, buffer)
  | some e ↦
      if not (e.type == memory_usable) && not (e.type == memory_framebuffer)
      then ok (minus_one, buffer)
      else (let base_address = sub_u64 src_phys e.guest_phys in
          let mem_limit = sub_u64 e.size base_address in
          do
            (done, buffer') ←
                read_loop (size + 1) m (e.memory_ptr + base_address) buffer mem_limit size 0
            ok (s64_of done, buffer'))
]

-- `memory_get_ptr`; 0 is NULL.
unfoldable pub memory_get_ptr : List MemoryEntry → (addr : ℕ) → ℕ
memory_get_ptr entries addr = elim (find_entry entries addr) [
  | none ↦ 0
  | some e ↦
      if not (e.type == memory_usable) then 0 else add_u64 e.memory_ptr (sub_u64 addr e.guest_phys)
]

abbrev pub e820_usable : ℕ
e820_usable = 1

abbrev pub e820_reserved : ℕ
e820_reserved = 2

-- `struct e820_entry`.
pub record E820Entry : Type 0 where
  pub base_address : ℕ
  pub size : ℕ
  pub type : ℕ

-- The loop body of `e820_table_get`.
unfoldable pub e820_entry : MemoryEntry → E820Entry
e820_entry map = record {
  base_address = map.guest_phys;
  size = map.size;
  type = if map.type == memory_usable then e820_usable else e820_reserved;
}

-- Its loop: the walk over the entries, `table_length` being `table->length`.
unfoldable pub e820_loop : List MemoryEntry → (i table_length : ℕ) → List E820Entry
unfolding e820_entry
e820_loop [] i table_length = []
e820_loop (e ∷ es) i table_length =
    if ltb i table_length then e820_entry e ∷ e820_loop es (i + 1) table_length else []

-- `e820_table_get`, with whether its two allocations succeed: the length and the entries filled.
-- The length comes from the list's `unsigned int` size.
unfoldable pub e820_table_get :
    (table_memory entries_memory : Bool) → List MemoryEntry → Option (ℕ × List E820Entry)
unfolding e820_loop
e820_table_get table_memory entries_memory entries =
    if table_memory && entries_memory
    then some (length entries % 2 ^ 32, e820_loop entries 0 (length entries % 2 ^ 32))
    else none

abbrev pub page_size : ℕ
page_size = 4096

-- `ptr & ~(PAGE_SIZE - 1)` clears the low twelve bits of the word.
unfoldable pub align_down : ℕ → ℕ
align_down ptr = ptr - ptr % page_size

unfoldable pub align_up : ℕ → ℕ
unfolding align_down
align_up ptr = align_down (add_u64 ptr (page_size - 1))

unfoldable pub is_align : ℕ → ℕ
is_align ptr = int_of (ptr % page_size == 0)
