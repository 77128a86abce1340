-- ===== src/Memory/Table.antt =====
-- The E820 table and the alignment helpers of src/memory.c and include/blackhv/memory.h.
use blackhv.Base.{
  ℕ, ◌+◌, ◌%◌, ◌^◌, ◌≤◌, ◌<◌, ◌≡◌, refl, ◌≢◌, ◌↔◌, true, some, List, [], ◌∷◌, arith, ◌==◌, int_of,
  lt→ltb, length,
}
use blackhv.Memory.{MemoryEntry, memory_usable}
use blackhv.Memory.Access.{
  E820Entry, e820_entry, e820_loop, e820_table_get, page_size, align_up, align_down, is_align,
  e820_usable, e820_reserved,
}

-- The row of the table that describes an entry.
abbrev pub Describes : MemoryEntry → E820Entry → Type 0
Describes e r =
    (r.base_address ≡ e.guest_phys)
    × (r.size ≡ e.size)
    × ((r.type ≡ e820_usable) ↔ (e.type ≡ memory_usable))
    × ((r.type ≡ e820_reserved) ↔ (e.type ≢ memory_usable))

-- Row by row.
abbrev pub DescribeAll : List MemoryEntry → List E820Entry → Type 0
DescribeAll [] [] = Unit
DescribeAll [] (r ∷ rs) = ⊥
DescribeAll (e ∷ es) [] = ⊥
DescribeAll (e ∷ es) (r ∷ rs) = Describes e r × DescribeAll es rs

e820_entry-Describes : (e : MemoryEntry) → Describes e (e820_entry e)
unfolding e820_entry
e820_entry-Describes e = (refl, refl, (ground arith, ground arith), (ground arith, ground arith))

e820_loop-DescribeAll :
    (es : List MemoryEntry) (i n : ℕ) → i + length es ≤ n → DescribeAll es (e820_loop es i n)
unfolding e820_loop
e820_loop-DescribeAll [] i n h = tt
e820_loop-DescribeAll (e ∷ es) i n h =
    rw (lt→ltb i n (omega arith))
      (e820_entry-Describes e, e820_loop-DescribeAll es (i + 1) n (omega arith))

-- With both allocations made and fewer than 2^32 entries, `e820_table_get` has one row for each
-- entry in order: its base, its size, and usable exactly for the type MEMORY_USABLE. The length
-- counts them.
pub e820_table_get-DescribeAll :
    (es : List MemoryEntry)
    → length es < 2 ^ 32
    → (rows : List E820Entry) × (e820_table_get true true es ≡ some (length es, rows))
      × DescribeAll es rows
unfolding e820_table_get
e820_table_get-DescribeAll es small =
    let n : length es % 2 ^ 32 ≡ length es = omega arith in
    (e820_loop es 0 (length es), rw n refl, e820_loop-DescribeAll es 0 (length es) (omega arith))

-- For an address at least a page below 2^64, `align_up` gives the least page boundary at or above
-- it.
pub align_up-least :
    (ptr : ℕ)
    → ptr + page_size ≤ 2 ^ 64
    → (is_align (align_up ptr) ≡ 1)
      × (ptr ≤ align_up ptr)
      × ((b : ℕ) → is_align b ≡ 1 → ptr ≤ b → align_up ptr ≤ b)
unfolding align_up align_down is_align
align_up-least ptr small = (ground arith, omega arith, λ b a le. least b a le)
  where
    least : (b : ℕ) → int_of (b % page_size == 0) ≡ 1 → ptr ≤ b → align_up ptr ≤ b
    least b a le = let d : b % page_size ≡ 0 = ground arith in omega arith

-- `align_down` gives the greatest page boundary at or below the address.
pub align_down-greatest :
    (ptr : ℕ)
    → (is_align (align_down ptr) ≡ 1)
      × (align_down ptr ≤ ptr)
      × ((b : ℕ) → is_align b ≡ 1 → b ≤ ptr → b ≤ align_down ptr)
unfolding align_down is_align
align_down-greatest ptr = (ground arith, omega arith, λ b a le. greatest b a le)
  where
    greatest : (b : ℕ) → int_of (b % page_size == 0) ≡ 1 → b ≤ ptr → b ≤ align_down ptr
    greatest b a le = let d : b % page_size ≡ 0 = ground arith in omega arith
