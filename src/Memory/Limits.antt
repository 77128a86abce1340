-- ===== src/Memory/Limits.antt =====
-- Where `memory_alloc` of src/memory.c does not do what its callers may expect.
use blackhv.Base.{
  ℕ, ◌+◌, ◌^◌, ◌≤◌, ◌<◌, ◌≡◌, refl, ◌≢◌, inl, inr, true, false, none, some, List, [], ◌∷◌, ◌++◌,
  arith, ◌==◌, ==_false, Option-cases,
}
use blackhv.Memory.{
  Memory, MemoryEntry, Host, HostCall, check_addr_available, memory_alloc, allocate, add_entry,
  memory_usable, memory_framebuffer,
}
use blackhv.Memory.Regions.{allocate-entries, Apart, FitsWord}

-- A region that starts below an entry, runs past 2^64 and wraps to an end below the entry is
-- accepted by `check_addr_available`, although it covers the entry.
pub check_addr_available_wraps :
    (e : MemoryEntry) (p s : ℕ)
    → FitsWord e
    → p < e.guest_phys
    → 2 ^ 64 ≤ p + s
    → p + s < 2 ^ 64 + e.guest_phys
    → (check_addr_available (e ∷ []) p s ≡ 1) × ¬ (Apart e p s)
unfolding check_addr_available
check_addr_available_wraps e p s fit below wraps short = (ground arith, overlap)
  where
    overlap : ¬ (Apart e p s)
    overlap a = ground arith

-- What `memory_alloc` does with an entry that it got.
memory_alloc-some :
    (host : Host) (mem : Memory) (p s type : ℕ) (e : MemoryEntry)
    → check_addr_available mem.memory_entries p s ≡ 1
    → (allocate host mem p s type).0 ≡ some e
    → memory_alloc host (some mem) p s type
      ≡ (1, some (add_entry host (allocate host mem p s type).1 e), (allocate host mem p s type).2)
unfolding memory_alloc
memory_alloc-some host mem p s type e free made =
    let open_end : (check_addr_available mem.memory_entries p s == 0) ≡ false = ground arith in
    rw (open_end, made, memory_alloc)

-- Where the range is free and the host grants everything, `memory_alloc` of a framebuffer returns
-- 1 and enters the region as MEMORY_USABLE.
pub memory_alloc_framebuffer :
    (host : Host) (mem : Memory) (p s : ℕ)
    → host.entry_memory ≡ true
    → host.element_memory ≡ true
    → host.mmap_result ≢ 0
    → host.region_accepted ≡ true
    → check_addr_available mem.memory_entries p s ≡ 1
    → (e : MemoryEntry) × (mem' : Memory) × (calls : List HostCall) × (memory_alloc host
          (some mem)
          p
          s
          memory_framebuffer
        ≡ (1, some mem', calls))
      × (mem'.memory_entries ≡ mem.memory_entries ++ (e ∷ []))
      × (e.guest_phys ≡ p)
      × (e.size ≡ s)
      × (e.type ≡ memory_usable)
      × (e.memory_ptr ≡ host.mmap_result)
unfolding allocate add_entry
memory_alloc_framebuffer host mem p s em lm mm ra free =
    let e : MemoryEntry = record {
      memory_ptr = host.mmap_result;
      guest_phys = p;
      size = s;
      slot = mem.next_slot;
      type = memory_usable;
    } in
    let made : (allocate host mem p s memory_framebuffer).0 ≡ some e =
      rw (em, ==_false host.mmap_result 0 mm, ra) in
    (
      e,
      add_entry host (allocate host mem p s memory_framebuffer).1 e,
      (allocate host mem p s memory_framebuffer).2,
      memory_alloc-some host mem p s memory_framebuffer e free made,
      rw (em, ==_false host.mmap_result 0 mm, ra, lm),
      refl,
      refl,
      refl,
      refl,
    )

-- Where there is no memory for the list element, `memory_alloc` still says 1: the region is mapped
-- and given to KVM, and the list does not have it.
pub memory_alloc_unlisted :
    (host : Host) (mem : Memory) (p s type : ℕ)
    → host.element_memory ≡ false
    → (allocate host mem p s type).0 ≢ none
    → check_addr_available mem.memory_entries p s ≡ 1
    → (mem' : Memory) × (calls : List HostCall) × (memory_alloc host (some mem) p s type
        ≡ (1, some mem', calls))
      × (mem'.memory_entries ≡ mem.memory_entries)
unfolding add_entry allocate
memory_alloc_unlisted host mem p s type lm made free =
    elim (Option-cases (allocate host mem p s type).0) [
      | inl fails ↦ absurd (made fails)
      | inr (e, got) ↦ (
        add_entry host (allocate host mem p s type).1 e,
        (allocate host mem p s type).2,
        memory_alloc-some host mem p s type e free got,
        rw lm (allocate-entries host mem p s type),
      )
    ]
