-- ===== src/Memory/Balance.antt =====
-- What src/memory.c maps and unmaps: each mapping that is made for a region is given back once.
use blackhv.Base.{
  ℕ, ◌+◌, ◌≡◌, refl, ap, ◌≢◌, inl, inr, true, ◌&&◌, Option, none, some, List, [], ◌∷◌, ◌++◌, arith,
  ◌==◌, int_of, Bool-cases, Option-cases, All,
}
use blackhv.Memory.{
  MemoryEntry, Memory, Host, HostCall, mmap, munmap, set_user_memory_region, memory_usable,
  check_addr_available, allocate_usable, allocate_mmio, allocate, add_entry, memory_alloc,
  free_memory_entry, unmap_all, memory_destroy,
}

-- One call of `memory_alloc`, with the answers of the host.
pub record Request : Type 0 where
  pub host : Host
  pub phys_addr : ℕ
  pub size : ℕ
  pub type : ℕ

-- Many calls one after the other: the memory, and the calls made to the host.
unfoldable pub alloc_all : List Request → Memory → Option Memory × List HostCall
alloc_all [] mem = (some mem, [])
alloc_all (r ∷ rs) mem =
    let (_, mem', calls) = memory_alloc r.host (some mem) r.phys_addr r.size r.type in
    elim mem' [
      | none ↦ (none, calls)
      | some m ↦ (let (last, more) = alloc_all rs m in (last, calls ++ more))
    ]

-- How often `s` bytes at `a` are mapped, and unmapped.
abbrev pub maps : (a s : ℕ) → List HostCall → ℕ
maps a s [] = 0
maps a s (mmap b t ∷ cs) = int_of (b == a && t == s) + maps a s cs
maps a s (munmap b t ∷ cs) = maps a s cs
maps a s (set_user_memory_region n p t b ∷ cs) = maps a s cs

abbrev pub unmaps : (a s : ℕ) → List HostCall → ℕ
unmaps a s [] = 0
unmaps a s (mmap b t ∷ cs) = unmaps a s cs
unmaps a s (munmap b t ∷ cs) = int_of (b == a && t == s) + unmaps a s cs
unmaps a s (set_user_memory_region n p t b ∷ cs) = unmaps a s cs

-- How many usable regions have `s` bytes at `a`.
abbrev held : (a s : ℕ) → List MemoryEntry → ℕ
held a s [] = 0
held a s (e ∷ es) =
    int_of (e.type == memory_usable && (e.memory_ptr == a && e.size == s)) + held a s es

maps-append : (a s : ℕ) (cs ds : List HostCall) → maps a s (cs ++ ds) ≡ maps a s cs + maps a s ds
maps-append a s [] ds = omega arith
maps-append a s (mmap b t ∷ cs) ds = omega (arith, maps-append a s cs ds)
maps-append a s (munmap b t ∷ cs) ds = maps-append a s cs ds
maps-append a s (set_user_memory_region n p t b ∷ cs) ds = maps-append a s cs ds

unmaps-append :
    (a s : ℕ) (cs ds : List HostCall) → unmaps a s (cs ++ ds) ≡ unmaps a s cs + unmaps a s ds
unmaps-append a s [] ds = omega arith
unmaps-append a s (mmap b t ∷ cs) ds = unmaps-append a s cs ds
unmaps-append a s (munmap b t ∷ cs) ds = omega (arith, unmaps-append a s cs ds)
unmaps-append a s (set_user_memory_region n p t b ∷ cs) ds = unmaps-append a s cs ds

held-append : (a s : ℕ) (es fs : List MemoryEntry) → held a s (es ++ fs) ≡ held a s es + held a s fs
held-append a s [] fs = omega arith
held-append a s (e ∷ es) fs = omega (arith, held-append a s es fs)

-- What a call maps and does not unmap is in a new region.
abbrev Accounted : (a s : ℕ) → Memory → Option Memory × List HostCall → Type 0
Accounted a s mem (none, calls) = ⊥
Accounted a s mem (some mem', calls) =
    held a s mem.memory_entries + maps a s calls ≡ held a s mem'.memory_entries + unmaps a s calls

allocate-Accounted :
    (host : Host) (mem : Memory) (p t type a s : ℕ)
    → a ≢ 0
    → let (entry, mem', calls) = allocate host mem p t type in
      (mem'.memory_entries ≡ mem.memory_entries)
      × (maps a s calls ≡ unmaps a s calls + held a s (elim entry [ none ↦ [] | some e ↦ e ∷ [] ]))
unfolding allocate allocate_usable allocate_mmio
allocate-Accounted host mem p t type a s ne = ground arith

memory_alloc-Accounted :
    (host : Host) (mem : Memory) (p t type a s : ℕ)
    → a ≢ 0
    → host.element_memory ≡ true
    → let (_, mem', calls) = memory_alloc host (some mem) p t type in
      Accounted a s mem (mem', calls)
unfolding memory_alloc add_entry
memory_alloc-Accounted host mem p t type a s ne listed =
    let (same, count) = allocate-Accounted host mem p t type a s ne in
    elim (Bool-cases (check_addr_available mem.memory_entries p t == 0)) [
      | inl refused ↦ rw refused refl
      | inr free ↦ rw free (elim (Option-cases (allocate host mem p t type).0) [
        | inl fails ↦ rw fails (omega (arith, ap (held a s) same, rw fails at count))
        | inr (e, made) ↦
            rw (made, listed)
              (omega (
                arith,
                ap (held a s) same,
                rw made at count,
                held-append a s (allocate host mem p t type).1.memory_entries (e ∷ []),
              ))
      ])
    ]

-- Two runs one after the other.
Accounted-append :
    (a s : ℕ) (mem mem' : Memory) (last : Option Memory) (calls more : List HostCall)
    → Accounted a s mem (some mem', calls)
    → Accounted a s mem' (last, more)
    → Accounted a s mem (last, calls ++ more)
Accounted-append a s mem mem' none calls more first second = second
Accounted-append a s mem mem' (some m) calls more first second =
    omega (arith, maps-append a s calls more, unmaps-append a s calls more)

alloc_all-Accounted :
    (rs : List Request) (mem : Memory) (a s : ℕ)
    → a ≢ 0
    → All (λ r. r.host.element_memory ≡ true) rs
    → Accounted a s mem (alloc_all rs mem)
unfolding alloc_all
alloc_all-Accounted [] mem a s ne listed = refl
alloc_all-Accounted (r ∷ rs) mem a s ne (here, listed) =
    let one = memory_alloc-Accounted r.host mem r.phys_addr r.size r.type a s ne here in
    elim (Option-cases (memory_alloc r.host (some mem) r.phys_addr r.size r.type).1) [
      | inl gone ↦ absurd (rw gone at one)
      | inr (mem', left) ↦
          let runs : alloc_all (r ∷ rs) mem ≡ (
            (alloc_all rs mem').0,
            (memory_alloc r.host (some mem) r.phys_addr r.size r.type).2 ++ (alloc_all rs mem').1,
          ) =
            rw (left, alloc_all) refl in
          rw runs (
            Accounted-append a s mem mem' _ _ _ (rw left at one)
              (alloc_all-Accounted rs mem' a s ne listed))
    ]

unmap_all-held :
    (es : List MemoryEntry) (a s : ℕ)
    → (maps a s (unmap_all es) ≡ 0) × (unmaps a s (unmap_all es) ≡ held a s es)
unfolding unmap_all free_memory_entry
unmap_all-held [] a s = (refl, refl)
unmap_all-held (e ∷ es) a s = ground (arith, unmap_all-held es a s)

pub memory_destroy-balanced :
    (rs : List Request) (next_slot a s : ℕ)
    → a ≢ 0
    → All (λ r. r.host.element_memory ≡ true) rs
    → let (mem, calls) = alloc_all rs (record { memory_entries = []; next_slot = next_slot }) in
      maps a s (calls ++ memory_destroy mem) ≡ unmaps a s (calls ++ memory_destroy mem)
unfolding memory_destroy
memory_destroy-balanced rs next_slot a s ne listed =
    let start : Memory = record { memory_entries = []; next_slot = next_slot } in
    let account = alloc_all-Accounted rs start a s ne listed in
    let calls : List HostCall = (alloc_all rs start).1 in
    elim (Option-cases (alloc_all rs start).0) [
      | inl gone ↦ absurd (rw gone at account)
      | inr (mem, left) ↦
          let (no_maps, all_back) = unmap_all-held mem.memory_entries a s in
          rw left (
            omega (
              arith,
              rw left at account,
              maps-append a s calls (unmap_all mem.memory_entries),
              unmaps-append a s calls (unmap_all mem.memory_entries),
            ))
    ]
