-- ===== src/Memory/Regions.antt =====
-- The regions of guest memory that src/memory.c hands out: which ones it accepts, and how those that
-- it keeps lie to one another.
use blackhv.Base.{
  ℕ, ◌+◌, ◌^◌, ◌≤◌, ◌<◌, ◌≡◌, refl, ◌↔◌, ◌⊎◌, inl, inr, false, Option, none, some, List, [], ◌∷◌,
  ◌++◌, arith, ◌==◌, if◌then◌else◌, Bool-cases, Option-cases, All,
}
use blackhv.Memory.{
  Memory, MemoryEntry, Host, clashes, check_addr_available, allocate, add_entry, memory_alloc,
  memory_usable, memory_mmio,
}

-- Region `[p, p + s)` and the entry's have no address in common.
abbrev pub Apart : MemoryEntry → ℕ → ℕ → Type 0
Apart e p s = (e.guest_phys + e.size ≤ p) ⊎ (p + s ≤ e.guest_phys)

abbrev pub FitsWord : MemoryEntry → Type 0
FitsWord e = e.guest_phys + e.size < 2 ^ 64

-- No entry reaches the end of the address space, and no two overlap.
abbrev pub AreApart : List MemoryEntry → Type 0
AreApart [] = Unit
AreApart (e ∷ es) = FitsWord e × All (λ f. Apart f e.guest_phys e.size) es × AreApart es

-- The code leaves room: a region that ends where an entry begins is refused, one that begins where
-- an entry ends is not.
abbrev pub Clear : ℕ → ℕ → MemoryEntry → Type 0
Clear p s e = (e.guest_phys + e.size ≤ p) ⊎ (p + s < e.guest_phys)

clashes-Clear :
    (e : MemoryEntry) (p s : ℕ)
    → FitsWord e
    → p + s < 2 ^ 64
    → (clashes e p s ≡ false) ↔ Clear p s e
clashes-Clear e p s fits small = (there, back)
  where
    there : clashes e p s ≡ false → Clear p s e
    there h = ground arith

    back : Clear p s e → clashes e p s ≡ false
    back h = ground arith

-- For a region and entries that end below 2^64, `check_addr_available` returns 1 exactly when
-- every entry ends at or below the region's start or begins strictly above its end.
pub check_addr_available_iff :
    (es : List MemoryEntry) (p s : ℕ)
    → All FitsWord es
    → p + s < 2 ^ 64
    → (check_addr_available es p s ≡ 1) ↔ All (Clear p s) es
unfolding check_addr_available
check_addr_available_iff [] p s fits small = ((λ _. tt), (λ _. refl))
check_addr_available_iff (e ∷ es) p s (fit, fits) small =
    let rest = check_addr_available_iff es p s fits small in
    let one = clashes-Clear e p s fit small in
    (
      (λ h. elim (Bool-cases (clashes e p s)) [
        | inl c ↦ absurd (let zero_one : 0 ≡ 1 = rw c at h in omega arith)
        | inr c ↦ (one.0 c, rest.0 (rw c at h))
      ]),
      (λ (c, cs). rw (one.1 c) (rest.1 cs)),
    )

AreApart-fits : (es : List MemoryEntry) → AreApart es → All FitsWord es
AreApart-fits [] a = tt
AreApart-fits (e ∷ es) (fit, _, a) = (fit, AreApart-fits es a)

All-snoc :
    {A : Type 0} (P : A → Type 0) (xs : List A) (x : A) → All P xs → P x → All P (xs ++ (x ∷ []))
All-snoc P [] x h p = (p, tt)
All-snoc P (y ∷ ys) x (q, h) p = (q, All-snoc P ys x h p)

-- One more region that `check_addr_available` accepts.
AreApart-snoc :
    (es : List MemoryEntry) (e : MemoryEntry)
    → AreApart es
    → FitsWord e
    → All (Clear e.guest_phys e.size) es
    → AreApart (es ++ (e ∷ []))
AreApart-snoc [] e a fit c = (fit, tt, tt)
AreApart-snoc (f ∷ es) e (fitf, away, a) fit (c, cs) =
    (fitf, All-snoc _ es e away (ground arith), AreApart-snoc es e a fit cs)

-- What `allocate` gives: an entry for the region that was asked for, usable unless it is an MMIO one.
pub allocate-entry :
    (host : Host) (mem : Memory) (p s type : ℕ) (e : MemoryEntry)
    → (allocate host mem p s type).0 ≡ some e
    → (e.guest_phys ≡ p)
      × (e.size ≡ s)
      × (e.type ≡ (if type == memory_mmio then memory_mmio else memory_usable))
unfolding allocate
allocate-entry host mem p s type e h = ground arith

pub allocate-entries :
    (host : Host) (mem : Memory) (p s type : ℕ)
    → (allocate host mem p s type).1.memory_entries ≡ mem.memory_entries
unfolding allocate
allocate-entries host mem p s type = ground arith

abbrev pub Kept : Option Memory → Type 0
Kept none = ⊥
Kept (some mem) = AreApart mem.memory_entries

check_one :
    (es : List MemoryEntry) (p s : ℕ)
    → (check_addr_available es p s == 0) ≡ false
    → check_addr_available es p s ≡ 1
unfolding check_addr_available
check_one [] p s h = refl
check_one (e ∷ es) p s h = ground (arith, check_one es p s)

-- `memory_alloc` keeps the regions of the entries disjoint and below 2^64, whatever the host
-- answers, if the region that is asked for ends below 2^64.
pub memory_alloc-AreApart :
    (host : Host) (mem : Memory) (p s type : ℕ)
    → AreApart mem.memory_entries
    → p + s < 2 ^ 64
    → Kept (memory_alloc host (some mem) p s type).1
unfolding memory_alloc add_entry
memory_alloc-AreApart host mem p s type a small =
    elim (Bool-cases (check_addr_available mem.memory_entries p s == 0)) [
      | inl refused ↦ rw refused a
      | inr free ↦ rw free (
          let clear =
            (check_addr_available_iff mem.memory_entries p s (AreApart-fits _ a) small).0
              (check_one mem.memory_entries p s free) in
          elim (Option-cases (allocate host mem p s type).0) [
            | inl fails ↦ rw fails (rw (allocate-entries host mem p s type) a)
            | inr (e, made) ↦
                let (at, size, _) = allocate-entry host mem p s type e made in
                rw made (elim (Bool-cases host.element_memory) [
                  | inl yes_element ↦
                      rw (yes_element, allocate-entries host mem p s type)
                        (AreApart-snoc mem.memory_entries e a (rw (at, size) small)
                          (rw (at, size) clear))
                  | inr no_element ↦ rw (no_element, allocate-entries host mem p s type) a
                ])
          ])
    ]
