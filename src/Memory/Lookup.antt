-- ===== src/Memory/Lookup.antt =====
-- `find_entry` of src/memory.c, on regions that do not overlap.
use blackhv.Base.{
  ℕ, zero, suc, ◌+◌, ◌≤◌, ◌<◌, ◌≡◌, inl, inr, true, false, some, List, [], ◌∷◌, arith, Bool-cases,
  get_elem?, All,
}
use blackhv.Memory.{MemoryEntry, covers, find_entry}
use blackhv.Memory.Regions.{Apart, FitsWord, AreApart}

-- The address lies in the entry's region.
abbrev pub Contains : MemoryEntry → ℕ → Type 0
Contains e addr = (e.guest_phys ≤ addr) × (addr < e.guest_phys + e.size)

covers-Contains : (e : MemoryEntry) (addr : ℕ) → FitsWord e → covers e addr ≡ true → Contains e addr
covers-Contains e addr fit h = ground arith

Contains-covers : (e : MemoryEntry) (addr : ℕ) → FitsWord e → Contains e addr → covers e addr ≡ true
Contains-covers e addr fit c = ground arith

-- Where the regions are disjoint, an entry that `find_entry` gives is one of the list, and its
-- region contains the address.
pub find_entry_sound :
    (es : List MemoryEntry) (addr : ℕ) {e : MemoryEntry}
    → AreApart es
    → find_entry es addr ≡ some e
    → ((i : ℕ) × (get_elem? es i ≡ some e)) × Contains e addr
unfolding find_entry
find_entry_sound [] addr a h = cc
find_entry_sound (f ∷ es) addr {e} (fit, _, a) h = elim (Bool-cases (covers f addr)) [
  | inl c ↦
      let q : some f ≡ some e = rw c at h in ((0, q), ground (arith, covers-Contains f addr fit c))
  | inr c ↦ let ((i, at), k) = find_entry_sound es addr a (rw c at h) in ((suc i, at), k)
]

AreApart-at :
    (es : List MemoryEntry) (p s i : ℕ) {e : MemoryEntry}
    → All (λ f. Apart f p s) es
    → get_elem? es i ≡ some e
    → Apart e p s
AreApart-at [] p s i a h = cc
AreApart-at (f ∷ es) p s zero {e} (k, a) h = ground arith
AreApart-at (f ∷ es) p s (suc i) (k, a) h = AreApart-at es p s i a h

fits_at :
    (es : List MemoryEntry) (i : ℕ) {e : MemoryEntry}
    → AreApart es
    → get_elem? es i ≡ some e
    → FitsWord e
fits_at [] i a h = cc
fits_at (f ∷ es) zero a h = ground arith
fits_at (f ∷ es) (suc i) a h = fits_at es i a.2 h

-- Where the regions are disjoint, `find_entry` gives an entry of the list at every address of its
-- region.
pub find_entry_complete :
    (es : List MemoryEntry) (addr i : ℕ) {e : MemoryEntry}
    → AreApart es
    → get_elem? es i ≡ some e
    → Contains e addr
    → find_entry es addr ≡ some e
unfolding find_entry
find_entry_complete [] addr i a h c = cc
find_entry_complete (f ∷ es) addr zero {e} a h c = ground (arith, Contains-covers f addr a.0)
find_entry_complete (f ∷ es) addr (suc i) {e} (fit, away, a) h c =
    let apart = AreApart-at es f.guest_phys f.size i away h in
    let off : covers f addr ≡ false = ground arith in rw off (find_entry_complete es addr i a h c)
