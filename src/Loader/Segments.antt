-- ===== src/Loader/Segments.antt =====
-- The loop over the program headers in `load_k` of examples/k/main.c. The types of elf.h are known
-- by the fields that the loop uses.
use Prim.Native.Nat.{bit_and}
use blackhv.Base.{
  ℕ, zero, suc, ◌+◌, ◌-◌, ◌≤◌, ◌<◌, ◌≡◌, refl, ◌∙◌, ◌≢◌, ◌⊎◌, inl, inr, Bool, true, false, not,
  ◌&&◌, Option, none, some, List, ◌++◌, arith, leb, ◌==◌, if◌then◌else◌, Bool-cases, length, take,
  drop, replicate, length-append, length-take, length-drop, length-replicate, ◌>>=◌, Returns-mono,
  Exec, Returns, ok, returns,
}
use blackhv.Memory.{MemoryEntry}
use blackhv.Memory.Access.{Bytes, memory_get_ptr}
use blackhv.Memory.Transfer.{peek, Stored}
use blackhv.Loader.{
  in_region, in_region-less, bounded, clear_and_copy, source_bytes, peek-kept,
  clear_and_copy-Stored,
}

-- The fields of `Elf32_Phdr` that are used.
pub record ProgramHeader : Type 0 where
  pub p_type : ℕ
  pub p_offset : ℕ
  pub p_paddr : ℕ
  pub p_filesz : ℕ
  pub p_memsz : ℕ

abbrev pub pt_load : ℕ
pt_load = 1

-- One round of the loop; `none` where the program exits.
unfoldable pub load_segment :
    List MemoryEntry → (image : List ℕ) → ProgramHeader → Bytes → Exec (Option Bytes)
unfolding clear_and_copy
load_segment entries image ph m =
    let mem = memory_get_ptr entries ph.p_paddr in
    if bit_and ph.p_type pt_load == 0
    then ok (some m)
    else if mem == 0
    then ok none
    else bounded
        (in_region entries ph.p_paddr ph.p_memsz && in_region entries ph.p_paddr ph.p_filesz)
        (do
          bytes ← source_bytes image ph.p_offset ph.p_filesz
          ok (some (clear_and_copy m mem ph.p_memsz bytes)))

-- Is the segment loaded?
abbrev pub is_loaded : ProgramHeader → Bool
is_loaded ph = not (bit_and ph.p_type pt_load == 0)

-- What a segment holds when it is loaded: the file's bytes, then zeros.
abbrev pub contents : (image : List ℕ) → ProgramHeader → List ℕ
contents image ph =
    take ph.p_filesz (drop ph.p_offset image) ++ replicate (ph.p_memsz - ph.p_filesz) 0

-- A segment that lies in a region of usable memory, and whose bytes are in the file.
pub record Loadable (entries : List MemoryEntry) (image : List ℕ) (ph : ProgramHeader)
    : Type 0 where
  pub address : memory_get_ptr entries ph.p_paddr ≢ 0
  pub within : in_region entries ph.p_paddr ph.p_memsz ≡ true
  pub in_file : ph.p_offset + ph.p_filesz ≤ length image
  pub fits : ph.p_filesz ≤ ph.p_memsz

load_segment-Stored :
    (entries : List MemoryEntry) (image : List ℕ) (ph : ProgramHeader) (m : Bytes)
    → is_loaded ph ≡ true
    → Loadable entries image ph
    → (m' : Bytes) × (load_segment entries image ph m ≡ ok (some m'))
      × Stored m (memory_get_ptr entries ph.p_paddr) (contents image ph) m'
unfolding load_segment source_bytes
load_segment-Stored entries image ph m on l =
    let bytes : List ℕ = take ph.p_filesz (drop ph.p_offset image) in
    let address : (memory_get_ptr entries ph.p_paddr == 0) ≡ false = ground (arith, l.address) in
    let inside : leb (ph.p_offset + ph.p_filesz) (length image) ≡ true =
      ground (arith, l.in_file) in
    let file_within = in_region-less entries ph.p_paddr ph.p_memsz ph.p_filesz l.fits l.within in
    let loads : (bit_and ph.p_type pt_load == 0) ≡ false = ground arith in
    let size : length bytes ≡ ph.p_filesz = omega (
      arith,
      length-take ph.p_filesz (drop ph.p_offset image),
      length-drop ph.p_offset image,
      l.in_file,
    ) in
    let fits : length bytes ≤ ph.p_memsz = omega (arith, l.fits) in
    (
      clear_and_copy m (memory_get_ptr entries ph.p_paddr) ph.p_memsz bytes,
      rw (loads, address, l.within, file_within, inside) refl,
      rw size at
          (clear_and_copy-Stored m (memory_get_ptr entries ph.p_paddr) ph.p_memsz bytes fits),
    )

load_segment-skip :
    (entries : List MemoryEntry) (image : List ℕ) (ph : ProgramHeader) (m : Bytes)
    → is_loaded ph ≡ false
    → load_segment entries image ph m ≡ ok (some m)
unfolding load_segment
load_segment-skip entries image ph m off =
    let skips : (bit_and ph.p_type pt_load == 0) ≡ true = ground arith in rw skips refl

-- The addresses of a segment, and one outside it.
abbrev pub Outside : List MemoryEntry → (a : ℕ) → ProgramHeader → Type 0
Outside entries a ph =
    (a < memory_get_ptr entries ph.p_paddr) ⊎ (memory_get_ptr entries ph.p_paddr + ph.p_memsz ≤ a)

-- Two segments that share no address.
abbrev pub Apart : List MemoryEntry → (ph ph' : ProgramHeader) → Type 0
Apart entries ph ph' =
    (memory_get_ptr entries ph.p_paddr + ph.p_memsz ≤ memory_get_ptr entries ph'.p_paddr)
    ⊎ (memory_get_ptr entries ph'.p_paddr + ph'.p_memsz ≤ memory_get_ptr entries ph.p_paddr)

abbrev pub Holds : List MemoryEntry → (image : List ℕ) → Bytes → ProgramHeader → Type 0
Holds entries image m ph = peek m (memory_get_ptr entries ph.p_paddr) ph.p_memsz ≡ contents image ph

length-contents :
    (entries : List MemoryEntry) (image : List ℕ) (ph : ProgramHeader)
    → Loadable entries image ph
    → length (contents image ph) ≡ ph.p_memsz
length-contents entries image ph l =
    let n : ℕ = ph.p_filesz in
    let file : List ℕ = take n (drop ph.p_offset image) in
    let zeros : List ℕ = replicate (ph.p_memsz - n) 0 in
    omega (
      arith,
      length-append file zeros,
      length-take n (drop ph.p_offset image),
      length-drop ph.p_offset image,
      length-replicate {A = ℕ} (ph.p_memsz - n) 0,
      l.in_file,
      l.fits,
    )

-- `program_header image i` is the program header with index `i`, where the image has one.
module _ (program_header : (image : List ℕ) → (i : ℕ) → Exec ProgramHeader) where
  -- The loop from index `i`, with `n` headers to go.
  unfoldable pub load_segments :
      List MemoryEntry → (image : List ℕ) → (n i : ℕ) → Bytes → Exec (Option Bytes)
  unfolding load_segment
  load_segments entries image zero i m = ok (some m)
  load_segments entries image (suc n) i m = do
    ph ← program_header image i
    loaded ← load_segment entries image ph m
    elim loaded [ none ↦ ok none | some m' ↦ load_segments entries image n (i + 1) m' ]

  module _ (entries : List MemoryEntry) (image : List ℕ) (headers : ℕ → ProgramHeader) where
    -- The segments with index `i` up to `n` more are in memory, and nothing else has changed.
    abbrev pub Loaded : (n i : ℕ) → Bytes → Option Bytes → Type 0
    Loaded n i m r =
        (m' : Bytes) × (r ≡ some m')
        × ((k : ℕ)
            → (i ≤ k) × (k < i + n)
            → is_loaded (headers k) ≡ true
            → Holds entries image m' (headers k))
        × ((a : ℕ)
            → ((k : ℕ)
                → (i ≤ k) × (k < i + n)
                → is_loaded (headers k) ≡ true
                → Outside entries a (headers k))
            → m' a ≡ m a)

    abbrev AllApart : (n i : ℕ) → Type 0
    AllApart n i =
        (k k' : ℕ)
        → (i ≤ k) × (k < k') × (k' < i + n)
        → is_loaded (headers k) ≡ true
        → is_loaded (headers k') ≡ true
        → Apart entries (headers k) (headers k')

    -- A segment put in memory stays there while those behind it are loaded.
    Loaded-cons :
        (n i : ℕ) (m m1 : Bytes) (r : Option Bytes)
        → is_loaded (headers i) ≡ true
        → Loadable entries image (headers i)
        → Stored m (memory_get_ptr entries (headers i).p_paddr) (contents image (headers i)) m1
        → AllApart (suc n) i
        → Loaded n (i + 1) m1 r
        → Loaded (suc n) i m r
    Loaded-cons n i m m1 r on l st apart (m', is, held, same) =
        let mem : ℕ = memory_get_ptr entries (headers i).p_paddr in
        let (first, off) = rw (length-contents entries image (headers i) l) at st in
        let kept : Holds entries image m' (headers i) =
          peek-kept m1 m' mem (headers i).p_memsz (λ c at. same c (λ k within on'.
            elim (apart i k (omega arith) on on') [
              | inl before ↦ inl (omega arith)
              | inr behind ↦ inr (omega arith)
            ]))
          ∙ first in
        (
          m',
          is,
          (λ k within on'. elim (Bool-cases (k == i)) [
            | inl here ↦ (let e : k ≡ i = ground arith in rw e kept)
            | inr later ↦ held k (ground arith) on'
          ]),
          (λ a out. same a (λ k within. out k (omega arith)) ∙ off a (out i (omega arith) on)),
        )

    -- A header of another type is passed over.
    Loaded-skip :
        (n i : ℕ) (m : Bytes) (r : Option Bytes)
        → is_loaded (headers i) ≡ false
        → Loaded n (i + 1) m r
        → Loaded (suc n) i m r
    Loaded-skip n i m r off (m', is, held, same) = (
      m',
      is,
      (λ k within on'. elim (Bool-cases (k == i)) [
        | inl here ↦
            (let e : k ≡ i = ground arith in
              let other : is_loaded (headers i) ≡ true = rw e at on' in absurd (ground arith))
        | inr later ↦ held k (ground arith) on'
      ]),
      (λ a out. same a (λ k within. out k (omega arith))),
    )

    pub load_segments-Loaded :
        (n i : ℕ) (m : Bytes)
        → ((k : ℕ) → (i ≤ k) × (k < i + n) → program_header image k ≡ ok (headers k))
        → ((k : ℕ)
            → (i ≤ k) × (k < i + n)
            → is_loaded (headers k) ≡ true
            → Loadable entries image (headers k))
        → ((k k' : ℕ)
            → (i ≤ k) × (k < k') × (k' < i + n)
            → is_loaded (headers k) ≡ true
            → is_loaded (headers k') ≡ true
            → Apart entries (headers k) (headers k'))
        → Returns (Loaded n i m) (load_segments entries image n i m)
    unfolding load_segments
    load_segments-Loaded zero i m there loadable apart =
        returns (m, refl, (λ k within. absurd (omega arith)), (λ a out. refl))
    load_segments-Loaded (suc n) i m there loadable apart =
        let at_i = there i (omega arith) in
        let rest : (m1 : Bytes)
            → Returns (Loaded n (i + 1) m1) (load_segments entries image n (i + 1) m1) =
          λ m1.
            load_segments-Loaded n (i + 1) m1 (λ k within. there k (omega arith))
              (λ k within. loadable k (omega arith)) (λ k k' within. apart k k' (omega arith)) in
        elim (Bool-cases (is_loaded (headers i))) [
          | inl on ↦
              let (m1, runs, st) =
                load_segment-Stored entries image (headers i) m on (loadable i (omega arith) on) in
              rw (at_i, runs)
                (Returns-mono (rest m1)
                  λ r. Loaded-cons n i m m1 r on (loadable i (omega arith) on) st apart)
          | inr off ↦
              let runs : load_segment entries image (headers i) m ≡ ok (some m) =
                load_segment-skip entries image (headers i) m off in
              rw (at_i, runs) (Returns-mono (rest m) λ r. Loaded-skip n i m r off)
        ]
