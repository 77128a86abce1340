-- ===== src/Loader.antt =====
-- The example programs that put a guest into memory and start it: examples/k/main.c, examples/linux/main.c
-- and examples/guests/main.c. This module has what they share: `memset`, `memcpy` and
-- `strcpy` as a list of bytes stored at a host address, and `load_file`.

pub mod Segments
pub mod K
pub mod Linux
pub mod Binary
pub mod Tests
use blackhv.Base.{
  ℕ, zero, suc, ◌+◌, ◌-◌, ◌*◌, ◌/◌, ◌%◌, ◌^◌, ◌≤◌, ◌<◌, min, ◌≡◌, refl, sym, ap, ◌∙◌, ◌≢◌, ◌↔◌, ◌⊎◌,
  inl, inr, Bool, true, false, not, ◌&&◌, ◌||◌, Option, none, some, List, [], ◌∷◌, ◌++◌, map,
  append_assoc, append-nil, arith, ltb, leb, ◌==◌, if◌then◌else◌, int_of, ==_iff, ==_refl, ==_false,
  lt→ltb, le→ltb, Bool-cases, Option-cases, length, get_elem?, set, take, drop, replicate, All,
  length-append, get_elem?-append, length-set, length-take, length-drop, length-replicate,
  get_elem?-set_self, get_elem?-set_ne, get_elem?-some, drop-cons_of_get, take_cons, set-append,
  take-drop, take-append_take, take_all, drop_all, minus_one, s64_of, add_u64, sub_u64, ℤ, ◌>>=◌,
  access, Returns-mono, Returns-bind, Returns-value, Exec, Returns, ok, fault, out_of_fuel, returns,
  pos, negsuc,
}
use blackhv.Memory.{MemoryEntry, find_entry}
use blackhv.Vm.{is_negative}
use blackhv.Vm.Setup.{map_failed}
use blackhv.Memory.Access.{Bytes, poke}
use blackhv.Memory.Transfer.{peek, Stored, Stored-cons}

-- Do `n` bytes from a guest address on lie in the region that holds it?
unfoldable pub in_region : List MemoryEntry → (addr n : ℕ) → Bool
in_region entries addr n = elim (find_entry entries addr) [
  | none ↦ false
  | some e ↦ leb (addr + n) (e.guest_phys + e.size)
]

pub in_region-less :
    (entries : List MemoryEntry) (addr n k : ℕ)
    → k ≤ n
    → in_region entries addr n ≡ true
    → in_region entries addr k ≡ true
unfolding in_region
in_region-less entries addr n k less inside = elim (Option-cases (find_entry entries addr)) [
  | inl none_there ↦
      let never : false ≡ true = rw (none_there, in_region) at inside in absurd (ground arith)
  | inr (e, is) ↦
      let ends : leb (addr + n) (e.guest_phys + e.size) ≡ true = rw (is, in_region) at inside in
      rw (is, in_region) (ground (arith, ends, less))
]

-- A write past the end of a region's mapping is undefined.
abbrev pub bounded : {A : Type 0} → (inside : Bool) → Exec A → Exec A
bounded inside r = if inside then r else fault

-- The bytes `bs` copied to the addresses from `a` on.
unfoldable pub store : Bytes → (a : ℕ) → List ℕ → Bytes
store m a [] = m
store m a (b ∷ bs) = store (poke m a b) (a + 1) bs

-- `memcpy` reads its source; one that is too short is read out of bounds.
unfoldable pub source_bytes : List ℕ → (offset n : ℕ) → Exec (List ℕ)
source_bytes image offset n =
    if leb (offset + n) (length image) then ok (take n (drop offset image)) else fault

-- A word of `n` bytes, the lowest first.
unfoldable pub little_endian : (n v : ℕ) → List ℕ
little_endian zero v = []
little_endian (suc n) v = v % 256 ∷ little_endian n (v / 256)

pub store-Stored : (m : Bytes) (a : ℕ) (bs : List ℕ) → Stored m a bs (store m a bs)
unfolding store
store-Stored m a [] = (refl, λ c out. refl)
store-Stored m a (b ∷ bs) = Stored-cons m _ a b bs (store-Stored (poke m a b) (a + 1) bs)

pub peek-kept :
    (m m' : Bytes) (a n : ℕ)
    → ((c : ℕ) → (a ≤ c) × (c < a + n) → m' c ≡ m c)
    → peek m' a n ≡ peek m a n
peek-kept m m' a zero same = refl
peek-kept m m' a (suc n) same =
    let first = same a (omega arith) in
    let rest = peek-kept m m' (a + 1) n (λ c at. same c (omega arith)) in rw (first, rest) refl

pub peek-append : (m : Bytes) (a n k : ℕ) → peek m a (n + k) ≡ peek m a n ++ peek m (a + n) k
peek-append m a zero k =
    let z : a + 0 ≡ a = omega arith in
    let none_more : 0 + k ≡ k = omega arith in rw (z, none_more) refl
peek-append m a (suc n) k =
    let s : suc n + k ≡ suc (n + k) = omega arith in
    let shift : a + suc n ≡ a + 1 + n = omega arith in
    rw (s, shift) (ap (λ x. m a ∷ x) (peek-append m (a + 1) n k))

-- Bytes held at an address hold their end further on.
pub peek-end :
    (m : Bytes) (a : ℕ) (xs ys : List ℕ)
    → peek m a (length (xs ++ ys)) ≡ xs ++ ys
    → peek m (a + length xs) (length ys) ≡ ys
peek-end m a [] ys held = let z : a + 0 ≡ a = omega arith in rw z held
peek-end m a (x ∷ xs) ys held =
    let shift : a + suc (length xs) ≡ a + 1 + length xs = omega arith in
    rw shift (
      peek-end m (a + 1) xs ys
        (let rest : peek m (a + 1) (length (xs ++ ys)) ≡ xs ++ ys = cc in rest))

-- A second store over the first bytes of another.
pub Stored-over :
    (m m1 m2 : Bytes) (a : ℕ) (xs ys bs : List ℕ)
    → length bs ≡ length xs
    → Stored m a (xs ++ ys) m1
    → Stored m1 a bs m2
    → Stored m a (bs ++ ys) m2
Stored-over m m1 m2 a xs ys bs size (held, same) (held', same') =
    let total : length (bs ++ ys) ≡ length bs + length ys = length-append bs ys in
    let total' : length (xs ++ ys) ≡ length xs + length ys = length-append xs ys in
    let back : peek m2 (a + length bs) (length ys) ≡ ys =
      peek-kept m1 m2 (a + length bs) (length ys) (λ c at. same' c (inr (omega arith)))
      ∙ rw size (peek-end m1 a xs ys held) in
    (
      rw total (peek-append m2 a (length bs) (length ys) ∙ rw (held', back) refl),
      λ c out. same' c (ground arith) ∙ same c (ground arith),
    )

-- A store behind another.
pub Stored-append :
    (m m1 m2 : Bytes) (a : ℕ) (xs ys : List ℕ)
    → Stored m a xs m1
    → Stored m1 (a + length xs) ys m2
    → Stored m a (xs ++ ys) m2
Stored-append m m1 m2 a xs ys (held, same) (held', same') =
    let total : length (xs ++ ys) ≡ length xs + length ys = length-append xs ys in
    let front : peek m2 a (length xs) ≡ xs =
      peek-kept m1 m2 a (length xs) (λ c at. same' c (inl (omega arith))) ∙ held in
    (
      rw total (peek-append m2 a (length xs) (length ys) ∙ rw (front, held') refl),
      λ c out. same' c (ground arith) ∙ same c (ground arith),
    )

pub replicate-split : (n k v : ℕ) → replicate (n + k) v ≡ replicate n v ++ replicate k v
replicate-split zero k v = let s : zero + k ≡ k = omega arith in rw s refl
replicate-split (suc n) k v =
    let s : suc n + k ≡ suc (n + k) = omega arith in rw s (ap (λ x. v ∷ x) (replicate-split n k v))

-- `n` bytes at `a` cleared with `memset`, and then `bs` copied there with `memcpy`.
unfoldable pub clear_and_copy : Bytes → (a n : ℕ) → List ℕ → Bytes
unfolding store
clear_and_copy m a n bs = store (store m a (replicate n 0)) a bs

pub clear_and_copy-Stored :
    (m : Bytes) (a n : ℕ) (bs : List ℕ)
    → length bs ≤ n
    → Stored m a (bs ++ replicate (n - length bs) 0) (clear_and_copy m a n bs)
unfolding clear_and_copy
clear_and_copy-Stored m a n bs fits =
    let k : ℕ = length bs in
    let zeroed : Bytes = store m a (replicate n 0) in
    let zeros : replicate n 0 ≡ replicate k 0 ++ replicate (n - k) 0 =
      ap (λ x. replicate x 0) (omega (arith, fits)) ∙ replicate-split k (n - k) 0 in
    Stored-over m zeroed _ a (replicate k 0) (replicate (n - k) 0) bs (sym (length-replicate k 0))
      (rw (sym zeros) (store-Stored m a (replicate n 0))) (store-Stored zeroed a bs)

-- The same with the length written out.
pub clear_and_copy-peek :
    (m : Bytes) (a n : ℕ) (bs : List ℕ)
    → length bs ≤ n
    → (peek (clear_and_copy m a n bs) a n ≡ bs ++ replicate (n - length bs) 0)
      × ((c : ℕ) → (c < a) ⊎ (a + n ≤ c) → clear_and_copy m a n bs c ≡ m c)
clear_and_copy-peek m a n bs fits =
    let pad : List ℕ = replicate (n - length bs) 0 in
    let size : length (bs ++ pad) ≡ n =
      omega (arith, length-append bs pad, length-replicate {A = ℕ} (n - length bs) 0, fits) in
    rw size at (clear_and_copy-Stored m a n bs fits)

-- What `mmap` gives for a file, or what fails; descriptors and addresses are numbers.
pub record FileHost : Type 0 where
  pub open_result : ℤ
  pub fstat_fails : Bool
  pub st_size : ℕ
  pub mmap_result : ℕ

-- `load_file`: the address and the size of the mapped file, and the descriptors closed.
unfoldable pub load_file : FileHost → Option (ℕ × ℕ) × List ℤ
load_file host =
    if is_negative host.open_result
    then (none, [])
    else if host.fstat_fails
    then (none, host.open_result ∷ [])
    else if host.mmap_result == map_failed
    then (none, host.open_result ∷ host.open_result ∷ [])
    else (some (host.mmap_result, host.st_size), host.open_result ∷ [])

-- The registers of `struct kvm_regs` that the loaders set.
pub record Regs : Type 0 where
  pub rax : ℕ
  pub rbx : ℕ
  pub rsi : ℕ
  pub rip : ℕ
