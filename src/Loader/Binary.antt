-- ===== src/Loader/Binary.antt =====
-- The loop of `main` in examples/guests/main.c that puts a flat binary into memory. What `read` gives is
-- the list of the chunks read; it ends where `read` gives no byte or fails.
use blackhv.Base.{
  s64_of_small, ℕ, ◌+◌, ◌^◌, ◌≤◌, ◌<◌, min, ◌≡◌, refl, ap, ◌∙◌, false, Option, none, some, List, [],
  ◌∷◌, ◌++◌, arith, if◌then◌else◌, length, take, length-append, take_all, s64_of, ◌>>=◌,
  Returns-mono, Returns-bind, Exec, Returns, ok, returns,
}
use blackhv.Memory.{MemoryEntry, find_entry, memory_usable}
use blackhv.Memory.Access.{Bytes, memory_write}
use blackhv.Memory.Regions.{FitsWord}
use blackhv.Memory.Lookup.{Contains}
use blackhv.Memory.Transfer.{Stored, room_at, host_at, memory_write-Stored}
use blackhv.Vm.{is_negative}
use blackhv.Loader.{Stored-append}

abbrev pub start_address : ℕ
start_address = 0x7C00

-- The loop, with the bytes read so far; `none` where the program exits. An empty chunk ends the file.
unfoldable pub load_binary :
    List MemoryEntry → (chunks : List (List ℕ)) → (readed : ℕ) → Bytes → Exec (Option (ℕ × Bytes))
load_binary entries [] readed m = ok (some (readed, m))
load_binary entries ([] ∷ chunks) readed m = ok (some (readed, m))
load_binary entries ((b ∷ bs) ∷ chunks) readed m = do
  (written, m') ← memory_write m entries (start_address + readed) (b ∷ bs) (length (b ∷ bs))
  let rest = load_binary entries chunks (readed + length (b ∷ bs)) m'
  if is_negative written then ok none else rest

-- The bytes that `read` gives before the end.
abbrev pub file_bytes : List (List ℕ) → List ℕ
file_bytes [] = []
file_bytes ([] ∷ chunks) = []
file_bytes ((b ∷ bs) ∷ chunks) = (b ∷ bs) ++ file_bytes chunks

-- The addresses of `n` bytes behind those read lie in the usable region of `e`.
pub record Room (entries : List MemoryEntry) (e : MemoryEntry) (readed n : ℕ) : Type 0 where
  pub usable : e.type ≡ memory_usable
  pub fit : FitsWord e
  pub from : e.guest_phys ≤ start_address
  pub within : start_address + readed + n ≤ e.guest_phys + e.size
  pub found :
      (a : ℕ)
      → (start_address + readed ≤ a) × (a < start_address + readed + n)
      → find_entry entries a ≡ some e

s64_of-small : (n : ℕ) → n < 2 ^ 63 → is_negative (s64_of n) ≡ false
s64_of-small n small = rw (s64_of_small n small) refl

-- A chunk with room is written whole, and the result is no error.
memory_write-whole :
    (m : Bytes) (entries : List MemoryEntry) (a : ℕ) (c : List ℕ) (e : MemoryEntry)
    → find_entry entries a ≡ some e
    → e.type ≡ memory_usable
    → FitsWord e
    → Contains e a
    → a + length c ≤ e.guest_phys + e.size
    → length c < 2 ^ 63
    → Returns
        (λ (w, m1). (is_negative w ≡ false) × Stored m (host_at e a) c m1)
        (memory_write m entries a c (length c))
memory_write-whole m entries a c e here usable fit at room small =
    let n : min (room_at e a) (length c) ≡ length c = omega (arith, room) in
    let all : take (length c) c ≡ c = take_all (length c) c (omega arith) in
    Returns-mono (memory_write-Stored m entries a c (length c) here usable fit at (omega arith))
      λ (w, m1) (count, st).
        let is : w ≡ s64_of (length c) = rw n at count in
        (rw is (s64_of-small (length c) small), rw all at (rw n at st))

-- A binary of fewer than 2^63 bytes that ends within the usable region that its addresses are in
-- is loaded whole, from the start address on; the loop counts its bytes and touches no other
-- byte.
pub load_binary-Stored :
    (entries : List MemoryEntry) (e : MemoryEntry) (chunks : List (List ℕ)) (readed : ℕ) (m : Bytes)
    → length (file_bytes chunks) < 2 ^ 63
    → Room entries e readed (length (file_bytes chunks))
    → Returns
        (λ r.
          (m' : Bytes) × (r ≡ some (readed + length (file_bytes chunks), m'))
          × Stored m (host_at e (start_address + readed)) (file_bytes chunks) m')
        (load_binary entries chunks readed m)
unfolding load_binary
load_binary-Stored entries e [] readed m small room =
    let z : readed + 0 ≡ readed = omega arith in returns (m, rw z refl, (refl, λ c out. refl))
load_binary-Stored entries e ([] ∷ chunks) readed m small room =
    let z : readed + 0 ≡ readed = omega arith in returns (m, rw z refl, (refl, λ c out. refl))
load_binary-Stored entries e ((b ∷ bs) ∷ chunks) readed m small room =
    let a : ℕ = start_address + readed in
    let c : List ℕ = b ∷ bs in
    let k : ℕ = length c in
    let total : length (c ++ file_bytes chunks) ≡ k + length (file_bytes chunks) =
      length-append c (file_bytes chunks) in
    let some_left : 0 < k = omega arith in
    let here : find_entry entries a ≡ some e = room.found a (omega arith) in
    let later : Room entries e (readed + k) (length (file_bytes chunks)) = record {
      usable = room.usable;
      fit = room.fit;
      from = room.from;
      within = omega (arith, room.within);
      found = λ x in_rest. room.found x (omega arith);
    } in
    let sum : readed + k + length (file_bytes chunks) ≡ readed + length (c ++ file_bytes chunks) =
      omega arith in
    let next : host_at e (start_address + (readed + k)) ≡ host_at e a + k =
      omega (arith, room.from) in
    Returns-bind
      (memory_write-whole m entries a c e here room.usable room.fit
        (omega (arith, room.within, room.from)) (omega (arith, room.within)) (omega arith))
      λ (w, m1) (positive, st). rw positive (
        Returns-mono (load_binary-Stored entries e chunks (readed + k) m1 (omega arith) later)
          λ r (m2, is, st'). (
            m2,
            is ∙ ap (λ x. some (x, m2)) sum,
            Stored-append m m1 m2 (host_at e a) c (file_bytes chunks) st (rw next at st'),
          ))
