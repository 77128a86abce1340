-- ===== src/Memory/Transfer.antt =====
-- What `memory_write` and `memory_read` of src/memory.c copy.
use native.Mathlib.Nat.{mod-eq_of_lt}
use blackhv.Base.{
  set, Option-cases, length-set, set-append, ℕ, zero, suc, ◌+◌, ◌-◌, ◌^◌, ◌≤◌, ◌<◌, min, ◌≡◌, refl,
  ap, ◌∙◌, ◌⊎◌, inl, inr, true, false, not, ◌&&◌, some, List, [], ◌∷◌, ◌++◌, append_assoc, arith,
  ltb, ◌==◌, lt→ltb, Bool-cases, length, take, drop, length-append, length-take, get_elem?-some,
  drop-cons_of_get, take_cons, s64_of, sub_u64, ◌>>=◌, Returns-mono, Returns-bind, Returns, returns,
}
use blackhv.Memory.{MemoryEntry, find_entry, memory_usable, memory_framebuffer}
use blackhv.Memory.Regions.{FitsWord}
use blackhv.Memory.Lookup.{Contains}
use blackhv.Memory.Access.{
  Bytes, poke, write_loop, read_loop, memory_write, memory_read, memory_get_ptr,
}

-- The bytes at `n` addresses from `a` on.
abbrev pub peek : Bytes → ℕ → ℕ → List ℕ
peek m a zero = []
peek m a (suc n) = m a ∷ peek m (a + 1) n

-- `m'` holds the bytes `bs` from `a` on, and is `m` elsewhere.
abbrev pub Stored : Bytes → ℕ → List ℕ → Bytes → Type 0
Stored m a bs m' =
    (peek m' a (length bs) ≡ bs) × ((c : ℕ) → (c < a) ⊎ (a + length bs ≤ c) → m' c ≡ m c)

pub Stored-cons :
    (m m' : Bytes) (a b : ℕ) (bs : List ℕ)
    → Stored (poke m a b) (a + 1) bs m'
    → Stored m a (b ∷ bs) m'
unfolding poke
Stored-cons m m' a b bs (held, same) = (
  (let first : m' a ≡ b = ground (arith, same a) in rw (first, held)),
  λ c out. ground (arith, same c),
)

write_loop-Stored :
    (fuel : ℕ) (m : Bytes) (ptr : ℕ) (buffer : List ℕ) (limit size written : ℕ)
    → min limit size ≤ length buffer
    → size - written < fuel
    → written ≤ min limit size
    → Returns
        (λ (n, m').
          (n ≡ min limit size)
          × Stored m (ptr + written) (take (min limit size - written) (drop written buffer)) m')
        (write_loop fuel m ptr buffer limit size written)
unfolding write_loop
write_loop-Stored zero m ptr buffer limit size written inside enough le = absurd (omega arith)
write_loop-Stored (suc fuel) m ptr buffer limit size written inside enough le =
    elim (Bool-cases (ltb written limit && ltb written size)) [
      | inl on ↦
          let more : written < min limit size = ground arith in
          let (b, got) = get_elem?-some buffer written (omega arith) in
          let k : ℕ = min limit size - (written + 1) in
          let shift : ptr + (written + 1) ≡ ptr + written + 1 = omega arith in
          let bytes =
            take_cons (min limit size - written) k (omega arith)
              (drop-cons_of_get buffer written got) in
          rw (on, got, bytes)
            (Returns-mono
              (write_loop-Stored fuel (poke m (ptr + written) b) ptr buffer limit size (written + 1)
                inside (omega arith) (omega arith))
              (λ (n, m') (count, st).
                (count, Stored-cons m m' (ptr + written) b _ (rw shift at st))))
      | inr off ↦
          let k : min limit size - written ≡ 0 = ground arith in
          rw (off, k) (returns (ground arith, (refl, λ c out. refl)))
    ]

-- The same for reads: the first bytes of the buffer are replaced.
read_loop-peek :
    (fuel : ℕ) (m : Bytes) (ptr : ℕ) (done rest : List ℕ) (limit size i : ℕ)
    → i ≡ length done
    → min limit size ≤ i + length rest
    → size - i < fuel
    → i ≤ min limit size
    → Returns
        (λ (n, buffer').
          (n ≡ min limit size)
          × (buffer'
              ≡ done ++ (peek m (ptr + i) (min limit size - i) ++ drop (min limit size - i) rest)))
        (read_loop fuel m ptr (done ++ rest) limit size i)
unfolding read_loop
read_loop-peek zero m ptr done rest limit size i at inside enough le = absurd (omega arith)
read_loop-peek (suc fuel) m ptr done [] limit size i at inside enough le =
    let k : min limit size - i ≡ 0 = omega arith in
    let off : (ltb i limit && ltb i size) ≡ false = ground arith in
    rw (off, k) (returns (omega arith, refl))
read_loop-peek (suc fuel) m ptr done (r ∷ rest) limit size i at inside enough le =
    elim (Bool-cases (ltb i limit && ltb i size)) [
      | inl on ↦
          let more : i < min limit size = ground arith in
          let k : min limit size - i ≡ suc (min limit size - (i + 1)) = omega arith in
          let room : i < length (done ++ (r ∷ rest)) =
            omega (arith, length-append done (r ∷ rest)) in
          let b : ℕ = m (ptr + i) in
          rw (on, k, lt→ltb i (length (done ++ (r ∷ rest))) room, set-append done r b i rest at)
            (Returns-mono
              (read_loop-peek fuel m ptr (done ++ (b ∷ [])) rest limit size (i + 1)
                (omega (arith, length-append done (b ∷ []))) (omega arith) (omega arith)
                (omega arith))
              (λ (n, buffer') (count, e).
                let shift : ptr + (i + 1) ≡ ptr + i + 1 = omega arith in
                (count, rw shift at e ∙ append_assoc done (b ∷ []) _)))
      | inr off ↦
          let k : min limit size - i ≡ 0 = ground arith in
          rw (off, k) (returns (ground arith, refl))
    ]

-- How many bytes of the entry's region are left from an address in it.
abbrev pub room_at : MemoryEntry → ℕ → ℕ
room_at e addr = e.guest_phys + e.size - addr

-- The host address of a guest address in the entry's region.
abbrev pub host_at : MemoryEntry → ℕ → ℕ
host_at e addr = e.memory_ptr + (addr - e.guest_phys)

offsets :
    (e : MemoryEntry) (addr : ℕ)
    → FitsWord e
    → Contains e addr
    → (sub_u64 addr e.guest_phys ≡ addr - e.guest_phys)
      × (sub_u64 e.size (sub_u64 addr e.guest_phys) ≡ room_at e addr)
offsets e addr fit c = omega arith

-- At an address in a usable region that stays below 2^64, with a source as long as what is
-- copied, `memory_write` copies as many bytes as asked for, but none behind the region's end, to
-- the host memory behind the region, touches no other byte, and returns their number.
pub memory_write-Stored :
    (m : Bytes) (entries : List MemoryEntry) (dest : ℕ) (buffer : List ℕ) (size : ℕ)
    {e : MemoryEntry}
    → find_entry entries dest ≡ some e
    → e.type ≡ memory_usable
    → FitsWord e
    → Contains e dest
    → min (room_at e dest) size ≤ length buffer
    → let n = min (room_at e dest) size in
      Returns
        (λ (r, m'). (r ≡ s64_of n) × Stored m (host_at e dest) (take n buffer) m')
        (memory_write m entries dest buffer size)
unfolding memory_write
memory_write-Stored m entries dest buffer size {e} found usable fit c inside =
    let (base, limit) = offsets e dest fit c in
    let is_usable : (e.type == memory_usable) ≡ true = ground arith in
    let z : host_at e dest + 0 ≡ host_at e dest = omega arith in
    let k : min (room_at e dest) size - 0 ≡ min (room_at e dest) size = omega arith in
    rw (found, memory_write)
      (rw (is_usable, limit, base)
        (Returns-bind
          (write_loop-Stored (size + 1) m (host_at e dest) buffer (room_at e dest) size 0 inside
            (omega arith) (omega arith))
          (λ (n, m') (count, st). returns (ap s64_of count, rw k at (rw z at st)))))

-- From a usable region or a framebuffer `memory_read` copies the same bytes to the front of the buffer.
pub memory_read-peek :
    (m : Bytes) (entries : List MemoryEntry) (src : ℕ) (buffer : List ℕ) (size : ℕ)
    {e : MemoryEntry}
    → find_entry entries src ≡ some e
    → (e.type ≡ memory_usable) ⊎ (e.type ≡ memory_framebuffer)
    → FitsWord e
    → Contains e src
    → min (room_at e src) size ≤ length buffer
    → let n = min (room_at e src) size in
      Returns
        (λ (r, b). (r ≡ s64_of n) × (b ≡ peek m (host_at e src) n ++ drop n buffer))
        (memory_read m entries src buffer size)
unfolding memory_read
memory_read-peek m entries src buffer size {e} found usable fit c inside =
    let (base, limit) = offsets e src fit c in
    let is_readable : (not (e.type == memory_usable) && not (e.type == memory_framebuffer))
        ≡ false =
      ground arith in
    let z : host_at e src + 0 ≡ host_at e src = omega arith in
    let k : min (room_at e src) size - 0 ≡ min (room_at e src) size = omega arith in
    rw (found, memory_read)
      (rw (is_readable, limit, base)
        (Returns-bind
          (read_loop-peek (size + 1) m (host_at e src) [] buffer (room_at e src) size 0 refl
            (omega arith) (omega arith) (omega arith))
          (λ (n, b) (count, e). returns (ap s64_of count, rw k at (rw z at e)))))

-- At an address in a usable region that stays below 2^64, `memory_write` and then `memory_read`
-- of the same size, with buffers at least as long, give back the bytes written, as many as the
-- region has room for; the rest of the output buffer is as it was.
pub memory_read-memory_write :
    (m : Bytes) (entries : List MemoryEntry) (addr : ℕ) (buffer out : List ℕ) (size : ℕ)
    {e : MemoryEntry}
    → find_entry entries addr ≡ some e
    → e.type ≡ memory_usable
    → FitsWord e
    → Contains e addr
    → size ≤ length buffer
    → size ≤ length out
    → let n = min (room_at e addr) size in
      Returns
        (λ (r, b). (r ≡ s64_of n) × (b ≡ take n buffer ++ drop n out))
        (do (w, m') ← memory_write m entries addr buffer size; memory_read m' entries addr out size)
memory_read-memory_write m entries addr buffer out size {e} found usable fit c inside room =
    Returns-bind (memory_write-Stored m entries addr buffer size found usable fit c (omega arith))
      λ (w, m') (_, (held, _)).
        let n : ℕ = min (room_at e addr) size in
        let len : length (take n buffer) ≡ n = omega (arith, length-take n buffer) in
        let bytes : peek m' (host_at e addr) n ≡ take n buffer = rw len at held in
        Returns-mono
          (memory_read-peek m' entries addr out size found (inl usable) fit c (omega arith))
          (λ (r, b) (count, e'). (count, rw bytes at e'))

-- At an address in a usable region that stays below 2^64 in the guest and in the host,
-- `memory_get_ptr` gives the host address where `memory_write` puts the byte.
pub memory_get_ptr-host_at :
    (entries : List MemoryEntry) (addr : ℕ) {e : MemoryEntry}
    → find_entry entries addr ≡ some e
    → e.type ≡ memory_usable
    → FitsWord e
    → Contains e addr
    → e.memory_ptr + e.size < 2 ^ 64
    → memory_get_ptr entries addr ≡ host_at e addr
unfolding memory_get_ptr
memory_get_ptr-host_at entries addr {e} found usable fit c host_fits =
    let (base, _) = offsets e addr fit c in
    let is_usable : (e.type == memory_usable) ≡ true = ground arith in
    rw (found, memory_get_ptr) (rw (is_usable, base) (mod-eq_of_lt (omega arith)))

-- With a buffer as long as the size, a read returns and keeps the buffer's length, wherever it reads.
read_loop-length :
    (fuel : ℕ) (m : Bytes) (ptr : ℕ) (buffer : List ℕ) (limit size i : ℕ)
    → size ≤ length buffer
    → size - i < fuel
    → Returns (λ (n, b). length b ≡ length buffer) (read_loop fuel m ptr buffer limit size i)
unfolding read_loop
read_loop-length zero m ptr buffer limit size i inside enough = absurd (omega arith)
read_loop-length (suc fuel) m ptr buffer limit size i inside enough =
    elim (Bool-cases (ltb i limit && ltb i size)) [
      | inl on ↦
          let room : i < length buffer = ground arith in
          let same = length-set buffer i (m (ptr + i)) in
          rw (on, lt→ltb i (length buffer) room)
            (Returns-mono
              (read_loop-length fuel m ptr (set buffer i (m (ptr + i))) limit size (i + 1)
                (omega arith) (ground arith))
              (λ (n, b) e. e ∙ same))
      | inr off ↦ rw off (returns refl)
    ]

pub memory_read-length :
    (m : Bytes) (entries : List MemoryEntry) (src : ℕ) (buffer : List ℕ) (size : ℕ)
    → size ≤ length buffer
    → Returns (λ (r, b). length b ≡ length buffer) (memory_read m entries src buffer size)
unfolding memory_read
memory_read-length m entries src buffer size inside = elim (Option-cases (find_entry entries src)) [
  | inl nowhere ↦ rw (nowhere, memory_read) (returns refl)
  | inr (e, found) ↦
      rw (found, memory_read)
        (elim (Bool-cases (not (e.type == memory_usable) && not (e.type == memory_framebuffer))) [
          | inl refused ↦ rw refused (returns refl)
          | inr readable ↦ rw readable (
              Returns-bind (read_loop-length (size + 1) m _ buffer _ size 0 inside (omega arith))
                (λ (n, b) e. returns e))
        ])
]
