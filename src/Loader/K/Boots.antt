-- ===== src/Loader/K/Boots.antt =====
-- The memory map that `setup_e820` of examples/k/main.c leaves in the guest's memory.
use blackhv.Base.{
  ℕ, zero, suc, ◌+◌, ◌*◌, ◌/◌, ◌^◌, ◌≤◌, ◌<◌, ◌≡◌, refl, ap, ◌∙◌, ◌≢◌, ◌⊎◌, inl, inr, true, false,
  some, List, [], ◌∷◌, ◌++◌, arith, ◌==◌, length, set, drop, length-append, get_elem?-some,
  drop-cons_of_get, drop_all, Returns-mono, Returns-bind, Returns, returns,
}
use blackhv.Memory.{MemoryEntry}
use blackhv.Memory.Access.{Bytes, E820Entry, memory_get_ptr, e820_table_get}
use blackhv.Memory.Table.{DescribeAll, e820_table_get-DescribeAll}
use blackhv.Memory.Transfer.{peek, Stored}
use blackhv.Loader.{in_region, store, little_endian, store-Stored, Stored-append, peek-kept}
use blackhv.Loader.K.{memory_guest, map_size, info_size, store_map, fill_map, setup_e820}

-- The bytes of a row of the map, and of the map.
unfoldable pub map_bytes : E820Entry → List ℕ
map_bytes r =
    ((little_endian 4 map_size ++ little_endian 8 r.base_address) ++ little_endian 8 r.size)
    ++ little_endian 4 r.type

abbrev pub map_table : List E820Entry → List ℕ
map_table [] = []
map_table (r ∷ rs) = map_bytes r ++ map_table rs

pub length-little_endian : (n v : ℕ) → length (little_endian n v) ≡ n
unfolding little_endian
length-little_endian zero v = refl
length-little_endian (suc n) v = ap suc (length-little_endian n (v / 256))

length-map_bytes : (r : E820Entry) → length (map_bytes r) ≡ map_size
unfolding map_bytes little_endian
length-map_bytes r = refl

length-map_table : (rs : List E820Entry) → length (map_table rs) ≡ length rs * map_size
length-map_table [] = omega arith
length-map_table (r ∷ rs) =
    omega
      (arith, length-append (map_bytes r) (map_table rs), length-map_bytes r, length-map_table rs)

store_map-Stored : (m : Bytes) (a : ℕ) (r : E820Entry) → Stored m a (map_bytes r) (store_map m a r)
unfolding store_map map_bytes little_endian
store_map-Stored m a r =
    let b0 : List ℕ = little_endian 4 map_size in
    let b1 : List ℕ = little_endian 8 r.base_address in
    let b2 : List ℕ = little_endian 8 r.size in
    let b3 : List ℕ = little_endian 4 r.type in
    let m1 : Bytes = store m a b0 in
    let m2 : Bytes = store m1 (a + 4) b1 in
    let m3 : Bytes = store m2 (a + 12) b2 in
    Stored-append m m3 _ a ((b0 ++ b1) ++ b2) b3
      (Stored-append m m2 m3 a (b0 ++ b1) b2
        (Stored-append m m1 m2 a b0 b1 (store-Stored m a b0) (store-Stored m1 (a + 4) b1))
        (store-Stored m2 (a + 12) b2))
      (store-Stored m3 (a + 20) b3)

fill_map-Stored :
    (rows : List E820Entry) (n i g : ℕ) (m : Bytes)
    → i + n ≡ length rows
    → Returns (Stored m (g + i * map_size) (map_table (drop i rows))) (fill_map rows n i g m)
unfolding fill_map
fill_map-Stored rows zero i g m size =
    rw (drop_all i rows (omega arith)) (returns (refl, λ c out. refl))
fill_map-Stored rows (suc n) i g m size =
    let (r, at) = get_elem?-some rows i (omega arith) in
    let a : ℕ = g + i * map_size in
    let m1 : Bytes = store_map m a r in
    let next : g + (i + 1) * map_size ≡ a + length (map_bytes r) =
      omega (arith, length-map_bytes r) in
    rw (at, drop-cons_of_get rows i at)
      (Returns-mono (fill_map-Stored rows n (i + 1) g m1 (omega arith)) λ m' st.
        Stored-append m m1 m' a (map_bytes r) (map_table (drop (i + 1) rows))
          (store_map-Stored m a r) (rw next at st))

pub DescribeAll-length :
    (es : List MemoryEntry) (rs : List E820Entry) → DescribeAll es rs → length rs ≡ length es
DescribeAll-length [] [] d = refl
DescribeAll-length [] (r ∷ rs) d = absurd d
DescribeAll-length (e ∷ es) [] d = absurd d
DescribeAll-length (e ∷ es) (r ∷ rs) (_, d) = ap suc (DescribeAll-length es rs d)

-- A word stored at an address outside the range is not seen there.
pub peek-store :
    (m : Bytes) (a n b : ℕ) (bs : List ℕ)
    → (b + length bs ≤ a) ⊎ (a + n ≤ b)
    → peek (store m b bs) a n ≡ peek m a n
peek-store m a n b bs apart = peek-kept m (store m b bs) a n (λ c within.
    (store-Stored m b bs).1 c
      (elim apart [ inl below ↦ inr (omega arith) | inr above ↦ inl (omega arith) ]))

abbrev pub word : ℕ → List ℕ
word v = little_endian 4 v

-- Two ranges of host memory without a common address.
abbrev pub Disjoint : (a n b k : ℕ) → Type 0
Disjoint a n b k = (a + n ≤ b) ⊎ (b + k ≤ a)

pub peek-word :
    (m : Bytes) (a n b v : ℕ) → Disjoint a n b 4 → peek (store m b (word v)) a n ≡ peek m a n
peek-word m a n b v apart =
    let size : length (word v) ≡ 4 = length-little_endian 4 v in
    peek-store m a n b (word v)
      (rw size (elim apart [ inl below ↦ inr below | inr above ↦ inl above ]))

pub word-held : (m : Bytes) (b v : ℕ) → peek (store m b (word v)) b 4 ≡ word v
word-held m b v =
    let size : length (word v) ≡ 4 = length-little_endian 4 v in
    rw size at ((store-Stored m b (word v)).0)

-- A word of a range is disjoint from what the range is.
Disjoint-word : (info n g k o : ℕ) → o + 4 ≤ n → Disjoint info n g k → Disjoint g k (info + o) 4
Disjoint-word info n g k o inside apart = elim apart [
  | inl below ↦ inr (omega arith)
  | inr above ↦ inl (omega arith)
]

-- The map that `setup_e820` leaves for the guest: a row for each region, and its place and size in
-- the information at `info`.
pub record MapSet (entries : List MemoryEntry) (info : ℕ) (m m' : Bytes) : Type 0 where
  pub rows : List E820Entry
  pub describes : DescribeAll entries rows
  pub map_held :
      peek m' (memory_get_ptr entries memory_guest) (length entries * map_size) ≡ map_table rows
  pub mem_lower : peek m' (info + 4) 4 ≡ word 0x1000
  pub mmap_length : peek m' (info + 44) 4 ≡ word (length entries * map_size)
  pub mmap_addr : peek m' (info + 48) 4 ≡ word memory_guest

-- The last two words do not touch the map, nor the words before them.
stores-MapSet :
    (entries : List MemoryEntry) (rows : List E820Entry) (info : ℕ) (m m1 m2 : Bytes)
    → DescribeAll entries rows
    → Disjoint info info_size (memory_get_ptr entries memory_guest) (length entries * map_size)
    → peek m1 (info + 48) 4 ≡ word memory_guest
    → Stored m1 (memory_get_ptr entries memory_guest) (map_table rows) m2
    → MapSet entries info m
        (store (store m2 (info + 44) (word (length entries * map_size))) (info + 4) (word 0x1000))
stores-MapSet entries rows info m m1 m2 d apart addr (held, same) =
    let g : ℕ = memory_get_ptr entries memory_guest in
    let total : length (map_table rows) ≡ length entries * map_size =
      length-map_table rows ∙ ap (λ x. x * map_size) (DescribeAll-length entries rows d) in
    let k : ℕ = length entries * map_size in
    let m3 : Bytes = store m2 (info + 44) (word k) in
    let outside : (c : ℕ)
        → (info + 48 ≤ c) × (c < info + 48 + 4)
        → (c < g) ⊎ (g + length (map_table rows) ≤ c) =
      λ c within.
        rw total (elim apart [ inl below ↦ inl (omega arith) | inr above ↦ inr (omega arith) ]) in
    record {
      rows = rows;
      describes = d;
      map_held =
          peek-word m3 g k (info + 4) 0x1000
            (Disjoint-word info info_size g k 4 (omega arith) apart)
          ∙ (peek-word m2 g k (info + 44) k
                (Disjoint-word info info_size g k 44 (omega arith) apart)
              ∙ (rw total at held));
      mem_lower = word-held m3 (info + 4) 0x1000;
      mmap_length =
          peek-word m3 (info + 44) 4 (info + 4) 0x1000 (inr (omega arith))
          ∙ word-held m2 (info + 44) k;
      mmap_addr =
          peek-word m3 (info + 48) 4 (info + 4) 0x1000 (inr (omega arith))
          ∙ (peek-word m2 (info + 48) 4 (info + 44) k (inr (omega arith))
              ∙ (peek-kept m1 m2 (info + 48) 4 (λ c within. same c (outside c within)) ∙ addr));
    }

pub setup_e820-MapSet :
    (entries : List MemoryEntry) (info : ℕ) (m : Bytes)
    → length entries < 2 ^ 32
    → memory_get_ptr entries memory_guest ≢ 0
    → in_region entries memory_guest (length entries * map_size) ≡ true
    → Disjoint info info_size (memory_get_ptr entries memory_guest) (length entries * map_size)
    → Returns
        (λ r. (m' : Bytes) × (r ≡ some m') × MapSet entries info m m')
        (setup_e820 entries (e820_table_get true true entries) info m)
unfolding setup_e820
setup_e820-MapSet entries info m small there within apart =
    let g : ℕ = memory_get_ptr entries memory_guest in
    let (rows, table, d) = e820_table_get-DescribeAll entries small in
    let n : length rows ≡ length entries = DescribeAll-length entries rows d in
    let found : (memory_get_ptr entries memory_guest == 0) ≡ false = ground (arith, there) in
    let m1 : Bytes = store m (info + 48) (word memory_guest) in
    let first : g + 0 * map_size ≡ g = omega arith in
    rw (found, table, within)
      (Returns-bind (fill_map-Stored rows (length entries) 0 g m1 (omega arith)) λ m2 st. returns (
        _,
        refl,
        stores-MapSet entries rows info m m1 m2 d apart (word-held m (info + 48) memory_guest)
            (rw first at st),
      ))

-- What the map is made of keeps it.
pub MapSet-kept :
    (entries : List MemoryEntry) (info : ℕ) (m m1 m2 : Bytes)
    → MapSet entries info m m1
    → let g = memory_get_ptr entries memory_guest in
      ((c : ℕ)
        → ((g ≤ c) × (c < g + length entries * map_size))
          ⊎ ((info + 4 ≤ c) × (c < info + 8))
          ⊎ ((info + 44 ≤ c) × (c < info + 52))
        → m2 c ≡ m1 c)
      → MapSet entries info m m2
MapSet-kept entries info m m1 m2 set same = record {
  rows = set.rows;
  describes = set.describes;
  map_held =
      peek-kept m1 m2 (memory_get_ptr entries memory_guest) (length entries * map_size)
        (λ c within. same c (inl within))
      ∙ set.map_held;
  mem_lower =
      peek-kept m1 m2 (info + 4) 4 (λ c within. same c (inr (inl (omega arith)))) ∙ set.mem_lower;
  mmap_length =
      peek-kept m1 m2 (info + 44) 4 (λ c within. same c (inr (inr (omega arith))))
      ∙ set.mmap_length;
  mmap_addr =
      peek-kept m1 m2 (info + 48) 4 (λ c within. same c (inr (inr (omega arith)))) ∙ set.mmap_addr;
}
