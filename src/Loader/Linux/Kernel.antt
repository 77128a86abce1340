-- ===== src/Loader/Linux/Kernel.antt =====
-- Where examples/linux/main.c puts the kernel, its command line and its parameters.
use blackhv.Base.{
  ℕ, ◌+◌, ◌-◌, ◌*◌, ◌^◌, ◌≤◌, ◌<◌, ◌≡◌, refl, ◌≢◌, true, false, some, List, arith, leb, ◌==◌,
  length, take, drop, length-drop, take_all, sub_u64, Returns, fault, returns,
}
use blackhv.Memory.{MemoryEntry}
use blackhv.Memory.Access.{Bytes, memory_get_ptr}
use blackhv.Memory.Transfer.{Stored}
use blackhv.Loader.{in_region, source_bytes, store-Stored}
use blackhv.Loader.Linux.{kernel_addr, setup_size, load_image_into_memory}

abbrev pub kernel_at : List MemoryEntry → ℕ
kernel_at entries = memory_get_ptr entries kernel_addr

-- An image that is longer than its set-up, and whose rest fits the region, is copied to the kernel's address from the set-up's end on.
pub load_image_into_memory-Stored :
    (entries : List MemoryEntry) (setup_sects : ℕ) (image : List ℕ) (m : Bytes)
    → kernel_at entries ≢ 0
    → length image < 2 ^ 64
    → setup_size setup_sects ≤ length image
    → in_region entries kernel_addr (length image - setup_size setup_sects) ≡ true
    → Returns
        (λ r.
          (m' : Bytes) × (r ≡ some m')
          × Stored m (kernel_at entries) (drop (setup_size setup_sects) image) m')
        (load_image_into_memory entries setup_sects image (length image) m)
unfolding load_image_into_memory source_bytes
load_image_into_memory-Stored entries setup_sects image m there small longer within =
    let found : (memory_get_ptr entries kernel_addr == 0) ≡ false = ground (arith, there) in
    let s : ℕ = setup_size setup_sects in
    let rest : sub_u64 (length image) s ≡ length image - s = omega arith in
    let inside : leb (s + (length image - s)) (length image) ≡ true = ground arith in
    let all : take (length image - s) (drop s image) ≡ drop s image =
      take_all (length image - s) (drop s image) (omega (arith, length-drop s image)) in
    rw (found, rest, inside, within, all)
      (returns (_, refl, store-Stored m (kernel_at entries) (drop s image)))

-- An image that is shorter than its set-up makes the size of the kernel wrap around, and
-- `load_image_into_memory` reads behind the end of the image.
pub load_image_into_memory-fault :
    (entries : List MemoryEntry) (setup_sects : ℕ) (image : List ℕ) (m : Bytes)
    → kernel_at entries ≢ 0
    → setup_sects < 256
    → length image < setup_size setup_sects
    → load_image_into_memory entries setup_sects image (length image) m ≡ fault
unfolding load_image_into_memory source_bytes
load_image_into_memory-fault entries setup_sects image m there byte shorter =
    let found : (memory_get_ptr entries kernel_addr == 0) ≡ false = ground (arith, there) in
    let s : ℕ = setup_size setup_sects in
    let bound : s ≤ 256 * 512 = ground arith in
    let outside : leb (s + sub_u64 (length image) s) (length image) ≡ false = ground arith in
    rw (found, outside) refl
