-- ===== src/Mmio.antt =====
-- src/mmio.c: the table of memory-mapped regions. The static array `mmio_regions` is a list of its 64
-- elements; a handler is an address, 0 for NULL. `region->id` and the results are signed.
pub mod Table
pub mod Dispatch
pub mod Tests
use blackhv.Base.{
  ℕ, zero, suc, ◌+◌, ◌-◌, ◌*◌, ◌/◌, ◌%◌, ◌^◌, ◌≤◌, ◌<◌, min, ◌≡◌, refl, sym, ap, ◌∙◌, ◌≢◌, ◌↔◌, ◌⊎◌,
  inl, inr, Bool, true, false, not, ◌&&◌, ◌||◌, Option, none, some, List, [], ◌∷◌, ◌++◌, map,
  append_assoc, append-nil, arith, ltb, leb, ◌==◌, if◌then◌else◌, int_of, ==_iff, ==_refl, ==_false,
  lt→ltb, le→ltb, Bool-cases, Option-cases, length, get_elem?, set, take, drop, replicate, All,
  length-append, length-set, length-take, length-drop, length-replicate, get_elem?-set_self,
  get_elem?-set_ne, get_elem?-some, drop-cons_of_get, take_cons, set-append, minus_one, s64_of,
  add_u64, sub_u64, ℤ, ◌>>=◌, access, Returns-mono, Returns-bind, Returns-value, Exec, Returns, ok,
  fault, out_of_fuel, returns, pos, negsuc,
}
use blackhv.Memory.{Memory, Host, HostCall, memory_mmio, memory_alloc}

abbrev pub max_mmio_region_count : ℕ
max_mmio_region_count = 64

-- `struct mmio_region`.
pub record MmioRegion : Type 0 where
  pub id : ℤ
  pub base_address : ℕ
  pub high_address : ℕ
  pub write_handler : ℕ
  pub read_handler : ℕ
  pub data' : ℕ

-- `id == -1`
abbrev pub is_free : MmioRegion → Bool
is_free r = elim r.id [ pos n ↦ false | negsuc n ↦ n == 0 ]

-- `mmio_init`.
unfoldable pub mmio_init : List MmioRegion → List MmioRegion
mmio_init [] = []
mmio_init (r ∷ rs) = record r { id = negsuc 0 } ∷ mmio_init rs

-- The loop of `mmio_register` from slot `i`: the slot taken and the table with the region in it.
unfoldable pub take_slot : List MmioRegion → (i : ℕ) → MmioRegion → Option (ℕ × List MmioRegion)
take_slot [] i region = none
take_slot (r ∷ rs) i region =
    let rest = take_slot rs (suc i) region in
    if is_free r
    then some (i, record region { id = pos i } ∷ rs)
    else elim rest [ none ↦ none | some found ↦ some (found.0, r ∷ found.1) ]

-- What `mmio_register` returns, and what it leaves in `*region`, in the table and in the memory.
pub record Registration : Type 0 where
  pub result : ℤ
  pub region : MmioRegion
  pub table : List MmioRegion
  pub mem : Option Memory
  pub calls : List HostCall

-- `mmio_register`.
unfoldable pub mmio_register : Host → Option Memory → MmioRegion → List MmioRegion → Registration
unfolding take_slot
mmio_register host mem region table =
    let (allocated, mem', calls) =
      memory_alloc host mem region.base_address (sub_u64 region.high_address region.base_address)
        memory_mmio in
    let failed : Registration = record {
      result = negsuc 0;
      region = region;
      table = table;
      mem = mem';
      calls = calls;
    } in
    if allocated == 0 then failed else elim (take_slot table 0 region) [
      | none ↦ failed
      | some found ↦ record {
        result = pos found.0;
        region = record region { id = pos found.0 };
        table = found.1;
        mem = mem';
        calls = calls;
      }
    ]

-- `mmio_unregister`: a negative id is an index before the array.
unfoldable pub mmio_unregister : ℤ → List MmioRegion → Exec (List MmioRegion)
mmio_unregister (negsuc n) table = fault
mmio_unregister (pos i) table =
    if not (ltb i max_mmio_region_count)
    then ok table
    else do r ← access (get_elem? table i); ok (set table i (record r { id = negsuc 0 }))

-- A call of a region's write handler.
pub record MmioCall : Type 0 where
  pub handler : ℕ
  pub index : ℕ
  pub address : ℕ
  pub bytes : List ℕ
  pub len : ℕ
  pub arg : ℕ

-- The test of `mmio_handle_write` on a region.
abbrev pub takes : MmioRegion → ℕ → Bool
takes r address =
    (leb r.base_address address && ltb address r.high_address) && not (r.write_handler == 0)

abbrev pub call_of : MmioRegion → (index address : ℕ) → List ℕ → ℕ → MmioCall
call_of r index address bytes len = record {
  handler = r.write_handler;
  index = index;
  address = address;
  bytes = bytes;
  len = len;
  arg = r.data';
}

-- The handlers are not code of this file: `call` is what a call of one does to the table, which it is
-- given a pointer into, and to the rest of the program's state.
module _ {S : Type 0} (call : MmioCall → List MmioRegion × S → List MmioRegion × S) where
  -- The loop from slot `i`, `n` slots long.
  unfoldable pub handle_loop :
      (n i address : ℕ) → List ℕ → (len : ℕ) → List MmioRegion × S → Exec (List MmioRegion × S)
  handle_loop zero i address bytes len (table, s) = ok (table, s)
  handle_loop (suc n) i address bytes len (table, s) = do
    r ← access (get_elem? table i)
    handle_loop n (suc i) address bytes len
        (if takes r address then call (call_of r i address bytes len) (table, s) else (table, s))

  -- `mmio_handle_write`.
  unfoldable pub mmio_handle_write :
      (address : ℕ) → List ℕ → (len : ℕ) → List MmioRegion × S → Exec (List MmioRegion × S)
  unfolding handle_loop
  mmio_handle_write address bytes len state =
      handle_loop max_mmio_region_count 0 address bytes len state
