-- ===== src/Memory/Linked/Tests.antt =====
-- The walks over the linked list of regions, at a list of one region to which a second is added.
use blackhv.Base.{
  ◌==◌, if◌then◌else◌, ◌≡◌, refl, true, Option, none, some, [], ◌∷◌, arith, Returns, ok,
}
use blackhv.LinkedList.{LinkedList, linked_list_add}
use blackhv.LinkedList.Cells.{Ptr, Heap, elt, write}
use blackhv.LinkedList.Chain.{IsList}
use blackhv.Memory.{MemoryEntry, find_entry, check_addr_available, memory_usable}
use blackhv.Memory.Linked.{find_walk, check_walk, walks-linked_list_add}

abbrev first_page : MemoryEntry
first_page = record {
  memory_ptr = 0x7000;
  guest_phys = 0;
  size = 0x1000;
  slot = 0;
  type = memory_usable;
}

abbrev far_page : MemoryEntry
far_page = record {
  memory_ptr = 0x9000;
  guest_phys = 0x8000;
  size = 0x1000;
  slot = 1;
  type = memory_usable;
}

abbrev entry_at : Ptr → Option MemoryEntry
entry_at p = if p == 0x100 then some first_page else if p == 0x200 then some far_page else none

abbrev one_cell : Heap
one_cell = write (λ a. none) 1 (some (elt 0 0 0x100))

abbrev one_region : LinkedList
one_region = record { head = 1; tail = 1; size = 1; free_func = true }

one_region-IsList : IsList one_cell one_region 0 ((1, 0x100) ∷ [])
unfolding write
one_region-IsList = record {
  chain = (omega arith, refl, tt, tt);
  head = refl;
  tail = refl;
  size = refl;
}

walks-linked_list_add_example :
    Returns
      (λ (r, h').
        (list' : LinkedList) × (r ≡ (1, some list'))
        × (find_walk entry_at 3 list'.head 0x8010 h'
            ≡ ok (find_entry (first_page ∷ far_page ∷ []) 0x8010, h'))
        × (check_walk entry_at 3 list'.head 0x8010 0x10 h'
            ≡ ok (check_addr_available (first_page ∷ far_page ∷ []) 0x8010 0x10, h')))
      (linked_list_add 2 (some one_region) 0x200 one_cell)
unfolding write
walks-linked_list_add_example =
    walks-linked_list_add entry_at one_cell one_region 0 ((1, 0x100) ∷ []) (first_page ∷ []) 2 0x200
      far_page 3 0x8010 0x8010 0x10 one_region-IsList (refl, tt) refl (omega arith) refl
      (omega arith)
