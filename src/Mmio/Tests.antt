-- ===== src/Mmio/Tests.antt =====
-- The theorems on src/mmio.c at a table whose first slot is taken.
use blackhv.Base.{
  ℕ, ◌≡◌, refl, ◌≢◌, ◌⊎◌, true, false, some, List, [], ◌∷◌, ◌++◌, replicate, All, minus_one,
  Returns, ok, pos, negsuc,
}
use blackhv.Memory.{Memory, Host}
use blackhv.Mmio.{MmioRegion, MmioCall, is_free, mmio_register, mmio_unregister, mmio_handle_write}
use blackhv.Mmio.Table.{TookSlot, reserve, mmio_register-cases}
use blackhv.Mmio.Dispatch.{
  call, act_all, Called, mmio_handle_write-Called, mmio_unregister-still_called,
}

abbrev unused : MmioRegion
unused = record {
  id = negsuc 0;
  base_address = 0;
  high_address = 0;
  write_handler = 0;
  read_handler = 0;
  data' = 0;
}

abbrev timer : MmioRegion
timer = record {
  id = pos 0;
  base_address = 0x1000;
  high_address = 0x1010;
  write_handler = 0x4000;
  read_handler = 0;
  data' = 9;
}

abbrev table : List MmioRegion
table = timer ∷ replicate 63 unused

abbrev disk : MmioRegion
disk = record {
  id = pos 0;
  base_address = 0x2000;
  high_address = 0x2010;
  write_handler = 0x5000;
  read_handler = 0;
  data' = 1;
}

abbrev host : Host
host = record {
  entry_memory = true;
  mmap_result = 0xB000;
  region_accepted = true;
  element_memory = true;
}

abbrev no_memory : Memory
no_memory = record { memory_entries = []; next_slot = 0 }

-- Handlers that log their calls.
abbrev log : MmioCall → List MmioCall → List MmioCall
log c s = s ++ (c ∷ [])

mmio_register-cases_example :
    let r = mmio_register host (some no_memory) disk table in
    let a = reserve host (some no_memory) disk in
    (r.mem ≡ a.1)
    × (((a.0 ≡ 0) × (r.result ≡ minus_one) × (r.table ≡ table) × (r.region ≡ disk))
        ⊎ (((a.0 ≢ 0)
              × All (λ q. is_free q ≡ false) table
              × (r.result ≡ minus_one)
              × (r.table ≡ table)
              × (r.region ≡ disk))
            ⊎ ((i : ℕ) × (a.0 ≢ 0)
                × TookSlot table r.table i disk
                × (r.result ≡ pos i)
                × (r.region ≡ record disk { id = pos i }))))
mmio_register-cases_example = mmio_register-cases host (some no_memory) disk table

mmio_handle_write-Called_example :
    Returns
      (λ (table', s'). (table' ≡ table) × Called log 0x1004 (1 ∷ []) 1 table 0 [] s')
      (mmio_handle_write (call log) 0x1004 (1 ∷ []) 1 (table, []))
mmio_handle_write-Called_example = mmio_handle_write-Called log table 0x1004 (1 ∷ []) 1 [] refl

mmio_unregister-still_called_example :
    Returns
      (λ table'.
        mmio_handle_write (call log) 0x1004 (1 ∷ []) 1 (table', [])
        ≡ ok (table', act_all log table 0 0x1004 (1 ∷ []) 1 []))
      (mmio_unregister (pos 0) table)
mmio_unregister-still_called_example =
    mmio_unregister-still_called log table 0 0x1004 (1 ∷ []) 1 [] refl
