-- ===== src/Machine/Tests.antt =====
-- The theorems on the exits of the first serial port, with queues of four bytes.
use blackhv.Base.{
  ℕ, replicate, length-replicate, ◌≡◌, refl, true, some, List, [], ◌∷◌, ◌++◌, map, arith, ◌==◌,
  if◌then◌else◌, ◌>>=◌, Returns, ok,
}
use blackhv.Io.{Handlers, no_handler}
use blackhv.Mmio.{MmioRegion, MmioCall}
use blackhv.Serial.{Serial, serial_read}
use blackhv.Serial.Registers.{Carries}
use blackhv.Serial.Tests.{com1, com1-Carries}
use blackhv.Atapi.{initial, cd_block_sz}
use blackhv.Atapi.Words.{All-replicate}
use blackhv.Atapi.Init.{atapi_init}
use blackhv.Atapi.Tests.{disk, initial-IsIdle}
use blackhv.Machine.Words.{block_exits, block_pages, block_sent}
use blackhv.Machine.Drive.{read_block-vm_run}
use blackhv.Vm.Run.{run_failed, vm_run}
use blackhv.Vm.Exits.{failure}
use blackhv.Machine.{Devices, serial_handler, on_drive}
use blackhv.Machine.Port.{out_byte, in_byte, pages, Line, serial_read-vm_run, vm_run-pages}

abbrev port_table : Handlers Devices
port_table p = if p == 0x3F8 then serial_handler 5 else no_handler

abbrev quiet : MmioCall → List MmioRegion × Devices → List MmioRegion × Devices
quiet c s = s

abbrev devices : Devices
devices = record { serial = com1; drive = initial }

devices-Line : Line devices 0x3F8 4 [] (5 ∷ 6 ∷ []) initial
devices-Line = record { carries = com1-Carries; same_port = refl; same_drive = refl }

serial_read-vm_run_example :
    Returns
      (λ (result, n, out, serial').
        (result ≡ 0)
        × (n ≡ 2)
        × (out ≡ some (1 ∷ 2 ∷ []))
        × ((serial'' : Serial) × (serial' ≡ some serial'') × Carries serial'' 4 [] (5 ∷ 6 ∷ [])))
      (do
        (result, shown, (table', s')) ←
            vm_run port_table quiet true
              (map (out_byte (9 ∷ []) [] 0x3F8) (1 ∷ 2 ∷ []) ++ (run_failed ∷ []))
              ([], devices)
        (n, out, serial') ← serial_read (some s'.serial) (some (0 ∷ 0 ∷ [])) 2
        ok (result, n, out, serial'))
serial_read-vm_run_example =
    serial_read-vm_run port_table quiet (9 ∷ []) [] 5 0x3F8 refl (omega arith) (1 ∷ 2 ∷ []) []
      devices 4 (5 ∷ 6 ∷ []) initial run_failed [] (0 ∷ 0 ∷ []) devices-Line (omega arith) refl
      failure

vm_run-pages_example :
    Returns
      (λ (result, shown, (table', s')).
        (result ≡ 0) × (shown ≡ pages (9 ∷ []) [] (5 ∷ 6 ∷ [])) × Line s' 0x3F8 4 [] [] initial)
      (vm_run port_table quiet true
        (map (in_byte (9 ∷ []) [] 0x3F8) (0 ∷ 0 ∷ []) ++ (run_failed ∷ []))
        ([], devices))
vm_run-pages_example =
    vm_run-pages port_table quiet (9 ∷ []) [] 5 0x3F8 refl (omega arith) (0 ∷ 0 ∷ []) (5 ∷ 6 ∷ [])
      [] devices 4 [] initial run_failed [] refl devices-Line failure

-- READ_12 of block 1, as bytes.
abbrev packet_bytes : List ℕ
packet_bytes = 0xA8 ∷ 0 ∷ 0 ∷ 0 ∷ 0 ∷ 1 ∷ 0 ∷ 0 ∷ 0 ∷ 0 ∷ 0 ∷ 0 ∷ []

abbrev no_ports : Handlers Devices
no_ports p = no_handler

read_block-vm_run_example :
    Returns
      (λ r. r ≡ (
        0,
        block_pages (9 ∷ []) [] packet_bytes (replicate cd_block_sz 7),
        ([], record devices { drive = block_sent packet_bytes (replicate cd_block_sz 7) initial }),
      ))
      (do
        handlers ← atapi_init on_drive disk 3 no_ports
        vm_run handlers quiet true
            (block_exits (9 ∷ []) [] packet_bytes (replicate cd_block_sz 0) 0 0
              ++ (run_failed ∷ []))
            ([], devices))
read_block-vm_run_example =
    read_block-vm_run no_ports quiet disk 3 (9 ∷ []) [] packet_bytes (replicate cd_block_sz 0) 0 0
      [] devices run_failed [] initial-IsIdle refl
      (
        omega arith,
        (
          omega arith,
          (
            omega arith,
            (
              omega arith,
              (
                omega arith,
                (
                  omega arith,
                  (
                    omega arith,
                    (omega arith, (omega arith, (omega arith, (omega arith, (omega arith, tt))))),
                  ),
                ),
              ),
            ),
          ),
        ),
      )
      refl (length-replicate {A = ℕ} cd_block_sz 0) (length-replicate {A = ℕ} cd_block_sz 7)
      (All-replicate cd_block_sz 7 (omega arith)) failure
