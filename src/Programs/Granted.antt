-- ===== src/Programs/Granted.antt =====
-- What the programs under examples/ share when all that they ask for is granted: the mapped file and the
-- serial port.
use blackhv.Base.{
  ℕ, ◌+◌, ◌<◌, ◌≡◌, refl, ◌≢◌, true, false, some, List, [], arith, ◌==◌, ==_false, length,
  Returns-mono, Returns,
}
use blackhv.Io.{Handler, no_handler}
use blackhv.Serial.{Serial, SerialMemory, serial_new}
use blackhv.Serial.Registers.{Carries}
use blackhv.Serial.Ports.{serial_new-Taken}
use blackhv.Vm.{is_negative}
use blackhv.Vm.Setup.{map_failed}
use blackhv.Loader.{FileHost, load_file}
use blackhv.Programs.{com1}

-- The file can be opened, measured and mapped.
pub record GrantsFile (file : FileHost) : Type 0 where
  pub opened : is_negative file.open_result ≡ false
  pub measured : file.fstat_fails ≡ false
  pub mapped : file.mmap_result ≢ map_failed

pub load_file-mapped :
    (file : FileHost) → GrantsFile file → (load_file file).0 ≡ some (file.mmap_result, file.st_size)
unfolding load_file
load_file-mapped file g =
    let good : (file.mmap_result == map_failed) ≡ false = ==_false _ _ g.mapped in
    rw (g.opened, g.measured, good) refl

-- There is memory for the port and its queues, whose buffers are `g` and `h`.
pub record GrantsSerial (memory : SerialMemory) (g h : List ℕ) : Type 0 where
  pub serial : memory.struct_memory ≡ true
  pub guest_struct : memory.guest_struct ≡ true
  pub host_struct : memory.host_struct ≡ true
  pub guest_buffer : memory.guest_buffer ≡ some g
  pub host_buffer : memory.host_buffer ≡ some h
  pub guest_length : length g ≡ 1024
  pub host_length : length h ≡ 1024

pub serial_new-granted :
    {S : Type 0} (memory : SerialMemory) (hdl : Handler S) (g h : List ℕ)
    → GrantsSerial memory g h
    → Returns
        (λ (out, new).
          ((serial : Serial) × (out ≡ some serial)
            × (serial.port ≡ com1)
            × Carries serial 1024 [] [])
          × ((i : ℕ) → i < 8 → new (com1 + i) ≡ hdl))
        (serial_new memory (λ q. no_handler) hdl com1 1024)
serial_new-granted memory hdl g h k =
    Returns-mono
      (serial_new-Taken memory (λ q. no_handler) hdl com1 1024 g h k.serial k.guest_struct
        k.host_struct k.guest_buffer k.host_buffer k.guest_length k.host_length (omega arith)
        (omega arith) (omega arith))
      λ (out, new) (made, taken). (made, taken.0)
