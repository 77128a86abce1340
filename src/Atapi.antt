-- ===== src/Atapi.antt =====
-- src/atapi.c: the CD drive on the primary ATA bus, as a state machine over its registers.
-- The static variables are the fields of `Atapi`. The disk behind the file descriptor is a parameter:
-- `read_at fd offset` is what `lseek` to the offset and `read` of one block put in the buffer.
pub mod Bounds
pub mod Words
pub mod Protocol
pub mod Init
pub mod Tests
use Prim.Native.Nat.{bit_or}
use blackhv.Base.{
  ℕ, zero, suc, ◌+◌, ◌-◌, ◌*◌, ◌/◌, ◌%◌, ◌^◌, ◌≤◌, ◌<◌, min, ◌≡◌, refl, sym, ap, ◌∙◌, ◌≢◌, ◌↔◌, ◌⊎◌,
  inl, inr, Bool, true, false, not, ◌&&◌, ◌||◌, Option, none, some, List, [], ◌∷◌, ◌++◌, map,
  append_assoc, append-nil, arith, ltb, leb, ◌==◌, if◌then◌else◌, int_of, ==_iff, ==_refl, ==_false,
  lt→ltb, le→ltb, Bool-cases, Option-cases, length, get_elem?, set, take, drop, replicate, All,
  length-append, length-set, length-take, length-drop, length-replicate, get_elem?-set_self,
  get_elem?-set_ne, get_elem?-some, drop-cons_of_get, take_cons, set-append, minus_one, s64_of,
  add_u64, sub_u64, ℤ, ◌>>=◌, access, Returns-mono, Returns-bind, Returns-value, Exec, Returns, ok,
  fault, out_of_fuel, returns, pos, negsuc,
}

abbrev pub primary_reg : ℕ
primary_reg = 0x1F0

abbrev pub ata_port_master : ℕ
ata_port_master = 0x00

abbrev pub atapi_sig_sc : ℕ
atapi_sig_sc = 0x01

abbrev pub atapi_sig_lba_lo : ℕ
atapi_sig_lba_lo = 0x01

abbrev pub atapi_sig_lba_mi : ℕ
atapi_sig_lba_mi = 0x14

abbrev pub atapi_sig_lba_hi : ℕ
atapi_sig_lba_hi = 0xEB

abbrev pub read_12 : ℕ
read_12 = 0xA8

abbrev pub cd_block_sz : ℕ
cd_block_sz = 2048

-- `sizeof(struct SCSI_packet)`
abbrev pub packet_sz : ℕ
packet_sz = 12

abbrev pub packet_data_transmit : ℕ
packet_data_transmit = 2

abbrev pub packet_command_complete : ℕ
packet_command_complete = 3

abbrev pub drq : ℕ
drq = 2 ^ 3

-- The static variables; `curr_pkt` by its twelve bytes, `to_send` by its 2048.
pub record Atapi : Type 0 where
  pub selected_drive : ℕ
  pub curr_pkt : List ℕ
  pub byte_read : ℕ
  pub to_send : List ℕ
  pub byte_sent : ℕ
  pub receiving : ℕ
  pub sending : ℕ

-- The state that the program starts with.
abbrev pub initial : Atapi
initial = record {
  selected_drive = 0;
  curr_pkt = replicate packet_sz 0;
  byte_read = 0;
  to_send = replicate cd_block_sz 0;
  byte_sent = 0;
  receiving = 0;
  sending = 0;
}

-- `*((u16 *)(bytes + i)) = word` and its reading, least byte first.
unfoldable pub store_u16 : List ℕ → ℕ → ℕ → Exec (List ℕ)
store_u16 bytes i word =
    if ltb (i + 1) (length bytes)
    then ok (set (set bytes i (word % 256)) (i + 1) (word / 256 % 256))
    else fault

unfoldable pub load_u16 : List ℕ → ℕ → Exec ℕ
load_u16 bytes i = do
  lo ← access (get_elem? bytes i)
  hi ← access (get_elem? bytes (i + 1))
  ok (lo + 256 * hi)

-- A byte of the packet, by its place in `struct SCSI_packet`.
abbrev pub packet_byte : List ℕ → ℕ → ℕ
packet_byte [] i = 0
packet_byte (b ∷ bs) zero = b
packet_byte (b ∷ bs) (suc i) = packet_byte bs i

-- The block address in bytes 2 to 5: hi, mihi, milo, lo.
unfoldable pub packet_lba : List ℕ → ℕ
packet_lba pkt =
    bit_or
      (bit_or (bit_or (packet_byte pkt 5) (packet_byte pkt 4 * 2 ^ 8)) (packet_byte pkt 3 * 2 ^ 16))
      (packet_byte pkt 2 * 2 ^ 24 % 2 ^ 32)

-- What a `read` of the given bytes leaves in the buffer.
abbrev pub filled : List ℕ → List ℕ → List ℕ
filled bytes buffer = bytes ++ drop (length bytes) buffer

module _ (read_at : (fd offset : ℕ) → List ℕ) where
  -- `handle_scsi_packet`; an operation code other than READ_12 prints a message.
  unfoldable pub handle_scsi_packet : (disk_fd : ℕ) → Atapi → Atapi
  handle_scsi_packet disk_fd s = if not (packet_byte s.curr_pkt 0 == read_12) then s else record s {
    to_send = filled (read_at disk_fd (packet_lba s.curr_pkt * cd_block_sz % 2 ^ 32)) s.to_send;
    byte_sent = 0;
  }

  -- `signature_inb` at the sector count register of the primary bus.
  unfoldable pub sector_count_inb : (params : ℕ) → Atapi → ℕ × Atapi
  unfolding handle_scsi_packet
  sector_count_inb params s =
      if not (s.sending == 0)
      then (packet_command_complete, record s { byte_sent = 0; sending = 0 })
      else if not (s.receiving == 0)
      then (
        packet_data_transmit,
        record (handle_scsi_packet params s) { byte_read = 0; receiving = 0 },
      )
      else (atapi_sig_sc, s)

  -- `signature_inb`.
  unfoldable pub signature_inb : (port params : ℕ) → Atapi → ℕ × Atapi
  unfolding sector_count_inb
  signature_inb port params s =
      if not (s.selected_drive == ata_port_master)
      then (0, s)
      else if port == primary_reg + 2
      then sector_count_inb params s
      else if port == primary_reg + 3
      then (atapi_sig_lba_lo, s)
      else if port == primary_reg + 4
      then (atapi_sig_lba_mi, s)
      else if port == primary_reg + 5
      then (atapi_sig_lba_hi, s)
      else (0, s)

-- `ignore_outb`, `select_outb` and `status_inb`.
unfoldable pub ignore_outb : (port b params : ℕ) → Atapi → Atapi
ignore_outb port b params s = s

unfoldable pub select_outb : (port b params : ℕ) → Atapi → Atapi
select_outb port b params s = record s { selected_drive = b }

unfoldable pub status_inb : (port params : ℕ) → Atapi → ℕ × Atapi
status_inb port params s = (drq, s)

-- `data_outw`: a word of the packet.
unfoldable pub data_outw : (port word params : ℕ) → Atapi → Exec Atapi
unfolding store_u16
data_outw port word params s = if ltb (packet_sz - 2) s.byte_read then ok s else do
  pkt ← store_u16 s.curr_pkt s.byte_read word
  ok (record s { receiving = 1; curr_pkt = pkt; byte_read = (s.byte_read + 2) % 2 ^ 32 })

-- `data_inw`: a word of the block.
unfoldable pub data_inw : (port params : ℕ) → Atapi → Exec (ℕ × Atapi)
unfolding load_u16
data_inw port params s = if leb cd_block_sz s.byte_sent then ok (0, s) else do
  word ← load_u16 s.to_send s.byte_sent
  ok (word, record s { sending = 1; byte_sent = (s.byte_sent + 2) % 2 ^ 32 })
