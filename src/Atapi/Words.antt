-- ===== src/Atapi/Words.antt =====
-- The widths of what src/atapi.c keeps and gives: bytes in its buffers, 32 bits in its positions, a byte
-- or a word for the guest.
use blackhv.Base.{
  ℕ, zero, suc, ◌+◌, ◌-◌, ◌*◌, ◌/◌, ◌%◌, ◌^◌, ◌<◌, ◌≡◌, inl, inr, Bool, true, false, not, some,
  List, [], ◌∷◌, ◌++◌, arith, ltb, leb, ◌==◌, if◌then◌else◌, lt→ltb, Bool-cases, length, get_elem?,
  set, drop, replicate, All, get_elem?-some, ◌>>=◌, Exec, Returns, ok, returns,
}
use blackhv.Atapi.{
  Atapi, packet_sz, cd_block_sz, primary_reg, ata_port_master, packet_byte, packet_lba, read_12,
  handle_scsi_packet, sector_count_inb, signature_inb, select_outb, ignore_outb, status_inb,
  data_outw, data_inw,
}
use blackhv.Atapi.Bounds.{Register, select, ignore, status, signature, data_out, data_in, IsSafe}

abbrev pub IsByte : ℕ → Type 0
IsByte b = b < 2 ^ 8

-- The buffers hold bytes, and the positions are of 32 bits.
pub record IsTyped (s : Atapi) : Type 0 where
  pub packet : All IsByte s.curr_pkt
  pub block : All IsByte s.to_send
  pub read_at : s.byte_read < 2 ^ 32
  pub sent_at : s.byte_sent < 2 ^ 32

-- The width of what an access gives to the guest.
abbrev pub width : Register → ℕ
width select = 8
width ignore = 8
width status = 8
width (signature port) = 8
width (data_out word) = 8
width data_in = 16

pub All-replicate : (n b : ℕ) → IsByte b → All IsByte (replicate n b)
All-replicate zero b is = tt
All-replicate (suc n) b is = (is, All-replicate n b is)

All-set : (bs : List ℕ) (i b : ℕ) → All IsByte bs → IsByte b → All IsByte (set bs i b)
All-set [] i b all is = tt
All-set (x ∷ bs) zero b (x_is, all) is = (is, all)
All-set (x ∷ bs) (suc i) b (x_is, all) is = (x_is, All-set bs i b all is)

All-drop : (n : ℕ) (bs : List ℕ) → All IsByte bs → All IsByte (drop n bs)
All-drop zero bs all = all
All-drop (suc n) [] all = tt
All-drop (suc n) (x ∷ bs) (x_is, all) = All-drop n bs all

All-append : (bs cs : List ℕ) → All IsByte bs → All IsByte cs → All IsByte (bs ++ cs)
All-append [] cs all all' = all'
All-append (b ∷ bs) cs (is, all) all' = (is, All-append bs cs all all')

All-get : (bs : List ℕ) (i b : ℕ) → All IsByte bs → get_elem? bs i ≡ some b → IsByte b
All-get [] i b all e = cc
All-get (x ∷ bs) zero b (is, all) e = let same : x ≡ b = cc in rw (← same) is
All-get (x ∷ bs) (suc i) b (is, all) e = All-get bs i b all e

if_both : {A : Type 0} (P : A → Type 0) (b : Bool) (x y : A) → P x → P y → P (if b then x else y)
if_both P true x y px py = px
if_both P false x y px py = py

module _ (read_at : (fd offset : ℕ) → List ℕ)
    (bytes : (fd offset : ℕ) → All IsByte (read_at fd offset)) where
  -- An access and the value that it gives, 0 where it is a write.
  unfoldable pub register_value : (fd : ℕ) → Register → (b : ℕ) → Atapi → Exec (ℕ × Atapi)
  register_value fd select b s = ok (0, select_outb 0 b 0 s)
  register_value fd ignore b s = ok (0, ignore_outb 0 b 0 s)
  register_value fd status b s = ok (status_inb 0 0 s)
  register_value fd (signature port) b s = ok (signature_inb read_at port fd s)
  register_value fd (data_out word) b s = do s' ← data_outw 0 word 0 s; ok (0, s')
  register_value fd data_in b s = data_inw 0 0 s

  abbrev Answer : ℕ × Atapi → Type 0
  Answer (v, s) = (v < 2 ^ 8) × IsTyped s

  handle_scsi_packet-IsTyped :
      (fd : ℕ) (s : Atapi) → IsTyped s → IsTyped (handle_scsi_packet read_at fd s)
  unfolding handle_scsi_packet
  handle_scsi_packet-IsTyped fd s typed =
      let got = read_at fd (packet_lba s.curr_pkt * cd_block_sz % 2 ^ 32) in
      if_both IsTyped (not (packet_byte s.curr_pkt 0 == read_12)) _ _ typed (record {
        packet = typed.packet;
        block = All-append got _ (bytes fd _) (All-drop (length got) s.to_send typed.block);
        read_at = typed.read_at;
        sent_at = omega arith;
      })

  sector_count_inb-Answer :
      (fd : ℕ) (s : Atapi) → IsTyped s → Answer (sector_count_inb read_at fd s)
  unfolding sector_count_inb
  sector_count_inb-Answer fd s typed =
      let handled = handle_scsi_packet-IsTyped fd s typed in
      if_both Answer (not (s.sending == 0)) _ _
        (
          omega arith,
          record {
            packet = typed.packet;
            block = typed.block;
            read_at = typed.read_at;
            sent_at = omega arith;
          },
        )
        (if_both Answer (not (s.receiving == 0)) _ _
          (
            omega arith,
            record {
              packet = handled.packet;
              block = handled.block;
              read_at = omega arith;
              sent_at = handled.sent_at;
            },
          )
          (omega arith, typed))

  signature_inb-Answer :
      (port fd : ℕ) (s : Atapi) → IsTyped s → Answer (signature_inb read_at port fd s)
  unfolding signature_inb
  signature_inb-Answer port fd s typed =
      if_both Answer (not (s.selected_drive == ata_port_master)) _ _ (omega arith, typed)
        (if_both Answer (port == primary_reg + 2) _ _ (sector_count_inb-Answer fd s typed) (
          if_both Answer (port == primary_reg + 3) _ _ (omega arith, typed)
            (if_both Answer (port == primary_reg + 4) _ _ (omega arith, typed)
              (if_both Answer (port == primary_reg + 5) _ _ (omega arith, typed)
                (omega arith, typed)))))

  data_outw-IsTyped :
      (word : ℕ) (s : Atapi)
      → IsSafe s
      → IsTyped s
      → Returns (λ (v, s'). (v < 2 ^ 8) × IsTyped s') (do s' ← data_outw 0 word 0 s; ok (0, s'))
  unfolding data_outw
  data_outw-IsTyped word s safe typed = elim (Bool-cases (ltb (packet_sz - 2) s.byte_read)) [
    | inl full ↦ rw full (returns (omega arith, typed))
    | inr open_end ↦
        let small : s.byte_read + 1 < length s.curr_pkt =
          ground (arith, safe.packet, safe.read_even) in
        let lo = All-set s.curr_pkt s.byte_read (word % 256) typed.packet (omega arith) in
        rw (open_end, lt→ltb (s.byte_read + 1) (length s.curr_pkt) small)
          (returns (
            omega arith,
            record {
              packet = All-set _ (s.byte_read + 1) (word / 256 % 256) lo (omega arith);
              block = typed.block;
              read_at = omega arith;
              sent_at = typed.sent_at;
            },
          ))
  ]

  data_inw-IsTyped :
      (s : Atapi)
      → IsSafe s
      → IsTyped s
      → Returns (λ (v, s'). (v < 2 ^ 16) × IsTyped s') (data_inw 0 0 s)
  unfolding data_inw
  data_inw-IsTyped s safe typed = elim (Bool-cases (leb cd_block_sz s.byte_sent)) [
    | inl finished ↦ rw finished (returns (omega arith, typed))
    | inr more ↦
        let small : s.byte_sent + 1 < length s.to_send =
          ground (arith, safe.block, safe.sent_even) in
        let (lo, at) = get_elem?-some s.to_send s.byte_sent (omega arith) in
        let (hi, at') = get_elem?-some s.to_send (s.byte_sent + 1) small in
        let low = All-get s.to_send s.byte_sent lo typed.block at in
        let high = All-get s.to_send (s.byte_sent + 1) hi typed.block at' in
        rw (more, at, at')
          (returns (
            omega (arith, low, high),
            record {
              packet = typed.packet;
              block = typed.block;
              read_at = typed.read_at;
              sent_at = omega arith;
            },
          ))
  ]

  -- If the disk gives bytes, an access to any register, from a state within the bounds whose
  -- buffers hold bytes and whose positions are of 32 bits, gives a word at the data port and a
  -- byte elsewhere, and leaves buffers of bytes and positions of 32 bits.
  pub register_value-IsTyped :
      (fd : ℕ) (r : Register) (b : ℕ) (s : Atapi)
      → IsSafe s
      → IsTyped s
      → Returns (λ (v, s'). (v < 2 ^ width r) × IsTyped s') (register_value fd r b s)
  unfolding register_value select_outb ignore_outb status_inb
  register_value-IsTyped fd select b s safe typed = returns (
    omega arith,
    record {
      packet = typed.packet;
      block = typed.block;
      read_at = typed.read_at;
      sent_at = typed.sent_at;
    },
  )
  register_value-IsTyped fd ignore b s safe typed = returns (omega arith, typed)
  register_value-IsTyped fd status b s safe typed = returns (omega arith, typed)
  register_value-IsTyped fd (signature port) b s safe typed =
      returns (signature_inb-Answer port fd s typed)
  register_value-IsTyped fd (data_out word) b s safe typed = data_outw-IsTyped word s safe typed
  register_value-IsTyped fd data_in b s safe typed = data_inw-IsTyped s safe typed
