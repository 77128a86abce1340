-- ===== src/Atapi/Bounds.antt =====
-- The registers of src/atapi.c and the bounds of its two buffers.
use blackhv.Base.{
  ℕ, ◌+◌, ◌-◌, ◌*◌, ◌/◌, ◌%◌, ◌^◌, ◌≤◌, ◌<◌, ◌≡◌, refl, ◌∙◌, inl, inr, not, List, arith, ltb, leb,
  ◌==◌, lt→ltb, Bool-cases, length, set, drop, length-append, length-set, length-drop,
  get_elem?-some, ◌>>=◌, Returns-bind, Exec, Returns, ok, returns,
}
use blackhv.Atapi.{
  packet_byte, packet_lba, read_12, ata_port_master, primary_reg, Atapi, packet_sz, cd_block_sz,
  filled, handle_scsi_packet, sector_count_inb, signature_inb, select_outb, ignore_outb, status_inb,
  data_outw, data_inw,
}

-- The buffers have their sizes, and the two positions are even and inside or at the end.
pub record IsSafe (s : Atapi) : Type 0 where
  pub packet : length s.curr_pkt ≡ packet_sz
  pub block : length s.to_send ≡ cd_block_sz
  pub read_even : s.byte_read % 2 ≡ 0
  pub read_in : s.byte_read ≤ packet_sz
  pub sent_even : s.byte_sent % 2 ≡ 0
  pub sent_in : s.byte_sent ≤ cd_block_sz

-- An access by the guest, with the word or byte that it writes.
pub data Register : Type 0 where
  select ignore status : Register
  signature : (port : ℕ) → Register
  data_out : (word : ℕ) → Register
  data_in : Register

module _ (read_at : (fd offset : ℕ) → List ℕ) where
  -- The state after an access.
  unfoldable pub access_register : (fd : ℕ) → Register → (b : ℕ) → Atapi → Exec Atapi
  access_register fd select b s = ok (select_outb 0 b 0 s)
  access_register fd ignore b s = ok (ignore_outb 0 b 0 s)
  access_register fd status b s = ok (status_inb 0 0 s).1
  access_register fd (signature port) b s = ok (signature_inb read_at port fd s).1
  access_register fd (data_out word) b s = data_outw 0 word 0 s
  access_register fd data_in b s = do (word, s') ← data_inw 0 0 s; ok s'

  length-filled :
      (bytes buffer : List ℕ)
      → length bytes ≤ length buffer
      → length (filled bytes buffer) ≡ length buffer
  length-filled bytes buffer h =
      omega
        (arith, length-append bytes (drop (length bytes) buffer), length-drop (length bytes) buffer)

  handle_scsi_packet-IsSafe :
      (fd : ℕ) (s : Atapi)
      → ((fd offset : ℕ) → length (read_at fd offset) ≤ cd_block_sz)
      → IsSafe s
      → IsSafe (handle_scsi_packet read_at fd s)
  unfolding handle_scsi_packet
  handle_scsi_packet-IsSafe fd s short safe =
      let bytes = read_at fd (packet_lba s.curr_pkt * cd_block_sz % 2 ^ 32) in
      let len =
        length-filled bytes s.to_send
          (omega (arith, safe.block, short fd (packet_lba s.curr_pkt * cd_block_sz % 2 ^ 32))) in
      elim (Bool-cases (not (packet_byte s.curr_pkt 0 == read_12))) [
        | inl other ↦ rw other safe
        | inr reads ↦ rw reads (record {
          packet = safe.packet;
          block = len ∙ safe.block;
          read_even = safe.read_even;
          read_in = safe.read_in;
          sent_even = refl;
          sent_in = omega arith;
        })
      ]

  sector_count_inb-IsSafe :
      (fd : ℕ) (s : Atapi)
      → ((fd offset : ℕ) → length (read_at fd offset) ≤ cd_block_sz)
      → IsSafe s
      → IsSafe (sector_count_inb read_at fd s).1
  unfolding sector_count_inb
  sector_count_inb-IsSafe fd s short safe =
      let h = handle_scsi_packet-IsSafe fd s short safe in
      elim (Bool-cases (not (s.sending == 0))) [
        | inl on ↦ rw on (record {
          packet = safe.packet;
          block = safe.block;
          read_even = safe.read_even;
          read_in = safe.read_in;
          sent_even = refl;
          sent_in = omega arith;
        })
        | inr off ↦ elim (Bool-cases (not (s.receiving == 0))) [
          | inl on ↦
              rw (off, on)
                (record {
                  packet = h.packet;
                  block = h.block;
                  read_even = refl;
                  read_in = omega arith;
                  sent_even = h.sent_even;
                  sent_in = h.sent_in;
                })
          | inr off' ↦ rw (off, off') safe
        ]
      ]

  signature_inb-IsSafe :
      (port fd : ℕ) (s : Atapi)
      → ((fd offset : ℕ) → length (read_at fd offset) ≤ cd_block_sz)
      → IsSafe s
      → IsSafe (signature_inb read_at port fd s).1
  unfolding signature_inb
  signature_inb-IsSafe port fd s short safe =
      elim (Bool-cases (not (s.selected_drive == ata_port_master))) [
        | inl other ↦ rw other safe
        | inr own ↦ elim (Bool-cases (port == primary_reg + 2)) [
          | inl count ↦ rw (own, count) (sector_count_inb-IsSafe fd s short safe)
          | inr p2 ↦ elim (Bool-cases (port == primary_reg + 3)) [
            | inl e ↦ rw (own, p2, e) safe
            | inr p3 ↦ elim (Bool-cases (port == primary_reg + 4)) [
              | inl e ↦ rw (own, p2, p3, e) safe
              | inr p4 ↦ elim (Bool-cases (port == primary_reg + 5)) [
                | inl e ↦ rw (own, p2, p3, p4, e) safe
                | inr p5 ↦ rw (own, p2, p3, p4, p5) safe
              ]
            ]
          ]
        ]
      ]

  data_outw-IsSafe :
      (port word params : ℕ) (s : Atapi) → IsSafe s → Returns IsSafe (data_outw port word params s)
  unfolding data_outw
  data_outw-IsSafe port word params s safe = elim (Bool-cases (ltb (packet_sz - 2) s.byte_read)) [
    | inl full ↦ rw full (returns safe)
    | inr open_end ↦
        let small : s.byte_read + 1 < length s.curr_pkt =
          ground (arith, safe.packet, safe.read_even) in
        let pkt = set s.curr_pkt s.byte_read (word % 256) in
        rw (open_end, lt→ltb (s.byte_read + 1) (length s.curr_pkt) small)
          (returns (record {
            packet =
                length-set pkt (s.byte_read + 1) (word / 256 % 256)
                ∙ length-set s.curr_pkt s.byte_read (word % 256)
                ∙ safe.packet;
            block = safe.block;
            read_even = omega (arith, safe.read_even);
            read_in = omega (arith, safe.read_even, safe.packet);
            sent_even = safe.sent_even;
            sent_in = safe.sent_in;
          }))
  ]

  data_inw-IsSafe :
      (port params : ℕ) (s : Atapi)
      → IsSafe s
      → Returns (λ (word, s'). IsSafe s') (data_inw port params s)
  unfolding data_inw
  data_inw-IsSafe port params s safe = elim (Bool-cases (leb cd_block_sz s.byte_sent)) [
    | inl finished ↦ rw finished (returns safe)
    | inr more ↦
        let small : s.byte_sent + 1 < length s.to_send =
          ground (arith, safe.block, safe.sent_even) in
        let (lo, at) = get_elem?-some s.to_send s.byte_sent (omega arith) in
        let (hi, at') = get_elem?-some s.to_send (s.byte_sent + 1) small in
        rw (more, at, at')
          (returns (record {
            packet = safe.packet;
            block = safe.block;
            read_even = safe.read_even;
            read_in = safe.read_in;
            sent_even = omega (arith, safe.sent_even);
            sent_in = omega (arith, safe.sent_even, safe.block);
          }))
  ]

  -- If a read of the disk never gives more than a block, an access to any register from a state
  -- whose buffers have their sizes and whose positions are even and in range does not fault, and
  -- leaves such a state.
  pub access_register-IsSafe :
      (fd : ℕ) (r : Register) (b : ℕ) (s : Atapi)
      → ((fd offset : ℕ) → length (read_at fd offset) ≤ cd_block_sz)
      → IsSafe s
      → Returns IsSafe (access_register fd r b s)
  unfolding access_register select_outb ignore_outb status_inb
  access_register-IsSafe fd select b s short safe = returns (record {
    packet = safe.packet;
    block = safe.block;
    read_even = safe.read_even;
    read_in = safe.read_in;
    sent_even = safe.sent_even;
    sent_in = safe.sent_in;
  })
  access_register-IsSafe fd ignore b s short safe = returns safe
  access_register-IsSafe fd status b s short safe = returns safe
  access_register-IsSafe fd (signature port) b s short safe =
      returns (signature_inb-IsSafe port fd s short safe)
  access_register-IsSafe fd (data_out word) b s short safe = data_outw-IsSafe 0 word 0 s safe
  access_register-IsSafe fd data_in b s short safe =
      Returns-bind (data_inw-IsSafe 0 0 s safe) λ (word, s') safe'. returns safe'
