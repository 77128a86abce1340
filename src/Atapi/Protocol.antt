-- ===== src/Atapi/Protocol.antt =====
-- The reading of a block through the registers of src/atapi.c: the guest writes the six words of a
-- READ_12 packet to the data port, asks for the interrupt reason at the sector count port, reads the
-- 1024 words of the block, and asks for the reason again.
use blackhv.Base.{
  ℕ, zero, suc, ◌+◌, ◌-◌, ◌*◌, ◌/◌, ◌%◌, ◌^◌, ◌<◌, ◌≡◌, refl, sym, ap, ◌∙◌, false, some, List, [],
  ◌∷◌, ◌++◌, append_assoc, append-nil, arith, ltb, leb, lt→ltb, le→ltb, length, get_elem?, drop,
  length-append, get_elem?-append, set-append, ◌>>=◌, Exec, ok,
}
use blackhv.Atapi.{
  Atapi, packet_sz, cd_block_sz, read_12, primary_reg, ata_port_master, packet_byte, packet_lba,
  packet_data_transmit, packet_command_complete, store_u16, signature_inb, data_outw, data_inw,
}

-- The guest's two loops.
unfoldable pub write_words : List ℕ → Atapi → Exec Atapi
write_words [] s = ok s
write_words (w ∷ ws) s = do s' ← data_outw 0 w 0 s; write_words ws s'

unfoldable pub read_words : ℕ → Atapi → Exec (List ℕ × Atapi)
read_words zero s = ok ([], s)
read_words (suc n) s = do (w, s') ← data_inw 0 0 s; (ws, s'') ← read_words n s'; ok (w ∷ ws, s'')

-- The bytes of words and the words of bytes, least byte first.
abbrev pub bytes_of : List ℕ → List ℕ
bytes_of [] = []
bytes_of (w ∷ ws) = (w % 256) ∷ (w / 256 % 256) ∷ bytes_of ws

abbrev pub words_of : List ℕ → List ℕ
words_of [] = []
words_of (b ∷ []) = []
words_of (lo ∷ hi ∷ bs) = (lo + 256 * hi) ∷ words_of bs

pub length-bytes_of : (ws : List ℕ) → length (bytes_of ws) ≡ 2 * length ws
length-bytes_of [] = refl
length-bytes_of (w ∷ ws) = omega (arith, length-bytes_of ws)

-- The store of a word behind `done`.
store_u16-append :
    (done rest : List ℕ) (a b i w : ℕ)
    → i ≡ length done
    → store_u16 (done ++ (a ∷ b ∷ rest)) i w
      ≡ ok (((done ++ ((w % 256) ∷ [])) ++ ((w / 256 % 256) ∷ [])) ++ rest)
unfolding store_u16
store_u16-append done rest a b i w e =
    let lo = w % 256 in
    let room : i + 1 < length (done ++ (a ∷ b ∷ rest)) =
      omega (arith, length-append done (a ∷ b ∷ rest)) in
    rw (lt→ltb (i + 1) (length (done ++ (a ∷ b ∷ rest))) room, set-append done a lo i (b ∷ rest) e)
      (ap ok (
        set-append (done ++ (lo ∷ [])) b (w / 256 % 256) (i + 1) rest
          (omega (arith, length-append done (lo ∷ [])))))

second :
    (before : List ℕ) (x y : ℕ) (rest : List ℕ)
    → get_elem? (before ++ (x ∷ y ∷ rest)) (length before + 1) ≡ some y
second [] x y rest = refl
second (b ∷ before) x y rest =
    let e : suc (length before) + 1 ≡ suc (length before + 1) = omega arith in
    rw e (second before x y rest)

-- Writing words behind `done` puts their bytes over the rest of the packet.
pub write_words-bytes :
    (w : ℕ) (ws done rest : List ℕ) (s : Atapi)
    → s.curr_pkt ≡ done ++ rest
    → s.byte_read ≡ length done
    → length done + length rest ≡ packet_sz
    → length (bytes_of (w ∷ ws)) ≡ length rest
    → write_words (w ∷ ws) s
      ≡ ok (record s { curr_pkt = done ++ bytes_of (w ∷ ws); byte_read = packet_sz; receiving = 1 })
unfolding write_words data_outw
write_words-bytes w ws done [] s e at len same = absurd (omega arith)
write_words-bytes w ws done (a ∷ []) s e at len same = absurd (omega arith)
write_words-bytes w [] done (a ∷ b ∷ r ∷ rest) s e at len same = absurd (omega arith)
write_words-bytes w [] done (a ∷ b ∷ []) s e at len same =
    let open_end : ltb (packet_sz - 2) (length done) ≡ false = le→ltb _ _ (omega arith) in
    let full : (length done + 2) % 2 ^ 32 ≡ packet_sz = omega arith in
    rw (at, e, open_end, store_u16-append done [] a b (length done) w refl, full)
      (simp (append-nil, append_assoc) refl)
write_words-bytes w (w' ∷ ws) done (a ∷ b ∷ rest) s e at len same =
    let open_end : ltb (packet_sz - 2) (length done) ≡ false = le→ltb _ _ (omega arith) in
    let step : (length done + 2) % 2 ^ 32 ≡ length done + 2 = omega arith in
    let done' = (done ++ ((w % 256) ∷ [])) ++ ((w / 256 % 256) ∷ []) in
    let len' : length done' ≡ length done + 2 = omega (
      arith,
      length-append (done ++ ((w % 256) ∷ [])) ((w / 256 % 256) ∷ []),
      length-append done ((w % 256) ∷ []),
    ) in
    rw (at, e, open_end, store_u16-append done rest a b (length done) w refl, step)
      (write_words-bytes w' ws done' rest
          (record s { curr_pkt = done' ++ rest; byte_read = length done + 2; receiving = 1 }) refl
          (sym len') (omega (arith, len')) (omega arith)
        ∙ ap (λ p. ok (record s { curr_pkt = p; byte_read = packet_sz; receiving = 1 })) regroup)
  where
    regroup :
        ((done ++ ((w % 256) ∷ [])) ++ ((w / 256 % 256) ∷ [])) ++ bytes_of (w' ∷ ws)
        ≡ done ++ bytes_of (w ∷ w' ∷ ws)
    regroup = simp append_assoc

-- Reading words gives those of the bytes from the position on.
pub read_words-words :
    (n : ℕ) (before bytes : List ℕ) (s : Atapi)
    → s.to_send ≡ before ++ bytes
    → s.byte_sent ≡ length before
    → length before + length bytes ≡ cd_block_sz
    → length bytes ≡ 2 * suc n
    → read_words (suc n) s ≡ ok (words_of bytes, record s { byte_sent = cd_block_sz; sending = 1 })
unfolding read_words data_inw
read_words-words n before [] s e at len twice = absurd (omega arith)
read_words-words n before (a ∷ []) s e at len twice = absurd (omega arith)
read_words-words zero before (a ∷ b ∷ r ∷ bytes) s e at len twice = absurd (omega arith)
read_words-words zero before (a ∷ b ∷ []) s e at len twice =
    let more : leb cd_block_sz (length before) ≡ false = ground arith in
    let full : (length before + 2) % 2 ^ 32 ≡ cd_block_sz = omega arith in
    rw (at, e, more, get_elem?-append before a (length before) (b ∷ []) refl, second before a b [])
      (rw full)
read_words-words (suc n) before (a ∷ b ∷ bytes) s e at len twice =
    let more : leb cd_block_sz (length before) ≡ false = ground arith in
    let step : (length before + 2) % 2 ^ 32 ≡ length before + 2 = omega arith in
    let before' = (before ++ (a ∷ [])) ++ (b ∷ []) in
    let len' : length before' ≡ length before + 2 =
      omega (arith, length-append (before ++ (a ∷ [])) (b ∷ []), length-append before (a ∷ [])) in
    let lo : get_elem? s.to_send (length before) ≡ some a =
      ap (λ l. get_elem? l (length before)) e
      ∙ get_elem?-append before a (length before) (b ∷ bytes) refl in
    let hi : get_elem? s.to_send (length before + 1) ≡ some b =
      ap (λ l. get_elem? l (length before + 1)) e ∙ second before a b bytes in
    let regroup : before ++ (a ∷ b ∷ bytes) ≡ before' ++ bytes = simp append_assoc in
    let rest =
      read_words-words n before' bytes (record s { byte_sent = length before + 2; sending = 1 })
        (e ∙ regroup) (sym len') (omega (arith, len')) (omega arith) in
    rw (at, more, lo, hi, step, rest)

-- The state in which the drive waits for a packet.
pub record IsIdle (s : Atapi) : Type 0 where
  pub selected : s.selected_drive ≡ ata_port_master
  pub packet : length s.curr_pkt ≡ packet_sz
  pub block : length s.to_send ≡ cd_block_sz
  pub no_word : s.byte_read ≡ 0
  pub not_sending : s.sending ≡ 0

-- The whole transfer: the two reasons, the words read, and the state after it.
unfoldable pub read_block :
    (read_at : (fd offset : ℕ) → List ℕ) → (fd : ℕ) → List ℕ → Atapi → Exec (ℕ × List ℕ × ℕ × Atapi)
read_block read_at fd ws s = do
  s1 ← write_words ws s
  let (reason, s2) = signature_inb read_at (primary_reg + 2) fd s1
  (words, s3) ← read_words 1024 s2
  let (reason', s4) = signature_inb read_at (primary_reg + 2) fd s3
  ok (reason, words, reason', s4)

-- The answer to a whole READ_12 packet: the block goes to the buffer.
pub answer :
    (read_at : (fd offset : ℕ) → List ℕ) (fd : ℕ) (pkt block : List ℕ) (s : Atapi)
    → IsIdle s
    → packet_byte pkt 0 ≡ read_12
    → block ≡ read_at fd (packet_lba pkt * cd_block_sz % 2 ^ 32)
    → length block ≡ cd_block_sz
    → signature_inb read_at
        (primary_reg + 2)
        fd
        (record s { curr_pkt = pkt; byte_read = packet_sz; receiving = 1 })
      ≡ (
        packet_data_transmit,
        record s { curr_pkt = pkt; byte_read = 0; to_send = block; byte_sent = 0; receiving = 0 },
      )
unfolding signature_inb
answer read_at fd pkt block s idle op e whole =
    rw
      (
        idle.selected,
        idle.not_sending,
        op,
        sym e,
        whole,
        drop_all s.to_send cd_block_sz idle.block,
        append-nil block,
      )
      refl
  where
    drop_all : (xs : List ℕ) (n : ℕ) → length xs ≡ n → drop n xs ≡ []
    drop_all [] zero e = refl
    drop_all [] (suc n) e = refl
    drop_all (x ∷ xs) zero e = absurd (omega (arith, e))
    drop_all (x ∷ xs) (suc n) e = drop_all xs n (omega arith)

-- The answer after a whole block.
pub finish :
    (read_at : (fd offset : ℕ) → List ℕ) (fd : ℕ) (s : Atapi)
    → s.selected_drive ≡ ata_port_master
    → s.sending ≡ 1
    → signature_inb read_at (primary_reg + 2) fd s
      ≡ (packet_command_complete, record s { byte_sent = 0; sending = 0 })
unfolding signature_inb
finish read_at fd s selected one = rw (selected, one) refl

-- From an idle drive, a READ_12 packet of six words makes the first reason "data", the 1024 words
-- read those of the block at the packet's address, and the second reason "complete"; the drive is
-- idle again. The disk must give a whole block for that address.
pub read_block-words :
    (read_at : (fd offset : ℕ) → List ℕ) (fd w : ℕ) (ws : List ℕ) (s : Atapi)
    → IsIdle s
    → length ws ≡ 5
    → w % 256 ≡ read_12
    → length (read_at fd (packet_lba (bytes_of (w ∷ ws)) * cd_block_sz % 2 ^ 32)) ≡ cd_block_sz
    → let pkt = bytes_of (w ∷ ws) in
      let block = read_at fd (packet_lba pkt * cd_block_sz % 2 ^ 32) in
      read_block read_at fd (w ∷ ws) s
      ≡ ok (
        packet_data_transmit,
        words_of block,
        packet_command_complete,
        record s {
          curr_pkt = pkt;
          byte_read = 0;
          to_send = block;
          byte_sent = 0;
          receiving = 0;
          sending = 0;
        },
      )
unfolding read_block
read_block-words read_at fd w ws s idle five op whole =
    let pkt = bytes_of (w ∷ ws) in
    let block = read_at fd (packet_lba pkt * cd_block_sz % 2 ^ 32) in
    let s2 = record s {
      curr_pkt = pkt;
      byte_read = 0;
      to_send = block;
      byte_sent = 0;
      receiving = 0;
    } in
    rw
      (
        write_words-bytes w ws [] s.curr_pkt s refl idle.no_word (omega (arith, idle.packet))
            (omega (arith, length-bytes_of (w ∷ ws), idle.packet)),
        answer read_at fd pkt block s idle op refl whole,
        read_words-words 1023 [] block s2 refl refl (omega (arith, whole)) (omega (arith, whole)),
        finish read_at fd (record s2 { byte_sent = cd_block_sz; sending = 1 }) idle.selected refl,
      )
      refl
