-- ===== src/Machine/Drive.antt =====
-- The reading of a block through the exits of src/vm.c, the table of src/io.c and the registers of
-- src/atapi.c. The guest gives the packet as its bytes, two of them with each word.
use blackhv.Base.{
  ℕ, zero, suc, ◌+◌, ◌*◌, ◌%◌, ◌^◌, ◌<◌, ◌≡◌, refl, sym, ap, ◌∙◌, true, some, List, [], ◌∷◌, ◌++◌,
  append_assoc, arith, length, All, get_elem?-append, set-append, ◌>>=◌, Returns-bind, bind_ok,
  Returns, ok, returns,
}
use blackhv.Base.{bind_ok}
use blackhv.Io.{Handlers, io_handle_outw, io_handle_inw, io_handle_inb}
use blackhv.Mmio.{MmioRegion, MmioCall}
use blackhv.Atapi.{
  Atapi, packet_sz, cd_block_sz, read_12, primary_reg, packet_byte, packet_lba, signature_inb,
  data_outw, data_inw,
}
use blackhv.Atapi.Init.{data_handler, signature_inb_handler, atapi_init, atapi_init-registers}
use blackhv.Atapi.Protocol.{
  write_words-bytes, read_words-words, answer, finish, IsIdle, write_words, read_words, words_of,
  bytes_of,
}
use blackhv.Vm.Run.{KvmExit, exit_io, exit_io_in, exit_io_out, handle_exit, vm_run}
use blackhv.Vm.Exits.{IsFinal, Handles, nothing, one_more, vm_run-Handles}
use blackhv.Machine.{Devices, on_drive}
use blackhv.Machine.Port.{in_byte}
use blackhv.Machine.Words.{
  bytes_of-words_of, word_page, word_pages, out_words, in_words, load_u16-append, store_u16-append,
  Handles-append, block_exits, block_pages, block_sent,
}

-- A machine whose table has the drive's handlers at the two registers that the transfer uses.
module _ (handlers : Handlers Devices)
    (call : MmioCall → List MmioRegion × Devices → List MmioRegion × Devices)
    (read_at : (fd offset : ℕ) → List ℕ) (fd : ℕ) (before behind : List ℕ)
    (data_here : handlers primary_reg ≡ on_drive data_handler)
    (count_here : handlers (primary_reg + 2) ≡ on_drive (signature_inb_handler read_at fd)) where
  out_word-ok :
      (lo hi : ℕ) (table : List MmioRegion) (s : Devices) (drive : Atapi)
      → data_outw 0 (lo + 256 * hi) 0 s.drive ≡ ok drive
      → handle_exit handlers call
          (exit_io
            (record {
              direction = exit_io_out;
              size = 2;
              port = primary_reg;
              data_offset = length before;
            })
            (word_page before behind lo hi))
          (table, s)
        ≡ ok (some (word_page before behind lo hi ∷ [], (table, record s { drive = drive })))
  unfolding handle_exit io_handle_outw data_outw
  out_word-ok lo hi table s drive e = rw (load_u16-append before behind lo hi, data_here, e) refl

  in_word-ok :
      (x y lo hi : ℕ) (table : List MmioRegion) (s : Devices) (drive : Atapi)
      → lo < 2 ^ 8
      → hi < 2 ^ 8
      → data_inw 0 0 s.drive ≡ ok (lo + 256 * hi, drive)
      → handle_exit handlers call
          (exit_io
            (record {
              direction = exit_io_in;
              size = 2;
              port = primary_reg;
              data_offset = length before;
            })
            (word_page before behind x y))
          (table, s)
        ≡ ok (some (word_page before behind lo hi ∷ [], (table, record s { drive = drive })))
  unfolding handle_exit io_handle_inw data_inw
  in_word-ok x y lo hi table s drive small small' e =
      rw
        (
          load_u16-append before behind x y,
          data_here,
          e,
          store_u16-append before behind x y lo hi small small',
        )
        refl

  in_reason-ok :
      (x reason : ℕ) (table : List MmioRegion) (s : Devices) (drive : Atapi)
      → signature_inb read_at (primary_reg + 2) fd s.drive ≡ (reason, drive)
      → handle_exit handlers call (in_byte before behind (primary_reg + 2) x) (table, s)
        ≡ ok (some ((before ++ (reason ∷ behind)) ∷ [], (table, record s { drive = drive })))
  unfolding handle_exit io_handle_inb
  in_reason-ok x reason table s drive e =
      rw
        (
          get_elem?-append before x (length before) behind refl,
          count_here,
          e,
          set-append before x reason (length before) behind refl,
        )
        (simp append_assoc)

  out_words-Handles :
      (bs : List ℕ) (table : List MmioRegion) (s : Devices) (drive : Atapi)
      → write_words (words_of bs) s.drive ≡ ok drive
      → Handles handlers call
          (out_words before behind primary_reg bs)
          (table, s)
          (word_pages before behind bs)
          (table, record s { drive = drive })
  unfolding write_words
  out_words-Handles [] table s drive e = let same : s.drive ≡ drive = cc in rw (← same) nothing
  out_words-Handles (b ∷ []) table s drive e =
      let same : s.drive ≡ drive = cc in rw (← same) nothing
  out_words-Handles (lo ∷ hi ∷ bs) table s drive e =
      let (drive', written, rest) = bind_ok (data_outw 0 (lo + 256 * hi) 0 s.drive) _ drive e in
      one_more (out_word-ok lo hi table s drive' written)
        (out_words-Handles bs table (record s { drive = drive' }) drive rest)

  in_words-Handles :
      (n : ℕ) (xs bs : List ℕ) (table : List MmioRegion) (s : Devices) (drive : Atapi)
      → length xs ≡ 2 * n
      → length bs ≡ 2 * n
      → All (λ b. b < 2 ^ 8) bs
      → read_words n s.drive ≡ ok (words_of bs, drive)
      → Handles handlers call
          (in_words before behind primary_reg xs)
          (table, s)
          (word_pages before behind bs)
          (table, record s { drive = drive })
  unfolding read_words
  in_words-Handles zero [] [] table s drive len len' small e =
      let same : s.drive ≡ drive = cc in rw (← same) nothing
  in_words-Handles (suc n) (x ∷ y ∷ xs) (lo ∷ hi ∷ bs) table s drive len len'
        (small, (small', rest)) e =
      let ((w, drive1), first, more) =
        bind_ok (data_inw 0 0 s.drive) _ (words_of (lo ∷ hi ∷ bs), drive) e in
      let ((ws, drive2), others, all) =
        bind_ok (read_words n drive1) _ (words_of (lo ∷ hi ∷ bs), drive) more in
      let len1 : length xs ≡ 2 * n = omega arith in
      let len2 : length bs ≡ 2 * n = omega arith in
      let word : ok (w, drive1) ≡ ok (lo + 256 * hi, drive1) = ap (λ z. ok (z, drive1)) cc in
      let last : ok (ws, drive2) ≡ ok (words_of bs, drive) = cc in
      one_more (in_word-ok x y lo hi table s drive1 small small' (first ∙ word)) (
        in_words-Handles n xs bs table (record s { drive = drive1 }) drive len1 len2 rest
          (others ∙ last))
  in_words-Handles zero [] (b ∷ bs) table s drive len len' small e = absurd (omega arith)
  in_words-Handles zero (x ∷ xs) bs table s drive len len' small e = absurd (omega arith)
  in_words-Handles (suc n) [] bs table s drive len len' small e = absurd (omega arith)
  in_words-Handles (suc n) (x ∷ []) bs table s drive len len' small e = absurd (omega arith)
  in_words-Handles (suc n) (x ∷ y ∷ xs) [] table s drive len len' small e = absurd (omega arith)
  in_words-Handles (suc n) (x ∷ y ∷ xs) (b ∷ []) table s drive len len' small e =
      absurd (omega arith)

  block-Handles :
      (pkt filler : List ℕ) (x y : ℕ) (table : List MmioRegion) (s : Devices)
      → IsIdle s.drive
      → length pkt ≡ packet_sz
      → All (λ b. b < 2 ^ 8) pkt
      → packet_byte pkt 0 ≡ read_12
      → length filler ≡ cd_block_sz
      → (let block = read_at fd (packet_lba pkt * cd_block_sz % 2 ^ 32) in
          length block ≡ cd_block_sz
          → All (λ b. b < 2 ^ 8) block
          → Handles handlers call
              (block_exits before behind pkt filler x y)
              (table, s)
              (block_pages before behind pkt block)
              (table, record s { drive = block_sent pkt block s.drive }))
  block-Handles [] filler x y table s idle len small op many whole bytes = absurd (omega arith)
  block-Handles (a ∷ []) filler x y table s idle len small op many whole bytes =
      absurd (omega arith)
  block-Handles (lo ∷ hi ∷ bs) filler x y table s idle len small op many whole bytes =
      let pkt = lo ∷ hi ∷ bs in
      let block = read_at fd (packet_lba pkt * cd_block_sz % 2 ^ 32) in
      let same : bytes_of (words_of pkt) ≡ pkt = bytes_of-words_of 6 pkt len small in
      let d1 = record s.drive { curr_pkt = pkt; byte_read = packet_sz; receiving = 1 } in
      let d2 = record s.drive {
        curr_pkt = pkt;
        byte_read = 0;
        to_send = block;
        byte_sent = 0;
        receiving = 0;
      } in
      let d3 = record d2 { byte_sent = cd_block_sz; sending = 1 } in
      let written : write_words (words_of pkt) s.drive ≡ ok d1 =
        write_words-bytes (lo + 256 * hi) (words_of bs) [] s.drive.curr_pkt s.drive refl
          idle.no_word (omega (arith, idle.packet)) (ap length same ∙ len ∙ sym idle.packet)
        ∙ ap (λ p. ok (record s.drive { curr_pkt = p; byte_read = packet_sz; receiving = 1 }))
            same in
      let given : read_words 1024 d2 ≡ ok (words_of block, d3) =
        read_words-words 1023 [] block d2 refl refl (omega (arith, whole)) (omega (arith, whole)) in
      let reason = answer read_at fd pkt block s.drive idle op refl whole in
      let reason' = finish read_at fd d3 idle.selected refl in
      let part1 = out_words-Handles pkt table s d1 written in
      let part2 = in_reason-ok x _ table (record s { drive = d1 }) d2 reason in
      let part3 =
        in_words-Handles 1024 filler block table (record s { drive = d2 }) d3 many whole bytes
          given in
      let part4 =
        in_reason-ok y _ table (record s { drive = d3 }) (block_sent pkt block s.drive) reason' in
      Handles-append handlers call _ _ _ _ _ _ _ part1
        (one_more part2 (Handles-append handlers call _ _ _ _ _ _ _ part3 (one_more part4 nothing)))

-- With `atapi_init`'s handlers in the table and an idle drive, a guest that writes a READ_12
-- packet of bytes to the data port, reads the reason, 1024 words and the reason again, and then
-- stops, makes `vm_run` return 0 with the shared page showing the packet, "data", the bytes of
-- the block and "complete". The disk must give a whole block of bytes for that address.
pub read_block-vm_run :
    (old : Handlers Devices)
    (call : MmioCall → List MmioRegion × Devices → List MmioRegion × Devices)
    (read_at : (fd offset : ℕ) → List ℕ) (fd : ℕ) (before behind pkt filler : List ℕ) (x y : ℕ)
    (table : List MmioRegion) (s : Devices) (e : KvmExit) (rest : List KvmExit)
    → IsIdle s.drive
    → length pkt ≡ packet_sz
    → All (λ b. b < 2 ^ 8) pkt
    → packet_byte pkt 0 ≡ read_12
    → length filler ≡ cd_block_sz
    → (let block = read_at fd (packet_lba pkt * cd_block_sz % 2 ^ 32) in
        length block ≡ cd_block_sz
        → All (λ b. b < 2 ^ 8) block
        → IsFinal e
        → Returns
            (λ r. r ≡ (
              0,
              block_pages before behind pkt block,
              (table, record s { drive = block_sent pkt block s.drive }),
            ))
            (do
              handlers ← atapi_init on_drive read_at fd old
              vm_run handlers call true
                  (block_exits before behind pkt filler x y ++ (e ∷ rest))
                  (table, s)))
read_block-vm_run old call read_at fd before behind pkt filler x y table s e rest idle len small op
      many whole bytes fin =
    Returns-bind (atapi_init-registers on_drive read_at fd old) λ handlers set.
      rw
        (vm_run-Handles handlers call _ e rest _ _ _
          (block-Handles handlers call read_at fd before behind set.0 set.2 pkt filler x y table s
            idle len small op many whole bytes)
          fin)
        (returns refl)
