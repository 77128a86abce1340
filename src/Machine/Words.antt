-- ===== src/Machine/Words.antt =====
-- The accesses of two bytes that the exits of src/vm.c pass on, in the shared page, and the sequence
-- of accesses with which a guest reads a block from the drive of src/atapi.c.
use blackhv.Base.{
  ℕ, zero, suc, ◌+◌, ◌*◌, ◌/◌, ◌%◌, ◌^◌, ◌<◌, ◌≡◌, refl, ap, ◌∙◌, List, [], ◌∷◌, ◌++◌, append_assoc,
  arith, lt→ltb, length, All, length-append, set-append, ok,
}
use blackhv.Mmio.{MmioRegion, MmioCall}
use blackhv.Io.{Handlers}
use blackhv.Atapi.{
  Atapi, primary_reg, packet_data_transmit, packet_command_complete, load_u16, store_u16,
}
use blackhv.Atapi.Protocol.{words_of, bytes_of}
use blackhv.Vm.Run.{KvmExit, exit_io, exit_io_in, exit_io_out}
use blackhv.Vm.Exits.{Handles, nothing, one_more}
use blackhv.Machine.Port.{in_byte}

-- The words that a list of bytes makes, and back.
pub bytes_of-words_of :
    (n : ℕ) (bs : List ℕ)
    → length bs ≡ 2 * n
    → All (λ b. b < 2 ^ 8) bs
    → bytes_of (words_of bs) ≡ bs
bytes_of-words_of n [] even small = refl
bytes_of-words_of zero (lo ∷ []) even small = absurd (omega arith)
bytes_of-words_of (suc n) (lo ∷ []) even small = absurd (omega arith)
bytes_of-words_of zero (lo ∷ hi ∷ bs) even small = absurd (omega arith)
bytes_of-words_of (suc n) (lo ∷ hi ∷ bs) even (small, (small', rest)) =
    let low : (lo + 256 * hi) % 256 ≡ lo = omega arith in
    let high : (lo + 256 * hi) / 256 % 256 ≡ hi = omega arith in
    rw (low, high, bytes_of-words_of n bs (omega arith) rest) refl

pub length-words_of : (n : ℕ) (bs : List ℕ) → length bs ≡ 2 * n → length (words_of bs) ≡ n
length-words_of zero [] even = refl
length-words_of (suc n) [] even = absurd (omega arith)
length-words_of zero (lo ∷ []) even = absurd (omega arith)
length-words_of (suc n) (lo ∷ []) even = absurd (omega arith)
length-words_of zero (lo ∷ hi ∷ bs) even = absurd (omega arith)
length-words_of (suc n) (lo ∷ hi ∷ bs) even = ap suc (length-words_of n bs (omega arith))

-- The shared page with a word between `before` and `behind`, and one page for each two bytes.
abbrev pub word_page : (before behind : List ℕ) (lo hi : ℕ) → List ℕ
word_page before behind lo hi = before ++ (lo ∷ hi ∷ behind)

abbrev pub word_pages : (before behind : List ℕ) → List ℕ → List (List ℕ)
word_pages before behind [] = []
word_pages before behind (b ∷ []) = []
word_pages before behind (lo ∷ hi ∷ bs) =
    word_page before behind lo hi ∷ word_pages before behind bs

-- The exits of `outw` and `inw` at the port, one for each two bytes.
abbrev pub out_words : (before behind : List ℕ) (port : ℕ) → List ℕ → List KvmExit
out_words before behind port [] = []
out_words before behind port (b ∷ []) = []
out_words before behind port (lo ∷ hi ∷ bs) =
    exit_io (record { direction = exit_io_out; size = 2; port = port; data_offset = length before })
      (word_page before behind lo hi)
    ∷ out_words before behind port bs

abbrev pub in_words : (before behind : List ℕ) (port : ℕ) → List ℕ → List KvmExit
in_words before behind port [] = []
in_words before behind port (b ∷ []) = []
in_words before behind port (lo ∷ hi ∷ bs) =
    exit_io (record { direction = exit_io_in; size = 2; port = port; data_offset = length before })
      (word_page before behind lo hi)
    ∷ in_words before behind port bs

pub load_u16-append :
    (before behind : List ℕ) (lo hi : ℕ)
    → load_u16 (word_page before behind lo hi) (length before) ≡ ok (lo + 256 * hi)
unfolding load_u16
load_u16-append [] behind lo hi = refl
load_u16-append (b ∷ before) behind lo hi =
    let e : suc (length before) + 1 ≡ suc (length before + 1) = omega arith in
    rw e (load_u16-append before behind lo hi)

pub store_u16-append :
    (before behind : List ℕ) (x y lo hi : ℕ)
    → lo < 2 ^ 8
    → hi < 2 ^ 8
    → store_u16 (word_page before behind x y) (length before) (lo + 256 * hi)
      ≡ ok (word_page before behind lo hi)
unfolding store_u16
store_u16-append before behind x y lo hi small small' =
    let low : (lo + 256 * hi) % 256 ≡ lo = omega arith in
    let high : (lo + 256 * hi) / 256 % 256 ≡ hi = omega arith in
    let room : length before + 1 < length (word_page before behind x y) =
      omega (arith, length-append before (x ∷ y ∷ behind)) in
    rw (low, high, lt→ltb _ _ room, set-append before x lo (length before) (y ∷ behind) refl)
      (ap ok (
        set-append (before ++ (lo ∷ [])) y hi (length before + 1) behind
          (omega (arith, length-append before (lo ∷ [])))
        ∙ simp append_assoc))

-- What is handled in two parts.
pub Handles-append :
    {S : Type 0} (handlers : Handlers S)
    (call : MmioCall → List MmioRegion × S → List MmioRegion × S) (es es' : List KvmExit)
    (s s' s'' : List MmioRegion × S) (ps ps' : List (List ℕ))
    → Handles handlers call es s ps s'
    → Handles handlers call es' s' ps' s''
    → Handles handlers call (es ++ es') s (ps ++ ps') s''
Handles-append handlers call es es' s s' s'' ps ps' nothing after = after
Handles-append handlers call es es' s s' s'' ps ps' (one_more {p = p} {ps = more} step rest) after =
    rw (append_assoc p more ps')
      (one_more step (Handles-append handlers call _ es' _ s' s'' more ps' rest after))

-- The accesses of the guest that read a block.
abbrev pub block_exits : (before behind pkt filler : List ℕ) (x y : ℕ) → List KvmExit
block_exits before behind pkt filler x y =
    out_words before behind primary_reg pkt
    ++ (in_byte before behind (primary_reg + 2) x
        ∷ (in_words before behind primary_reg filler
            ++ (in_byte before behind (primary_reg + 2) y ∷ [])))

-- What the shared page shows at them.
abbrev pub block_pages : (before behind pkt block : List ℕ) → List (List ℕ)
block_pages before behind pkt block =
    word_pages before behind pkt
    ++ ((before ++ (packet_data_transmit ∷ behind))
        ∷ (word_pages before behind block ++ ((before ++ (packet_command_complete ∷ behind)) ∷ [])))

-- The state of the drive after the transfer.
abbrev pub block_sent : (pkt block : List ℕ) → Atapi → Atapi
block_sent pkt block s = record s {
  curr_pkt = pkt;
  byte_read = 0;
  to_send = block;
  byte_sent = 0;
  receiving = 0;
  sending = 0;
}
