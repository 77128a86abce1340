-- ===== src/Atapi/Tests.antt =====
-- The theorems on src/atapi.c at the state that the program starts with and a disk of sevens.
use blackhv.Base.{
  All, ◌<◌, ◌^◌, ◌+◌, ℕ, ◌≤◌, ◌≡◌, refl, List, [], ◌∷◌, arith, length, replicate, length-replicate,
  Returns, ok,
}
use blackhv.Atapi.{
  primary_reg, Atapi, initial, packet_sz, cd_block_sz, packet_data_transmit,
  packet_command_complete,
}
use blackhv.Io.{Handlers, no_handler}
use blackhv.Atapi.Init.{
  data_handler, ignore_outb_handler, select_outb_handler, signature_inb_handler, status_handler,
  primary_dcr, IsAtaPort, atapi_init, atapi_init-registers,
}
use blackhv.Atapi.Bounds.{IsSafe, data_out, data_in, access_register, access_register-IsSafe}
use blackhv.Atapi.Words.{IsByte, IsTyped, All-replicate, register_value, register_value-IsTyped}
use blackhv.Atapi.Protocol.{IsIdle, read_block, words_of, bytes_of, read_block-words}

abbrev pub disk : (fd offset : ℕ) → List ℕ
disk fd offset = replicate cd_block_sz 7

disk_block : (fd offset : ℕ) → length (disk fd offset) ≤ cd_block_sz
disk_block fd offset = omega (arith, length-replicate {A = ℕ} cd_block_sz 7)

initial-IsSafe : IsSafe initial
initial-IsSafe = record {
  packet = refl;
  block = length-replicate {A = ℕ} cd_block_sz 0;
  read_even = refl;
  read_in = omega arith;
  sent_even = refl;
  sent_in = omega arith;
}

access_register-IsSafe_example : Returns IsSafe (access_register disk 3 (data_out 0x00A8) 0 initial)
access_register-IsSafe_example =
    access_register-IsSafe disk 3 (data_out 0x00A8) 0 initial disk_block initial-IsSafe

pub initial-IsIdle : IsIdle initial
initial-IsIdle = record {
  selected = refl;
  packet = refl;
  block = length-replicate {A = ℕ} cd_block_sz 0;
  no_word = refl;
  not_sending = refl;
}

-- READ_12 of block 1.
abbrev packet : List ℕ
packet = 0xA8 ∷ 0 ∷ 0x100 ∷ 0 ∷ 0 ∷ 0 ∷ []

read_block-words_example :
    read_block disk 3 packet initial
    ≡ ok (
      packet_data_transmit,
      words_of (replicate cd_block_sz 7),
      packet_command_complete,
      record initial { curr_pkt = bytes_of packet; to_send = replicate cd_block_sz 7 },
    )
read_block-words_example =
    read_block-words disk 3 0xA8 (0 ∷ 0x100 ∷ 0 ∷ 0 ∷ 0 ∷ []) initial initial-IsIdle refl refl
      (length-replicate {A = ℕ} cd_block_sz 7)

abbrev no_handlers : Handlers Atapi
no_handlers q = no_handler

atapi_init-registers_example :
    Returns
      (λ new.
        (new primary_reg ≡ data_handler)
        × (new (primary_reg + 1) ≡ ignore_outb_handler)
        × (new (primary_reg + 2) ≡ signature_inb_handler disk 3)
        × (new (primary_reg + 3) ≡ signature_inb_handler disk 3)
        × (new (primary_reg + 4) ≡ signature_inb_handler disk 3)
        × (new (primary_reg + 5) ≡ signature_inb_handler disk 3)
        × (new (primary_reg + 6) ≡ select_outb_handler)
        × (new (primary_reg + 7) ≡ status_handler)
        × (new primary_dcr ≡ ignore_outb_handler)
        × ((q : ℕ) → ¬ (IsAtaPort q) → new q ≡ no_handler))
      (atapi_init (λ h. h) disk 3 no_handlers)
atapi_init-registers_example = atapi_init-registers (λ h. h) disk 3 no_handlers

disk_bytes : (fd offset : ℕ) → All IsByte (disk fd offset)
disk_bytes fd offset = All-replicate cd_block_sz 7 (omega arith)

initial-IsTyped : IsTyped initial
initial-IsTyped = record {
  packet = All-replicate packet_sz 0 (omega arith);
  block = All-replicate cd_block_sz 0 (omega arith);
  read_at = omega arith;
  sent_at = omega arith;
}

register_value-IsTyped_example :
    Returns
      (λ (v, s'). (v < 2 ^ 16) × IsTyped s')
      (register_value disk disk_bytes 3 data_in 0 initial)
register_value-IsTyped_example =
    register_value-IsTyped disk disk_bytes 3 data_in 0 initial initial-IsSafe initial-IsTyped
