-- ===== src/Guest/Tests.antt =====
-- The theorems on the guest program at a serial port with queues of four bytes, and at a grey picture.
use blackhv.Base.{
  ◌++◌, ℕ, ◌+◌, ◌*◌, ◌≤◌, ◌<◌, ◌≡◌, refl, ◌⊎◌, some, List, [], ◌∷◌, arith, get_elem?, replicate,
  length-replicate, Returns,
}
use blackhv.Serial.Tests.{com1, com1-Carries}
use blackhv.Memory.Access.{Bytes}
use blackhv.Guest.{echo}
use blackhv.Queue.{Queue}
use blackhv.Queue.Fifo.{IsFifo}
use blackhv.Serial.{Serial}
use blackhv.Guest.Start.{greeting, start, HasStarted, start-HasStarted}
use blackhv.Guest.Echo.{IsLine, in_serial, out_serial, echo-IsLine}
use blackhv.Guest.Splash.{Pixel, pixel_at, framebuffer, draw_screen}
use blackhv.Guest.Splash.Screen.{Beside, screen_at, draw_screen-Painted}

com1-IsLine : IsLine com1 4 [] (5 ∷ 6 ∷ [])
com1-IsLine = record { at_com1 = refl; carries = com1-Carries }

echo-IsLine_example :
    Returns (λ s'. IsLine s' 4 (5 ∷ 6 ∷ []) []) (echo in_serial out_serial 1 2 com1)
echo-IsLine_example = echo-IsLine 0 (5 ∷ 6 ∷ []) com1 4 [] com1-IsLine (omega arith)

abbrev grey : List ℕ
grey = replicate (91 * 93) 128

abbrev no_memory : Bytes
no_memory a = 0

draw_screen-Painted_example :
    Returns
      (λ m'.
        ((r k v : ℕ)
          → (r < 93) × (k < 91)
          → get_elem? grey (r * 91 + k) ≡ some v
          → Pixel m' (pixel_at r k) v)
        × ((row col : ℕ)
            → (row < 200) × (col < 320)
            → Beside row col
            → Pixel m' (screen_at row col) 0)
        × ((a : ℕ) → (a < framebuffer) ⊎ (framebuffer + 320 * 200 * 4 ≤ a) → m' a ≡ no_memory a))
      (draw_screen grey no_memory)
draw_screen-Painted_example =
    draw_screen-Painted grey no_memory (length-replicate {A = ℕ} (91 * 93) 128)

-- A port with queues of 32 bytes; 5 and 6 wait for the guest.
abbrev idle : Queue
idle = record { buffer = replicate 32 0; buffer_size = 32; front = 0; rear = 0; is_full = 0 }

abbrev two_waiting : Queue
two_waiting = record {
  buffer = 5 ∷ 6 ∷ replicate 30 0;
  buffer_size = 32;
  front = 0;
  rear = 2;
  is_full = 0;
}

idle-IsFifo : IsFifo idle []
idle-IsFifo = record {
  holds = record {
    positive = omega arith;
    word = omega arith;
    stored = refl;
    front_in = omega arith;
    fits = omega arith;
    rear_at = refl;
    bytes = tt;
  };
  flag = refl;
}

two_waiting-IsFifo : IsFifo two_waiting (5 ∷ 6 ∷ [])
two_waiting-IsFifo = record {
  holds = record {
    positive = omega arith;
    word = omega arith;
    stored = refl;
    front_in = omega arith;
    fits = omega arith;
    rear_at = refl;
    bytes = (refl, (refl, tt));
  };
  flag = refl;
}

abbrev wide : Serial
wide = record { port = 0x3F8; guest_queue = some idle; host_queue = some two_waiting }

wide-IsLine : IsLine wide 32 [] (5 ∷ 6 ∷ [])
wide-IsLine = record {
  at_com1 = refl;
  carries = record {
    guest = idle;
    host = two_waiting;
    guest_at = refl;
    host_at = refl;
    guest_fifo = idle-IsFifo;
    host_fifo = two_waiting-IsFifo;
    guest_size = refl;
    host_size = refl;
  };
}

start-HasStarted_example :
    Returns
      (HasStarted 32 grey (greeting ++ (5 ∷ 6 ∷ [])) no_memory)
      (start in_serial out_serial grey 1 2 wide no_memory)
start-HasStarted_example =
    start-HasStarted 0 grey (5 ∷ 6 ∷ []) [] wide 32 no_memory wide-IsLine (omega arith)
      (length-replicate {A = ℕ} (91 * 93) 128)
