-- ===== src/Serial/Tests.antt =====
-- The theorems on src/serial.c at a port at 0x3F8 whose queues hold four bytes.
use blackhv.Base.{ℕ, ◌+◌, ◌≡◌, refl, true, some, [], ◌∷◌, arith, ◌>>=◌, Returns, ok}
use blackhv.Queue.{Queue}
use blackhv.Queue.Fifo.{IsFifo}
use blackhv.Io.{Handlers, no_handler}
use blackhv.Serial.{
  Serial, SerialMemory, serial_new, serial_destroy, serial_read, serial_write, serial_inb, lsr,
}
use blackhv.Serial.Registers.{Carries, serial_inb_status}
use blackhv.Serial.Streams.{
  send_all, receive_all, serial_write-append, serial_read-send_all, receive_all-take,
}
use blackhv.Serial.Ports.{Taken, serial_new-Taken, serial_destroy-Taken}

abbrev pub idle_queue : Queue
idle_queue = record {
  buffer = 0 ∷ 0 ∷ 0 ∷ 0 ∷ [];
  buffer_size = 4;
  front = 0;
  rear = 0;
  is_full = 0;
}

-- The bytes 5 and 6 wait for the guest.
abbrev pub host_queue : Queue
host_queue = record {
  buffer = 0 ∷ 5 ∷ 6 ∷ 0 ∷ [];
  buffer_size = 4;
  front = 1;
  rear = 3;
  is_full = 0;
}

abbrev pub com1 : Serial
com1 = record { port = 0x3F8; guest_queue = some idle_queue; host_queue = some host_queue }

idle_queue-IsFifo : IsFifo idle_queue []
idle_queue-IsFifo = record {
  holds = record {
    positive = omega arith;
    word = omega arith;
    stored = refl;
    front_in = omega arith;
    fits = omega arith;
    rear_at = refl;
    bytes = tt;
  };
  flag = refl;
}

pub host_queue-IsFifo : IsFifo host_queue (5 ∷ 6 ∷ [])
host_queue-IsFifo = record {
  holds = record {
    positive = omega arith;
    word = omega arith;
    stored = refl;
    front_in = omega arith;
    fits = omega arith;
    rear_at = refl;
    bytes = (refl, (refl, tt));
  };
  flag = refl;
}

pub com1-Carries : Carries com1 4 [] (5 ∷ 6 ∷ [])
com1-Carries = record {
  guest = idle_queue;
  host = host_queue;
  guest_at = refl;
  host_at = refl;
  guest_fifo = idle_queue-IsFifo;
  host_fifo = host_queue-IsFifo;
  guest_size = refl;
  host_size = refl;
}

serial_read-send_all_example :
    Returns
      (λ (n, out, after). (n ≡ 3) × (out ≡ some (1 ∷ 2 ∷ 3 ∷ [])))
      (do
        serial' ← send_all (1 ∷ 2 ∷ 3 ∷ []) com1
        serial_read (some serial') (some (0 ∷ 0 ∷ 0 ∷ [])) 3)
serial_read-send_all_example =
    serial_read-send_all (1 ∷ 2 ∷ 3 ∷ []) com1 4 (5 ∷ 6 ∷ []) (0 ∷ 0 ∷ 0 ∷ []) com1-Carries
      (omega arith) refl

receive_all-take_example :
    Returns (λ (bs, serial'). (bs ≡ 5 ∷ 6 ∷ []) × Carries serial' 4 [] []) (receive_all 2 com1)
receive_all-take_example = receive_all-take (5 ∷ 6 ∷ []) com1 4 [] com1-Carries

serial_write-append_example :
    Returns
      (λ (r, after).
        (r ≡ 2)
        × ((serial' : Serial) × (after ≡ some serial') × Carries serial' 4 [] (5 ∷ 6 ∷ 1 ∷ 2 ∷ [])))
      (serial_write (some com1) (some (1 ∷ 2 ∷ 3 ∷ [])) 3)
serial_write-append_example =
    serial_write-append com1 4 [] (5 ∷ 6 ∷ []) (1 ∷ 2 ∷ 3 ∷ []) 3 com1-Carries (omega arith)

serial_inb_status_example : serial_inb (0x3F8 + lsr) (some com1) ≡ ok (33, com1)
serial_inb_status_example = serial_inb_status com1 4 [] (5 ∷ 6 ∷ []) com1-Carries (omega arith)

abbrev empty_table : Handlers ℕ
empty_table q = no_handler

abbrev enough_memory : SerialMemory
enough_memory = record {
  struct_memory = true;
  guest_struct = true;
  host_struct = true;
  guest_buffer = some (0 ∷ 0 ∷ []);
  host_buffer = some (0 ∷ 0 ∷ []);
}

serial_new-Taken_example :
    Returns
      (λ (out, new).
        ((serial : Serial) × (out ≡ some serial) × (serial.port ≡ 0x3F8) × Carries serial 2 [] [])
        × Taken empty_table new 0x3F8 8 no_handler)
      (serial_new enough_memory empty_table no_handler 0x3F8 2)
serial_new-Taken_example =
    serial_new-Taken enough_memory empty_table no_handler 0x3F8 2 (0 ∷ 0 ∷ []) (0 ∷ 0 ∷ []) refl
      refl refl refl refl refl refl (omega arith) (omega arith) (omega arith)

serial_destroy-Taken_example :
    Returns
      (λ new. Taken empty_table new 0x3F8 8 no_handler)
      (serial_destroy empty_table (some com1))
serial_destroy-Taken_example = serial_destroy-Taken empty_table com1 (omega arith)
