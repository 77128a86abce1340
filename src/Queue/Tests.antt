-- ===== src/Queue/Tests.antt =====
-- The theorems on src/queue.c at a ring of four bytes that holds two, one of them past the end.
use blackhv.Base.{
  ◌>>=◌, ℕ, ◌++◌, ◌++◌, false, none, none, ok, none, ◌≡◌, refl, true, some, List, [], ◌∷◌, arith,
  Returns,
}
use blackhv.Queue.{locked_write, put_byte, Queue, queue_new, queue_write, queue_read, queue_empty}
use blackhv.Queue.Fifo.{IsFifo}
use blackhv.Queue.Write.{Written, queue_write-append}
use blackhv.Queue.Read.{WasRead, queue_read-take}
use blackhv.Queue.Threads.{
  System, write_test, write_body, Reach, start, later, InOrder, Finishes, refuses_write,
  Reach-InOrder, Reach-Finishes, two_writers-broken,
}
use blackhv.Queue.Calls.{
  Call, write, read, empty, perform_all, serve_all, Stands, perform_all-serve_all, queue_new-IsFifo,
  queue_empty-IsFifo,
}

-- Bytes 7 and 8, the second one past the end of the buffer.
abbrev wrapped : Queue
wrapped = record { buffer = 8 ∷ 0 ∷ 0 ∷ 7 ∷ []; buffer_size = 4; front = 3; rear = 1; is_full = 0 }

wrapped-IsFifo : IsFifo wrapped (7 ∷ 8 ∷ [])
wrapped-IsFifo = record {
  holds = record {
    positive = omega arith;
    word = omega arith;
    stored = refl;
    front_in = omega arith;
    fits = omega arith;
    rear_at = refl;
    bytes = (refl, (refl, tt));
  };
  flag = refl;
}

-- Two writes that fill the ring, a read, and the test of emptiness.
abbrev calls : List Call
calls = write (1 ∷ 2 ∷ 3 ∷ []) 3 ∷ read (0 ∷ 0 ∷ 0 ∷ []) 3 ∷ empty ∷ []

perform_all-serve_all_example :
    Returns (Stands 4 (serve_all 4 (7 ∷ 8 ∷ []) calls)) (perform_all (some wrapped) calls)
perform_all-serve_all_example =
    perform_all-serve_all calls wrapped (7 ∷ 8 ∷ []) wrapped-IsFifo
      (omega arith, (omega arith, (tt, tt)))

queue_write-append_example :
    Returns
      (Written wrapped (7 ∷ 8 ∷ []) (1 ∷ 2 ∷ 3 ∷ []) 3)
      (queue_write (some wrapped) (1 ∷ 2 ∷ 3 ∷ []) 3)
queue_write-append_example =
    queue_write-append wrapped (7 ∷ 8 ∷ []) (1 ∷ 2 ∷ 3 ∷ []) 3 wrapped-IsFifo (omega arith)

queue_read-take_example :
    Returns
      (WasRead wrapped (7 ∷ 8 ∷ []) (0 ∷ 0 ∷ 0 ∷ []) 3)
      (queue_read (some wrapped) (0 ∷ 0 ∷ 0 ∷ []) 3)
queue_read-take_example =
    queue_read-take wrapped (7 ∷ 8 ∷ []) (0 ∷ 0 ∷ 0 ∷ []) 3 wrapped-IsFifo (omega arith)

queue_new-IsFifo_example :
    (q : Queue) × (queue_new true (some (9 ∷ 9 ∷ [])) 2 ≡ some q)
    × IsFifo q []
    × (q.buffer_size ≡ 2)
queue_new-IsFifo_example = queue_new-IsFifo (9 ∷ 9 ∷ []) 2 (omega arith) (omega arith) refl

queue_empty-IsFifo_example : queue_empty (some wrapped) ≡ 0
queue_empty-IsFifo_example = queue_empty-IsFifo wrapped wrapped-IsFifo

-- A writer that makes its test and then its body, which takes two of three bytes.
abbrev idle_system : System
idle_system = record {
  queue = wrapped;
  writer = none;
  reader = none;
  accepted = 7 ∷ 8 ∷ [];
  delivered = [];
}

abbrev tested_system : System
tested_system = record idle_system { writer = some (1 ∷ 2 ∷ 3 ∷ [], 3) }

abbrev filled : Queue
filled = record { buffer = 8 ∷ 1 ∷ 2 ∷ 7 ∷ []; buffer_size = 4; front = 3; rear = 3; is_full = 1 }

fills : locked_write wrapped (1 ∷ 2 ∷ 3 ∷ []) 3 ≡ ok (2, filled)
unfolding locked_write put_byte
fills = refl

tested : Reach idle_system tested_system
tested = later start (write_test idle_system (1 ∷ 2 ∷ 3 ∷ []) 3 refl (omega arith) refl)

written : Reach idle_system (record tested_system {
  queue = filled;
  writer = none;
  accepted = (7 ∷ 8 ∷ []) ++ (1 ∷ 2 ∷ []);
})
written = later tested (write_body tested_system (1 ∷ 2 ∷ 3 ∷ []) 3 2 filled refl fills)

idle_system-InOrder : InOrder idle_system
idle_system-InOrder = record {
  waiting = 7 ∷ 8 ∷ [];
  fifo = wrapped-IsFifo;
  order = refl;
  write_ready = tt;
  read_ready = tt;
}

Reach-InOrder_example : InOrder (record tested_system {
  queue = filled;
  writer = none;
  accepted = (7 ∷ 8 ∷ []) ++ (1 ∷ 2 ∷ []);
})
Reach-InOrder_example = Reach-InOrder written idle_system-InOrder

Reach-Finishes_example : Finishes tested_system
Reach-Finishes_example = Reach-Finishes tested idle_system-InOrder

abbrev one_left : Queue
one_left = record { buffer = 8 ∷ 9 ∷ 0 ∷ 7 ∷ []; buffer_size = 4; front = 3; rear = 2; is_full = 0 }

one_left-IsFifo : IsFifo one_left (7 ∷ 8 ∷ 9 ∷ [])
one_left-IsFifo = record {
  holds = record {
    positive = omega arith;
    word = omega arith;
    stored = refl;
    front_in = omega arith;
    fits = omega arith;
    rear_at = refl;
    bytes = (refl, (refl, (refl, tt)));
  };
  flag = refl;
}

two_writers-broken_example :
    (refuses_write one_left 1 ≡ false)
    × Returns
        (λ out. (ys : List ℕ) → ¬ (IsFifo out.1 ys))
        (do (n, q') ← locked_write one_left (1 ∷ []) 1; locked_write q' (2 ∷ []) 1)
two_writers-broken_example =
    two_writers-broken one_left (7 ∷ 8 ∷ 9 ∷ []) 1 2 one_left-IsFifo (omega arith) refl
