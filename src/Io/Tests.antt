-- ===== src/Io/Tests.antt =====
-- The theorems on src/io.c at a handler that keeps the last byte written.
use blackhv.Base.{ℕ, ◌<◌, ◌≡◌, ◌≢◌, none, some, arith, Returns, ok, fault}
use blackhv.Io.{
  Handler, Handlers, no_handler, handlers_length, io_register_handler, io_unregister_handler,
  io_handle_outb, io_handle_outw, io_handle_inb, io_handle_inw,
}
use blackhv.Io.Dispatch.{
  accesses, answers, io_register_handler-answers, io_unregister_handler-idle, last_port-fault,
}

abbrev latch : Handler ℕ
latch = record {
  params = 0;
  outb_handler = some (λ port b params s. ok b);
  outw_handler = none;
  inb_handler = some (λ port params s. ok (s, s));
  inw_handler = none;
}

abbrev empty_table : Handlers ℕ
empty_table q = no_handler

io_register_handler-answers_example :
    Returns
      (λ handlers'.
        (d o : ℕ) (s : ℕ)
        → (accesses handlers' 0x70 d o s ≡ answers latch 0x70 d o s)
          × ((q : ℕ)
              → q < handlers_length
              → q ≢ 0x70
              → accesses handlers' q d o s ≡ accesses empty_table q d o s))
      (io_register_handler empty_table 0x70 latch)
io_register_handler-answers_example =
    io_register_handler-answers empty_table 0x70 latch (omega arith)

io_unregister_handler-idle_example :
    Returns
      (λ handlers'.
        (data' output : ℕ) (s : ℕ)
        → (io_handle_outb handlers' 0x70 data' s ≡ ok (0, s))
          × (io_handle_outw handlers' 0x70 data' s ≡ ok (0, s))
          × (io_handle_inb handlers' 0x70 output s ≡ ok (0, output, s))
          × (io_handle_inw handlers' 0x70 output s ≡ ok (0, output, s)))
      (io_unregister_handler (λ q. latch) 0x70)
io_unregister_handler-idle_example = io_unregister_handler-idle (λ q. latch) 0x70 (omega arith)

last_port-fault_example :
    (io_register_handler empty_table 0xFFFF latch ≡ fault)
    × (io_unregister_handler empty_table 0xFFFF ≡ fault)
    × (io_handle_outb empty_table 0xFFFF 1 5 ≡ fault)
    × (io_handle_outw empty_table 0xFFFF 1 5 ≡ fault)
    × (io_handle_inb empty_table 0xFFFF 2 5 ≡ fault)
    × (io_handle_inw empty_table 0xFFFF 2 5 ≡ fault)
last_port-fault_example = last_port-fault empty_table latch 1 2 5
