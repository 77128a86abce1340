-- ===== src/Serial/Ports.antt =====
-- The ports that `serial_new` and `serial_destroy` of src/serial.c take and give back.
use blackhv.Base.{
  ℕ, zero, suc, ◌+◌, ◌%◌, ◌^◌, ◌≤◌, ◌<◌, ◌≡◌, refl, ◌∙◌, ◌⊎◌, inl, true, some, List, [], arith,
  ◌==◌, if◌then◌else◌, ==_refl, ==_false, lt→ltb, length, Returns-mono, Returns-bind, Returns,
  returns,
}
use blackhv.Io.{
  Handler, Handlers, handlers_length, no_handler, io_register_handler, io_unregister_handler,
}
use mathlib.Core.Path.{fun_ext}
use blackhv.Serial.{
  Serial, SerialMemory, serial_new, serial_destroy, register_loop, unregister_loop,
}
use blackhv.Serial.Registers.{Carries}
use blackhv.Queue.{queue_new}
use blackhv.Queue.Calls.{queue_new-IsFifo}

module _ {S : Type 0} where
  -- The handlers from `port` on, `n` of them, are `hdl`, and the others are those of `old`.
  abbrev pub Taken : Handlers S → Handlers S → ℕ → ℕ → Handler S → Type 0
  Taken old new port n hdl =
      ((i : ℕ) → i < n → new (port + i) ≡ hdl)
      × ((q : ℕ) → (q < port) ⊎ (port + n ≤ q) → new q ≡ old q)

  -- One more port in front of the others.
  Taken-cons :
      (old new : Handlers S) (a n : ℕ) (hdl : Handler S)
      → Taken (λ q. if q == a then hdl else old q) new (a + 1) n hdl
      → Taken old new a (suc n) hdl
  Taken-cons old new a n hdl (set_all, same) =
      ((λ j lt. at j lt), (λ q out. same q (ground arith) ∙ rw (==_false q a (ground arith)) refl))
    where
      at : (j : ℕ) → j < suc n → new (a + j) ≡ hdl
      at zero lt =
          let z : a + 0 ≡ a = omega arith in rw z (same a (inl (omega arith)) ∙ rw (==_refl a) refl)
      at (suc j) lt = let e : a + suc j ≡ a + 1 + j = omega arith in rw e (set_all j (omega arith))

  register_loop-Taken :
      (n i : ℕ) (handlers : Handlers S) (port : ℕ) (hdl : Handler S)
      → port + i + n ≤ handlers_length
      → Returns (λ new. Taken handlers new (port + i) n hdl) (register_loop n i handlers port hdl)
  unfolding register_loop io_register_handler
  register_loop-Taken zero i handlers port hdl inside =
      returns ((λ j lt. absurd (omega arith)), (λ q out. refl))
  register_loop-Taken (suc n) i handlers port hdl inside =
      let word : (port + i) % 2 ^ 16 ≡ port + i = omega arith in
      let shift : port + (i + 1) ≡ port + i + 1 = omega arith in
      rw (word, lt→ltb (port + i) handlers_length (omega arith))
        (Returns-mono (register_loop-Taken n (i + 1) _ port hdl (omega arith))
          (λ new t. Taken-cons handlers new (port + i) n hdl (rw shift at t)))

  -- With its memory given, a positive size below 2^64 and eight ports in the table, `serial_new`
  -- puts the handler at those ports and at no other, and the queues it makes carry nothing.
  pub serial_new-Taken :
      (memory : SerialMemory) (handlers : Handlers S) (hdl : Handler S) (port size : ℕ)
      (g h : List ℕ)
      → memory.struct_memory ≡ true
      → memory.guest_struct ≡ true
      → memory.host_struct ≡ true
      → memory.guest_buffer ≡ some g
      → memory.host_buffer ≡ some h
      → length g ≡ size
      → length h ≡ size
      → 0 < size
      → size < 2 ^ 64
      → port + 8 ≤ handlers_length
      → Returns
          (λ (out, new).
            ((serial : Serial) × (out ≡ some serial)
              × (serial.port ≡ port)
              × Carries serial size [] [])
            × Taken handlers new port 8 hdl)
          (serial_new memory handlers hdl port size)
  unfolding serial_new
  serial_new-Taken memory handlers hdl port size g h m1 m2 m3 m4 m5 lg lh positive word inside =
      let (q, made, is, sized) = queue_new-IsFifo g size positive word lg in
      let (r, made', is', sized') = queue_new-IsFifo h size positive word lh in
      let z : port + 0 ≡ port = omega arith in
      let guest_made : queue_new memory.guest_struct memory.guest_buffer size ≡ some q =
        rw (m2, m4) made in
      let host_made : queue_new memory.host_struct memory.host_buffer size ≡ some r =
        rw (m3, m5) made' in
      rw (m1, guest_made, host_made)
        (Returns-bind (register_loop-Taken 8 0 handlers port hdl (omega arith)) λ new t. returns (
          (
            record { port = port; guest_queue = some q; host_queue = some r },
            refl,
            refl,
            record {
              guest = q;
              host = r;
              guest_at = refl;
              host_at = refl;
              guest_fifo = is;
              host_fifo = is';
              guest_size = sized;
              host_size = sized';
            },
          ),
          rw z at t,
        ))

  -- The same for `serial_destroy`, which clears the eight ports.
  unregister_loop-register :
      (n i : ℕ) (handlers : Handlers S) (port : ℕ)
      → unregister_loop n i handlers port ≡ register_loop n i handlers port no_handler
  unfolding unregister_loop register_loop io_unregister_handler
  unregister_loop-register zero i handlers port = refl
  unregister_loop-register (suc n) i handlers port =
      rw (fun_ext (λ h. unregister_loop-register n (i + 1) h port)) refl

  -- `serial_destroy` of a port whose eight ports are in the table empties the handlers there and
  -- leaves the others.
  pub serial_destroy-Taken :
      (handlers : Handlers S) (serial : Serial)
      → serial.port + 8 ≤ handlers_length
      → Returns
          (λ new. Taken handlers new serial.port 8 no_handler)
          (serial_destroy handlers (some serial))
  unfolding serial_destroy
  serial_destroy-Taken handlers serial inside =
      let z : serial.port + 0 ≡ serial.port = omega arith in
      rw (unregister_loop-register 8 0 handlers serial.port) (
        Returns-mono (register_loop-Taken 8 0 handlers serial.port no_handler (omega arith))
          (λ new t. rw z at t))
