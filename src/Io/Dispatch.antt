-- ===== src/Io/Dispatch.antt =====
-- How src/io.c sends a port access to a handler.
use blackhv.Base.{
  ℕ, ◌<◌, ◌≡◌, refl, sym, ◌∙◌, ◌≢◌, ==_refl, ==_false, lt→ltb, Exec, Returns, ok, fault, returns,
}
use blackhv.Io.{
  Handler, Handlers, handlers_length, handler_at, io_register_handler, io_unregister_handler,
  io_handle_outb, io_handle_outw, io_handle_inb, io_handle_inw, call_out, call_in,
}

-- What the four accesses at a port do, as one value.
abbrev pub Accesses : Type 0 → Type 0
Accesses S = Exec (ℕ × S) × Exec (ℕ × S) × Exec (ℕ × ℕ × S) × Exec (ℕ × ℕ × S)

module _ {S : Type 0} where
  abbrev pub accesses : Handlers S → ℕ → (data' output : ℕ) → S → Accesses S
  accesses handlers port d o s = (
    io_handle_outb handlers port d s,
    io_handle_outw handlers port d s,
    io_handle_inb handlers port o s,
    io_handle_inw handlers port o s,
  )

  -- What a handler answers at a port.
  abbrev pub answers : Handler S → ℕ → (data' output : ℕ) → S → Accesses S
  answers h port d o s = (
    call_out h.outb_handler port d h.params s,
    call_out h.outw_handler port d h.params s,
    call_in h.inb_handler port h.params o s,
    call_in h.inw_handler port h.params o s,
  )

  accesses-answers :
      (handlers : Handlers S) (port d o : ℕ) (s : S)
      → port < handlers_length
      → accesses handlers port d o s ≡ answers (handlers port) port d o s
  unfolding io_handle_outb io_handle_outw io_handle_inb io_handle_inw handler_at
  accesses-answers handlers port d o s small = rw (lt→ltb port handlers_length small) refl

  -- A registration at a port of the table succeeds; after it all four accesses at the port go to
  -- the new handler, and those at any other port of the table go where they went before.
  pub io_register_handler-answers :
      (handlers : Handlers S) (port : ℕ) (hdl : Handler S)
      → port < handlers_length
      → Returns
          (λ handlers'.
            (d o : ℕ) (s : S)
            → (accesses handlers' port d o s ≡ answers hdl port d o s)
              × ((q : ℕ)
                  → q < handlers_length
                  → q ≢ port
                  → accesses handlers' q d o s ≡ accesses handlers q d o s))
          (io_register_handler handlers port hdl)
  unfolding io_register_handler
  io_register_handler-answers handlers port hdl small = rw (lt→ltb port handlers_length small) (
      returns (λ d o s. (
        accesses-answers _ port d o s small ∙ rw (==_refl port) refl,
        λ q lt ne.
            accesses-answers _ q d o s lt
            ∙ rw (==_false q port ne) (sym (accesses-answers handlers q d o s lt)),
      )))

  -- At port 0xFFFF every operation of src/io.c is out of the table's bounds.
  pub last_port-fault :
      (handlers : Handlers S) (hdl : Handler S) (data' output : ℕ) (s : S)
      → (io_register_handler handlers 0xFFFF hdl ≡ fault)
        × (io_unregister_handler handlers 0xFFFF ≡ fault)
        × (io_handle_outb handlers 0xFFFF data' s ≡ fault)
        × (io_handle_outw handlers 0xFFFF data' s ≡ fault)
        × (io_handle_inb handlers 0xFFFF output s ≡ fault)
        × (io_handle_inw handlers 0xFFFF output s ≡ fault)
  unfolding io_register_handler io_unregister_handler io_handle_outb io_handle_outw io_handle_inb
      io_handle_inw
  last_port-fault handlers hdl data' output s = (refl, refl, refl, refl, refl, refl)

  -- After an unregistration the four accesses at the port say 0 and do nothing.
  pub io_unregister_handler-idle :
      (handlers : Handlers S) (port : ℕ)
      → port < handlers_length
      → Returns
          (λ handlers'.
            (data' output : ℕ) (s : S)
            → (io_handle_outb handlers' port data' s ≡ ok (0, s))
              × (io_handle_outw handlers' port data' s ≡ ok (0, s))
              × (io_handle_inb handlers' port output s ≡ ok (0, output, s))
              × (io_handle_inw handlers' port output s ≡ ok (0, output, s)))
          (io_unregister_handler handlers port)
  unfolding io_unregister_handler io_handle_outb io_handle_outw io_handle_inb io_handle_inw
  io_unregister_handler-idle handlers port small = rw (lt→ltb port handlers_length small) (
      returns (λ d o s. (
        rw (==_refl port) refl,
        rw (==_refl port) refl,
        rw (==_refl port) refl,
        rw (==_refl port) refl,
      )))
