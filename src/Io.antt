-- ===== src/Io.antt =====
-- src/io.c: the table of port handlers. `S` is the state of the devices behind them. `params` is a
-- `void *`, an address or a number cast to one; a handler is given it and the state.
pub mod Dispatch
pub mod Tests
use blackhv.Base.{
  ℕ, zero, suc, ◌+◌, ◌-◌, ◌*◌, ◌/◌, ◌%◌, ◌^◌, ◌≤◌, ◌<◌, min, ◌≡◌, refl, sym, ap, ◌∙◌, ◌≢◌, ◌↔◌, ◌⊎◌,
  inl, inr, Bool, true, false, not, ◌&&◌, ◌||◌, Option, none, some, List, [], ◌∷◌, ◌++◌, map,
  append_assoc, append-nil, arith, ltb, leb, ◌==◌, if◌then◌else◌, int_of, ==_iff, ==_refl, ==_false,
  lt→ltb, le→ltb, Bool-cases, Option-cases, length, get_elem?, set, take, drop, replicate, All,
  length-append, length-set, length-take, length-drop, length-replicate, get_elem?-set_self,
  get_elem?-set_ne, get_elem?-some, drop-cons_of_get, take_cons, set-append, minus_one, s64_of,
  add_u64, sub_u64, ℤ, ◌>>=◌, access, Returns-mono, Returns-bind, Returns-value, Exec, Returns, ok,
  fault, out_of_fuel, returns, pos, negsuc,
}

-- `struct handler`; `none` for a NULL function pointer.
pub record Handler (S : Type 0) : Type 0 where
  pub params : ℕ
  pub outb_handler : Option ((port data' params : ℕ) → S → Exec S)
  pub outw_handler : Option ((port data' params : ℕ) → S → Exec S)
  pub inb_handler : Option ((port params : ℕ) → S → Exec (ℕ × S))
  pub inw_handler : Option ((port params : ℕ) → S → Exec (ℕ × S))

-- `handlers`: an array of 0xFFFF elements, so that port 0xFFFF is behind its end.
abbrev pub handlers_length : ℕ
handlers_length = 0xFFFF

abbrev pub Handlers : Type 0 → Type 0
Handlers S = ℕ → Handler S

module _ {S : Type 0} where
  -- The zeroed handler that `memset` writes and the table starts with.
  abbrev pub no_handler : Handler S
  no_handler = record {
    params = 0;
    outb_handler = none;
    outw_handler = none;
    inb_handler = none;
    inw_handler = none;
  }

  -- `handlers[port]`.
  unfoldable pub handler_at : Handlers S → ℕ → Exec (Handler S)
  handler_at handlers port = if ltb port handlers_length then ok (handlers port) else fault

  -- `io_register_handler`.
  unfoldable pub io_register_handler : Handlers S → (port : ℕ) → Handler S → Exec (Handlers S)
  io_register_handler handlers port hdl =
      if ltb port handlers_length then ok (λ q. if q == port then hdl else handlers q) else fault

  -- `io_unregister_handler`.
  unfoldable pub io_unregister_handler : Handlers S → (port : ℕ) → Exec (Handlers S)
  unfolding io_register_handler
  io_unregister_handler handlers port = io_register_handler handlers port no_handler

  -- Calls of a handler: 1 if there is one, else 0 and nothing done.
  unfoldable pub call_out :
      Option ((port data' params : ℕ) → S → Exec S) → (port data' params : ℕ) → S → Exec (ℕ × S)
  call_out none port data' params s = ok (0, s)
  call_out (some f) port data' params s = do s' ← f port data' params s; ok (1, s')

  unfoldable pub call_in :
      Option ((port params : ℕ) → S → Exec (ℕ × S))
      → (port params output : ℕ) → S
      → Exec (ℕ × ℕ × S)
  call_in none port params output s = ok (0, output, s)
  call_in (some f) port params output s = do (v, s') ← f port params s; ok (1, v, s')

  -- `io_handle_outb` and `io_handle_outw`.
  unfoldable pub io_handle_outb : Handlers S → (port data' : ℕ) → S → Exec (ℕ × S)
  unfolding handler_at call_out
  io_handle_outb handlers port data' s = do
    h ← handler_at handlers port
    call_out h.outb_handler port data' h.params s

  unfoldable pub io_handle_outw : Handlers S → (port data' : ℕ) → S → Exec (ℕ × S)
  unfolding handler_at call_out
  io_handle_outw handlers port data' s = do
    h ← handler_at handlers port
    call_out h.outw_handler port data' h.params s

  -- `io_handle_inb` and `io_handle_inw`; `output` is what `*output` holds before the call.
  unfoldable pub io_handle_inb : Handlers S → (port output : ℕ) → S → Exec (ℕ × ℕ × S)
  unfolding handler_at call_in
  io_handle_inb handlers port output s = do
    h ← handler_at handlers port
    call_in h.inb_handler port h.params output s

  unfoldable pub io_handle_inw : Handlers S → (port output : ℕ) → S → Exec (ℕ × ℕ × S)
  unfolding handler_at call_in
  io_handle_inw handlers port output s = do
    h ← handler_at handlers port
    call_in h.inw_handler port h.params output s
