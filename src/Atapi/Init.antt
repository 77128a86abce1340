-- ===== src/Atapi/Init.antt =====
-- `atapi_init` of src/atapi.c: the register handlers at their ports of the table of src/io.c.
use blackhv.Base.{
  ℕ, zero, suc, ◌+◌, ◌≤◌, ◌≡◌, refl, ◌⊎◌, inl, inr, false, none, some, List, arith, ◌==◌, ==_false,
  ◌>>=◌, Exec, Returns, ok, returns,
}
use blackhv.Io.{Handler, Handlers, no_handler, io_register_handler}
use blackhv.Atapi.{
  Atapi, primary_reg, ignore_outb, select_outb, signature_inb, status_inb, data_outw, data_inw,
}

abbrev pub secondary_reg : ℕ
secondary_reg = 0x170

abbrev pub primary_dcr : ℕ
primary_dcr = 0x3F6

abbrev pub secondary_dcr : ℕ
secondary_dcr = 0x376

abbrev pub ignore_outb_handler : Handler Atapi
ignore_outb_handler = record no_handler {
  outb_handler = some (λ port b params s. ok (ignore_outb port b params s));
}

abbrev pub select_outb_handler : Handler Atapi
select_outb_handler = record no_handler {
  outb_handler = some (λ port b params s. ok (select_outb port b params s));
}

abbrev pub data_handler : Handler Atapi
data_handler = record no_handler { inw_handler = some data_inw; outw_handler = some data_outw }

abbrev pub status_handler : Handler Atapi
status_handler = record no_handler {
  inb_handler = some (λ port params s. ok (status_inb port params s));
  outb_handler = some (λ port b params s. ok (ignore_outb port b params s));
}

-- A register of one of the two buses, or a device control register.
abbrev pub IsAtaPort : ℕ → Type 0
IsAtaPort q =
    ((primary_reg ≤ q) × (q ≤ primary_reg + 7))
    ⊎ (((secondary_reg ≤ q) × (q ≤ secondary_reg + 7)) ⊎ ((q ≡ primary_dcr) ⊎ (q ≡ secondary_dcr)))

abbrev pub signature_inb_handler :
    (read_at : (fd offset : ℕ) → List ℕ) → (disk_fd : ℕ) → Handler Atapi
signature_inb_handler read_at disk_fd = record {
  params = disk_fd;
  outb_handler = some (λ port b params s. ok (ignore_outb port b params s));
  outw_handler = none;
  inb_handler = some (λ port params s. ok (signature_inb read_at port params s));
  inw_handler = none;
}

-- `lift` makes a handler of the drive one of a machine that has the drive among its devices.
module _ {S : Type 0} (lift : Handler Atapi → Handler S) (read_at : (fd offset : ℕ) → List ℕ) where
  -- The loop over the registers from `i` on, `n` of them.
  signature_loop : (n i disk_fd : ℕ) → Handlers S → Exec (Handlers S)
  unfolding io_register_handler
  signature_loop zero i disk_fd handlers = ok handlers
  signature_loop (suc n) i disk_fd handlers = do
    first ←
        io_register_handler handlers (primary_reg + i)
          (lift (signature_inb_handler read_at disk_fd))
    second ←
        io_register_handler first (secondary_reg + i) (lift (signature_inb_handler read_at disk_fd))
    signature_loop n (i + 1) disk_fd second

  -- `atapi_init`.
  pub atapi_init : (disk_fd : ℕ) → Handlers S → Exec (Handlers S)
  unfolding signature_loop
  atapi_init disk_fd t0 = do
    t1 ← io_register_handler t0 primary_dcr (lift ignore_outb_handler)
    t2 ← io_register_handler t1 secondary_dcr (lift ignore_outb_handler)
    t3 ← io_register_handler t2 (primary_reg + 1) (lift ignore_outb_handler)
    t4 ← io_register_handler t3 (secondary_reg + 1) (lift ignore_outb_handler)
    t5 ← io_register_handler t4 (primary_reg + 2) (lift ignore_outb_handler)
    t6 ← io_register_handler t5 (secondary_reg + 2) (lift ignore_outb_handler)
    t7 ← io_register_handler t6 (primary_reg + 6) (lift select_outb_handler)
    t8 ← io_register_handler t7 (secondary_reg + 6) (lift select_outb_handler)
    t9 ← signature_loop 4 2 disk_fd t8
    t10 ← io_register_handler t9 primary_reg (lift data_handler)
    io_register_handler t10 (primary_reg + 7) (lift status_handler)

  -- `atapi_init` does not fault; after it the eight registers of the primary bus and its device
  -- control register have their handlers, and no port but the registers of the two buses and the
  -- two device control registers has another handler than before.
  pub atapi_init-registers :
      (disk_fd : ℕ) (handlers : Handlers S)
      → Returns
          (λ new.
            (new primary_reg ≡ lift data_handler)
            × (new (primary_reg + 1) ≡ lift ignore_outb_handler)
            × (new (primary_reg + 2) ≡ lift (signature_inb_handler read_at disk_fd))
            × (new (primary_reg + 3) ≡ lift (signature_inb_handler read_at disk_fd))
            × (new (primary_reg + 4) ≡ lift (signature_inb_handler read_at disk_fd))
            × (new (primary_reg + 5) ≡ lift (signature_inb_handler read_at disk_fd))
            × (new (primary_reg + 6) ≡ lift select_outb_handler)
            × (new (primary_reg + 7) ≡ lift status_handler)
            × (new primary_dcr ≡ lift ignore_outb_handler)
            × ((q : ℕ) → ¬ (IsAtaPort q) → new q ≡ handlers q))
          (atapi_init disk_fd handlers)
  unfolding atapi_init io_register_handler
  atapi_init-registers disk_fd handlers = returns (
    refl,
    refl,
    refl,
    refl,
    refl,
    refl,
    refl,
    refl,
    refl,
    λ q other.
        let free : (p : ℕ) → IsAtaPort p → (q == p) ≡ false = elsewhere q other in
        let primary : (p : ℕ) → primary_reg ≤ p → p ≤ primary_reg + 7 → (q == p) ≡ false =
          λ p a b. free p (inl (a, b)) in
        let secondary : (p : ℕ) → secondary_reg ≤ p → p ≤ secondary_reg + 7 → (q == p) ≡ false =
          λ p a b. free p (inr (inl (a, b))) in
        rw
          (
            primary 0x1F7 (omega arith) (omega arith),
            primary 0x1F0 (omega arith) (omega arith),
            secondary 0x175 (omega arith) (omega arith),
            primary 0x1F5 (omega arith) (omega arith),
            secondary 0x174 (omega arith) (omega arith),
            primary 0x1F4 (omega arith) (omega arith),
            secondary 0x173 (omega arith) (omega arith),
            primary 0x1F3 (omega arith) (omega arith),
            secondary 0x172 (omega arith) (omega arith),
            primary 0x1F2 (omega arith) (omega arith),
            secondary 0x176 (omega arith) (omega arith),
            primary 0x1F6 (omega arith) (omega arith),
            secondary 0x171 (omega arith) (omega arith),
            primary 0x1F1 (omega arith) (omega arith),
            free 0x376 (inr (inr (inr refl))),
            free 0x3F6 (inr (inr (inl refl))),
          )
          refl,
  )
    where
      elsewhere : (q : ℕ) → ¬ (IsAtaPort q) → (p : ℕ) → IsAtaPort p → (q == p) ≡ false
      elsewhere q other p is = ==_false q p (λ e. other (rw e is))
