-- ===== src/Vm/Effects.antt =====
-- What the exits of src/vm.c do to the guest's shared page, the regions and the devices, written from
-- the interface of KVM: the direction and the size of an access say which handler is called.
use blackhv.Base.{
  ℕ, ◌+◌, ◌*◌, ◌/◌, ◌%◌, ◌<◌, ◌≡◌, refl, ◌≢◌, ◌⊎◌, inl, inr, true, false, some, List, [], ◌∷◌, ◌++◌,
  ==_false, lt→ltb, length, get_elem?, set, Exec, ok,
}
use blackhv.Atapi.{load_u16, store_u16}
use blackhv.Io.{
  Handlers, handlers_length, io_handle_outb, io_handle_outw, io_handle_inb, io_handle_inw,
}
use blackhv.Mmio.{MmioCall, MmioRegion, max_mmio_region_count}
use blackhv.Mmio.Dispatch.{call, Called, Called-act_all, mmio_handle_write-act_all}
use blackhv.Vm.Run.{
  Direction, KvmExit, exit_io, exit_mmio, exit_hlt, exit_io_in, exit_io_out, IoExit, handle_exit,
  vm_run,
}
use blackhv.Vm.Exits.{Handles, nothing, one_more, IsFinal, vm_run-Handles}

Direction-cases : (d : Direction) → (d ≡ exit_io_in) ⊎ (d ≡ exit_io_out)
Direction-cases exit_io_in = inl refl
Direction-cases exit_io_out = inr refl

module _ {S : Type 0} (handlers : Handlers S) (act : MmioCall → S → S) where
  -- One exit from a state to a state, with the shared pages it leaves.
  pub data Effect
      : KvmExit → List MmioRegion × S → List (List ℕ) → List MmioRegion × S → Type 0 where
    byte_out :
        {port offset b : ℕ} {page : List ℕ} {table : List MmioRegion} {s s' : S}
        {f : (port data' params : ℕ) → S → Exec S}
        → port < handlers_length
        → get_elem? page offset ≡ some b
        → (handlers port).outb_handler ≡ some f
        → f port b (handlers port).params s ≡ ok s'
        → Effect
            (exit_io
              (record { direction = exit_io_out; size = 1; port = port; data_offset = offset })
              page)
            (table, s)
            (page ∷ [])
            (table, s')
    word_out :
        {port offset lo hi : ℕ} {page : List ℕ} {table : List MmioRegion} {s s' : S}
        {f : (port data' params : ℕ) → S → Exec S}
        → port < handlers_length
        → get_elem? page offset ≡ some lo
        → get_elem? page (offset + 1) ≡ some hi
        → (handlers port).outw_handler ≡ some f
        → f port (lo + 256 * hi) (handlers port).params s ≡ ok s'
        → Effect
            (exit_io
              (record { direction = exit_io_out; size = 2; port = port; data_offset = offset })
              page)
            (table, s)
            (page ∷ [])
            (table, s')
    byte_in :
        {port offset b v : ℕ} {page : List ℕ} {table : List MmioRegion} {s s' : S}
        {f : (port params : ℕ) → S → Exec (ℕ × S)}
        → port < handlers_length
        → get_elem? page offset ≡ some b
        → (handlers port).inb_handler ≡ some f
        → f port (handlers port).params s ≡ ok (v, s')
        → Effect
            (exit_io
              (record { direction = exit_io_in; size = 1; port = port; data_offset = offset })
              page)
            (table, s)
            (set page offset v ∷ [])
            (table, s')
    word_in :
        {port offset lo hi v : ℕ} {page : List ℕ} {table : List MmioRegion} {s s' : S}
        {f : (port params : ℕ) → S → Exec (ℕ × S)}
        → port < handlers_length
        → offset + 1 < length page
        → get_elem? page offset ≡ some lo
        → get_elem? page (offset + 1) ≡ some hi
        → (handlers port).inw_handler ≡ some f
        → f port (handlers port).params s ≡ ok (v, s')
        → Effect
            (exit_io
              (record { direction = exit_io_in; size = 2; port = port; data_offset = offset })
              page)
            (table, s)
            (set (set page offset (v % 256)) (offset + 1) (v / 256 % 256) ∷ [])
            (table, s')
    other_size :
        {io : IoExit} {page : List ℕ} {table : List MmioRegion} {s : S}
        → io.size ≢ 1
        → io.size ≢ 2
        → Effect (exit_io io page) (table, s) (page ∷ []) (table, s)
    region_written :
        {address len : ℕ} {bytes : List ℕ} {table : List MmioRegion} {s s' : S}
        → length table ≡ max_mmio_region_count
        → Called act address bytes len table 0 s s'
        → Effect (exit_mmio true address bytes len) (table, s) [] (table, s')
    region_read :
        {address len : ℕ} {bytes : List ℕ} {table : List MmioRegion} {s : S}
        → Effect (exit_mmio false address bytes len) (table, s) [] (table, s)
    halted : {table : List MmioRegion} {s : S} → Effect exit_hlt (table, s) [] (table, s)

  -- The exits of a sequence one after the other.
  pub data Effects
      : List KvmExit → List MmioRegion × S → List (List ℕ) → List MmioRegion × S → Type 0 where
    no_exits : {s : List MmioRegion × S} → Effects [] s [] s
    then_exits :
        {e : KvmExit} {es : List KvmExit} {s s' s'' : List MmioRegion × S} {p ps : List (List ℕ)}
        → Effect e s p s'
        → Effects es s' ps s''
        → Effects (e ∷ es) s (p ++ ps) s''

  handle_exit_lem :
      {e : KvmExit} {s s' : List MmioRegion × S} {p : List (List ℕ)}
      → Effect e s p s'
      → handle_exit handlers (call act) e s ≡ ok (some (p, s'))
  unfolding handle_exit load_u16 store_u16 io_handle_outb io_handle_outw io_handle_inb io_handle_inw
  handle_exit_lem (byte_out small at has runs) =
      let inside = lt→ltb _ _ small in rw (at, inside, has, runs) refl
  handle_exit_lem (word_out small lo hi has runs) =
      let inside = lt→ltb _ _ small in rw (lo, hi, inside, has, runs) refl
  handle_exit_lem (byte_in small at has runs) =
      let inside = lt→ltb _ _ small in rw (at, inside, has, runs) refl
  handle_exit_lem (word_in small room lo hi has runs) =
      let inside = lt→ltb _ _ small in
      let fits = lt→ltb _ _ room in rw (lo, hi, inside, has, runs, fits) refl
  handle_exit_lem (other_size {io = io} one two) =
      let not_one = ==_false io.size 1 one in
      let not_two = ==_false io.size 2 two in
      elim (Direction-cases io.direction) [
        | inl inward ↦ rw (inward, not_one, not_two) refl
        | inr outward ↦ rw (outward, not_one, not_two) refl
      ]
  handle_exit_lem (region_written {address} {len} {bytes} {table} {s} full calls) =
      rw (mmio_handle_write-act_all act table address bytes len s full, Called-act_all act calls)
        refl
  handle_exit_lem region_read = refl
  handle_exit_lem halted = refl

  Effects-Handles :
      {es : List KvmExit} {s s' : List MmioRegion × S} {ps : List (List ℕ)}
      → Effects es s ps s'
      → Handles handlers (call act) es s ps s'
  Effects-Handles no_exits = nothing
  Effects-Handles (then_exits step more) = one_more (handle_exit_lem step) (Effects-Handles more)

  -- With handlers of regions that leave the table alone, where each exit before a failure of
  -- KVM_RUN or an unknown exit has its effect, `vm_run` returns 0 at that exit, with the shared
  -- pages and the state of these effects: an access out calls the outb or the outw handler of its
  -- port with the byte or the word in the page, an access in puts what the inb or the inw handler
  -- gives there, one of another size does nothing, a write to memory calls the handlers of the
  -- regions that hold the address, and a read of it and a halt do nothing. An access of one or
  -- two bytes must be at a port that has the handler.
  pub vm_run-Effects :
      (es : List KvmExit) (e : KvmExit) (rest : List KvmExit) (s s' : List MmioRegion × S)
      (ps : List (List ℕ))
      → Effects es s ps s'
      → IsFinal e
      → vm_run handlers (call act) true (es ++ (e ∷ rest)) s ≡ ok (0, ps, s')
  vm_run-Effects es e rest s s' ps effects fin =
      vm_run-Handles handlers (call act) es e rest s s' ps (Effects-Handles effects) fin
