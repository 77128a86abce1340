-- ===== src/Screen/Frames.antt =====
-- What `screen_update` and `screen_run` of src/screen.c show.
use mathlib.Core.Option.{get_or}
use blackhv.Base.{
  ◌>>=◌, ℕ, zero, suc, ◌+◌, ◌*◌, ◌≤◌, ◌<◌, min, ◌≡◌, refl, sym, ap, ◌∙◌, ◌≢◌, ◌⊎◌, inl, inr, Bool,
  true, false, some, List, [], ◌∷◌, ◌++◌, append_assoc, append-nil, arith, ◌==◌, ==_false,
  Bool-cases, length, get_elem?, drop, length-append, get_elem?-append, Returns-mono, Returns-bind,
  Returns, ok, returns,
}
use blackhv.Memory.{
  MemoryEntry, memory_usable, HostCall, Memory, Host, memory_alloc, memory_framebuffer, find_entry,
}
use blackhv.Memory.Access.{Bytes, align_up}
use blackhv.Memory.Limits.{memory_alloc_framebuffer}
use blackhv.Memory.Lookup.{find_entry_complete, Contains}
use blackhv.Memory.Regions.{AreApart, memory_alloc-AreApart, FitsWord}
use blackhv.Memory.Transfer.{peek, memory_read-peek, room_at, host_at}
use blackhv.Screen.{
  malloc_screen, create_window, create_renderer, create_texture, Screen, ScreenVm, Sdl,
  framebuffer_size, open_screen, attach_screen, screen_init, screen_update, Round, polls_quit,
  run_loop, screen_run,
}
use blackhv.Screen.Resources.{Granted, screen_of, align_up-framebuffer_size}

-- What the screen shows: the framebuffer's bytes at the host's mapping.
abbrev pub Shows : Host → Bytes → (shown : List ℕ) → Type 0
Shows host m shown =
    (i : ℕ) → i < framebuffer_size → get_elem? shown i ≡ some (m (host.mmap_result + i))

get_elem?-peek :
    (m : Bytes) (a n : ℕ) (rest : List ℕ) (i : ℕ)
    → i < n
    → get_elem? (peek m a n ++ rest) i ≡ some (m (a + i))
get_elem?-peek m a zero rest i less = absurd (omega arith)
get_elem?-peek m a (suc n) rest zero less = let z : a + 0 ≡ a = omega arith in rw z refl
get_elem?-peek m a (suc n) rest (suc i) less =
    let shift : a + suc i ≡ a + 1 + i = omega arith in
    rw shift (get_elem?-peek m (a + 1) n rest i (omega arith))

attach_screen-runs :
    (sdl : Sdl) (vm : ScreenVm) (p : ℕ)
    → sdl.screen_memory ≡ true
    → sdl.window ≢ 0
    → sdl.renderer ≢ 0
    → sdl.texture ≢ 0
    → attach_screen sdl vm p 1
      ≡ ok (
        1,
        some (record vm { screen = some (screen_of sdl p) }),
        malloc_screen
            ∷ create_window sdl.window
            ∷ create_renderer sdl.renderer
            ∷ create_texture sdl.texture
            ∷ [],
      )
unfolding attach_screen open_screen
attach_screen-runs sdl vm p block w r t =
    rw (block, ==_false sdl.window 0 w, ==_false sdl.renderer 0 r, ==_false sdl.texture 0 t) refl

screen_init-runs :
    (host : Host) (sdl : Sdl) (vm : ScreenVm) (p : ℕ) (mem' : Memory) (calls : List HostCall)
    → memory_alloc host (some vm.mem) p (align_up framebuffer_size) memory_framebuffer
      ≡ (1, some mem', calls)
    → sdl.screen_memory ≡ true
    → sdl.window ≢ 0
    → sdl.renderer ≢ 0
    → sdl.texture ≢ 0
    → screen_init host sdl (some vm) p
      ≡ ok (
        1,
        some (record { mem = mem'; screen = some (screen_of sdl p) }),
        malloc_screen
            ∷ create_window sdl.window
            ∷ create_renderer sdl.renderer
            ∷ create_texture sdl.texture
            ∷ [],
      )
unfolding screen_init
screen_init-runs host sdl vm p mem' calls allocated block w r t =
    ap (λ t. attach_screen sdl (record vm { mem = get_or t.1 vm.mem }) p t.0) allocated
    ∙ attach_screen-runs sdl (record vm { mem = mem' }) p block w r t

-- With disjoint regions, a framebuffer that the host grants, a window, a renderer and a texture
-- as large as the framebuffer, `screen_init` and then `screen_update` give the texture the bytes
-- of the framebuffer in the memory of the host.
pub screen_update-Shows :
    (host : Host) (sdl : Sdl) (vm : ScreenVm) (p : ℕ) (m : Bytes) (pixels : List ℕ)
    → Granted host vm.mem p
    → AreApart vm.mem.memory_entries
    → sdl.screen_memory ≡ true
    → sdl.window ≢ 0
    → sdl.renderer ≢ 0
    → sdl.texture ≢ 0
    → framebuffer_size ≤ length pixels
    → Returns
        (Shows host m)
        (do (_, vm', _) ← screen_init host sdl (some vm) p; screen_update m vm' true pixels)
unfolding screen_update
screen_update-Shows host sdl vm p m pixels g apart block w r t room =
    let (e, mem', calls, allocated, entries, at, size, type, ptr) =
      memory_alloc_framebuffer host vm.mem p (align_up framebuffer_size) g.entry_memory
        g.element_memory g.mapped g.accepted g.free in
    let e_size : e.size ≡ 63 * 4096 = size ∙ align_up-framebuffer_size in
    let kept : AreApart mem'.memory_entries = rw allocated at (
      memory_alloc-AreApart host vm.mem p (align_up framebuffer_size) memory_framebuffer apart
        (rw align_up-framebuffer_size g.small)) in
    let fit : FitsWord e = omega (arith, g.small) in
    let inside : Contains e p = omega arith in
    let listed : get_elem? mem'.memory_entries (length vm.mem.memory_entries) ≡ some e =
      rw entries
        (get_elem?-append vm.mem.memory_entries e (length vm.mem.memory_entries) [] refl) in
    let found : find_entry mem'.memory_entries p ≡ some e =
      find_entry_complete mem'.memory_entries p (length vm.mem.memory_entries) kept listed inside in
    let n : min (room_at e p) framebuffer_size ≡ framebuffer_size = omega arith in
    let from : host_at e p ≡ host.mmap_result = omega arith in
    let runs = screen_init-runs host sdl vm p mem' calls allocated block w r t in
    rw runs (
      Returns-bind
        (memory_read-peek m mem'.memory_entries p pixels framebuffer_size found (inl type) fit
          inside (omega arith))
        λ (_, px) (_, is). returns λ i less.
          ap (λ b. get_elem? b i) is
          ∙ (get_elem?-peek m (host_at e p) (min (room_at e p) framebuffer_size) _ i (omega arith)
              ∙ ap (λ a. some (m (a + i))) from))

-- SDL_QUIT, 0x100, is among the events.
abbrev pub Meets : List ℕ → Type 0
Meets events = (j : ℕ) × (get_elem? events j ≡ some 0x100)

polls_quit-met :
    (events : List ℕ) (j : ℕ) → get_elem? events j ≡ some 0x100 → polls_quit events ≡ true
unfolding polls_quit
polls_quit-met [] j at = cc
polls_quit-met (e ∷ events) zero at =
    let is : e ≡ 0x100 = cc in let quit : (e == 0x100) ≡ true = ground arith in rw quit refl
polls_quit-met (e ∷ events) (suc j) at = ground (arith, polls_quit-met events j at)

polls_quit-not_met : (events : List ℕ) → ¬ Meets events → polls_quit events ≡ false
unfolding polls_quit
polls_quit-not_met [] never = refl
polls_quit-not_met (e ∷ events) never = elim (Bool-cases (e == 0x100)) [
  | inl quit ↦ (let is : e ≡ 0x100 = ground arith in absurd (never (0, ap some is)))
  | inr other ↦ rw other (polls_quit-not_met events λ (j, at). never (suc j, at))
]

-- The first round that meets the quit event.
abbrev pub EndsAt : (quits : ℕ) → List Round → Type 0
EndsAt quits rs =
    ((i : ℕ) (r : Round) → i < quits → get_elem? rs i ≡ some r → ¬ Meets r.events)
    × ((r : Round) × (get_elem? rs quits ≡ some r) × Meets r.events)

-- A frame of the framebuffer at the host address `a`; where the texture does not lock, the frame before.
abbrev pub FrameOf : (a : ℕ) → (locks : Bool) → Bytes → (before frame : List ℕ) → Type 0
FrameOf a locks m before frame = elim locks [
  | true ↦ ((i : ℕ) → i < framebuffer_size → get_elem? frame i ≡ some (m (a + i)))
  | false ↦ frame ≡ before
]

-- One frame for each of so many rounds.
abbrev pub FramesOf : (a quits : ℕ) → List Round → (before : List ℕ) → List (List ℕ) → Type 0
FramesOf a zero rs before frames = frames ≡ []
FramesOf a (suc n) [] before frames = ⊥
FramesOf a (suc n) (r ∷ rs) before [] = ⊥
FramesOf a (suc n) (r ∷ rs) before (f ∷ frames) =
    FrameOf a r.locks r.memory before f × FramesOf a n rs f frames

-- The framebuffer's region: readable, below 2^64 and large enough at the screen's address.
pub record Framebuffer (vm : ScreenVm) (s : Screen) (e : MemoryEntry) : Type 0 where
  pub there : vm.screen ≡ some s
  pub found : find_entry vm.mem.memory_entries s.framebuffer_phys ≡ some e
  pub readable : (e.type ≡ memory_usable) ⊎ (e.type ≡ memory_framebuffer)
  pub fit : FitsWord e
  pub inside : Contains e s.framebuffer_phys
  pub room : framebuffer_size ≤ room_at e s.framebuffer_phys

length-peek : (m : Bytes) (a n : ℕ) → length (peek m a n) ≡ n
length-peek m a zero = refl
length-peek m a (suc n) = omega (arith, length-peek m (a + 1) n)

update-FrameOf :
    (m : Bytes) (vm : ScreenVm) (s : Screen) (e : MemoryEntry) (locks : Bool) (pixels : List ℕ)
    → Framebuffer vm s e
    → framebuffer_size ≤ length pixels
    → Returns
        (λ px.
          (framebuffer_size ≤ length px) × FrameOf (host_at e s.framebuffer_phys) locks m pixels px)
        (screen_update m (some vm) locks pixels)
unfolding screen_update
update-FrameOf m vm s e false pixels fb room = let is = fb.there in rw is (returns (room, refl))
update-FrameOf m vm s e true pixels fb room =
    let is = fb.there in
    let wide = fb.room in
    let n : min (room_at e s.framebuffer_phys) framebuffer_size ≡ framebuffer_size = omega arith in
    rw is (
      Returns-bind
        (memory_read-peek m vm.mem.memory_entries s.framebuffer_phys pixels framebuffer_size
          fb.found fb.readable fb.fit fb.inside (omega arith))
        λ (_, px) (_, bytes).
          let a : ℕ = host_at e s.framebuffer_phys in
          let px_is : px ≡ peek m a framebuffer_size ++ drop framebuffer_size pixels =
            rw n at bytes in
          returns (
            rw px_is (
                omega (
                  arith,
                  length-append (peek m a framebuffer_size) (drop framebuffer_size pixels),
                  length-peek m a framebuffer_size,
                )),
            λ i less. rw px_is (get_elem?-peek m a framebuffer_size _ i less),
          ))

quit_now : (r r' : Round) → some r ≡ some r' → Meets r'.events → polls_quit r.events ≡ true
quit_now r r' same (j, met) = let is : r ≡ r' = cc in rw is (polls_quit-met r'.events j met)

run_loop-FramesOf :
    (vm : ScreenVm) (s : Screen) (e : MemoryEntry) (rounds : List Round) (pixels : List ℕ)
    (shown : List (List ℕ)) (quits : ℕ)
    → Framebuffer vm s e
    → framebuffer_size ≤ length pixels
    → EndsAt quits rounds
    → Returns
        (λ frames.
          (new : List (List ℕ)) × (frames ≡ shown ++ new)
          × FramesOf (host_at e s.framebuffer_phys) quits rounds pixels new)
        (run_loop (some vm) rounds pixels shown)
unfolding run_loop
run_loop-FramesOf vm s e [] pixels shown quits fb room (_, (r, at, _)) = cc
run_loop-FramesOf vm s e (r ∷ rs) pixels shown zero fb room (before, (r', at, quit)) =
    let now : polls_quit r.events ≡ true = quit_now r r' at quit in
    rw now (returns ([], sym (append-nil shown), refl))
run_loop-FramesOf vm s e (r ∷ rs) pixels shown (suc n) fb room (before, (r', at, quit)) =
    let on : polls_quit r.events ≡ false =
      polls_quit-not_met r.events (before 0 r (omega arith) refl) in
    rw on (
      Returns-bind (update-FrameOf r.memory vm s e r.locks pixels fb room) λ px (wide, frame).
        Returns-mono
          (run_loop-FramesOf vm s e rs px (shown ++ (px ∷ [])) n fb wide
            ((λ i r'' less here. before (suc i) r'' (omega arith) here), (r', at, quit)))
          λ frames (new, is, follow).
            (px ∷ new, is ∙ append_assoc shown (px ∷ []) new, (frame, follow)))

-- With a screen whose framebuffer lies in a readable region, and a texture as large as the
-- framebuffer, `screen_run` returns in the first round whose events have SDL_QUIT among them, and
-- has shown one frame for each round before it: the bytes of the framebuffer in the memory of
-- that round, or the frame before where the texture does not lock.
pub screen_run-FramesOf :
    (vm : ScreenVm) (s : Screen) (e : MemoryEntry) (rounds : List Round) (pixels : List ℕ)
    (quits : ℕ)
    → Framebuffer vm s e
    → framebuffer_size ≤ length pixels
    → EndsAt quits rounds
    → Returns
        (FramesOf (host_at e s.framebuffer_phys) quits rounds pixels)
        (screen_run (some vm) rounds pixels)
unfolding screen_run
screen_run-FramesOf vm s e rounds pixels quits fb room ends =
    let is = fb.there in
    rw is (
      Returns-mono (run_loop-FramesOf vm s e rounds pixels [] quits fb room ends)
        λ frames (new, same, follow). rw (← same) at follow)
