-- ===== src/Screen/Resources.antt =====
-- What `screen_init` and `screen_uninit` of src/screen.c acquire and give back.
use mathlib.Core.Option.{get_or}
use blackhv.Base.{
  ℕ, ◌+◌, ◌*◌, ◌^◌, ◌<◌, ◌≡◌, refl, ap, ◌∙◌, ◌≢◌, ◌⊎◌, inl, inr, Bool, true, false, not, Option,
  none, some, List, [], ◌∷◌, ◌++◌, arith, ◌==◌, Bool-cases, Returns-bind, Returns, ok, returns,
}
use blackhv.Memory.{
  HostCall, Memory, MemoryEntry, Host, check_addr_available, memory_alloc, memory_framebuffer,
}
use blackhv.Memory.Access.{align_up, align_down}
use blackhv.Memory.Limits.{memory_alloc_framebuffer}
use blackhv.Screen.{
  Screen, ScreenVm, Sdl, SdlCall, malloc_screen, create_window, create_renderer, create_texture,
  destroy_texture, destroy_renderer, destroy_window, free_screen, sdl_quit, framebuffer_size,
  open_screen, attach_screen, screen_init, screen_uninit,
}

-- Which of the four things are held; NULL is nothing.
pub record Live : Type 0 where
  pub block : Bool
  pub window : Bool
  pub renderer : Bool
  pub texture : Bool

abbrev pub live_after : Live → List SdlCall → Live
live_after l [] = l
live_after l (malloc_screen ∷ cs) = live_after (record l { block = true }) cs
live_after l (create_window w ∷ cs) = live_after (record l { window = not (w == 0) }) cs
live_after l (create_renderer r ∷ cs) = live_after (record l { renderer = not (r == 0) }) cs
live_after l (create_texture t ∷ cs) = live_after (record l { texture = not (t == 0) }) cs
live_after l (destroy_texture t ∷ cs) = live_after (record l { texture = false }) cs
live_after l (destroy_renderer r ∷ cs) = live_after (record l { renderer = false }) cs
live_after l (destroy_window w ∷ cs) = live_after (record l { window = false }) cs
live_after l (free_screen ∷ cs) = live_after (record l { block = false }) cs
live_after l (sdl_quit ∷ cs) = live_after l cs

abbrev pub nothing_live : Live
nothing_live = record { block = false; window = false; renderer = false; texture = false }

abbrev pub all_live : Live
all_live = record { block = true; window = true; renderer = true; texture = true }

-- The screen that SDL's answers make.
abbrev pub screen_of : Sdl → (framebuffer_phys : ℕ) → Screen
screen_of sdl p = record {
  window = sdl.window;
  renderer = sdl.renderer;
  texture = sdl.texture;
  framebuffer_phys = p;
}

-- Something that SDL refuses, and all of it granted.
abbrev pub Refused : Sdl → Type 0
Refused sdl = (sdl.window ≡ 0) ⊎ (sdl.renderer ≡ 0) ⊎ (sdl.texture ≡ 0)

abbrev pub Made : Sdl → Type 0
Made sdl = (sdl.window ≢ 0) × (sdl.renderer ≢ 0) × (sdl.texture ≢ 0)

-- Nothing is kept without a screen, and everything with one.
abbrev Balanced : Sdl → (framebuffer_phys : ℕ) → Option Screen × List SdlCall → Type 0
Balanced sdl p (screen, calls) =
    (Refused sdl × (screen ≡ none) × (live_after nothing_live calls ≡ nothing_live))
    ⊎ (Made sdl × (screen ≡ some (screen_of sdl p)) × (live_after nothing_live calls ≡ all_live))

open_screen-Balanced :
    (sdl : Sdl) (p : ℕ) → sdl.screen_memory ≡ true → Returns (Balanced sdl p) (open_screen sdl p)
unfolding open_screen
open_screen-Balanced sdl p there = rw there (elim (Bool-cases (sdl.window == 0)) [
  | inl none_w ↦ rw none_w (returns (inl (inl (ground (arith, none_w)), refl, refl)))
  | inr w ↦ rw w (elim (Bool-cases (sdl.renderer == 0)) [
    | inl none_r ↦ rw none_r (returns (inl (inr (inl (ground (arith, none_r))), refl, refl)))
    | inr r ↦ rw r (elim (Bool-cases (sdl.texture == 0)) [
      | inl none_t ↦ rw none_t (returns (inl (inr (inr (ground (arith, none_t))), refl, refl)))
      | inr t ↦ rw t (
          returns (
            inr
              ((ground (arith, w), ground (arith, r), ground (arith, t)), refl, rw (w, r, t) refl)))
    ])
  ])
])

-- How `screen_init` ends, where `memory_alloc` gave `allocated`: it returns 1 with a new screen exactly
-- where everything was granted.
abbrev pub Initialized :
    Sdl → (p allocated : ℕ) → ScreenVm → ℕ × Option ScreenVm × List SdlCall → Type 0
Initialized sdl p allocated vm (result, none, calls) = ⊥
Initialized sdl p allocated vm (result, some vm', calls) =
    (((allocated ≡ 0) ⊎ Refused sdl)
      × (result ≡ 0)
      × (vm'.screen ≡ vm.screen)
      × (live_after nothing_live calls ≡ nothing_live))
    ⊎ ((allocated ≢ 0)
        × Made sdl
        × (result ≡ 1)
        × (vm'.screen ≡ some (screen_of sdl p))
        × (live_after nothing_live calls ≡ all_live))

attach_screen-Initialized :
    (sdl : Sdl) (vm : ScreenVm) (p allocated : ℕ)
    → sdl.screen_memory ≡ true
    → Returns (Initialized sdl p allocated vm) (attach_screen sdl vm p allocated)
unfolding attach_screen
attach_screen-Initialized sdl vm p allocated there = elim (Bool-cases (allocated == 0)) [
  | inl refused ↦ rw refused (returns (inl (inl (ground (arith, refused)), refl, refl, refl)))
  | inr granted ↦ rw granted (
      Returns-bind (open_screen-Balanced sdl p there) λ (screen, calls) balanced. elim balanced [
        | inl (why, is, live) ↦ rw is (returns (inl (inr why, refl, refl, live)))
        | inr (made, is, live) ↦
            rw is (returns (inr (ground (arith, granted), made, refl, refl, live)))
      ])
]

-- The result of the allocation of the framebuffer.
abbrev pub framebuffer_allocated : Host → ScreenVm → (p : ℕ) → ℕ
framebuffer_allocated host vm p =
    (memory_alloc host (some vm.mem) p (align_up framebuffer_size) memory_framebuffer).0

-- Where the block is allocated, `screen_init` returns. It returns 1 exactly where the framebuffer
-- is allocated and SDL gives a window, a renderer and a texture, which the machine's new screen
-- then has; else it returns 0, has given back the block, the window and the renderer that it had
-- acquired, and leaves the screen as it was.
pub screen_init-Initialized :
    (host : Host) (sdl : Sdl) (vm : ScreenVm) (p : ℕ)
    → sdl.screen_memory ≡ true
    → Returns
        (Initialized sdl p (framebuffer_allocated host vm p) vm)
        (screen_init host sdl (some vm) p)
unfolding screen_init
screen_init-Initialized host sdl vm p there = attach_screen-Initialized sdl _ p _ there

-- `screen_uninit` of a machine with a screen destroys what SDL made; the block is never given back.
pub screen_uninit-live :
    (vm : ScreenVm) (s : Screen)
    → vm.screen ≡ some s
    → live_after all_live (screen_uninit (some vm)) ≡ record nothing_live { block = true }
unfolding screen_uninit
screen_uninit-live vm s there = rw there refl

-- A range is refused where an entry begins at its start.
check_addr_available-taken :
    (es : List MemoryEntry) (e : MemoryEntry) (p s : ℕ)
    → e.guest_phys ≡ p
    → 0 < e.size
    → p + e.size < 2 ^ 64
    → check_addr_available (es ++ (e ∷ [])) p s ≡ 0
unfolding check_addr_available
check_addr_available-taken [] e p s at some_size small = ground arith
check_addr_available-taken (f ∷ es) e p s at some_size small =
    ground (arith, check_addr_available-taken es e p s at some_size small)

-- What the host grants for the framebuffer at `p`.
pub record Granted (host : Host) (mem : Memory) (p : ℕ) : Type 0 where
  pub entry_memory : host.entry_memory ≡ true
  pub element_memory : host.element_memory ≡ true
  pub mapped : host.mmap_result ≢ 0
  pub accepted : host.region_accepted ≡ true
  pub free : check_addr_available mem.memory_entries p (align_up framebuffer_size) ≡ 1
  pub small : p + 63 * 4096 < 2 ^ 64

-- The framebuffer's pages.
pub align_up-framebuffer_size : align_up framebuffer_size ≡ 63 * 4096
unfolding align_up align_down
align_up-framebuffer_size = refl

attach_screen-no_window :
    (sdl : Sdl) (vm : ScreenVm) (p : ℕ)
    → sdl.screen_memory ≡ true
    → sdl.window ≡ 0
    → attach_screen sdl vm p 1 ≡ ok (0, some vm, malloc_screen ∷ free_screen ∷ [])
unfolding attach_screen open_screen
attach_screen-no_window sdl vm p block none_w =
    let closed : (sdl.window == 0) ≡ true = ground arith in rw (block, closed) refl

screen_init-no_window :
    (host : Host) (sdl : Sdl) (vm : ScreenVm) (p : ℕ) (mem' : Memory) (calls : List HostCall)
    → memory_alloc host (some vm.mem) p (align_up framebuffer_size) memory_framebuffer
      ≡ (1, some mem', calls)
    → sdl.screen_memory ≡ true
    → sdl.window ≡ 0
    → screen_init host sdl (some vm) p
      ≡ ok (0, some (record vm { mem = mem' }), malloc_screen ∷ free_screen ∷ [])
unfolding screen_init
screen_init-no_window host sdl vm p mem' calls allocated block none_w =
    ap (λ t. attach_screen sdl (record vm { mem = get_or t.1 vm.mem }) p t.0) allocated
    ∙ attach_screen-no_window sdl (record vm { mem = mem' }) p block none_w

screen_init-refused :
    (host : Host) (sdl : Sdl) (vm : ScreenVm) (p : ℕ)
    → check_addr_available vm.mem.memory_entries p (align_up framebuffer_size) ≡ 0
    → screen_init host sdl (some vm) p ≡ ok (0, some vm, [])
unfolding screen_init attach_screen memory_alloc
screen_init-refused host sdl vm p taken = rw taken refl

-- Where the host grants the framebuffer and no window can be made, `screen_init` returns 0, and
-- so does every later call at the same address, whatever the answers: the region is still
-- allocated.
pub screen_init-again :
    (host : Host) (sdl : Sdl) (vm : ScreenVm) (p : ℕ)
    → Granted host vm.mem p
    → sdl.screen_memory ≡ true
    → sdl.window ≡ 0
    → (vm' : ScreenVm) × (calls : List SdlCall) × (screen_init host sdl (some vm) p
        ≡ ok (0, some vm', calls))
      × ((host' : Host) (sdl' : Sdl) → screen_init host' sdl' (some vm') p ≡ ok (0, some vm', []))
screen_init-again host sdl vm p g block none_w =
    let (e, mem', calls, allocated, entries, at, size, _, _) =
      memory_alloc_framebuffer host vm.mem p (align_up framebuffer_size) g.entry_memory
        g.element_memory g.mapped g.accepted g.free in
    let e_size : e.size ≡ 63 * 4096 = size ∙ align_up-framebuffer_size in
    let taken : check_addr_available mem'.memory_entries p (align_up framebuffer_size) ≡ 0 =
      rw entries (
        check_addr_available-taken vm.mem.memory_entries e p (align_up framebuffer_size) at
          (omega arith) (omega (arith, g.small))) in
    (
      record vm { mem = mem' },
      malloc_screen ∷ free_screen ∷ [],
      screen_init-no_window host sdl vm p mem' calls allocated block none_w,
      λ host' sdl'. screen_init-refused host' sdl' (record vm { mem = mem' }) p taken,
    )
