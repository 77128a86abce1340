-- ===== src/Screen.antt =====
-- src/screen.c: the window that shows the guest's framebuffer. What SDL and `malloc` answer is an `Sdl`;
-- a pointer is a number, 0 for NULL. The calls that make or destroy something are recorded, in
-- their order.
pub mod Resources
pub mod Frames
pub mod Tests
use mathlib.Core.Option.{get_or}
use blackhv.Base.{
  ℕ, zero, suc, ◌+◌, ◌-◌, ◌*◌, ◌/◌, ◌%◌, ◌^◌, ◌≤◌, ◌<◌, min, ◌≡◌, refl, sym, ap, ◌∙◌, ◌≢◌, ◌↔◌, ◌⊎◌,
  inl, inr, Bool, true, false, not, ◌&&◌, ◌||◌, Option, none, some, List, [], ◌∷◌, ◌++◌, map,
  append_assoc, append-nil, arith, ltb, leb, ◌==◌, if◌then◌else◌, int_of, ==_iff, ==_refl, ==_false,
  lt→ltb, le→ltb, Bool-cases, Option-cases, length, get_elem?, set, take, drop, replicate, All,
  length-append, get_elem?-append, length-set, length-take, length-drop, length-replicate,
  get_elem?-set_self, get_elem?-set_ne, get_elem?-some, drop-cons_of_get, take_cons, set-append,
  take-drop, take-append_take, take_all, drop_all, minus_one, s64_of, add_u64, sub_u64,
  s64_of_small, ℤ, ◌>>=◌, access, Returns-mono, Returns-bind, Returns-value, Exec, Returns, ok,
  fault, out_of_fuel, returns, pos, negsuc,
}
use blackhv.Memory.{Memory, Host, memory_alloc, memory_framebuffer}
use blackhv.Memory.Access.{Bytes, memory_read, align_up}

-- FB_WIDTH * FB_HEIGHT * FB_BPP.
abbrev pub framebuffer_size : ℕ
framebuffer_size = 320 * 200 * 4

-- `struct screen`.
pub record Screen : Type 0 where
  pub window : ℕ
  pub renderer : ℕ
  pub texture : ℕ
  pub framebuffer_phys : ℕ

-- The parts of `vm_t` that src/screen.c uses.
pub record ScreenVm : Type 0 where
  pub mem : Memory
  pub screen : Option Screen

pub record Sdl : Type 0 where
  pub screen_memory : Bool
  pub window : ℕ
  pub renderer : ℕ
  pub texture : ℕ

pub data SdlCall : Type 0 where
  malloc_screen : SdlCall
  create_window : (window : ℕ) → SdlCall
  create_renderer : (renderer : ℕ) → SdlCall
  create_texture : (texture : ℕ) → SdlCall
  destroy_texture : (texture : ℕ) → SdlCall
  destroy_renderer : (renderer : ℕ) → SdlCall
  destroy_window : (window : ℕ) → SdlCall
  free_screen : SdlCall
  sdl_quit : SdlCall

-- `screen_init` from the call of `malloc` on; `none` where it returns 0. A NULL block is written to.
unfoldable pub open_screen : Sdl → (framebuffer_phys : ℕ) → Exec (Option Screen × List SdlCall)
open_screen sdl framebuffer_phys =
    if not sdl.screen_memory
    then fault
    else if sdl.window == 0
    then ok (none, malloc_screen ∷ free_screen ∷ [])
    else if sdl.renderer == 0
    then ok (
      none,
      malloc_screen ∷ create_window sdl.window ∷ destroy_window sdl.window ∷ free_screen ∷ [],
    )
    else if sdl.texture == 0
    then ok (
      none,
      malloc_screen
          ∷ create_window sdl.window
          ∷ create_renderer sdl.renderer
          ∷ destroy_renderer sdl.renderer
          ∷ destroy_window sdl.window
          ∷ free_screen
          ∷ [],
    )
    else ok (
      some (record {
        window = sdl.window;
        renderer = sdl.renderer;
        texture = sdl.texture;
        framebuffer_phys = framebuffer_phys;
      }),
      malloc_screen
          ∷ create_window sdl.window
          ∷ create_renderer sdl.renderer
          ∷ create_texture sdl.texture
          ∷ [],
    )

-- The rest of `screen_init`, with the machine that `memory_alloc` leaves and its result.
unfoldable pub attach_screen :
    Sdl → ScreenVm → (framebuffer_phys allocated : ℕ) → Exec (ℕ × Option ScreenVm × List SdlCall)
unfolding open_screen
attach_screen sdl vm framebuffer_phys allocated = if allocated == 0 then ok (0, some vm, []) else do
  (screen, calls) ← open_screen sdl framebuffer_phys
  elim screen [
    | none ↦ ok (0, some vm, calls)
    | some s ↦ ok (1, some (record vm { screen = some s }), calls)
  ]

unfoldable pub screen_init :
    Host
    → Sdl
    → Option ScreenVm
    → (framebuffer_phys : ℕ) → Exec (ℕ × Option ScreenVm × List SdlCall)
unfolding attach_screen
screen_init host sdl none framebuffer_phys = ok (0, none, [])
screen_init host sdl (some vm) framebuffer_phys =
    let (result, mem, _) =
      memory_alloc host (some vm.mem) framebuffer_phys (align_up framebuffer_size)
        memory_framebuffer in
    attach_screen sdl (record vm { mem = get_or mem vm.mem }) framebuffer_phys result

-- The texture's pixels, where SDL locks it.
unfoldable pub screen_update :
    Bytes → Option ScreenVm → (locks : Bool) → (pixels : List ℕ) → Exec (List ℕ)
screen_update m none locks pixels = ok pixels
screen_update m (some vm) locks pixels = elim vm.screen [
  | none ↦ ok pixels
  | some s ↦ if not locks then ok pixels else do
    (_, pixels') ← memory_read m vm.mem.memory_entries s.framebuffer_phys pixels framebuffer_size
    ok pixels'
]

-- SDL_QUIT.
abbrev pub quit_event : ℕ
quit_event = 0x100

-- The inner loop of `screen_run`, on the types of the pending events.
unfoldable pub polls_quit : List ℕ → Bool
polls_quit [] = false
polls_quit (e ∷ es) = if e == quit_event then true else polls_quit es

-- What a round of the outer loop meets: the pending events, the guest's memory, and whether the
-- texture locks.
pub record Round : Type 0 where
  pub events : List ℕ
  pub memory : Bytes
  pub locks : Bool

-- The outer loop: the pixels shown, one frame after the other. It has no end but the event.
unfoldable pub run_loop :
    Option ScreenVm
    → List Round
    → (pixels : List ℕ) → (shown : List (List ℕ)) → Exec (List (List ℕ))
unfolding screen_update polls_quit
run_loop vm [] pixels shown = out_of_fuel
run_loop vm (r ∷ rs) pixels shown =
    let next = (do
      pixels' ← screen_update r.memory vm r.locks pixels
      run_loop vm rs pixels' (shown ++ (pixels' ∷ []))) in
    if polls_quit r.events then ok shown else next

unfoldable pub screen_run : Option ScreenVm → List Round → (pixels : List ℕ) → Exec (List (List ℕ))
unfolding run_loop
screen_run none rounds pixels = ok []
screen_run (some vm) rounds pixels = elim vm.screen [
  | none ↦ ok []
  | some s ↦ run_loop (some vm) rounds pixels []
]

-- `screen_uninit`: the machine keeps its pointer, and the block is not freed.
unfoldable pub screen_uninit : Option ScreenVm → List SdlCall
screen_uninit none = []
screen_uninit (some vm) = elim vm.screen [
  | none ↦ []
  | some s ↦
      destroy_texture s.texture
      ∷ destroy_renderer s.renderer
      ∷ destroy_window s.window
      ∷ sdl_quit
      ∷ []
]
