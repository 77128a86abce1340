-- ===== src/Screen/Tests.antt =====
-- The theorems on src/screen.c at a machine without other memory.
use blackhv.Base.{
  ℕ, zero, suc, ◌*◌, ◌≤◌, ◌<◌, ◌≡◌, refl, inr, true, false, none, some, List, [], ◌∷◌, arith,
  length, get_elem?, replicate, length-replicate, ◌>>=◌, Returns, ok,
}
use blackhv.Memory.{Host, check_addr_available}
use blackhv.Memory.Access.{Bytes}
use blackhv.Screen.{
  ScreenVm, Sdl, SdlCall, Round, framebuffer_size, screen_init, screen_update, screen_run,
}
use blackhv.Screen.Resources.{
  framebuffer_allocated, Granted, Initialized, screen_init-Initialized, screen_init-again,
}
use blackhv.Screen.{Screen}
use blackhv.Memory.{MemoryEntry, memory_framebuffer, find_entry}
use blackhv.Screen.Frames.{
  Shows, EndsAt, Meets, FramesOf, Framebuffer, screen_update-Shows, screen_run-FramesOf,
}

abbrev host : Host
host = record {
  entry_memory = true;
  mmap_result = 0x5000;
  region_accepted = true;
  element_memory = true;
}

abbrev bare : ScreenVm
bare = record { mem = record { memory_entries = []; next_slot = 0 }; screen = none }

abbrev sdl : Sdl
sdl = record { screen_memory = true; window = 1; renderer = 2; texture = 3 }

abbrev no_window : Sdl
no_window = record sdl { window = 0 }

host-Granted : Granted host bare.mem 0xC2000000
unfolding check_addr_available
host-Granted = record {
  entry_memory = refl;
  element_memory = refl;
  mapped = omega arith;
  accepted = refl;
  free = refl;
  small = omega arith;
}

screen_init-Initialized_example :
    Returns
      (Initialized no_window 0xC2000000 (framebuffer_allocated host bare 0xC2000000) bare)
      (screen_init host no_window (some bare) 0xC2000000)
screen_init-Initialized_example = screen_init-Initialized host no_window bare 0xC2000000 refl

screen_init-again_example :
    (vm' : ScreenVm) × (calls : List SdlCall) × (screen_init host no_window (some bare) 0xC2000000
      ≡ ok (0, some vm', calls))
    × ((host' : Host) (sdl' : Sdl)
        → screen_init host' sdl' (some vm') 0xC2000000 ≡ ok (0, some vm', []))
screen_init-again_example = screen_init-again host no_window bare 0xC2000000 host-Granted refl refl

abbrev black : List ℕ
black = replicate framebuffer_size 0

black_room : framebuffer_size ≤ length black
black_room = omega (arith, length-replicate {A = ℕ} framebuffer_size 0)

abbrev white_memory : Bytes
white_memory a = 255

screen_update-Shows_example : Returns (Shows host white_memory) (do
  (_, vm', _) ← screen_init host sdl (some bare) 0xC2000000
  screen_update white_memory vm' true black)
screen_update-Shows_example =
    screen_update-Shows host sdl bare 0xC2000000 white_memory black host-Granted tt refl
      (omega arith) (omega arith) (omega arith) black_room

abbrev window_screen : Screen
window_screen = record { window = 1; renderer = 2; texture = 3; framebuffer_phys = 0xC2000000 }

abbrev framebuffer_entry : MemoryEntry
framebuffer_entry = record {
  type = memory_framebuffer;
  slot = 0;
  guest_phys = 0xC2000000;
  size = 63 * 4096;
  memory_ptr = 0x5000;
}

abbrev open_screen_vm : ScreenVm
open_screen_vm = record {
  mem = record { memory_entries = framebuffer_entry ∷ []; next_slot = 1 };
  screen = some window_screen;
}

open_screen_vm-Framebuffer : Framebuffer open_screen_vm window_screen framebuffer_entry
unfolding find_entry
open_screen_vm-Framebuffer = record {
  there = refl;
  found = refl;
  readable = inr refl;
  fit = omega arith;
  inside = omega arith;
  room = omega arith;
}

-- A round that shows the framebuffer, one whose texture does not lock, and one with the quit event.
abbrev first_round : Round
first_round = record { events = 1 ∷ []; memory = white_memory; locks = true }

abbrev second_round : Round
second_round = record { events = []; memory = white_memory; locks = false }

abbrev last_round : Round
last_round = record { events = 2 ∷ 0x100 ∷ []; memory = white_memory; locks = true }

abbrev rounds : List Round
rounds = first_round ∷ second_round ∷ last_round ∷ []

first-misses : ¬ Meets first_round.events
first-misses (zero, at) = let e : ◌≡◌ {A = ℕ} 1 0x100 = cc in omega (arith, e)
first-misses (suc j, at) = cc

second-misses : ¬ Meets second_round.events
second-misses (j, at) = cc

rounds-EndsAt : EndsAt 2 rounds
rounds-EndsAt = (early, (last_round, refl, (1, refl)))
  where
    early : (i : ℕ) (r : Round) → i < 2 → get_elem? rounds i ≡ some r → ¬ Meets r.events
    early zero r less at = let is : r ≡ first_round = cc in rw is first-misses
    early (suc zero) r less at = let is : r ≡ second_round = cc in rw is second-misses
    early (suc (suc i)) r less at = absurd (omega arith)

screen_run-FramesOf_example :
    Returns (FramesOf 0x5000 2 rounds black) (screen_run (some open_screen_vm) rounds black)
screen_run-FramesOf_example =
    screen_run-FramesOf open_screen_vm window_screen framebuffer_entry rounds black 2
      open_screen_vm-Framebuffer black_room rounds-EndsAt
