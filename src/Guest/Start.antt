-- ===== src/Guest/Start.antt =====
-- `_start` of examples/guests/guest32.c, behind the set-up of its stack: the greeting, a store to the
-- memory-mapped region, the screen and the echo loop.
use blackhv.Base.{
  ◌>>=◌, ℕ, suc, ◌+◌, ◌*◌, ◌≤◌, ◌≡◌, refl, ◌≢◌, Bool, true, not, ◌&&◌, List, [], ◌∷◌, ◌++◌, arith,
  ◌==◌, length, All, length-append, Returns-bind, Exec, Returns, ok, returns,
}
use blackhv.Memory.Access.{Bytes}
use blackhv.Serial.{Serial}
use blackhv.Guest.{serial_write_str, echo}
use blackhv.Guest.Echo.{IsLine, in_serial, out_serial, echo-IsLine, serial_write_str-IsLine}
use blackhv.Guest.Splash.{splash_width, splash_height, draw_screen}
use blackhv.Guest.Splash.Screen.{Painted, draw_screen-Painted}

-- "Echo program running in KVM\n"
abbrev pub greeting : List ℕ
greeting =
    69 ∷ 99 ∷ 104 ∷ 111 ∷ 32 ∷ 112 ∷ 114 ∷ 111 ∷ 103 ∷ 114 ∷ 97 ∷ 109 ∷ 32 ∷ 114 ∷ 117 ∷ 110 ∷ 110
    ∷ 105 ∷ 110 ∷ 103 ∷ 32 ∷ 105 ∷ 110 ∷ 32 ∷ 75 ∷ 86 ∷ 77 ∷ 10 ∷ []

module _ {S : Type 0} (inb : (addr : ℕ) → S → Exec (ℕ × S))
    (outb : (addr value : ℕ) → S → Exec S) where
  -- So many rounds of the last loop are run. The result has the port, the memory, and the stores
  -- that leave to the host.
  unfoldable pub start :
      (splash : List ℕ) → (fuel rounds : ℕ) → S → Bytes → Exec (S × Bytes × List (ℕ × ℕ))
  start splash fuel rounds s m = do
    s1 ← serial_write_str inb outb fuel (greeting ++ (0 ∷ [])) s
    let stores = (0xC000000A, 65) ∷ []
    m1 ← draw_screen splash m
    s2 ← echo inb outb fuel rounds s1
    ok (s2, m1, stores)

all_nonzero : List ℕ → Bool
all_nonzero [] = true
all_nonzero (c ∷ cs) = not (c == 0) && all_nonzero cs

nonzero-All : (cs : List ℕ) → all_nonzero cs ≡ true → All (λ c. c ≢ 0) cs
unfolding all_nonzero
nonzero-All [] e = tt
nonzero-All (c ∷ cs) e = (ground arith, nonzero-All cs (ground arith))

-- The bytes at the port, the picture, and the one store.
abbrev pub HasStarted :
    (size : ℕ) (splash to_host : List ℕ) → Bytes → Serial × Bytes × List (ℕ × ℕ) → Type 0
HasStarted size splash to_host m (s', m', stores) =
    IsLine s' size to_host [] × Painted splash m m' × (stores ≡ (0xC000000A, 65) ∷ [])

-- With a picture of 91 * 93 bytes, a round of polling at least, and room at the port for the
-- greeting and the bytes that wait for the guest, `_start`, with one round of its last loop for
-- each of those bytes, ends: the host finds the greeting and then those bytes behind the ones on
-- the way, in order, the screen shows the picture on black with no other memory changed, and one
-- store has left to the memory-mapped region.
pub start-HasStarted :
    (fuel : ℕ) (splash bs to_host : List ℕ) (s : Serial) (size : ℕ) (m : Bytes)
    → IsLine s size to_host bs
    → length to_host + length greeting + length bs ≤ size
    → length splash ≡ splash_width * splash_height
    → Returns
        (HasStarted size splash ((to_host ++ greeting) ++ bs) m)
        (start in_serial out_serial splash (suc fuel) (length bs) s m)
unfolding start all_nonzero
start-HasStarted fuel splash bs to_host s size m line room picture =
    Returns-bind
      (serial_write_str-IsLine fuel greeting [] s size to_host bs (nonzero-All greeting refl) line
        (omega arith))
      λ s1 line1. Returns-bind (draw_screen-Painted splash m picture) λ m' painted.
        Returns-bind
          (echo-IsLine fuel bs s1 size (to_host ++ greeting) line1
            (omega (arith, length-append to_host greeting)))
          λ s2 line2. returns (line2, painted, refl)
