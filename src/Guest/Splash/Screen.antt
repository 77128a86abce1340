-- ===== src/Guest/Splash/Screen.antt =====
-- The whole screen of examples/guests/guest32.c: the picture on black.
use blackhv.Base.{
  ℕ, zero, suc, ◌+◌, ◌-◌, ◌*◌, ◌≤◌, ◌<◌, ◌≡◌, refl, ◌∙◌, ◌⊎◌, inl, inr, some, List, arith, ◌==◌,
  Bool-cases, length, get_elem?, Returns-mono, Returns,
}
use blackhv.Memory.Access.{Bytes}
use blackhv.Guest.Splash.{
  splash_width, splash_height, graphic_width, graphic_height, framebuffer, pixel_at, store_pixel,
  clear_loop, show_splash_screen, draw_screen, Off, Pixel, store_pixel-Pixel, store_pixel-Off,
  Pixel-kept, draw_rows-Drawn,
}

-- The pixels from byte `i` on are black, and the rest is as it was.
abbrev Cleared : (n i : ℕ) → Bytes → Bytes → Type 0
Cleared n i m m' =
    ((k : ℕ) → k < n → Pixel m' (framebuffer + i + 4 * k) 0)
    × ((a : ℕ) → (a < framebuffer + i) ⊎ (framebuffer + i + 4 * n ≤ a) → m' a ≡ m a)

clear_loop-Cleared : (n i : ℕ) (m : Bytes) → Cleared n i m (clear_loop n i m)
unfolding clear_loop
clear_loop-Cleared zero i m = ((λ k less. absurd (omega arith)), (λ a out. refl))
clear_loop-Cleared (suc n) i m =
    let m1 : Bytes = store_pixel m (framebuffer + i) 0 in
    let m' : Bytes = clear_loop n (i + 4) m1 in
    let (black, same) = clear_loop-Cleared n (i + 4) m1 in
    let kept : Pixel m' (framebuffer + i) 0 =
      Pixel-kept m1 m' (framebuffer + i) 0 (λ b at. same b (inl (omega arith)))
        (store_pixel-Pixel m (framebuffer + i) 0) in
    (
      (λ k less. elim (Bool-cases (k == 0)) [
        | inl is ↦
            (let here : framebuffer + i + 4 * k ≡ framebuffer + i = ground arith in rw here kept)
        | inr isnt ↦
            let there : framebuffer + i + 4 * k ≡ framebuffer + (i + 4) + 4 * (k - 1) =
              ground arith in
            rw there (black (k - 1) (ground arith))
      ]),
      (λ a out. same a (ground arith) ∙ store_pixel-Off m (framebuffer + i) 0 a (ground arith)),
    )

-- The screen's pixel in a row and a column.
abbrev pub screen_at : (row col : ℕ) → ℕ
screen_at row col = framebuffer + 4 * (row * graphic_width + col)

-- Outside the picture's 93 rows from 53 on and its 91 columns from 114 on.
abbrev pub Beside : (row col : ℕ) → Type 0
Beside row col = (row < 53) ⊎ (146 ≤ row) ⊎ (col < 114) ⊎ (205 ≤ col)

Beside-Off :
    (row col r k b : ℕ)
    → col < graphic_width
    → Beside row col
    → (r < splash_height) × (k < splash_width)
    → (screen_at row col ≤ b) × (b < screen_at row col + 4)
    → Off b (pixel_at r k)
Beside-Off row col r k b inside beside within at = ground arith

black_at :
    (m : Bytes) (row col : ℕ)
    → ((k : ℕ) → k < graphic_width * graphic_height → Pixel m (framebuffer + 0 + 4 * k) 0)
    → (row < graphic_height) × (col < graphic_width)
    → Pixel m (screen_at row col) 0
black_at m row col black inside =
    let here : framebuffer + 0 + 4 * (row * graphic_width + col) ≡ screen_at row col =
      omega arith in
    rw here at (black (row * graphic_width + col) (omega arith))

-- The picture on black, and nothing else changed.
abbrev pub Painted : (splash : List ℕ) → Bytes → Bytes → Type 0
Painted splash m m' =
    ((r k v : ℕ)
      → (r < splash_height) × (k < splash_width)
      → get_elem? splash (r * splash_width + k) ≡ some v
      → Pixel m' (pixel_at r k) v)
    × ((row col : ℕ)
        → (row < graphic_height) × (col < graphic_width)
        → Beside row col
        → Pixel m' (screen_at row col) 0)
    × ((a : ℕ)
        → (a < framebuffer) ⊎ (framebuffer + graphic_width * graphic_height * 4 ≤ a)
        → m' a ≡ m a)

-- With a picture of 91 * 93 bytes, drawing the screen reads it within its bounds, gives each of
-- its pixels the byte of the picture three times and then 255, makes every other pixel of the 200
-- rows of 320 black, and writes nothing outside these 320 * 200 * 4 bytes.
pub draw_screen-Painted :
    (splash : List ℕ) (m : Bytes)
    → length splash ≡ splash_width * splash_height
    → Returns (Painted splash m) (draw_screen splash m)
unfolding draw_screen show_splash_screen
draw_screen-Painted splash m size =
    let m1 : Bytes = clear_loop (graphic_width * graphic_height) 0 m in
    let (black, off) = clear_loop-Cleared (graphic_width * graphic_height) 0 m in
    Returns-mono (draw_rows-Drawn splash splash_height 0 m1 (omega arith) size) λ m' (drawn, same).
      (
        (λ r k v within. drawn r k v (omega arith)),
        (λ row col inside beside.
            Pixel-kept m1 m' (screen_at row col) 0
              (λ b at.
                same b
                  (λ r k within. Beside-Off row col r k b (omega arith) beside (omega arith) at))
              (black_at m1 row col black inside)),
        (λ a out.
            same a (λ r k within. elim out [
              | inl low ↦ inl (omega arith)
              | inr high ↦ inr (omega arith)
            ])
            ∙ off a (elim out [ inl low ↦ inl (omega arith) | inr high ↦ inr (omega arith) ])),
      )
