-- ===== src/Guest/Splash.antt =====
-- The picture that examples/guests/guest32.c draws, as stores to guest memory. The bytes of the picture
-- are any list; the source's table has 91 * 93 of them.
pub mod Screen
use blackhv.Base.{
  ℕ, zero, suc, ◌+◌, ◌-◌, ◌*◌, ◌/◌, ◌≤◌, ◌<◌, ◌≡◌, refl, sym, ap, ◌∙◌, ◌⊎◌, inl, inr, some, List,
  arith, ◌==◌, Bool-cases, length, get_elem?, get_elem?-some, ◌>>=◌, access, Returns-mono,
  Returns-bind, Exec, Returns, ok, returns,
}
use blackhv.Memory.Access.{Bytes, poke}

abbrev pub splash_width : ℕ
splash_width = 91

abbrev pub splash_height : ℕ
splash_height = 93

abbrev pub graphic_width : ℕ
graphic_width = 320

abbrev pub graphic_height : ℕ
graphic_height = 200

abbrev pub framebuffer : ℕ
framebuffer = 0xC2000000

-- `framebuffer + ((top + j) * GRAPHIC_WIDTH + left + i) * 4`
abbrev pub pixel_at : (j i : ℕ) → ℕ
pixel_at j i =
    framebuffer
    + (((graphic_height - splash_height) / 2 + j) * graphic_width
        + (graphic_width - splash_width) / 2
        + i)
      * 4

-- The four stores of a pixel.
unfoldable pub store_pixel : Bytes → (a v : ℕ) → Bytes
store_pixel m a v = poke (poke (poke (poke m a v) (a + 1) v) (a + 2) v) (a + 3) 255

-- The inner loop of `show_splash_screen` from column `i`, `n` columns, and the outer from row `j`.
unfoldable pub draw_row : (splash : List ℕ) → (n i j : ℕ) → Bytes → Exec Bytes
unfolding store_pixel
draw_row splash zero i j m = ok m
draw_row splash (suc n) i j m = do
  v ← access (get_elem? splash (j * splash_width + i))
  draw_row splash n (i + 1) j (store_pixel m (pixel_at j i) v)

unfoldable pub draw_rows : (splash : List ℕ) → (n j : ℕ) → Bytes → Exec Bytes
unfolding draw_row
draw_rows splash zero j m = ok m
draw_rows splash (suc n) j m = do
  m' ← draw_row splash splash_width 0 j m
  draw_rows splash n (j + 1) m'

unfoldable pub show_splash_screen : (splash : List ℕ) → Bytes → Exec Bytes
unfolding draw_rows
show_splash_screen splash m = draw_rows splash splash_height 0 m

-- The loop of `_start` that blackens the screen, from byte `i`, `n` pixels.
unfoldable pub clear_loop : (n i : ℕ) → Bytes → Bytes
unfolding store_pixel
clear_loop zero i m = m
clear_loop (suc n) i m = clear_loop n (i + 4) (store_pixel m (framebuffer + i) 0)

-- The screen as `_start` leaves it before the echo loop: cleared, and then the picture.
unfoldable pub draw_screen : (splash : List ℕ) → Bytes → Exec Bytes
unfolding clear_loop show_splash_screen
draw_screen splash m = show_splash_screen splash (clear_loop (graphic_width * graphic_height) 0 m)

-- Address `a` is none of a pixel's four.
abbrev pub Off : (a pixel : ℕ) → Type 0
Off a pixel = (a < pixel) ⊎ (pixel + 4 ≤ a)

abbrev pub Pixel : Bytes → (a v : ℕ) → Type 0
Pixel m a v = (m a ≡ v) × (m (a + 1) ≡ v) × (m (a + 2) ≡ v) × (m (a + 3) ≡ 255)

pub store_pixel-Pixel : (m : Bytes) (a v : ℕ) → Pixel (store_pixel m a v) a v
unfolding store_pixel poke
store_pixel-Pixel m a v = ground arith

pub store_pixel-Off : (m : Bytes) (a v b : ℕ) → Off b a → store_pixel m a v b ≡ m b
unfolding store_pixel poke
store_pixel-Off m a v b off = ground arith

-- A pixel is kept by stores off it.
pub Pixel-kept :
    (m m' : Bytes) (a v : ℕ)
    → ((b : ℕ) → (a ≤ b) × (b < a + 4) → m' b ≡ m b)
    → Pixel m a v
    → Pixel m' a v
Pixel-kept m m' a v same (p0, p1, p2, p3) = (
  same a (omega arith) ∙ p0,
  same (a + 1) (omega arith) ∙ p1,
  same (a + 2) (omega arith) ∙ p2,
  same (a + 3) (omega arith) ∙ p3,
)

-- The columns from `i` on have the picture's bytes, and all other addresses are as they were.
abbrev RowDrawn : (splash : List ℕ) → (n i j : ℕ) → Bytes → Bytes → Type 0
RowDrawn splash n i j m m' =
    ((k v : ℕ)
      → (i ≤ k) × (k < i + n)
      → get_elem? splash (j * splash_width + k) ≡ some v
      → Pixel m' (pixel_at j k) v)
    × ((a : ℕ) → ((k : ℕ) → (i ≤ k) × (k < i + n) → Off a (pixel_at j k)) → m' a ≡ m a)

-- Stores to the columns behind a drawn pixel keep it.
RowDrawn-cons :
    (splash : List ℕ) (n i j v : ℕ) (m m' : Bytes)
    → get_elem? splash (j * splash_width + i) ≡ some v
    → RowDrawn splash n (i + 1) j (store_pixel m (pixel_at j i) v) m'
    → RowDrawn splash (suc n) i j m m'
RowDrawn-cons splash n i j v m m' at (drawn, same) = (
  (λ k w within here. elim (Bool-cases (k == i)) [
    | inl is ↦
        let here_i : k ≡ i = ground arith in
        let read : some w ≡ some v =
          sym here ∙ (ap (λ x. get_elem? splash (j * splash_width + x)) here_i ∙ at) in
        let drawn_i : Pixel m' (pixel_at j i) v =
          Pixel-kept (store_pixel m (pixel_at j i) v) m' (pixel_at j i) v
            (λ b within. same b (λ k' later. inl (omega arith)))
            (store_pixel-Pixel m (pixel_at j i) v) in
        let same_byte : w ≡ v = cc in rw (here_i, same_byte) drawn_i
    | inr isnt ↦ drawn k w (ground arith) here
  ]),
  (λ a off.
      same a (λ k within. off k (omega arith))
      ∙ store_pixel-Off m (pixel_at j i) v a (off i (omega arith))),
)

draw_row-RowDrawn :
    (splash : List ℕ) (n i j : ℕ) (m : Bytes)
    → i + n ≤ splash_width
    → j < splash_height
    → length splash ≡ splash_width * splash_height
    → Returns (RowDrawn splash n i j m) (draw_row splash n i j m)
unfolding draw_row
draw_row-RowDrawn splash zero i j m fits row size =
    returns ((λ k v within. absurd (omega arith)), (λ a off. refl))
draw_row-RowDrawn splash (suc n) i j m fits row size =
    let (v, at) = get_elem?-some splash (j * splash_width + i) (omega arith) in
    rw at (
      Returns-mono
        (draw_row-RowDrawn splash n (i + 1) j (store_pixel m (pixel_at j i) v) (omega arith) row
          size)
        λ m'. RowDrawn-cons splash n i j v m m' at)

-- The same for the rows from `j` on.
abbrev pub Drawn : (splash : List ℕ) → (n j : ℕ) → Bytes → Bytes → Type 0
Drawn splash n j m m' =
    ((r k v : ℕ)
      → (j ≤ r) × (r < j + n) × (k < splash_width)
      → get_elem? splash (r * splash_width + k) ≡ some v
      → Pixel m' (pixel_at r k) v)
    × ((a : ℕ)
        → ((r k : ℕ) → (j ≤ r) × (r < j + n) × (k < splash_width) → Off a (pixel_at r k))
        → m' a ≡ m a)

Drawn-cons :
    (splash : List ℕ) (n j : ℕ) (m m1 m' : Bytes)
    → RowDrawn splash splash_width 0 j m m1
    → Drawn splash n (j + 1) m1 m'
    → Drawn splash (suc n) j m m'
Drawn-cons splash n j m m1 m' (row, off_row) (rows, off_rows) = (
  (λ r k v within here. elim (Bool-cases (r == j)) [
    | inl is ↦
        let here_j : r ≡ j = ground arith in
        let read : get_elem? splash (j * splash_width + k) ≡ some v =
          ap (λ x. get_elem? splash (x * splash_width + k)) (sym here_j) ∙ here in
        rw here_j (
          Pixel-kept m1 m' (pixel_at j k) v (λ b at. off_rows b (λ r' k' later. inl (omega arith)))
            (row k v (omega arith) read))
    | inr isnt ↦ rows r k v (ground arith) here
  ]),
  (λ a off.
      off_rows a (λ r k within. off r k (omega arith))
      ∙ off_row a (λ k within. off j k (omega arith))),
)

pub draw_rows-Drawn :
    (splash : List ℕ) (n j : ℕ) (m : Bytes)
    → j + n ≤ splash_height
    → length splash ≡ splash_width * splash_height
    → Returns (Drawn splash n j m) (draw_rows splash n j m)
unfolding draw_rows
draw_rows-Drawn splash zero j m fits size =
    returns ((λ r k v within. absurd (omega arith)), (λ a off. refl))
draw_rows-Drawn splash (suc n) j m fits size =
    Returns-bind (draw_row-RowDrawn splash splash_width 0 j m (omega arith) (omega arith) size)
      λ m1 row.
        Returns-mono (draw_rows-Drawn splash n (j + 1) m1 (omega arith) size)
          λ m'. Drawn-cons splash n j m m1 m' row
