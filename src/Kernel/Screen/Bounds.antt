-- ===== src/Kernel/Screen/Bounds.antt =====
-- The screen's writes stay on the screen.
use ea_x.Prelude.{
  ℕ, zero, suc, ◌+◌, ◌-◌, ◌*◌, ◌^◌, ◌≤◌, ◌<◌, ◌≡◌, ◌⊎◌, some, List, [], ◌∷◌, Array, update, length,
  ◌&&◌, leb, ltb, if◌then◌else◌, arith,
}
use ea_x.Stdlib.{Text}
use ea_x.Kernel.Screen.{
  Screen, blank, fill_cells, move_cells, screen_scroll, put, wrap, scroll_up, screen_putchar,
  screen_print,
}

pub fill_cells-at :
    (n : ℕ) (cells : Array ℕ) (value i a : ℕ)
    → fill_cells cells value i n a ≡ (if leb i a && ltb a (i + n) then value else cells a)
unfolding fill_cells
fill_cells-at zero cells value i a = ground arith
fill_cells-at (suc n) cells value i a =
    ground (arith, fill_cells-at n (update cells i value) value (suc i) a)

pub move_cells-at :
    (n width : ℕ) (cells : Array ℕ) (i a : ℕ)
    → 0 < width
    → move_cells width cells i n a
      ≡ (if leb i a && ltb a (i + n) then cells (a + width) else cells a)
unfolding move_cells
move_cells-at zero width cells i a pos = ground arith
move_cells-at (suc n) width cells i a pos =
    ground (arith, move_cells-at n width (update cells i (cells (i + width))) (suc i) a)

pub in_range : (r c w h : ℕ) → r < h → c < w → r * w + c < h * w
in_range r c w h p q = grind arith

rows_le : (w h : ℕ) → (h - 1) * w ≤ h * w
rows_le w h = grind arith

-- A screen has a cell, and no int overflows where its cells are counted.
pub record Fits (width height : ℕ) : Type 0 where
  pub wide : 0 < width
  pub high : 0 < height
  pub narrow : width + 3 < 2 ^ 31
  pub low : height < 2 ^ 31
  pub cells : height * width < 2 ^ 31

-- The cursor is on the screen.
pub record IsOnScreen (width height : ℕ) (s : Screen) : Type 0 where
  pub column : s.cursor_x < width
  pub row : s.cursor_y < height

module _ (width height : ℕ) (fits : Fits width height) where
  -- A scroll moves every row up by one and clears the last.
  pub scroll-at :
      (s : Screen) (a : ℕ)
      → (screen_scroll width height s).video_memory a ≡ (
          if ltb a ((height - 1) * width)
          then s.video_memory (a + width)
          else if ltb a (height * width)
          then blank s
          else s.video_memory a)
  unfolding screen_scroll
  scroll-at s a = ground (
    arith,
    rows_le width height,
    move_cells-at ((height - 1) * width) width s.video_memory 0 a fits.wide,
    fill_cells-at (height * width - (height - 1) * width)
        (move_cells width s.video_memory 0 ((height - 1) * width)) (blank s) ((height - 1) * width)
        a,
  )

  put-outside :
      (s : Screen) (c a : ℕ)
      → IsOnScreen width height s
      → height * width ≤ a
      → (put width height s c).video_memory a ≡ s.video_memory a
  unfolding put
  put-outside s c a v h = ground (
    arith,
    v.column,
    v.row,
    fits.narrow,
    fits.cells,
    in_range s.cursor_y s.cursor_x width height v.row v.column,
    in_range s.cursor_y (s.cursor_x - 1) width height v.row,
  )

  -- The cursor is on the screen, or up to four columns beyond it, or at the start of the row below it.
  abbrev IsNear : Screen → Type 0
  IsNear s =
      ((s.cursor_x < width + 4) × (s.cursor_y < height))
      ⊎ ((s.cursor_x ≡ 0) × (s.cursor_y ≤ height))

  put-cursor : (s : Screen) (c : ℕ) → IsOnScreen width height s → IsNear (put width height s c)
  unfolding put
  put-cursor s c v = ground (arith, v.row, v.column, fits.narrow, fits.low)

  wrap-cursor :
      (s : Screen)
      → IsNear s
      → ((wrap width height s).cursor_x < width) × ((wrap width height s).cursor_y ≤ height)
  unfolding wrap
  wrap-cursor s h = ground (arith, fits.wide, fits.narrow, fits.low)

  scroll_up-IsOnScreen :
      (s : Screen)
      → (s.cursor_x < width) × (s.cursor_y ≤ height)
      → IsOnScreen width height (scroll_up width height s)
  unfolding scroll_up screen_scroll
  scroll_up-IsOnScreen s h = record {
    column = ground arith;
    row = ground (arith, fits.high, fits.low);
  }

  pub putchar-IsOnScreen :
      (s : Screen) (c : ℕ)
      → IsOnScreen width height s
      → IsOnScreen width height (screen_putchar width height s c)
  unfolding screen_putchar
  putchar-IsOnScreen s c v =
      scroll_up-IsOnScreen (wrap width height (put width height s c))
        (wrap-cursor (put width height s c) (put-cursor s c v))

  putchar-outside :
      (s : Screen) (c a : ℕ)
      → IsOnScreen width height s
      → height * width ≤ a
      → (screen_putchar width height s c).video_memory a ≡ s.video_memory a
  unfolding screen_putchar wrap scroll_up
  putchar-outside s c a v h = ground (
    arith,
    put-outside s c a v h,
    rows_le width height,
    scroll-at (wrap width height (put width height s c)) a,
  )

  -- `screen_print` ends on every string, with fuel above its length. From a cursor on the screen it
  -- leaves the cursor on the screen, and writes to no cell of the memory that is not on the screen.
  pub screen_print-IsOnScreen :
      (cs : List ℕ) (fuel : ℕ) (ram : Array ℕ) (str : ℕ) (s : Screen)
      → Text ram str cs
      → length cs < fuel
      → IsOnScreen width height s
      → (s' : Screen) × (screen_print width height fuel ram str s ≡ some s')
        × IsOnScreen width height s'
        × ((a : ℕ)
            → s'.video_memory a
              ≡ (if leb (height * width) a then s.video_memory a else s'.video_memory a))
  unfolding screen_print
  screen_print-IsOnScreen cs zero ram str s t h v = absurd (omega arith)
  screen_print-IsOnScreen [] (suc fuel) ram str s t h v = (s, ground arith, v, λ a. ground arith)
  screen_print-IsOnScreen (c ∷ cs) (suc fuel) ram str s (first, pos, rest) h v =
      let next = screen_putchar width height s (ram str) in
      let (s', ran, v', same) =
        screen_print-IsOnScreen cs fuel ram (suc str) next rest (omega arith)
          (putchar-IsOnScreen s (ram str) v) in
      (s', ground (arith, ran), v', λ a. ground (arith, same a, putchar-outside s (ram str) a v))
