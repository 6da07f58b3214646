-- ===== src/Kernel/Screen/Rows.antt =====
-- What the screen shows, by rows and columns.
use ea_x.Prelude.{
  ℕ, zero, suc, ◌+◌, ◌-◌, ◌*◌, ◌≤◌, ◌<◌, ◌≡◌, refl, ap, some, List, [], ◌∷◌, Array, update, length,
  ◌&&◌, leb, ltb, ◌==◌, if◌then◌else◌, arith,
}
use ea_x.Stdlib.{Text}
use ea_x.Kernel.Screen.{
  Screen, cell, blank, screen_clear, screen_scroll, put, wrap, scroll_up, screen_putchar,
  screen_print,
}
use ea_x.Kernel.Screen.Bounds.{Fits, fill_cells-at, scroll-at, in_range}

abbrev pub shown : ℕ → Screen → ℕ → ℕ → ℕ
shown width s row column = s.video_memory (row * width + column)

last_row : (r c w h : ℕ) → r < h → c < w → r + 1 < h → r * w + c < (h - 1) * w
last_row r c w h p q more = in_range r c w (h - 1) (omega arith) q

not_last_row : (r c w h : ℕ) → r + 1 ≡ h → (h - 1) * w ≤ r * w + c
not_last_row r c w h e = let same : h - 1 ≡ r = omega arith in rw same (omega arith)

next_row : (r c w : ℕ) → r * w + c + w ≡ (r + 1) * w + c
next_row r c w = grind arith

-- `screen_clear` blanks the whole screen, and `screen_scroll` shows in each row what the next one showed,
-- and a blank last row.
screen_scroll-shown :
    (width height : ℕ) (fits : Fits width height) (s : Screen) (r c : ℕ)
    → r < height
    → c < width
    → (shown width (screen_clear width height s) r c ≡ blank s)
      × (shown width (screen_scroll width height s) r c
          ≡ (if r + 1 == height then blank s else shown width s (r + 1) c))
unfolding screen_clear
screen_scroll-shown width height fits s r c row column = (
  ground (
    arith,
    in_range r c width height row column,
    fill_cells-at (width * height) s.video_memory (blank s) 0 (r * width + c),
  ),
  ground (
    arith,
    scroll-at width height fits s (r * width + c),
    in_range r c width height row column,
    last_row r c width height row column,
    not_last_row r c width height,
    ap s.video_memory (next_row r c width),
  ),
)

-- A character that only shows.
abbrev pub Printable : List ℕ → Type 0
Printable [] = Unit {0}
Printable (c ∷ cs) = (31 < c) × Printable cs

-- The text from a cell on.
abbrev pub Shows : Screen → ℕ → List ℕ → Type 0
Shows s a [] = Unit {0}
Shows s a (c ∷ cs) = (s.video_memory a ≡ cell s.screen_color c) × Shows s (suc a) cs

module _ (width height : ℕ) (fits : Fits width height) where
  putchar-printable :
      (s : Screen) (c : ℕ)
      → 31 < c
      → s.cursor_x + 1 < width
      → s.cursor_y < height
      → screen_putchar width height s c ≡ record s {
        video_memory =
            update s.video_memory (s.cursor_y * width + s.cursor_x) (cell s.screen_color c);
        cursor_x = s.cursor_x + 1;
      }
  unfolding screen_putchar put wrap scroll_up
  putchar-printable s c h column row =
      ground
        (arith, fits.narrow, fits.low, fits.cells, in_range s.cursor_y s.cursor_x width height row)

  -- On a screen whose cells an int counts, `screen_print` of a string of characters from 32 on that ends before the last column of the row,
  -- with fuel above its length, shows them from the cursor on, moves the cursor behind them, and
  -- leaves every other cell alone.
  pub screen_print-Shows :
      (cs : List ℕ) (fuel : ℕ) (ram : Array ℕ) (str : ℕ) (s : Screen)
      → Text ram str cs
      → Printable cs
      → length cs < fuel
      → s.cursor_x + length cs < width
      → s.cursor_y < height
      → let start = s.cursor_y * width + s.cursor_x in
        (s' : Screen) × (screen_print width height fuel ram str s ≡ some s')
        × (s'.screen_color ≡ s.screen_color)
        × (s'.cursor_x ≡ s.cursor_x + length cs)
        × (s'.cursor_y ≡ s.cursor_y)
        × Shows s' start cs
        × ((a : ℕ)
            → s'.video_memory a ≡ (
                if leb start a && ltb a (start + length cs)
                then s'.video_memory a
                else s.video_memory a))
  unfolding screen_print
  screen_print-Shows cs zero ram str s t p h column row = absurd (omega arith)
  screen_print-Shows [] (suc fuel) ram str s t p h column row =
      (s, ground arith, refl, omega arith, refl, tt, λ a. ground arith)
  screen_print-Shows (c ∷ cs) (suc fuel) ram str s (first, pos, rest) (printable, p) h column row =
      let start = s.cursor_y * width + s.cursor_x in
      let next = record s {
        video_memory = update s.video_memory start (cell s.screen_color c);
        cursor_x = s.cursor_x + 1;
      } in
      let stepped = putchar-printable s c printable (omega arith) row in
      let (s', ran, color, x, y, shows, same) =
        screen_print-Shows cs fuel ram (suc str) next rest p (omega arith) (omega arith) row in
      let moved : s.cursor_y * width + (s.cursor_x + 1) ≡ suc start = omega arith in
      (
        s',
        ground (arith, ran, stepped),
        color,
        omega (arith, x),
        y,
        (ground (arith, same start, color), rw moved at shows),
        λ a. ground (arith, same a),
      )
