-- ===== src/Kernel/Screen.antt =====
-- kernel.c: the text screen.
--
-- SCREEN_WIDTH and SCREEN_HEIGHT are those of kernel.h, `width` and `height` here. The cursor is
-- two ints, each the word of its two's complement, so that -1 is 2^32 - 1. A cell of the video memory is
-- its index from 0xB8000 on, an int too.
pub mod Bounds
pub mod Rows
use ea_x.Prelude.{
  ℕ, zero, suc, ◌+◌, ◌-◌, ◌*◌, ◌^◌, Bool, true, false, Option, none, some, Array, update, u16, u32,
  sub32, ltb_int, leb_int, ◌==◌, if◌then◌else◌, bit_or,
}
use ea_x.Stdlib.{int_of_char}

pub record Screen : Type 0 where
  pub video_memory : Array ℕ
  pub cursor_x : ℕ
  pub cursor_y : ℕ
  pub screen_color : ℕ

-- `(screen_color << 8) | c`, stored in a uint16_t. A `char` from 128 on is negative, and its upper bits
-- are all set.
abbrev pub cell : ℕ → ℕ → ℕ
cell color c = u16 (bit_or (color * 2 ^ 8) (int_of_char c))

abbrev pub blank : Screen → ℕ
blank s = cell s.screen_color b' '

unfoldable pub screen_init : Screen → Screen
screen_init s = record s { cursor_x = 0; cursor_y = 0 }

-- `for (i = from; i < from + rounds; i++) video_memory[i] = value;`
unfoldable pub fill_cells : Array ℕ → ℕ → ℕ → ℕ → Array ℕ
fill_cells cells value i zero = cells
fill_cells cells value i (suc rounds) = fill_cells (update cells i value) value (suc i) rounds

-- `for (i = from; i < from + rounds; i++) video_memory[i] = video_memory[i + width];`
unfoldable pub move_cells : ℕ → Array ℕ → ℕ → ℕ → Array ℕ
move_cells width cells i zero = cells
move_cells width cells i (suc rounds) =
    move_cells width (update cells i (cells (i + width))) (suc i) rounds

module _ (width height : ℕ) where
  unfoldable pub screen_clear : Screen → Screen
  unfolding fill_cells
  screen_clear s = record s {
    video_memory = fill_cells s.video_memory (blank s) 0 (width * height);
    cursor_x = 0;
    cursor_y = 0;
  }

  unfoldable pub screen_scroll : Screen → Screen
  unfolding fill_cells move_cells
  screen_scroll s = record s {
    video_memory =
        fill_cells (move_cells width s.video_memory 0 ((height - 1) * width)) (blank s)
          ((height - 1) * width) (height * width - (height - 1) * width);
  }

  -- The cell at the cursor.
  abbrev pub at_cursor : Screen → ℕ
  at_cursor s = u32 (s.cursor_y * width + s.cursor_x)

  -- The first half of `screen_putchar`, on each kind of character.
  unfoldable pub put : Screen → ℕ → Screen
  put s c =
      if c == 10
      then record s { cursor_x = 0; cursor_y = u32 (s.cursor_y + 1) }
      else if c == 13
      then record s { cursor_x = 0 }
      else if c == 9
      then record s { cursor_x = u32 (s.cursor_x + 4) }
      else if c == 8
      then (if ltb_int 0 s.cursor_x
          then (let back = record s { cursor_x = sub32 s.cursor_x 1 } in
              record back { video_memory = update s.video_memory (at_cursor back) (blank s) })
          else s)
      else record s {
        video_memory = update s.video_memory (at_cursor s) (cell s.screen_color c);
        cursor_x = u32 (s.cursor_x + 1);
      }

  unfoldable pub wrap : Screen → Screen
  wrap s =
      if leb_int width s.cursor_x
      then record s { cursor_x = 0; cursor_y = u32 (s.cursor_y + 1) }
      else s

  unfoldable pub scroll_up : Screen → Screen
  scroll_up s =
      if leb_int height s.cursor_y then record (screen_scroll s) { cursor_y = height - 1 } else s

  unfoldable pub screen_putchar : Screen → ℕ → Screen
  screen_putchar s c = scroll_up (wrap (put s c))

  -- `while (*str) { screen_putchar(*str); str++; }`
  unfoldable pub screen_print : ℕ → Array ℕ → ℕ → Screen → Option Screen
  screen_print zero ram str s = none
  screen_print (suc fuel) ram str s = elim (ram str == 0) [
    | true ↦ some s
    | false ↦ screen_print fuel ram (suc str) (screen_putchar s (ram str))
  ]
