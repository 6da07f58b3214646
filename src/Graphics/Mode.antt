-- ===== src/Graphics/Mode.antt =====
-- graphics.c: what the mode allows, and the text screen.
use ea_x.Prelude.{ℕ, zero, suc, ◌+◌, ◌-◌, ◌*◌, ◌≤◌, ◌<◌, ◌^◌, ◌≡◌, refl, Array, update, u32, arith}
use ea_x.Graphics.{
  GraphicsContext, graphics_draw_pixel, graphics_draw_rectangle, clear_cells, graphics_clear_screen,
}
use ea_x.Kernel.Screen.{Screen, cell, fill_cells, screen_clear}

-- A rectangle that has a pixel and does not reach 2^32 is accepted just when its last pixel is, and then
-- every pixel of it is.
draw_rectangle-pixel :
    (g : GraphicsContext) (x y width height color i j : ℕ)
    → x + width < 2 ^ 32
    → y + height < 2 ^ 32
    → i < width
    → j < height
    → let rectangle = graphics_draw_rectangle g x y width height color in
      (rectangle ≡ graphics_draw_pixel g (x + (width - 1)) (y + (height - 1)) color)
      × (rectangle ≤ graphics_draw_pixel g (x + i) (y + j) color)
unfolding graphics_draw_rectangle graphics_draw_pixel
draw_rectangle-pixel g x y width height color i j hx hy hi hj = (ground arith, ground arith)

clear_cells-fill_cells :
    (rounds : ℕ) (video_mem : Array ℕ) (color i : ℕ)
    → color < 2 ^ 24
    → clear_cells video_mem color i rounds ≡ fill_cells video_mem (cell color b' ') i rounds
unfolding clear_cells fill_cells
clear_cells-fill_cells zero video_mem color i h = refl
clear_cells-fill_cells (suc rounds) video_mem color i h =
    let same : u32 (color * 2 ^ 8) ≡ color * 2 ^ 8 = omega arith in
    rw same (clear_cells-fill_cells rounds (update video_mem i (cell color b' ')) color (suc i) h)

-- `graphics_clear_screen` leaves the text screen as the `screen_clear` of the kernel does on a screen of 80
-- columns and 25 rows with that color, if the color is below 2^24.
clear_screen-screen_clear :
    (s : Screen)
    → s.screen_color < 2 ^ 24
    → graphics_clear_screen s.video_memory s.screen_color ≡ (screen_clear 80 25 s).video_memory
unfolding graphics_clear_screen screen_clear
clear_screen-screen_clear s h = clear_cells-fill_cells 2000 s.video_memory s.screen_color 0 h
