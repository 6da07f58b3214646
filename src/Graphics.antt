-- ===== src/Graphics.antt =====
-- graphics.c: the graphics mode, the text screen and the video memory.
--
-- The cells of the text screen are counted from 0xB8000. The size of a graphics_mode_t is a parameter,
-- `mode_bytes`.
pub mod Mode
pub mod Vram
mod Tests
use ea_x.Prelude.{
  ℕ, zero, suc, ◌+◌, ◌*◌, ◌/◌, ◌^◌, ◌==◌, ◌&&◌, ◌||◌, not, Array, update, u16, u32, sub32, leb, ltb,
  if◌then◌else◌, bit_or,
}

pub record GraphicsMode : Type 0 where
  pub width : ℕ
  pub height : ℕ
  pub bpp : ℕ
  pub pitch : ℕ
  pub framebuffer_addr : ℕ
  pub vsync_enabled : ℕ
  pub refresh_rate : ℕ

pub record GraphicsContext : Type 0 where
  pub current_mode : GraphicsMode
  pub available_modes_count : ℕ
  pub gpu_vendor : ℕ
  pub vram_size : ℕ
  pub vram_used : ℕ
  pub texture_cache_size : ℕ
  pub hardware_acceleration : ℕ

-- Every field is assigned.
unfoldable pub graphics_init : GraphicsContext
graphics_init = record {
  current_mode = record {
    width = 1920;
    height = 1080;
    bpp = 32;
    pitch = 1920 * 4;
    framebuffer_addr = 0xA0000;
    vsync_enabled = 1;
    refresh_rate = 60;
  };
  gpu_vendor = 0xEA;
  vram_size = 167772160;
  vram_used = 10485760;
  texture_cache_size = 52428800;
  hardware_acceleration = 1;
  available_modes_count = 12;
}

-- What each function returns, and the new state.
unfoldable pub graphics_set_mode : GraphicsContext → (width height bpp : ℕ) → ℕ × GraphicsContext
graphics_set_mode g width height bpp =
    if ltb width 640 || ltb height 480
    then (0, g)
    else if not (bpp == 8) && not (bpp == 16) && not (bpp == 24) && not (bpp == 32)
    then (0, g)
    else (
      1,
      record g {
        current_mode = record g.current_mode {
          width = width;
          height = height;
          bpp = bpp;
          pitch = u32 (width * (bpp / 8));
        };
      },
    )

unfoldable pub graphics_get_mode : ℕ → GraphicsContext → ℕ × GraphicsMode
graphics_get_mode mode_bytes g = (mode_bytes, g.current_mode)

-- `for (i = from; i < from + rounds; i++) video_mem[i] = (color << 8) | ' ';`
unfoldable pub clear_cells : Array ℕ → (color i rounds : ℕ) → Array ℕ
clear_cells video_mem color i zero = video_mem
clear_cells video_mem color i (suc rounds) =
    clear_cells (update video_mem i (u16 (bit_or (u32 (color * 2 ^ 8)) b' '))) color (suc i) rounds

unfoldable pub graphics_clear_screen : Array ℕ → (color : ℕ) → Array ℕ
unfolding clear_cells
graphics_clear_screen video_mem color = clear_cells video_mem color 0 (80 * 25)

unfoldable pub graphics_draw_pixel : GraphicsContext → (x y color : ℕ) → ℕ
graphics_draw_pixel g x y color =
    if leb g.current_mode.width x || leb g.current_mode.height y then 0 else 1

unfoldable pub graphics_draw_rectangle : GraphicsContext → (x y width height color : ℕ) → ℕ
graphics_draw_rectangle g x y width height color =
    if ltb g.current_mode.width (u32 (x + width)) || ltb g.current_mode.height (u32 (y + height))
    then 0
    else 1

abbrev pub graphics_draw_line : (x1 y1 x2 y2 color : ℕ) → ℕ
graphics_draw_line x1 y1 x2 y2 color = 1

abbrev pub set_vsync : GraphicsContext → ℕ → GraphicsContext
set_vsync g enabled = record g { current_mode = record g.current_mode { vsync_enabled = enabled } }

unfoldable pub graphics_enable_vsync : GraphicsContext → GraphicsContext
graphics_enable_vsync g = set_vsync g 1

unfoldable pub graphics_disable_vsync : GraphicsContext → GraphicsContext
graphics_disable_vsync g = set_vsync g 0

-- The four words that are stored at `info`.
unfoldable pub graphics_get_vram_info : GraphicsContext → Array ℕ → ℕ × Array ℕ
graphics_get_vram_info g info = (
  16,
  update (update (update (update info 0 g.vram_size) 1 g.vram_used) 2 g.texture_cache_size) 3
      g.hardware_acceleration,
)

-- The data are not looked at.
unfoldable pub graphics_load_texture :
    GraphicsContext → (texture_id data_ptr size : ℕ) → ℕ × GraphicsContext
graphics_load_texture g texture_id data_ptr size =
    if ltb g.vram_size (u32 (g.vram_used + size))
    then (0, g)
    else (texture_id, record g { vram_used = u32 (g.vram_used + size) })

unfoldable pub graphics_unload_texture : GraphicsContext → (texture_id : ℕ) → GraphicsContext
graphics_unload_texture g texture_id =
    if g.vram_used == 0 then g else record g { vram_used = sub32 g.vram_used 1024 }
