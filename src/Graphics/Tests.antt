-- ===== src/Graphics/Tests.antt =====
-- graphics.c at concrete inputs.
use ea_x.Prelude.{ℕ, ◌≡◌, refl, List, [], ◌∷◌, Array, arith}
use ea_x.Graphics.{graphics_init, graphics_draw_line, graphics_get_mode, graphics_get_vram_info}
use ea_x.Graphics.Vram.{
  Op, set_mode, enable_vsync, disable_vsync, load_texture, unload_texture, run, IsConsistent,
  init-IsConsistent, run-IsConsistent,
}

abbrev calls : List Op
calls =
    set_mode 800 600 24
    ∷ set_mode 320 200 8
    ∷ disable_vsync
    ∷ load_texture 7 0 4096
    ∷ unload_texture 7
    ∷ enable_vsync
    ∷ []

run-IsConsistent_example : IsConsistent (run graphics_init calls)
run-IsConsistent_example = run-IsConsistent calls graphics_init (omega arith) init-IsConsistent

abbrev zeros : Array ℕ
zeros i = 0

reports :
    ((graphics_get_mode 28 graphics_init).1.pitch ≡ 7680)
    × ((graphics_get_vram_info graphics_init zeros).1 1 ≡ 10485760)
    × (graphics_draw_line 0 0 5 5 1 ≡ 1)
unfolding graphics_init graphics_get_mode graphics_get_vram_info
reports = (refl, refl, refl)
