-- ===== src/Graphics/Vram.antt =====
-- graphics.c: the state after any calls.
use ea_x.Prelude.{ℕ, ◌*◌, ◌/◌, ◌%◌, ◌≤◌, ◌<◌, ◌^◌, ◌≡◌, refl, ◌⊎◌, inr, List, [], ◌∷◌, u32, arith}
use ea_x.Graphics.{
  GraphicsContext, graphics_init, graphics_set_mode, graphics_enable_vsync, graphics_disable_vsync,
  graphics_load_texture, graphics_unload_texture,
}

pub data Op : Type 0 where
  set_mode : (width height bpp : ℕ) → Op
  enable_vsync disable_vsync : Op
  load_texture : (texture_id data_ptr size : ℕ) → Op
  unload_texture : (texture_id : ℕ) → Op

unfoldable pub step : GraphicsContext → Op → GraphicsContext
step g (set_mode width height bpp) = (graphics_set_mode g width height bpp).1
step g enable_vsync = graphics_enable_vsync g
step g disable_vsync = graphics_disable_vsync g
step g (load_texture texture_id data_ptr size) =
    (graphics_load_texture g texture_id data_ptr size).1
step g (unload_texture texture_id) = graphics_unload_texture g texture_id

unfoldable pub run : GraphicsContext → List Op → GraphicsContext
run g [] = g
run g (op ∷ ops) = run (step g op) ops

-- The mode is one that can be set, and its pitch fits the width. The memory in use is whole units of 1024
-- bytes, and not more than there is.
pub record IsConsistent (g : GraphicsContext) : Type 0 where
  pub width : 640 ≤ g.current_mode.width
  pub height : 480 ≤ g.current_mode.height
  pub bpp :
      (g.current_mode.bpp ≡ 8)
      ⊎ (g.current_mode.bpp ≡ 16)
      ⊎ (g.current_mode.bpp ≡ 24)
      ⊎ (g.current_mode.bpp ≡ 32)
  pub pitch : g.current_mode.pitch ≡ u32 (g.current_mode.width * (g.current_mode.bpp / 8))
  pub used : g.vram_used ≤ g.vram_size
  pub units : g.vram_used % 1024 ≡ 0
  pub size : g.vram_size < 2 ^ 31

-- A texture is whole units, and less than 2 GB.
abbrev pub InUnits : Op → Type 0
InUnits (load_texture texture_id data_ptr size) = (size % 1024 ≡ 0) × (size < 2 ^ 31)
InUnits _ = Unit {0}

abbrev pub AllInUnits : List Op → Type 0
AllInUnits [] = Unit {0}
AllInUnits (op ∷ ops) = InUnits op × AllInUnits ops

step-IsConsistent :
    (op : Op) (g : GraphicsContext) → InUnits op → IsConsistent g → IsConsistent (step g op)
unfolding step graphics_set_mode graphics_enable_vsync graphics_disable_vsync graphics_load_texture
    graphics_unload_texture
step-IsConsistent (set_mode width height bpp) g u v = record {
  width = ground (arith, v.width);
  height = ground (arith, v.height);
  bpp = ground (arith, v.bpp);
  pitch = ground (arith, v.pitch);
  used = ground (arith, v.used);
  units = ground (arith, v.units);
  size = ground (arith, v.size);
}
step-IsConsistent enable_vsync g u v = record {
  width = v.width;
  height = v.height;
  bpp = v.bpp;
  pitch = v.pitch;
  used = v.used;
  units = v.units;
  size = v.size;
}
step-IsConsistent disable_vsync g u v = record {
  width = v.width;
  height = v.height;
  bpp = v.bpp;
  pitch = v.pitch;
  used = v.used;
  units = v.units;
  size = v.size;
}
step-IsConsistent (load_texture texture_id data_ptr size) g u v = record {
  width = ground (arith, v.width);
  height = ground (arith, v.height);
  bpp = ground (arith, v.bpp);
  pitch = ground (arith, v.pitch);
  used = ground (arith, v.used);
  units = ground (arith, v.units, v.used, v.size);
  size = ground (arith, v.size);
}
step-IsConsistent (unload_texture texture_id) g u v = record {
  width = ground (arith, v.width);
  height = ground (arith, v.height);
  bpp = ground (arith, v.bpp);
  pitch = ground (arith, v.pitch);
  used = ground (arith, v.used, v.units, v.size);
  units = ground (arith, v.units, v.used, v.size);
  size = ground (arith, v.size);
}

pub init-IsConsistent : IsConsistent graphics_init
unfolding graphics_init
init-IsConsistent = record {
  width = omega arith;
  height = omega arith;
  bpp = inr (inr (inr refl));
  pitch = refl;
  used = omega arith;
  units = refl;
  size = omega arith;
}

-- Whatever modes are asked for, the mode stays one that can be set, with the pitch of its width; and if every
-- texture is whole units of 1024 bytes and less than 2 GB, the video memory in use stays whole units, and not
-- more than there is, though `graphics_unload_texture` takes back 1024 bytes whatever the texture had.
pub run-IsConsistent :
    (ops : List Op) (g : GraphicsContext)
    → AllInUnits ops
    → IsConsistent g
    → IsConsistent (run g ops)
unfolding run
run-IsConsistent [] g u v = v
run-IsConsistent (op ∷ ops) g (unit, u) v =
    run-IsConsistent ops (step g op) u (step-IsConsistent op g unit v)
