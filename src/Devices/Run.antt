-- ===== src/Devices/Run.antt =====
-- Sequences of calls of devices.c.
use ea_x.Prelude.{ℕ, Option, List, [], ◌∷◌, Array}
use ea_x.Devices.{
  DeviceManager, device_register, device_unregister, device_initialize, device_enable,
  device_disable, device_set_handler,
}

-- The calls that change the table, with their arguments.
pub data Op : Type 0 where
  register : (name : Option (Array ℕ)) (device_type major minor : ℕ) → Op
  unregister : (device_id : ℕ) → Op
  initialize : (device_id : ℕ) → Op
  enable : (device_id : ℕ) → Op
  disable : (device_id : ℕ) → Op
  set_handler : (device_id open_handler close_handler read_handler write_handler : ℕ) → Op

unfoldable pub step : DeviceManager → Op → DeviceManager
step d (register name device_type major minor) = (device_register d name device_type major minor).1
step d (unregister id) = (device_unregister d id).1
step d (initialize id) = (device_initialize d id).1
step d (enable id) = (device_enable d id).1
step d (disable id) = (device_disable d id).1
step d (set_handler id open_handler close_handler read_handler write_handler) =
    (device_set_handler d id open_handler close_handler read_handler write_handler).1

unfoldable pub run : DeviceManager → List Op → DeviceManager
unfolding step
run d [] = d
run d (op ∷ ops) = run (step d op) ops
