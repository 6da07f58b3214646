-- ===== src/Devices/Found.antt =====
-- What `device_get_info` finds after each call.
use ea_x.Prelude.{ℕ, ◌&&◌, Option, none, some, List, [], ◌∷◌, ltb, ◌==◌, if◌then◌else◌}
use ea_x.Devices.{
  Device, DeviceManager, max_devices, fresh_device, initialized_device, enabled, disabled,
  with_handlers,
}
use ea_x.Devices.Run.{Op, register, unregister, initialize, enable, disable, set_handler, step}

-- A device that is found is changed.
unfoldable pub change : (Device → Device) → Option Device → Option Device
change f none = none
change f (some dev) = some (f dev)

-- What is found under the id `q` after a call, from what was found before.
unfoldable pub found : DeviceManager → Op → (q : ℕ) → Option Device → Option Device
found d (register name device_type major minor) q dev =
    if ltb d.device_count max_devices && (q == d.next_device_id)
    then some
        (fresh_device (d.devices d.device_count) d.next_device_id name device_type major minor)
    else dev
found d (unregister id) q dev = if q == id then none else dev
found d (initialize id) q dev = if q == id then change initialized_device dev else dev
found d (enable id) q dev = if q == id then change enabled dev else dev
found d (disable id) q dev = if q == id then change disabled dev else dev
found d (set_handler id o c r w) q dev = if q == id then change (with_handlers o c r w) dev else dev

-- What is found under `q` after the calls.
unfoldable pub found_all : DeviceManager → List Op → (q : ℕ) → Option Device → Option Device
found_all d [] q dev = dev
found_all d (op ∷ ops) q dev = found_all (step d op) ops q (found d op q dev)
