-- ===== src/Devices/Tests.antt =====
-- devices.c at concrete inputs.
use ea_x.Prelude.{ℕ, ◌≡◌, refl, none, Array, update}
use ea_x.Prelude.Search.{find}
use ea_x.Devices.{Device, DeviceManager, device_manager_init}
use ea_x.Devices.Queries.{find_device_by_name}
use ea_x.Devices.Run.{register, step}
use ea_x.Devices.Refine.{list_of, listed, step-listed}

abbrev zeros : Array ℕ
zeros i = 0

abbrev no_device : Device
no_device = record {
  device_id = 0;
  device_type = 0;
  major_number = 0;
  minor_number = 0;
  device_name = zeros;
  device_path = zeros;
  status = 0;
  initialized = 0;
  device_data = 0;
  device_open = 0;
  device_close = 0;
  device_read = 0;
  device_write = 0;
  device_ioctl = 0;
}

-- The static variable before any call.
abbrev zeroed : DeviceManager
zeroed = record { devices = λ i. no_device; device_count = 0; next_device_id = 0 }

abbrev booted : DeviceManager
booted = device_manager_init zeroed

step-listed_example :
    list_of (step booted (register none 1 2 3))
    ≡ listed booted (register none 1 2 3) (list_of booted)
step-listed_example = step-listed booted (register none 1 2 3)

-- Two devices, of which the second has an open handler at 4096.
abbrev pair : DeviceManager
pair = record {
  devices =
      update (update zeroed.devices 0 (record no_device { device_id = 1 })) 1
        (record no_device { device_id = 2; device_open = 4096 });
  device_count = 2;
  next_device_id = 3;
}

-- A search by the empty name finds the first device, whose name is empty.
by_name : find_device_by_name pair zeros ≡ 1
unfolding find_device_by_name find
by_name = refl
