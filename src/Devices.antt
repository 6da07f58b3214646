-- ===== src/Devices.antt =====
-- devices.c: the table of devices, kept without gaps.
--
-- A handler is code outside this file, known by its address, and NULL is 0. Devices/Calls has the
-- operations that go through a handler, Devices/Queries those that only read the table.
pub mod Calls
pub mod Queries
pub mod Run
pub mod Refine
pub mod Ascending
pub mod Ids
pub mod Found
pub mod Reuse
mod Tests
use ea_x.Prelude.{
  ℕ, zero, suc, ◌+◌, ◌-◌, Bool, Option, none, some, Array, update, u32, leb, ltb, ◌==◌,
  if◌then◌else◌, copy_string,
}
use ea_x.Prelude.Search.{find}

abbrev pub max_devices : ℕ
max_devices = 256

pub record Device : Type 0 where
  pub device_id : ℕ
  pub device_type : ℕ
  pub major_number : ℕ
  pub minor_number : ℕ
  pub device_name : Array ℕ
  pub device_path : Array ℕ
  pub status : ℕ
  pub initialized : ℕ
  pub device_data : ℕ
  pub device_open : ℕ
  pub device_close : ℕ
  pub device_read : ℕ
  pub device_write : ℕ
  pub device_ioctl : ℕ

pub record DeviceManager : Type 0 where
  pub devices : Array Device
  pub device_count : ℕ
  pub next_device_id : ℕ

unfoldable pub device_manager_init : DeviceManager → DeviceManager
device_manager_init d = record d { device_count = 0; next_device_id = 1 }

-- A NULL name is `none`: the buffer then gets an empty name.
abbrev pub copy_name : Option (Array ℕ) → Array ℕ → Array ℕ
copy_name none dst = update dst 0 0
copy_name (some name) dst = copy_string 128 name dst

-- The record that `device_register` leaves in a slot. What it does not assign stays as it was, the
-- handlers too.
abbrev pub fresh_device : Device → ℕ → Option (Array ℕ) → ℕ → ℕ → ℕ → Device
fresh_device old id name device_type major minor = record old {
  device_id = id;
  device_type = device_type;
  major_number = major;
  minor_number = minor;
  status = 0;
  initialized = 0;
  device_data = 0;
  device_name = copy_name name old.device_name;
}

unfoldable pub device_register : DeviceManager → Option (Array ℕ) → ℕ → ℕ → ℕ → ℕ × DeviceManager
device_register d name device_type major minor =
    if leb max_devices d.device_count then (0, d) else (
      d.next_device_id,
      record {
        devices =
            update d.devices d.device_count (
              fresh_device (d.devices d.device_count) d.next_device_id name device_type major
                minor);
        device_count = u32 (d.device_count + 1);
        next_device_id = u32 (d.next_device_id + 1);
      },
    )

-- `for (i = 0; i < device_count; i++) if (devices[i].device_id == device_id)`
unfoldable pub device_slot : DeviceManager → ℕ → Option ℕ
device_slot d id = find (λ i. (d.devices i).device_id == id) d.device_count

-- `for (j = from; j < from + rounds; j++) devices[j] = devices[j + 1];`
unfoldable pub shift : Array Device → ℕ → ℕ → Array Device
shift devices zero j = devices
shift devices (suc rounds) j = shift (update devices j (devices (suc j))) rounds (suc j)

-- The search has found a device, so that `device_count - 1` does not wrap.
unfoldable pub device_unregister : DeviceManager → ℕ → ℕ × DeviceManager
unfolding shift
device_unregister d id = elim (device_slot d id) [
  | none ↦ (0, d)
  | some i ↦ (
    1,
    record d {
      devices = shift d.devices (d.device_count - 1 - i) i;
      device_count = d.device_count - 1;
    },
  )
]

-- The loops that change the device with an id and return 1, or 0 without one.
unfoldable pub change_device : DeviceManager → ℕ → (Device → Device) → ℕ × DeviceManager
change_device d id f = elim (device_slot d id) [
  | none ↦ (0, d)
  | some i ↦ (1, record d { devices = update d.devices i (f (d.devices i)) })
]

abbrev pub initialized_device : Device → Device
initialized_device dev = record dev { initialized = 1; status = 1 }

abbrev pub enabled : Device → Device
enabled dev = record dev { status = 1 }

abbrev pub disabled : Device → Device
disabled dev = record dev { status = 0 }

abbrev pub with_handlers : ℕ → ℕ → ℕ → ℕ → Device → Device
with_handlers open_handler close_handler read_handler write_handler dev = record dev {
  device_open = open_handler;
  device_close = close_handler;
  device_read = read_handler;
  device_write = write_handler;
}

unfoldable pub device_initialize : DeviceManager → ℕ → ℕ × DeviceManager
unfolding change_device
device_initialize d id = change_device d id initialized_device

unfoldable pub device_enable : DeviceManager → ℕ → ℕ × DeviceManager
unfolding change_device
device_enable d id = change_device d id enabled

unfoldable pub device_disable : DeviceManager → ℕ → ℕ × DeviceManager
unfolding change_device
device_disable d id = change_device d id disabled

unfoldable pub device_set_handler : DeviceManager → ℕ → ℕ → ℕ → ℕ → ℕ → ℕ × DeviceManager
unfolding change_device
device_set_handler d id open_handler close_handler read_handler write_handler =
    change_device d id (with_handlers open_handler close_handler read_handler write_handler)
