-- ===== src/Devices/Queries.antt =====
-- devices.c: the operations that read the table.
use ea_x.Prelude.{
  ℕ, zero, suc, ◌+◌, Bool, true, false, Option, none, some, Array, update, ltb, ◌==◌, if◌then◌else◌,
}
use ea_x.Prelude.Search.{find}
use ea_x.Devices.{Device, DeviceManager, device_slot}

-- The copy that `device_get_info` writes to its buffer; `none` is the return value 0.
unfoldable pub device_get_info : DeviceManager → ℕ → Option Device
device_get_info d id = elim (device_slot d id) [ none ↦ none | some i ↦ some (d.devices i) ]

-- `for (i = from; i < from + rounds && i < max_count; i++) { list[i] = devices[i]; count++; }`
unfoldable pub copy_devices : Array Device → ℕ → ℕ → ℕ → Array Device → ℕ → ℕ × Array Device
copy_devices devices zero i max_count list count = (count, list)
copy_devices devices (suc rounds) i max_count list count = elim (ltb i max_count) [
  | true ↦ copy_devices devices rounds (suc i) max_count (update list i (devices i)) (count + 1)
  | false ↦ (count, list)
]

-- The count returned, and the buffer after the call.
unfoldable pub device_list : DeviceManager → Array Device → ℕ → ℕ × Array Device
unfolding copy_devices
device_list d list max_count = copy_devices d.devices d.device_count 0 max_count list 0

unfoldable pub get_device_count : DeviceManager → ℕ
get_device_count d = d.device_count

-- The id of the first device that passes a test, or 0.
abbrev pub first_id : DeviceManager → (Device → Bool) → ℕ
first_id d p = elim (find (λ i. p (d.devices i)) d.device_count) [
  | none ↦ 0
  | some i ↦ (d.devices i).device_id
]

unfoldable pub find_device_by_type : DeviceManager → ℕ → ℕ
find_device_by_type d device_type = first_id d (λ dev. dev.device_type == device_type)

unfoldable pub find_device_by_major : DeviceManager → ℕ → ℕ
find_device_by_major d major = first_id d (λ dev. dev.major_number == major)

-- The inner loop of `find_device_by_name`, `rounds` characters from character `j` on.
unfoldable pub matches : ℕ → ℕ → Array ℕ → Array ℕ → Bool
matches zero j name wanted = true
matches (suc rounds) j name wanted =
    let rest = matches rounds (suc j) name wanted in
    if name j == wanted j then (if wanted j == 0 then true else rest) else false

unfoldable pub find_device_by_name : DeviceManager → Array ℕ → ℕ
unfolding matches
find_device_by_name d name = first_id d (λ dev. matches 128 0 dev.device_name name)
