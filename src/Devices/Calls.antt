-- ===== src/Devices/Calls.antt =====
-- devices.c: the operations that go through a device's handler.
use ea_x.Prelude.{ℕ, none, some, List, [], ◌∷◌, ◌==◌, if◌then◌else◌}
use ea_x.Devices.{DeviceManager, device_slot}

-- A handler is called as the last thing that the operation does: the reply is then the call, with the
-- handler's address and its arguments, where a buffer is its address.
pub data Reply : Type 0 where
  returned : (value : ℕ) → Reply
  called : (handler : ℕ) (arguments : List ℕ) → Reply

-- The handler's call, or the value that stands in for it.
abbrev pub ask : ℕ → ℕ → List ℕ → Reply
ask handler default arguments = if handler == 0 then returned default else called handler arguments

unfoldable pub device_open : DeviceManager → ℕ → Reply
device_open d id = elim (device_slot d id) [
  | none ↦ returned 0
  | some i ↦ ask (d.devices i).device_open 1 (id ∷ [])
]

unfoldable pub device_close : DeviceManager → ℕ → Reply
device_close d id = elim (device_slot d id) [
  | none ↦ returned 0
  | some i ↦ ask (d.devices i).device_close 1 (id ∷ [])
]

unfoldable pub device_read : DeviceManager → ℕ → ℕ → ℕ → Reply
device_read d id buffer size = elim (device_slot d id) [
  | none ↦ returned 0
  | some i ↦ ask (d.devices i).device_read 0 (id ∷ buffer ∷ size ∷ [])
]

unfoldable pub device_write : DeviceManager → ℕ → ℕ → ℕ → Reply
device_write d id buffer size = elim (device_slot d id) [
  | none ↦ returned 0
  | some i ↦ ask (d.devices i).device_write size (id ∷ buffer ∷ size ∷ [])
]

unfoldable pub device_ioctl : DeviceManager → ℕ → ℕ → ℕ → Reply
device_ioctl d id cmd arg = elim (device_slot d id) [
  | none ↦ returned 0
  | some i ↦ ask (d.devices i).device_ioctl 0 (id ∷ cmd ∷ arg ∷ [])
]
