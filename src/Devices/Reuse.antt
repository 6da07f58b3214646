-- ===== src/Devices/Reuse.antt =====
-- What a new device inherits from its slot, and the copy of the table.
use Prim.Native.Nat.{min}
use ea_x.Prelude.{
  ℕ, zero, suc, ◌+◌, ◌-◌, ◌^◌, ◌<◌, ◌≡◌, refl, ◌∙◌, ap, inl, inr, ◌&&◌, Option, some, [], ◌∷◌,
  Array, update, leb, ltb, if◌then◌else◌, arith, Option-cases,
}
use ea_x.Prelude.Search.{find-all}
use ea_x.Devices.{
  Device, DeviceManager, device_slot, device_register, device_unregister, max_devices, shift,
}
use ea_x.Devices.Queries.{device_get_info, device_list, copy_devices}
use ea_x.Devices.Calls.{ask, device_open}
use ea_x.Devices.Run.{unregister, step}
use ea_x.Devices.Refine.{has_id, shift-at}
use ea_x.Devices.Ids.{IsNumbered, step-IsNumbered, device_get_info-register, added}

open-info :
    (d : DeviceManager) (id : ℕ) {dev : Device}
    → device_get_info d id ≡ some dev
    → device_open d id ≡ ask dev.device_open 1 (id ∷ [])
unfolding device_get_info device_open
open-info d id e = ground arith

unregister-some :
    (d : DeviceManager) (id i : ℕ)
    → device_slot d id ≡ some i
    → device_unregister d id ≡ (
      1,
      record d {
        devices = shift d.devices (d.device_count - 1 - i) i;
        device_count = d.device_count - 1;
      },
    )
unfolding device_unregister
unregister-some d id i e = rw (e, device_unregister) refl

-- The last slot in use, when its device goes.
module _ (d : DeviceManager) (n : ℕ) (last : d.device_count ≡ suc n) where
  found : (i : ℕ) × (device_slot d (d.devices n).device_id ≡ some i)
  unfolding device_slot
  found = elim (Option-cases (device_slot d (d.devices n).device_id)) [
    | inl e ↦
        let miss =
          find-all (λ j. has_id (d.devices n).device_id (d.devices j)) d.device_count e n
            (omega arith) in
        ground arith
    | inr (i, e) ↦ (i, e)
  ]

  dropped_lem :
      ((device_unregister d (d.devices n).device_id).1.device_count ≡ n)
      × ((device_unregister d (d.devices n).device_id).1.devices n ≡ d.devices n)
  dropped_lem =
      let (i, e) = found in
      rw (unregister-some d (d.devices n).device_id i e)
        (omega arith, ground (arith, shift-at (d.device_count - 1 - i) i d.devices n))

-- A new device in the slot of one that is gone.
module _ (d : DeviceManager) (n : ℕ) (last : d.device_count ≡ suc n) (v : IsNumbered d)
    (few : d.next_device_id + 1 < 2 ^ 32) (name : Option (Array ℕ))
    (device_type major minor : ℕ) where
  -- Where the ids ascend and the next id does not wrap, when the last device is unregistered and a
  -- new one registered, opening the new one calls the open handler of the old: `device_register`
  -- does not clear the handlers.
  device_open-register :
      let old = d.devices n in
      let d1 = (device_unregister d old.device_id).1 in
      let (id, d2) = device_register d1 name device_type major minor in
      device_open d2 id ≡ ask old.device_open 1 (id ∷ [])
  unfolding step
  device_open-register =
      let id = (d.devices n).device_id in
      let d1 = (device_unregister d id).1 in
      let (count, same) = dropped_lem d n last in
      let valid : IsNumbered d1 = step-IsNumbered d (unregister id) few v in
      let room : d1.device_count < max_devices = omega (arith, count, v.count, last) in
      let new_device = added d1 name device_type major minor valid room in
      let (absent, info) = device_get_info-register d1 name device_type major minor valid room in
      let (id', d2) = device_register d1 name device_type major minor in
      let opened = open-info d2 id' {dev = new_device} (ground (arith, info id')) in
      let inherited : new_device.device_open ≡ (d.devices n).device_open =
        ap (λ j. (d1.devices j).device_open) count ∙ ap (λ (dev : Device). dev.device_open) same in
      rw inherited at opened

copy_devices-at :
    (devices : Array Device) (rounds i max_count : ℕ) (list : Array Device) (count : ℕ)
    → (copy_devices devices rounds i max_count list count).0 ≡ count + min rounds (max_count - i)
unfolding copy_devices
copy_devices-at devices zero i max_count list count = ground arith
copy_devices-at devices (suc rounds) i max_count list count = ground (
  arith,
  copy_devices-at devices rounds (suc i) max_count (update list i (devices i)) (count + 1),
)

copy_devices-list :
    (devices : Array Device) (rounds i max_count : ℕ) (list : Array Device) (count k : ℕ)
    → (copy_devices devices rounds i max_count list count).1 k
      ≡ (if leb i k && ltb k (i + min rounds (max_count - i)) then devices k else list k)
unfolding copy_devices
copy_devices-list devices zero i max_count list count k = ground arith
copy_devices-list devices (suc rounds) i max_count list count k = ground (
  arith,
  copy_devices-list devices rounds (suc i) max_count (update list i (devices i)) (count + 1) k,
)

-- `device_list` copies the first devices of the table, as many as there are and the buffer takes,
-- returns how many, and leaves the rest of the buffer as it was.
device_list_lem :
    (d : DeviceManager) (list : Array Device) (max_count : ℕ)
    → let (count, list') = device_list d list max_count in
      (count ≡ min d.device_count max_count)
      × ((k : ℕ) → list' k ≡ (if ltb k count then d.devices k else list k))
unfolding device_list
device_list_lem d list max_count = (
  omega (arith, copy_devices-at d.devices d.device_count 0 max_count list 0),
  λ k. ground (
    arith,
    copy_devices-at d.devices d.device_count 0 max_count list 0,
    copy_devices-list d.devices d.device_count 0 max_count list 0 k,
  ),
)
