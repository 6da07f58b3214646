-- ===== src/Devices/Refine.antt =====
-- The table of devices as a list: registration appends, the other operations search from the front.
use ea_x.Prelude.{
  ℕ, zero, suc, ◌+◌, ◌-◌, ◌<◌, ◌≡◌, refl, sym, ◌∙◌, ap, inl, inr, Bool, ◌&&◌, true, false, Option,
  none, some, List, [], ◌∷◌, ◌++◌, Array, update, length, u32, leb, ltb, ◌==◌, if◌then◌else◌, arith,
  Option-cases, Bool-cases,
}
use ea_x.Prelude.Search.{find-lt, find-before}
use ea_x.Prelude.Table.{
  entries, first, remove_first, update_first, at, first-find, entries-append, entries-remove,
  entries-update, length-entries,
}
use ea_x.Devices.Queries.{device_get_info}
use ea_x.Devices.Run.{Op, register, unregister, initialize, enable, disable, set_handler, step}
use ea_x.Devices.{
  Device, DeviceManager, device_slot, device_register, device_unregister, change_device, shift,
  max_devices, fresh_device, device_initialize, device_enable, device_disable, device_set_handler,
  initialized_device, enabled, disabled, with_handlers,
}

-- The devices in use, in their order.
abbrev pub list_of : DeviceManager → List Device
list_of d = entries d.devices 0 d.device_count

abbrev pub has_id : ℕ → Device → Bool
has_id id dev = dev.device_id == id

pub shift-at :
    (rounds j : ℕ) (devices : Array Device) (k : ℕ)
    → shift devices rounds j k
      ≡ (if leb j k && ltb k (j + rounds) then devices (suc k) else devices k)
unfolding shift
shift-at zero j devices k = ground arith
shift-at (suc rounds) j devices k =
    ground (arith, shift-at rounds (suc j) (update devices j (devices (suc j))) k)

-- Without a device that passes, there is none to remove or to change.
remove_first-none :
    (p : Device → Bool) (xs : List Device) → first p xs ≡ none → remove_first p xs ≡ xs
unfolding first remove_first
remove_first-none p [] e = refl
remove_first-none p (x ∷ xs) e = ground (arith, remove_first-none p xs)

update_first-none :
    (p : Device → Bool) (f : Device → Device) (xs : List Device)
    → first p xs ≡ none
    → update_first p f xs ≡ xs
unfolding first update_first
update_first-none p f [] e = refl
update_first-none p f (x ∷ xs) e = ground (arith, update_first-none p f xs)

pub slot-first :
    (d : DeviceManager) (id : ℕ) → at d.devices (device_slot d id) ≡ first (has_id id) (list_of d)
unfolding device_slot
slot-first d id = first-find (has_id id) d.devices d.device_count

module _ (d : DeviceManager) (id i : ℕ) (e : device_slot d id ≡ some i) where
  slot_lem : (i < d.device_count) × (has_id id (d.devices i) ≡ true)
  unfolding device_slot
  slot_lem = find-lt (λ j. has_id id (d.devices j)) d.device_count e

  slot-before : (j : ℕ) → j < i → has_id id (d.devices j) ≡ false
  unfolding device_slot
  slot-before = find-before (λ j. has_id id (d.devices j)) d.device_count e

  list-update :
      (f : Device → Device)
      → entries (update d.devices i (f (d.devices i))) 0 d.device_count
        ≡ update_first (has_id id) f (list_of d)
  list-update f =
      entries-update (has_id id) f d.device_count 0 i d.devices (omega arith)
        (omega (arith, slot_lem.0)) slot_lem.1 (λ j lo. slot-before j)

  list-remove :
      entries (shift d.devices (d.device_count - 1 - i) i) 0 (d.device_count - 1)
      ≡ remove_first (has_id id) (list_of d)
  list-remove =
      let count : suc (d.device_count - 1) ≡ d.device_count = omega (arith, slot_lem.0) in
      let moved = shift-at (d.device_count - 1 - i) i d.devices in
      rw
        (
          entries-remove (has_id id) (d.device_count - 1) 0 i d.devices
              (shift d.devices (d.device_count - 1 - i) i) (omega arith) (omega (arith, slot_lem.0))
              slot_lem.1 (λ j lo. slot-before j) (λ j lt. ground (arith, moved j))
              (λ j lo hi. ground (arith, moved j)),
          count,
        )
        refl

change-list :
    (d : DeviceManager) (id : ℕ) (f : Device → Device)
    → list_of (change_device d id f).1 ≡ update_first (has_id id) f (list_of d)
unfolding change_device
change-list d id f = elim (Option-cases (device_slot d id)) [
  | inl e ↦
      rw (e, change_device)
        (sym (
          update_first-none (has_id id) f (list_of d)
            (sym (slot-first d id) ∙ ap (at d.devices) e)))
  | inr (i, e) ↦ rw (e, change_device) (list-update d id i e f)
]

unregister-list :
    (d : DeviceManager) (id : ℕ)
    → list_of (device_unregister d id).1 ≡ remove_first (has_id id) (list_of d)
unfolding device_unregister
unregister-list d id = elim (Option-cases (device_slot d id)) [
  | inl e ↦
      rw (e, device_unregister)
        (sym
          (remove_first-none (has_id id) (list_of d) (sym (slot-first d id) ∙ ap (at d.devices) e)))
  | inr (i, e) ↦ rw (e, device_unregister) (list-remove d id i e)
]

register-list :
    (d : DeviceManager) (name : Option (Array ℕ)) (device_type major minor : ℕ)
    → list_of (device_register d name device_type major minor).1 ≡ (
        if leb max_devices d.device_count
        then list_of d
        else list_of d
          ++ fresh_device (d.devices d.device_count) d.next_device_id name device_type major minor
            ∷ [])
unfolding device_register
register-list d name device_type major minor = elim (Bool-cases (leb max_devices d.device_count)) [
  | inl full ↦ rw full refl
  | inr room ↦
      let next : u32 (d.device_count + 1) ≡ suc d.device_count = ground arith in
      rw (room, next) (entries-append d.devices d.device_count _)
]

-- What each call does to the list of devices.
unfoldable pub listed : DeviceManager → Op → List Device → List Device
listed d (register name device_type major minor) xs =
    if leb max_devices (length xs)
    then xs
    else xs
      ++ fresh_device (d.devices d.device_count) d.next_device_id name device_type major minor ∷ []
listed d (unregister id) xs = remove_first (has_id id) xs
listed d (initialize id) xs = update_first (has_id id) initialized_device xs
listed d (enable id) xs = update_first (has_id id) enabled xs
listed d (disable id) xs = update_first (has_id id) disabled xs
listed d (set_handler id open_handler close_handler read_handler write_handler) xs =
    update_first (has_id id) (with_handlers open_handler close_handler read_handler write_handler)
      xs

-- The array and its count implement a list. A registration appends the new device, unless there are
-- 256; to unregister a device is to remove the first with the id, by the loop that moves the ones
-- behind it up; and the other calls change the first device with the id in place.
pub step-listed : (d : DeviceManager) (op : Op) → list_of (step d op) ≡ listed d op (list_of d)
unfolding step listed device_initialize device_enable device_disable device_set_handler
step-listed d (register name device_type major minor) =
    rw (length-entries d.devices d.device_count 0) (register-list d name device_type major minor)
step-listed d (unregister id) = unregister-list d id
step-listed d (initialize id) = change-list d id initialized_device
step-listed d (enable id) = change-list d id enabled
step-listed d (disable id) = change-list d id disabled
step-listed d (set_handler id open_handler close_handler read_handler write_handler) =
    change-list d id (with_handlers open_handler close_handler read_handler write_handler)

-- The copy that `device_get_info` makes is that of the first device with the id.
pub device_get_info-first :
    (d : DeviceManager) (id : ℕ) → device_get_info d id ≡ first (has_id id) (list_of d)
unfolding device_get_info
device_get_info-first d id = elim (Option-cases (device_slot d id)) [
  | inl e ↦ rw (e, device_get_info) (sym (ap (at d.devices) e) ∙ slot-first d id)
  | inr (i, e) ↦ rw (e, device_get_info) (sym (ap (at d.devices) e) ∙ slot-first d id)
]
