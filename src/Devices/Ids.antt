-- ===== src/Devices/Ids.antt =====
-- The ids of the devices in the table, and what is found under them.
use ea_x.Prelude.{
  ℕ, suc, ◌+◌, ◌^◌, ◌≤◌, ◌<◌, ◌≡◌, refl, ◌∙◌, ap, inl, inr, false, Option, none, some, List, [],
  ◌∷◌, ◌++◌, Array, length, u32, leb, ◌==◌, if◌then◌else◌, arith, Bool-cases, Option-cases,
}
use ea_x.Prelude.Table.{entries, first, length-entries}
use ea_x.Devices.{
  Device, DeviceManager, device_manager_init, device_register, device_unregister, max_devices,
  fresh_device, initialized_device, enabled, disabled, with_handlers, change_device,
  device_initialize, device_enable, device_disable, device_set_handler,
}
use ea_x.Devices.Queries.{device_get_info}
use ea_x.Devices.Run.{Op, register, unregister, initialize, enable, disable, set_handler, step, run}
use ea_x.Devices.Refine.{list_of, has_id, listed, step-listed, device_get_info-first}
use ea_x.Devices.Ascending.{
  Ascending, Ascending-append, Ascending-remove, Ascending-update, first-above, first-remove,
  first-append, first-append_found,
}

-- At most 256 devices, with ids that ascend from 1 and stay below the next one.
pub record IsNumbered (d : DeviceManager) : Type 0 where
  pub count : d.device_count ≤ max_devices
  pub ids : Ascending 1 (list_of d) d.next_device_id

pub init-IsNumbered : (d : DeviceManager) → IsNumbered (device_manager_init d)
unfolding device_manager_init entries
init-IsNumbered d = record { count = omega arith; ids = omega arith }

-- The count after a call.
step-count :
    (d : DeviceManager) (op : Op)
    → d.device_count ≤ max_devices
    → (step d op).device_count ≤ max_devices
unfolding step device_register device_unregister change_device device_initialize device_enable
    device_disable device_set_handler
step-count d (register name device_type major minor) h = ground arith
step-count d (unregister id) h = ground arith
step-count d _ h = ground arith

-- Only a registration that is carried out moves the next id.
abbrev pub numbered : DeviceManager → Op → ℕ
numbered d (register name device_type major minor) =
    if leb max_devices d.device_count then d.next_device_id else u32 (d.next_device_id + 1)
numbered d _ = d.next_device_id

step-next : (d : DeviceManager) (op : Op) → (step d op).next_device_id ≡ numbered d op
unfolding step device_register device_unregister change_device device_initialize device_enable
    device_disable device_set_handler
step-next d (register name device_type major minor) = ground arith
step-next d (unregister id) = ground arith
step-next d _ = ground arith

listed-Ascending :
    (d : DeviceManager) (op : Op)
    → d.next_device_id + 1 < 2 ^ 32
    → Ascending 1 (list_of d) d.next_device_id
    → Ascending 1 (listed d op (list_of d)) (numbered d op)
unfolding listed
listed-Ascending d (register name device_type major minor) h v =
    rw (length-entries d.devices d.device_count 0)
      (elim (Bool-cases (leb max_devices d.device_count)) [
        | inl full ↦ rw full v
        | inr room ↦
            let next : u32 (d.next_device_id + 1) ≡ suc d.next_device_id = omega arith in
            rw (room, next) (Ascending-append 1 (list_of d) d.next_device_id _ refl v)
      ])
listed-Ascending d (unregister id) h v =
    Ascending-remove (has_id id) 1 (list_of d) d.next_device_id v
listed-Ascending d (initialize id) h v =
    Ascending-update (has_id id) initialized_device 1 (list_of d) d.next_device_id (λ x. refl) v
listed-Ascending d (enable id) h v =
    Ascending-update (has_id id) enabled 1 (list_of d) d.next_device_id (λ x. refl) v
listed-Ascending d (disable id) h v =
    Ascending-update (has_id id) disabled 1 (list_of d) d.next_device_id (λ x. refl) v
listed-Ascending d (set_handler id o c r w) h v =
    Ascending-update (has_id id) (with_handlers o c r w) 1 (list_of d) d.next_device_id (λ x. refl)
      v

pub step-IsNumbered :
    (d : DeviceManager) (op : Op)
    → d.next_device_id + 1 < 2 ^ 32
    → IsNumbered d
    → IsNumbered (step d op)
step-IsNumbered d op h v = record {
  count = step-count d op v.count;
  ids = rw (step-listed d op, step-next d op) (listed-Ascending d op h v.ids);
}

pub step-next_le :
    (d : DeviceManager) (op : Op)
    → d.next_device_id + 1 < 2 ^ 32
    → (step d op).next_device_id ≤ d.next_device_id + 1
step-next_le d (register name device_type major minor) h =
    ground (arith, step-next d (register name device_type major minor))
step-next_le d op h = ground (arith, step-next d op)

-- From a table whose ids ascend, after any calls, as long as the next id cannot have wrapped, there
-- are at most 256 devices, and their ids are distinct: they ascend from 1 and stay below the next
-- one.
pub run-IsNumbered :
    (ops : List Op) (d : DeviceManager)
    → d.next_device_id + length ops < 2 ^ 32
    → IsNumbered d
    → IsNumbered (run d ops)
unfolding run
run-IsNumbered [] d h v = v
run-IsNumbered (op ∷ ops) d h v =
    run-IsNumbered ops (step d op) (omega (arith, step-next_le d op (omega arith)))
      (step-IsNumbered d op (omega arith) v)

-- Where the ids ascend, `device_unregister` removes the device with the id from what
-- `device_get_info` finds, and no other.
pub device_get_info-unregister :
    (d : DeviceManager) (id q : ℕ)
    → IsNumbered d
    → device_get_info (device_unregister d id).1 q ≡ (if q == id then none else device_get_info d q)
unfolding step listed
device_get_info-unregister d id q v =
    rw
      (
        device_get_info-first (device_unregister d id).1 q,
        step-listed d (unregister id),
        device_get_info-first d q,
      )
      (first-remove q id 1 (list_of d) d.next_device_id v.ids)

module _ (d : DeviceManager) (name : Option (Array ℕ)) (device_type major minor : ℕ)
    (v : IsNumbered d) (room : d.device_count < max_devices) where
  abbrev pub added : Device
  added = fresh_device (d.devices d.device_count) d.next_device_id name device_type major minor

  pub register_id : (device_register d name device_type major minor).0 ≡ d.next_device_id
  unfolding device_register
  register_id = ground arith

  register-list :
      list_of (device_register d name device_type major minor).1 ≡ list_of d ++ added ∷ []
  unfolding step listed
  register-list =
      step-listed d (register name device_type major minor)
      ∙ (let free : leb max_devices (length (list_of d)) ≡ false =
            ground (arith, length-entries d.devices d.device_count 0) in
          rw free refl)

  info-next : device_get_info d d.next_device_id ≡ none
  info-next =
      device_get_info-first d d.next_device_id
      ∙ (first-above d.next_device_id 1 (list_of d) d.next_device_id (omega arith) v.ids).0

  info-register :
      (q : ℕ)
      → first (has_id q) (list_of d ++ added ∷ [])
        ≡ (if q == d.next_device_id then some added else first (has_id q) (list_of d))
  info-register q = elim (Option-cases (first (has_id q) (list_of d))) [
    | inl e ↦ ground (arith, e, first-append q (list_of d) added e)
    | inr (x, e) ↦ ground (
      arith,
      e,
      first-append_found q (list_of d) added x e,
      info-next,
      device_get_info-first d d.next_device_id,
      (λ (h : q ≡ d.next_device_id). ap (λ n. first (has_id n) (list_of d)) h),
    )
  ]

  -- Where the ids ascend and there is room, `device_register` returns an id under which nothing was
  -- found. Then that id has the new device, disabled and with the handlers that its slot held
  -- before, and every other id what it had.
  pub device_get_info-register :
      let (id, d') = device_register d name device_type major minor in
      (device_get_info d id ≡ none)
      × ((q : ℕ) → device_get_info d' q ≡ (if q == id then some added else device_get_info d q))
  device_get_info-register = rw register_id (
    info-next,
    λ q.
        rw
          (
            device_get_info-first (device_register d name device_type major minor).1 q,
            register-list,
            device_get_info-first d q,
          )
          (info-register q),
  )
