-- ===== src/Process/Wait.antt =====
-- `process_wait`, and what becomes of a zombie.
use native.Mathlib.Decide.{dec_lt, ℕ_discrete}
use ea_x.Prelude.{
  ℕ, zero, suc, ◌<◌, ◌≡◌, refl, sym, ◌∙◌, ap, inl, inr, Bool, true, false, Option, none, some, ◌==◌,
  if◌then◌else◌, arith, Bool-cases, ◌&&◌,
}
use ea_x.Prelude.Search.{find-some, find-none}
use ea_x.Process.{Process, ProcessManager, state_zombie, state_ready}
use ea_x.Process.Lifecycle.{
  process_terminate, process_get_info, process_wait, wait_slot, terminated,
}
use ea_x.Process.Attributes.{process_unblock, process_get_state, unblocked}
use ea_x.Process.Run.{terminate, unblock, step}
use ea_x.Process.Invariant.{IsValid}
use ea_x.Process.Preserve.{step-IsValid}
use ea_x.Process.Lookup.{step-change, change}
use ea_x.Process.Lifetime.{info-suc, info-outside}

-- What waiting for a process gives.
abbrev pub reaped : ℕ → Option Process → ℕ × Option ℕ
reaped pid none = (0, none)
reaped pid (some p) = if p.state == state_zombie then (pid, some p.exit_code) else (0, none)

wait-some :
    (m : ProcessManager) (pid i : ℕ)
    → wait_slot m pid ≡ some i
    → process_wait m pid ≡ (pid, some (m.process_table i).exit_code)
unfolding process_wait
wait-some m pid i e = rw (e, process_wait)

wait-none : (m : ProcessManager) (pid : ℕ) → wait_slot m pid ≡ none → process_wait m pid ≡ (0, none)
unfolding process_wait
wait-none m pid e = rw (e, process_wait)

module _ (m : ProcessManager) (pid : ℕ) where
  abbrev dead_at : ℕ → Bool
  dead_at j = ((m.process_table j).pid == pid) && ((m.process_table j).state == state_zombie)

  wait_slot-none : ((j : ℕ) → j < m.process_count → dead_at j ≡ false) → wait_slot m pid ≡ none
  unfolding wait_slot
  wait_slot-none = find-none dead_at m.process_count

wait_slot-suc :
    {m : ProcessManager} (i : ℕ)
    → IsValid m
    → i < m.process_count
    → ((m.process_table i).state == state_zombie) ≡ true
    → wait_slot m (suc i) ≡ some i
unfolding wait_slot
wait_slot-suc {m} i v h dead =
    find-some (dead_at m (suc i)) m.process_count i h (ground (arith, v.slots i h))
      λ j lt. ground (arith, v.slots j (omega arith))

passes-over :
    {m : ProcessManager} (i : ℕ)
    → IsValid m
    → ((m.process_table i).state == state_zombie) ≡ false
    → (j : ℕ) → j < m.process_count
    → dead_at m (suc i) j ≡ false
passes-over {m} i v alive j lt = elim (ℕ_discrete i j) [
  | yes same ↦ ground arith
  | no other ↦ ground (arith, v.slots j lt)
]

-- In a valid table the loop of `process_wait` is a lookup of the pid: it returns the pid and the
-- exit code of a zombie, and 0 for any other process and for a pid that no process has.
pub process_wait-reaped :
    {m : ProcessManager} (pid : ℕ)
    → IsValid m
    → process_wait m pid ≡ reaped pid (process_get_info m pid)
process_wait-reaped {m} zero v =
    wait-none m 0 (wait_slot-none m 0 (λ j h. ground (arith, v.slots j h)))
    ∙ ap (reaped 0) (sym (info-outside 0 v (inl refl)))
process_wait-reaped {m} (suc i) v = elim (dec_lt i m.process_count) [
  | yes h ↦ elim (Bool-cases ((m.process_table i).state == state_zombie)) [
    | inl dead ↦ ground (arith, info-suc i v h, wait-some m (suc i) i (wait_slot-suc i v h dead))
    | inr alive ↦ ground (
      arith,
      info-suc i v h,
      wait-none m (suc i) (wait_slot-none m (suc i) (λ j lt. passes-over i v alive j lt)),
    )
  ]
  | no h ↦
      wait-none m (suc i) (wait_slot-none m (suc i) (λ j lt. ground (arith, v.slots j lt)))
      ∙ ap (reaped (suc i)) (sym (info-outside (suc i) v (inr (omega arith))))
]

info-terminate :
    (m : ProcessManager) (pid exit_code : ℕ) {p : Process}
    → process_get_info m pid ≡ some p
    → process_get_info (process_terminate m pid exit_code).1 pid ≡ some (terminated exit_code p)
unfolding step change
info-terminate m pid exit_code e =
    ground (arith, e, step-change m (terminate pid exit_code) pid (terminated exit_code) refl pid)

info-unblock :
    (m : ProcessManager) (pid : ℕ) {p : Process}
    → process_get_info m pid ≡ some p
    → process_get_info (process_unblock m pid) pid ≡ some (unblocked p)
unfolding step change
info-unblock m pid e = ground (arith, e, step-change m (unblock pid) pid unblocked refl pid)

get_state-info :
    (m : ProcessManager) (pid : ℕ) {p : Process}
    → process_get_info m pid ≡ some p
    → process_get_state m pid ≡ p.state
unfolding process_get_state process_get_info
get_state-info m pid e = ground arith

step-terminate-IsValid :
    {m : ProcessManager} (pid exit_code : ℕ)
    → IsValid m
    → IsValid (process_terminate m pid exit_code).1
unfolding step
step-terminate-IsValid pid exit_code v = step-IsValid (terminate pid exit_code) v

step-unblock-IsValid : {m : ProcessManager} (pid : ℕ) → IsValid m → IsValid (process_unblock m pid)
unfolding step
step-unblock-IsValid pid v = step-IsValid (unblock pid) v

-- In a valid table, a process that is terminated is found by `process_wait` with its exit code.
-- After `process_unblock` on its pid it is a ready process again, and the wait finds nothing.
process_unblock-terminate :
    {m : ProcessManager} (pid exit_code : ℕ) {p : Process}
    → IsValid m
    → process_get_info m pid ≡ some p
    → let dead = (process_terminate m pid exit_code).1 in
      (process_wait dead pid ≡ (pid, some exit_code))
      × (process_wait (process_unblock dead pid) pid ≡ (0, none))
      × (process_get_state (process_unblock dead pid) pid ≡ state_ready)
process_unblock-terminate {m} pid exit_code v e =
    let dead = (process_terminate m pid exit_code).1 in
    let gone = info-terminate m pid exit_code e in
    let back = info-unblock dead pid gone in
    let valid = step-terminate-IsValid pid exit_code v in
    (
      process_wait-reaped pid valid ∙ ap (reaped pid) gone,
      process_wait-reaped pid (step-unblock-IsValid pid valid) ∙ ap (reaped pid) back,
      get_state-info (process_unblock dead pid) pid back,
    )
