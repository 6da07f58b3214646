-- ===== src/Process/Lookup.antt =====
-- What `process_get_info` and the other queries see after an operation on one process.
use mathlib.Core.Path.{fun_ext}
use mathlib.Core.Option
use ea_x.Prelude.{
  ℕ, ◌≡◌, refl, sym, ap, inl, inr, Option, none, some, ◌==◌, if◌then◌else◌, update, arith,
  Option-cases, Bool-cases, leb,
}
use ea_x.Prelude.Search.{find}
use ea_x.Process.{Process, ProcessManager, slot, put, modify, max_threads_per_process}
use ea_x.Process.Lifecycle.{
  process_terminate, thread_create, process_get_info, terminated, add_thread,
}
use ea_x.Process.Attributes.{
  process_set_priority, process_add_open_file, process_remove_open_file, process_block_for_io,
  process_unblock, process_update_cpu_time, process_set_working_dir, with_priority, add_file,
  without_file, blocked, unblocked, charged, moved_to,
}
use ea_x.Process.Run.{
  Op, create, terminate, spawn, schedule, set_priority, add_open_file, remove_open_file,
  block_for_io, unblock, update_cpu_time, set_working_dir, step,
}
use ea_x.Process.Invariant.{slot-lt}

-- Replacing a process by one with its pid leaves every search as it was.
slot-update :
    (m : ProcessManager) (i : ℕ) (p : Process) (q : ℕ)
    → p.pid ≡ (m.process_table i).pid
    → slot (put m i p) q ≡ slot m q
unfolding slot
slot-update m i p q same = ap (λ t. find t m.process_count) (fun_ext λ j. ground (arith, same))

pub info-some :
    (m : ProcessManager) (q i : ℕ)
    → slot m q ≡ some i
    → process_get_info m q ≡ some (m.process_table i)
unfolding process_get_info
info-some m q i e = rw (e, process_get_info)

pub info-none : (m : ProcessManager) (q : ℕ) → slot m q ≡ none → process_get_info m q ≡ none
unfolding process_get_info
info-none m q e = rw (e, process_get_info)

-- A table in which the process of one slot has been replaced.
module _ (m m' : ProcessManager) (pid i : ℕ) (p : Process) (e : slot m pid ≡ some i)
    (same : p.pid ≡ (m.process_table i).pid) (table : m'.process_table ≡ update m.process_table i p)
    (count : m'.process_count ≡ m.process_count) where
  slot-same : (q : ℕ) → slot m' q ≡ slot m q
  unfolding slot
  slot-same q = rw (count, table) (slot-update m i p q same)

  table-at : (j : ℕ) → m'.process_table j ≡ (if i == j then p else m.process_table j)
  table-at j = rw table

  info-update :
      (q : ℕ) → process_get_info m' q ≡ (if q == pid then some p else process_get_info m q)
  info-update q = elim (Option-cases (slot m q)) [
    | inl miss ↦
        ground (arith, slot-same q, info-none m q, info-none m' q, (λ (h : q ≡ pid). ap (slot m) h))
    | inr (j, hit) ↦ ground (
      arith,
      slot-same q,
      slot-lt m q hit,
      slot-lt m pid e,
      info-some m q j,
      info-some m' q j,
      table-at j,
      (λ (h : q ≡ pid). ap (slot m) h),
    )
  ]

-- `thread_create` changes nothing in a process that is full.
abbrev pub spawned : ℕ → Process → Process
spawned priority p = if leb max_threads_per_process p.thread_count then p else add_thread p priority

-- The operations that change one process: its pid, and the change.
unfoldable pub change : Op → Option (ℕ × (Process → Process))
change (create name priority uid) = none
change (terminate pid exit_code) = some (pid, terminated exit_code)
change (spawn pid priority) = some (pid, spawned priority)
change schedule = none
change (set_priority pid priority) = some (pid, with_priority priority)
change (add_open_file pid fd) = some (pid, add_file fd)
change (remove_open_file pid fd) = some (pid, without_file fd)
change (block_for_io pid) = some (pid, blocked)
change (unblock pid) = some (pid, unblocked)
change (update_cpu_time pid ticks) = some (pid, charged ticks)
change (set_working_dir pid dir) = some (pid, moved_to dir)

-- `m'` is `m` with one process changed, as far as `process_get_info` can tell.
abbrev pub Changes : ProcessManager → ProcessManager → ℕ → (Process → Process) → Type 0
Changes m m' pid f =
    (q : ℕ)
    → process_get_info m' q
      ≡ (if q == pid then Option.map f (process_get_info m q) else process_get_info m q)

Changes-none :
    (m : ProcessManager) (pid : ℕ) (f : Process → Process) → slot m pid ≡ none → Changes m m pid f
Changes-none m pid f e q = ground (arith, info-none m q, (λ (h : q ≡ pid). ap (slot m) h))

Changes-some :
    (m m' : ProcessManager) (pid i : ℕ) (f : Process → Process)
    → slot m pid ≡ some i
    → (f (m.process_table i)).pid ≡ (m.process_table i).pid
    → m'.process_table ≡ update m.process_table i (f (m.process_table i))
    → m'.process_count ≡ m.process_count
    → Changes m m' pid f
Changes-some m m' pid i f e same table count q = ground (
  arith,
  info-update m m' pid i (f (m.process_table i)) e same table count q,
  info-some m q i,
  (λ (h : q ≡ pid). ap (slot m) h),
)

modify-Changes :
    (m : ProcessManager) (pid : ℕ) (f : Process → Process)
    → ((p : Process) → (f p).pid ≡ p.pid)
    → Changes m (modify m pid f) pid f
unfolding modify
modify-Changes m pid f same = elim (Option-cases (slot m pid)) [
  | inl e ↦ rw (e, modify) (Changes-none m pid f e)
  | inr (i, e) ↦ rw (e, modify) (Changes-some m _ pid i f e (same _) refl refl)
]

terminate-Changes :
    (m : ProcessManager) (pid exit_code : ℕ)
    → Changes m (process_terminate m pid exit_code).1 pid (terminated exit_code)
unfolding process_terminate
terminate-Changes m pid exit_code = elim (Option-cases (slot m pid)) [
  | inl e ↦ rw (e, process_terminate) (Changes-none m pid (terminated exit_code) e)
  | inr (i, e) ↦
      rw (e, process_terminate) (Changes-some m _ pid i (terminated exit_code) e refl refl refl)
]

spawn-Changes :
    (m : ProcessManager) (pid priority : ℕ)
    → Changes m (thread_create m pid priority).1 pid (spawned priority)
unfolding thread_create
spawn-Changes m pid priority = elim (Option-cases (slot m pid)) [
  | inl e ↦ rw (e, thread_create) (Changes-none m pid (spawned priority) e)
  | inr (i, e) ↦
      rw (e, thread_create)
        (elim (Bool-cases (leb max_threads_per_process (m.process_table i).thread_count)) [
          | inl full ↦
              rw full λ q. ground (arith, info-some m q i, (λ (h : q ≡ pid). ap (slot m) h))
          | inr room ↦
              let added : spawned priority (m.process_table i)
                  ≡ add_thread (m.process_table i) priority =
                rw room in
              rw room (
                Changes-some m _ pid i (spawned priority) e (ap (λ (p : Process). p.pid) added)
                  (ap (update m.process_table i) (sym added)) refl)
        ])
]

abbrev Effect : ProcessManager → ProcessManager → Option (ℕ × (Process → Process)) → Type 0
Effect m m' none = Unit {0}
Effect m m' (some (pid, f)) = Changes m m' pid f

step-Effect : (m : ProcessManager) (op : Op) → Effect m (step m op) (change op)
unfolding step change process_set_priority process_add_open_file process_remove_open_file
    process_block_for_io process_unblock process_update_cpu_time process_set_working_dir
step-Effect m (create name priority uid) = tt
step-Effect m (terminate pid exit_code) = terminate-Changes m pid exit_code
step-Effect m (spawn pid priority) = spawn-Changes m pid priority
step-Effect m schedule = tt
step-Effect m (set_priority pid priority) =
    modify-Changes m pid (with_priority priority) (λ p. refl)
step-Effect m (add_open_file pid fd) = modify-Changes m pid (add_file fd) (λ p. ground arith)
step-Effect m (remove_open_file pid fd) = modify-Changes m pid (without_file fd) (λ p. refl)
step-Effect m (block_for_io pid) = modify-Changes m pid blocked (λ p. refl)
step-Effect m (unblock pid) = modify-Changes m pid unblocked (λ p. refl)
step-Effect m (update_cpu_time pid ticks) = modify-Changes m pid (charged ticks) (λ p. refl)
step-Effect m (set_working_dir pid dir) = modify-Changes m pid (moved_to dir) (λ p. refl)

-- An operation on one process changes that process alone, as `change` says, and nothing if there is
-- no process with the pid.
pub step-change :
    (m : ProcessManager) (op : Op) (pid : ℕ) (f : Process → Process)
    → change op ≡ some (pid, f)
    → (q : ℕ)
    → process_get_info (step m op) q
      ≡ (if q == pid then Option.map f (process_get_info m q) else process_get_info m q)
step-change m op pid f e q = (rw e at (step-Effect m op)) q
