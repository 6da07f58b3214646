-- ===== src/Process/Preserve.antt =====
-- Every operation of prcs.c keeps the table valid.
use ea_x.Prelude.{
  ℕ, ◌≡◌, refl, List, [], ◌∷◌, Array, arith, inl, inr, ltb, leb, Option-cases, Bool-cases,
}
use ea_x.Process.{ProcessManager, slot, max_processes, max_threads_per_process}
use ea_x.Process.Lifecycle.{process_create, process_terminate, thread_create, terminated}
use ea_x.Process.Attributes.{
  process_set_priority, process_add_open_file, process_remove_open_file, process_block_for_io,
  process_unblock, process_update_cpu_time, process_set_working_dir, add_file, with_priority,
  without_file, blocked, unblocked, charged, moved_to,
}
use ea_x.Process.Schedule.{choose, dispatch, running, counted, schedule_next_process}
use ea_x.Process.Run.{
  Op, create, terminate, spawn, schedule, set_priority, add_open_file, remove_open_file,
  block_for_io, unblock, update_cpu_time, set_working_dir, step, run,
}
use ea_x.Process.Invariant.{IsValid, Slot-update, put_kept-IsValid, modify-IsValid, slot-lt}

-- Validity speaks of three fields.
same_table :
    {m m' : ProcessManager}
    → IsValid m
    → (m'.process_table ≡ m.process_table)
      × (m'.process_count ≡ m.process_count)
      × (m'.next_pid ≡ m.next_pid)
    → IsValid m'
same_table v (t, c, n) = record {
  count = rw c v.count;
  next = rw (c, n) v.next;
  slots = rw (c, t) v.slots;
}

pub process_create-IsValid :
    {m : ProcessManager} (name : Array ℕ) (priority uid : ℕ)
    → IsValid m
    → IsValid (process_create m name priority uid).1
unfolding process_create
process_create-IsValid {m} name priority uid v =
    elim (Bool-cases (leb max_processes m.process_count)) [
      | inl full ↦ rw full v
      | inr room ↦ rw room (record {
        count = ground arith;
        next = ground (arith, v.next);
        slots = λ i h. ground (arith, v.slots i, v.next);
      })
    ]

pub process_terminate-IsValid :
    {m : ProcessManager} (pid exit_code : ℕ)
    → IsValid m
    → IsValid (process_terminate m pid exit_code).1
unfolding process_terminate
process_terminate-IsValid {m} pid exit_code v = elim (Option-cases (slot m pid)) [
  | inl e ↦ rw (e, process_terminate) v
  | inr (i, e) ↦
      rw (e, process_terminate)
        (same_table
          (put_kept-IsValid i (terminated exit_code) (λ p h. ground arith) v (slot-lt m pid e).0)
          (refl, refl, refl))
]

thread_create-IsValid :
    {m : ProcessManager} (pid priority : ℕ) → IsValid m → IsValid (thread_create m pid priority).1
unfolding thread_create
thread_create-IsValid {m} pid priority v = elim (Option-cases (slot m pid)) [
  | inl e ↦ rw (e, thread_create) v
  | inr (i, e) ↦
      rw (e, thread_create)
        (elim (Bool-cases (leb max_threads_per_process (m.process_table i).thread_count)) [
          | inl full ↦ rw full v
          | inr room ↦ rw room (record {
            count = v.count;
            next = v.next;
            slots =
                Slot-update m.process_table i _ v.slots
                  (ground (arith, v.slots i (slot-lt m pid e).0));
          })
        ])
]

dispatch-IsValid : {m : ProcessManager} (pid : ℕ) → IsValid m → IsValid (dispatch m pid)
unfolding dispatch
dispatch-IsValid {m} pid v = elim (Option-cases (slot m pid)) [
  | inl e ↦ rw (e, dispatch) (same_table v (refl, refl, refl))
  | inr (i, e) ↦
      rw (e, dispatch)
        (same_table (put_kept-IsValid i running (λ p h. ground arith) v (slot-lt m pid e).0)
          (refl, refl, refl))
]

pub schedule_next_process-IsValid :
    {m : ProcessManager} → IsValid m → IsValid (schedule_next_process m)
unfolding schedule_next_process
schedule_next_process-IsValid {m} v = elim (Bool-cases (ltb 0 (choose m).next_pid)) [
  | inl e ↦
      rw e (dispatch-IsValid (choose m).next_pid (same_table {m' = counted m} v (refl, refl, refl)))
  | inr e ↦ rw e (same_table v (refl, refl, refl))
]

-- Every call keeps the table valid.
pub step-IsValid : {m : ProcessManager} (op : Op) → IsValid m → IsValid (step m op)
unfolding step process_set_priority process_add_open_file process_remove_open_file
    process_block_for_io process_unblock process_update_cpu_time process_set_working_dir
step-IsValid (create name priority uid) v = process_create-IsValid name priority uid v
step-IsValid (terminate pid exit_code) v = process_terminate-IsValid pid exit_code v
step-IsValid (spawn pid priority) v = thread_create-IsValid pid priority v
step-IsValid schedule v = schedule_next_process-IsValid v
step-IsValid (set_priority pid priority) v =
    modify-IsValid pid (with_priority priority) (λ p h. ground arith) v
step-IsValid (add_open_file pid fd) v = modify-IsValid pid (add_file fd) (λ p h. ground arith) v
step-IsValid (remove_open_file pid fd) v =
    modify-IsValid pid (without_file fd) (λ p h. ground arith) v
step-IsValid (block_for_io pid) v = modify-IsValid pid blocked (λ p h. ground arith) v
step-IsValid (unblock pid) v = modify-IsValid pid unblocked (λ p h. ground arith) v
step-IsValid (update_cpu_time pid ticks) v =
    modify-IsValid pid (charged ticks) (λ p h. ground arith) v
step-IsValid (set_working_dir pid dir) v = modify-IsValid pid (moved_to dir) (λ p h. ground arith) v

-- A valid table stays valid over any sequence of calls: slot `i` holds the process with pid `i +
-- 1`, the next pid is one above the count, and the counts of processes, threads and open files stay
-- within their arrays.
pub run-IsValid : (ops : List Op) {m : ProcessManager} → IsValid m → IsValid (run m ops)
unfolding run
run-IsValid [] v = v
run-IsValid (op ∷ ops) v = run-IsValid ops (step-IsValid op v)
