-- ===== src/Process/Capacity.antt =====
-- The table never gives a slot back.
use ea_x.Prelude.{ℕ, ◌≡◌, List, [], ◌∷◌, Array, arith}
use ea_x.Process.{ProcessManager, modify, max_processes}
use ea_x.Process.Lifecycle.{process_create, process_terminate, thread_create}
use ea_x.Process.Attributes.{
  process_set_priority, process_add_open_file, process_remove_open_file, process_block_for_io,
  process_unblock, process_update_cpu_time, process_set_working_dir,
}
use ea_x.Process.Schedule.{schedule_next_process, choose, counted, dispatch}
use ea_x.Process.Run.{Op, schedule, step, run}

dispatch-count : (m : ProcessManager) (pid : ℕ) → (dispatch m pid).process_count ≡ m.process_count
unfolding dispatch
dispatch-count m pid = ground arith

-- A full table stays as full as it is.
step-full :
    (m : ProcessManager) (op : Op)
    → m.process_count ≡ max_processes
    → (step m op).process_count ≡ max_processes
unfolding step process_create process_terminate thread_create schedule_next_process modify
    process_set_priority process_add_open_file process_remove_open_file process_block_for_io
    process_unblock process_update_cpu_time process_set_working_dir
step-full m schedule full = ground (arith, dispatch-count (counted m) (choose m).next_pid)
step-full m op full = ground arith

pub run-full :
    (ops : List Op) (m : ProcessManager)
    → m.process_count ≡ max_processes
    → (run m ops).process_count ≡ max_processes
unfolding run
run-full [] m full = full
run-full (op ∷ ops) m full = run-full ops (step m op) (step-full m op full)

-- Once the table is full, `process_create` fails after any calls: no call, a termination least of
-- all, makes a slot free again.
pub process_create-full :
    (ops : List Op) (name : Array ℕ) (priority uid : ℕ) (m : ProcessManager)
    → m.process_count ≡ max_processes
    → process_create (run m ops) name priority uid ≡ (0, run m ops)
unfolding process_create
process_create-full ops name priority uid m full = rw (run-full ops m full)
