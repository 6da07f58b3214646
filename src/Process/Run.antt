-- ===== src/Process/Run.antt =====
-- Sequences of calls of prcs.c.
use ea_x.Prelude.{ℕ, List, [], ◌∷◌, Array}
use ea_x.Process.{ProcessManager}
use ea_x.Process.Lifecycle.{process_create, process_terminate, thread_create}
use ea_x.Process.Attributes.{
  process_set_priority, process_add_open_file, process_remove_open_file, process_block_for_io,
  process_unblock, process_update_cpu_time, process_set_working_dir,
}
use ea_x.Process.Schedule.{schedule_next_process}

-- The calls that change the process manager, with their arguments.
pub data Op : Type 0 where
  create : (name : Array ℕ) (priority uid : ℕ) → Op
  terminate : (pid exit_code : ℕ) → Op
  spawn : (pid priority : ℕ) → Op
  schedule : Op
  set_priority : (pid priority : ℕ) → Op
  add_open_file : (pid fd : ℕ) → Op
  remove_open_file : (pid fd : ℕ) → Op
  block_for_io : (pid : ℕ) → Op
  unblock : (pid : ℕ) → Op
  update_cpu_time : (pid ticks : ℕ) → Op
  set_working_dir : (pid : ℕ) (dir : Array ℕ) → Op

unfoldable pub step : ProcessManager → Op → ProcessManager
step m (create name priority uid) = (process_create m name priority uid).1
step m (terminate pid exit_code) = (process_terminate m pid exit_code).1
step m (spawn pid priority) = (thread_create m pid priority).1
step m schedule = schedule_next_process m
step m (set_priority pid priority) = process_set_priority m pid priority
step m (add_open_file pid fd) = process_add_open_file m pid fd
step m (remove_open_file pid fd) = process_remove_open_file m pid fd
step m (block_for_io pid) = process_block_for_io m pid
step m (unblock pid) = process_unblock m pid
step m (update_cpu_time pid ticks) = process_update_cpu_time m pid ticks
step m (set_working_dir pid dir) = process_set_working_dir m pid dir

unfoldable pub run : ProcessManager → List Op → ProcessManager
unfolding step
run m [] = m
run m (op ∷ ops) = run (step m op) ops
