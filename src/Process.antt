-- ===== src/Process.antt =====
-- prcs.c: the process table, its records, and the operations on them.
--
-- A pointer into the table is the index of its slot. `process_table` has `max_processes` slots, and
-- `process_count` of them are in use. Each operation finds its process by the search for a slot with
-- the given pid, which the source writes out as a loop. Lifecycle, Attributes and Schedule hold the
-- operations, Run a sequence of calls, and the other modules what is proved of them.
pub mod Lifecycle
pub mod Attributes
pub mod Schedule
pub mod Run
pub mod Invariant
pub mod Preserve
pub mod Lookup
pub mod Lifetime
pub mod Wait
pub mod Capacity
pub mod Files
pub mod Views
pub mod History
mod Tests
use ea_x.Prelude.{ℕ, Option, none, some, Array, update, ◌==◌}
use ea_x.Prelude.Search.{find}

abbrev pub max_processes : ℕ
max_processes = 512

abbrev pub max_threads_per_process : ℕ
max_threads_per_process = 16

abbrev pub max_open_files : ℕ
max_open_files = 256

abbrev pub state_running : ℕ
state_running = 1

abbrev pub state_ready : ℕ
state_ready = 2

abbrev pub state_blocked : ℕ
state_blocked = 3

abbrev pub state_zombie : ℕ
state_zombie = 4

abbrev pub state_stopped : ℕ
state_stopped = 5

abbrev pub state_created : ℕ
state_created = 6

pub record Thread : Type 0 where
  pub thread_id : ℕ
  pub eip : ℕ
  pub esp : ℕ
  pub ebp : ℕ
  pub eax : ℕ
  pub ebx : ℕ
  pub ecx : ℕ
  pub edx : ℕ
  pub esi : ℕ
  pub edi : ℕ
  pub state : ℕ
  pub priority : ℕ
  pub ticks_used : ℕ
  pub time_quantum : ℕ
  pub kernel_stack : ℕ
  pub user_stack : ℕ

pub record Process : Type 0 where
  pub pid : ℕ
  pub ppid : ℕ
  pub uid : ℕ
  pub gid : ℕ
  pub state : ℕ
  pub priority : ℕ
  pub nice_value : ℕ
  pub exit_code : ℕ
  pub creation_time : ℕ
  pub start_time : ℕ
  pub total_cpu_time : ℕ
  pub total_memory : ℕ
  pub resident_memory : ℕ
  pub virtual_memory : ℕ
  pub threads : Array Thread
  pub thread_count : ℕ
  pub name : Array ℕ
  pub working_dir : Array ℕ
  pub page_directory : ℕ
  pub io_ports : Array ℕ
  pub open_files : Array ℕ
  pub open_file_count : ℕ
  pub signal_handlers : Array ℕ
  pub signal_mask : ℕ
  pub context_switches : ℕ
  pub page_faults : ℕ
  pub blocked_io_count : ℕ

pub record ProcessManager : Type 0 where
  pub process_table : Array Process
  pub process_count : ℕ
  pub next_pid : ℕ
  pub ready_queue : ℕ
  pub ready_queue_head : ℕ
  pub ready_queue_tail : ℕ
  pub current_pid : ℕ
  pub current_process : Option ℕ
  pub current_thread : Option ℕ
  pub total_context_switches : ℕ
  pub total_process_creations : ℕ
  pub total_process_terminations : ℕ
  pub total_thread_creations : ℕ
  pub run_queue_length : ℕ
  pub load_average_1 : ℕ
  pub load_average_5 : ℕ
  pub load_average_15 : ℕ
  pub idle_ticks : ℕ
  pub total_ticks : ℕ

unfoldable pub process_manager_init : ProcessManager → ProcessManager
process_manager_init m = record m {
  process_count = 0;
  next_pid = 1;
  current_pid = 0;
  total_context_switches = 0;
  total_process_creations = 0;
  total_process_terminations = 0;
  total_thread_creations = 0;
  run_queue_length = 0;
}

-- `for (i = 0; i < process_count; i++) if (process_table[i].pid == pid)`
unfoldable pub slot : ProcessManager → ℕ → Option ℕ
slot m pid = find (λ i. (m.process_table i).pid == pid) m.process_count

-- Write one slot of the table.
abbrev pub put : ProcessManager → ℕ → Process → ProcessManager
put m i p = record m { process_table = update m.process_table i p }

-- The loops that change the process with a pid and `break`.
unfoldable pub modify : ProcessManager → ℕ → (Process → Process) → ProcessManager
modify m pid f = elim (slot m pid) [ none ↦ m | some i ↦ put m i (f (m.process_table i)) ]
