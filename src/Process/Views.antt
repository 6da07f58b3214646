-- ===== src/Process/Views.antt =====
-- What can be seen of a process, and what a call does to it.
use ea_x.Prelude.{
  ℕ, ◌+◌, Bool, true, false, ◌||◌, List, [], ◌∷◌, ◌++◌, length, u32, ltb, ◌==◌, if◌then◌else◌,
  string_from,
}
use ea_x.Prelude.Table.{entries}
use ea_x.Process.{Thread, Process}
use ea_x.Process.Run.{
  Op, create, terminate, spawn, schedule, set_priority, add_open_file, remove_open_file,
  block_for_io, unblock, update_cpu_time, set_working_dir,
}

pub record ThreadView : Type 0 where
  pub thread_id : ℕ
  pub state : ℕ
  pub priority : ℕ
  pub time_quantum : ℕ

-- A process with its threads and files as lists, and the string of its working directory.
pub record View : Type 0 where
  pub pid : ℕ
  pub ppid : ℕ
  pub uid : ℕ
  pub state : ℕ
  pub priority : ℕ
  pub exit_code : ℕ
  pub total_cpu_time : ℕ
  pub blocked_io_count : ℕ
  pub threads : List ThreadView
  pub open_files : List ℕ
  pub working_dir : List ℕ

abbrev pub thread_view : Thread → ThreadView
thread_view t = record {
  thread_id = t.thread_id;
  state = t.state;
  priority = t.priority;
  time_quantum = t.time_quantum;
}

abbrev pub view : Process → View
view p = record {
  pid = p.pid;
  ppid = p.ppid;
  uid = p.uid;
  state = p.state;
  priority = p.priority;
  exit_code = p.exit_code;
  total_cpu_time = p.total_cpu_time;
  blocked_io_count = p.blocked_io_count;
  threads = entries (λ i. thread_view (p.threads i)) 0 p.thread_count;
  open_files = entries p.open_files 0 p.open_file_count;
  working_dir = string_from p.working_dir 256 0;
}

-- The list with 0 in place of every `fd`.
unfoldable pub without : ℕ → List ℕ → List ℕ
without fd [] = []
without fd (f ∷ fs) = (if f == fd then 0 else f) ∷ without fd fs

-- The process that a call names is this one. Creation and scheduling name none.
abbrev pub names : Op → ℕ → Bool
names (create name priority uid) q = false
names schedule q = false
names (terminate pid exit_code) q = q == pid
names (spawn pid priority) q = q == pid
names (set_priority pid priority) q = q == pid
names (add_open_file pid fd) q = q == pid
names (remove_open_file pid fd) q = q == pid
names (block_for_io pid) q = q == pid
names (unblock pid) q = q == pid
names (update_cpu_time pid ticks) q = q == pid
names (set_working_dir pid dir) q = q == pid

-- What a call does to the process that it names: state 2 is ready, 3 blocked, 4 a zombie, and 6 is that of a
-- new thread.
abbrev pub effect : Op → View → View
effect (create name priority uid) v = v
effect schedule v = v
effect (terminate pid exit_code) v = record v { state = 4; exit_code = exit_code }
effect (spawn pid priority) v =
    if ltb (length v.threads) 16
    then record v {
      threads =
          v.threads
          ++ record {
            thread_id = length v.threads;
            state = 6;
            priority = priority;
            time_quantum = 10;
          }
            ∷ [];
    }
    else v
effect (set_priority pid priority) v = record v { priority = priority }
effect (add_open_file pid fd) v =
    if ltb (length v.open_files) 256 then record v { open_files = v.open_files ++ fd ∷ [] } else v
effect (remove_open_file pid fd) v = record v { open_files = without fd v.open_files }
effect (block_for_io pid) v = record v {
  state = 3;
  blocked_io_count = u32 (v.blocked_io_count + 1);
}
effect (unblock pid) v = record v { state = 2 }
effect (update_cpu_time pid ticks) v = record v { total_cpu_time = u32 (v.total_cpu_time + ticks) }
effect (set_working_dir pid dir) v = record v { working_dir = string_from dir 256 0 }

-- The view of process `q` after the calls.
unfoldable pub after : ℕ → List Op → View → View
after q [] v = v
after q (op ∷ ops) v = after q ops (if names op q then effect op v else v)

-- A call of the scheduler.
abbrev pub is_schedule : Op → Bool
is_schedule schedule = true
is_schedule _ = false

unfoldable pub has_schedule : List Op → Bool
has_schedule [] = false
has_schedule (op ∷ ops) = is_schedule op || has_schedule ops
