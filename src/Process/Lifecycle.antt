-- ===== src/Process/Lifecycle.antt =====
-- prcs.c: the operations by which processes and threads come and go.
use ea_x.Prelude.{
  ℕ, ◌+◌, ◌&&◌, Option, none, some, Array, update, u32, u64, leb, ◌==◌, if◌then◌else◌, copy_string,
}
use ea_x.Prelude.Search.{find}
use ea_x.Process.{
  Thread, Process, ProcessManager, slot, max_processes, max_threads_per_process, state_created,
  state_zombie,
}

-- The record that `process_create` leaves in a slot. What it does not assign stays as it was.
unfoldable pub fresh_process : Process → ℕ → ℕ → ℕ → ℕ → Array ℕ → Process
fresh_process old pid ppid priority uid name = record old {
  pid = pid;
  ppid = ppid;
  uid = uid;
  gid = 0;
  state = state_created;
  priority = priority;
  nice_value = 0;
  creation_time = 0;
  total_cpu_time = 0;
  total_memory = 0;
  resident_memory = 0;
  virtual_memory = 0;
  thread_count = 0;
  open_file_count = 0;
  signal_mask = 0;
  context_switches = 0;
  page_faults = 0;
  blocked_io_count = 0;
  name = copy_string 256 name old.name;
}

-- Each operation returns the value of the C function beside the new state. 0 is failure.
unfoldable pub process_create : ProcessManager → Array ℕ → ℕ → ℕ → ℕ × ProcessManager
unfolding fresh_process
process_create m name priority uid = if leb max_processes m.process_count then (0, m) else (
  m.next_pid,
  record m {
    process_table = update m.process_table m.process_count (
        fresh_process (m.process_table m.process_count) m.next_pid m.current_pid priority uid name);
    next_pid = u32 (m.next_pid + 1);
    process_count = u32 (m.process_count + 1);
    total_process_creations = u64 (m.total_process_creations + 1);
  },
)

abbrev pub terminated : ℕ → Process → Process
terminated exit_code p = record p { state = state_zombie; exit_code = exit_code }

unfoldable pub process_terminate : ProcessManager → ℕ → ℕ → ℕ × ProcessManager
process_terminate m pid exit_code = elim (slot m pid) [
  | none ↦ (0, m)
  | some i ↦ (
    1,
    record m {
      process_table = update m.process_table i (terminated exit_code (m.process_table i));
      total_process_terminations = u64 (m.total_process_terminations + 1);
    },
  )
]

-- The thread that `thread_create` leaves in its place; its registers stay as they were.
abbrev pub fresh_thread : Thread → ℕ → ℕ → Thread
fresh_thread old id priority = record old {
  thread_id = id;
  state = state_created;
  priority = priority;
  ticks_used = 0;
  time_quantum = 10;
}

abbrev pub add_thread : Process → ℕ → Process
add_thread p priority = record p {
  threads =
      update p.threads p.thread_count
        (fresh_thread (p.threads p.thread_count) p.thread_count priority);
  thread_count = u32 (p.thread_count + 1);
}

unfoldable pub thread_create : ProcessManager → ℕ → ℕ → ℕ × ProcessManager
thread_create m pid priority = elim (slot m pid) [
  | none ↦ (0, m)
  | some i ↦ if leb max_threads_per_process (m.process_table i).thread_count then (0, m) else (
    (m.process_table i).thread_count,
    record m {
      process_table = update m.process_table i (add_thread (m.process_table i) priority);
      total_thread_creations = u64 (m.total_thread_creations + 1);
    },
  )
]

-- The copy that `process_get_info` writes to its buffer; `none` is the return value 0.
unfoldable pub process_get_info : ProcessManager → ℕ → Option Process
process_get_info m pid = elim (slot m pid) [ none ↦ none | some i ↦ some (m.process_table i) ]

-- Unlike the other loops, this one goes on past a process with the pid that is no zombie.
unfoldable pub wait_slot : ProcessManager → ℕ → Option ℕ
wait_slot m pid =
    find (λ i. ((m.process_table i).pid == pid) && ((m.process_table i).state == state_zombie))
      m.process_count

-- `process_wait`: the value returned, and what is written to `*status`, if anything.
unfoldable pub process_wait : ProcessManager → ℕ → ℕ × Option ℕ
process_wait m pid = elim (wait_slot m pid) [
  | none ↦ (0, none)
  | some i ↦ (pid, some (m.process_table i).exit_code)
]
