-- ===== src/Process/Attributes.antt =====
-- prcs.c: the operations that read or change one field of a process, and the statistics.
use ea_x.Prelude.{
  ℕ, zero, suc, ◌+◌, ◌%◌, ◌^◌, none, some, List, [], ◌∷◌, Array, update, u32, ltb, ◌==◌,
  if◌then◌else◌, copy_string,
}
use ea_x.Process.{Process, ProcessManager, slot, modify, max_open_files, state_ready, state_blocked}

-- The changes that the operations make to the process that they find.
abbrev pub with_priority : ℕ → Process → Process
with_priority priority p = record p { priority = priority }

abbrev pub blocked : Process → Process
blocked p = record p { state = state_blocked; blocked_io_count = u32 (p.blocked_io_count + 1) }

abbrev pub unblocked : Process → Process
unblocked p = record p { state = state_ready }

abbrev pub charged : ℕ → Process → Process
charged ticks p = record p { total_cpu_time = u32 (p.total_cpu_time + ticks) }

abbrev pub moved_to : Array ℕ → Process → Process
moved_to dir p = record p { working_dir = copy_string 256 dir p.working_dir }

unfoldable pub process_set_priority : ProcessManager → ℕ → ℕ → ProcessManager
unfolding modify
process_set_priority m pid priority = modify m pid (with_priority priority)

unfoldable pub process_get_priority : ProcessManager → ℕ → ℕ
process_get_priority m pid = elim (slot m pid) [ none ↦ 0 | some i ↦ (m.process_table i).priority ]

abbrev pub add_file : ℕ → Process → Process
add_file fd p =
    if ltb p.open_file_count max_open_files
    then record p {
      open_files = update p.open_files p.open_file_count fd;
      open_file_count = u32 (p.open_file_count + 1);
    }
    else p

unfoldable pub process_add_open_file : ProcessManager → ℕ → ℕ → ProcessManager
unfolding modify
process_add_open_file m pid fd = modify m pid (add_file fd)

-- `for (j = from; j < from + rounds; j++) if (files[j] == fd) files[j] = 0;`
unfoldable pub clear_files : ℕ → ℕ → ℕ → Array ℕ → Array ℕ
clear_files fd zero j files = files
clear_files fd (suc rounds) j files =
    clear_files fd rounds (suc j) (if files j == fd then update files j 0 else files)

abbrev pub without_file : ℕ → Process → Process
without_file fd p = record p { open_files = clear_files fd p.open_file_count 0 p.open_files }

unfoldable pub process_remove_open_file : ProcessManager → ℕ → ℕ → ProcessManager
unfolding modify clear_files
process_remove_open_file m pid fd = modify m pid (without_file fd)

-- The words that `process_get_stats` writes; it returns their size, 20.
unfoldable pub process_get_stats : ProcessManager → ℕ × List ℕ
process_get_stats m = (
  20,
  m.process_count
      ∷ m.total_context_switches % 2 ^ 32
      ∷ m.total_process_creations % 2 ^ 32
      ∷ m.total_process_terminations % 2 ^ 32
      ∷ m.total_thread_creations % 2 ^ 32
      ∷ [],
)

unfoldable pub process_block_for_io : ProcessManager → ℕ → ProcessManager
unfolding modify
process_block_for_io m pid = modify m pid blocked

unfoldable pub process_unblock : ProcessManager → ℕ → ProcessManager
unfolding modify
process_unblock m pid = modify m pid unblocked

unfoldable pub process_get_memory_usage : ProcessManager → ℕ → ℕ
process_get_memory_usage m pid = elim (slot m pid) [
  | none ↦ 0
  | some i ↦ (m.process_table i).total_memory
]

unfoldable pub process_update_cpu_time : ProcessManager → ℕ → ℕ → ProcessManager
unfolding modify
process_update_cpu_time m pid ticks = modify m pid (charged ticks)

unfoldable pub process_get_state : ProcessManager → ℕ → ℕ
process_get_state m pid = elim (slot m pid) [ none ↦ 0 | some i ↦ (m.process_table i).state ]

unfoldable pub process_set_working_dir : ProcessManager → ℕ → Array ℕ → ProcessManager
unfolding modify
process_set_working_dir m pid dir = modify m pid (moved_to dir)
