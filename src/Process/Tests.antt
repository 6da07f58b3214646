-- ===== src/Process/Tests.antt =====
-- prcs.c at concrete inputs.
use ea_x.Prelude.{
  ℕ, suc, ◌≡◌, refl, false, ◌<◌, ◌≤◌, if◌then◌else◌, ◌==◌, none, some, List, [], ◌∷◌, Array, arith,
}
use ea_x.Prelude.Search.{find, find_from}
use ea_x.Process.{Thread, Process, ProcessManager, process_manager_init, max_processes, slot}
use ea_x.Process.Lifecycle.{
  process_create, process_terminate, thread_create, process_get_info, process_wait, fresh_process,
}
use ea_x.Process.Schedule.{schedule_next_process, running}
use ea_x.Process.Schedule.Turns.{waits, waiting, schedules, schedules-running}
use ea_x.Process.Schedule.Highest.{schedule_next_process-Scheduled, Scheduled}
use ea_x.Process.Run.{
  Op, create, terminate, spawn, add_open_file, remove_open_file, block_for_io, step, run,
}
use ea_x.Process.Invariant.{IsValid, init-IsValid}
use ea_x.Process.Preserve.{run-IsValid}
use ea_x.Process.Views.{View, view, after, has_schedule}
use ea_x.Process.History.{run-after}
use ea_x.Process.Lifetime.{process_create-info}
use ea_x.Process.Wait.{process_wait-reaped, reaped}
use ea_x.Process.Capacity.{process_create-full}

abbrev zeros : Array ℕ
zeros i = 0

abbrev no_thread : Thread
no_thread = record {
  thread_id = 0;
  eip = 0;
  esp = 0;
  ebp = 0;
  eax = 0;
  ebx = 0;
  ecx = 0;
  edx = 0;
  esi = 0;
  edi = 0;
  state = 0;
  priority = 0;
  ticks_used = 0;
  time_quantum = 0;
  kernel_stack = 0;
  user_stack = 0;
}

abbrev no_process : Process
no_process = record {
  pid = 0;
  ppid = 0;
  uid = 0;
  gid = 0;
  state = 0;
  priority = 0;
  nice_value = 0;
  exit_code = 0;
  creation_time = 0;
  start_time = 0;
  total_cpu_time = 0;
  total_memory = 0;
  resident_memory = 0;
  virtual_memory = 0;
  threads = λ i. no_thread;
  thread_count = 0;
  name = zeros;
  working_dir = zeros;
  page_directory = 0;
  io_ports = zeros;
  open_files = zeros;
  open_file_count = 0;
  signal_handlers = zeros;
  signal_mask = 0;
  context_switches = 0;
  page_faults = 0;
  blocked_io_count = 0;
}

-- The static variable before any call.
abbrev zeroed : ProcessManager
zeroed = record {
  process_table = λ i. no_process;
  process_count = 0;
  next_pid = 0;
  ready_queue = 0;
  ready_queue_head = 0;
  ready_queue_tail = 0;
  current_pid = 0;
  current_process = none;
  current_thread = none;
  total_context_switches = 0;
  total_process_creations = 0;
  total_process_terminations = 0;
  total_thread_creations = 0;
  run_queue_length = 0;
  load_average_1 = 0;
  load_average_5 = 0;
  load_average_15 = 0;
  idle_ticks = 0;
  total_ticks = 0;
}

abbrev booted : ProcessManager
booted = process_manager_init zeroed

-- Two processes, of priorities 5 and 7; the second is terminated.
abbrev calls : List Op
calls = create zeros 5 0 ∷ create zeros 7 0 ∷ spawn 1 3 ∷ terminate 2 9 ∷ []

abbrev busy : ProcessManager
busy = run booted calls

run-IsValid_example : IsValid busy
run-IsValid_example = run-IsValid calls (init-IsValid zeroed)

schedule_next_process-Scheduled_example : Scheduled busy (schedule_next_process busy)
schedule_next_process-Scheduled_example = schedule_next_process-Scheduled run-IsValid_example

-- Process 1 gets a file and loses it, waits, and ends; the others are named in between.
abbrev history : List Op
history =
    add_open_file 1 9
    ∷ create zeros 4 0
    ∷ remove_open_file 1 9
    ∷ block_for_io 1
    ∷ block_for_io 2
    ∷ terminate 1 3
    ∷ []

first_there : process_get_info busy 1 ≡ some (busy.process_table 0)
unfolding run step process_create process_terminate thread_create process_manager_init fresh_process
    process_get_info slot find find_from
first_there = refl

unscheduled : has_schedule history ≡ false
unfolding has_schedule
unscheduled = refl

run-after_example :
    (p' : Process) × (process_get_info (run busy history) 1 ≡ some p')
    × (view p' ≡ after 1 history (view (busy.process_table 0)))
run-after_example = run-after history 1 run-IsValid_example unscheduled first_there

-- In the end it is a zombie.
history_view : (v : View) → (after 1 history v).state ≡ 4
unfolding after
history_view v = refl

process_wait-reaped_example : process_wait busy 2 ≡ reaped 2 (process_get_info busy 2)
process_wait-reaped_example = process_wait-reaped 2 run-IsValid_example

-- One process, of priority 5.
abbrev one : ProcessManager
one = run booted (create zeros 5 0 ∷ [])

abbrev born : Process
born = fresh_process no_process 1 0 5 0 zeros

one-IsValid : IsValid one
one-IsValid = run-IsValid (create zeros 5 0 ∷ []) (init-IsValid zeroed)

one_info : process_get_info one 1 ≡ some born
unfolding run step process_create process_manager_init process_get_info slot find find_from
one_info = refl

room : one.process_count < max_processes
unfolding run step process_create process_manager_init
room = omega arith

process_create-info_example :
    let (pid, m') = process_create one zeros 6 0 in
    (pid ≡ suc one.process_count)
    × (process_get_info one pid ≡ none)
    × ((q : ℕ)
        → process_get_info m' q ≡ (
            if q == pid
            then some (
                fresh_process
                  (one.process_table one.process_count)
                  (suc one.process_count)
                  one.current_pid
                  6
                  0
                  zeros)
            else process_get_info one q))
process_create-info_example = process_create-info zeros 6 0 one-IsValid room

abbrev full : ProcessManager
full = record zeroed { process_count = max_processes }

process_create-full_example :
    process_create (run full (terminate 3 0 ∷ [])) zeros 5 0 ≡ (0, run full (terminate 3 0 ∷ []))
process_create-full_example = process_create-full (terminate 3 0 ∷ []) zeros 5 0 full refl

-- A process with 256 open files.
abbrev loaded : Process
loaded = record no_process { pid = 1; open_file_count = 256 }

abbrev heavy : ProcessManager
heavy = record zeroed { process_table = λ i. loaded; process_count = 1 }

heavy_info : process_get_info heavy 1 ≡ some loaded
unfolding process_get_info slot find find_from
heavy_info = refl

-- Both processes are ready.
abbrev pair : ProcessManager
pair = run booted (create zeros 5 0 ∷ create zeros 7 0 ∷ [])

pair-IsValid : IsValid pair
pair-IsValid = run-IsValid (create zeros 5 0 ∷ create zeros 7 0 ∷ []) (init-IsValid zeroed)

pair_has : pair.process_count ≡ 2
unfolding run step process_create process_manager_init
pair_has = refl

pair_waits : waiting pair.process_table pair.process_count ≡ 2
unfolding waiting run step process_create process_manager_init
pair_waits = refl

pair_waiting : waiting pair.process_table pair.process_count ≤ 3
pair_waiting = omega (arith, pair_waits)

pair_count : 0 < pair.process_count
pair_count = omega (arith, pair_has)

schedules-running_example : (schedules 3 pair).process_table 0 ≡ (
    if waits (pair.process_table 0) then running (pair.process_table 0) else pair.process_table 0)
schedules-running_example = schedules-running 3 pair 0 pair-IsValid pair_waiting pair_count
