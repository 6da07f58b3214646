-- ===== src/Process/Schedule.antt =====
-- prcs.c: `schedule_next_process`.
pub mod Highest
pub mod Turns
use ea_x.Prelude.{
  ℕ, zero, suc, ◌+◌, Bool, ◌&&◌, ◌||◌, none, some, Array, u64, ltb, ◌==◌, if◌then◌else◌,
}
use ea_x.Process.{Process, ProcessManager, slot, put, state_ready, state_created, state_running}

abbrev pub is_runnable : Process → Bool
is_runnable p = (p.state == state_ready) || (p.state == state_created)

-- The two variables of the first loop.
pub record Choice : Type 0 where
  pub next_pid : ℕ
  pub highest_priority : ℕ

unfoldable pub consider : Process → Choice → Choice
consider p c =
    if is_runnable p && ltb c.highest_priority p.priority
    then record { next_pid = p.pid; highest_priority = p.priority }
    else c

-- The first loop, `rounds` slots from slot `i` on.
unfoldable pub choose_from : Array Process → ℕ → ℕ → Choice → Choice
unfolding consider
choose_from table zero i c = c
choose_from table (suc rounds) i c = choose_from table rounds (suc i) (consider (table i) c)

unfoldable pub choose : ProcessManager → Choice
unfolding choose_from
choose m =
    choose_from m.process_table m.process_count 0 (record { next_pid = 0; highest_priority = 0 })

abbrev pub running : Process → Process
running p = record p { state = state_running }

-- The second half: the process with the chosen pid becomes the running one.
unfoldable pub dispatch : ProcessManager → ℕ → ProcessManager
dispatch m pid = elim (slot m pid) [
  | none ↦ record m { current_pid = pid }
  | some i ↦ record (put m i (running (m.process_table i))) {
    current_pid = pid;
    current_process = some i;
  }
]

abbrev pub counted : ProcessManager → ProcessManager
counted m = record m { total_context_switches = u64 (m.total_context_switches + 1) }

unfoldable pub schedule_next_process : ProcessManager → ProcessManager
schedule_next_process m =
    if ltb 0 (choose m).next_pid then dispatch (counted m) (choose m).next_pid else counted m
