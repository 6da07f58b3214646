-- ===== src/Process/Invariant.antt =====
-- What holds of the process table after any calls.
use ea_x.Prelude.{
  ℕ, suc, ◌≤◌, ◌<◌, ◌≡◌, refl, ◌∙◌, none, some, Array, update, arith, inl, inr, ◌⊎◌, Option-cases,
}
use ea_x.Prelude.Search.{find-some, find-none, find-lt}
use ea_x.Process.{
  Process, ProcessManager, process_manager_init, slot, put, modify, max_processes,
  max_threads_per_process, max_open_files,
}

-- The counts of a process stay within its arrays.
pub record Fits (p : Process) : Type 0 where
  pub threads : p.thread_count ≤ max_threads_per_process
  pub files : p.open_file_count ≤ max_open_files

-- A slot in use: slot `i` holds the process with pid `i + 1`.
abbrev pub Slot : ℕ → Process → Type 0
Slot i p = (p.pid ≡ suc i) × Fits p

pub record IsValid (m : ProcessManager) : Type 0 where
  pub count : m.process_count ≤ max_processes
  pub next : m.next_pid ≡ suc m.process_count
  pub slots : (i : ℕ) → i < m.process_count → Slot i (m.process_table i)

pub init-IsValid : (m : ProcessManager) → IsValid (process_manager_init m)
unfolding process_manager_init
init-IsValid m = record { count = omega arith; next = refl; slots = λ i h. absurd (omega arith) }

-- A write to a slot keeps the slots that it keeps.
pub Slot-update :
    {n : ℕ} (table : Array Process) (i : ℕ) (p : Process)
    → ((j : ℕ) → j < n → Slot j (table j))
    → Slot i p
    → (j : ℕ) → j < n
    → Slot j (update table i p j)
Slot-update table i p all new j h = ground (arith, all j h)

-- The search finds a slot in use, with the pid.
pub slot-lt :
    (m : ProcessManager) (pid : ℕ) {i : ℕ}
    → slot m pid ≡ some i
    → (i < m.process_count) × ((m.process_table i).pid ≡ pid)
unfolding slot
slot-lt m pid e = ground (arith, find-lt _ m.process_count e)

-- In a valid table the search for a pid is a subtraction.
pub slot-suc :
    {m : ProcessManager} (i : ℕ) → IsValid m → i < m.process_count → slot m (suc i) ≡ some i
unfolding slot
slot-suc {m} i v h =
    find-some _ m.process_count i h (ground (arith, v.slots i h))
      λ j lt. ground (arith, v.slots j (omega arith))

pub slot-none :
    {m : ProcessManager} (pid : ℕ)
    → IsValid m
    → (pid ≡ 0) ⊎ (m.process_count < pid)
    → slot m pid ≡ none
unfolding slot
slot-none {m} pid v h = find-none _ m.process_count λ j lt. ground (arith, v.slots j lt)

-- Replacing a process by one that belongs in its slot.
pub put-IsValid :
    {m : ProcessManager} (i : ℕ) (p : Process) → IsValid m → Slot i p → IsValid (put m i p)
put-IsValid {m} i p v new = record {
  count = v.count;
  next = v.next;
  slots = Slot-update m.process_table i p v.slots new;
}

-- A change that keeps a process in its slot.
abbrev pub Keeps : (Process → Process) → Type 0
Keeps f = (p : Process) → Fits p → ((f p).pid ≡ p.pid) × Fits (f p)

pub put_kept-IsValid :
    {m : ProcessManager} (i : ℕ) (f : Process → Process)
    → Keeps f
    → IsValid m
    → i < m.process_count
    → IsValid (put m i (f (m.process_table i)))
put_kept-IsValid {m} i f keep v h =
    let old = v.slots i h in
    let new = keep (m.process_table i) old.1 in
    put-IsValid i (f (m.process_table i)) v (new.0 ∙ old.0, new.1)

pub modify-IsValid :
    {m : ProcessManager} (pid : ℕ) (f : Process → Process)
    → Keeps f
    → IsValid m
    → IsValid (modify m pid f)
unfolding modify
modify-IsValid {m} pid f keep v = elim (Option-cases (slot m pid)) [
  | inl e ↦ rw (e, modify) v
  | inr (i, e) ↦ rw (e, modify) (put_kept-IsValid i f keep v (slot-lt m pid e).0)
]
