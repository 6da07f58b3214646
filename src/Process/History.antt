-- ===== src/Process/History.antt =====
-- What a sequence of calls does to one process.
use ea_x.Prelude.{
  ℕ, zero, suc, ◌+◌, ◌≤◌, ◌<◌, ◌≡◌, refl, ap, ◌∙◌, inl, inr, true, false, some, List, [], ◌∷◌, ◌++◌,
  length, Array, update, u32, ltb, leb, ◌==◌, if◌then◌else◌, arith, Option-cases, Bool-cases,
}
use mathlib.Core.Path.{ap₂}
use ea_x.Prelude.Table.{entries, entries-congr, entries-append, length-entries}
use ea_x.Prelude.Copied.{string_from-copy_string}
use ea_x.Process.{Thread, Process, ProcessManager, slot, max_processes}
use ea_x.Process.Lifecycle.{process_create, process_get_info, terminated, fresh_thread}
use ea_x.Process.Attributes.{
  with_priority, add_file, without_file, blocked, unblocked, charged, moved_to,
}
use ea_x.Process.Run.{
  Op, create, terminate, spawn, schedule, set_priority, add_open_file, remove_open_file,
  block_for_io, unblock, update_cpu_time, set_working_dir, step, run,
}
use ea_x.Process.Invariant.{Fits, IsValid, slot-lt}
use ea_x.Process.Preserve.{step-IsValid}
use ea_x.Process.Lookup.{info-some, info-none, change, step-change, spawned}
use ea_x.Process.Lifetime.{process_create-info}
use ea_x.Process.Files.{clear_files-range}
use ea_x.Process.Views.{
  View, thread_view, view, without, names, effect, after, is_schedule, has_schedule,
}

entries-without :
    (fd : ℕ) (b a : Array ℕ) (n i : ℕ)
    → ((j : ℕ) → i ≤ j → j < i + n → b j ≡ (if a j == fd then 0 else a j))
    → entries b i n ≡ without fd (entries a i n)
unfolding entries without
entries-without fd b a zero i same = refl
entries-without fd b a (suc n) i same =
    ap₂ ◌∷◌ (same i (omega arith) (omega arith))
      (entries-without fd b a n (suc i) (λ j lo hi. same j (omega arith) (omega arith)))

without_file-view :
    (fd : ℕ) (p : Process)
    → entries (without_file fd p).open_files 0 p.open_file_count
      ≡ without fd (entries p.open_files 0 p.open_file_count)
without_file-view fd p =
    entries-without fd (without_file fd p).open_files p.open_files p.open_file_count 0
      (λ j lo hi. ground (arith, clear_files-range fd p.open_file_count 0 p.open_files j))

threads-append :
    (threads : Array Thread) (n : ℕ) (t : Thread)
    → entries (λ i. thread_view (update threads n t i)) 0 (suc n)
      ≡ entries (λ i. thread_view (threads i)) 0 n ++ thread_view t ∷ []
threads-append threads n t =
    entries-congr (λ i. thread_view (update threads n t i))
      (update (λ i. thread_view (threads i)) n (thread_view t)) (suc n) 0 0
      (λ j m lo hi e. let eq : j ≡ m = omega arith in rw eq (ground arith))
    ∙ entries-append (λ i. thread_view (threads i)) n (thread_view t)

spawn-view :
    (pid priority : ℕ) (p : Process)
    → Fits p
    → view (spawned priority p) ≡ effect (spawn pid priority) (view p)
spawn-view pid priority p f =
    let n = p.thread_count in
    let new = fresh_thread (p.threads n) n priority in
    let counted : length (entries (λ i. thread_view (p.threads i)) 0 n) ≡ n =
      length-entries (λ i. thread_view (p.threads i)) n 0 in
    elim (Bool-cases (leb 16 n)) [
      | inl full ↦ let over : ltb n 16 ≡ false = ground arith in rw (full, counted, over) refl
      | inr room ↦
          let under : ltb n 16 ≡ true = ground arith in
          let one : u32 (n + 1) ≡ suc n = omega arith in
          rw (room, counted, under, one, threads-append p.threads n new) refl
    ]

add_file-view :
    (pid fd : ℕ) (p : Process)
    → Fits p
    → view (add_file fd p) ≡ effect (add_open_file pid fd) (view p)
add_file-view pid fd p f =
    let n = p.open_file_count in
    let counted : length (entries p.open_files 0 n) ≡ n = length-entries p.open_files n 0 in
    elim (Bool-cases (ltb n 256)) [
      | inl room ↦
          let one : u32 (n + 1) ≡ suc n = omega arith in
          rw (counted, room, one, entries-append p.open_files n fd) refl
      | inr full ↦ rw (counted, full) refl
    ]

-- A process that `process_get_info` finds is in use, and its counts are in order.
found :
    {m : ProcessManager} (q : ℕ) {p : Process}
    → IsValid m
    → process_get_info m q ≡ some p
    → (q ≤ m.process_count) × Fits p
found {m} q {p} v e = elim (Option-cases (slot m q)) [
  | inl miss ↦ absurd (let none_there = info-none m q miss in ground (arith, e, none_there))
  | inr (i, hit) ↦
      let there = info-some m q i hit in
      let (inside, pid) = slot-lt m q hit in
      let same : m.process_table i ≡ p = ground (arith, e, there) in
      let (numbered, fits) = v.slots i inside in
      (omega (arith, inside, pid, numbered), rw same at fits)
]

-- A new process takes the place of none.
create-keeps :
    {m : ProcessManager} (name : Array ℕ) (priority uid q : ℕ) {p : Process}
    → IsValid m
    → process_get_info m q ≡ some p
    → process_get_info (process_create m name priority uid).1 q ≡ some p
create-keeps {m} name priority uid q {p} v e =
    elim (Bool-cases (leb max_processes m.process_count)) [
      | inl full ↦ unfold process_create in rw full e
      | inr room ↦
          let (pid, absent, same) = process_create-info name priority uid v (ground arith) in
          let (low, fits) = found q v e in ground (arith, same q, pid, e, low)
    ]

-- What is seen of process `q` in `m'`, where `v` was seen before an operation.
abbrev Seen : ProcessManager → ℕ → View → Type 0
Seen m' q v = (p : Process) × (process_get_info m' q ≡ some p) × (view p ≡ v)

change-Seen :
    (m : ProcessManager) (op : Op) (pid q : ℕ) (f : Process → Process) {p : Process}
    → change op ≡ some (pid, f)
    → process_get_info m q ≡ some p
    → view (f p) ≡ effect op (view p)
    → Seen (step m op) q (if q == pid then effect op (view p) else view p)
change-Seen m op pid q f {p} e there seen = elim (Bool-cases (q == pid)) [
  | inl named ↦ (f p, ground (arith, step-change m op pid f e q, there), rw named seen)
  | inr other ↦ (p, ground (arith, step-change m op pid f e q, there), rw other refl)
]

step-Seen :
    {m : ProcessManager} (op : Op) (q : ℕ) {p : Process}
    → IsValid m
    → is_schedule op ≡ false
    → process_get_info m q ≡ some p
    → Seen (step m op) q (if names op q then effect op (view p) else view p)
unfolding step change
step-Seen {m} (create name priority uid) q {p} v free e =
    (p, create-keeps name priority uid q v e, refl)
step-Seen {m} (terminate pid exit_code) q {p} v free e =
    change-Seen m (terminate pid exit_code) pid q (terminated exit_code) refl e refl
step-Seen {m} (spawn pid priority) q {p} v free e =
    change-Seen m (spawn pid priority) pid q (spawned priority) refl e
      (spawn-view pid priority p (found q v e).1)
step-Seen {m} schedule q {p} v free e = absurd (ground (arith, free))
step-Seen {m} (set_priority pid priority) q {p} v free e =
    change-Seen m (set_priority pid priority) pid q (with_priority priority) refl e refl
step-Seen {m} (add_open_file pid fd) q {p} v free e =
    change-Seen m (add_open_file pid fd) pid q (add_file fd) refl e
      (add_file-view pid fd p (found q v e).1)
step-Seen {m} (remove_open_file pid fd) q {p} v free e =
    change-Seen m (remove_open_file pid fd) pid q (without_file fd) refl e
      (rw (without_file-view fd p) refl)
step-Seen {m} (block_for_io pid) q {p} v free e =
    change-Seen m (block_for_io pid) pid q blocked refl e refl
step-Seen {m} (unblock pid) q {p} v free e = change-Seen m (unblock pid) pid q unblocked refl e refl
step-Seen {m} (update_cpu_time pid ticks) q {p} v free e =
    change-Seen m (update_cpu_time pid ticks) pid q (charged ticks) refl e refl
step-Seen {m} (set_working_dir pid dir) q {p} v free e =
    change-Seen m (set_working_dir pid dir) pid q (moved_to dir) refl e
      (rw (string_from-copy_string 256 dir p.working_dir) refl)

-- In a valid table, after any sequence of calls without `schedule_next_process`, a process that was there
-- is found under its pid, and what is seen of it is what the calls that name it make of what was seen,
-- one after the other, and no other: a call that ends it makes it a zombie and keeps its exit code,
-- blocking and unblocking make it blocked and ready, its threads and its open files are added at the end
-- of their lists, up to 16 and 256, a file that is removed leaves a 0, ticks are added modulo 2^32, and
-- the working directory is the string given, cut after 256 characters.
pub run-after :
    (ops : List Op) {m : ProcessManager} (q : ℕ) {p : Process}
    → IsValid m
    → has_schedule ops ≡ false
    → process_get_info m q ≡ some p
    → (p' : Process) × (process_get_info (run m ops) q ≡ some p') × (view p' ≡ after q ops (view p))
unfolding run has_schedule after
run-after [] q {p} v free e = (p, e, refl)
run-after (op ∷ ops) q {p} v free e =
    let (p1, there, seen) = step-Seen op q v (ground (arith, free)) e in
    let (p', ran, shown) = run-after ops q (step-IsValid op v) (ground (arith, free)) there in
    (p', ran, shown ∙ ap (after q ops) seen)
