-- ===== src/Process/Schedule/Turns.antt =====
-- Calls of `schedule_next_process` in a row.
use ea_x.Prelude.{
  ℕ, zero, suc, ◌+◌, ◌-◌, ◌≤◌, ◌<◌, ◌≡◌, refl, ap, ◌∙◌, ◌⊎◌, inl, inr, true, false, Bool, ltb, ◌&&◌,
  ◌==◌, Array, update, if◌then◌else◌, arith, Bool-cases,
}
use ea_x.Process.{Process, ProcessManager}
use ea_x.Process.Invariant.{IsValid}
use ea_x.Process.Preserve.{schedule_next_process-IsValid}
use ea_x.Process.Schedule.{is_runnable, running, schedule_next_process}
use ea_x.Process.Schedule.Highest.{Scheduled, idle, picked, schedule_next_process-Scheduled}

-- The process is runnable and has a priority.
abbrev pub waits : Process → Bool
waits p = is_runnable p && ltb 0 p.priority

-- How many of the first `n` wait.
unfoldable pub waiting : Array Process → ℕ → ℕ
waiting table zero = 0
waiting table (suc n) = waiting table n + (if waits (table n) then 1 else 0)

unfoldable pub schedules : ℕ → ProcessManager → ProcessManager
schedules zero m = m
schedules (suc n) m = schedules n (schedule_next_process m)

waiting-above :
    (n i : ℕ) (table : Array Process) (p : Process)
    → n ≤ i
    → waiting (update table i p) n ≡ waiting table n
unfolding waiting
waiting-above zero i table p h = refl
waiting-above (suc n) i table p h = ground (arith, waiting-above n i table p (omega arith))

waiting-running :
    (n i : ℕ) (table : Array Process)
    → i < n
    → waits (table i) ≡ true
    → waiting (update table i (running (table i))) n + 1 ≡ waiting table n
unfolding waiting
waiting-running zero i table h w = absurd (omega arith)
waiting-running (suc n) i table h w = elim (Bool-cases (i == n)) [
  | inl same ↦
      let e : i ≡ n = ground arith in
      ground (arith, waiting-above n i table (running (table i)) (omega arith))
  | inr other ↦ ground (arith, waiting-running n i table (ground arith) w)
]

waiting-none :
    (n : ℕ) (table : Array Process)
    → ((j : ℕ) → j < n → is_runnable (table j) ≡ true → (table j).priority ≡ 0)
    → waiting table n ≡ 0
unfolding waiting
waiting-none zero table none_waits = refl
waiting-none (suc n) table none_waits =
    ground
      (arith, none_waits n (omega arith), waiting-none n table λ j h. none_waits j (omega arith))

none-waits :
    (n : ℕ) (table : Array Process) (j : ℕ) → waiting table n ≡ 0 → j < n → waits (table j) ≡ false
unfolding waiting
none-waits zero table j e h = absurd (omega arith)
none-waits (suc n) table j e h = elim (Bool-cases (j == n)) [
  | inl same ↦ let at : j ≡ n = ground arith in ground arith
  | inr other ↦ none-waits n table j (ground arith) (ground arith)
]

-- A process is as it was, or waited and is running.
abbrev Had : Process → Process → Type 0
Had p p' = (p' ≡ p) ⊎ ((waits p ≡ true) × (p' ≡ running p))

Had-then : (p p1 p2 : Process) → Had p p1 → Had p1 p2 → Had p p2
Had-then p p1 p2 (inl e) (inl e') = inl (e' ∙ e)
Had-then p p1 p2 (inl e) (inr (w, e')) = inr (rw e at w, e' ∙ ap running e)
Had-then p p1 p2 (inr (w, e)) (inl e') = inr (w, e' ∙ e)
Had-then p p1 p2 (inr (w, e)) (inr (w', e')) = absurd (let w2 = rw e at w' in ground arith)

-- Who no longer waits has had a turn, or never waited.
Had-over : (p p' : Process) → waits p' ≡ false → Had p p' → p' ≡ (if waits p then running p else p)
Had-over p p' over (inl e) = let never = rw e at over in rw never e
Had-over p p' over (inr (w, e)) = rw w e

step-waiting :
    (m m' : ProcessManager)
    → Scheduled m m'
    → (m'.process_count ≡ m.process_count)
      × (waiting m'.process_table m.process_count ≡ waiting m.process_table m.process_count - 1)
      × ((j : ℕ) → Had (m.process_table j) (m'.process_table j))
step-waiting m m' (idle none_waits) =
    (refl, ground (arith, waiting-none m.process_count m.process_table none_waits), λ j. inl refl)
step-waiting m m' (picked i high) =
    let w : waits (m.process_table i) ≡ true = ground (arith, high.runnable, high.positive) in
    (
      refl,
      omega (arith, waiting-running m.process_count i m.process_table high.within w),
      λ j. elim (Bool-cases (i == j)) [
        | inl same ↦
            let e : i ≡ j = ground arith in
            let at : m.process_table i ≡ m.process_table j = ap m.process_table e in
            inr (rw at at w, rw (same, at) refl)
        | inr other ↦ inl (ground arith)
      ],
    )

waiting-both :
    {c c1 : ℕ} (n : ℕ) (table table1 : Array Process)
    → c1 ≡ c
    → waiting table c1 ≡ waiting table1 c1 - n
    → waiting table c ≡ waiting table1 c - n
waiting-both n table table1 e h = rw e at h

schedules-waiting :
    (n : ℕ) (m : ProcessManager)
    → IsValid m
    → let m' = schedules n m in
      IsValid m'
      × (m'.process_count ≡ m.process_count)
      × (waiting m'.process_table m.process_count ≡ waiting m.process_table m.process_count - n)
      × ((j : ℕ) → Had (m.process_table j) (m'.process_table j))
unfolding schedules
schedules-waiting zero m v = (v, refl, omega arith, λ j. inl refl)
schedules-waiting (suc n) m v =
    let m1 = schedule_next_process m in
    let (count1, fewer1, had1) = step-waiting m m1 (schedule_next_process-Scheduled v) in
    let (v', count', fewer', had') = schedules-waiting n m1 (schedule_next_process-IsValid v) in
    let table' = (schedules n m1).process_table in
    let fewer2 : waiting table' m.process_count ≡ waiting m1.process_table m.process_count - n =
      waiting-both n table' m1.process_table count1 fewer' in
    let left : waiting table' m.process_count ≡ waiting m.process_table m.process_count - suc n =
      omega (arith, fewer1, fewer2) in
    (
      v',
      count' ∙ count1,
      left,
      λ j.
          Had-then (m.process_table j) (m1.process_table j) ((schedules n m1).process_table j)
            (had1 j) (had' j),
    )

-- In a valid table, call `schedule_next_process` at least as often in a row as there are processes that
-- are runnable and have a priority. Then each of these has had its turn and is marked as running, all of
-- them at once, and every other process is as it was: none is made ready again.
pub schedules-running :
    (n : ℕ) (m : ProcessManager) (j : ℕ)
    → IsValid m
    → waiting m.process_table m.process_count ≤ n
    → j < m.process_count
    → (schedules n m).process_table j
      ≡ (if waits (m.process_table j) then running (m.process_table j) else m.process_table j)
schedules-running n m j v enough inside =
    let (v', count, fewer, had) = schedules-waiting n m v in
    let table' = (schedules n m).process_table in
    let over = none-waits m.process_count table' j (omega (arith, fewer)) inside in
    Had-over (m.process_table j) (table' j) over (had j)
