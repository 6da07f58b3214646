-- ===== src/Process/Schedule/Highest.antt =====
-- Which process `schedule_next_process` picks.
use ea_x.Prelude.{
  ℕ, zero, suc, ◌+◌, ◌≤◌, ◌<◌, ◌≡◌, refl, inl, inr, true, false, Bool, some, ltb, ◌&&◌, Array,
  arith, Bool-cases,
}
use native.Mathlib.Decide.{ℕ_discrete}
use ea_x.Process.{Process, ProcessManager, slot, put}
use ea_x.Process.Invariant.{IsValid, slot-suc}
use ea_x.Process.Schedule.{
  is_runnable, Choice, consider, choose_from, choose, dispatch, running, counted,
  schedule_next_process,
}

-- No runnable process before slot `n` has a priority above `top`.
abbrev Below : Array Process → ℕ → ℕ → Type 0
Below table n top = (j : ℕ) → j < n → is_runnable (table j) ≡ true → (table j).priority ≤ top

-- Slot `i` is the first among those before `n` with the highest priority of a runnable process.
pub record Highest (table : Array Process) (n i : ℕ) : Type 0 where
  pub within : i < n
  pub runnable : is_runnable (table i) ≡ true
  pub positive : 0 < (table i).priority
  pub top : (j : ℕ) → j < n → is_runnable (table j) ≡ true → (table j).priority ≤ (table i).priority
  pub first :
      (j : ℕ) → j < i → is_runnable (table j) ≡ true → (table j).priority < (table i).priority

-- What the two variables say once the slots before `n` have been seen.
data Best (table : Array Process) (n : ℕ) (c : Choice) : Type 0 where
  nobody : c.next_pid ≡ 0 → c.highest_priority ≡ 0 → Below table n 0 → Best table n c
  somebody :
      (i : ℕ)
      → c.next_pid ≡ (table i).pid
      → c.highest_priority ≡ (table i).priority
      → Highest table n i
      → Best table n c

-- The bound of the slots before `n` extends to slot `n`.
Below-suc :
    (table : Array Process) (n top : ℕ)
    → Below table n top
    → (is_runnable (table n) ≡ true → (table n).priority ≤ top)
    → Below table (suc n) top
Below-suc table n top all new j h r = elim (ℕ_discrete j n) [
  | yes same ↦ ground (arith, new)
  | no other ↦ all j (omega arith) r
]

module _ (table : Array Process) (n : ℕ) (c : Choice) where
  abbrev improves : Bool
  improves = is_runnable (table n) && ltb c.highest_priority (table n).priority

  -- A round that takes the process of slot `n`.
  Highest-self : Below table n c.highest_priority → improves ≡ true → Highest table (suc n) n
  Highest-self all better = record {
    within = omega arith;
    runnable = ground arith;
    positive = ground arith;
    top = Below-suc table n _ (λ j lt r. ground (arith, all j lt r)) (λ r. omega arith);
    first = λ j lt r. ground (arith, all j lt r);
  }

  -- A round that passes over it.
  Below-skip :
      Below table n c.highest_priority → improves ≡ false → Below table (suc n) c.highest_priority
  Below-skip all worse = Below-suc table n _ all (λ r. ground arith)

  Highest-skip :
      (i : ℕ)
      → c.highest_priority ≡ (table i).priority
      → improves ≡ false
      → Highest table n i
      → Highest table (suc n) i
  Highest-skip i q worse high = record {
    within = omega (arith, high.within);
    runnable = high.runnable;
    positive = high.positive;
    top = rw q at (Below-skip (rw q high.top) worse);
    first = high.first;
  }

  -- One round of the loop.
  consider-Best : Best table n c → Best table (suc n) (consider (table n) c)
  unfolding consider
  consider-Best (nobody p q all) = elim (Bool-cases improves) [
    | inl better ↦ rw better (somebody n refl refl (Highest-self (rw q all) better))
    | inr worse ↦ rw worse (nobody p q (rw q at (Below-skip (rw q all) worse)))
  ]
  consider-Best (somebody i p q high) = elim (Bool-cases improves) [
    | inl better ↦ rw better (somebody n refl refl (Highest-self (rw q high.top) better))
    | inr worse ↦ rw worse (somebody i p q (Highest-skip i q worse high))
  ]

choose_from-Best :
    (table : Array Process) (rounds i n : ℕ) (c : Choice)
    → i + rounds ≡ n
    → Best table i c
    → Best table n (choose_from table rounds i c)
unfolding choose_from
choose_from-Best table zero i n c e b = let same : i ≡ n = omega arith in rw (← same) b
choose_from-Best table (suc rounds) i n c e b =
    choose_from-Best table rounds (suc i) n (consider (table i) c) (omega arith)
      (consider-Best table i c b)

-- The outcomes of `schedule_next_process`.
pub data Scheduled (m : ProcessManager) : ProcessManager → Type 0 where
  idle :
      ((j : ℕ)
        → j < m.process_count
        → is_runnable (m.process_table j) ≡ true
        → (m.process_table j).priority ≡ 0)
      → Scheduled m (counted m)
  picked :
      (i : ℕ)
      → Highest m.process_table m.process_count i
      → Scheduled m (record (put (counted m) i (running (m.process_table i))) {
        current_pid = (m.process_table i).pid;
        current_process = some i;
      })

dispatch-some :
    (m : ProcessManager) (pid i : ℕ)
    → slot m pid ≡ some i
    → dispatch m pid ≡ record (put m i (running (m.process_table i))) {
      current_pid = pid;
      current_process = some i;
    }
unfolding dispatch
dispatch-some m pid i e = rw (e, dispatch)

module _ {m : ProcessManager} (v : IsValid m) where
  counted-IsValid : IsValid (counted m)
  counted-IsValid = record { count = v.count; next = v.next; slots = v.slots }

  slot-pid : (i : ℕ) → i < m.process_count → slot (counted m) (m.process_table i).pid ≡ some i
  slot-pid i h = rw (v.slots i h).0 (slot-suc i counted-IsValid h)

  dispatch-picked :
      (i : ℕ)
      → (choose m).next_pid ≡ (m.process_table i).pid
      → Highest m.process_table m.process_count i
      → Scheduled m (schedule_next_process m)
  unfolding schedule_next_process
  dispatch-picked i p high =
      let positive : ltb 0 (m.process_table i).pid ≡ true = ground (arith, v.slots i high.within) in
      rw (p, positive, dispatch-some _ _ i (slot-pid i high.within)) (picked i high)

  -- In a valid table, `schedule_next_process` makes the first runnable process of highest priority
  -- the running one, or changes nothing but the count of context switches where no runnable process
  -- has a priority.
  pub schedule_next_process-Scheduled : Scheduled m (schedule_next_process m)
  unfolding schedule_next_process choose
  schedule_next_process-Scheduled = go (
      choose_from-Best m.process_table m.process_count 0 m.process_count
        (record { next_pid = 0; highest_priority = 0 }) (omega arith)
        (nobody refl refl (λ j lt. absurd (omega arith))))
    where
      go : Best m.process_table m.process_count (choose m) → Scheduled m (schedule_next_process m)
      go (nobody p q all) = rw p (idle (λ j lt r. omega (arith, all j lt r)))
      go (somebody i p q high) = dispatch-picked i p high
