-- ===== src/Process/Lifetime.antt =====
-- What `process_create` does to a valid table.
use ea_x.Prelude.{
  ℕ, zero, suc, ◌<◌, ◌≡◌, refl, inl, inr, none, some, ◌==◌, if◌then◌else◌, Array, arith, ◌⊎◌,
}
use native.Mathlib.Decide.{dec_lt}
use ea_x.Process.{Process, ProcessManager, max_processes}
use ea_x.Process.Lifecycle.{process_create, process_get_info, fresh_process}
use ea_x.Process.Invariant.{IsValid, slot-suc, slot-none}
use ea_x.Process.Preserve.{process_create-IsValid}
use ea_x.Process.Lookup.{info-some, info-none}

-- In a valid table pid `q` is the process of slot `q - 1`.
pub info-suc :
    {m : ProcessManager} (i : ℕ)
    → IsValid m
    → i < m.process_count
    → process_get_info m (suc i) ≡ some (m.process_table i)
info-suc {m} i v h = info-some m (suc i) i (slot-suc i v h)

pub info-outside :
    {m : ProcessManager} (q : ℕ)
    → IsValid m
    → (q ≡ 0) ⊎ (m.process_count < q)
    → process_get_info m q ≡ none
info-outside {m} q v h = info-none m q (slot-none q v h)

module _ {m : ProcessManager} (name : Array ℕ) (priority uid : ℕ) (v : IsValid m)
    (room : m.process_count < max_processes) where
  abbrev pub newborn : Process
  newborn =
      fresh_process (m.process_table m.process_count) (suc m.process_count) m.current_pid priority
        uid name

  create_lem :
      ((process_create m name priority uid).0 ≡ suc m.process_count)
      × ((process_create m name priority uid).1.process_count ≡ suc m.process_count)
  unfolding process_create
  create_lem = ground (arith, v.next, v.count)

  create-table :
      (j : ℕ)
      → (process_create m name priority uid).1.process_table j
        ≡ (if m.process_count == j then newborn else m.process_table j)
  unfolding process_create
  create-table j = ground (arith, v.next)

  create-info :
      (q : ℕ)
      → process_get_info (process_create m name priority uid).1 q
        ≡ (if q == suc m.process_count then some newborn else process_get_info m q)
  create-info zero =
      let after = process_create-IsValid name priority uid v in
      ground (arith, info-outside zero v (inl refl), info-outside zero after (inl refl))
  create-info (suc i) =
      let after = process_create-IsValid name priority uid v in
      elim (dec_lt m.process_count i) [
        | yes beyond ↦ ground (
          arith,
          create_lem,
          info-outside (suc i) v (inr (omega arith)),
          info-outside (suc i) after (inr (omega (arith, create_lem.1))),
        )
        | no inside ↦ ground (
          arith,
          create_lem,
          create-table i,
          info-suc i v,
          info-suc i after (omega (arith, create_lem.1)),
        )
      ]

  -- In a valid table with a slot free, `process_create` returns a pid that no process had, and then
  -- that pid has the new process, and every other pid what it had before.
  pub process_create-info :
      let (pid, m') = process_create m name priority uid in
      (pid ≡ suc m.process_count)
      × (process_get_info m pid ≡ none)
      × ((q : ℕ)
          → process_get_info m' q ≡ (if q == pid then some newborn else process_get_info m q))
  process_create-info = (
    create_lem.0,
    rw create_lem.0 (info-outside (suc m.process_count) v (inr (omega arith))),
    λ q. rw create_lem.0 (create-info q),
  )
