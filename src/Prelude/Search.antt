-- ===== src/Prelude/Search.antt =====
-- `for (i = 0; i < n; i++) if (test(i)) { ...; return; }`: the index at which the search stops.
use ea_x.Prelude.{
  ℕ, zero, suc, ◌+◌, ◌≤◌, ◌<◌, ◌≡◌, refl, Bool, true, false, Option, none, some, inl, inr,
  if◌then◌else◌,
}
use native.Mathlib.Decide.{dec_lt, ℕ_discrete}
use ea_x.Prelude.{arith, Bool-cases, sym, ◌∙◌, ap}
use mathlib.Core.Bool.{true≢false}

unfoldable pub find_from : (ℕ → Bool) → ℕ → ℕ → Option ℕ
find_from p zero i = none
find_from p (suc rounds) i = elim (p i) [ true ↦ some i | false ↦ find_from p rounds (suc i) ]

unfoldable pub find : (ℕ → Bool) → ℕ → Option ℕ
unfolding find_from
find p n = find_from p n 0

-- What a search tells: the first index that passes, or that none does.
pub data Find (p : ℕ → Bool) (from to : ℕ) : Option ℕ → Type 0 where
  found :
      (i : ℕ)
      → from ≤ i
      → i < to
      → p i ≡ true
      → ((j : ℕ) → from ≤ j → j < i → p j ≡ false)
      → Find p from to (some i)
  missing : ((j : ℕ) → from ≤ j → j < to → p j ≡ false) → Find p from to none

module _ (p : ℕ → Bool) where
  -- A failed test at the start of a range.
  False-below :
      {i to : ℕ}
      → p i ≡ false
      → ((j : ℕ) → suc i ≤ j → j < to → p j ≡ false)
      → (j : ℕ) → i ≤ j
      → j < to
      → p j ≡ false
  False-below {i} e all j lo hi = elim (ℕ_discrete i j) [
    | yes same ↦ rw (← same) e
    | no other ↦ all j (omega arith) hi
  ]

  Find-skip : {i to : ℕ} {r : Option ℕ} → p i ≡ false → Find p (suc i) to r → Find p i to r
  Find-skip e (found k lo hi hit before) = found k (omega arith) hi hit (False-below e before)
  Find-skip e (missing all) = missing (False-below e all)

  pub find_from-Find : (n i to : ℕ) → i + n ≡ to → Find p i to (find_from p n i)
  unfolding find_from
  find_from-Find zero i to h = missing (λ j lo hi. absurd (omega arith))
  find_from-Find (suc n) i to h = elim (Bool-cases (p i)) [
    | inl hit ↦
        rw (hit, find_from)
          (found i (omega arith) (omega arith) hit (λ j lo hi. absurd (omega arith)))
    | inr miss ↦ rw (miss, find_from) (Find-skip miss (find_from-Find n (suc i) to (omega arith)))
  ]

  pub find-Find : (n : ℕ) → Find p 0 n (find p n)
  unfolding find
  find-Find n = find_from-Find n 0 n (omega arith)

  Find-unique :
      {n : ℕ} {r : Option ℕ} (i : ℕ)
      → Find p 0 n r
      → i < n
      → p i ≡ true
      → ((j : ℕ) → j < i → p j ≡ false)
      → r ≡ some i
  Find-unique i (missing all) h hit before = absurd (true≢false (sym hit ∙ all i (omega arith) h))
  Find-unique i (found k lo hi hit' before') h hit before = elim (dec_lt i k) [
    | yes lt ↦ absurd (true≢false (sym hit ∙ before' i (omega arith) lt))
    | no ge ↦ elim (dec_lt k i) [
      | yes lt ↦ absurd (true≢false (sym hit' ∙ before k lt))
      | no le ↦ ap some (omega arith)
    ]
  ]

  Find-none : {n : ℕ} {r : Option ℕ} → Find p 0 n r → ((j : ℕ) → j < n → p j ≡ false) → r ≡ none
  Find-none (missing all) h = refl
  Find-none (found i lo hi hit before) h = absurd (true≢false (sym hit ∙ h i hi))

  -- The search stops at the first index that passes.
  pub find-some :
      (n i : ℕ) → i < n → p i ≡ true → ((j : ℕ) → j < i → p j ≡ false) → find p n ≡ some i
  find-some n i = Find-unique i (find-Find n)

  -- It ends without a result where none passes.
  pub find-none : (n : ℕ) → ((j : ℕ) → j < n → p j ≡ false) → find p n ≡ none
  find-none n = Find-none (find-Find n)

-- One more round of the search.
find_from-suc :
    (p : ℕ → Bool) (n i e : ℕ)
    → i + n ≡ e
    → find_from p (suc n) i
      ≡ elim (find_from p n i) [ none ↦ if p e then some e else none | some j ↦ some j ]
unfolding find_from
find_from-suc p zero i e h = let here : e ≡ i = omega arith in rw here (ground arith)
find_from-suc p (suc n) i e h = elim (Bool-cases (p i)) [
  | inl hit ↦ rw (hit, find_from) refl
  | inr miss ↦ rw (miss, find_from) (find_from-suc p n (suc i) e (omega arith))
]

pub find-suc :
    (p : ℕ → Bool) (n : ℕ)
    → find p (suc n) ≡ elim (find p n) [ none ↦ if p n then some n else none | some j ↦ some j ]
unfolding find
find-suc p n = find_from-suc p n 0 n (omega arith)

-- A search looks at the tests below its bound only.
pub find-congr : (p q : ℕ → Bool) (n : ℕ) → ((j : ℕ) → j < n → p j ≡ q j) → find p n ≡ find q n
find-congr p q n same = go (find-Find q n)
  where
    go : {r : Option ℕ} → Find q 0 n r → find p n ≡ r
    go (found i lo hi hit before) =
        find-some p n i hi (same i hi ∙ hit)
          (λ j lt. same j (omega arith) ∙ before j (omega arith) lt)
    go (missing all) = find-none p n (λ j lt. same j lt ∙ all j (omega arith) lt)

pub find-lt : (p : ℕ → Bool) (n : ℕ) {i : ℕ} → find p n ≡ some i → (i < n) × (p i ≡ true)
find-lt p n e = go (find-Find p n) e
  where
    go : {i : ℕ} {r : Option ℕ} → Find p 0 n r → r ≡ some i → (i < n) × (p i ≡ true)
    go (found k lo hi hit before) e' = ground arith
    go (missing all) e' = cc

pub find-before : (p : ℕ → Bool) (n : ℕ) {i : ℕ} → find p n ≡ some i → (j : ℕ) → j < i → p j ≡ false
find-before p n e = go (find-Find p n) e
  where
    go : {i : ℕ} {r : Option ℕ} → Find p 0 n r → r ≡ some i → (j : ℕ) → j < i → p j ≡ false
    go {i} (found k lo hi hit before) e' j lt =
        let same : k ≡ i = cc in before j (omega arith) (omega arith)
    go (missing all) e' j lt = cc

pub find-all : (p : ℕ → Bool) (n : ℕ) → find p n ≡ none → (j : ℕ) → j < n → p j ≡ false
find-all p n e = go (find-Find p n) e
  where
    go : {r : Option ℕ} → Find p 0 n r → r ≡ none → (j : ℕ) → j < n → p j ≡ false
    go (found k lo hi hit before) e' j lt = cc
    go (missing all) e' j lt = all j (omega arith) lt
