-- ===== src/Prelude/Table.antt =====
-- A table, the first entries of an array, as the list of those entries.
use ea_x.Prelude.{
  ℕ, zero, suc, ◌+◌, ◌≤◌, ◌<◌, ◌≡◌, refl, sym, ◌∙◌, ap, Bool, true, false, Option, none, some, inl,
  inr, List, [], ◌∷◌, ◌++◌, Array, update, if◌then◌else◌, arith, Bool-cases, length, update_self,
  update_ne,
}
use mathlib.Core.Path.{ap₂}
use native.Mathlib.Decide.{ℕ_discrete}
use ea_x.Prelude.Search.{find, find_from}

module _ {ℓ} {A : Type ℓ} where
  -- The `n` entries from index `i` on.
  unfoldable pub entries : Array A → ℕ → ℕ → List A
  entries a i zero = []
  entries a i (suc n) = a i ∷ entries a (suc i) n

  unfoldable pub first : (A → Bool) → List A → Option A
  first p [] = none
  first p (x ∷ xs) = if p x then some x else first p xs

  unfoldable pub remove_first : (A → Bool) → List A → List A
  remove_first p [] = []
  remove_first p (x ∷ xs) = if p x then xs else x ∷ remove_first p xs

  unfoldable pub update_first : (A → Bool) → (A → A) → List A → List A
  update_first p f [] = []
  update_first p f (x ∷ xs) = if p x then f x ∷ xs else x ∷ update_first p f xs

module _ {ℓ} {A : Type ℓ} where
  -- The entry at the index that a search found.
  abbrev pub at : Array A → Option ℕ → Option A
  at a none = none
  at a (some i) = some (a i)

  first-find_from :
      (p : A → Bool) (a : Array A) (n i : ℕ)
      → at a (find_from (λ j. p (a j)) n i) ≡ first p (entries a i n)
  unfolding find_from first entries
  first-find_from p a zero i = refl
  first-find_from p a (suc n) i = elim (Bool-cases (p (a i))) [
    | inl hit ↦ rw (hit, find_from) refl
    | inr miss ↦ rw (miss, find_from) (first-find_from p a n (suc i))
  ]

  -- A search through the table is a search through its list.
  pub first-find :
      (p : A → Bool) (a : Array A) (n : ℕ) → at a (find (λ j. p (a j)) n) ≡ first p (entries a 0 n)
  unfolding find
  first-find p a n = first-find_from p a n 0

  -- Two ranges that agree, index by index, have the same list.
  pub entries-congr :
      (b a : Array A) (n i k : ℕ)
      → ((j m : ℕ) → i ≤ j → j < i + n → j + k ≡ m + i → b j ≡ a m)
      → entries b i n ≡ entries a k n
  unfolding entries
  entries-congr b a zero i k same = refl
  entries-congr b a (suc n) i k same =
      ap₂ ◌∷◌ (same i k (omega arith) (omega arith) (omega arith)) (
        entries-congr b a n (suc i) (suc k)
          (λ j m lo hi e. same j m (omega arith) (omega arith) (omega arith)))

  pub length-entries : (a : Array A) (n i : ℕ) → length (entries a i n) ≡ n
  unfolding entries
  length-entries a zero i = refl
  length-entries a (suc n) i = omega (arith, length-entries a n (suc i))

  -- The list of a table with one more entry.
  entries-snoc :
      (a : Array A) (n i e : ℕ) → i + n ≡ e → entries a i (suc n) ≡ entries a i n ++ a e ∷ []
  unfolding entries
  entries-snoc a zero i e h = let same : e ≡ i = omega arith in rw same
  entries-snoc a (suc n) i e h = ap (λ xs. a i ∷ xs) (entries-snoc a n (suc i) e (omega arith))

  -- An entry appended behind the others.
  pub entries-append :
      (a : Array A) (n : ℕ) (x : A) → entries (update a n x) 0 (suc n) ≡ entries a 0 n ++ x ∷ []
  entries-append a n x =
      let same : entries (update a n x) 0 n ≡ entries a 0 n =
        entries-congr (update a n x) a n 0 0
          (λ j m lo hi e. let eq : j ≡ m = omega arith in rw eq (ground arith)) in
      entries-snoc (update a n x) n 0 n (omega arith)
      ∙ ap₂ (λ xs y. xs ++ y ∷ []) same (update_self a n x)

  module _ (p : A → Bool) where
    -- The entries behind the first that passes move up by one.
    pub entries-remove :
        (n i k : ℕ) (a b : Array A)
        → i ≤ k
        → k < i + suc n
        → p (a k) ≡ true
        → ((j : ℕ) → i ≤ j → j < k → p (a j) ≡ false)
        → ((j : ℕ) → j < k → b j ≡ a j)
        → ((j : ℕ) → k ≤ j → j < i + n → b j ≡ a (suc j))
        → entries b i n ≡ remove_first p (entries a i (suc n))
    unfolding entries remove_first
    entries-remove zero i k a b lo hi hit before same moved =
        let e : i ≡ k = omega arith in rw (e, hit) refl
    entries-remove (suc n) i k a b lo hi hit before same moved = elim (ℕ_discrete i k) [
      | yes e ↦
          rw (e, hit)
            (entries-congr b a (suc n) k (suc k) (λ j m from to h.
              let eq : m ≡ suc j = omega arith in rw eq (moved j (omega arith) (omega arith))))
      | no ne ↦ rw (before i (omega arith) (omega arith)) (
          ap₂ ◌∷◌ (same i (omega arith)) (
            entries-remove n (suc i) k a b (omega arith) (omega arith) hit
              (λ j from to. before j (omega arith) to) same
              (λ j from to. moved j from (omega arith))))
    ]

    pub entries-update :
        (f : A → A) (n i k : ℕ) (a : Array A)
        → i ≤ k
        → k < i + n
        → p (a k) ≡ true
        → ((j : ℕ) → i ≤ j → j < k → p (a j) ≡ false)
        → entries (update a k (f (a k))) i n ≡ update_first p f (entries a i n)
    unfolding entries update_first
    entries-update f zero i k a lo hi hit before = absurd (omega arith)
    entries-update f (suc n) i k a lo hi hit before = elim (ℕ_discrete i k) [
      | yes e ↦
          rw (e, hit)
            (ap₂ ◌∷◌ (update_self a k (f (a k))) (
              entries-congr (update a k (f (a k))) a n (suc k) (suc k)
                (λ j m from to h. let eq : j ≡ m = omega arith in rw eq (ground arith))))
      | no ne ↦ rw (before i (omega arith) (omega arith)) (
          ap₂ ◌∷◌ (update_ne a k i (f (a k)) (λ h. ne (sym h))) (
            entries-update f n (suc i) k a (omega arith) (omega arith) hit
              (λ j from to. before j (omega arith) to)))
    ]
