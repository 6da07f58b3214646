-- ===== src/Devices/Ascending.antt =====
-- Lists of devices whose ids ascend.
use ea_x.Prelude.{
  ℕ, suc, ◌≤◌, ◌<◌, ◌≡◌, refl, inl, inr, Bool, none, some, List, [], ◌∷◌, ◌++◌, ◌==◌, if◌then◌else◌,
  arith, Bool-cases,
}
use ea_x.Prelude.Table.{first, remove_first, update_first}
use ea_x.Devices.{Device}
use ea_x.Devices.Refine.{has_id}

-- The ids ascend, from `lo` on and below `hi`.
abbrev pub Ascending : ℕ → List Device → ℕ → Type 0
Ascending lo [] hi = lo ≤ hi
Ascending lo (x ∷ xs) hi = (lo ≤ x.device_id) × Ascending (suc x.device_id) xs hi

pub Ascending-weaken :
    (lo' lo : ℕ) (xs : List Device) (hi : ℕ) → lo' ≤ lo → Ascending lo xs hi → Ascending lo' xs hi
Ascending-weaken lo' lo [] hi h v = omega arith
Ascending-weaken lo' lo (x ∷ xs) hi h (first_id, v) = (omega arith, v)

pub Ascending-append :
    (lo : ℕ) (xs : List Device) (hi : ℕ) (x : Device)
    → x.device_id ≡ hi
    → Ascending lo xs hi
    → Ascending lo (xs ++ x ∷ []) (suc hi)
Ascending-append lo [] hi x e v = (omega arith, omega arith)
Ascending-append lo (y ∷ ys) hi x e (h, v) = (h, Ascending-append (suc y.device_id) ys hi x e v)

pub Ascending-remove :
    (p : Device → Bool) (lo : ℕ) (xs : List Device) (hi : ℕ)
    → Ascending lo xs hi
    → Ascending lo (remove_first p xs) hi
unfolding remove_first
Ascending-remove p lo [] hi v = v
Ascending-remove p lo (x ∷ xs) hi (h, v) = elim (Bool-cases (p x)) [
  | inl hit ↦ rw hit (Ascending-weaken lo (suc x.device_id) xs hi (omega arith) v)
  | inr miss ↦ rw miss (h, Ascending-remove p (suc x.device_id) xs hi v)
]

pub Ascending-update :
    (p : Device → Bool) (f : Device → Device) (lo : ℕ) (xs : List Device) (hi : ℕ)
    → ((x : Device) → (f x).device_id ≡ x.device_id)
    → Ascending lo xs hi
    → Ascending lo (update_first p f xs) hi
unfolding update_first
Ascending-update p f lo [] hi same v = v
Ascending-update p f lo (x ∷ xs) hi same (h, v) = elim (Bool-cases (p x)) [
  | inl hit ↦ rw (hit, same x) (h, v)
  | inr miss ↦ rw miss (h, Ascending-update p f (suc x.device_id) xs hi same v)
]

pub first-below :
    (id lo : ℕ) (xs : List Device) (hi : ℕ)
    → id < lo
    → Ascending lo xs hi
    → first (has_id id) xs ≡ none
unfolding first
first-below id lo [] hi h v = refl
first-below id lo (x ∷ xs) hi h (at_least, v) =
    ground (arith, first-below id (suc x.device_id) xs hi (omega arith) v)

pub first-above :
    (id lo : ℕ) (xs : List Device) (hi : ℕ)
    → hi ≤ id
    → Ascending lo xs hi
    → (first (has_id id) xs ≡ none) × (lo ≤ hi)
unfolding first
first-above id lo [] hi h v = (refl, v)
first-above id lo (x ∷ xs) hi h (at_least, v) =
    let rest = first-above id (suc x.device_id) xs hi h v in
    (ground (arith, rest), omega (arith, rest.1))

pub first-remove :
    (q id lo : ℕ) (xs : List Device) (hi : ℕ)
    → Ascending lo xs hi
    → first (has_id q) (remove_first (has_id id) xs)
      ≡ (if q == id then none else first (has_id q) xs)
unfolding first remove_first
first-remove q id lo [] hi v = ground arith
first-remove q id lo (x ∷ xs) hi (h, v) =
    ground
      (arith, first-remove q id (suc x.device_id) xs hi v, first-below q (suc x.device_id) xs hi)

pub first-append :
    (q : ℕ) (xs : List Device) (x : Device)
    → first (has_id q) xs ≡ none
    → first (has_id q) (xs ++ x ∷ []) ≡ (if q == x.device_id then some x else none)
unfolding first
first-append q [] x e = ground arith
first-append q (y ∷ ys) x e = ground (arith, first-append q ys x)

pub first-append_found :
    (q : ℕ) (xs : List Device) (x y : Device)
    → first (has_id q) xs ≡ some y
    → first (has_id q) (xs ++ x ∷ []) ≡ some y
unfolding first
first-append_found q [] x y e = ground arith
first-append_found q (z ∷ zs) x y e = ground (arith, first-append_found q zs x y)
