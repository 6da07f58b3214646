-- ===== src/Prelude/Copied.antt =====
-- A copied string is the string.
use ea_x.Prelude.{ℕ, zero, suc, ◌<◌, ◌≡◌, refl, inl, inr, ◌==◌, Array, update, arith, Bool-cases}
use ea_x.Prelude.Arrays.{copy_from, copy_string, string_from}

copy_from-before :
    (src : Array ℕ) (rounds i : ℕ) (dst : Array ℕ) (j : ℕ)
    → j < i
    → copy_from src rounds i dst j ≡ dst j
unfolding copy_from
copy_from-before src zero i dst j h = refl
copy_from-before src (suc rounds) i dst j h =
    ground (arith, copy_from-before src rounds (suc i) (update dst i (src i)) j (omega arith))

string_from-copy_from :
    (src : Array ℕ) (rounds i : ℕ) (dst : Array ℕ)
    → string_from (copy_from src rounds i dst) rounds i ≡ string_from src rounds i
unfolding copy_from string_from
string_from-copy_from src zero i dst = refl
string_from-copy_from src (suc rounds) i dst = elim (Bool-cases (src i == 0)) [
  | inl ends ↦ ground arith
  | inr more ↦ ground (
    arith,
    copy_from-before src rounds (suc i) (update dst i (src i)) i (omega arith),
    string_from-copy_from src rounds (suc i) (update dst i (src i)),
  )
]

pub string_from-copy_string :
    (size : ℕ) (src dst : Array ℕ)
    → string_from (copy_string size src dst) size 0 ≡ string_from src size 0
unfolding copy_string
string_from-copy_string size src dst = string_from-copy_from src size 0 dst
