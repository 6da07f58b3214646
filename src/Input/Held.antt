-- ===== src/Input/Held.antt =====
-- input.c: the keys and buttons that are held down.
use native.Mathlib.Nat.{pow-zero, pow-succ', pow-le-pow_right, div-div-eq-div-mul}
use ea_x.Prelude.{
  ℕ, zero, suc, ◌*◌, ◌/◌, ◌-◌, ◌<◌, ◌^◌, ◌≡◌, refl, ap, sym, ◌∙◌, some, List, [], ◌∷◌, u8, ◌==◌,
  if◌then◌else◌, arith, bit_and, bit_or,
}
use ea_x.Prelude.Bits.{bit, bit-bit_and, bit-bit_or, bit-pow, bit-complement, bit_and-pow, bit-le}
use ea_x.Input.{
  InputManager, counted, with_button, keyboard_set_key, keyboard_get_key, mouse_set_position,
  mouse_set_button, mouse_get_button, mouse_set_wheel, mouse_set_acceleration, input_get_event,
  input_clear_queue,
}
use ea_x.Input.Queue.{
  Op, key, button, position, wheel, acceleration, event, clear, step, run, IsDefined, AllDefined,
}

bit-shift : (k n : ℕ) → bit_and (n / 2 ^ k) 1 ≡ bit n k
unfolding bit
bit-shift zero n =
    let whole : n / 2 ^ 0 ≡ n = rw (pow-zero 2) (omega arith) in
    let low : bit_and n 1 ≡ bit n 0 * 1 = bit_and-pow n 0 in rw whole (omega (arith, low))
bit-shift (suc k) n =
    let same : n / 2 ^ suc k ≡ n / 2 / 2 ^ k =
      rw (pow-succ' 2 k) (sym (div-div-eq-div-mul n 2 (2 ^ k))) in
    rw same (bit-shift k (n / 2))

-- A byte has the low 8 bits of a word.
bit-u8 : (k n : ℕ) → k < 8 → bit (u8 n) k ≡ bit n k
unfolding bit
bit-u8 zero n h = omega arith
bit-u8 (suc zero) n h = omega arith
bit-u8 (suc (suc zero)) n h = omega arith
bit-u8 (suc (suc (suc zero))) n h = omega arith
bit-u8 (suc (suc (suc (suc zero)))) n h = omega arith
bit-u8 (suc (suc (suc (suc (suc zero))))) n h = omega arith
bit-u8 (suc (suc (suc (suc (suc (suc zero)))))) n h = omega arith
bit-u8 (suc (suc (suc (suc (suc (suc (suc zero))))))) n h = omega arith
bit-u8 (suc (suc (suc (suc (suc (suc (suc (suc k)))))))) n h = absurd (omega arith)

with_button-bit :
    (state b p k : ℕ)
    → 2 ^ b < 2 ^ 32
    → k < 8
    → bit (with_button state b p) k ≡ (if b == k then (if p == 0 then 0 else 1) else bit state k)
with_button-bit state b p k hb hk = ground (
  arith,
  bit-u8 k (bit_and state (2 ^ 32 - 1 - 2 ^ b)) hk,
  bit-u8 k (bit_or state (2 ^ b)) hk,
  bit-bit_and state (2 ^ 32 - 1 - 2 ^ b) k,
  bit-bit_or state (2 ^ b) k,
  bit-pow b k,
  bit-complement 32 (2 ^ b) k hb,
  bit-le state k,
)

pow-lt : (b : ℕ) → b < 32 → 2 ^ b < 2 ^ 32
pow-lt b h = omega (arith, pow-le-pow_right {n = 2} (omega arith) {i = b} {j = 31} (omega arith))

-- What a call leaves of a key, and of a button, that was up, 0, or down, 1.
unfoldable pub key_after : ℕ → ℕ → Op → ℕ
key_after c state (key which is_pressed) =
    if which == c then (if is_pressed == 0 then 0 else 1) else state
key_after c state _ = state

unfoldable pub button_after : ℕ → ℕ → Op → ℕ
button_after b state (button which is_pressed) =
    if which == b then (if is_pressed == 0 then 0 else 1) else state
button_after b state _ = state

unfoldable pub after_all : (ℕ → Op → ℕ) → ℕ → List Op → ℕ
after_all after state [] = state
after_all after state (op ∷ ops) = after_all after (after state op) ops

abbrev pub key_of : InputManager → ℕ → ℕ
key_of m c = m.keyboard.key_state c

abbrev pub button_of : InputManager → ℕ → ℕ
button_of m b = bit m.mouse.button_state b

step-held :
    (op : Op) (m : InputManager) (c b : ℕ)
    → IsDefined op
    → b < 8
    → (m' : InputManager) × (step m op ≡ some m')
      × (key_of m' c ≡ key_after c (key_of m c) op)
      × (button_of m' b ≡ button_after b (button_of m b) op)
unfolding step key_after button_after keyboard_set_key mouse_set_position mouse_set_button
    mouse_set_wheel mouse_set_acceleration input_get_event input_clear_queue
step-held (key which is_pressed) m c b d h =
    (keyboard_set_key m which is_pressed, refl, ground arith, ground arith)
step-held (button which is_pressed) m c b d h = (
  counted (record m {
    mouse = record m.mouse { button_state = with_button m.mouse.button_state which is_pressed };
  }),
  ground arith,
  refl,
  with_button-bit m.mouse.button_state which is_pressed b (pow-lt which d) h,
)
step-held (position x y) m c b d h = (mouse_set_position m x y, refl, refl, refl)
step-held (wheel delta) m c b d h = (mouse_set_wheel m delta, refl, refl, refl)
step-held (acceleration level) m c b d h =
    (mouse_set_acceleration m level, refl, ground arith, ground arith)
step-held event m c b d h = ((input_get_event m).1, refl, ground arith, ground arith)
step-held clear m c b d h = (input_clear_queue m, refl, refl, refl)

run-after_all :
    (ops : List Op) (m : InputManager) (c b : ℕ)
    → AllDefined ops
    → b < 8
    → (m' : InputManager) × (run m ops ≡ some m')
      × (key_of m' c ≡ after_all (key_after c) (key_of m c) ops)
      × (button_of m' b ≡ after_all (button_after b) (button_of m b) ops)
unfolding run after_all
run-after_all [] m c b d h = (m, refl, refl, refl)
run-after_all (op ∷ ops) m c b (defined, d) h =
    let (m1, ran1, k1, b1) = step-held op m c b defined h in
    let (m', ran, k', b') = run-after_all ops m1 c b d h in
    (
      m',
      ground (arith, ran),
      k' ∙ ap (λ n. after_all (key_after c) n ops) k1,
      b' ∙ ap (λ n. after_all (button_after b) n ops) b1,
    )

mouse_get_button-bit :
    (m : InputManager) (b : ℕ) → b < 8 → mouse_get_button m b ≡ some (button_of m b)
unfolding mouse_get_button
mouse_get_button-bit m b h = ground (arith, bit-shift b m.mouse.button_state)

-- Every sequence of calls with buttons below 32 runs to its end. After it `keyboard_get_key` tells of
-- every key, and `mouse_get_button` of each of the eight buttons, whether the last call that set it
-- pressed it, or as it was at the start if none did: no other call changes it, none of another key or
-- button among them.
pub run-held :
    (ops : List Op) (m : InputManager) (c b : ℕ)
    → AllDefined ops
    → b < 8
    → (m' : InputManager) × (run m ops ≡ some m')
      × (keyboard_get_key m' c ≡ after_all (key_after c) (keyboard_get_key m c) ops)
      × (mouse_get_button m' b ≡ some (after_all (button_after b) (bit m.mouse.button_state b) ops))
unfolding keyboard_get_key
run-held ops m c b d h =
    let (m', ran, k', b') = run-after_all ops m c b d h in
    (m', ran, k', mouse_get_button-bit m' b h ∙ ap some b')
