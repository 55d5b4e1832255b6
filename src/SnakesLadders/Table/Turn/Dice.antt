-- ===== src/SnakesLadders/Table/Turn/Dice.antt =====
-- apps/sl-gameplay: the outcomes of the dice, `getRandomInteger` of libs/fabzen-common.
use empire_backend.Base.{ℕ, ◌-◌, ◌*◌, ◌≤◌, ◌<◌, ◌≡◌, arith}
use native.Mathlib.Nat.{div-lt_iff_lt-mul, mul-div_cancel_left}
use empire_backend.SnakesLadders.Table.Turn.{get_random_integer, get_random_dice_outcome}

-- A fraction below 1 gives one of 1 to 6, and each of them is given by some fraction.
pub get_random_dice_outcome-range :
    (num den : ℕ)
    → num < den
    → (1 ≤ get_random_dice_outcome num den)
      × (get_random_dice_outcome num den ≤ 6)
      × ((k : ℕ) → 1 ≤ k → k ≤ 6 → get_random_dice_outcome (k - 1) 6 ≡ k)
unfolding get_random_dice_outcome get_random_integer
get_random_dice_outcome-range num den h = (
  omega arith,
  omega (arith, (div-lt_iff_lt-mul {k = den} {x = 6 * num} {y = 6} (omega arith)).1 (omega arith)),
  λ k lo hi. let exact = mul-div_cancel_left (k - 1) {n = 6} (omega arith) in omega (arith, exact),
)
