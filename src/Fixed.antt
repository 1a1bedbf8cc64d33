-- ===== src/Fixed.antt =====
-- fixed.rs: decimal numbers with six places, held as a count of millionths in an `i128`.
mod Examples
pub mod Rounding
pub mod Text
use polymarket_watch_rust.Base.Int.{
  checked, div_euclid, div_trunc, eqb_ℤ, leb_ℤ, ltb_ℤ, magnitude, pos, pos_part, rem_euclid,
  u64_max, wrap_i128, ℤ, ◌*ℤ◌, ◌+ℤ◌, ◌-ℤ◌,
}
use polymarket_watch_rust.Base.Outcome.{Result, err, fail_if, ok, ok_or, risk, ◌>>=◌, ◌>>◌}
use polymarket_watch_rust.Base.Tests.{
  Bool, if◌then◌else◌, leb, ltb, none, some, ℕ, ◌&&◌, ◌*◌, ◌-◌, ◌/◌, ◌==◌, ◌^◌,
}

abbrev pub Fixed : Type 0
Fixed = ℤ

abbrev pub scale : ℕ
scale = 1000000

-- `Fixed::ZERO` and `Fixed::ONE`
abbrev pub zero_fixed : Fixed
zero_fixed = pos 0

abbrev pub one_fixed : Fixed
one_fixed = pos scale

unfoldable pub checked_mul : Fixed → Fixed → Result Fixed
checked_mul a b = elim (checked (a *ℤ b)) [
  | none ↦ err (risk "fixed-point multiplication overflow")
  | some v ↦ ok_or (checked (div_trunc v (pos scale))) (risk "fixed-point multiplication overflow")
]

unfoldable pub checked_mul_ceil : Fixed → Fixed → Result Fixed
checked_mul_ceil a b = do
  product ← ok_or (checked (a *ℤ b)) (risk "fixed-point multiplication overflow")
  let quotient = div_euclid product scale
  if rem_euclid product scale == 0
      then ok quotient
      else ok_or (checked (quotient +ℤ pos 1)) (risk "fixed-point multiplication overflow")

unfoldable pub checked_div : Fixed → Fixed → Result Fixed
checked_div a b = do
  fail_if (eqb_ℤ b (pos 0)) (risk "fixed-point division by zero")
  elim (checked (a *ℤ pos scale)) [
    | none ↦ err (risk "fixed-point division overflow")
    | some v ↦ ok_or (checked (div_trunc v b)) (risk "fixed-point division overflow")
  ]

unfoldable pub checked_div_int : Fixed → ℤ → Result Fixed
checked_div_int a n = do
  fail_if (eqb_ℤ n (pos 0)) (risk "fixed-point division by zero")
  ok_or (checked (div_trunc a n)) (risk "fixed-point division overflow")

unfoldable pub checked_add : Fixed → Fixed → Result Fixed
checked_add a b = ok_or (checked (a +ℤ b)) (risk "fixed-point addition overflow")

unfoldable pub checked_sub : Fixed → Fixed → Result Fixed
checked_sub a b = ok_or (checked (a -ℤ b)) (risk "fixed-point subtraction overflow")

unfoldable pub checked_abs : Fixed → Result Fixed
checked_abs a = ok_or (checked (pos (magnitude a))) (risk "fixed-point absolute overflow")

abbrev pub is_zero : Fixed → Bool
is_zero a = eqb_ℤ a (pos 0)

-- The distance is not negative once `checked_abs` has passed, and the tick is positive.
unfoldable pub ticks_between : Fixed → Fixed → Fixed → Result ℕ
unfolding checked_sub checked_abs
ticks_between a b tick = do
  fail_if (leb_ℤ tick (pos 0)) (risk "tick size must be positive")
  difference ← checked_sub a b
  absolute ← checked_abs difference
  let ticks = pos_part absolute / pos_part tick
  if leb ticks u64_max then ok ticks else err (risk "tick distance exceeds u64")

unfoldable pub is_aligned_to_tick : Fixed → Fixed → Bool
is_aligned_to_tick a tick =
    ltb_ℤ (pos 0) tick && magnitude a - magnitude a / magnitude tick * magnitude tick == 0

-- The last product is unchecked in the source, so it wraps in a release build.
unfoldable pub floor_to_decimals : Fixed → ℕ → Result Fixed
floor_to_decimals a decimals =
    if ltb 6 decimals
    then err (risk "fixed-point decimal precision exceeds six")
    else (let factor = 10 ^ (6 - decimals) in ok (wrap_i128 (div_euclid a factor *ℤ pos factor)))
