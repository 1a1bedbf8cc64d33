-- ===== src/Fixed/Examples.antt =====
-- The theorems on fixed.rs at concrete values.
use polymarket_watch_rust.Base.Int.{
  div_euclid, div_trunc, negsuc, pos, rem_euclid, ◌*ℤ◌, ◌+ℤ◌, ◌-ℤ◌, ◌≤ℤ◌,
}
use polymarket_watch_rust.Base.Outcome.{ok}
use polymarket_watch_rust.Base.Tests.{arith, refl, ◌∷◌, ◌≡◌}
use polymarket_watch_rust.Fixed.{
  checked_abs, checked_div, checked_mul, checked_mul_ceil, checked_sub, ticks_between,
}
use polymarket_watch_rust.Fixed.Rounding.{checked_mul_ceil-split}
use polymarket_watch_rust.Fixed.Text.{decimal, display, from_str}
use polymarket_watch_rust.Fixed.Text.RoundTrip.{from_str-display}
use polymarket_watch_rust.Fixed.Text.Signs.{from_str-minuses}

one_and_a_half : checked_mul_ceil (pos 1500001) (pos 1000001) ≡ ok (pos 1500003)
unfolding checked_mul_ceil div_euclid rem_euclid ◌*ℤ◌ ◌+ℤ◌
one_and_a_half = refl

rounded_down : checked_mul (pos 1500001) (pos 1000001) ≡ ok (pos 1500002)
unfolding checked_mul div_trunc ◌*ℤ◌
rounded_down = refl

half_of_one : checked_mul_ceil (pos 500001) (pos 1) ≡ ok (pos 1)
unfolding checked_mul_ceil div_euclid rem_euclid ◌*ℤ◌ ◌+ℤ◌
half_of_one = refl

half_of_two : checked_mul_ceil (pos 500001) (pos 1 +ℤ pos 1) ≡ ok (pos 2)
unfolding checked_mul_ceil div_euclid rem_euclid ◌*ℤ◌ ◌+ℤ◌
half_of_two = refl

checked_mul_ceil-split_example : (pos 2 ≤ℤ pos 1 +ℤ pos 1) × (pos 1 +ℤ pos 1 ≤ℤ pos 2 +ℤ pos 1)
checked_mul_ceil-split_example =
    checked_mul_ceil-split (pos 500001) (pos 1) (pos 1) half_of_one half_of_one half_of_two

a_third : checked_div (pos 1000000) (pos 3000000) ≡ ok (pos 333333)
unfolding checked_div div_trunc ◌*ℤ◌
a_third = refl

three_ticks : ticks_between (pos 500000) (pos 535000) (pos 10000) ≡ ok 3
unfolding ticks_between checked_sub checked_abs ◌-ℤ◌
three_ticks = refl

from_str-display_example : from_str (display (negsuc 1499999)) ≡ ok (negsuc 1499999)
from_str-display_example =
    from_str-display (negsuc 1499999) (omega arith, omega arith) (omega arith)

from_str-minuses_example : from_str (b'-' ∷ b'-' ∷ decimal 5) ≡ ok (pos 5000000)
from_str-minuses_example = from_str-minuses 5 (omega arith)
