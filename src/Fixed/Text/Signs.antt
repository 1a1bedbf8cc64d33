-- ===== src/Fixed/Text/Signs.antt =====
-- About `FromStr` in fixed.rs: a text with two minus signs.
use polymarket_watch_rust.Base.Int.{i128_max, int_laws, pos, sub_ℕ}
use polymarket_watch_rust.Base.Lists.{All}
use polymarket_watch_rust.Base.Outcome.{ok}
use polymarket_watch_rust.Base.Tests.{[], ap, arith, false, some, true, ℕ, ◌*◌, ◌+◌, ◌∷◌, ◌≡◌, ◌≤◌}
use polymarket_watch_rust.Fixed.{scale}
use polymarket_watch_rust.Fixed.Text.{
  byte_len, decimal, from_parts, from_split, from_str, parse_i128, prepend, scan_digits,
  scan_fraction, scan_some, split, whole_part,
}
use polymarket_watch_rust.Fixed.Text.Digits.{decimal-digits, emit-cons, scan-emit, split-digits}
use polymarket_watch_rust.Fixed.Text.RoundTrip.{
  All-IsPlain, IsPlain, from_trimmed-minus, trim-plain,
}

split-minus : (n : ℕ) → split b'.' (b'-' ∷ decimal n) ≡ (b'-' ∷ decimal n) ∷ []
unfolding split
split-minus n = ap (prepend b'-') (split-digits (decimal n) (decimal-digits n))

scan_some-decimal : (n limit : ℕ) → n ≤ limit → scan_some limit (decimal n) ≡ some n
unfolding scan_some decimal
scan_some-decimal n limit h =
    let (c, s, e) = emit-cons n n [] (omega arith) in
    let read : scan_digits limit 0 (c ∷ s) ≡ scan_digits limit n [] =
      rw e at (scan-emit n n limit [] (omega arith) h) in
    rw e (grind (arith, read))

whole_part-minus : (n : ℕ) → n ≤ i128_max → whole_part (b'-' ∷ decimal n) ≡ ok (sub_ℕ 0 n)
unfolding whole_part parse_i128
whole_part-minus n h = grind (arith, scan_some-decimal n (i128_max + 1) (omega (arith, h)))

from_parts-minus :
    (n : ℕ)
    → n * scale ≤ i128_max
    → from_parts true (b'-' ∷ decimal n) [] false ≡ ok (pos (n * scale))
unfolding from_parts byte_len scan_fraction
from_parts-minus n h = grind (int_laws, whole_part-minus n (omega (arith, h)))

minuses-IsPlain : (n : ℕ) → All IsPlain (b'-' ∷ b'-' ∷ decimal n)
minuses-IsPlain n = (omega arith, (omega arith, All-IsPlain (decimal n) (decimal-digits n)))

-- A whole number behind two minus signs is read as that number, and not refused, when it is in
-- range.
pub from_str-minuses :
    (n : ℕ) → n * scale ≤ i128_max → from_str (b'-' ∷ b'-' ∷ decimal n) ≡ ok (pos (n * scale))
unfolding from_str from_split
from_str-minuses n h =
    rw
      (
        trim-plain (b'-' ∷ b'-' ∷ decimal n) (minuses-IsPlain n),
        from_trimmed-minus (b'-' ∷ decimal n),
        split-minus n,
      )
      (from_parts-minus n h)
