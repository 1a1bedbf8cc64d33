-- ===== src/Fixed/Text/RoundTrip.antt =====
-- Printing a fixed-point number and reading it back, in fixed.rs.
use polymarket_watch_rust.Base.Int.{IsI128, i128_max, int_laws, neg_part, negsuc, pos, ℤ}
use polymarket_watch_rust.Base.Lists.{All}
use polymarket_watch_rust.Base.Outcome.{ok}
use polymarket_watch_rust.Base.Tests.{
  Bool-cases, [], ap, arith, false, inl, inr, refl, suc, true, ℕ, ◌%◌, ◌++◌, ◌/◌, ◌==◌, ◌∙◌, ◌∷◌,
  ◌≡◌, ◌≤◌,
}
use polymarket_watch_rust.Fixed.{Fixed, scale}
use polymarket_watch_rust.Fixed.Text.{
  Text, decimal, display, from_split, from_str, from_trimmed, is_whitespace, pad_six, split,
  strip_zeros, trim, trim_end_by, trim_start_by,
}
use polymarket_watch_rust.Fixed.Text.Digits.{
  IsDigit, decimal-digits, digits_of, emit-cons, emit-digits, fraction-digits, from_split-digits_of,
}

-- The signs, the point and the digits, and nothing that `trim` drops.
abbrev pub IsPlain : ℕ → Type 0
IsPlain c = (b'-' ≤ c) × (c ≤ b'9')

is_whitespace-plain : (c : ℕ) → IsPlain c → is_whitespace c ≡ false
unfolding is_whitespace
is_whitespace-plain c h = ground arith

trim_end_by-plain : (s : Text) → All IsPlain s → trim_end_by is_whitespace s ≡ s
unfolding trim_end_by
trim_end_by-plain [] h = refl
trim_end_by-plain (c ∷ s) h = ground (arith, is_whitespace-plain c h.0, trim_end_by-plain s h.1)

trim_start_by-plain : (s : Text) → All IsPlain s → trim_start_by is_whitespace s ≡ s
unfolding trim_start_by
trim_start_by-plain [] h = refl
trim_start_by-plain (c ∷ s) h = ground (arith, is_whitespace-plain c h.0)

pub trim-plain : (s : Text) → All IsPlain s → trim s ≡ s
unfolding trim
trim-plain s h = rw (trim_start_by-plain s h) (trim_end_by-plain s h)

pub All-IsPlain : (s : Text) → All IsDigit s → All IsPlain s
All-IsPlain [] h = tt
All-IsPlain (c ∷ s) h = (omega arith, All-IsPlain s h.1)

IsPlain-append : (s t : Text) → All IsPlain s → All IsPlain t → All IsPlain (s ++ t)
IsPlain-append [] t h k = k
IsPlain-append (c ∷ s) t h k = (h.0, IsPlain-append s t h.1 k)

digits_of-IsPlain : (m : ℕ) → All IsPlain (digits_of m)
digits_of-IsPlain m = elim (Bool-cases (m % scale == 0)) [
  | inl e ↦ rw e (All-IsPlain _ (decimal-digits (m / scale)))
  | inr e ↦ rw e (
      IsPlain-append _ _ (All-IsPlain _ (decimal-digits (m / scale)))
        (omega arith, All-IsPlain _ (fraction-digits (m % scale))))
]

decimal-cons : (n : ℕ) → (c : ℕ) × (s : Text) × (decimal n ≡ c ∷ s) × IsDigit c
unfolding decimal
decimal-cons n =
    let (c, s, e) = emit-cons n n [] (omega arith) in
    (c, s, e, (rw e at (emit-digits n n [] (omega arith) tt)).0)

-- The first character of a printed magnitude is a digit.
digits_of-cons : (m : ℕ) → (c : ℕ) × (s : Text) × (digits_of m ≡ c ∷ s) × IsDigit c
digits_of-cons m =
    let (c, s, e, d) = decimal-cons (m / scale) in
    elim (Bool-cases (m % scale == 0)) [
      | inl whole ↦ (c, s, rw (whole, e), d)
      | inr whole ↦ (c, s ++ (b'.' ∷ strip_zeros (pad_six (m % scale))), rw (whole, e), d)
    ]

from_trimmed-digit :
    (c : ℕ) (s : Text) → IsDigit c → from_trimmed (c ∷ s) ≡ from_split false (split b'.' (c ∷ s))
unfolding from_trimmed
from_trimmed-digit c s d = ground arith

from_trimmed-digits_of :
    (m : ℕ) → from_trimmed (digits_of m) ≡ from_split false (split b'.' (digits_of m))
from_trimmed-digits_of m = let (c, s, e, d) = digits_of-cons m in rw e (from_trimmed-digit c s d)

pub from_trimmed-minus : (s : Text) → from_trimmed (b'-' ∷ s) ≡ from_split true (split b'.' s)
unfolding from_trimmed
from_trimmed-minus s = refl

display-pos : (n : ℕ) → display (pos n) ≡ digits_of n
unfolding display
display-pos n = ground arith

display-neg : (n : ℕ) → display (negsuc n) ≡ b'-' ∷ digits_of (suc n)
unfolding display
display-neg n = ground arith

-- Every value but the smallest i128 is read back from its print.
pub from_str-display : (a : Fixed) → IsI128 a → neg_part a ≤ i128_max → from_str (display a) ≡ ok a
unfolding from_str
from_str-display (pos n) h room =
    rw (display-pos n, trim-plain _ (digits_of-IsPlain n), from_trimmed-digits_of)
      (from_split-digits_of false n h.0)
from_str-display (negsuc n) h room =
    rw
      (
        display-neg n,
        trim-plain (b'-' ∷ digits_of (suc n)) (omega arith, digits_of-IsPlain (suc n)),
        from_trimmed-minus,
      )
      (from_split-digits_of true (suc n) room ∙ ap (λ (z : ℤ). ok z) (omega int_laws))
