-- ===== src/Fixed/Text/Digits.antt =====
-- The text that fixed.rs prints, read back part by part.
use polymarket_watch_rust.Base.Int.{*ℤ_pos, i128_max, pos, ◌+ℤ◌, ◌-ℤ◌}
use polymarket_watch_rust.Base.Lists.{All, length}
use polymarket_watch_rust.Base.Outcome.{ok}
use polymarket_watch_rust.Base.Tests.{
  Bool, Bool-cases, [], arith, false, if◌then◌else◌, inl, inr, ltb, refl, some, suc, zero, ℕ, ◌%◌,
  ◌*◌, ◌++◌, ◌+◌, ◌-◌, ◌/◌, ◌<◌, ◌==◌, ◌∙◌, ◌∷◌, ◌≡◌, ◌≤◌,
}
use polymarket_watch_rust.Fixed.{scale}
use polymarket_watch_rust.Fixed.Text.{
  Text, byte_len, decimal, emit, from_parts, from_split, is_empty, pad_six, parse_i128, scan_digits,
  scan_fraction, scan_some, split, strip_zeros, trim_end_by, whole_part,
}

abbrev pub IsDigit : ℕ → Type 0
IsDigit c = (b'0' ≤ c) × (c ≤ b'9')

-- Reading back the digits of a number gives the number.
pub scan-emit :
    (fuel n limit : ℕ) (out : Text)
    → n ≤ fuel
    → n ≤ limit
    → scan_digits limit 0 (emit fuel n out) ≡ scan_digits limit n out
unfolding scan_digits emit
scan-emit zero n limit out h fits = ground arith
scan-emit (suc fuel) n limit out h fits =
    ground (arith, scan-emit fuel (n / 10) limit ((b'0' + n % 10) ∷ out))

pub emit-digits :
    (fuel n : ℕ) (out : Text) → n ≤ fuel → All IsDigit out → All IsDigit (emit fuel n out)
unfolding emit
emit-digits zero n out h d = ground arith
emit-digits (suc fuel) n out h d = ground (arith, emit-digits fuel (n / 10) ((b'0' + n % 10) ∷ out))

pub emit-cons :
    (fuel n : ℕ) (out : Text) → n ≤ fuel → (c : ℕ) × (s : Text) × (emit fuel n out ≡ c ∷ s)
unfolding emit
emit-cons zero n out h = (b'0' + n, out, refl)
emit-cons (suc fuel) n out h = elim (Bool-cases (ltb n 10)) [
  | inl small ↦ (b'0' + n, out, rw small)
  | inr large ↦ rw large (emit-cons fuel (n / 10) ((b'0' + n % 10) ∷ out) (ground arith))
]

pub split-digits : (s : Text) → All IsDigit s → split b'.' s ≡ s ∷ []
unfolding split
split-digits [] d = refl
split-digits (c ∷ s) d = ground (arith, split-digits s d.1)

split-append : (s t : Text) → All IsDigit s → split b'.' (s ++ (b'.' ∷ t)) ≡ s ∷ split b'.' t
unfolding split
split-append [] t d = ground arith
split-append (c ∷ s) t d = ground (arith, split-append s t d.1)

-- Dropping trailing zeros changes nothing that the fraction's loop reads.
scan-strip_zeros :
    (s : Text) (frac place : ℕ)
    → scan_fraction frac place (strip_zeros s) ≡ scan_fraction frac place s
unfolding scan_fraction strip_zeros
scan-strip_zeros [] frac place = refl
scan-strip_zeros (c ∷ s) frac place =
    ground (arith, scan-strip_zeros s (frac + (c - b'0') * place) (place / 10))

scan-pad_six : (f : ℕ) → f < scale → scan_fraction 0 100000 (pad_six f) ≡ some f
unfolding scan_fraction pad_six
scan-pad_six f h = ground arith

All-trim_end_by : (p : ℕ → Bool) (s : Text) → All IsDigit s → All IsDigit (trim_end_by p s)
unfolding trim_end_by
All-trim_end_by p [] d = tt
All-trim_end_by p (c ∷ s) d = ground (arith, All-trim_end_by p s d.1)

length-trim_end_by : (p : ℕ → Bool) (s : Text) → length (trim_end_by p s) ≤ length s
unfolding trim_end_by
length-trim_end_by p [] = omega arith
length-trim_end_by p (c ∷ s) = ground (arith, length-trim_end_by p s)

byte_len-digits : (s : Text) → All IsDigit s → byte_len s ≡ length s
unfolding byte_len
byte_len-digits [] d = refl
byte_len-digits (c ∷ s) d = ground (arith, byte_len-digits s d.1)

pub decimal-digits : (n : ℕ) → All IsDigit (decimal n)
unfolding decimal
decimal-digits n = emit-digits n n [] (omega arith) tt

parse-digits :
    (c : ℕ) (s : Text) (n : ℕ)
    → IsDigit c
    → scan_digits i128_max 0 (c ∷ s) ≡ some n
    → whole_part (c ∷ s) ≡ ok (pos n)
unfolding whole_part parse_i128 scan_some
parse-digits c s n d h = ground arith

-- The whole part of a printed number reads back as that number.
whole_part-decimal :
    (n : ℕ) → n ≤ i128_max → (whole_part (decimal n) ≡ ok (pos n)) × (is_empty (decimal n) ≡ false)
unfolding whole_part decimal
whole_part-decimal n h =
    let (c, s, e) = emit-cons n n [] (omega arith) in
    let d : IsDigit c = (rw e at (emit-digits n n [] (omega arith) tt)).0 in
    let read : scan_digits i128_max 0 (c ∷ s) ≡ scan_digits i128_max n [] =
      rw e at (scan-emit n n i128_max [] (omega arith) h) in
    (rw e (parse-digits c s n d read), rw e)

from_parts_lem :
    (negative : Bool) (whole fraction : Text) (w f : ℕ)
    → whole_part whole ≡ ok (pos w)
    → is_empty whole ≡ false
    → byte_len fraction ≤ 6
    → scan_fraction 0 100000 fraction ≡ some f
    → w * scale + f ≤ i128_max
    → from_parts negative whole fraction false
      ≡ ok (if negative then pos 0 -ℤ pos (w * scale + f) else pos (w * scale + f))
unfolding from_parts ◌+ℤ◌
from_parts_lem negative whole fraction w f hw he hb hf fits =
    rw (hf, hw) (ground (arith, *ℤ_pos w scale))

-- What `Display` prints of a magnitude, behind the sign.
abbrev pub digits_of : ℕ → Text
digits_of m =
    if m % scale == 0
    then decimal (m / scale)
    else decimal (m / scale) ++ (b'.' ∷ strip_zeros (pad_six (m % scale)))

pad_six-digits : (f : ℕ) → All IsDigit (pad_six f)
unfolding pad_six
pad_six-digits f = omega arith

pub fraction-digits : (f : ℕ) → All IsDigit (strip_zeros (pad_six f))
unfolding strip_zeros
fraction-digits f = All-trim_end_by _ (pad_six f) (pad_six-digits f)

fraction_len : (f : ℕ) → byte_len (strip_zeros (pad_six f)) ≤ 6
unfolding strip_zeros
fraction_len f =
    rw (byte_len-digits _ (fraction-digits f))
      (unfold pad_six in length-trim_end_by (λ c. c == b'0') (pad_six f))

from_split-one :
    (negative : Bool) (w : Text) → from_split negative (w ∷ []) ≡ from_parts negative w [] false
unfolding from_split
from_split-one negative w = refl

from_split-two :
    (negative : Bool) (w f : Text)
    → from_split negative (w ∷ f ∷ []) ≡ from_parts negative w f false
unfolding from_split
from_split-two negative w f = refl

from_parts-exact :
    (negative : Bool) (m f : ℕ) (fraction : Text)
    → m ≤ i128_max
    → f ≡ m % scale
    → byte_len fraction ≤ 6
    → scan_fraction 0 100000 fraction ≡ some f
    → from_parts negative (decimal (m / scale)) fraction false
      ≡ ok (if negative then pos 0 -ℤ pos m else pos m)
from_parts-exact negative m f fraction h e hb hf =
    let (hw, he) = whole_part-decimal (m / scale) (omega arith) in
    let whole : m / scale * scale + f ≡ m = omega arith in
    rw whole at (
      from_parts_lem negative (decimal (m / scale)) fraction (m / scale) f hw he hb hf
        (omega arith))

pub from_split-digits_of :
    (negative : Bool) (m : ℕ)
    → m ≤ i128_max
    → from_split negative (split b'.' (digits_of m))
      ≡ ok (if negative then pos 0 -ℤ pos m else pos m)
from_split-digits_of negative m h = elim (Bool-cases (m % scale == 0)) [
  | inl e ↦ rw e (
      rw (split-digits _ (decimal-digits (m / scale)), from_split-one)
        (from_parts-exact negative m 0 [] h (ground arith) (unfold byte_len in omega arith)
          (unfold scan_fraction in refl)))
  | inr e ↦ rw e (
      rw
        (
          split-append _ _ (decimal-digits (m / scale)),
          split-digits _ (fraction-digits (m % scale)),
          from_split-two,
        )
        (from_parts-exact negative m (m % scale) _ h refl (fraction_len (m % scale))
          (scan-strip_zeros _ 0 100000 ∙ scan-pad_six (m % scale) (omega arith))))
]
