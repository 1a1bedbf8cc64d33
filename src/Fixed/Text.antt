-- ===== src/Fixed/Text.antt =====
-- `FromStr` and `Display` of `Fixed` in fixed.rs. A text is the list of its characters' code
-- points; the message of a parse error leaves out the text that it quotes.
pub mod Digits
pub mod RoundTrip
pub mod Signs
use mathlib.Core.Option
use polymarket_watch_rust.Base.Int.{
  checked, i128_max, ltb_ℤ, magnitude, pos, sub_ℕ, ℤ, ◌*ℤ◌, ◌+ℤ◌, ◌-ℤ◌,
}
use polymarket_watch_rust.Base.Outcome.{
  BotError, Result, err, fail_if, ok, ok_or, parse, ◌>>=◌, ◌>>◌,
}
use polymarket_watch_rust.Base.Tests.{
  Bool, List, Option, [], false, if◌then◌else◌, leb, ltb, none, some, suc, true, zero, ℕ, ◌%◌, ◌&&◌,
  ◌*◌, ◌++◌, ◌+◌, ◌-◌, ◌/◌, ◌==◌, ◌||◌, ◌∷◌,
}
use polymarket_watch_rust.Fixed.{Fixed, scale}

abbrev pub Text : Type 0
Text = List ℕ

-- `char::is_whitespace`
unfoldable pub is_whitespace : ℕ → Bool
is_whitespace c =
    (leb 9 c && leb c 13)
    || c == 32
    || c == 0x85
    || c == 0xa0
    || c == 0x1680
    || (leb 0x2000 c && leb c 0x200a)
    || c == 0x2028
    || c == 0x2029
    || c == 0x202f
    || c == 0x205f
    || c == 0x3000

-- `char::len_utf8`
len_utf8 : ℕ → ℕ
len_utf8 c = if ltb c 0x80 then 1 else if ltb c 0x800 then 2 else if ltb c 0x10000 then 3 else 4

-- `str::len`
byte_len : Text → ℕ
unfolding len_utf8
byte_len [] = 0
byte_len (c ∷ s) = len_utf8 c + byte_len s

abbrev pub is_empty : Text → Bool
is_empty [] = true
is_empty (c ∷ s) = false

-- Characters dropped from the front, and from the back, as long as a test holds.
unfoldable pub trim_start_by : (ℕ → Bool) → Text → Text
trim_start_by p [] = []
trim_start_by p (c ∷ s) = let rest = trim_start_by p s in if p c then rest else c ∷ s

unfoldable pub trim_end_by : (ℕ → Bool) → Text → Text
trim_end_by p [] = []
trim_end_by p (c ∷ s) = let rest = trim_end_by p s in if is_empty rest && p c then [] else c ∷ rest

-- `str::trim`
unfoldable pub trim : Text → Text
unfolding trim_start_by trim_end_by is_whitespace
trim s = trim_end_by is_whitespace (trim_start_by is_whitespace s)

abbrev prepend : ℕ → List Text → List Text
prepend c [] = (c ∷ []) ∷ []
prepend c (part ∷ parts) = (c ∷ part) ∷ parts

-- `str::split`
unfoldable pub split : ℕ → Text → List Text
split sep [] = [] ∷ []
split sep (c ∷ s) = let parts = split sep s in if c == sep then [] ∷ parts else prepend c parts

abbrev is_digit : ℕ → Bool
is_digit c = leb b'0' c && leb c b'9'

-- The digits of `i128::from_str`, with the largest magnitude that the sign allows.
unfoldable pub scan_digits : ℕ → ℕ → Text → Option ℕ
scan_digits limit n [] = some n
scan_digits limit n (c ∷ s) =
    let m = n * 10 + (c - b'0') in if is_digit c && leb m limit then scan_digits limit m s else none

unfoldable pub scan_some : ℕ → Text → Option ℕ
unfolding scan_digits
scan_some limit [] = none
scan_some limit (c ∷ s) = scan_digits limit 0 (c ∷ s)

-- `i128::from_str`: an optional sign, and at least one digit.
parse_i128 : Text → Option ℤ
unfolding scan_some
parse_i128 [] = none
parse_i128 (c ∷ s) =
    if c == b'-'
    then Option.map (λ n. sub_ℕ 0 n) (scan_some (i128_max + 1) s)
    else Option.map (λ n. pos n) (scan_some i128_max (if c == b'+' then s else c ∷ s))

-- The loop over the fraction's digits, on `frac` and `scale`.
scan_fraction : ℕ → ℕ → Text → Option ℕ
scan_fraction frac place [] = some frac
scan_fraction frac place (c ∷ s) =
    if is_digit c then scan_fraction (frac + (c - b'0') * place) (place / 10) s else none

abbrev invalid : BotError
invalid = parse "invalid fixed-point value"

unfoldable pub whole_part : Text → Result ℤ
unfolding parse_i128
whole_part [] = ok (pos 0)
whole_part (c ∷ s) = ok_or (parse_i128 (c ∷ s)) invalid

-- `from_str` once the text is split at its dots: `whole`, `fraction`, and whether there is more.
unfoldable pub from_parts : Bool → Text → Text → Bool → Result Fixed
unfolding byte_len whole_part scan_fraction
from_parts negative whole fraction more = do
  fail_if more invalid
  fail_if (ltb 6 (byte_len fraction)) (parse "too many decimal places for fixed-point value")
  fail_if (is_empty whole && is_empty fraction) invalid
  integer ← whole_part whole
  frac ← ok_or (scan_fraction 0 100000 fraction) invalid
  scaled ← ok_or (checked (integer *ℤ pos scale)) (parse "fixed-point overflow")
  raw ← ok_or (checked (scaled +ℤ pos frac)) (parse "fixed-point overflow")
  ok (if negative then pos 0 -ℤ raw else raw)

-- What the three calls of `parts.next()` find.
unfoldable pub from_split : Bool → List Text → Result Fixed
unfolding from_parts
from_split negative [] = err invalid
from_split negative (whole ∷ []) = from_parts negative whole [] false
from_split negative (whole ∷ fraction ∷ []) = from_parts negative whole fraction false
from_split negative (whole ∷ fraction ∷ third ∷ rest) = from_parts negative whole fraction true

unfoldable pub from_trimmed : Text → Result Fixed
from_trimmed [] = err (parse "empty fixed-point value")
from_trimmed (c ∷ s) =
    if c == b'-' then from_split true (split b'.' s) else from_split false (split b'.' (c ∷ s))

-- `FromStr for Fixed`
unfoldable pub from_str : Text → Result Fixed
from_str s = from_trimmed (trim s)

-- `Display for u128`: decimal digits in front of `out`. A number is fuel enough for itself.
unfoldable pub emit : ℕ → ℕ → Text → Text
emit zero n out = (b'0' + n) ∷ out
emit (suc fuel) n out =
    let rest = emit fuel (n / 10) ((b'0' + n % 10) ∷ out) in
    if ltb n 10 then (b'0' + n) ∷ out else rest

unfoldable pub decimal : ℕ → Text
unfolding emit
decimal n = emit n n []

-- `{fraction:06}`
unfoldable pub pad_six : ℕ → Text
pad_six f =
    (b'0' + f / 100000 % 10)
    ∷ (b'0' + f / 10000 % 10)
    ∷ (b'0' + f / 1000 % 10)
    ∷ (b'0' + f / 100 % 10)
    ∷ (b'0' + f / 10 % 10)
    ∷ (b'0' + f % 10)
    ∷ []

-- `while frac.ends_with('0') { frac.pop(); }`
unfoldable pub strip_zeros : Text → Text
unfolding trim_end_by
strip_zeros = trim_end_by (λ c. c == b'0')

-- `Display for Fixed`
unfoldable pub display : Fixed → Text
display a =
    let whole = magnitude a / scale in
    let fraction = magnitude a % scale in
    let digits = decimal whole in
    let body =
      if fraction == 0 then digits else digits ++ (b'.' ∷ strip_zeros (pad_six fraction)) in
    if ltb_ℤ a (pos 0) then b'-' ∷ body else body
