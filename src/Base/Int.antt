-- ===== src/Base/Int.antt =====
-- Signed integers over the native numbers, and the checked arithmetic of Rust's `i128`.
use polymarket_watch_rust.Base.Tests.{
  Bool, Option, ap, arith, if◌then◌else◌, inl, inr, leb, ltb, none, refl, some, suc, ℕ, ◌%◌, ◌&&◌,
  ◌*◌, ◌+◌, ◌-◌, ◌/◌, ◌<◌, ◌==◌, ◌≡◌, ◌≤◌, ◌⊎◌,
}

-- `negsuc n` is -(n + 1).
pub data ℤ : Type 0 where
  pos : ℕ → ℤ
  negsuc : ℕ → ℤ

abbrev pub pos_part : ℤ → ℕ
pos_part (pos n) = n
pos_part (negsuc n) = 0

abbrev pub neg_part : ℤ → ℕ
neg_part (pos n) = 0
neg_part (negsuc n) = suc n

-- a - b, as an integer.
abbrev pub sub_ℕ : ℕ → ℕ → ℤ
sub_ℕ a b = if leb b a then pos (a - b) else negsuc (b - a - 1)

infixl 65 ◌+ℤ◌ ◌-ℤ◌
infixl 70 ◌*ℤ◌
infix 50 ◌≤ℤ◌ ◌<ℤ◌
unfoldable pub ◌+ℤ◌ : ℤ → ℤ → ℤ
a +ℤ b = sub_ℕ (pos_part a + pos_part b) (neg_part a + neg_part b)

unfoldable pub ◌-ℤ◌ : ℤ → ℤ → ℤ
a -ℤ b = sub_ℕ (pos_part a + neg_part b) (neg_part a + pos_part b)

unfoldable pub ◌*ℤ◌ : ℤ → ℤ → ℤ
a *ℤ b =
    sub_ℕ (pos_part a * pos_part b + neg_part a * neg_part b)
      (pos_part a * neg_part b + neg_part a * pos_part b)

abbrev pub ◌≤ℤ◌ : ℤ → ℤ → Type 0
a ≤ℤ b = pos_part a + neg_part b ≤ pos_part b + neg_part a

abbrev pub ◌<ℤ◌ : ℤ → ℤ → Type 0
a <ℤ b = pos_part a + neg_part b < pos_part b + neg_part a

abbrev pub ltb_ℤ : ℤ → ℤ → Bool
ltb_ℤ a b = ltb (pos_part a + neg_part b) (pos_part b + neg_part a)

abbrev pub leb_ℤ : ℤ → ℤ → Bool
leb_ℤ a b = leb (pos_part a + neg_part b) (pos_part b + neg_part a)

abbrev pub eqb_ℤ : ℤ → ℤ → Bool
eqb_ℤ a b = pos_part a + neg_part b == pos_part b + neg_part a

-- `div_euclid` and `rem_euclid` by a positive number: the quotient is rounded down.
unfoldable pub div_euclid : ℤ → ℕ → ℤ
div_euclid (pos n) d = pos (n / d)
div_euclid (negsuc n) d = negsuc (n / d)

unfoldable pub rem_euclid : ℤ → ℕ → ℕ
rem_euclid (pos n) d = n % d
rem_euclid (negsuc n) d = d - 1 - n % d

-- `unsigned_abs`
abbrev pub magnitude : ℤ → ℕ
magnitude a = pos_part a + neg_part a

-- Rust's `/` and `%` on integers: the quotient is rounded toward zero.
unfoldable pub div_trunc : ℤ → ℤ → ℤ
div_trunc a b =
    let q = magnitude a / magnitude b in
    if ltb_ℤ a (pos 0)
    then (if ltb_ℤ b (pos 0) then pos q else sub_ℕ 0 q)
    else (if ltb_ℤ b (pos 0) then sub_ℕ 0 q else pos q)

-- The largest `i128`; the smallest is one further from zero.
abbrev pub i128_max : ℕ
i128_max = 170141183460469231731687303715884105727

abbrev pub u64_max : ℕ
u64_max = 18446744073709551615

abbrev pub in_i128 : ℤ → Bool
in_i128 a = leb (pos_part a) i128_max && leb (neg_part a) (i128_max + 1)

abbrev pub IsI128 : ℤ → Type 0
IsI128 a = (pos_part a ≤ i128_max) × (neg_part a ≤ i128_max + 1)

-- What `checked_add` and its kin return, given the exact result.
abbrev pub checked : ℤ → Option ℤ
checked a = if in_i128 a then some a else none

-- Arithmetic that a release build does not check wraps around.
unfoldable pub wrap_i128 : ℤ → ℤ
unfolding rem_euclid
wrap_i128 a =
    let r = rem_euclid a (2 * (i128_max + 1)) in
    if leb r i128_max then pos r else sub_ℕ r (2 * (i128_max + 1))

pub parts_exclusive : (a : ℤ) → (pos_part a ≡ 0) ⊎ (neg_part a ≡ 0)
parts_exclusive (pos n) = inr refl
parts_exclusive (negsuc n) = inl refl

pub +ℤ_parts :
    (a b : ℤ)
    → pos_part (a +ℤ b) + neg_part a + neg_part b ≡ neg_part (a +ℤ b) + pos_part a + pos_part b
unfolding ◌+ℤ◌
+ℤ_parts a b = ground arith

pub -ℤ_parts :
    (a b : ℤ)
    → pos_part (a -ℤ b) + neg_part a + pos_part b ≡ neg_part (a -ℤ b) + pos_part a + neg_part b
unfolding ◌-ℤ◌
-ℤ_parts a b = ground arith

pub *ℤ_parts :
    (a b : ℤ)
    → pos_part (a *ℤ b) + pos_part a * neg_part b + neg_part a * pos_part b
      ≡ neg_part (a *ℤ b) + pos_part a * pos_part b + neg_part a * neg_part b
unfolding ◌*ℤ◌
*ℤ_parts a b = ground arith

pub eq_of_parts : (a b : ℤ) → pos_part a + neg_part b ≡ pos_part b + neg_part a → a ≡ b
eq_of_parts a b h = ground arith

pub ruleset int_laws = (arith, +ℤ_parts, -ℤ_parts, *ℤ_parts, eq_of_parts, parts_exclusive)

-- `checked` never gives anything but the exact result, in range.
pub checked-eq-some : (a b : ℤ) → checked a ≡ some b → (b ≡ a) × IsI128 b
checked-eq-some a b h = ground arith

-- Multiplication distributes over addition, said of the parts.
pub *ℤ_distrib :
    (a b c : ℤ)
    → pos_part (a *ℤ (b +ℤ c)) + neg_part (a *ℤ b) + neg_part (a *ℤ c)
      ≡ neg_part (a *ℤ (b +ℤ c)) + pos_part (a *ℤ b) + pos_part (a *ℤ c)
*ℤ_distrib a b c = omega (
  int_laws,
  ap (λ (t : ℕ). pos_part a * t) (+ℤ_parts b c),
  ap (λ (t : ℕ). neg_part a * t) (+ℤ_parts b c),
)

pub *ℤ_pos : (a b : ℕ) → pos a *ℤ pos b ≡ pos (a * b)
unfolding ◌*ℤ◌
*ℤ_pos a b = ground arith

pub div_trunc_pos : (a b : ℕ) → div_trunc (pos a) (pos b) ≡ pos (a / b)
unfolding div_trunc
div_trunc_pos a b = ground arith

-- A value that is in range does not wrap.
pub wrap_i128_id : (a : ℤ) → IsI128 a → wrap_i128 a ≡ a
unfolding wrap_i128 rem_euclid
wrap_i128_id (pos n) h = ground arith
wrap_i128_id (negsuc n) h = ground arith

pub -ℤ_add_cancel : (a b : ℤ) → a -ℤ b +ℤ b ≡ a
-ℤ_add_cancel a b = omega int_laws
