-- ===== src/Fixed/Rounding.antt =====
-- How far the fixed-point products, quotients and roundings of fixed.rs are from the exact value.
use native.Mathlib.Nat.{one-le-pow}
use polymarket_watch_rust.Base.Int.{
  *ℤ_distrib, *ℤ_pos, IsI128, div_euclid, div_trunc, div_trunc_pos, i128_max, int_laws, magnitude,
  neg_part, negsuc, pos, pos_part, rem_euclid, u64_max, wrap_i128, wrap_i128_id, ℤ, ◌*ℤ◌, ◌+ℤ◌,
  ◌-ℤ◌, ◌<ℤ◌, ◌≤ℤ◌,
}
use polymarket_watch_rust.Base.Outcome.{ok}
use polymarket_watch_rust.Base.Tests.{
  arith, if◌then◌else◌, ℕ, ◌*◌, ◌+◌, ◌-◌, ◌/◌, ◌<◌, ◌==◌, ◌^◌, ◌≡◌, ◌≤◌,
}
use polymarket_watch_rust.Fixed.{
  Fixed, checked_abs, checked_div, checked_mul, checked_mul_ceil, checked_sub, floor_to_decimals,
  scale, ticks_between,
}

-- The Euclidean quotient and remainder by a positive number.
pub div_euclid_parts :
    (a : ℤ) (d : ℕ)
    → 0 < d
    → (pos_part (div_euclid a d) * d + rem_euclid a d + neg_part a
        ≡ pos_part a + neg_part (div_euclid a d) * d)
      × (rem_euclid a d < d)
unfolding div_euclid rem_euclid
div_euclid_parts (pos n) d h = grind arith
div_euclid_parts (negsuc n) d h = grind arith

-- A product that is rounded up is the least multiple of a millionth that covers the exact one.
pub checked_mul_ceil_lem :
    (a b : Fixed) {r : Fixed}
    → checked_mul_ceil a b ≡ ok r
    → (a *ℤ b ≤ℤ r *ℤ pos scale) × (r *ℤ pos scale <ℤ a *ℤ b +ℤ pos scale) × IsI128 r
unfolding checked_mul_ceil
checked_mul_ceil_lem a b h = grind (int_laws, div_euclid_parts (a *ℤ b) scale)

-- The exact product, rounded up to a millionth.
abbrev pub ceil_product : Fixed → Fixed → Fixed
ceil_product a b =
    let q = div_euclid (a *ℤ b) scale in if rem_euclid (a *ℤ b) scale == 0 then q else q +ℤ pos 1

-- A product that is rounded up is refused in no case in which the exact product fits an i128;
-- the result is then the exact product, rounded up to a millionth.
pub checked_mul_ceil_total :
    (a b : Fixed) → IsI128 (a *ℤ b) → checked_mul_ceil a b ≡ ok (ceil_product a b)
unfolding checked_mul_ceil
checked_mul_ceil_total a b h = grind (int_laws, div_euclid_parts (a *ℤ b) scale)

-- Between non-negative numbers the product that is rounded down is the exact one less its
-- remainder.
pub checked_mul_lem :
    (a b : Fixed) {r : Fixed}
    → pos 0 ≤ℤ a
    → pos 0 ≤ℤ b
    → checked_mul a b ≡ ok r
    → (pos 0 ≤ℤ r) × (r *ℤ pos scale ≤ℤ a *ℤ b) × (a *ℤ b <ℤ r *ℤ pos scale +ℤ pos scale)
unfolding checked_mul div_trunc
checked_mul_lem (pos a) (pos b) ha hb h = grind int_laws
checked_mul_lem (negsuc a) b ha hb h = absurd (omega arith)
checked_mul_lem a (negsuc b) ha hb h = absurd (omega arith)

-- Paying for a quantity in two parts costs at least as much as in one, and at most one
-- millionth more.
pub checked_mul_ceil-split :
    (p q₁ q₂ : Fixed) {n₁ n₂ n : Fixed}
    → checked_mul_ceil p q₁ ≡ ok n₁
    → checked_mul_ceil p q₂ ≡ ok n₂
    → checked_mul_ceil p (q₁ +ℤ q₂) ≡ ok n
    → (n ≤ℤ n₁ +ℤ n₂) × (n₁ +ℤ n₂ ≤ℤ n +ℤ pos 1)
checked_mul_ceil-split p q₁ q₂ {n₁} {n₂} {n} h₁ h₂ h = omega (
  int_laws,
  *ℤ_distrib p q₁ q₂,
  checked_mul_ceil_lem p q₁ h₁,
  checked_mul_ceil_lem p q₂ h₂,
  checked_mul_ceil_lem p (q₁ +ℤ q₂) h,
)

div_scaled :
    (a b : ℕ) (r : Fixed) → 0 < b → checked_div (pos a) (pos b) ≡ ok r → r ≡ pos (a * scale / b)
unfolding checked_div
div_scaled a b r hb h = ground (arith, *ℤ_pos a scale, div_trunc_pos (a * scale) b)

-- The quotient of a non-negative number by a positive one is rounded down.
pub checked_div_lem :
    (a b : Fixed) {r : Fixed}
    → pos 0 ≤ℤ a
    → pos 0 <ℤ b
    → checked_div a b ≡ ok r
    → (pos 0 ≤ℤ r) × (r *ℤ b ≤ℤ a *ℤ pos scale) × (a *ℤ pos scale <ℤ r *ℤ b +ℤ b)
checked_div_lem (pos a) (pos b) {r} ha hb h =
    rw (div_scaled a b r (omega arith) h, *ℤ_pos a scale, *ℤ_pos (a * scale / b) b) (grind int_laws)
checked_div_lem (negsuc a) b ha hb h = absurd (omega arith)
checked_div_lem (pos a) (negsuc b) ha hb h = absurd (omega arith)

ticks_value :
    (a b tick : Fixed) {n : ℕ}
    → ticks_between a b tick ≡ ok n
    → (0 < pos_part tick) × (n ≡ magnitude (a -ℤ b) / pos_part tick) × (n ≤ u64_max)
unfolding ticks_between checked_sub checked_abs
ticks_value a b tick h = grind arith

-- A tick distance that is computed is the number of whole ticks between the two prices, and
-- fits a u64.
pub ticks_between_lem :
    (a b tick : Fixed) {n : ℕ}
    → ticks_between a b tick ≡ ok n
    → (n * pos_part tick ≤ magnitude (a -ℤ b))
      × (magnitude (a -ℤ b) < n * pos_part tick + pos_part tick)
      × (n ≤ u64_max)
ticks_between_lem a b tick h =
    let (positive, exact, small) = ticks_value a b tick h in
    (rw exact (omega arith), rw exact (omega arith), small)

floor_lem :
    (a : Fixed) (f : ℕ)
    → 0 < f
    → IsI128 a
    → neg_part a + f ≤ i128_max + 1
    → (wrap_i128 (div_euclid a f *ℤ pos f) ≡ div_euclid a f *ℤ pos f)
      × (div_euclid a f *ℤ pos f ≤ℤ a)
      × (a <ℤ div_euclid a f *ℤ pos f +ℤ pos f)
floor_lem a f hf ha room =
    let parts = div_euclid_parts a f hf in
    (
      wrap_i128_id _ (omega (int_laws, parts), omega (int_laws, parts)),
      omega (int_laws, parts),
      omega (int_laws, parts),
    )

-- Quantising to at most six decimals rounds down to a multiple of the step, unless the value is
-- within a step of the smallest i128.
pub floor_to_decimals_lem :
    (a : Fixed) (decimals : ℕ)
    → decimals ≤ 6
    → IsI128 a
    → neg_part a + 10 ^ (6 - decimals) ≤ i128_max + 1
    → (q : ℤ) × (floor_to_decimals a decimals ≡ ok (q *ℤ pos (10 ^ (6 - decimals))))
      × (q *ℤ pos (10 ^ (6 - decimals)) ≤ℤ a)
      × (a <ℤ q *ℤ pos (10 ^ (6 - decimals)) +ℤ pos (10 ^ (6 - decimals)))
unfolding floor_to_decimals
floor_to_decimals_lem a decimals h ha room =
    let (exact, below, above) =
      floor_lem a (10 ^ (6 - decimals)) (one-le-pow (6 - decimals) 10 (omega arith)) ha room in
    (div_euclid a (10 ^ (6 - decimals)), ground arith, below, above)
