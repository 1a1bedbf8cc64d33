-- ===== src/Latency/Rank.antt =====
-- About latency.rs: percentiles and the samples that they are taken of.
use native.Mathlib.Nat.{mul-le-mul_right}
use polymarket_watch_rust.Base.Lists.{All, All-map, get_elem?, length}
use polymarket_watch_rust.Base.Tests.{
  Bool-cases, List, [], ap, arith, if◌then◌else◌, inl, inr, leb, ltb, refl, some, suc, true, zero,
  ℕ, ⊤, ◌*◌, ◌+◌, ◌-◌, ◌<◌, ◌∷◌, ◌≡◌, ◌≤◌,
}
use polymarket_watch_rust.Latency.{insert_value, percentile, rank, sort_values}

-- How many of the values are below `v`, and how many are at most `v`.
abbrev pub count_below : ℕ → List ℕ → ℕ
count_below v [] = 0
count_below v (x ∷ xs) = let n = count_below v xs in if ltb x v then suc n else n

abbrev pub count_at_most : ℕ → List ℕ → ℕ
count_at_most v [] = 0
count_at_most v (x ∷ xs) = let n = count_at_most v xs in if leb x v then suc n else n

abbrev pub IsAscending : List ℕ → Type 0
IsAscending [] = ⊤
IsAscending (x ∷ xs) = All (λ y. x ≤ y) xs × IsAscending xs

insert_value-All :
    (b x : ℕ) (ys : List ℕ) → b ≤ x → All (λ y. b ≤ y) ys → All (λ y. b ≤ y) (insert_value x ys)
unfolding insert_value
insert_value-All b x [] h hs = (h, tt)
insert_value-All b x (y ∷ ys) h hs = ground (arith, insert_value-All b x ys h hs.1)

insert_value-IsAscending : (x : ℕ) (ys : List ℕ) → IsAscending ys → IsAscending (insert_value x ys)
unfolding insert_value
insert_value-IsAscending x [] h = (tt, tt)
insert_value-IsAscending x (y ∷ ys) h = elim (Bool-cases (leb x y)) [
  | inl below ↦ grind (arith, below, All-map (still_below below) ys h.0)
  | inr above ↦ grind (
    arith,
    above,
    insert_value-All y x ys (ground (arith, above)) h.0,
    insert_value-IsAscending x ys h.1,
  )
]
  where
    still_below : leb x y ≡ true → (z : ℕ) → y ≤ z → x ≤ z
    still_below below z h = ground arith

sort_values-IsAscending : (xs : List ℕ) → IsAscending (sort_values xs)
unfolding sort_values
sort_values-IsAscending [] = tt
sort_values-IsAscending (x ∷ xs) =
    insert_value-IsAscending x (sort_values xs) (sort_values-IsAscending xs)

count_below-insert_value :
    (v x : ℕ) (ys : List ℕ) → count_below v (insert_value x ys) ≡ count_below v (x ∷ ys)
unfolding insert_value
count_below-insert_value v x [] = refl
count_below-insert_value v x (y ∷ ys) = ground (arith, count_below-insert_value v x ys)

count_at_most-insert_value :
    (v x : ℕ) (ys : List ℕ) → count_at_most v (insert_value x ys) ≡ count_at_most v (x ∷ ys)
unfolding insert_value
count_at_most-insert_value v x [] = refl
count_at_most-insert_value v x (y ∷ ys) = ground (arith, count_at_most-insert_value v x ys)

length-insert_value : (x : ℕ) (ys : List ℕ) → length (insert_value x ys) ≡ suc (length ys)
unfolding insert_value
length-insert_value x [] = refl
length-insert_value x (y ∷ ys) = ground (arith, length-insert_value x ys)

-- Sorting changes neither the counts nor the length.
sort_values-counts :
    (v : ℕ) (xs : List ℕ)
    → (count_below v (sort_values xs) ≡ count_below v xs)
      × (count_at_most v (sort_values xs) ≡ count_at_most v xs)
      × (length (sort_values xs) ≡ length xs)
unfolding sort_values
sort_values-counts v [] = (refl, refl, refl)
sort_values-counts v (x ∷ xs) =
    let ih = sort_values-counts v xs in
    let below = count_below-insert_value v x (sort_values xs) in
    let at_most = count_at_most-insert_value v x (sort_values xs) in
    let len = length-insert_value x (sort_values xs) in
    (ground (arith, ih, below), ground (arith, ih, at_most), ground (arith, ih, len))

count_below-none : (v : ℕ) (xs : List ℕ) → All (λ y. v ≤ y) xs → count_below v xs ≡ 0
count_below-none v [] h = refl
count_below-none v (x ∷ xs) h = ground (arith, count_below-none v xs h.1)

get_elem?-All :
    (P : ℕ → Type 0) (xs : List ℕ) (i : ℕ) {v : ℕ} → All P xs → get_elem? xs i ≡ some v → P v
get_elem?-All P [] i h hv = absurd cc
get_elem?-All P (x ∷ xs) zero h hv = grind (arith, h.0, hv)
get_elem?-All P (x ∷ xs) (suc i) h hv = get_elem?-All P xs i h.1 hv

-- Of ascending values, at most `i` are below the one at index `i`, and more than `i` are at most
-- that one.
get_elem?-counts :
    (xs : List ℕ) (i : ℕ) {v : ℕ}
    → IsAscending xs
    → get_elem? xs i ≡ some v
    → (count_below v xs ≤ i) × (i < count_at_most v xs)
get_elem?-counts [] i h hv = absurd cc
get_elem?-counts (x ∷ xs) zero {v} h hv =
    (grind (arith, count_below-none x xs h.0, hv), grind (arith, hv))
get_elem?-counts (x ∷ xs) (suc i) {v} h hv =
    let ih = get_elem?-counts xs i h.1 hv in
    let x_le = get_elem?-All (λ y. x ≤ y) xs i h.0 hv in
    (ground (arith, ih), ground (arith, ih, x_le))

get_elem?-total : (xs : List ℕ) (i : ℕ) → i < length xs → (v : ℕ) × (get_elem? xs i ≡ some v)
get_elem?-total [] i h = absurd (omega arith)
get_elem?-total (x ∷ xs) zero h = (x, refl)
get_elem?-total (x ∷ xs) (suc i) h = get_elem?-total xs i (omega (arith, h))

rank-bounds :
    (pct n : ℕ)
    → 1 ≤ pct
    → pct ≤ 100
    → 0 < n
    → (0 < rank pct n)
      × (rank pct n ≤ n)
      × (pct * n ≤ rank pct n * 100)
      × (rank pct n * 100 < pct * n + 100)
rank-bounds pct n h1 h2 hn =
    let most = mul-le-mul_right n h2 in
    let least = mul-le-mul_right n h1 in
    (grind (arith, least), grind (arith, most), grind arith, grind arith)

-- The percentile of some samples, at a percentage from 1 to 100, always exists: it is the
-- nearest-rank percentile, a value with at least that percentage of the samples at or below it
-- and less than that percentage strictly below it.
pub percentile_lem :
    (sample : ℕ) (more : List ℕ) (pct : ℕ)
    → 1 ≤ pct
    → pct ≤ 100
    → (v : ℕ) × (percentile (sample ∷ more) pct ≡ some v)
      × (pct * length (sample ∷ more) ≤ count_at_most v (sample ∷ more) * 100)
      × (count_below v (sample ∷ more) * 100 < pct * length (sample ∷ more))
unfolding percentile
percentile_lem sample more pct h1 h2 =
    let xs = sample ∷ more in
    let len = (sort_values-counts 0 xs).2 in
    let bounds = rank-bounds pct (length xs) h1 h2 (omega arith) in
    let same = ap (rank pct) len in
    let i = rank pct (length (sort_values xs)) - 1 in
    let (v, hv) = get_elem?-total (sort_values xs) i (omega (arith, bounds, len, same)) in
    let sorted = get_elem?-counts (sort_values xs) i (sort_values-IsAscending xs) hv in
    let counts = sort_values-counts v xs in
    (
      v,
      hv,
      omega (arith, bounds, same, sorted, counts),
      omega (arith, bounds, same, sorted, counts),
    )
