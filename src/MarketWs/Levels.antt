-- ===== src/MarketWs/Levels.antt =====
-- About the level checks of market_ws.rs and the operations of book.rs.
use polymarket_watch_rust.Base.Int.{eq_of_parts, leb_ℤ, pos, ◌<ℤ◌}
use polymarket_watch_rust.Base.Lists.{All, filter}
use polymarket_watch_rust.Base.Outcome.{ok}
use polymarket_watch_rust.Base.Tests.{
  Bool, Bool-cases, List, String, [], arith, false, if◌then◌else◌, inl, inr, none, refl, some, true,
  ◌∷◌, ◌≡◌, ◌⊎◌,
}
use polymarket_watch_rust.Book.{
  ask_order, bid_order, first_price, insert_level, set_size, sort_levels, upsert_level,
}
use polymarket_watch_rust.Fixed.{Fixed, is_aligned_to_tick, is_zero, one_fixed}
use polymarket_watch_rust.MarketWs.{PriceChange}
use polymarket_watch_rust.MarketWs.Validate.{
  crossed_sides, max_price, min_price, validate_delta_level, validate_level, validate_side,
  validate_snapshot_levels,
}
use polymarket_watch_rust.Types.{Level}

pub record IsValidLevel (tick : Fixed) (level : Level) : Type 0 where
  pub tick_positive : pos 0 <ℤ tick
  pub price_positive : pos 0 <ℤ level.price
  pub price_below_one : level.price <ℤ one_fixed
  pub aligned : is_aligned_to_tick level.price tick ≡ true
  pub size_positive : pos 0 <ℤ level.size

-- A level that passes with zero sizes allowed.
abbrev pub IsValidDelta : Fixed → PriceChange → Type 0
IsValidDelta tick c =
    (is_zero c.size ≡ true) ⊎ IsValidLevel tick (record { price = c.price; size = c.size })

validate_level-ok :
    (price size tick : Fixed)
    → validate_level price size tick false ≡ ok tt
    → IsValidLevel tick (record { price = price; size = size })
unfolding validate_level
validate_level-ok price size tick h = ground arith

pub validate_delta_level-ok :
    (c : PriceChange) (tick : Fixed)
    → validate_delta_level c.price c.size tick ≡ ok tt
    → IsValidDelta tick c
unfolding validate_delta_level
validate_delta_level-ok c tick h = elim (Bool-cases (is_zero c.size)) [
  | inl e ↦ inl e
  | inr e ↦ inr (ground arith)
]

validate_side-ok :
    (tick : Fixed) (duplicate : String) (seen : List Fixed) (levels : List Level)
    → validate_side tick duplicate seen levels ≡ ok tt
    → All (IsValidLevel tick) levels
unfolding validate_side
validate_side-ok tick duplicate seen [] h = tt
validate_side-ok tick duplicate seen (level ∷ levels) h = ground (
  arith,
  validate_level-ok level.price level.size tick,
  validate_side-ok tick duplicate (level.price ∷ seen) levels,
)

-- The largest and the smallest price of a side are what sorting puts first.
first-insert_bid :
    (x : Level) (ys : List Level)
    → first_price (insert_level bid_order x ys) ≡ elim (first_price ys) [
      | none ↦ some x.price
      | some p ↦ some (if leb_ℤ x.price p then p else x.price)
    ]
unfolding insert_level
first-insert_bid x [] = refl
first-insert_bid x (y ∷ ys) = ground (arith, eq_of_parts x.price y.price)

first-insert_ask :
    (x : Level) (ys : List Level)
    → first_price (insert_level ask_order x ys) ≡ elim (first_price ys) [
      | none ↦ some x.price
      | some p ↦ some (if leb_ℤ x.price p then x.price else p)
    ]
unfolding insert_level
first-insert_ask x [] = refl
first-insert_ask x (y ∷ ys) = ground (arith, eq_of_parts x.price y.price)

pub first-sort_bids : (xs : List Level) → first_price (sort_levels bid_order xs) ≡ max_price xs
unfolding sort_levels
first-sort_bids [] = refl
first-sort_bids (x ∷ xs) = rw (first-insert_bid, first-sort_bids xs)

pub first-sort_asks : (xs : List Level) → first_price (sort_levels ask_order xs) ≡ min_price xs
unfolding sort_levels
first-sort_asks [] = refl
first-sort_asks (x ∷ xs) = rw (first-insert_ask, first-sort_asks xs)

-- A snapshot that passes has two sides of valid levels that do not cross.
pub validate_snapshot_levels-ok :
    (bids asks : List Level) (tick : Fixed)
    → validate_snapshot_levels bids asks tick ≡ ok tt
    → All (IsValidLevel tick) bids
      × All (IsValidLevel tick) asks
      × (crossed_sides (max_price bids) (min_price asks) ≡ false)
unfolding validate_snapshot_levels
validate_snapshot_levels-ok bids asks tick h = ground (
  arith,
  validate_side-ok tick "duplicate_bid_price" [] bids,
  validate_side-ok tick "duplicate_ask_price" [] asks,
)

module _ (tick : Fixed) where
  All-insert_level :
      (before : Level → Level → Bool) (x : Level) (ys : List Level)
      → IsValidLevel tick x
      → All (IsValidLevel tick) ys
      → All (IsValidLevel tick) (insert_level before x ys)
  unfolding insert_level
  All-insert_level before x [] v vs = (v, tt)
  All-insert_level before x (y ∷ ys) v vs = elim (Bool-cases (before x y)) [
    | inl e ↦ rw e (v, vs)
    | inr e ↦ rw e (vs.0, All-insert_level before x ys v vs.1)
  ]

  pub All-sort_levels :
      (before : Level → Level → Bool) (xs : List Level)
      → All (IsValidLevel tick) xs
      → All (IsValidLevel tick) (sort_levels before xs)
  unfolding sort_levels
  All-sort_levels before [] vs = tt
  All-sort_levels before (x ∷ xs) vs =
      All-insert_level before x (sort_levels before xs) vs.0 (All-sort_levels before xs vs.1)

  All-filter :
      (p : Level → Bool) (xs : List Level)
      → All (IsValidLevel tick) xs
      → All (IsValidLevel tick) (filter p xs)
  All-filter p [] vs = tt
  All-filter p (x ∷ xs) vs = elim (Bool-cases (p x)) [
    | inl e ↦ rw e (vs.0, All-filter p xs vs.1)
    | inr e ↦ rw e (All-filter p xs vs.1)
  ]

  All-set_size :
      (price size : Fixed) (xs : List Level)
      → IsValidLevel tick (record { price = price; size = size })
      → All (IsValidLevel tick) xs
      → All (IsValidLevel tick) (set_size price size xs)
  unfolding set_size
  All-set_size price size [] v vs = (v, tt)
  All-set_size price size (x ∷ xs) v vs = ground (arith, All-set_size price size xs v vs.1)

  pub All-upsert_level :
      (c : PriceChange) (xs : List Level)
      → IsValidDelta tick c
      → All (IsValidLevel tick) xs
      → All (IsValidLevel tick) (upsert_level xs c.price c.size)
  unfolding upsert_level
  All-upsert_level c xs (inl zero_size) vs = rw zero_size (All-filter _ xs vs)
  All-upsert_level c xs (inr v) vs =
      let e : is_zero c.size ≡ false = ground (arith, v.size_positive) in
      rw e (All-set_size c.price c.size xs v vs)
