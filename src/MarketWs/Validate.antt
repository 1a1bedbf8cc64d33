-- ===== src/MarketWs/Validate.antt =====
-- The checks of market_ws.rs on an event's times and levels.
use polymarket_watch_rust.Base.Int.{eqb_ℤ, leb_ℤ, ltb_ℤ}
use polymarket_watch_rust.Base.Lists.{any, length}
use polymarket_watch_rust.Base.Outcome.{Result, fail_if, ok, protocol, ◌>>◌}
use polymarket_watch_rust.Base.Tests.{
  Bool, List, Option, String, [], false, if◌then◌else◌, ltb, none, not, some, true, ℕ, ⊤, ◌&&◌,
  ◌||◌, ◌∷◌,
}
use polymarket_watch_rust.Fixed.{Fixed, is_aligned_to_tick, is_zero, one_fixed, zero_fixed}
use polymarket_watch_rust.Types.{BookState, Level}

abbrev pub max_levels_per_side : ℕ
max_levels_per_side = 20000

unfoldable pub validate_event_timestamp : ℕ → ℕ → Result ⊤
validate_event_timestamp exchange_ms local_ms =
    fail_if (ltb local_ms exchange_ms) (protocol "market_event_timestamp_after_receipt")

unfoldable pub validate_event_order : ℕ → BookState → Result ⊤
validate_event_order exchange_ms book =
    fail_if (ltb 0 book.exchange_timestamp_ms && ltb exchange_ms book.exchange_timestamp_ms)
      (protocol "out_of_order_market_event")

unfoldable pub validate_level : Fixed → Fixed → Fixed → Bool → Result ⊤
validate_level price size tick_size allow_zero_size = do
  fail_if (leb_ℤ tick_size zero_fixed) (protocol "tick_size_must_be_positive")
  fail_if (leb_ℤ price zero_fixed || leb_ℤ one_fixed price) (protocol "book_price_out_of_range")
  fail_if (not (is_aligned_to_tick price tick_size)) (protocol "book_price_not_tick_aligned")
  fail_if (ltb_ℤ size zero_fixed || (not allow_zero_size && is_zero size))
      (protocol "book_size_must_be_positive")

unfoldable pub validate_delta_level : Fixed → Fixed → Fixed → Result ⊤
unfolding validate_level
validate_delta_level price size tick_size = validate_level price size tick_size true

-- The loop over one side: each level is checked, and its price must not be among those `seen`.
unfoldable pub validate_side : Fixed → String → List Fixed → List Level → Result ⊤
validate_side tick_size duplicate seen [] = ok tt
validate_side tick_size duplicate seen (level ∷ levels) = do
  validate_level level.price level.size tick_size false
  fail_if (any (eqb_ℤ level.price) seen) (protocol duplicate)
  validate_side tick_size duplicate (level.price ∷ seen) levels

-- `iter().map(|level| level.price).max()` and `.min()`
abbrev pub max_price : List Level → Option Fixed
max_price [] = none
max_price (level ∷ levels) = elim (max_price levels) [
  | none ↦ some level.price
  | some p ↦ some (if leb_ℤ level.price p then p else level.price)
]

abbrev pub min_price : List Level → Option Fixed
min_price [] = none
min_price (level ∷ levels) = elim (min_price levels) [
  | none ↦ some level.price
  | some p ↦ some (if leb_ℤ level.price p then level.price else p)
]

abbrev pub crossed_sides : Option Fixed → Option Fixed → Bool
crossed_sides (some bid) (some ask) = leb_ℤ ask bid
crossed_sides _ _ = false

unfoldable pub validate_snapshot_levels : List Level → List Level → Fixed → Result ⊤
validate_snapshot_levels bids asks tick_size = do
  fail_if (ltb max_levels_per_side (length bids) || ltb max_levels_per_side (length asks))
      (protocol "book_level_limit_exceeded")
  validate_side tick_size "duplicate_bid_price" [] bids
  validate_side tick_size "duplicate_ask_price" [] asks
  fail_if (crossed_sides (max_price bids) (min_price asks))
      (protocol "crossed_or_locked_book_snapshot")
