-- ===== src/Book.antt =====
-- book.rs: the two sides of an order book, kept in price order, and its top.
mod Examples
pub mod Sorted
pub mod Sizes
use polymarket_watch_rust.Base.Int.{eqb_ℤ, leb_ℤ}
use polymarket_watch_rust.Base.Lists.{filter}
use polymarket_watch_rust.Base.Tests.{
  Bool, List, Option, [], false, if◌then◌else◌, none, not, some, ◌∷◌,
}
use polymarket_watch_rust.Fixed.{Fixed, is_zero}
use polymarket_watch_rust.Types.{BookState, Level, Side, buy, sell}

-- `sort_by_key` is the standard library's stable sort, and so is insertion in this order.
module _ (comes_first : Level → Level → Bool) where
  unfoldable pub insert_level : Level → List Level → List Level
  insert_level x [] = x ∷ []
  insert_level x (y ∷ ys) = if comes_first x y then x ∷ y ∷ ys else y ∷ insert_level x ys

  unfoldable pub sort_levels : List Level → List Level
  unfolding insert_level
  sort_levels [] = []
  sort_levels (x ∷ xs) = insert_level x (sort_levels xs)

-- The orders by `Reverse(level.price)` and by `level.price`.
abbrev pub bid_order : Level → Level → Bool
bid_order x y = leb_ℤ y.price x.price

abbrev pub ask_order : Level → Level → Bool
ask_order x y = leb_ℤ x.price y.price

abbrev pub first_price : List Level → Option Fixed
first_price [] = none
first_price (level ∷ _) = some level.price

unfoldable pub sort_and_refresh_top : BookState → BookState
sort_and_refresh_top book =
    let bids' = sort_levels bid_order book.bids in
    let asks' = sort_levels ask_order book.asks in
    record book {
      bids = bids';
      asks = asks';
      best_bid = first_price bids';
      best_ask = first_price asks';
    }

-- `levels.retain(|level| level.price != price)`
abbrev remove_price : Fixed → List Level → List Level
remove_price price = filter (λ level. not (eqb_ℤ level.price price))

-- The first level at the price gets the size; a new price goes to the end.
unfoldable pub set_size : Fixed → Fixed → List Level → List Level
set_size price size [] = record { price = price; size = size } ∷ []
set_size price size (level ∷ levels) =
    if eqb_ℤ level.price price
    then record level { size = size } ∷ levels
    else level ∷ set_size price size levels

unfoldable pub upsert_level : List Level → Fixed → Fixed → List Level
unfolding set_size
upsert_level levels price size =
    if is_zero size then remove_price price levels else set_size price size levels

unfoldable pub apply_level_change : BookState → Side → Fixed → Fixed → BookState
apply_level_change book buy price size =
    sort_and_refresh_top (record book { bids = upsert_level book.bids price size })
apply_level_change book sell price size =
    sort_and_refresh_top (record book { asks = upsert_level book.asks price size })

abbrev pub mark_not_tradeable : BookState → BookState
mark_not_tradeable book = record book { tradeable = false }
