-- ===== src/MarketWs.antt =====
-- market_ws.rs: how one event of the market feed changes the local book. The checks on levels are in
-- the child Validate. The socket session and the conversion of SDK messages are not modelled.
mod Examples
pub mod Validate
pub mod FailClosed
pub mod Levels
pub mod Deltas
pub mod Authority
use polymarket_watch_rust.Base.Int.{eqb_ℤ, leb_ℤ}
use polymarket_watch_rust.Base.Lists.{any, filter}
use polymarket_watch_rust.Base.Outcome.{Result, err, ok, protocol}
use polymarket_watch_rust.Base.Tests.{
  Bool, List, Option, String, [], false, if◌then◌else◌, ltb, none, not, some, str_eq, true, ℕ, ⊤,
  ◌&&◌, ◌||◌, ◌∷◌,
}
use polymarket_watch_rust.Book.{apply_level_change, mark_not_tradeable, sort_and_refresh_top}
use polymarket_watch_rust.Fixed.{Fixed, is_aligned_to_tick, one_fixed, zero_fixed}
use polymarket_watch_rust.MarketWs.Validate.{
  crossed_sides, validate_delta_level, validate_event_order, validate_event_timestamp,
  validate_snapshot_levels,
}
use polymarket_watch_rust.Types.{AssetId, BookState, ConditionId, Level, Side}

pub record PriceChange : Type 0 where
  pub asset_id : AssetId
  pub price : Fixed
  pub size : Fixed
  pub side : Side
  pub best_bid : Option Fixed
  pub best_ask : Option Fixed
  pub hash : Option String

pub data MarketEvent : Type 0 where
  book_snapshot :
      (asset_id : AssetId) (market : String) (timestamp_ms : ℕ) (hash : Option String)
      (bids asks : List Level)
      → MarketEvent
  price_change :
      (market : String) (timestamp_ms : ℕ) (price_changes : List PriceChange) → MarketEvent
  tick_size_change :
      (asset_id : AssetId) (market : String) (timestamp_ms : ℕ)
      (old_tick_size new_tick_size : Fixed)
      → MarketEvent
  last_trade_price :
      (asset_id : AssetId) (market : String) (timestamp_ms : ℕ) (price : Fixed)
      (size : Option Fixed) (side : Option Side)
      → MarketEvent
  best_bid_ask :
      (asset_id : AssetId) (market : String) (timestamp_ms : ℕ) (best_bid best_ask : Fixed)
      → MarketEvent
  new_market : (condition_id : ConditionId) (asset_ids : List AssetId) → MarketEvent
  market_resolved :
      (condition_id : ConditionId) (asset_ids : List AssetId) (winning_asset_id : AssetId)
      → MarketEvent

-- A handler over `&mut BookState`: what it wrote stays written when it fails.
abbrev pub Edit : Type 0
Edit = BookState → Result ⊤ × BookState

infixr 5 ◌⨾◌
abbrev pub ◌⨾◌ : Edit → Edit → Edit
◌⨾◌ m k book = let (r, book') = m book in elim r [ ok _ ↦ k book' | err e ↦ (err e, book') ]

abbrev pub done : Edit
done book = (ok tt, book)

abbrev pub modify : (BookState → BookState) → Edit
modify f book = (ok tt, f book)

-- `book.tradeable = false; return Err(…)`
abbrev pub refuse : String → Edit
refuse message book = (err (protocol message), mark_not_tradeable book)

abbrev pub refuse_if : (BookState → Bool) → String → Edit
refuse_if test message book = if test book then refuse message book else done book

-- `invalidate_on_error(book, …)?`
invalidate_on_error : (BookState → Result ⊤) → Edit
invalidate_on_error check book = elim (check book) [
  | ok _ ↦ done book
  | err e ↦ (err e, mark_not_tradeable book)
]

abbrev pub hash_missing : Option String → Bool
hash_missing none = true
hash_missing (some hash) = str_eq hash ""

-- The two checks on the event's time, in the order in which each arm makes them.
check_times : ℕ → ℕ → Edit
unfolding invalidate_on_error
check_times timestamp_ms local_ms =
    invalidate_on_error (λ b. validate_event_timestamp timestamp_ms local_ms)
    ⨾ invalidate_on_error (λ b. validate_event_order timestamp_ms b)

require_hash : Option String → String → Edit
require_hash hash message = refuse_if (λ b. hash_missing hash) message

require_authoritative : Edit
require_authoritative =
    refuse_if (λ b. not b.tradeable || hash_missing b.book_hash) "delta_without_authoritative_book"

-- Whether the book's price is another one than the event states.
abbrev is_not : Option Fixed → Fixed → Bool
is_not none _ = true
is_not (some actual) expected = not (eqb_ℤ expected actual)

abbrev differs : Option Fixed → Option Fixed → Bool
differs none _ = false
differs (some expected) actual = is_not actual expected

abbrev is_some : Option Fixed → Bool
is_some none = false
is_some (some _) = true

pub install_snapshot : ℕ → ℕ → Option String → List Level → List Level → BookState → BookState
install_snapshot timestamp_ms local_ms hash bids asks book =
    let fresh = sort_and_refresh_top (record book {
      bids = bids;
      asks = asks;
      book_hash = hash;
      exchange_timestamp_ms = timestamp_ms;
      local_received_at_ms = local_ms;
    }) in
    record fresh { tradeable = is_some fresh.best_bid && is_some fresh.best_ask }

pub on_book : AssetId → ℕ → Option String → List Level → List Level → ℕ → Edit
unfolding invalidate_on_error check_times require_hash
on_book asset timestamp_ms hash bids asks local_ms book =
    if not (str_eq book.asset_id asset)
    then done book
    else (invalidate_on_error (λ b. validate_event_timestamp timestamp_ms local_ms)
          ⨾ invalidate_on_error (λ b. validate_event_order timestamp_ms b)
          ⨾ invalidate_on_error (λ b. validate_snapshot_levels bids asks b.tick_size)
          ⨾ require_hash hash "authoritative_book_hash_missing"
          ⨾ modify (install_snapshot timestamp_ms local_ms hash bids asks))
        book

-- `matching.last()`
abbrev last_change : PriceChange → List PriceChange → PriceChange
last_change c [] = c
last_change c (d ∷ rest) = last_change d rest

validate_changes : List PriceChange → Edit
unfolding invalidate_on_error
validate_changes [] = done
validate_changes (c ∷ rest) =
    invalidate_on_error (λ b. validate_delta_level c.price c.size b.tick_size)
    ⨾ validate_changes rest

apply_changes : List PriceChange → BookState → BookState
apply_changes [] book = book
apply_changes (c ∷ rest) book = apply_changes rest (apply_level_change book c.side c.price c.size)

stamp : ℕ → ℕ → BookState → BookState
stamp timestamp_ms local_ms book = record book {
  exchange_timestamp_ms = timestamp_ms;
  local_received_at_ms = local_ms;
}

-- The end of the arm for `PriceChange`, once the changes of this book's asset are checked.
pub finish_changes : ℕ → ℕ → PriceChange → List PriceChange → Edit
finish_changes timestamp_ms local_ms c rest =
    let final = last_change c rest in
    modify (λ b. record (apply_changes (c ∷ rest) b) { book_hash = final.hash })
    ⨾ refuse_if (λ b. differs final.best_bid b.best_bid || differs final.best_ask b.best_ask)
        "book_top_diverged_after_delta"
    ⨾ modify (stamp timestamp_ms local_ms)
    ⨾ refuse_if (λ b. crossed_sides b.best_bid b.best_ask) "crossed_or_locked_book_after_delta"

pub on_matching : ℕ → ℕ → List PriceChange → Edit
on_matching timestamp_ms local_ms [] = done
on_matching timestamp_ms local_ms (c ∷ rest) =
    require_authoritative
    ⨾ check_times timestamp_ms local_ms
    ⨾ require_hash (last_change c rest).hash "price_change_hash_missing"
    ⨾ validate_changes (c ∷ rest)
    ⨾ finish_changes timestamp_ms local_ms c rest

pub on_price_change : ℕ → List PriceChange → ℕ → Edit
on_price_change timestamp_ms changes local_ms book =
    on_matching timestamp_ms local_ms (filter (λ c. str_eq c.asset_id book.asset_id) changes) book

pub on_tick_size : ℕ → Fixed → Fixed → ℕ → Edit
unfolding check_times stamp
on_tick_size timestamp_ms old new local_ms =
    check_times timestamp_ms local_ms
    ⨾ refuse_if (λ b. leb_ℤ new zero_fixed || not (eqb_ℤ old b.tick_size))
        "tick_size_transition_invalid"
    ⨾ modify (λ b. record (stamp timestamp_ms local_ms b) { tick_size = new; tradeable = false })

pub on_best_bid_ask : ℕ → Fixed → Fixed → ℕ → Edit
unfolding invalidate_on_error
on_best_bid_ask timestamp_ms bid ask local_ms book =
    if ltb timestamp_ms book.exchange_timestamp_ms
    then done book
    else (invalidate_on_error (λ b. validate_event_timestamp timestamp_ms local_ms)
          ⨾ refuse_if
              (λ b.
                leb_ℤ ask bid
                || not (is_aligned_to_tick bid b.tick_size)
                || not (is_aligned_to_tick ask b.tick_size)
                || is_not b.best_bid bid
                || is_not b.best_ask ask)
              "best_bid_ask_diverged")
        book

-- `last_trade_timestamp_ms.is_none_or(|previous| timestamp > previous)`
abbrev is_newer : ℕ → Option ℕ → Bool
is_newer timestamp_ms none = true
is_newer timestamp_ms (some previous) = ltb previous timestamp_ms

abbrev not_positive : Option Fixed → Bool
not_positive none = false
not_positive (some value) = leb_ℤ value zero_fixed

record_trade : ℕ → Fixed → BookState → BookState
record_trade timestamp_ms price book =
    if is_newer timestamp_ms book.last_trade_timestamp_ms
    then record book { last_trade_price = some price; last_trade_timestamp_ms = some timestamp_ms }
    else book

pub on_last_trade : ℕ → Fixed → Option Fixed → ℕ → Edit
unfolding invalidate_on_error record_trade
on_last_trade timestamp_ms price size local_ms book =
    if ltb timestamp_ms book.exchange_timestamp_ms
    then done book
    else (invalidate_on_error (λ b. validate_event_timestamp timestamp_ms local_ms)
          ⨾ refuse_if (λ b. leb_ℤ price zero_fixed || leb_ℤ one_fixed price || not_positive size)
              "last_trade_invalid"
          ⨾ modify (record_trade timestamp_ms price))
        book

-- The arms whose guard is that the event names this book's asset.
abbrev when_asset : AssetId → Edit → Edit
when_asset asset m book = if str_eq asset book.asset_id then m book else done book

on_resolved : List AssetId → Edit
on_resolved assets book =
    if any (λ asset. str_eq asset book.asset_id) assets
    then (ok tt, mark_not_tradeable book)
    else done book

pub apply_market_event : MarketEvent → ℕ → Edit
unfolding on_book on_price_change on_tick_size on_best_bid_ask on_last_trade on_resolved
apply_market_event (book_snapshot asset _ timestamp_ms hash bids asks) local_ms =
    on_book asset timestamp_ms hash bids asks local_ms
apply_market_event (price_change _ timestamp_ms changes) local_ms =
    on_price_change timestamp_ms changes local_ms
apply_market_event (tick_size_change asset _ timestamp_ms old new) local_ms =
    when_asset asset (on_tick_size timestamp_ms old new local_ms)
apply_market_event (last_trade_price asset _ timestamp_ms price size _) local_ms =
    when_asset asset (on_last_trade timestamp_ms price size local_ms)
apply_market_event (best_bid_ask asset _ timestamp_ms bid ask) local_ms =
    when_asset asset (on_best_bid_ask timestamp_ms bid ask local_ms)
apply_market_event (new_market _ _) local_ms = done
apply_market_event (market_resolved _ assets _) local_ms = on_resolved assets
