-- ===== src/Risk.antt =====
-- risk.rs: the checks that an order passes before it is submitted, in the order of the source. One
-- function of the source is cut into stages; each stage is a run of its early returns.
pub mod Examples
pub mod Stages
pub mod Accepts
pub mod Limits
use polymarket_watch_rust.Base.Int.{eqb_ℤ, leb_ℤ, ltb_ℤ, pos, sub_ℕ, u64_max, ℤ}
use polymarket_watch_rust.Base.Lists.{any}
use polymarket_watch_rust.Base.Outcome.{Result, err, ok, risk, to_string, ◌>>=◌}
use polymarket_watch_rust.Base.Tests.{
  Bool, List, Option, String, false, if◌then◌else◌, leb, ltb, none, not, some, str_eq, true, ℕ, ⊤,
  ◌%◌, ◌&&◌, ◌/◌, ◌||◌,
}
use polymarket_watch_rust.Behavior.{
  BehavioralPressure, BehavioralZone, near_panic_threshold, through_panic_threshold,
}
use polymarket_watch_rust.Config.{Settings}
use polymarket_watch_rust.Fixed.{
  Fixed, checked_add, checked_mul_ceil, is_aligned_to_tick, one_fixed, ticks_between, zero_fixed,
}
use polymarket_watch_rust.Types.{
  BookState, MarketMeta, OrderIntent, OwnRestingOrder, Side, TimeInForce, age_ms, buy,
  checked_add_u64, event_lag_ms, fak, fok, gtc, gtd, sell, side_eq, top_ask_size, top_bid_size,
}

pub record RiskState : Type 0 where
  pub now_ms : ℕ
  pub market_exposure_usdc : Fixed
  pub total_exposure_usdc : Fixed
  pub daily_loss_usdc : Fixed
  pub available_cash_usdc : Option Fixed
  pub available_position_size : Option Fixed
  pub own_resting_orders : List OwnRestingOrder
  pub own_order_cache_certain : Bool
  pub prohibited_conduct_flag : Bool
  pub behavioral_pressure : Option BehavioralPressure

pub data RiskDecision : Type 0 where
  accept : RiskDecision
  reject : String → RiskDecision

-- `RiskDecision::into_result`
unfoldable pub into_result : RiskDecision → Result ⊤
into_result accept = ok tt
into_result (reject reason) = err (risk reason)

-- The next check runs if this one does not reject.
infixl 5 ◌>>◌
abbrev pub ◌>>◌ : RiskDecision → RiskDecision → RiskDecision
accept >> k = k
reject reason >> k = reject reason

abbrev pub reject_if : Bool → String → RiskDecision
reject_if true reason = reject reason
reject_if false reason = accept

-- `let Some(v) = o else { return Reject(…) }`
abbrev pub with_some {ℓ} : {A : Type ℓ} → Option A → String → (A → RiskDecision) → RiskDecision
with_some none reason k = reject reason
with_some (some a) reason k = k a

-- `Err(e) => return Reject(e.to_string())`
abbrev pub with_ok {ℓ} : {A : Type ℓ} → Result A → (A → RiskDecision) → RiskDecision
with_ok (err e) k = reject (to_string e)
with_ok (ok a) k = k a

-- `option.is_some_and(…)`
abbrev pub some_and : Option Fixed → (Fixed → Bool) → Bool
some_and none p = false
some_and (some a) p = p a

abbrev pub is_none : Option String → Bool
is_none none = true
is_none (some _) = false

pub check_identity : MarketMeta → BookState → OrderIntent → RiskDecision
check_identity market book intent = do
  reject_if (not (str_eq intent.asset_id book.asset_id)) "intent_book_asset_mismatch"
  reject_if
      (not (str_eq intent.asset_id market.asset_id_yes)
        && not (str_eq intent.asset_id market.asset_id_no))
      "intent_market_asset_mismatch"
  reject_if
      (not (eqb_ℤ market.tick_size book.tick_size)
        || not (eqb_ℤ market.min_order_size book.min_order_size))
      "market_book_metadata_mismatch"

pub check_flags : MarketMeta → BookState → RiskState → RiskDecision
check_flags market book state = do
  reject_if (not state.own_order_cache_certain) "own_order_cache_uncertain"
  reject_if state.prohibited_conduct_flag "prohibited_conduct"
  reject_if (not market.active || not market.accepting_orders || market.paused || market.resolved)
      "market_not_tradeable"
  reject_if market.neg_risk "negative_risk_disabled"
  reject_if (not book.tradeable || is_none book.book_hash) "book_not_tradeable"

abbrev pub out_of_range : Fixed → Bool
out_of_range price = leb_ℤ price zero_fixed || leb_ℤ one_fixed price

pub check_top : BookState → RiskDecision
check_top book = do
  reject_if (some_and book.best_bid out_of_range || some_and book.best_ask out_of_range)
      "book_price_out_of_range"
  reject_if
      (some_and book.best_bid (λ p. not (is_aligned_to_tick p book.tick_size))
        || some_and book.best_ask (λ p. not (is_aligned_to_tick p book.tick_size)))
      "book_price_not_tick_aligned"
  reject_if (some_and book.best_bid (λ bid. some_and book.best_ask (λ ask. leb_ℤ ask bid)))
      "crossed_or_locked_book"

pub check_age : Settings → BookState → RiskState → RiskDecision
check_age settings book state = do
  with_some (age_ms book state.now_ms) "book_received_in_future"
      λ book_age_ms. reject_if (ltb settings.max_book_age_ms book_age_ms) "stale_book"
  with_some (event_lag_ms book) "market_event_timestamp_after_receipt"
      λ lag_ms. reject_if (ltb settings.max_event_lag_ms lag_ms) "stale_market_event"

pub check_expiry : Settings → OrderIntent → RiskState → RiskDecision
check_expiry settings intent state = do
  reject_if (leb intent.local_expires_at_ms state.now_ms) "expired_intent"
  with_some (checked_add_u64 state.now_ms settings.order_ttl_ms) "intent_ttl_window_overflow"
      λ max_local_expiry_ms.
        reject_if (ltb max_local_expiry_ms intent.local_expires_at_ms)
          "intent_ttl_exceeds_configured_max"

abbrev pub is_some_ℕ : Option ℕ → Bool
is_some_ℕ none = false
is_some_ℕ (some _) = true

abbrev pub check_immediate : OrderIntent → RiskDecision
check_immediate intent =
    if is_some_ℕ intent.wire_expiration_s
    then reject "wire_expiration_requires_gtd"
    else reject_if intent.post_only "post_only_requires_gtc_or_gtd"

pub check_tif : TimeInForce → OrderIntent → RiskState → RiskDecision
check_tif gtc intent state =
    reject_if (is_some_ℕ intent.wire_expiration_s) "wire_expiration_requires_gtd"
check_tif gtd intent state =
    with_some intent.wire_expiration_s "gtd_requires_wire_expiration" λ wire_expiration_s.
      with_some (checked_add_u64 (state.now_ms / 1000) 180) "gtd_expiration_window_overflow"
        λ minimum_expiration_s.
          reject_if (ltb wire_expiration_s minimum_expiration_s)
            "gtd_expiration_below_three_minute_minimum"
check_tif fok intent state = check_immediate intent
check_tif fak intent state = check_immediate intent

pub check_position : Side → OrderIntent → RiskState → RiskDecision
check_position buy intent state = accept
check_position sell intent state =
    with_some state.available_position_size "available_position_unknown" λ available_position.
      reject_if (ltb_ℤ available_position intent.size) "insufficient_available_position"

pub check_terms : MarketMeta → BookState → OrderIntent → RiskState → RiskDecision
unfolding check_position
check_terms market book intent state = do
  reject_if (not intent.post_only) "non_post_only_execution_not_implemented"
  reject_if (out_of_range intent.limit_price) "price_out_of_range"
  reject_if (not (is_aligned_to_tick intent.limit_price book.tick_size)) "price_not_tick_aligned"
  reject_if (ltb_ℤ intent.size book.min_order_size || ltb_ℤ intent.size market.min_order_size)
      "size_below_minimum"
  check_position intent.side intent state

-- What a side adds to an exposure.
abbrev pub projected : Side → Fixed → Fixed → Result Fixed
projected buy exposure notional = checked_add exposure notional
projected sell exposure notional = ok exposure

pub check_exposure : Settings → OrderIntent → RiskState → Fixed → RiskDecision
check_exposure settings intent state notional = do
  reject_if (ltb_ℤ settings.max_order_usdc notional) "order_too_large"
  reject_if
      (side_eq intent.side buy
        && some_and state.available_cash_usdc (λ available. ltb_ℤ available notional))
      "insufficient_available_cash"
  with_ok (projected intent.side state.market_exposure_usdc notional) λ market_exposure.
      reject_if (ltb_ℤ settings.max_market_exposure_usdc market_exposure) "market_exposure_limit"
  with_ok (projected intent.side state.total_exposure_usdc notional) λ total_exposure.
      reject_if (ltb_ℤ settings.max_position_notional_usdc total_exposure) "total_exposure_limit"
  reject_if (leb_ℤ settings.max_daily_loss_usdc state.daily_loss_usdc) "daily_loss_limit"

abbrev pub crosses_own : Side → Fixed → Fixed → Bool
crosses_own buy limit own = leb_ℤ own limit
crosses_own sell limit own = leb_ℤ limit own

abbrev pub trades_with : OrderIntent → OwnRestingOrder → Bool
trades_with intent own =
    str_eq own.asset_id intent.asset_id
    && not (side_eq own.side intent.side)
    && crosses_own intent.side intent.limit_price own.price

pub has_self_trade : OrderIntent → List OwnRestingOrder → Bool
has_self_trade intent own_orders = any (trades_with intent) own_orders

-- `u64 as i64`
abbrev pub as_i64 : ℕ → ℤ
as_i64 n =
    let r = n % 18446744073709551616 in
    if ltb r 9223372036854775808 then pos r else sub_ℕ r 18446744073709551616

pub check_zone : BehavioralZone → Side → Settings → BehavioralPressure → RiskDecision
check_zone near_panic_threshold sell settings pressure =
    reject "behavioral_price_pressure_prohibited"
check_zone through_panic_threshold buy settings pressure =
    reject_if (ltb_ℤ (as_i64 settings.max_market_impact_bps) pressure.expected_adverse_move_bps)
      "behavioral_cascade_risk"
check_zone _ _ settings pressure = accept

pub check_pressure : Settings → OrderIntent → Option BehavioralPressure → RiskDecision
unfolding check_zone
check_pressure settings intent none = accept
check_pressure settings intent (some pressure) =
    check_zone pressure.zone intent.side settings pressure

-- `ticks_between(…).unwrap_or(u64::MAX)`
abbrev pub ticks_or_max : Fixed → Fixed → Fixed → ℕ
ticks_or_max a b tick = elim (ticks_between a b tick) [ ok n ↦ n | err _ ↦ u64_max ]

pub check_touch : Side → Settings → BookState → OrderIntent → RiskDecision
check_touch buy settings book intent = with_some book.best_ask "missing_ask" λ ask. do
  reject_if (ltb_ℤ (top_ask_size book) settings.min_top_book_size) "insufficient_top_ask_size"
  reject_if (leb_ℤ ask intent.limit_price) "buy_crosses_best_ask"
  reject_if (ltb settings.max_slippage_ticks (ticks_or_max ask intent.limit_price book.tick_size))
      "slippage_limit"
check_touch sell settings book intent = with_some book.best_bid "missing_bid" λ bid. do
  reject_if (ltb_ℤ (top_bid_size book) settings.min_top_book_size) "insufficient_top_bid_size"
  reject_if (leb_ℤ intent.limit_price bid) "sell_crosses_best_bid"
  reject_if (ltb settings.max_slippage_ticks (ticks_or_max bid intent.limit_price book.tick_size))
      "slippage_limit"

-- The checks once there is a book.
pub check_with_book : Settings → MarketMeta → BookState → OrderIntent → RiskState → RiskDecision
check_with_book settings market book intent state = do
  check_identity market book intent
  check_flags market book state
  check_top book
  check_age settings book state
  check_expiry settings intent state
  check_tif intent.time_in_force intent state
  check_terms market book intent state
  with_ok (checked_mul_ceil intent.limit_price intent.size)
      λ notional. check_exposure settings intent state notional
  reject_if (has_self_trade intent state.own_resting_orders) "self_trade_risk"
  check_pressure settings intent state.behavioral_pressure
  check_touch intent.side settings book intent

unfoldable pub check_order :
    Settings → MarketMeta → Option BookState → OrderIntent → RiskState → RiskDecision
check_order settings market none intent state = reject "missing_book"
check_order settings market (some book) intent state =
    check_with_book settings market book intent state
