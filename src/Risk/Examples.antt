-- ===== src/Risk/Examples.antt =====
-- The theorem on risk.rs at a concrete order.
use polymarket_watch_rust.Base.Int.{div_euclid, pos, rem_euclid, ◌*ℤ◌, ◌+ℤ◌, ◌-ℤ◌, ◌<ℤ◌, ◌≤ℤ◌}
use polymarket_watch_rust.Base.Tests.{[], false, none, refl, some, true, ◌↔◌, ◌∷◌, ◌≡◌}
use polymarket_watch_rust.Config.{default_settings}
use polymarket_watch_rust.Fixed.{
  checked_abs, checked_add, checked_mul_ceil, checked_sub, is_aligned_to_tick, scale, ticks_between,
}
use polymarket_watch_rust.Risk.{
  RiskState, accept, check_age, check_expiry, check_exposure, check_flags, check_identity,
  check_order, check_position, check_pressure, check_terms, check_tif, check_top, check_touch,
  check_with_book, check_zone, has_self_trade,
}
use polymarket_watch_rust.Risk.Accepts.{IsAcceptable, check_order-accept_iff}
use polymarket_watch_rust.Risk.Limits.{check_order-buy_limits}
use polymarket_watch_rust.Types.{BookState, MarketMeta, OrderIntent, TimeInForce, buy, empty}

abbrev pub calm_market : MarketMeta
calm_market = record {
  condition_id = "c";
  asset_id_yes = "1";
  asset_id_no = "2";
  tick_size = pos 10000;
  min_order_size = pos 1000000;
  neg_risk = false;
  active = true;
  accepting_orders = true;
  resolved = false;
  paused = false;
  taker_delay_enabled = false;
  fees_enabled = false;
}

abbrev pub calm_book : BookState
calm_book = record (empty "1" (pos 10000) (pos 1000000)) {
  bids = (record { price = pos 490000; size = pos 10000000 }) ∷ [];
  asks = (record { price = pos 510000; size = pos 10000000 }) ∷ [];
  best_bid = some (pos 490000);
  best_ask = some (pos 510000);
  book_hash = some "h";
  exchange_timestamp_ms = 1000;
  local_received_at_ms = 1000;
  tradeable = true;
}

abbrev pub maker_bid : OrderIntent
maker_bid = record {
  asset_id = "1";
  side = buy;
  limit_price = pos 500000;
  size = pos 4000000;
  time_in_force = TimeInForce.gtc;
  post_only = true;
  local_expires_at_ms = 1500;
  wire_expiration_s = none;
  reason = "test";
  strategy_id = "maker";
  feature_snapshot_id = "book-1";
}

abbrev pub quiet_state : RiskState
quiet_state = record {
  now_ms = 1100;
  market_exposure_usdc = pos 0;
  total_exposure_usdc = pos 0;
  daily_loss_usdc = pos 0;
  available_cash_usdc = some (pos 100000000);
  available_position_size = some (pos 0);
  own_resting_orders = [];
  own_order_cache_certain = true;
  prohibited_conduct_flag = false;
  behavioral_pressure = none;
}

pub maker_bid-accepted :
    check_order default_settings calm_market (some calm_book) maker_bid quiet_state ≡ accept
unfolding check_order check_with_book check_identity check_flags check_top is_aligned_to_tick
    check_age check_expiry check_tif check_terms checked_mul_ceil ◌*ℤ◌ rem_euclid check_exposure
    div_euclid checked_add ◌+ℤ◌ ◌-ℤ◌ checked_abs checked_sub ticks_between check_position
    check_pressure check_touch check_zone has_self_trade
maker_bid-accepted = refl

check_order-accept_iff_example :
    (check_order default_settings calm_market (some calm_book) maker_bid quiet_state ≡ accept)
    ↔ IsAcceptable default_settings calm_market calm_book maker_bid quiet_state
check_order-accept_iff_example =
    check_order-accept_iff default_settings calm_market calm_book maker_bid quiet_state

check_order-buy_limits_example :
    (pos 500000 *ℤ pos 4000000 ≤ℤ pos 10000000 *ℤ pos scale)
    × (pos 0 *ℤ pos scale +ℤ pos 500000 *ℤ pos 4000000 ≤ℤ pos 100000000 *ℤ pos scale)
    × (pos 0 *ℤ pos scale +ℤ pos 500000 *ℤ pos 4000000 ≤ℤ pos 250000000 *ℤ pos scale)
    × (pos 500000 <ℤ pos 510000)
check_order-buy_limits_example =
    check_order-buy_limits default_settings calm_market calm_book maker_bid quiet_state refl
      maker_bid-accepted
