-- ===== src/Paper/Examples.antt =====
-- The theorems on paper.rs at a concrete engine: a hundred dollars, a fee of one percent, and half
-- of the liquidity.
use polymarket_watch_rust.Base.BTreeMap.{BTreeMap}
use polymarket_watch_rust.Base.Display.{show_ℕ}
use polymarket_watch_rust.Base.Int.{div_euclid, div_trunc, pos, rem_euclid, ◌*ℤ◌, ◌+ℤ◌, ◌-ℤ◌, ◌≤ℤ◌}
use polymarket_watch_rust.Base.Outcome.{ok}
use polymarket_watch_rust.Base.Tests.{
  List, String, [], arith, false, none, refl, some, true, ℕ, ◌∷◌, ◌≡◌,
}
use polymarket_watch_rust.Book.{insert_level, sort_levels}
use polymarket_watch_rust.Fixed.{
  checked_add, checked_div, checked_mul, checked_mul_ceil, checked_sub,
}
use polymarket_watch_rust.Paper.Amounts.{
  available_cash_usdc, bps_amount, buy_reserve, participation_amount, reserved_cash,
}
use polymarket_watch_rust.Paper.Fills.{apply_buy, apply_fill_at_price, put_order, record_fill}
use polymarket_watch_rust.Paper.Fills.Settled.{IsFill, apply_fill_at_price_lem}
use polymarket_watch_rust.Paper.Flatten.{flatten}
use polymarket_watch_rust.Paper.Flatten.Plan.{IsPlanned, plan_position_lem}
use polymarket_watch_rust.Paper.FlattenPlan.{
  FlattenLimits, FlattenPlan, minimum_price, plan_position, sum_sizes, take_bids,
}
use polymarket_watch_rust.Paper.Invariant.{IsSoundEngine}
use polymarket_watch_rust.Paper.Invariant.Flattening.{flatten-IsSoundEngine}
use polymarket_watch_rust.Paper.Invariant.Reachable.{
  Reachable, Reachable-IsSoundEngine, continues, starts, submits,
}
use polymarket_watch_rust.Paper.Matching.{process_trade}
use polymarket_watch_rust.Paper.Matching.Participation.{
  filled_total, process_trade-participation, reported,
}
use polymarket_watch_rust.Paper.Orders.{resting_order, submit}
use polymarket_watch_rust.Paper.Orders.Submitting.{receipt}
use polymarket_watch_rust.Paper.State.{PaperEngine, PaperFill, PaperOrder, PaperPosition}
use polymarket_watch_rust.Paper.Validate.{has_funds, new}
use polymarket_watch_rust.Types.{
  BookState, Level, OrderIntent, OrderStatus, TimeInForce, buy, empty, sell,
}

abbrev new_uuid : ℕ → String
new_uuid n = show_ℕ n

abbrev start : PaperEngine
start = record {
  starting_cash_usdc = pos 100000000;
  cash_usdc = pos 100000000;
  realized_pnl_usdc = pos 0;
  fees_paid_usdc = pos 0;
  fee_bps = 100;
  fill_participation_bps = 5000;
  positions = [];
  orders = [];
}

abbrev bid : OrderIntent
bid = record {
  asset_id = "1";
  side = buy;
  limit_price = pos 500000;
  size = pos 4000000;
  time_in_force = TimeInForce.gtc;
  post_only = true;
  local_expires_at_ms = 2000;
  wire_expiration_s = none;
  reason = "test";
  strategy_id = "maker";
  feature_snapshot_id = "book-1";
}

abbrev with_bid : PaperEngine
with_bid = put_order "a" (resting_order bid "a" 1000 none) start

start_is_new : new (pos 100000000) 100 5000 ≡ ok start
unfolding new
start_is_new = refl

bid_admitted : submit bid "a" 1000 start ≡ (ok (receipt "a"), with_bid)
unfolding submit has_funds buy_reserve checked_mul_ceil ◌*ℤ◌ rem_euclid bps_amount div_euclid
    checked_add ◌+ℤ◌ available_cash_usdc reserved_cash checked_sub ◌-ℤ◌
bid_admitted = refl

with_bid-Reachable : Reachable new_uuid with_bid
with_bid-Reachable =
    continues (starts (pos 100000000) 100 5000 start_is_new)
      (submits bid "a" 1000 (ok (receipt "a")) (omega arith) bid_admitted)

Reachable-IsSoundEngine_example : IsSoundEngine with_bid
Reachable-IsSoundEngine_example = Reachable-IsSoundEngine with_bid-Reachable

abbrev half_fill : PaperFill
half_fill = record {
  client_order_id = "a";
  exchange_order_id = "paper-a";
  asset_id = "1";
  side = buy;
  price = pos 500000;
  size = pos 2000000;
  notional_usdc = pos 1000000;
  fee_usdc = pos 10000;
  filled_at_ms = 1500;
  terminal = false;
}

abbrev half_filled : PaperEngine
half_filled = (apply_fill_at_price "a" (pos 2000000) (pos 500000) 1500 with_bid).1

half_fills :
    apply_fill_at_price "a" (pos 2000000) (pos 500000) 1500 with_bid ≡ (ok half_fill, half_filled)
unfolding apply_fill_at_price apply_buy record_fill checked_mul_ceil bps_amount checked_add
    checked_sub checked_mul checked_div ◌+ℤ◌ ◌-ℤ◌ ◌*ℤ◌ div_euclid rem_euclid div_trunc
half_fills = refl

apply_fill_at_price_lem_example :
    (o : PaperOrder) × IsFill "a" (pos 2000000) (pos 500000) 1500 with_bid o half_fill half_filled
apply_fill_at_price_lem_example =
    apply_fill_at_price_lem "a" (pos 2000000) (pos 500000) 1500 with_bid half_fills

half : participation_amount (pos 6000000) 5000 ≡ ok (pos 3000000)
unfolding participation_amount checked_mul ◌*ℤ◌ div_trunc
half = refl

process_trade-participation_example :
    filled_total (
      reported
        (process_trade "1" (pos 490000) (some (pos 6000000)) (some sell) 1400 1500 with_bid).0)
    ≤ℤ pos 3000000
process_trade-participation_example =
    process_trade-participation "1" (pos 490000) (pos 6000000) (some sell) 1400 1500 with_bid
      (omega arith, tt) (omega arith) half

flatten-IsSoundEngine_example :
    IsSoundEngine
      (flatten new_uuid 0 []
        (record {
          now_ms = 1600;
          max_book_age_ms = 250;
          max_event_lag_ms = 500;
          max_slippage_ticks = 2;
        })
        with_bid).1
flatten-IsSoundEngine_example =
    flatten-IsSoundEngine new_uuid 0 []
      (record {
        now_ms = 1600;
        max_book_age_ms = 250;
        max_event_lag_ms = 500;
        max_slippage_ticks = 2;
      })
      with_bid (Reachable-IsSoundEngine with_bid-Reachable)

abbrev two_bids : List Level
two_bids =
    record { price = pos 490000; size = pos 2000000 }
    ∷ record { price = pos 480000; size = pos 8000000 }
    ∷ []

abbrev deep_book : BookState
deep_book = record (empty "1" (pos 10000) (pos 1000000)) {
  bids = two_bids;
  best_bid = some (pos 490000);
  book_hash = some "h";
  exchange_timestamp_ms = 1500;
  local_received_at_ms = 1500;
  tradeable = true;
}

abbrev limits : FlattenLimits
limits = record {
  now_ms = 1600;
  max_book_age_ms = 250;
  max_event_lag_ms = 500;
  max_slippage_ticks = 2;
}

abbrev long_position : PaperPosition
long_position = record {
  asset_id = "1";
  size = pos 3000000;
  average_price = pos 500000;
  realized_pnl_usdc = pos 0;
}

abbrev planned : FlattenPlan
planned = record {
  position = long_position;
  book_hash = "h";
  clips = (pos 490000, pos 1000000) ∷ (pos 480000, pos 2000000) ∷ [];
}

sells_into_two_bids : plan_position 5000 (("1", deep_book) ∷ []) limits long_position ≡ ok planned
unfolding plan_position minimum_price take_bids sum_sizes sort_levels insert_level
    participation_amount checked_sub checked_add checked_mul ◌-ℤ◌ ◌+ℤ◌ ◌*ℤ◌ div_trunc
sells_into_two_bids = refl

plan_position_lem_example : IsPlanned (("1", deep_book) ∷ []) limits long_position planned
plan_position_lem_example =
    plan_position_lem 5000 (("1", deep_book) ∷ []) limits long_position (omega arith)
      sells_into_two_bids

-- A second order, which has been cancelled.
abbrev done_order : PaperOrder
done_order =
    let o = resting_order bid "b" 1000 none in
    record o { state = record o.state { status = OrderStatus.cancelled } }

abbrev with_done : PaperEngine
with_done = put_order "b" done_order with_bid
