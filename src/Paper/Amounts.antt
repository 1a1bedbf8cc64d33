-- ===== src/Paper/Amounts.antt =====
-- What paper.rs computes from an engine: reserves, what is available, exposures and the snapshot.
use polymarket_watch_rust.Base.BTreeMap.{BTreeMap, lookup}
use polymarket_watch_rust.Base.Int.{leb_ℤ, ltb_ℤ, pos}
use polymarket_watch_rust.Base.Lists.{filter}
use polymarket_watch_rust.Base.Outcome.{Result, execution, fail_if, ok, ◌>>=◌, ◌>>◌}
use polymarket_watch_rust.Base.Tests.{
  Bool, List, Option, [], false, if◌then◌else◌, map, none, some, str_eq, true, ℕ, ◌&&◌, ◌*◌, ◌==◌,
  ◌∷◌,
}
use polymarket_watch_rust.Fixed.{
  Fixed, checked_add, checked_mul, checked_mul_ceil, checked_sub, zero_fixed,
}
use polymarket_watch_rust.Paper.State.{
  PaperEngine, PaperOrder, PaperPortfolioSnapshot, PaperPosition, order_open, values,
}
use polymarket_watch_rust.Risk.{RiskState}
use polymarket_watch_rust.Types.{AssetId, BookState, OwnRestingOrder, Side, buy, sell, side_eq}

-- `i128::from(bps) * 100`
abbrev pub bps_factor : ℕ → Fixed
bps_factor bps = pos (bps * 100)

unfoldable pub participation_amount : Fixed → ℕ → Result Fixed
participation_amount liquidity fill_participation_bps =
    checked_mul liquidity (bps_factor fill_participation_bps)

unfoldable pub bps_amount : Fixed → ℕ → Result Fixed
bps_amount value bps = if bps == 0 then ok zero_fixed else checked_mul_ceil value (bps_factor bps)

unfoldable pub order_crosses_book : PaperOrder → BookState → Bool
order_crosses_book order book = crosses order.state.intent.side
  where
    limit : Fixed
    limit = order.state.intent.limit_price

    at_most : Option Fixed → Bool
    at_most none = false
    at_most (some ask) = leb_ℤ ask limit

    at_least : Option Fixed → Bool
    at_least none = false
    at_least (some bid) = leb_ℤ limit bid

    crosses : Side → Bool
    crosses buy = at_most book.best_ask
    crosses sell = at_least book.best_bid

unfoldable pub buy_reserve : ℕ → Fixed → Fixed → Result Fixed
buy_reserve fee_bps price size = do
  notional ← checked_mul_ceil price size
  fee ← bps_amount notional fee_bps
  checked_add notional fee

abbrev pub open_buy : PaperOrder → Bool
open_buy order = order_open order && side_eq order.state.intent.side buy

-- The `try_fold` of `available_cash_usdc`.
unfoldable pub reserved_cash : ℕ → Fixed → List PaperOrder → Result Fixed
reserved_cash fee_bps total [] = ok total
reserved_cash fee_bps total (order ∷ rest) = do
  reserve ← buy_reserve fee_bps order.state.intent.limit_price order.remaining_size
  total' ← checked_add total reserve
  reserved_cash fee_bps total' rest

unfoldable pub available_cash_usdc : PaperEngine → Result Fixed
available_cash_usdc e = do
  reserved ← reserved_cash e.fee_bps zero_fixed (filter open_buy (values e.orders))
  available ← checked_sub e.cash_usdc reserved
  fail_if (ltb_ℤ available zero_fixed) (execution "paper_reserved_cash_invariant_broken")
  ok available

unfoldable pub sum_remaining : Fixed → List PaperOrder → Result Fixed
sum_remaining total [] = ok total
sum_remaining total (order ∷ rest) = do
  total' ← checked_add total order.remaining_size
  sum_remaining total' rest

abbrev pub open_sell_of : AssetId → PaperOrder → Bool
open_sell_of asset order =
    order_open order
    && side_eq order.state.intent.side sell
    && str_eq order.state.intent.asset_id asset

abbrev pub held : AssetId → PaperEngine → Fixed
held asset e = elim (lookup asset e.positions) [ none ↦ zero_fixed | some p ↦ p.size ]

unfoldable pub available_position : AssetId → PaperEngine → Result Fixed
available_position asset e = do
  reserved ← sum_remaining zero_fixed (filter (open_sell_of asset) (values e.orders))
  available ← checked_sub (held asset e) reserved
  fail_if (ltb_ℤ available zero_fixed) (execution "paper_reserved_position_invariant_broken")
  ok available

abbrev pub matches_filter : Option AssetId → AssetId → Bool
matches_filter none asset = true
matches_filter (some wanted) asset = str_eq asset wanted

pub sum_notional : Fixed → List PaperOrder → Result Fixed
sum_notional total [] = ok total
sum_notional total (order ∷ rest) = do
  notional ← checked_mul_ceil order.state.intent.limit_price order.remaining_size
  total' ← checked_add total notional
  sum_notional total' rest

unfoldable pub pending_buy_notional : Option AssetId → PaperEngine → Result Fixed
pending_buy_notional asset_filter e = sum_notional zero_fixed (
    filter (λ o. open_buy o && matches_filter asset_filter o.state.intent.asset_id)
      (values e.orders))

-- `book.best_bid.or(book.last_trade_price)`, if there is a book.
abbrev pub mark_of : AssetId → BTreeMap BookState → Option Fixed
mark_of asset books = elim (lookup asset books) [
  | none ↦ none
  | some book ↦ elim book.best_bid [ some bid ↦ some bid | none ↦ book.last_trade_price ]
]

abbrev pub mark_or : Fixed → Option Fixed → Fixed
mark_or fallback none = fallback
mark_or fallback (some mark) = mark

-- The loop of `snapshot`: market value and unrealized profit.
pub value_positions :
    BTreeMap BookState → Fixed → Fixed → List PaperPosition → Result (Fixed × Fixed)
value_positions books market_value unrealized [] = ok (market_value, unrealized)
value_positions books market_value unrealized (p ∷ rest) = do
  let mark = mark_or p.average_price (mark_of p.asset_id books)
  value ← checked_mul mark p.size
  market_value' ← checked_add market_value value
  gain ← checked_sub mark p.average_price
  gained ← checked_mul gain p.size
  unrealized' ← checked_add unrealized gained
  value_positions books market_value' unrealized' rest

unfoldable pub snapshot : BTreeMap BookState → PaperEngine → Result PaperPortfolioSnapshot
snapshot books e = do
  totals ← value_positions books zero_fixed zero_fixed (values e.positions)
  available ← available_cash_usdc e
  equity ← checked_add e.cash_usdc totals.0
  ok (record {
    starting_cash_usdc = e.starting_cash_usdc;
    cash_usdc = e.cash_usdc;
    available_cash_usdc = available;
    market_value_usdc = totals.0;
    equity_usdc = equity;
    realized_pnl_usdc = e.realized_pnl_usdc;
    unrealized_pnl_usdc = totals.1;
    fees_paid_usdc = e.fees_paid_usdc;
    positions = values e.positions;
    open_orders = filter order_open (values e.orders);
  })

pub total_exposure : BTreeMap BookState → Fixed → List PaperPosition → Result Fixed
total_exposure books total [] = ok total
total_exposure books total (p ∷ rest) = do
  value ← checked_mul_ceil (mark_or p.average_price (mark_of p.asset_id books)) p.size
  total' ← checked_add total value
  total_exposure books total' rest

abbrev pub resting : PaperOrder → OwnRestingOrder
resting order = record {
  asset_id = order.state.intent.asset_id;
  side = order.state.intent.side;
  price = order.state.intent.limit_price;
  size = order.remaining_size;
}

pub position_exposure : Fixed → Option PaperPosition → Result Fixed
position_exposure mark none = ok zero_fixed
position_exposure mark (some p) = checked_mul_ceil mark p.size

unfoldable pub risk_state : ℕ → AssetId → BTreeMap BookState → Bool → PaperEngine → Result RiskState
risk_state now_ms market_asset books prohibited_conduct_flag e = do
  snap ← snapshot books e
  position_market ←
      position_exposure (mark_or zero_fixed (mark_of market_asset books))
        (lookup market_asset e.positions)
  pending_market ← pending_buy_notional (some market_asset) e
  market_exposure ← checked_add position_market pending_market
  position_total ← total_exposure books zero_fixed (values e.positions)
  pending_total ← pending_buy_notional none e
  total ← checked_add position_total pending_total
  daily_loss ←
      (if ltb_ℤ snap.equity_usdc e.starting_cash_usdc
        then checked_sub e.starting_cash_usdc snap.equity_usdc
        else ok zero_fixed)
  available ← available_position market_asset e
  ok (record {
    now_ms = now_ms;
    market_exposure_usdc = market_exposure;
    total_exposure_usdc = total;
    daily_loss_usdc = daily_loss;
    available_cash_usdc = some snap.available_cash_usdc;
    available_position_size = some available;
    own_resting_orders = map resting (filter order_open (values e.orders));
    own_order_cache_certain = true;
    prohibited_conduct_flag = prohibited_conduct_flag;
    behavioral_pressure = none;
  })
