-- ===== src/Risk/Limits.antt =====
-- What the limits of risk.rs mean for the exact cost of an accepted buy.
use polymarket_watch_rust.Base.Int.{int_laws, pos, ◌*ℤ◌, ◌+ℤ◌, ◌<ℤ◌, ◌≤ℤ◌}
use polymarket_watch_rust.Base.Tests.{Option, none, some, subst, ◌≡◌, ◌≤◌}
use polymarket_watch_rust.Config.{Settings}
use polymarket_watch_rust.Fixed.{Fixed, scale}
use polymarket_watch_rust.Fixed.Rounding.{checked_mul_ceil_lem}
use polymarket_watch_rust.Risk.{RiskState, accept, check_order, ticks_or_max}
use polymarket_watch_rust.Risk.Accepts.{check_order-accept_iff}
use polymarket_watch_rust.Risk.Stages.{Present, StaysWithin, TouchFits}
use polymarket_watch_rust.Types.{BookState, MarketMeta, OrderIntent, Side, buy, top_ask_size}

-- An accepted buy costs exactly its price times its size, in millionths of a millionth; that
-- cost is within the order limit, and the market's and the total exposure stay within their
-- limits when it is added to them. Its price is below the best ask.
pub check_order-buy_limits :
    (settings : Settings) (market : MarketMeta) (book : BookState) (intent : OrderIntent)
    (state : RiskState)
    → intent.side ≡ buy
    → check_order settings market (some book) intent state ≡ accept
    → let cost = intent.limit_price *ℤ intent.size in
      (cost ≤ℤ settings.max_order_usdc *ℤ pos scale)
      × (state.market_exposure_usdc *ℤ pos scale +ℤ cost
          ≤ℤ settings.max_market_exposure_usdc *ℤ pos scale)
      × (state.total_exposure_usdc *ℤ pos scale +ℤ cost
          ≤ℤ settings.max_position_notional_usdc *ℤ pos scale)
      × Present book.best_ask (λ ask. intent.limit_price <ℤ ask)
check_order-buy_limits settings market book intent state is_buy h =
    let a = (check_order-accept_iff settings market book intent state).0 h in
    let cost = checked_mul_ceil_lem intent.limit_price intent.size a.priced in
    let in_market =
      subst
        (λ (s : Side).
          StaysWithin s state.market_exposure_usdc a.notional settings.max_market_exposure_usdc)
        is_buy a.market_limit in
    let in_total =
      subst
        (λ (s : Side).
          StaysWithin s state.total_exposure_usdc a.notional settings.max_position_notional_usdc)
        is_buy a.total_limit in
    let touch = subst (λ (s : Side). TouchFits s settings book intent) is_buy a.touch_fits in
    (
      omega (int_laws, cost, a.order_limit),
      omega (int_laws, cost, in_market.1),
      omega (int_laws, cost, in_total.1),
      below_ask book.best_ask touch,
    )
  where
    below_ask :
        (best : Option Fixed)
        → Present best (λ ask.
          (settings.min_top_book_size ≤ℤ top_ask_size book)
          × (intent.limit_price <ℤ ask)
          × (ticks_or_max ask intent.limit_price book.tick_size ≤ settings.max_slippage_ticks))
        → Present best (λ ask. intent.limit_price <ℤ ask)
    below_ask none h = h
    below_ask (some ask) h = h.1
