-- ===== src/Risk/Accepts.antt =====
-- About the whole of `check_order` in risk.rs.
use polymarket_watch_rust.Base.Int.{u64_max, ◌<ℤ◌, ◌≤ℤ◌}
use polymarket_watch_rust.Base.Outcome.{Result-cases, ok}
use polymarket_watch_rust.Base.Tests.{
  arith, false, inl, inr, refl, some, true, ◌+◌, ◌<◌, ◌↔◌, ◌≡◌, ◌≤◌, ◌⊎◌,
}
use polymarket_watch_rust.Config.{Settings}
use polymarket_watch_rust.Fixed.{Fixed, checked_mul_ceil, is_aligned_to_tick}
use polymarket_watch_rust.Risk.{
  RiskState, accept, check_age, check_expiry, check_exposure, check_flags, check_identity,
  check_order, check_pressure, check_terms, check_tif, check_top, check_touch, check_with_book,
  has_self_trade, is_none,
}
use polymarket_watch_rust.Risk.Stages.{
  CanPay, Each, HoldsEnough, InRange, NoSelfTrade, PressureFits, Same, StaysWithin, TouchFits,
  WireFits, check_age_iff, check_expiry_iff, check_exposure_iff, check_flags_iff,
  check_identity_iff, check_pressure_iff, check_terms_iff, check_tif_iff, check_top_iff,
  check_touch_iff, has_self_trade_iff,
}
use polymarket_watch_rust.Types.{BookState, MarketMeta, OrderIntent}

-- What the checks ask of an order against a book.
pub record IsAcceptable (settings : Settings) (market : MarketMeta) (book : BookState)
    (intent : OrderIntent) (state : RiskState) : Type 0 where
  pub own_asset : intent.asset_id ≡ book.asset_id
  pub market_asset :
      (intent.asset_id ≡ market.asset_id_yes) ⊎ (intent.asset_id ≡ market.asset_id_no)
  pub same_tick : Same market.tick_size book.tick_size
  pub same_minimum : Same market.min_order_size book.min_order_size
  pub cache_certain : state.own_order_cache_certain ≡ true
  pub not_prohibited : state.prohibited_conduct_flag ≡ false
  pub market_open :
      (market.active ≡ true)
      × (market.accepting_orders ≡ true)
      × (market.paused ≡ false)
      × (market.resolved ≡ false)
  pub not_neg_risk : market.neg_risk ≡ false
  pub book_tradeable : (book.tradeable ≡ true) × (is_none book.book_hash ≡ false)
  pub bid_fits :
      Each book.best_bid (λ bid. InRange bid × (is_aligned_to_tick bid book.tick_size ≡ true))
  pub ask_fits :
      Each book.best_ask (λ ask. InRange ask × (is_aligned_to_tick ask book.tick_size ≡ true))
  pub uncrossed : Each book.best_bid (λ bid. Each book.best_ask (λ ask. bid <ℤ ask))
  pub fresh :
      (book.exchange_timestamp_ms ≤ book.local_received_at_ms)
      × (book.local_received_at_ms ≤ state.now_ms)
      × (state.now_ms ≤ book.local_received_at_ms + settings.max_book_age_ms)
      × (book.local_received_at_ms ≤ book.exchange_timestamp_ms + settings.max_event_lag_ms)
  pub expiry :
      (state.now_ms < intent.local_expires_at_ms)
      × (state.now_ms + settings.order_ttl_ms ≤ u64_max)
      × (intent.local_expires_at_ms ≤ state.now_ms + settings.order_ttl_ms)
  pub wire_fits : WireFits intent.time_in_force intent state
  pub maker_only : intent.post_only ≡ true
  pub price_fits :
      InRange intent.limit_price × (is_aligned_to_tick intent.limit_price book.tick_size ≡ true)
  pub large_enough : (book.min_order_size ≤ℤ intent.size) × (market.min_order_size ≤ℤ intent.size)
  pub covered : HoldsEnough intent.side intent state
  pub notional : Fixed
  pub priced : checked_mul_ceil intent.limit_price intent.size ≡ ok notional
  pub order_limit : notional ≤ℤ settings.max_order_usdc
  pub cash_limit : CanPay intent.side state.available_cash_usdc notional
  pub market_limit :
      StaysWithin intent.side state.market_exposure_usdc notional settings.max_market_exposure_usdc
  pub total_limit :
      StaysWithin intent.side state.total_exposure_usdc notional settings.max_position_notional_usdc
  pub loss_limit : state.daily_loss_usdc <ℤ settings.max_daily_loss_usdc
  pub no_self_trade : NoSelfTrade intent state.own_resting_orders
  pub pressure_fits : Each state.behavioral_pressure (PressureFits intent.side settings)
  pub touch_fits : TouchFits intent.side settings book intent

-- The stages of `check_with_book`, taken apart.
abbrev StagesPass : Settings → MarketMeta → BookState → OrderIntent → RiskState → Fixed → Type 0
StagesPass settings market book intent state notional =
    (check_identity market book intent ≡ accept)
    × (check_flags market book state ≡ accept)
    × (check_top book ≡ accept)
    × (check_age settings book state ≡ accept)
    × (check_expiry settings intent state ≡ accept)
    × (check_tif intent.time_in_force intent state ≡ accept)
    × (check_terms market book intent state ≡ accept)
    × (checked_mul_ceil intent.limit_price intent.size ≡ ok notional)
    × (check_exposure settings intent state notional ≡ accept)
    × (has_self_trade intent state.own_resting_orders ≡ false)
    × (check_pressure settings intent state.behavioral_pressure ≡ accept)
    × (check_touch intent.side settings book intent ≡ accept)

stages_of_accept :
    (settings : Settings) (market : MarketMeta) (book : BookState) (intent : OrderIntent)
    (state : RiskState)
    → check_order settings market (some book) intent state ≡ accept
    → (notional : Fixed) × StagesPass settings market book intent state notional
unfolding check_order check_with_book
stages_of_accept settings market book intent state h =
    elim (Result-cases (checked_mul_ceil intent.limit_price intent.size)) [
      | inl (notional, e) ↦ (notional, ground arith)
      | inr (x, e) ↦ absurd (ground arith)
    ]

accept_of_stages :
    (settings : Settings) (market : MarketMeta) (book : BookState) (intent : OrderIntent)
    (state : RiskState) (notional : Fixed)
    → StagesPass settings market book intent state notional
    → check_order settings market (some book) intent state ≡ accept
unfolding check_order check_with_book
accept_of_stages settings market book intent state notional h = ground arith

module _ (settings : Settings) (market : MarketMeta) (book : BookState) (intent : OrderIntent)
    (state : RiskState) where
  IsAcceptable-of_stages :
      (n : Fixed)
      → StagesPass settings market book intent state n
      → IsAcceptable settings market book intent state
  IsAcceptable-of_stages n
        (identity, flags, top, age, expires, tif, terms, paid, exposure, own, pressure, touch) =
      let (own_asset, market_asset, same_tick, same_minimum) =
        (check_identity_iff market book intent).0 identity in
      let (certain, allowed, active, accepting, paused, resolved, neg_risk, tradeable, hashed) =
        (check_flags_iff market book state).0 flags in
      let (bid_fits, ask_fits, uncrossed) = (check_top_iff book).0 top in
      let (maker, in_range, aligned, book_minimum, market_minimum, covered) =
        (check_terms_iff market book intent state).0 terms in
      let (order_limit, cash, market_limit, total_limit, loss) =
        (check_exposure_iff intent.side settings intent state n refl).0 exposure in
      record {
        own_asset = own_asset;
        market_asset = market_asset;
        same_tick = same_tick;
        same_minimum = same_minimum;
        cache_certain = certain;
        not_prohibited = allowed;
        market_open = (active, accepting, paused, resolved);
        not_neg_risk = neg_risk;
        book_tradeable = (tradeable, hashed);
        bid_fits = bid_fits;
        ask_fits = ask_fits;
        uncrossed = uncrossed;
        fresh = (check_age_iff settings book state).0 age;
        expiry = (check_expiry_iff settings intent state).0 expires;
        wire_fits = (check_tif_iff intent.time_in_force intent state).0 tif;
        maker_only = maker;
        price_fits = (in_range, aligned);
        large_enough = (book_minimum, market_minimum);
        covered = covered;
        notional = n;
        priced = paid;
        order_limit = order_limit;
        cash_limit = cash;
        market_limit = market_limit;
        total_limit = total_limit;
        loss_limit = loss;
        no_self_trade = (has_self_trade_iff intent state.own_resting_orders).0 own;
        pressure_fits =
            (check_pressure_iff intent.side settings intent state.behavioral_pressure refl).0
              pressure;
        touch_fits = (check_touch_iff intent.side settings book intent).0 touch;
      }

  stages_of_acceptable :
      (a : IsAcceptable settings market book intent state)
      → StagesPass settings market book intent state a.notional
  stages_of_acceptable a = (
    (check_identity_iff market book intent).1
        (a.own_asset, a.market_asset, a.same_tick, a.same_minimum),
    (check_flags_iff market book state).1 (
      a.cache_certain, a.not_prohibited, a.market_open.0, a.market_open.1, a.market_open.2,
      a.market_open.3, a.not_neg_risk, a.book_tradeable.0, a.book_tradeable.1,
    ),
    (check_top_iff book).1 (a.bid_fits, a.ask_fits, a.uncrossed),
    (check_age_iff settings book state).1 a.fresh,
    (check_expiry_iff settings intent state).1 a.expiry,
    (check_tif_iff intent.time_in_force intent state).1 a.wire_fits,
    (check_terms_iff market book intent state).1 (
      a.maker_only, a.price_fits.0, a.price_fits.1, a.large_enough.0, a.large_enough.1, a.covered,
    ),
    a.priced,
    (check_exposure_iff intent.side settings intent state a.notional refl).1
        (a.order_limit, a.cash_limit, a.market_limit, a.total_limit, a.loss_limit),
    (has_self_trade_iff intent state.own_resting_orders).1 a.no_self_trade,
    (check_pressure_iff intent.side settings intent state.behavioral_pressure refl).1
        a.pressure_fits,
    (check_touch_iff intent.side settings book intent).1 a.touch_fits,
  )

  -- Against a book, an order is accepted exactly when it is acceptable: all conditions of
  -- IsAcceptable hold, on identity, market flags, top of the book, ages, expiry, time in force,
  -- price, size, holdings, notional, cash, exposures, daily loss, self trades, behavioural
  -- pressure and the touch.
  pub check_order-accept_iff :
      (check_order settings market (some book) intent state ≡ accept)
      ↔ IsAcceptable settings market book intent state
  check_order-accept_iff = (
    λ h.
        let (n, stages) = stages_of_accept settings market book intent state h in
        IsAcceptable-of_stages n stages,
    λ a. accept_of_stages settings market book intent state a.notional (stages_of_acceptable a),
  )
