-- ===== src/Risk/Stages.antt =====
-- What each stage of the checks in risk.rs asks of an order.
use polymarket_watch_rust.Base.Int.{IsI128, neg_part, pos, pos_part, u64_max, ◌+ℤ◌, ◌<ℤ◌, ◌≤ℤ◌}
use polymarket_watch_rust.Base.Lists.{All, All-map, any-eq-false}
use polymarket_watch_rust.Base.Tests.{
  List, Option, arith, eq_iff, false, none, refl, some, true, ◌+◌, ◌/◌, ◌<◌, ◌↔◌, ◌≡◌, ◌≢◌, ◌≤◌,
  ◌⊎◌,
}
use polymarket_watch_rust.Behavior.{
  BehavioralPressure, near_panic_threshold, through_panic_threshold,
}
use polymarket_watch_rust.Config.{Settings}
use polymarket_watch_rust.Fixed.{Fixed, checked_add, is_aligned_to_tick, one_fixed}
use polymarket_watch_rust.Risk.{
  RiskState, accept, as_i64, check_age, check_expiry, check_exposure, check_flags, check_identity,
  check_position, check_pressure, check_terms, check_tif, check_top, check_touch, check_zone,
  has_self_trade, is_none, ticks_or_max, trades_with,
}
use polymarket_watch_rust.Types.{
  BookState, MarketMeta, OrderIntent, OwnRestingOrder, Side, TimeInForce, buy, fak, fok, gtc, gtd,
  sell, side_eq, top_ask_size, top_bid_size,
}

abbrev pub Same : Fixed → Fixed → Type 0
Same a b = pos_part a + neg_part b ≡ pos_part b + neg_part a

abbrev pub InRange : Fixed → Type 0
InRange price = (pos 0 <ℤ price) × (price <ℤ one_fixed)

-- What holds of a number that may be absent.
abbrev pub Each {ℓ} : {A : Type ℓ} → Option A → (A → Type 0) → Type 0
Each none P = Unit
Each (some a) P = P a

-- What must hold of a number that must be there.
abbrev pub Present {ℓ} : {A : Type ℓ} → Option A → (A → Type 0) → Type 0
Present none P = ⊥
Present (some a) P = P a

pub check_identity_iff :
    (market : MarketMeta) (book : BookState) (intent : OrderIntent)
    → (check_identity market book intent ≡ accept) ↔ (
        (intent.asset_id ≡ book.asset_id)
        × ((intent.asset_id ≡ market.asset_id_yes) ⊎ (intent.asset_id ≡ market.asset_id_no))
        × Same market.tick_size book.tick_size
        × Same market.min_order_size book.min_order_size)
unfolding check_identity
check_identity_iff market book intent =
    let same = eq_iff intent.asset_id book.asset_id in
    let yes_side = eq_iff intent.asset_id market.asset_id_yes in
    let no_side = eq_iff intent.asset_id market.asset_id_no in
    (λ h. ground (arith, same, yes_side, no_side), λ h. ground (arith, same, yes_side, no_side))

pub check_flags_iff :
    (market : MarketMeta) (book : BookState) (state : RiskState)
    → (check_flags market book state ≡ accept) ↔ (
        (state.own_order_cache_certain ≡ true)
        × (state.prohibited_conduct_flag ≡ false)
        × (market.active ≡ true)
        × (market.accepting_orders ≡ true)
        × (market.paused ≡ false)
        × (market.resolved ≡ false)
        × (market.neg_risk ≡ false)
        × (book.tradeable ≡ true)
        × (is_none book.book_hash ≡ false))
unfolding check_flags
check_flags_iff market book state = (λ h. ground arith, λ h. ground arith)

pub check_age_iff :
    (settings : Settings) (book : BookState) (state : RiskState)
    → (check_age settings book state ≡ accept) ↔ (
        (book.exchange_timestamp_ms ≤ book.local_received_at_ms)
        × (book.local_received_at_ms ≤ state.now_ms)
        × (state.now_ms ≤ book.local_received_at_ms + settings.max_book_age_ms)
        × (book.local_received_at_ms ≤ book.exchange_timestamp_ms + settings.max_event_lag_ms))
unfolding check_age
check_age_iff settings book state = (λ h. ground arith, λ h. ground arith)

pub check_expiry_iff :
    (settings : Settings) (intent : OrderIntent) (state : RiskState)
    → (check_expiry settings intent state ≡ accept) ↔ (
        (state.now_ms < intent.local_expires_at_ms)
        × (state.now_ms + settings.order_ttl_ms ≤ u64_max)
        × (intent.local_expires_at_ms ≤ state.now_ms + settings.order_ttl_ms))
unfolding check_expiry
check_expiry_iff settings intent state = (λ h. ground arith, λ h. ground arith)

pub check_top_iff :
    (book : BookState)
    → (check_top book ≡ accept) ↔ (
        Each book.best_bid (λ bid. InRange bid × (is_aligned_to_tick bid book.tick_size ≡ true))
        × Each book.best_ask (λ ask. InRange ask × (is_aligned_to_tick ask book.tick_size ≡ true))
        × Each book.best_bid (λ bid. Each book.best_ask (λ ask. bid <ℤ ask)))
unfolding check_top
check_top_iff book = (λ h. ground arith, λ h. ground arith)

-- The expiry on the wire that each time in force allows.
abbrev pub WireFits : TimeInForce → OrderIntent → RiskState → Type 0
WireFits gtc intent state = intent.wire_expiration_s ≡ none
WireFits gtd intent state =
    Present intent.wire_expiration_s
      (λ expiry. (state.now_ms / 1000 + 180 ≤ u64_max) × (state.now_ms / 1000 + 180 ≤ expiry))
WireFits fok intent state = (intent.wire_expiration_s ≡ none) × (intent.post_only ≡ false)
WireFits fak intent state = (intent.wire_expiration_s ≡ none) × (intent.post_only ≡ false)

pub check_tif_iff :
    (tif : TimeInForce) (intent : OrderIntent) (state : RiskState)
    → (check_tif tif intent state ≡ accept) ↔ WireFits tif intent state
unfolding check_tif
check_tif_iff gtc intent state = (λ h. ground arith, λ h. ground arith)
check_tif_iff gtd intent state = (λ h. ground arith, λ h. ground arith)
check_tif_iff fok intent state = (λ h. ground arith, λ h. ground arith)
check_tif_iff fak intent state = (λ h. ground arith, λ h. ground arith)

abbrev pub HoldsEnough : Side → OrderIntent → RiskState → Type 0
HoldsEnough buy intent state = Unit
HoldsEnough sell intent state =
    Present state.available_position_size (λ available. intent.size ≤ℤ available)

pub check_position_iff :
    (side : Side) (intent : OrderIntent) (state : RiskState)
    → (check_position side intent state ≡ accept) ↔ HoldsEnough side intent state
unfolding check_position
check_position_iff buy intent state = (λ h. tt, λ h. refl)
check_position_iff sell intent state = (λ h. ground arith, λ h. ground arith)

pub check_terms_iff :
    (market : MarketMeta) (book : BookState) (intent : OrderIntent) (state : RiskState)
    → (check_terms market book intent state ≡ accept) ↔ (
        (intent.post_only ≡ true)
        × InRange intent.limit_price
        × (is_aligned_to_tick intent.limit_price book.tick_size ≡ true)
        × (book.min_order_size ≤ℤ intent.size)
        × (market.min_order_size ≤ℤ intent.size)
        × HoldsEnough intent.side intent state)
unfolding check_terms
check_terms_iff market book intent state =
    let position = check_position_iff intent.side intent state in
    (λ h. ground (arith, position), λ h. ground (arith, position))

-- An exposure that a buy raises by its notional, within `i128` and a limit.
abbrev pub StaysWithin : Side → Fixed → Fixed → Fixed → Type 0
StaysWithin buy exposure notional limit =
    IsI128 (exposure +ℤ notional) × (exposure +ℤ notional ≤ℤ limit)
StaysWithin sell exposure notional limit = exposure ≤ℤ limit

abbrev pub CanPay : Side → Option Fixed → Fixed → Type 0
CanPay buy cash notional = Each cash (λ available. notional ≤ℤ available)
CanPay sell cash notional = Unit

pub check_exposure_iff :
    (side : Side) (settings : Settings) (intent : OrderIntent) (state : RiskState)
    (notional : Fixed)
    → intent.side ≡ side
    → (check_exposure settings intent state notional ≡ accept) ↔ (
        (notional ≤ℤ settings.max_order_usdc)
        × CanPay side state.available_cash_usdc notional
        × StaysWithin side state.market_exposure_usdc notional settings.max_market_exposure_usdc
        × StaysWithin side state.total_exposure_usdc notional settings.max_position_notional_usdc
        × (state.daily_loss_usdc <ℤ settings.max_daily_loss_usdc))
unfolding check_exposure checked_add
check_exposure_iff buy settings intent state notional e = (λ h. ground arith, λ h. ground arith)
check_exposure_iff sell settings intent state notional e = (λ h. ground arith, λ h. ground arith)

abbrev pub ApartFrom : Side → Fixed → Fixed → Type 0
ApartFrom buy limit own = limit <ℤ own
ApartFrom sell limit own = own <ℤ limit

-- No resting order of the account is on the other side of the same asset at a price that the intent
-- would meet.
abbrev pub NoSelfTrade : OrderIntent → List OwnRestingOrder → Type 0
NoSelfTrade intent own_orders =
    All
      (λ own.
        own.asset_id ≡ intent.asset_id
        → side_eq own.side intent.side ≡ false
        → ApartFrom intent.side intent.limit_price own.price)
      own_orders

trades_with_iff :
    (side : Side) (intent : OrderIntent) (own : OwnRestingOrder)
    → intent.side ≡ side
    → (trades_with intent own ≡ false) ↔ (
        own.asset_id ≡ intent.asset_id
        → side_eq own.side intent.side ≡ false
        → ApartFrom side intent.limit_price own.price)
trades_with_iff buy intent own e =
    let same = eq_iff own.asset_id intent.asset_id in
    (λ h asset other. ground (arith, same), λ h. ground (arith, same))
trades_with_iff sell intent own e =
    let same = eq_iff own.asset_id intent.asset_id in
    (λ h asset other. ground (arith, same), λ h. ground (arith, same))

pub has_self_trade_iff :
    (intent : OrderIntent) (own_orders : List OwnRestingOrder)
    → (has_self_trade intent own_orders ≡ false) ↔ NoSelfTrade intent own_orders
unfolding has_self_trade
has_self_trade_iff intent own_orders =
    let each = any-eq-false (trades_with intent) own_orders in
    (
      λ h. All-map (λ own. (trades_with_iff intent.side intent own refl).0) own_orders (each.0 h),
      λ h. each.1 (All-map (λ own. (trades_with_iff intent.side intent own refl).1) own_orders h),
    )

abbrev pub PressureFits : Side → Settings → BehavioralPressure → Type 0
PressureFits buy settings p =
    p.zone ≡ through_panic_threshold
    → p.expected_adverse_move_bps ≤ℤ as_i64 settings.max_market_impact_bps
PressureFits sell settings p = p.zone ≢ near_panic_threshold

-- The touch on the other side: deep enough, not crossed, and at most so many ticks away.
abbrev pub TouchFits : Side → Settings → BookState → OrderIntent → Type 0
TouchFits buy settings book intent = Present book.best_ask (λ ask.
    (settings.min_top_book_size ≤ℤ top_ask_size book)
    × (intent.limit_price <ℤ ask)
    × (ticks_or_max ask intent.limit_price book.tick_size ≤ settings.max_slippage_ticks))
TouchFits sell settings book intent = Present book.best_bid (λ bid.
    (settings.min_top_book_size ≤ℤ top_bid_size book)
    × (bid <ℤ intent.limit_price)
    × (ticks_or_max bid intent.limit_price book.tick_size ≤ settings.max_slippage_ticks))

pub check_touch_iff :
    (side : Side) (settings : Settings) (book : BookState) (intent : OrderIntent)
    → (check_touch side settings book intent ≡ accept) ↔ TouchFits side settings book intent
unfolding check_touch
check_touch_iff buy settings book intent = (λ h. ground arith, λ h. ground arith)
check_touch_iff sell settings book intent = (λ h. ground arith, λ h. ground arith)

pub check_pressure_iff :
    (side : Side) (settings : Settings) (intent : OrderIntent)
    (pressure : Option BehavioralPressure)
    → intent.side ≡ side
    → (check_pressure settings intent pressure ≡ accept)
      ↔ Each pressure (PressureFits side settings)
unfolding check_pressure check_zone
check_pressure_iff buy settings intent none e = (λ h. tt, λ h. refl)
check_pressure_iff sell settings intent none e = (λ h. tt, λ h. refl)
check_pressure_iff buy settings intent (some p) e = (λ h. λ z. ground arith, λ h. ground arith)
check_pressure_iff sell settings intent (some p) e = (λ h. λ z. ground arith, λ h. ground arith)
