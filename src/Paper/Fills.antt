-- ===== src/Paper/Fills.antt =====
-- The fills of paper.rs: `apply_buy`, `apply_sell`, `apply_fill_at_price` and `apply_fill`.
pub mod Steps
pub mod Settled
use polymarket_watch_rust.Base.BTreeMap.{BTreeMap, insert, lookup}
use polymarket_watch_rust.Base.Int.{leb_ℤ, ltb_ℤ}
use polymarket_watch_rust.Base.Outcome.{execution, ok, ok_or}
use polymarket_watch_rust.Base.Tests.{Bool, Option, String, if◌then◌else◌, none, some, ℕ, ⊤, ◌||◌}
use polymarket_watch_rust.Fixed.{
  Fixed, checked_add, checked_div, checked_mul, checked_mul_ceil, checked_sub, is_zero, one_fixed,
  zero_fixed,
}
use polymarket_watch_rust.Paper.Amounts.{bps_amount}
use polymarket_watch_rust.Paper.State.{
  Action, PaperEngine, PaperFill, PaperOrder, PaperPosition, gets, lift, modify, pure, raise_if,
  ◌>>=◌, ◌>>◌,
}
use polymarket_watch_rust.Types.{AssetId, OrderState, OrderStatus, Side, buy, sell}

abbrev pub put_position : AssetId → PaperPosition → PaperEngine → PaperEngine
put_position asset position e = record e { positions = insert asset position e.positions }

abbrev pub put_order : String → PaperOrder → PaperEngine → PaperEngine
put_order id order e = record e { orders = insert id order e.orders }

abbrev pub no_position : AssetId → PaperPosition
no_position asset = record {
  asset_id = asset;
  size = zero_fixed;
  average_price = zero_fixed;
  realized_pnl_usdc = zero_fixed;
}

-- `entry(asset).or_insert(...)`
abbrev pub entry : AssetId → BTreeMap PaperPosition → PaperPosition
entry asset positions = elim (lookup asset positions) [ none ↦ no_position asset | some p ↦ p ]

-- The cash and the fee are written before the position is computed, so an overflow in the
-- average price leaves them written.
unfoldable pub apply_buy : AssetId → Fixed → Fixed → Fixed → Fixed → Action ⊤
apply_buy asset quantity price notional fee = do
  total_cost ← lift (checked_add notional fee)
  cash ← gets (λ e. ok e.cash_usdc)
  raise_if (ltb_ℤ cash total_cost) (execution "paper_cash_changed_before_fill")
  cash' ← lift (checked_sub cash total_cost)
  modify (λ e. record e { cash_usdc = cash' })
  fees ← gets (λ e. checked_add e.fees_paid_usdc fee)
  modify (λ e. record e { fees_paid_usdc = fees })
  position ← gets (λ e. ok (entry asset e.positions))
  modify (put_position asset position)
  existing_cost ← lift (checked_mul position.average_price position.size)
  new_size ← lift (checked_add position.size quantity)
  bought ← lift (checked_mul price quantity)
  cost ← lift (checked_add existing_cost bought)
  new_cost ← lift (checked_add cost fee)
  average ← lift (checked_div new_cost new_size)
  modify (put_position asset (record position { average_price = average; size = new_size }))

unfoldable pub apply_sell : AssetId → Fixed → Fixed → Fixed → Fixed → Action ⊤
apply_sell asset quantity price notional fee = do
  position ← gets (λ e. ok_or (lookup asset e.positions) (execution "paper_sell_without_position"))
  raise_if (ltb_ℤ position.size quantity) (execution "paper_sell_exceeds_position")
  cost_basis ← lift (checked_mul position.average_price quantity)
  proceeds ← lift (checked_sub notional fee)
  realized ← lift (checked_sub proceeds cost_basis)
  cash ← gets (λ e. checked_add e.cash_usdc proceeds)
  modify (λ e. record e { cash_usdc = cash })
  pnl ← gets (λ e. checked_add e.realized_pnl_usdc realized)
  modify (λ e. record e { realized_pnl_usdc = pnl })
  fees ← gets (λ e. checked_add e.fees_paid_usdc fee)
  modify (λ e. record e { fees_paid_usdc = fees })
  position_pnl ← lift (checked_add position.realized_pnl_usdc realized)
  modify (put_position asset (record position { realized_pnl_usdc = position_pnl }))
  size ← lift (checked_sub position.size quantity)
  modify (
      put_position asset (record position {
        realized_pnl_usdc = position_pnl;
        size = size;
        average_price = (if is_zero size then zero_fixed else position.average_price);
      }))

abbrev pub apply_side : Side → AssetId → Fixed → Fixed → Fixed → Fixed → Action ⊤
apply_side buy asset quantity price notional fee = apply_buy asset quantity price notional fee
apply_side sell asset quantity price notional fee = apply_sell asset quantity price notional fee

abbrev pub violates_limit : Side → Fixed → Fixed → Bool
violates_limit buy price limit = ltb_ℤ limit price
violates_limit sell price limit = ltb_ℤ price limit

-- `get_or_insert`
abbrev pub get_or_insert : Option ℕ → ℕ → Option ℕ
get_or_insert none now_ms = some now_ms
get_or_insert (some t) now_ms = some t

abbrev pub with_filled : Fixed → PaperOrder → PaperOrder
with_filled filled order = record order { filled_size = filled }

abbrev pub with_remaining : Fixed → PaperOrder → PaperOrder
with_remaining remaining order = record order { remaining_size = remaining }

abbrev pub with_fees : Fixed → PaperOrder → PaperOrder
with_fees fees order = record order { fees_paid_usdc = fees }

-- The state of an order that a fill has matched.
abbrev pub matched : Bool → ℕ → OrderState → OrderState
matched terminal now_ms s = record s {
  matched_at_ms = get_or_insert s.matched_at_ms now_ms;
  settled_at_ms = (if terminal then some now_ms else s.settled_at_ms);
  status = (if terminal then OrderStatus.filled else OrderStatus.partially_filled);
}

-- The writes to the order, one after another: an error leaves the earlier ones.
unfoldable pub record_fill : String → Fixed → Fixed → ℕ → Action Bool
record_fill id quantity fee now_ms = do
  order ← gets (λ e. ok_or (lookup id e.orders) (execution "paper_order_disappeared_during_fill"))
  filled ← lift (checked_add order.filled_size quantity)
  modify (put_order id (with_filled filled order))
  remaining ← lift (checked_sub order.remaining_size quantity)
  modify (put_order id (with_remaining remaining (with_filled filled order)))
  fees ← lift (checked_add order.fees_paid_usdc fee)
  let order' = with_fees fees (with_remaining remaining (with_filled filled order))
  modify (put_order id (record order' { state = matched (is_zero remaining) now_ms order.state }))
  pure (is_zero remaining)

abbrev pub or_empty : Option String → String
or_empty none = ""
or_empty (some s) = s

unfoldable pub apply_fill_at_price : String → Fixed → Fixed → ℕ → Action PaperFill
apply_fill_at_price id quantity price now_ms = do
  order ← gets (λ e. ok_or (lookup id e.orders) (execution "paper_order_not_found"))
  let asset = order.state.intent.asset_id
  let side = order.state.intent.side
  raise_if (leb_ℤ quantity zero_fixed || ltb_ℤ order.remaining_size quantity)
      (execution "paper_fill_quantity_out_of_range")
  raise_if
      (leb_ℤ price zero_fixed
        || leb_ℤ one_fixed price
        || violates_limit side price order.state.intent.limit_price)
      (execution "paper_fill_price_violates_limit")
  notional ← lift (checked_mul_ceil price quantity)
  fee ← gets (λ e. bps_amount notional e.fee_bps)
  apply_side side asset quantity price notional fee
  terminal ← record_fill id quantity fee now_ms
  pure (record {
    client_order_id = id;
    exchange_order_id = or_empty order.state.exchange_order_id;
    asset_id = asset;
    side = side;
    price = price;
    size = quantity;
    notional_usdc = notional;
    fee_usdc = fee;
    filled_at_ms = now_ms;
    terminal = terminal;
  })

unfoldable pub apply_fill : String → Fixed → ℕ → Action PaperFill
apply_fill id quantity now_ms = do
  order ← gets (λ e. ok_or (lookup id e.orders) (execution "paper_order_not_found"))
  apply_fill_at_price id quantity order.state.intent.limit_price now_ms
