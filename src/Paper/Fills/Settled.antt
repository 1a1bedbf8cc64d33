-- ===== src/Paper/Fills/Settled.antt =====
-- What a successful fill of paper.rs does to its order, to the position and to the cash.
use polymarket_watch_rust.Base.BTreeMap.{lookup, lookup-insert}
use polymarket_watch_rust.Base.Int.{pos, ◌+ℤ◌, ◌-ℤ◌, ◌<ℤ◌, ◌≤ℤ◌}
use polymarket_watch_rust.Base.Outcome.{ok}
use polymarket_watch_rust.Base.Tests.{
  Bool, Option-cases, String, ap, arith, false, if◌then◌else◌, inl, inr, some, str_eq, subst, sym,
  ℕ, ◌∙◌, ◌≡◌,
}
use polymarket_watch_rust.Fixed.{Fixed, checked_mul_ceil, is_zero, one_fixed}
use polymarket_watch_rust.Paper.Amounts.{bps_amount}
use polymarket_watch_rust.Paper.Fills.{
  apply_fill_at_price, apply_side, matched, record_fill, violates_limit,
}
use polymarket_watch_rust.Paper.Fills.Steps.{
  IsCovered, Settles, apply_side-IsCovered, apply_side-orders, apply_side_lem, bought, paid,
}
use polymarket_watch_rust.Paper.State.{PaperEngine, PaperFill, PaperOrder}
use polymarket_watch_rust.Paper.Steps.{checked_add-ok, checked_sub-ok}
use polymarket_watch_rust.Types.{AssetId}

-- The order after `record_fill`.
abbrev pub filled_order : Fixed → Fixed → ℕ → PaperOrder → PaperOrder
filled_order quantity fee now_ms o =
    let remaining = o.remaining_size -ℤ quantity in
    record o {
      filled_size = o.filled_size +ℤ quantity;
      remaining_size = remaining;
      fees_paid_usdc = o.fees_paid_usdc +ℤ fee;
      state = matched (is_zero remaining) now_ms o.state;
    }

pub record_fill_lem :
    (id : String) (quantity fee : Fixed) (now_ms : ℕ) (e : PaperEngine) {o : PaperOrder}
    {terminal : Bool} {e' : PaperEngine}
    → lookup id e.orders ≡ some o
    → record_fill id quantity fee now_ms e ≡ (ok terminal, e')
    → (e' ≡ record e { orders = e'.orders })
      × ((other : String)
          → lookup other e'.orders ≡ (
              if str_eq other id
              then some (filled_order quantity fee now_ms o)
              else lookup other e.orders))
unfolding record_fill
record_fill_lem id quantity fee now_ms e ho h =
    (grind arith, λ other. grind (arith, lookup-insert, checked_add-ok, checked_sub-ok))

-- The stages of a fill that succeeds, with the amounts that it reports.
module _ (id : String) (quantity price : Fixed) (now_ms : ℕ) (e : PaperEngine) {fill : PaperFill}
    {e' : PaperEngine} (h : apply_fill_at_price id quantity price now_ms e ≡ (ok fill, e')) where
  fill-found : (o : PaperOrder) × (lookup id e.orders ≡ some o)
  unfolding apply_fill_at_price
  fill-found = elim (Option-cases (lookup id e.orders)) [
    | inl none_eq ↦ absurd (grind (arith, none_eq, h))
    | inr found ↦ found
  ]

  module _ (o : PaperOrder) (ho : lookup id e.orders ≡ some o) where
    fill-guards :
        (pos 0 <ℤ quantity)
        × (quantity ≤ℤ o.remaining_size)
        × (pos 0 <ℤ price)
        × (price <ℤ one_fixed)
        × (violates_limit o.state.intent.side price o.state.intent.limit_price ≡ false)
    unfolding apply_fill_at_price
    fill-guards = (grind arith, grind arith, grind arith, grind arith, grind arith)

    fill-amounts :
        (fill.price ≡ price)
        × (fill.size ≡ quantity)
        × (checked_mul_ceil price quantity ≡ ok fill.notional_usdc)
        × (bps_amount fill.notional_usdc e.fee_bps ≡ ok fill.fee_usdc)
    unfolding apply_fill_at_price
    fill-amounts = (grind arith, grind arith, grind arith, grind arith)

    fill-stages :
        (e1 : PaperEngine) × (apply_side o.state.intent.side o.state.intent.asset_id quantity price
            fill.notional_usdc fill.fee_usdc e
          ≡ (ok tt, e1))
        × (record_fill id quantity fill.fee_usdc now_ms e1 ≡ (ok fill.terminal, e'))
    unfolding apply_fill_at_price
    fill-stages = (
      (apply_side o.state.intent.side o.state.intent.asset_id quantity price fill.notional_usdc
          fill.fee_usdc e).1,
      grind arith,
      grind arith,
    )

-- What a fill of the order `o` went through, and what it changed.
pub record IsFill (id : String) (quantity price : Fixed) (now_ms : ℕ) (e : PaperEngine)
    (o : PaperOrder) (fill : PaperFill) (e' : PaperEngine) : Type 0 where
  pub found : lookup id e.orders ≡ some o
  pub positive : pos 0 <ℤ quantity
  pub available : quantity ≤ℤ o.remaining_size
  pub price_low : pos 0 <ℤ price
  pub price_high : price <ℤ one_fixed
  pub within_limit : violates_limit o.state.intent.side price o.state.intent.limit_price ≡ false
  pub same_price : fill.price ≡ price
  pub same_size : fill.size ≡ quantity
  pub notional : checked_mul_ceil price quantity ≡ ok fill.notional_usdc
  pub fee : bps_amount fill.notional_usdc e.fee_bps ≡ ok fill.fee_usdc
  pub covered :
      IsCovered o.state.intent.side o.state.intent.asset_id quantity
        (fill.notional_usdc +ℤ fill.fee_usdc)
        e
  pub settles :
      Settles o.state.intent.asset_id
        (paid o.state.intent.side fill.notional_usdc fill.fee_usdc)
        (bought o.state.intent.side quantity)
        fill.fee_usdc
        e
        e'
  pub orders :
      (other : String)
      → lookup other e'.orders ≡ (
          if str_eq other id
          then some (filled_order quantity fill.fee_usdc now_ms o)
          else lookup other e.orders)

Settles-orders :
    {asset : AssetId} {paid bought fee : Fixed} {e e1 e' : PaperEngine}
    → e' ≡ record e1 { orders = e'.orders }
    → Settles asset paid bought fee e e1
    → Settles asset paid bought fee e e'
Settles-orders {asset} {paid} {bought} {fee} {e} {e1} {e'} h s =
    subst (Settles asset paid bought fee e) (sym h) (record {
      cash = s.cash;
      fees = s.fees;
      holding = s.holding;
      others = s.others;
      fee_bps = s.fee_bps;
    })

-- A fill that succeeds fills an order that is there, for no more than remains of it, at a price
-- within its limit and between zero and one. It moves exactly the quantity from what remains of
-- the order to what is filled, the order being filled when nothing remains; it changes no other
-- order and no other position; the position gains the quantity and the cash loses the notional,
-- rounded up, and the fee (a sale the other way round, less the fee), and the fee is added to
-- the fees paid.
pub apply_fill_at_price_lem :
    (id : String) (quantity price : Fixed) (now_ms : ℕ) (e : PaperEngine) {fill : PaperFill}
    {e' : PaperEngine}
    → apply_fill_at_price id quantity price now_ms e ≡ (ok fill, e')
    → (o : PaperOrder) × IsFill id quantity price now_ms e o fill e'
apply_fill_at_price_lem id quantity price now_ms e {fill} {e'} h =
    let (o, found) = fill-found id quantity price now_ms e h in
    let guards = fill-guards id quantity price now_ms e h o found in
    let amounts = fill-amounts id quantity price now_ms e h o found in
    let (e1, h_side, h_record) = fill-stages id quantity price now_ms e h o found in
    let side = o.state.intent.side in
    let asset = o.state.intent.asset_id in
    let same =
      apply_side-orders side asset quantity price fill.notional_usdc fill.fee_usdc e h_side in
    let recorded =
      record_fill_lem id quantity fill.fee_usdc now_ms e1 (ap (lookup id) same ∙ found) h_record in
    (
      o,
      record {
        found = found;
        positive = guards.0;
        available = guards.1;
        price_low = guards.2;
        price_high = guards.3;
        within_limit = guards.4;
        same_price = amounts.0;
        same_size = amounts.1;
        notional = amounts.2;
        fee = amounts.3;
        covered =
            apply_side-IsCovered side asset quantity price fill.notional_usdc fill.fee_usdc e
              h_side;
        settles =
            Settles-orders recorded.0
              (apply_side_lem side asset quantity price fill.notional_usdc fill.fee_usdc e h_side);
        orders = λ other.
            recorded.1 other
            ∙ ap
                (λ m.
                  if str_eq other id
                  then some (filled_order quantity fill.fee_usdc now_ms o)
                  else lookup other m)
                same;
      },
    )
