-- ===== src/Paper/Fills/Steps.antt =====
-- What `apply_buy` and `apply_sell` of paper.rs do to cash, fees and positions.
use polymarket_watch_rust.Base.BTreeMap.{lookup, lookup-insert}
use polymarket_watch_rust.Base.Int.{int_laws, pos, ◌+ℤ◌, ◌-ℤ◌, ◌≤ℤ◌, -ℤ_add_cancel}
use polymarket_watch_rust.Base.Outcome.{ok}
use polymarket_watch_rust.Base.Tests.{ap, arith, eq_refl, if◌then◌else◌, none, str_eq, ◌∙◌, ◌≡◌}
use polymarket_watch_rust.Fixed.{Fixed}
use polymarket_watch_rust.Paper.Amounts.{held}
use polymarket_watch_rust.Paper.Fills.{apply_buy, apply_sell, apply_side}
use polymarket_watch_rust.Paper.State.{PaperEngine}
use polymarket_watch_rust.Paper.Steps.{checked_add-ok, checked_sub-ok}
use polymarket_watch_rust.Types.{AssetId, Side, buy, sell}

-- What a fill of `quantity` at a cost of `paid`, less than zero when it is received, does to an
-- engine, apart from its order.
pub record Settles (asset : AssetId) (paid bought fee : Fixed) (e e' : PaperEngine) : Type 0 where
  pub cash : e'.cash_usdc +ℤ paid ≡ e.cash_usdc
  pub fees : e'.fees_paid_usdc ≡ e.fees_paid_usdc +ℤ fee
  pub holding : held asset e' ≡ held asset e +ℤ bought
  pub others :
      (other : AssetId)
      → (if str_eq other asset then none else lookup other e'.positions)
        ≡ (if str_eq other asset then none else lookup other e.positions)
  pub fee_bps : e'.fee_bps ≡ e.fee_bps

pub apply_buy-cash :
    (asset : AssetId) (quantity price notional fee : Fixed) (e : PaperEngine) {e' : PaperEngine}
    → apply_buy asset quantity price notional fee e ≡ (ok tt, e')
    → e'.cash_usdc ≡ e.cash_usdc -ℤ (notional +ℤ fee)
unfolding apply_buy
apply_buy-cash asset quantity price notional fee e h = grind (arith, checked_add-ok, checked_sub-ok)

-- A buy is paid from cash that is there.
pub apply_buy-covered :
    (asset : AssetId) (quantity price notional fee : Fixed) (e : PaperEngine) {e' : PaperEngine}
    → apply_buy asset quantity price notional fee e ≡ (ok tt, e')
    → notional +ℤ fee ≤ℤ e.cash_usdc
unfolding apply_buy
apply_buy-covered asset quantity price notional fee e h = grind (arith, checked_add-ok)

pub apply_buy_lem :
    (asset : AssetId) (quantity price notional fee : Fixed) (e : PaperEngine) {e' : PaperEngine}
    → apply_buy asset quantity price notional fee e ≡ (ok tt, e')
    → Settles asset (notional +ℤ fee) quantity fee e e'
unfolding apply_buy
apply_buy_lem asset quantity price notional fee e h = record {
  cash =
      ap (λ c. c +ℤ (notional +ℤ fee)) (apply_buy-cash asset quantity price notional fee e h)
      ∙ -ℤ_add_cancel e.cash_usdc (notional +ℤ fee);
  fees = grind (arith, checked_add-ok, checked_sub-ok);
  holding = grind (arith, checked_add-ok, lookup-insert, eq_refl asset);
  others = λ other. grind (arith, lookup-insert);
  fee_bps = grind arith;
}

pub apply_sell-cash :
    (asset : AssetId) (quantity price notional fee : Fixed) (e : PaperEngine) {e' : PaperEngine}
    → apply_sell asset quantity price notional fee e ≡ (ok tt, e')
    → e'.cash_usdc ≡ e.cash_usdc +ℤ (notional -ℤ fee)
unfolding apply_sell
apply_sell-cash asset quantity price notional fee e h =
    grind (arith, checked_add-ok, checked_sub-ok)

pub apply_sell-covered :
    (asset : AssetId) (quantity price notional fee : Fixed) (e : PaperEngine) {e' : PaperEngine}
    → apply_sell asset quantity price notional fee e ≡ (ok tt, e')
    → quantity ≤ℤ held asset e
unfolding apply_sell
apply_sell-covered asset quantity price notional fee e h = grind arith

apply_sell-held :
    (asset : AssetId) (quantity price notional fee : Fixed) (e : PaperEngine) {e' : PaperEngine}
    → apply_sell asset quantity price notional fee e ≡ (ok tt, e')
    → held asset e' ≡ held asset e -ℤ quantity
unfolding apply_sell
apply_sell-held asset quantity price notional fee e h =
    grind (arith, checked_sub-ok, lookup-insert, eq_refl asset)

pub apply_sell_lem :
    (asset : AssetId) (quantity price notional fee : Fixed) (e : PaperEngine) {e' : PaperEngine}
    → apply_sell asset quantity price notional fee e ≡ (ok tt, e')
    → Settles asset (fee -ℤ notional) (pos 0 -ℤ quantity) fee e e'
unfolding apply_sell
apply_sell_lem asset quantity price notional fee e h = record {
  cash =
      ap (λ c. c +ℤ (fee -ℤ notional)) (apply_sell-cash asset quantity price notional fee e h)
      ∙ omega int_laws;
  fees = grind (arith, checked_add-ok, checked_sub-ok);
  holding = apply_sell-held asset quantity price notional fee e h ∙ omega int_laws;
  others = λ other. grind (arith, lookup-insert);
  fee_bps = grind arith;
}

pub apply_side-orders :
    (side : Side) (asset : AssetId) (quantity price notional fee : Fixed) (e : PaperEngine)
    {e' : PaperEngine}
    → apply_side side asset quantity price notional fee e ≡ (ok tt, e')
    → e'.orders ≡ e.orders
unfolding apply_buy apply_sell
apply_side-orders buy asset quantity price notional fee e h = grind arith
apply_side-orders sell asset quantity price notional fee e h = grind arith

-- What an order of this side pays for a fill, and what it adds to the position.
abbrev pub paid : Side → Fixed → Fixed → Fixed
paid buy notional fee = notional +ℤ fee
paid sell notional fee = fee -ℤ notional

abbrev pub bought : Side → Fixed → Fixed
bought buy quantity = quantity
bought sell quantity = pos 0 -ℤ quantity

pub apply_side_lem :
    (side : Side) (asset : AssetId) (quantity price notional fee : Fixed) (e : PaperEngine)
    {e' : PaperEngine}
    → apply_side side asset quantity price notional fee e ≡ (ok tt, e')
    → Settles asset (paid side notional fee) (bought side quantity) fee e e'
apply_side_lem buy = apply_buy_lem
apply_side_lem sell = apply_sell_lem

-- A buy is paid from cash that is there, and a sale delivers from a position that is there.
abbrev pub IsCovered : Side → AssetId → Fixed → Fixed → PaperEngine → Type 0
IsCovered buy asset quantity cost e = cost ≤ℤ e.cash_usdc
IsCovered sell asset quantity cost e = quantity ≤ℤ held asset e

pub apply_side-IsCovered :
    (side : Side) (asset : AssetId) (quantity price notional fee : Fixed) (e : PaperEngine)
    {e' : PaperEngine}
    → apply_side side asset quantity price notional fee e ≡ (ok tt, e')
    → IsCovered side asset quantity (notional +ℤ fee) e
apply_side-IsCovered buy = apply_buy-covered
apply_side-IsCovered sell = apply_sell-covered
