-- ===== src/Paper/Matching/Participation.antt =====
-- About `process_trade` of paper.rs: the sizes that one trade fills.
use polymarket_watch_rust.Base.BTreeMap.{BTreeMap}
use polymarket_watch_rust.Base.Int.{int_laws, ltb_ℤ, pos, ◌+ℤ◌, ◌<ℤ◌, ◌≤ℤ◌}
use polymarket_watch_rust.Base.Lists.{All}
use polymarket_watch_rust.Base.Outcome.{Result, Result-cases, err, ok}
use polymarket_watch_rust.Base.Tests.{
  Bool-cases, List, Option, String, [], arith, inl, inr, none, refl, some, subst, ℕ, ◌∷◌, ◌≡◌,
}
use polymarket_watch_rust.Fixed.{Fixed, checked_sub, zero_fixed}
use polymarket_watch_rust.Fixed.Rounding.{checked_mul_lem}
use polymarket_watch_rust.Paper.Amounts.{bps_factor, participation_amount}
use polymarket_watch_rust.Paper.Fills.{apply_fill, apply_fill_at_price}
use polymarket_watch_rust.Paper.Matching.{
  Plans, Trade, Visit, apply_positive_fills, map_ok, match_trade, opposite, plan_trade,
  process_trade, push_fill, visit_trade,
}
use polymarket_watch_rust.Paper.State.{PaperEngine, PaperFill, PaperOrder}
use polymarket_watch_rust.Paper.Steps.{checked_sub-ok}
use polymarket_watch_rust.Types.{AssetId, Side}

-- The quantities of the plans and of the fills, added up exactly.
abbrev pub planned_total : List (String × Fixed) → Fixed
planned_total [] = pos 0
planned_total ((id, quantity) ∷ rest) = quantity +ℤ planned_total rest

abbrev pub filled_total : List PaperFill → Fixed
filled_total [] = pos 0
filled_total (fill ∷ rest) = fill.size +ℤ filled_total rest

-- No order has less than nothing left to fill.
abbrev pub RemainingNonneg : BTreeMap PaperOrder → Type 0
RemainingNonneg m = All (λ (x : String × PaperOrder). pos 0 ≤ℤ x.1.remaining_size) m

abbrev pub PlansNonneg : List (String × Fixed) → Type 0
PlansNonneg plans = All (λ (x : String × Fixed). pos 0 ≤ℤ x.1) plans

visit_trade-plan :
    (t : Trade) (now_ms : ℕ) (left : Fixed) (order : PaperOrder) {quantity : Fixed}
    → pos 0 ≤ℤ left
    → pos 0 ≤ℤ order.remaining_size
    → visit_trade t now_ms left order ≡ Visit.plan quantity
    → (quantity ≤ℤ left) × (pos 0 ≤ℤ quantity)
unfolding visit_trade
visit_trade-plan t now_ms left order h_left h_remaining h = (ground arith, ground arith)

-- The fills of a loop that succeeds, and none of one that fails.
abbrev pub fills_of : Result Plans → List (String × Fixed)
fills_of (ok plans) = plans.fills
fills_of (err _) = []

pub planned_total-nonneg :
    (plans : List (String × Fixed)) → PlansNonneg plans → pos 0 ≤ℤ planned_total plans
planned_total-nonneg [] h = omega arith
planned_total-nonneg ((id, quantity) ∷ rest) h =
    omega (int_laws, planned_total-nonneg rest h.1, h.0)

push_fill-total :
    (left left' : Fixed) (id : String) (quantity : Fixed) (r : Result Plans)
    → checked_sub left quantity ≡ ok left'
    → (quantity ≤ℤ left) × (pos 0 ≤ℤ quantity)
    → (planned_total (fills_of r) ≤ℤ left') × PlansNonneg (fills_of r)
    → pos 0 ≤ℤ left
    → (planned_total (fills_of (map_ok (push_fill id quantity) r)) ≤ℤ left)
      × PlansNonneg (fills_of (map_ok (push_fill id quantity) r))
push_fill-total left left' id quantity (ok p) hs hq h hl =
    (grind (int_laws, checked_sub-ok left quantity hs), (hq.1, h.1))
push_fill-total left left' id quantity (err x) hs hq h hl = (omega (int_laws, hl), tt)

-- What one step of the loop adds, when the rest of the loop keeps within what is left to it.
module _ (t : Trade) (now_ms : ℕ) (left : Fixed) (id : String) (order : PaperOrder)
    (rest : BTreeMap PaperOrder) (h_left : pos 0 ≤ℤ left) (h_order : pos 0 ≤ℤ order.remaining_size)
    (ih : (l : Fixed)
      → pos 0 ≤ℤ l
      → (planned_total (fills_of (plan_trade t now_ms l rest).0) ≤ℤ l)
        × PlansNonneg (fills_of (plan_trade t now_ms l rest).0)) where
  abbrev Goal : Type 0
  Goal =
      (planned_total (fills_of (plan_trade t now_ms left ((id, order) ∷ rest)).0) ≤ℤ left)
      × PlansNonneg (fills_of (plan_trade t now_ms left ((id, order) ∷ rest)).0)

  left-nonneg :
      {quantity left' : Fixed}
      → visit_trade t now_ms left order ≡ Visit.plan quantity
      → checked_sub left quantity ≡ ok left'
      → pos 0 ≤ℤ left'
  left-nonneg {quantity} hv hs = grind (
    int_laws,
    checked_sub-ok left quantity hs,
    visit_trade-plan t now_ms left order h_left h_order hv,
  )

  plan_trade-total-plan :
      (quantity : Fixed) → visit_trade t now_ms left order ≡ Visit.plan quantity → Goal
  unfolding plan_trade
  plan_trade-total-plan quantity hv = elim (Result-cases (checked_sub left quantity)) [
    | inl (left', hs) ↦ grind (
      arith,
      hv,
      hs,
      push_fill-total left left' id quantity (plan_trade t now_ms left' rest).0 hs
          (visit_trade-plan t now_ms left order h_left h_order hv) (ih left' (left-nonneg hv hs))
          h_left,
    )
    | inr (x, hs) ↦ grind (arith, hv, hs)
  ]

  plan_trade-total-step : Goal
  unfolding plan_trade
  plan_trade-total-step = visited (visit_trade t now_ms left order) refl
    where
      visited : (v : Visit) → visit_trade t now_ms left order ≡ v → Goal
      visited Visit.skip hv = grind (arith, hv, ih left h_left)
      visited Visit.expire hv = grind (arith, hv, ih left h_left)
      visited Visit.note hv = grind (arith, hv, ih left h_left)
      visited (Visit.plan quantity) hv = plan_trade-total-plan quantity hv

-- The plans of one trade take no more than the liquidity that is left.
pub plan_trade-total :
    (t : Trade) (now_ms : ℕ) (left : Fixed) (m : BTreeMap PaperOrder)
    → pos 0 ≤ℤ left
    → RemainingNonneg m
    → (planned_total (fills_of (plan_trade t now_ms left m).0) ≤ℤ left)
      × PlansNonneg (fills_of (plan_trade t now_ms left m).0)
unfolding plan_trade
plan_trade-total t now_ms left [] h_left h_m = (ground arith, tt)
plan_trade-total t now_ms left ((id, order) ∷ rest) h_left h_m =
    plan_trade-total-step t now_ms left id order rest h_left h_m.0
      (λ l hl. plan_trade-total t now_ms l rest hl h_m.1)

apply_fill-size :
    (id : String) (quantity : Fixed) (now_ms : ℕ) (e : PaperEngine) {fill : PaperFill}
    → (apply_fill id quantity now_ms e).0 ≡ ok fill
    → fill.size ≡ quantity
unfolding apply_fill apply_fill_at_price
apply_fill-size id quantity now_ms e h = grind arith

-- The fills that a method reports, and none with an error.
abbrev pub reported : Result (List PaperFill) → List PaperFill
reported (ok fills) = fills
reported (err _) = []

-- Each fill that is reported has its planned quantity.
pub apply_positive_fills-total :
    (plans : List (String × Fixed)) (now_ms : ℕ) (e : PaperEngine)
    → PlansNonneg plans
    → filled_total (reported (apply_positive_fills plans now_ms e).0) ≤ℤ planned_total plans
unfolding apply_positive_fills
apply_positive_fills-total [] now_ms e h_plans = grind arith
apply_positive_fills-total ((id, quantity) ∷ rest) now_ms e h_plans =
    elim (Bool-cases (ltb_ℤ zero_fixed quantity)) [
      | inl positive ↦ elim (Result-cases (apply_fill id quantity now_ms e).0) [
        | inl (fill, hf) ↦ grind (
          int_laws,
          positive,
          hf,
          apply_positive_fills-total rest now_ms (apply_fill id quantity now_ms e).1 h_plans.1,
          apply_fill-size id quantity now_ms e hf,
          planned_total-nonneg rest h_plans.1,
        )
        | inr (x, hf) ↦ grind (int_laws, positive, hf, planned_total-nonneg rest h_plans.1)
      ]
      | inr nothing ↦ grind (int_laws, nothing, apply_positive_fills-total rest now_ms e h_plans.1)
    ]

match_trade-total :
    (t : Trade) (size : Fixed) (now_ms : ℕ) (e : PaperEngine) {share : Fixed}
    → RemainingNonneg e.orders
    → pos 0 ≤ℤ share
    → participation_amount size e.fill_participation_bps ≡ ok share
    → filled_total (reported (match_trade t size now_ms e).0) ≤ℤ share
unfolding match_trade
match_trade-total t size now_ms e {share} h_e h_share h =
    let planned = plan_trade-total t now_ms share e.orders h_share h_e in
    elim (Result-cases (plan_trade t now_ms share e.orders).0) [
      | inl (plans, hp) ↦ grind (
        int_laws,
        h,
        hp,
        planned,
        apply_positive_fills-total plans.fills now_ms
            (record e { orders = (plan_trade t now_ms share e.orders).1 })
            (subst (λ (r : Result Plans). PlansNonneg (fills_of r)) hp planned.1),
      )
      | inr (x, hp) ↦ grind (int_laws, h, hp)
    ]

share-nonneg :
    (size : Fixed) (bps : ℕ) {share : Fixed}
    → pos 0 <ℤ size
    → participation_amount size bps ≡ ok share
    → pos 0 ≤ℤ share
unfolding participation_amount
share-nonneg size bps h_size h =
    (checked_mul_lem size (bps_factor bps) (omega (arith, h_size)) (omega arith) h).0

-- The sizes of the fills that process_trade reports for a positive size add up to no more than
-- the engine's share of that size (participation_amount), when no order of the engine has a
-- negative size left.
pub process_trade-participation :
    (asset : AssetId) (trade_price size : Fixed) (aggressor : Option Side) (exchange_ms now_ms : ℕ)
    (e : PaperEngine) {share : Fixed}
    → RemainingNonneg e.orders
    → pos 0 <ℤ size
    → participation_amount size e.fill_participation_bps ≡ ok share
    → filled_total
        (reported (process_trade asset trade_price (some size) aggressor exchange_ms now_ms e).0)
      ≤ℤ share
unfolding process_trade
process_trade-participation asset trade_price size none exchange_ms now_ms e h_e h_size h =
    ground (arith, share-nonneg size e.fill_participation_bps h_size h)
process_trade-participation asset trade_price size (some side) exchange_ms now_ms e h_e h_size h =
    let h_share = share-nonneg size e.fill_participation_bps h_size h in
    let t : Trade = record {
      asset = asset;
      price = trade_price;
      resting_side = opposite side;
      exchange_ms = exchange_ms;
    } in
    ground (arith, match_trade-total t size now_ms e h_e h_share h, h_share)
