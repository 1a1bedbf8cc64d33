-- ===== src/Paper/Invariant.antt =====
-- The invariant of paper.rs's engine, and a fill.
pub mod Operations
pub mod Flattening
pub mod Books
pub mod Reachable
pub mod Fills
pub mod Loops
use native.Mathlib.Nat.{mul-le-mul_left}
use polymarket_watch_rust.Base.BTreeMap.{lookup}
use polymarket_watch_rust.Base.Int.{*ℤ_pos, int_laws, ltb_ℤ, negsuc, pos, ◌+ℤ◌, ◌-ℤ◌, ◌<ℤ◌, ◌≤ℤ◌}
use polymarket_watch_rust.Base.Outcome.{ok}
use polymarket_watch_rust.Base.Tests.{
  Bool, Bool-cases, Option, String, arith, eq_iff, false, if◌then◌else◌, inl, inr, none, not, some,
  str_eq, subst, sym, true, ℕ, ⊤, ◌*◌, ◌==◌, ◌||◌, ◌∙◌, ◌≡◌, ◌≤◌,
}
use polymarket_watch_rust.Fixed.{Fixed, checked_mul_ceil, scale}
use polymarket_watch_rust.Fixed.Rounding.{checked_mul_ceil_lem}
use polymarket_watch_rust.Paper.Amounts.{bps_amount, bps_factor, held}
use polymarket_watch_rust.Paper.Fills.{apply_fill_at_price}
use polymarket_watch_rust.Paper.Fills.Settled.{apply_fill_at_price_lem, filled_order}
use polymarket_watch_rust.Paper.Fills.Steps.{IsCovered, Settles, bought, paid}
use polymarket_watch_rust.Paper.State.{PaperEngine, PaperFill, PaperOrder, order_open}
use polymarket_watch_rust.Types.{AssetId, Side, buy, sell}

pub record IsSoundOrder (o : PaperOrder) : Type 0 where
  pub filled : pos 0 ≤ℤ o.filled_size
  pub remaining : pos 0 ≤ℤ o.remaining_size
  pub fees : pos 0 ≤ℤ o.fees_paid_usdc
  pub conserved : o.filled_size +ℤ o.remaining_size ≡ o.state.intent.size
  pub complete : not (order_open o) || ltb_ℤ (pos 0) o.remaining_size ≡ true

abbrev pub Holds {ℓ} : {A : Type ℓ} → (A → Type 0) → Option A → Type 0
Holds P none = ⊤
Holds P (some a) = P a

pub record IsSoundEngine (e : PaperEngine) : Type 0 where
  pub bps : e.fee_bps ≤ 10000
  pub cash : pos 0 ≤ℤ e.cash_usdc
  pub fees : pos 0 ≤ℤ e.fees_paid_usdc
  pub positions : (asset : AssetId) → pos 0 ≤ℤ held asset e
  pub orders : (id : String) → Holds IsSoundOrder (lookup id e.orders)

-- A factor of at most one takes no more than all of it, rounded up.
bps_amount-bounds :
    (n : ℕ) (bps : ℕ) {fee : Fixed}
    → bps ≤ 10000
    → bps_amount (pos n) bps ≡ ok fee
    → (pos 0 ≤ℤ fee) × (fee ≤ℤ pos n)
unfolding bps_amount
bps_amount-bounds n bps {fee} h_bps h = elim (Bool-cases (bps == 0)) [
  | inl zero_bps ↦ (grind (arith, zero_bps), grind (arith, zero_bps))
  | inr some_bps ↦
      let bound =
        checked_mul_ceil_lem (pos n) (bps_factor bps) {r = fee} (grind (arith, some_bps, h)) in
      let product = *ℤ_pos n (bps * 100) in
      let less = mul-le-mul_left {m = bps * 100} {n = scale} n (omega (arith, h_bps)) in
      (grind (int_laws, bound, product), grind (int_laws, bound, product, less))
]

notional-nonneg :
    (price quantity : Fixed) {notional : Fixed}
    → pos 0 <ℤ price
    → pos 0 <ℤ quantity
    → checked_mul_ceil price quantity ≡ ok notional
    → pos 0 ≤ℤ notional
notional-nonneg (pos p) (pos q) hp hq h =
    let bound = checked_mul_ceil_lem (pos p) (pos q) h in grind (int_laws, bound, *ℤ_pos p q)
notional-nonneg (negsuc p) q hp hq h = absurd (omega (arith, hp))
notional-nonneg (pos p) (negsuc q) hp hq h = absurd (omega (arith, hq))

-- An order of a sound engine stays sound when no more is filled than remains of it.
filled_order-IsSoundEngine :
    (quantity fee : Fixed) (now_ms : ℕ) (o : PaperOrder)
    → pos 0 <ℤ quantity
    → quantity ≤ℤ o.remaining_size
    → pos 0 ≤ℤ fee
    → IsSoundOrder o
    → IsSoundOrder (filled_order quantity fee now_ms o)
filled_order-IsSoundEngine quantity fee now_ms o hq hr hf s = record {
  filled = omega (int_laws, hq, s.filled);
  remaining = omega (int_laws, hr);
  fees = omega (int_laws, hf, s.fees);
  conserved = moved o.filled_size o.remaining_size ∙ s.conserved;
  complete = grind (int_laws, s.remaining, hr);
}
  where
    moved : (a b : Fixed) → a +ℤ quantity +ℤ (b -ℤ quantity) ≡ a +ℤ b
    moved a b = omega int_laws

fee-bounds :
    (notional : Fixed) (bps : ℕ) {fee : Fixed}
    → pos 0 ≤ℤ notional
    → bps ≤ 10000
    → bps_amount notional bps ≡ ok fee
    → (pos 0 ≤ℤ fee) × (fee ≤ℤ notional)
fee-bounds (pos n) bps hn = bps_amount-bounds n bps
fee-bounds (negsuc n) bps hn = absurd (omega (arith, hn))

cash-nonneg :
    (side : Side) (asset : AssetId) (quantity notional fee : Fixed) (e : PaperEngine)
    {e' : PaperEngine}
    → IsCovered side asset quantity (notional +ℤ fee) e
    → (pos 0 ≤ℤ fee) × (fee ≤ℤ notional)
    → pos 0 ≤ℤ e.cash_usdc
    → Settles asset (paid side notional fee) (bought side quantity) fee e e'
    → pos 0 ≤ℤ e'.cash_usdc
cash-nonneg buy asset quantity notional fee e {e'} hc hf h s = grind (int_laws, s.cash, hc, hf, h)
cash-nonneg sell asset quantity notional fee e {e'} hc hf h s = grind (int_laws, s.cash, hc, hf, h)

held-nonneg :
    (side : Side) (asset : AssetId) (quantity notional fee : Fixed) (e : PaperEngine)
    {e' : PaperEngine}
    → IsCovered side asset quantity (notional +ℤ fee) e
    → pos 0 <ℤ quantity
    → ((a : AssetId) → pos 0 ≤ℤ held a e)
    → Settles asset (paid side notional fee) (bought side quantity) fee e e'
    → (a : AssetId) → pos 0 ≤ℤ held a e'
held-nonneg side asset quantity notional fee e {e'} hc hq h s a =
    elim (Bool-cases (str_eq a asset)) [
      | inl same ↦
          subst (λ (x : AssetId). pos 0 ≤ℤ held x e') (sym ((eq_iff a asset).0 same))
            (at side hc s.holding)
      | inr other ↦ grind (arith, s.others a, other, h a)
    ]
  where
    at :
        (d : Side)
        → IsCovered d asset quantity (notional +ℤ fee) e
        → held asset e' ≡ held asset e +ℤ bought d quantity
        → pos 0 ≤ℤ held asset e'
    at buy hc hh = grind (int_laws, hh, h asset, hq)
    at sell hc hh = grind (int_laws, hh, h asset, hq, hc)

pub if-Holds :
    {A : Type 0} (P : A → Type 0) (c : Bool) {a : A} (o : Option A)
    → P a
    → Holds P o
    → Holds P (if c then some a else o)
if-Holds P true o pa po = pa
if-Holds P false o pa po = po

-- A fill that succeeds keeps the engine sound: cash, fees, holdings and every order.
pub apply_fill_at_price-IsSoundEngine :
    (id : String) (quantity price : Fixed) (now_ms : ℕ) (e : PaperEngine) {fill : PaperFill}
    {e' : PaperEngine}
    → IsSoundEngine e
    → apply_fill_at_price id quantity price now_ms e ≡ (ok fill, e')
    → IsSoundEngine e'
apply_fill_at_price-IsSoundEngine id quantity price now_ms e {fill} {e'} s h =
    let (o, f) = apply_fill_at_price_lem id quantity price now_ms e h in
    let n = notional-nonneg price quantity f.price_low f.positive f.notional in
    let fee = fee-bounds fill.notional_usdc e.fee_bps n s.bps f.fee in
    record {
      bps = subst (λ (b : ℕ). b ≤ 10000) (sym f.settles.fee_bps) s.bps;
      cash =
          cash-nonneg o.state.intent.side o.state.intent.asset_id quantity fill.notional_usdc
            fill.fee_usdc e f.covered fee s.cash f.settles;
      fees = grind (int_laws, f.settles.fees, s.fees, fee);
      positions = λ asset.
          held-nonneg o.state.intent.side o.state.intent.asset_id quantity fill.notional_usdc
            fill.fee_usdc e f.covered f.positive s.positions f.settles asset;
      orders = λ other. subst (Holds IsSoundOrder) (sym (f.orders other)) (
          if-Holds IsSoundOrder (str_eq other id) (lookup other e.orders)
            (filled_order-IsSoundEngine quantity fill.fee_usdc now_ms o f.positive f.available fee.0
              (subst (Holds IsSoundOrder) f.found (s.orders id)))
            (s.orders other));
    }
