-- ===== src/Paper/Invariant/Fills.antt =====
-- About paper.rs: the loops that fill orders, and the engine's invariant.
use polymarket_watch_rust.Base.BTreeMap.{BTreeMap, lookup}
use polymarket_watch_rust.Base.Int.{ltb_ℤ}
use polymarket_watch_rust.Base.Outcome.{Result-cases, ok}
use polymarket_watch_rust.Base.Tests.{
  Bool-cases, List, Option, Option-cases, String, [], ap, arith, inl, inr, none, refl, some, subst,
  sym, ℕ, ◌∷◌, ◌≡◌, ◌⊎◌,
}
use polymarket_watch_rust.Fixed.{Fixed, zero_fixed}
use polymarket_watch_rust.Paper.Amounts.{participation_amount}
use polymarket_watch_rust.Paper.Fills.{apply_fill, apply_fill_at_price}
use polymarket_watch_rust.Paper.Invariant.{
  Holds, IsSoundEngine, IsSoundOrder, apply_fill_at_price-IsSoundEngine,
}
use polymarket_watch_rust.Paper.Invariant.Loops.{note_trade-IsSoundOrder, plan_trade-lookup}
use polymarket_watch_rust.Paper.Invariant.Operations.{
  cancel-IsSoundEngine, SameAccount-IsSoundEngine,
}
use polymarket_watch_rust.Paper.Matching.{
  Trade, apply_fills, apply_positive_fills, cancel_expired_each, match_trade, note_trade, opposite,
  plan_trade, process_trade,
}
use polymarket_watch_rust.Paper.Orders.{cancel}
use polymarket_watch_rust.Paper.Orders.Cancelling.{map_option}
use polymarket_watch_rust.Paper.State.{PaperEngine, PaperFill, PaperOrder}
use polymarket_watch_rust.Types.{AssetId, Side}

map_option-Holds :
    (f : PaperOrder → PaperOrder) (o : Option PaperOrder)
    → ((a : PaperOrder) → IsSoundOrder a → IsSoundOrder (f a))
    → Holds IsSoundOrder o
    → Holds IsSoundOrder (map_option f o)
map_option-Holds f none h s = tt
map_option-Holds f (some a) h s = h a s

-- A loop that leaves each order as it was or notes something that the invariant does not read.
pub noted-IsSoundEngine :
    (noting : PaperOrder → PaperOrder) (m : BTreeMap PaperOrder) (e : PaperEngine)
    → ((a : PaperOrder) → IsSoundOrder a → IsSoundOrder (noting a))
    → ((k : String)
        → (lookup k m ≡ lookup k e.orders) ⊎ (lookup k m ≡ map_option noting (lookup k e.orders)))
    → IsSoundEngine e
    → IsSoundEngine (record e { orders = m })
noted-IsSoundEngine noting m e h_note h s = SameAccount-IsSoundEngine s refl (λ k. elim (h k) [
  | inl same ↦ subst (Holds IsSoundOrder) (sym same) (s.orders k)
  | inr noted ↦
      subst (Holds IsSoundOrder) (sym noted)
        (map_option-Holds noting (lookup k e.orders) h_note (s.orders k))
])

pub pair-eq : {A B : Type 0} (p : A × B) {a : A} → p.0 ≡ a → p ≡ (a, p.1)
pair-eq (x, y) h = ap (λ z. (z, y)) h

pub apply_fill-IsSoundEngine :
    (id : String) (quantity : Fixed) (now_ms : ℕ) (e : PaperEngine) {fill : PaperFill}
    → IsSoundEngine e
    → (apply_fill id quantity now_ms e).0 ≡ ok fill
    → IsSoundEngine (apply_fill id quantity now_ms e).1
unfolding apply_fill
apply_fill-IsSoundEngine id quantity now_ms e {fill} s h =
    elim (Option-cases (lookup id e.orders)) [
      | inl missing ↦ absurd (grind (arith, missing, h))
      | inr (o, found) ↦
          let price = o.state.intent.limit_price in
          grind (
            arith,
            found,
            h,
            λ (hp : (apply_fill_at_price id quantity price now_ms e).0 ≡ ok fill).
                apply_fill_at_price-IsSoundEngine id quantity price now_ms e s
                  (pair-eq (apply_fill_at_price id quantity price now_ms e) hp),
          )
    ]

pub apply_fills-IsSoundEngine :
    (plans : List (String × Fixed)) (now_ms : ℕ) (e : PaperEngine) {fills : List PaperFill}
    → IsSoundEngine e
    → (apply_fills plans now_ms e).0 ≡ ok fills
    → IsSoundEngine (apply_fills plans now_ms e).1
unfolding apply_fills
apply_fills-IsSoundEngine [] now_ms e s h = s
apply_fills-IsSoundEngine ((id, quantity) ∷ rest) now_ms e s h =
    elim (Result-cases (apply_fill id quantity now_ms e).0) [
      | inr (x, hf) ↦ absurd (grind (arith, hf, h))
      | inl (fill, hf) ↦
          let e1 = (apply_fill id quantity now_ms e).1 in
          let s1 = apply_fill-IsSoundEngine id quantity now_ms e s hf in
          elim (Result-cases (apply_fills rest now_ms e1).0) [
            | inr (x, hr) ↦ absurd (grind (arith, hf, hr, h))
            | inl (more, hr) ↦ grind (arith, hf, hr, apply_fills-IsSoundEngine rest now_ms e1 s1 hr)
          ]
    ]

pub apply_positive_fills-IsSoundEngine :
    (plans : List (String × Fixed)) (now_ms : ℕ) (e : PaperEngine) {fills : List PaperFill}
    → IsSoundEngine e
    → (apply_positive_fills plans now_ms e).0 ≡ ok fills
    → IsSoundEngine (apply_positive_fills plans now_ms e).1
unfolding apply_positive_fills
apply_positive_fills-IsSoundEngine [] now_ms e s h = s
apply_positive_fills-IsSoundEngine ((id, quantity) ∷ rest) now_ms e {fills} s h =
    elim (Bool-cases (ltb_ℤ zero_fixed quantity)) [
      | inr nothing ↦ grind (
        arith,
        nothing,
        apply_positive_fills-IsSoundEngine rest now_ms e {fills = fills} s
            (grind (arith, nothing, h)),
      )
      | inl positive ↦ elim (Result-cases (apply_fill id quantity now_ms e).0) [
        | inr (x, hf) ↦ absurd (grind (arith, positive, hf, h))
        | inl (fill, hf) ↦
            let e1 = (apply_fill id quantity now_ms e).1 in
            let s1 = apply_fill-IsSoundEngine id quantity now_ms e s hf in
            elim (Result-cases (apply_positive_fills rest now_ms e1).0) [
              | inr (x, hr) ↦ absurd (grind (arith, positive, hf, hr, h))
              | inl (more, hr) ↦
                  grind (
                    arith,
                    positive,
                    hf,
                    hr,
                    apply_positive_fills-IsSoundEngine rest now_ms e1 s1 hr,
                  )
            ]
      ]
    ]

pub cancel_expired_each-IsSoundEngine :
    (ids : List String) (now_ms : ℕ) (e : PaperEngine)
    → IsSoundEngine e
    → IsSoundEngine (cancel_expired_each ids now_ms e).1
unfolding cancel_expired_each
cancel_expired_each-IsSoundEngine [] now_ms e s = s
cancel_expired_each-IsSoundEngine (id ∷ ids) now_ms e s =
    let e1 = (cancel id now_ms "paper_order_ttl_expired" e).1 in
    let s1 = cancel-IsSoundEngine id now_ms "paper_order_ttl_expired" e s in
    elim (Result-cases (cancel id now_ms "paper_order_ttl_expired" e).0) [
      | inr (x, hc) ↦ grind (arith, hc, s1)
      | inl (u, hc) ↦ grind (arith, hc, cancel_expired_each-IsSoundEngine ids now_ms e1 s1)
    ]

pub match_trade-IsSoundEngine :
    (t : Trade) (size : Fixed) (now_ms : ℕ) (e : PaperEngine) {fills : List PaperFill}
    → IsSoundEngine e
    → (match_trade t size now_ms e).0 ≡ ok fills
    → IsSoundEngine (match_trade t size now_ms e).1
unfolding match_trade
match_trade-IsSoundEngine t size now_ms e {fills} s h =
    elim (Result-cases (participation_amount size e.fill_participation_bps)) [
      | inr (x, hp) ↦ absurd (grind (arith, hp, h))
      | inl (share, hp) ↦
          let m = (plan_trade t now_ms share e.orders).1 in
          let e1 : PaperEngine = record e { orders = m } in
          let s1 =
            noted-IsSoundEngine (note_trade t) m e (note_trade-IsSoundOrder t now_ms)
              (plan_trade-lookup t now_ms share e.orders) s in
          elim (Result-cases (plan_trade t now_ms share e.orders).0) [
            | inr (x, hl) ↦ absurd (grind (arith, hp, hl, h))
            | inl (plans, hl) ↦ grind (
              arith,
              hp,
              hl,
              apply_positive_fills-IsSoundEngine plans.fills now_ms e1 {fills = fills} s1
                  (grind (arith, hp, hl, h)),
            )
          ]
    ]

pub process_trade-IsSoundEngine :
    (asset : AssetId) (trade_price : Fixed) (size : Option Fixed) (aggressor : Option Side)
    (exchange_ms now_ms : ℕ) (e : PaperEngine) {fills : List PaperFill}
    → IsSoundEngine e
    → (process_trade asset trade_price size aggressor exchange_ms now_ms e).0 ≡ ok fills
    → IsSoundEngine (process_trade asset trade_price size aggressor exchange_ms now_ms e).1
unfolding process_trade
process_trade-IsSoundEngine asset trade_price none aggressor exchange_ms now_ms e s h =
    ground (arith, s)
process_trade-IsSoundEngine asset trade_price (some size) none exchange_ms now_ms e s h =
    ground (arith, s)
process_trade-IsSoundEngine asset trade_price (some size) (some side) exchange_ms now_ms e {fills} s
      h =
    let t : Trade = record {
      asset = asset;
      price = trade_price;
      resting_side = opposite side;
      exchange_ms = exchange_ms;
    } in
    grind (
      arith,
      s,
      λ (hm : (match_trade t size now_ms e).0 ≡ ok fills).
          match_trade-IsSoundEngine t size now_ms e {fills = fills} s hm,
    )
