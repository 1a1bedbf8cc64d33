-- ===== src/Paper/Flatten/Plan.antt =====
-- About `flatten` of paper.rs: the plan for one position.
use polymarket_watch_rust.Base.BTreeMap.{BTreeMap, lookup}
use polymarket_watch_rust.Base.Int.{
  checked, checked-eq-some, int_laws, ltb_ℤ, pos, ◌*ℤ◌, ◌-ℤ◌, ◌≤ℤ◌,
}
use polymarket_watch_rust.Base.Outcome.{Result, Result-cases, ok}
use polymarket_watch_rust.Base.Tests.{
  Bool, Bool-cases, List, Option-cases, [], arith, false, if◌then◌else◌, inl, inr, some, subst, sym,
  true, ℕ, ◌≡◌,
}
use polymarket_watch_rust.Book.{bid_order, sort_levels}
use polymarket_watch_rust.Fixed.{Fixed, checked_sub, zero_fixed}
use polymarket_watch_rust.Paper.Flatten.Atomic.{ClipsAbove, clips_of, clips_total, take_bids_lem}
use polymarket_watch_rust.Paper.FlattenPlan.{
  FlattenLimits, FlattenPlan, max_fixed, minimum_price, not_fresh, plan_position, sum_sizes,
  take_bids, verified_hash,
}
use polymarket_watch_rust.Paper.State.{PaperPosition}
use polymarket_watch_rust.Paper.Steps.{checked_sub-ok}
use polymarket_watch_rust.Types.{BookState}

minimum_price_lem :
    (f : FlattenLimits) (book : BookState) {minimum : Fixed}
    → minimum_price f book ≡ ok minimum
    → (bid : Fixed) × (book.best_bid ≡ some bid)
      × (bid -ℤ book.tick_size *ℤ pos f.max_slippage_ticks ≤ℤ minimum)
      × (pos 0 ≤ℤ minimum)
unfolding minimum_price
minimum_price_lem f book {minimum} h = elim (Option-cases book.best_bid) [
  | inl missing ↦ absurd (grind (arith, missing, h))
  | inr (bid, hb) ↦ elim (Option-cases (checked (book.tick_size *ℤ pos f.max_slippage_ticks))) [
    | inl over ↦ absurd (grind (arith, hb, over, h))
    | inr (slip, hs) ↦
        let exact = checked-eq-some (book.tick_size *ℤ pos f.max_slippage_ticks) slip hs in
        elim (Result-cases (checked_sub bid slip)) [
          | inr (x, hf) ↦ absurd (grind (arith, hb, hs, hf, h))
          | inl (low, hf) ↦
              let same = checked_sub-ok bid slip hf in
              let value : minimum ≡ max_fixed low zero_fixed = grind (arith, hb, hs, hf, h) in
              (bid, hb, grind (int_laws, exact.0, same, value), grind (int_laws, value))
        ]
  ]
]

-- A plan for a position: its book, and what it may sell into it.
pub record IsPlanned (books : BTreeMap BookState) (f : FlattenLimits) (position : PaperPosition)
    (p : FlattenPlan) : Type 0 where
  pub same_position : p.position ≡ position
  pub book : BookState
  pub found : lookup position.asset_id books ≡ some book
  pub fresh : not_fresh f book ≡ false
  pub bid : Fixed
  pub best : book.best_bid ≡ some bid
  pub minimum : Fixed
  pub slippage : bid -ℤ book.tick_size *ℤ pos f.max_slippage_ticks ≤ℤ minimum
  pub nonneg : pos 0 ≤ℤ minimum
  pub clips : ClipsAbove minimum p.clips
  pub total : clips_total p.clips ≤ℤ position.size

if-clips :
    (c : Bool) (minimum size : Fixed) (clips : List (Fixed × Fixed))
    → pos 0 ≤ℤ size
    → ClipsAbove minimum clips × (clips_total clips ≤ℤ size)
    → ClipsAbove minimum (if c then [] else clips) × (clips_total (if c then [] else clips) ≤ℤ size)
if-clips true minimum size clips h hc = (tt, h)
if-clips false minimum size clips h hc = hc

-- A flatten plan that is made for a position that is not negative is made from its asset's
-- book, which is tradeable and fresh by the limits and has a best bid: it sells into prices at
-- or above a minimum, which is not negative and at least the best bid less the permitted
-- slippage, each for a positive quantity, and the quantities add up to no more than the
-- position.
pub plan_position_lem :
    (participation_bps : ℕ) (books : BTreeMap BookState) (f : FlattenLimits)
    (position : PaperPosition) {p : FlattenPlan}
    → pos 0 ≤ℤ position.size
    → plan_position participation_bps books f position ≡ ok p
    → IsPlanned books f position p
unfolding plan_position
plan_position_lem participation_bps books f position {p} h_size h =
    elim (Option-cases (lookup position.asset_id books)) [
      | inl missing ↦ absurd (grind (arith, missing, h))
      | inr (book, hb) ↦ elim (Result-cases (verified_hash book)) [
        | inr (x, hh) ↦ absurd (grind (arith, hb, hh, h))
        | inl (hash, hh) ↦ elim (Bool-cases (not_fresh f book)) [
          | inl stale ↦ absurd (grind (arith, hb, hh, stale, h))
          | inr fresh ↦ elim (Result-cases (minimum_price f book)) [
            | inr (x, hm) ↦ absurd (grind (arith, hb, hh, fresh, hm, h))
            | inl (minimum, hm) ↦
                let levels = sort_levels bid_order book.bids in
                elim (Result-cases (take_bids participation_bps minimum position.size levels)) [
                  | inr (x, ht) ↦ absurd (grind (arith, hb, hh, fresh, hm, ht, h))
                  | inl (clips, ht) ↦ elim (Result-cases (sum_sizes zero_fixed clips)) [
                    | inr (x, hs) ↦ absurd (grind (arith, hb, hh, fresh, hm, ht, hs, h))
                    | inl (size, hs) ↦
                        let (bid, best, slippage, nonneg) = minimum_price_lem f book hm in
                        let taken =
                          take_bids_lem participation_bps minimum position.size levels h_size in
                        let kept =
                          if-clips (ltb_ℤ size book.min_order_size) minimum position.size clips
                            h_size
                            (subst
                              (λ (r : Result (List (Fixed × Fixed))).
                                ClipsAbove minimum (clips_of r)
                                × (clips_total (clips_of r) ≤ℤ position.size))
                              ht taken) in
                        let same : p.clips
                            ≡ (if ltb_ℤ size book.min_order_size then [] else clips) =
                          grind (arith, hb, hh, fresh, hm, ht, hs, h) in
                        record {
                          same_position = grind (arith, hb, hh, fresh, hm, ht, hs, h);
                          book = book;
                          found = hb;
                          fresh = fresh;
                          bid = bid;
                          best = best;
                          minimum = minimum;
                          slippage = slippage;
                          nonneg = nonneg;
                          clips = subst (ClipsAbove minimum) (sym same) kept.0;
                          total =
                              subst (λ (c : List (Fixed × Fixed)). clips_total c ≤ℤ position.size)
                                (sym same) kept.1;
                        }
                  ]
                ]
          ]
        ]
      ]
    ]
