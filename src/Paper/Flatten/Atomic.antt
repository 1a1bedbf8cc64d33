-- ===== src/Paper/Flatten/Atomic.antt =====
-- About `flatten` of paper.rs: the staged copy, and the bids that a plan takes.
use polymarket_watch_rust.Base.BTreeMap.{BTreeMap}
use polymarket_watch_rust.Base.Int.{int_laws, pos, ◌+ℤ◌, ◌<ℤ◌, ◌≤ℤ◌}
use polymarket_watch_rust.Base.Lists.{All}
use polymarket_watch_rust.Base.Outcome.{Result, Result-cases, err, ok}
use polymarket_watch_rust.Base.Tests.{List, String, [], arith, inl, inr, ℕ, ◌∷◌, ◌≡◌}
use polymarket_watch_rust.Fixed.{Fixed, checked_sub}
use polymarket_watch_rust.Paper.Amounts.{participation_amount}
use polymarket_watch_rust.Paper.Flatten.{flatten, flatten_in_place, staged_flatten}
use polymarket_watch_rust.Paper.FlattenPlan.{FlattenLimits, take_bids}
use polymarket_watch_rust.Paper.Matching.{min_fixed}
use polymarket_watch_rust.Paper.State.{PaperEngine}
use polymarket_watch_rust.Paper.Steps.{checked_sub-ok}
use polymarket_watch_rust.Types.{BookState, Level}

-- When `flatten` fails, the engine is the one it was called on; when it succeeds, its fills and
-- its engine are those of the staged copy.
pub flatten_lem :
    (new_uuid : ℕ → String) (drawn : ℕ) (books : BTreeMap BookState) (f : FlattenLimits)
    (e : PaperEngine)
    → flatten new_uuid drawn books f e ≡ elim (flatten_in_place new_uuid drawn books f e).0 [
      | ok fills ↦ (ok fills, (flatten_in_place new_uuid drawn books f e).1)
      | err x ↦ (err x, e)
    ]
unfolding flatten staged_flatten
flatten_lem new_uuid drawn books f e = grind arith

-- The bids that a plan takes are at or above its minimum price, for positive quantities that add
-- up to no more than the position.
abbrev pub clips_total : List (Fixed × Fixed) → Fixed
clips_total [] = pos 0
clips_total ((price, quantity) ∷ rest) = quantity +ℤ clips_total rest

abbrev pub ClipsAbove : Fixed → List (Fixed × Fixed) → Type 0
ClipsAbove minimum clips = All (λ (c : Fixed × Fixed). (minimum ≤ℤ c.0) × (pos 0 <ℤ c.1)) clips

abbrev pub clips_of : Result (List (Fixed × Fixed)) → List (Fixed × Fixed)
clips_of (ok clips) = clips
clips_of (err _) = []

-- The bids that a flatten plan takes are at or above its minimum price, each for a positive
-- quantity, and their quantities add up to no more than the position, which is not negative.
pub take_bids_lem :
    (participation_bps : ℕ) (minimum remaining : Fixed) (levels : List Level)
    → pos 0 ≤ℤ remaining
    → ClipsAbove minimum (clips_of (take_bids participation_bps minimum remaining levels))
      × (clips_total (clips_of (take_bids participation_bps minimum remaining levels)) ≤ℤ remaining)
unfolding take_bids
take_bids_lem participation_bps minimum remaining [] h = (tt, omega (arith, h))
take_bids_lem participation_bps minimum remaining (level ∷ levels) h =
    elim (Result-cases (participation_amount level.size participation_bps)) [
      | inr (x, ha) ↦ grind (int_laws, ha, h)
      | inl (available, ha) ↦
          elim (Result-cases (checked_sub remaining (min_fixed remaining available))) [
            | inr (x, hs) ↦
                grind
                  (int_laws, ha, hs, h, take_bids_lem participation_bps minimum remaining levels h)
            | inl (left, hs) ↦ grind (
              int_laws,
              ha,
              hs,
              h,
              checked_sub-ok remaining (min_fixed remaining available) hs,
              take_bids_lem participation_bps minimum remaining levels h,
              take_bids_lem participation_bps minimum left levels
                  (grind (int_laws, checked_sub-ok remaining (min_fixed remaining available) hs)),
            )
          ]
    ]
