-- ===== src/Paper/Flatten.antt =====
-- `flatten` of paper.rs: sell every position into the bids of a fresh book, on a copy of the engine
-- that replaces it only when all of it worked. `new_uuid n` is the n-th identifier that the uuid
-- crate draws.
pub mod Atomic
pub mod Plan
use Prim.Native.String.{◌++◌ as append}
use polymarket_watch_rust.Base.BTreeMap.{BTreeMap}
use polymarket_watch_rust.Base.Display.{show_ℕ}
use polymarket_watch_rust.Base.Int.{ltb_ℤ, u64_max}
use polymarket_watch_rust.Base.Lists.{filter}
use polymarket_watch_rust.Base.Outcome.{Result, err, execution, ok, ok_or}
use polymarket_watch_rust.Base.Tests.{
  Bool, List, Option, String, [], false, if◌then◌else◌, leb, none, some, suc, true, ℕ, ◌++◌, ◌+◌,
  ◌∷◌,
}
use polymarket_watch_rust.Fixed.{Fixed, zero_fixed}
use polymarket_watch_rust.Paper.Fills.{apply_fill_at_price, put_order}
use polymarket_watch_rust.Paper.FlattenPlan.{FlattenLimits, FlattenPlan, plan_positions, sum_sizes}
use polymarket_watch_rust.Paper.Matching.{min_fixed}
use polymarket_watch_rust.Paper.Orders.{cancel_all, resting_order}
use polymarket_watch_rust.Paper.State.{
  Action, PaperEngine, PaperFill, gets, lift, modify, pure, values, ◌>>=◌, ◌>>◌,
}
use polymarket_watch_rust.Types.{BookState, OrderIntent, TimeInForce, sell}

-- `clips.iter().map(price).min()`
abbrev pub lowest_price : List (Fixed × Fixed) → Option Fixed
lowest_price [] = none
lowest_price ((price, _) ∷ rest) = elim (lowest_price rest) [
  | none ↦ some price
  | some p ↦ some (min_fixed price p)
]

abbrev pub saturating_add : ℕ → ℕ → ℕ
saturating_add a b = if leb (a + b) u64_max then a + b else u64_max

abbrev pub flatten_intent : FlattenLimits → FlattenPlan → Fixed → Fixed → OrderIntent
flatten_intent f p limit_price size = record {
  asset_id = p.position.asset_id;
  side = sell;
  limit_price = limit_price;
  size = size;
  time_in_force = TimeInForce.fak;
  post_only = false;
  local_expires_at_ms = saturating_add f.now_ms 1;
  wire_expiration_s = none;
  reason = "paper_flatten";
  strategy_id = "operator";
  feature_snapshot_id = p.book_hash;
}

unfoldable pub fill_clips : String → List (Fixed × Fixed) → ℕ → Action (List PaperFill)
fill_clips id [] now_ms = pure []
fill_clips id ((price, quantity) ∷ rest) now_ms = do
  fill ← apply_fill_at_price id quantity price now_ms
  fills ← fill_clips id rest now_ms
  pure (fill ∷ fills)

abbrev pub flatten_id : FlattenLimits → FlattenPlan → String → String
flatten_id f p uuid =
    append "paper-flatten-"
      (append p.position.asset_id (append "-" (append (show_ℕ f.now_ms) (append "-" uuid))))

unfoldable pub execute_plan : String → FlattenLimits → FlattenPlan → Action (List PaperFill)
execute_plan uuid f p = do
  size ← lift (sum_sizes zero_fixed p.clips)
  limit_price ← lift (ok_or (lowest_price p.clips) (execution "paper_flatten_empty_plan"))
  let id = flatten_id f p uuid
  modify (
      put_order id
        (resting_order (flatten_intent f p limit_price size) id f.now_ms (some p.book_hash)))
  fill_clips id p.clips f.now_ms

abbrev pub no_clips : List (Fixed × Fixed) → Bool
no_clips [] = true
no_clips (_ ∷ _) = false

module _ (new_uuid : ℕ → String) where
  unfoldable pub execute_plans : ℕ → FlattenLimits → List FlattenPlan → Action (List PaperFill)
  execute_plans drawn f [] = pure []
  execute_plans drawn f (p ∷ rest) = elim (no_clips p.clips) [
    | true ↦ execute_plans drawn f rest
    | false ↦ do
      fills ← execute_plan (new_uuid drawn) f p
      more ← execute_plans (suc drawn) f rest
      pure (fills ++ more)
  ]

  unfoldable pub flatten_in_place : ℕ → BTreeMap BookState → FlattenLimits → Action (List PaperFill)
  flatten_in_place drawn books f = do
    plans ← gets (λ e.
        plan_positions e.fill_participation_bps books f
          (filter (λ p. ltb_ℤ zero_fixed p.size) (values e.positions)))
    modify (λ e. (cancel_all f.now_ms "paper_flatten_cancel_open" e).1)
    execute_plans drawn f plans

  unfoldable pub staged_flatten :
      ℕ → BTreeMap BookState → FlattenLimits → PaperEngine → Result (PaperEngine × List PaperFill)
  staged_flatten drawn books f e =
      let (r, staged) = flatten_in_place drawn books f e in
      elim r [ ok fills ↦ ok (staged, fills) | err x ↦ err x ]

  unfoldable pub flatten : ℕ → BTreeMap BookState → FlattenLimits → Action (List PaperFill)
  flatten drawn books f e = elim (staged_flatten drawn books f e) [
    | ok (staged, fills) ↦ (ok fills, staged)
    | err x ↦ (err x, e)
  ]
