-- ===== src/Paper/Invariant/Reachable.antt =====
-- About paper.rs: the engines that its methods reach.
use polymarket_watch_rust.Base.BTreeMap.{BTreeMap}
use polymarket_watch_rust.Base.Int.{pos, ◌<ℤ◌}
use polymarket_watch_rust.Base.Outcome.{Result, ok}
use polymarket_watch_rust.Base.Tests.{List, Option, String, ap, subst, ℕ, ⊤, ◌≡◌}
use polymarket_watch_rust.Fixed.{Fixed}
use polymarket_watch_rust.Paper.Flatten.{flatten}
use polymarket_watch_rust.Paper.FlattenPlan.{FlattenLimits}
use polymarket_watch_rust.Paper.Invariant.{IsSoundEngine}
use polymarket_watch_rust.Paper.Invariant.Books.{process_book_with_cancellations-IsSoundEngine}
use polymarket_watch_rust.Paper.Invariant.Fills.{process_trade-IsSoundEngine}
use polymarket_watch_rust.Paper.Invariant.Flattening.{flatten-IsSoundEngine}
use polymarket_watch_rust.Paper.Invariant.Operations.{
  cancel-IsSoundEngine, cancel_each-IsSoundEngine, new-IsSoundEngine, submit-IsSoundEngine,
}
use polymarket_watch_rust.Paper.Matching.{process_book_with_cancellations, process_trade}
use polymarket_watch_rust.Paper.Orders.{
  cancel, cancel_all, cancel_asset, cancel_expired, expired_open, ids_where, open_of, submit,
}
use polymarket_watch_rust.Paper.State.{ExecutionResult, PaperEngine, PaperFill, order_open}
use polymarket_watch_rust.Paper.Validate.{new}
use polymarket_watch_rust.Types.{AssetId, BookState, OrderIntent, Side}

-- A call of a method. The methods that fill orders count when they succeed; the others count
-- whatever they return. Orders are submitted with a positive size.
pub data Step (new_uuid : ℕ → String) (e e' : PaperEngine) : Type 0 where
  submits :
      (i : OrderIntent) (id : String) (now_ms : ℕ) (r : Result ExecutionResult)
      → pos 0 <ℤ i.size
      → submit i id now_ms e ≡ (r, e')
      → Step new_uuid e e'
  sees_book :
      (book : BookState) (now_ms : ℕ) (result : List PaperFill × List String)
      → process_book_with_cancellations book now_ms e ≡ (ok result, e')
      → Step new_uuid e e'
  sees_trade :
      (asset : AssetId) (price : Fixed) (size : Option Fixed) (aggressor : Option Side)
      (exchange_ms now_ms : ℕ) (fills : List PaperFill)
      → process_trade asset price size aggressor exchange_ms now_ms e ≡ (ok fills, e')
      → Step new_uuid e e'
  cancels :
      (id : String) (now_ms : ℕ) (reason : String) (r : Result ⊤)
      → cancel id now_ms reason e ≡ (r, e')
      → Step new_uuid e e'
  cancels_all :
      (now_ms : ℕ) (reason : String) (count : ℕ)
      → cancel_all now_ms reason e ≡ (count, e')
      → Step new_uuid e e'
  cancels_expired :
      (now_ms : ℕ) (ids : List String) → cancel_expired now_ms e ≡ (ids, e') → Step new_uuid e e'
  cancels_asset :
      (asset : AssetId) (now_ms : ℕ) (reason : String) (ids : List String)
      → cancel_asset asset now_ms reason e ≡ (ids, e')
      → Step new_uuid e e'
  flattens :
      (drawn : ℕ) (books : BTreeMap BookState) (f : FlattenLimits) (r : Result (List PaperFill))
      → flatten new_uuid drawn books f e ≡ (r, e')
      → Step new_uuid e e'

pub data Reachable (new_uuid : ℕ → String) : PaperEngine → Type 0 where
  starts :
      {e : PaperEngine} (starting_cash : Fixed) (fee_bps participation_bps : ℕ)
      → new starting_cash fee_bps participation_bps ≡ ok e
      → Reachable new_uuid e
  continues :
      {e e' : PaperEngine} → Reachable new_uuid e → Step new_uuid e e' → Reachable new_uuid e'

after :
    {R : Type 0} {p : R × PaperEngine} {r : R} {e' : PaperEngine}
    → p ≡ (r, e')
    → IsSoundEngine p.1
    → IsSoundEngine e'
after eq s = subst (λ q. IsSoundEngine q.1) eq s

pub Step-IsSoundEngine :
    {new_uuid : ℕ → String} {e e' : PaperEngine}
    → IsSoundEngine e
    → Step new_uuid e e'
    → IsSoundEngine e'
unfolding cancel_all cancel_expired cancel_asset
Step-IsSoundEngine {e = e} s (submits i id now_ms r h eq) =
    after eq (submit-IsSoundEngine i id now_ms e h s)
Step-IsSoundEngine {e = e} s (sees_book book now_ms result eq) =
    after eq (process_book_with_cancellations-IsSoundEngine book now_ms e s (ap (λ p. p.0) eq))
Step-IsSoundEngine {e = e} s (sees_trade asset price size aggressor exchange_ms now_ms fills eq) =
    after eq (
      process_trade-IsSoundEngine asset price size aggressor exchange_ms now_ms e s
        (ap (λ p. p.0) eq))
Step-IsSoundEngine {e = e} s (cancels id now_ms reason r eq) =
    after eq (cancel-IsSoundEngine id now_ms reason e s)
Step-IsSoundEngine {e = e} s (cancels_all now_ms reason count eq) =
    after eq (cancel_each-IsSoundEngine (ids_where order_open e.orders) now_ms reason e s)
Step-IsSoundEngine {e = e} s (cancels_expired now_ms ids eq) = after eq (
    cancel_each-IsSoundEngine (ids_where (expired_open now_ms) e.orders) now_ms
      "paper_order_ttl_expired" e s)
Step-IsSoundEngine {e = e} s (cancels_asset asset now_ms reason ids eq) =
    after eq (cancel_each-IsSoundEngine (ids_where (open_of asset) e.orders) now_ms reason e s)
Step-IsSoundEngine {new_uuid} {e} s (flattens drawn books f r eq) =
    after eq (flatten-IsSoundEngine new_uuid drawn books f e s)

-- In every engine that is reached from a new one by submissions of positive sizes,
-- cancellations, flattening, and books and trades that are processed without an error, cash,
-- fees and holdings are not negative, and every order has filled and left exactly its size,
-- neither of them negative, with something left as long as it is open.
pub Reachable-IsSoundEngine :
    {new_uuid : ℕ → String} {e : PaperEngine} → Reachable new_uuid e → IsSoundEngine e
Reachable-IsSoundEngine (starts starting_cash fee_bps participation_bps h) =
    new-IsSoundEngine starting_cash fee_bps participation_bps h
Reachable-IsSoundEngine (continues r step) = Step-IsSoundEngine (Reachable-IsSoundEngine r) step
