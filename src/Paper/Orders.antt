-- ===== src/Paper/Orders.antt =====
-- The orders of paper.rs: `submit`, the cancellations, pruning and the queries.
pub mod Submitting
pub mod Cancelling
pub mod Pruning
use Prim.Native.String.{◌++◌ as append}
use polymarket_watch_rust.Base.BTreeMap.{BTreeMap, contains_key, lookup}
use polymarket_watch_rust.Base.Int.{ltb_ℤ}
use polymarket_watch_rust.Base.Lists.{any, filter, length}
use polymarket_watch_rust.Base.Outcome.{execution, ok, ok_or}
use polymarket_watch_rust.Base.Tests.{
  Bool, List, Option, String, [], if◌then◌else◌, leb, none, some, str_eq, ℕ, ⊤, ◌&&◌, ◌-◌, ◌∷◌,
}
use polymarket_watch_rust.Fixed.{zero_fixed}
use polymarket_watch_rust.Paper.Amounts.{buy_reserve}
use polymarket_watch_rust.Paper.Fills.{put_order}
use polymarket_watch_rust.Paper.State.{
  Action, ExecutionResult, PaperEngine, PaperOrder, gets, modify, order_open, pure, raise_if,
  values, ◌>>=◌, ◌>>◌,
}
use polymarket_watch_rust.Paper.Validate.{has_funds}
use polymarket_watch_rust.Types.{AssetId, OrderIntent, OrderStatus}

abbrev pub paper_id : String → String
paper_id id = append "paper-" id

-- An acknowledged order of which nothing is filled.
abbrev pub resting_order : OrderIntent → String → ℕ → Option String → PaperOrder
resting_order i id now_ms book_version = record {
  state = record {
    client_order_id = id;
    exchange_order_id = some (paper_id id);
    intent = i;
    status = OrderStatus.acknowledged;
    submitted_at_ms = some now_ms;
    acknowledged_at_ms = some now_ms;
    matched_at_ms = none;
    settled_at_ms = none;
    cancel_requested_at_ms = none;
    terminal_reason = none;
  };
  filled_size = zero_fixed;
  remaining_size = i.size;
  fees_paid_usdc = zero_fixed;
  last_book_version = book_version;
  last_trade_timestamp_ms = none;
}

unfoldable pub submit : OrderIntent → String → ℕ → Action ExecutionResult
submit i id now_ms = do
  known ← gets (λ e. ok (contains_key id e.orders))
  raise_if known (execution "duplicate_paper_client_order_id")
  raise_if (leb i.local_expires_at_ms now_ms) (execution "expired_paper_intent")
  reserve ← gets (λ e. buy_reserve e.fee_bps i.limit_price i.size)
  gets (has_funds i reserve)
  modify (put_order id (resting_order i id now_ms none))
  pure (record {
    client_order_id = id;
    exchange_order_id = some (paper_id id);
    status = OrderStatus.acknowledged;
    message = "paper_order_resting";
  })

abbrev pub cancelled : ℕ → String → PaperOrder → PaperOrder
cancelled now_ms reason order = record order {
  state = record order.state {
    status = OrderStatus.cancelled;
    cancel_requested_at_ms = some now_ms;
    settled_at_ms = some now_ms;
    terminal_reason = some reason;
  };
}

unfoldable pub cancel : String → ℕ → String → Action ⊤
cancel id now_ms reason = do
  order ← gets (λ e. ok_or (lookup id e.orders) (execution "paper_order_not_found"))
  modify (λ e. if order_open order then put_order id (cancelled now_ms reason order) e else e)

-- The keys of the orders that a filter keeps.
abbrev pub ids_where : (PaperOrder → Bool) → BTreeMap PaperOrder → List String
ids_where p [] = []
ids_where p ((id, order) ∷ rest) = let ids = ids_where p rest in if p order then id ∷ ids else ids

-- `for id in &ids { let _ = self.cancel(..) }`: an error is dropped.
unfoldable pub cancel_each : List String → ℕ → String → PaperEngine → PaperEngine
cancel_each [] now_ms reason e = e
cancel_each (id ∷ ids) now_ms reason e = cancel_each ids now_ms reason (cancel id now_ms reason e).1

unfoldable pub cancel_all : ℕ → String → PaperEngine → ℕ × PaperEngine
cancel_all now_ms reason e =
    let ids = ids_where order_open e.orders in (length ids, cancel_each ids now_ms reason e)

abbrev pub expired_open : ℕ → PaperOrder → Bool
expired_open now_ms order = order_open order && leb order.state.intent.local_expires_at_ms now_ms

unfoldable pub cancel_expired : ℕ → PaperEngine → List String × PaperEngine
cancel_expired now_ms e =
    let ids = ids_where (expired_open now_ms) e.orders in
    (ids, cancel_each ids now_ms "paper_order_ttl_expired" e)

abbrev pub open_of : AssetId → PaperOrder → Bool
open_of asset order = order_open order && str_eq order.state.intent.asset_id asset

unfoldable pub cancel_asset : AssetId → ℕ → String → PaperEngine → List String × PaperEngine
cancel_asset asset now_ms reason e =
    let ids = ids_where (open_of asset) e.orders in (ids, cancel_each ids now_ms reason e)

unfoldable pub prune_terminal_orders : PaperEngine → ℕ × PaperEngine
prune_terminal_orders e =
    let kept = filter (λ (x : String × PaperOrder). order_open x.1) e.orders in
    (length e.orders - length kept, record e { orders = kept })

pub has_open_order : AssetId → String → PaperEngine → Bool
has_open_order asset strategy e =
    any
      (λ o.
        order_open o
        && str_eq o.state.intent.asset_id asset
        && str_eq o.state.intent.strategy_id strategy)
      (values e.orders)

pub open_order_ids : PaperEngine → List String
open_order_ids e = ids_where order_open e.orders

pub nonzero_position_count : PaperEngine → ℕ
nonzero_position_count e = length (filter (λ p. ltb_ℤ zero_fixed p.size) (values e.positions))
