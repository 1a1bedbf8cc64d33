-- ===== src/Paper/Orders/Submitting.antt =====
-- About `submit` of paper.rs: when it admits an order.
use polymarket_watch_rust.Base.BTreeMap.{lookup}
use polymarket_watch_rust.Base.Int.{◌≤ℤ◌}
use polymarket_watch_rust.Base.Outcome.{ok}
use polymarket_watch_rust.Base.Tests.{String, none, some, ℕ, ◌<◌, ◌≡◌}
use polymarket_watch_rust.Fixed.{Fixed}
use polymarket_watch_rust.Paper.Amounts.{available_cash_usdc, available_position, buy_reserve}
use polymarket_watch_rust.Paper.Fills.{put_order}
use polymarket_watch_rust.Paper.Orders.{paper_id, resting_order, submit}
use polymarket_watch_rust.Paper.State.{ExecutionResult, PaperEngine}
use polymarket_watch_rust.Types.{OrderIntent, OrderStatus, Side, buy, sell}

abbrev pub receipt : String → ExecutionResult
receipt id = record {
  client_order_id = id;
  exchange_order_id = some (paper_id id);
  status = OrderStatus.acknowledged;
  message = "paper_order_resting";
}

-- A buy's reserve is within the available cash; a sale's size is within the available position.
abbrev pub IsFunded : Side → OrderIntent → Fixed → PaperEngine → Type 0
IsFunded buy i reserve e =
    (available : Fixed) × (available_cash_usdc e ≡ ok available) × (reserve ≤ℤ available)
IsFunded sell i reserve e =
    (available : Fixed) × (available_position i.asset_id e ≡ ok available) × (i.size ≤ℤ available)

pub record IsAdmitted (i : OrderIntent) (id : String) (now_ms : ℕ) (e : PaperEngine) : Type 0 where
  pub fresh : lookup id e.orders ≡ none
  pub unexpired : now_ms < i.local_expires_at_ms
  pub reserve : Fixed
  pub reserved : buy_reserve e.fee_bps i.limit_price i.size ≡ ok reserve
  pub funded : IsFunded i.side i reserve e
  pub admitted :
      submit i id now_ms e ≡ (ok (receipt id), put_order id (resting_order i id now_ms none) e)
