-- ===== src/Paper/State.antt =====
-- The data of paper.rs: positions, orders, fills, and the engine that holds them.
use polymarket_watch_rust.Base.BTreeMap.{BTreeMap}
use polymarket_watch_rust.Base.Outcome.{BotError, Result, err, ok}
use polymarket_watch_rust.Base.Tests.{
  Bool, List, Option, String, [], false, if◌then◌else◌, true, ℕ, ⊤, ◌∷◌,
}
use polymarket_watch_rust.Fixed.{Fixed}
use polymarket_watch_rust.Types.{AssetId, OrderState, OrderStatus, Side}

pub record PaperPosition : Type 0 where
  pub asset_id : AssetId
  pub size : Fixed
  pub average_price : Fixed
  pub realized_pnl_usdc : Fixed

pub record PaperOrder : Type 0 where
  pub state : OrderState
  pub filled_size : Fixed
  pub remaining_size : Fixed
  pub fees_paid_usdc : Fixed
  pub last_book_version : Option String
  pub last_trade_timestamp_ms : Option ℕ

pub record PaperFill : Type 0 where
  pub client_order_id : String
  pub exchange_order_id : String
  pub asset_id : AssetId
  pub side : Side
  pub price : Fixed
  pub size : Fixed
  pub notional_usdc : Fixed
  pub fee_usdc : Fixed
  pub filled_at_ms : ℕ
  pub terminal : Bool

pub record PaperPortfolioSnapshot : Type 0 where
  pub starting_cash_usdc : Fixed
  pub cash_usdc : Fixed
  pub available_cash_usdc : Fixed
  pub market_value_usdc : Fixed
  pub equity_usdc : Fixed
  pub realized_pnl_usdc : Fixed
  pub unrealized_pnl_usdc : Fixed
  pub fees_paid_usdc : Fixed
  pub positions : List PaperPosition
  pub open_orders : List PaperOrder

-- `ExecutionResult` of execution.rs
pub record ExecutionResult : Type 0 where
  pub client_order_id : String
  pub exchange_order_id : Option String
  pub status : OrderStatus
  pub message : String

pub record PaperEngine : Type 0 where
  pub starting_cash_usdc : Fixed
  pub cash_usdc : Fixed
  pub realized_pnl_usdc : Fixed
  pub fees_paid_usdc : Fixed
  pub fee_bps : ℕ
  pub fill_participation_bps : ℕ
  pub positions : BTreeMap PaperPosition
  pub orders : BTreeMap PaperOrder

abbrev pub is_open : OrderStatus → Bool
is_open OrderStatus.submitted = true
is_open OrderStatus.acknowledged = true
is_open OrderStatus.partially_filled = true
is_open _ = false

abbrev pub order_open : PaperOrder → Bool
order_open order = is_open order.state.status

-- `values()`
abbrev pub values {ℓ} : {V : Type ℓ} → BTreeMap V → List V
values [] = []
values ((k, v) ∷ m) = v ∷ values m

abbrev pub keys {ℓ} : {V : Type ℓ} → BTreeMap V → List String
keys [] = []
keys ((k, v) ∷ m) = k ∷ keys m

-- A method of `&mut self`: what it wrote before an error stays written.
abbrev pub Action : Type 0 → Type 0
Action A = PaperEngine → Result A × PaperEngine

infixl 5 ◌>>=◌ ◌>>◌
abbrev pub ◌>>=◌ : {A B : Type 0} → Action A → (A → Action B) → Action B
◌>>=◌ m f e = let (r, e') = m e in elim r [ ok a ↦ f a e' | err x ↦ (err x, e') ]

abbrev pub ◌>>◌ : {A B : Type 0} → Action A → Action B → Action B
m >> k = m >>= λ _. k

abbrev pub pure : {A : Type 0} → A → Action A
pure a e = (ok a, e)

-- A fallible expression that does not touch the engine.
abbrev pub lift : {A : Type 0} → Result A → Action A
lift r e = (r, e)

abbrev pub gets : {A : Type 0} → (PaperEngine → Result A) → Action A
gets f e = (f e, e)

abbrev pub modify : (PaperEngine → PaperEngine) → Action ⊤
modify f e = (ok tt, f e)

abbrev pub raise_if : Bool → BotError → Action ⊤
raise_if c x e = (if c then err x else ok tt, e)
