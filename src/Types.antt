-- ===== src/Types.antt =====
-- types.rs: the identifiers, enums and records that the components exchange. Identifiers are the
-- strings inside the newtypes; a `u64` is a number, with its range written where code tests it.
use polymarket_watch_rust.Base.Int.{u64_max}
use polymarket_watch_rust.Base.Outcome.{to_option}
use polymarket_watch_rust.Base.Tests.{
  Bool, List, Option, String, [], false, if◌then◌else◌, leb, none, some, true, ℕ, ◌+◌, ◌-◌, ◌∷◌,
}
use polymarket_watch_rust.Fixed.{Fixed, checked_sub, zero_fixed}

abbrev pub AssetId : Type 0
AssetId = String

abbrev pub ConditionId : Type 0
ConditionId = String

pub data BotMode : Type 0 where
  paper live : BotMode

pub data ClobProtocol : Type 0 where
  v1 v2 : ClobProtocol

pub data WalletMode : Type 0 where
  deposit_wallet gnosis_safe proxy eoa : WalletMode

pub data SignatureType : Type 0 where
  poly1271 gnosis_safe proxy eoa : SignatureType

pub data Side : Type 0 where
  buy sell : Side

abbrev pub side_eq : Side → Side → Bool
side_eq buy buy = true
side_eq sell sell = true
side_eq _ _ = false

pub data TimeInForce : Type 0 where
  gtc gtd fok fak : TimeInForce

pub record Level : Type 0 where
  pub price : Fixed
  pub size : Fixed

pub record MarketMeta : Type 0 where
  pub condition_id : ConditionId
  pub asset_id_yes : AssetId
  pub asset_id_no : AssetId
  pub tick_size : Fixed
  pub min_order_size : Fixed
  pub neg_risk : Bool
  pub active : Bool
  pub accepting_orders : Bool
  pub resolved : Bool
  pub paused : Bool
  pub taker_delay_enabled : Bool
  pub fees_enabled : Bool

pub record BookState : Type 0 where
  pub asset_id : AssetId
  pub bids : List Level
  pub asks : List Level
  pub best_bid : Option Fixed
  pub best_ask : Option Fixed
  pub last_trade_price : Option Fixed
  pub last_trade_timestamp_ms : Option ℕ
  pub tick_size : Fixed
  pub min_order_size : Fixed
  pub book_hash : Option String
  pub exchange_timestamp_ms : ℕ
  pub local_received_at_ms : ℕ
  pub tradeable : Bool

-- `BookState::empty`
abbrev pub empty : AssetId → Fixed → Fixed → BookState
empty asset tick minimum = record {
  asset_id = asset;
  bids = [];
  asks = [];
  best_bid = none;
  best_ask = none;
  last_trade_price = none;
  last_trade_timestamp_ms = none;
  tick_size = tick;
  min_order_size = minimum;
  book_hash = none;
  exchange_timestamp_ms = 0;
  local_received_at_ms = 0;
  tradeable = false;
}

-- `u64::checked_sub` and `u64::checked_add`
abbrev pub checked_sub_u64 : ℕ → ℕ → Option ℕ
checked_sub_u64 a b = if leb b a then some (a - b) else none

abbrev pub checked_add_u64 : ℕ → ℕ → Option ℕ
checked_add_u64 a b = if leb (a + b) u64_max then some (a + b) else none

abbrev pub age_ms : BookState → ℕ → Option ℕ
age_ms book now_ms = checked_sub_u64 now_ms book.local_received_at_ms

abbrev pub event_lag_ms : BookState → Option ℕ
event_lag_ms book = checked_sub_u64 book.local_received_at_ms book.exchange_timestamp_ms

abbrev pub first_size : List Level → Fixed
first_size [] = zero_fixed
first_size (level ∷ _) = level.size

abbrev pub top_ask_size : BookState → Fixed
top_ask_size book = first_size book.asks

abbrev pub top_bid_size : BookState → Fixed
top_bid_size book = first_size book.bids

-- `BookState::spread`: an overflow counts as no spread.
pub spread : BookState → Option Fixed
spread book = elim book.best_ask [
  | none ↦ none
  | some ask ↦ elim book.best_bid [ none ↦ none | some bid ↦ to_option (checked_sub ask bid) ]
]

pub record OrderIntent : Type 0 where
  pub asset_id : AssetId
  pub side : Side
  pub limit_price : Fixed
  pub size : Fixed
  pub time_in_force : TimeInForce
  pub post_only : Bool
  pub local_expires_at_ms : ℕ
  pub wire_expiration_s : Option ℕ
  pub reason : String
  pub strategy_id : String
  pub feature_snapshot_id : String

pub data OrderStatus : Type 0 where
  intent write_ahead submitted acknowledged partially_filled filled cancel_requested cancelled
        rejected unknown :
      OrderStatus

pub record OwnRestingOrder : Type 0 where
  pub asset_id : AssetId
  pub side : Side
  pub price : Fixed
  pub size : Fixed

pub record OrderState : Type 0 where
  pub client_order_id : String
  pub exchange_order_id : Option String
  pub intent : OrderIntent
  pub status : OrderStatus
  pub submitted_at_ms : Option ℕ
  pub acknowledged_at_ms : Option ℕ
  pub matched_at_ms : Option ℕ
  pub settled_at_ms : Option ℕ
  pub cancel_requested_at_ms : Option ℕ
  pub terminal_reason : Option String
