-- ===== src/Config.antt =====
-- config.rs: the settings and their defaults. `WalletScore` stands in wallet_watch.rs.
use polymarket_watch_rust.Base.Int.{pos}
use polymarket_watch_rust.Base.Tests.{Bool, List, String, [], false, str_eq, ℕ, ◌&&◌}
use polymarket_watch_rust.Fixed.{Fixed}
use polymarket_watch_rust.Types.{
  AssetId, BotMode, ClobProtocol, ConditionId, SignatureType, WalletMode,
}

pub record WalletScore : Type 0 where
  pub address : String
  pub score : Fixed
  pub max_copy_slippage : Fixed
  pub max_copy_size : Fixed
  pub attribution_confidence : Fixed
  pub confidential_info_flag : Bool

pub record Settings : Type 0 where
  pub mode : BotMode
  pub venue : String
  pub clob_protocol : ClobProtocol
  pub clob_host : String
  pub chain_id : ℕ
  pub collateral_asset : String
  pub wallet_mode : WalletMode
  pub signature_type : SignatureType
  pub funder_address : String
  pub geoblock_url : String
  pub max_geoblock_age_ms : ℕ
  pub max_book_age_ms : ℕ
  pub max_event_lag_ms : ℕ
  pub max_order_usdc : Fixed
  pub max_market_exposure_usdc : Fixed
  pub max_daily_loss_usdc : Fixed
  pub max_slippage_ticks : ℕ
  pub max_market_impact_bps : ℕ
  pub min_top_book_size : Fixed
  pub order_ttl_ms : ℕ
  pub max_new_orders_per_second : ℕ
  pub max_cancels_per_second : ℕ
  pub max_position_notional_usdc : Fixed
  pub neg_risk_enabled : Bool
  pub asset_ids : List AssetId
  pub condition_ids : List ConditionId
  pub watched_wallets : List String
  pub controlled_wallets : List String
  pub wallet_scores : List WalletScore
  pub external_symbols : List String
  pub market_ws_endpoint : String
  pub user_ws_endpoint : String
  pub data_api_host : String
  pub coinbase_ws_endpoint : String
  pub journal_path : String
  pub live_risk_baseline_path : String
  pub compliance_latch_path : String
  pub max_clock_drift_ms : ℕ
  pub heartbeat_interval_ms : ℕ
  pub snapshot_interval_ms : ℕ
  pub reconnect_min_ms : ℕ
  pub reconnect_max_ms : ℕ
  pub wallet_poll_interval_ms : ℕ
  pub wallet_signal_max_age_ms : ℕ
  pub external_stale_ms : ℕ
  pub strategy_size : Fixed
  pub min_spread : Fixed
  pub paper_starting_cash_usdc : Fixed
  pub paper_fee_bps : ℕ
  pub paper_fill_participation_bps : ℕ
  pub enable_wallet_copying : Bool
  pub enable_external_signal : Bool
  pub live_order_submission_enabled : Bool
  pub live_confirmation : String

-- `Default for Settings`, with the values that the `default_…` functions return.
abbrev pub default_settings : Settings
default_settings = record {
  mode = BotMode.paper;
  venue = "polymarket_international";
  clob_protocol = ClobProtocol.v2;
  clob_host = "https://clob.polymarket.com";
  chain_id = 137;
  collateral_asset = "pUSD";
  wallet_mode = WalletMode.deposit_wallet;
  signature_type = SignatureType.poly1271;
  funder_address = "0x0000000000000000000000000000000000000000";
  geoblock_url = "https://polymarket.com/api/geoblock";
  max_geoblock_age_ms = 60000;
  max_book_age_ms = 250;
  max_event_lag_ms = 500;
  max_order_usdc = pos 10000000;
  max_market_exposure_usdc = pos 100000000;
  max_daily_loss_usdc = pos 50000000;
  max_slippage_ticks = 2;
  max_market_impact_bps = 25;
  min_top_book_size = pos 5000000;
  order_ttl_ms = 750;
  max_new_orders_per_second = 3;
  max_cancels_per_second = 5;
  max_position_notional_usdc = pos 250000000;
  neg_risk_enabled = false;
  asset_ids = [];
  condition_ids = [];
  watched_wallets = [];
  controlled_wallets = [];
  wallet_scores = [];
  external_symbols = [];
  market_ws_endpoint = "wss://ws-subscriptions-clob.polymarket.com";
  user_ws_endpoint = "wss://ws-subscriptions-clob.polymarket.com";
  data_api_host = "https://data-api.polymarket.com";
  coinbase_ws_endpoint = "wss://advanced-trade-ws.coinbase.com";
  journal_path = "logs/decisions.jsonl";
  live_risk_baseline_path = "logs/live-risk-baseline.json";
  compliance_latch_path = "logs/compliance-latch.json";
  max_clock_drift_ms = 2000;
  heartbeat_interval_ms = 5000;
  snapshot_interval_ms = 1000;
  reconnect_min_ms = 250;
  reconnect_max_ms = 30000;
  wallet_poll_interval_ms = 5000;
  wallet_signal_max_age_ms = 120000;
  external_stale_ms = 2000;
  strategy_size = pos 1000000;
  min_spread = pos 10000;
  paper_starting_cash_usdc = pos 10000000000;
  paper_fee_bps = 0;
  paper_fill_participation_bps = 2500;
  enable_wallet_copying = false;
  enable_external_signal = false;
  live_order_submission_enabled = false;
  live_confirmation = "";
}

abbrev pub live_confirmation_phrase : String
live_confirmation_phrase = "ENABLE_LIVE_POLYMARKET_ORDERS"

pub live_confirmation_valid : Settings → Bool
live_confirmation_valid settings =
    settings.live_order_submission_enabled
    && str_eq settings.live_confirmation live_confirmation_phrase
