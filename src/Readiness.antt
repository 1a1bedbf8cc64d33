-- ===== src/Readiness.antt =====
-- readiness.rs: what has to be true before the bot may trade live.
mod Examples
pub mod Live
use polymarket_watch_rust.Base.Outcome.{Result, err, fail_if, ok, readiness, ◌>>=◌, ◌>>◌}
use polymarket_watch_rust.Base.Tests.{
  Bool, List, String, [], false, if◌then◌else◌, not, str_eq, true, ⊤, ◌&&◌, ◌==◌, ◌∷◌,
}
use polymarket_watch_rust.Config.{Settings}
use polymarket_watch_rust.Types.{BotMode, ClobProtocol, SignatureType, WalletMode}

pub record ReadinessState : Type 0 where
  pub protocol_verified : Bool
  pub wallet_path_verified : Bool
  pub signer_authorized : Bool
  pub funder_verified : Bool
  pub balance_verified : Bool
  pub allowance_verified : Bool
  pub api_credentials_verified : Bool
  pub market_parameters_verified : Bool
  pub clock_synced : Bool
  pub journal_verified : Bool
  pub heartbeat_ready : Bool
  pub reconciled_after_startup : Bool

abbrev pub production_market_ws : String
production_market_ws = "wss://ws-subscriptions-clob.polymarket.com"

abbrev pub production_user_ws : String
production_user_ws = "wss://ws-subscriptions-clob.polymarket.com"

abbrev pub production_data_api : String
production_data_api = "https://data-api.polymarket.com"

abbrev pub production_coinbase_ws : String
production_coinbase_ws = "wss://advanced-trade-ws.coinbase.com"

abbrev pub wallet_matches : WalletMode → SignatureType → Bool
wallet_matches WalletMode.deposit_wallet SignatureType.poly1271 = true
wallet_matches WalletMode.gnosis_safe SignatureType.gnosis_safe = true
wallet_matches WalletMode.proxy SignatureType.proxy = true
wallet_matches WalletMode.eoa SignatureType.eoa = true
wallet_matches _ _ = false

unfoldable pub check_clob_protocol : Settings → Result ⊤
check_clob_protocol s = by_protocol s.clob_protocol
  where
    by_protocol : ClobProtocol → Result ⊤
    by_protocol ClobProtocol.v1 = err (readiness "v1_production_protocol_retired")
    by_protocol ClobProtocol.v2 = do
      fail_if (not (str_eq s.clob_host "https://clob.polymarket.com"))
          (readiness "v2_host_mismatch")
      fail_if (not (str_eq s.collateral_asset "pUSD")) (readiness "v2_collateral_mismatch")
      fail_if (not (wallet_matches s.wallet_mode s.signature_type))
          (readiness "v2_wallet_signature_mismatch")

abbrev pub is_live : BotMode → Bool
is_live BotMode.live = true
is_live BotMode.paper = false

-- The loop over the three pinned endpoints, and the external feed's.
unfoldable pub check_endpoints : Settings → Result ⊤
check_endpoints s = do
  fail_if (not (str_eq s.market_ws_endpoint production_market_ws))
      (readiness "market_ws_endpoint_mismatch")
  fail_if (not (str_eq s.user_ws_endpoint production_user_ws))
      (readiness "user_ws_endpoint_mismatch")
  fail_if (not (str_eq s.data_api_host production_data_api)) (readiness "data_api_host_mismatch")
  fail_if (s.enable_external_signal && not (str_eq s.coinbase_ws_endpoint production_coinbase_ws))
      (readiness "coinbase_ws_endpoint_mismatch")

unfoldable pub validate_protocol_compatibility : Settings → Result ⊤
validate_protocol_compatibility s = do
  fail_if (not (str_eq s.venue "polymarket_international")) (readiness "venue_mismatch")
  fail_if (not (str_eq s.geoblock_url "https://polymarket.com/api/geoblock"))
      (readiness "geoblock_url_mismatch")
  check_clob_protocol s
  fail_if (not (s.chain_id == 137)) (readiness "chain_id_mismatch")
  if is_live s.mode then check_endpoints s else ok tt

-- `for (passed, reason) in checks`
unfoldable pub require_each : List (Bool × String) → Result ⊤
require_each [] = ok tt
require_each ((passed, reason) ∷ rest) =
    fail_if (not passed) (readiness reason) >> require_each rest

abbrev pub live_checks : ReadinessState → List (Bool × String)
live_checks r =
    (r.protocol_verified, "protocol_not_verified")
    ∷ (r.wallet_path_verified, "wallet_path_not_verified")
    ∷ (r.signer_authorized, "signer_not_authorized")
    ∷ (r.funder_verified, "funder_not_verified")
    ∷ (r.balance_verified, "balance_not_verified")
    ∷ (r.allowance_verified, "allowance_not_verified")
    ∷ (r.api_credentials_verified, "api_credentials_not_verified")
    ∷ (r.market_parameters_verified, "market_parameters_not_verified")
    ∷ (r.clock_synced, "clock_not_synced")
    ∷ (r.journal_verified, "journal_not_verified")
    ∷ (r.heartbeat_ready, "heartbeat_not_ready")
    ∷ (r.reconciled_after_startup, "startup_not_reconciled")
    ∷ []

unfoldable pub require_live_ready : Settings → ReadinessState → Result ⊤
require_live_ready s r = do
  validate_protocol_compatibility s
  if is_live s.mode then require_each (live_checks r) else ok tt
