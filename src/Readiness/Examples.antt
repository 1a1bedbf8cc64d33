-- ===== src/Readiness/Examples.antt =====
-- The theorem on readiness.rs at the default settings in live mode.
use polymarket_watch_rust.Base.Outcome.{ok}
use polymarket_watch_rust.Base.Tests.{refl, true, ◌↔◌, ◌≡◌}
use polymarket_watch_rust.Config.{Settings, default_settings}
use polymarket_watch_rust.Readiness.{
  ReadinessState, check_clob_protocol, check_endpoints, require_each, require_live_ready,
  validate_protocol_compatibility,
}
use polymarket_watch_rust.Readiness.Live.{
  IsPinned, IsProduction, IsVerified, require_live_ready_iff,
}
use polymarket_watch_rust.Types.{BotMode}

abbrev live_settings : Settings
live_settings = record default_settings { mode = BotMode.live }

abbrev all_verified : ReadinessState
all_verified = record {
  protocol_verified = true;
  wallet_path_verified = true;
  signer_authorized = true;
  funder_verified = true;
  balance_verified = true;
  allowance_verified = true;
  api_credentials_verified = true;
  market_parameters_verified = true;
  clock_synced = true;
  journal_verified = true;
  heartbeat_ready = true;
  reconciled_after_startup = true;
}

ready : require_live_ready live_settings all_verified ≡ ok tt
unfolding require_live_ready validate_protocol_compatibility check_clob_protocol check_endpoints
    require_each
ready = refl

require_live_ready_iff_example :
    (require_live_ready live_settings all_verified ≡ ok tt)
    ↔ (IsProduction live_settings × IsPinned live_settings × IsVerified all_verified)
require_live_ready_iff_example = require_live_ready_iff live_settings all_verified refl
