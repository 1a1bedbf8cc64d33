-- ===== src/Readiness/Live.antt =====
-- About readiness.rs in live mode.
use polymarket_watch_rust.Base.Lists.{All}
use polymarket_watch_rust.Base.Outcome.{ok}
use polymarket_watch_rust.Base.Tests.{
  Bool, List, String, [], arith, eq_iff, false, refl, true, ◌↔◌, ◌∷◌, ◌≡◌, ◌⊎◌,
}
use polymarket_watch_rust.Config.{Settings}
use polymarket_watch_rust.Readiness.{
  ReadinessState, check_clob_protocol, check_endpoints, live_checks, production_coinbase_ws,
  production_data_api, production_market_ws, production_user_ws, require_each, require_live_ready,
  validate_protocol_compatibility, wallet_matches,
}
use polymarket_watch_rust.Types.{BotMode, ClobProtocol, live}

-- The production protocol, with matching wallet and signature, on chain 137.
pub record IsProduction (s : Settings) : Type 0 where
  pub venue : s.venue ≡ "polymarket_international"
  pub geoblock : s.geoblock_url ≡ "https://polymarket.com/api/geoblock"
  pub protocol : s.clob_protocol ≡ ClobProtocol.v2
  pub host : s.clob_host ≡ "https://clob.polymarket.com"
  pub collateral : s.collateral_asset ≡ "pUSD"
  pub wallet : wallet_matches s.wallet_mode s.signature_type ≡ true
  pub chain : s.chain_id ≡ 137

-- The endpoints that are pinned in live mode.
pub record IsPinned (s : Settings) : Type 0 where
  pub market_ws : s.market_ws_endpoint ≡ production_market_ws
  pub user_ws : s.user_ws_endpoint ≡ production_user_ws
  pub data_api : s.data_api_host ≡ production_data_api
  pub coinbase :
      (s.enable_external_signal ≡ false) ⊎ (s.coinbase_ws_endpoint ≡ production_coinbase_ws)

check_endpoints-IsPinned : (s : Settings) → check_endpoints s ≡ ok tt → IsPinned s
unfolding check_endpoints
check_endpoints-IsPinned s h = record {
  market_ws = grind (arith, eq_iff s.market_ws_endpoint production_market_ws);
  user_ws = grind (arith, eq_iff s.user_ws_endpoint production_user_ws);
  data_api = grind (arith, eq_iff s.data_api_host production_data_api);
  coinbase = grind (arith, eq_iff s.coinbase_ws_endpoint production_coinbase_ws);
}

IsPinned-check_endpoints : (s : Settings) → IsPinned s → check_endpoints s ≡ ok tt
unfolding check_endpoints
IsPinned-check_endpoints s p = grind (
  arith,
  p.market_ws,
  p.user_ws,
  p.data_api,
  p.coinbase,
  eq_iff s.market_ws_endpoint production_market_ws,
  eq_iff s.user_ws_endpoint production_user_ws,
  eq_iff s.data_api_host production_data_api,
  eq_iff s.coinbase_ws_endpoint production_coinbase_ws,
)

-- In live mode the compatibility check passes on production settings with pinned endpoints only.
pub validate_protocol_compatibility-live :
    (s : Settings)
    → s.mode ≡ BotMode.live
    → validate_protocol_compatibility s ≡ ok tt
    → IsProduction s × IsPinned s
unfolding validate_protocol_compatibility check_clob_protocol
validate_protocol_compatibility-live s h_live h = (
  record {
    venue = grind (arith, eq_iff s.venue "polymarket_international");
    geoblock = grind (arith, eq_iff s.geoblock_url "https://polymarket.com/api/geoblock");
    protocol = grind arith;
    host = grind (arith, eq_iff s.clob_host "https://clob.polymarket.com");
    collateral = grind (arith, eq_iff s.collateral_asset "pUSD");
    wallet = grind arith;
    chain = grind arith;
  },
  check_endpoints-IsPinned s (grind (arith, h_live)),
)

pub production-validate_protocol_compatibility :
    (s : Settings) → IsProduction s → IsPinned s → validate_protocol_compatibility s ≡ ok tt
unfolding validate_protocol_compatibility check_clob_protocol
production-validate_protocol_compatibility s p pinned = grind (
  arith,
  p.venue,
  p.geoblock,
  p.protocol,
  p.host,
  p.collateral,
  p.wallet,
  p.chain,
  IsPinned-check_endpoints s pinned,
  eq_iff s.venue "polymarket_international",
  eq_iff s.geoblock_url "https://polymarket.com/api/geoblock",
  eq_iff s.clob_host "https://clob.polymarket.com",
  eq_iff s.collateral_asset "pUSD",
)

abbrev pub AllPassed : List (Bool × String) → Type 0
AllPassed checks = All (λ (c : Bool × String). c.0 ≡ true) checks

pub require_each_iff :
    (checks : List (Bool × String)) → (require_each checks ≡ ok tt) ↔ AllPassed checks
unfolding require_each
require_each_iff [] = (λ h. tt, λ h. refl)
require_each_iff ((passed, reason) ∷ rest) =
    (λ h. ground (arith, require_each_iff rest), λ h. ground (arith, require_each_iff rest))

-- Each of the twelve checks has passed.
pub record IsVerified (r : ReadinessState) : Type 0 where
  pub protocol_passed : r.protocol_verified ≡ true
  pub wallet_path_passed : r.wallet_path_verified ≡ true
  pub signer_passed : r.signer_authorized ≡ true
  pub funder_passed : r.funder_verified ≡ true
  pub balance_passed : r.balance_verified ≡ true
  pub allowance_passed : r.allowance_verified ≡ true
  pub api_credentials_passed : r.api_credentials_verified ≡ true
  pub market_parameters_passed : r.market_parameters_verified ≡ true
  pub clock_passed : r.clock_synced ≡ true
  pub journal_passed : r.journal_verified ≡ true
  pub heartbeat_ready_passed : r.heartbeat_ready ≡ true
  pub reconciled_after_startup_passed : r.reconciled_after_startup ≡ true

IsVerified-live_checks : (r : ReadinessState) → AllPassed (live_checks r) ↔ IsVerified r
IsVerified-live_checks r = (to, from)
  where
    to : AllPassed (live_checks r) → IsVerified r
    to (c0, (c1, (c2, (c3, (c4, (c5, (c6, (c7, (c8, (c9, (c10, (c11, _)))))))))))) = record {
      protocol_passed = c0;
      wallet_path_passed = c1;
      signer_passed = c2;
      funder_passed = c3;
      balance_passed = c4;
      allowance_passed = c5;
      api_credentials_passed = c6;
      market_parameters_passed = c7;
      clock_passed = c8;
      journal_passed = c9;
      heartbeat_ready_passed = c10;
      reconciled_after_startup_passed = c11;
    }

    from : IsVerified r → AllPassed (live_checks r)
    from v = (
      v.protocol_passed,
      (
        v.wallet_path_passed,
        (
          v.signer_passed,
          (
            v.funder_passed,
            (
              v.balance_passed,
              (
                v.allowance_passed,
                (
                  v.api_credentials_passed,
                  (
                    v.market_parameters_passed,
                    (
                      v.clock_passed,
                      (
                        v.journal_passed,
                        (v.heartbeat_ready_passed, (v.reconciled_after_startup_passed, tt)),
                      ),
                    ),
                  ),
                ),
              ),
            ),
          ),
        ),
      ),
    )

-- In live mode the bot is ready exactly when its settings are those of the production protocol
-- on chain 137 (host, collateral, and a wallet that fits the signature), its endpoints are the
-- pinned ones, and each of the twelve checks of the readiness state has passed.
pub require_live_ready_iff :
    (s : Settings) (r : ReadinessState)
    → s.mode ≡ BotMode.live
    → (require_live_ready s r ≡ ok tt) ↔ (IsProduction s × IsPinned s × IsVerified r)
unfolding require_live_ready
require_live_ready_iff s r h_live = (to, from)
  where
    to : require_live_ready s r ≡ ok tt → IsProduction s × IsPinned s × IsVerified r
    to h =
        let valid = validate_protocol_compatibility-live s h_live (grind (arith, h)) in
        (
          valid.0,
          valid.1,
          (IsVerified-live_checks r).0
              ((require_each_iff (live_checks r)).0 (grind (arith, h, h_live))),
        )

    from : IsProduction s × IsPinned s × IsVerified r → require_live_ready s r ≡ ok tt
    from h = grind (
      arith,
      live,
      production-validate_protocol_compatibility s h.0 h.1,
      (require_each_iff (live_checks r)).1 ((IsVerified-live_checks r).1 h.2),
    )
