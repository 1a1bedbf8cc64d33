-- ===== src/Execution.antt =====
-- execution.rs: the gates that an order passes, and the parsers of statuses, allowances and bytes.
pub mod Gates
pub mod Router
pub mod Order
pub mod Hex
mod Examples
use Prim.Native.String.{◌++◌ as append}
use polymarket_watch_rust.Base.Chars.{chars}
use polymarket_watch_rust.Base.Lists.{all}
use polymarket_watch_rust.Base.Outcome.{
  BotError, Result, err, execution, fail_if, ok, protocol, ◌>>=◌, ◌>>◌,
}
use polymarket_watch_rust.Base.Tests.{
  Bool, List, Option, String, [], false, if◌then◌else◌, leb, none, not, some, str_eq, true, ℕ, ⊤,
  ◌%◌, ◌&&◌, ◌+◌, ◌-◌, ◌/◌, ◌==◌, ◌∷◌,
}
use polymarket_watch_rust.Compliance.{ComplianceState, check_compliance, is_live}
use polymarket_watch_rust.Config.{Settings}
use polymarket_watch_rust.Fixed.Text.{trim_start_by}
use polymarket_watch_rust.Heartbeat.{HeartbeatState, require_healthy}
use polymarket_watch_rust.Journal.{Bytes}
use polymarket_watch_rust.MatchingEngine.{MatchingEngineMode, MatchingEngineState}
use polymarket_watch_rust.Readiness.{ReadinessState, require_live_ready}
use polymarket_watch_rust.Reconcile.{RecoveryReport, is_nil, require_recovered}
use polymarket_watch_rust.Risk.{RiskState, check_order, into_result}
use polymarket_watch_rust.Types.{BookState, MarketMeta, OrderIntent, OrderStatus}

-- `account_revision` is what `load` gives when it is asked, and the revision that is expected.
pub record ExecutionContext : Type 0 where
  pub settings : Settings
  pub readiness : ReadinessState
  pub compliance : ComplianceState
  pub heartbeat : HeartbeatState
  pub recovery : RecoveryReport
  pub matching_engine : MatchingEngineState
  pub market : MarketMeta
  pub book : Option BookState
  pub risk_state : RiskState
  pub expected_revision : Option ℕ

abbrev pub account_revision_matches : ExecutionContext → ℕ → Bool
account_revision_matches context loaded = elim context.expected_revision [
  | none ↦ true
  | some expected ↦ loaded == expected
]

unfoldable pub check_engine_mode : MatchingEngineMode → Bool → Result ⊤
check_engine_mode MatchingEngineMode.normal post_only = ok tt
check_engine_mode MatchingEngineMode.post_only true = ok tt
check_engine_mode MatchingEngineMode.post_only_recovery true = ok tt
check_engine_mode MatchingEngineMode.post_only false =
    err (execution "matching_engine_post_only_requires_post_only_intent")
check_engine_mode MatchingEngineMode.post_only_recovery false =
    err (execution "matching_engine_post_only_requires_post_only_intent")
check_engine_mode MatchingEngineMode.restarting _ = err (execution "matching_engine_restarting")
check_engine_mode MatchingEngineMode.cancel_only _ = err (execution "matching_engine_cancel_only")
check_engine_mode MatchingEngineMode.read_only _ = err (execution "matching_engine_read_only")

unfoldable pub check_gates : ExecutionContext → OrderIntent → ℕ → ℕ → Result ⊤
check_gates context i loaded now_ms = do
  fail_if (not (account_revision_matches context loaded))
      (BotError.readiness "account_revision_changed_before_submit")
  into_result (
      check_order context.settings context.market context.book i
        (record context.risk_state { now_ms = now_ms }))
  require_live_ready context.settings context.readiness
  check_compliance context.settings context.compliance now_ms
  if is_live context.settings.mode
      then require_healthy context.heartbeat >> require_recovered context.recovery
      else ok tt
  check_engine_mode context.matching_engine.mode i.post_only

-- The status that the exchange reports for an order.
pub data ApiOrderStatus : Type 0 where
  live delayed unmatched matched canceled other : ApiOrderStatus
  unknown : String → ApiOrderStatus

unfoldable pub map_api_order_status : ApiOrderStatus → OrderStatus
map_api_order_status ApiOrderStatus.live = OrderStatus.acknowledged
map_api_order_status ApiOrderStatus.delayed = OrderStatus.acknowledged
map_api_order_status ApiOrderStatus.unmatched = OrderStatus.acknowledged
map_api_order_status ApiOrderStatus.matched = OrderStatus.filled
map_api_order_status ApiOrderStatus.canceled = OrderStatus.cancelled
map_api_order_status _ = OrderStatus.unknown

abbrev pub validate_order_status_identity : String → String → Result ⊤
validate_order_status_identity expected actual =
    if str_eq expected actual then ok tt else err (protocol "order_status_identity_mismatch")

-- `trim_start_matches('0')`, then digits only and at least one
unfoldable pub nonzero_integer : String → Bool
nonzero_integer text =
    let rest = trim_start_by (λ ch. ch == 48) (chars text) in
    not (is_nil rest) && all (λ ch. leb 48 ch && leb ch 57) rest

unfoldable pub allowances_configured : List String → Bool
allowances_configured [] = false
allowances_configured (first_value ∷ rest) = nonzero_integer first_value && all nonzero_integer rest

-- `hex_bytes`: the digits as the bytes of the text
abbrev pub hex_digit : ℕ → ℕ
hex_digit n = if leb 10 n then 97 + (n - 10) else 48 + n

unfoldable pub hex_bytes : Bytes → Bytes
hex_bytes [] = []
hex_bytes (byte ∷ rest) = hex_digit (byte / 16) ∷ hex_digit (byte % 16) ∷ hex_bytes rest
