-- ===== src/MatchingEngine.antt =====
-- matching_engine.rs: what the exchange's HTTP answers say of its matching engine.
mod Examples
use polymarket_watch_rust.Base.Tests.{
  Bool, Option, String, arith, false, if◌then◌else◌, leb, none, not, str_eq, ℕ, ◌&&◌, ◌==◌, ◌↔◌,
  ◌≡◌, ◌≤◌,
}
use polymarket_watch_rust.Types.{OrderStatus}

pub data MatchingEngineMode : Type 0 where
  normal restarting post_only_recovery cancel_only post_only read_only : MatchingEngineMode

pub record MatchingEngineState : Type 0 where
  pub mode : MatchingEngineMode
  pub retry_after_ms : Option ℕ
  pub non_post_only_retry_allowed : Bool

abbrev pub default_engine : MatchingEngineState
default_engine = record {
  mode = MatchingEngineMode.read_only;
  retry_after_ms = none;
  non_post_only_retry_allowed = false;
}

abbrev pub normal_after_verified_startup : MatchingEngineState
normal_after_verified_startup = record {
  mode = MatchingEngineMode.normal;
  retry_after_ms = none;
  non_post_only_retry_allowed = false;
}

unfoldable pub classify_http_status : ℕ → Option ℕ → MatchingEngineState
classify_http_status status retry_after_ms =
    if leb 200 status && leb status 299 then normal_after_verified_startup else record {
      mode =
          (if status == 425 then MatchingEngineMode.restarting else MatchingEngineMode.read_only);
      retry_after_ms = retry_after_ms;
      non_post_only_retry_allowed = false;
    }

pub record BatchOrderEntry : Type 0 where
  pub success : Bool
  pub order_id : String
  pub error_msg : String

unfoldable pub status : BatchOrderEntry → OrderStatus
status b =
    if b.success && not (str_eq b.order_id "") && str_eq b.error_msg ""
    then OrderStatus.acknowledged
    else if b.success
    then OrderStatus.unknown
    else OrderStatus.rejected

-- The engine counts as normal exactly after an answer from 200 to 299, and no answer allows a
-- retry of an order that is not post-only.
pub classify_http_status_lem :
    (code : ℕ) (retry_after_ms : Option ℕ)
    → (((classify_http_status code retry_after_ms).mode ≡ MatchingEngineMode.normal)
        ↔ ((200 ≤ code) × (code ≤ 299)))
      × ((classify_http_status code retry_after_ms).non_post_only_retry_allowed ≡ false)
unfolding classify_http_status
classify_http_status_lem code retry_after_ms =
    ((λ h. (ground arith, ground arith), λ h. ground (arith, h)), ground arith)
