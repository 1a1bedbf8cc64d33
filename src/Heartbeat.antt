-- ===== src/Heartbeat.antt =====
-- heartbeat.rs: the health of the live heartbeat. The failure counter is a `u32`; its increment is
-- unchecked in the source, so it wraps in a release build.
mod Examples
use polymarket_watch_rust.Base.Outcome.{Result, fail_if, ok, readiness, ◌>>◌}
use polymarket_watch_rust.Base.Tests.{
  Bool, arith, false, leb, not, refl, suc, true, zero, ℕ, ⊤, ◌%◌, ◌+◌, ◌<◌, ◌^◌, ◌||◌, ◌↔◌, ◌≡◌,
}

pub record HeartbeatState : Type 0 where
  pub live_enabled : Bool
  pub consecutive_failures : ℕ
  pub max_failures : ℕ
  pub degraded : Bool

abbrev pub default_heartbeat : HeartbeatState
default_heartbeat = record {
  live_enabled = false;
  consecutive_failures = 0;
  max_failures = 3;
  degraded = true;
}

unfoldable pub record_success : HeartbeatState → HeartbeatState
record_success h = record h { consecutive_failures = 0; degraded = not h.live_enabled }

unfoldable pub record_failure : HeartbeatState → HeartbeatState
record_failure h =
    let failures = (h.consecutive_failures + 1) % 2 ^ 32 in
    record h {
      consecutive_failures = failures;
      degraded = h.degraded || leb h.max_failures failures;
    }

unfoldable pub require_healthy : HeartbeatState → Result ⊤
require_healthy h = do
  fail_if (not h.live_enabled) (readiness "heartbeat_not_live_enabled")
  fail_if h.degraded (readiness "heartbeat_degraded")

-- `n` failures, one after another.
unfoldable pub failures : ℕ → HeartbeatState → HeartbeatState
failures zero h = h
failures (suc n) h = failures n (record_failure h)

failures-live : (n : ℕ) (h : HeartbeatState) → (failures n h).live_enabled ≡ h.live_enabled
unfolding failures record_failure
failures-live zero h = refl
failures-live (suc n) h = failures-live n (record_failure h)

-- As long as the failure counter does not wrap, a heartbeat that has seen some failures is
-- degraded exactly when it was before or when the failures counted have reached the maximum.
pub failures-degraded :
    (n : ℕ) (h : HeartbeatState)
    → h.consecutive_failures + suc n < 2 ^ 32
    → (failures (suc n) h).degraded
      ≡ (h.degraded || leb h.max_failures (h.consecutive_failures + suc n))
unfolding failures record_failure
failures-degraded zero h bound = grind arith
failures-degraded (suc n) h bound = grind (arith, failures-degraded n (record_failure h))

-- After a success, a heartbeat that then fails some times in a row is healthy exactly when it
-- is enabled for live trading and has failed fewer times than the maximum. The failures are
-- fewer than 2^32.
pub require_healthy-failures :
    (n : ℕ) (h : HeartbeatState)
    → suc n < 2 ^ 32
    → (require_healthy (failures (suc n) (record_success h)) ≡ ok tt)
      ↔ ((h.live_enabled ≡ true) × (suc n < h.max_failures))
unfolding require_healthy record_success
require_healthy-failures n h bound =
    let degraded = failures-degraded n (record_success h) (grind (arith, bound)) in
    let same = failures-live (suc n) (record_success h) in
    (
      λ healthy. (grind (arith, degraded, same, healthy), grind (arith, degraded, same, healthy)),
      λ fine. grind (arith, degraded, same, fine),
    )
