-- ===== src/Heartbeat/Examples.antt =====
-- The theorem on heartbeat.rs at a concrete heartbeat.
use polymarket_watch_rust.Base.Outcome.{ok}
use polymarket_watch_rust.Base.Tests.{arith, true, ◌<◌, ◌↔◌, ◌≡◌}
use polymarket_watch_rust.Heartbeat.{
  HeartbeatState, default_heartbeat, failures, record_success, require_healthy,
  require_healthy-failures,
}

abbrev live_heartbeat : HeartbeatState
live_heartbeat = record default_heartbeat { live_enabled = true }

require_healthy-failures_example :
    (require_healthy (failures 2 (record_success live_heartbeat)) ≡ ok tt)
    ↔ ((true ≡ true) × (2 < 3))
require_healthy-failures_example = require_healthy-failures 1 live_heartbeat (omega arith)
