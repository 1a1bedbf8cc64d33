-- ===== src/Reconcile/Examples.antt =====
-- The theorems on reconcile.rs at a concrete journal.
use polymarket_watch_rust.Base.Tests.{
  List, Option, String, [], none, refl, some, true, ◌↔◌, ◌∷◌, ◌≡◌,
}
use polymarket_watch_rust.Journal.{JournalEventKind, JournalRecord}
use polymarket_watch_rust.Reconcile.{RemoteSnapshot, group_from, recover_after_crash_records}
use polymarket_watch_rust.Reconcile.Recovery.{IsReconciled, recover_after_crash_records-allowed_iff}

-- A record of an order, which the exchange knows as "x".
abbrev record_as : JournalEventKind → String → Option String → JournalRecord
record_as kind client_order_id exchange_order_id = record {
  schema_version = 2;
  event_kind = kind;
  monotonic_sequence = 0;
  process_startup_id = "process";
  wall_clock_timestamp_ms = 1000;
  monotonic_timestamp_ms = 10;
  config_hash = "config";
  binary_hash = "binary";
  previous_record_hash = "GENESIS";
  record_hash = "h0";
  source_event_refs = [];
  decision_id = "decision";
  client_order_id = client_order_id;
  exchange_order_id = exchange_order_id;
  strategy_id = "maker";
  risk_result = "accepted";
  payload = "";
}

-- One order rests, and one was filled.
abbrev some_history : List JournalRecord
some_history =
    record_as JournalEventKind.write_ahead "a" none
    ∷ record_as JournalEventKind.write_ahead "b" none
    ∷ record_as JournalEventKind.acknowledged "a" (some "x")
    ∷ record_as JournalEventKind.filled "b" (some "y")
    ∷ []

abbrev loaded_snapshot : RemoteSnapshot
loaded_snapshot = record {
  open_orders_loaded = true;
  trades_loaded = true;
  balances_loaded = true;
  allowances_loaded = true;
  open_order_ids = ("x", tt) ∷ [];
  trade_order_ids = [];
  trades = [];
  unresolved_gaps = [];
}

recover_after_crash_records-allowed_iff_example :
    ((recover_after_crash_records some_history loaded_snapshot).live_unlock_allowed ≡ true)
    ↔ IsReconciled some_history loaded_snapshot
recover_after_crash_records-allowed_iff_example =
    recover_after_crash_records-allowed_iff some_history loaded_snapshot

history_reconciled :
    (recover_after_crash_records some_history loaded_snapshot).reason ≡ "reconciled"
unfolding recover_after_crash_records group_from
history_reconciled = refl

-- An order that is open at the exchange but in no attempt keeps trading locked.
stray_blocks :
    (recover_after_crash_records [] loaded_snapshot).reason ≡ "unmapped_remote_open_orders"
unfolding recover_after_crash_records group_from
stray_blocks = refl
