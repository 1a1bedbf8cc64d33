-- ===== src/Execution/Examples.antt =====
-- The theorems on execution.rs at a concrete order.
use polymarket_watch_rust.Base.Outcome.{Result, ok}
use polymarket_watch_rust.Base.Tests.{
  List, [], arith, false, inl, refl, some, sym, ◌++◌, ◌↔◌, ◌∙◌, ◌∷◌, ◌≡◌, ◌≢◌,
}
use polymarket_watch_rust.Compliance.{check_compliance, default_compliance}
use polymarket_watch_rust.Config.{default_settings}
use polymarket_watch_rust.Execution.{ExecutionContext, check_gates, hex_bytes}
use polymarket_watch_rust.Execution.Gates.{IsCleared, check_gates-IsCleared}
use polymarket_watch_rust.Execution.Hex.{decode_pairs-hex_bytes}
use polymarket_watch_rust.Execution.Order.{
  submit_checked_inner-calls, submit_checked_inner-journalled, submit_checked_inner-ordered,
  write_ahead_of,
}
use polymarket_watch_rust.Execution.Router.{
  AdapterCall, Submitted, Surroundings, submit_checked_inner,
}
use polymarket_watch_rust.Heartbeat.{default_heartbeat}
use polymarket_watch_rust.Journal.{
  Journal, JournalEventKind, JournalRecord, compute_hash, new_record, to_line,
}
use polymarket_watch_rust.Journal.Examples.{
  all_works, new_journal, new_journal-IsSoundJournal, some_startup-IsNamed,
}
use polymarket_watch_rust.Journal.Examples.Codec.{
  known_option, table_codec, texts, write_kind, write_option, write_text,
}
use polymarket_watch_rust.Journal.Examples.Faithful.{table_codec-IsFaithful}
use polymarket_watch_rust.Journal.Sound.{IsSoundJournal}
use polymarket_watch_rust.Journal.Writing.{
  append_event, append_write_ahead_with_sources, preflight, write_prepared,
}
use polymarket_watch_rust.MatchingEngine.{normal_after_verified_startup}
use polymarket_watch_rust.Readiness.{
  ReadinessState, check_clob_protocol, require_live_ready, validate_protocol_compatibility,
}
use polymarket_watch_rust.Reconcile.{blocked_report}
use polymarket_watch_rust.Reconcile.Mappings.{decode_pairs}
use polymarket_watch_rust.Risk.Examples.{
  calm_book, calm_market, maker_bid, maker_bid-accepted, quiet_state,
}
use polymarket_watch_rust.Types.{OrderStatus}

abbrev unready : ReadinessState
unready = record {
  protocol_verified = false;
  wallet_path_verified = false;
  signer_authorized = false;
  funder_verified = false;
  balance_verified = false;
  allowance_verified = false;
  api_credentials_verified = false;
  market_parameters_verified = false;
  clock_synced = false;
  journal_verified = false;
  heartbeat_ready = false;
  reconciled_after_startup = false;
}

abbrev quiet_context : ExecutionContext
quiet_context = record {
  settings = default_settings;
  readiness = unready;
  compliance = default_compliance;
  heartbeat = default_heartbeat;
  recovery = blocked_report "" 0 0;
  matching_engine = normal_after_verified_startup;
  market = calm_market;
  book = some calm_book;
  risk_state = quiet_state;
  expected_revision = some 7;
}

-- The adapter acknowledges the order.
abbrev calm_surroundings : Surroundings
calm_surroundings = record {
  initial_ms = 1100;
  second_ms = 1100;
  submit_ms = 1101;
  first_revision = 7;
  second_revision = 7;
  last_revision = 7;
  uuid = "u";
  payload = "payload";
  write_ahead_fs = all_works;
  outcome_fs = all_works;
  adapter = λ call. ok (record {
    client_order_id = call.client_order_id;
    exchange_order_id = some "x";
    status = OrderStatus.acknowledged;
    message = "ack";
  });
}

abbrev sent : Submitted
sent = submit_checked_inner table_codec quiet_context maker_bid calm_surroundings new_journal

check_gates-IsCleared_example :
    (check_gates quiet_context maker_bid 7 1100 ≡ ok tt) ↔ IsCleared quiet_context maker_bid 7 1100
check_gates-IsCleared_example = check_gates-IsCleared quiet_context maker_bid 7 1100

cleared : check_gates quiet_context maker_bid 7 1100 ≡ ok tt
unfolding require_live_ready check_compliance validate_protocol_compatibility check_clob_protocol
cleared = (check_gates-IsCleared quiet_context maker_bid 7 1100).1 (record {
  same_account = refl;
  accepted = maker_bid-accepted;
  ready = refl;
  compliant = refl;
  while_live = inl refl;
  taken = inl refl;
})

abbrev one_call : AdapterCall
one_call = record { intent = maker_bid; client_order_id = "client-u"; now_ms = 1101 }

-- Some list is not empty.
nonempty : (calls : List AdapterCall) (call : AdapterCall) → calls ≡ call ∷ [] → calls ≢ []
nonempty calls call h e = let no : call ∷ [] ≡ [] = sym h ∙ e in cc

abbrev written : Result JournalRecord × Journal
written = write_ahead_of table_codec quiet_context maker_bid calm_surroundings new_journal

write_ahead_works : (r : JournalRecord) × (written.0 ≡ ok r)
unfolding append_write_ahead_with_sources append_event preflight new_record compute_hash to_line
    write_prepared texts write_text write_option known_option write_kind
write_ahead_works = (_, refl)

sent_once : sent.calls ≡ one_call ∷ []
sent_once =
    submit_checked_inner-calls table_codec quiet_context maker_bid calm_surroundings new_journal
      write_ahead_works.0 cleared cleared write_ahead_works.1

sent_some : sent.calls ≢ []
sent_some = nonempty sent.calls one_call sent_once

submit_checked_inner-ordered_example :
    (sent.calls ≡ one_call ∷ [])
    × IsCleared quiet_context maker_bid 7 1100
    × IsCleared quiet_context maker_bid 7 1100
    × (r : JournalRecord) × ((write_ahead_of table_codec quiet_context maker_bid calm_surroundings
          new_journal).0
        ≡ ok r)
    × (r.client_order_id ≡ "client-u")
submit_checked_inner-ordered_example =
    submit_checked_inner-ordered table_codec quiet_context maker_bid calm_surroundings new_journal
      sent_some

submit_checked_inner-journalled_example :
    (r : JournalRecord) × (more : List JournalRecord) × (r.event_kind
      ≡ JournalEventKind.write_ahead)
    × (r.client_order_id ≡ "client-u")
    × (r.payload ≡ "payload")
    × IsSoundJournal table_codec sent.journal_ ([] ++ r ∷ more)
submit_checked_inner-journalled_example =
    submit_checked_inner-journalled table_codec quiet_context maker_bid calm_surroundings
      new_journal [] table_codec-IsFaithful some_startup-IsNamed new_journal-IsSoundJournal refl
      sent_some

decode_pairs-hex_bytes_example :
    decode_pairs (hex_bytes (0 ∷ 90 ∷ 255 ∷ [])) ≡ ok (0 ∷ 90 ∷ 255 ∷ [])
decode_pairs-hex_bytes_example =
    decode_pairs-hex_bytes (0 ∷ 90 ∷ 255 ∷ []) (omega arith, (omega arith, (omega arith, tt)))
