-- ===== src/Journal/Examples/Codec.antt =====
-- A codec for the examples on journal.rs: it prints the records whose texts are in a table, each
-- text as its place in the table, and all numbers above the control characters.
use polymarket_watch_rust.Base.Lists.{all, any, length}
use polymarket_watch_rust.Base.Tests.{
  Bool, List, Option, String, [], if◌then◌else◌, leb, map, none, some, str_eq, suc, true, zero, ℕ,
  ◌&&◌, ◌+◌, ◌-◌, ◌==◌, ◌∷◌,
}
use polymarket_watch_rust.Journal.{
  Answer, Bytes, Codec, JournalEventKind, JournalRecord, failed, got,
}

unfoldable pub texts : List String
texts =
    "" ∷ "GENESIS" ∷ "h0" ∷ "h1" ∷ "h2" ∷ "process" ∷ "config" ∷ "binary" ∷ "decision" ∷ "order"
    ∷ "paper" ∷ "accepted" ∷ "compacted_snapshot" ∷ "compacted_records:1" ∷ "compacted_root:h0"
    ∷ "payload" ∷ "snapshot" ∷ "client-u" ∷ "decision-client-u" ∷ "maker" ∷ "h" ∷ "Acknowledged"
    ∷ "ack" ∷ "x" ∷ []

abbrev pub place : List String → String → ℕ
place [] s = 0
place (t ∷ ts) s = let later = suc (place ts s) in if str_eq t s then 0 else later

abbrev pub text_at : List String → ℕ → String
text_at [] i = ""
text_at (t ∷ ts) zero = t
text_at (t ∷ ts) (suc i) = text_at ts i

abbrev pub known : List String → String → Bool
known ts s = any (λ t. str_eq t s) ts

unfoldable pub write_text : String → ℕ
write_text s = place texts s + 20

unfoldable pub read_text : ℕ → String
read_text n = text_at texts (n - 20)

unfoldable pub write_option : Option String → ℕ
write_option none = 20
write_option (some s) = place texts s + 21

unfoldable pub read_option : ℕ → Option String
read_option n = if n == 20 then none else some (text_at texts (n - 21))

unfoldable pub known_option : Option String → Bool
known_option none = true
known_option (some s) = known texts s

unfoldable pub write_kind : JournalEventKind → ℕ
write_kind JournalEventKind.write_ahead = 20
write_kind JournalEventKind.paper_transition = 21
write_kind JournalEventKind.account_mutation = 22
write_kind JournalEventKind.submitted = 23
write_kind JournalEventKind.acknowledged = 24
write_kind JournalEventKind.rejected = 25
write_kind JournalEventKind.partially_filled = 26
write_kind JournalEventKind.filled = 27
write_kind JournalEventKind.cancel_requested = 28
write_kind JournalEventKind.cancelled = 29
write_kind JournalEventKind.reconciled = 30

unfoldable pub read_kind : ℕ → JournalEventKind
read_kind n =
    if n == 20
    then JournalEventKind.write_ahead
    else if n == 21
    then JournalEventKind.paper_transition
    else if n == 22
    then JournalEventKind.account_mutation
    else if n == 23
    then JournalEventKind.submitted
    else if n == 24
    then JournalEventKind.acknowledged
    else if n == 25
    then JournalEventKind.rejected
    else if n == 26
    then JournalEventKind.partially_filled
    else if n == 27
    then JournalEventKind.filled
    else if n == 28
    then JournalEventKind.cancel_requested
    else if n == 29
    then JournalEventKind.cancelled
    else JournalEventKind.reconciled

-- The braces of an object: the line is not blank.
abbrev pub line_of : JournalRecord → Bytes
line_of r =
    123
    ∷ (r.schema_version + 20)
    ∷ write_kind r.event_kind
    ∷ (r.monotonic_sequence + 20)
    ∷ write_text r.process_startup_id
    ∷ (r.wall_clock_timestamp_ms + 20)
    ∷ (r.monotonic_timestamp_ms + 20)
    ∷ write_text r.config_hash
    ∷ write_text r.binary_hash
    ∷ write_text r.previous_record_hash
    ∷ write_text r.record_hash
    ∷ write_text r.decision_id
    ∷ write_text r.client_order_id
    ∷ write_option r.exchange_order_id
    ∷ write_text r.strategy_id
    ∷ write_text r.risk_result
    ∷ write_text r.payload
    ∷ map write_text r.source_event_refs

abbrev pub all_known : JournalRecord → Bool
all_known r =
    known texts r.process_startup_id
    && known texts r.config_hash
    && known texts r.binary_hash
    && known texts r.previous_record_hash
    && known texts r.record_hash
    && known texts r.decision_id
    && known texts r.client_order_id
    && known_option r.exchange_order_id
    && known texts r.strategy_id
    && known texts r.risk_result
    && known texts r.payload
    && all (known texts) r.source_event_refs

abbrev pub record_of : Bytes → Answer JournalRecord
record_of (_ ∷ v ∷ k ∷ n ∷ p ∷ w ∷ m ∷ c ∷ b ∷ q ∷ h ∷ d ∷ o ∷ e ∷ s ∷ x ∷ y ∷ refs) = got (record {
  schema_version = v - 20;
  event_kind = read_kind k;
  monotonic_sequence = n - 20;
  process_startup_id = read_text p;
  wall_clock_timestamp_ms = w - 20;
  monotonic_timestamp_ms = m - 20;
  config_hash = read_text c;
  binary_hash = read_text b;
  previous_record_hash = read_text q;
  record_hash = read_text h;
  source_event_refs = map read_text refs;
  decision_id = read_text d;
  client_order_id = read_text o;
  exchange_order_id = read_option e;
  strategy_id = read_text s;
  risk_result = read_text x;
  payload = read_text y;
})
record_of _ = failed "expected value"

-- The hash of a record tells its number, and whether it names more sources than any record does.
abbrev pub hash_of : Bytes → String
hash_of (n ∷ sources ∷ _) =
    if leb 3 sources then "other" else if n == 0 then "h0" else if n == 1 then "h1" else "h2"
hash_of _ = ""

abbrev pub table_codec : Codec
table_codec = record {
  to_vec = λ material. got (material.monotonic_sequence ∷ length material.source_event_refs ∷ []);
  blake3_hex = hash_of;
  record_to_string = λ r. if all_known r then got (line_of r) else failed "unknown text";
  record_from_str = record_of;
  utf8 = λ line. got line;
}
