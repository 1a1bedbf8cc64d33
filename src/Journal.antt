-- ===== src/Journal.antt =====
-- journal.rs: the data of the hash-chained journal. serde_json, UTF-8 decoding and blake3 are the
-- fields of `Codec`; a file is the list of its bytes.
pub mod Reading
pub mod Writing
pub mod Compaction
pub mod Lines
pub mod Chain
pub mod Accepts
pub mod Sound
pub mod Appends
pub mod Outcome
pub mod Commits
pub mod Snapshot
pub mod Recovery
pub mod Examples
use Prim.Native.String.{◌++◌ as append}
use polymarket_watch_rust.Base.Display.{show_ℕ}
use polymarket_watch_rust.Base.Outcome.{BotError, Result, err, fail_if, journal, ok, ◌>>=◌, ◌>>◌}
use polymarket_watch_rust.Base.Tests.{
  Bool, List, Option, String, false, not, str_eq, true, ℕ, ◌==◌, ◌||◌,
}

-- What a call outside the program answers: a value, or an error of which only the text is used.
pub data Answer {ℓ} (A : Type ℓ) : Type ℓ where
  failed : String → Answer A
  got : A → Answer A

abbrev pub map_err {ℓ} : {A : Type ℓ} → (String → BotError) → Answer A → Result A
map_err f (failed text) = err (f text)
map_err f (got a) = ok a

-- `From<std::io::Error>`, as `?` and `into()` use it
abbrev pub io_result {ℓ} : {A : Type ℓ} → Answer A → Result A
io_result answer = map_err BotError.io answer

abbrev pub Bytes : Type 0
Bytes = List ℕ

abbrev pub genesis_hash : String
genesis_hash = "GENESIS"

abbrev pub journal_schema_version : ℕ
journal_schema_version = 2

pub data JournalEventKind : Type 0 where
  write_ahead paper_transition account_mutation submitted acknowledged rejected partially_filled
        filled cancel_requested cancelled reconciled :
      JournalEventKind

pub record JournalRecord : Type 0 where
  pub schema_version : ℕ
  pub event_kind : JournalEventKind
  pub monotonic_sequence : ℕ
  pub process_startup_id : String
  pub wall_clock_timestamp_ms : ℕ
  pub monotonic_timestamp_ms : ℕ
  pub config_hash : String
  pub binary_hash : String
  pub previous_record_hash : String
  pub record_hash : String
  pub source_event_refs : List String
  pub decision_id : String
  pub client_order_id : String
  pub exchange_order_id : Option String
  pub strategy_id : String
  pub risk_result : String
  pub payload : String

pub record HashMaterial : Type 0 where
  pub schema_version : ℕ
  pub event_kind : JournalEventKind
  pub monotonic_sequence : ℕ
  pub process_startup_id : String
  pub wall_clock_timestamp_ms : ℕ
  pub monotonic_timestamp_ms : ℕ
  pub config_hash : String
  pub binary_hash : String
  pub previous_record_hash : String
  pub source_event_refs : List String
  pub decision_id : String
  pub client_order_id : String
  pub exchange_order_id : Option String
  pub strategy_id : String
  pub risk_result : String
  pub payload : String

pub record JournalEntry : Type 0 where
  pub event_kind : JournalEventKind
  pub source_event_refs : List String
  pub decision_id : String
  pub client_order_id : String
  pub exchange_order_id : Option String
  pub strategy_id : String
  pub risk_result : String
  pub payload : String

-- `started_at` is an `Instant`, which only the clock reads.
pub record JournalStartup : Type 0 where
  pub process_startup_id : String
  pub config_hash : String
  pub binary_hash : String

-- `now_ms()` and the milliseconds since `started_at`
pub record Clock : Type 0 where
  pub now_ms : ℕ
  pub elapsed_ms : ℕ

pub record Codec : Type 0 where
  pub to_vec : HashMaterial → Answer Bytes
  pub blake3_hex : Bytes → String
  pub record_to_string : JournalRecord → Answer Bytes
  pub record_from_str : Bytes → Answer JournalRecord
  pub utf8 : Bytes → Answer (List ℕ)

pub record JournalCheckpoint : Type 0 where
  pub next_sequence : ℕ
  pub last_hash : String

-- The files of a journal: the log, and what reading and parsing the checkpoint gives, if there is one.
pub record Disk : Type 0 where
  pub log : Bytes
  pub checkpoint : Option (Result JournalCheckpoint)

pub record Journal : Type 0 where
  pub startup : JournalStartup
  pub disk : Disk
  pub next_sequence : ℕ
  pub last_hash : String
  pub poisoned : Option String
  pub checkpoint_warning : Option String

abbrev pub is_terminal_kind : JournalEventKind → Bool
is_terminal_kind JournalEventKind.rejected = true
is_terminal_kind JournalEventKind.filled = true
is_terminal_kind JournalEventKind.cancelled = true
is_terminal_kind _ = false

abbrev pub is_terminal : JournalRecord → Bool
is_terminal record_ = is_terminal_kind record_.event_kind

abbrev pub is_write_ahead : JournalEventKind → Bool
is_write_ahead JournalEventKind.write_ahead = true
is_write_ahead _ = false

abbrev pub hash_material : JournalRecord → HashMaterial
hash_material r = record {
  schema_version = r.schema_version;
  event_kind = r.event_kind;
  monotonic_sequence = r.monotonic_sequence;
  process_startup_id = r.process_startup_id;
  wall_clock_timestamp_ms = r.wall_clock_timestamp_ms;
  monotonic_timestamp_ms = r.monotonic_timestamp_ms;
  config_hash = r.config_hash;
  binary_hash = r.binary_hash;
  previous_record_hash = r.previous_record_hash;
  source_event_refs = r.source_event_refs;
  decision_id = r.decision_id;
  client_order_id = r.client_order_id;
  exchange_order_id = r.exchange_order_id;
  strategy_id = r.strategy_id;
  risk_result = r.risk_result;
  payload = r.payload;
}

-- The record before it is hashed.
abbrev pub unsigned_record : Clock → ℕ → String → JournalStartup → JournalEntry → JournalRecord
unsigned_record clock sequence previous_hash startup entry = record {
  schema_version = journal_schema_version;
  event_kind = entry.event_kind;
  monotonic_sequence = sequence;
  process_startup_id = startup.process_startup_id;
  wall_clock_timestamp_ms = clock.now_ms;
  monotonic_timestamp_ms = clock.elapsed_ms;
  config_hash = startup.config_hash;
  binary_hash = startup.binary_hash;
  previous_record_hash = previous_hash;
  record_hash = "";
  source_event_refs = entry.source_event_refs;
  decision_id = entry.decision_id;
  client_order_id = entry.client_order_id;
  exchange_order_id = entry.exchange_order_id;
  strategy_id = entry.strategy_id;
  risk_result = entry.risk_result;
  payload = entry.payload;
}

module _ (c : Codec) where
  unfoldable pub compute_hash : JournalRecord → Result String
  compute_hash r =
      map_err (λ error. journal (append "hash_material_serialize:" error))
        (c.to_vec (hash_material r))
      >>= λ material. ok (c.blake3_hex material)

  unfoldable pub to_line : JournalRecord → Result Bytes
  to_line r = map_err (λ error. journal (append "record_serialize:" error)) (c.record_to_string r)

  -- `JournalRecord::new`
  unfoldable pub new_record :
      Clock → ℕ → String → JournalStartup → JournalEntry → Result JournalRecord
  new_record clock sequence previous_hash startup entry =
      let unsigned = unsigned_record clock sequence previous_hash startup entry in
      compute_hash unsigned >>= λ hash. ok (record unsigned { record_hash = hash })

  abbrev pub check_record : JournalRecord → Result JournalRecord
  check_record r = do
    fail_if (not (r.schema_version == journal_schema_version))
        (journal (append "unsupported_schema_version:" (show_ℕ r.schema_version)))
    fail_if
        (str_eq r.process_startup_id ""
          || str_eq r.config_hash ""
          || str_eq r.binary_hash ""
          || str_eq r.client_order_id "")
        (journal "journal_record_missing_required_field")
    hash ← compute_hash r
    fail_if (not (str_eq r.record_hash hash)) (journal "record_hash_mismatch")
    ok r

  unfoldable pub from_line : Bytes → Result JournalRecord
  from_line line =
      map_err (λ error. journal (append "record_parse:" error)) (c.record_from_str line) >>= λ r.
      check_record r
