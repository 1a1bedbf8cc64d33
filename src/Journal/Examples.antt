-- ===== src/Journal/Examples.antt =====
-- The theorems on journal.rs at concrete journals.
pub mod Codec
pub mod Faithful
mod Torn
use polymarket_watch_rust.Base.Display.{show_ℕ}
use polymarket_watch_rust.Base.Lists.{length}
use polymarket_watch_rust.Base.Outcome.{BotError, err, journal, ok}
use polymarket_watch_rust.Base.Tests.{
  List, String, [], arith, eq_iff, false, none, refl, some, str_eq, ◌++◌, ◌↔◌, ◌∷◌, ◌≡◌, ◌≢◌, ◌⊎◌,
}
use polymarket_watch_rust.Fixed.Text.{is_whitespace}
use polymarket_watch_rust.Journal.{
  Bytes, Disk, Journal, JournalEntry, JournalEventKind, JournalRecord, JournalStartup, compute_hash,
  from_line, genesis_hash, got, new_record, to_line,
}
use polymarket_watch_rust.Journal.Accepts.{IsAccepted, verification_of, verify_reader-accepts_iff}
use polymarket_watch_rust.Journal.Commits.{
  IsReady, append_event-commits, append_event-fails, append_event-ready,
}
use polymarket_watch_rust.Journal.Compaction.{
  CompactIo, compact_paper_history, install_replacement, remove_checkpoint, removed, replace_log,
  sign_snapshot, snapshot_entry,
}
use polymarket_watch_rust.Journal.Examples.Codec.{
  known_option, line_of, read_kind, read_option, read_text, table_codec, texts, write_kind,
  write_option, write_text,
}
use polymarket_watch_rust.Journal.Examples.Faithful.{table_codec-IsFaithful}
use polymarket_watch_rust.Journal.Reading.{
  JournalVerification, check_checkpoint, lines, open_journal, read_checkpoint, read_line,
  replay_records, verify_lines, verify_reader, verify_record,
}
use polymarket_watch_rust.Journal.Recovery.{
  Ledger, Operation, compact, perform, perform_all, recovery,
}
use polymarket_watch_rust.Journal.Snapshot.{IsAccepted-bare, bare, compact_paper_history_sound}
use polymarket_watch_rust.Journal.Sound.{IsNamed, IsSoundJournal}
use polymarket_watch_rust.Journal.Writing.{
  AppendIo, CheckpointIo, append_event, checkpoint_committed, complete, cut, preflight,
  rollback_uncommitted, write_checkpoint, write_prepared,
}

text_ne : (s t : String) → str_eq s t ≡ false → s ≢ t
text_ne s t h e = grind (arith, h, e, eq_iff s t)

abbrev pub some_startup : JournalStartup
some_startup = record {
  process_startup_id = "process";
  config_hash = "config";
  binary_hash = "binary";
}

pub some_startup-IsNamed : IsNamed some_startup
some_startup-IsNamed = record {
  process = text_ne "process" "" refl;
  config_hashed = text_ne "config" "" refl;
  binary_hashed = text_ne "binary" "" refl;
}

-- A journal on empty files.
abbrev pub new_journal : Journal
new_journal = record {
  startup = some_startup;
  disk = bare;
  next_sequence = 0;
  last_hash = genesis_hash;
  poisoned = none;
  checkpoint_warning = none;
}

pub new_journal-IsSoundJournal : IsSoundJournal table_codec new_journal []
new_journal-IsSoundJournal = record {
  whole = tt;
  accepted = IsAccepted-bare table_codec;
  at_sequence = refl;
  at_hash = refl;
}

abbrev checkpoint_works : CheckpointIo
checkpoint_works = record {
  create_dir = got tt;
  create = got tt;
  serialize = got tt;
  newline = got tt;
  sync = got tt;
  rename = got tt;
  sync_parent = got tt;
}

abbrev pub all_works : AppendIo
all_works = record {
  clock = record { now_ms = 1000; elapsed_ms = 10 };
  metadata = got tt;
  write = complete;
  sync = got tt;
  set_len = got tt;
  seek_end = got tt;
  sync_rollback = got tt;
  checkpoint = checkpoint_works;
}

-- The disk fills up after ten bytes of the line.
abbrev disk_full : AppendIo
disk_full = record all_works { write = cut 10 "no space left" }

abbrev pub some_entry : JournalEntry
some_entry = record {
  event_kind = JournalEventKind.write_ahead;
  source_event_refs = [];
  decision_id = "decision";
  client_order_id = "order";
  exchange_order_id = none;
  strategy_id = "paper";
  risk_result = "accepted";
  payload = "payload";
}

abbrev compact_works : CompactIo
compact_works = record {
  clock = record { now_ms = 2000; elapsed_ms = 20 };
  create = got tt;
  lock = got tt;
  write = got tt;
  sync = got tt;
  remove = removed;
  sync_removed = got tt;
  rename = got tt;
  sync_parent = got tt;
  checkpoint = checkpoint_works;
}

abbrev one_appended : Journal
one_appended = (append_event table_codec all_works new_journal some_entry).1

abbrev pub first_record : JournalRecord
first_record = record {
  schema_version = 2;
  event_kind = JournalEventKind.write_ahead;
  monotonic_sequence = 0;
  process_startup_id = "process";
  wall_clock_timestamp_ms = 1000;
  monotonic_timestamp_ms = 10;
  config_hash = "config";
  binary_hash = "binary";
  previous_record_hash = "GENESIS";
  record_hash = "h0";
  source_event_refs = [];
  decision_id = "decision";
  client_order_id = "order";
  exchange_order_id = none;
  strategy_id = "paper";
  risk_result = "accepted";
  payload = "payload";
}

first_append : (append_event table_codec all_works new_journal some_entry).0 ≡ ok first_record
unfolding append_event preflight new_record compute_hash to_line write_prepared texts write_text
    write_option known_option write_kind
first_append = refl

append_event-commits_example : IsSoundJournal table_codec one_appended (first_record ∷ [])
append_event-commits_example =
    append_event-commits table_codec all_works new_journal some_entry [] new_journal-IsSoundJournal
      first_record table_codec-IsFaithful some_startup-IsNamed (text_ne "order" "" refl)
      first_append

abbrev full_error : BotError
full_error = journal "journal_append_failed_and_poisoned:io error: no space left;append_rolled_back"

full_append : (append_event table_codec disk_full new_journal some_entry).0 ≡ err full_error
unfolding append_event preflight new_record compute_hash to_line write_prepared rollback_uncommitted
    texts write_text write_option known_option write_kind
full_append = refl

append_event-fails_example :
    IsSoundJournal table_codec (append_event table_codec disk_full new_journal some_entry).1 []
    × ((append_event table_codec disk_full new_journal some_entry).1.poisoned ≢ none)
append_event-fails_example =
    append_event-fails table_codec disk_full new_journal some_entry [] new_journal-IsSoundJournal
      full_error refl full_append

compact_paper_history_sound_example :
    (((compact_paper_history table_codec compact_works new_journal "decision" "order" "snapshot").0
        ≡ ok tt)
      × (p : JournalRecord × Bytes) × (sign_snapshot table_codec compact_works new_journal
            (snapshot_entry new_journal "decision" "order" "snapshot")
          ≡ ok p)
      × (p.0.payload ≡ "snapshot")
      × IsSoundJournal table_codec
          (compact_paper_history table_codec compact_works new_journal "decision" "order"
            "snapshot").1
          (p.0 ∷ []))
    ⊎ ((x : BotError) × ((compact_paper_history table_codec compact_works new_journal "decision"
            "order" "snapshot").0
          ≡ err x)
        × IsSoundJournal table_codec
            (compact_paper_history table_codec compact_works new_journal "decision" "order"
              "snapshot").1
            [])
compact_paper_history_sound_example =
    compact_paper_history_sound table_codec compact_works new_journal "decision" "order" "snapshot"
      [] table_codec-IsFaithful some_startup-IsNamed (text_ne "order" "" refl)
      new_journal-IsSoundJournal

abbrev some_operations : List Operation
some_operations =
    Operation.append all_works some_entry
    ∷ compact compact_works "decision" "order" "snapshot"
    ∷ Operation.append disk_full some_entry
    ∷ Operation.append all_works some_entry
    ∷ []

abbrev new_ledger : Ledger
new_ledger = record { journal_ = new_journal; committed = [] }

-- One append and a compaction are committed; the append that fails stops the journal.
abbrev served : Ledger
served = perform_all table_codec some_operations new_ledger

recovery_example :
    (open_journal table_codec (got tt) (got tt) (got tt) (got tt) served.journal_.disk some_startup
      ≡ ok (record {
        startup = some_startup;
        disk = served.journal_.disk;
        next_sequence = served.journal_.next_sequence;
        last_hash = served.journal_.last_hash;
        poisoned = none;
        checkpoint_warning = none;
      }))
    × (replay_records table_codec (got tt) (got tt) (got tt) (got tt) (some served.journal_.disk)
        ≡ ok served.committed)
recovery_example =
    recovery table_codec some_operations new_ledger some_startup table_codec-IsFaithful
      some_startup-IsNamed
      (
        (text_ne "order" "" refl, refl),
        (
          text_ne "order" "" refl,
          ((text_ne "order" "" refl, refl), ((text_ne "order" "" refl, refl), tt)),
        ),
      )
      new_journal-IsSoundJournal

served_one : length served.committed ≡ 1
unfolding show_ℕ perform_all perform compact_paper_history sign_snapshot replace_log
    remove_checkpoint install_replacement checkpoint_committed write_checkpoint append_event
    preflight new_record compute_hash to_line write_prepared rollback_uncommitted texts write_text
    write_option known_option write_kind
served_one = refl

first_ready : IsReady table_codec all_works new_journal some_entry
unfolding append_event preflight new_record compute_hash to_line write_prepared rollback_uncommitted
    texts write_text write_option known_option write_kind
first_ready = record {
  unpoisoned = refl;
  numbered = omega arith;
  made = first_record;
  signed = refl;
  line = line_of first_record;
  printed = refl;
  measured = refl;
  written = refl;
  synced = refl;
}

append_event-ready_example :
    ((append_event table_codec all_works new_journal some_entry).0 ≡ ok first_ready.made)
    × (one_appended.poisoned ≡ none)
    × (one_appended.next_sequence ≡ 1)
    × (one_appended.last_hash ≡ first_ready.made.record_hash)
    × (one_appended.disk.log ≡ [] ++ (first_ready.line ++ 10 ∷ []))
append_event-ready_example =
    append_event-ready table_codec all_works new_journal some_entry first_ready

abbrev one_line : Disk
one_line = record { log = line_of first_record ++ 10 ∷ []; checkpoint = none }

abbrev verified_one : JournalVerification
verified_one = record { next_sequence = 1; last_hash = "h0" }

verify_reader-accepts_iff_example :
    (verify_reader table_codec (got tt) one_line ≡ ok verified_one) ↔ (
      (records : List JournalRecord) × IsAccepted table_codec one_line records
      × (verified_one ≡ verification_of records))
verify_reader-accepts_iff_example = verify_reader-accepts_iff table_codec one_line verified_one

one_line_verified : verify_reader table_codec (got tt) one_line ≡ ok verified_one
unfolding is_whitespace verify_reader verify_lines verify_record lines read_line from_line
    check_checkpoint read_checkpoint read_text read_option read_kind append_event preflight
    new_record compute_hash to_line write_prepared rollback_uncommitted texts write_text
    write_option known_option write_kind
one_line_verified = refl
