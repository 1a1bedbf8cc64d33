-- ===== src/Journal/Examples/Torn.antt =====
-- A test of journal.rs.
use polymarket_watch_rust.Base.Outcome.{err, journal, ok}
use polymarket_watch_rust.Base.Tests.{none, refl, ◌≡◌}
use polymarket_watch_rust.Fixed.Text.{is_whitespace}
use polymarket_watch_rust.Journal.{Journal, compute_hash, from_line, got, new_record, to_line}
use polymarket_watch_rust.Journal.Examples.{
  all_works, first_record, new_journal, some_entry, some_startup,
}
use polymarket_watch_rust.Journal.Examples.Codec.{
  known_option, line_of, read_kind, read_option, read_text, table_codec, texts, write_kind,
  write_option, write_text,
}
use polymarket_watch_rust.Journal.Reading.{
  check_checkpoint, lines, open_journal, read_checkpoint, read_line, verify_lines, verify_reader,
  verify_record,
}
use polymarket_watch_rust.Journal.Writing.{
  append_event, checkpoint_committed, preflight, rollback_uncommitted, write_checkpoint,
  write_prepared,
}

-- A log whose last record has lost its line feed is accepted; the next record is then written on
-- the same line, and the log is no longer accepted.
abbrev torn : Journal
torn = record new_journal {
  disk = record { log = line_of first_record; checkpoint = none };
  next_sequence = 1;
  last_hash = "h0";
}

torn_opened :
    open_journal table_codec (got tt) (got tt) (got tt) (got tt) torn.disk some_startup ≡ ok torn
unfolding is_whitespace open_journal verify_reader verify_lines verify_record lines read_line
    from_line check_checkpoint read_checkpoint read_text read_option read_kind append_event
    preflight new_record compute_hash to_line write_prepared rollback_uncommitted texts write_text
    write_option known_option write_kind
torn_opened = refl

abbrev torn_after : Journal
torn_after = (append_event table_codec all_works torn some_entry).1

torn_committed : (torn_after.poisoned ≡ none) × (torn_after.next_sequence ≡ 2)
unfolding is_whitespace checkpoint_committed write_checkpoint verify_reader verify_lines
    verify_record lines read_line from_line check_checkpoint read_checkpoint read_text read_option
    read_kind append_event preflight new_record compute_hash to_line write_prepared
    rollback_uncommitted texts write_text write_option known_option write_kind
torn_committed = (refl, refl)

torn_refused :
    verify_reader table_codec (got tt) torn_after.disk ≡ err (journal "record_hash_mismatch")
unfolding is_whitespace checkpoint_committed write_checkpoint verify_reader verify_lines
    verify_record lines read_line from_line check_checkpoint read_checkpoint read_text read_option
    read_kind append_event preflight new_record compute_hash to_line write_prepared
    rollback_uncommitted texts write_text write_option known_option write_kind
torn_refused = refl
