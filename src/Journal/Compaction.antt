-- ===== src/Journal/Compaction.antt =====
-- About journal.rs: replacing the log by one record that holds a snapshot.
use Prim.Native.String.{◌++◌ as append}
use polymarket_watch_rust.Base.Display.{show_ℕ}
use polymarket_watch_rust.Base.Lists.{length}
use polymarket_watch_rust.Base.Outcome.{BotError, Result, err, journal, ok, to_string, ◌>>=◌, ◌>>◌}
use polymarket_watch_rust.Base.Tests.{
  Bool, String, [], if◌then◌else◌, leb, none, some, true, ℕ, ⊤, ◌++◌, ◌∷◌,
}
use polymarket_watch_rust.Journal.{
  Answer, Bytes, Clock, Codec, Disk, Journal, JournalEntry, JournalEventKind, JournalRecord,
  genesis_hash, io_result, map_err, new_record, to_line,
}
use polymarket_watch_rust.Journal.Writing.{CheckpointIo, warning_of, write_checkpoint}

-- `std::fs::remove_file`
pub data Removal : Type 0 where
  removed not_found : Removal
  not_removed : String → Removal

pub record CompactIo : Type 0 where
  pub clock : Clock
  pub create : Answer ⊤
  pub lock : Answer ⊤
  pub write : Answer ⊤
  pub sync : Answer ⊤
  pub remove : Removal
  pub sync_removed : Answer ⊤
  pub rename : Answer ⊤
  pub sync_parent : Answer ⊤
  pub checkpoint : CheckpointIo

-- `metadata` gives the length of the file.
abbrev pub should_compact : Answer ⊤ → Journal → ℕ → ℕ → Result Bool
should_compact metadata j max_records max_bytes =
    if leb max_records j.next_sequence
    then ok true
    else io_result metadata >>= λ _. ok (leb max_bytes (length j.disk.log))

abbrev pub snapshot_entry : Journal → String → String → String → JournalEntry
snapshot_entry j decision_id client_order_id payload = record {
  event_kind = JournalEventKind.paper_transition;
  source_event_refs =
      append "compacted_records:" (show_ℕ j.next_sequence)
      ∷ append "compacted_root:" j.last_hash
      ∷ [];
  decision_id = decision_id;
  client_order_id = client_order_id;
  exchange_order_id = none;
  strategy_id = "paper";
  risk_result = "compacted_snapshot";
  payload = payload;
}

-- The replacement, in a temporary file: nothing of the journal has changed if it fails.
abbrev pub write_replacement : CompactIo → Result ⊤
write_replacement fs = do
  io_result fs.create
  map_err (λ error. journal (append "journal_compaction_lock_failed:" error)) fs.lock
  io_result fs.write
  io_result fs.sync

-- The checkpoint of the old log is removed before the log is replaced.
unfoldable pub remove_checkpoint : CompactIo → Disk → Result ⊤ × Disk
remove_checkpoint fs disk = elim fs.remove [
  | removed ↦ (io_result fs.sync_removed, record disk { checkpoint = none })
  | not_found ↦ (ok tt, record disk { checkpoint = none })
  | not_removed error ↦ (err (BotError.io error), disk)
]

-- After the rename: the new state, its parent synced and its checkpoint written, or a warning.
unfoldable pub install_replacement : CompactIo → JournalRecord → Bytes → Journal → Journal
unfolding write_checkpoint
install_replacement fs signed bytes j =
    let disk : Disk = record { log = bytes; checkpoint = j.disk.checkpoint } in
    let written = write_checkpoint fs.checkpoint 1 signed.record_hash disk in
    record j {
      disk = written.1;
      next_sequence = 1;
      last_hash = signed.record_hash;
      checkpoint_warning = elim written.0 [
        | err error ↦ some (to_string error)
        | ok _ ↦ warning_of (io_result fs.sync_parent)
      ];
    }

unfoldable pub replace_log : CompactIo → JournalRecord → Bytes → Journal → Result ⊤ × Journal
replace_log fs signed bytes j = elim (write_replacement fs) [
  | err error ↦ (err error, j)
  | ok _ ↦
      let cleared = remove_checkpoint fs j.disk in
      let j' = record j { disk = cleared.1 } in
      elim (cleared.0 >> io_result fs.rename) [
        | err error ↦ (err error, j')
        | ok _ ↦ (ok tt, install_replacement fs signed bytes j')
      ]
]

module _ (c : Codec) where
  -- The record and the line of the snapshot.
  unfoldable pub sign_snapshot : CompactIo → Journal → JournalEntry → Result (JournalRecord × Bytes)
  sign_snapshot fs j entry = do
    signed ← new_record c fs.clock 0 genesis_hash j.startup entry
    line ← to_line c signed
    ok (signed, line ++ 10 ∷ [])

  unfoldable pub compact_paper_history :
      CompactIo → Journal → String → String → String → Result ⊤ × Journal
  compact_paper_history fs j decision_id client_order_id payload = elim j.poisoned [
    | some reason ↦ (err (journal (append "journal_poisoned:" reason)), j)
    | none ↦ elim (sign_snapshot fs j (snapshot_entry j decision_id client_order_id payload)) [
      | err error ↦ (err error, j)
      | ok p ↦ replace_log fs p.0 p.1 j
    ]
  ]
