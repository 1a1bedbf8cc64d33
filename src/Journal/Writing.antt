-- ===== src/Journal/Writing.antt =====
-- About journal.rs: appending a record. The outcome of each call of the file system is an input;
-- what a failed call left in the file stays in it.
use Prim.Native.String.{◌++◌ as append}
use polymarket_watch_rust.Base.Lists.{length, take}
use polymarket_watch_rust.Base.Outcome.{
  BotError, Result, err, journal, ok, ok_or, to_string, ◌>>=◌, ◌>>◌,
}
use polymarket_watch_rust.Base.Tests.{
  List, Option, String, [], if◌then◌else◌, none, some, ℕ, ⊤, ◌++◌, ◌∷◌,
}
use polymarket_watch_rust.Journal.{
  Answer, Bytes, Clock, Codec, Disk, Journal, JournalEntry, JournalEventKind, JournalRecord, failed,
  got, io_result, is_write_ahead, map_err, new_record, to_line,
}
use polymarket_watch_rust.Types.{checked_add_u64}

-- The calls of `write_checkpoint`, in order. The checkpoint that has been renamed into place is read
-- as it was written.
pub record CheckpointIo : Type 0 where
  pub create_dir : Answer ⊤
  pub create : Answer ⊤
  pub serialize : Answer ⊤
  pub newline : Answer ⊤
  pub sync : Answer ⊤
  pub rename : Answer ⊤
  pub sync_parent : Answer ⊤

-- `write_all` writes everything, or fails after some bytes.
pub data Written : Type 0 where
  complete : Written
  cut : ℕ → String → Written

pub record AppendIo : Type 0 where
  pub clock : Clock
  pub metadata : Answer ⊤
  pub write : Written
  pub sync : Answer ⊤
  pub set_len : Answer ⊤
  pub seek_end : Answer ⊤
  pub sync_rollback : Answer ⊤
  pub checkpoint : CheckpointIo

abbrev pub prepare_checkpoint : CheckpointIo → Result ⊤
prepare_checkpoint fs = do
  io_result fs.create_dir
  io_result fs.create
  map_err (λ error. journal (append "checkpoint_serialize:" error)) fs.serialize
  io_result fs.newline
  io_result fs.sync
  io_result fs.rename

unfoldable pub write_checkpoint : CheckpointIo → ℕ → String → Disk → Result ⊤ × Disk
write_checkpoint fs next_sequence last_hash disk = elim (prepare_checkpoint fs) [
  | err error ↦ (err error, disk)
  | ok _ ↦ (
    io_result fs.sync_parent,
    record disk {
      checkpoint = some (ok (record { next_sequence = next_sequence; last_hash = last_hash }));
    },
  )
]

abbrev pub warning_of : Result ⊤ → Option String
warning_of (ok _) = none
warning_of (err error) = some (to_string error)

-- `self.write_checkpoint()` after a commit: a failure is only a warning.
unfoldable pub checkpoint_committed : CheckpointIo → Journal → Journal
unfolding write_checkpoint
checkpoint_committed fs j =
    let written = write_checkpoint fs j.next_sequence j.last_hash j.disk in
    record j { disk = written.1; checkpoint_warning = warning_of written.0 }

abbrev note_maintenance_warning : String → Journal → Journal
note_maintenance_warning warning j = record j { checkpoint_warning = some warning }

-- The method `write_checkpoint`, of the state that is committed.
abbrev write_own_checkpoint : CheckpointIo → Journal → Result ⊤ × Journal
write_own_checkpoint fs j =
    let written = write_checkpoint fs j.next_sequence j.last_hash j.disk in
    (written.0, record j { disk = written.1 })

abbrev pub poisoned_error : String → BotError
poisoned_error reason = journal (append "journal_append_failed_and_poisoned:" reason)

unfoldable pub poison_without_commit : {A : Type 0} → BotError → Journal → Result A × Journal
poison_without_commit error j =
    (err (poisoned_error (to_string error)), record j { poisoned = some (to_string error) })

abbrev pub truncated : AppendIo → ℕ → Disk → Disk
truncated fs old_len disk = elim fs.set_len [
  | failed _ ↦ disk
  | got _ ↦ record disk { log = take old_len disk.log }
]

abbrev pub rollback_answer : AppendIo → Answer ⊤
rollback_answer fs = elim fs.set_len [
  | failed error ↦ failed error
  | got _ ↦ elim fs.seek_end [ failed error ↦ failed error | got _ ↦ fs.sync_rollback ]
]

abbrev pub rollback_reason : BotError → Answer ⊤ → String
rollback_reason error (got _) = append (to_string error) ";append_rolled_back"
rollback_reason error (failed rollback_error) =
    append (to_string error) (append ";rollback_failed:" rollback_error)

unfoldable pub rollback_uncommitted :
    {A : Type 0} → AppendIo → ℕ → BotError → Journal → Result A × Journal
rollback_uncommitted fs old_len error j =
    let reason = rollback_reason error (rollback_answer fs) in
    (
      err (poisoned_error reason),
      record j { disk = truncated fs old_len j.disk; poisoned = some reason },
    )

-- What the closure `preflight` returns.
pub record Prepared : Type 0 where
  pub signed : JournalRecord
  pub bytes : Bytes
  pub old_len : ℕ
  pub following : ℕ

abbrev pub extend : Journal → Bytes → Journal
extend j bytes = record j { disk = record j.disk { log = j.disk.log ++ bytes } }

abbrev pub commit : AppendIo → Prepared → Journal → Journal
commit fs p j =
    checkpoint_committed fs.checkpoint
      (record j { next_sequence = p.following; last_hash = p.signed.record_hash })

-- After the preflight: the write, the sync, and the commit.
unfoldable pub write_prepared : AppendIo → Prepared → Journal → Result JournalRecord × Journal
unfolding rollback_uncommitted
write_prepared fs p j = elim fs.write [
  | cut count error ↦
      rollback_uncommitted fs p.old_len (BotError.io error) (extend j (take count p.bytes))
  | complete ↦ elim fs.sync [
    | failed error ↦ rollback_uncommitted fs p.old_len (BotError.io error) (extend j p.bytes)
    | got _ ↦ (ok p.signed, commit fs p (extend j p.bytes))
  ]
]

module _ (c : Codec) where
  unfoldable pub preflight : AppendIo → Journal → JournalEntry → Result Prepared
  preflight fs j entry = do
    following ← ok_or (checked_add_u64 j.next_sequence 1) (journal "journal_sequence_exhausted")
    signed ← new_record c fs.clock j.next_sequence j.last_hash j.startup entry
    line ← to_line c signed
    io_result fs.metadata
    ok (record {
      signed = signed;
      bytes = line ++ 10 ∷ [];
      old_len = length j.disk.log;
      following = following;
    })

  unfoldable pub append_event : AppendIo → Journal → JournalEntry → Result JournalRecord × Journal
  append_event fs j entry = elim j.poisoned [
    | some reason ↦ (err (journal (append "journal_poisoned:" reason)), j)
    | none ↦ elim (preflight fs j entry) [
      | err error ↦ poison_without_commit error j
      | ok p ↦ write_prepared fs p j
    ]
  ]

  unfoldable pub append_write_ahead_with_sources :
      AppendIo
      → Journal
      → String
      → String
      → String
      → String
      → String
      → List String
      → Result JournalRecord × Journal
  append_write_ahead_with_sources fs j decision_id client_order_id strategy_id risk_result payload
        sources =
      append_event fs j (record {
        event_kind = JournalEventKind.write_ahead;
        source_event_refs = sources;
        decision_id = decision_id;
        client_order_id = client_order_id;
        exchange_order_id = none;
        strategy_id = strategy_id;
        risk_result = risk_result;
        payload = payload;
      })

  unfoldable pub append_write_ahead :
      AppendIo
      → Journal
      → String
      → String
      → String
      → String
      → String
      → Result JournalRecord × Journal
  append_write_ahead fs j decision_id client_order_id strategy_id risk_result payload =
      append_write_ahead_with_sources fs j decision_id client_order_id strategy_id risk_result
        payload []

  unfoldable pub append_lifecycle :
      AppendIo
      → Journal
      → JournalEventKind
      → String
      → String
      → Option String
      → String
      → String
      → String
      → Result JournalRecord × Journal
  append_lifecycle fs j kind decision_id client_order_id exchange_order_id strategy_id result
        payload =
      if is_write_ahead kind
      then (err (journal "use_append_write_ahead_for_pre_submit_records"), j)
      else append_event fs j (record {
        event_kind = kind;
        source_event_refs = [];
        decision_id = decision_id;
        client_order_id = client_order_id;
        exchange_order_id = exchange_order_id;
        strategy_id = strategy_id;
        risk_result = result;
        payload = payload;
      })
