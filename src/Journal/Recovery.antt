-- ===== src/Journal/Recovery.antt =====
-- About journal.rs: what is read back after any appends and compactions, failed ones included.
use polymarket_watch_rust.Base.Lists.{All}
use polymarket_watch_rust.Base.Outcome.{>>=-eq-ok, Result, Result-cases, err, ok}
use polymarket_watch_rust.Base.Tests.{
  List, String, [], arith, inl, inr, none, some, ⊤, ◌++◌, ◌∷◌, ◌≡◌, ◌≢◌,
}
use polymarket_watch_rust.Journal.{
  Bytes, Codec, Disk, Journal, JournalEntry, JournalRecord, JournalStartup, got,
}
use polymarket_watch_rust.Journal.Accepts.{verify_reader-accepts_iff, verify_reader-to}
use polymarket_watch_rust.Journal.Commits.{append_event-commits, append_event-fails}
use polymarket_watch_rust.Journal.Compaction.{
  CompactIo, compact_paper_history, install_replacement, replace_log, sign_snapshot, snapshot_entry,
}
use polymarket_watch_rust.Journal.Lines.{IsWhole}
use polymarket_watch_rust.Journal.Reading.{open_journal, replay_records, verify_reader}
use polymarket_watch_rust.Journal.Snapshot.{compact_paper_history_sound}
use polymarket_watch_rust.Journal.Sound.{IsFaithful, IsNamed, IsSoundJournal, IsSoundJournal-at}
use polymarket_watch_rust.Journal.Writing.{
  AppendIo, append_event, checkpoint_committed, poison_without_commit, rollback_uncommitted,
  write_prepared,
}

-- An operation on a journal, with the outcomes of its file operations.
pub data Operation : Type 0 where
  append : AppendIo → JournalEntry → Operation
  compact : CompactIo → String → String → String → Operation

-- A journal, with the records that it has reported as committed.
pub record Ledger : Type 0 where
  pub journal_ : Journal
  pub committed : List JournalRecord

-- The records after an append that gave this answer.
abbrev pub committed_after : List JournalRecord → Result JournalRecord → List JournalRecord
committed_after records (ok r) = records ++ r ∷ []
committed_after records (err x) = records

module _ (c : Codec) where
  -- The record of a snapshot that was signed.
  abbrev pub snapshot_after :
      List JournalRecord → Result ⊤ → Result (JournalRecord × Bytes) → List JournalRecord
  snapshot_after records (ok _) (ok signed) = signed.0 ∷ []
  snapshot_after records _ _ = records

  unfoldable pub perform : Operation → Ledger → Ledger
  perform (append fs entry) l =
      let answer = append_event c fs l.journal_ entry in
      record { journal_ = answer.1; committed = committed_after l.committed answer.0 }
  perform (compact fs decision_id client_order_id payload) l =
      let answer = compact_paper_history c fs l.journal_ decision_id client_order_id payload in
      record {
        journal_ = answer.1;
        committed = snapshot_after l.committed answer.0 (
            sign_snapshot c fs l.journal_
              (snapshot_entry l.journal_ decision_id client_order_id payload));
      }

  unfoldable pub perform_all : List Operation → Ledger → Ledger
  perform_all [] l = l
  perform_all (o ∷ os) l = perform_all os (perform o l)

  -- The client order has a name, and a file that is to be cut back is cut back.
  abbrev pub IsRecoverable : Operation → Type 0
  IsRecoverable (append fs entry) = (entry.client_order_id ≢ "") × (fs.set_len ≡ got tt)
  IsRecoverable (compact fs decision_id client_order_id payload) = client_order_id ≢ ""

  pub append_event-startup :
      (fs : AppendIo) (j : Journal) (entry : JournalEntry)
      → (append_event c fs j entry).1.startup ≡ j.startup
  unfolding append_event write_prepared poison_without_commit rollback_uncommitted
      checkpoint_committed
  append_event-startup fs j entry = ground arith

  compact_paper_history-startup :
      (fs : CompactIo) (j : Journal) (decision_id client_order_id payload : String)
      → (compact_paper_history c fs j decision_id client_order_id payload).1.startup ≡ j.startup
  unfolding compact_paper_history replace_log install_replacement
  compact_paper_history-startup fs j decision_id client_order_id payload = ground arith

  perform-startup :
      (o : Operation) (l : Ledger) → (perform o l).journal_.startup ≡ l.journal_.startup
  unfolding perform
  perform-startup (append fs entry) l = append_event-startup fs l.journal_ entry
  perform-startup (compact fs decision_id client_order_id payload) l =
      compact_paper_history-startup fs l.journal_ decision_id client_order_id payload

  pub perform-IsSoundJournal :
      (o : Operation) (l : Ledger)
      → IsFaithful c
      → IsNamed l.journal_.startup
      → IsRecoverable o
      → IsSoundJournal c l.journal_ l.committed
      → IsSoundJournal c (perform o l).journal_ (perform o l).committed
  unfolding perform
  perform-IsSoundJournal (append fs entry) l faithful named h sound =
      elim (Result-cases (append_event c fs l.journal_ entry).0) [
        | inl (r, h_r) ↦
            rw h_r (
              append_event-commits c fs l.journal_ entry l.committed sound r faithful named h.0 h_r)
        | inr (x, h_x) ↦
            rw h_x (append_event-fails c fs l.journal_ entry l.committed sound x h.1 h_x).0
      ]
  perform-IsSoundJournal (compact fs decision_id client_order_id payload) l faithful named h sound =
      elim (compact_paper_history_sound c fs l.journal_ decision_id client_order_id payload
        l.committed faithful named h sound) [
          | inl (finished, p, h_p, _, s) ↦ rw (finished, h_p) s
          | inr (x, failed_, s) ↦ rw failed_ s
        ]

  pub perform_all-IsSoundJournal :
      (os : List Operation) (l : Ledger)
      → IsFaithful c
      → IsNamed l.journal_.startup
      → All IsRecoverable os
      → IsSoundJournal c l.journal_ l.committed
      → IsSoundJournal c (perform_all os l).journal_ (perform_all os l).committed
  unfolding perform_all
  perform_all-IsSoundJournal [] l faithful named h sound = sound
  perform_all-IsSoundJournal (o ∷ os) l faithful named h sound =
      perform_all-IsSoundJournal os (perform o l) faithful (rw (perform-startup o l) named) h.1
        (perform-IsSoundJournal o l faithful named h.0 sound)

  -- Whatever sequence of appends and compactions a sound journal has performed, each of which
  -- may have failed at any of its file operations, opening its files again gives its sequence
  -- number and its last hash, and replaying them gives exactly the committed records: those
  -- whose append returned a record, or the snapshot after a compaction that succeeded. The
  -- codec reads back what it prints, no name is empty, a file that has to be cut back is cut
  -- back, and the calls that open and read the files succeed.
  pub recovery :
      (os : List Operation) (l : Ledger) (startup : JournalStartup)
      → IsFaithful c
      → IsNamed l.journal_.startup
      → All IsRecoverable os
      → IsSoundJournal c l.journal_ l.committed
      → (open_journal c (got tt) (got tt) (got tt) (got tt) (perform_all os l).journal_.disk startup
          ≡ ok (record {
            startup = startup;
            disk = (perform_all os l).journal_.disk;
            next_sequence = (perform_all os l).journal_.next_sequence;
            last_hash = (perform_all os l).journal_.last_hash;
            poisoned = none;
            checkpoint_warning = none;
          }))
        × (replay_records c
              (got tt)
              (got tt)
              (got tt)
              (got tt)
              (some (perform_all os l).journal_.disk)
            ≡ ok (perform_all os l).committed)
  unfolding open_journal replay_records
  recovery os l startup faithful named h sound =
      let s = perform_all-IsSoundJournal os l faithful named h sound in
      let verified =
        verify_reader-to c (perform_all os l).journal_.disk (perform_all os l).committed
          s.accepted in
      (grind (arith, verified, s.at_sequence, s.at_hash), grind (arith, verified, s.accepted.read))

  -- A journal that has been opened, whose log ends in a line feed, stands at the end of its records.
  pub open_journal-IsSoundJournal :
      (disk : Disk) (startup : JournalStartup) (j : Journal)
      → IsWhole disk.log
      → open_journal c (got tt) (got tt) (got tt) (got tt) disk startup ≡ ok j
      → (records : List JournalRecord) × IsSoundJournal c j records
  unfolding open_journal
  open_journal-IsSoundJournal disk startup j whole h =
      let (v, h_v, h_j) = >>=-eq-ok (verify_reader c (got tt) disk) _ h in
      let (records, accepted, summary) = (verify_reader-accepts_iff c disk v).0 h_v in
      (
        records,
        IsSoundJournal-at c j disk records (grind (arith, h_j)) whole accepted
            (grind (arith, h_j, summary)) (grind (arith, h_j, summary)),
      )
