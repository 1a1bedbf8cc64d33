-- ===== src/Journal/Commits.antt =====
-- About journal.rs: an append adds its record to those that the files hold, or leaves them as they
-- were and stops the journal.
use polymarket_watch_rust.Base.Int.{u64_max}
use polymarket_watch_rust.Base.Lists.{length, length-append}
use polymarket_watch_rust.Base.Outcome.{BotError, Result-cases, err, ok}
use polymarket_watch_rust.Base.Tests.{
  List, [], arith, inl, inr, none, refl, sym, ◌++◌, ◌+◌, ◌∙◌, ◌∷◌, ◌≡◌, ◌≢◌, ◌≤◌,
}
use polymarket_watch_rust.Journal.{
  Bytes, Codec, Journal, JournalEntry, JournalRecord, genesis_hash, got, new_record, to_line,
}
use polymarket_watch_rust.Journal.Appends.{IsSigned, read_line-signed}
use polymarket_watch_rust.Journal.Lines.{IsWhole-append}
use polymarket_watch_rust.Journal.Outcome.{IsPrepared, append_event-outcome}
use polymarket_watch_rust.Journal.Sound.{
  IsAccepted-append, IsFaithful, IsNamed, IsSoundJournal, IsSoundJournal-at,
  checkpoint_committed-IsSoundJournal, head_hash-append,
}
use polymarket_watch_rust.Journal.Writing.{
  AppendIo, Prepared, append_event, checkpoint_committed, commit, complete, extend, preflight,
  prepare_checkpoint, write_checkpoint, write_prepared,
}

module _ (c : Codec) (fs : AppendIo) (j : Journal) (entry : JournalEntry)
    (records : List JournalRecord) (sound : IsSoundJournal c j records) where
  commit-IsSoundJournal :
      (p : Prepared)
      → IsFaithful c
      → IsNamed j.startup
      → entry.client_order_id ≢ ""
      → IsPrepared c fs j entry p
      → IsSoundJournal c (commit fs p (extend j p.bytes)) (records ++ p.signed ∷ [])
  commit-IsSoundJournal p faithful named h_client h =
      let (read, plain) =
        read_line-signed c j.next_sequence j.last_hash j.startup entry p.signed h.line faithful
          named h_client h.signed h.printed in
      let accepted =
        IsAccepted-append c j.disk h.line records p.signed sound.accepted sound.whole plain read
          (h.signed.numbered ∙ sound.at_sequence) (h.signed.linked ∙ sound.at_hash)
          (omega (arith, h.bounded, sound.at_sequence)) in
      checkpoint_committed-IsSoundJournal c fs.checkpoint _ (records ++ p.signed ∷ []) (
        IsSoundJournal-at c _ (record j.disk { log = j.disk.log ++ (h.line ++ 10 ∷ []) })
          (records ++ p.signed ∷ []) (grind (arith, h.bytes)) (IsWhole-append j.disk.log h.line)
          accepted
          (omega (arith, h.following, sound.at_sequence, length-append records (p.signed ∷ [])))
          (sym (head_hash-append genesis_hash records p.signed)))

  -- When an append to a sound journal returns a record, the files hold the earlier records and
  -- that record, they verify, and the journal stands at their end; the codec reads back what it
  -- prints, and the names are not empty.
  pub append_event-commits :
      (r : JournalRecord)
      → IsFaithful c
      → IsNamed j.startup
      → entry.client_order_id ≢ ""
      → (append_event c fs j entry).0 ≡ ok r
      → IsSoundJournal c (append_event c fs j entry).1 (records ++ r ∷ [])
  append_event-commits r faithful named h_client h = elim (append_event-outcome c fs j entry) [
    | inl (p, prepared, done) ↦
        let same : p.signed ≡ r = grind (arith, done, h) in
        rw (done, ← same) (commit-IsSoundJournal p faithful named h_client prepared)
    | inr stopped ↦ absurd (grind (arith, h, stopped.refused.1))
  ]

  -- When an append to a sound journal fails, the files hold exactly the earlier records, and
  -- the journal is poisoned, so that it takes no further append; a file that has to be cut back
  -- is cut back.
  pub append_event-fails :
      (x : BotError)
      → fs.set_len ≡ got tt
      → (append_event c fs j entry).0 ≡ err x
      → IsSoundJournal c (append_event c fs j entry).1 records
        × ((append_event c fs j entry).1.poisoned ≢ none)
  append_event-fails x h_len h = elim (append_event-outcome c fs j entry) [
    | inl (p, prepared, done) ↦ absurd (grind (arith, h, done))
    | inr s ↦ (
      IsSoundJournal-at c _ j.disk records (s.kept h_len) sound.whole sound.accepted
          (s.same_sequence ∙ sound.at_sequence) (s.same_hash ∙ sound.at_hash),
      s.stopped,
    )
  ]

-- A record that an append returns is signed for the place where the journal stood.
pub append_event-IsSigned :
    (c : Codec) (fs : AppendIo) (j : Journal) (entry : JournalEntry) (r : JournalRecord)
    → (append_event c fs j entry).0 ≡ ok r
    → IsSigned c j.next_sequence j.last_hash j.startup entry r
append_event-IsSigned c fs j entry r h = elim (append_event-outcome c fs j entry) [
  | inl (p, prepared, done) ↦
      let same : p.signed ≡ r = grind (arith, done, h) in rw (← same) prepared.signed
  | inr stopped ↦ absurd (grind (arith, h, stopped.refused.1))
]

-- Nothing stands in the way of a commit: the record can be made and printed, its number is not the
-- last one, and the log can be measured, written and synced.
pub record IsReady (c : Codec) (fs : AppendIo) (j : Journal) (entry : JournalEntry) : Type 0 where
  pub unpoisoned : j.poisoned ≡ none
  pub numbered : j.next_sequence + 1 ≤ u64_max
  pub made : JournalRecord
  pub signed : new_record c fs.clock j.next_sequence j.last_hash j.startup entry ≡ ok made
  pub line : Bytes
  pub printed : to_line c made ≡ ok line
  pub measured : fs.metadata ≡ got tt
  pub written : fs.write ≡ complete
  pub synced : fs.sync ≡ got tt

-- A journal that is not poisoned, whose number can grow, whose entry can be hashed and printed,
-- and whose file operations on the log succeed, appends: it returns the record, writes its line
-- behind the log, and moves to its number and its hash, whatever becomes of the checkpoint.
pub append_event-ready :
    (c : Codec) (fs : AppendIo) (j : Journal) (entry : JournalEntry) (h : IsReady c fs j entry)
    → ((append_event c fs j entry).0 ≡ ok h.made)
      × ((append_event c fs j entry).1.poisoned ≡ none)
      × ((append_event c fs j entry).1.next_sequence ≡ j.next_sequence + 1)
      × ((append_event c fs j entry).1.last_hash ≡ h.made.record_hash)
      × ((append_event c fs j entry).1.disk.log ≡ j.disk.log ++ (h.line ++ 10 ∷ []))
unfolding append_event preflight write_prepared checkpoint_committed write_checkpoint
append_event-ready c fs j entry h =
    let prepared : preflight c fs j entry
        ≡ ok (record {
          signed = h.made;
          bytes = h.line ++ 10 ∷ [];
          old_len = length j.disk.log;
          following = j.next_sequence + 1;
        }) =
      grind (arith, h.numbered, h.signed, h.printed, h.measured) in
    let done : append_event c fs j entry ≡ (
      ok h.made,
      commit fs
          (record {
            signed = h.made;
            bytes = h.line ++ 10 ∷ [];
            old_len = length j.disk.log;
            following = j.next_sequence + 1;
          })
          (extend j (h.line ++ 10 ∷ [])),
    ) =
      grind (arith, prepared, h.unpoisoned, h.written, h.synced) in
    (
      rw done refl,
      rw done h.unpoisoned,
      rw done refl,
      rw done refl,
      elim (Result-cases (prepare_checkpoint fs.checkpoint)) [
        | inl (_, fine) ↦ grind (arith, done, fine)
        | inr (x, wrong) ↦ grind (arith, done, wrong)
      ],
    )
