-- ===== src/Journal/Outcome.antt =====
-- About journal.rs: the two ways in which an append ends.
use Prim.Native.String.{◌++◌ as append}
use polymarket_watch_rust.Base.Int.{u64_max}
use polymarket_watch_rust.Base.Lists.{length, take}
use polymarket_watch_rust.Base.Outcome.{
  >>=-eq-ok, BotError, Result, Result-cases, err, journal, ok, ok_or,
}
use polymarket_watch_rust.Base.Tests.{
  Option-cases, String, [], arith, inl, inr, none, refl, ℕ, ◌++◌, ◌+◌, ◌∙◌, ◌∷◌, ◌≡◌, ◌≢◌, ◌≤◌, ◌⊎◌,
}
use polymarket_watch_rust.Journal.{
  Answer, Bytes, Codec, Journal, JournalEntry, JournalRecord, failed, got, io_result, new_record,
  to_line,
}
use polymarket_watch_rust.Journal.Appends.{IsSigned, new_record-IsSigned}
use polymarket_watch_rust.Journal.Lines.{take-length}
use polymarket_watch_rust.Journal.Writing.{
  AppendIo, Prepared, Written, append_event, commit, complete, cut, extend, poison_without_commit,
  preflight, rollback_uncommitted, write_prepared,
}
use polymarket_watch_rust.Types.{checked_add_u64}

Written-cases :
    (w : Written) → (w ≡ complete) ⊎ ((count : ℕ) × (error : String) × (w ≡ cut count error))
Written-cases complete = inl refl
Written-cases (cut count error) = inr (count, error, refl)

Answer-cases {ℓ} :
    {A : Type ℓ} (answer : Answer A)
    → ((a : A) × (answer ≡ got a)) ⊎ ((error : String) × (answer ≡ failed error))
Answer-cases (got a) = inl (a, refl)
Answer-cases (failed error) = inr (error, refl)

-- What a preflight that succeeds has prepared.
pub record IsPrepared (c : Codec) (fs : AppendIo) (j : Journal) (entry : JournalEntry)
    (p : Prepared) : Type 0 where
  pub signed : IsSigned c j.next_sequence j.last_hash j.startup entry p.signed
  pub line : Bytes
  pub printed : to_line c p.signed ≡ ok line
  pub bytes : p.bytes ≡ line ++ 10 ∷ []
  pub old_len : p.old_len ≡ length j.disk.log
  pub following : p.following ≡ j.next_sequence + 1
  pub bounded : j.next_sequence + 1 ≤ u64_max

module _ (c : Codec) (fs : AppendIo) (j : Journal) (entry : JournalEntry) where
  preflight-IsPrepared : (p : Prepared) → preflight c fs j entry ≡ ok p → IsPrepared c fs j entry p
  unfolding preflight
  preflight-IsPrepared p h =
      let (following, h_following, h1) =
        >>=-eq-ok (ok_or (checked_add_u64 j.next_sequence 1) (journal "journal_sequence_exhausted"))
          _ h in
      let (r, h_r, h2) =
        >>=-eq-ok (new_record c fs.clock j.next_sequence j.last_hash j.startup entry) _ h1 in
      let (line, h_line, h3) = >>=-eq-ok (to_line c r) _ h2 in
      let (_, _, h4) = >>=-eq-ok (io_result fs.metadata) _ h3 in
      let signed =
        new_record-IsSigned c fs.clock j.next_sequence j.last_hash j.startup entry r h_r in
      record {
        signed = grind (arith, signed, h4);
        line = line;
        printed = grind (arith, h4, h_line);
        bytes = grind (arith, h4);
        old_len = grind (arith, h4);
        following = grind (arith, h4, h_following);
        bounded = grind (arith, h_following);
      }

  -- A failure that has stopped the journal, and kept its records if the truncation works.
  pub record IsStopped (answer : Result JournalRecord × Journal) : Type 0 where
    pub refused : (x : BotError) × (answer.0 ≡ err x)
    pub stopped : answer.1.poisoned ≢ none
    pub kept : fs.set_len ≡ got tt → answer.1.disk ≡ j.disk
    pub same_sequence : answer.1.next_sequence ≡ j.next_sequence
    pub same_hash : answer.1.last_hash ≡ j.last_hash

  rollback-IsStopped :
      (p : Prepared) (error : BotError) (more : Bytes)
      → p.old_len ≡ length j.disk.log
      → IsStopped (rollback_uncommitted fs p.old_len error (extend j more))
  unfolding rollback_uncommitted
  rollback-IsStopped p error more h_len = record {
    refused = (_, refl);
    stopped = cc;
    kept = λ h. grind (arith, h, h_len, take-length j.disk.log more);
    same_sequence = refl;
    same_hash = refl;
  }

  write_prepared-outcome :
      (p : Prepared)
      → p.old_len ≡ length j.disk.log
      → (write_prepared fs p j ≡ (ok p.signed, commit fs p (extend j p.bytes)))
        ⊎ IsStopped (write_prepared fs p j)
  unfolding write_prepared
  write_prepared-outcome p h_len = elim (Written-cases fs.write) [
    | inr (count, error, h) ↦
        let same : write_prepared fs p j
            ≡ rollback_uncommitted fs p.old_len (BotError.io error)
                (extend j (take count p.bytes)) =
          grind (arith, h) in
        inr (rw same (rollback-IsStopped p (BotError.io error) (take count p.bytes) h_len))
    | inl h ↦ elim (Answer-cases fs.sync) [
      | inl (_, h_sync) ↦ inl (grind (arith, h, h_sync))
      | inr (error, h_sync) ↦
          let same : write_prepared fs p j
              ≡ rollback_uncommitted fs p.old_len (BotError.io error) (extend j p.bytes) =
            grind (arith, h, h_sync) in
          inr (rw same (rollback-IsStopped p (BotError.io error) p.bytes h_len))
    ]
  ]

  pub append_event-outcome :
      ((p : Prepared) × IsPrepared c fs j entry p
        × (append_event c fs j entry ≡ (ok p.signed, commit fs p (extend j p.bytes))))
      ⊎ IsStopped (append_event c fs j entry)
  unfolding append_event poison_without_commit
  append_event-outcome = elim (Option-cases j.poisoned) [
    | inr (reason, h) ↦
        let same : append_event c fs j entry
            ≡ (err (journal (append "journal_poisoned:" reason)), j) =
          grind (arith, h) in
        inr (
          rw same (record {
            refused = (_, refl);
            stopped = grind (arith, h);
            kept = λ _. refl;
            same_sequence = refl;
            same_hash = refl;
          }))
    | inl h ↦ elim (Result-cases (preflight c fs j entry)) [
      | inr (x, h_x) ↦
          let same : append_event c fs j entry ≡ poison_without_commit x j =
            grind (arith, h, h_x) in
          inr (
            rw same (record {
              refused = (_, refl);
              stopped = cc;
              kept = λ _. refl;
              same_sequence = refl;
              same_hash = refl;
            }))
      | inl (p, h_p) ↦
          let prepared = preflight-IsPrepared p h_p in
          let same : append_event c fs j entry ≡ write_prepared fs p j = grind (arith, h, h_p) in
          elim (write_prepared-outcome p prepared.old_len) [
            | inl done ↦ inl (p, prepared, same ∙ done)
            | inr failed_ ↦ inr (rw same failed_)
          ]
    ]
  ]
