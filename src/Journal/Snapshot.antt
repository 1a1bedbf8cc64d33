-- ===== src/Journal/Snapshot.antt =====
-- About journal.rs: a compaction leaves the one record of its snapshot, or the records that there were.
use Prim.Native.String.{◌++◌ as append}
use polymarket_watch_rust.Base.Outcome.{>>=-eq-ok, BotError, Result-cases, err, journal, ok, ◌>>◌}
use polymarket_watch_rust.Base.Tests.{
  List, Option-cases, String, [], arith, inl, inr, none, refl, subst, ◌++◌, ◌∷◌, ◌≡◌, ◌≢◌, ◌⊎◌,
}
use polymarket_watch_rust.Journal.{
  Bytes, Codec, Disk, Journal, JournalRecord, genesis_hash, io_result, new_record, to_line,
}
use polymarket_watch_rust.Journal.Accepts.{IsAccepted}
use polymarket_watch_rust.Journal.Appends.{IsSigned, new_record-IsSigned, read_line-signed}
use polymarket_watch_rust.Journal.Compaction.{
  CompactIo, Removal, compact_paper_history, install_replacement, not_found, not_removed,
  remove_checkpoint, removed, replace_log, sign_snapshot, snapshot_entry, write_replacement,
}
use polymarket_watch_rust.Journal.Lines.{IsWhole-append}
use polymarket_watch_rust.Journal.Reading.{lines, read_checkpoint, read_records}
use polymarket_watch_rust.Journal.Sound.{
  IsAccepted-append, IsFaithful, IsNamed, IsSoundJournal, IsSoundJournal-at,
  checkpoint_committed-IsSoundJournal,
}
use polymarket_watch_rust.Journal.Writing.{checkpoint_committed}

Removal-cases :
    (removal : Removal)
    → ((removal ≡ removed) ⊎ (removal ≡ not_found))
      ⊎ ((error : String) × (removal ≡ not_removed error))
Removal-cases removed = inl (inl refl)
Removal-cases not_found = inl (inr refl)
Removal-cases (not_removed error) = inr (error, refl)

-- A log without records.

abbrev pub bare : Disk
bare = record { log = []; checkpoint = none }

module _ (c : Codec) where
  pub IsAccepted-bare : IsAccepted c bare []
  unfolding read_records lines read_checkpoint
  IsAccepted-bare = record {
    read = refl;
    chained = tt;
    bounded = omega arith;
    checkpoint = none;
    checkpoint_read = refl;
    marked = tt;
  }

  IsAccepted-unmarked :
      (disk : Disk) (records : List JournalRecord)
      → IsAccepted c disk records
      → IsAccepted c (record disk { checkpoint = none }) records
  unfolding read_checkpoint
  IsAccepted-unmarked disk records h = record {
    read = h.read;
    chained = h.chained;
    bounded = h.bounded;
    checkpoint = none;
    checkpoint_read = refl;
    marked = tt;
  }

module _ (c : Codec) (fs : CompactIo) (j : Journal) (decision_id client_order_id payload : String)
    (records : List JournalRecord) where
  install-IsSoundJournal :
      (r : JournalRecord) (line : Bytes) (j' : Journal)
      → IsFaithful c
      → IsNamed j.startup
      → client_order_id ≢ ""
      → IsSigned c 0 genesis_hash j.startup (snapshot_entry j decision_id client_order_id payload) r
      → to_line c r ≡ ok line
      → j'.disk.checkpoint ≡ none
      → IsSoundJournal c (install_replacement fs r (line ++ 10 ∷ []) j') (r ∷ [])
  unfolding install_replacement checkpoint_committed
  install-IsSoundJournal r line j' faithful named h_client signed h_line bare_ =
      let (read, plain) =
        read_line-signed c 0 genesis_hash j.startup
          (snapshot_entry j decision_id client_order_id payload) r line faithful named h_client
          signed h_line in
      let accepted =
        IsAccepted-append c bare line [] r (IsAccepted-bare c) tt plain read signed.numbered
          signed.linked (omega arith) in
      let replaced : Journal = record j' {
        disk = record { log = line ++ 10 ∷ []; checkpoint = j'.disk.checkpoint };
        next_sequence = 1;
        last_hash = r.record_hash;
      } in
      let sound = checkpoint_committed-IsSoundJournal c fs.checkpoint replaced (r ∷ []) (
        IsSoundJournal-at c replaced _ (r ∷ []) (grind (arith, bare_)) (IsWhole-append [] line)
          accepted refl refl) in
      IsSoundJournal-at c _ (checkpoint_committed fs.checkpoint replaced).disk (r ∷ []) refl
        sound.whole sound.accepted refl refl

  -- The checkpoint is removed, or there is an error and it may still be there.
  remove_checkpoint-IsAccepted :
      IsAccepted c j.disk records
      → IsAccepted c (remove_checkpoint fs j.disk).1 records
        × ((remove_checkpoint fs j.disk).1.log ≡ j.disk.log)
        × (((remove_checkpoint fs j.disk).0 ≡ ok tt)
            → (remove_checkpoint fs j.disk).1.checkpoint ≡ none)
  unfolding remove_checkpoint
  remove_checkpoint-IsAccepted h = elim (Removal-cases fs.remove) [
    | inl there ↦
        let same : (remove_checkpoint fs j.disk).1 ≡ record j.disk { checkpoint = none } =
          grind (arith, there) in
        (rw same (IsAccepted-unmarked c j.disk records h), rw same refl, λ _. rw same refl)
    | inr (error, wrong) ↦
        let same : remove_checkpoint fs j.disk ≡ (err (BotError.io error), j.disk) =
          grind (arith, wrong) in
        (rw same h, rw same refl, λ done. absurd (grind (arith, same, done)))
  ]

  replace_log-IsSoundJournal :
      (r : JournalRecord) (line : Bytes)
      → IsFaithful c
      → IsNamed j.startup
      → client_order_id ≢ ""
      → IsSigned c 0 genesis_hash j.startup (snapshot_entry j decision_id client_order_id payload) r
      → to_line c r ≡ ok line
      → IsSoundJournal c j records
      → (((replace_log fs r (line ++ 10 ∷ []) j).0 ≡ ok tt)
          × IsSoundJournal c (replace_log fs r (line ++ 10 ∷ []) j).1 (r ∷ []))
        ⊎ ((x : BotError) × ((replace_log fs r (line ++ 10 ∷ []) j).0 ≡ err x)
            × IsSoundJournal c (replace_log fs r (line ++ 10 ∷ []) j).1 records)
  unfolding replace_log
  replace_log-IsSoundJournal r line faithful named h_client signed h_line sound =
      let cleared = remove_checkpoint fs j.disk in
      let kept = remove_checkpoint-IsAccepted sound.accepted in
      elim (Result-cases (write_replacement fs)) [
        | inr (x, h) ↦
            let same : replace_log fs r (line ++ 10 ∷ []) j ≡ (err x, j) = grind (arith, h) in
            inr (x, rw same refl, rw same sound)
        | inl (_, h) ↦ elim (Result-cases (cleared.0 >> io_result fs.rename)) [
          | inr (x, h_x) ↦
              let same : replace_log fs r (line ++ 10 ∷ []) j
                  ≡ (err x, record j { disk = cleared.1 }) =
                grind (arith, h, h_x) in
              inr (
                x,
                rw same refl,
                rw same (
                    IsSoundJournal-at c (record j { disk = cleared.1 }) cleared.1 records refl
                      (rw kept.1 sound.whole) kept.0 sound.at_sequence sound.at_hash),
              )
          | inl (_, h_ok) ↦
              let same : replace_log fs r (line ++ 10 ∷ []) j ≡ (
                ok tt,
                install_replacement fs r (line ++ 10 ∷ []) (record j { disk = cleared.1 }),
              ) =
                grind (arith, h, h_ok) in
              let (_, h_cleared, _) = >>=-eq-ok cleared.0 (λ _. io_result fs.rename) h_ok in
              inl (
                rw same refl,
                rw same (
                    install-IsSoundJournal r line (record j { disk = cleared.1 }) faithful named
                      h_client signed h_line (kept.2 h_cleared)),
              )
        ]
      ]

  -- Compaction of a sound journal either succeeds, and the files hold exactly the snapshot's
  -- record, which carries its payload, or fails, and they hold exactly the earlier records; in
  -- both cases they verify, wherever the file operations failed. The codec reads back what it
  -- prints, and the names are not empty.
  pub compact_paper_history_sound :
      IsFaithful c
      → IsNamed j.startup
      → client_order_id ≢ ""
      → IsSoundJournal c j records
      → (((compact_paper_history c fs j decision_id client_order_id payload).0 ≡ ok tt)
          × (p : JournalRecord × Bytes) × (sign_snapshot c fs j
                (snapshot_entry j decision_id client_order_id payload)
              ≡ ok p)
          × (p.0.payload ≡ payload)
          × IsSoundJournal c
              (compact_paper_history c fs j decision_id client_order_id payload).1
              (p.0 ∷ []))
        ⊎ ((x : BotError) × ((compact_paper_history c fs j decision_id client_order_id payload).0
              ≡ err x)
            × IsSoundJournal c
                (compact_paper_history c fs j decision_id client_order_id payload).1
                records)
  unfolding compact_paper_history sign_snapshot
  compact_paper_history_sound faithful named h_client sound = elim (Option-cases j.poisoned) [
    | inr (reason, h) ↦
        let same : compact_paper_history c fs j decision_id client_order_id payload
            ≡ (err (journal (append "journal_poisoned:" reason)), j) =
          grind (arith, h) in
        inr (journal (append "journal_poisoned:" reason), rw same refl, rw same sound)
    | inl h ↦
        elim (Result-cases
          (sign_snapshot c fs j (snapshot_entry j decision_id client_order_id payload))) [
            | inr (x, h_x) ↦
                let same : compact_paper_history c fs j decision_id client_order_id payload
                    ≡ (err x, j) =
                  grind (arith, h, h_x) in
                inr (x, rw same refl, rw same sound)
            | inl (p, h_p) ↦
                let (r, h_r, h1) =
                  >>=-eq-ok
                    (new_record c fs.clock 0 genesis_hash j.startup
                      (snapshot_entry j decision_id client_order_id payload))
                    _ h_p in
                let (line, h_line, h2) = >>=-eq-ok (to_line c r) _ h1 in
                let signed =
                  new_record-IsSigned c fs.clock 0 genesis_hash j.startup
                    (snapshot_entry j decision_id client_order_id payload) r h_r in
                let same : compact_paper_history c fs j decision_id client_order_id payload
                    ≡ replace_log fs r (line ++ 10 ∷ []) j =
                  grind (arith, h, h_p, h2) in
                elim (replace_log-IsSoundJournal r line faithful named h_client signed h_line
                  sound) [
                    | inl (finished, s) ↦ inl (
                      rw same finished,
                      p,
                      h_p,
                      grind (arith, signed.carries, h2),
                      rw same (
                          subst
                            (λ q.
                              IsSoundJournal c (replace_log fs r (line ++ 10 ∷ []) j).1 (q ∷ []))
                            (grind (arith, h2)) s),
                    )
                    | inr (x, failed_, s) ↦ inr (x, rw same failed_, rw same s)
                  ]
          ]
  ]
