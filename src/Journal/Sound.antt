-- ===== src/Journal/Sound.antt =====
-- About journal.rs: a journal and the records that its files hold.
use polymarket_watch_rust.Base.Int.{u64_max}
use polymarket_watch_rust.Base.Lists.{get_elem?, length, length-append}
use polymarket_watch_rust.Base.Outcome.{>>=-eq-ok, Result-cases, ok, ◌>>=◌}
use polymarket_watch_rust.Base.Tests.{
  List, Option, String, [], arith, false, inl, inr, none, refl, some, suc, zero, ℕ, ◌++◌, ◌+◌, ◌∷◌,
  ◌≡◌, ◌≢◌, ◌≤◌,
}
use polymarket_watch_rust.Journal.{
  Bytes, Codec, Disk, Journal, JournalCheckpoint, JournalRecord, JournalStartup, genesis_hash, got,
}
use polymarket_watch_rust.Journal.Accepts.{IsAccepted}
use polymarket_watch_rust.Journal.Chain.{IsChain, IsMarked, head_hash}
use polymarket_watch_rust.Journal.Lines.{IsOneLine, IsWhole, lines-append, lines-line}
use polymarket_watch_rust.Journal.Reading.{
  is_blank, lines, read_checkpoint, read_line, read_records,
}
use polymarket_watch_rust.Journal.Writing.{
  CheckpointIo, checkpoint_committed, prepare_checkpoint, write_checkpoint,
}

-- What the program relies on of serde_json and UTF-8: a record that has been printed is parsed as
-- it was, and its line is text that is not blank and holds no line breaks.
pub record IsFaithful (c : Codec) : Type 0 where
  pub reads_back :
      (r : JournalRecord) (line : Bytes)
      → c.record_to_string r ≡ got line
      → c.record_from_str line ≡ got r
  pub plain : (r : JournalRecord) (line : Bytes) → c.record_to_string r ≡ got line → IsOneLine line
  pub decodes :
      (r : JournalRecord) (line : Bytes)
      → c.record_to_string r ≡ got line
      → (text : List ℕ) × (c.utf8 line ≡ got text) × (is_blank text ≡ false)

-- The fields that `from_line` requires.
pub record IsNamed (startup : JournalStartup) : Type 0 where
  pub process : startup.process_startup_id ≢ ""
  pub config_hashed : startup.config_hash ≢ ""
  pub binary_hashed : startup.binary_hash ≢ ""

-- The files hold these records, and the journal stands at their end.
pub record IsSoundJournal (c : Codec) (j : Journal) (records : List JournalRecord) : Type 0 where
  pub whole : IsWhole j.disk.log
  pub accepted : IsAccepted c j.disk records
  pub at_sequence : j.next_sequence ≡ length records
  pub at_hash : j.last_hash ≡ head_hash genesis_hash records

IsChain-append :
    (sequence : ℕ) (previous : String) (rs : List JournalRecord) (r : JournalRecord)
    → IsChain sequence previous rs
    → r.monotonic_sequence ≡ sequence + length rs
    → r.previous_record_hash ≡ head_hash previous rs
    → IsChain sequence previous (rs ++ r ∷ [])
IsChain-append sequence previous [] r h h_sequence h_previous =
    (omega (arith, h_sequence), h_previous, tt)
IsChain-append sequence previous (x ∷ rs) r h h_sequence h_previous = (
  h.0,
  h.1,
  IsChain-append (sequence + 1) x.record_hash rs r h.2 (omega (arith, h_sequence)) h_previous,
)

pub head_hash-append :
    (previous : String) (rs : List JournalRecord) (r : JournalRecord)
    → head_hash previous (rs ++ r ∷ []) ≡ r.record_hash
head_hash-append previous [] r = refl
head_hash-append previous (x ∷ rs) r = head_hash-append x.record_hash rs r

get_elem?-append :
    (i : ℕ) (x : JournalRecord) (rs more : List JournalRecord)
    → get_elem? rs i ≡ some x
    → get_elem? (rs ++ more) i ≡ some x
get_elem?-append i x [] more h = absurd (grind (arith, h))
get_elem?-append zero x (y ∷ rs) more h = h
get_elem?-append (suc i) x (y ∷ rs) more h = get_elem?-append i x rs more h

IsMarked-append :
    (checkpoint : Option JournalCheckpoint) (rs more : List JournalRecord)
    → IsMarked rs checkpoint
    → IsMarked (rs ++ more) checkpoint
IsMarked-append none rs more h = tt
IsMarked-append (some checkpoint) rs more (inl h) = inl h
IsMarked-append (some checkpoint) rs more (inr (i, x, h, h_next, h_hash)) =
    inr (i, x, get_elem?-append i x rs more h, h_next, h_hash)

head_hash-get_elem? :
    (previous : String) (r : JournalRecord) (rs : List JournalRecord)
    → (x : JournalRecord) × (get_elem? (r ∷ rs) (length rs) ≡ some x)
      × (head_hash previous (r ∷ rs) ≡ x.record_hash)
head_hash-get_elem? previous r [] = (r, refl, refl)
head_hash-get_elem? previous r (s ∷ rs) = head_hash-get_elem? r.record_hash s rs

-- The checkpoint of all records.
pub IsMarked-all :
    (rs : List JournalRecord)
    → IsMarked rs
        (some (record { next_sequence = length rs; last_hash = head_hash genesis_hash rs }))
IsMarked-all [] = inl refl
IsMarked-all (r ∷ rs) =
    let top = head_hash-get_elem? genesis_hash r rs in
    inr (length rs, top.0, top.1, omega arith, top.2)

module _ (c : Codec) where
  pub read_records-append :
      (ls : List Bytes) (line : Bytes) (records : List JournalRecord) (r : JournalRecord)
      → read_records c ls ≡ ok records
      → read_line c line ≡ ok (some r)
      → read_records c (ls ++ line ∷ []) ≡ ok (records ++ r ∷ [])
  unfolding read_records
  read_records-append [] line records r h h_line = grind (arith, h, h_line)
  read_records-append (l ∷ ls) line records r h h_line = elim (Result-cases (read_line c l)) [
    | inl (none, h_l) ↦
        grind (arith, h_l, read_records-append ls line records r (grind (arith, h, h_l)) h_line)
    | inl (some x, h_l) ↦
        let h' : (read_records c ls >>= λ rs. ok (x ∷ rs)) ≡ ok records = grind (arith, h, h_l) in
        let (more, h_more, h_cons) = >>=-eq-ok (read_records c ls) (λ rs. ok (x ∷ rs)) h' in
        grind (arith, h_l, h_cons, read_records-append ls line more r h_more h_line)
    | inr (e, h_l) ↦ absurd (grind (arith, h, h_l))
  ]

  -- One more line, with the record that follows.
  pub IsAccepted-append :
      (disk : Disk) (line : Bytes) (records : List JournalRecord) (r : JournalRecord)
      → IsAccepted c disk records
      → IsWhole disk.log
      → IsOneLine line
      → read_line c line ≡ ok (some r)
      → r.monotonic_sequence ≡ length records
      → r.previous_record_hash ≡ head_hash genesis_hash records
      → length records + 1 ≤ u64_max
      → IsAccepted c (record disk { log = disk.log ++ (line ++ 10 ∷ []) }) (records ++ r ∷ [])
  unfolding read_checkpoint
  IsAccepted-append disk line records r h whole plain h_line h_sequence h_previous bound = record {
    read =
        rw (lines-append disk.log (line ++ 10 ∷ []) whole, lines-line line plain)
          (read_records-append (lines disk.log) line records r h.read h_line);
    chained =
        IsChain-append 0 genesis_hash records r h.chained (omega (arith, h_sequence)) h_previous;
    bounded = omega (arith, bound, length-append records (r ∷ []));
    checkpoint = h.checkpoint;
    checkpoint_read = h.checkpoint_read;
    marked = IsMarked-append h.checkpoint records (r ∷ []) h.marked;
  }

  pub IsSoundJournal-at :
      (j : Journal) (disk : Disk) (records : List JournalRecord)
      → j.disk ≡ disk
      → IsWhole disk.log
      → IsAccepted c disk records
      → j.next_sequence ≡ length records
      → j.last_hash ≡ head_hash genesis_hash records
      → IsSoundJournal c j records
  IsSoundJournal-at j disk records h whole accepted h_sequence h_hash = record {
    whole = rw h whole;
    accepted = rw h accepted;
    at_sequence = h_sequence;
    at_hash = h_hash;
  }

  IsAccepted-checkpoint :
      (j : Journal) (records : List JournalRecord)
      → IsSoundJournal c j records
      → IsAccepted c
          (record j.disk {
            checkpoint =
                some (ok (record { next_sequence = j.next_sequence; last_hash = j.last_hash }));
          })
          records
  unfolding read_checkpoint
  IsAccepted-checkpoint j records h = record {
    read = h.accepted.read;
    chained = h.accepted.chained;
    bounded = h.accepted.bounded;
    checkpoint = some (record { next_sequence = j.next_sequence; last_hash = j.last_hash });
    checkpoint_read = refl;
    marked = rw (h.at_sequence, h.at_hash) (IsMarked-all records);
  }

  -- Writing the checkpoint of a sound journal keeps it sound, whether it fails or not.
  pub checkpoint_committed-IsSoundJournal :
      (fs : CheckpointIo) (j : Journal) (records : List JournalRecord)
      → IsSoundJournal c j records
      → IsSoundJournal c (checkpoint_committed fs j) records
  unfolding checkpoint_committed write_checkpoint
  checkpoint_committed-IsSoundJournal fs j records h = elim (Result-cases (prepare_checkpoint fs)) [
    | inl (_, fine) ↦
        IsSoundJournal-at (checkpoint_committed fs j) _ records (grind (arith, fine)) h.whole
          (IsAccepted-checkpoint j records h) h.at_sequence h.at_hash
    | inr (e, wrong) ↦
        IsSoundJournal-at (checkpoint_committed fs j) j.disk records (grind (arith, wrong)) h.whole
          h.accepted h.at_sequence h.at_hash
  ]
