-- ===== src/Journal/Accepts.antt =====
-- About journal.rs: exactly which logs `verify_reader` accepts.
use polymarket_watch_rust.Base.Int.{u64_max}
use polymarket_watch_rust.Base.Lists.{get_elem?, length}
use polymarket_watch_rust.Base.Outcome.{>>=-eq-ok, ok}
use polymarket_watch_rust.Base.Tests.{
  Bool-cases, List, Option, [], ap, arith, eq_iff, inl, inr, none, refl, some, suc, sym, true, zero,
  ℕ, ◌+◌, ◌<◌, ◌==◌, ◌↔◌, ◌∙◌, ◌∷◌, ◌≡◌, ◌≤◌,
}
use polymarket_watch_rust.Journal.{Codec, Disk, JournalCheckpoint, JournalRecord, genesis_hash, got}
use polymarket_watch_rust.Journal.Chain.{
  IsChain, IsMarked, cursor_after, head_hash, marks, verify_all-from, verify_all-to,
  verify_lines-from, verify_lines-to,
}
use polymarket_watch_rust.Journal.Reading.{
  Cursor, JournalVerification, check_checkpoint, lines, matches, read_checkpoint, read_records,
  starts_matched, verify_lines, verify_reader,
}

marks-from :
    (checkpoint : JournalCheckpoint) (sequence : ℕ) (rs : List JournalRecord)
    → marks (some checkpoint) sequence rs ≡ true
    → (i : ℕ) × (r : JournalRecord) × (get_elem? rs i ≡ some r)
      × (checkpoint.next_sequence ≡ sequence + i + 1)
      × (checkpoint.last_hash ≡ r.record_hash)
marks-from checkpoint sequence [] h = absurd (grind (arith, h))
marks-from checkpoint sequence (r ∷ rs) h =
    elim (Bool-cases (matches (some checkpoint) (sequence + 1) r.record_hash)) [
      | inl here ↦ (
        0,
        r,
        refl,
        grind (arith, here),
        grind (arith, here, eq_iff checkpoint.last_hash r.record_hash),
      )
      | inr other ↦
          let ih = marks-from checkpoint (sequence + 1) rs (grind (arith, h, other)) in
          (suc ih.0, ih.1, ih.2, omega (arith, ih.3), ih.4)
    ]

marks-to :
    (checkpoint : JournalCheckpoint) (sequence i : ℕ) (r : JournalRecord) (rs : List JournalRecord)
    → get_elem? rs i ≡ some r
    → checkpoint.next_sequence ≡ sequence + i + 1
    → checkpoint.last_hash ≡ r.record_hash
    → marks (some checkpoint) sequence rs ≡ true
marks-to checkpoint sequence i r [] h h_next h_hash = absurd (grind (arith, h))
marks-to checkpoint sequence zero r (x ∷ rs) h h_next h_hash =
    grind (arith, h, h_next, h_hash, eq_iff checkpoint.last_hash x.record_hash)
marks-to checkpoint sequence (suc i) r (x ∷ rs) h h_next h_hash =
    grind (arith, marks-to checkpoint (sequence + 1) i r rs h (omega (arith, h_next)) h_hash)

get_elem?-lt-length :
    (i : ℕ) (r : JournalRecord) (rs : List JournalRecord) → get_elem? rs i ≡ some r → i < length rs
get_elem?-lt-length i r [] h = absurd (grind (arith, h))
get_elem?-lt-length zero r (x ∷ rs) h = omega arith
get_elem?-lt-length (suc i) r (x ∷ rs) h = omega (arith, get_elem?-lt-length i r rs h)

abbrev start_at : Option JournalCheckpoint → Cursor
start_at checkpoint = record {
  expected_sequence = 0;
  expected_previous = genesis_hash;
  checkpoint_matched = starts_matched checkpoint;
}

check_checkpoint-from :
    (checkpoint : Option JournalCheckpoint) (rs : List JournalRecord)
    → check_checkpoint checkpoint (cursor_after checkpoint (start_at checkpoint) rs) ≡ ok tt
    → IsMarked rs checkpoint
unfolding check_checkpoint
check_checkpoint-from none rs h = tt
check_checkpoint-from (some checkpoint) rs h = elim (Bool-cases (checkpoint.next_sequence == 0)) [
  | inl empty ↦ inl (grind (arith, empty))
  | inr later ↦
      let m = marks-from checkpoint 0 rs (grind (arith, h, later)) in
      inr (m.0, m.1, m.2, omega (arith, m.3), m.4)
]

check_checkpoint-to :
    (checkpoint : Option JournalCheckpoint) (rs : List JournalRecord)
    → IsMarked rs checkpoint
    → check_checkpoint checkpoint (cursor_after checkpoint (start_at checkpoint) rs) ≡ ok tt
unfolding check_checkpoint
check_checkpoint-to none rs h = refl
check_checkpoint-to (some checkpoint) rs (inl empty) = grind (arith, empty)
check_checkpoint-to (some checkpoint) rs (inr (i, r, h, h_next, h_hash)) = grind (
  arith,
  h_next,
  get_elem?-lt-length i r rs h,
  marks-to checkpoint 0 i r rs h (omega (arith, h_next)) h_hash,
)

-- What the files have to hold.
pub record IsAccepted (c : Codec) (disk : Disk) (records : List JournalRecord) : Type 0 where
  pub read : read_records c (lines disk.log) ≡ ok records
  pub chained : IsChain 0 genesis_hash records
  pub bounded : length records ≤ u64_max
  pub checkpoint : Option JournalCheckpoint
  pub checkpoint_read : read_checkpoint disk ≡ ok checkpoint
  pub marked : IsMarked records checkpoint

abbrev pub verification_of : List JournalRecord → JournalVerification
verification_of records = record {
  next_sequence = length records;
  last_hash = head_hash genesis_hash records;
}

module _ (c : Codec) (disk : Disk) where
  verify_reader-from :
      (v : JournalVerification)
      → verify_reader c (got tt) disk ≡ ok v
      → (records : List JournalRecord) × IsAccepted c disk records × (v ≡ verification_of records)
  unfolding verify_reader
  verify_reader-from v h =
      let (checkpoint, h_checkpoint, h1) = >>=-eq-ok (read_checkpoint disk) _ h in
      let (s, h_lines, h2) =
        >>=-eq-ok (verify_lines c checkpoint (start_at checkpoint) (lines disk.log)) _ h1 in
      let (_, h_check, h3) = >>=-eq-ok (check_checkpoint checkpoint s) _ h2 in
      let (records, h_read, h_all) =
        verify_lines-from c checkpoint (start_at checkpoint) s (lines disk.log) h_lines in
      let (chain, bound, h_s) =
        verify_all-from checkpoint (start_at checkpoint) s records (omega arith) h_all in
      (
        records,
        record {
          read = h_read;
          chained = chain;
          bounded = omega (arith, bound);
          checkpoint = checkpoint;
          checkpoint_read = h_checkpoint;
          marked = check_checkpoint-from checkpoint records (grind (arith, h_s, h_check));
        },
        grind (arith, h_s, h3),
      )

  pub verify_reader-to :
      (records : List JournalRecord)
      → IsAccepted c disk records
      → verify_reader c (got tt) disk ≡ ok (verification_of records)
  unfolding verify_reader
  verify_reader-to records h = grind (
    arith,
    h.checkpoint_read,
    verify_lines-to c h.checkpoint (start_at h.checkpoint)
        (cursor_after h.checkpoint (start_at h.checkpoint) records) (lines disk.log) records h.read
        (verify_all-to h.checkpoint (start_at h.checkpoint) records h.chained
          (omega (arith, h.bounded))),
    check_checkpoint-to h.checkpoint records h.marked,
  )

  -- A log that can be read verifies exactly when its lines that are not blank are valid
  -- records, numbered from zero without a gap, each naming the hash of the one before it, and
  -- its checkpoint, if there is one, is at the start or names the number and the hash of a
  -- place in it; the answer is then the number of records and the hash of the last.
  pub verify_reader-accepts_iff :
      (v : JournalVerification)
      → (verify_reader c (got tt) disk ≡ ok v) ↔ (
          (records : List JournalRecord) × IsAccepted c disk records
          × (v ≡ verification_of records))
  verify_reader-accepts_iff v =
      (verify_reader-from v, λ h. verify_reader-to h.0 h.1 ∙ ap ok (sym h.2))
