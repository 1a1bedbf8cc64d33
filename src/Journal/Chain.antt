-- ===== src/Journal/Chain.antt =====
-- About journal.rs: what a log that `verify_reader` accepts holds.
use polymarket_watch_rust.Base.Int.{u64_max}
use polymarket_watch_rust.Base.Lists.{get_elem?, length}
use polymarket_watch_rust.Base.Outcome.{>>=-eq-ok, Result, Result-cases, ok, ◌>>=◌}
use polymarket_watch_rust.Base.Tests.{
  Bool, List, Option, String, [], ap, arith, eq_iff, false, inl, inr, none, refl, some, true, ℕ, ⊤,
  ◌+◌, ◌||◌, ◌∙◌, ◌∷◌, ◌≡◌, ◌≤◌, ◌⊎◌,
}
use polymarket_watch_rust.Journal.{Bytes, Codec, JournalCheckpoint, JournalRecord}
use polymarket_watch_rust.Journal.Reading.{
  Cursor, matches, read_line, read_records, verify_lines, verify_record,
}

-- Records that are numbered from `sequence` on, each of them with the hash of the one before it.
abbrev pub IsChain : ℕ → String → List JournalRecord → Type 0
IsChain sequence previous [] = ⊤
IsChain sequence previous (r ∷ rs) =
    (r.monotonic_sequence ≡ sequence)
    × (r.previous_record_hash ≡ previous)
    × IsChain (sequence + 1) r.record_hash rs

-- The hash of the last record, or `previous` when there is none.
abbrev pub head_hash : String → List JournalRecord → String
head_hash previous [] = previous
head_hash previous (r ∷ rs) = head_hash r.record_hash rs

-- A checkpoint of no records, or of a record that is there.
abbrev pub IsMarked : List JournalRecord → Option JournalCheckpoint → Type 0
IsMarked records none = ⊤
IsMarked records (some checkpoint) =
    (checkpoint.next_sequence ≡ 0)
    ⊎ ((i : ℕ) × (r : JournalRecord) × (get_elem? records i ≡ some r)
        × (checkpoint.next_sequence ≡ i + 1)
        × (checkpoint.last_hash ≡ r.record_hash))

abbrev pub verify_all : Option JournalCheckpoint → Cursor → List JournalRecord → Result Cursor
verify_all checkpoint s [] = ok s
verify_all checkpoint s (r ∷ rs) =
    verify_record checkpoint s r >>= λ s'. verify_all checkpoint s' rs

abbrev pub marks : Option JournalCheckpoint → ℕ → List JournalRecord → Bool
marks checkpoint sequence [] = false
marks checkpoint sequence (r ∷ rs) =
    matches checkpoint (sequence + 1) r.record_hash || marks checkpoint (sequence + 1) rs

abbrev pub cursor_after : Option JournalCheckpoint → Cursor → List JournalRecord → Cursor
cursor_after checkpoint s rs = record {
  expected_sequence = s.expected_sequence + length rs;
  expected_previous = head_hash s.expected_previous rs;
  checkpoint_matched = s.checkpoint_matched || marks checkpoint s.expected_sequence rs;
}

abbrev advanced : Option JournalCheckpoint → Cursor → JournalRecord → Cursor
advanced checkpoint s r = record {
  expected_sequence = s.expected_sequence + 1;
  expected_previous = r.record_hash;
  checkpoint_matched =
      s.checkpoint_matched || matches checkpoint (s.expected_sequence + 1) r.record_hash;
}

verify_record-from :
    (checkpoint : Option JournalCheckpoint) (s s' : Cursor) (r : JournalRecord)
    → verify_record checkpoint s r ≡ ok s'
    → (r.monotonic_sequence ≡ s.expected_sequence)
      × (r.previous_record_hash ≡ s.expected_previous)
      × (s.expected_sequence + 1 ≤ u64_max)
      × (s' ≡ advanced checkpoint s r)
unfolding verify_record
verify_record-from checkpoint s s' r h =
    grind (arith, h, eq_iff r.previous_record_hash s.expected_previous)

verify_record-to :
    (checkpoint : Option JournalCheckpoint) (s : Cursor) (r : JournalRecord)
    → r.monotonic_sequence ≡ s.expected_sequence
    → r.previous_record_hash ≡ s.expected_previous
    → s.expected_sequence + 1 ≤ u64_max
    → verify_record checkpoint s r ≡ ok (advanced checkpoint s r)
unfolding verify_record
verify_record-to checkpoint s r h_sequence h_previous bound =
    grind (arith, h_sequence, h_previous, eq_iff r.previous_record_hash s.expected_previous)

or_assoc : (a b c : Bool) → ((a || b) || c) ≡ (a || (b || c))
or_assoc true b c = refl
or_assoc false b c = refl

cursor_after-advanced :
    (checkpoint : Option JournalCheckpoint) (s : Cursor) (r : JournalRecord)
    (rs : List JournalRecord)
    → cursor_after checkpoint (advanced checkpoint s r) rs ≡ cursor_after checkpoint s (r ∷ rs)
cursor_after-advanced checkpoint s r rs = grind (
  arith,
  or_assoc s.checkpoint_matched (matches checkpoint (s.expected_sequence + 1) r.record_hash)
      (marks checkpoint (s.expected_sequence + 1) rs),
)

pub verify_all-from :
    (checkpoint : Option JournalCheckpoint) (s s' : Cursor) (rs : List JournalRecord)
    → s.expected_sequence ≤ u64_max
    → verify_all checkpoint s rs ≡ ok s'
    → IsChain s.expected_sequence s.expected_previous rs
      × (s.expected_sequence + length rs ≤ u64_max)
      × (s' ≡ cursor_after checkpoint s rs)
verify_all-from checkpoint s s' [] bound h = grind (arith, h)
verify_all-from checkpoint s s' (r ∷ rs) bound h =
    let step = >>=-eq-ok (verify_record checkpoint s r) (λ t. verify_all checkpoint t rs) h in
    let first = verify_record-from checkpoint s step.0 r step.1 in
    let rest =
      verify_all-from checkpoint (advanced checkpoint s r) s' rs (omega (arith, first.2))
        (rw (← first.3) step.2) in
    (
      (first.0, first.1, rest.0),
      omega (arith, rest.1),
      rest.2 ∙ cursor_after-advanced checkpoint s r rs,
    )

pub verify_all-to :
    (checkpoint : Option JournalCheckpoint) (s : Cursor) (rs : List JournalRecord)
    → IsChain s.expected_sequence s.expected_previous rs
    → s.expected_sequence + length rs ≤ u64_max
    → verify_all checkpoint s rs ≡ ok (cursor_after checkpoint s rs)
verify_all-to checkpoint s [] h bound = grind arith
verify_all-to checkpoint s (r ∷ rs) h bound =
    rw (verify_record-to checkpoint s r h.0 h.1 (omega arith)) (
      verify_all-to checkpoint (advanced checkpoint s r) rs h.2 (omega arith)
      ∙ ap ok (cursor_after-advanced checkpoint s r rs))

module _ (c : Codec) where
  -- Verifying the lines is verifying the records that they hold.
  pub verify_lines-from :
      (checkpoint : Option JournalCheckpoint) (s s' : Cursor) (ls : List Bytes)
      → verify_lines c checkpoint s ls ≡ ok s'
      → (records : List JournalRecord) × (read_records c ls ≡ ok records)
        × (verify_all checkpoint s records ≡ ok s')
  unfolding verify_lines read_records
  verify_lines-from checkpoint s s' [] h = ([], refl, h)
  verify_lines-from checkpoint s s' (line ∷ rest) h = elim (Result-cases (read_line c line)) [
    | inl (none, h_line) ↦
        let ih = verify_lines-from checkpoint s s' rest (grind (arith, h, h_line)) in
        (ih.0, grind (arith, h_line, ih.1), ih.2)
    | inl (some r, h_line) ↦
        let step =
          >>=-eq-ok (verify_record checkpoint s r) (λ t. verify_lines c checkpoint t rest)
            (grind (arith, h, h_line)) in
        let ih = verify_lines-from checkpoint step.0 s' rest step.2 in
        (r ∷ ih.0, grind (arith, h_line, ih.1), grind (arith, step.1, ih.2))
    | inr (x, h_line) ↦ absurd (grind (arith, h, h_line))
  ]

  pub verify_lines-to :
      (checkpoint : Option JournalCheckpoint) (s s' : Cursor) (ls : List Bytes)
      (records : List JournalRecord)
      → read_records c ls ≡ ok records
      → verify_all checkpoint s records ≡ ok s'
      → verify_lines c checkpoint s ls ≡ ok s'
  unfolding verify_lines read_records
  verify_lines-to checkpoint s s' [] records h v = grind (arith, h, v)
  verify_lines-to checkpoint s s' (line ∷ rest) records h v =
      elim (Result-cases (read_line c line)) [
        | inl (none, h_line) ↦
            let ih = verify_lines-to checkpoint s s' rest records (grind (arith, h, h_line)) v in
            grind (arith, h_line, ih)
        | inl (some r, h_line) ↦
            let h' : (read_records c rest >>= λ rs. ok (r ∷ rs)) ≡ ok records =
              grind (arith, h, h_line) in
            let more = >>=-eq-ok (read_records c rest) (λ rs. ok (r ∷ rs)) h' in
            let v' : verify_all checkpoint s (r ∷ more.0) ≡ ok s' = grind (arith, v, more.2) in
            let step =
              >>=-eq-ok (verify_record checkpoint s r) (λ t. verify_all checkpoint t more.0) v' in
            let ih = verify_lines-to checkpoint step.0 s' rest more.0 more.1 step.2 in
            grind (arith, h_line, step.1, ih)
        | inr (x, h_line) ↦ absurd (grind (arith, h, h_line))
      ]
