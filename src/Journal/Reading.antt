-- ===== src/Journal/Reading.antt =====
-- About journal.rs: the lines of the log, their verification, and the readers built on it.
use Prim.Native.String.{◌++◌ as append}
use polymarket_watch_rust.Base.Lists.{all}
use polymarket_watch_rust.Base.Outcome.{Result, fail_if, journal, ok, ok_or, ◌>>=◌, ◌>>◌}
use polymarket_watch_rust.Base.Tests.{
  Bool, List, Option, String, [], false, if◌then◌else◌, ltb, none, not, some, str_eq, ℕ, ⊤, ◌&&◌,
  ◌==◌, ◌||◌, ◌∷◌,
}
use polymarket_watch_rust.Fixed.Text.{is_whitespace}
use polymarket_watch_rust.Journal.{
  Answer, Bytes, Codec, Disk, Journal, JournalCheckpoint, JournalRecord, JournalStartup, from_line,
  genesis_hash, io_result, map_err,
}
use polymarket_watch_rust.Types.{checked_add_u64}

abbrev pub push_first : ℕ → List Bytes → List Bytes
push_first b [] = (b ∷ []) ∷ []
push_first b (line ∷ rest) = (b ∷ line) ∷ rest

-- A line feed comes next.
abbrev pub starts_line_feed : Bytes → Bool
starts_line_feed [] = false
starts_line_feed (b ∷ bs) = b == 10

-- `BufRead::lines`: pieces that end in a line feed (10), without it and without one carriage
-- return (13) before it; what follows the last line feed is a line when it is not empty.
unfoldable pub lines : Bytes → List Bytes
lines [] = []
lines (b ∷ bs) =
    let rest = lines bs in
    if b == 10
    then [] ∷ rest
    else if b == 13 && starts_line_feed bs
    then rest
    else push_first b rest

-- `line.trim().is_empty()`
abbrev pub is_blank : List ℕ → Bool
is_blank text = all is_whitespace text

pub record JournalVerification : Type 0 where
  pub next_sequence : ℕ
  pub last_hash : String

-- The variables of the loop of `verify_reader`.
pub record Cursor : Type 0 where
  pub expected_sequence : ℕ
  pub expected_previous : String
  pub checkpoint_matched : Bool

-- `read_checkpoint`
unfoldable pub read_checkpoint : Disk → Result (Option JournalCheckpoint)
read_checkpoint disk = elim disk.checkpoint [
  | none ↦ ok none
  | some answer ↦ answer >>= λ checkpoint. ok (some checkpoint)
]

abbrev pub matches : Option JournalCheckpoint → ℕ → String → Bool
matches none sequence hash = false
matches (some checkpoint) sequence hash =
    checkpoint.next_sequence == sequence && str_eq checkpoint.last_hash hash

abbrev pub starts_matched : Option JournalCheckpoint → Bool
starts_matched none = false
starts_matched (some checkpoint) = checkpoint.next_sequence == 0

-- The body of the loop after a record has been read.
unfoldable pub verify_record : Option JournalCheckpoint → Cursor → JournalRecord → Result Cursor
verify_record checkpoint s r = do
  fail_if (not (r.monotonic_sequence == s.expected_sequence)) (journal "sequence_gap")
  fail_if (not (str_eq r.previous_record_hash s.expected_previous))
      (journal "previous_hash_mismatch")
  next ← ok_or (checked_add_u64 s.expected_sequence 1) (journal "journal_sequence_exhausted")
  ok (record {
    expected_sequence = next;
    expected_previous = r.record_hash;
    checkpoint_matched = s.checkpoint_matched || matches checkpoint next r.record_hash;
  })

-- `if let Some(checkpoint) = checkpoint`
unfoldable pub check_checkpoint : Option JournalCheckpoint → Cursor → Result ⊤
check_checkpoint none s = ok tt
check_checkpoint (some checkpoint) s =
    fail_if (ltb s.expected_sequence checkpoint.next_sequence || not s.checkpoint_matched)
      (journal "checkpoint_mismatch")

module _ (c : Codec) where
  -- The start of both loops: the line is decoded, and skipped when it is blank.
  unfoldable pub read_line : Bytes → Result (Option JournalRecord)
  read_line line = io_result (c.utf8 line) >>= λ text.
      if is_blank text then ok none else from_line c line >>= λ r. ok (some r)

  unfoldable pub verify_lines : Option JournalCheckpoint → Cursor → List Bytes → Result Cursor
  verify_lines checkpoint s [] = ok s
  verify_lines checkpoint s (line ∷ rest) = read_line line >>= λ o. elim o [
    | none ↦ verify_lines checkpoint s rest
    | some r ↦ verify_record checkpoint s r >>= λ s'. verify_lines checkpoint s' rest
  ]

  -- `ready` is the outcome of seeking to the start and cloning the handle.
  unfoldable pub verify_reader : Answer ⊤ → Disk → Result JournalVerification
  verify_reader ready disk = do
    io_result ready
    checkpoint ← read_checkpoint disk
    let start : Cursor = record {
      expected_sequence = 0;
      expected_previous = genesis_hash;
      checkpoint_matched = starts_matched checkpoint;
    }
    s ← verify_lines checkpoint start (lines disk.log)
    check_checkpoint checkpoint s
    ok (record { next_sequence = s.expected_sequence; last_hash = s.expected_previous })

  -- The second pass of `records_locked` and `replay_records`.
  unfoldable pub read_records : List Bytes → Result (List JournalRecord)
  read_records [] = ok []
  read_records (line ∷ rest) = read_line line >>= λ o. elim o [
    | none ↦ read_records rest
    | some r ↦ read_records rest >>= λ records. ok (r ∷ records)
  ]

  -- `verify_journal`: the file may be missing, cannot be opened, or is locked by a writer.
  unfoldable pub verify_journal :
      Answer ⊤ → Answer ⊤ → Answer ⊤ → Option Disk → Result JournalVerification
  verify_journal opened locked ready none =
      ok (record { next_sequence = 0; last_hash = genesis_hash })
  verify_journal opened locked ready (some disk) = do
    io_result opened
    map_err (λ error. journal (append "journal_busy:" error)) locked
    verify_reader ready disk

  -- `again` is the outcome of the second seek.
  unfoldable pub replay_records :
      Answer ⊤ → Answer ⊤ → Answer ⊤ → Answer ⊤ → Option Disk → Result (List JournalRecord)
  replay_records opened locked ready again none = ok []
  replay_records opened locked ready again (some disk) = do
    io_result opened
    map_err (λ error. journal (append "journal_busy:" error)) locked
    _ ← verify_reader ready disk
    io_result again
    read_records (lines disk.log)

  -- `Journal::open`: `opened` covers the directory and the file, `at_end` the last seek.
  unfoldable pub open_journal :
      Answer ⊤ → Answer ⊤ → Answer ⊤ → Answer ⊤ → Disk → JournalStartup → Result Journal
  open_journal opened locked ready at_end disk startup = do
    io_result opened
    map_err (λ error. journal (append "journal_already_locked_or_unavailable:" error)) locked
    verification ← verify_reader ready disk
    io_result at_end
    ok (record {
      startup = startup;
      disk = disk;
      next_sequence = verification.next_sequence;
      last_hash = verification.last_hash;
      poisoned = none;
      checkpoint_warning = none;
    })

  -- The closure of `records_locked`.
  abbrev pub read_locked : Answer ⊤ → Answer ⊤ → Answer ⊤ → Journal → Result (List JournalRecord)
  read_locked synced ready again j = do
    io_result synced
    _ ← verify_reader ready j.disk
    io_result again
    read_records (lines j.disk.log)

  -- `records_locked`: the handle goes back to the end whatever the reading gave.
  unfoldable pub records_locked :
      Answer ⊤ → Answer ⊤ → Answer ⊤ → Answer ⊤ → Journal → Result (List JournalRecord)
  records_locked synced ready again at_end j =
      read_locked synced ready again j >>= λ records. io_result at_end >>= λ _. ok records
