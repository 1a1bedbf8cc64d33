-- ===== src/Compliance/Latch.antt =====
-- About compliance.rs: the latch, which keeps what has once been found. Its file is what reading and
-- parsing it gives; a file that has been renamed into place is read as it was written.
use Prim.Native.String.{◌++◌ as append, compare as compare_text}
use polymarket_watch_rust.Base.Chars.{eq_ignore_ascii_case, to_ascii_lowercase}
use polymarket_watch_rust.Base.Lists.{any, length}
use polymarket_watch_rust.Base.Outcome.{Result, compliance, err, fail_if, ok, ◌>>=◌, ◌>>◌}
use polymarket_watch_rust.Base.Tests.{
  Bool, List, Option, Ordering, String, [], false, if◌then◌else◌, ltb, map, none, not, some, str_eq,
  suc, true, zero, ℕ, ⊤, ◌&&◌, ◌++◌, ◌-◌, ◌==◌, ◌||◌, ◌∷◌,
}
use polymarket_watch_rust.Compliance.{ComplianceLatchState}
use polymarket_watch_rust.Journal.{Answer, io_result, map_err}

abbrev pub compliance_latch_schema_version : ℕ
compliance_latch_schema_version = 1

abbrev pub max_compliance_reasons : ℕ
max_compliance_reasons = 128

-- The lock is held for as long as the guard lives.
pub record ComplianceGuard : Type 0 where
  pub file : Option (Result ComplianceLatchState)
  pub state : ComplianceLatchState

-- `sort` and `dedup` on texts
abbrev pub insert_text : String → List String → List String
insert_text s [] = s ∷ []
insert_text s (t ∷ ts) = elim (compare_text s t) [
  | Ordering.gt ↦ t ∷ insert_text s ts
  | _ ↦ s ∷ t ∷ ts
]

abbrev pub sort_texts : List String → List String
sort_texts [] = []
sort_texts (s ∷ ss) = insert_text s (sort_texts ss)

-- The first of equal neighbours is kept.
abbrev pub keep_first : String → List String → List String
keep_first s [] = s ∷ []
keep_first s (t ∷ ts) = if str_eq s t then t ∷ ts else s ∷ t ∷ ts

abbrev pub dedup : List String → List String
dedup [] = []
dedup (s ∷ ss) = keep_first s (dedup ss)

unfoldable pub normalized_wallets : List String → List String
normalized_wallets wallets = dedup (sort_texts (map to_ascii_lowercase wallets))

abbrev pub same_texts : List String → List String → Bool
same_texts [] [] = true
same_texts (s ∷ ss) (t ∷ ts) = str_eq s t && same_texts ss ts
same_texts _ _ = false

unfoldable pub validate_latch_state : ComplianceLatchState → List String → Result ⊤
validate_latch_state s expected_wallets = do
  fail_if (not (s.schema_version == compliance_latch_schema_version))
      (compliance "compliance_latch_schema_unsupported")
  fail_if (not (same_texts s.controlled_wallets expected_wallets))
      (compliance "controlled_wallet_declaration_changed_use_new_latch_file")
  fail_if (ltb max_compliance_reasons (length s.reasons))
      (compliance "compliance_latch_reason_limit_exceeded")

-- The calls of `write_latch_state`, in order.
pub record LatchIo : Type 0 where
  pub create : Answer ⊤
  pub serialize : Answer ⊤
  pub newline : Answer ⊤
  pub sync : Answer ⊤
  pub rename : Answer ⊤
  pub sync_parent : Answer ⊤

abbrev pub prepare_latch : LatchIo → Result ⊤
prepare_latch fs = do
  io_result fs.create
  map_err (λ error. compliance (append "compliance_latch_serialize:" error)) fs.serialize
  io_result fs.newline
  io_result fs.sync
  io_result fs.rename

unfoldable pub write_latch_state :
    LatchIo
    → ComplianceLatchState
    → Option (Result ComplianceLatchState)
    → Result ⊤ × Option (Result ComplianceLatchState)
write_latch_state fs s file = elim (prepare_latch fs) [
  | err x ↦ (err x, file)
  | ok _ ↦ (io_result fs.sync_parent, some (ok s))
]

-- The calls of `open` before the file is read.
pub record OpenIo : Type 0 where
  pub create_dir : Answer ⊤
  pub open_lock : Answer ⊤
  pub lock : Answer ⊤
  pub harden : Answer ⊤
  pub write : LatchIo

abbrev pub new_latch : List String → ℕ → ComplianceLatchState
new_latch wallets now_ms = record {
  schema_version = compliance_latch_schema_version;
  controlled_wallets = wallets;
  prohibited_conduct_flag = false;
  confidential_info_flag = false;
  reasons = [];
  updated_at_ms = now_ms;
}

abbrev pub lock_latch : OpenIo → Result ⊤
lock_latch fs = do
  io_result fs.create_dir
  io_result fs.open_lock
  map_err (λ error. compliance (append "compliance_latch_already_locked:" error)) fs.lock

-- Reading and parsing a file that exists, and its validation.
abbrev pub load_latch :
    OpenIo → Result ComplianceLatchState → List String → Result ComplianceLatchState
load_latch fs content expected_wallets = do
  io_result fs.harden
  s ← content
  validate_latch_state s expected_wallets
  ok s

-- With the lock: an existing file is loaded, and otherwise a new one is written.
unfoldable pub open_file :
    OpenIo
    → Option (Result ComplianceLatchState)
    → List String
    → ℕ
    → Result ComplianceGuard × Option (Result ComplianceLatchState)
open_file fs (some content) expected now_ms = (
  load_latch fs content expected >>= λ s. ok (record { file = some content; state = s }),
  some content,
)
open_file fs none expected now_ms =
    let written = write_latch_state fs.write (new_latch expected now_ms) none in
    (
      written.0 >>= λ _. ok (record { file = written.1; state = new_latch expected now_ms }),
      written.1,
    )

-- The guard, or an error, and the file.
unfoldable pub open_guard :
    OpenIo
    → Option (Result ComplianceLatchState)
    → List String
    → ℕ
    → Result ComplianceGuard × Option (Result ComplianceLatchState)
unfolding open_file
open_guard fs file controlled_wallets now_ms = elim (lock_latch fs) [
  | err x ↦ (err x, file)
  | ok _ ↦ open_file fs file (normalized_wallets controlled_wallets) now_ms
]

abbrev pub controls_wallet : ComplianceGuard → String → Bool
controls_wallet g wallet =
    any (λ controlled. eq_ignore_ascii_case controlled wallet) g.state.controlled_wallets

-- `drain(0..excess)`
abbrev pub drop : ℕ → List String → List String
drop zero ss = ss
drop (suc n) [] = []
drop (suc n) (s ∷ ss) = drop n ss

abbrev pub add_reason : String → List String → List String
add_reason reason reasons =
    if any (λ r. str_eq r reason) reasons
    then reasons
    else let longer = reasons ++ reason ∷ [] in drop (length longer - max_compliance_reasons) longer

abbrev pub staged_latch : String → Bool → Bool → ℕ → ComplianceLatchState → ComplianceLatchState
staged_latch reason prohibited confidential now_ms s = record s {
  prohibited_conduct_flag = s.prohibited_conduct_flag || prohibited;
  confidential_info_flag = s.confidential_info_flag || confidential;
  reasons = add_reason reason s.reasons;
  updated_at_ms = now_ms;
}

unfoldable pub latch :
    LatchIo → String → Bool → Bool → ℕ → ComplianceGuard → Result ⊤ × ComplianceGuard
latch fs reason prohibited confidential now_ms g =
    let staged = staged_latch reason prohibited confidential now_ms g.state in
    let written = write_latch_state fs staged g.file in
    elim written.0 [
      | err x ↦ (err x, record g { file = written.1 })
      | ok _ ↦ (ok tt, record { file = written.1; state = staged })
    ]

abbrev pub latch_prohibited : LatchIo → String → ℕ → ComplianceGuard → Result ⊤ × ComplianceGuard
latch_prohibited fs reason now_ms g = latch fs reason true false now_ms g

abbrev pub latch_confidential : LatchIo → String → ℕ → ComplianceGuard → Result ⊤ × ComplianceGuard
latch_confidential fs reason now_ms g = latch fs reason false true now_ms g
