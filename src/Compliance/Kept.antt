-- ===== src/Compliance/Kept.antt =====
-- About compliance.rs: what has been latched stays latched, on disk and in memory.
use polymarket_watch_rust.Base.Lists.{length}
use polymarket_watch_rust.Base.Outcome.{>>=-eq-ok, Result, Result-cases, err, ok}
use polymarket_watch_rust.Base.Tests.{
  Bool, List, Option, String, [], arith, eq_iff, false, inl, inr, none, refl, some, subst, suc,
  true, zero, ℕ, ◌++◌, ◌-◌, ◌∷◌, ◌≡◌, ◌≤◌, ◌⊎◌,
}
use polymarket_watch_rust.Compliance.{ComplianceLatchState}
use polymarket_watch_rust.Compliance.Latch.{
  ComplianceGuard, LatchIo, OpenIo, add_reason, drop, latch, load_latch, lock_latch,
  max_compliance_reasons, new_latch, normalized_wallets, open_file, open_guard, prepare_latch,
  same_texts, staged_latch, validate_latch_state, write_latch_state,
}
use polymarket_watch_rust.Journal.{got, io_result}

-- One call of `latch`, with the outcomes of its file operations.
pub record LatchCall : Type 0 where
  pub fs : LatchIo
  pub reason : String
  pub prohibited : Bool
  pub confidential : Bool
  pub now_ms : ℕ

unfoldable pub latch_all : List LatchCall → ComplianceGuard → ComplianceGuard
latch_all [] g = g
latch_all (call ∷ rest) g =
    latch_all rest (latch call.fs call.reason call.prohibited call.confidential call.now_ms g).1

-- The file can be loaded again for these wallets, and misses no flag of the guard.
pub record IsStored (expected : List String) (g : ComplianceGuard) : Type 0 where
  pub kept : ComplianceLatchState
  pub in_file : g.file ≡ some (ok kept)
  pub file_valid : validate_latch_state kept expected ≡ ok tt
  pub state_valid : validate_latch_state g.state expected ≡ ok tt
  pub prohibited_kept : g.state.prohibited_conduct_flag ≡ true → kept.prohibited_conduct_flag ≡ true
  pub confidential_kept : g.state.confidential_info_flag ≡ true → kept.confidential_info_flag ≡ true

length-drop : (n : ℕ) (ss : List String) → length (drop n ss) ≡ length ss - n
length-drop zero ss = omega arith
length-drop (suc n) [] = omega arith
length-drop (suc n) (s ∷ ss) = omega (arith, length-drop n ss)

length-add_reason :
    (reason : String) (reasons : List String)
    → length reasons ≤ max_compliance_reasons
    → length (add_reason reason reasons) ≤ max_compliance_reasons
length-add_reason reason reasons h = grind (
  arith,
  h,
  length-drop (length (reasons ++ reason ∷ []) - max_compliance_reasons) (reasons ++ reason ∷ []),
)

few :
    (s : ComplianceLatchState) (expected : List String)
    → validate_latch_state s expected ≡ ok tt
    → length s.reasons ≤ max_compliance_reasons
unfolding validate_latch_state
few s expected h = grind (arith, h)

staged_latch-valid :
    (reason : String) (prohibited confidential : Bool) (now_ms : ℕ) (s : ComplianceLatchState)
    (expected : List String)
    → validate_latch_state s expected ≡ ok tt
    → validate_latch_state (staged_latch reason prohibited confidential now_ms s) expected ≡ ok tt
unfolding validate_latch_state
staged_latch-valid reason prohibited confidential now_ms s expected h =
    grind (arith, h, length-add_reason reason s.reasons (few s expected h))

latch-IsStored :
    (expected : List String) (call : LatchCall) (g : ComplianceGuard)
    → IsStored expected g
    → IsStored expected
        (latch call.fs call.reason call.prohibited call.confidential call.now_ms g).1
unfolding latch write_latch_state
latch-IsStored expected call g h =
    let staged = staged_latch call.reason call.prohibited call.confidential call.now_ms g.state in
    let fine =
      staged_latch-valid call.reason call.prohibited call.confidential call.now_ms g.state expected
        h.state_valid in
    let answer = latch call.fs call.reason call.prohibited call.confidential call.now_ms g in
    elim (Result-cases (prepare_latch call.fs)) [
      | inr (x, h_x) ↦ let same : answer ≡ (err x, g) = grind (arith, h_x) in rw same h
      | inl (_, h_write) ↦ elim (Result-cases (io_result call.fs.sync_parent)) [
        | inl (_, h_sync) ↦
            let same : answer ≡ (ok tt, record { file = some (ok staged); state = staged }) =
              grind (arith, h_write, h_sync) in
            rw same (record {
              kept = staged;
              in_file = refl;
              file_valid = fine;
              state_valid = fine;
              prohibited_kept = λ flag. flag;
              confidential_kept = λ flag. flag;
            })
        | inr (x, h_x) ↦
            let same : answer ≡ (err x, record { file = some (ok staged); state = g.state }) =
              grind (arith, h_write, h_x) in
            rw same (record {
              kept = staged;
              in_file = refl;
              file_valid = fine;
              state_valid = h.state_valid;
              prohibited_kept = λ flag. grind (arith, flag);
              confidential_kept = λ flag. grind (arith, flag);
            })
      ]
    ]

latch-flags :
    (call : LatchCall) (g : ComplianceGuard)
    → (g.state.prohibited_conduct_flag ≡ true
        → (latch call.fs call.reason call.prohibited call.confidential call.now_ms
            g).1.state.prohibited_conduct_flag
          ≡ true)
      × (g.state.confidential_info_flag ≡ true
          → (latch call.fs call.reason call.prohibited call.confidential call.now_ms
              g).1.state.confidential_info_flag
            ≡ true)
unfolding latch
latch-flags call g = (λ h. grind (arith, h), λ h. grind (arith, h))

latch_all-IsStored :
    (expected : List String) (calls : List LatchCall) (g : ComplianceGuard)
    → IsStored expected g
    → IsStored expected (latch_all calls g)
unfolding latch_all
latch_all-IsStored expected [] g h = h
latch_all-IsStored expected (call ∷ rest) g h =
    latch_all-IsStored expected rest _ (latch-IsStored expected call g h)

latch_all-flags :
    (calls : List LatchCall) (g : ComplianceGuard)
    → (g.state.prohibited_conduct_flag ≡ true
        → (latch_all calls g).state.prohibited_conduct_flag ≡ true)
      × (g.state.confidential_info_flag ≡ true
          → (latch_all calls g).state.confidential_info_flag ≡ true)
unfolding latch_all
latch_all-flags [] g = (λ h. h, λ h. h)
latch_all-flags (call ∷ rest) g =
    let g' = (latch call.fs call.reason call.prohibited call.confidential call.now_ms g).1 in
    (
      λ h. (latch_all-flags rest g').0 ((latch-flags call g).0 h),
      λ h. (latch_all-flags rest g').1 ((latch-flags call g).1 h),
    )

latch_all-reopened :
    (calls : List LatchCall) (g : ComplianceGuard) (wallets : List String) (fs : OpenIo)
    (now_ms : ℕ)
    → IsStored (normalized_wallets wallets) g
    → lock_latch fs ≡ ok tt
    → fs.harden ≡ got tt
    → (g' : ComplianceGuard) × ((open_guard fs (latch_all calls g).file wallets now_ms).0 ≡ ok g')
      × (g.state.prohibited_conduct_flag ≡ true → g'.state.prohibited_conduct_flag ≡ true)
      × (g.state.confidential_info_flag ≡ true → g'.state.confidential_info_flag ≡ true)
      × (length g'.state.reasons ≤ max_compliance_reasons)
unfolding open_guard open_file
latch_all-reopened calls g wallets fs now_ms h h_lock h_harden =
    let s = latch_all-IsStored (normalized_wallets wallets) calls g h in
    let flags = latch_all-flags calls g in
    (
      record { file = some (ok s.kept); state = s.kept },
      grind (arith, s.in_file, s.file_valid, h_lock, h_harden),
      λ flag. s.prohibited_kept (flags.0 flag),
      λ flag. s.confidential_kept (flags.1 flag),
      few s.kept (normalized_wallets wallets) s.file_valid,
    )

same_texts_refl : (ss : List String) → same_texts ss ss ≡ true
same_texts_refl [] = refl
same_texts_refl (s ∷ ss) = grind (arith, eq_iff s s, same_texts_refl ss)

new_latch-valid :
    (expected : List String) (now_ms : ℕ)
    → validate_latch_state (new_latch expected now_ms) expected ≡ ok tt
unfolding validate_latch_state
new_latch-valid expected now_ms = grind (arith, same_texts_refl expected)

open_file-IsStored :
    (fs : OpenIo) (file : Option (Result ComplianceLatchState)) (expected : List String)
    (now_ms : ℕ) (g : ComplianceGuard)
    → (open_file fs file expected now_ms).0 ≡ ok g
    → IsStored expected g
unfolding open_file write_latch_state
open_file-IsStored fs none expected now_ms g h = elim (Result-cases (prepare_latch fs.write)) [
  | inr (x, h_x) ↦ absurd (grind (arith, h, h_x))
  | inl (_, h_write) ↦
      let fresh = new_latch expected now_ms in
      let same : record { file = some (ok fresh); state = fresh } ≡ g = grind (arith, h, h_write) in
      subst (IsStored expected) same (record {
        kept = fresh;
        in_file = refl;
        file_valid = new_latch-valid expected now_ms;
        state_valid = new_latch-valid expected now_ms;
        prohibited_kept = λ flag. flag;
        confidential_kept = λ flag. flag;
      })
]
open_file-IsStored fs (some content) expected now_ms g h =
    let (s, h_load, h_g) = >>=-eq-ok (load_latch fs content expected) _ h in
    let (_, _, h1) = >>=-eq-ok (io_result fs.harden) _ h_load in
    let (read, h_read, h2) = >>=-eq-ok content _ h1 in
    let (_, h_valid, h3) = >>=-eq-ok (validate_latch_state read expected) _ h2 in
    let same : record { file = some content; state = s } ≡ g = grind (arith, h_g) in
    let valid_ : validate_latch_state s expected ≡ ok tt = grind (arith, h_valid, h3) in
    subst (IsStored expected) same (record {
      kept = s;
      in_file = grind (arith, h_read, h3);
      file_valid = valid_;
      state_valid = valid_;
      prohibited_kept = λ flag. flag;
      confidential_kept = λ flag. flag;
    })

open_guard-IsStored :
    (fs : OpenIo) (file : Option (Result ComplianceLatchState)) (wallets : List String) (now_ms : ℕ)
    (g : ComplianceGuard)
    → (open_guard fs file wallets now_ms).0 ≡ ok g
    → IsStored (normalized_wallets wallets) g
unfolding open_guard open_file write_latch_state
open_guard-IsStored fs file wallets now_ms g h = elim (Result-cases (lock_latch fs)) [
  | inr (x, h_x) ↦ absurd (grind (arith, h, h_x))
  | inl (_, h_lock) ↦
      open_file-IsStored fs file (normalized_wallets wallets) now_ms g (grind (arith, h, h_lock))
]

-- A flag that keeps every flag it follows.
kept_or_unset :
    (before after : Bool) → (before ≡ true → after ≡ true) → (before ≡ false) ⊎ (after ≡ true)
kept_or_unset true after h = inr (h refl)
kept_or_unset false after h = inl refl

-- Once a guard has been opened and has latched a flag in memory, then after any later calls of
-- the latch, of which each file operation may fail, the latch opens again for the same wallets
-- and holds that flag, and it holds no more reasons than the maximum; the lock and the file's
-- permissions can be had.
pub latch_all-survives :
    (fs fs' : OpenIo) (file : Option (Result ComplianceLatchState)) (wallets : List String)
    (opened_ms reopened_ms : ℕ) (g : ComplianceGuard) (before after : List LatchCall)
    → (open_guard fs file wallets opened_ms).0 ≡ ok g
    → lock_latch fs' ≡ ok tt
    → fs'.harden ≡ got tt
    → (g' : ComplianceGuard) × ((open_guard fs'
          (latch_all after (latch_all before g)).file
          wallets
          reopened_ms).0
        ≡ ok g')
      × (((latch_all before g).state.prohibited_conduct_flag ≡ false)
          ⊎ (g'.state.prohibited_conduct_flag ≡ true))
      × (((latch_all before g).state.confidential_info_flag ≡ false)
          ⊎ (g'.state.confidential_info_flag ≡ true))
      × (length g'.state.reasons ≤ max_compliance_reasons)
latch_all-survives fs fs' file wallets opened_ms reopened_ms g before after h h_lock h_harden =
    let (g', reopened, prohibited_kept, confidential_kept, few_) =
      latch_all-reopened after (latch_all before g) wallets fs' reopened_ms
        (latch_all-IsStored (normalized_wallets wallets) before g
          (open_guard-IsStored fs file wallets opened_ms g h))
        h_lock h_harden in
    (
      g',
      reopened,
      kept_or_unset (latch_all before g).state.prohibited_conduct_flag
          g'.state.prohibited_conduct_flag prohibited_kept,
      kept_or_unset (latch_all before g).state.confidential_info_flag
          g'.state.confidential_info_flag confidential_kept,
      few_,
    )
