-- ===== src/Compliance/Eligible.antt =====
-- About compliance.rs: what the check demands, against the status that is shown.
use polymarket_watch_rust.Base.Outcome.{ok}
use polymarket_watch_rust.Base.Tests.{Option-cases, arith, false, inl, inr, ℕ, ◌↔◌, ◌≡◌}
use polymarket_watch_rust.Compliance.{
  ComplianceState, check_compliance, check_geography, eligibility_status_at, eligible,
  has_geoblock_response,
}
use polymarket_watch_rust.Config.{Settings}
use polymarket_watch_rust.Types.{BotMode}

-- In live mode the compliance check passes exactly when neither flag is set and the location is
-- eligible at that time.
pub check_compliance-live_iff :
    (settings : Settings) (s : ComplianceState) (now_ms : ℕ)
    → settings.mode ≡ BotMode.live
    → (check_compliance settings s now_ms ≡ ok tt) ↔ (
        (s.prohibited_conduct_flag ≡ false)
        × (s.confidential_info_flag ≡ false)
        × (eligibility_status_at s now_ms settings.max_geoblock_age_ms ≡ eligible))
unfolding check_compliance check_geography eligibility_status_at has_geoblock_response
check_compliance-live_iff settings s now_ms live_ = elim (Option-cases s.checked_at_ms) [
  | inl never ↦ (λ h. grind (arith, live_, never, h), λ h. grind (arith, live_, never, h))
  | inr (t, known) ↦ (λ h. grind (arith, live_, known, h), λ h. grind (arith, live_, known, h))
]
