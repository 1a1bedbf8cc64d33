-- ===== src/Execution/Gates.antt =====
-- About execution.rs: everything that has to hold before an order goes out.
use polymarket_watch_rust.Base.Outcome.{>>=-eq-ok, BotError, fail_if, ok, ◌>>◌}
use polymarket_watch_rust.Base.Tests.{
  Bool, Bool-cases, arith, false, if◌then◌else◌, inl, inr, not, refl, true, ℕ, ◌↔◌, ◌≡◌, ◌⊎◌,
}
use polymarket_watch_rust.Compliance.{check_compliance, is_live}
use polymarket_watch_rust.Execution.{
  ExecutionContext, account_revision_matches, check_engine_mode, check_gates,
}
use polymarket_watch_rust.Heartbeat.{require_healthy}
use polymarket_watch_rust.MatchingEngine.{MatchingEngineMode}
use polymarket_watch_rust.Readiness.{require_live_ready}
use polymarket_watch_rust.Reconcile.{require_recovered}
use polymarket_watch_rust.Risk.{RiskDecision, accept, check_order, into_result, reject}
use polymarket_watch_rust.Types.{OrderIntent}

-- The matching engine takes this order.
abbrev pub TakesOrder : MatchingEngineMode → Bool → Type 0
TakesOrder mode post_only =
    (mode ≡ MatchingEngineMode.normal)
    ⊎ (((mode ≡ MatchingEngineMode.post_only) ⊎ (mode ≡ MatchingEngineMode.post_only_recovery))
        × (post_only ≡ true))

pub record IsCleared (context : ExecutionContext) (i : OrderIntent) (loaded now_ms : ℕ)
    : Type 0 where
  pub same_account : account_revision_matches context loaded ≡ true
  pub accepted :
      check_order context.settings context.market context.book i
        (record context.risk_state { now_ms = now_ms })
      ≡ accept
  pub ready : require_live_ready context.settings context.readiness ≡ ok tt
  pub compliant : check_compliance context.settings context.compliance now_ms ≡ ok tt
  pub while_live :
      (is_live context.settings.mode ≡ false)
      ⊎ ((require_healthy context.heartbeat ≡ ok tt)
          × (context.recovery.live_unlock_allowed ≡ true))
  pub taken : TakesOrder context.matching_engine.mode i.post_only

check_engine_mode_iff :
    (mode : MatchingEngineMode) (post_only : Bool)
    → (check_engine_mode mode post_only ≡ ok tt) ↔ TakesOrder mode post_only
unfolding check_engine_mode
check_engine_mode_iff mode post_only = (to mode post_only, from mode post_only)
  where
    to : (m : MatchingEngineMode) (p : Bool) → check_engine_mode m p ≡ ok tt → TakesOrder m p
    to MatchingEngineMode.normal p h = inl refl
    to MatchingEngineMode.post_only true h = inr (inl refl, refl)
    to MatchingEngineMode.post_only_recovery true h = inr (inr refl, refl)
    to MatchingEngineMode.post_only false h = cc
    to MatchingEngineMode.post_only_recovery false h = cc
    to MatchingEngineMode.restarting p h = cc
    to MatchingEngineMode.cancel_only p h = cc
    to MatchingEngineMode.read_only p h = cc

    from : (m : MatchingEngineMode) (p : Bool) → TakesOrder m p → check_engine_mode m p ≡ ok tt
    from m p (inl e) = rw e refl
    from m p (inr (inl e, yes_)) = rw (e, yes_) refl
    from m p (inr (inr e, yes_)) = rw (e, yes_) refl

into_result-eq-ok : (d : RiskDecision) → into_result d ≡ ok tt → d ≡ accept
unfolding into_result
into_result-eq-ok accept h = refl
into_result-eq-ok (reject reason) h = cc

while_live_of :
    (context : ExecutionContext)
    → (if is_live context.settings.mode
        then require_healthy context.heartbeat >> require_recovered context.recovery
        else ok tt)
      ≡ ok tt
    → (is_live context.settings.mode ≡ false)
      ⊎ ((require_healthy context.heartbeat ≡ ok tt)
          × (context.recovery.live_unlock_allowed ≡ true))
while_live_of context h = elim (Bool-cases (is_live context.settings.mode)) [
  | inl live_ ↦ inr (grind (arith, h, live_), grind (arith, h, live_))
  | inr paper_ ↦ inl paper_
]

-- The gates let an order through exactly when the account revision is the expected one, the
-- risk checks accept the order at that time, the readiness and the compliance checks pass, the
-- matching engine takes the order (any order in normal mode, post-only orders in the post-only
-- modes, none otherwise), and, in live mode, the heartbeat is healthy and recovery has unlocked
-- trading.
pub check_gates-IsCleared :
    (context : ExecutionContext) (i : OrderIntent) (loaded now_ms : ℕ)
    → (check_gates context i loaded now_ms ≡ ok tt) ↔ IsCleared context i loaded now_ms
unfolding check_gates into_result
check_gates-IsCleared context i loaded now_ms = (
  λ h.
      let (_, h0, h1) =
        >>=-eq-ok
          (fail_if (not (account_revision_matches context loaded))
            (BotError.readiness "account_revision_changed_before_submit"))
          _ h in
      let (_, h_risk, h2) =
        >>=-eq-ok
          (into_result (
            check_order context.settings context.market context.book i
              (record context.risk_state { now_ms = now_ms })))
          _ h1 in
      let (_, h_ready, h3) =
        >>=-eq-ok (require_live_ready context.settings context.readiness) _ h2 in
      let (_, h_compliant, h4) =
        >>=-eq-ok (check_compliance context.settings context.compliance now_ms) _ h3 in
      let (_, h_live, h_engine) =
        >>=-eq-ok
          (if is_live context.settings.mode
            then require_healthy context.heartbeat >> require_recovered context.recovery
            else ok tt)
          _ h4 in
      record {
        same_account = grind (arith, h0);
        accepted = into_result-eq-ok _ h_risk;
        ready = h_ready;
        compliant = h_compliant;
        while_live = while_live_of context h_live;
        taken = (check_engine_mode_iff context.matching_engine.mode i.post_only).0 h_engine;
      },
  λ c.
      let engine = (check_engine_mode_iff context.matching_engine.mode i.post_only).1 c.taken in
      elim c.while_live [
        | inr (healthy_, recovered_) ↦ elim (Bool-cases (is_live context.settings.mode)) [
          | inl live_ ↦
              simp (c.same_account, c.accepted, c.ready, c.compliant, live_, healthy_, recovered_)
                engine
          | inr paper_ ↦ simp (c.same_account, c.accepted, c.ready, c.compliant, paper_) engine
        ]
        | inl paper_ ↦ simp (c.same_account, c.accepted, c.ready, c.compliant, paper_) engine
      ],
)
