-- ===== src/Behavior/Zones.antt =====
-- Which zone behavior.rs reports for a price fall.
use polymarket_watch_rust.Base.Int.{+ℤ_parts, leb_ℤ, pos, ℤ, ◌+ℤ◌, ◌<ℤ◌, ◌≤ℤ◌, -ℤ_add_cancel}
use polymarket_watch_rust.Base.Outcome.{Result-cases, ok}
use polymarket_watch_rust.Base.Tests.{Bool-cases, arith, inl, inr, ◌≡◌, ◌⊎◌}
use polymarket_watch_rust.Behavior.{
  BehavioralPressure, BehavioralPressureConfig, classify, drawdown, estimate_behavioral_pressure,
  near_panic_threshold, neutral, through_panic_threshold,
}
use polymarket_watch_rust.Fixed.{Fixed}

-- A report that is made follows the thresholds: a fall to the panic threshold or below it is through
-- it and is expected to cascade, one within the buffer above it is near it by the distance that is
-- left, and any other is neutral.
abbrev pub ZoneFits : BehavioralPressureConfig → BehavioralPressure → Type 0
ZoneFits cfg p =
    ((p.drawdown_bps ≤ℤ cfg.panic_threshold_bps)
      × (p.zone ≡ through_panic_threshold)
      × (p.expected_adverse_move_bps ≡ cfg.expected_cascade_bps))
    ⊎ ((cfg.panic_threshold_bps <ℤ p.drawdown_bps)
        × (p.drawdown_bps ≤ℤ cfg.panic_threshold_bps +ℤ cfg.pre_threshold_buffer_bps)
        × (p.zone ≡ near_panic_threshold)
        × (p.expected_adverse_move_bps +ℤ p.drawdown_bps ≡ cfg.panic_threshold_bps))
    ⊎ ((cfg.panic_threshold_bps +ℤ cfg.pre_threshold_buffer_bps <ℤ p.drawdown_bps)
        × (p.zone ≡ neutral)
        × (p.expected_adverse_move_bps ≡ pos 0))

classify-ZoneFits :
    (cfg : BehavioralPressureConfig) (fall : ℤ) {p : BehavioralPressure}
    → pos 0 ≤ℤ cfg.pre_threshold_buffer_bps
    → classify cfg fall (cfg.panic_threshold_bps +ℤ cfg.pre_threshold_buffer_bps) ≡ ok p
    → ZoneFits cfg p × (p.drawdown_bps ≡ fall)
unfolding classify
classify-ZoneFits cfg fall h e = elim (Bool-cases (leb_ℤ fall cfg.panic_threshold_bps)) [
  | inl through ↦ ground arith
  | inr above ↦ ground (
    arith,
    -ℤ_add_cancel cfg.panic_threshold_bps fall,
    +ℤ_parts cfg.panic_threshold_bps cfg.pre_threshold_buffer_bps,
  )
]

estimate_steps :
    (reference current : Fixed) (cfg : BehavioralPressureConfig) (p : BehavioralPressure)
    → estimate_behavioral_pressure reference current cfg ≡ ok p
    → (d : ℤ) × (drawdown reference current ≡ ok d)
      × (pos 0 ≤ℤ cfg.pre_threshold_buffer_bps)
      × (classify cfg d (cfg.panic_threshold_bps +ℤ cfg.pre_threshold_buffer_bps) ≡ ok p)
unfolding estimate_behavioral_pressure
estimate_steps reference current cfg p h = elim (Result-cases (drawdown reference current)) [
  | inl (d, e) ↦ (d, e, ground arith, ground arith)
  | inr (x, e) ↦ absurd (ground arith)
]

-- A pressure that is reported has the drawdown computed from the two prices, and its zone, flow
-- and expected move follow the thresholds.
pub estimate_behavioral_pressure_lem :
    (reference current : Fixed) (cfg : BehavioralPressureConfig) {p : BehavioralPressure}
    → estimate_behavioral_pressure reference current cfg ≡ ok p
    → ZoneFits cfg p × (drawdown reference current ≡ ok p.drawdown_bps)
estimate_behavioral_pressure_lem reference current cfg {p} h =
    let (d, fall, buffer, classified) = estimate_steps reference current cfg p h in
    let (fits, same) = classify-ZoneFits cfg d buffer classified in (fits, rw same fall)
