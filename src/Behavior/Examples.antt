-- ===== src/Behavior/Examples.antt =====
-- A test of behavior.rs at a concrete fall.
use polymarket_watch_rust.Base.Int.{div_trunc, negsuc, pos, ◌*ℤ◌, ◌+ℤ◌, ◌-ℤ◌}
use polymarket_watch_rust.Base.Outcome.{ok}
use polymarket_watch_rust.Base.Tests.{refl, ◌≡◌}
use polymarket_watch_rust.Behavior.{
  BehavioralPressure, classify, default_pressure_config, drawdown, estimate_behavioral_pressure,
  panic_selling, through_panic_threshold,
}
use polymarket_watch_rust.Fixed.{checked_sub}

abbrev fallen : BehavioralPressure
fallen = record {
  drawdown_bps = negsuc 1599;
  zone = through_panic_threshold;
  expected_flow = panic_selling;
  expected_adverse_move_bps = pos 150;
}

fallen_far :
    estimate_behavioral_pressure (pos 500000) (pos 420000) default_pressure_config ≡ ok fallen
unfolding estimate_behavioral_pressure drawdown checked_sub ◌-ℤ◌ ◌*ℤ◌ div_trunc ◌+ℤ◌ classify
fallen_far = refl
