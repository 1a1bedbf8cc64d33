-- ===== src/Behavior.antt =====
-- behavior.rs: how close a price fall is to the level at which a panic is expected.
mod Examples
pub mod Zones
use polymarket_watch_rust.Base.Int.{
  checked, div_trunc, leb_ℤ, ltb_ℤ, neg_part, negsuc, pos, pos_part, ℤ, ◌*ℤ◌, ◌+ℤ◌, ◌-ℤ◌,
}
use polymarket_watch_rust.Base.Outcome.{Result, fail_if, ok, ok_or, risk, ◌>>=◌, ◌>>◌}
use polymarket_watch_rust.Base.Tests.{Option, if◌then◌else◌, leb, none, some, ℕ, ◌&&◌, ◌+◌}
use polymarket_watch_rust.Fixed.{Fixed, checked_sub}

pub data BehavioralZone : Type 0 where
  neutral near_panic_threshold through_panic_threshold : BehavioralZone

pub data ExpectedFlow : Type 0 where
  normal elevated_retail_selling panic_selling : ExpectedFlow

pub record BehavioralPressureConfig : Type 0 where
  pub panic_threshold_bps : ℤ
  pub pre_threshold_buffer_bps : ℤ
  pub expected_cascade_bps : ℤ

abbrev pub default_pressure_config : BehavioralPressureConfig
default_pressure_config = record {
  panic_threshold_bps = negsuc 1499;
  pre_threshold_buffer_bps = pos 20;
  expected_cascade_bps = pos 150;
}

pub record BehavioralPressure : Type 0 where
  pub drawdown_bps : ℤ
  pub zone : BehavioralZone
  pub expected_flow : ExpectedFlow
  pub expected_adverse_move_bps : ℤ

abbrev i64_max : ℕ
i64_max = 9223372036854775807

-- The checked operations of `i64`, given the exact result.
abbrev checked_i64 : ℤ → Option ℤ
checked_i64 a = if leb (pos_part a) i64_max && leb (neg_part a) (i64_max + 1) then some a else none

-- The price change in basis points of the reference price.
pub drawdown : Fixed → Fixed → Result ℤ
drawdown reference_price current_price = do
  price_delta ← checked_sub current_price reference_price
  scaled ←
      ok_or (checked (price_delta *ℤ pos 10000)) (risk "behavior_drawdown_calculation_overflow")
  bps ←
      ok_or (checked (div_trunc scaled reference_price))
        (risk "behavior_drawdown_calculation_overflow")
  ok_or (checked_i64 bps) (risk "behavior_drawdown_bps_overflow")

classify : BehavioralPressureConfig → ℤ → ℤ → Result BehavioralPressure
classify cfg drawdown_bps near_threshold_bps =
    if leb_ℤ drawdown_bps cfg.panic_threshold_bps
    then ok (record {
      drawdown_bps = drawdown_bps;
      zone = through_panic_threshold;
      expected_flow = panic_selling;
      expected_adverse_move_bps = cfg.expected_cascade_bps;
    })
    else if leb_ℤ drawdown_bps near_threshold_bps
    then (do
      distance ←
          ok_or (checked_i64 (cfg.panic_threshold_bps -ℤ drawdown_bps))
            (risk "behavior_adverse_move_overflow")
      ok (record {
        drawdown_bps = drawdown_bps;
        zone = near_panic_threshold;
        expected_flow = elevated_retail_selling;
        expected_adverse_move_bps = distance;
      }))
    else ok (record {
      drawdown_bps = drawdown_bps;
      zone = neutral;
      expected_flow = normal;
      expected_adverse_move_bps = pos 0;
    })

pub estimate_behavioral_pressure :
    Fixed → Fixed → BehavioralPressureConfig → Result BehavioralPressure
estimate_behavioral_pressure reference_price current_price cfg = do
  fail_if (leb_ℤ reference_price (pos 0)) (risk "behavior_reference_price_must_be_positive")
  fail_if (leb_ℤ (pos 0) cfg.panic_threshold_bps) (risk "panic_threshold_bps_must_be_negative")
  fail_if (ltb_ℤ cfg.pre_threshold_buffer_bps (pos 0))
      (risk "pre_threshold_buffer_bps_must_be_non_negative")
  fail_if (ltb_ℤ cfg.expected_cascade_bps (pos 0))
      (risk "expected_cascade_bps_must_be_non_negative")
  drawdown_bps ← drawdown reference_price current_price
  near_threshold_bps ←
      ok_or (checked_i64 (cfg.panic_threshold_bps +ℤ cfg.pre_threshold_buffer_bps))
        (risk "behavior_threshold_overflow")
  classify cfg drawdown_bps near_threshold_bps
