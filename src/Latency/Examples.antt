-- ===== src/Latency/Examples.antt =====
-- The theorem on latency.rs at concrete samples.
use polymarket_watch_rust.Base.Lists.{length}
use polymarket_watch_rust.Base.Tests.{[], arith, refl, some, ℕ, ◌*◌, ◌<◌, ◌∷◌, ◌≡◌, ◌≤◌}
use polymarket_watch_rust.Latency.{insert_value, percentile, sort_values}
use polymarket_watch_rust.Latency.Rank.{count_at_most, count_below, percentile_lem}

middle : percentile (30 ∷ 10 ∷ 20 ∷ 40 ∷ []) 50 ≡ some 20
unfolding percentile sort_values insert_value
middle = refl

percentile_lem_example :
    (v : ℕ) × (percentile (30 ∷ 10 ∷ 20 ∷ 40 ∷ []) 50 ≡ some v)
    × (50 * length {A = ℕ} (30 ∷ 10 ∷ 20 ∷ 40 ∷ [])
        ≤ count_at_most v (30 ∷ 10 ∷ 20 ∷ 40 ∷ []) * 100)
    × (count_below v (30 ∷ 10 ∷ 20 ∷ 40 ∷ []) * 100 < 50 * length {A = ℕ} (30 ∷ 10 ∷ 20 ∷ 40 ∷ []))
percentile_lem_example = percentile_lem 30 (10 ∷ 20 ∷ 40 ∷ []) 50 (omega arith) (omega arith)
