-- ===== src/RateLimit/Examples.antt =====
-- The theorem on rate_limit.rs at concrete requests.
use polymarket_watch_rust.Base.Tests.{List, [], arith, refl, true, ℕ, ◌+◌, ◌<◌, ◌↔◌, ◌∷◌, ◌≡◌, ◌≤◌}
use polymarket_watch_rust.RateLimit.{SlidingWindowRateLimiter, evict, new, try_acquire}
use polymarket_watch_rust.RateLimit.Window.{
  fresh, recent, serve, serve_all, serve_all-within_limit, try_acquire-accepts_iff,
}

abbrev some_times : List ℕ
some_times = 100 ∷ 200 ∷ 1099 ∷ 1100 ∷ []

accepted_times : (serve_all some_times (fresh 2 1000)).history ≡ 100 ∷ 200 ∷ 1100 ∷ []
unfolding serve_all serve try_acquire evict new
accepted_times = refl

serve_all-within_limit_example :
    recent (1100 + 50) 1000 (serve_all some_times (fresh 2 1000)).history ≤ 2
serve_all-within_limit_example =
    serve_all-within_limit 2 1000 some_times 50
      (omega arith, (omega arith, (omega arith, (omega arith, tt))))

abbrev half_used : SlidingWindowRateLimiter
half_used = record { limit = 2; window_ms = 1000; accepted_at_ms = 100 ∷ 1200 ∷ [] }

try_acquire-accepts_iff_example :
    ((try_acquire 1300 half_used).0 ≡ true) ↔ (recent 1300 1000 (100 ∷ 1200 ∷ []) < 2)
try_acquire-accepts_iff_example =
    try_acquire-accepts_iff 1300 half_used (omega arith, (omega arith, tt), (omega arith, tt, tt))
      (omega arith)
