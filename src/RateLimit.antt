-- ===== src/RateLimit.antt =====
-- rate_limit.rs: a sliding window over the times at which requests were accepted, oldest first.
mod Examples
pub mod Window
use polymarket_watch_rust.Base.Lists.{head?, length}
use polymarket_watch_rust.Base.Tests.{
  Bool, List, Option, [], false, if◌then◌else◌, leb, ltb, none, some, true, ℕ, ◌++◌, ◌-◌, ◌==◌,
  ◌||◌, ◌∷◌,
}
use polymarket_watch_rust.Types.{checked_add_u64, checked_sub_u64}

pub record SlidingWindowRateLimiter : Type 0 where
  pub limit : ℕ
  pub window_ms : ℕ
  pub accepted_at_ms : List ℕ

-- The limit is a `u64` and fits a 64-bit `usize`.
unfoldable pub new : ℕ → ℕ → SlidingWindowRateLimiter
new limit window_ms = record { limit = limit; window_ms = window_ms; accepted_at_ms = [] }

abbrev pub per_second : ℕ → SlidingWindowRateLimiter
per_second limit = new limit 1000

-- The loop of `evict_expired`: it stops at the first time that is still in the window.
unfoldable pub evict : ℕ → ℕ → List ℕ → List ℕ
evict now_ms window_ms [] = []
evict now_ms window_ms (t ∷ ts) =
    let rest = evict now_ms window_ms ts in if leb window_ms (now_ms - t) then rest else t ∷ ts

abbrev pub evict_expired : ℕ → SlidingWindowRateLimiter → SlidingWindowRateLimiter
evict_expired now_ms r = record r { accepted_at_ms = evict now_ms r.window_ms r.accepted_at_ms }

unfoldable pub try_acquire : ℕ → SlidingWindowRateLimiter → Bool × SlidingWindowRateLimiter
try_acquire now_ms r =
    let r' = evict_expired now_ms r in
    if r.limit == 0 || r.window_ms == 0 || leb r.limit (length r'.accepted_at_ms)
    then (false, r')
    else (true, record r' { accepted_at_ms = r'.accepted_at_ms ++ now_ms ∷ [] })

-- `checked_add` and `checked_sub` on `u64`, with zero when either fails.
abbrev pub wait_from : ℕ → ℕ → Option ℕ → ℕ
wait_from now_ms window_ms none = 0
wait_from now_ms window_ms (some oldest) = elim (checked_add_u64 oldest window_ms) [
  | none ↦ 0
  | some ready_at ↦ elim (checked_sub_u64 ready_at now_ms) [ none ↦ 0 | some wait ↦ wait ]
]

unfoldable pub retry_after_ms : ℕ → SlidingWindowRateLimiter → ℕ × SlidingWindowRateLimiter
retry_after_ms now_ms r =
    let r' = evict_expired now_ms r in
    (
      (if ltb (length r'.accepted_at_ms) r.limit
          then 0
          else wait_from now_ms r.window_ms (head? r'.accepted_at_ms)),
      r',
    )
