-- ===== src/RateLimit/Window.antt =====
-- About rate_limit.rs: the requests that are accepted, counted within a window.
use polymarket_watch_rust.Base.Lists.{All, length, length-append}
use polymarket_watch_rust.Base.Tests.{
  Bool-cases, List, [], arith, if◌then◌else◌, inl, inr, leb, ltb, refl, suc, true, ℕ, ⊤, ◌++◌, ◌+◌,
  ◌-◌, ◌<◌, ◌↔◌, ◌∷◌, ◌≡◌, ◌≤◌,
}
use polymarket_watch_rust.RateLimit.{SlidingWindowRateLimiter, evict, new, try_acquire}

-- How many of the times lie less than one window before `now_ms`.
abbrev pub recent : ℕ → ℕ → List ℕ → ℕ
recent now_ms window_ms [] = 0
recent now_ms window_ms (t ∷ ts) =
    let n = recent now_ms window_ms ts in if ltb (now_ms - t) window_ms then suc n else n

-- Times that go forward from `start`.
abbrev pub IsForward : ℕ → List ℕ → Type 0
IsForward start [] = ⊤
IsForward start (t ∷ ts) = (start ≤ t) × IsForward t ts

-- The time of the last request, or `start` when there is none.
abbrev pub last_time : ℕ → List ℕ → ℕ
last_time start [] = start
last_time start (t ∷ ts) = last_time t ts

-- A limiter, with the times of all the requests that it has accepted.
pub record Served : Type 0 where
  pub history : List ℕ
  pub limiter : SlidingWindowRateLimiter

unfoldable pub serve : ℕ → Served → Served
serve now_ms s =
    let answer = try_acquire now_ms s.limiter in
    record {
      history = (if answer.0 then s.history ++ now_ms ∷ [] else s.history);
      limiter = answer.1;
    }

-- Requests at these times, one after another.
unfoldable pub serve_all : List ℕ → Served → Served
serve_all [] s = s
serve_all (t ∷ ts) s = serve_all ts (serve t s)

abbrev pub fresh : ℕ → ℕ → Served
fresh limit window_ms = record { history = []; limiter = new limit window_ms }

recent-append :
    (now_ms window_ms : ℕ) (xs ys : List ℕ)
    → recent now_ms window_ms (xs ++ ys) ≡ recent now_ms window_ms xs + recent now_ms window_ms ys
recent-append now_ms window_ms [] ys = omega arith
recent-append now_ms window_ms (x ∷ xs) ys = ground (arith, recent-append now_ms window_ms xs ys)

recent-le-length : (now_ms window_ms : ℕ) (xs : List ℕ) → recent now_ms window_ms xs ≤ length xs
recent-le-length now_ms window_ms [] = omega arith
recent-le-length now_ms window_ms (x ∷ xs) = ground (arith, recent-le-length now_ms window_ms xs)

-- What is evicted is out of the window, then and later.
recent-evict :
    (later now_ms window_ms : ℕ) (xs : List ℕ)
    → now_ms ≤ later
    → recent later window_ms (evict now_ms window_ms xs) ≡ recent later window_ms xs
unfolding evict
recent-evict later now_ms window_ms [] h = refl
recent-evict later now_ms window_ms (x ∷ xs) h =
    ground (arith, recent-evict later now_ms window_ms xs h)

length-evict_le :
    (now_ms window_ms : ℕ) (xs : List ℕ) → length (evict now_ms window_ms xs) ≤ length xs
unfolding evict
length-evict_le now_ms window_ms [] = omega arith
length-evict_le now_ms window_ms (x ∷ xs) = ground (arith, length-evict_le now_ms window_ms xs)

-- What a limiter knows of the requests that it has accepted by `now_ms`.
pub record Tracks (limit window_ms now_ms : ℕ) (s : Served) : Type 0 where
  pub same_limit : s.limiter.limit ≡ limit
  pub same_window : s.limiter.window_ms ≡ window_ms
  pub bounded : length s.limiter.accepted_at_ms ≤ limit
  pub counted :
      (wait : ℕ)
      → recent (now_ms + wait) window_ms s.history
        ≡ recent (now_ms + wait) window_ms s.limiter.accepted_at_ms

serve-bounded :
    {limit window_ms before : ℕ} (t : ℕ) (s : Served)
    → Tracks limit window_ms before s
    → length (serve t s).limiter.accepted_at_ms ≤ limit
unfolding serve try_acquire
serve-bounded t s h = grind (
  arith,
  h.bounded,
  h.same_limit,
  length-evict_le t s.limiter.window_ms s.limiter.accepted_at_ms,
  length-append (evict t s.limiter.window_ms s.limiter.accepted_at_ms) (t ∷ []),
)

serve-counted :
    {limit window_ms before : ℕ} (t wait : ℕ) (s : Served)
    → before ≤ t
    → Tracks limit window_ms before s
    → recent (t + wait) window_ms (serve t s).history
      ≡ recent (t + wait) window_ms (serve t s).limiter.accepted_at_ms
unfolding serve try_acquire
serve-counted {limit} {window_ms} {before} t wait s h_t h = grind (
  arith,
  h.same_window,
  h.counted (t + wait - before),
  recent-evict (t + wait) t window_ms s.limiter.accepted_at_ms (omega arith),
  recent-append (t + wait) window_ms s.history (t ∷ []),
  recent-append (t + wait) window_ms (evict t window_ms s.limiter.accepted_at_ms) (t ∷ []),
)

serve-Tracks :
    {limit window_ms before : ℕ} (t : ℕ) (s : Served)
    → before ≤ t
    → Tracks limit window_ms before s
    → Tracks limit window_ms t (serve t s)
unfolding serve try_acquire
serve-Tracks {limit} {window_ms} {before} t s h_t h = record {
  same_limit = grind (arith, h.same_limit);
  same_window = grind (arith, h.same_window);
  bounded = serve-bounded t s h;
  counted = λ wait. serve-counted t wait s h_t h;
}

serve_all-Tracks :
    {limit window_ms before : ℕ} (times : List ℕ) (s : Served)
    → IsForward before times
    → Tracks limit window_ms before s
    → Tracks limit window_ms (last_time before times) (serve_all times s)
unfolding serve_all
serve_all-Tracks [] s h_t h = h
serve_all-Tracks (t ∷ ts) s h_t h = serve_all-Tracks ts (serve t s) h_t.1 (serve-Tracks t s h_t.0 h)

fresh-Tracks : (limit window_ms : ℕ) → Tracks limit window_ms 0 (fresh limit window_ms)
unfolding new
fresh-Tracks limit window_ms = record {
  same_limit = refl;
  same_window = refl;
  bounded = omega arith;
  counted = λ wait. refl;
}

-- Of requests whose times go forward, no more than the limit are accepted within one window:
-- when the last of them has been answered, and at any time after that, at most the limit of the
-- times that were accepted are less than one window old.
pub serve_all-within_limit :
    (limit window_ms : ℕ) (times : List ℕ) (wait : ℕ)
    → IsForward 0 times
    → recent (last_time 0 times + wait) window_ms (serve_all times (fresh limit window_ms)).history
      ≤ limit
serve_all-within_limit limit window_ms times wait h =
    let s = serve_all times (fresh limit window_ms) in
    let tracks = serve_all-Tracks times (fresh limit window_ms) h (fresh-Tracks limit window_ms) in
    omega (
      arith,
      tracks.counted wait,
      tracks.bounded,
      recent-le-length (last_time 0 times + wait) window_ms s.limiter.accepted_at_ms,
    )

-- The times of a limiter are in order, the last of them at most `now_ms`.
abbrev pub IsUntil : ℕ → List ℕ → Type 0
IsUntil now_ms [] = ⊤
IsUntil now_ms (t ∷ ts) = (t ≤ now_ms) × All (λ s. t ≤ s) ts × IsUntil now_ms ts

recent-All :
    (now_ms window_ms t : ℕ) (ts : List ℕ)
    → now_ms - t < window_ms
    → All (λ s. t ≤ s) ts
    → recent now_ms window_ms ts ≡ length ts
recent-All now_ms window_ms t [] h hs = refl
recent-All now_ms window_ms t (s ∷ ts) h hs =
    ground (arith, recent-All now_ms window_ms t ts h hs.1)

length-evict :
    (now_ms window_ms : ℕ) (ts : List ℕ)
    → IsUntil now_ms ts
    → length (evict now_ms window_ms ts) ≡ recent now_ms window_ms ts
unfolding evict
length-evict now_ms window_ms [] h = refl
length-evict now_ms window_ms (t ∷ ts) h = elim (Bool-cases (leb window_ms (now_ms - t))) [
  | inl old ↦ grind (arith, old, length-evict now_ms window_ms ts h.2)
  | inr young ↦ grind (arith, young, recent-All now_ms window_ms t ts (ground (arith, young)) h.1)
]

-- A request is accepted exactly when fewer than the limit of the times that the limiter holds
-- are less than one window old, if its times are in order and its window is not empty.
pub try_acquire-accepts_iff :
    (now_ms : ℕ) (r : SlidingWindowRateLimiter)
    → IsUntil now_ms r.accepted_at_ms
    → 0 < r.window_ms
    → ((try_acquire now_ms r).0 ≡ true) ↔ (recent now_ms r.window_ms r.accepted_at_ms < r.limit)
unfolding try_acquire
try_acquire-accepts_iff now_ms r h h_window =
    let counted = length-evict now_ms r.window_ms r.accepted_at_ms h in
    (λ h_yes. grind (arith, counted, h_yes), λ room. grind (arith, counted, room))
