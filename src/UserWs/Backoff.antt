-- ===== src/UserWs/Backoff.antt =====
-- About user_ws.rs: how long the feed waits before it connects again.
use native.Mathlib.Nat.{le-mul_of_pos_right, one-le-pow, pow-succ'}
use polymarket_watch_rust.Base.Int.{u64_max}
use polymarket_watch_rust.Base.Tests.{
  Bool, Bool-cases, List, [], ap, arith, false, inl, inr, leb, suc, true, zero, ℕ, ◌*◌, ◌++◌, ◌<◌,
  ◌^◌, ◌∙◌, ◌∷◌, ◌≡◌, ◌≤◌,
}
use polymarket_watch_rust.UserWs.Session.{
  at_least_one, backoff_after, doubled, next_backoff, smaller, wait_ms,
}

-- Sessions that never connected.
abbrev pub failures_of : ℕ → List Bool
failures_of zero = []
failures_of (suc n) = false ∷ failures_of n

smaller-mul :
    (a bound factor : ℕ)
    → 0 < factor
    → smaller (smaller a bound * factor) bound ≡ smaller (a * factor) bound
smaller-mul a bound factor h = elim (Bool-cases (leb a bound)) [
  | inl low ↦ grind (arith, low)
  | inr high ↦
      grind (
        arith,
        high,
        le-mul_of_pos_right {m = factor} bound h,
        le-mul_of_pos_right {m = factor} a h,
      )
]

backoff_after-doubles :
    (n reconnect_min_ms reconnect_max_ms backoff_ms : ℕ)
    → reconnect_max_ms ≤ u64_max
    → backoff_after reconnect_min_ms reconnect_max_ms (failures_of (suc n)) backoff_ms
      ≡ smaller (backoff_ms * 2 ^ suc n) (at_least_one reconnect_max_ms)
unfolding backoff_after next_backoff wait_ms
backoff_after-doubles zero reconnect_min_ms reconnect_max_ms backoff_ms h = ground (arith, h)
backoff_after-doubles (suc n) reconnect_min_ms reconnect_max_ms backoff_ms h =
    let bound = at_least_one reconnect_max_ms in
    let next = smaller (doubled backoff_ms) bound in
    let same : next ≡ smaller (backoff_ms * 2) bound = ground (arith, h) in
    let ih = backoff_after-doubles n reconnect_min_ms reconnect_max_ms next h in
    let scaled =
      smaller-mul (backoff_ms * 2) bound (2 ^ suc n) (one-le-pow (suc n) 2 (omega arith)) in
    let power : 2 ^ suc (suc n) ≡ 2 * 2 ^ suc n = pow-succ' 2 (suc n) in
    let regroup : backoff_ms * 2 * 2 ^ suc n ≡ backoff_ms * 2 ^ suc (suc n) =
      grind (arith, power) in
    ih ∙ ap (λ b. smaller (b * 2 ^ suc n) bound) same ∙ scaled ∙ ap (λ b. smaller b bound) regroup

-- After a session that was connected and two or more after it that were not, the feed waits the
-- least wait, doubled once for each of these sessions that was not connected, and never more
-- than the greatest wait, whatever came before. Both are at least one millisecond, and the
-- greatest fits a u64.
pub backoff_after-failures :
    (n reconnect_min_ms reconnect_max_ms : ℕ) (sessions : List Bool) (backoff_ms : ℕ)
    → reconnect_max_ms ≤ u64_max
    → wait_ms reconnect_min_ms false (
        backoff_after reconnect_min_ms reconnect_max_ms
          (sessions ++ true ∷ failures_of (suc n))
          backoff_ms)
      ≡ smaller (at_least_one reconnect_min_ms * 2 ^ suc (suc n)) (at_least_one reconnect_max_ms)
unfolding backoff_after next_backoff wait_ms
backoff_after-failures n reconnect_min_ms reconnect_max_ms [] backoff_ms h =
    backoff_after-doubles (suc n) reconnect_min_ms reconnect_max_ms (at_least_one reconnect_min_ms)
      h
backoff_after-failures n reconnect_min_ms reconnect_max_ms (once ∷ rest) backoff_ms h =
    backoff_after-failures n reconnect_min_ms reconnect_max_ms rest _ h
