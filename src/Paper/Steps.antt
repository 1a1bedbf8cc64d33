-- ===== src/Paper/Steps.antt =====
-- Lemmas on the actions of paper.rs: what an action that succeeds has gone through.
use polymarket_watch_rust.Base.Int.{◌+ℤ◌, ◌-ℤ◌}
use polymarket_watch_rust.Base.Outcome.{BotError, Result, Result-cases, ok}
use polymarket_watch_rust.Base.Tests.{Bool, arith, false, inl, inr, refl, true, ◌≡◌}
use polymarket_watch_rust.Fixed.{Fixed, checked_add, checked_sub}
use polymarket_watch_rust.Paper.State.{Action, PaperEngine, gets, raise_if, ◌>>=◌, ◌>>◌}

pub >>=-eq-ok :
    {A B : Type 0} (m : Action A) (f : A → Action B) {e e' : PaperEngine} {b : B}
    → (m >>= f) e ≡ (ok b, e')
    → (a : A) × (e1 : PaperEngine) × (m e ≡ (ok a, e1)) × (f a e1 ≡ (ok b, e'))
>>=-eq-ok m f {e} h = elim (Result-cases (m e).0) [
  | inl (a, ha) ↦ (a, (m e).1, grind (arith, ha), grind (arith, ha, h))
  | inr (x, hx) ↦ absurd (grind (arith, hx, h))
]

pub gets-eq-ok :
    {A B : Type 0} (f : PaperEngine → Result A) (k : A → Action B) {e e' : PaperEngine} {b : B}
    → (gets f >>= k) e ≡ (ok b, e')
    → (a : A) × (f e ≡ ok a) × (k a e ≡ (ok b, e'))
gets-eq-ok f k {e} h = elim (Result-cases (f e)) [
  | inl (a, ha) ↦ (a, ha, grind (arith, ha, h))
  | inr (x, hx) ↦ absurd (grind (arith, hx, h))
]

pub raise_if-eq-ok :
    {B : Type 0} (c : Bool) (x : BotError) (k : Action B) {e e' : PaperEngine} {b : B}
    → (raise_if c x >> k) e ≡ (ok b, e')
    → (c ≡ false) × (k e ≡ (ok b, e'))
raise_if-eq-ok true x k h = absurd cc
raise_if-eq-ok false x k h = (refl, h)

pub checked_add-ok : (a b : Fixed) {r : Fixed} → checked_add a b ≡ ok r → r ≡ a +ℤ b
unfolding checked_add
checked_add-ok a b h = ground arith

pub checked_sub-ok : (a b : Fixed) {r : Fixed} → checked_sub a b ≡ ok r → r ≡ a -ℤ b
unfolding checked_sub
checked_sub-ok a b h = ground arith
