-- ===== src/Paper/Invariant/Operations.antt =====
-- About paper.rs: a new engine, submission and cancellation, and the engine's invariant.
use polymarket_watch_rust.Base.BTreeMap.{lookup, lookup-insert}
use polymarket_watch_rust.Base.Int.{int_laws, pos, ◌<ℤ◌}
use polymarket_watch_rust.Base.Outcome.{ok}
use polymarket_watch_rust.Base.Tests.{
  Bool, List, Option, String, [], arith, false, if◌then◌else◌, none, refl, some, str_eq, subst, sym,
  true, ℕ, ◌&&◌, ◌∷◌, ◌≡◌,
}
use polymarket_watch_rust.Fixed.{Fixed}
use polymarket_watch_rust.Paper.Fills.{put_order}
use polymarket_watch_rust.Paper.Invariant.{Holds, IsSoundEngine, IsSoundOrder, if-Holds}
use polymarket_watch_rust.Paper.Orders.{cancel, cancel_each, cancelled, resting_order, submit}
use polymarket_watch_rust.Paper.Orders.Cancelling.{
  cancel-lookup, cancel-SameAccount, cancelled_if, map_option, SameAccount,
}
use polymarket_watch_rust.Paper.State.{PaperEngine, PaperOrder, order_open}
use polymarket_watch_rust.Paper.Validate.{new}
use polymarket_watch_rust.Types.{OrderIntent}

pub new-IsSoundEngine :
    (starting_cash : Fixed) (fee_bps participation_bps : ℕ) {e : PaperEngine}
    → new starting_cash fee_bps participation_bps ≡ ok e
    → IsSoundEngine e
unfolding new
new-IsSoundEngine starting_cash fee_bps participation_bps {e} h = record {
  bps = ground arith;
  cash = ground arith;
  fees = ground arith;
  positions = λ asset. grind arith;
  orders = λ id. subst (Holds IsSoundOrder) (sym (empty id)) tt;
}
  where
    empty : (id : String) → lookup id e.orders ≡ none
    empty id = grind arith

-- What keeps every order sound and changes nothing else keeps the engine sound.
pub SameAccount-IsSoundEngine :
    {e e' : PaperEngine}
    → IsSoundEngine e
    → SameAccount e e'
    → ((id : String) → Holds IsSoundOrder (lookup id e'.orders))
    → IsSoundEngine e'
SameAccount-IsSoundEngine {e} {e'} s h orders =
    subst IsSoundEngine (sym h) (record {
      bps = s.bps;
      cash = s.cash;
      fees = s.fees;
      positions = s.positions;
      orders = orders;
    })

cancelled-IsSoundOrder :
    (now_ms : ℕ) (reason : String) (o : PaperOrder)
    → IsSoundOrder o
    → IsSoundOrder (cancelled now_ms reason o)
cancelled-IsSoundOrder now_ms reason o s = record {
  filled = s.filled;
  remaining = s.remaining;
  fees = s.fees;
  conserved = s.conserved;
  complete = refl;
}

choose :
    (P : PaperOrder → Type 0) (c : Bool) (a b : PaperOrder) → P a → P b → P (if c then a else b)
choose P true a b pa pb = pa
choose P false a b pa pb = pb

pub cancelled_if-IsSoundOrder :
    (now_ms : ℕ) (reason : String) (c : Bool) (o : Option PaperOrder)
    → Holds IsSoundOrder o
    → Holds IsSoundOrder (map_option (cancelled_if now_ms reason c) o)
cancelled_if-IsSoundOrder now_ms reason c none s = tt
cancelled_if-IsSoundOrder now_ms reason c (some o) s =
    choose IsSoundOrder (order_open o && c) (cancelled now_ms reason o) o
      (cancelled-IsSoundOrder now_ms reason o s) s

pub cancel-IsSoundEngine :
    (id : String) (now_ms : ℕ) (reason : String) (e : PaperEngine)
    → IsSoundEngine e
    → IsSoundEngine (cancel id now_ms reason e).1
cancel-IsSoundEngine id now_ms reason e s =
    SameAccount-IsSoundEngine s (cancel-SameAccount id now_ms reason e) (λ k.
      subst (Holds IsSoundOrder) (sym (cancel-lookup id now_ms reason e k))
        (cancelled_if-IsSoundOrder now_ms reason (str_eq k id) (lookup k e.orders) (s.orders k)))

pub cancel_each-IsSoundEngine :
    (ids : List String) (now_ms : ℕ) (reason : String) (e : PaperEngine)
    → IsSoundEngine e
    → IsSoundEngine (cancel_each ids now_ms reason e)
unfolding cancel_each
cancel_each-IsSoundEngine [] now_ms reason e s = s
cancel_each-IsSoundEngine (id ∷ ids) now_ms reason e s =
    cancel_each-IsSoundEngine ids now_ms reason (cancel id now_ms reason e).1
      (cancel-IsSoundEngine id now_ms reason e s)

resting_order-IsSoundOrder :
    (i : OrderIntent) (id : String) (now_ms : ℕ) (version : Option String)
    → pos 0 <ℤ i.size
    → IsSoundOrder (resting_order i id now_ms version)
resting_order-IsSoundOrder i id now_ms version h = record {
  filled = omega arith;
  remaining = omega (arith, h);
  fees = omega arith;
  conserved = omega int_laws;
  complete = grind (arith, h);
}

pub put_order-IsSoundEngine :
    (i : OrderIntent) (id : String) (now_ms : ℕ) (version : Option String) (e : PaperEngine)
    → pos 0 <ℤ i.size
    → IsSoundEngine e
    → IsSoundEngine (put_order id (resting_order i id now_ms version) e)
put_order-IsSoundEngine i id now_ms version e h s = SameAccount-IsSoundEngine s refl (λ k.
    subst (Holds IsSoundOrder)
      (sym (lookup-insert k id (resting_order i id now_ms version) e.orders))
      (if-Holds IsSoundOrder (str_eq k id) (lookup k e.orders)
        (resting_order-IsSoundOrder i id now_ms version h) (s.orders k)))

pub submit-IsSoundEngine :
    (i : OrderIntent) (id : String) (now_ms : ℕ) (e : PaperEngine)
    → pos 0 <ℤ i.size
    → IsSoundEngine e
    → IsSoundEngine (submit i id now_ms e).1
unfolding submit
submit-IsSoundEngine i id now_ms e h s =
    grind (arith, s, put_order-IsSoundEngine i id now_ms none e h s)
