-- ===== src/Paper/Orders/Cancelling.antt =====
-- About the cancellations of paper.rs.
use polymarket_watch_rust.Base.BTreeMap.{BTreeMap, lookup, lookup-insert}
use polymarket_watch_rust.Base.Lists.{any}
use polymarket_watch_rust.Base.Tests.{
  Bool, List, Option, String, [], ap, arith, eq_iff, if◌then◌else◌, none, refl, some, str_eq, true,
  ℕ, ◌&&◌, ◌||◌, ◌∙◌, ◌∷◌, ◌≡◌,
}
use polymarket_watch_rust.Paper.Orders.{cancel, cancel_each, cancelled, ids_where}
use polymarket_watch_rust.Paper.State.{PaperEngine, PaperOrder, order_open}

abbrev pub map_option {ℓ κ} : {A : Type ℓ} {B : Type κ} → (A → B) → Option A → Option B
map_option f none = none
map_option f (some a) = some (f a)

-- An order after a cancellation that concerns it when `c` holds.
abbrev pub cancelled_if : ℕ → String → Bool → PaperOrder → PaperOrder
cancelled_if now_ms reason c o = if order_open o && c then cancelled now_ms reason o else o

abbrev pub SameAccount : PaperEngine → PaperEngine → Type 0
SameAccount e e' = e' ≡ record e { orders = e'.orders }

pub cancel-lookup :
    (id : String) (now_ms : ℕ) (reason : String) (e : PaperEngine) (k : String)
    → lookup k (cancel id now_ms reason e).1.orders
      ≡ map_option (cancelled_if now_ms reason (str_eq k id)) (lookup k e.orders)
unfolding cancel
cancel-lookup id now_ms reason e k = grind (arith, lookup-insert, eq_iff k id)

pub cancel-SameAccount :
    (id : String) (now_ms : ℕ) (reason : String) (e : PaperEngine)
    → SameAccount e (cancel id now_ms reason e).1
unfolding cancel
cancel-SameAccount id now_ms reason e = ground arith

cancelled_if-again :
    (now_ms : ℕ) (reason : String) (a b : Bool) (o : Option PaperOrder)
    → map_option (cancelled_if now_ms reason b) (map_option (cancelled_if now_ms reason a) o)
      ≡ map_option (cancelled_if now_ms reason (a || b)) o
cancelled_if-again now_ms reason a b o = ground arith

pub cancel_each-lookup :
    (ids : List String) (now_ms : ℕ) (reason : String) (e : PaperEngine) (k : String)
    → lookup k (cancel_each ids now_ms reason e).orders
      ≡ map_option (cancelled_if now_ms reason (any (str_eq k) ids)) (lookup k e.orders)
unfolding cancel_each
cancel_each-lookup [] now_ms reason e k = ground arith
cancel_each-lookup (id ∷ ids) now_ms reason e k =
    cancel_each-lookup ids now_ms reason (cancel id now_ms reason e).1 k
    ∙ ap (map_option (cancelled_if now_ms reason (any (str_eq k) ids)))
        (cancel-lookup id now_ms reason e k)
    ∙ cancelled_if-again now_ms reason (str_eq k id) (any (str_eq k) ids) (lookup k e.orders)

pub cancel_each-SameAccount :
    (ids : List String) (now_ms : ℕ) (reason : String) (e : PaperEngine)
    → SameAccount e (cancel_each ids now_ms reason e)
unfolding cancel_each
cancel_each-SameAccount [] now_ms reason e = refl
cancel_each-SameAccount (id ∷ ids) now_ms reason e = grind (
  arith,
  cancel_each-SameAccount ids now_ms reason (cancel id now_ms reason e).1,
  cancel-SameAccount id now_ms reason e,
)

-- An order that the filter keeps is one that its loop cancels.
pub ids_where-lookup :
    (p : PaperOrder → Bool) (m : BTreeMap PaperOrder) (k : String) {o : PaperOrder}
    → lookup k m ≡ some o
    → p o ≡ true
    → any (str_eq k) (ids_where p m) ≡ true
ids_where-lookup p [] k h hp = absurd cc
ids_where-lookup p ((id, o') ∷ m) k {o} h hp = ground (arith, ids_where-lookup p m k {o = o})
