-- ===== src/UserWs/Ownership.antt =====
-- About user_ws.rs: which maker orders and which side of a trade are the account's.
use Prim.Native.String.{◌++◌ as append}
use polymarket_watch_rust.Base.Lists.{All}
use polymarket_watch_rust.Base.Outcome.{err, ok, protocol}
use polymarket_watch_rust.Base.Tests.{
  Bool-cases, List, Option, String, [], ap, arith, eq_iff, false, if◌then◌else◌, inl, inr, none,
  refl, some, str_eq, sym, true, ◌&&◌, ◌++◌, ◌||◌, ◌∙◌, ◌∷◌, ◌≡◌, ◌≢◌, ◌⊎◌,
}
use polymarket_watch_rust.UserWs.Conversion.{account_side, is_key, is_none_own, is_one, own_makers}
use polymarket_watch_rust.UserWs.Messages.{ApiTraderSide, MakerOrder, TradeMessage}

-- An order that is not the account's.
abbrev pub IsForeign : String → MakerOrder → Type 0
IsForeign api_key o = o.owner ≢ api_key

pub own_makers-none :
    (api_key : String) (orders : List MakerOrder)
    → own_makers api_key orders ≡ []
    → All (IsForeign api_key) orders
own_makers-none api_key [] h = tt
own_makers-none api_key (o ∷ rest) h = elim (Bool-cases (str_eq o.owner api_key)) [
  | inl mine ↦ absurd (grind (arith, h, mine))
  | inr other ↦ (
    λ same. absurd (grind (arith, other, same, eq_iff o.owner api_key)),
    own_makers-none api_key rest (grind (arith, h, other)),
  )
]

pub own_makers-one :
    (api_key : String) (orders : List MakerOrder) (own : MakerOrder)
    → own_makers api_key orders ≡ own ∷ []
    → (own.owner ≡ api_key)
      × (before : List MakerOrder) × (after : List MakerOrder) × (orders ≡ before ++ own ∷ after)
      × All (IsForeign api_key) before
      × All (IsForeign api_key) after
own_makers-one api_key [] own h = cc
own_makers-one api_key (o ∷ rest) own h = elim (Bool-cases (str_eq o.owner api_key)) [
  | inl mine ↦
      let same : o ≡ own = grind (arith, h, mine) in
      (
        ap (λ (p : MakerOrder). p.owner) (sym same) ∙ (eq_iff o.owner api_key).0 mine,
        [],
        rest,
        ap (λ p. p ∷ rest) same,
        tt,
        own_makers-none api_key rest (grind (arith, h, mine)),
      )
  | inr other ↦
      let (owned, before, after, placed, clear, clear') =
        own_makers-one api_key rest own (grind (arith, h, other)) in
      (
        owned,
        o ∷ before,
        after,
        ap (λ ps. o ∷ ps) placed,
        (λ same. absurd (grind (arith, other, same, eq_iff o.owner api_key)), clear),
        clear',
      )
]

is_key-eq-some : (key : String) (o : Option String) → is_key key o ≡ true → o ≡ some key
is_key-eq-some key none h = cc
is_key-eq-some key (some owner) h = ap some ((eq_iff owner key).0 h)

-- The side of the message, or a side that is refused.
trader_side-cases :
    (side : Option ApiTraderSide)
    → (side ≡ none)
      ⊎ (side ≡ some ApiTraderSide.maker)
      ⊎ (side ≡ some ApiTraderSide.taker)
      ⊎ (side ≡ some ApiTraderSide.other)
      ⊎ ((text : String) × (side ≡ some (ApiTraderSide.unknown text)))
trader_side-cases none = inl refl
trader_side-cases (some ApiTraderSide.maker) = inr (inl refl)
trader_side-cases (some ApiTraderSide.taker) = inr (inr (inl refl))
trader_side-cases (some ApiTraderSide.other) = inr (inr (inr (inl refl)))
trader_side-cases (some (ApiTraderSide.unknown text)) = inr (inr (inr (inr (text, refl))))

pub account_side-maker :
    (api_key : String) (m : TradeMessage) (own : List MakerOrder)
    → account_side api_key m own ≡ ok true
    → (m.trader_side ≡ some ApiTraderSide.maker) ⊎ (m.trader_side ≡ none)
unfolding account_side
account_side-maker api_key m own h = elim (trader_side-cases m.trader_side) [
  | inl e ↦ inr e
  | inr (inl e) ↦ inl e
  | inr (inr (inl e)) ↦ absurd (grind (arith, h, e))
  | inr (inr (inr (inl e))) ↦ absurd (grind (arith, h, e))
  | inr (inr (inr (inr (text, e)))) ↦ absurd (grind (arith, h, e))
]

owner_named :
    (api_key : String) (m : TradeMessage) (own : List MakerOrder)
    → (if is_one own
        then ok true
        else if is_none_own own && (is_key api_key m.owner || is_key api_key m.trade_owner)
        then ok false
        else err (protocol (append "user_trade_side_not_attributable:" m.id)))
      ≡ ok false
    → (m.owner ≡ some api_key) ⊎ (m.trade_owner ≡ some api_key)
owner_named api_key m own h = elim (Bool-cases (is_key api_key m.owner)) [
  | inl mine ↦ inl (is_key-eq-some api_key m.owner mine)
  | inr not_owner ↦ inr (is_key-eq-some api_key m.trade_owner (grind (arith, h, not_owner)))
]

pub account_side-taker :
    (api_key : String) (m : TradeMessage) (own : List MakerOrder)
    → account_side api_key m own ≡ ok false
    → (m.trader_side ≡ some ApiTraderSide.taker)
      ⊎ ((m.trader_side ≡ none) × ((m.owner ≡ some api_key) ⊎ (m.trade_owner ≡ some api_key)))
unfolding account_side
account_side-taker api_key m own h = elim (trader_side-cases m.trader_side) [
  | inl e ↦ inr (e, owner_named api_key m own (grind (arith, h, e)))
  | inr (inl e) ↦ absurd (grind (arith, h, e))
  | inr (inr (inl e)) ↦ inl e
  | inr (inr (inr (inl e))) ↦ absurd (grind (arith, h, e))
  | inr (inr (inr (inr (text, e)))) ↦ absurd (grind (arith, h, e))
]
