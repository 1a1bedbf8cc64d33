-- ===== src/UserWs/Attribution.antt =====
-- About user_ws.rs: which trades are taken to be the account's own, and how.
use Prim.Native.String.{◌++◌ as append}
use polymarket_watch_rust.Base.Chars.{is_blank_text}
use polymarket_watch_rust.Base.Int.{leb_ℤ, ◌<ℤ◌}
use polymarket_watch_rust.Base.Lists.{All}
use polymarket_watch_rust.Base.Outcome.{>>=-eq-ok, err, fail_if, ok, ok_or, ok_or-eq-ok, protocol}
use polymarket_watch_rust.Base.Tests.{
  Bool-cases, List, Option, String, [], ap, arith, false, if◌then◌else◌, inl, inr, none, not, refl,
  some, sym, true, ℕ, ◌++◌, ◌||◌, ◌∙◌, ◌∷◌, ◌≡◌, ◌⊎◌,
}
use polymarket_watch_rust.Fixed.{one_fixed, zero_fixed}
use polymarket_watch_rust.Fixed.Text.{from_str}
use polymarket_watch_rust.Types.{Side}
use polymarket_watch_rust.UserWs.{UserEvent, trade_event}
use polymarket_watch_rust.UserWs.Conversion.{
  TradeTerms, account_side, cardinality_error, convert_side, convert_trade, first_time, is_none_own,
  maker_terms, nonblank, opposite_side, optional_timestamp, own_makers, taker_terms,
}
use polymarket_watch_rust.UserWs.Messages.{ApiTraderSide, MakerOrder, TradeMessage}
use polymarket_watch_rust.UserWs.Ownership.{
  IsForeign, account_side-maker, account_side-taker, own_makers-none, own_makers-one,
}

-- The trade was made by this resting order, the only one of the account's, from the other side of the
-- market; the message says that the account was the maker, or no side.
pub record IsMakerTrade (api_key : String) (m : TradeMessage) (t : TradeTerms) : Type 0 where
  pub sided : (m.trader_side ≡ some ApiTraderSide.maker) ⊎ (m.trader_side ≡ none)
  pub maker_order : MakerOrder
  pub owned : maker_order.owner ≡ api_key
  pub before : List MakerOrder
  pub after : List MakerOrder
  pub placed : m.maker_orders ≡ before ++ maker_order ∷ after
  pub foreign_before : All (IsForeign api_key) before
  pub foreign_after : All (IsForeign api_key) after
  pub market_side : Side
  pub reported : convert_side m.side ≡ ok market_side
  pub opposite : t.side ≡ opposite_side market_side
  pub same_asset : t.asset_id ≡ maker_order.asset_id
  pub same_price : from_str maker_order.price ≡ ok t.price
  pub same_size : from_str maker_order.matched_amount ≡ ok t.size
  pub order_ids : t.order_ids ≡ maker_order.order_id ∷ []

-- The account took from the orders of others: the message says so, or says no side and names the
-- account as its owner or the trade's.
pub record IsTakerTrade (api_key : String) (m : TradeMessage) (t : TradeTerms) : Type 0 where
  pub sided :
      (m.trader_side ≡ some ApiTraderSide.taker)
      ⊎ ((m.trader_side ≡ none) × ((m.owner ≡ some api_key) ⊎ (m.trade_owner ≡ some api_key)))
  pub foreign : All (IsForeign api_key) m.maker_orders
  pub reported : convert_side m.side ≡ ok t.side
  pub same_asset : t.asset_id ≡ m.asset_id
  pub same_price : from_str m.price ≡ ok t.price
  pub same_size : from_str m.size ≡ ok t.size
  pub order_id : String
  pub named : m.taker_order_id ≡ some order_id
  pub written : is_blank_text order_id ≡ false
  pub order_ids : t.order_ids ≡ order_id ∷ []

-- One order, or terms that are refused.
one_or_not :
    (own : List MakerOrder)
    → ((a : MakerOrder) × (own ≡ a ∷ []))
      ⊎ ((m : TradeMessage) → maker_terms m own ≡ err (cardinality_error m own))
unfolding maker_terms
one_or_not [] = inr (λ m. refl)
one_or_not (a ∷ []) = inl (a, refl)
one_or_not (a ∷ b ∷ own) = inr (λ m. refl)

maker_terms-IsMakerTrade :
    (api_key : String) (m : TradeMessage) (t : TradeTerms)
    → account_side api_key m (own_makers api_key m.maker_orders) ≡ ok true
    → maker_terms m (own_makers api_key m.maker_orders) ≡ ok t
    → IsMakerTrade api_key m t
unfolding maker_terms
maker_terms-IsMakerTrade api_key m t h_side_ h =
    elim (one_or_not (own_makers api_key m.maker_orders)) [
      | inr many ↦ absurd (grind (arith, h, many m))
      | inl (a, one) ↦
          let (owned, before, after, placed, clear, clear') =
            own_makers-one api_key m.maker_orders a one in
          let h0 : maker_terms m (a ∷ []) ≡ ok t = ap (maker_terms m) (sym one) ∙ h in
          let (side, h_side, h1) = >>=-eq-ok (convert_side m.side) _ h0 in
          let (price, h_price, h2) = >>=-eq-ok (from_str a.price) _ h1 in
          let (size, h_size, h3) = >>=-eq-ok (from_str a.matched_amount) _ h2 in
          record {
            sided = account_side-maker api_key m _ h_side_;
            maker_order = a;
            owned = owned;
            before = before;
            after = after;
            placed = placed;
            foreign_before = clear;
            foreign_after = clear';
            market_side = side;
            reported = h_side;
            opposite = grind (arith, h3);
            same_asset = grind (arith, h3);
            same_price = grind (arith, h3, h_price);
            same_size = grind (arith, h3, h_size);
            order_ids = grind (arith, h3);
          }
    ]

nonblank-eq-some :
    (o : Option String) (id : String)
    → nonblank o ≡ some id
    → (o ≡ some id) × (is_blank_text id ≡ false)
nonblank-eq-some none id h = cc
nonblank-eq-some (some s) id h = elim (Bool-cases (is_blank_text s)) [
  | inl blank ↦ absurd (grind (arith, h, blank))
  | inr filled_in ↦
      let same : s ≡ id = grind (arith, h, filled_in) in (ap some same, rw (← same) filled_in)
]

is_none_own-nil : (own : List MakerOrder) → is_none_own own ≡ true → own ≡ []
is_none_own-nil [] h = refl
is_none_own-nil (a ∷ own) h = cc

taker_terms-IsTakerTrade :
    (api_key : String) (m : TradeMessage) (t : TradeTerms)
    → account_side api_key m (own_makers api_key m.maker_orders) ≡ ok false
    → taker_terms m (own_makers api_key m.maker_orders) ≡ ok t
    → IsTakerTrade api_key m t
unfolding taker_terms
taker_terms-IsTakerTrade api_key m t h_side_ h =
    let own = own_makers api_key m.maker_orders in
    let (_, h_none, h') =
      >>=-eq-ok
        (fail_if (not (is_none_own own))
          (protocol (append "user_taker_trade_contains_owned_maker:" m.id)))
        _ h in
    let (id, h_id, h0) =
      >>=-eq-ok (ok_or (nonblank m.taker_order_id) (protocol "user_taker_trade_order_id_missing")) _
        h' in
    let (side, h_side, h1) = >>=-eq-ok (convert_side m.side) _ h0 in
    let (price, h_price, h2) = >>=-eq-ok (from_str m.price) _ h1 in
    let (size, h_size, h3) = >>=-eq-ok (from_str m.size) _ h2 in
    let id_ =
      nonblank-eq-some m.taker_order_id id (ok_or-eq-ok (nonblank m.taker_order_id) _ id h_id) in
    record {
      sided = account_side-taker api_key m own h_side_;
      foreign =
          own_makers-none api_key m.maker_orders (is_none_own-nil own (grind (arith, h_none)));
      reported = grind (arith, h3, h_side);
      same_asset = grind (arith, h3);
      same_price = grind (arith, h3, h_price);
      same_size = grind (arith, h3, h_size);
      order_id = id;
      named = id_.0;
      written = id_.1;
      order_ids = grind (arith, h3);
    }

-- A trade message is converted in two cases only. Either the message says that the account was
-- the maker, or no side, exactly one of its maker orders is the account's, and the event has
-- that order's asset, price, size and id and the side opposite to the message's. Or the message
-- says that the account was the taker, whoever its owner, or it says no side and names the
-- account as its owner or the trade's; then none of the maker orders is the account's, and the
-- event has the message's asset, side, price and size and its taker order id, which is not
-- blank. The size is positive, and the price is strictly between zero and one.
pub convert_trade-IsAttributed :
    (api_key : String) (m : TradeMessage) (e : UserEvent)
    → convert_trade api_key m ≡ ok e
    → (t : TradeTerms) × (time : Option ℕ) × (e
        ≡ trade_event m.market m.id t.asset_id t.side t.price t.size m.status t.order_ids time)
      × (IsMakerTrade api_key m t ⊎ IsTakerTrade api_key m t)
      × (zero_fixed <ℤ t.size)
      × (zero_fixed <ℤ t.price)
      × (t.price <ℤ one_fixed)
unfolding convert_trade
convert_trade-IsAttributed api_key m e h =
    let own = own_makers api_key m.maker_orders in
    let (as_maker, h_maker, h1) = >>=-eq-ok (account_side api_key m own) _ h in
    let (t, h_t, h2) = >>=-eq-ok (if as_maker then maker_terms m own else taker_terms m own) _ h1 in
    let (_, h_terms, h3) =
      >>=-eq-ok
        (fail_if (leb_ℤ t.size zero_fixed || leb_ℤ t.price zero_fixed || leb_ℤ one_fixed t.price)
          (protocol (append "user_trade_terms_invalid:" m.id)))
        _ h2 in
    let (time, h_time, h4) =
      >>=-eq-ok (optional_timestamp (first_time m.timestamp m.matchtime)) _ h3 in
    let how : IsMakerTrade api_key m t ⊎ IsTakerTrade api_key m t = elim (Bool-cases as_maker) [
      | inl yes_ ↦
          inl
            (maker_terms-IsMakerTrade api_key m t (h_maker ∙ ap ok yes_) (grind (arith, yes_, h_t)))
      | inr no_ ↦
          inr (taker_terms-IsTakerTrade api_key m t (h_maker ∙ ap ok no_) (grind (arith, no_, h_t)))
    ] in
    (
      t,
      time,
      grind (arith, h4),
      how,
      grind (arith, h_terms),
      grind (arith, h_terms),
      grind (arith, h_terms),
    )
