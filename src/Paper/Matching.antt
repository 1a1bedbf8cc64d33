-- ===== src/Paper/Matching.antt =====
-- Which resting orders of paper.rs a book or a trade fills: the loops of
-- `process_book_with_cancellations` and `process_trade` plan quantities first, then apply them.
pub mod Participation
use Prim.Native.String.{◌++◌ as append}
use polymarket_watch_rust.Base.BTreeMap.{BTreeMap}
use polymarket_watch_rust.Base.Display.{show_ℕ}
use polymarket_watch_rust.Base.Int.{leb_ℤ, ltb_ℤ}
use polymarket_watch_rust.Base.Outcome.{Result, err, ok, protocol}
use polymarket_watch_rust.Base.Tests.{
  Bool, List, Option, String, [], false, if◌then◌else◌, leb, none, not, some, str_eq, true, ℕ, ⊤,
  ◌&&◌, ◌||◌, ◌∷◌,
}
use polymarket_watch_rust.Fixed.{Fixed, checked_sub, is_zero, one_fixed, zero_fixed}
use polymarket_watch_rust.Paper.Amounts.{order_crosses_book, participation_amount}
use polymarket_watch_rust.Paper.Fills.{apply_fill, or_empty, violates_limit}
use polymarket_watch_rust.Paper.Orders.{cancel}
use polymarket_watch_rust.Paper.State.{
  Action, PaperEngine, PaperFill, PaperOrder, gets, order_open, pure, raise_if, ◌>>=◌, ◌>>◌,
}
use polymarket_watch_rust.Types.{
  AssetId, BookState, Side, buy, sell, side_eq, top_ask_size, top_bid_size,
}

-- What one order of a loop comes to. A plan carries its quantity.
pub data Visit : Type 0 where
  skip expire note : Visit
  plan : Fixed → Visit

-- The liquidity left for each side.
pub record Liquidity : Type 0 where
  pub for_buys : Fixed
  pub for_sells : Fixed

abbrev pub liquidity_for : Side → Liquidity → Fixed
liquidity_for buy l = l.for_buys
liquidity_for sell l = l.for_sells

abbrev pub with_liquidity : Side → Fixed → Liquidity → Liquidity
with_liquidity buy left l = record l { for_buys = left }
with_liquidity sell left l = record l { for_sells = left }

abbrev pub min_fixed : Fixed → Fixed → Fixed
min_fixed a b = if leb_ℤ a b then a else b

-- `book_hash.as_deref().is_none_or(str::is_empty)`
abbrev pub no_hash : Option String → Bool
no_hash none = true
no_hash (some hash) = str_eq hash ""

abbrev pub seen_version : String → Option String → Bool
seen_version version none = false
seen_version version (some last) = str_eq last version

abbrev pub book_version : BookState → String
book_version book =
    append (show_ℕ book.exchange_timestamp_ms) (append ":" (or_empty book.book_hash))

unfoldable pub visit_book : BookState → ℕ → Liquidity → PaperOrder → Visit
visit_book book now_ms l order =
    let quantity = min_fixed order.remaining_size (liquidity_for order.state.intent.side l) in
    if not (order_open order) || not (str_eq order.state.intent.asset_id book.asset_id)
    then Visit.skip
    else if leb order.state.intent.local_expires_at_ms now_ms
    then Visit.expire
    else if not book.tradeable
        || no_hash book.book_hash
        || seen_version (book_version book) order.last_book_version
    then Visit.skip
    else if order_crosses_book order book && ltb_ℤ zero_fixed quantity
    then Visit.plan quantity
    else Visit.note

-- What a loop has collected: expired orders, and quantities planned for orders.
pub record Plans : Type 0 where
  pub expired : List String
  pub fills : List (String × Fixed)

abbrev pub push_expired : String → Plans → Plans
push_expired id p = record p { expired = id ∷ p.expired }

abbrev pub push_fill : String → Fixed → Plans → Plans
push_fill id quantity p = record p { fills = (id, quantity) ∷ p.fills }

-- The result of a loop over the orders, and the orders as it left them.
abbrev pub Planned : Type 0
Planned = Result Plans × BTreeMap PaperOrder

abbrev pub map_ok : (Plans → Plans) → Result Plans → Result Plans
map_ok f (ok p) = ok (f p)
map_ok f (err e) = err e

abbrev pub note_book : BookState → PaperOrder → PaperOrder
note_book book order = record order { last_book_version = some (book_version book) }

unfoldable pub plan_book : BookState → ℕ → Liquidity → BTreeMap PaperOrder → Planned
plan_book book now_ms l [] = (ok (record { expired = []; fills = [] }), [])
plan_book book now_ms l ((id, order) ∷ rest) = elim (visit_book book now_ms l order) [
  | Visit.skip ↦ let (r, m) = plan_book book now_ms l rest in (r, (id, order) ∷ m)
  | Visit.expire ↦
      let (r, m) = plan_book book now_ms l rest in (map_ok (push_expired id) r, (id, order) ∷ m)
  | Visit.note ↦ let (r, m) = plan_book book now_ms l rest in (r, (id, note_book book order) ∷ m)
  | Visit.plan quantity ↦ elim (checked_sub (liquidity_for order.state.intent.side l) quantity) [
    | err e ↦ (err e, (id, note_book book order) ∷ rest)
    | ok left ↦
        let (r, m) = plan_book book now_ms (with_liquidity order.state.intent.side left l) rest in
        (map_ok (push_fill id quantity) r, (id, note_book book order) ∷ m)
  ]
]

-- A loop over the orders of an engine.
abbrev pub over_orders : (PaperEngine → Planned) → Action Plans
over_orders f e = let (r, m) = f e in (r, record e { orders = m })

unfoldable pub cancel_expired_each : List String → ℕ → Action ⊤
cancel_expired_each [] now_ms = pure tt
cancel_expired_each (id ∷ ids) now_ms = do
  cancel id now_ms "paper_order_ttl_expired"
  cancel_expired_each ids now_ms

unfoldable pub apply_fills : List (String × Fixed) → ℕ → Action (List PaperFill)
apply_fills [] now_ms = pure []
apply_fills ((id, quantity) ∷ rest) now_ms = do
  fill ← apply_fill id quantity now_ms
  fills ← apply_fills rest now_ms
  pure (fill ∷ fills)

-- Nothing is available from a book that is not tradeable.
unfoldable pub liquidity_of : BookState → Fixed → PaperEngine → Result Fixed
liquidity_of book size e =
    if book.tradeable then participation_amount size e.fill_participation_bps else ok zero_fixed

unfoldable pub apply_plans : Plans → ℕ → Action (List PaperFill × List String)
apply_plans plans now_ms = do
  cancel_expired_each plans.expired now_ms
  fills ← apply_fills plans.fills now_ms
  pure (fills, plans.expired)

unfoldable pub process_book_with_cancellations :
    BookState → ℕ → Action (List PaperFill × List String)
process_book_with_cancellations book now_ms = do
  for_buys ← gets (liquidity_of book (top_ask_size book))
  for_sells ← gets (liquidity_of book (top_bid_size book))
  plans ←
      over_orders (λ e.
        plan_book book now_ms (record { for_buys = for_buys; for_sells = for_sells }) e.orders)
  apply_plans plans now_ms

unfoldable pub process_book : BookState → ℕ → Action (List PaperFill)
process_book book now_ms = do result ← process_book_with_cancellations book now_ms; pure result.0

pub record Trade : Type 0 where
  pub asset : AssetId
  pub price : Fixed
  pub resting_side : Side
  pub exchange_ms : ℕ

abbrev pub opposite : Side → Side
opposite buy = sell
opposite sell = buy

-- `is_some_and(|t| exchange_timestamp_ms <= t)`
abbrev pub not_after : ℕ → Option ℕ → Bool
not_after t none = false
not_after t (some last) = leb t last

unfoldable pub visit_trade : Trade → ℕ → Fixed → PaperOrder → Visit
visit_trade t now_ms left order =
    if not (order_open order)
      || not (str_eq order.state.intent.asset_id t.asset)
      || not (side_eq order.state.intent.side t.resting_side)
      || is_zero left
      || leb order.state.intent.local_expires_at_ms now_ms
      || not_after t.exchange_ms order.state.submitted_at_ms
      || not_after t.exchange_ms order.last_trade_timestamp_ms
    then Visit.skip
    else if violates_limit order.state.intent.side t.price order.state.intent.limit_price
    then Visit.note
    else Visit.plan (min_fixed order.remaining_size left)

abbrev pub note_trade : Trade → PaperOrder → PaperOrder
note_trade t order = record order { last_trade_timestamp_ms = some t.exchange_ms }

unfoldable pub plan_trade : Trade → ℕ → Fixed → BTreeMap PaperOrder → Planned
plan_trade t now_ms left [] = (ok (record { expired = []; fills = [] }), [])
plan_trade t now_ms left ((id, order) ∷ rest) = elim (visit_trade t now_ms left order) [
  | Visit.skip ↦ let (r, m) = plan_trade t now_ms left rest in (r, (id, order) ∷ m)
  | Visit.expire ↦ let (r, m) = plan_trade t now_ms left rest in (r, (id, order) ∷ m)
  | Visit.note ↦ let (r, m) = plan_trade t now_ms left rest in (r, (id, note_trade t order) ∷ m)
  | Visit.plan quantity ↦ elim (checked_sub left quantity) [
    | err e ↦ (err e, (id, note_trade t order) ∷ rest)
    | ok left' ↦
        let (r, m) = plan_trade t now_ms left' rest in
        (map_ok (push_fill id quantity) r, (id, note_trade t order) ∷ m)
  ]
]

-- The second loop of `process_trade` leaves out what is not positive.
unfoldable pub apply_positive_fills : List (String × Fixed) → ℕ → Action (List PaperFill)
apply_positive_fills [] now_ms = pure []
apply_positive_fills ((id, quantity) ∷ rest) now_ms = elim (ltb_ℤ zero_fixed quantity) [
  | false ↦ apply_positive_fills rest now_ms
  | true ↦ do
    fill ← apply_fill id quantity now_ms
    fills ← apply_positive_fills rest now_ms
    pure (fill ∷ fills)
]

unfoldable pub match_trade : Trade → Fixed → ℕ → Action (List PaperFill)
match_trade t size now_ms = do
  liquidity ← gets (λ e. participation_amount size e.fill_participation_bps)
  plans ← over_orders (λ e. plan_trade t now_ms liquidity e.orders)
  apply_positive_fills plans.fills now_ms

unfoldable pub process_trade :
    AssetId → Fixed → Option Fixed → Option Side → ℕ → ℕ → Action (List PaperFill)
process_trade asset trade_price trade_size aggressor exchange_ms now_ms = do
  raise_if (leb_ℤ trade_price zero_fixed || leb_ℤ one_fixed trade_price)
      (protocol "paper_trade_price_out_of_range")
  sized trade_size aggressor
  where
    sided : Fixed → Option Side → Action (List PaperFill)
    sided size none = pure []
    sided size (some side) =
        match_trade
          (record {
            asset = asset;
            price = trade_price;
            resting_side = opposite side;
            exchange_ms = exchange_ms;
          })
          size now_ms

    sized : Option Fixed → Option Side → Action (List PaperFill)
    sized none side = pure []
    sized (some size) side = if ltb_ℤ zero_fixed size then sided size side else pure []
