-- ===== src/UserWs/Conversion.antt =====
-- user_ws.rs: what the SDK's messages become, if they can be attributed to the account.
-- `decimal_eq` is the `==` of the SDK's decimals.
use Prim.Native.String.{◌++◌ as append}
use polymarket_watch_rust.Base.Chars.{is_blank_text}
use polymarket_watch_rust.Base.Display.{show_ℕ}
use polymarket_watch_rust.Base.Int.{leb_ℤ, ltb_ℤ, pos, pos_part, u64_max, ℤ}
use polymarket_watch_rust.Base.Lists.{filter, length}
use polymarket_watch_rust.Base.Outcome.{
  BotError, Result, err, fail_if, ok, ok_or, protocol, ◌>>=◌, ◌>>◌,
}
use polymarket_watch_rust.Base.Tests.{
  Bool, List, Option, String, [], false, if◌then◌else◌, leb, ltb, none, not, some, str_eq, true, ℕ,
  ◌&&◌, ◌*◌, ◌||◌, ◌∷◌,
}
use polymarket_watch_rust.Fixed.{Fixed, one_fixed, zero_fixed}
use polymarket_watch_rust.Fixed.Text.{Text, from_str}
use polymarket_watch_rust.Types.{Side}
use polymarket_watch_rust.UserWs.{UserEvent, order_event, trade_event}
use polymarket_watch_rust.UserWs.Messages.{
  ApiOrderMessageType, ApiSide, ApiTraderSide, MakerOrder, OrderMessage, TradeMessage, WsMessage,
}

-- `== Some(api_key)`
abbrev pub is_key : String → Option String → Bool
is_key key none = false
is_key key (some owner) = str_eq owner key

abbrev pub convert_side : ApiSide → Result Side
convert_side ApiSide.buy = ok Side.buy
convert_side ApiSide.sell = ok Side.sell
convert_side ApiSide.other = err (protocol "unsupported_user_event_side")

-- `transpose()`
abbrev pub parse_size : Option Text → Result (Option Fixed)
parse_size none = ok none
parse_size (some text) = from_str text >>= λ size. ok (some size)

unfoldable pub convert_timestamp : ℤ → Result ℕ
convert_timestamp timestamp = do
  fail_if (ltb_ℤ timestamp (pos 0)) (protocol "negative_user_event_timestamp")
  let seconds = pos_part timestamp
  if ltb seconds 10000000000
      then if leb (seconds * 1000) u64_max
        then ok (seconds * 1000)
        else err (protocol "user_event_timestamp_overflow")
      else ok seconds

abbrev pub optional_timestamp : Option ℤ → Result (Option ℕ)
optional_timestamp none = ok none
optional_timestamp (some timestamp) = convert_timestamp timestamp >>= λ t. ok (some t)

abbrev pub both_equal : (Text → Text → Bool) → Option Text → Option Text → Bool
both_equal decimal_eq (some a) (some b) = decimal_eq a b
both_equal decimal_eq _ _ = false

abbrev pub is_some {ℓ} : {A : Type ℓ} → Option A → Bool
is_some none = false
is_some (some _) = true

-- The status of a message that carries none.
unfoldable pub derived_status :
    (Text → Text → Bool) → Option ApiOrderMessageType → Option Text → Option Text → String
derived_status decimal_eq none original matched_ = "unknown"
derived_status decimal_eq (some ApiOrderMessageType.placement) original matched_ = "Placement"
derived_status decimal_eq (some ApiOrderMessageType.update) original matched_ =
    if both_equal decimal_eq original matched_
    then "Matched"
    else if is_some matched_
    then "PartiallyFilled"
    else "Update"
derived_status decimal_eq (some ApiOrderMessageType.cancellation) original matched_ = "Cancelled"
derived_status decimal_eq (some (ApiOrderMessageType.unknown kind)) original matched_ =
    append "Unknown(" (append kind ")")
derived_status decimal_eq (some ApiOrderMessageType.other) original matched_ = "unknown"

abbrev pub status_of : (Text → Text → Bool) → OrderMessage → String
status_of decimal_eq m = elim m.status [
  | some status ↦ status
  | none ↦ derived_status decimal_eq m.msg_type m.original_size m.size_matched
]

unfoldable pub convert_order : (Text → Text → Bool) → String → OrderMessage → Result UserEvent
convert_order decimal_eq api_key m = do
  fail_if (not (is_key api_key m.owner) && not (is_key api_key m.order_owner))
      (protocol (append "user_order_owner_not_attributable:" m.id))
  side ← convert_side m.side
  price ← from_str m.price
  original ← parse_size m.original_size
  filled_size ← parse_size m.size_matched
  timestamp ← optional_timestamp m.timestamp
  ok (
      order_event m.market m.id m.asset_id side price original filled_size (status_of decimal_eq m)
        timestamp)

abbrev pub own_makers : String → List MakerOrder → List MakerOrder
own_makers api_key orders = filter (λ (o : MakerOrder). str_eq o.owner api_key) orders

abbrev pub is_one : List MakerOrder → Bool
is_one (_ ∷ []) = true
is_one _ = false

abbrev pub is_none_own : List MakerOrder → Bool
is_none_own [] = true
is_none_own (_ ∷ _) = false

-- `account_is_maker`
unfoldable pub account_side : String → TradeMessage → List MakerOrder → Result Bool
account_side api_key m own = elim m.trader_side [
  | some ApiTraderSide.maker ↦ ok true
  | some ApiTraderSide.taker ↦ ok false
  | some (ApiTraderSide.unknown side) ↦
      err (protocol (append "unsupported_user_trader_side:" (append m.id (append ":" side))))
  | some ApiTraderSide.other ↦ err (protocol (append "unsupported_user_trader_side:" m.id))
  | none ↦
      if is_one own
      then ok true
      else if is_none_own own && (is_key api_key m.owner || is_key api_key m.trade_owner)
      then ok false
      else err (protocol (append "user_trade_side_not_attributable:" m.id))
]

abbrev pub opposite_side : Side → Side
opposite_side Side.buy = Side.sell
opposite_side Side.sell = Side.buy

pub record TradeTerms : Type 0 where
  pub asset_id : String
  pub side : Side
  pub price : Fixed
  pub size : Fixed
  pub order_ids : List String

abbrev pub cardinality_error : TradeMessage → List MakerOrder → BotError
cardinality_error m own =
    protocol (
      append "user_maker_trade_order_cardinality:" (append m.id (append ":" (show_ℕ (length own)))))

unfoldable pub maker_terms : TradeMessage → List MakerOrder → Result TradeTerms
maker_terms m (maker_order ∷ []) = do
  side ← convert_side m.side
  price ← from_str maker_order.price
  size ← from_str maker_order.matched_amount
  ok (record {
    asset_id = maker_order.asset_id;
    side = opposite_side side;
    price = price;
    size = size;
    order_ids = maker_order.order_id ∷ [];
  })
maker_terms m own = err (cardinality_error m own)

-- `filter(|id| !id.trim().is_empty())`
abbrev pub nonblank : Option String → Option String
nonblank none = none
nonblank (some id) = if is_blank_text id then none else some id

unfoldable pub taker_terms : TradeMessage → List MakerOrder → Result TradeTerms
taker_terms m own = do
  fail_if (not (is_none_own own)) (protocol (append "user_taker_trade_contains_owned_maker:" m.id))
  order_id ← ok_or (nonblank m.taker_order_id) (protocol "user_taker_trade_order_id_missing")
  side ← convert_side m.side
  price ← from_str m.price
  size ← from_str m.size
  ok (record {
    asset_id = m.asset_id;
    side = side;
    price = price;
    size = size;
    order_ids = order_id ∷ [];
  })

abbrev pub first_time : Option ℤ → Option ℤ → Option ℤ
first_time none later = later
first_time (some t) later = some t

unfoldable pub convert_trade : String → TradeMessage → Result UserEvent
convert_trade api_key m = do
  account_is_maker ← account_side api_key m (own_makers api_key m.maker_orders)
  terms ←
      if account_is_maker
      then maker_terms m (own_makers api_key m.maker_orders)
      else taker_terms m (own_makers api_key m.maker_orders)
  fail_if
      (leb_ℤ terms.size zero_fixed || leb_ℤ terms.price zero_fixed || leb_ℤ one_fixed terms.price)
      (protocol (append "user_trade_terms_invalid:" m.id))
  timestamp ← optional_timestamp (first_time m.timestamp m.matchtime)
  ok (
      trade_event m.market m.id terms.asset_id terms.side terms.price terms.size m.status
        terms.order_ids timestamp)

unfoldable pub convert_message :
    (Text → Text → Bool) → String → WsMessage → Result (Option UserEvent)
convert_message decimal_eq api_key (WsMessage.order m) =
    convert_order decimal_eq api_key m >>= λ e. ok (some e)
convert_message decimal_eq api_key (WsMessage.trade m) =
    convert_trade api_key m >>= λ e. ok (some e)
convert_message decimal_eq api_key WsMessage.other = ok none
