-- ===== src/UserWs/Examples.antt =====
-- The theorems on user_ws.rs at concrete messages.
use polymarket_watch_rust.Base.Chars.{chars, is_lowercase_of, same_text}
use polymarket_watch_rust.Base.Int.{pos, ◌*ℤ◌, ◌+ℤ◌, ◌<ℤ◌}
use polymarket_watch_rust.Base.Lists.{length}
use polymarket_watch_rust.Base.Outcome.{ok}
use polymarket_watch_rust.Base.Tests.{
  Bool, List, Option, [], arith, false, none, refl, some, true, ℕ, ◌*◌, ◌^◌, ◌∷◌, ◌≡◌, ◌⊎◌,
}
use polymarket_watch_rust.Fixed.{one_fixed, zero_fixed}
use polymarket_watch_rust.Fixed.Text.{Text, from_split, from_str, from_trimmed, split, trim}
use polymarket_watch_rust.Journal.{failed, got}
use polymarket_watch_rust.Types.{Side}
use polymarket_watch_rust.UserWs.{
  UserEvent, default_cache, disconnect, order_event, order_status_is_terminal, trade_event,
  user_event_changes_account_revision,
}
use polymarket_watch_rust.UserWs.Attribution.{
  IsMakerTrade, IsTakerTrade, convert_trade-IsAttributed,
}
use polymarket_watch_rust.UserWs.Backoff.{backoff_after-failures}
use polymarket_watch_rust.UserWs.Cache.{
  CacheStep, apply_all, apply_all-view, follow_all, observed, resynchronised, view,
}
use polymarket_watch_rust.UserWs.Conversion.{
  TradeTerms, account_side, convert_message, convert_order, convert_timestamp, convert_trade,
  derived_status, maker_terms,
}
use polymarket_watch_rust.UserWs.Frames.{IsEnding, follow, run_user_feed-follow}
use polymarket_watch_rust.UserWs.Messages.{
  ApiOrderMessageType, ApiSide, MakerOrder, OrderMessage, TradeMessage, WsMessage,
}
use polymarket_watch_rust.UserWs.Session.{
  Arrival, Feed, FeedState, Round, announce, backoff_after, end_session, feed_round, next_backoff,
  on_event, on_tick, on_value, read_value, report_end, run_turns, run_user_feed, run_user_session,
  send, send_event, shutdown, smaller, stopped, tick, turn, value, wait_ms, waiting,
}

abbrev half : Text
half = 48 ∷ 46 ∷ 53 ∷ []

abbrev ten : Text
ten = 49 ∷ 48 ∷ []

abbrev own_order : MakerOrder
own_order = record {
  order_id = "order";
  owner = "key";
  asset_id = "no";
  price = half;
  matched_amount = ten;
}

abbrev other_order : MakerOrder
other_order = record own_order { order_id = "theirs"; owner = "other" }

abbrev some_trade : TradeMessage
some_trade = record {
  id = "trade";
  market = "market";
  asset_id = "yes";
  side = ApiSide.buy;
  price = half;
  size = ten;
  status = "Matched";
  trader_side = none;
  owner = none;
  trade_owner = none;
  taker_order_id = none;
  maker_orders = other_order ∷ own_order ∷ [];
  timestamp = some (pos 1700000000);
  matchtime = none;
}

abbrev some_event : UserEvent
some_event =
    trade_event "market" "trade" "no" Side.sell (pos 500000) (pos 10000000) "Matched" ("order" ∷ [])
      (some 1700000000000)

some_trade_converted : convert_trade "key" some_trade ≡ ok some_event
unfolding convert_trade account_side maker_terms from_str from_trimmed trim from_split split ◌*ℤ◌
    ◌+ℤ◌ convert_timestamp
some_trade_converted = refl

convert_trade-IsAttributed_example :
    (t : TradeTerms) × (time : Option ℕ) × (some_event
      ≡ trade_event "market" "trade" t.asset_id t.side t.price t.size "Matched" t.order_ids time)
    × (IsMakerTrade "key" some_trade t ⊎ IsTakerTrade "key" some_trade t)
    × (zero_fixed <ℤ t.size)
    × (zero_fixed <ℤ t.price)
    × (t.price <ℤ one_fixed)
convert_trade-IsAttributed_example =
    convert_trade-IsAttributed "key" some_trade some_event some_trade_converted

abbrev placed : OrderMessage
placed = record {
  id = "order";
  market = "market";
  asset_id = "yes";
  side = ApiSide.buy;
  price = half;
  original_size = some ten;
  size_matched = none;
  msg_type = some ApiOrderMessageType.placement;
  status = none;
  owner = some "key";
  order_owner = none;
  timestamp = none;
}

-- A round that the shutdown does not touch.
abbrev round_of : List (Bool × Arrival) → Round
round_of turns = record {
  cancelled_before = false;
  setup = ok tt;
  turns = turns;
  cancelled_after = false;
  reported = true;
  cancelled_wait = false;
}

abbrev some_rounds : List Round
some_rounds =
    round_of ((true, tick false) ∷ (true, value none) ∷ [])
    ∷ round_of (
        (true, value (some (got (WsMessage.order placed))))
        ∷ (true, tick true)
        ∷ (true, value (some (got (WsMessage.trade some_trade))))
        ∷ (true, value (some (failed "reset")))
        ∷ [])
    ∷ []

-- The shutdown ends a session that is connected.
abbrev stopped_rounds : List Round
stopped_rounds =
    record (round_of ((true, tick true) ∷ (true, shutdown) ∷ [])) { cancelled_after = true } ∷ []

abbrev new_feed : Feed
new_feed = record { backoff_ms = 100; account_revision = 0; sent = [] }

abbrev served : FeedState × Feed
served = run_user_feed same_text "key" 100 5000 some_rounds new_feed

run_user_feed-follow_example :
    (up : Bool) × (follow served.1.sent false ≡ some up) × IsEnding some_rounds served.0 up
run_user_feed-follow_example =
    run_user_feed-follow same_text "key" 100 5000 some_rounds new_feed refl

served_five :
    (served.0 ≡ waiting)
    × (length served.1.sent ≡ 5)
    × (served.1.account_revision ≡ 4)
    × (served.1.backoff_ms ≡ 200)
unfolding run_user_feed feed_round run_user_session turn on_tick on_value read_value on_event
    announce send send_event report_end end_session run_turns next_backoff wait_ms convert_message
    convert_order user_event_changes_account_revision order_status_is_terminal is_lowercase_of chars
    derived_status convert_trade account_side maker_terms from_str from_trimmed trim from_split
    split ◌*ℤ◌ ◌+ℤ◌ convert_timestamp
served_five = (refl, refl, refl, refl)

abbrev shut : FeedState × Feed
shut = run_user_feed same_text "key" 100 5000 stopped_rounds new_feed

-- No disconnection is reported, and the receiver still sees a connection.
shut_connected : (shut.0 ≡ stopped (ok tt)) × (follow shut.1.sent false ≡ some true)
unfolding run_user_feed feed_round run_user_session run_turns turn on_tick announce send end_session
shut_connected = (refl, refl)

backoff_after-failures_example :
    wait_ms 100 false (backoff_after 100 5000 (true ∷ false ∷ false ∷ []) 400)
    ≡ smaller (100 * 2 ^ 3) 5000
backoff_after-failures_example = backoff_after-failures 1 100 5000 [] 400 (omega arith)

abbrev some_steps : List CacheStep
some_steps =
    resynchronised ("a" ∷ "b" ∷ [])
    ∷ observed (order_event "market" "c" "yes" Side.buy (pos 500000) none none "Placement" none)
    ∷ observed (order_event "market" "a" "yes" Side.buy (pos 500000) none none "CANCELED" none)
    ∷ observed disconnect
    ∷ []

apply_all-view_example :
    view (apply_all some_steps default_cache) ≡ follow_all some_steps (view default_cache)
apply_all-view_example = apply_all-view some_steps default_cache
