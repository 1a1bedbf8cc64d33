-- ===== src/UserWs/Session.antt =====
-- About user_ws.rs: one websocket session, and the reconnections around it. What `select!` and the
-- channel do is an input: which branch is taken, and whether a send still finds its receiver.
use Prim.Native.String.{◌++◌ as append}
use polymarket_watch_rust.Base.Int.{u64_max}
use polymarket_watch_rust.Base.Outcome.{BotError, Result, err, execution, ok, protocol, to_string}
use polymarket_watch_rust.Base.Tests.{
  Bool, List, Option, String, [], false, if◌then◌else◌, leb, none, not, some, true, ℕ, ⊤, ◌%◌, ◌&&◌,
  ◌*◌, ◌++◌, ◌+◌, ◌^◌, ◌∷◌,
}
use polymarket_watch_rust.Fixed.Text.{Text}
use polymarket_watch_rust.Journal.{Answer, failed, got}
use polymarket_watch_rust.UserWs.{
  UserEvent, UserFeedMessage, connected, disconnected, event, saturating_next,
  user_event_changes_account_revision,
}
use polymarket_watch_rust.UserWs.Conversion.{convert_message}
use polymarket_watch_rust.UserWs.Messages.{WsMessage}

-- The counter is shared; `sent` are the messages that the channel has taken.
pub record Session : Type 0 where
  pub is_connected : Bool
  pub connected_once : Bool
  pub account_revision : ℕ
  pub sent : List UserFeedMessage

-- `fetch_add(1)` wraps, and the value it returned is counted up without wrapping.
abbrev pub next_revision : Session → ℕ
next_revision s = saturating_next s.account_revision

abbrev pub fetch_add : Session → Session
fetch_add s = record s { account_revision = (s.account_revision + 1) % 2 ^ 64 }

abbrev pub receiver_closed : BotError
receiver_closed = execution "user_feed_receiver_closed"

unfoldable pub send : Bool → UserFeedMessage → Session → Result ⊤ × Session
send is_open message s =
    if is_open
    then (ok tt, record s { sent = s.sent ++ message ∷ [] })
    else (err receiver_closed, s)

unfoldable pub announce : Bool → Session → Result ⊤ × Session
announce is_open s =
    let answer = send is_open (connected (next_revision s)) (fetch_add s) in
    elim answer.0 [
      | err x ↦ answer
      | ok _ ↦ (ok tt, record answer.1 { is_connected = true; connected_once = true })
    ]

-- The branch of the connection check, which is only polled before the connection.
unfoldable pub on_tick : Bool → Bool → Session → Result ⊤ × Session
on_tick is_open channel_connected s =
    if not s.is_connected && channel_connected then announce is_open s else (ok tt, s)

unfoldable pub send_event : Bool → UserEvent → Session → Result ⊤ × Session
send_event is_open e s =
    if user_event_changes_account_revision e
    then send is_open (event (next_revision s) e) (fetch_add s)
    else send is_open (event s.account_revision e) s

unfoldable pub on_event : Bool → UserEvent → Session → Result ⊤ × Session
on_event is_open e s =
    let opened = if s.is_connected then (ok tt, s) else announce is_open s in
    elim opened.0 [ err x ↦ opened | ok _ ↦ send_event is_open e opened.1 ]

-- What one turn of the loop sees: which branch `select!` takes.
pub data Arrival : Type 0 where
  shutdown : Arrival
  tick : Bool → Arrival
  value : Option (Answer WsMessage) → Arrival

-- What a turn returns from the session with, if it does.
abbrev pub returned : Result ⊤ → Option (Result ⊤)
returned (ok _) = none
returned (err x) = some (err x)

module _ (decimal_eq : Text → Text → Bool) (api_key : String) where
  unfoldable pub read_value : Option (Answer WsMessage) → Result (Option UserEvent)
  read_value none = err (protocol "user_ws_eof")
  read_value (some (failed text)) = err (protocol (append "user_ws_stream:" text))
  read_value (some (got message)) = convert_message decimal_eq api_key message

  unfoldable pub on_value : Bool → Option (Answer WsMessage) → Session → Result ⊤ × Session
  on_value is_open item s = elim (read_value item) [
    | err x ↦ (err x, s)
    | ok none ↦ (ok tt, s)
    | ok (some e) ↦ on_event is_open e s
  ]

  unfoldable pub turn : Bool → Arrival → Session → Option (Result ⊤) × Session
  turn is_open shutdown s = (some (ok tt), s)
  turn is_open (tick channel_connected) s =
      let polled = on_tick is_open channel_connected s in (returned polled.0, polled.1)
  turn is_open (value item) s = let read = on_value is_open item s in (returned read.0, read.1)

  -- The loop of a session: `none` while it runs.
  unfoldable pub run_turns : List (Bool × Arrival) → Session → Option (Result ⊤) × Session
  run_turns [] s = (none, s)
  run_turns (a ∷ rest) s =
      let step = turn a.0 a.1 s in
      elim step.0 [ some result ↦ (some result, step.1) | none ↦ run_turns rest step.1 ]

  -- `setup` is what comes before the loop: the markets, the client and the subscription.
  unfoldable pub run_user_session :
      Result ⊤ → List (Bool × Arrival) → Session → Option (Result ⊤) × Session
  run_user_session setup turns s = elim setup [
    | err x ↦ (some (err x), s)
    | ok _ ↦ run_turns turns s
  ]

-- `max(1)` of a setting
abbrev pub at_least_one : ℕ → ℕ
at_least_one n = if leb 1 n then n else 1

abbrev pub smaller : ℕ → ℕ → ℕ
smaller a b = if leb a b then a else b

-- `saturating_mul(2)`
abbrev pub doubled : ℕ → ℕ
doubled n = smaller (n * 2) u64_max

-- The wait after a session, and the backoff that follows it.
unfoldable pub wait_ms : ℕ → Bool → ℕ → ℕ
wait_ms reconnect_min_ms connected_once backoff_ms =
    if connected_once then at_least_one reconnect_min_ms else backoff_ms

unfoldable pub next_backoff : ℕ → ℕ → Bool → ℕ → ℕ
unfolding wait_ms
next_backoff reconnect_min_ms reconnect_max_ms connected_once backoff_ms =
    smaller (doubled (wait_ms reconnect_min_ms connected_once backoff_ms))
      (at_least_one reconnect_max_ms)

abbrev pub detail_of : Result ⊤ → String
detail_of (err x) = to_string x
detail_of (ok _) = "user_ws_ended"

-- The message of a session that has ended.
unfoldable pub report_end : Bool → Result ⊤ → Session → Result ⊤ × Session
report_end is_open result s =
    send is_open (disconnected (next_revision s) (detail_of result)) (fetch_add s)

-- The backoff after sessions, each with whether it was connected.
unfoldable pub backoff_after : ℕ → ℕ → List Bool → ℕ → ℕ
backoff_after reconnect_min_ms reconnect_max_ms [] backoff_ms = backoff_ms
backoff_after reconnect_min_ms reconnect_max_ms (once ∷ rest) backoff_ms =
    backoff_after reconnect_min_ms reconnect_max_ms rest
      (next_backoff reconnect_min_ms reconnect_max_ms once backoff_ms)

-- What the loop of `run_user_feed` carries from one session to the next.
pub record Feed : Type 0 where
  pub backoff_ms : ℕ
  pub account_revision : ℕ
  pub sent : List UserFeedMessage

-- One round of the loop: the readings of the shutdown token before and after the session, the
-- session, whether the receiver takes the report, and whether the token ends the wait.
pub record Round : Type 0 where
  pub cancelled_before : Bool
  pub setup : Result ⊤
  pub turns : List (Bool × Arrival)
  pub cancelled_after : Bool
  pub reported : Bool
  pub cancelled_wait : Bool

-- Where the feed stands: before its next round, in a session, or returned.
pub data FeedState : Type 0 where
  waiting serving : FeedState
  stopped : Result ⊤ → FeedState

abbrev pub start_session : Feed → Session
start_session f = record {
  is_connected = false;
  connected_once = false;
  account_revision = f.account_revision;
  sent = f.sent;
}

abbrev pub feed_of : ℕ → Session → Feed
feed_of backoff_ms s = record {
  backoff_ms = backoff_ms;
  account_revision = s.account_revision;
  sent = s.sent;
}

-- After a session: the report, unless the token is cancelled, and the wait.
unfoldable pub end_session : ℕ → ℕ → Round → ℕ → Result ⊤ → Session → FeedState × Feed
end_session reconnect_min_ms reconnect_max_ms round backoff_ms result s =
    let end = report_end round.reported result s in
    if round.cancelled_after then (stopped (ok tt), feed_of backoff_ms s) else elim end.0 [
      | err x ↦ (stopped (err x), feed_of backoff_ms end.1)
      | ok _ ↦ (
        if round.cancelled_wait then stopped (ok tt) else waiting,
        feed_of (next_backoff reconnect_min_ms reconnect_max_ms s.connected_once backoff_ms) end.1,
      )
    ]

module _ (decimal_eq : Text → Text → Bool) (api_key : String)
    (reconnect_min_ms reconnect_max_ms : ℕ) where
  unfoldable pub feed_round : Round → Feed → FeedState × Feed
  feed_round round f =
      let session = run_user_session decimal_eq api_key round.setup round.turns (start_session f) in
      if round.cancelled_before then (stopped (ok tt), f) else elim session.0 [
        | none ↦ (serving, feed_of f.backoff_ms session.1)
        | some result ↦
            end_session reconnect_min_ms reconnect_max_ms round f.backoff_ms result session.1
      ]

  unfoldable pub run_user_feed : List Round → Feed → FeedState × Feed
  run_user_feed [] f = (waiting, f)
  run_user_feed (round ∷ rest) f =
      let next = feed_round round f in
      elim next.0 [ waiting ↦ run_user_feed rest next.1 | serving ↦ next | stopped result ↦ next ]
