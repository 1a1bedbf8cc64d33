-- ===== src/UserWs/Frames.antt =====
-- About user_ws.rs: what the receiver of the feed sees.
use polymarket_watch_rust.Base.Lists.{any}
use polymarket_watch_rust.Base.Outcome.{Result, Result-cases, err, ok}
use polymarket_watch_rust.Base.Tests.{
  Bool, Bool-cases, List, Option, Option-cases, String, [], ap, arith, false, inl, inr, none, refl,
  some, subst, sym, true, ℕ, ⊤, ◌++◌, ◌||◌, ◌∙◌, ◌∷◌, ◌≡◌, ◌⊎◌,
}
use polymarket_watch_rust.Fixed.Text.{Text}
use polymarket_watch_rust.UserWs.{UserEvent, UserFeedMessage, connected, disconnected, event}
use polymarket_watch_rust.UserWs.Session.{
  Arrival, Feed, FeedState, Round, Session, announce, detail_of, end_session, feed_of, feed_round,
  fetch_add, next_backoff, next_revision, on_event, on_tick, on_value, read_value, receiver_closed,
  report_end, run_turns, run_user_feed, run_user_session, send, send_event, serving, shutdown,
  start_session, stopped, tick, turn, value, waiting,
}

-- The receiver's view: connected or not. `none` when a message is out of place.
abbrev pub observe : UserFeedMessage → Bool → Option Bool
observe (connected _) false = some true
observe (connected _) true = none
observe (event _ _) true = some true
observe (event _ _) false = none
observe (disconnected _ _) _ = some false

abbrev pub follow : List UserFeedMessage → Bool → Option Bool
follow [] up = some up
follow (m ∷ ms) up = elim (observe m up) [ none ↦ none | some up' ↦ follow ms up' ]

some_again :
    (o : Option Bool) → (elim o as (λ _. Option Bool) [ none ↦ none | some up ↦ some up ]) ≡ o
some_again none = refl
some_again (some up) = refl

follow-append :
    (ms : List UserFeedMessage) (m : UserFeedMessage) (before after : Bool)
    → follow ms before ≡ some after
    → follow (ms ++ m ∷ []) before ≡ observe m after
follow-append [] m before after h = grind (arith, h, some_again (observe m after))
follow-append (n ∷ ms) m before after h = elim (Option-cases (observe n before)) [
  | inl lost ↦ absurd (grind (arith, h, lost))
  | inr (up, seen) ↦ grind (arith, h, seen, follow-append ms m up after (grind (arith, h, seen)))
]

-- The session knows what the receiver has seen.
abbrev pub IsInStep : Session → Type 0
IsInStep s = follow s.sent false ≡ some s.is_connected

announce-IsInStep :
    (is_open : Bool) (s : Session)
    → s.is_connected ≡ false
    → IsInStep s
    → IsInStep (announce is_open s).1
      × (((announce is_open s).0 ≡ ok tt) → (announce is_open s).1.is_connected ≡ true)
unfolding announce send
announce-IsInStep true s down h = (
  follow-append s.sent (connected (next_revision s)) false s.is_connected h ∙ rw down refl,
  λ _. refl,
)
announce-IsInStep false s down h = (h, λ e. cc)

send_event-IsInStep :
    (is_open : Bool) (e : UserEvent) (s : Session)
    → s.is_connected ≡ true
    → IsInStep s
    → IsInStep (send_event is_open e s).1
unfolding send_event send
send_event-IsInStep is_open e s up h = grind (
  arith,
  h,
  up,
  follow-append s.sent (event (next_revision s) e) false s.is_connected h,
  follow-append s.sent (event s.account_revision e) false s.is_connected h,
)

on_event-IsInStep :
    (is_open : Bool) (e : UserEvent) (s : Session) → IsInStep s → IsInStep (on_event is_open e s).1
unfolding on_event
on_event-IsInStep is_open e s h = elim (Bool-cases s.is_connected) [
  | inl up ↦ grind (arith, up, send_event-IsInStep is_open e s up h)
  | inr down ↦
      let opened = announce-IsInStep is_open s down h in
      elim (Result-cases (announce is_open s).0) [
        | inl (_, h_ok) ↦ grind (
          arith,
          down,
          h_ok,
          send_event-IsInStep is_open e (announce is_open s).1 (opened.1 h_ok) opened.0,
        )
        | inr (x, h_x) ↦ grind (arith, down, h_x, opened.0)
      ]
]

on_tick-IsInStep :
    (is_open channel_connected : Bool) (s : Session)
    → IsInStep s
    → IsInStep (on_tick is_open channel_connected s).1
unfolding on_tick
on_tick-IsInStep is_open channel_connected s h = elim (Bool-cases s.is_connected) [
  | inl up ↦ grind (arith, up, h)
  | inr down ↦ grind (arith, down, h, announce-IsInStep is_open s down h)
]

FeedState-cases :
    (state : FeedState)
    → (state ≡ waiting) ⊎ (state ≡ serving) ⊎ ((result : Result ⊤) × (state ≡ stopped result))
FeedState-cases waiting = inl refl
FeedState-cases serving = inr (inl refl)
FeedState-cases (stopped result) = inr (inr (result, refl))

-- The shutdown token was seen to be cancelled in the loop of the feed.
abbrev pub was_cancelled : Round → Bool
was_cancelled round = round.cancelled_before || round.cancelled_after || round.cancelled_wait

-- What each place where the feed can stand says of the connection and of the shutdown.
abbrev pub IsEnding : List Round → FeedState → Bool → Type 0
IsEnding rounds waiting up = up ≡ false
IsEnding rounds serving up = ⊤
IsEnding rounds (stopped (ok _)) up = any was_cancelled rounds ≡ true
IsEnding rounds (stopped (err x)) up = x ≡ receiver_closed

IsEnding-later :
    (round : Round) (rest : List Round) (state : FeedState) (up : Bool)
    → IsEnding rest state up
    → IsEnding (round ∷ rest) state up
IsEnding-later round rest waiting up h = h
IsEnding-later round rest serving up h = tt
IsEnding-later round rest (stopped (ok _)) up h = ground (arith, h)
IsEnding-later round rest (stopped (err x)) up h = h

-- The messages so far follow the protocol, and the connection is as the feed's place says.
abbrev pub IsFollowed : List Round → FeedState × Feed → Type 0
IsFollowed rounds out = (up : Bool) × (follow out.1.sent false ≡ some up) × IsEnding rounds out.0 up

module _ (decimal_eq : Text → Text → Bool) (api_key : String) where
  turn-IsInStep :
      (is_open : Bool) (a : Arrival) (s : Session)
      → IsInStep s
      → IsInStep (turn decimal_eq api_key is_open a s).1
  unfolding turn on_value
  turn-IsInStep is_open shutdown s h = h
  turn-IsInStep is_open (tick channel_connected) s h =
      on_tick-IsInStep is_open channel_connected s h
  turn-IsInStep is_open (value item) s h =
      elim (Result-cases (read_value decimal_eq api_key item)) [
        | inl (none, h_read) ↦ grind (arith, h_read, h)
        | inl (some e, h_read) ↦ grind (arith, h_read, on_event-IsInStep is_open e s h)
        | inr (x, h_read) ↦ grind (arith, h_read, h)
      ]

  run_turns-IsInStep :
      (turns : List (Bool × Arrival)) (s : Session)
      → IsInStep s
      → IsInStep (run_turns decimal_eq api_key turns s).1
  unfolding run_turns
  run_turns-IsInStep [] s h = h
  run_turns-IsInStep (a ∷ rest) s h =
      let after = (turn decimal_eq api_key a.0 a.1 s).1 in
      let kept = turn-IsInStep a.0 a.1 s h in
      elim (Option-cases (turn decimal_eq api_key a.0 a.1 s).0) [
        | inl goes_on ↦ grind (arith, goes_on, run_turns-IsInStep rest after kept)
        | inr (result, returns) ↦ grind (arith, returns, kept)
      ]

  run_user_session-IsInStep :
      (setup : Result ⊤) (turns : List (Bool × Arrival)) (s : Session)
      → IsInStep s
      → IsInStep (run_user_session decimal_eq api_key setup turns s).1
  unfolding run_user_session
  run_user_session-IsInStep (err x) turns s h = h
  run_user_session-IsInStep (ok _) turns s h = run_turns-IsInStep turns s h

  module _ (reconnect_min_ms reconnect_max_ms : ℕ) where
    end_session-IsFollowed :
        (round : Round) (rest : List Round) (backoff_ms : ℕ) (result : Result ⊤) (s : Session)
        → IsInStep s
        → IsFollowed
            (round ∷ rest)
            (end_session reconnect_min_ms reconnect_max_ms round backoff_ms result s)
    unfolding end_session report_end send
    end_session-IsFollowed round rest backoff_ms result s h =
        let out = end_session reconnect_min_ms reconnect_max_ms round backoff_ms result s in
        let after = next_backoff reconnect_min_ms reconnect_max_ms s.connected_once backoff_ms in
        let closed = fetch_add s in
        let message = disconnected (next_revision s) (detail_of result) in
        let told = follow-append s.sent message false s.is_connected h in
        let reached : Feed = feed_of after (record closed { sent = s.sent ++ message ∷ [] }) in
        elim (Bool-cases round.cancelled_after) [
          | inl token ↦
              let same : out ≡ (stopped (ok tt), feed_of backoff_ms s) = grind (arith, token) in
              subst (IsFollowed (round ∷ rest)) (sym same)
                (s.is_connected, h, ground (arith, token))
          | inr running ↦ elim (Bool-cases round.reported) [
            | inr lost ↦
                let same : out ≡ (stopped (err receiver_closed), feed_of backoff_ms closed) =
                  grind (arith, running, lost) in
                subst (IsFollowed (round ∷ rest)) (sym same) (s.is_connected, h, refl)
            | inl is_open ↦ elim (Bool-cases round.cancelled_wait) [
              | inl token ↦
                  let same : out ≡ (stopped (ok tt), reached) =
                    grind (arith, running, is_open, token) in
                  subst (IsFollowed (round ∷ rest)) (sym same) (false, told, ground (arith, token))
              | inr waits ↦
                  let same : out ≡ (waiting, reached) = grind (arith, running, is_open, waits) in
                  subst (IsFollowed (round ∷ rest)) (sym same) (false, told, refl)
            ]
          ]
        ]

    feed_round-IsFollowed :
        (round : Round) (rest : List Round) (f : Feed)
        → follow f.sent false ≡ some false
        → IsFollowed
            (round ∷ rest)
            (feed_round decimal_eq api_key reconnect_min_ms reconnect_max_ms round f)
    unfolding feed_round
    feed_round-IsFollowed round rest f h =
        let session =
          run_user_session decimal_eq api_key round.setup round.turns (start_session f) in
        let kept = run_user_session-IsInStep round.setup round.turns (start_session f) h in
        let out = feed_round decimal_eq api_key reconnect_min_ms reconnect_max_ms round f in
        elim (Bool-cases round.cancelled_before) [
          | inl token ↦
              let same : out ≡ (stopped (ok tt), f) = grind (arith, token) in
              subst (IsFollowed (round ∷ rest)) (sym same) (false, h, ground (arith, token))
          | inr running ↦ elim (Option-cases session.0) [
            | inl serves ↦
                let same : out ≡ (serving, feed_of f.backoff_ms session.1) =
                  grind (arith, running, serves) in
                subst (IsFollowed (round ∷ rest)) (sym same) (session.1.is_connected, kept, tt)
            | inr (result, ended) ↦
                let same : out
                    ≡ end_session reconnect_min_ms reconnect_max_ms round f.backoff_ms result
                        session.1 =
                  grind (arith, running, ended) in
                subst (IsFollowed (round ∷ rest)) (sym same)
                  (end_session-IsFollowed round rest f.backoff_ms result session.1 kept)
          ]
        ]

    -- Whatever arrives, the messages of the user feed follow the protocol: a connection is
    -- announced only when none is up, an event is sent only while one is up, and a report of a
    -- disconnection leaves none up. Between two sessions none is up; the feed returns without
    -- an error only when the shutdown was seen in its loop, which can leave a connection up,
    -- and it fails only because the receiver is gone. The messages before were of that form and
    -- left none up.
    pub run_user_feed-follow :
        (rounds : List Round) (f : Feed)
        → follow f.sent false ≡ some false
        → (up : Bool) × (follow
              (run_user_feed decimal_eq api_key reconnect_min_ms reconnect_max_ms rounds f).1.sent
              false
            ≡ some up)
          × IsEnding rounds
              (run_user_feed decimal_eq api_key reconnect_min_ms reconnect_max_ms rounds f).0
              up
    unfolding run_user_feed
    run_user_feed-follow [] f h = (false, h, refl)
    run_user_feed-follow (round ∷ rest) f h =
        let next = feed_round decimal_eq api_key reconnect_min_ms reconnect_max_ms round f in
        let out =
          run_user_feed decimal_eq api_key reconnect_min_ms reconnect_max_ms (round ∷ rest) f in
        let seen = feed_round-IsFollowed round rest f h in
        elim (FeedState-cases next.0) [
          | inl waits ↦
              let same : out
                  ≡ run_user_feed decimal_eq api_key reconnect_min_ms reconnect_max_ms rest next.1 =
                grind (arith, waits) in
              let down : seen.0 ≡ false =
                subst (λ state. IsEnding (round ∷ rest) state seen.0) waits seen.2 in
              let later = run_user_feed-follow rest next.1 (seen.1 ∙ ap some down) in
              subst (IsFollowed (round ∷ rest)) (sym same)
                (later.0, later.1, IsEnding-later round rest _ later.0 later.2)
          | inr (inl serves) ↦
              let same : out ≡ next = grind (arith, serves) in
              subst (IsFollowed (round ∷ rest)) (sym same) seen
          | inr (inr (result, stops)) ↦
              let same : out ≡ next = grind (arith, stops) in
              subst (IsFollowed (round ∷ rest)) (sym same) seen
        ]
