-- ===== src/MarketWs/Authority.antt =====
-- About market_ws.rs: each event and what a tradeable book is.
use polymarket_watch_rust.Base.Outcome.{Result, err, ok}
use polymarket_watch_rust.Base.Tests.{
  Bool-cases, List, Option, String, [], arith, false, inl, inr, some, str_eq, true, ℕ, ⊤, ◌∷◌, ◌≡◌,
  ◌≤◌, ◌⊎◌,
}
use polymarket_watch_rust.Fixed.{Fixed}
use polymarket_watch_rust.MarketWs.{
  Edit, MarketEvent, PriceChange, apply_market_event, best_bid_ask, book_snapshot, hash_missing,
  install_snapshot, last_trade_price, market_resolved, new_market, on_best_bid_ask, on_book,
  on_last_trade, on_matching, on_tick_size, price_change, tick_size_change, when_asset,
}
use polymarket_watch_rust.MarketWs.Deltas.{
  IsAuthoritative, IsSound, finish_changes-IsSound, install_snapshot-IsSound,
}
use polymarket_watch_rust.MarketWs.FailClosed.{Closed, Outcome, on_matching-Outcome}
use polymarket_watch_rust.MarketWs.Validate.{validate_event_timestamp, validate_snapshot_levels}
use polymarket_watch_rust.Types.{AssetId, BookState, Level}

-- Of an outcome whose failures are closed, soundness is a matter of the successes.
IsSound-outcome :
    (since : ℕ) (x : Result ⊤ × BookState) → Outcome IsSound (Closed since) x → IsSound x.1
IsSound-outcome since (ok u, book) h = h
IsSound-outcome since (err e, book) h = λ tradeable. cc (h.0)

on_book-cases :
    (asset : AssetId) (t : ℕ) (hash : Option String) (bids asks : List Level) (now : ℕ)
    (book : BookState)
    → let book' = (on_book asset t hash bids asks now book).1 in
      (book'.tradeable ≡ false)
      ⊎ (book' ≡ book)
      ⊎ ((t ≤ now)
          × (validate_snapshot_levels bids asks book.tick_size ≡ ok tt)
          × (hash_missing hash ≡ false)
          × (book' ≡ install_snapshot t now hash bids asks book))
unfolding on_book validate_event_timestamp
on_book-cases asset t hash bids asks now book = ground arith

on_book-IsSound :
    (asset : AssetId) (t : ℕ) (hash : Option String) (bids asks : List Level) (now : ℕ)
    (book : BookState)
    → IsSound book
    → IsSound (on_book asset t hash bids asks now book).1
on_book-IsSound asset t hash bids asks now book sound =
    elim (on_book-cases asset t hash bids asks now book) [
      | inl closed ↦ λ tradeable. cc (closed, tradeable)
      | inr (inl same) ↦ rw same sound
      | inr (inr (times, levels, hashed, result)) ↦
          rw result (install_snapshot-IsSound t now hash bids asks book times levels hashed)
    ]

on_price_change-IsSound :
    (t now : ℕ) (changes : List PriceChange) (book : BookState)
    → IsSound book
    → IsSound (on_matching t now changes book).1
on_price_change-IsSound t now [] book sound = unfold on_matching in sound
on_price_change-IsSound t now (c ∷ rest) book sound =
    IsSound-outcome book.exchange_timestamp_ms (on_matching t now (c ∷ rest) book) (
      on_matching-Outcome IsSound t now c rest book
        (finish_changes-IsSound t now c rest book sound))

-- The other events close the book, or leave all that makes it authoritative alone.
on_tick_size-closes :
    (t : ℕ) (old new : Fixed) (now : ℕ) (book : BookState)
    → (on_tick_size t old new now book).1.tradeable ≡ false
unfolding on_tick_size
on_tick_size-closes t old new now book = ground arith

abbrev Keeps : BookState → BookState → Type 0
Keeps book book' = (book'.tradeable ≡ false) ⊎ (book' ≡ book)

on_best_bid_ask-Keeps :
    (t : ℕ) (bid ask : Fixed) (now : ℕ) (book : BookState)
    → Keeps book (on_best_bid_ask t bid ask now book).1
unfolding on_best_bid_ask
on_best_bid_ask-Keeps t bid ask now book = ground arith

Keeps-IsSound : (book book' : BookState) → Keeps book book' → IsSound book → IsSound book'
Keeps-IsSound book book' (inl closed) sound = λ tradeable. cc (closed, tradeable)
Keeps-IsSound book book' (inr same) sound = rw same sound

abbrev with_trade : Option Fixed → Option ℕ → BookState → BookState
with_trade price t book = record book { last_trade_price = price; last_trade_timestamp_ms = t }

with_trade-IsSound :
    (price : Option Fixed) (t : Option ℕ) (book : BookState)
    → IsSound book
    → IsSound (with_trade price t book)
with_trade-IsSound price t book sound tradeable =
    let a = sound tradeable in
    record {
      refreshed = record {
        bids_sorted = a.refreshed.bids_sorted;
        asks_sorted = a.refreshed.asks_sorted;
        bid_top = a.refreshed.bid_top;
        ask_top = a.refreshed.ask_top;
      };
      bids_valid = a.bids_valid;
      asks_valid = a.asks_valid;
      uncrossed = a.uncrossed;
      hashed = a.hashed;
      on_time = a.on_time;
    }

on_last_trade-cases :
    (t : ℕ) (price : Fixed) (size : Option Fixed) (now : ℕ) (book : BookState)
    → let book' = (on_last_trade t price size now book).1 in
      Keeps book book' ⊎ (book' ≡ with_trade (some price) (some t) book)
unfolding on_last_trade
on_last_trade-cases t price size now book = ground arith

when_asset-IsSound :
    (asset : AssetId) (m : Edit) (book : BookState)
    → IsSound book
    → IsSound (m book).1
    → IsSound (when_asset asset m book).1
when_asset-IsSound asset m book sound h = elim (Bool-cases (str_eq asset book.asset_id)) [
  | inl e ↦ rw e h
  | inr e ↦ rw e sound
]

-- No event makes a book tradeable that is not authoritative.
pub apply_market_event-IsSound :
    (event : MarketEvent) (now : ℕ) (book : BookState)
    → IsSound book
    → IsSound (apply_market_event event now book).1
unfolding apply_market_event
apply_market_event-IsSound (book_snapshot asset market t hash bids asks) now book sound =
    on_book-IsSound asset t hash bids asks now book sound
apply_market_event-IsSound (price_change market t changes) now book sound =
    on_price_change-IsSound t now _ book sound
apply_market_event-IsSound (tick_size_change asset market t old new) now book sound =
    when_asset-IsSound asset (on_tick_size t old new now) book sound
      (λ tradeable. cc (on_tick_size-closes t old new now book, tradeable))
apply_market_event-IsSound (last_trade_price asset market t price size side) now book sound =
    when_asset-IsSound asset (on_last_trade t price size now) book sound
      (elim (on_last_trade-cases t price size now book) [
        | inl kept ↦ Keeps-IsSound book _ kept sound
        | inr traded ↦ rw traded (with_trade-IsSound (some price) (some t) book sound)
      ])
apply_market_event-IsSound (best_bid_ask asset market t bid ask) now book sound =
    when_asset-IsSound asset (on_best_bid_ask t bid ask now) book sound
      (Keeps-IsSound book _ (on_best_bid_ask-Keeps t bid ask now book) sound)
apply_market_event-IsSound (new_market condition assets) now book sound = sound
apply_market_event-IsSound (market_resolved condition assets winner) now book sound =
    Keeps-IsSound book _ (ground arith) sound

-- Whatever the event, if the book was not tradeable or authoritative before it, and it is
-- tradeable after it, then it is authoritative after it: both sides hold valid levels in price
-- order, the best prices are those of the first levels and are not crossed, there is a book
-- hash, and the exchange time is no later than the receipt.
pub apply_market_event-IsAuthoritative :
    (event : MarketEvent) (now : ℕ) (book : BookState)
    → (book.tradeable ≡ false) ⊎ IsAuthoritative book
    → (apply_market_event event now book).1.tradeable ≡ true
    → IsAuthoritative (apply_market_event event now book).1
apply_market_event-IsAuthoritative event now book (inl closed) h =
    apply_market_event-IsSound event now book (λ tradeable. absurd cc) h
apply_market_event-IsAuthoritative event now book (inr authoritative) h =
    apply_market_event-IsSound event now book (λ tradeable. authoritative) h
