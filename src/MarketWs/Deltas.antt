-- ===== src/MarketWs/Deltas.antt =====
-- About market_ws.rs: what a tradeable book is, and the level changes and snapshots.
use polymarket_watch_rust.Base.Int.{checked}
use polymarket_watch_rust.Base.Lists.{All}
use polymarket_watch_rust.Base.Outcome.{Result, err, ok}
use polymarket_watch_rust.Base.Tests.{
  Bool, List, Option, String, [], arith, false, refl, true, ℕ, ⊤, ◌∷◌, ◌≡◌, ◌≤◌,
}
use polymarket_watch_rust.Book.{
  apply_level_change, ask_order, bid_order, sort_and_refresh_top, sort_levels, upsert_level,
}
use polymarket_watch_rust.Book.Sorted.{
  IsRefreshed, apply_level_change-IsRefreshed, sort_asks-IsSorted, sort_bids-IsSorted,
}
use polymarket_watch_rust.Fixed.{Fixed}
use polymarket_watch_rust.MarketWs.{
  PriceChange, apply_changes, finish_changes, hash_missing, install_snapshot, last_change, stamp,
}
use polymarket_watch_rust.MarketWs.FailClosed.{Closed, IsChecked, Outcome, finish_changes-Careful}
use polymarket_watch_rust.MarketWs.Levels.{
  All-sort_levels, All-upsert_level, IsValidDelta, IsValidLevel, first-sort_asks, first-sort_bids,
  validate_snapshot_levels-ok,
}
use polymarket_watch_rust.MarketWs.Validate.{crossed_sides, validate_snapshot_levels}
use polymarket_watch_rust.Types.{BookState, Level, Side, buy, sell}

pub record IsAuthoritative (book : BookState) : Type 0 where
  pub refreshed : IsRefreshed book
  pub bids_valid : All (IsValidLevel book.tick_size) book.bids
  pub asks_valid : All (IsValidLevel book.tick_size) book.asks
  pub uncrossed : crossed_sides book.best_bid book.best_ask ≡ false
  pub hashed : hash_missing book.book_hash ≡ false
  pub on_time : book.exchange_timestamp_ms ≤ book.local_received_at_ms

abbrev pub IsSound : BookState → Type 0
IsSound book = book.tradeable ≡ true → IsAuthoritative book

-- The part of it that holds between the level changes of one event.
record HasLevels (tick : Fixed) (book : BookState) : Type 0 where
  refreshed : IsRefreshed book
  same_tick : book.tick_size ≡ tick
  bids_valid : All (IsValidLevel tick) book.bids
  asks_valid : All (IsValidLevel tick) book.asks

side_valid :
    (tick : Fixed) (c : PriceChange) (before : Level → Level → Bool) (levels : List Level)
    → IsValidDelta tick c
    → All (IsValidLevel tick) levels
    → All (IsValidLevel tick) (sort_levels before (upsert_level levels c.price c.size))
side_valid tick c before levels delta valid =
    All-sort_levels tick before _ (All-upsert_level tick c levels delta valid)

apply_level_change-valid :
    (tick : Fixed) (c : PriceChange) (side : Side) (book : BookState)
    → IsValidDelta tick c
    → HasLevels tick book
    → let book' = apply_level_change book side c.price c.size in
      (book'.tick_size ≡ tick)
      × All (IsValidLevel tick) book'.bids
      × All (IsValidLevel tick) book'.asks
unfolding apply_level_change sort_and_refresh_top
apply_level_change-valid tick c buy book delta h = (
  h.same_tick,
  side_valid tick c bid_order book.bids delta h.bids_valid,
  All-sort_levels tick ask_order book.asks h.asks_valid,
)
apply_level_change-valid tick c sell book delta h = (
  h.same_tick,
  All-sort_levels tick bid_order book.bids h.bids_valid,
  side_valid tick c ask_order book.asks delta h.asks_valid,
)

apply_level_change-HasLevels :
    (tick : Fixed) (c : PriceChange) (book : BookState)
    → IsValidDelta tick c
    → HasLevels tick book
    → HasLevels tick (apply_level_change book c.side c.price c.size)
apply_level_change-HasLevels tick c book delta h =
    let (same_tick, bids_valid, asks_valid) = apply_level_change-valid tick c c.side book delta h in
    record {
      refreshed = apply_level_change-IsRefreshed book c.side c.price c.size;
      same_tick = same_tick;
      bids_valid = bids_valid;
      asks_valid = asks_valid;
    }

apply_changes-HasLevels :
    (tick : Fixed) (changes : List PriceChange) (book : BookState)
    → All (IsValidDelta tick) changes
    → HasLevels tick book
    → HasLevels tick (apply_changes changes book)
unfolding apply_changes
apply_changes-HasLevels tick [] book ds h = h
apply_changes-HasLevels tick (c ∷ rest) book ds h =
    apply_changes-HasLevels tick rest (apply_level_change book c.side c.price c.size) ds.1
      (apply_level_change-HasLevels tick c book ds.0 h)

-- The book that the arm for `PriceChange` leaves if it succeeds.
abbrev finished : ℕ → ℕ → PriceChange → List PriceChange → BookState → BookState
finished t now c rest book = record (apply_changes (c ∷ rest) book) {
  book_hash = (last_change c rest).hash;
  exchange_timestamp_ms = t;
  local_received_at_ms = now;
}

finish_changes-ok :
    (t now : ℕ) (c : PriceChange) (rest : List PriceChange) (book : BookState)
    → (finish_changes t now c rest book).0 ≡ ok tt
    → ((finish_changes t now c rest book).1 ≡ finished t now c rest book)
      × (crossed_sides
            (apply_changes (c ∷ rest) book).best_bid
            (apply_changes (c ∷ rest) book).best_ask
          ≡ false)
unfolding finish_changes stamp
finish_changes-ok t now c rest book h = ground arith

finished-IsAuthoritative :
    (t now : ℕ) (c : PriceChange) (rest : List PriceChange) (book : BookState)
    → IsAuthoritative book
    → IsChecked t now (c ∷ rest) (last_change c rest) book
    → crossed_sides
        (apply_changes (c ∷ rest) book).best_bid
        (apply_changes (c ∷ rest) book).best_ask
      ≡ false
    → IsAuthoritative (finished t now c rest book)
finished-IsAuthoritative t now c rest book a checked uncrossed =
    let levels = apply_changes-HasLevels book.tick_size (c ∷ rest) book checked.deltas (record {
      refreshed = a.refreshed;
      same_tick = refl;
      bids_valid = a.bids_valid;
      asks_valid = a.asks_valid;
    }) in
    record {
      refreshed = record {
        bids_sorted = levels.refreshed.bids_sorted;
        asks_sorted = levels.refreshed.asks_sorted;
        bid_top = levels.refreshed.bid_top;
        ask_top = levels.refreshed.ask_top;
      };
      bids_valid = rw levels.same_tick levels.bids_valid;
      asks_valid = rw levels.same_tick levels.asks_valid;
      uncrossed = uncrossed;
      hashed = checked.hashed;
      on_time = checked.received;
    }

with_ok :
    (Q R E : BookState → Type 0) (x : Result ⊤ × BookState)
    → Outcome Q E x
    → (x.0 ≡ ok tt → R x.1)
    → Outcome R E x
with_ok Q R E (ok u, book) h k = k refl
with_ok Q R E (err e, book) h k = h

pub finish_changes-IsSound :
    (t now : ℕ) (c : PriceChange) (rest : List PriceChange) (book : BookState)
    → IsSound book
    → IsChecked t now (c ∷ rest) (last_change c rest) book
    → Outcome IsSound (Closed book.exchange_timestamp_ms) (finish_changes t now c rest book)
finish_changes-IsSound t now c rest book sound checked =
    with_ok _ IsSound _ (finish_changes t now c rest book)
      (finish_changes-Careful t now c rest book checked.in_order)
      (λ h.
        let (result, uncrossed) = finish_changes-ok t now c rest book h in
        rw result (λ _.
          finished-IsAuthoritative t now c rest book (sound checked.was_tradeable) checked
            uncrossed))

pub install_snapshot-IsSound :
    (t now : ℕ) (hash : Option String) (bids asks : List Level) (book : BookState)
    → t ≤ now
    → validate_snapshot_levels bids asks book.tick_size ≡ ok tt
    → hash_missing hash ≡ false
    → IsSound (install_snapshot t now hash bids asks book)
unfolding install_snapshot sort_and_refresh_top
install_snapshot-IsSound t now hash bids asks book times levels hashed tradeable =
    let (bids_ok, asks_ok, uncrossed) =
      validate_snapshot_levels-ok bids asks book.tick_size levels in
    record {
      refreshed = record {
        bids_sorted = sort_bids-IsSorted bids;
        asks_sorted = sort_asks-IsSorted asks;
        bid_top = refl;
        ask_top = refl;
      };
      bids_valid = All-sort_levels book.tick_size bid_order bids bids_ok;
      asks_valid = All-sort_levels book.tick_size ask_order asks asks_ok;
      uncrossed = rw (first-sort_bids, first-sort_asks) uncrossed;
      hashed = hashed;
      on_time = times;
    }
