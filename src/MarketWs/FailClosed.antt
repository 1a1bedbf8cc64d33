-- ===== src/MarketWs/FailClosed.antt =====
-- What every event of market_ws.rs leaves behind, by how it ended.
use polymarket_watch_rust.Base.Lists.{All}
use polymarket_watch_rust.Base.Outcome.{Result, err, ok}
use polymarket_watch_rust.Base.Tests.{
  List, Option, String, [], arith, false, refl, subst, sym, true, ℕ, ⊤, ◌∙◌, ◌∷◌, ◌≡◌, ◌≤◌,
}
use polymarket_watch_rust.Book.{apply_level_change, sort_and_refresh_top}
use polymarket_watch_rust.Fixed.{Fixed}
use polymarket_watch_rust.MarketWs.{
  Edit, MarketEvent, PriceChange, apply_changes, apply_market_event, best_bid_ask, book_snapshot,
  check_times, finish_changes, hash_missing, install_snapshot, last_change, last_trade_price,
  market_resolved, new_market, on_best_bid_ask, on_book, on_last_trade, on_matching, on_tick_size,
  price_change, require_authoritative, require_hash, stamp, tick_size_change, validate_changes, ◌⨾◌,
}
use polymarket_watch_rust.MarketWs.Levels.{IsValidDelta, validate_delta_level-ok}
use polymarket_watch_rust.MarketWs.Validate.{validate_event_order, validate_event_timestamp}
use polymarket_watch_rust.Types.{AssetId, BookState, Level, Side, buy, sell}

-- What holds of the book after an edit, if it succeeded and if it failed.
abbrev pub Outcome : (BookState → Type 0) → (BookState → Type 0) → Result ⊤ × BookState → Type 0
Outcome Q E (ok _, book) = Q book
Outcome Q E (err _, book) = E book

module _ (Q R E : BookState → Type 0) where
  continue :
      (x : Result ⊤ × BookState) (k : Edit)
      → Outcome Q E x
      → ((book : BookState) → Q book → Outcome R E (k book))
      → Outcome R E (elim x.0 [ ok _ ↦ k x.1 | err e ↦ (err e, x.1) ])
  continue (ok u, book) k h rest = rest book h
  continue (err e, book) k h rest = h

  pub seq-Outcome :
      (m k : Edit) (book : BookState)
      → Outcome Q E (m book)
      → ((b : BookState) → Q b → Outcome R E (k b))
      → Outcome R E ((m ⨾ k) book)
  seq-Outcome m k book = continue (m book) k

-- A failed event leaves a book that is not tradeable. The exchange time never runs back.
abbrev pub Closed : ℕ → BookState → Type 0
Closed since book = (book.tradeable ≡ false) × (since ≤ book.exchange_timestamp_ms)

abbrev pub NotBefore : ℕ → BookState → Type 0
NotBefore since book = since ≤ book.exchange_timestamp_ms

abbrev pub Careful : BookState → Result ⊤ × BookState → Type 0
Careful book = Outcome (NotBefore book.exchange_timestamp_ms) (Closed book.exchange_timestamp_ms)

on_book-Careful :
    (asset : AssetId) (t : ℕ) (hash : Option String) (bids asks : List Level) (now : ℕ)
    (book : BookState)
    → Careful book (on_book asset t hash bids asks now book)
unfolding on_book validate_event_order install_snapshot sort_and_refresh_top
on_book-Careful asset t hash bids asks now book = ground arith

on_tick_size-Careful :
    (t : ℕ) (old new : Fixed) (now : ℕ) (book : BookState)
    → Careful book (on_tick_size t old new now book)
unfolding on_tick_size validate_event_order
on_tick_size-Careful t old new now book = ground arith

on_best_bid_ask-Careful :
    (t : ℕ) (bid ask : Fixed) (now : ℕ) (book : BookState)
    → Careful book (on_best_bid_ask t bid ask now book)
unfolding on_best_bid_ask
on_best_bid_ask-Careful t bid ask now book = ground arith

on_last_trade-Careful :
    (t : ℕ) (price : Fixed) (size : Option Fixed) (now : ℕ) (book : BookState)
    → Careful book (on_last_trade t price size now book)
unfolding on_last_trade
on_last_trade-Careful t price size now book = ground arith

apply_level_change-time :
    (book : BookState) (side : Side) (price size : Fixed)
    → (apply_level_change book side price size).exchange_timestamp_ms ≡ book.exchange_timestamp_ms
unfolding apply_level_change sort_and_refresh_top
apply_level_change-time book buy price size = refl
apply_level_change-time book sell price size = refl

apply_changes-time :
    (changes : List PriceChange) (book : BookState)
    → (apply_changes changes book).exchange_timestamp_ms ≡ book.exchange_timestamp_ms
unfolding apply_changes
apply_changes-time [] book = refl
apply_changes-time (c ∷ rest) book =
    apply_changes-time rest (apply_level_change book c.side c.price c.size)
    ∙ apply_level_change-time book c.side c.price c.size

pub finish_changes-Careful :
    (t now : ℕ) (c : PriceChange) (rest : List PriceChange) (book : BookState)
    → book.exchange_timestamp_ms ≤ t
    → Careful book (finish_changes t now c rest book)
unfolding finish_changes stamp
finish_changes-Careful t now c rest book h = ground (arith, apply_changes-time (c ∷ rest) book)

-- A test that passes hands the book on as it is, and a fact `F` with it.
guarded :
    {F : Type 0} (R E : BookState → Type 0) (m k : Edit) (book : BookState)
    → Outcome (λ b. (b ≡ book) × F) E (m book)
    → (F → Outcome R E (k book))
    → Outcome R E ((m ⨾ k) book)
guarded {F} R E m k book h rest =
    seq-Outcome (λ b. (b ≡ book) × F) R E m k book h
      (λ b fact. subst (λ c. Outcome R E (k c)) (sym fact.0) (rest fact.1))

require_authoritative-Outcome :
    (book : BookState)
    → Outcome
        (λ b. (b ≡ book) × (book.tradeable ≡ true))
        (Closed book.exchange_timestamp_ms)
        (require_authoritative book)
unfolding require_authoritative
require_authoritative-Outcome book = ground arith

require_hash-Outcome :
    (hash : Option String) (message : String) (book : BookState)
    → Outcome
        (λ b. (b ≡ book) × (hash_missing hash ≡ false))
        (Closed book.exchange_timestamp_ms)
        (require_hash hash message book)
unfolding require_hash
require_hash-Outcome hash message book = ground arith

check_times-Outcome :
    (t now : ℕ) (book : BookState)
    → Outcome
        (λ b. (b ≡ book) × ((book.exchange_timestamp_ms ≤ t) × (t ≤ now)))
        (Closed book.exchange_timestamp_ms)
        (check_times t now book)
unfolding check_times validate_event_order validate_event_timestamp
check_times-Outcome t now book = ground arith

validate_changes-Outcome :
    (changes : List PriceChange) (book : BookState)
    → Outcome
        (λ b. (b ≡ book) × All (IsValidDelta book.tick_size) changes)
        (Closed book.exchange_timestamp_ms)
        (validate_changes changes book)
unfolding validate_changes
validate_changes-Outcome [] book = (refl, tt)
validate_changes-Outcome (c ∷ rest) book =
    ground (arith, validate_changes-Outcome rest book, validate_delta_level-ok c book.tick_size)

-- What the arm for `PriceChange` has established before it writes.
pub record IsChecked (t now : ℕ) (changes : List PriceChange) (final : PriceChange)
    (book : BookState) : Type 0 where
  pub was_tradeable : book.tradeable ≡ true
  pub in_order : book.exchange_timestamp_ms ≤ t
  pub received : t ≤ now
  pub hashed : hash_missing final.hash ≡ false
  pub deltas : All (IsValidDelta book.tick_size) changes

-- The arm for `PriceChange`, by a property `R` of the book that its last part establishes.
pub on_matching-Outcome :
    (R : BookState → Type 0) (t now : ℕ) (c : PriceChange) (rest : List PriceChange)
    (book : BookState)
    → (IsChecked t now (c ∷ rest) (last_change c rest) book
        → Outcome R (Closed book.exchange_timestamp_ms) (finish_changes t now c rest book))
    → Outcome R (Closed book.exchange_timestamp_ms) (on_matching t now (c ∷ rest) book)
unfolding on_matching
on_matching-Outcome R t now c rest book finish =
    let E = Closed book.exchange_timestamp_ms in
    let last = (last_change c rest).hash in
    let third = validate_changes (c ∷ rest) ⨾ finish_changes t now c rest in
    let second = require_hash last "price_change_hash_missing" ⨾ third in
    guarded R E require_authoritative (check_times t now ⨾ second) book
      (require_authoritative-Outcome book)
      (λ open_book.
        guarded R E (check_times t now) second book (check_times-Outcome t now book) (λ times.
          guarded R E (require_hash last "price_change_hash_missing") third book
            (require_hash-Outcome last _ book)
            (λ hashed.
              guarded R E (validate_changes (c ∷ rest)) (finish_changes t now c rest) book
                (validate_changes-Outcome (c ∷ rest) book)
                (λ deltas. finish (record {
                  was_tradeable = open_book;
                  in_order = times.0;
                  received = times.1;
                  hashed = hashed;
                  deltas = deltas;
                })))))

on_matching-Careful :
    (t now : ℕ) (changes : List PriceChange) (book : BookState)
    → Careful book (on_matching t now changes book)
on_matching-Careful t now [] book = unfold on_matching in omega arith
on_matching-Careful t now (c ∷ rest) book =
    on_matching-Outcome (NotBefore book.exchange_timestamp_ms) t now c rest book
      (λ checked. finish_changes-Careful t now c rest book checked.in_order)

-- Whatever the event and the book, the exchange time of the book never runs back; and an event
-- that fails leaves a book that is not tradeable.
pub apply_market_event-Careful :
    (event : MarketEvent) (now : ℕ) (book : BookState)
    → Careful book (apply_market_event event now book)
unfolding apply_market_event
apply_market_event-Careful (book_snapshot asset market t hash bids asks) now book =
    on_book-Careful asset t hash bids asks now book
apply_market_event-Careful (price_change market t changes) now book =
    on_matching-Careful t now _ book
apply_market_event-Careful (tick_size_change asset market t old new) now book =
    ground (arith, on_tick_size-Careful t old new now book)
apply_market_event-Careful (last_trade_price asset market t price size side) now book =
    ground (arith, on_last_trade-Careful t price size now book)
apply_market_event-Careful (best_bid_ask asset market t bid ask) now book =
    ground (arith, on_best_bid_ask-Careful t bid ask now book)
apply_market_event-Careful (new_market condition assets) now book = omega arith
apply_market_event-Careful (market_resolved condition assets winner) now book = ground arith
