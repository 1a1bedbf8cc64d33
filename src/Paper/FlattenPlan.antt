-- ===== src/Paper/FlattenPlan.antt =====
-- The plan of `flatten` in paper.rs: what each position can sell into the bids of a fresh book.
use polymarket_watch_rust.Base.BTreeMap.{BTreeMap, lookup}
use polymarket_watch_rust.Base.Int.{checked, leb_ℤ, ltb_ℤ, pos, ◌*ℤ◌}
use polymarket_watch_rust.Base.Outcome.{
  Result, err, execution, fail_if, ok, ok_or, risk, ◌>>=◌, ◌>>◌,
}
use polymarket_watch_rust.Base.Tests.{
  Bool, List, String, [], false, if◌then◌else◌, ltb, none, not, some, str_eq, true, ℕ, ◌-◌, ◌==◌,
  ◌||◌, ◌∷◌,
}
use polymarket_watch_rust.Book.{bid_order, sort_levels}
use polymarket_watch_rust.Fixed.{Fixed, checked_add, checked_sub, is_zero, zero_fixed}
use polymarket_watch_rust.Paper.Amounts.{participation_amount}
use polymarket_watch_rust.Paper.Matching.{min_fixed}
use polymarket_watch_rust.Paper.State.{PaperPosition}
use polymarket_watch_rust.Types.{BookState, Level}

pub record FlattenLimits : Type 0 where
  pub now_ms : ℕ
  pub max_book_age_ms : ℕ
  pub max_event_lag_ms : ℕ
  pub max_slippage_ticks : ℕ

pub record FlattenPlan : Type 0 where
  pub position : PaperPosition
  pub book_hash : String
  pub clips : List (Fixed × Fixed)

abbrev pub verified_hash : BookState → Result String
verified_hash book = elim book.book_hash [
  | none ↦ err (execution "paper_flatten_book_unverified")
  | some hash ↦ if str_eq hash "" then err (execution "paper_flatten_book_unverified") else ok hash
]

abbrev pub not_fresh : FlattenLimits → BookState → Bool
not_fresh f book =
    not book.tradeable
    || book.local_received_at_ms == 0
    || ltb book.local_received_at_ms book.exchange_timestamp_ms
    || ltb f.max_event_lag_ms (book.local_received_at_ms - book.exchange_timestamp_ms)
    || ltb f.now_ms book.local_received_at_ms
    || ltb f.max_book_age_ms (f.now_ms - book.local_received_at_ms)

abbrev pub max_fixed : Fixed → Fixed → Fixed
max_fixed a b = if leb_ℤ a b then b else a

unfoldable pub minimum_price : FlattenLimits → BookState → Result Fixed
minimum_price f book = do
  best_bid ← ok_or book.best_bid (execution "paper_flatten_missing_bid")
  slippage ←
      ok_or (checked (book.tick_size *ℤ pos f.max_slippage_ticks))
        (risk "paper_flatten_slippage_overflow")
  floor ← checked_sub best_bid slippage
  ok (max_fixed floor zero_fixed)

unfoldable pub take_bids : ℕ → Fixed → Fixed → List Level → Result (List (Fixed × Fixed))
take_bids participation_bps minimum remaining [] = ok []
take_bids participation_bps minimum remaining (level ∷ levels) =
    elim (is_zero remaining || ltb_ℤ level.price minimum) [
      | true ↦ ok []
      | false ↦ do
        available ← participation_amount level.size participation_bps
        let quantity = min_fixed remaining available
        elim (ltb_ℤ zero_fixed quantity) [
          | false ↦ take_bids participation_bps minimum remaining levels
          | true ↦ do
            remaining' ← checked_sub remaining quantity
            clips ← take_bids participation_bps minimum remaining' levels
            ok ((level.price, quantity) ∷ clips)
        ]
    ]

unfoldable pub sum_sizes : Fixed → List (Fixed × Fixed) → Result Fixed
sum_sizes total [] = ok total
sum_sizes total ((price, quantity) ∷ rest) = do
  total' ← checked_add total quantity
  sum_sizes total' rest

unfoldable pub plan_position :
    ℕ → BTreeMap BookState → FlattenLimits → PaperPosition → Result FlattenPlan
plan_position participation_bps books f position = do
  book ← ok_or (lookup position.asset_id books) (execution "paper_flatten_missing_book")
  hash ← verified_hash book
  fail_if (not_fresh f book) (execution "paper_flatten_book_not_fresh_tradeable")
  minimum ← minimum_price f book
  clips ← take_bids participation_bps minimum position.size (sort_levels bid_order book.bids)
  executable ← sum_sizes zero_fixed clips
  ok (record {
    position = position;
    book_hash = hash;
    clips = (if ltb_ℤ executable book.min_order_size then [] else clips);
  })

unfoldable pub plan_positions :
    ℕ → BTreeMap BookState → FlattenLimits → List PaperPosition → Result (List FlattenPlan)
plan_positions participation_bps books f [] = ok []
plan_positions participation_bps books f (position ∷ rest) = do
  first ← plan_position participation_bps books f position
  plans ← plan_positions participation_bps books f rest
  ok (first ∷ plans)
