-- ===== src/Book/Sorted.antt =====
-- The order of the levels in book.rs, and what the top of a refreshed book is.
use polymarket_watch_rust.Base.Lists.{All}
use polymarket_watch_rust.Base.Tests.{
  Bool, Bool-cases, List, [], arith, false, inl, inr, refl, true, ◌∷◌, ◌≡◌,
}
use polymarket_watch_rust.Book.{
  apply_level_change, ask_order, bid_order, first_price, insert_level, sort_and_refresh_top,
  sort_levels, upsert_level,
}
use polymarket_watch_rust.Fixed.{Fixed}
use polymarket_watch_rust.Types.{BookState, Level, Side, buy, sell}

abbrev pub IsSorted : (Level → Level → Bool) → List Level → Type 0
IsSorted before [] = Unit
IsSorted before (x ∷ xs) = All (λ y. before x y ≡ true) xs × IsSorted before xs

module _ (before : Level → Level → Bool)
    (total : (x y : Level) → before x y ≡ false → before y x ≡ true)
    (trans : (x y z : Level) → before x y ≡ true → before y z ≡ true → before x z ≡ true) where
  All-trans :
      (x y : Level) (ys : List Level)
      → before x y ≡ true
      → All (λ z. before y z ≡ true) ys
      → All (λ z. before x z ≡ true) ys
  All-trans x y [] h a = tt
  All-trans x y (z ∷ ys) h a = (trans x y z h a.0, All-trans x y ys h a.1)

  All-insert_level :
      (w x : Level) (ys : List Level)
      → before w x ≡ true
      → All (λ z. before w z ≡ true) ys
      → All (λ z. before w z ≡ true) (insert_level before x ys)
  unfolding insert_level
  All-insert_level w x [] h a = (h, tt)
  All-insert_level w x (y ∷ ys) h a = elim (Bool-cases (before x y)) [
    | inl e ↦ rw e (h, a)
    | inr e ↦ rw e (a.0, All-insert_level w x ys h a.1)
  ]

  insert_level-IsSorted :
      (x : Level) (ys : List Level)
      → IsSorted before ys
      → IsSorted before (insert_level before x ys)
  unfolding insert_level
  insert_level-IsSorted x [] s = (tt, tt)
  insert_level-IsSorted x (y ∷ ys) s = elim (Bool-cases (before x y)) [
    | inl e ↦ rw e ((e, All-trans x y ys e s.0), s)
    | inr e ↦ rw e (All-insert_level y x ys (total x y e) s.0, insert_level-IsSorted x ys s.1)
  ]

  sort_levels-IsSorted : (xs : List Level) → IsSorted before (sort_levels before xs)
  unfolding sort_levels
  sort_levels-IsSorted [] = tt
  sort_levels-IsSorted (x ∷ xs) =
      insert_level-IsSorted x (sort_levels before xs) (sort_levels-IsSorted xs)

abbrev pub BidsSorted : List Level → Type 0
BidsSorted = IsSorted bid_order

abbrev pub AsksSorted : List Level → Type 0
AsksSorted = IsSorted ask_order

pub sort_bids-IsSorted : (xs : List Level) → BidsSorted (sort_levels bid_order xs)
sort_bids-IsSorted xs =
    sort_levels-IsSorted bid_order (λ x y h. ground arith) (λ x y z h k. ground arith) xs

pub sort_asks-IsSorted : (xs : List Level) → AsksSorted (sort_levels ask_order xs)
sort_asks-IsSorted xs =
    sort_levels-IsSorted ask_order (λ x y h. ground arith) (λ x y z h k. ground arith) xs

-- What holds of a book whose sides are in order and whose top is up to date.
pub record IsRefreshed (book : BookState) : Type 0 where
  pub bids_sorted : BidsSorted book.bids
  pub asks_sorted : AsksSorted book.asks
  pub bid_top : book.best_bid ≡ first_price book.bids
  pub ask_top : book.best_ask ≡ first_price book.asks

pub sort_and_refresh_top-IsRefreshed : (book : BookState) → IsRefreshed (sort_and_refresh_top book)
unfolding sort_and_refresh_top
sort_and_refresh_top-IsRefreshed book = record {
  bids_sorted = sort_bids-IsSorted book.bids;
  asks_sorted = sort_asks-IsSorted book.asks;
  bid_top = refl;
  ask_top = refl;
}

-- Whatever book it is given, a level change leaves both sides in order and the top up to date.
pub apply_level_change-IsRefreshed :
    (book : BookState) (side : Side) (price size : Fixed)
    → IsRefreshed (apply_level_change book side price size)
unfolding apply_level_change
apply_level_change-IsRefreshed book buy price size =
    sort_and_refresh_top-IsRefreshed (record book { bids = upsert_level book.bids price size })
apply_level_change-IsRefreshed book sell price size =
    sort_and_refresh_top-IsRefreshed (record book { asks = upsert_level book.asks price size })
