-- ===== src/Book/Examples.antt =====
-- The theorems on book.rs at a concrete book.
use polymarket_watch_rust.Base.Int.{pos}
use polymarket_watch_rust.Base.Tests.{[], some, ◌∷◌, ◌≡◌}
use polymarket_watch_rust.Book.{apply_level_change}
use polymarket_watch_rust.Book.Sizes.{levels_of, size_at, size_at-apply_level_change}
use polymarket_watch_rust.Book.Sorted.{IsRefreshed, apply_level_change-IsRefreshed}
use polymarket_watch_rust.Types.{BookState, buy, empty}

abbrev small_book : BookState
small_book = record (empty "1" (pos 10000) (pos 1000000)) {
  bids = (record { price = pos 490000; size = pos 10000000 }) ∷ [];
  asks = (record { price = pos 510000; size = pos 10000000 }) ∷ [];
}

apply_level_change-IsRefreshed_example :
    IsRefreshed (apply_level_change small_book buy (pos 500000) (pos 2000000))
apply_level_change-IsRefreshed_example =
    apply_level_change-IsRefreshed small_book buy (pos 500000) (pos 2000000)

size_at-apply_level_change_example :
    size_at
      (pos 490000)
      (levels_of buy (apply_level_change small_book buy (pos 500000) (pos 2000000)))
    ≡ some (pos 10000000)
unfolding size_at
size_at-apply_level_change_example =
    size_at-apply_level_change small_book buy buy (pos 500000) (pos 490000) (pos 2000000)
