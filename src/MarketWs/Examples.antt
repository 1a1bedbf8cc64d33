-- ===== src/MarketWs/Examples.antt =====
-- The theorems on market_ws.rs at a concrete snapshot.
use polymarket_watch_rust.Base.Int.{pos}
use polymarket_watch_rust.Base.Tests.{[], inl, refl, some, true, ◌∷◌, ◌≡◌}
use polymarket_watch_rust.Book.{sort_and_refresh_top, sort_levels}
use polymarket_watch_rust.Fixed.{is_aligned_to_tick}
use polymarket_watch_rust.MarketWs.{
  MarketEvent, apply_market_event, book_snapshot, install_snapshot,
}
use polymarket_watch_rust.MarketWs.Authority.{apply_market_event-IsAuthoritative}
use polymarket_watch_rust.MarketWs.Deltas.{IsAuthoritative}
use polymarket_watch_rust.MarketWs.FailClosed.{Careful, apply_market_event-Careful}
use polymarket_watch_rust.MarketWs.Validate.{
  validate_event_order, validate_event_timestamp, validate_level, validate_side,
  validate_snapshot_levels,
}
use polymarket_watch_rust.Types.{BookState, empty}

abbrev unknown_book : BookState
unknown_book = empty "1" (pos 10000) (pos 1000000)

abbrev first_snapshot : MarketEvent
first_snapshot =
    book_snapshot "1" "c" 1000 (some "h")
      (record { price = pos 480000; size = pos 10000000 }
        ∷ record { price = pos 490000; size = pos 10000000 }
        ∷ [])
      (record { price = pos 510000; size = pos 10000000 } ∷ [])

opens : (apply_market_event first_snapshot 1100 unknown_book).1.tradeable ≡ true
unfolding apply_market_event validate_event_timestamp validate_event_order validate_snapshot_levels
    validate_side validate_level is_aligned_to_tick install_snapshot sort_and_refresh_top
    sort_levels
opens = refl

apply_market_event-IsAuthoritative_example :
    IsAuthoritative (apply_market_event first_snapshot 1100 unknown_book).1
apply_market_event-IsAuthoritative_example =
    apply_market_event-IsAuthoritative first_snapshot 1100 unknown_book (inl refl) opens

apply_market_event-Careful_example :
    Careful unknown_book (apply_market_event first_snapshot 1100 unknown_book)
apply_market_event-Careful_example = apply_market_event-Careful first_snapshot 1100 unknown_book
