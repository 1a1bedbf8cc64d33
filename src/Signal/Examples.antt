-- ===== src/Signal/Examples.antt =====
-- The theorem on signal.rs at a concrete book.
use polymarket_watch_rust.Base.Int.{pos, ◌+ℤ◌, ◌-ℤ◌}
use polymarket_watch_rust.Base.Tests.{arith, none, refl, some, true, ◌≡◌}
use polymarket_watch_rust.Fixed.{checked_add, checked_sub}
use polymarket_watch_rust.Signal.{ConservativeMaker, on_book}
use polymarket_watch_rust.Signal.Inside.{IsQuote, on_book_lem}
use polymarket_watch_rust.Types.{BookState, OrderIntent, TimeInForce, buy, empty}

abbrev wide_book : BookState
wide_book = record (empty "1" (pos 1000) (pos 1000000)) {
  best_bid = some (pos 490000);
  best_ask = some (pos 510000);
  book_hash = some "h";
}

abbrev penny_maker : ConservativeMaker
penny_maker = record { strategy_id = "s"; size = pos 1000000; min_spread = pos 10000; ttl_ms = 100 }

abbrev quote : OrderIntent
quote = record {
  asset_id = "1";
  side = buy;
  limit_price = pos 491000;
  size = pos 1000000;
  time_in_force = TimeInForce.gtc;
  post_only = true;
  local_expires_at_ms = 1100;
  wire_expiration_s = none;
  reason = "conservative_maker";
  strategy_id = "s";
  feature_snapshot_id = "book:h";
}

quoted : on_book penny_maker wide_book 1000 ≡ some quote
unfolding on_book checked_sub checked_add ◌-ℤ◌ ◌+ℤ◌
quoted = refl

on_book_lem_example : IsQuote penny_maker wide_book 1000 (pos 490000) (pos 510000) quote
on_book_lem_example =
    on_book_lem penny_maker wide_book 1000 (omega arith) (omega arith) refl refl quoted
