-- ===== src/Signal/Inside.antt =====
-- Where the strategy of signal.rs prices its intents.
use polymarket_watch_rust.Base.Int.{int_laws, pos, ◌+ℤ◌, ◌-ℤ◌, ◌<ℤ◌, ◌≤ℤ◌}
use polymarket_watch_rust.Base.Tests.{arith, none, some, true, ℕ, ◌+◌, ◌≡◌}
use polymarket_watch_rust.Fixed.{Fixed}
use polymarket_watch_rust.Paper.Steps.{checked_add-ok, checked_sub-ok}
use polymarket_watch_rust.Signal.{ConservativeMaker, on_book}
use polymarket_watch_rust.Types.{BookState, OrderIntent, TimeInForce, buy}

-- An intent of the strategy for a book with these best prices.
pub record IsQuote (maker : ConservativeMaker) (book : BookState) (now_ms : ℕ) (bid ask : Fixed)
    (i : OrderIntent) : Type 0 where
  pub above_bid : bid <ℤ i.limit_price
  pub below_ask : i.limit_price <ℤ ask
  pub wide : maker.min_spread ≤ℤ ask -ℤ bid
  pub is_buy : i.side ≡ buy
  pub maker_only : i.post_only ≡ true
  pub rests : (i.time_in_force ≡ TimeInForce.gtc) × (i.wire_expiration_s ≡ none)
  pub own_asset : i.asset_id ≡ book.asset_id
  pub own_size : i.size ≡ maker.size
  pub expires : i.local_expires_at_ms ≡ now_ms + maker.ttl_ms

-- When the tick is positive and smaller than the minimum spread, an intent of the strategy is a
-- post-only buy of its size that rests for its time to live, priced strictly between the best
-- bid and the best ask of a book whose spread is at least the minimum.
pub on_book_lem :
    (maker : ConservativeMaker) (book : BookState) (now_ms : ℕ) {bid ask : Fixed} {i : OrderIntent}
    → pos 0 <ℤ book.tick_size
    → book.tick_size <ℤ maker.min_spread
    → book.best_bid ≡ some bid
    → book.best_ask ≡ some ask
    → on_book maker book now_ms ≡ some i
    → IsQuote maker book now_ms bid ask i
unfolding on_book
on_book_lem maker book now_ms {bid} {ask} {i} h_tick h_spread h_bid h_ask h =
    let wide : maker.min_spread ≤ℤ ask -ℤ bid = grind (arith, h_bid, h_ask, checked_sub-ok) in
    let price : i.limit_price ≡ bid +ℤ book.tick_size =
      grind (arith, h_bid, h_ask, checked_add-ok) in
    record {
      above_bid = grind (int_laws, price);
      below_ask = grind (int_laws, price, wide);
      wide = wide;
      is_buy = grind (arith, h_bid, h_ask);
      maker_only = grind (arith, h_bid, h_ask);
      rests = (grind (arith, h_bid, h_ask), grind (arith, h_bid, h_ask));
      own_asset = grind (arith, h_bid, h_ask);
      own_size = grind (arith, h_bid, h_ask);
      expires = grind (arith, h_bid, h_ask);
    }
