-- ===== src/Paper/Invariant/Loops.antt =====
-- About the loops of paper.rs over books and trades, and the engine's invariant.
use polymarket_watch_rust.Base.BTreeMap.{BTreeMap, lookup}
use polymarket_watch_rust.Base.Tests.{String, [], arith, inl, refl, ℕ, ◌∷◌, ◌≡◌, ◌⊎◌}
use polymarket_watch_rust.Fixed.{Fixed}
use polymarket_watch_rust.Paper.Invariant.{IsSoundOrder}
use polymarket_watch_rust.Paper.Matching.{
  Liquidity, Trade, note_book, note_trade, plan_book, plan_trade,
}
use polymarket_watch_rust.Paper.Orders.Cancelling.{map_option}
use polymarket_watch_rust.Paper.State.{PaperOrder}
use polymarket_watch_rust.Types.{BookState}

module _ (t : Trade) (now_ms : ℕ) where
  pub note_trade-IsSoundOrder : (o : PaperOrder) → IsSoundOrder o → IsSoundOrder (note_trade t o)
  note_trade-IsSoundOrder o s = record {
    filled = s.filled;
    remaining = s.remaining;
    fees = s.fees;
    conserved = s.conserved;
    complete = s.complete;
  }

  -- The loop writes no more than the time of the trade into the orders.
  pub plan_trade-lookup :
      (left : Fixed) (m : BTreeMap PaperOrder) (k : String)
      → (lookup k (plan_trade t now_ms left m).1 ≡ lookup k m)
        ⊎ (lookup k (plan_trade t now_ms left m).1 ≡ map_option (note_trade t) (lookup k m))
  unfolding plan_trade
  plan_trade-lookup left [] k = inl refl
  plan_trade-lookup left ((id, order) ∷ rest) k =
      grind (arith, λ (l : Fixed). plan_trade-lookup l rest k)

module _ (book : BookState) (now_ms : ℕ) where
  pub note_book-IsSoundOrder : (o : PaperOrder) → IsSoundOrder o → IsSoundOrder (note_book book o)
  note_book-IsSoundOrder o s = record {
    filled = s.filled;
    remaining = s.remaining;
    fees = s.fees;
    conserved = s.conserved;
    complete = s.complete;
  }

  -- The loop writes no more than the version of the book into the orders.
  pub plan_book-lookup :
      (l : Liquidity) (m : BTreeMap PaperOrder) (k : String)
      → (lookup k (plan_book book now_ms l m).1 ≡ lookup k m)
        ⊎ (lookup k (plan_book book now_ms l m).1 ≡ map_option (note_book book) (lookup k m))
  unfolding plan_book
  plan_book-lookup l [] k = inl refl
  plan_book-lookup l ((id, order) ∷ rest) k =
      grind (arith, λ (l' : Liquidity). plan_book-lookup l' rest k)
