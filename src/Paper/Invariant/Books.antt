-- ===== src/Paper/Invariant/Books.antt =====
-- About paper.rs: the processing of a book, and the engine's invariant.
use polymarket_watch_rust.Base.Outcome.{Result-cases, ok}
use polymarket_watch_rust.Base.Tests.{List, String, arith, inl, inr, ℕ, ◌≡◌}
use polymarket_watch_rust.Paper.Invariant.{IsSoundEngine}
use polymarket_watch_rust.Paper.Invariant.Fills.{
  apply_fills-IsSoundEngine, cancel_expired_each-IsSoundEngine, noted-IsSoundEngine,
}
use polymarket_watch_rust.Paper.Invariant.Loops.{note_book-IsSoundOrder, plan_book-lookup}
use polymarket_watch_rust.Paper.Matching.{
  Liquidity, Plans, apply_fills, apply_plans, cancel_expired_each, liquidity_of, note_book,
  plan_book, process_book_with_cancellations,
}
use polymarket_watch_rust.Paper.State.{PaperEngine, PaperFill}
use polymarket_watch_rust.Types.{BookState, top_ask_size, top_bid_size}

book_fills-IsSoundEngine :
    (plans : Plans) (now_ms : ℕ) (e : PaperEngine) {result : List PaperFill × List String}
    → IsSoundEngine e
    → (apply_plans plans now_ms e).0 ≡ ok result
    → IsSoundEngine (apply_plans plans now_ms e).1
unfolding apply_plans
book_fills-IsSoundEngine plans now_ms e {result} s h =
    let e1 = (cancel_expired_each plans.expired now_ms e).1 in
    let s1 = cancel_expired_each-IsSoundEngine plans.expired now_ms e s in
    elim (Result-cases (cancel_expired_each plans.expired now_ms e).0) [
      | inr (x, hc) ↦ absurd (grind (arith, hc, h))
      | inl (u, hc) ↦ elim (Result-cases (apply_fills plans.fills now_ms e1).0) [
        | inr (x, hf) ↦ absurd (grind (arith, hc, hf, h))
        | inl (fills, hf) ↦
            grind (arith, hc, hf, apply_fills-IsSoundEngine plans.fills now_ms e1 s1 hf)
      ]
    ]

pub process_book_with_cancellations-IsSoundEngine :
    (book : BookState) (now_ms : ℕ) (e : PaperEngine) {result : List PaperFill × List String}
    → IsSoundEngine e
    → (process_book_with_cancellations book now_ms e).0 ≡ ok result
    → IsSoundEngine (process_book_with_cancellations book now_ms e).1
unfolding process_book_with_cancellations
process_book_with_cancellations-IsSoundEngine book now_ms e {result} s h =
    elim (Result-cases (liquidity_of book (top_ask_size book) e)) [
      | inr (x, ha) ↦ absurd (grind (arith, ha, h))
      | inl (asks, ha) ↦ elim (Result-cases (liquidity_of book (top_bid_size book) e)) [
        | inr (x, hb) ↦ absurd (grind (arith, ha, hb, h))
        | inl (bids, hb) ↦
            let l : Liquidity = record { for_buys = asks; for_sells = bids } in
            let m = (plan_book book now_ms l e.orders).1 in
            let e1 : PaperEngine = record e { orders = m } in
            let s1 =
              noted-IsSoundEngine (note_book book) m e (note_book-IsSoundOrder book now_ms)
                (plan_book-lookup book now_ms l e.orders) s in
            elim (Result-cases (plan_book book now_ms l e.orders).0) [
              | inr (x, hl) ↦ absurd (grind (arith, ha, hb, hl, h))
              | inl (plans, hl) ↦ grind (
                arith,
                ha,
                hb,
                hl,
                book_fills-IsSoundEngine plans now_ms e1 {result = result} s1
                    (grind (arith, ha, hb, hl, h)),
              )
            ]
      ]
    ]
