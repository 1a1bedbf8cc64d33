-- ===== src/Paper/Invariant/Flattening.antt =====
-- About paper.rs: `flatten` and the engine's invariant.
use polymarket_watch_rust.Base.BTreeMap.{BTreeMap, lookup-insert}
use polymarket_watch_rust.Base.Int.{ltb_ℤ, pos, ◌<ℤ◌}
use polymarket_watch_rust.Base.Lists.{filter}
use polymarket_watch_rust.Base.Outcome.{Result-cases, ok}
use polymarket_watch_rust.Base.Tests.{
  Bool-cases, List, Option, Option-cases, String, [], arith, eq_refl, false, inl, inr, some, suc, ℕ,
  ◌∷◌, ◌≡◌,
}
use polymarket_watch_rust.Fixed.{Fixed, zero_fixed}
use polymarket_watch_rust.Paper.Fills.{apply_fill_at_price, put_order}
use polymarket_watch_rust.Paper.Fills.Settled.{apply_fill_at_price_lem}
use polymarket_watch_rust.Paper.Flatten.{
  execute_plan, execute_plans, fill_clips, flatten, flatten_id, flatten_in_place, flatten_intent,
  lowest_price, no_clips, staged_flatten,
}
use polymarket_watch_rust.Paper.FlattenPlan.{FlattenLimits, FlattenPlan, plan_positions, sum_sizes}
use polymarket_watch_rust.Paper.Invariant.{IsSoundEngine, apply_fill_at_price-IsSoundEngine}
use polymarket_watch_rust.Paper.Invariant.Fills.{pair-eq}
use polymarket_watch_rust.Paper.Invariant.Operations.{
  cancel_each-IsSoundEngine, put_order-IsSoundEngine,
}
use polymarket_watch_rust.Paper.Orders.{cancel_all, ids_where, resting_order}
use polymarket_watch_rust.Paper.State.{PaperEngine, PaperFill, order_open, values}
use polymarket_watch_rust.Types.{BookState, OrderIntent, empty}

cancel_all-IsSoundEngine :
    (now_ms : ℕ) (reason : String) (e : PaperEngine)
    → IsSoundEngine e
    → IsSoundEngine (cancel_all now_ms reason e).1
unfolding cancel_all
cancel_all-IsSoundEngine now_ms reason e s =
    cancel_each-IsSoundEngine (ids_where order_open e.orders) now_ms reason e s

fill_clips-IsSoundEngine :
    (id : String) (clips : List (Fixed × Fixed)) (now_ms : ℕ) (e : PaperEngine)
    {fills : List PaperFill}
    → IsSoundEngine e
    → (fill_clips id clips now_ms e).0 ≡ ok fills
    → IsSoundEngine (fill_clips id clips now_ms e).1
unfolding fill_clips
fill_clips-IsSoundEngine id [] now_ms e s h = s
fill_clips-IsSoundEngine id ((price, quantity) ∷ rest) now_ms e s h =
    elim (Result-cases (apply_fill_at_price id quantity price now_ms e).0) [
      | inr (x, hf) ↦ absurd (grind (arith, hf, h))
      | inl (fill, hf) ↦
          let e1 = (apply_fill_at_price id quantity price now_ms e).1 in
          let s1 =
            apply_fill_at_price-IsSoundEngine id quantity price now_ms e s
              (pair-eq (apply_fill_at_price id quantity price now_ms e) hf) in
          elim (Result-cases (fill_clips id rest now_ms e1).0) [
            | inr (x, hr) ↦ absurd (grind (arith, hf, hr, h))
            | inl (more, hr) ↦
                grind (arith, hf, hr, fill_clips-IsSoundEngine id rest now_ms e1 s1 hr)
          ]
    ]

-- An order whose first clip fills has a positive size.
first_clip-positive :
    (i : OrderIntent) (id : String) (now_ms : ℕ) (version : Option String) (e : PaperEngine)
    (price quantity : Fixed) {fill : PaperFill} {e' : PaperEngine}
    → apply_fill_at_price id quantity price now_ms
        (put_order id (resting_order i id now_ms version) e)
      ≡ (ok fill, e')
    → pos 0 <ℤ i.size
first_clip-positive i id now_ms version e price quantity h =
    let o = resting_order i id now_ms version in
    let (o', f) = apply_fill_at_price_lem id quantity price now_ms (put_order id o e) h in
    let same : some o ≡ some o' =
      grind (arith, lookup-insert id id o e.orders, f.found, eq_refl id) in
    let size : o'.remaining_size ≡ i.size = grind (arith, same) in
    grind (arith, size, f.positive, f.available)

fill_new-IsSoundEngine :
    (i : OrderIntent) (id : String) (now_ms : ℕ) (version : Option String) (e : PaperEngine)
    (clips : List (Fixed × Fixed)) {fills : List PaperFill}
    → no_clips clips ≡ false
    → IsSoundEngine e
    → (fill_clips id clips now_ms (put_order id (resting_order i id now_ms version) e)).0 ≡ ok fills
    → IsSoundEngine
        (fill_clips id clips now_ms (put_order id (resting_order i id now_ms version) e)).1
unfolding fill_clips
fill_new-IsSoundEngine i id now_ms version e [] h_clips s h = absurd cc
fill_new-IsSoundEngine i id now_ms version e ((price, quantity) ∷ rest) h_clips s h =
    let e1 = put_order id (resting_order i id now_ms version) e in
    elim (Result-cases (apply_fill_at_price id quantity price now_ms e1).0) [
      | inr (x, hf) ↦ absurd (grind (arith, hf, h))
      | inl (fill, hf) ↦
          let positive =
            first_clip-positive i id now_ms version e price quantity
              (pair-eq (apply_fill_at_price id quantity price now_ms e1) hf) in
          fill_clips-IsSoundEngine id ((price, quantity) ∷ rest) now_ms e1
            (put_order-IsSoundEngine i id now_ms version e positive s) h
    ]

execute_plan-IsSoundEngine :
    (uuid : String) (f : FlattenLimits) (p : FlattenPlan) (e : PaperEngine) {fills : List PaperFill}
    → no_clips p.clips ≡ false
    → IsSoundEngine e
    → (execute_plan uuid f p e).0 ≡ ok fills
    → IsSoundEngine (execute_plan uuid f p e).1
unfolding execute_plan
execute_plan-IsSoundEngine uuid f p e {fills} h_clips s h =
    elim (Result-cases (sum_sizes zero_fixed p.clips)) [
      | inr (x, hs) ↦ absurd (grind (arith, hs, h))
      | inl (size, hs) ↦ elim (Option-cases (lowest_price p.clips)) [
        | inl none_left ↦ absurd (grind (arith, hs, none_left, h))
        | inr (price, hp) ↦ grind (
          arith,
          hs,
          hp,
          fill_new-IsSoundEngine (flatten_intent f p price size) (flatten_id f p uuid) f.now_ms
              (some p.book_hash) e p.clips {fills = fills} h_clips s (grind (arith, hs, hp, h)),
        )
      ]
    ]

module _ (new_uuid : ℕ → String) where
  execute_plans-IsSoundEngine :
      (drawn : ℕ) (f : FlattenLimits) (plans : List FlattenPlan) (e : PaperEngine)
      {fills : List PaperFill}
      → IsSoundEngine e
      → (execute_plans new_uuid drawn f plans e).0 ≡ ok fills
      → IsSoundEngine (execute_plans new_uuid drawn f plans e).1
  unfolding execute_plans
  execute_plans-IsSoundEngine drawn f [] e s h = s
  execute_plans-IsSoundEngine drawn f (p ∷ rest) e {fills} s h =
      elim (Bool-cases (no_clips p.clips)) [
        | inl empty ↦ grind (
          arith,
          empty,
          execute_plans-IsSoundEngine drawn f rest e {fills = fills} s (grind (arith, empty, h)),
        )
        | inr some_clips ↦ elim (Result-cases (execute_plan (new_uuid drawn) f p e).0) [
          | inr (x, hf) ↦ absurd (grind (arith, some_clips, hf, h))
          | inl (first, hf) ↦
              let e1 = (execute_plan (new_uuid drawn) f p e).1 in
              let s1 = execute_plan-IsSoundEngine (new_uuid drawn) f p e some_clips s hf in
              elim (Result-cases (execute_plans new_uuid (suc drawn) f rest e1).0) [
                | inr (x, hr) ↦ absurd (grind (arith, some_clips, hf, hr, h))
                | inl (more, hr) ↦ grind (
                  arith,
                  some_clips,
                  hf,
                  hr,
                  execute_plans-IsSoundEngine (suc drawn) f rest e1 s1 hr,
                )
              ]
        ]
      ]

  -- flatten keeps the engine's invariant, whether it succeeds or fails: cash, fees and holdings
  -- are not negative, and every order has filled and left exactly its size.
  pub flatten-IsSoundEngine :
      (drawn : ℕ) (books : BTreeMap BookState) (f : FlattenLimits) (e : PaperEngine)
      → IsSoundEngine e
      → IsSoundEngine (flatten new_uuid drawn books f e).1
  unfolding flatten staged_flatten flatten_in_place
  flatten-IsSoundEngine drawn books f e s =
      elim (Result-cases (
        plan_positions e.fill_participation_bps books f
          (filter (λ p. ltb_ℤ zero_fixed p.size) (values e.positions)))) [
            | inr (x, hp) ↦ grind (arith, hp, s)
            | inl (plans, hp) ↦
                let e1 = (cancel_all f.now_ms "paper_flatten_cancel_open" e).1 in
                let s1 = cancel_all-IsSoundEngine f.now_ms "paper_flatten_cancel_open" e s in
                elim (Result-cases (execute_plans new_uuid drawn f plans e1).0) [
                  | inr (x, hr) ↦ grind (arith, hp, hr, s)
                  | inl (fills, hr) ↦
                      grind (arith, hp, hr, execute_plans-IsSoundEngine drawn f plans e1 s1 hr)
                ]
          ]
