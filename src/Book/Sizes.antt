-- ===== src/Book/Sizes.antt =====
-- A side of the book in book.rs as a map from prices to sizes, and what its operations do to it.
use polymarket_watch_rust.Base.Int.{eqb_ℤ}
use polymarket_watch_rust.Base.Tests.{
  Bool, List, Option, [], ap, arith, if◌then◌else◌, none, refl, some, true, ◌&&◌, ◌∙◌, ◌∷◌, ◌≡◌,
}
use polymarket_watch_rust.Book.{
  apply_level_change, ask_order, bid_order, insert_level, remove_price, set_size,
  sort_and_refresh_top, sort_levels, upsert_level,
}
use polymarket_watch_rust.Fixed.{Fixed, is_zero}
use polymarket_watch_rust.Types.{BookState, Level, Side, buy, sell, side_eq}

-- The size at a price, if the side has a level there.
unfoldable pub size_at : Fixed → List Level → Option Fixed
size_at price [] = none
size_at price (level ∷ levels) =
    if eqb_ℤ level.price price then some level.size else size_at price levels

size_at-filter :
    (p q : Fixed) (levels : List Level)
    → size_at q (remove_price p levels) ≡ (if eqb_ℤ p q then none else size_at q levels)
unfolding size_at
size_at-filter p q [] = ground arith
size_at-filter p q (level ∷ levels) = ground (arith, size_at-filter p q levels)

size_at-set_size :
    (p q s : Fixed) (levels : List Level)
    → size_at q (set_size p s levels) ≡ (if eqb_ℤ p q then some s else size_at q levels)
unfolding size_at set_size
size_at-set_size p q s [] = refl
size_at-set_size p q s (level ∷ levels) = ground (arith, size_at-set_size p q s levels)

size_at-upsert_level :
    (levels : List Level) (p q s : Fixed)
    → size_at q (upsert_level levels p s)
      ≡ (if eqb_ℤ p q then (if is_zero s then none else some s) else size_at q levels)
unfolding upsert_level
size_at-upsert_level levels p q s =
    ground (arith, size_at-filter p q levels, size_at-set_size p q s levels)

-- Levels at one price stay in their order, since the sort is stable.
module _ (before : Level → Level → Bool)
    (same : (x y : Level) → eqb_ℤ x.price y.price ≡ true → before x y ≡ true) where
  size_at-insert_level :
      (x : Level) (ys : List Level) (q : Fixed)
      → size_at q (insert_level before x ys) ≡ size_at q (x ∷ ys)
  unfolding size_at insert_level
  size_at-insert_level x [] q = refl
  size_at-insert_level x (y ∷ ys) q = ground (arith, same x y, size_at-insert_level x ys q)

  size_at-sort_levels :
      (xs : List Level) (q : Fixed) → size_at q (sort_levels before xs) ≡ size_at q xs
  unfolding sort_levels size_at
  size_at-sort_levels [] q = refl
  size_at-sort_levels (x ∷ xs) q =
      size_at-insert_level x (sort_levels before xs) q
      ∙ ap (λ (rest : Option Fixed). if eqb_ℤ x.price q then some x.size else rest)
          (size_at-sort_levels xs q)

abbrev pub levels_of : Side → BookState → List Level
levels_of buy book = book.bids
levels_of sell book = book.asks

size_at-bids :
    (levels : List Level) (q : Fixed) → size_at q (sort_levels bid_order levels) ≡ size_at q levels
size_at-bids = size_at-sort_levels bid_order (λ x y h. ground arith)

size_at-asks :
    (levels : List Level) (q : Fixed) → size_at q (sort_levels ask_order levels) ≡ size_at q levels
size_at-asks = size_at-sort_levels ask_order (λ x y h. ground arith)

-- A level change writes one price of one side, removes it if the size is zero, and leaves every
-- other size of the book as it was.
pub size_at-apply_level_change :
    (book : BookState) (side other : Side) (p q s : Fixed)
    → size_at q (levels_of other (apply_level_change book side p s)) ≡ (
        if side_eq side other && eqb_ℤ p q
        then (if is_zero s then none else some s)
        else size_at q (levels_of other book))
unfolding apply_level_change sort_and_refresh_top
size_at-apply_level_change book buy buy p q s =
    size_at-bids _ q ∙ size_at-upsert_level book.bids p q s
size_at-apply_level_change book sell sell p q s =
    size_at-asks _ q ∙ size_at-upsert_level book.asks p q s
size_at-apply_level_change book buy sell p q s = size_at-asks book.asks q
size_at-apply_level_change book sell buy p q s = size_at-bids book.bids q
