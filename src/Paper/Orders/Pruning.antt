-- ===== src/Paper/Orders/Pruning.antt =====
-- About `prune_terminal_orders` of paper.rs.
use polymarket_watch_rust.Base.BTreeMap.{BTreeMap, lookup}
use polymarket_watch_rust.Base.Lists.{filter}
use polymarket_watch_rust.Base.Tests.{
  Option, String, [], if◌then◌else◌, none, some, ⊤, ◌∷◌, ◌≡◌, ◌⊎◌,
}
use polymarket_watch_rust.Paper.State.{PaperEngine, PaperOrder, order_open}
use polymarket_watch_rust.Types.{OrderStatus}

-- No key stands twice.
abbrev pub IsDistinct : BTreeMap PaperOrder → Type 0
IsDistinct [] = ⊤
IsDistinct ((k, order) ∷ rest) = (lookup k rest ≡ none) × IsDistinct rest

-- The order can still be filled.
abbrev pub IsUnfinished : OrderStatus → Type 0
IsUnfinished status =
    (status ≡ OrderStatus.submitted)
    ⊎ (status ≡ OrderStatus.acknowledged)
    ⊎ (status ≡ OrderStatus.partially_filled)

abbrev keep_open : BTreeMap PaperOrder → BTreeMap PaperOrder
keep_open m = filter (λ (x : String × PaperOrder). order_open x.1) m

abbrev if_open : Option PaperOrder → Option PaperOrder
if_open none = none
if_open (some order) = if order_open order then some order else none

-- The orders that stay, in place of all.
abbrev pruned : PaperEngine → PaperEngine
pruned e = record e { orders = keep_open e.orders }
