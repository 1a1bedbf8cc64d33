-- ===== src/Signal.antt =====
-- signal.rs: the strategy that makes a market inside a wide spread.
mod Examples
pub mod Inside
use Prim.Native.String.{◌++◌ as append}
use polymarket_watch_rust.Base.Int.{ltb_ℤ}
use polymarket_watch_rust.Base.Outcome.{to_option}
use polymarket_watch_rust.Base.Tests.{Bool, Option, String, if◌then◌else◌, none, some, true, ℕ, ⊤}
use polymarket_watch_rust.Fixed.{Fixed, checked_add, checked_sub}
use polymarket_watch_rust.Types.{BookState, OrderIntent, TimeInForce, buy, checked_add_u64}

pub record ConservativeMaker : Type 0 where
  pub strategy_id : String
  pub size : Fixed
  pub min_spread : Fixed
  pub ttl_ms : ℕ

-- `?` on an option
infixl 5 ◌>>=◌ ◌>>◌
abbrev ◌>>=◌ : {A B : Type 0} → Option A → (A → Option B) → Option B
none >>= k = none
some a >>= k = k a

abbrev ◌>>◌ : {B : Type 0} → Option ⊤ → Option B → Option B
o >> k = o >>= λ _. k

abbrev none_if : Bool → Option ⊤
none_if c = if c then none else some tt

abbrev hash_or_empty : Option String → String
hash_or_empty none = ""
hash_or_empty (some hash) = hash

unfoldable pub on_book : ConservativeMaker → BookState → ℕ → Option OrderIntent
on_book maker book now_ms = do
  bid ← book.best_bid
  ask ← book.best_ask
  gap ← to_option (checked_sub ask bid)
  none_if (ltb_ℤ gap maker.min_spread)
  local_expires_at_ms ← checked_add_u64 now_ms maker.ttl_ms
  limit_price ← to_option (checked_add bid book.tick_size)
  some (record {
    asset_id = book.asset_id;
    side = buy;
    limit_price = limit_price;
    size = maker.size;
    time_in_force = TimeInForce.gtc;
    post_only = true;
    local_expires_at_ms = local_expires_at_ms;
    wire_expiration_s = none;
    reason = "conservative_maker";
    strategy_id = maker.strategy_id;
    feature_snapshot_id = append "book:" (hash_or_empty book.book_hash);
  })
