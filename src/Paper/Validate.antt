-- ===== src/Paper/Validate.antt =====
-- paper.rs: a new engine, the check of an engine read from the journal, and the funds an order needs.
use polymarket_watch_rust.Base.BTreeMap.{BTreeMap}
use polymarket_watch_rust.Base.Int.{eqb_ℤ, leb_ℤ, ltb_ℤ}
use polymarket_watch_rust.Base.Lists.{all, any}
use polymarket_watch_rust.Base.Outcome.{Result, err, execution, fail_if, journal, ok, ◌>>=◌, ◌>>◌}
use polymarket_watch_rust.Base.Tests.{
  Bool, List, String, [], if◌then◌else◌, ltb, not, str_eq, ℕ, ⊤, ◌&&◌, ◌==◌, ◌||◌, ◌∷◌,
}
use polymarket_watch_rust.Fixed.{Fixed, checked_add, one_fixed, zero_fixed}
use polymarket_watch_rust.Paper.Amounts.{available_cash_usdc, available_position}
use polymarket_watch_rust.Paper.State.{PaperEngine, PaperOrder, PaperPosition, keys, values}
use polymarket_watch_rust.Types.{AssetId, OrderIntent, Side, buy, sell}

unfoldable pub new : Fixed → ℕ → ℕ → Result PaperEngine
new starting_cash fee_bps participation_bps =
    if leb_ℤ starting_cash zero_fixed
    then err (execution "paper_starting_cash_must_be_positive")
    else if ltb 10000 fee_bps || participation_bps == 0 || ltb 10000 participation_bps
    then err (execution "paper_basis_points_out_of_range")
    else ok (record {
      starting_cash_usdc = starting_cash;
      cash_usdc = starting_cash;
      realized_pnl_usdc = zero_fixed;
      fees_paid_usdc = zero_fixed;
      fee_bps = fee_bps;
      fill_participation_bps = participation_bps;
      positions = [];
      orders = [];
    })

pub configuration_matches : Fixed → ℕ → ℕ → PaperEngine → Bool
configuration_matches starting_cash fee_bps participation_bps e =
    eqb_ℤ e.starting_cash_usdc starting_cash
    && e.fee_bps == fee_bps
    && e.fill_participation_bps == participation_bps

abbrev pub totals_invalid : PaperEngine → Bool
totals_invalid e =
    leb_ℤ e.starting_cash_usdc zero_fixed
    || ltb_ℤ e.cash_usdc zero_fixed
    || ltb 10000 e.fee_bps
    || e.fill_participation_bps == 0
    || ltb 10000 e.fill_participation_bps
    || ltb_ℤ e.fees_paid_usdc zero_fixed

abbrev pub position_invalid : String → PaperPosition → Bool
position_invalid asset p =
    not (str_eq p.asset_id asset)
    || ltb_ℤ p.size zero_fixed
    || ltb_ℤ p.average_price zero_fixed
    || ltb_ℤ one_fixed p.average_price

abbrev pub order_misnumbered : String → PaperOrder → Bool
order_misnumbered id order =
    not (str_eq order.state.client_order_id id)
    || ltb_ℤ order.filled_size zero_fixed
    || ltb_ℤ order.remaining_size zero_fixed
    || ltb_ℤ order.fees_paid_usdc zero_fixed

unfoldable pub validate_positions : BTreeMap PaperPosition → Result ⊤
validate_positions [] = ok tt
validate_positions ((asset, p) ∷ rest) = do
  fail_if (position_invalid asset p) (journal "paper_transition_position_invalid")
  validate_positions rest

unfoldable pub validate_orders : BTreeMap PaperOrder → Result ⊤
validate_orders [] = ok tt
validate_orders ((id, order) ∷ rest) = do
  fail_if (order_misnumbered id order) (journal "paper_transition_order_invalid")
  total ← checked_add order.filled_size order.remaining_size
  fail_if (not (eqb_ℤ total order.state.intent.size)) (journal "paper_transition_order_invalid")
  validate_orders rest

unfoldable pub validate_state : PaperEngine → Result ⊤
validate_state e = do
  fail_if (totals_invalid e) (journal "paper_transition_engine_totals_invalid")
  validate_positions e.positions
  validate_orders e.orders

pub uses_only_assets : List AssetId → PaperEngine → Bool
uses_only_assets configured e =
    all (λ asset. any (str_eq asset) configured) (keys e.positions)
    && all (λ order. any (str_eq order.state.intent.asset_id) configured) (values e.orders)

-- The guard that `submit` matches on.
unfoldable pub has_funds : OrderIntent → Fixed → PaperEngine → Result ⊤
has_funds i reserve e = by_side i.side
  where
    by_side : Side → Result ⊤
    by_side buy = do
      available ← available_cash_usdc e
      fail_if (ltb_ℤ available reserve) (execution "paper_insufficient_available_cash")
    by_side sell = do
      available ← available_position i.asset_id e
      fail_if (ltb_ℤ available i.size) (execution "paper_insufficient_available_position")
