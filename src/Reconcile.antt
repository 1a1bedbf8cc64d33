-- ===== src/Reconcile.antt =====
-- reconcile.rs: after a crash, what the journal holds is compared with the exchange's snapshot. A set
-- of texts is a map to the unit type.
pub mod Recovery
pub mod Mappings
mod Examples
use polymarket_watch_rust.Base.BTreeMap.{BTreeMap, contains_key, insert, lookup}
use polymarket_watch_rust.Base.Lists.{any, filter, length}
use polymarket_watch_rust.Base.Outcome.{Result, err, ok, readiness, ◌>>=◌}
use polymarket_watch_rust.Base.Tests.{
  Bool, List, Option, String, [], false, if◌then◌else◌, ltb, none, not, some, str_eq, true, ℕ, ⊤,
  ◌++◌, ◌||◌, ◌∷◌,
}
use polymarket_watch_rust.Fixed.{Fixed}
use polymarket_watch_rust.Journal.{JournalRecord, is_terminal, is_write_ahead}
use polymarket_watch_rust.Paper.State.{keys, values}
use polymarket_watch_rust.Types.{AssetId, ConditionId, Side}

pub record AuthoritativeTrade : Type 0 where
  pub trade_id : String
  pub condition_id : ConditionId
  pub asset_id : AssetId
  pub side : Side
  pub price : Fixed
  pub size : Fixed
  pub fee_rate_bps : Fixed
  pub status : String
  pub order_ids : BTreeMap ⊤
  pub timestamp_ms : Option ℕ

pub record RemoteSnapshot : Type 0 where
  pub open_orders_loaded : Bool
  pub trades_loaded : Bool
  pub balances_loaded : Bool
  pub allowances_loaded : Bool
  pub open_order_ids : BTreeMap ⊤
  pub trade_order_ids : BTreeMap ⊤
  pub trades : BTreeMap AuthoritativeTrade
  pub unresolved_gaps : List String

pub record RecoveryReport : Type 0 where
  pub live_unlock_allowed : Bool
  pub reason : String
  pub replayed_records : ℕ
  pub in_flight_attempts : ℕ

pub record RecoveredOpenOrder : Type 0 where
  pub client_order_id : String
  pub submitted_at_ms : ℕ
  pub asset_id : AssetId

pub record UnresolvedOrderAttempt : Type 0 where
  pub decision_id : String
  pub client_order_id : String
  pub exchange_order_id : String
  pub strategy_id : String

-- `entry(..).or_default()`
abbrev pub or_default : String → BTreeMap (List JournalRecord) → BTreeMap (List JournalRecord)
or_default k attempts = elim (lookup k attempts) [ none ↦ insert k [] attempts | some _ ↦ attempts ]

-- `get_mut(..)` and `push`
abbrev pub push_record :
    JournalRecord → BTreeMap (List JournalRecord) → BTreeMap (List JournalRecord)
push_record r attempts = elim (lookup r.client_order_id attempts) [
  | none ↦ attempts
  | some attempt ↦ insert r.client_order_id (attempt ++ r ∷ []) attempts
]

abbrev pub add_record :
    JournalRecord → BTreeMap (List JournalRecord) → BTreeMap (List JournalRecord)
add_record r attempts =
    push_record r
      (if is_write_ahead r.event_kind then or_default r.client_order_id attempts else attempts)

unfoldable pub group_from :
    List JournalRecord → BTreeMap (List JournalRecord) → BTreeMap (List JournalRecord)
group_from [] attempts = attempts
group_from (r ∷ rs) attempts = group_from rs (add_record r attempts)

abbrev pub group_attempts : List JournalRecord → BTreeMap (List JournalRecord)
group_attempts records = group_from records []

-- No record ends the attempt.
abbrev pub is_in_flight : List JournalRecord → Bool
is_in_flight attempt = not (any is_terminal attempt)

-- `filter_map(|record| record.exchange_order_id.as_ref())`
abbrev pub exchange_ids : List JournalRecord → List String
exchange_ids [] = []
exchange_ids (r ∷ rs) = elim r.exchange_order_id [
  | none ↦ exchange_ids rs
  | some id ↦ id ∷ exchange_ids rs
]

-- `values()` that are in flight
abbrev pub in_flight : BTreeMap (List JournalRecord) → List (List JournalRecord)
in_flight attempts = filter is_in_flight (values attempts)

-- The order in which `any` runs over the records does not matter.
abbrev pub remote_contains_attempt : RemoteSnapshot → List JournalRecord → Bool
remote_contains_attempt remote attempt =
    any (λ id. contains_key id remote.open_order_ids || contains_key id remote.trade_order_ids)
      (exchange_ids attempt)

-- `flat_map`
abbrev pub all_exchange_ids : List (List JournalRecord) → List String
all_exchange_ids [] = []
all_exchange_ids (attempt ∷ rest) = exchange_ids attempt ++ all_exchange_ids rest

abbrev pub blocked_report : String → ℕ → ℕ → RecoveryReport
blocked_report reason replayed_records in_flight_attempts = record {
  live_unlock_allowed = false;
  reason = reason;
  replayed_records = replayed_records;
  in_flight_attempts = in_flight_attempts;
}

abbrev pub is_nil {ℓ} : {A : Type ℓ} → List A → Bool
is_nil [] = true
is_nil (_ ∷ _) = false

-- `mapped_open_orders`
abbrev pub mapped_open_orders : RemoteSnapshot → List (List JournalRecord) → List String
mapped_open_orders remote attempts =
    filter (λ id. contains_key id remote.open_order_ids) (all_exchange_ids attempts)

abbrev pub has_unmapped : RemoteSnapshot → List (List JournalRecord) → Bool
has_unmapped remote attempts =
    any (λ id. not (any (λ known. str_eq id known) (mapped_open_orders remote attempts)))
      (keys remote.open_order_ids)

unfoldable pub recover_after_crash_records : List JournalRecord → RemoteSnapshot → RecoveryReport
recover_after_crash_records records remote =
    let flying = in_flight (group_attempts records) in
    let replayed = length records in
    if not remote.open_orders_loaded
    then blocked_report "open_orders_not_loaded" replayed (length flying)
    else if not remote.trades_loaded
    then blocked_report "trades_not_loaded" replayed (length flying)
    else if not remote.balances_loaded
    then blocked_report "balances_not_loaded" replayed (length flying)
    else if not remote.allowances_loaded
    then blocked_report "allowances_not_loaded" replayed (length flying)
    else if not (is_nil remote.unresolved_gaps)
    then blocked_report "unresolved_reconciliation_gaps" replayed (length flying)
    else if ltb 0 (length (filter (λ a. not (remote_contains_attempt remote a)) flying))
    then blocked_report "unresolved_in_flight_attempts" replayed (length flying)
    else if has_unmapped remote flying
    then blocked_report "unmapped_remote_open_orders" replayed (length flying)
    else record {
      live_unlock_allowed = true;
      reason = "reconciled";
      replayed_records = replayed;
      in_flight_attempts = length flying;
    }

-- `recover_after_crash`: what replaying the journal gave, and the report on it.
abbrev pub recover_after_crash :
    Result (List JournalRecord) → RemoteSnapshot → Result RecoveryReport
recover_after_crash replayed remote =
    replayed >>= λ records. ok (recover_after_crash_records records remote)

abbrev pub require_recovered : RecoveryReport → Result ⊤
require_recovered report =
    if report.live_unlock_allowed then ok tt else err (readiness report.reason)

-- The last exchange order id of an attempt: `rev().find_map(..)`
abbrev pub last_id : List JournalRecord → Option String
last_id [] = none
last_id (r ∷ rs) = elim (last_id rs) [ some id ↦ some id | none ↦ r.exchange_order_id ]

abbrev pub unresolved_of : String → List JournalRecord → Option UnresolvedOrderAttempt
unresolved_of client_order_id [] = none
unresolved_of client_order_id (r ∷ rs) = elim (last_id (r ∷ rs)) [
  | none ↦ none
  | some id ↦ some (record {
    decision_id = r.decision_id;
    client_order_id = client_order_id;
    exchange_order_id = id;
    strategy_id = r.strategy_id;
  })
]

abbrev pub unresolved_each : BTreeMap (List JournalRecord) → List UnresolvedOrderAttempt
unresolved_each [] = []
unresolved_each ((k, attempt) ∷ rest) =
    let others = unresolved_each rest in
    if is_in_flight attempt
    then elim (unresolved_of k attempt) [ none ↦ others | some found ↦ found ∷ others ]
    else others

abbrev pub unresolved_order_attempts : List JournalRecord → List UnresolvedOrderAttempt
unresolved_order_attempts records = unresolved_each (group_attempts records)
