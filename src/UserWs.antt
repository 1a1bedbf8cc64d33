-- ===== src/UserWs.antt =====
-- user_ws.rs: the authenticated feed of the user's own orders and trades. The SDK's messages carry a
-- uuid as its text and a decimal as the text that it prints.
pub mod Messages
pub mod Conversion
pub mod Session
pub mod Frames
pub mod Backoff
pub mod Cache
pub mod Ownership
pub mod Attribution
mod Examples
use Prim.Native.String.{◌++◌ as append}
use polymarket_watch_rust.Base.BTreeMap.{BTreeMap, insert}
use polymarket_watch_rust.Base.Chars.{eq_ignore_ascii_case, is_lowercase_of}
use polymarket_watch_rust.Base.Int.{ltb_ℤ, u64_max}
use polymarket_watch_rust.Base.Outcome.{Result, err, protocol}
use polymarket_watch_rust.Base.Tests.{
  Bool, List, Option, String, [], false, if◌then◌else◌, leb, map, none, not, some, str_eq, true, ℕ,
  ⊤, ◌&&◌, ◌+◌, ◌||◌, ◌∷◌,
}
use polymarket_watch_rust.Fixed.{Fixed, zero_fixed}
use polymarket_watch_rust.Types.{AssetId, ConditionId, Side}

pub record UserSubscription : Type 0 where
  pub condition_ids : List ConditionId
  pub api_key_present : Bool
  pub secret_present : Bool
  pub passphrase_present : Bool

-- `UserSubscription::new`
abbrev pub new_subscription : List ConditionId → String → String → String → UserSubscription
new_subscription condition_ids api_key secret passphrase = record {
  condition_ids = condition_ids;
  api_key_present = not (str_eq api_key "");
  secret_present = not (str_eq secret "");
  passphrase_present = not (str_eq passphrase "");
}

abbrev pub is_authenticated : UserSubscription → Bool
is_authenticated s = s.api_key_present && s.secret_present && s.passphrase_present

pub data UserEvent : Type 0 where
  order_event :
      ConditionId
      → String
      → AssetId
      → Side
      → Fixed
      → Option Fixed
      → Option Fixed
      → String
      → Option ℕ
      → UserEvent
  trade_event :
      ConditionId
      → String
      → AssetId
      → Side
      → Fixed
      → Fixed
      → String
      → List String
      → Option ℕ
      → UserEvent
  disconnect : UserEvent

pub data UserFeedMessage : Type 0 where
  connected : ℕ → UserFeedMessage
  event : ℕ → UserEvent → UserFeedMessage
  disconnected : ℕ → String → UserFeedMessage

-- A `BTreeSet<String>` is a map to the unit type.
pub record OwnOrderCacheState : Type 0 where
  pub certain : Bool
  pub snapshot_revision : ℕ
  pub open_order_ids : BTreeMap ⊤

abbrev pub default_cache : OwnOrderCacheState
default_cache = record { certain = false; snapshot_revision = 0; open_order_ids = [] }

-- `collect()` into a set
unfoldable pub collect_ids : List String → BTreeMap ⊤ → BTreeMap ⊤
collect_ids [] ids = ids
collect_ids (k ∷ ks) ids = collect_ids ks (insert k tt ids)

-- `u64::saturating_add(1)`
abbrev pub saturating_next : ℕ → ℕ
saturating_next n = if leb u64_max n then u64_max else n + 1

unfoldable pub apply_authoritative_snapshot : List String → OwnOrderCacheState → OwnOrderCacheState
apply_authoritative_snapshot ids s = record {
  certain = true;
  snapshot_revision = saturating_next s.snapshot_revision;
  open_order_ids = collect_ids ids [];
}

unfoldable pub order_status_is_terminal : String → Bool
order_status_is_terminal status =
    is_lowercase_of status "matched"
    || is_lowercase_of status "cancelled"
    || is_lowercase_of status "canceled"

-- `BTreeSet::remove`
abbrev pub remove_id : String → BTreeMap ⊤ → BTreeMap ⊤
remove_id k [] = []
remove_id k ((j, v) ∷ m) = let rest = remove_id k m in if str_eq k j then rest else (j, v) ∷ rest

unfoldable pub apply_user_event : UserEvent → OwnOrderCacheState → OwnOrderCacheState
apply_user_event (order_event _ order_id _ _ _ _ _ status _) s =
    if order_status_is_terminal status
    then record s { open_order_ids = remove_id order_id s.open_order_ids }
    else if s.certain
    then record s { open_order_ids = insert order_id tt s.open_order_ids }
    else s
apply_user_event (trade_event _ _ _ _ _ _ _ _ _) s = s
apply_user_event disconnect s = record s { certain = false }

abbrev pub is_positive : Option Fixed → Bool
is_positive none = false
is_positive (some size) = ltb_ℤ zero_fixed size

unfoldable pub user_event_changes_account_revision : UserEvent → Bool
user_event_changes_account_revision (order_event _ _ _ _ _ _ size_matched status _) =
    order_status_is_terminal status || is_positive size_matched
user_event_changes_account_revision _ = true

abbrev pub user_event_requires_holdings_reconciliation : UserEvent → Bool
user_event_requires_holdings_reconciliation (trade_event _ _ _ _ _ _ _ _ _) = true
user_event_requires_holdings_reconciliation (order_event _ _ _ _ _ _ size_matched status _) =
    eq_ignore_ascii_case status "matched" || is_positive size_matched
user_event_requires_holdings_reconciliation disconnect = false

abbrev pub join : String → List String → String
join separator [] = ""
join separator (s ∷ []) = s
join separator (s ∷ t ∷ ts) = append s (append separator (join separator (t ∷ ts)))

abbrev pub user_subscription_payload_redacted : UserSubscription → String
user_subscription_payload_redacted subscription = append "{\"type\":\"user\",\"markets\":[" (
    append (join "," (map (λ id. append "\"" (append id "\"")) subscription.condition_ids))
      "],\"auth\":{\"apiKey\":\"<redacted>\",\"secret\":\"<redacted>\",\"passphrase\":\"<redacted>\"}}")

abbrev pub user_subscription_payload_live : UserSubscription → Result String
user_subscription_payload_live _ = err (protocol "manual_user_ws_payload_forbidden_use_typed_sdk")
