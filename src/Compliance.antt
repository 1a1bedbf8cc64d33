-- ===== src/Compliance.antt =====
-- compliance.rs: the geographic eligibility of live trading. The answer of the geoblock service is an
-- input; a text is compared as the string that holds it.
pub mod Eligible
pub mod Latch
pub mod Kept
mod Examples
use Prim.Native.String.{◌++◌ as append}
use polymarket_watch_rust.Base.Chars.{chars, to_ascii_uppercase, trim_text}
use polymarket_watch_rust.Base.Lists.{all, length}
use polymarket_watch_rust.Base.Outcome.{BotError, Result, compliance, fail_if, ok, ◌>>=◌, ◌>>◌}
use polymarket_watch_rust.Base.Tests.{
  Bool, List, Option, String, false, if◌then◌else◌, leb, ltb, none, not, some, str_eq, true, ℕ, ⊤,
  ◌&&◌, ◌-◌, ◌==◌,
}
use polymarket_watch_rust.Config.{Settings}
use polymarket_watch_rust.Journal.{Answer, map_err}
use polymarket_watch_rust.Types.{BotMode}

pub record ComplianceLatchState : Type 0 where
  pub schema_version : ℕ
  pub controlled_wallets : List String
  pub prohibited_conduct_flag : Bool
  pub confidential_info_flag : Bool
  pub reasons : List String
  pub updated_at_ms : ℕ

pub record ComplianceState : Type 0 where
  pub geoblock_checked : Bool
  pub geoblocked : Bool
  pub venue_allowed : Bool
  pub country_code : Option String
  pub region_code : Option String
  pub checked_at_ms : Option ℕ
  pub prohibited_conduct_flag : Bool
  pub confidential_info_flag : Bool

pub data EligibilityStatus : Type 0 where
  unverified invalid_future stale blocked venue_review eligible : EligibilityStatus

-- `ComplianceState::default`
abbrev pub default_compliance : ComplianceState
default_compliance = record {
  geoblock_checked = false;
  geoblocked = true;
  venue_allowed = false;
  country_code = none;
  region_code = none;
  checked_at_ms = none;
  prohibited_conduct_flag = false;
  confidential_info_flag = false;
}

abbrev pub is_upper : ℕ → Bool
is_upper c = leb 65 c && leb c 90

-- Two bytes, each an upper-case letter: two such characters.
unfoldable pub valid_country_code : String → Bool
unfolding chars
valid_country_code text = length (chars text) == 2 && all is_upper (chars text)

abbrev pub is_later : Option ℕ → ℕ → Bool
is_later none now_ms = false
is_later (some t) now_ms = ltb now_ms t

abbrev pub is_set : Option ℕ → Bool
is_set none = false
is_set (some t) = ltb 0 t

abbrev pub has_country : Option String → Bool
has_country none = false
has_country (some code) = valid_country_code code

unfoldable pub has_geoblock_response : ComplianceState → Bool
has_geoblock_response s = s.geoblock_checked && is_set s.checked_at_ms && has_country s.country_code

unfoldable pub geography_is_fresh : ComplianceState → ℕ → ℕ → Bool
geography_is_fresh s now_ms max_age_ms = elim s.checked_at_ms [
  | none ↦ false
  | some checked_at_ms ↦
      has_geoblock_response s
      && ltb 0 max_age_ms
      && leb checked_at_ms now_ms
      && leb (now_ms - checked_at_ms) max_age_ms
]

unfoldable pub eligibility_status_at : ComplianceState → ℕ → ℕ → EligibilityStatus
eligibility_status_at s now_ms max_age_ms =
    if not (has_geoblock_response s)
    then unverified
    else if is_later s.checked_at_ms now_ms
    then invalid_future
    else if not (geography_is_fresh s now_ms max_age_ms)
    then stale
    else if s.geoblocked
    then blocked
    else if not s.venue_allowed
    then venue_review
    else eligible

abbrev pub location_label : ComplianceState → String
location_label s = elim s.country_code [
  | none ↦ "Location unavailable"
  | some country ↦ elim s.region_code [
    | none ↦ country
    | some region ↦ append country (append " · " region)
  ]
]

abbrev pub apply_persistent_latch : ComplianceLatchState → ComplianceState → ComplianceState
apply_persistent_latch latch s = record s {
  prohibited_conduct_flag = latch.prohibited_conduct_flag;
  confidential_info_flag = latch.confidential_info_flag;
}

abbrev pub checked_at : Option ℕ → ℕ
checked_at none = 0
checked_at (some t) = t

abbrev pub is_live : BotMode → Bool
is_live BotMode.live = true
is_live BotMode.paper = false

unfoldable pub check_geography : Settings → ComplianceState → ℕ → Result ⊤
check_geography settings s now_ms = do
  fail_if (not (has_geoblock_response s)) (compliance "geoblock_not_checked")
  fail_if (ltb now_ms (checked_at s.checked_at_ms)) (compliance "geoblock_timestamp_in_future")
  fail_if (not (geography_is_fresh s now_ms settings.max_geoblock_age_ms))
      (compliance "geoblock_check_stale")
  fail_if s.geoblocked (compliance "geoblocked")
  fail_if (not s.venue_allowed) (compliance "venue_not_allowed")

unfoldable pub check_compliance : Settings → ComplianceState → ℕ → Result ⊤
check_compliance settings s now_ms = do
  fail_if s.prohibited_conduct_flag (compliance "prohibited_conduct")
  fail_if s.confidential_info_flag (compliance "confidential_info")
  if is_live settings.mode then check_geography settings s now_ms else ok tt

abbrev pub non_empty : String → Option String
non_empty text = if str_eq (trim_text text) "" then none else some (trim_text text)

unfoldable pub from_geoblock_result : Bool → String → String → Bool → ℕ → ComplianceState
from_geoblock_result is_blocked country_code region_code venue_allowed checked_at_ms = record {
  geoblock_checked = true;
  geoblocked = is_blocked;
  venue_allowed = venue_allowed;
  country_code = non_empty country_code;
  region_code = non_empty region_code;
  checked_at_ms = some checked_at_ms;
  prohibited_conduct_flag = false;
  confidential_info_flag = false;
}

pub record GeoblockResponse : Type 0 where
  pub is_blocked : Bool
  pub country : String
  pub region : String

-- The outcomes of building the client, of the request, of its status, and of reading its body.
pub record GeoblockFetch : Type 0 where
  pub client : Answer ⊤
  pub request : Answer ⊤
  pub status_code : Answer ⊤
  pub response : Answer GeoblockResponse

abbrev pub geoblock_error : String → String → BotError
geoblock_error stage error = compliance (append "geoblock_" (append stage (append ":" error)))

unfoldable pub fetch_geoblock_state : GeoblockFetch → ℕ → Result ComplianceState
unfolding valid_country_code
fetch_geoblock_state fetch checked_at_ms = do
  map_err (geoblock_error "client") fetch.client
  map_err (geoblock_error "request") fetch.request
  map_err (geoblock_error "status") fetch.status_code
  response ← map_err (geoblock_error "response") fetch.response
  let country = to_ascii_uppercase (trim_text response.country)
  fail_if (not (valid_country_code country)) (compliance "geoblock_country_code_invalid")
  ok (
      from_geoblock_result response.is_blocked country response.region (not response.is_blocked)
        checked_at_ms)
