-- ===== src/Compliance/Examples.antt =====
-- The theorems on compliance.rs at concrete states.
use polymarket_watch_rust.Base.Chars.{to_ascii_lowercase}
use polymarket_watch_rust.Base.Lists.{length}
use polymarket_watch_rust.Base.Outcome.{Result, ok}
use polymarket_watch_rust.Base.Tests.{
  Bool, List, Option, String, [], false, none, refl, some, true, ◌↔◌, ◌∷◌, ◌≡◌, ◌≤◌, ◌⊎◌,
}
use polymarket_watch_rust.Compliance.{
  ComplianceLatchState, ComplianceState, check_compliance, eligibility_status_at, eligible,
  from_geoblock_result,
}
use polymarket_watch_rust.Compliance.Eligible.{check_compliance-live_iff}
use polymarket_watch_rust.Compliance.Kept.{LatchCall, latch_all, latch_all-survives}
use polymarket_watch_rust.Compliance.Latch.{
  ComplianceGuard, LatchIo, OpenIo, latch, max_compliance_reasons, new_latch, normalized_wallets,
  open_file, open_guard, write_latch_state,
}
use polymarket_watch_rust.Config.{Settings, default_settings}
use polymarket_watch_rust.Journal.{failed, got}
use polymarket_watch_rust.Types.{BotMode}

abbrev latch_works : LatchIo
latch_works = record {
  create = got tt;
  serialize = got tt;
  newline = got tt;
  sync = got tt;
  rename = got tt;
  sync_parent = got tt;
}

abbrev open_works : OpenIo
open_works = record {
  create_dir = got tt;
  open_lock = got tt;
  lock = got tt;
  harden = got tt;
  write = latch_works;
}

abbrev some_wallets : List String
some_wallets = "0xB" ∷ "0xa" ∷ "0xA" ∷ []

abbrev opened : ComplianceGuard
opened = record {
  file = some (ok (new_latch ("0xa" ∷ "0xb" ∷ []) 1000));
  state = new_latch ("0xa" ∷ "0xb" ∷ []) 1000;
}

first_open : (open_guard open_works none some_wallets 1000).0 ≡ ok opened
unfolding open_guard open_file write_latch_state normalized_wallets to_ascii_lowercase
first_open = refl

-- A latch that works, and one whose file cannot be synced.
abbrev found : LatchCall
found = record {
  fs = latch_works;
  reason = "sanctioned wallet";
  prohibited = true;
  confidential = false;
  now_ms = 2000;
}

abbrev unsynced : LatchCall
unsynced = record found {
  fs = record latch_works { sync = failed "disk full" };
  prohibited = false;
  confidential = true;
}

abbrev served : ComplianceGuard
served = latch_all (unsynced ∷ []) (latch_all (found ∷ []) opened)

latch_all-survives_example :
    (g' : ComplianceGuard) × ((open_guard open_works served.file some_wallets 3000).0 ≡ ok g')
    × (((latch_all (found ∷ []) opened).state.prohibited_conduct_flag ≡ false)
        ⊎ (g'.state.prohibited_conduct_flag ≡ true))
    × (((latch_all (found ∷ []) opened).state.confidential_info_flag ≡ false)
        ⊎ (g'.state.confidential_info_flag ≡ true))
    × (length g'.state.reasons ≤ max_compliance_reasons)
latch_all-survives_example =
    latch_all-survives open_works open_works none some_wallets 1000 3000 opened (found ∷ [])
      (unsynced ∷ []) first_open refl refl

-- The directory cannot be synced: the file is new already, and the next latch writes it away.
abbrev lost : LatchCall
lost = record found { fs = record latch_works { sync_parent = failed "disk full" } }

abbrev leaked : LatchCall
leaked = record found { prohibited = false; confidential = true }

abbrev flagged : Option (Result ComplianceLatchState) → Option Bool
flagged (some (ok s)) = some s.prohibited_conduct_flag
flagged _ = none

written_once : flagged (latch_all (lost ∷ []) opened).file ≡ some true
unfolding latch_all latch write_latch_state
written_once = refl

written_away : flagged (latch_all (lost ∷ leaked ∷ []) opened).file ≡ some false
unfolding latch_all latch write_latch_state
written_away = refl

abbrev live_settings : Settings
live_settings = record default_settings { mode = BotMode.live }

abbrev checked : ComplianceState
checked = from_geoblock_result false "CH" "ZH" true 5000

check_compliance-live_iff_example : (check_compliance live_settings checked 6000 ≡ ok tt) ↔ (
    (checked.prohibited_conduct_flag ≡ false)
    × (checked.confidential_info_flag ≡ false)
    × (eligibility_status_at checked 6000 live_settings.max_geoblock_age_ms ≡ eligible))
check_compliance-live_iff_example = check_compliance-live_iff live_settings checked 6000 refl
