-- ===== src/Reconcile/Mappings.antt =====
-- About reconcile.rs: the open orders that are found again, and the asset in a write-ahead payload.
use polymarket_watch_rust.Base.BTreeMap.{BTreeMap, contains_key, insert}
use polymarket_watch_rust.Base.Chars.{chars}
use polymarket_watch_rust.Base.Int.{u64_max}
use polymarket_watch_rust.Base.Lists.{length}
use polymarket_watch_rust.Base.Outcome.{
  BotError, Result, err, fail_if, journal, ok, ok_or, ◌>>=◌, ◌>>◌,
}
use polymarket_watch_rust.Base.Tests.{
  List, Option, String, [], if◌then◌else◌, leb, none, not, some, str_eq, ℕ, ⊤, ◌%◌, ◌&&◌, ◌*◌, ◌+◌,
  ◌-◌, ◌==◌, ◌||◌, ◌∷◌,
}
use polymarket_watch_rust.Fixed.Text.{Text}
use polymarket_watch_rust.Journal.{Answer, Bytes, JournalRecord, is_write_ahead, map_err}
use polymarket_watch_rust.Journal.Reading.{push_first}
use polymarket_watch_rust.Reconcile.{RecoveredOpenOrder, group_attempts, is_in_flight, is_nil}
use polymarket_watch_rust.Types.{AssetId}

-- `split('|')`
abbrev pub split_bar : Text → List Text
split_bar [] = [] ∷ []
split_bar (c ∷ s) = let rest = split_bar s in if c == 124 then [] ∷ rest else push_first c rest

-- `strip_prefix`
abbrev pub strip_prefix : Text → Text → Option Text
strip_prefix [] s = some s
strip_prefix (p ∷ ps) [] = none
strip_prefix (p ∷ ps) (c ∷ s) = if p == c then strip_prefix ps s else none

abbrev pub find_prefixed : Text → List Text → Option Text
find_prefixed prefix [] = none
find_prefixed prefix (field ∷ rest) = elim (strip_prefix prefix field) [
  | some encoded ↦ some encoded
  | none ↦ find_prefixed prefix rest
]

abbrev pub hex_invalid : BotError
hex_invalid = journal "write_ahead_asset_hex_invalid"

unfoldable pub hex_nibble : ℕ → Result ℕ
hex_nibble byte =
    if leb 48 byte && leb byte 57
    then ok (byte - 48)
    else if leb 97 byte && leb byte 102
    then ok (byte - 97 + 10)
    else if leb 65 byte && leb byte 70
    then ok (byte - 65 + 10)
    else err hex_invalid

-- `chunks_exact(2)` of an even number of bytes; `(high << 4) | low` of two nibbles
unfoldable pub decode_pairs : Bytes → Result Bytes
unfolding hex_nibble
decode_pairs [] = ok []
decode_pairs (c ∷ []) = ok []
decode_pairs (c ∷ d ∷ rest) = do
  high ← hex_nibble c
  low ← hex_nibble d
  bytes ← decode_pairs rest
  ok ((high * 16 + low) ∷ bytes)

module _ (utf8 : Bytes → Answer String) where
  -- The payload is the list of its bytes, and `utf8` is `String::from_utf8`.
  unfoldable pub recover_write_ahead_asset : Bytes → Result AssetId
  recover_write_ahead_asset payload = do
    encoded ←
        ok_or (find_prefixed (chars "asset_id_hex=") (split_bar payload))
          (journal "write_ahead_asset_missing")
    fail_if (is_nil encoded || not (length encoded % 2 == 0)) hex_invalid
    bytes ← decode_pairs encoded
    asset ← map_err (λ _. journal "write_ahead_asset_not_utf8") (utf8 bytes)
    fail_if (str_eq asset "") (journal "write_ahead_asset_empty")
    ok asset

abbrev pub first_write_ahead : List JournalRecord → Option JournalRecord
first_write_ahead [] = none
first_write_ahead (r ∷ rs) = if is_write_ahead r.event_kind then some r else first_write_ahead rs

-- The last exchange order id of the attempt that is open at the exchange: `rev().filter_map().find()`
abbrev pub last_open_id : BTreeMap ⊤ → List JournalRecord → Option String
last_open_id open_ids [] = none
last_open_id open_ids (r ∷ rs) = elim (last_open_id open_ids rs) [
  | some id ↦ some id
  | none ↦ elim r.exchange_order_id [
    | none ↦ none
    | some id ↦ if contains_key id open_ids then some id else none
  ]
]

-- `u64::try_from`
abbrev pub fits_u64 : ℕ → Result ℕ
fits_u64 t = if leb t u64_max then ok t else err (journal "journal_timestamp_exceeds_u64")

module _ (payload_bytes : String → Bytes) (utf8 : Bytes → Answer String) where
  unfoldable pub recover_order : String → List JournalRecord → Result RecoveredOpenOrder
  recover_order client_order_id attempt = elim (first_write_ahead attempt) [
    | none ↦ err (journal "write_ahead_timestamp_missing")
    | some r ↦ fits_u64 r.wall_clock_timestamp_ms >>= λ submitted_at_ms.
        recover_write_ahead_asset utf8 (payload_bytes r.payload) >>= λ asset. ok (record {
          client_order_id = client_order_id;
          submitted_at_ms = submitted_at_ms;
          asset_id = asset;
        })
  ]

  unfoldable pub recover_each :
      BTreeMap ⊤
      → BTreeMap (List JournalRecord)
      → BTreeMap RecoveredOpenOrder
      → Result (BTreeMap RecoveredOpenOrder)
  recover_each open_ids [] recovered = ok recovered
  recover_each open_ids ((k, attempt) ∷ rest) recovered =
      if not (is_in_flight attempt)
      then recover_each open_ids rest recovered
      else elim (last_open_id open_ids attempt) [
        | none ↦ recover_each open_ids rest recovered
        | some id ↦
            recover_order k attempt >>= λ o. recover_each open_ids rest (insert id o recovered)
      ]

  abbrev pub recover_open_order_mappings_records :
      List JournalRecord → BTreeMap ⊤ → Result (BTreeMap RecoveredOpenOrder)
  recover_open_order_mappings_records records open_ids =
      recover_each open_ids (group_attempts records) []
