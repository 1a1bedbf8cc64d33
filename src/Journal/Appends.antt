-- ===== src/Journal/Appends.antt =====
-- About journal.rs: a record that has just been signed is read back from its line.
use polymarket_watch_rust.Base.Outcome.{>>=-eq-ok, BotError, ok}
use polymarket_watch_rust.Base.Tests.{String, arith, eq_iff, some, ℕ, ◌≡◌, ◌≢◌}
use polymarket_watch_rust.Journal.{
  Answer, Bytes, Clock, Codec, JournalEntry, JournalRecord, JournalStartup, check_record,
  compute_hash, failed, from_line, got, journal_schema_version, map_err, new_record, to_line,
  unsigned_record,
}
use polymarket_watch_rust.Journal.Lines.{IsOneLine}
use polymarket_watch_rust.Journal.Reading.{read_line}
use polymarket_watch_rust.Journal.Sound.{IsFaithful, IsNamed}

pub map_err-got {ℓ} :
    {A : Type ℓ} (f : String → BotError) (answer : Answer A) (a : A)
    → map_err f answer ≡ ok a
    → answer ≡ got a
map_err-got f (failed text) a h = cc
map_err-got f (got b) a h = cc

-- What `JournalRecord::new` makes.
pub record IsSigned (c : Codec) (sequence : ℕ) (previous : String) (startup : JournalStartup)
    (entry : JournalEntry) (r : JournalRecord) : Type 0 where
  pub schema : r.schema_version ≡ journal_schema_version
  pub process : r.process_startup_id ≡ startup.process_startup_id
  pub config_hashed : r.config_hash ≡ startup.config_hash
  pub binary_hashed : r.binary_hash ≡ startup.binary_hash
  pub client : r.client_order_id ≡ entry.client_order_id
  pub numbered : r.monotonic_sequence ≡ sequence
  pub linked : r.previous_record_hash ≡ previous
  pub kind : r.event_kind ≡ entry.event_kind
  pub carries : r.payload ≡ entry.payload
  pub hashed : compute_hash c r ≡ ok r.record_hash

module _ (c : Codec) where
  pub new_record-IsSigned :
      (clock : Clock) (sequence : ℕ) (previous : String) (startup : JournalStartup)
      (entry : JournalEntry) (r : JournalRecord)
      → new_record c clock sequence previous startup entry ≡ ok r
      → IsSigned c sequence previous startup entry r
  unfolding new_record compute_hash
  new_record-IsSigned clock sequence previous startup entry r h =
      let (hash, h_hash, h_r) =
        >>=-eq-ok (compute_hash c (unsigned_record clock sequence previous startup entry)) _ h in
      grind (arith, h_hash, h_r)

  check_record-signed :
      (sequence : ℕ) (previous : String) (startup : JournalStartup) (entry : JournalEntry)
      (r : JournalRecord)
      → IsNamed startup
      → entry.client_order_id ≢ ""
      → IsSigned c sequence previous startup entry r
      → check_record c r ≡ ok r
  check_record-signed sequence previous startup entry r named h_client s = grind (
    arith,
    s.schema,
    s.process,
    s.config_hashed,
    s.binary_hashed,
    s.client,
    s.hashed,
    named.process,
    named.config_hashed,
    named.binary_hashed,
    eq_iff r.process_startup_id "",
    eq_iff r.config_hash "",
    eq_iff r.binary_hash "",
    eq_iff r.client_order_id "",
    eq_iff r.record_hash r.record_hash,
  )

  pub read_line-signed :
      (sequence : ℕ) (previous : String) (startup : JournalStartup) (entry : JournalEntry)
      (r : JournalRecord) (line : Bytes)
      → IsFaithful c
      → IsNamed startup
      → entry.client_order_id ≢ ""
      → IsSigned c sequence previous startup entry r
      → to_line c r ≡ ok line
      → (read_line c line ≡ ok (some r)) × IsOneLine line
  unfolding to_line read_line from_line
  read_line-signed sequence previous startup entry r line faithful named h_client s h_line =
      let printed = map_err-got _ (c.record_to_string r) line h_line in
      let text = faithful.decodes r line printed in
      (
        grind (
          arith,
          text.1,
          text.2,
          faithful.reads_back r line printed,
          check_record-signed sequence previous startup entry r named h_client s,
        ),
        faithful.plain r line printed,
      )
