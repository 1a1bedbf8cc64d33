-- ===== src/Execution/Order.antt =====
-- About execution.rs: no order goes out that the gates have not passed twice and the journal does not
-- hold.
use Prim.Native.String.append
use Prim.Native.String.{◌∷◌ as cons_text, ◌++◌ as append_text}
use polymarket_watch_rust.Base.Lists.{append-nil, append_assoc}
use polymarket_watch_rust.Base.Outcome.{Result, Result-cases, err, ok, to_string}
use polymarket_watch_rust.Base.Tests.{
  Bool-cases, List, Option, String, [], ap, arith, inl, inr, none, refl, subst, sym, ◌++◌, ◌∙◌, ◌∷◌,
  ◌≡◌, ◌≢◌,
}
use polymarket_watch_rust.Execution.{ExecutionContext, check_gates}
use polymarket_watch_rust.Execution.Gates.{IsCleared, check_gates-IsCleared}
use polymarket_watch_rust.Execution.Router.{
  AdapterCall, Submitted, Surroundings, append_outcome, book_refs, call_adapter, client_id,
  decision_id, record_outcome, submit_checked_inner, submit_written,
}
use polymarket_watch_rust.Journal.{
  Codec, Journal, JournalEntry, JournalEventKind, JournalRecord, got, is_write_ahead,
}
use polymarket_watch_rust.Journal.Commits.{
  append_event-IsSigned, append_event-commits, append_event-fails,
}
use polymarket_watch_rust.Journal.Recovery.{append_event-startup}
use polymarket_watch_rust.Journal.Sound.{IsFaithful, IsNamed, IsSoundJournal}
use polymarket_watch_rust.Journal.Writing.{
  append_event, append_lifecycle, append_write_ahead_with_sources,
}
use polymarket_watch_rust.Paper.State.{ExecutionResult}
use polymarket_watch_rust.Types.{OrderIntent}

module _ (c : Codec) (context : ExecutionContext) (i : OrderIntent) (w : Surroundings) where
  -- The write-ahead record of the submission.
  abbrev pub write_ahead_of : Journal → Result JournalRecord × Journal
  write_ahead_of j =
      append_write_ahead_with_sources c w.write_ahead_fs j (decision_id w) (client_id w)
        i.strategy_id "accepted" w.payload (book_refs context.book)

  -- The one call: the intent under the client order id, at the time of the submission.
  abbrev pub the_call : AdapterCall
  the_call = record {
    intent = i;
    client_order_id = append_text "client-" w.uuid;
    now_ms = w.submit_ms;
  }

  -- What is left to do once the gates have passed and the record is written.
  abbrev after_write : Journal → Submitted
  after_write j =
      let called = call_adapter w the_call in
      record_outcome c context i w (write_ahead_of j).1 called.0 called.1

  record_outcome-calls :
      (j : Journal) (answer : Result ExecutionResult) (calls : List AdapterCall)
      → (record_outcome c context i w j answer calls).calls ≡ calls
  unfolding record_outcome
  record_outcome-calls j (ok result) calls = refl
  record_outcome-calls j (err error) calls = refl

  submit_checked_inner-after_write :
      (j : Journal) (r : JournalRecord)
      → check_gates context i w.first_revision w.initial_ms ≡ ok tt
      → check_gates context i w.second_revision w.second_ms ≡ ok tt
      → (write_ahead_of j).0 ≡ ok r
      → submit_checked_inner c context i w j ≡ after_write j
  unfolding submit_checked_inner submit_written
  submit_checked_inner-after_write j r first_passed second_passed was_written =
      grind (arith, first_passed, was_written, second_passed)

  -- When the gates pass twice and the journal takes the record, the order goes out.
  pub submit_checked_inner-calls :
      (j : Journal) (r : JournalRecord)
      → check_gates context i w.first_revision w.initial_ms ≡ ok tt
      → check_gates context i w.second_revision w.second_ms ≡ ok tt
      → (write_ahead_of j).0 ≡ ok r
      → (submit_checked_inner c context i w j).calls ≡ the_call ∷ []
  unfolding call_adapter
  submit_checked_inner-calls j r first_passed second_passed was_written =
      ap (λ (s : Submitted). s.calls)
        (submit_checked_inner-after_write j r first_passed second_passed was_written)
      ∙ record_outcome-calls (write_ahead_of j).1 _ (the_call ∷ [])

  -- The entry of the write-ahead record.
  abbrev write_ahead_entry : JournalEntry
  write_ahead_entry = record {
    event_kind = JournalEventKind.write_ahead;
    source_event_refs = book_refs context.book;
    decision_id = decision_id w;
    client_order_id = client_id w;
    exchange_order_id = none;
    strategy_id = i.strategy_id;
    risk_result = "accepted";
    payload = w.payload;
  }

  -- When the router calls the adapter, it does so once, with the intent, the client order id
  -- that it made of the uuid, and the time it read for the submission, after the gates were
  -- passed at both times they were asked, and after the append of the write-ahead record
  -- succeeded, which carries the same client order id.
  pub submit_checked_inner-ordered :
      (j : Journal)
      → (submit_checked_inner c context i w j).calls ≢ []
      → ((submit_checked_inner c context i w j).calls ≡ the_call ∷ [])
        × IsCleared context i w.first_revision w.initial_ms
        × IsCleared context i w.second_revision w.second_ms
        × (r : JournalRecord) × ((write_ahead_of j).0 ≡ ok r)
        × (r.client_order_id ≡ the_call.client_order_id)
  unfolding submit_checked_inner submit_written append_write_ahead_with_sources
  submit_checked_inner-ordered j h =
      elim (Result-cases (check_gates context i w.first_revision w.initial_ms)) [
        | inr (x, first_failed) ↦ absurd (grind (arith, h, first_failed))
        | inl (_, first_passed) ↦ elim (Result-cases (write_ahead_of j).0) [
          | inr (x, not_written) ↦ absurd (grind (arith, h, first_passed, not_written))
          | inl (r, was_written) ↦
              elim (Result-cases (check_gates context i w.second_revision w.second_ms)) [
                | inr (x, second_failed) ↦
                    absurd (grind (arith, h, first_passed, was_written, second_failed))
                | inl (_, second_passed) ↦ (
                  submit_checked_inner-calls j r first_passed second_passed was_written,
                  (check_gates-IsCleared context i w.first_revision w.initial_ms).0 first_passed,
                  (check_gates-IsCleared context i w.second_revision w.second_ms).0 second_passed,
                  r,
                  was_written,
                  (append_event-IsSigned c w.write_ahead_fs j write_ahead_entry r
                      was_written).client,
                )
              ]
        ]
      ]

  client_id-nonempty : client_id w ≢ ""
  client_id-nonempty h =
      let no : cons_text "c" (append_text "lient-" w.uuid) ≡ "" =
        sym (append.cons "c" "lient-" w.uuid) ∙ h in
      cc

  outcome-IsSoundJournal :
      (j : Journal) (records : List JournalRecord) (kind : JournalEventKind)
      (exchange_order_id : Option String) (result message : String)
      → IsFaithful c
      → IsNamed j.startup
      → w.outcome_fs.set_len ≡ got tt
      → IsSoundJournal c j records
      → (more : List JournalRecord) × IsSoundJournal c
          (append_outcome c context i w j kind exchange_order_id result message).1
          (records ++ more)
  unfolding append_lifecycle
  outcome-IsSoundJournal j records kind exchange_order_id result message faithful named h_len
        sound =
      let entry : JournalEntry = record {
        event_kind = kind;
        source_event_refs = [];
        decision_id = decision_id w;
        client_order_id = client_id w;
        exchange_order_id = exchange_order_id;
        strategy_id = i.strategy_id;
        risk_result = result;
        payload = message;
      } in
      elim (Bool-cases (is_write_ahead kind)) [
        | inl never ↦ ([], rw (never, append-nil records) sound)
        | inr fine ↦ elim (Result-cases (append_event c w.outcome_fs j entry).0) [
          | inl (r, h_r) ↦ (
            r ∷ [],
            rw fine (
                append_event-commits c w.outcome_fs j entry records sound r faithful named
                  client_id-nonempty h_r),
          )
          | inr (x, h_x) ↦ (
            [],
            rw (fine, append-nil records)
                ((append_event-fails c w.outcome_fs j entry records sound x h_len h_x).0),
          )
        ]
      ]

  record_outcome-IsSoundJournal :
      (j : Journal) (records : List JournalRecord) (answer : Result ExecutionResult)
      (calls : List AdapterCall)
      → IsFaithful c
      → IsNamed j.startup
      → w.outcome_fs.set_len ≡ got tt
      → IsSoundJournal c j records
      → (more : List JournalRecord) × IsSoundJournal c
          (record_outcome c context i w j answer calls).journal_
          (records ++ more)
  unfolding record_outcome
  record_outcome-IsSoundJournal j records (ok result) calls faithful named h_len sound =
      outcome-IsSoundJournal j records _ result.exchange_order_id _ result.message faithful named
        h_len sound
  record_outcome-IsSoundJournal j records (err error) calls faithful named h_len sound =
      outcome-IsSoundJournal j records _ none _ (to_string error) faithful named h_len sound

  -- When the router has called the adapter, whatever the adapter answered and whatever the
  -- append of its outcome did, the journal's files hold the earlier records, then a write-ahead
  -- record with the client order id and the payload of this submission, and after it at most
  -- further records, and they verify. The journal was sound, the codec reads back what it
  -- prints, the names of the start-up are not empty, and a file that has to be cut back is cut
  -- back.
  pub submit_checked_inner-journalled :
      (j : Journal) (records : List JournalRecord)
      → IsFaithful c
      → IsNamed j.startup
      → IsSoundJournal c j records
      → w.outcome_fs.set_len ≡ got tt
      → (submit_checked_inner c context i w j).calls ≢ []
      → (r : JournalRecord) × (more : List JournalRecord) × (r.event_kind
          ≡ JournalEventKind.write_ahead)
        × (r.client_order_id ≡ client_id w)
        × (r.payload ≡ w.payload)
        × IsSoundJournal c (submit_checked_inner c context i w j).journal_ (records ++ r ∷ more)
  unfolding append_write_ahead_with_sources submit_checked_inner submit_written
  submit_checked_inner-journalled j records faithful named sound h_len h =
      let (_, first_passed, second_passed, r, was_written, _) = submit_checked_inner-ordered j h in
      let before = (check_gates-IsCleared context i w.first_revision w.initial_ms).1 first_passed in
      let again = (check_gates-IsCleared context i w.second_revision w.second_ms).1 second_passed in
      let j1 = (write_ahead_of j).1 in
      let called = call_adapter w the_call in
      let same = submit_checked_inner-after_write j r before again was_written in
      let signed = append_event-IsSigned c w.write_ahead_fs j write_ahead_entry r was_written in
      let sound1 =
        append_event-commits c w.write_ahead_fs j write_ahead_entry records sound r faithful named
          client_id-nonempty was_written in
      let named1 =
        subst IsNamed (sym (append_event-startup c w.write_ahead_fs j write_ahead_entry)) named in
      let (more, sound2) =
        record_outcome-IsSoundJournal j1 (records ++ r ∷ []) called.0 called.1 faithful named1 h_len
          sound1 in
      (
        r,
        more,
        signed.kind,
        signed.client,
        signed.carries,
        rw same (
            subst (IsSoundJournal c (after_write j).journal_) (append_assoc records (r ∷ []) more)
              sound2),
      )
