-- ===== src/Execution/Router.antt =====
-- execution.rs: the router, which checks an order, journals it, submits it and journals the outcome.
-- What the clock, the uuid crate, the adapter and the shared revision give is an input.
use Prim.Native.String.{◌++◌ as append}
use polymarket_watch_rust.Base.Outcome.{BotError, Result, err, execution, ok, to_string, ◌>>=◌}
use polymarket_watch_rust.Base.Tests.{
  Bool, List, Option, String, [], false, if◌then◌else◌, none, not, some, true, ℕ, ◌∷◌,
}
use polymarket_watch_rust.Compliance.{is_live}
use polymarket_watch_rust.Execution.{ExecutionContext, account_revision_matches, check_gates}
use polymarket_watch_rust.Journal.{Codec, Journal, JournalEventKind, JournalRecord}
use polymarket_watch_rust.Journal.Writing.{
  AppendIo, append_lifecycle, append_write_ahead_with_sources,
}
use polymarket_watch_rust.Paper.Orders.{submit}
use polymarket_watch_rust.Paper.State.{ExecutionResult, PaperEngine}
use polymarket_watch_rust.Types.{BookState, OrderIntent, OrderStatus}

pub data CheckedSubmission : Type 0 where
  recorded : ExecutionResult → CheckedSubmission
  ambiguous : Option ExecutionResult → String → CheckedSubmission

abbrev pub journal_kind_for_status : OrderStatus → JournalEventKind
journal_kind_for_status OrderStatus.submitted = JournalEventKind.submitted
journal_kind_for_status OrderStatus.unknown = JournalEventKind.submitted
journal_kind_for_status OrderStatus.acknowledged = JournalEventKind.acknowledged
journal_kind_for_status OrderStatus.partially_filled = JournalEventKind.partially_filled
journal_kind_for_status OrderStatus.filled = JournalEventKind.filled
journal_kind_for_status OrderStatus.cancel_requested = JournalEventKind.cancel_requested
journal_kind_for_status OrderStatus.cancelled = JournalEventKind.cancelled
journal_kind_for_status _ = JournalEventKind.rejected

-- `Debug` of `OrderStatus`
abbrev pub debug_status : OrderStatus → String
debug_status OrderStatus.intent = "Intent"
debug_status OrderStatus.write_ahead = "WriteAhead"
debug_status OrderStatus.submitted = "Submitted"
debug_status OrderStatus.acknowledged = "Acknowledged"
debug_status OrderStatus.partially_filled = "PartiallyFilled"
debug_status OrderStatus.filled = "Filled"
debug_status OrderStatus.cancel_requested = "CancelRequested"
debug_status OrderStatus.cancelled = "Cancelled"
debug_status OrderStatus.rejected = "Rejected"
debug_status OrderStatus.unknown = "Unknown"

-- The arguments of one call of the adapter.
pub record AdapterCall : Type 0 where
  pub intent : OrderIntent
  pub client_order_id : String
  pub now_ms : ℕ

-- What one submission meets: the three readings of the clock, the three of the revision, the uuid,
-- the text of the write-ahead payload, the file operations of both appends, and the adapter.
pub record Surroundings : Type 0 where
  pub initial_ms : ℕ
  pub second_ms : ℕ
  pub submit_ms : ℕ
  pub first_revision : ℕ
  pub second_revision : ℕ
  pub last_revision : ℕ
  pub uuid : String
  pub payload : String
  pub write_ahead_fs : AppendIo
  pub outcome_fs : AppendIo
  pub adapter : AdapterCall → Result ExecutionResult

-- `self.adapter.submit(..)`: its answer, and the log of what it was given.
unfoldable pub call_adapter : Surroundings → AdapterCall → Result ExecutionResult × List AdapterCall
call_adapter w call = (w.adapter call, call ∷ [])

-- The answer, the journal, and the calls of the adapter.
pub record Submitted : Type 0 where
  pub answer : Result CheckedSubmission
  pub journal_ : Journal
  pub calls : List AdapterCall

abbrev pub client_id : Surroundings → String
client_id w = append "client-" w.uuid

abbrev pub decision_id : Surroundings → String
decision_id w = append "decision-" (client_id w)

abbrev pub book_refs : Option BookState → List String
book_refs none = []
book_refs (some book) = elim book.book_hash [ none ↦ [] | some hash ↦ hash ∷ [] ]

abbrev pub ambiguous_reason : Bool → BotError → String
ambiguous_reason true error =
    append "account_revision_changed_during_submission;post_submit_journal_failure:"
      (to_string error)
ambiguous_reason false error = append "post_submit_journal_failure:" (to_string error)

-- `match (account_changed, journal_result)`
abbrev pub after_submission : Bool → Result JournalRecord → ExecutionResult → CheckedSubmission
after_submission false (ok _) result = recorded result
after_submission true (ok _) result =
    ambiguous (some result) "account_revision_changed_during_submission"
after_submission account_changed (err error) result =
    ambiguous (some result) (ambiguous_reason account_changed error)

-- The adapter failed: in live mode the order may still be at the exchange.
abbrev pub after_failure : Bool → Result JournalRecord → BotError → Result CheckedSubmission
after_failure true (ok _) error =
    ok (ambiguous none (append "live_submission_state_unknown:" (to_string error)))
after_failure true (err journal_error) error = ok (
    ambiguous none (
      append "live_submission_state_unknown:"
        (append (to_string error) (append ";journal:" (to_string journal_error)))))
after_failure false (ok _) error = err error
after_failure false (err journal_error) error = err journal_error

module _ (c : Codec) (context : ExecutionContext) (i : OrderIntent) (w : Surroundings) where
  abbrev pub append_outcome :
      Journal → JournalEventKind → Option String → String → String → Result JournalRecord × Journal
  append_outcome j kind exchange_order_id result message =
      append_lifecycle c w.outcome_fs j kind (decision_id w) (client_id w) exchange_order_id
        i.strategy_id result message

  -- The adapter has been called.
  unfoldable pub record_outcome : Journal → Result ExecutionResult → List AdapterCall → Submitted
  record_outcome j (ok result) calls =
      let written =
        append_outcome j (journal_kind_for_status result.status) result.exchange_order_id
          (debug_status result.status) result.message in
      record {
        answer = ok (
            after_submission (not (account_revision_matches context w.last_revision)) written.0
              result);
        journal_ = written.1;
        calls = calls;
      }
  record_outcome j (err error) calls =
      let is_live_ = is_live context.settings.mode in
      let written =
        append_outcome j
          (if is_live_ then JournalEventKind.submitted else JournalEventKind.rejected) none
          (if is_live_ then "submission_state_unknown" else "adapter_rejected") (to_string error) in
      record {
        answer = after_failure is_live_ written.0 error;
        journal_ = written.1;
        calls = calls;
      }

  -- After the write-ahead record: the gates once more, and the submission.
  unfoldable pub submit_written : Journal → Submitted
  unfolding record_outcome call_adapter
  submit_written j = elim (check_gates context i w.second_revision w.second_ms) [
    | err error ↦
        let written =
          append_outcome j JournalEventKind.rejected none "rejected_before_submit"
            (to_string error) in
        record {
          answer = elim written.0 [ err journal_error ↦ err journal_error | ok _ ↦ err error ];
          journal_ = written.1;
          calls = [];
        }
    | ok _ ↦
        let called =
          call_adapter w
            (record { intent = i; client_order_id = client_id w; now_ms = w.submit_ms }) in
        record_outcome j called.0 called.1
  ]

  unfoldable pub submit_checked_inner : Journal → Submitted
  submit_checked_inner j = elim (check_gates context i w.first_revision w.initial_ms) [
    | err error ↦ record { answer = err error; journal_ = j; calls = [] }
    | ok _ ↦
        let written =
          append_write_ahead_with_sources c w.write_ahead_fs j (decision_id w) (client_id w)
            i.strategy_id "accepted" w.payload (book_refs context.book) in
        elim written.0 [
          | err error ↦ record { answer = err error; journal_ = written.1; calls = [] }
          | ok _ ↦ submit_written written.1
        ]
  ]

  unfoldable pub submit_live_checked : Journal → Submitted
  submit_live_checked j =
      if not (is_live context.settings.mode)
      then record {
        answer = err (execution "submit_live_checked_requires_live_mode");
        journal_ = j;
        calls = [];
      }
      else submit_checked_inner j

-- The adapter of the paper mode submits to the engine; here the engine is a copy.
unfoldable pub stage_paper_submission :
    ExecutionContext
    → OrderIntent
    → ℕ
    → ℕ
    → String
    → PaperEngine
    → Result (PaperEngine × ExecutionResult)
stage_paper_submission context i loaded now_ms uuid engine =
    check_gates context i loaded now_ms >>= λ _.
    let staged = submit i (append "client-" uuid) now_ms engine in
    staged.0 >>= λ result. ok (staged.1, result)
