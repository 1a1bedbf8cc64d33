-- ===== src/Journal/Examples/Faithful.antt =====
-- The codec of the examples on journal.rs reads back what it prints.
use polymarket_watch_rust.Base.Lists.{All, All-map, all}
use polymarket_watch_rust.Base.Tests.{
  Bool-cases, List, Option, String, [], arith, eq_iff, inl, inr, map, none, refl, some, true, ◌+◌,
  ◌-◌, ◌∷◌, ◌≡◌, ◌≤◌,
}
use polymarket_watch_rust.Fixed.Text.{is_whitespace}
use polymarket_watch_rust.Journal.{Bytes, JournalEventKind, JournalRecord, got}
use polymarket_watch_rust.Journal.Examples.Codec.{
  all_known, known, known_option, line_of, place, read_kind, read_option, read_text, record_of,
  table_codec, text_at, texts, write_kind, write_option, write_text,
}
use polymarket_watch_rust.Journal.Lines.{IsOneLine}
use polymarket_watch_rust.Journal.Sound.{IsFaithful}

text_at-place : (ts : List String) (s : String) → known ts s ≡ true → text_at ts (place ts s) ≡ s
text_at-place [] s h = cc
text_at-place (t ∷ ts) s h =
    grind (arith, h, eq_iff t s, λ (k : known ts s ≡ true). text_at-place ts s k)

read-write_text : (s : String) → known texts s ≡ true → read_text (write_text s) ≡ s
unfolding read_text write_text
read-write_text s h =
    let same : place texts s + 20 - 20 ≡ place texts s = omega arith in
    rw same (text_at-place texts s h)

read-write_option : (o : Option String) → known_option o ≡ true → read_option (write_option o) ≡ o
unfolding read_option write_option known_option
read-write_option none h = refl
read-write_option (some s) h =
    let same : place texts s + 21 - 21 ≡ place texts s = omega arith in
    grind (arith, same, text_at-place texts s h)

read-write_kind : (k : JournalEventKind) → read_kind (write_kind k) ≡ k
unfolding read_kind write_kind
read-write_kind JournalEventKind.write_ahead = refl
read-write_kind JournalEventKind.paper_transition = refl
read-write_kind JournalEventKind.account_mutation = refl
read-write_kind JournalEventKind.submitted = refl
read-write_kind JournalEventKind.acknowledged = refl
read-write_kind JournalEventKind.rejected = refl
read-write_kind JournalEventKind.partially_filled = refl
read-write_kind JournalEventKind.filled = refl
read-write_kind JournalEventKind.cancel_requested = refl
read-write_kind JournalEventKind.cancelled = refl
read-write_kind JournalEventKind.reconciled = refl

read-write_texts :
    (ts : List String) → all (known texts) ts ≡ true → map read_text (map write_text ts) ≡ ts
read-write_texts [] h = refl
read-write_texts (t ∷ ts) h = grind (arith, h, read-write_text t, read-write_texts ts)

record_of-line_of : (r : JournalRecord) → all_known r ≡ true → record_of (line_of r) ≡ got r
record_of-line_of r h = grind (
  arith,
  h,
  read-write_kind r.event_kind,
  read-write_text r.process_startup_id,
  read-write_text r.config_hash,
  read-write_text r.binary_hash,
  read-write_text r.previous_record_hash,
  read-write_text r.record_hash,
  read-write_text r.decision_id,
  read-write_text r.client_order_id,
  read-write_option r.exchange_order_id,
  read-write_text r.strategy_id,
  read-write_text r.risk_result,
  read-write_text r.payload,
  read-write_texts r.source_event_refs,
)

write_text-ge : (s : String) → 20 ≤ write_text s
unfolding write_text
write_text-ge s = omega arith

write_option-ge : (o : Option String) → 20 ≤ write_option o
unfolding write_option
write_option-ge none = omega arith
write_option-ge (some s) = omega arith

write_kind-ge : (k : JournalEventKind) → 20 ≤ write_kind k
unfolding write_kind
write_kind-ge k = ground arith

write_texts-ge : (ts : List String) → All (λ n. 20 ≤ n) (map write_text ts)
write_texts-ge [] = tt
write_texts-ge (t ∷ ts) = (write_text-ge t, write_texts-ge ts)

line_of-ge : (r : JournalRecord) → All (λ n. 20 ≤ n) (line_of r)
line_of-ge r = (
  omega arith,
  (
    omega arith,
    (
      write_kind-ge r.event_kind,
      (
        omega arith,
        (
          write_text-ge r.process_startup_id,
          (
            omega arith,
            (
              omega arith,
              (
                write_text-ge r.config_hash,
                (
                  write_text-ge r.binary_hash,
                  (
                    write_text-ge r.previous_record_hash,
                    (
                      write_text-ge r.record_hash,
                      (
                        write_text-ge r.decision_id,
                        (
                          write_text-ge r.client_order_id,
                          (
                            write_option-ge r.exchange_order_id,
                            (
                              write_text-ge r.strategy_id,
                              (
                                write_text-ge r.risk_result,
                                (write_text-ge r.payload, write_texts-ge r.source_event_refs),
                              ),
                            ),
                          ),
                        ),
                      ),
                    ),
                  ),
                ),
              ),
            ),
          ),
        ),
      ),
    ),
  ),
)

-- Numbers above the control characters.
ge-IsOneLine : (line : Bytes) → All (λ n. 20 ≤ n) line → IsOneLine line
ge-IsOneLine line h = All-map (λ n (p : 20 ≤ n). (grind (arith, p), grind (arith, p))) line h

prints :
    (r : JournalRecord) (line : Bytes)
    → table_codec.record_to_string r ≡ got line
    → (all_known r ≡ true) × (line ≡ line_of r)
prints r line h = elim (Bool-cases (all_known r)) [
  | inl fine ↦ (fine, grind (arith, h, fine))
  | inr wrong ↦ absurd (grind (arith, h, wrong))
]

pub table_codec-IsFaithful : IsFaithful table_codec
unfolding is_whitespace
table_codec-IsFaithful = record {
  reads_back = λ r line h. let p = prints r line h in rw (p.1) (record_of-line_of r p.0);
  plain = λ r line h. rw ((prints r line h).1) (ge-IsOneLine (line_of r) (line_of-ge r));
  decodes = λ r line h. (line, refl, rw ((prints r line h).1) refl);
}
