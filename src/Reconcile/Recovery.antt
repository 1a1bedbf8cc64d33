-- ===== src/Reconcile/Recovery.antt =====
-- About reconcile.rs: when live trading may be unlocked after a crash.
use polymarket_watch_rust.Base.BTreeMap.{BTreeMap, contains_key, insert, lookup, lookup-insert}
use polymarket_watch_rust.Base.Lists.{All, All-map, any, append_assoc, append-nil, filter, length}
use polymarket_watch_rust.Base.Tests.{
  Bool-cases, List, Option, Option-cases, String, [], arith, eq_iff, false, if◌then◌else◌, inl, inr,
  none, not, refl, some, str_eq, true, ⊤, ◌&&◌, ◌++◌, ◌↔◌, ◌∷◌, ◌≡◌,
}
use polymarket_watch_rust.Journal.{JournalRecord, is_write_ahead}
use polymarket_watch_rust.Paper.State.{keys}
use polymarket_watch_rust.Reconcile.{
  RemoteSnapshot, add_record, all_exchange_ids, group_attempts, group_from, in_flight, is_nil,
  mapped_open_orders, recover_after_crash_records, remote_contains_attempt,
}

-- The records of a client order from its first write-ahead record on.
abbrev pub attempt_of : String → List JournalRecord → List JournalRecord
attempt_of k [] = []
attempt_of k (r ∷ rs) =
    let later = attempt_of k rs in
    if str_eq k r.client_order_id && is_write_ahead r.event_kind
    then r ∷ filter (λ (s : JournalRecord). str_eq k s.client_order_id) rs
    else later

-- What grouping adds to an attempt that has begun or has not.
abbrev continued :
    String → Option (List JournalRecord) → List JournalRecord → Option (List JournalRecord)
continued k none rs = elim (attempt_of k rs) [ [] ↦ none | (r ∷ more) ↦ some (r ∷ more) ]
continued k (some attempt) rs =
    some (attempt ++ filter (λ (s : JournalRecord). str_eq k s.client_order_id) rs)

lookup-add_record :
    (k : String) (r : JournalRecord) (attempts : BTreeMap (List JournalRecord))
    → lookup k (add_record r attempts) ≡ (
        if str_eq k r.client_order_id
        then elim (lookup k attempts) [
          | some attempt ↦ some (attempt ++ r ∷ [])
          | none ↦ if is_write_ahead r.event_kind then some (r ∷ []) else none
        ]
        else lookup k attempts)
lookup-add_record k r attempts =
    let c = r.client_order_id in
    let own = lookup-insert c c [] attempts in
    let other = lookup-insert k c [] attempts in
    let begun = lookup-insert k c (r ∷ []) (insert c [] attempts) in
    elim (Option-cases (lookup c attempts)) [
      | inl absent ↦ elim (Bool-cases (is_write_ahead r.event_kind)) [
        | inl begins ↦ grind (arith, absent, begins, own, other, begun, eq_iff k c, eq_iff c c)
        | inr goes_on ↦ grind (arith, absent, goes_on, eq_iff k c)
      ]
      | inr (attempt, present) ↦
          grind (arith, present, eq_iff k c, lookup-insert k c (attempt ++ r ∷ []) attempts)
    ]

lookup-group_from :
    (k : String) (rs : List JournalRecord) (attempts : BTreeMap (List JournalRecord))
    → lookup k (group_from rs attempts) ≡ continued k (lookup k attempts) rs
unfolding group_from
lookup-group_from k [] attempts = elim (Option-cases (lookup k attempts)) [
  | inl absent ↦ grind (arith, absent)
  | inr (attempt, present) ↦ grind (arith, present, append-nil attempt)
]
lookup-group_from k (r ∷ rs) attempts =
    let ih = lookup-group_from k rs (add_record r attempts) in
    let one = lookup-add_record k r attempts in
    elim (Option-cases (lookup k attempts)) [
      | inl absent ↦ grind (arith, ih, one, absent)
      | inr (attempt, present) ↦ grind (
        arith,
        ih,
        one,
        present,
        append_assoc attempt (r ∷ [])
            (filter (λ (s : JournalRecord). str_eq k s.client_order_id) rs),
      )
    ]

-- The attempt of a client order: its records from its write-ahead record on, in their order.
pub lookup-group_attempts :
    (k : String) (records : List JournalRecord)
    → lookup k (group_attempts records)
      ≡ elim (attempt_of k records) [ [] ↦ none | (r ∷ more) ↦ some (r ∷ more) ]
lookup-group_attempts k records = lookup-group_from k records []

-- The exchange knows an order of the attempt, as open or as traded.
abbrev pub IsKnown : RemoteSnapshot → List JournalRecord → Type 0
IsKnown remote attempt = remote_contains_attempt remote attempt ≡ true

-- An attempt that is in flight has sent this order.
abbrev pub IsMapped : List JournalRecord → String → Type 0
IsMapped records id =
    any (λ known. str_eq id known) (all_exchange_ids (in_flight (group_attempts records))) ≡ true

-- Journal and exchange agree on what is open.
pub record IsReconciled (records : List JournalRecord) (remote : RemoteSnapshot) : Type 0 where
  pub orders : remote.open_orders_loaded ≡ true
  pub traded : remote.trades_loaded ≡ true
  pub balances : remote.balances_loaded ≡ true
  pub allowances : remote.allowances_loaded ≡ true
  pub no_gaps : remote.unresolved_gaps ≡ []
  pub attempts_known : All (IsKnown remote) (in_flight (group_attempts records))
  pub open_mapped : All (IsMapped records) (keys remote.open_order_ids)

all_known :
    (remote : RemoteSnapshot) (attempts : List (List JournalRecord))
    → (length (filter (λ a. not (remote_contains_attempt remote a)) attempts) ≡ 0)
      ↔ All (IsKnown remote) attempts
all_known remote [] = (λ h. tt, λ h. refl)
all_known remote (a ∷ rest) = elim (Bool-cases (remote_contains_attempt remote a)) [
  | inl known_ ↦ (
    λ h. (known_, (all_known remote rest).0 (grind (arith, h, known_))),
    λ h. grind (arith, known_, (all_known remote rest).1 h.1),
  )
  | inr unknown_ ↦
      (λ h. absurd (grind (arith, h, unknown_)), λ h. absurd (grind (arith, h.0, unknown_)))
]

-- An order that is open is mapped when an attempt names it.
any-mapped :
    (remote : RemoteSnapshot) (id : String) (ids : List String)
    → contains_key id remote.open_order_ids ≡ true
    → any (λ known. str_eq id known) (filter (λ i. contains_key i remote.open_order_ids) ids)
      ≡ any (λ known. str_eq id known) ids
any-mapped remote id [] h = refl
any-mapped remote id (i ∷ ids) h = elim (Bool-cases (contains_key i remote.open_order_ids)) [
  | inl kept ↦ grind (arith, kept, any-mapped remote id ids h)
  | inr dropped ↦
      let differs : str_eq id i ≡ false = grind (arith, h, dropped, eq_iff id i) in
      grind (arith, dropped, differs, any-mapped remote id ids h)
]

keys-contains : (m : BTreeMap ⊤) → All (λ id. contains_key id m ≡ true) (keys m)
keys-contains [] = tt
keys-contains ((j, v) ∷ m) = (
  grind (arith, eq_iff j j),
  All-map (λ id (h : contains_key id m ≡ true). grind (arith, h)) (keys m) (keys-contains m),
)

all-IsMapped :
    (remote : RemoteSnapshot) (records : List JournalRecord) (ids : List String)
    → All (λ id. contains_key id remote.open_order_ids ≡ true) ids
    → (any
          (λ id. not (
            any
              (λ known. str_eq id known)
              (mapped_open_orders remote (in_flight (group_attempts records)))))
          ids
        ≡ false)
      ↔ All (IsMapped records) ids
all-IsMapped remote records [] here = (λ h. tt, λ h. refl)
all-IsMapped remote records (id ∷ ids) here =
    let same =
      any-mapped remote id (all_exchange_ids (in_flight (group_attempts records))) here.0 in
    let ih = all-IsMapped remote records ids here.1 in
    (
      λ h. (grind (arith, h, same), ih.0 (grind (arith, h))),
      λ h. grind (arith, same, h.0, ih.1 h.1),
    )

is_nil_iff {ℓ} : {A : Type ℓ} (xs : List A) → (is_nil xs ≡ true) ↔ (xs ≡ [])
is_nil_iff [] = (λ h. refl, λ h. refl)
is_nil_iff (x ∷ xs) = (λ h. cc, λ h. cc)

-- Trading is unlocked after a crash exactly when the exchange's open orders, trades, balances
-- and allowances were loaded, no gap is left, the exchange knows an order of every attempt in
-- the journal that no record has ended, and every order open at the exchange belongs to such an
-- attempt.
pub recover_after_crash_records-allowed_iff :
    (records : List JournalRecord) (remote : RemoteSnapshot)
    → ((recover_after_crash_records records remote).live_unlock_allowed ≡ true)
      ↔ IsReconciled records remote
unfolding recover_after_crash_records
recover_after_crash_records-allowed_iff records remote =
    let flying = in_flight (group_attempts records) in
    let known_ = all_known remote flying in
    let mapped =
      all-IsMapped remote records (keys remote.open_order_ids)
        (keys-contains remote.open_order_ids) in
    (
      λ h. record {
        orders = grind (arith, h);
        traded = grind (arith, h);
        balances = grind (arith, h);
        allowances = grind (arith, h);
        no_gaps = (is_nil_iff remote.unresolved_gaps).0 (grind (arith, h));
        attempts_known = known_.0 (grind (arith, h));
        open_mapped = mapped.0 (grind (arith, h));
      },
      λ r. grind (
        arith,
        r.orders,
        r.traded,
        r.balances,
        r.allowances,
        r.no_gaps,
        known_.1 r.attempts_known,
        mapped.1 r.open_mapped,
      ),
    )
