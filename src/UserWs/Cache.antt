-- ===== src/UserWs/Cache.antt =====
-- About user_ws.rs: the cache of the account's open orders, as a set of order ids.
use mathlib.Core.Path.{fun_ext}
use polymarket_watch_rust.Base.BTreeMap.{BTreeMap, contains_key, insert, lookup-insert}
use polymarket_watch_rust.Base.Lists.{any}
use polymarket_watch_rust.Base.Tests.{
  Bool, List, String, [], ap, arith, eq_iff, false, if◌then◌else◌, not, refl, str_eq, true, ⊤, ◌&&◌,
  ◌||◌, ◌∙◌, ◌∷◌, ◌≡◌,
}
use polymarket_watch_rust.UserWs.{
  OwnOrderCacheState, UserEvent, apply_authoritative_snapshot, apply_user_event, collect_ids,
  disconnect, order_event, order_status_is_terminal, remove_id, trade_event,
}

-- Whether an order is in the cache.
abbrev pub holds : OwnOrderCacheState → String → Bool
holds s id = contains_key id s.open_order_ids

contains_key-insert :
    (id k : String) (m : BTreeMap ⊤)
    → contains_key id (insert k tt m) ≡ (str_eq id k || contains_key id m)
contains_key-insert id k m = grind (arith, lookup-insert id k tt m)

contains_key-remove_id :
    (id k : String) (m : BTreeMap ⊤)
    → contains_key id (remove_id k m) ≡ (not (str_eq id k) && contains_key id m)
contains_key-remove_id id k [] = ground arith
contains_key-remove_id id k ((j, v) ∷ m) =
    ground (arith, eq_iff id k, eq_iff k j, eq_iff id j, contains_key-remove_id id k m)

abbrev pub names : String → List String → Bool
names id ids = any (λ k. str_eq id k) ids

contains_key-collect_ids :
    (id : String) (ids : List String) (m : BTreeMap ⊤)
    → contains_key id (collect_ids ids m) ≡ (names id ids || contains_key id m)
unfolding collect_ids
contains_key-collect_ids id [] m = refl
contains_key-collect_ids id (k ∷ ks) m =
    grind (arith, contains_key-collect_ids id ks (insert k tt m), contains_key-insert id k m)

-- What the cache stands for: a set of order ids, and whether it is complete.
pub record View : Type 0 where
  pub is_certain : Bool
  pub open_ids : String → Bool

abbrev pub view : OwnOrderCacheState → View
view s = record { is_certain = s.certain; open_ids = holds s }

-- What an event does to the set.
abbrev pub follow_event : UserEvent → View → View
follow_event (order_event _ order_id _ _ _ _ _ status _) v =
    if order_status_is_terminal status
    then record v { open_ids = λ id. not (str_eq id order_id) && v.open_ids id }
    else if v.is_certain
    then record v { open_ids = λ id. str_eq id order_id || v.open_ids id }
    else v
follow_event (trade_event _ _ _ _ _ _ _ _ _) v = v
follow_event disconnect v = record v { is_certain = false }

-- What the feed of user_ws.rs and the engine do to the cache, one after another.
pub data CacheStep : Type 0 where
  observed : UserEvent → CacheStep
  resynchronised : List String → CacheStep

unfoldable pub apply_all : List CacheStep → OwnOrderCacheState → OwnOrderCacheState
apply_all [] s = s
apply_all (observed e ∷ rest) s = apply_all rest (apply_user_event e s)
apply_all (resynchronised ids ∷ rest) s = apply_all rest (apply_authoritative_snapshot ids s)

abbrev pub follow_all : List CacheStep → View → View
follow_all [] v = v
follow_all (observed e ∷ rest) v = follow_all rest (follow_event e v)
follow_all (resynchronised ids ∷ rest) v =
    follow_all rest (record { is_certain = true; open_ids = λ id. names id ids })

view-insert :
    (k : String) (s : OwnOrderCacheState)
    → view (record s { open_order_ids = insert k tt s.open_order_ids })
      ≡ record (view s) { open_ids = λ id. str_eq id k || holds s id }
view-insert k s =
    ap (λ (f : String → Bool). record { is_certain = s.certain; open_ids = f })
      (fun_ext λ id. contains_key-insert id k s.open_order_ids)

view-remove_id :
    (k : String) (s : OwnOrderCacheState)
    → view (record s { open_order_ids = remove_id k s.open_order_ids })
      ≡ record (view s) { open_ids = λ id. not (str_eq id k) && holds s id }
view-remove_id k s =
    ap (λ (f : String → Bool). record { is_certain = s.certain; open_ids = f })
      (fun_ext λ id. contains_key-remove_id id k s.open_order_ids)

view-apply_user_event :
    (e : UserEvent) (s : OwnOrderCacheState) → view (apply_user_event e s) ≡ follow_event e (view s)
unfolding apply_user_event
view-apply_user_event (order_event _ order_id _ _ _ _ _ status _) s =
    go (order_status_is_terminal status) s.certain
  where
    go :
        (ended sure : Bool)
        → view (
            if ended
            then record s { open_order_ids = remove_id order_id s.open_order_ids }
            else if sure
            then record s { open_order_ids = insert order_id tt s.open_order_ids }
            else s)
          ≡ (if ended
              then record (view s) { open_ids = λ id. not (str_eq id order_id) && holds s id }
              else if sure
              then record (view s) { open_ids = λ id. str_eq id order_id || holds s id }
              else view s)
    go true sure = view-remove_id order_id s
    go false true = view-insert order_id s
    go false false = refl
view-apply_user_event (trade_event _ _ _ _ _ _ _ _ _) s = refl
view-apply_user_event disconnect s = refl

view-snapshot :
    (ids : List String) (s : OwnOrderCacheState)
    → view (apply_authoritative_snapshot ids s)
      ≡ record { is_certain = true; open_ids = λ id. names id ids }
unfolding apply_authoritative_snapshot
view-snapshot ids s =
    ap (λ (f : String → Bool). record { is_certain = true; open_ids = f })
      (fun_ext λ id. grind (arith, contains_key-collect_ids id ids []))

-- The order cache, of which only membership is looked at, is a set of order ids: whatever
-- sequence of events and snapshots it is given, a snapshot replaces the set and makes it
-- certain, an order that is terminal is removed, one that is not is added while the set is
-- certain, trades change nothing, and a disconnection makes the set uncertain.
pub apply_all-view :
    (steps : List CacheStep) (s : OwnOrderCacheState)
    → view (apply_all steps s) ≡ follow_all steps (view s)
unfolding apply_all
apply_all-view [] s = refl
apply_all-view (observed e ∷ rest) s =
    apply_all-view rest (apply_user_event e s) ∙ ap (follow_all rest) (view-apply_user_event e s)
apply_all-view (resynchronised ids ∷ rest) s =
    apply_all-view rest (apply_authoritative_snapshot ids s)
    ∙ ap (follow_all rest) (view-snapshot ids s)
