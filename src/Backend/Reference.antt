-- ===== src/Backend/Reference.antt =====
-- The contract of the trait `Backend` (src/backend.rs), as the backend that keeps for each key its
-- intent and its history, the versions in ascending order of `commit_ts`, and the set of the keys
-- that have either. Every method answers what its comment in the trait promises, and none fails.
pub mod Effects
pub mod WellFormed
pub mod Removals
pub mod Histories
use mathlib.Core.List.{reverse}
use nexir_mvcc_core.Prelude.{
  ℕ, Bool, not, ◌&&◌, Option, none, some, List, [], map, String, ◌==◌, leb, ltb, take, next_back,
  is_empty, is_none, filter_by, some_and, for_each, if◌then◌else◌,
}
use nexir_mvcc_core.Ord.{bytes_ord, nat_ord, bytes_eq}
use nexir_mvcc_core.BTreeMap
use nexir_mvcc_core.BTreeMap.{BTreeMap, range_from}
use nexir_mvcc_core.Types.{Timestamp, TxnId, Key, Value, Intent, CommittedVersion}
use nexir_mvcc_core.Exec.{Result, Exec, ok, err}
use nexir_mvcc_core.Backend.{Backend, IntentName}
use nexir_mvcc_core.Backend.InMemory.{commit_ts_of, starts_with, unwrap_or}

abbrev pub History : Type 0
History = BTreeMap Timestamp (Option Value)

pub record View : Type 0 where
  pub intent_of : Key → Option Intent
  pub history_of : Key → History
  pub keys : BTreeMap Key (Unit {0})

abbrev pub empty : View
empty = record { intent_of = λ _. none; history_of = λ _. []; keys = [] }

-- whether the found intent is the one that a transaction wrote at its start timestamp
abbrev pub is_intent_of : TxnId → Timestamp → Option Intent → Bool
is_intent_of txn_id start_ts found =
    some_and found (λ i. i.txn_id == txn_id && i.start_ts == start_ts)

-- a function, changed at one key
abbrev pub update : {A : Type 0} → Key → A → (Key → A) → Key → A
update key a f k = if bytes_eq key k then a else f k

-- an entry of the history of `key`, as a version
abbrev pub to_version : Key → Timestamp × Option Value → CommittedVersion
to_version key (ts, value) = record { key = key; commit_ts = ts; value = value }

abbrev pub map_version : Key → Option (Timestamp × Option Value) → Option CommittedVersion
map_version key none = none
map_version key (some e) = some (to_version key e)

-- the newest entry at or before `ts`
unfoldable pub visible : Timestamp → History → Option (Timestamp × Option Value)
visible ts h = next_back (filter_by (λ e. leb e.0 ts) h)

-- the newest entry
unfoldable pub latest : History → Option (Timestamp × Option Value)
latest h = next_back h

-- the `limit` newest timestamps before `ts`, newest first
unfoldable pub newest_before : Timestamp → ℕ → History → List Timestamp
newest_before ts limit h = take limit (reverse (map (λ e. e.0) (filter_by (λ e. ltb e.0 ts) h)))

-- a key stays in the key set while it has an intent or a version
unfoldable pub release_key : Key → View → View
release_key key w =
    if is_none (w.intent_of key) && is_empty (w.history_of key)
    then record w { keys = BTreeMap.remove key w.keys }
    else w

unfoldable pub store_intent : Intent → View → View
store_intent i w = record w {
  intent_of = update i.key (some i) w.intent_of;
  keys = BTreeMap.insert i.key tt w.keys;
}

unfoldable pub drop_intent : IntentName → View → View
drop_intent (key, txn_id, start_ts) w =
    if is_intent_of txn_id start_ts (w.intent_of key)
    then release_key key (record w { intent_of = update key none w.intent_of })
    else w

unfoldable pub store_version : CommittedVersion → View → View
store_version v w = record w {
  history_of = update v.key (BTreeMap.insert v.commit_ts v.value (w.history_of v.key)) w.history_of;
  keys = BTreeMap.insert v.key tt w.keys;
}

unfoldable pub drop_version : Key → Timestamp → View → View
drop_version key ts w = record w {
  history_of = update key (BTreeMap.remove ts (w.history_of key)) w.history_of;
}

abbrev pub keys_at : Option Key → ℕ → BTreeMap Key (Unit {0}) → List Key
keys_at none limit keys = take limit (map (λ e. e.0) keys)
keys_at (some start) limit keys = take limit (map (λ e. e.0) (range_from start keys))

-- committed keys with the prefix, from the start key on; a key with an intent alone is left out
unfoldable pub prefix_keys : Key → Option Key → ℕ → View → Result String (List Key)
prefix_keys prefix start limit w =
    if limit == 0
    then ok []
    else if is_empty prefix
    then err "Prefix cannot be empty"
    else if some_and start (λ from. not (starts_with from prefix))
    then err "Start cursor must start with the prefix"
    else ok (
        take limit (
          filter_by (λ k. starts_with k prefix && not (is_empty (w.history_of k)))
            (map (λ e. e.0) (range_from (unwrap_or prefix start) w.keys))))

abbrev pub reference : Backend View
reference = record {
  get_committed_versions = λ key w. ok (map (to_version key) (w.history_of key));
  get_latest_committed = λ key w. ok (map_version key (latest (w.history_of key)));
  get_visible_committed = λ key ts w. ok (map_version key (visible ts (w.history_of key)));
  get_latest_commit_ts = λ key w. ok (commit_ts_of (map_version key (latest (w.history_of key))));
  get_intent = λ key w. ok (w.intent_of key);
  put_intent = λ i w. (ok tt, store_intent i w);
  remove_intent = λ key txn_id start_ts w.
      (ok (is_intent_of txn_id start_ts (w.intent_of key)), drop_intent (key, txn_id, start_ts) w);
  put_committed = λ v w. (ok tt, store_version v w);
  put_committed_batch = λ vs w. (ok tt, for_each store_version vs w);
  remove_committed_version = λ key ts w. (ok tt, release_key key (drop_version key ts w));
  all_keys = λ w. ok (map (λ e. e.0) w.keys);
  put_intents_batch = λ is w. (ok tt, for_each store_intent is w);
  commit_intents_batch =
      λ vs names w. (ok tt, for_each drop_intent names (for_each store_version vs w));
  remove_intents_batch = λ names w. (ok tt, for_each drop_intent names w);
  keys_from = λ start limit w. ok (keys_at start limit w.keys);
  keys_from_prefix = λ prefix start limit w. prefix_keys prefix start limit w;
  get_committed_timestamps_before =
      λ key ts limit w. ok (newest_before ts limit (w.history_of key));
  collapse_tombstone = λ key ts older w.
      (ok tt, release_key key (for_each (drop_version key) older (drop_version key ts w)));
}
