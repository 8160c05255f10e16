-- ===== src/Backend/InMemory.antt =====
-- src/backend.rs: `InMemoryBackend` and its implementation of the trait.
use mathlib.Core.List.{reverse}
use nexir_mvcc_core.Prelude.{
  ℕ, Bool, true, false, not, ◌&&◌, Option, none, some, List, [], ◌∷◌, ◌++◌, map, String, ◌==◌,
  length, take, next_back, is_empty, is_none, some_and, for_each, if◌then◌else◌,
}
use nexir_mvcc_core.Ord.{bytes_ord, nat_ord, pair_ord, bytes_eq}
use nexir_mvcc_core.BTreeMap
use nexir_mvcc_core.BTreeMap.{BTreeMap, range_from, range_inclusive, range_exclusive}
use nexir_mvcc_core.Types.{Timestamp, TxnId, Key, Value, Intent, CommittedVersion, max_ts}
use nexir_mvcc_core.Exec.{Result, Exec, ok, err}
use nexir_mvcc_core.Backend.{Backend, IntentName}

abbrev pub VersionKey : Type 0
VersionKey = Key × Timestamp

pub record InMemoryBackend : Type 0 where
  pub committed : BTreeMap VersionKey (Option Value)
  pub intents : BTreeMap Key Intent
  pub all_keys_set : BTreeMap Key (Unit {0})

-- `InMemoryBackend::new`
abbrev pub new : InMemoryBackend
new = record { committed = []; intents = []; all_keys_set = [] }

abbrev pub to_version : VersionKey × Option Value → CommittedVersion
to_version ((k, ts), value) = record { key = k; commit_ts = ts; value = value }

-- the loop of `get_committed_versions`, which breaks at the first other key
unfoldable pub collect_versions : Key → BTreeMap VersionKey (Option Value) → List CommittedVersion
collect_versions key [] = []
collect_versions key (((k, ts), value) ∷ rest) =
    let more = collect_versions key rest in
    if bytes_eq k key then to_version ((k, ts), value) ∷ more else []

unfoldable pub get_committed_versions :
    Key → InMemoryBackend → Result String (List CommittedVersion)
get_committed_versions key s = ok (collect_versions key (range_from (key, 0) s.committed))

-- the newest entry of `range`, if it is one of `key`
abbrev pub last_of_key : Key → BTreeMap VersionKey (Option Value) → Option CommittedVersion
last_of_key key range = elim (next_back range) [
  | none ↦ none
  | some e ↦ if bytes_eq e.0.0 key then some (to_version e) else none
]

unfoldable pub get_latest_committed :
    Key → InMemoryBackend → Result String (Option CommittedVersion)
get_latest_committed key s =
    ok (last_of_key key (range_inclusive (key, 0) (key, max_ts) s.committed))

unfoldable pub get_visible_committed :
    Key → Timestamp → InMemoryBackend → Result String (Option CommittedVersion)
get_visible_committed key read_ts s =
    ok (last_of_key key (range_inclusive (key, 0) (key, read_ts) s.committed))

abbrev pub commit_ts_of : Option CommittedVersion → Option Timestamp
commit_ts_of none = none
commit_ts_of (some v) = some v.commit_ts

unfoldable pub get_latest_commit_ts : Key → InMemoryBackend → Result String (Option Timestamp)
get_latest_commit_ts key s =
    ok (commit_ts_of (last_of_key key (range_inclusive (key, 0) (key, max_ts) s.committed)))

unfoldable pub get_intent : Key → InMemoryBackend → Result String (Option Intent)
get_intent key s = ok (BTreeMap.get key s.intents)

unfoldable pub maybe_remove_from_keys : Key → InMemoryBackend → InMemoryBackend
maybe_remove_from_keys key s =
    if is_none (BTreeMap.get key s.intents)
    then (if is_empty (range_inclusive (key, 0) (key, max_ts) s.committed)
        then record s { all_keys_set = BTreeMap.remove key s.all_keys_set }
        else s)
    else s

-- the body of `put_intent` and of the loop of `put_intents_batch`
unfoldable pub store_intent : Intent → InMemoryBackend → InMemoryBackend
store_intent intent s = record s {
  all_keys_set = BTreeMap.insert intent.key tt s.all_keys_set;
  intents = BTreeMap.insert intent.key intent s.intents;
}

unfoldable pub put_intent : Intent → Exec InMemoryBackend String (Unit {0})
put_intent intent s = (ok tt, store_intent intent s)

-- `if let Some(intent) = … && intent.txn_id == txn_id && intent.start_ts == start_ts`
abbrev pub is_named : TxnId → Timestamp → Option Intent → Bool
is_named txn_id start_ts found = some_and found (λ i. i.txn_id == txn_id && i.start_ts == start_ts)

-- the body of the removal loops of `commit_intents_batch` and `remove_intents_batch`
unfoldable pub drop_intent : IntentName → InMemoryBackend → InMemoryBackend
drop_intent (key, txn_id, start_ts) s =
    if is_named txn_id start_ts (BTreeMap.get key s.intents)
    then maybe_remove_from_keys key (record s { intents = BTreeMap.remove key s.intents })
    else s

unfoldable pub remove_intent : Key → TxnId → Timestamp → Exec InMemoryBackend String Bool
remove_intent key txn_id start_ts s =
    if is_named txn_id start_ts (BTreeMap.get key s.intents)
    then (
      ok true,
      maybe_remove_from_keys key (record s { intents = BTreeMap.remove key s.intents }),
    )
    else (ok false, s)

-- the body of `put_committed` and of the loops that write versions
unfoldable pub store_version : CommittedVersion → InMemoryBackend → InMemoryBackend
store_version version s = record s {
  all_keys_set = BTreeMap.insert version.key tt s.all_keys_set;
  committed = BTreeMap.insert (version.key, version.commit_ts) version.value s.committed;
}

unfoldable pub put_committed : CommittedVersion → Exec InMemoryBackend String (Unit {0})
put_committed version s = (ok tt, store_version version s)

unfoldable pub put_committed_batch : List CommittedVersion → Exec InMemoryBackend String (Unit {0})
put_committed_batch versions s = (ok tt, for_each store_version versions s)

unfoldable pub remove_committed_version : Key → Timestamp → Exec InMemoryBackend String (Unit {0})
remove_committed_version key commit_ts s = (
  ok tt,
  maybe_remove_from_keys key
      (record s { committed = BTreeMap.remove (key, commit_ts) s.committed }),
)

unfoldable pub all_keys : InMemoryBackend → Result String (List Key)
all_keys s = ok (map (λ e. e.0) s.all_keys_set)

unfoldable pub put_intents_batch : List Intent → Exec InMemoryBackend String (Unit {0})
put_intents_batch intents s = (ok tt, for_each store_intent intents s)

unfoldable pub commit_intents_batch :
    List CommittedVersion → List IntentName → Exec InMemoryBackend String (Unit {0})
commit_intents_batch commits removed_intents s =
    (ok tt, for_each drop_intent removed_intents (for_each store_version commits s))

unfoldable pub remove_intents_batch : List IntentName → Exec InMemoryBackend String (Unit {0})
remove_intents_batch intents s = (ok tt, for_each drop_intent intents s)

unfoldable pub keys_from : Option Key → ℕ → InMemoryBackend → Result String (List Key)
keys_from none limit s = ok (take limit (map (λ e. e.0) s.all_keys_set))
keys_from (some start) limit s = ok (take limit (map (λ e. e.0) (range_from start s.all_keys_set)))

-- `bytes.starts_with(prefix)`
unfoldable pub starts_with : Key → Key → Bool
starts_with bytes [] = true
starts_with [] (p ∷ ps) = false
starts_with (x ∷ bytes) (p ∷ ps) = x == p && starts_with bytes ps

-- the loop of `keys_from_prefix`: stops at the first key without the prefix, or at the limit
unfoldable pub scan_prefix : Key → ℕ → List Key → BTreeMap VersionKey (Option Value) → List Key
scan_prefix prefix limit result [] = result
scan_prefix prefix limit result (((k, ts), value) ∷ rest) =
    let repeated = some_and (next_back result) (λ last. bytes_eq last k) in
    let grown = if repeated then result else result ++ k ∷ [] in
    let more = scan_prefix prefix limit grown rest in
    if not (starts_with k prefix)
    then result
    else if not repeated && length grown == limit
    then grown
    else more

-- the result of `start.unwrap_or(prefix)`
abbrev pub unwrap_or : Key → Option Key → Key
unwrap_or prefix none = prefix
unwrap_or prefix (some start) = start

unfoldable pub keys_from_prefix : Key → Option Key → ℕ → InMemoryBackend → Result String (List Key)
unfolding starts_with scan_prefix
keys_from_prefix prefix start limit s =
    if limit == 0
    then ok []
    else if is_empty prefix
    then err "Prefix cannot be empty"
    else if some_and start (λ from. not (starts_with from prefix))
    then err "Start cursor must start with the prefix"
    else ok (scan_prefix prefix limit [] (range_from (unwrap_or prefix start, 0) s.committed))

-- the loop of `get_committed_timestamps_before`, over the entries newest first
unfoldable pub timestamps_of : Key → BTreeMap VersionKey (Option Value) → List Timestamp
timestamps_of key [] = []
timestamps_of key (((k, ts), value) ∷ rest) =
    let more = timestamps_of key rest in if bytes_eq k key then ts ∷ more else more

unfoldable pub get_committed_timestamps_before :
    Key → Timestamp → ℕ → InMemoryBackend → Result String (List Timestamp)
get_committed_timestamps_before key before_ts limit s = ok (
    timestamps_of key
      (take limit (reverse (range_exclusive (key, 0) (key, before_ts) s.committed))))

-- one `self.committed.remove(…)` of `collapse_tombstone`
unfoldable pub drop_version : Key → Timestamp → InMemoryBackend → InMemoryBackend
drop_version key ts s = record s { committed = BTreeMap.remove (key, ts) s.committed }

unfoldable pub collapse_tombstone :
    Key → Timestamp → List Timestamp → Exec InMemoryBackend String (Unit {0})
unfolding drop_version
collapse_tombstone key tombstone_ts older_ts s = (
  ok tt,
  maybe_remove_from_keys key
      (for_each (drop_version key) older_ts (drop_version key tombstone_ts s)),
)

abbrev pub in_memory : Backend InMemoryBackend
in_memory = record {
  get_committed_versions = get_committed_versions;
  get_latest_committed = get_latest_committed;
  get_visible_committed = get_visible_committed;
  get_latest_commit_ts = get_latest_commit_ts;
  get_intent = get_intent;
  put_intent = put_intent;
  remove_intent = remove_intent;
  put_committed = put_committed;
  put_committed_batch = put_committed_batch;
  remove_committed_version = remove_committed_version;
  all_keys = all_keys;
  put_intents_batch = put_intents_batch;
  commit_intents_batch = commit_intents_batch;
  remove_intents_batch = remove_intents_batch;
  keys_from = keys_from;
  keys_from_prefix = keys_from_prefix;
  get_committed_timestamps_before = get_committed_timestamps_before;
  collapse_tombstone = collapse_tombstone;
}
