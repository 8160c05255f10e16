-- ===== src/Backend/Conformance/Reads.antt =====
-- Every read of `InMemoryBackend` answers as the reference does on what the state shows.
use mathlib.Core.List.{reverse, reverse-cons, map-append}
use nexir_mvcc_core.Prelude.{
  ℕ, zero, suc, Option, none, some, List, [], ◌∷◌, map, ◌≡◌, refl, sym, arith, take, next_back,
}
use nexir_mvcc_core.Ord.{
  bytes_ord, nat_ord, pair_ord, bytes_eq, bytes_cmp_self, bytes_cmp-eq, bytes_cmp-flip,
}
use nexir_mvcc_core.BTreeMap.{BTreeMap, IsSorted, range_from}
use nexir_mvcc_core.Types.{Key, Value, Timestamp, max_ts}
use nexir_mvcc_core.Backend.InMemory.{
  InMemoryBackend, VersionKey, in_memory, last_of_key, collect_versions, timestamps_of,
  get_committed_versions, get_latest_committed, get_visible_committed, get_latest_commit_ts,
  get_intent, all_keys, keys_from, get_committed_timestamps_before,
}
use nexir_mvcc_core.Backend.Reference.{
  History, reference, map_version, to_version, latest, visible, newest_before,
}
use nexir_mvcc_core.Backend.Conformance.{
  IsValid, history, view, Query, ask, ask_committed_versions, ask_latest_committed,
  ask_visible_committed, ask_latest_commit_ts, ask_intent, ask_all_keys, ask_keys_from,
  ask_timestamps_before,
}
use nexir_mvcc_core.Backend.Conformance.Projection.{
  entries, history-behind, history-range_inclusive, history-range_exclusive, history-InRange,
}

collect_versions-range :
    (k : Key) (m : BTreeMap VersionKey (Option Value))
    → IsSorted m
    → collect_versions k (range_from (k, 0) m) ≡ map (to_version k) (history k m)
unfolding collect_versions range_from history bytes_eq
collect_versions-range k [] s = refl
collect_versions-range k (((j, t), v) ∷ m) (a, s) = ground (
  arith,
  collect_versions-range k m s,
  bytes_cmp-eq j k,
  bytes_cmp-flip j k,
  history-behind k j t m,
)

next_back-map :
    {A B : Type 0} (f : A → B) (xs : List A)
    → next_back (map f xs) ≡ elim (next_back xs) [ none ↦ none | some x ↦ some (f x) ]
next_back-map f [] = refl
next_back-map f (x ∷ xs) = ground (arith, next_back-map f xs)

last_of_key-entries :
    (k : Key) (h : History) → last_of_key k (entries k h) ≡ map_version k (next_back h)
unfolding bytes_eq
last_of_key-entries k h = ground (
  arith,
  next_back-map {B = VersionKey × Option Value} (λ (e : Timestamp × Option Value). ((k, e.0), e.1))
      h,
  bytes_cmp_self k,
)

timestamps_of-take :
    (k : Key) (n : ℕ) (h : History)
    → timestamps_of k (take n (entries k h)) ≡ take n (map (λ e. e.0) h)
unfolding timestamps_of bytes_eq
timestamps_of-take k zero h = refl
timestamps_of-take k (suc n) [] = refl
timestamps_of-take k (suc n) (e ∷ h) = ground (arith, timestamps_of-take k n h, bytes_cmp_self k)

map-reverse : {A B : Type 0} (f : A → B) (xs : List A) → map f (reverse xs) ≡ reverse (map f xs)
map-reverse f [] = refl
map-reverse f (x ∷ xs) = rw (reverse-cons, reverse-cons, map-append, map-reverse f xs)

-- `entries`, read back to timestamps, newest first
timestamps_of-reverse :
    (k : Key) (n : ℕ) (h : History)
    → timestamps_of k (take n (reverse (entries k h))) ≡ take n (reverse (map (λ e. e.0) h))
timestamps_of-reverse k n h =
    rw
      (
        sym (
            map-reverse {B = VersionKey × Option Value}
              (λ (e : Timestamp × Option Value). ((k, e.0), e.1)) h),
        sym (map-reverse (λ (e : Timestamp × Option Value). e.0) h),
      )
      (timestamps_of-take k n (reverse h))

module _ (s : InMemoryBackend) (f : IsValid s) where
  -- On a valid state, every read of `InMemoryBackend` answers as the reference does on what the
  -- state shows.
  pub ask-in_memory : (q : Query) → ask in_memory q s ≡ ask reference q (view s)
  unfolding get_committed_versions get_latest_committed get_visible_committed get_latest_commit_ts
      get_intent all_keys keys_from get_committed_timestamps_before latest visible newest_before
  ask-in_memory (ask_committed_versions key) = rw (collect_versions-range key s.committed f.sorted)
  ask-in_memory (ask_latest_committed key) = rw (
    history-range_inclusive key max_ts s.committed,
    history-InRange key s.committed f.in_range,
    last_of_key-entries,
  )
  ask-in_memory (ask_visible_committed key ts) =
      rw (history-range_inclusive key ts s.committed, last_of_key-entries)
  ask-in_memory (ask_latest_commit_ts key) = rw (
    history-range_inclusive key max_ts s.committed,
    history-InRange key s.committed f.in_range,
    last_of_key-entries,
  )
  ask-in_memory (ask_intent key) = refl
  ask-in_memory ask_all_keys = refl
  ask-in_memory (ask_keys_from none limit) = refl
  ask-in_memory (ask_keys_from (some start) limit) = refl
  ask-in_memory (ask_timestamps_before key ts limit) =
      rw (history-range_exclusive key ts s.committed, timestamps_of-reverse)
