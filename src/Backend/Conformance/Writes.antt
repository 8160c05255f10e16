-- ===== src/Backend/Conformance/Writes.antt =====
-- Every write of `InMemoryBackend` changes what the state shows as the reference's write does, and
-- keeps the state valid.
use nexir_mvcc_core.Prelude.{
  Option, none, List, [], ◌∷◌, map, ◌≡◌, ◌≤◌, refl, fun_ext, arith, is_empty, inl, inr, Bool-cases,
}
use nexir_mvcc_core.Ord.{bytes_ord, nat_ord, pair_ord, bytes_eq_iff, same-bytes_eq}
use nexir_mvcc_core.BTreeMap
use nexir_mvcc_core.BTreeMap.{BTreeMap, IsSorted}
use nexir_mvcc_core.BTreeMap.Laws.{
  get-insert, get-remove, insert-IsSorted, remove-IsSorted, All-insert, All-filter_by,
}
use nexir_mvcc_core.Types.{Key, Value, Timestamp, Intent, CommittedVersion, max_ts}
use nexir_mvcc_core.Backend.{IntentName}
use nexir_mvcc_core.Backend.InMemory
use nexir_mvcc_core.Backend.InMemory.{
  InMemoryBackend, VersionKey, in_memory, is_named, maybe_remove_from_keys,
}
use nexir_mvcc_core.Backend.Reference
use nexir_mvcc_core.Backend.Reference.{View, reference, release_key, update}
use nexir_mvcc_core.Backend.Conformance.{IsValid, history, view}
use nexir_mvcc_core.Backend.Conformance.Projection.{
  history-insert, history-remove, history-range_inclusive, history-InRange,
}

view_ext :
    (v w : View)
    → ((k : Key) → v.intent_of k ≡ w.intent_of k)
    → ((k : Key) → v.history_of k ≡ w.history_of k)
    → v.keys ≡ w.keys
    → v ≡ w
view_ext v w p q r = cc (fun_ext p, fun_ext q)

is_empty-map : {A B : Type 0} (g : A → B) (xs : List A) → is_empty (map g xs) ≡ is_empty xs
is_empty-map g [] = refl
is_empty-map g (x ∷ xs) = refl

module _ (s : InMemoryBackend) where
  pub view-store_intent :
      (i : Intent) → view (InMemory.store_intent i s) ≡ Reference.store_intent i (view s)
  unfolding InMemory.store_intent Reference.store_intent
  view-store_intent i =
      view_ext (view (InMemory.store_intent i s)) (Reference.store_intent i (view s))
        (λ k. ground (arith, get-insert i.key k i s.intents, same-bytes_eq i.key k)) (λ k. refl)
        refl

  pub store_intent-IsValid : (i : Intent) → IsValid s → IsValid (InMemory.store_intent i s)
  unfolding InMemory.store_intent
  store_intent-IsValid i f = record { sorted = f.sorted; in_range = f.in_range }

  module _ (f : IsValid s) where
    pub view-store_version :
        (v : CommittedVersion)
        → view (InMemory.store_version v s) ≡ Reference.store_version v (view s)
    unfolding InMemory.store_version Reference.store_version
    view-store_version v =
        view_ext (view (InMemory.store_version v s)) (Reference.store_version v (view s))
          (λ k. refl)
          (λ k. ground (
            arith,
            history-insert k v.key v.commit_ts v.value s.committed f.sorted,
            bytes_eq_iff v.key k,
          ))
          refl

    pub store_version-IsValid :
        (v : CommittedVersion) → v.commit_ts ≤ max_ts → IsValid (InMemory.store_version v s)
    unfolding InMemory.store_version
    store_version-IsValid v h = record {
      sorted = insert-IsSorted (v.key, v.commit_ts) v.value s.committed f.sorted;
      in_range =
          All-insert (λ (e : VersionKey × Option Value). e.0.1 ≤ max_ts) (v.key, v.commit_ts)
            v.value s.committed h f.in_range;
    }

    pub view-drop_version :
        (k : Key) (t : Timestamp)
        → view (InMemory.drop_version k t s) ≡ Reference.drop_version k t (view s)
    unfolding InMemory.drop_version Reference.drop_version
    view-drop_version k t =
        view_ext (view (InMemory.drop_version k t s)) (Reference.drop_version k t (view s))
          (λ j. refl) (λ j. ground (arith, history-remove j k t s.committed, bytes_eq_iff k j)) refl

    pub drop_version-IsValid : (k : Key) (t : Timestamp) → IsValid (InMemory.drop_version k t s)
    unfolding InMemory.drop_version BTreeMap.remove
    drop_version-IsValid k t = record {
      sorted = unfold BTreeMap.remove in remove-IsSorted (k, t) s.committed f.sorted;
      in_range =
          All-filter_by (λ (e : VersionKey × Option Value). e.0.1 ≤ max_ts) _ s.committed
            f.in_range;
    }

    -- the range that `maybe_remove_from_keys` looks at is empty when the key has no version
    is_empty-range :
        (k : Key)
        → is_empty (BTreeMap.range_inclusive (k, 0) (k, max_ts) s.committed)
          ≡ is_empty (history k s.committed)
    is_empty-range k =
        rw (history-range_inclusive k max_ts s.committed, history-InRange k s.committed f.in_range)
          (is_empty-map {B = VersionKey × Option Value}
            (λ (e : Timestamp × Option Value). ((k, e.0), e.1)) (history k s.committed))

    pub view-maybe_remove_from_keys :
        (k : Key) → view (maybe_remove_from_keys k s) ≡ release_key k (view s)
    unfolding maybe_remove_from_keys release_key
    view-maybe_remove_from_keys k = ground (arith, is_empty-range k)

    pub maybe_remove_from_keys-IsValid : (k : Key) → IsValid (maybe_remove_from_keys k s)
    unfolding maybe_remove_from_keys
    maybe_remove_from_keys-IsValid k = record {
      sorted = ground (arith, f.sorted);
      in_range = ground (arith, f.in_range);
    }

module _ (s : InMemoryBackend) (f : IsValid s) where
  -- the state without the intent of `k`
  abbrev without : Key → InMemoryBackend
  without k = record s { intents = BTreeMap.remove k s.intents }

  without-IsValid : (k : Key) → IsValid (without k)
  without-IsValid k = record { sorted = f.sorted; in_range = f.in_range }

  view-without :
      (k : Key)
      → view (without k) ≡ record (view s) { intent_of = update k none (view s).intent_of }
  view-without k =
      view_ext (view (without k)) (record (view s) { intent_of = update k none (view s).intent_of })
        (λ j. ground (arith, get-remove k j s.intents, same-bytes_eq k j)) (λ j. refl) refl

  pub view-drop_intent :
      (n : IntentName) → view (InMemory.drop_intent n s) ≡ Reference.drop_intent n (view s)
  unfolding InMemory.drop_intent Reference.drop_intent
  view-drop_intent (k, t, ts) = elim (Bool-cases (is_named t ts (BTreeMap.get k s.intents))) [
    | inl e ↦ rw (e, view-maybe_remove_from_keys (without k) (without-IsValid k) k, view-without k)
    | inr e ↦ rw e
  ]

  pub drop_intent-IsValid : (n : IntentName) → IsValid (InMemory.drop_intent n s)
  unfolding InMemory.drop_intent
  drop_intent-IsValid (k, t, ts) = elim (Bool-cases (is_named t ts (BTreeMap.get k s.intents))) [
    | inl e ↦ rw (e) (maybe_remove_from_keys-IsValid (without k) (without-IsValid k) k)
    | inr e ↦ rw (e) f
  ]
