-- ===== src/Backend/Reference/WellFormed.antt =====
-- The invariant of the reference backend, and that its writes keep it: histories in ascending order,
-- each intent stored under its own key, and a key set that holds exactly the keys in use.
use nexir_mvcc_core.Prelude.{
  Bool, not, ◌&&◌, none, some, List, [], ◌∷◌, ◌≡◌, refl, arith, for_each, is_none, inl, inr,
  Bool-cases, is_empty, if◌then◌else◌,
}
use nexir_mvcc_core.Ord.{nat_ord, bytes_ord, bytes_eq_iff, same-bytes_eq}
use nexir_mvcc_core.BTreeMap
use nexir_mvcc_core.BTreeMap.{IsSorted, insert}
use nexir_mvcc_core.BTreeMap.Laws.{
  get-insert, get-remove, is_empty-insert, insert-IsSorted, remove-IsSorted,
}
use nexir_mvcc_core.Types.{Key, Intent, CommittedVersion}
use nexir_mvcc_core.Backend.{IntentName}
use nexir_mvcc_core.Backend.Reference.{
  is_intent_of, View, empty, update, release_key, store_intent, drop_intent, store_version,
}

-- whether a key has an intent or a version
abbrev pub in_use : View → Key → Bool
in_use w k = not (is_none (w.intent_of k) && is_empty (w.history_of k))

pub record IsWellFormed (w : View) : Type 0 where
  pub sorted : (k : Key) → IsSorted (w.history_of k)
  pub keyed : (k : Key) (i : Intent) → w.intent_of k ≡ some i → i.key ≡ k
  pub tracked : (k : Key) → BTreeMap.get k w.keys ≡ (if in_use w k then some tt else none)
  pub keys_sorted : IsSorted w.keys

pub empty-IsWellFormed : IsWellFormed empty
empty-IsWellFormed = record {
  sorted = λ k. tt;
  keyed = λ k i h. cc;
  tracked = λ k. unfold BTreeMap.get in refl;
  keys_sorted = tt;
}

module _ (w : View) (f : IsWellFormed w) where
  pub store_version-IsWellFormed : (v : CommittedVersion) → IsWellFormed (store_version v w)
  unfolding store_version
  store_version-IsWellFormed v = record {
    sorted = λ k. ground (
      arith,
      f.sorted k,
      f.sorted v.key,
      insert-IsSorted v.commit_ts v.value (w.history_of v.key),
    );
    keyed = f.keyed;
    tracked = λ k. ground (
      arith,
      f.tracked k,
      get-insert v.key k tt w.keys,
      same-bytes_eq v.key k,
      is_empty-insert v.commit_ts v.value (w.history_of v.key),
    );
    keys_sorted = insert-IsSorted v.key tt w.keys f.keys_sorted;
  }

  pub store_intent-IsWellFormed : (i : Intent) → IsWellFormed (store_intent i w)
  unfolding store_intent
  store_intent-IsWellFormed i = record {
    sorted = f.sorted;
    keyed = λ k j h. ground (arith, f.keyed k j, bytes_eq_iff i.key k);
    tracked = λ k. ground (arith, f.tracked k, get-insert i.key k tt w.keys, same-bytes_eq i.key k);
    keys_sorted = insert-IsSorted i.key tt w.keys f.keys_sorted;
  }

  -- the removal of an intent, with the release of its key
  release-IsWellFormed :
      (j : Key) → IsWellFormed (release_key j (record w { intent_of = update j none w.intent_of }))
  unfolding release_key
  release-IsWellFormed j = record {
    sorted = λ k. ground (arith, f.sorted k);
    keyed = λ k i h. ground (arith, f.keyed k i);
    tracked = λ k. ground (
      arith,
      f.tracked k,
      get-remove j k w.keys,
      same-bytes_eq j k,
      bytes_eq_iff j k,
      bytes_eq_iff j j,
    );
    keys_sorted = ground (arith, f.keys_sorted, remove-IsSorted j w.keys f.keys_sorted);
  }

  pub drop_intent-IsWellFormed : (n : IntentName) → IsWellFormed (drop_intent n w)
  unfolding drop_intent
  drop_intent-IsWellFormed (j, t, s) = elim (Bool-cases (is_intent_of t s (w.intent_of j))) [
    | inl e ↦ rw (e, drop_intent) (release-IsWellFormed j)
    | inr e ↦ rw (e, drop_intent) f
  ]

-- a loop of writes that keep the invariant keeps it
pub for_each-IsWellFormed :
    {A : Type 0} (body : A → View → View)
    → ((w : View) → IsWellFormed w → (a : A) → IsWellFormed (body a w))
    → (xs : List A) (w : View) → IsWellFormed w
    → IsWellFormed (for_each body xs w)
for_each-IsWellFormed body step [] w f = f
for_each-IsWellFormed body step (x ∷ xs) w f =
    for_each-IsWellFormed body step xs (body x w) (step w f x)
