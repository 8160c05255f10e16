-- ===== src/Backend/Reference/Removals.antt =====
-- Removals of versions in the reference backend: while one key's versions are being removed, only
-- that key may be in the key set without need, until it is released.
use nexir_mvcc_core.Prelude.{
  true, false, none, some, List, [], ◌∷◌, ◌≡◌, refl, arith, for_each, is_empty, if◌then◌else◌,
}
use nexir_mvcc_core.Ord.{nat_ord, bytes_ord, bytes_eq, bytes_eq_iff, same-bytes_eq}
use nexir_mvcc_core.BTreeMap
use nexir_mvcc_core.BTreeMap.{IsSorted, remove}
use nexir_mvcc_core.BTreeMap.Laws.{get-remove, remove-IsSorted}
use nexir_mvcc_core.Types.{Key, Intent, Timestamp}
use nexir_mvcc_core.Backend.Reference.{View, History, release_key, drop_version}
use nexir_mvcc_core.Backend.Reference.WellFormed.{IsWellFormed, in_use}

record IsReleasable (key : Key) (w : View) : Type 0 where
  sorted : (k : Key) → IsSorted (w.history_of k)
  keyed : (k : Key) (i : Intent) → w.intent_of k ≡ some i → i.key ≡ k
  tracked :
      (k : Key)
      → bytes_eq key k ≡ false
      → BTreeMap.get k w.keys ≡ (if in_use w k then some tt else none)
  held : in_use w key ≡ true → BTreeMap.get key w.keys ≡ some tt
  keys_sorted : IsSorted w.keys

IsWellFormed-IsReleasable : (key : Key) (w : View) → IsWellFormed w → IsReleasable key w
IsWellFormed-IsReleasable key w f = record {
  sorted = f.sorted;
  keyed = f.keyed;
  tracked = λ k q. f.tracked k;
  held = λ q. ground (arith, f.tracked key);
  keys_sorted = f.keys_sorted;
}

is_empty-remove : (t : Timestamp) (h : History) → is_empty h ≡ true → is_empty (remove t h) ≡ true
unfolding remove
is_empty-remove t [] q = refl
is_empty-remove t (x ∷ h) q = cc

drop_version-IsReleasable :
    (key : Key) (t : Timestamp) (w : View)
    → IsReleasable key w
    → IsReleasable key (drop_version key t w)
unfolding drop_version
drop_version-IsReleasable key t w f = record {
  sorted = λ k. ground (arith, f.sorted k, f.sorted key, remove-IsSorted t (w.history_of key));
  keyed = f.keyed;
  tracked = λ k q. ground (arith, f.tracked k q);
  held = λ q. ground (arith, f.held, bytes_eq_iff key key, is_empty-remove t (w.history_of key));
  keys_sorted = f.keys_sorted;
}

drop_versions-IsReleasable :
    (key : Key) (tss : List Timestamp) (w : View)
    → IsReleasable key w
    → IsReleasable key (for_each (drop_version key) tss w)
drop_versions-IsReleasable key [] w f = f
drop_versions-IsReleasable key (t ∷ tss) w f =
    drop_versions-IsReleasable key tss (drop_version key t w) (drop_version-IsReleasable key t w f)

release_key-IsWellFormed :
    (key : Key) (w : View) → IsReleasable key w → IsWellFormed (release_key key w)
unfolding release_key
release_key-IsWellFormed key w f = record {
  sorted = λ k. ground (arith, f.sorted k);
  keyed = λ k i h. ground (arith, f.keyed k i);
  tracked = λ k. ground (
    arith,
    f.tracked k,
    f.held,
    get-remove key k w.keys,
    same-bytes_eq key k,
    bytes_eq_iff key k,
    bytes_eq_iff key key,
  );
  keys_sorted = ground (arith, f.keys_sorted, remove-IsSorted key w.keys f.keys_sorted);
}

-- removals of versions of one key, and then its release, keep the invariant
pub drop_versions-IsWellFormed :
    (key : Key) (tss : List Timestamp) (w : View)
    → IsWellFormed w
    → IsWellFormed (release_key key (for_each (drop_version key) tss w))
drop_versions-IsWellFormed key tss w f =
    release_key-IsWellFormed key (for_each (drop_version key) tss w)
      (drop_versions-IsReleasable key tss w (IsWellFormed-IsReleasable key w f))
