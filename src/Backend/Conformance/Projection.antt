-- ===== src/Backend/Conformance/Projection.antt =====
-- One key's history inside the sorted map of all versions: what inserts, removals and ranges of the
-- map are there.
use Prim.Native.Nat.Ordering.{lt}
use nexir_mvcc_core.Prelude.{
  Option, [], ◌∷◌, map, ◌≡◌, refl, arith, leb, ltb, filter_by, All, if◌then◌else◌,
}
use nexir_mvcc_core.Ord.{
  bytes_ord, nat_ord, pair_ord, ◌≺◌, bytes_eq, bytes_cmp, bytes_cmp-eq, bytes_cmp-flip,
  bytes_cmp_self, bytes_cmp-lt,
}
use nexir_mvcc_core.BTreeMap.{BTreeMap, insert, remove, IsSorted, range_inclusive, range_exclusive}
use nexir_mvcc_core.Types.{Key, Value, Timestamp, max_ts}
use nexir_mvcc_core.Backend.InMemory.{VersionKey}
use nexir_mvcc_core.Backend.Reference.{History}
use nexir_mvcc_core.Backend.Conformance.{history, InRange}

-- a history, as entries of the map
abbrev pub entries : Key → History → BTreeMap VersionKey (Option Value)
entries key h = map (λ e. ((key, e.0), e.1)) h

pub history-remove :
    (k j : Key) (t : Timestamp) (m : BTreeMap VersionKey (Option Value))
    → history k (remove (j, t) m) ≡ (if bytes_eq j k then remove t (history k m) else history k m)
unfolding history remove bytes_eq
history-remove k j t [] = ground arith
history-remove k j t (((i, u), w) ∷ m) = ground (
  arith,
  history-remove k j t m,
  bytes_cmp-eq j k,
  bytes_cmp-eq j i,
  bytes_cmp-eq i k,
  bytes_cmp_self j,
  bytes_cmp_self k,
  bytes_cmp-flip j i,
)

-- behind a key that comes after `j` there is no version of `j`
pub history-behind :
    (j i : Key) (u : Timestamp) (m : BTreeMap VersionKey (Option Value))
    → bytes_cmp j i ≡ lt
    → All (λ e. (i, u) ≺ e.0) m
    → history j m ≡ []
unfolding history bytes_eq
history-behind j i u [] q a = refl
history-behind j i u (((l, t), v) ∷ m) q (p, a) =
    ground (
      arith,
      history-behind j i u m q a,
      bytes_cmp-lt j i l q,
      bytes_cmp-eq i l,
      bytes_cmp-flip j l,
    )

pub history-range_inclusive :
    (k : Key) (hi : Timestamp) (m : BTreeMap VersionKey (Option Value))
    → range_inclusive (k, 0) (k, hi) m ≡ entries k (filter_by (λ e. leb e.0 hi) (history k m))
unfolding history range_inclusive bytes_eq
history-range_inclusive k hi [] = refl
history-range_inclusive k hi (((j, t), v) ∷ m) =
    ground (arith, history-range_inclusive k hi m, bytes_cmp-eq j k)

pub history-range_exclusive :
    (k : Key) (hi : Timestamp) (m : BTreeMap VersionKey (Option Value))
    → range_exclusive (k, 0) (k, hi) m ≡ entries k (filter_by (λ e. ltb e.0 hi) (history k m))
unfolding history range_exclusive bytes_eq
history-range_exclusive k hi [] = refl
history-range_exclusive k hi (((j, t), v) ∷ m) =
    ground (arith, history-range_exclusive k hi m, bytes_cmp-eq j k)

pub history-InRange :
    (k : Key) (m : BTreeMap VersionKey (Option Value))
    → InRange m
    → filter_by (λ e. leb e.0 max_ts) (history k m) ≡ history k m
unfolding history bytes_eq
history-InRange k [] a = refl
history-InRange k (((j, t), v) ∷ m) (p, a) = ground (arith, history-InRange k m a)

pub history-insert :
    (k j : Key) (t : Timestamp) (v : Option Value) (m : BTreeMap VersionKey (Option Value))
    → IsSorted m
    → history k (insert (j, t) v m)
      ≡ (if bytes_eq j k then insert t v (history k m) else history k m)
unfolding history insert bytes_eq
history-insert k j t v [] s = ground arith
history-insert k j t v (((i, u), w) ∷ m) (a, s) = ground (
  arith,
  history-insert k j t v m s,
  bytes_cmp-eq j k,
  bytes_cmp-eq j i,
  bytes_cmp-eq i k,
  bytes_cmp_self j,
  bytes_cmp_self k,
  bytes_cmp-flip j i,
  history-behind j i u m,
)
