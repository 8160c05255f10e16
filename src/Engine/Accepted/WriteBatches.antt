-- ===== src/Engine/Accepted/WriteBatches.antt =====
-- `apply_direct_batch` and `apply_guarded_batch` where they return `Ok`.
use nexir_mvcc_core.Prelude.{
  ◌≤◌, ◌<◌, true, Option, none, some, List, [], ◌∷◌, ◌≡◌, refl, ap, arith, All, for_each,
}
use nexir_mvcc_core.Ord.{nat_ord, bytes_eq_iff}
use nexir_mvcc_core.BTreeMap.{IsSorted}
use nexir_mvcc_core.Types.{
  Timestamp, Key, Value, PhysicalWrite, ReadGuard, expected_version, expected_value,
}
use nexir_mvcc_core.Exec.{ok, ◌>>=◌}
use nexir_mvcc_core.Exec.Keeps.{reading-bind-ok, mutate-ok, IsReading-reject_if}
use nexir_mvcc_core.Engine.Readings.{
  IsReading-check_write, IsReading-check_guard, IsReading-check_writes, IsReading-check_guards,
  IsReading-reject_duplicates,
}
use nexir_mvcc_core.Backend.InMemory.{commit_ts_of}
use nexir_mvcc_core.Backend.Reference.{View, latest, visible, reference, store_version, map_version}
use nexir_mvcc_core.Backend.Reference.Histories.{Before, UpTo, UpTo-latest, Before-latest}
use nexir_mvcc_core.Backend.Reference.Effects.{Distinct}
use nexir_mvcc_core.Engine.Read.{value_of}
use nexir_mvcc_core.Engine.Batch.{keys_of, versions_of}
use nexir_mvcc_core.Engine.WriteBatches.{
  ts_eq, value_eq, guard_key, guard_read_ts, reject_locked, reject_old, reject_newer, compare_guard,
  check_write, check_writes, check_guard, check_guards, apply_direct_batch, apply_guarded_batch,
}
use nexir_mvcc_core.Engine.Accepted.Duplicates.{Distinct-reject_duplicates}

abbrev pub AllSorted : View → Type 0
AllSorted w = (k : Key) → IsSorted (w.history_of k)

-- a key that a batch at `c` may write: no intent, and only versions older than `c`
pub record IsWritable (c : Timestamp) (w : View) (k : Key) : Type 0 where
  pub unlocked : w.intent_of k ≡ none
  pub newest : Before c (w.history_of k)

-- what a guard asks of the version that is visible to it
abbrev pub Expects : ReadGuard → View → Type 0
Expects (expected_version k r e) w = commit_ts_of (map_version k (visible r (w.history_of k))) ≡ e
Expects (expected_value k r e) w = value_of (map_version k (visible r (w.history_of k))) ≡ e

-- a guard that holds: its key has no intent and no version after its read timestamp, which comes
-- before the commit, and it sees what it expects
pub record Holds (c : Timestamp) (w : View) (g : ReadGuard) : Type 0 where
  pub earlier : guard_read_ts g < c
  pub unlocked : w.intent_of (guard_key g) ≡ none
  pub current : UpTo (guard_read_ts g) (w.history_of (guard_key g))
  pub expected : Expects g w

module _ (c : Timestamp) (w : View) (sorted : AllSorted w) where
  module _ (x : PhysicalWrite) (h : check_write reference c x w ≡ (ok tt, w)) where
    write_bound : (e : Timestamp × Option Value) → latest (w.history_of x.key) ≡ some e → e.0 < c
    unfolding check_write reject_locked reject_old ◌>>=◌
    write_bound e q = ground arith

    write_unlocked : w.intent_of x.key ≡ none
    unfolding check_write reject_locked reject_old ◌>>=◌
    write_unlocked = ground arith

    check_write-ok : IsWritable c w x.key
    check_write-ok = record {
      unlocked = write_unlocked;
      newest = Before-latest c (w.history_of x.key) (sorted x.key) write_bound;
    }

  pub check_writes-ok :
      (xs : List PhysicalWrite)
      → check_writes reference c xs w ≡ (ok tt, w)
      → All (λ x. IsWritable c w x.key) xs
  unfolding check_writes
  check_writes-ok [] h = tt
  check_writes-ok (x ∷ xs) h =
      let (u, p, q) =
        reading-bind-ok (check_write reference c x) (λ _. check_writes reference c xs) w w tt
          (IsReading-check_write reference c x) h in
      (check_write-ok x p, check_writes-ok xs q)

  module _ (g : ReadGuard) (h : check_guard reference c g w ≡ (ok tt, w)) where
    guard_bound :
        (e : Timestamp × Option Value)
        → latest (w.history_of (guard_key g)) ≡ some e
        → e.0 ≤ guard_read_ts g
    unfolding check_guard reject_locked reject_newer ◌>>=◌
    guard_bound e q = ground arith

    guard_checks : (guard_read_ts g < c) × (w.intent_of (guard_key g) ≡ none)
    unfolding check_guard reject_locked reject_newer ◌>>=◌
    guard_checks = ground arith

    guard_compared :
        compare_guard g
          (map_version (guard_key g) (visible (guard_read_ts g) (w.history_of (guard_key g))))
          w
        ≡ (ok tt, w)
    unfolding check_guard reject_locked reject_newer ◌>>=◌
    guard_compared = ground arith

  ts_eq-true : (a d : Option Timestamp) → ts_eq a d ≡ true → a ≡ d
  unfolding ts_eq
  ts_eq-true none none h = refl
  ts_eq-true none (some d) h = cc
  ts_eq-true (some a) none h = cc
  ts_eq-true (some a) (some d) h = ground arith

  value_eq-true : (a d : Option Value) → value_eq a d ≡ true → a ≡ d
  unfolding value_eq
  value_eq-true none none h = refl
  value_eq-true none (some d) h = cc
  value_eq-true (some a) none h = cc
  value_eq-true (some a) (some d) h = ap some ((bytes_eq_iff a d).0 h)

  compare_guard-ok :
      (g : ReadGuard)
      → compare_guard g
          (map_version (guard_key g) (visible (guard_read_ts g) (w.history_of (guard_key g))))
          w
        ≡ (ok tt, w)
      → Expects g w
  unfolding compare_guard ◌>>=◌
  compare_guard-ok (expected_version k r e) h =
      ts_eq-true (commit_ts_of (map_version k (visible r (w.history_of k)))) e (ground arith)
  compare_guard-ok (expected_value k r e) h =
      value_eq-true (value_of (map_version k (visible r (w.history_of k)))) e (ground arith)

  pub check_guards-ok :
      (gs : List ReadGuard) → check_guards reference c gs w ≡ (ok tt, w) → All (Holds c w) gs
  unfolding check_guards
  check_guards-ok [] h = tt
  check_guards-ok (g ∷ gs) h =
      let (u, p, q) =
        reading-bind-ok (check_guard reference c g) (λ _. check_guards reference c gs) w w tt
          (IsReading-check_guard reference c g) h in
      (
        record {
          earlier = (guard_checks g p).0;
          unlocked = (guard_checks g p).1;
          current =
              UpTo-latest (guard_read_ts g) (w.history_of (guard_key g)) (sorted (guard_key g))
                (guard_bound g p);
          expected = compare_guard-ok g (guard_compared g p);
        },
        check_guards-ok gs q,
      )

  pub direct-ok :
      (xs : List PhysicalWrite) (w' : View)
      → apply_direct_batch reference c xs w ≡ (ok tt, w')
      → Distinct (keys_of xs)
        × All (λ x. IsWritable c w x.key) xs
        × (w' ≡ for_each store_version (versions_of c xs) w)
  unfolding apply_direct_batch
  direct-ok xs w' h =
      let (u, p, q) = reading-bind-ok _ _ w w' tt (IsReading-reject_if _ _) h in
      let (v, p2, q2) = reading-bind-ok _ _ w w' tt (IsReading-reject_duplicates _ _) q in
      let (x, p3, q3) = reading-bind-ok _ _ w w' tt (IsReading-check_writes reference c xs) q2 in
      (
        Distinct-reject_duplicates _ (keys_of xs) w w v p2,
        check_writes-ok xs p3,
        mutate-ok _ (for_each store_version (versions_of c xs)) w w' tt q3,
      )

  pub guarded-ok :
      (gs : List ReadGuard) (xs : List PhysicalWrite) (w' : View)
      → apply_guarded_batch reference c gs xs w ≡ (ok tt, w')
      → Distinct (keys_of xs)
        × All (Holds c w) gs
        × All (λ x. IsWritable c w x.key) xs
        × (w' ≡ for_each store_version (versions_of c xs) w)
  unfolding apply_guarded_batch
  guarded-ok gs xs w' h =
      let (u, p, q) = reading-bind-ok _ _ w w' tt (IsReading-reject_if _ _) h in
      let (u1, p1, q1) = reading-bind-ok _ _ w w' tt (IsReading-reject_if _ _) q in
      let (v, p2, q2) = reading-bind-ok _ _ w w' tt (IsReading-reject_duplicates _ _) q1 in
      let (y, p3, q3) = reading-bind-ok _ _ w w' tt (IsReading-check_guards reference c gs) q2 in
      let (x, p4, q4) = reading-bind-ok _ _ w w' tt (IsReading-check_writes reference c xs) q3 in
      (
        Distinct-reject_duplicates _ (keys_of xs) w w v p2,
        check_guards-ok gs p3,
        check_writes-ok xs p4,
        mutate-ok _ (for_each store_version (versions_of c xs)) w w' tt q4,
      )
