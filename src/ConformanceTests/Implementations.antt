-- ===== src/ConformanceTests/Implementations.antt =====
-- The tests of src/conformance.rs over every backend that implements the trait as documented.
use nexir_mvcc_core.Prelude.{Bool, Option, String, List, [], ◌∷◌, All, ◌≡◌, refl, ◌∙◌}
use nexir_mvcc_core.Types.{Timestamp, Value, CommittedVersion}
use nexir_mvcc_core.Exec.{Result, Exec, ok, ◌>>=◌}
use nexir_mvcc_core.Exec.Matches.{Matches, Answers, Matches-pure, Matches-bind, Matches-mutate}
use nexir_mvcc_core.Backend.{Backend}
use nexir_mvcc_core.Backend.Simulation.{Implements}
use nexir_mvcc_core.Backend.Reference.{View, reference, empty}
use nexir_mvcc_core.Backend.Conformance.Simulation.{Timely}
use nexir_mvcc_core.ConformanceTests.{Panic, put_all, get_is_err}
use nexir_mvcc_core.ConformanceTests.Committed.{
  committed_versions_are_ascending_and_cross_u64, committed_batch_and_visibility_are_conformant,
  committed_key_scans_and_timestamp_pages_are_conformant,
  committed_removal_and_tombstone_collapse_are_conformant,
}
use nexir_mvcc_core.ConformanceTests.Versions.{
  test_ascending_commit_ts, test_all_or_nothing_batch_persistence, test_tombstone_preservation,
  assert_visible, test_fast_lookups, test_binary_handling, test_get_committed_timestamps_before,
  test_collapse_tombstone,
}
use nexir_mvcc_core.ConformanceTests.Intents.{
  test_intent_batch_persistence, test_strict_intent_identity,
}
use nexir_mvcc_core.ConformanceTests.Scans.{
  test_all_keys_collation, test_keys_from, test_keys_from_prefix,
}
use nexir_mvcc_core.ConformanceTests.Lines.{suite_rules, then_call, then_get, then_assert, timely}
use nexir_mvcc_core.ConformanceTests.Suite.{Test, run_test}
use nexir_mvcc_core.ConformanceTests.Passing.{reference_passes}

module _ {S T : Type 0} (R : S → T → Type 0) (b : Backend S) (c : Backend T)
    (h : Implements R Timely b c) where
  Matches-put_all :
      (vs : List CommittedVersion)
      → All (λ v. Timely v.commit_ts) vs
      → Matches R (put_all b vs) (put_all c vs)
  unfolding put_all
  Matches-put_all [] a = Matches-pure R tt
  Matches-put_all (v ∷ vs) (p, a) =
      Matches-bind R _ _ _ _ (Matches-mutate R _ _ _ (h.put_committed v p))
        (λ _. Matches-put_all vs a)

  Matches-get_is_err :
      {A : Type 0} (f : S → Result String A) (g : T → Result String A)
      → Answers R f g
      → Matches R (get_is_err f) (get_is_err g)
  unfolding get_is_err
  Matches-get_is_err f g a = record { same = λ s t r. rw (a.alike s t r); related = λ s t r. r }

  then_put_all :
      (vs : List CommittedVersion)
      → All (λ v. Timely v.commit_ts) vs
      → {B : Type 0} (k : Unit {0} → Exec S Panic B) (l : Unit {0} → Exec T Panic B)
      → ((a : Unit {0}) → Matches R (k a) (l a))
      → Matches R (put_all b vs >>= k) (put_all c vs >>= l)
  then_put_all vs a k l = Matches-bind R _ _ _ _ (Matches-put_all vs a)

  then_is_err :
      {A B : Type 0} (f : S → Result String A) (g : T → Result String A) (k : Bool → Exec S Panic B)
      (l : Bool → Exec T Panic B)
      → Answers R f g
      → ((a : Bool) → Matches R (k a) (l a))
      → Matches R (get_is_err f >>= k) (get_is_err g >>= l)
  then_is_err f g k l h = Matches-bind R _ _ _ _ (Matches-get_is_err f g h)

  then_visible :
      {B : Type 0} (ts commit_ts : Timestamp) (o : Option Value) (k : Unit {0} → Exec S Panic B)
      (l : Unit {0} → Exec T Panic B)
      → ((a : Unit {0}) → Matches R (k a) (l a))
      → Matches R (assert_visible b ts commit_ts o >>= k) (assert_visible c ts commit_ts o >>= l)
  unfolding assert_visible
  then_visible ts commit_ts o k l =
      Matches-bind R _ _ _ _ (search (suite_rules, h.simulates.get_visible_committed))

  last_visible :
      (ts commit_ts : Timestamp) (o : Option Value)
      → Matches R (assert_visible b ts commit_ts o) (assert_visible c ts commit_ts o)
  unfolding assert_visible
  last_visible ts commit_ts o = search (suite_rules, h.simulates.get_visible_committed)

  run_test-Matches : (t : Test) → Matches R (run_test b t) (run_test c t)
  unfolding committed_versions_are_ascending_and_cross_u64
      committed_batch_and_visibility_are_conformant
      committed_key_scans_and_timestamp_pages_are_conformant
      committed_removal_and_tombstone_collapse_are_conformant test_ascending_commit_ts
      test_all_or_nothing_batch_persistence test_tombstone_preservation test_fast_lookups
      test_binary_handling test_get_committed_timestamps_before test_collapse_tombstone
      test_intent_batch_persistence test_strict_intent_identity test_all_keys_collation
      test_keys_from test_keys_from_prefix
  run_test-Matches Test.committed_versions_are_ascending_and_cross_u64 =
      search (suite_rules, h.get_committed_versions, then_put_all) depth 60
  run_test-Matches Test.committed_batch_and_visibility_are_conformant =
      let keys = h.simulates.all_keys in
      search
        (
          suite_rules, h.simulates.get_latest_commit_ts, h.simulates.get_visible_committed,
          h.simulates.put_committed_batch,
        )
        depth 60
  run_test-Matches Test.committed_key_scans_and_timestamp_pages_are_conformant =
      search
        (
          suite_rules, h.simulates.get_committed_timestamps_before, h.simulates.keys_from,
          h.keys_from_prefix, then_put_all,
        )
        depth 60
  run_test-Matches Test.committed_removal_and_tombstone_collapse_are_conformant =
      search
        (
          suite_rules, h.simulates.collapse_tombstone, h.get_committed_versions,
          h.simulates.put_committed_batch, h.simulates.remove_committed_version,
        )
        depth 60
  run_test-Matches Test.test_ascending_commit_ts =
      search (suite_rules, h.get_committed_versions, h.put_committed) depth 60
  run_test-Matches Test.test_all_or_nothing_batch_persistence =
      search (suite_rules, h.get_committed_versions, h.simulates.put_committed_batch) depth 60
  run_test-Matches Test.test_intent_batch_persistence =
      then_call R _ _ _ _ (h.simulates.put_intents_batch _) (λ _.
        then_get R _ _ _ _ (h.simulates.get_intent _) (λ first. then_assert R _ _ _ (λ _.
          then_get R _ _ _ _ (h.simulates.get_intent _) (λ second. then_assert R _ _ _ (λ _.
            then_call R _ _ _ _ (h.simulates.commit_intents_batch _ _ (timely 10 refl, tt)) (λ _.
              search
                (
                  suite_rules, h.get_committed_versions, h.simulates.get_intent,
                  h.simulates.remove_intents_batch,
                )
                depth 60))))))
  run_test-Matches Test.test_strict_intent_identity =
      search
        (suite_rules, h.simulates.get_intent, h.simulates.put_intent, h.simulates.remove_intent)
        depth 60
  run_test-Matches Test.test_all_keys_collation =
      let keys = h.simulates.all_keys in
      search (suite_rules, h.put_committed, h.simulates.put_intent) depth 60
  run_test-Matches Test.test_tombstone_preservation =
      search (suite_rules, h.get_committed_versions, h.put_committed) depth 60
  run_test-Matches Test.test_fast_lookups =
      search
        (
          suite_rules, h.simulates.get_latest_commit_ts, h.get_latest_committed,
          h.simulates.get_visible_committed, h.put_committed, then_visible, last_visible,
        )
        depth 60
  run_test-Matches Test.test_binary_handling =
      search (suite_rules, h.get_committed_versions, h.put_committed) depth 60
  run_test-Matches Test.test_keys_from =
      search (suite_rules, h.simulates.keys_from, h.put_committed, h.simulates.put_intent) depth 60
  run_test-Matches Test.test_keys_from_prefix =
      search (suite_rules, h.keys_from_prefix, h.put_committed, h.simulates.put_intent, then_is_err)
        depth 60
  run_test-Matches Test.test_get_committed_timestamps_before =
      search (suite_rules, h.simulates.get_committed_timestamps_before, then_put_all) depth 60
  run_test-Matches Test.test_collapse_tombstone =
      let keys = h.simulates.all_keys in
      search
        (
          suite_rules, h.simulates.collapse_tombstone, h.get_committed_versions,
          h.get_latest_committed, h.put_committed, then_put_all,
        )
        depth 60

-- For every backend that implements each method of the trait as the reference does, in states that a
-- relation pairs with the reference's, every test of both macros returns `Ok` from a state paired
-- with the empty one: no call fails and every assertion holds.
pub implementation_passes :
    {S : Type 0} (R : S → View → Type 0) (b : Backend S)
    → Implements R Timely b reference
    → (s : S) → R s empty
    → (t : Test) → (run_test b t s).0 ≡ ok tt
implementation_passes R b h s r t =
    (run_test-Matches R b reference h t).same s empty r ∙ reference_passes t
