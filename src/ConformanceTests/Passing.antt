-- ===== src/ConformanceTests/Passing.antt =====
-- The tests of src/conformance.rs over the reference backend and over every backend that stands for it.
use nexir_mvcc_core.Prelude.{Bool, true, ◌≡◌, refl}
use nexir_mvcc_core.Ord.{bytes_eq, bytes_cmp}
use nexir_mvcc_core.BTreeMap.{get, insert, remove, range_from}
use nexir_mvcc_core.Exec.{ok, ◌>>=◌}
use nexir_mvcc_core.Backend.InMemory.{starts_with}
use nexir_mvcc_core.Backend.Reference.{
  reference, empty, visible, latest, newest_before, prefix_keys, release_key, store_intent,
  drop_intent, store_version, drop_version,
}
use nexir_mvcc_core.Engine.Intents.{mutation_eq}
use nexir_mvcc_core.Engine.WriteBatches.{ts_eq, value_eq}
use nexir_mvcc_core.Codec.{to_be_bytes}
use nexir_mvcc_core.ConformanceTests.{put_all, get_is_err}
use nexir_mvcc_core.ConformanceTests.Committed.{
  committed_versions_are_ascending_and_cross_u64, committed_batch_and_visibility_are_conformant,
  committed_key_scans_and_timestamp_pages_are_conformant,
  committed_removal_and_tombstone_collapse_are_conformant,
}
use nexir_mvcc_core.ConformanceTests.Versions.{
  test_ascending_commit_ts, test_all_or_nothing_batch_persistence, test_tombstone_preservation,
  assert_visible, test_fast_lookups, test_binary_handling, test_get_committed_timestamps_before,
  test_collapse_tombstone,
}
use nexir_mvcc_core.ConformanceTests.Intents.{
  test_intent_batch_persistence, test_strict_intent_identity,
}
use nexir_mvcc_core.ConformanceTests.Scans.{
  test_all_keys_collation, test_keys_from, test_keys_from_prefix,
}
use nexir_mvcc_core.ConformanceTests.Suite.{Test, run_test}

-- what the tests on the reference run through
tests_run : Bool
unfolding committed_versions_are_ascending_and_cross_u64
    committed_batch_and_visibility_are_conformant
    committed_key_scans_and_timestamp_pages_are_conformant
    committed_removal_and_tombstone_collapse_are_conformant test_ascending_commit_ts
    test_all_or_nothing_batch_persistence test_tombstone_preservation assert_visible
    test_fast_lookups test_binary_handling test_get_committed_timestamps_before
    test_collapse_tombstone test_intent_batch_persistence test_strict_intent_identity
    test_all_keys_collation test_keys_from test_keys_from_prefix ◌>>=◌ put_all get_is_err bytes_eq
    bytes_cmp get insert remove range_from starts_with visible latest newest_before prefix_keys
    release_key store_intent drop_intent store_version drop_version mutation_eq ts_eq value_eq
    to_be_bytes
tests_run = true

pub reference_passes : (t : Test) → (run_test reference t empty).0 ≡ ok tt
unfolding tests_run
reference_passes Test.committed_versions_are_ascending_and_cross_u64 = refl
reference_passes Test.committed_batch_and_visibility_are_conformant = refl
reference_passes Test.committed_key_scans_and_timestamp_pages_are_conformant = refl
reference_passes Test.committed_removal_and_tombstone_collapse_are_conformant = refl
reference_passes Test.test_ascending_commit_ts = refl
reference_passes Test.test_all_or_nothing_batch_persistence = refl
reference_passes Test.test_intent_batch_persistence = refl
reference_passes Test.test_strict_intent_identity = refl
reference_passes Test.test_all_keys_collation = refl
reference_passes Test.test_tombstone_preservation = refl
reference_passes Test.test_fast_lookups = refl
reference_passes Test.test_binary_handling = refl
reference_passes Test.test_keys_from = refl
reference_passes Test.test_keys_from_prefix = refl
reference_passes Test.test_get_committed_timestamps_before = refl
reference_passes Test.test_collapse_tombstone = refl
