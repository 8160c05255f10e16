-- ===== src/ConformanceTests/Suite.antt =====
-- src/conformance.rs: the tests of both macros as one type.
use nexir_mvcc_core.Exec.{Exec}
use nexir_mvcc_core.Backend.{Backend}
use nexir_mvcc_core.ConformanceTests.{Panic}
use nexir_mvcc_core.ConformanceTests.Committed
use nexir_mvcc_core.ConformanceTests.Versions
use nexir_mvcc_core.ConformanceTests.Intents
use nexir_mvcc_core.ConformanceTests.Scans

pub data Test : Type 0 where
  committed_versions_are_ascending_and_cross_u64 : Test
  committed_batch_and_visibility_are_conformant : Test
  committed_key_scans_and_timestamp_pages_are_conformant : Test
  committed_removal_and_tombstone_collapse_are_conformant : Test
  test_ascending_commit_ts : Test
  test_all_or_nothing_batch_persistence : Test
  test_intent_batch_persistence : Test
  test_strict_intent_identity : Test
  test_all_keys_collation : Test
  test_tombstone_preservation : Test
  test_fast_lookups : Test
  test_binary_handling : Test
  test_keys_from : Test
  test_keys_from_prefix : Test
  test_get_committed_timestamps_before : Test
  test_collapse_tombstone : Test

abbrev pub run_test : {S : Type 0} → Backend S → Test → Exec S Panic (Unit {0})
run_test b committed_versions_are_ascending_and_cross_u64 =
    Committed.committed_versions_are_ascending_and_cross_u64 b
run_test b committed_batch_and_visibility_are_conformant =
    Committed.committed_batch_and_visibility_are_conformant b
run_test b committed_key_scans_and_timestamp_pages_are_conformant =
    Committed.committed_key_scans_and_timestamp_pages_are_conformant b
run_test b committed_removal_and_tombstone_collapse_are_conformant =
    Committed.committed_removal_and_tombstone_collapse_are_conformant b
run_test b test_ascending_commit_ts = Versions.test_ascending_commit_ts b
run_test b test_all_or_nothing_batch_persistence = Versions.test_all_or_nothing_batch_persistence b
run_test b test_intent_batch_persistence = Intents.test_intent_batch_persistence b
run_test b test_strict_intent_identity = Intents.test_strict_intent_identity b
run_test b test_all_keys_collation = Scans.test_all_keys_collation b
run_test b test_tombstone_preservation = Versions.test_tombstone_preservation b
run_test b test_fast_lookups = Versions.test_fast_lookups b
run_test b test_binary_handling = Versions.test_binary_handling b
run_test b test_keys_from = Scans.test_keys_from b
run_test b test_keys_from_prefix = Scans.test_keys_from_prefix b
run_test b test_get_committed_timestamps_before = Versions.test_get_committed_timestamps_before b
run_test b test_collapse_tombstone = Versions.test_collapse_tombstone b
