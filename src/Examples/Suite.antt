-- ===== src/Examples/Suite.antt =====
-- The tests of src/conformance.rs over `InMemoryBackend`.
use nexir_mvcc_core.Prelude.{◌≡◌}
use nexir_mvcc_core.Exec.{ok}
use nexir_mvcc_core.Backend.InMemory.{in_memory, new}
use nexir_mvcc_core.Backend.Conformance.Implementation.{Stands, new-Stands, in_memory-Implements}
use nexir_mvcc_core.ConformanceTests.Suite.{Test, run_test}
use nexir_mvcc_core.ConformanceTests.Implementations.{implementation_passes}

implementation_passes_example : (run_test in_memory Test.test_keys_from_prefix new).0 ≡ ok tt
implementation_passes_example =
    implementation_passes Stands in_memory in_memory-Implements new new-Stands
      Test.test_keys_from_prefix
