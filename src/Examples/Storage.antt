-- ===== src/Examples/Storage.antt =====
-- A short life of `InMemoryBackend`, against the reference.
use nexir_mvcc_core.Prelude.{none, some, List, [], ◌∷◌, ◌≡◌, arith}
use nexir_mvcc_core.Types.{put}
use nexir_mvcc_core.Backend.InMemory.{in_memory, new}
use nexir_mvcc_core.Backend.Reference.{reference, empty}
use nexir_mvcc_core.Backend.Conformance.{
  Write, put_intent, put_committed, commit_intents_batch, remove_committed_version, perform_all,
  ask, ask_visible_committed,
}
use nexir_mvcc_core.Backend.Conformance.Refinement.{in_memory-refines}

abbrev life : List Write
life =
    put_committed (record { key = 1 ∷ []; commit_ts = 4; value = some (7 ∷ []) })
    ∷ put_intent (record {
      key = 2 ∷ [];
      txn_id = 1;
      start_ts = 5;
      mutation = put (8 ∷ []);
      min_commit_ts = none;
    })
    ∷ commit_intents_batch (record { key = 2 ∷ []; commit_ts = 6; value = some (8 ∷ []) } ∷ [])
        ((2 ∷ [], 1, 5) ∷ [])
    ∷ remove_committed_version (1 ∷ []) 4
    ∷ []

in_memory-refines_example :
    ((perform_all in_memory life new).0 ≡ (perform_all reference life empty).0)
    × (ask in_memory (ask_visible_committed (2 ∷ []) 9) (perform_all in_memory life new).1
        ≡ ask reference (ask_visible_committed (2 ∷ []) 9) (perform_all reference life empty).1)
in_memory-refines_example =
    in_memory-refines life (omega arith, (tt, ((omega arith, tt), (tt, tt))))
      (ask_visible_committed (2 ∷ []) 9)
