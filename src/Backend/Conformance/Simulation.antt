-- ===== src/Backend/Conformance/Simulation.antt =====
-- `InMemoryBackend` of src/backend.rs stands for the reference backend, method by method.
use nexir_mvcc_core.Prelude.{◌≤◌, refl, ap, ◌∙◌}
use nexir_mvcc_core.Types.{Timestamp, max_ts}
use nexir_mvcc_core.Exec.Matches.{Answers}
use nexir_mvcc_core.Backend.InMemory
use nexir_mvcc_core.Backend.InMemory.{InMemoryBackend, in_memory}
use nexir_mvcc_core.Backend.Reference.{reference}
use nexir_mvcc_core.Backend.Simulation.{Simulates}
use nexir_mvcc_core.Backend.Conformance.{
  Query, ask, ask_visible_committed, ask_latest_commit_ts, ask_intent, ask_all_keys, ask_keys_from,
  ask_timestamps_before, put_intent, remove_intent, put_committed_batch, remove_committed_version,
  put_intents_batch, commit_intents_batch, remove_intents_batch, collapse_tombstone,
}
use nexir_mvcc_core.Backend.Conformance.Reads.{ask-in_memory}
use nexir_mvcc_core.Backend.Conformance.Refinement.{Shows, perform-Agrees}

pub Answers-ask : (q : Query) → Answers Shows (ask in_memory q) (ask reference q)
Answers-ask q = record { alike = λ s w h. ask-in_memory s h.valid q ∙ ap (ask reference q) h.shown }

abbrev pub Timely : Timestamp → Type 0
Timely ts = ts ≤ max_ts

-- On valid states that show what the reference holds, and for versions whose timestamps are of the type
-- `Timestamp`, every method that the engine calls answers as the reference does.
pub in_memory-Simulates : Simulates Shows Timely in_memory reference
unfolding InMemory.put_intent InMemory.put_committed_batch InMemory.remove_committed_version
    InMemory.put_intents_batch InMemory.commit_intents_batch InMemory.remove_intents_batch
    InMemory.collapse_tombstone
in_memory-Simulates = record {
  get_latest_commit_ts = λ k. Answers-ask (ask_latest_commit_ts k);
  get_visible_committed = λ k ts. Answers-ask (ask_visible_committed k ts);
  get_intent = λ k. Answers-ask (ask_intent k);
  all_keys = Answers-ask ask_all_keys;
  keys_from = λ start limit. Answers-ask (ask_keys_from start limit);
  get_committed_timestamps_before = λ k ts limit. Answers-ask (ask_timestamps_before k ts limit);
  put_intent = λ i. record {
    same = λ s w h. refl;
    related = λ s w h. (perform-Agrees (put_intent i) tt s w h).after;
  };
  remove_intent = λ k t ts. record {
    same = λ s w h. (perform-Agrees (remove_intent k t ts) tt s w h).answer;
    related = λ s w h. (perform-Agrees (remove_intent k t ts) tt s w h).after;
  };
  put_committed_batch = λ vs r. record {
    same = λ s w h. refl;
    related = λ s w h. (perform-Agrees (put_committed_batch vs) r s w h).after;
  };
  remove_committed_version = λ k ts. record {
    same = λ s w h. refl;
    related = λ s w h. (perform-Agrees (remove_committed_version k ts) tt s w h).after;
  };
  put_intents_batch = λ is. record {
    same = λ s w h. refl;
    related = λ s w h. (perform-Agrees (put_intents_batch is) tt s w h).after;
  };
  commit_intents_batch = λ vs ns r. record {
    same = λ s w h. refl;
    related = λ s w h. (perform-Agrees (commit_intents_batch vs ns) r s w h).after;
  };
  remove_intents_batch = λ ns. record {
    same = λ s w h. refl;
    related = λ s w h. (perform-Agrees (remove_intents_batch ns) tt s w h).after;
  };
  collapse_tombstone = λ k ts older. record {
    same = λ s w h. refl;
    related = λ s w h. (perform-Agrees (collapse_tombstone k ts older) tt s w h).after;
  };
}
