-- ===== src/Backend/Conformance/Implementation.antt =====
-- `InMemoryBackend` of src/backend.rs implements every method of the trait as the reference does.
use nexir_mvcc_core.Prelude.{for_each, List, [], ◌∷◌, refl, ap, ◌∙◌, subst, sym}
use nexir_mvcc_core.Types.{Intent, CommittedVersion}
use nexir_mvcc_core.Exec.{Exec}
use nexir_mvcc_core.Exec.Matches.{Matches, Answers}
use nexir_mvcc_core.Backend.{IntentName}
use nexir_mvcc_core.Backend.InMemory
use nexir_mvcc_core.Backend.InMemory.{InMemoryBackend, in_memory, new}
use nexir_mvcc_core.Backend.Reference.{
  View, reference, empty, store_intent, drop_intent, store_version, prefix_keys,
}
use nexir_mvcc_core.Backend.Reference.WellFormed.{
  IsWellFormed, empty-IsWellFormed, store_version-IsWellFormed, store_intent-IsWellFormed,
  drop_intent-IsWellFormed, for_each-IsWellFormed,
}
use nexir_mvcc_core.Backend.Reference.Removals.{drop_versions-IsWellFormed}
use nexir_mvcc_core.Backend.Simulation.{Simulates, Implements}
use nexir_mvcc_core.Backend.Conformance.{
  ask_committed_versions, ask_latest_committed, put_committed,
}
use nexir_mvcc_core.Backend.Conformance.Refinement.{Shows, new-Shows, perform-Agrees}
use nexir_mvcc_core.Backend.Conformance.Simulation.{Timely, Answers-ask, in_memory-Simulates}
use nexir_mvcc_core.Backend.Conformance.Prefixes.{keys_from_prefix-in_memory}

-- a valid state, and the well-formed reference state that it shows
pub record Stands (s : InMemoryBackend) (w : View) : Type 0 where
  pub shows : Shows s w
  pub well_formed : IsWellFormed w

pub new-Stands : Stands new empty
new-Stands = record { shows = new-Shows; well_formed = empty-IsWellFormed }

Answers-Stands :
    {A : Type 0} (f : InMemoryBackend → A) (g : View → A) → Answers Shows f g → Answers Stands f g
Answers-Stands f g h = record { alike = λ s w r. h.alike s w r.shows }

Matches-Stands :
    {E A : Type 0} (m : Exec InMemoryBackend E A) (n : Exec View E A)
    → Matches Shows m n
    → ((w : View) → IsWellFormed w → IsWellFormed (n w).1)
    → Matches Stands m n
Matches-Stands m n h keeps = record {
  same = λ s w r. h.same s w r.shows;
  related = λ s w r. record { shows = h.related s w r.shows; well_formed = keeps w r.well_formed };
}

store_intents-IsWellFormed :
    (is : List Intent) (w : View) → IsWellFormed w → IsWellFormed (for_each store_intent is w)
store_intents-IsWellFormed = for_each-IsWellFormed store_intent store_intent-IsWellFormed

store_versions-IsWellFormed :
    (vs : List CommittedVersion) (w : View)
    → IsWellFormed w
    → IsWellFormed (for_each store_version vs w)
store_versions-IsWellFormed = for_each-IsWellFormed store_version store_version-IsWellFormed

drop_intents-IsWellFormed :
    (ns : List IntentName) (w : View) → IsWellFormed w → IsWellFormed (for_each drop_intent ns w)
drop_intents-IsWellFormed = for_each-IsWellFormed drop_intent drop_intent-IsWellFormed

in_memory-Simulates_well : Simulates Stands Timely in_memory reference
in_memory-Simulates_well =
    let h = in_memory-Simulates in
    record {
      get_latest_commit_ts = λ k. Answers-Stands _ _ (h.get_latest_commit_ts k);
      get_visible_committed = λ k ts. Answers-Stands _ _ (h.get_visible_committed k ts);
      get_intent = λ k. Answers-Stands _ _ (h.get_intent k);
      all_keys = Answers-Stands _ _ h.all_keys;
      keys_from = λ start limit. Answers-Stands _ _ (h.keys_from start limit);
      get_committed_timestamps_before =
          λ k ts limit. Answers-Stands _ _ (h.get_committed_timestamps_before k ts limit);
      put_intent =
          λ i. Matches-Stands _ _ (h.put_intent i) (λ w f. store_intent-IsWellFormed w f i);
      remove_intent = λ k t ts.
          Matches-Stands _ _ (h.remove_intent k t ts)
            (λ w f. drop_intent-IsWellFormed w f (k, t, ts));
      put_committed_batch =
          λ vs a. Matches-Stands _ _ (h.put_committed_batch vs a) (store_versions-IsWellFormed vs);
      remove_committed_version = λ k ts.
          Matches-Stands _ _ (h.remove_committed_version k ts)
            (drop_versions-IsWellFormed k (ts ∷ []));
      put_intents_batch =
          λ is. Matches-Stands _ _ (h.put_intents_batch is) (store_intents-IsWellFormed is);
      commit_intents_batch = λ vs ns a.
          Matches-Stands _ _ (h.commit_intents_batch vs ns a)
            (λ w f. drop_intents-IsWellFormed ns _ (store_versions-IsWellFormed vs w f));
      remove_intents_batch =
          λ ns. Matches-Stands _ _ (h.remove_intents_batch ns) (drop_intents-IsWellFormed ns);
      collapse_tombstone = λ k ts older.
          Matches-Stands _ _ (h.collapse_tombstone k ts older)
            (drop_versions-IsWellFormed k (ts ∷ older));
    }

-- On valid states that show what a well-formed reference holds, and for versions whose timestamps are of
-- the type `Timestamp`, every method of the trait, the prefix scan included, answers over
-- `InMemoryBackend` as over the reference, errors included, and leaves such states.
pub in_memory-Implements : Implements Stands Timely in_memory reference
unfolding InMemory.put_committed
in_memory-Implements = record {
  simulates = in_memory-Simulates_well;
  get_committed_versions = λ k. Answers-Stands _ _ (Answers-ask (ask_committed_versions k));
  get_latest_committed = λ k. Answers-Stands _ _ (Answers-ask (ask_latest_committed k));
  keys_from_prefix = λ p start limit. record {
    alike = λ s w r.
        keys_from_prefix-in_memory s r.shows.valid
          (subst IsWellFormed (sym r.shows.shown) r.well_formed) p start limit
        ∙ ap (prefix_keys p start limit) r.shows.shown;
  };
  put_committed = λ v a. record {
    same = λ s w r. refl;
    related = λ s w r. record {
      shows = (perform-Agrees (put_committed v) a s w r.shows).after;
      well_formed = store_version-IsWellFormed w r.well_formed v;
    };
  };
}
