-- ===== src/Engine/Simulation/Transfer.antt =====
-- What the theorems over the reference backend say of the engine of src/engine.rs over `InMemoryBackend`.
use nexir_mvcc_core.Prelude.{
  ℕ, ◌+◌, some, List, [], ◌∷◌, All, ◌≡◌, ◌≤◌, ◌<◌, refl, sym, ap, ◌∙◌, subst, length,
}
use nexir_mvcc_core.Types.{Timestamp, Key}
use nexir_mvcc_core.Exec.{ok}
use nexir_mvcc_core.Backend.InMemory.{InMemoryBackend, in_memory, new}
use nexir_mvcc_core.Backend.Reference.{reference}
use nexir_mvcc_core.Backend.Conformance.{IsValid, view}
use nexir_mvcc_core.Backend.Conformance.Refinement.{Shows, new-Shows}
use nexir_mvcc_core.Backend.Conformance.Simulation.{Timely, in_memory-Simulates}
use nexir_mvcc_core.Engine.Read.{read}
use nexir_mvcc_core.Engine.FullGc.{GcStats, gc}
use nexir_mvcc_core.Engine.IncrementalGc.{GcOptions}
use nexir_mvcc_core.Engine.IncrementalGc.Cursor.{keys_of}
use nexir_mvcc_core.Engine.IncrementalGc.Totals.{total}
use nexir_mvcc_core.Engine.IncrementalGc.Passes.{IsBudget}
use nexir_mvcc_core.Engine.IncrementalGc.Guarantees.{collectable, gc_collects}
use nexir_mvcc_core.Engine.Calls.Consistency.{IsConsistent, empty-IsConsistent}
use nexir_mvcc_core.Engine.Requests.{Request, serve, Commits}
use nexir_mvcc_core.Engine.Requests.Snapshots.{Budgeted, Spares, serve-IsConsistent, read-serve}
use nexir_mvcc_core.Engine.Simulation.Sessions.{serve_related}
use nexir_mvcc_core.Engine.Simulation.Reads.{Answers-read}
use nexir_mvcc_core.Engine.Simulation.Gc.{Matches-gc}

-- a state in range and in order that shows a consistent store: the versions of every key in strictly
-- increasing timestamps, the key set in order and exactly the keys in use, and no version above an
-- intent's start timestamp
pub record IsSound (s : InMemoryBackend) : Type 0 where
  pub valid : IsValid s
  pub consistent : IsConsistent (view s)

-- a request whose versions have timestamps of the type `Timestamp`, and whose budgets are usable
abbrev pub Proper : Request → Type 0
Proper q = Commits Timely q × Budgeted q

All-Commits : (qs : List Request) → All Proper qs → All (Commits Timely) qs
All-Commits [] a = tt
All-Commits (q ∷ qs) ((p, b), a) = (p, All-Commits qs a)

All-Budgeted : (qs : List Request) → All Proper qs → All Budgeted qs
All-Budgeted [] a = tt
All-Budgeted (q ∷ qs) ((p, b), a) = (b, All-Budgeted qs a)

module _ (s : InMemoryBackend) (f : IsSound s) where
  pub Shows-view : Shows s (view s)
  Shows-view = record { shown = refl; valid = f.valid }

  module _ (qs : List Request) (a : All Proper qs) where
    serve-Shows : Shows (serve in_memory qs s) (serve reference qs (view s))
    serve-Shows =
        serve_related Shows Timely in_memory reference in_memory-Simulates qs (All-Commits qs a) s
          (view s) Shows-view

    pub serve-IsSound : IsSound (serve in_memory qs s)
    serve-IsSound = record {
      valid = serve-Shows.valid;
      consistent =
          subst IsConsistent (sym serve-Shows.shown)
            (serve-IsConsistent qs (All-Budgeted qs a) (view s) f.consistent);
    }

  pub read-view : (k : Key) (r : Timestamp) → read in_memory k r s ≡ read reference k r (view s)
  read-view k r =
      (Answers-read Shows Timely in_memory reference in_memory-Simulates k r).alike s _ Shows-view

new-IsSound : IsSound new
new-IsSound = record {
  valid = new-Shows.valid;
  consistent = subst IsConsistent (sym new-Shows.shown) empty-IsConsistent;
}

-- After any session of proper requests on a new `InMemoryBackend`, transactions, batches and
-- collections in any order and failed ones included, the state is sound.
pub serve-in_memory-IsSound : (qs : List Request) → All Proper qs → IsSound (serve in_memory qs new)
serve-in_memory-IsSound qs a = serve-IsSound new new-IsSound qs a

module _ (s : InMemoryBackend) (f : IsSound s) where
  -- Snapshot reads over `InMemoryBackend` are repeatable: from a sound state, a session of proper requests
  -- that commit after `r` and collect at safe points up to `r` changes no answer to a read at `r`.
  pub read-serve-in_memory :
      (qs : List Request)
      → All Proper qs
      → (k : Key) (r : Timestamp) → All (Spares r) qs
      → read in_memory k r (serve in_memory qs s) ≡ read in_memory k r s
  read-serve-in_memory qs a k r l =
      read-view (serve in_memory qs s) (serve-IsSound s f qs a) k r
      ∙ ap (read reference k r) (serve-Shows s f qs a).shown
      ∙ read-serve k r qs (All-Budgeted qs a) l (view s) f.consistent
      ∙ sym (read-view s f k r)

  -- With budgets that are at least one and below the largest `usize`, from a sound state, `gc` over
  -- `InMemoryBackend` ends within as many rounds as there are keys and versions, and one more, and
  -- leaves a sound state where no key has anything to collect; intents and reads at the safe point or
  -- later are as before.
  pub gc-in_memory_collects :
      (sp : Timestamp) (o : GcOptions)
      → IsBudget o
      → (fuel : ℕ) → length (keys_of (view s).keys) + total (keys_of (view s).keys) (view s) < fuel
      → (k : Key) (r : Timestamp) → sp ≤ r
      → (stats : GcStats) × (s' : InMemoryBackend) × (gc in_memory fuel sp o s
          ≡ (ok (some stats), s'))
        × IsSound s'
        × (collectable sp o.collapse_final_tombstones (view s') k ≡ [])
        × ((view s').intent_of k ≡ (view s).intent_of k)
        × (read in_memory k r s' ≡ read in_memory k r s)
  gc-in_memory_collects sp o g fuel m k r l =
      let (stats, w, e, clean, sound, kept, seen) =
        gc_collects sp o g fuel (view s) f.consistent m k r l in
      let both = Matches-gc Shows Timely in_memory reference in_memory-Simulates fuel sp o in
      let s' : InMemoryBackend = (gc in_memory fuel sp o s).1 in
      let answer : (gc in_memory fuel sp o s).0 ≡ ok (some stats) =
        both.same s (view s) (Shows-view s f) ∙ ap (λ x. x.0) e in
      let shows = both.related s (view s) (Shows-view s f) in
      let shown : view s' ≡ w = shows.shown ∙ ap (λ x. x.1) e in
      let f' : IsSound s' = record {
        valid = shows.valid;
        consistent = subst IsConsistent (sym shown) sound;
      } in
      (
        stats,
        s',
        ap (λ x. (x, s')) answer,
        f',
        ap (λ x. collectable sp o.collapse_final_tombstones x k) shown ∙ clean,
        ap (λ x. x.intent_of k) shown ∙ kept,
        read-view s' f' k r ∙ ap (read reference k r) shown ∙ seen ∙ sym (read-view s f k r),
      )
