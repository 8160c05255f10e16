-- ===== src/Engine/Simulation/Commits.antt =====
-- What a commit of src/engine.rs over `InMemoryBackend` makes readable.
use nexir_mvcc_core.Prelude.{◌&&◌, [], ◌∷◌, leb, ◌≡◌, ◌≤◌, sym, ap, ◌∙◌, if◌then◌else◌}
use nexir_mvcc_core.Ord.{bytes_eq}
use nexir_mvcc_core.Types.{Timestamp, TxnId, Key, max_ts}
use nexir_mvcc_core.Exec.{ok}
use nexir_mvcc_core.Backend.InMemory.{InMemoryBackend, in_memory}
use nexir_mvcc_core.Backend.Reference.{reference}
use nexir_mvcc_core.Backend.Conformance.{view}
use nexir_mvcc_core.Backend.Conformance.Refinement.{Shows}
use nexir_mvcc_core.Backend.Conformance.Simulation.{Timely, in_memory-Simulates}
use nexir_mvcc_core.Engine.Read.{read}
use nexir_mvcc_core.Engine.Intents.{commit}
use nexir_mvcc_core.Engine.Accepted.{pending}
use nexir_mvcc_core.Engine.Calls.Snapshots.{read-commit}
use nexir_mvcc_core.Engine.Requests.{Request, serve}
use nexir_mvcc_core.Engine.Simulation.Transactions.{Matches-commit}
use nexir_mvcc_core.Engine.Simulation.Transfer.{IsSound, Shows-view, read-view, serve-IsSound}

module _ (s : InMemoryBackend) (f : IsSound s) (t : TxnId) (j : Key) (start c : Timestamp)
    (m : c ≤ max_ts) where
  committed-IsSound : IsSound (commit in_memory t j start c s).1
  unfolding serve
  committed-IsSound = serve-IsSound s f (Request.commit t j start c ∷ []) ((m, tt), tt)

  -- After a successful commit at `c` over `InMemoryBackend`, from a sound state, reads of the key at `c`
  -- or later return what its intent wrote, and every other read returns what it returned before.
  pub read-commit-in_memory :
      (commit in_memory t j start c s).0 ≡ ok tt
      → (k : Key) (r : Timestamp)
      → read in_memory k r (commit in_memory t j start c s).1 ≡ (
          if bytes_eq j k && leb c r
          then ok (pending ((view s).intent_of k))
          else read in_memory k r s)
  read-commit-in_memory h k r =
      let both =
        Matches-commit Shows Timely in_memory reference in_memory-Simulates t j start c m in
      let accepted : (commit reference t j start c (view s)).0 ≡ ok tt =
        sym (both.same s (view s) (Shows-view s f)) ∙ h in
      let shows = both.related s (view s) (Shows-view s f) in
      let seen =
        read-commit t j start c (view s) _ f.consistent
          (ap (λ x. (x, (commit reference t j start c (view s)).1)) accepted) k r in
      read-view (commit in_memory t j start c s).1 committed-IsSound k r
      ∙ ap (read reference k r) shows.shown
      ∙ seen.0
      ∙ ap (λ x. if bytes_eq j k && leb c r then ok (pending ((view s).intent_of k)) else x)
          (sym (read-view s f k r))
