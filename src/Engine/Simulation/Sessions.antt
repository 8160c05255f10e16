-- ===== src/Engine/Simulation/Sessions.antt =====
-- Sessions on the engine of src/engine.rs over two backends in step, and over `InMemoryBackend`.
use nexir_mvcc_core.Prelude.{List, [], ◌∷◌, All, ◌≡◌}
use nexir_mvcc_core.Types.{Timestamp}
use nexir_mvcc_core.Exec.{Exec}
use nexir_mvcc_core.Exec.Matches.{Matches}
use nexir_mvcc_core.Backend.{Backend}
use nexir_mvcc_core.Backend.Simulation.{Simulates}
use nexir_mvcc_core.Backend.InMemory.{in_memory, new}
use nexir_mvcc_core.Backend.Reference.{reference, empty}
use nexir_mvcc_core.Backend.Conformance.Refinement.{Shows, new-Shows}
use nexir_mvcc_core.Backend.Conformance.Simulation.{Timely, in_memory-Simulates}
use nexir_mvcc_core.Engine.Requests.{Request, handle, serve, Commits}
use nexir_mvcc_core.Engine.Simulation.Transactions.{Matches-prewrite, Matches-commit, Matches-abort}
use nexir_mvcc_core.Engine.Simulation.Batches.{
  Matches-prewrite_batch, Matches-commit_batch, Matches-abort_batch, Matches-apply_direct_batch,
  Matches-apply_guarded_batch,
}
use nexir_mvcc_core.Engine.Simulation.Gc.{Matches-gc_incremental, Matches-gc}
use nexir_mvcc_core.Engine.Simulation.Reads.{
  Answers-read, Answers-read_with_version, Answers-read_own_write, Answers-plan_key_gc,
}

-- the same answer, and related states
abbrev pub InStep : {S T A : Type 0} → (S → T → Type 0) → A × S → A × T → Type 0
InStep R x y = (x.0 ≡ y.0) × R x.1 y.1

module _ {S T : Type 0} (R : S → T → Type 0) where
  Matches-InStep :
      {E A : Type 0} (m : Exec S E A) (n : Exec T E A)
      → Matches R m n
      → (s : S) (t : T) → R s t
      → InStep R (m s) (n t)
  Matches-InStep m n h s t r = (h.same s t r, h.related s t r)

module _ {S T : Type 0} (R : S → T → Type 0) (P : Timestamp → Type 0) (b : Backend S)
    (c : Backend T) (h : Simulates R P b c) where
  pub handle-InStep :
      (q : Request) → Commits P q → (s : S) (t : T) → R s t → InStep R (handle b q s) (handle c q t)
  handle-InStep (Request.read k ts) a s t r = ((Answers-read R P b c h k ts).alike s t r, r)
  handle-InStep (Request.read_with_version k ts) a s t r =
      ((Answers-read_with_version R P b c h k ts).alike s t r, r)
  handle-InStep (Request.read_own_write k n start ts) a s t r =
      ((Answers-read_own_write R P b c h k n start ts).alike s t r, r)
  handle-InStep (Request.prewrite n start k m) a s t r =
      Matches-InStep R _ _ (Matches-prewrite R P b c h n start k m) s t r
  handle-InStep (Request.commit n k start ts) a s t r =
      Matches-InStep R _ _ (Matches-commit R P b c h n k start ts a) s t r
  handle-InStep (Request.abort n k start) a s t r =
      Matches-InStep R _ _ (Matches-abort R P b c h n k start) s t r
  handle-InStep (Request.prewrite_batch n start ws) a s t r =
      Matches-InStep R _ _ (Matches-prewrite_batch R P b c h n start ws) s t r
  handle-InStep (Request.commit_batch n start ts ks) a s t r =
      Matches-InStep R _ _ (Matches-commit_batch R P b c h n start ts ks a) s t r
  handle-InStep (Request.abort_batch n start ks) a s t r =
      Matches-InStep R _ _ (Matches-abort_batch R P b c h n start ks) s t r
  handle-InStep (Request.apply_direct_batch ts ws) a s t r =
      Matches-InStep R _ _ (Matches-apply_direct_batch R P b c h ts ws a) s t r
  handle-InStep (Request.apply_guarded_batch ts gs ws) a s t r =
      Matches-InStep R _ _ (Matches-apply_guarded_batch R P b c h ts gs ws a) s t r
  handle-InStep (Request.plan_key_gc k ts o) a s t r =
      ((Answers-plan_key_gc R P b c h k ts o).alike s t r, r)
  handle-InStep (Request.gc_incremental ts cursor o) a s t r =
      Matches-InStep R _ _ (Matches-gc_incremental R P b c h ts cursor o) s t r
  handle-InStep (Request.gc fuel ts o) a s t r =
      Matches-InStep R _ _ (Matches-gc R P b c h fuel ts o) s t r

  pub serve_related :
      (qs : List Request)
      → All (Commits P) qs
      → (s : S) (t : T) → R s t
      → R (serve b qs s) (serve c qs t)
  unfolding serve
  serve_related [] a s t r = r
  serve_related (q ∷ qs) (p, a) s t r = serve_related qs a _ _ (handle-InStep q p s t r).1

-- After any session on a new `InMemoryBackend` and on an empty reference, in which every version that is
-- written has a timestamp of the type `Timestamp`, every further such request to the engine is answered
-- the same over both, errors included.
pub in_memory-serves :
    (qs : List Request)
    → All (Commits Timely) qs
    → (q : Request) → Commits Timely q
    → (handle in_memory q (serve in_memory qs new)).0
      ≡ (handle reference q (serve reference qs empty)).0
in_memory-serves qs a q p =
    (handle-InStep Shows Timely in_memory reference in_memory-Simulates q p _ _ (
      serve_related Shows Timely in_memory reference in_memory-Simulates qs a new empty
        new-Shows)).0
