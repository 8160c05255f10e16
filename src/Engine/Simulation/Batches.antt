-- ===== src/Engine/Simulation/Batches.antt =====
-- The batches of src/engine.rs over two backends in step.
use nexir_mvcc_core.Prelude.{ℕ, Option, none, some, List, [], ◌∷◌, All, All-imp, ◌≡◌, subst, sym}
use nexir_mvcc_core.Types.{Timestamp, TxnId, Key, Intent, PhysicalWrite, ReadGuard}
use nexir_mvcc_core.Error.{BatchCommitError}
use nexir_mvcc_core.Exec.{mutate, ◌>>=◌}
use nexir_mvcc_core.Exec.Matches.{Matches, Matches-bind_where, Matches-mutate}
use nexir_mvcc_core.Backend.{Backend}
use nexir_mvcc_core.Backend.Simulation.{Simulates}
use nexir_mvcc_core.Exec.Returns.{Returns, Returns-pure, Returns-bind, Returns-behind}
use nexir_mvcc_core.Engine.Simulation.Checks.{check_rules}
use nexir_mvcc_core.Engine.Batch.{versions_of}
use nexir_mvcc_core.Engine.IntentBatches.{
  check_absent, check_found, check_prewrite, count_existing, finish_prewrite, prewrite_batch,
  prepare_commit, prepare_commits, commit_batch, held_intents, abort_batch,
}
use nexir_mvcc_core.Engine.WriteBatches.{
  check_write, check_writes, apply_direct_batch, check_guard, check_guards, apply_guarded_batch,
}

module _ {T : Type 0} (c : Backend T) (t : TxnId) (ts commit_ts : Timestamp) where
  prepare_commit-at :
      (k : Key) → Returns (prepare_commit c t ts commit_ts k) (λ p. p.0.commit_ts ≡ commit_ts)
  unfolding prepare_commit
  prepare_commit-at k = search (Returns-behind, Returns-pure) depth 12

  prepare_commits-at :
      (ks : List Key)
      → Returns (prepare_commits c t ts commit_ts ks) (λ p. All (λ v. v.commit_ts ≡ commit_ts) p.0)
  unfolding prepare_commits
  prepare_commits-at [] = search Returns-pure
  prepare_commits-at (k ∷ ks) =
      Returns-bind _ (λ p. p.0.commit_ts ≡ commit_ts) _ _ (prepare_commit-at k)
        (λ p q.
          Returns-bind _ (λ r. All (λ v. v.commit_ts ≡ commit_ts) r.0) _ _ (prepare_commits-at ks)
            (λ r w. Returns-pure _ _ (q, w)))

All-versions_of :
    (P : Timestamp → Type 0) (ts : Timestamp) (ws : List PhysicalWrite)
    → P ts
    → All (λ v. P v.commit_ts) (versions_of ts ws)
All-versions_of P ts [] p = tt
All-versions_of P ts (w ∷ ws) p = (p, All-versions_of P ts ws p)

module _ {S T : Type 0} (R : S → T → Type 0) (Allowed : Timestamp → Type 0) (b : Backend S)
    (c : Backend T) (h : Simulates R Allowed b c) where
  Matches-check_absent :
      (ts : Timestamp) (w : PhysicalWrite) → Matches R (check_absent b ts w) (check_absent c ts w)
  unfolding check_absent
  Matches-check_absent ts w = search (check_rules, h.get_latest_commit_ts)

  Matches-check_found :
      (t : TxnId) (ts : Timestamp) (w : PhysicalWrite) (n : ℕ) (o : Option Intent)
      → Matches R (check_found b t ts w n o) (check_found c t ts w n o)
  unfolding check_found
  Matches-check_found t ts w n none = search (check_rules, Matches-check_absent)
  Matches-check_found t ts w n (some i) = search check_rules

  Matches-count_existing :
      (t : TxnId) (ts : Timestamp) (ws : List PhysicalWrite) (n : ℕ)
      → Matches R (count_existing b t ts ws n) (count_existing c t ts ws n)
  unfolding count_existing check_prewrite
  Matches-count_existing t ts [] n = search check_rules
  Matches-count_existing t ts (w ∷ ws) n =
      search (check_rules, h.get_intent, Matches-check_found, Matches-count_existing t ts ws)

  pub Matches-prewrite_batch :
      (t : TxnId) (ts : Timestamp) (ws : List PhysicalWrite)
      → Matches R (prewrite_batch b t ts ws) (prewrite_batch c t ts ws)
  unfolding prewrite_batch finish_prewrite
  Matches-prewrite_batch t ts ws =
      search (check_rules, Matches-count_existing, h.put_intents_batch) depth 12

  Matches-prepare_commit :
      (t : TxnId) (ts commit_ts : Timestamp) (k : Key)
      → Matches R (prepare_commit b t ts commit_ts k) (prepare_commit c t ts commit_ts k)
  unfolding prepare_commit
  Matches-prepare_commit t ts commit_ts k =
      search (check_rules, h.get_intent, h.get_latest_commit_ts) depth 12

  Matches-prepare_commits :
      (t : TxnId) (ts commit_ts : Timestamp) (ks : List Key)
      → Matches R (prepare_commits b t ts commit_ts ks) (prepare_commits c t ts commit_ts ks)
  unfolding prepare_commits
  Matches-prepare_commits t ts commit_ts [] = search check_rules
  Matches-prepare_commits t ts commit_ts (k ∷ ks) =
      let rest = Matches-prepare_commits t ts commit_ts ks in
      search (check_rules, Matches-prepare_commit)

  Matches-commit_prepared :
      (t : TxnId) (ts commit_ts : Timestamp) (ks : List Key)
      → Allowed commit_ts
      → Matches R
          (prepare_commits b t ts commit_ts ks
            >>= (λ p. mutate BatchCommitError.backend (b.commit_intents_batch p.0 p.1)))
          (prepare_commits c t ts commit_ts ks
            >>= (λ p. mutate BatchCommitError.backend (c.commit_intents_batch p.0 p.1)))
  Matches-commit_prepared t ts commit_ts ks a =
      Matches-bind_where R (λ p. All (λ v. v.commit_ts ≡ commit_ts) p.0) _ _
        (λ p q.
          Matches-mutate R _ _ _
            (h.commit_intents_batch p.0 p.1 (All-imp (λ v e. subst Allowed (sym e) a) p.0 q)))
        _ _ (Matches-prepare_commits t ts commit_ts ks) (prepare_commits-at c t ts commit_ts ks).at

  pub Matches-commit_batch :
      (t : TxnId) (ts commit_ts : Timestamp) (ks : List Key)
      → Allowed commit_ts
      → Matches R (commit_batch b t ts commit_ts ks) (commit_batch c t ts commit_ts ks)
  unfolding commit_batch
  Matches-commit_batch t ts commit_ts ks a =
      let rest = Matches-commit_prepared t ts commit_ts ks a in search check_rules depth 12

  Matches-held_intents :
      (t : TxnId) (ts : Timestamp) (ks : List Key)
      → Matches R (held_intents b t ts ks) (held_intents c t ts ks)
  unfolding held_intents
  Matches-held_intents t ts [] = search check_rules
  Matches-held_intents t ts (k ∷ ks) =
      let rest = Matches-held_intents t ts ks in search (check_rules, h.get_intent)

  pub Matches-abort_batch :
      (t : TxnId) (ts : Timestamp) (ks : List Key)
      → Matches R (abort_batch b t ts ks) (abort_batch c t ts ks)
  unfolding abort_batch
  Matches-abort_batch t ts [] = search check_rules
  Matches-abort_batch t ts (k ∷ ks) =
      search (check_rules, Matches-held_intents, h.remove_intents_batch)

  Matches-check_writes :
      (ts : Timestamp) (ws : List PhysicalWrite)
      → Matches R (check_writes b ts ws) (check_writes c ts ws)
  unfolding check_writes check_write
  Matches-check_writes ts [] = search check_rules
  Matches-check_writes ts (w ∷ ws) =
      let rest = Matches-check_writes ts ws in
      search (check_rules, h.get_intent, h.get_latest_commit_ts) depth 12

  pub Matches-apply_direct_batch :
      (ts : Timestamp) (ws : List PhysicalWrite)
      → Allowed ts
      → Matches R (apply_direct_batch b ts ws) (apply_direct_batch c ts ws)
  unfolding apply_direct_batch
  Matches-apply_direct_batch ts ws a =
      search
        (check_rules, Matches-check_writes, h.put_committed_batch, All-versions_of Allowed ts ws a)
        depth 12

  Matches-check_guards :
      (ts : Timestamp) (gs : List ReadGuard)
      → Matches R (check_guards b ts gs) (check_guards c ts gs)
  unfolding check_guards check_guard
  Matches-check_guards ts [] = search check_rules
  Matches-check_guards ts (g ∷ gs) =
      let rest = Matches-check_guards ts gs in
      search (check_rules, h.get_intent, h.get_latest_commit_ts, h.get_visible_committed) depth 16

  pub Matches-apply_guarded_batch :
      (ts : Timestamp) (gs : List ReadGuard) (ws : List PhysicalWrite)
      → Allowed ts
      → Matches R (apply_guarded_batch b ts gs ws) (apply_guarded_batch c ts gs ws)
  unfolding apply_guarded_batch
  Matches-apply_guarded_batch ts gs ws a =
      search
        (
          check_rules,
          Matches-check_guards,
          Matches-check_writes,
          h.put_committed_batch,
          All-versions_of Allowed ts ws a,
        )
        depth 16
