-- ===== src/Engine/Simulation/Gc.antt =====
-- Garbage collection of src/engine.rs over two backends in step.
use nexir_mvcc_core.Prelude.{ℕ, zero, suc, Option, none, Bool, List, [], ◌∷◌}
use nexir_mvcc_core.Types.{Timestamp, Key, CommittedVersion}
use nexir_mvcc_core.Exec.Matches.{
  Matches, Matches-bind, Matches-bool, Matches-option, matching_rules,
}
use nexir_mvcc_core.Backend.{Backend}
use nexir_mvcc_core.Backend.Simulation.{Simulates}
use nexir_mvcc_core.Engine.IncrementalGc.{
  GcOptions, IncrementalGcCursor, Scan, final_tombstone, remove_versions, scan_without_budget,
  scan_final, scan_older, scan_keeper, scan_key, scan_keys, gc_incremental, add_removed,
}
use nexir_mvcc_core.Engine.FullGc.{gc_loop, count_intents, gc}

module _ {S T : Type 0} (R : S → T → Type 0) (Allowed : Timestamp → Type 0) (b : Backend S)
    (c : Backend T) (h : Simulates R Allowed b c) where
  Matches-final_tombstone :
      (collapse has_intent : Bool) (k : Key) (v : CommittedVersion)
      → Matches R
          (final_tombstone b collapse has_intent k v)
          (final_tombstone c collapse has_intent k v)
  unfolding final_tombstone
  Matches-final_tombstone collapse has_intent k v = search (matching_rules, h.get_latest_commit_ts)

  Matches-remove_versions :
      (k : Key) (ts : List Timestamp) (scan : Scan)
      → Matches R (remove_versions b k ts scan) (remove_versions c k ts scan)
  unfolding remove_versions
  Matches-remove_versions k [] scan = search matching_rules
  Matches-remove_versions k (t ∷ ts) scan =
      let rest = Matches-remove_versions k ts (add_removed 1 scan) in
      search (matching_rules, h.remove_committed_version)

  Matches-scan_without_budget :
      (collapse has_intent : Bool) (k : Key) (v : CommittedVersion) (scan : Scan)
      → Matches R
          (scan_without_budget b collapse has_intent k v scan)
          (scan_without_budget c collapse has_intent k v scan)
  unfolding scan_without_budget
  Matches-scan_without_budget collapse has_intent k v scan =
      search (matching_rules, Matches-final_tombstone, h.get_committed_timestamps_before)

  Matches-scan_final :
      (k : Key) (v : CommittedVersion) (limit : ℕ) (older : List Timestamp) (scan : Scan)
      → Matches R (scan_final b k v limit older scan) (scan_final c k v limit older scan)
  unfolding scan_final
  Matches-scan_final k v limit older scan =
      search (matching_rules, Matches-remove_versions, h.collapse_tombstone)

  Matches-scan_older :
      (k : Key) (limit : ℕ) (older : List Timestamp) (scan : Scan)
      → Matches R (scan_older b k limit older scan) (scan_older c k limit older scan)
  unfolding scan_older
  Matches-scan_older k limit older scan = search (matching_rules, Matches-remove_versions)

  Matches-scan_keeper :
      (o : GcOptions) (has_intent : Bool) (k : Key) (v : CommittedVersion) (scan : Scan)
      → Matches R (scan_keeper b o has_intent k v scan) (scan_keeper c o has_intent k v scan)
  unfolding scan_keeper
  Matches-scan_keeper o has_intent k v scan = search (
    matching_rules, Matches-scan_without_budget, Matches-final_tombstone, Matches-scan_final,
    Matches-scan_older, h.get_committed_timestamps_before,
  )

  Matches-scan_key :
      (sp : Timestamp) (o : GcOptions) (k : Key) (scan : Scan)
      → Matches R (scan_key b sp o k scan) (scan_key c sp o k scan)
  unfolding scan_key
  Matches-scan_key sp o k scan =
      Matches-bind R _ _ _ _ (search (matching_rules, h.get_intent)) (λ found.
        Matches-bind R _ _ _ _ (search (matching_rules, h.get_visible_committed)) (λ keeper.
          Matches-option R keeper _ _ _ _ (search matching_rules)
            (λ v. search Matches-scan_keeper)))

  Matches-scan_keys :
      (sp : Timestamp) (o : GcOptions) (ks : List Key) (scan : Scan)
      → Matches R (scan_keys b sp o ks scan) (scan_keys c sp o ks scan)
  unfolding scan_keys
  Matches-scan_keys sp o [] scan = search matching_rules
  Matches-scan_keys sp o (k ∷ ks) scan =
      Matches-bind R _ _ _ _ (Matches-scan_key sp o k scan) (λ scanned.
        Matches-bool R scanned.exhausted_versions _ _ _ _ (search matching_rules)
          (Matches-scan_keys sp o ks scanned))

  pub Matches-gc_incremental :
      (sp : Timestamp) (cursor : Option IncrementalGcCursor) (o : GcOptions)
      → Matches R (gc_incremental b sp cursor o) (gc_incremental c sp cursor o)
  unfolding gc_incremental
  Matches-gc_incremental sp cursor o =
      search (matching_rules, Matches-scan_keys, h.keys_from) depth 12

  Matches-gc_loop :
      (fuel : ℕ) (sp : Timestamp) (o : GcOptions) (cursor : Option IncrementalGcCursor) (total : ℕ)
      → Matches R (gc_loop b fuel sp o cursor total) (gc_loop c fuel sp o cursor total)
  unfolding gc_loop
  Matches-gc_loop zero sp o cursor total = search matching_rules
  Matches-gc_loop (suc fuel) sp o cursor total =
      Matches-bind R _ _ _ _ (Matches-gc_incremental sp cursor o) (λ res.
        Matches-bool R res.done _ _ _ _ (search matching_rules) (Matches-gc_loop fuel sp o _ _))

  Matches-count_intents :
      (ks : List Key) (total : ℕ) → Matches R (count_intents b ks total) (count_intents c ks total)
  unfolding count_intents
  Matches-count_intents [] total = search matching_rules
  Matches-count_intents (k ∷ ks) total =
      let rest = Matches-count_intents ks in search (matching_rules, h.get_intent)

  pub Matches-gc :
      (fuel : ℕ) (sp : Timestamp) (o : GcOptions) → Matches R (gc b fuel sp o) (gc c fuel sp o)
  unfolding gc
  Matches-gc fuel sp o = Matches-bind R _ _ _ _ (Matches-gc_loop fuel sp o none 0) (λ removed.
      Matches-option R removed _ _ _ _ (search matching_rules)
        (λ total. search (matching_rules, Matches-count_intents, h.all_keys)))
