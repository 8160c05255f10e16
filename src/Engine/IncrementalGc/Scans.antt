-- ===== src/Engine/IncrementalGc/Scans.antt =====
-- The loop over the keys in `gc_incremental` of src/engine.rs, over the reference backend.
use nexir_mvcc_core.Prelude.{
  ◌+◌, ◌^◌, ◌≤◌, ◌<◌, Bool, true, false, ◌&&◌, some, List, [], ◌∷◌, ◌++◌, ◌≡◌, refl, sym, ap, ◌∙◌,
  inl, inr, arith, length, is_some, is_none, All, Bool-cases, Option-cases,
}
use nexir_mvcc_core.Types.{Timestamp, Key}
use nexir_mvcc_core.Exec.{pure, query, ◌>>=◌}
use nexir_mvcc_core.Exec.Yields.{Yields, Yields-same, Yields-bind}
use nexir_mvcc_core.Backend.Reference.{View, reference, visible, to_version}
use nexir_mvcc_core.Backend.Reference.WellFormed.{IsWellFormed}
use nexir_mvcc_core.Backend.Reference.Effects.{Distinct}
use nexir_mvcc_core.Engine.Batch.{contains}
use nexir_mvcc_core.Engine.IncrementalGc.{
  GcOptions, Scan, count_key, add_scanned, scan_keeper, scan_key, scan_keys,
}
use nexir_mvcc_core.Engine.IncrementalGc.Steps.{
  Steps, Steps-append, Steps-IsWellFormed, intent-Steps, older_times,
}
use nexir_mvcc_core.Engine.IncrementalGc.Trims.{IsClean, is_newest}
use nexir_mvcc_core.Engine.IncrementalGc.Rounds.{Round}
use nexir_mvcc_core.Engine.IncrementalGc.Totals.{total, total-changed}
use nexir_mvcc_core.Engine.IncrementalGc.Branches.{scan_keeper-yields}

module _ (sp : Timestamp) (options : GcOptions) (h : options.budget.max_versions + 1 < 2 ^ 64)
    (z : 1 ≤ options.budget.max_versions) where
  scan_key-yields :
      (key : Key) (w : View) (s : Scan)
      → IsWellFormed w
      → s.exhausted_versions ≡ false
      → s.versions_removed ≤ options.budget.max_versions
      → Yields (scan_key reference sp options key s) w (λ s' w'. Round sp options key w s s' w')
  unfolding scan_key query pure ◌>>=◌
  scan_key-yields key w s f u b = elim (Option-cases (visible sp (w.history_of key))) [
    | inl n ↦ record {
      value = count_key (w.intent_of key) s;
      after = w;
      result = rw n;
      holds = record {
        steps = Steps.stay;
        within = b;
        accounted = refl;
        elsewhere = λ k d. refl;
        scanned = refl;
        finished = λ h. ground (arith, h, u);
        cleaned = λ h e p. ground (arith, n, p);
      };
    }
    | inr (e, v) ↦
        Yields-same _ _
          (scan_keeper reference options (is_some (w.intent_of key)) key (to_version key e)
            (add_scanned 1 (count_key (w.intent_of key) s)))
          w (rw v) (scan_keeper-yields sp options key w f e v s u b h z)
  ]

-- every key of a list is one of another
abbrev pub IsWithin : List Key → List Key → Type 0
IsWithin ks all = All (λ k. contains all k ≡ true) ks

-- how the loop ends: past every key, or at a key that it has to come back to
pub data Ending (sp : Timestamp) (c : Bool) (ks : List Key) (s : Scan) (w : View) : Type 0 where
  passed : s.exhausted_versions ≡ false → All (λ k. IsClean sp c w k) ks → Ending sp c ks s w
  stopped :
      (done rest : List Key) (key : Key)
      → s.exhausted_versions ≡ true
      → s.next_cursor_key ≡ some key
      → 1 ≤ s.versions_removed
      → ks ≡ done ++ key ∷ rest
      → All (λ k. IsClean sp c w k) done
      → Ending sp c ks s w

pub record Scanned (sp : Timestamp) (options : GcOptions) (ks : List Key) (w : View) (s s' : Scan)
    (w' : View) : Type 0 where
  pub steps : Steps sp w w'
  pub within : s'.versions_removed ≤ options.budget.max_versions
  pub accounted :
      (all : List Key)
      → Distinct all
      → IsWithin ks all
      → total all w' + s'.versions_removed ≡ total all w + s.versions_removed
  pub elsewhere : (k : Key) → contains ks k ≡ false → w'.history_of k ≡ w.history_of k
  pub scanned : s'.keys_scanned ≤ s.keys_scanned + length ks
  pub ending : Ending sp options.collapse_final_tombstones ks s' w'

-- a key that stays as it is stays clean
pub IsClean-elsewhere :
    (sp : Timestamp) (c : Bool) (k : Key) (v w : View)
    → w.history_of k ≡ v.history_of k
    → w.intent_of k ≡ v.intent_of k
    → IsClean sp c v k
    → IsClean sp c w k
IsClean-elsewhere sp c k v w p q f e s =
    let (a, b) = f e (ap (visible sp) (sym p) ∙ s) in
    (
      ap (older_times e.0) p ∙ a,
      ap (λ h. c && is_none e.1 && is_none (w.intent_of k) && is_newest e.0 h) p
          ∙ ap (λ i. c && is_none e.1 && is_none i && is_newest e.0 (v.history_of k)) q
          ∙ b,
    )

module _ (sp : Timestamp) (options : GcOptions) (key : Key) (ks : List Key) (v w : View)
    (s t : Scan) (n : contains ks key ≡ false) (r : Round sp options key v s t w) where
  -- a round that stops the loop
  Scanned-stop : t.exhausted_versions ≡ true → Scanned sp options (key ∷ ks) v s t w
  unfolding contains
  Scanned-stop x = record {
    steps = r.steps;
    within = r.within;
    accounted = λ all d (m, i).
        total-changed v w key r.elsewhere all t.versions_removed s.versions_removed d m r.accounted;
    elsewhere = λ k q. r.elsewhere k (ground (arith, q));
    scanned = omega (arith, r.scanned);
    ending = Ending.stopped [] ks key x (r.finished x).0 (r.finished x).1 refl tt;
  }

  -- a round before the rest of the loop
  module _ (x : t.exhausted_versions ≡ false) (s' : Scan) (w' : View)
      (g : Scanned sp options ks w t s' w') where
    -- the key of the round is clean at the end too
    key-IsClean : IsClean sp options.collapse_final_tombstones w' key
    key-IsClean =
        IsClean-elsewhere sp options.collapse_final_tombstones key w w' (g.elsewhere key n)
          (intent-Steps sp key w w' g.steps) (r.cleaned x)

    next-Ending :
        Ending sp options.collapse_final_tombstones ks s' w'
        → Ending sp options.collapse_final_tombstones (key ∷ ks) s' w'
    next-Ending (passed a c) = Ending.passed a (key-IsClean, c)
    next-Ending (stopped done rest k a b c e d) =
        Ending.stopped (key ∷ done) rest k a b c (ap (λ l. key ∷ l) e) (key-IsClean, d)

    Scanned-next : Scanned sp options (key ∷ ks) v s s' w'
    unfolding contains
    Scanned-next = record {
      steps = Steps-append sp v w w' r.steps g.steps;
      within = g.within;
      accounted = λ all d (m, i). omega (
        arith,
        total-changed v w key r.elsewhere all t.versions_removed s.versions_removed d m r.accounted,
        g.accounted all d i,
      );
      elsewhere = λ k q. g.elsewhere k (ground (arith, q)) ∙ r.elsewhere k (ground (arith, q));
      scanned = omega (arith, r.scanned, g.scanned);
      ending = next-Ending g.ending;
    }

module _ (sp : Timestamp) (options : GcOptions) (h : options.budget.max_versions + 1 < 2 ^ 64)
    (z : 1 ≤ options.budget.max_versions) where
  pub scan_keys-yields :
      (ks : List Key) (w : View) (s : Scan)
      → Distinct ks
      → IsWellFormed w
      → s.exhausted_versions ≡ false
      → s.versions_removed ≤ options.budget.max_versions
      → Yields (scan_keys reference sp options ks s) w (λ s' w'. Scanned sp options ks w s s' w')
  unfolding scan_keys pure
  scan_keys-yields [] w s d f u b = record {
    value = s;
    after = w;
    result = refl;
    holds = record {
      steps = Steps.stay;
      within = b;
      accounted = λ all e i. refl;
      elsewhere = λ k q. refl;
      scanned = omega arith;
      ending = Ending.passed u tt;
    };
  }
  scan_keys-yields (key ∷ ks) w s (n, d) f u b =
      Yields-bind (λ t v. Round sp options key w s t v) _ _ _ w
        (scan_key-yields sp options h z key w s f u b)
        (λ t v r. elim (Bool-cases t.exhausted_versions) [
          | inl x ↦ rw x (record {
            value = t;
            after = v;
            result = refl;
            holds = Scanned-stop sp options key ks w v s t n r x;
          })
          | inr x ↦
              let rest =
                scan_keys-yields ks v t d (Steps-IsWellFormed sp w v r.steps f) x r.within in
              rw x (record {
                value = rest.value;
                after = rest.after;
                result = rest.result;
                holds =
                    Scanned-next sp options key ks w v s t n r x rest.value rest.after rest.holds;
              })
        ])
