-- ===== src/Engine/IncrementalGc/Passes.antt =====
-- One call of `gc_incremental` of src/engine.rs, over the reference backend.
use nexir_mvcc_core.Prelude.{
  ℕ, zero, suc, ◌+◌, ◌^◌, ◌≤◌, ◌<◌, Bool, true, false, ◌||◌, Option, some, List, [], ◌∷◌, ◌++◌, ◌≡◌,
  refl, subst, ◌∙◌, inl, inr, arith, ◌==◌, ltb, length, length-take-le, take, All, Bool-cases,
}
use nexir_mvcc_core.Ord.{bytes_ord}
use nexir_mvcc_core.Types.{Timestamp, Key}
use nexir_mvcc_core.Exec.{query, reject_if, ◌>>=◌}
use nexir_mvcc_core.Exec.Yields.{Yields}
use nexir_mvcc_core.Backend.Reference.{View, reference}
use nexir_mvcc_core.Backend.Reference.WellFormed.{IsWellFormed}
use nexir_mvcc_core.Backend.Reference.Effects.{Distinct}
use nexir_mvcc_core.Engine.Batch.{contains}
use nexir_mvcc_core.Engine.IncrementalGc.{
  GcOptions, Scan, IncrementalGcCursor, IncrementalGcResult, start_scan, next_key_of, finish_scan,
  gc_incremental,
}
use nexir_mvcc_core.Engine.IncrementalGc.Steps.{Steps}
use nexir_mvcc_core.Engine.IncrementalGc.Trims.{IsClean}
use nexir_mvcc_core.Engine.IncrementalGc.Equations.{add_usize_lem}
use nexir_mvcc_core.Engine.IncrementalGc.Totals.{total}
use nexir_mvcc_core.Engine.IncrementalGc.Scans.{
  Scanned, Ending, passed, stopped, IsWithin, scan_keys-yields,
}
use nexir_mvcc_core.Engine.IncrementalGc.Cursor.{
  ahead, keys_at-ahead, ahead-IsRising, IsRising-take, IsRising-Distinct, take-prefix, take-next,
  take-rest, take-take,
}

-- budgets that are not zero and leave room on a `usize` for one more
pub record IsBudget (options : GcOptions) : Type 0 where
  pub some_keys : 1 ≤ options.budget.max_keys
  pub some_versions : 1 ≤ options.budget.max_versions
  pub keys_fit : options.budget.max_keys + 1 < 2 ^ 64
  pub versions_fit : options.budget.max_versions + 1 < 2 ^ 64

-- how a call ends: done with every key ahead, or with a cursor at a key, and some progress
pub data Onward (sp : Timestamp) (c : Bool) (ks : List Key) (res : IncrementalGcResult) (w : View)
    : Type 0 where
  done : res.done ≡ true → All (λ k. IsClean sp c w k) ks → Onward sp c ks res w
  next :
      (xs ys : List Key) (key : Key)
      → res.done ≡ false
      → res.cursor.next_key ≡ some key
      → ks ≡ xs ++ key ∷ ys
      → All (λ k. IsClean sp c w k) xs
      → 1 ≤ res.versions_removed + length xs
      → Onward sp c ks res w

pub record Pass (sp : Timestamp) (options : GcOptions) (start : Option Key) (w : View)
    (res : IncrementalGcResult) (w' : View) : Type 0 where
  pub steps : Steps sp w w'
  pub within : res.versions_removed ≤ options.budget.max_versions
  pub scanned : res.keys_scanned ≤ options.budget.max_keys
  pub accounted :
      (all : List Key)
      → Distinct all
      → IsWithin (ahead start w.keys) all
      → total all w' + res.versions_removed ≡ total all w
  pub elsewhere :
      (k : Key) → contains (ahead start w.keys) k ≡ false → w'.history_of k ≡ w.history_of k
  pub onward : Onward sp options.collapse_final_tombstones (ahead start w.keys) res w'

contains-take :
    (n : ℕ) (ks : List Key) (k : Key) → contains ks k ≡ false → contains (take n ks) k ≡ false
unfolding contains
contains-take zero ks k q = refl
contains-take (suc n) [] k q = refl
contains-take (suc n) (j ∷ ks) k q = ground (arith, contains-take n ks k)

IsWithin-take : (n : ℕ) (ks all : List Key) → IsWithin ks all → IsWithin (take n ks) all
IsWithin-take zero ks all a = tt
IsWithin-take (suc n) [] all a = tt
IsWithin-take (suc n) (k ∷ ks) all (p, a) = (p, IsWithin-take n ks all a)

module _ (sp : Timestamp) (options : GcOptions) (g : IsBudget options) (w w' : View)
    (f : IsWellFormed w) (start : Option Key) (s : Scan)
    (r : Scanned sp options
      (take options.budget.max_keys (ahead start w.keys))
      w
      start_scan
      s
      w') where
  abbrev visit : List Key
  visit = ahead start w.keys

  abbrev max : ℕ
  max = options.budget.max_keys

  abbrev result : IncrementalGcResult
  result = finish_scan (take (suc max) visit) max s

  Ending-Onward :
      Ending sp options.collapse_final_tombstones (take max visit) s w'
      → Onward sp options.collapse_final_tombstones visit result w'
  Ending-Onward (stopped past rest key x n z q a) =
      let (more, e) = take-prefix max visit past rest key q in
      Onward.next past more key (rw x) (rw (x, n)) e a (omega (arith, z))
  Ending-Onward (passed x a) = elim (Bool-cases (ltb max (length (take (suc max) visit)))) [
    | inl q ↦
        let (key, rest, n, e, l) = take-next max visit (ground (arith, q)) in
        Onward.next (take max visit) rest key (rw (x, q)) (rw (x, q, n)) e a
          (omega (arith, l, g.some_keys))
    | inr q ↦ Onward.done (rw (x, q)) (
        subst (All (λ k. IsClean sp options.collapse_final_tombstones w' k))
          (take-rest max visit (ground (arith, q))) a)
  ]

  scanned-Pass : Pass sp options start w result w'
  scanned-Pass = record {
    steps = r.steps;
    within = r.within;
    scanned = omega (arith, r.scanned, length-take-le max visit);
    accounted = λ all d i. r.accounted all d (IsWithin-take max visit all i) ∙ omega arith;
    elsewhere = λ k q. r.elsewhere k (contains-take max visit k q);
    onward = Ending-Onward r.ending;
  }

budget_accepted :
    (options : GcOptions)
    → IsBudget options
    → (options.budget.max_keys == 0 || options.budget.max_versions == 0) ≡ false
budget_accepted options g = ground (arith, g.some_keys, g.some_versions)

pub gc_incremental-yields :
    (sp : Timestamp) (options : GcOptions) (cursor : Option IncrementalGcCursor) (w : View)
    → IsBudget options
    → IsWellFormed w
    → Yields
        (gc_incremental reference sp cursor options)
        w
        (λ res w'. Pass sp options (next_key_of cursor) w res w')
unfolding gc_incremental reject_if query ◌>>=◌
gc_incremental-yields sp options cursor w g f =
    let start = next_key_of cursor in
    let max = options.budget.max_keys in
    let visit = ahead start w.keys in
    let rising = ahead-IsRising start w.keys f.keys_sorted in
    let y =
      scan_keys-yields sp options g.versions_fit g.some_versions (take max visit) w start_scan
        (IsRising-Distinct (take max visit) (IsRising-take max visit rising)) f refl
        (omega arith) in
    record {
      value = finish_scan (take (suc max) visit) max y.value;
      after = y.after;
      result = rw (
        budget_accepted options g,
        add_usize_lem max g.keys_fit,
        keys_at-ahead start (suc max) w.keys,
        take-take max visit,
        y.result,
      );
      holds = scanned-Pass sp options g w y.after f start y.value y.holds;
    }
