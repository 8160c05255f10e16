-- ===== src/Engine/IncrementalGc/Guarantees.antt =====
-- What callers of `gc_incremental` and `gc` in src/engine.rs can rely on, over the reference backend.
use nexir_mvcc_core.Prelude.{
  ℕ, suc, ◌+◌, ◌≤◌, ◌<◌, Bool, Option, none, some, List, [], ◌∷◌, ◌≡◌, refl, ap, ◌∙◌, arith, length,
  is_some, is_none, ◌&&◌, inl, inr, Option-cases, filter_by, if◌then◌else◌,
}
use nexir_mvcc_core.Types.{Timestamp, Key}
use nexir_mvcc_core.Exec.{ok, pure, query, ◌>>=◌}
use nexir_mvcc_core.Exec.Yields.{Yields}
use nexir_mvcc_core.Backend.Reference.{View, reference, visible}
use nexir_mvcc_core.Backend.Reference.WellFormed.{IsWellFormed}
use nexir_mvcc_core.Engine.Read.{read}
use nexir_mvcc_core.Engine.Calls.Consistency.{IsConsistent}
use nexir_mvcc_core.Engine.IncrementalGc.{
  GcOptions, IncrementalGcCursor, IncrementalGcResult, next_key_of, gc_incremental,
}
use nexir_mvcc_core.Engine.FullGc.{GcStats, gc_loop, count_intents, gc}
use nexir_mvcc_core.Engine.IncrementalGc.Steps.{
  older_times, Steps-IsConsistent, intent-Steps, read-Steps,
}
use nexir_mvcc_core.Engine.IncrementalGc.Trims.{IsClean, is_newest}
use nexir_mvcc_core.Engine.IncrementalGc.Totals.{total}
use nexir_mvcc_core.Engine.IncrementalGc.Cursor.{keys_of, keys_of-IsRising, IsRising-Distinct}
use nexir_mvcc_core.Engine.IncrementalGc.Passes.{IsBudget, gc_incremental-yields}
use nexir_mvcc_core.Engine.IncrementalGc.Progress.{Covers-keys, Covers-IsWithin}
use nexir_mvcc_core.Engine.IncrementalGc.Termination.{Finished, gc_loop-yields, count_ahead}

module _ (sp : Timestamp) (options : GcOptions) (g : IsBudget options) where
  -- With budgets that are at least one and below the largest `usize`, from a consistent state and at
  -- any cursor, `gc_incremental` returns `Ok`, leaves a consistent state and every intent, and every
  -- read at the safe point or later returns what it returned before.
  pub gc_incremental-read :
      (cursor : Option IncrementalGcCursor) (w : View)
      → IsConsistent w
      → (k : Key) (r : Timestamp) → sp ≤ r
      → (res : IncrementalGcResult) × (w' : View) × (gc_incremental reference sp cursor options w
          ≡ (ok res, w'))
        × IsConsistent w'
        × (w'.intent_of k ≡ w.intent_of k)
        × (read reference k r w' ≡ read reference k r w)
  gc_incremental-read cursor w f k r q =
      let y = gc_incremental-yields sp options cursor w g f.in_order in
      (
        y.value,
        y.after,
        y.result,
        Steps-IsConsistent sp w y.after y.holds.steps f,
        intent-Steps sp k w y.after y.holds.steps,
        read-Steps sp k r w y.after y.holds.steps f.in_order q,
      )

  -- With such budgets, from a well-formed state and at any cursor, `gc_incremental` returns `Ok`,
  -- scans at most `max_keys` keys, removes at most `max_versions` versions, and `versions_removed` is
  -- exactly the number of versions that the keys of the key set have lost.
  pub gc_incremental_bounds :
      (cursor : Option IncrementalGcCursor) (w : View)
      → IsWellFormed w
      → (res : IncrementalGcResult) × (w' : View) × (gc_incremental reference sp cursor options w
          ≡ (ok res, w'))
        × (res.keys_scanned ≤ options.budget.max_keys)
        × (res.versions_removed ≤ options.budget.max_versions)
        × (total (keys_of w.keys) w' + res.versions_removed ≡ total (keys_of w.keys) w)
  gc_incremental_bounds cursor w f =
      let y = gc_incremental-yields sp options cursor w g f in
      (
        y.value,
        y.after,
        y.result,
        y.holds.scanned,
        y.holds.within,
        y.holds.accounted (keys_of w.keys)
            (IsRising-Distinct (keys_of w.keys) (keys_of-IsRising w.keys f.keys_sorted))
            (Covers-IsWithin (keys_of w.keys) w (next_key_of cursor) f (Covers-keys w f)),
      )

-- the versions of a key that a collection at the safe point has to remove: those older than the one
-- that reads there see, and that one itself where it is a final tombstone to be collapsed
abbrev pub collectable : Timestamp → Bool → View → Key → List Timestamp
collectable sp collapse_final w key = elim (visible sp (w.history_of key)) [
  | none ↦ []
  | some e ↦
      if collapse_final
        && is_none e.1
        && is_none (w.intent_of key)
        && is_newest e.0 (w.history_of key)
      then e.0 ∷ older_times e.0 (w.history_of key)
      else older_times e.0 (w.history_of key)
]

clean-collectable :
    (sp : Timestamp) (c : Bool) (w : View) (k : Key) → IsClean sp c w k → collectable sp c w k ≡ []
clean-collectable sp c w k f = elim (Option-cases (visible sp (w.history_of k))) [
  | inl n ↦ ground (arith, n)
  | inr (e, v) ↦ let (a, b) = f e v in ground (arith, v, a, b)
]

-- how many keys have an intent
abbrev pub intents_among : List Key → View → ℕ
intents_among ks w = length (filter_by (λ k. is_some (w.intent_of k)) ks)

count_intents_lem :
    (ks : List Key) (n : ℕ) (w : View)
    → count_intents reference ks n w ≡ (ok (n + intents_among ks w), w)
unfolding count_intents query pure ◌>>=◌
count_intents_lem [] n w = ground arith
count_intents_lem (k ∷ ks) n w =
    count_intents_lem ks (if is_some (w.intent_of k) then n + 1 else n) w ∙ ground arith

pub count_intents-zero :
    (ks : List Key) (w : View) → count_intents reference ks 0 w ≡ (ok (intents_among ks w), w)
count_intents-zero ks w =
    let e : 0 + intents_among ks w ≡ intents_among ks w = omega arith in
    count_intents_lem ks 0 w ∙ ap (λ n. (ok n, w)) e

count_ahead-none : (ks : List Key) → count_ahead none ks ≡ length ks
count_ahead-none [] = refl
count_ahead-none (k ∷ ks) = ap suc (count_ahead-none ks)

module _ (fuel : ℕ) (sp : Timestamp) (options : GcOptions) (w w' : View) (n : ℕ)
    (h : gc_loop reference fuel sp options none 0 w ≡ (ok (some n), w')) where
  gc-result : gc reference fuel sp options w ≡ (
    ok (
        some (record {
          versions_removed = n;
          intents_preserved = intents_among (keys_of w'.keys) w';
        })),
    w',
  )
  unfolding gc query pure ◌>>=◌
  gc-result = rw (h, count_intents-zero (keys_of w'.keys) w')

module _ (sp : Timestamp) (options : GcOptions) (g : IsBudget options) (fuel : ℕ) (w : View) where
  loop-Finished :
      IsWellFormed w
      → length (keys_of w.keys) + total (keys_of w.keys) w < fuel
      → Yields
          (gc_loop reference fuel sp options none 0)
          w
          (λ o w'. Finished sp options (keys_of w.keys) w 0 o w')
  loop-Finished f m =
      gc_loop-yields sp options g (keys_of w.keys)
        (IsRising-Distinct (keys_of w.keys) (keys_of-IsRising w.keys f.keys_sorted)) fuel none 0 w f
        (Covers-keys w f) (λ k q. cc) (omega (arith, count_ahead-none (keys_of w.keys), m))

  -- With budgets that are at least one and below the largest `usize`, from a well-formed state, `gc`
  -- ends within as many calls of `gc_incremental` as there are keys and versions, and one more. It
  -- returns `Ok`; its `versions_removed` is exactly the number of versions that the keys have lost, and
  -- its `intents_preserved` the number of keys with an intent.
  pub gc_terminates :
      IsWellFormed w
      → length (keys_of w.keys) + total (keys_of w.keys) w < fuel
      → (stats : GcStats) × (w' : View) × (gc reference fuel sp options w ≡ (ok (some stats), w'))
        × (total (keys_of w.keys) w' + stats.versions_removed ≡ total (keys_of w.keys) w)
        × (stats.intents_preserved ≡ intents_among (keys_of w'.keys) w')
  gc_terminates f m =
      let y = loop-Finished f m in
      (
        record {
          versions_removed = y.holds.removed;
          intents_preserved = intents_among (keys_of y.after.keys) y.after;
        },
        y.after,
        gc-result fuel sp options w y.after y.holds.removed
            (y.result ∙ ap (λ o. (ok o, y.after)) y.holds.found),
        omega (arith, y.holds.accounted),
        refl,
      )

  -- With such budgets and as many calls, from a consistent state, `gc` leaves a consistent state in
  -- which no key has anything to collect: no version older than the one that reads at the safe point
  -- see, and, where final tombstones are collapsed, no such tombstone. Intents and reads at the safe
  -- point or later are as before.
  pub gc_collects :
      IsConsistent w
      → length (keys_of w.keys) + total (keys_of w.keys) w < fuel
      → (k : Key) (r : Timestamp) → sp ≤ r
      → (stats : GcStats) × (w' : View) × (gc reference fuel sp options w ≡ (ok (some stats), w'))
        × (collectable sp options.collapse_final_tombstones w' k ≡ [])
        × IsConsistent w'
        × (w'.intent_of k ≡ w.intent_of k)
        × (read reference k r w' ≡ read reference k r w)
  gc_collects f m k r q =
      let y = loop-Finished f.in_order m in
      (
        record {
          versions_removed = y.holds.removed;
          intents_preserved = intents_among (keys_of y.after.keys) y.after;
        },
        y.after,
        gc-result fuel sp options w y.after y.holds.removed
            (y.result ∙ ap (λ o. (ok o, y.after)) y.holds.found),
        clean-collectable sp options.collapse_final_tombstones y.after k (y.holds.clean k),
        Steps-IsConsistent sp w y.after y.holds.steps f,
        intent-Steps sp k w y.after y.holds.steps,
        read-Steps sp k r w y.after y.holds.steps f.in_order q,
      )
