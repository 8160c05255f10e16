-- ===== src/Engine/Requests/Collections.antt =====
-- What `gc` of src/engine.rs does to the state, whatever the number of rounds that are run.
use nexir_mvcc_core.Prelude.{ℕ, zero, suc, ◌+◌, Option, none, some, ◌≡◌, ◌∙◌, inl, inr, Bool-cases}
use nexir_mvcc_core.Types.{Timestamp}
use nexir_mvcc_core.Exec.{ok, pure, query, ◌>>=◌}
use nexir_mvcc_core.Exec.Yields.{Yields, Yields-pure}
use nexir_mvcc_core.Backend.Reference.{View, reference}
use nexir_mvcc_core.Backend.Reference.WellFormed.{IsWellFormed}
use nexir_mvcc_core.Engine.IncrementalGc.{GcOptions, IncrementalGcCursor, gc_incremental}
use nexir_mvcc_core.Engine.FullGc.{gc_loop, gc}
use nexir_mvcc_core.Engine.IncrementalGc.Cursor.{keys_of}
use nexir_mvcc_core.Engine.IncrementalGc.Steps.{Steps, stay, Steps-append, Steps-IsWellFormed}
use nexir_mvcc_core.Engine.IncrementalGc.Passes.{IsBudget, gc_incremental-yields}
use nexir_mvcc_core.Engine.IncrementalGc.Termination.{gc_loop-done, gc_loop-next}
use nexir_mvcc_core.Engine.IncrementalGc.Guarantees.{count_intents-zero}

module _ (sp : Timestamp) (options : GcOptions) (g : IsBudget options) where
  gc_loop-Steps :
      (fuel : ℕ) (cursor : Option IncrementalGcCursor) (n : ℕ) (w : View)
      → IsWellFormed w
      → Yields (gc_loop reference fuel sp options cursor n) w (λ o w'. Steps sp w w')
  unfolding gc_loop
  gc_loop-Steps zero cursor n w f = Yields-pure _ none w stay
  gc_loop-Steps (suc fuel) cursor n w f =
      let y = gc_incremental-yields sp options cursor w g f in
      elim (Bool-cases y.value.done) [
        | inl x ↦ record {
          value = some (n + y.value.versions_removed);
          after = y.after;
          result = gc_loop-done sp options fuel cursor n w y.after y.value y.result x;
          holds = y.holds.steps;
        }
        | inr x ↦
            let rest =
              gc_loop-Steps fuel (some y.value.cursor) (n + y.value.versions_removed) y.after
                (Steps-IsWellFormed sp w y.after y.holds.steps f) in
            record {
              value = rest.value;
              after = rest.after;
              result =
                  gc_loop-next sp options fuel cursor n w y.after y.value y.result x ∙ rest.result;
              holds = Steps-append sp w y.after rest.after y.holds.steps rest.holds;
            }
      ]

module _ (sp : Timestamp) (options : GcOptions) (fuel : ℕ) (w w' : View) where
  -- the count at the end changes nothing
  after-gc :
      (o : Option ℕ)
      → gc_loop reference fuel sp options none 0 w ≡ (ok o, w')
      → (gc reference fuel sp options w).1 ≡ w'
  unfolding gc query pure ◌>>=◌
  after-gc none h = rw h
  after-gc (some n) h = rw (h, count_intents-zero (keys_of w'.keys) w')

pub gc-Steps :
    (sp : Timestamp) (options : GcOptions) (g : IsBudget options) (fuel : ℕ) (w : View)
    → IsWellFormed w
    → Steps sp w (gc reference fuel sp options w).1
gc-Steps sp options g fuel w f =
    let y = gc_loop-Steps sp options g fuel none 0 w f in
    rw (after-gc sp options fuel w y.after y.value y.result) y.holds

pub gc_incremental-Steps :
    (sp : Timestamp) (options : GcOptions) (g : IsBudget options)
    (cursor : Option IncrementalGcCursor) (w : View)
    → IsWellFormed w
    → Steps sp w (gc_incremental reference sp cursor options w).1
gc_incremental-Steps sp options g cursor w f =
    let y = gc_incremental-yields sp options cursor w g f in rw y.result y.holds.steps
