-- ===== src/Engine/FullGc.antt =====
-- src/engine.rs: `GcStats` and `gc`, which repeats `gc_incremental` to completion.
use nexir_mvcc_core.Prelude.{
  ℕ, zero, suc, ◌+◌, Option, none, some, true, false, List, [], ◌∷◌, is_some, if◌then◌else◌,
}
use nexir_mvcc_core.Types.{Timestamp, Key}
use nexir_mvcc_core.Error.{GcError}
use nexir_mvcc_core.Exec.{Exec, pure, query, ◌>>=◌}
use nexir_mvcc_core.Backend.{Backend}
use nexir_mvcc_core.Engine.IncrementalGc.{GcOptions, IncrementalGcCursor, gc_incremental}

pub record GcStats : Type 0 where
  pub versions_removed : ℕ
  pub intents_preserved : ℕ

module _ {S : Type 0} (b : Backend S) where
  -- the loop of `gc`, on fuel: `none` where the fuel runs out before a step is done
  unfoldable pub gc_loop :
      ℕ → Timestamp → GcOptions → Option IncrementalGcCursor → ℕ → Exec S GcError (Option ℕ)
  gc_loop zero safe_point_ts options cursor total = pure none
  gc_loop (suc fuel) safe_point_ts options cursor total = do
    res ← gc_incremental b safe_point_ts cursor options
    elim res.done [
      | true ↦ pure (some (total + res.versions_removed))
      | false ↦ gc_loop fuel safe_point_ts options (some res.cursor) (total + res.versions_removed)
    ]

  -- the loop over `all_keys` at the end of `gc`
  unfoldable pub count_intents : List Key → ℕ → Exec S GcError ℕ
  count_intents [] total = pure total
  count_intents (key ∷ keys) total = do
    found ← query GcError.backend (b.get_intent key)
    count_intents keys (if is_some found then total + 1 else total)

  -- `gc`; `none` where the fuel ran out
  unfoldable pub gc : ℕ → Timestamp → GcOptions → Exec S GcError (Option GcStats)
  gc fuel safe_point_ts options = do
    removed ← gc_loop fuel safe_point_ts options none 0
    elim removed [
      | none ↦ pure none
      | some total ↦ do
        keys ← query GcError.backend b.all_keys
        preserved ← count_intents keys 0
        pure (some (record { versions_removed = total; intents_preserved = preserved }))
    ]
