-- ===== src/Examples/Collection.antt =====
-- `gc_incremental` and `gc` of src/engine.rs on a key with three versions.
use nexir_mvcc_core.Prelude.{◌+◌, ◌≤◌, true, none, some, [], ◌∷◌, ◌≡◌, refl, arith, length}
use nexir_mvcc_core.Ord.{bytes_eq, bytes_cmp, nat_ord}
use nexir_mvcc_core.BTreeMap.{insert, remove}
use nexir_mvcc_core.Types.{Key}
use nexir_mvcc_core.Exec.{ok}
use nexir_mvcc_core.Backend.Reference.{
  View, empty, reference, visible, latest, store_version, map_version,
}
use nexir_mvcc_core.Backend.Reference.WellFormed.{empty-IsWellFormed, store_version-IsWellFormed}
use nexir_mvcc_core.Engine.Read.{read, value_of}
use nexir_mvcc_core.Engine.Calls.Consistency.{IsConsistent}
use nexir_mvcc_core.Engine.IncrementalGc.{
  GcOptions, IncrementalGcResult, start_scan, scan_key, gc_incremental,
}
use nexir_mvcc_core.Engine.FullGc.{GcStats, gc}
use nexir_mvcc_core.Engine.IncrementalGc.Totals.{total}
use nexir_mvcc_core.Engine.IncrementalGc.Cursor.{keys_of}
use nexir_mvcc_core.Engine.IncrementalGc.Passes.{IsBudget}
use nexir_mvcc_core.Engine.IncrementalGc.Guarantees.{
  collectable, intents_among, gc_incremental-read, gc_incremental_bounds, gc_terminates,
  gc_collects,
}
use nexir_mvcc_core.Engine.IncrementalGc.Wrap.{max_usize, gc_incremental_idle, scan_key_exposes}

abbrev k : Key
k = 107 ∷ []

-- a value at 5 below a tombstone at 10
abbrev buried : View
buried =
    store_version (record { key = k; commit_ts = 10; value = none })
      (store_version (record { key = k; commit_ts = 5; value = some (1 ∷ []) }) empty)

buried-IsConsistent : IsConsistent buried
unfolding store_version
buried-IsConsistent = record {
  in_order = store_version-IsWellFormed _ (store_version-IsWellFormed empty empty-IsWellFormed _) _;
  unshadowed = λ j i h. cc;
}

abbrev options : GcOptions
options = record {
  budget = record { max_keys = 3; max_versions = 1 };
  collapse_final_tombstones = true;
}

options-IsBudget : IsBudget options
options-IsBudget = record {
  some_keys = omega arith;
  some_versions = omega arith;
  keys_fit = omega arith;
  versions_fit = omega arith;
}

gc_incremental-read_example :
    (res : IncrementalGcResult) × (w' : View) × (gc_incremental reference 15 none options buried
      ≡ (ok res, w'))
    × IsConsistent w'
    × (w'.intent_of k ≡ buried.intent_of k)
    × (read reference k 15 w' ≡ read reference k 15 buried)
gc_incremental-read_example =
    gc_incremental-read 15 options options-IsBudget none buried buried-IsConsistent k 15
      (omega arith)

gc_incremental_bounds_example :
    (res : IncrementalGcResult) × (w' : View) × (gc_incremental reference 15 none options buried
      ≡ (ok res, w'))
    × (res.keys_scanned ≤ 3)
    × (res.versions_removed ≤ 1)
    × (total (keys_of buried.keys) w' + res.versions_removed ≡ total (keys_of buried.keys) buried)
gc_incremental_bounds_example =
    gc_incremental_bounds 15 options options-IsBudget none buried buried-IsConsistent.in_order

buried-size : length (keys_of buried.keys) + total (keys_of buried.keys) buried ≡ 3
unfolding store_version insert bytes_cmp bytes_eq
buried-size = refl

gc_terminates_example :
    (stats : GcStats) × (w' : View) × (gc reference 4 15 options buried ≡ (ok (some stats), w'))
    × (total (keys_of buried.keys) w' + stats.versions_removed ≡ total (keys_of buried.keys) buried)
    × (stats.intents_preserved ≡ intents_among (keys_of w'.keys) w')
gc_terminates_example =
    gc_terminates 15 options options-IsBudget 4 buried buried-IsConsistent.in_order
      (omega (arith, buried-size))

gc_collects_example :
    (stats : GcStats) × (w' : View) × (gc reference 4 15 options buried ≡ (ok (some stats), w'))
    × (collectable 15 true w' k ≡ [])
    × IsConsistent w'
    × (w'.intent_of k ≡ buried.intent_of k)
    × (read reference k 15 w' ≡ read reference k 15 buried)
gc_collects_example =
    gc_collects 15 options options-IsBudget 4 buried buried-IsConsistent
      (omega (arith, buried-size)) k 15 (omega arith)

-- budgets of `usize::MAX`
abbrev unlimited : GcOptions
unlimited = record {
  budget = record { max_keys = max_usize; max_versions = max_usize };
  collapse_final_tombstones = true;
}

gc_incremental_idle_example : gc_incremental reference 15 none unlimited buried ≡ (
  ok (record {
    cursor = record { next_key = none };
    done = true;
    keys_scanned = 0;
    versions_scanned = 0;
    versions_removed = 0;
    intents_preserved = 0;
  }),
  buried,
)
gc_incremental_idle_example = gc_incremental_idle 15 unlimited none buried refl refl

buried-visible : visible 15 (buried.history_of k) ≡ some (10, none)
unfolding store_version insert bytes_cmp bytes_eq visible
buried-visible = refl

buried-latest : latest (buried.history_of k) ≡ some (10, none)
unfolding store_version insert bytes_cmp bytes_eq latest
buried-latest = refl

buried-intent : buried.intent_of k ≡ none
unfolding store_version
buried-intent = refl

scan_key_exposes_example :
    ((scan_key reference 15 unlimited k start_scan buried).1.history_of k
      ≡ remove 10 (buried.history_of k))
    × (read reference k 15 buried ≡ ok none)
    × (read reference k 15 (scan_key reference 15 unlimited k start_scan buried).1
        ≡ ok (value_of (map_version k (visible 15 (remove 10 (buried.history_of k))))))
scan_key_exposes_example =
    scan_key_exposes 15 unlimited k buried (10, none) refl refl buried-visible refl buried-intent
      buried-latest

-- the value that the tombstone deleted is back
exposed_value :
    value_of (map_version k (visible 15 (remove 10 (buried.history_of k)))) ≡ some (1 ∷ [])
unfolding store_version insert bytes_cmp bytes_eq visible remove
exposed_value = refl
