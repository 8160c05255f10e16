-- ===== src/Examples/Gc.antt =====
-- `plan_key_gc` of src/engine.rs on a key with three versions, and the theorem about it there.
use nexir_mvcc_core.Prelude.{true, none, some, [], ◌∷◌, ◌≡◌, ◌≤◌, refl, arith, length}
use nexir_mvcc_core.Types.{Key}
use nexir_mvcc_core.Exec.{ok}
use nexir_mvcc_core.Backend.Reference.{View, empty, reference, visible, newest_before, latest}
use nexir_mvcc_core.Engine.Read.{read}
use nexir_mvcc_core.Engine.KeyGc.{KeyGcOptions, KeyGcPlan, plan_key_gc}
use nexir_mvcc_core.Engine.KeyGc.Tombstones.{read-collapse_tombstone}
use nexir_mvcc_core.Engine.KeyGc.SafePoint.{read-plan_key_gc, remove_versions}
use nexir_mvcc_core.Backend.Reference.{store_version}
use nexir_mvcc_core.Backend.Reference.WellFormed.{
  IsWellFormed, empty-IsWellFormed, store_version-IsWellFormed,
}
use nexir_mvcc_core.BTreeMap.{get, insert}
use nexir_mvcc_core.Ord.{bytes_ord, bytes_eq, bytes_cmp}

abbrev k : Key
k = 107 ∷ []

abbrev one : View
one = store_version (record { key = k; commit_ts = 5; value = some [] }) empty

abbrev two : View
two = store_version (record { key = k; commit_ts = 10; value = none }) one

abbrev three : View
three = store_version (record { key = k; commit_ts = 20; value = some (1 ∷ []) }) two

three-IsWellFormed : IsWellFormed three
three-IsWellFormed =
    store_version-IsWellFormed two
      (store_version-IsWellFormed one (store_version-IsWellFormed empty empty-IsWellFormed _) _) _

abbrev options : KeyGcOptions
options = record { max_versions_examined = 4; collapse_final_tombstones = true }

-- the keeper is the tombstone at 10, which is not the latest version
abbrev plan : KeyGcPlan
plan = record {
  key = k;
  versions_to_remove = 5 ∷ [];
  collapse_tombstone = none;
  versions_examined = 1;
  complete = true;
}

plan_lem : plan_key_gc reference k 15 options three ≡ ok plan
unfolding plan_key_gc store_version visible newest_before latest insert bytes_eq bytes_cmp
plan_lem = refl

read-plan_key_gc_example :
    (length plan.versions_to_remove ≤ 4)
    × (read reference k 15 (remove_versions k plan.versions_to_remove three)
        ≡ read reference k 15 three)
read-plan_key_gc_example =
    read-plan_key_gc k 15 options three plan three-IsWellFormed plan_lem k 15 (omega arith)

-- with the tombstone at 10 the latest version, a plan at 15 collapses it
abbrev whole_plan : KeyGcPlan
whole_plan = record {
  key = k;
  versions_to_remove = 5 ∷ [];
  collapse_tombstone = some 10;
  versions_examined = 1;
  complete = true;
}

whole_plan_lem : plan_key_gc reference k 15 options two ≡ ok whole_plan
unfolding plan_key_gc store_version visible newest_before latest insert bytes_eq bytes_cmp
whole_plan_lem = refl

read-collapse_tombstone_example :
    ((reference.collapse_tombstone k 10 (5 ∷ []) two).1.history_of k ≡ [])
    × (two.intent_of k ≡ none)
    × (get k (reference.collapse_tombstone k 10 (5 ∷ []) two).1.keys ≡ none)
    × (read reference k 15 (reference.collapse_tombstone k 10 (5 ∷ []) two).1
        ≡ read reference k 15 two)
read-collapse_tombstone_example =
    read-collapse_tombstone k 15 options two whole_plan 10
      (store_version-IsWellFormed one (store_version-IsWellFormed empty empty-IsWellFormed _) _)
      whole_plan_lem refl k 15 (omega arith)
