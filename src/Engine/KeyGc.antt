-- ===== src/Engine/KeyGc.antt =====
-- src/engine.rs: `KeyGcOptions`, `KeyGcPlan` and `plan_key_gc`.
pub mod SafePoint
pub mod Collapses
pub mod Tombstones
use nexir_mvcc_core.Prelude.{
  ℕ, Bool, true, false, ◌&&◌, Option, none, some, List, [], ◌==◌, ltb, length, take, is_none,
  if◌then◌else◌,
}
use nexir_mvcc_core.Types.{Timestamp, Key, CommittedVersion}
use nexir_mvcc_core.Error.{GcError}
use nexir_mvcc_core.Exec.{Result, ok, err, map_err, and_then}
use nexir_mvcc_core.Backend.{Backend}
use nexir_mvcc_core.Engine.WriteBatches.{ts_eq}

pub record KeyGcOptions : Type 0 where
  pub max_versions_examined : ℕ
  pub collapse_final_tombstones : Bool

pub record KeyGcPlan : Type 0 where
  pub key : Key
  pub versions_to_remove : List Timestamp
  pub collapse_tombstone : Option Timestamp
  pub versions_examined : ℕ
  pub complete : Bool

abbrev pub empty_plan : Key → KeyGcPlan
empty_plan key = record {
  key = key;
  versions_to_remove = [];
  collapse_tombstone = none;
  versions_examined = 0;
  complete = true;
}

-- the plan from the page of older timestamps
unfoldable pub plan_of : Key → CommittedVersion → ℕ → Bool → List Timestamp → KeyGcPlan
plan_of key keeper max_examined collapse page =
    let complete = ltb (length page) max_examined in
    let versions_to_remove = take max_examined page in
    record {
      key = key;
      versions_to_remove = versions_to_remove;
      collapse_tombstone = if collapse && complete then some keeper.commit_ts else none;
      versions_examined = length versions_to_remove;
      complete = complete;
    }

module _ {S : Type 0} (b : Backend S) where
  -- `collapse_final_tombstone`: the keeper is an unshadowed tombstone with no intent
  unfoldable pub is_final_tombstone : Key → CommittedVersion → Bool → S → Result GcError Bool
  unfolding ts_eq
  is_final_tombstone key keeper collapse s =
      if collapse && is_none keeper.value
      then and_then (map_err GcError.backend (b.get_intent key s)) (λ found.
        if is_none found
        then and_then (map_err GcError.backend (b.get_latest_commit_ts key s))
            (λ latest. ok (ts_eq latest (some keeper.commit_ts)))
        else ok false)
      else ok false

  -- the plan below a keeper
  unfoldable pub plan_below : Key → CommittedVersion → KeyGcOptions → S → Result GcError KeyGcPlan
  unfolding plan_of is_final_tombstone
  plan_below key keeper options s =
      and_then (is_final_tombstone key keeper options.collapse_final_tombstones s) (λ collapse.
        and_then
          (map_err GcError.backend (
            b.get_committed_timestamps_before key keeper.commit_ts options.max_versions_examined s))
          (λ page. ok (plan_of key keeper options.max_versions_examined collapse page)))

  unfoldable pub plan_key_gc : Key → Timestamp → KeyGcOptions → S → Result GcError KeyGcPlan
  unfolding plan_below
  plan_key_gc key safe_point_ts options s =
      if options.max_versions_examined == 0
      then err GcError.invalid_key_gc_budget
      else and_then (map_err GcError.backend (b.get_visible_committed key safe_point_ts s))
          (λ keeper. elim keeper [
            | none ↦ ok (empty_plan key)
            | some version ↦ plan_below key version options s
          ])
