-- ===== src/Engine/IncrementalGc.antt =====
-- src/engine.rs: `GcBudget`, `GcOptions`, the cursor and `gc_incremental`.
pub mod Steps
pub mod Counting
pub mod Cleaning
pub mod Trims
pub mod Rounds
pub mod Equations
pub mod Wrap
pub mod Guarantees
pub mod Termination
pub mod Progress
pub mod Passes
pub mod Cursor
pub mod Totals
pub mod Scans
pub mod Branches
use nexir_mvcc_core.Prelude.{
  ℕ, zero, suc, ◌+◌, ◌-◌, ◌%◌, ◌^◌, Bool, true, false, not, ◌&&◌, ◌||◌, Option, none, some, List,
  [], ◌∷◌, ◌==◌, ltb, length, take, is_none, is_some, is_empty, get_elem?, pop, if◌then◌else◌,
}
use nexir_mvcc_core.Types.{Timestamp, Key, Intent, CommittedVersion}
use nexir_mvcc_core.Error.{GcError}
use nexir_mvcc_core.Exec.{Exec, pure, query, mutate, reject_if, ◌>>=◌, ◌>>◌}
use nexir_mvcc_core.Backend.{Backend}

pub record GcBudget : Type 0 where
  pub max_keys : ℕ
  pub max_versions : ℕ

pub record GcOptions : Type 0 where
  pub budget : GcBudget
  pub collapse_final_tombstones : Bool

pub record IncrementalGcCursor : Type 0 where
  pub next_key : Option Key

pub record IncrementalGcResult : Type 0 where
  pub cursor : IncrementalGcCursor
  pub done : Bool
  pub keys_scanned : ℕ
  pub versions_scanned : ℕ
  pub versions_removed : ℕ
  pub intents_preserved : ℕ

-- the local variables of `gc_incremental`; `next_cursor_key` is set where the loop breaks
pub record Scan : Type 0 where
  pub keys_scanned : ℕ
  pub versions_scanned : ℕ
  pub versions_removed : ℕ
  pub intents_preserved : ℕ
  pub next_cursor_key : Option Key
  pub exhausted_versions : Bool

abbrev pub start_scan : Scan
start_scan = record {
  keys_scanned = 0;
  versions_scanned = 0;
  versions_removed = 0;
  intents_preserved = 0;
  next_cursor_key = none;
  exhausted_versions = false;
}

-- `next_cursor_key = Some(key); exhausted_versions = true; break`
abbrev pub break_at : Key → Scan → Scan
break_at key scan = record scan { next_cursor_key = some key; exhausted_versions = true }

-- the counts of a round before the keeper is used
abbrev pub count_key : Option Intent → Scan → Scan
count_key found scan = record scan {
  keys_scanned = scan.keys_scanned + 1;
  intents_preserved =
      (if is_some found then scan.intents_preserved + 1 else scan.intents_preserved);
}

abbrev pub add_scanned : ℕ → Scan → Scan
add_scanned n scan = record scan { versions_scanned = scan.versions_scanned + n }

abbrev pub add_removed : ℕ → Scan → Scan
add_removed n scan = record scan { versions_removed = scan.versions_removed + n }

-- `let Some(latest_ts) = latest && latest_ts == commit_ts`
abbrev pub is_latest : Timestamp → Option Timestamp → Bool
is_latest commit_ts none = false
is_latest commit_ts (some latest_ts) = latest_ts == commit_ts

abbrev pub next_key_of : Option IncrementalGcCursor → Option Key
next_key_of none = none
next_key_of (some cursor) = cursor.next_key

-- the lines after the loop
abbrev pub finish_scan : List Key → ℕ → Scan → IncrementalGcResult
finish_scan keys max_keys scan =
    let more = ltb max_keys (length keys) in
    record {
      cursor = record {
        next_key =
            if scan.exhausted_versions
            then scan.next_cursor_key
            else if more
            then get_elem? keys max_keys
            else none;
      };
      done = not scan.exhausted_versions && not more;
      keys_scanned = scan.keys_scanned;
      versions_scanned = scan.versions_scanned;
      versions_removed = scan.versions_removed;
      intents_preserved = scan.intents_preserved;
    }

-- `a + b` on a 64-bit `usize`: it wraps, as in a release build, where a debug build panics
unfoldable pub add_usize : ℕ → ℕ → ℕ
add_usize a b = (a + b) % 2 ^ 64

module _ {S : Type 0} (b : Backend S) where
  -- the test of a final tombstone, which asks for the latest version only where it can be one
  unfoldable pub final_tombstone : Bool → Bool → Key → CommittedVersion → Exec S GcError Bool
  final_tombstone collapse has_intent key keeper =
      if collapse && is_none keeper.value && not has_intent
      then (do
        latest ← query GcError.backend (b.get_latest_commit_ts key)
        pure (is_latest keeper.commit_ts latest))
      else pure false

  -- `for ts in timestamps { remove_committed_version(key, ts)?; versions_removed += 1; }`
  unfoldable pub remove_versions : Key → List Timestamp → Scan → Exec S GcError Scan
  remove_versions key [] scan = pure scan
  remove_versions key (ts ∷ rest) scan = do
    mutate GcError.backend (b.remove_committed_version key ts)
    remove_versions key rest (add_removed 1 scan)

  -- the round of a key once the budget of versions is used up
  unfoldable pub scan_without_budget :
      Bool → Bool → Key → CommittedVersion → Scan → Exec S GcError Scan
  scan_without_budget collapse has_intent key keeper scan = do
    check_more ← query GcError.backend (b.get_committed_timestamps_before key keeper.commit_ts 1)
    if not (is_empty check_more) then pure (break_at key scan) else (do
      is_final ← final_tombstone collapse has_intent key keeper
      pure (if is_final then break_at key scan else scan))

  -- the round of a final tombstone, with its page of at most `limit + 1` older versions
  unfoldable pub scan_final :
      Key → CommittedVersion → ℕ → List Timestamp → Scan → Exec S GcError Scan
  scan_final key keeper limit older scan =
      if ltb limit (length older)
      then (do
        removed ← remove_versions key (pop older) (add_scanned (length older - 1) scan)
        pure (break_at key removed))
      else if ltb (length older) limit
      then (do
        mutate GcError.backend (b.collapse_tombstone key keeper.commit_ts older)
        pure (add_removed (length older + 1) (add_scanned (length older) scan)))
      else (do
        removed ← remove_versions key older (add_scanned (length older) scan)
        pure (break_at key removed))

  -- the round of any other keeper, with its page of at most `limit + 1` older versions
  unfoldable pub scan_older : Key → ℕ → List Timestamp → Scan → Exec S GcError Scan
  scan_older key limit to_remove scan =
      if ltb limit (length to_remove)
      then (do
        removed ← remove_versions key (pop to_remove) (add_scanned (length to_remove - 1) scan)
        pure (break_at key removed))
      else remove_versions key to_remove (add_scanned (length to_remove) scan)

  -- the round of a key with a keeper
  unfoldable pub scan_keeper :
      GcOptions → Bool → Key → CommittedVersion → Scan → Exec S GcError Scan
  scan_keeper options has_intent key keeper scan =
      let limit = options.budget.max_versions - scan.versions_removed in
      if limit == 0
      then scan_without_budget options.collapse_final_tombstones has_intent key keeper scan
      else (do
        is_final ← final_tombstone options.collapse_final_tombstones has_intent key keeper
        older ←
            query GcError.backend
              (b.get_committed_timestamps_before key keeper.commit_ts (add_usize limit 1))
        if is_final
            then scan_final key keeper limit older scan
            else scan_older key limit older scan)

  -- one round of the loop over the keys
  unfoldable pub scan_key : Timestamp → GcOptions → Key → Scan → Exec S GcError Scan
  scan_key safe_point_ts options key scan = do
    found ← query GcError.backend (b.get_intent key)
    keeper ← query GcError.backend (b.get_visible_committed key safe_point_ts)
    elim keeper [
      | none ↦ pure (count_key found scan)
      | some version ↦
          scan_keeper options (is_some found) key version (add_scanned 1 (count_key found scan))
    ]

  unfoldable pub scan_keys : Timestamp → GcOptions → List Key → Scan → Exec S GcError Scan
  scan_keys safe_point_ts options [] scan = pure scan
  scan_keys safe_point_ts options (key ∷ keys) scan = do
    scanned ← scan_key safe_point_ts options key scan
    elim scanned.exhausted_versions [
      | true ↦ pure scanned
      | false ↦ scan_keys safe_point_ts options keys scanned
    ]

  unfoldable pub gc_incremental :
      Timestamp → Option IncrementalGcCursor → GcOptions → Exec S GcError IncrementalGcResult
  gc_incremental safe_point_ts cursor options = do
    reject_if (options.budget.max_keys == 0 || options.budget.max_versions == 0)
        GcError.invalid_gc_budget
    keys ←
        query GcError.backend
          (b.keys_from (next_key_of cursor) (add_usize options.budget.max_keys 1))
    scan ← scan_keys safe_point_ts options (take options.budget.max_keys keys) start_scan
    pure (finish_scan keys options.budget.max_keys scan)
