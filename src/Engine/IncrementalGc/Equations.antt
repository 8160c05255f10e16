-- ===== src/Engine/IncrementalGc/Equations.antt =====
-- What the round of a keeper in `gc_incremental` of src/engine.rs computes over the reference backend, and
-- the rounds that change nothing.
use nexir_mvcc_core.Prelude.{
  ℕ, suc, ◌+◌, ◌-◌, ◌^◌, ◌≤◌, ◌<◌, Bool, true, false, not, ◌&&◌, Option, none, some, List, [], ◌∷◌,
  ◌≡◌, refl, inl, inr, arith, ◌==◌, take, get_elem?, is_none, is_empty, Bool-cases, if◌then◌else◌,
}
use nexir_mvcc_core.Types.{Timestamp, Key, Value}
use nexir_mvcc_core.Exec.{ok, pure, query, ◌>>=◌}
use nexir_mvcc_core.Backend.Reference.{View, reference, newest_before, to_version}
use nexir_mvcc_core.Engine.IncrementalGc.{
  GcOptions, Scan, break_at, count_key, add_scanned, add_usize, scan_without_budget, scan_final,
  scan_older, scan_keeper,
}
use nexir_mvcc_core.Engine.IncrementalGc.Steps.{Steps, older_times}
use nexir_mvcc_core.Engine.IncrementalGc.Trims.{is_newest, IsClean, final_tombstone_lem}
use nexir_mvcc_core.Engine.IncrementalGc.Rounds.{Round}

pub get_elem?-nil : {A : Type 0} (xs : List A) → get_elem? xs 0 ≡ none → xs ≡ []
get_elem?-nil [] q = refl
get_elem?-nil (x ∷ xs) q = cc

pub is_empty-take-some :
    {A : Type 0} (xs : List A) (x : A) → get_elem? xs 0 ≡ some x → is_empty (take 1 xs) ≡ false
is_empty-take-some [] x q = cc
is_empty-take-some (y ∷ xs) x q = refl

pub add_usize_lem : (a : ℕ) → a + 1 < 2 ^ 64 → add_usize a 1 ≡ suc a
unfolding add_usize
add_usize_lem a h = omega arith

module _ (sp : Timestamp) (options : GcOptions) (key : Key) (w : View) (s : Scan)
    (u : s.exhausted_versions ≡ false) where
  -- a round that changes nothing and goes on
  pub passed-Round :
      (m : ℕ)
      → s.versions_removed ≤ options.budget.max_versions
      → IsClean sp options.collapse_final_tombstones w key
      → Round sp options key w s (add_scanned m (count_key (w.intent_of key) s)) w
  passed-Round m b c = record {
    steps = Steps.stay;
    within = b;
    accounted = refl;
    elsewhere = λ k d. refl;
    scanned = refl;
    finished = λ h. ground (arith, h, u);
    cleaned = λ h. c;
  }

  -- a round that finds the budget used up
  pub stuck-Round :
      (m : ℕ)
      → s.versions_removed ≤ options.budget.max_versions
      → 1 ≤ s.versions_removed
      → Round sp options key w s (break_at key (add_scanned m (count_key (w.intent_of key) s))) w
  stuck-Round m b c = record {
    steps = Steps.stay;
    within = b;
    accounted = refl;
    elsewhere = λ k d. refl;
    scanned = refl;
    finished = λ h. (refl, c);
    cleaned = λ h. cc;
  }

module _ (options : GcOptions) (key : Key) (w : View) (e : Timestamp × Option Value) (i : Bool)
    (t : Scan) where
  abbrev pub left : ℕ
  left = options.budget.max_versions - t.versions_removed

  abbrev pub is_final : Bool
  is_final =
      options.collapse_final_tombstones && is_none e.1 && not i && is_newest e.0 (w.history_of key)

  abbrev pub next_page : List Timestamp
  next_page = take (suc left) (older_times e.0 (w.history_of key))

  pub scan_keeper-zero :
      (left == 0) ≡ true
      → scan_keeper reference options i key (to_version key e) t w ≡ (
        ok (
            if is_empty (take 1 (older_times e.0 (w.history_of key)))
            then (if is_final then break_at key t else t)
            else break_at key t),
        w,
      )
  unfolding scan_keeper scan_without_budget query pure newest_before ◌>>=◌
  scan_keeper-zero z = elim (Bool-cases (is_empty (take 1 (older_times e.0 (w.history_of key))))) [
    | inl q ↦ rw (z, q, final_tombstone_lem options.collapse_final_tombstones i key e w)
    | inr q ↦ rw (z, q)
  ]

  pub scan_keeper-page :
      options.budget.max_versions + 1 < 2 ^ 64
      → (left == 0) ≡ false
      → scan_keeper reference options i key (to_version key e) t w ≡ (
          if is_final
          then scan_final reference key (to_version key e) left next_page t w
          else scan_older reference key left next_page t w)
  unfolding scan_keeper query newest_before ◌>>=◌
  scan_keeper-page h z = elim (Bool-cases is_final) [
    | inl q ↦ rw (
      z,
      final_tombstone_lem options.collapse_final_tombstones i key e w,
      q,
      add_usize_lem left (omega arith),
    )
    | inr q ↦ rw (
      z,
      final_tombstone_lem options.collapse_final_tombstones i key e w,
      q,
      add_usize_lem left (omega arith),
    )
  ]
