-- ===== src/Engine/IncrementalGc/Branches.antt =====
-- Every branch of the loop body of `gc_incremental` in src/engine.rs is a round, and returns `Ok`.
use nexir_mvcc_core.Prelude.{
  ℕ, suc, ◌+◌, ◌-◌, ◌^◌, ◌≤◌, ◌<◌, Bool, true, false, ◌&&◌, Option, some, List, [], ◌≡◌, refl, sym,
  subst, ap, ◌∙◌, inl, inr, arith, ◌==◌, ltb, take, length, get_elem?, pop, is_some, is_none,
  is_empty, Bool-cases, Option-cases, if◌then◌else◌,
}
use nexir_mvcc_core.Types.{Timestamp, Key, Value}
use nexir_mvcc_core.Error.{GcError}
use nexir_mvcc_core.Exec.{pure, mutate, ◌>>=◌, ◌>>◌}
use nexir_mvcc_core.Exec.Yields.{Yields, Yields-same}
use nexir_mvcc_core.Backend.Reference.{View, reference, visible, to_version}
use nexir_mvcc_core.Backend.Reference.WellFormed.{IsWellFormed}
use nexir_mvcc_core.Engine.KeyGc.SafePoint
use nexir_mvcc_core.Engine.IncrementalGc.{
  GcOptions, Scan, break_at, count_key, add_scanned, add_removed, remove_versions, scan_final,
  scan_older, scan_keeper,
}
use nexir_mvcc_core.Engine.IncrementalGc.Steps.{older_times, collapse}
use nexir_mvcc_core.Engine.IncrementalGc.Trims.{
  is_newest, IsClean, remove_versions_lem, pop-take, take-suc, length-pop,
}
use nexir_mvcc_core.Engine.IncrementalGc.Rounds.{
  Round, take-all, broken-Round, emptied-Round, collapsed-Round,
}
use nexir_mvcc_core.Engine.IncrementalGc.Equations.{
  get_elem?-nil, is_empty-take-some, passed-Round, stuck-Round, is_final, scan_keeper-zero,
  scan_keeper-page,
}

module _ (sp : Timestamp) (options : GcOptions) (key : Key) (w : View) (f : IsWellFormed w)
    (e : Timestamp × Option Value) (v : visible sp (w.history_of key) ≡ some e) (s : Scan)
    (u : s.exhausted_versions ≡ false) (b : s.versions_removed ≤ options.budget.max_versions) where
  abbrev old : List Timestamp
  old = older_times e.0 (w.history_of key)

  abbrev limit : ℕ
  limit = options.budget.max_versions - s.versions_removed

  -- the variables once the keeper is counted
  abbrev counted : Scan
  counted = add_scanned 1 (count_key (w.intent_of key) s)

  abbrev removable : Bool
  removable =
      options.collapse_final_tombstones
      && is_none e.1
      && is_none (w.intent_of key)
      && is_newest e.0 (w.history_of key)

  -- the page is longer than the budget, or fills it before a final tombstone
  trimmed-yields :
      (m : ℕ) (tss : List Timestamp)
      → tss ≡ take limit old
      → 1 ≤ limit
      → length (take limit old) ≡ limit
      → Yields
          (do
            removed ← remove_versions reference key tss (add_scanned m counted)
            pure (break_at key removed))
          w
          (λ s' w'. Round sp options key w s s' w')
  unfolding pure ◌>>=◌
  trimmed-yields m tss q l n = record {
    value = break_at key (add_removed (length (take limit old)) (add_scanned m counted));
    after = SafePoint.remove_versions key (take limit old) w;
    result = rw (q, remove_versions_lem key (take limit old) (add_scanned m counted) w);
    holds = broken-Round sp options key w f e v s u m l n;
  }

  scan_older-yields :
      1 ≤ limit
      → removable ≡ false
      → Yields
          (scan_older reference key limit (take (suc limit) old) counted)
          w
          (λ s' w'. Round sp options key w s s' w')
  unfolding scan_older
  scan_older-yields l n = elim (Bool-cases (ltb limit (length (take (suc limit) old)))) [
    | inl q ↦ rw q (
        trimmed-yields (length (take (suc limit) old) - 1) (pop (take (suc limit) old))
          (pop-take limit old (ground arith)) l (length-pop limit old (ground arith)))
    | inr q ↦
        let whole : take (suc limit) old ≡ old = take-suc limit old (ground arith) in
        let short : length old ≤ limit = ground (arith, whole, q) in
        rw (q, whole)
          (record {
            value = add_removed (length old) (add_scanned (length old) counted);
            after = SafePoint.remove_versions key old w;
            result = remove_versions_lem key old (add_scanned (length old) counted) w;
            holds = emptied-Round sp options key w f e v s u (length old) short b n;
          })
  ]

  -- all that is older than a final tombstone fits into the budget, with or without the tombstone
  scan_whole-yields :
      1 ≤ limit
      → removable ≡ true
      → length old ≤ limit
      → Yields
          (if ltb (length old) limit
            then (do
              mutate GcError.backend (reference.collapse_tombstone key e.0 old)
              pure (add_removed (length old + 1) (add_scanned (length old) counted)))
            else (do
              removed ← remove_versions reference key old (add_scanned (length old) counted)
              pure (break_at key removed)))
          w
          (λ s' w'. Round sp options key w s s' w')
  unfolding mutate pure ◌>>=◌
  scan_whole-yields l n c = elim (Bool-cases (ltb (length old) limit)) [
    | inl q ↦ rw q (record {
      value = add_removed (length old + 1) (add_scanned (length old) counted);
      after = collapse key e.0 w;
      result = refl;
      holds = collapsed-Round sp options key w f e v s u (length old) (ground (arith, q)) b n;
    })
    | inr q ↦
        let full : length old ≡ limit = ground (arith, q, c) in
        let whole : take limit old ≡ old = ap (λ n. take n old) (sym full) ∙ take-all old in
        rw q
          (trimmed-yields (length old) old (sym whole) l (ap (length {A = Timestamp}) whole ∙ full))
  ]

  scan_final-yields :
      1 ≤ limit
      → removable ≡ true
      → Yields
          (scan_final reference key (to_version key e) limit (take (suc limit) old) counted)
          w
          (λ s' w'. Round sp options key w s s' w')
  unfolding scan_final
  scan_final-yields l n = elim (Bool-cases (ltb limit (length (take (suc limit) old)))) [
    | inl q ↦ rw q (
        trimmed-yields (length (take (suc limit) old) - 1) (pop (take (suc limit) old))
          (pop-take limit old (ground arith)) l (length-pop limit old (ground arith)))
    | inr q ↦
        let whole : take (suc limit) old ≡ old = take-suc limit old (ground arith) in
        let short : length old ≤ limit = ground (arith, whole, q) in
        rw (q, whole) (scan_whole-yields l n short)
  ]

  -- a key without old versions or a final tombstone
  kept-IsClean : old ≡ [] → removable ≡ false → IsClean sp options.collapse_final_tombstones w key
  kept-IsClean q r d p =
      let same : e ≡ d = ground (arith, v, p) in
      subst
        (λ (d : Timestamp × Option Value).
          (older_times d.0 (w.history_of key) ≡ [])
          × ((options.collapse_final_tombstones
                && is_none d.1
                && is_none (w.intent_of key)
                && is_newest d.0 (w.history_of key))
              ≡ false))
        same (q, r)

  is_final-removable : is_final options key w e (is_some (w.intent_of key)) counted ≡ removable
  is_final-removable = ground arith

  -- the round of a keeper that finds the budget used up
  exhausted-Round :
      1 ≤ s.versions_removed
      → Round sp options key w s
          (if is_empty (take 1 old)
            then (if removable then break_at key counted else counted)
            else break_at key counted)
          w
  exhausted-Round z = elim (Option-cases (get_elem? old 0)) [
    | inr (t, q) ↦
        let full : is_empty (take 1 old) ≡ false = is_empty-take-some old t q in
        rw full (stuck-Round sp options key w s u 1 b z)
    | inl q ↦
        let bare : is_empty (take 1 old) ≡ true =
          ap (λ l. is_empty (take 1 l)) (get_elem?-nil old q) in
        rw bare (elim (Bool-cases removable) [
          | inl r ↦ rw r (stuck-Round sp options key w s u 1 b z)
          | inr r ↦
              rw r (passed-Round sp options key w s u 1 b (kept-IsClean (get_elem?-nil old q) r))
        ])
  ]

  pub scan_keeper-yields :
      options.budget.max_versions + 1 < 2 ^ 64
      → 1 ≤ options.budget.max_versions
      → Yields
          (scan_keeper reference options (is_some (w.intent_of key)) key (to_version key e) counted)
          w
          (λ s' w'. Round sp options key w s s' w')
  scan_keeper-yields h z = elim (Bool-cases (limit == 0)) [
    | inl q ↦ record {
      value = _;
      after = w;
      result = scan_keeper-zero options key w e (is_some (w.intent_of key)) counted q;
      holds = rw is_final-removable (exhausted-Round (ground (arith, q)));
    }
    | inr q ↦
        let same = scan_keeper-page options key w e (is_some (w.intent_of key)) counted h q in
        elim (Bool-cases removable) [
          | inl r ↦
              Yields-same _ _
                (scan_final reference key (to_version key e) limit (take (suc limit) old) counted) w
                (same ∙ rw (is_final-removable, r)) (scan_final-yields (ground (arith, q)) r)
          | inr r ↦
              Yields-same _ _ (scan_older reference key limit (take (suc limit) old) counted) w
                (same ∙ rw (is_final-removable, r)) (scan_older-yields (ground (arith, q)) r)
        ]
  ]
