-- ===== src/Engine/IncrementalGc/Rounds.antt =====
-- One round of the loop of `gc_incremental` in src/engine.rs, over the reference backend.
use nexir_mvcc_core.Prelude.{
  ℕ, ◌+◌, ◌-◌, ◌≤◌, ◌<◌, true, false, ◌&&◌, Option, none, some, List, [], ◌∷◌, ◌≡◌, refl, subst, ap,
  ◌∙◌, inl, inr, arith, take, length, is_none, Option-cases,
}
use nexir_mvcc_core.Ord.{bytes_eq, bytes_eq_iff}
use nexir_mvcc_core.Types.{Timestamp, Key, Value}
use nexir_mvcc_core.Backend.Reference.{View, History, visible, latest}
use nexir_mvcc_core.Backend.Reference.WellFormed.{IsWellFormed}
use nexir_mvcc_core.Engine.KeyGc.SafePoint
use nexir_mvcc_core.Engine.KeyGc.Tombstones.{up_to, history-collapsed}
use nexir_mvcc_core.Engine.IncrementalGc.{
  GcOptions, Scan, break_at, count_key, add_scanned, add_removed,
}
use nexir_mvcc_core.Engine.IncrementalGc.Steps.{Steps, Step, older_times, collapse}
use nexir_mvcc_core.Engine.IncrementalGc.Counting.{length-collapse}
use nexir_mvcc_core.Engine.IncrementalGc.Trims.{
  is_newest, IsClean, trim-Steps, trim-accounted, trim-elsewhere, emptied-IsClean,
}

pub record Round (safe_point_ts : Timestamp) (options : GcOptions) (key : Key) (w : View)
    (s s' : Scan) (w' : View) : Type 0 where
  pub steps : Steps safe_point_ts w w'
  pub within : s'.versions_removed ≤ options.budget.max_versions
  pub accounted :
      length (w'.history_of key) + s'.versions_removed
      ≡ length (w.history_of key) + s.versions_removed
  pub elsewhere : (k : Key) → bytes_eq key k ≡ false → w'.history_of k ≡ w.history_of k
  pub scanned : s'.keys_scanned ≡ s.keys_scanned + 1
  pub finished :
      s'.exhausted_versions ≡ true → (s'.next_cursor_key ≡ some key) × (1 ≤ s'.versions_removed)
  pub cleaned :
      s'.exhausted_versions ≡ false → IsClean safe_point_ts options.collapse_final_tombstones w' key

pub take-all : {A : Type 0} (xs : List A) → take (length xs) xs ≡ xs
take-all [] = refl
take-all (x ∷ xs) = ap (λ l. x ∷ l) (take-all xs)

visible-nil : (r : Timestamp) → visible r [] ≡ none
unfolding visible
visible-nil r = refl

newest-latest :
    (c : Timestamp) (h : History)
    → is_newest c h ≡ true
    → (x : Timestamp × Option Value) × (latest h ≡ some x) × (x.0 ≡ c)
newest-latest c h q = elim (Option-cases (latest h)) [
  | inl n ↦ ground (arith, n, q)
  | inr (x, n) ↦ (x, n, ground (arith, n, q))
]

-- how far the removal of `n` old versions, or of all if there are fewer, takes a round
module _ (sp : Timestamp) (options : GcOptions) (key : Key) (w : View) (f : IsWellFormed w)
    (e : Timestamp × Option Value) (v : visible sp (w.history_of key) ≡ some e) (s : Scan)
    (u : s.exhausted_versions ≡ false) where
  abbrev old : List Timestamp
  old = older_times e.0 (w.history_of key)

  abbrev limit : ℕ
  limit = options.budget.max_versions - s.versions_removed

  -- the budget is used up within the round
  pub broken-Round :
      (m : ℕ)
      → 1 ≤ limit
      → length (take limit old) ≡ limit
      → Round sp options key w s
          (break_at key (
            add_removed
              (length (take limit old))
              (add_scanned m (add_scanned 1 (count_key (w.intent_of key) s)))))
          (SafePoint.remove_versions key (take limit old) w)
  broken-Round m q l = record {
    steps = trim-Steps sp key w f e v limit;
    within = omega (arith, l, q);
    accounted = omega (arith, trim-accounted sp key w f e v limit);
    elsewhere = trim-elsewhere sp key w f e v limit;
    scanned = refl;
    finished = λ h. (refl, omega (arith, l, q));
    cleaned = λ h. cc;
  }

  -- all old versions fit into the budget
  pub emptied-Round :
      (m : ℕ)
      → length old ≤ limit
      → s.versions_removed ≤ options.budget.max_versions
      → (options.collapse_final_tombstones
          && is_none e.1
          && is_none (w.intent_of key)
          && is_newest e.0 (w.history_of key))
        ≡ false
      → Round sp options key w s
          (add_removed (length old) (add_scanned m (add_scanned 1 (count_key (w.intent_of key) s))))
          (SafePoint.remove_versions key old w)
  emptied-Round m l b n =
      let whole = take-all old in
      record {
        steps =
            subst (λ tss. Steps sp w (SafePoint.remove_versions key tss w)) whole
              (trim-Steps sp key w f e v (length old));
        within = omega (arith, l, b);
        accounted =
            let kept =
              subst
                (λ tss.
                  length ((SafePoint.remove_versions key tss w).history_of key) + length tss
                  ≡ length (w.history_of key))
                whole (trim-accounted sp key w f e v (length old)) in
            omega (arith, kept);
        elsewhere =
            subst
              (λ tss.
                (k : Key)
                → bytes_eq key k ≡ false
                → (SafePoint.remove_versions key tss w).history_of k ≡ w.history_of k)
              whole (trim-elsewhere sp key w f e v (length old));
        scanned = refl;
        finished = λ h. ground (arith, h, u);
        cleaned = λ h. emptied-IsClean sp key w f e v options.collapse_final_tombstones n;
      }

  -- a final tombstone goes with all that is older
  pub collapsed-Round :
      (m : ℕ)
      → length old < limit
      → s.versions_removed ≤ options.budget.max_versions
      → (options.collapse_final_tombstones
          && is_none e.1
          && is_none (w.intent_of key)
          && is_newest e.0 (w.history_of key))
        ≡ true
      → Round sp options key w s
          (add_removed
            (length old + 1)
            (add_scanned m (add_scanned 1 (count_key (w.intent_of key) s))))
          (collapse key e.0 w)
  collapsed-Round m l b n =
      let (x, p, q) = newest-latest e.0 (w.history_of key) (ground (arith, n)) in
      let after = λ (k : Key). history-collapsed key sp w e x (f.sorted key) v p q k old refl in
      let gone : (collapse key e.0 w).history_of key ≡ [] =
        ground (arith, after key, bytes_eq_iff key key) in
      let count =
        length-collapse e.0 (w.history_of key) x (f.sorted key)
          (up_to key sp w e x (f.sorted key) v p q) p q in
      record {
        steps =
            Steps.more Steps.stay
              (Step.tombstone key e x v (ground (arith, n)) p q (ground (arith, n)));
        within = omega (arith, l, b);
        accounted = omega (arith, ap (length {A = Timestamp × Option Value}) gone, count);
        elsewhere = λ k d. after k ∙ rw d;
        scanned = refl;
        finished = λ h. ground (arith, h, u);
        cleaned = λ h d z. ground (arith, z, ap (visible sp) gone, visible-nil sp);
      }
