-- ===== src/Engine/IncrementalGc/Trims.antt =====
-- The removals of `gc_incremental` in src/engine.rs at one key of the reference backend: the versions
-- taken, and what is left.
use nexir_mvcc_core.Prelude.{
  ℕ, zero, suc, ◌+◌, ◌≤◌, ◌<◌, Bool, false, not, ◌&&◌, Option, none, some, List, [], ◌∷◌, ◌≡◌, refl,
  subst, ap, ◌∙◌, arith, ◌==◌, take, length, pop, is_none, All, All-imp, for_each,
}
use nexir_mvcc_core.Ord.{nat_ord, bytes_eq, bytes_eq_iff}
use nexir_mvcc_core.BTreeMap.{remove}
use nexir_mvcc_core.Types.{Timestamp, Key, Value}
use nexir_mvcc_core.Exec.{ok, pure, query, mutate, ◌>>=◌}
use nexir_mvcc_core.Backend.Reference.{View, History, reference, visible, latest, to_version}
use nexir_mvcc_core.Backend.Reference.WellFormed.{IsWellFormed}
use nexir_mvcc_core.Engine.KeyGc.SafePoint
use nexir_mvcc_core.Engine.KeyGc.SafePoint.{
  newest_before-All, All-take, All-reverse, older_entries, visible-removals,
  history-remove_versions,
}
use nexir_mvcc_core.Engine.KeyGc.Collapses.{take-whole}
use nexir_mvcc_core.Engine.IncrementalGc.{Scan, add_removed, final_tombstone, remove_versions}
use nexir_mvcc_core.Engine.IncrementalGc.Steps.{Steps, Step, older_times, intent-remove_versions}
use nexir_mvcc_core.Engine.IncrementalGc.Cleaning.{
  older_times-removals, latest-removals, latest-visible,
}
use nexir_mvcc_core.Engine.IncrementalGc.Counting.{length-page}

-- the latest version is the one with this timestamp
abbrev pub is_newest : Timestamp → History → Bool
is_newest ts h = elim (latest h) [ none ↦ false | some x ↦ x.0 == ts ]

-- nothing of the key is left to collect
abbrev pub IsClean : Timestamp → Bool → View → Key → Type 0
IsClean safe_point_ts collapse_final w key =
    (e : Timestamp × Option Value)
    → visible safe_point_ts (w.history_of key) ≡ some e
    → (older_times e.0 (w.history_of key) ≡ [])
      × ((collapse_final
            && is_none e.1
            && is_none (w.intent_of key)
            && is_newest e.0 (w.history_of key))
          ≡ false)

pub older_times-All : (c : Timestamp) (h : History) → All (λ t. t < c) (older_times c h)
older_times-All c h = All-reverse (λ t. t < c) _ (older_entries c h)

pub final_tombstone_lem :
    (c i : Bool) (key : Key) (e : Timestamp × Option Value) (w : View)
    → final_tombstone reference c i key (to_version key e) w
      ≡ (ok (c && is_none e.1 && not i && is_newest e.0 (w.history_of key)), w)
unfolding final_tombstone query pure ◌>>=◌
final_tombstone_lem c i key e w = ground arith

pub remove_versions_lem :
    (key : Key) (tss : List Timestamp) (s : Scan) (w : View)
    → remove_versions reference key tss s w
      ≡ (ok (add_removed (length tss) s), SafePoint.remove_versions key tss w)
unfolding remove_versions mutate pure ◌>>=◌
remove_versions_lem key [] s w = ground arith
remove_versions_lem key (t ∷ tss) s w =
    remove_versions_lem key tss (add_removed 1 s) (reference.remove_committed_version key t w).1
    ∙ ground arith

pub pop-take :
    {A : Type 0} (n : ℕ) (xs : List A)
    → n < length (take (suc n) xs)
    → pop (take (suc n) xs) ≡ take n xs
pop-take zero [] q = ground arith
pop-take zero (x ∷ xs) q = refl
pop-take (suc n) [] q = ground arith
pop-take (suc n) (x ∷ []) q = ground arith
pop-take (suc n) (x ∷ y ∷ xs) q = ap (λ l. x ∷ l) (pop-take n (y ∷ xs) (omega arith))

-- a page of at most `n + 1` that is not longer than `n` holds everything
pub take-suc :
    {A : Type 0} (n : ℕ) (xs : List A) → length (take (suc n) xs) ≤ n → take (suc n) xs ≡ xs
take-suc n xs q = take-whole (suc n) xs (omega arith)

pub length-pop :
    {A : Type 0} (n : ℕ) (xs : List A) → n < length (take (suc n) xs) → length (take n xs) ≡ n
length-pop zero xs q = refl
length-pop (suc n) [] q = ground arith
length-pop (suc n) (x ∷ xs) q = omega (arith, length-pop n xs (omega arith))

-- the removal of `n` old versions of a key, or of all if there are fewer
module _ (sp : Timestamp) (key : Key) (w : View) (f : IsWellFormed w) (e : Timestamp × Option Value)
    (v : visible sp (w.history_of key) ≡ some e) (n : ℕ) where
  abbrev page : List Timestamp
  page = take n (older_times e.0 (w.history_of key))

  abbrev trimmed : View
  trimmed = SafePoint.remove_versions key page w

  pub trim-Steps : Steps sp w trimmed
  trim-Steps = Steps.more Steps.stay (
      Step.older key e page v
        (All-take (λ t. t < e.0) n _ (older_times-All e.0 (w.history_of key))))

  pub trim-accounted : length (trimmed.history_of key) + length page ≡ length (w.history_of key)
  trim-accounted =
      ap (λ h. length h + length page)
        (history-remove_versions key key page w ∙ rw ((bytes_eq_iff key key).1 refl))
      ∙ length-page n e.0 (w.history_of key) (f.sorted key)

  pub trim-elsewhere : (k : Key) → bytes_eq key k ≡ false → trimmed.history_of k ≡ w.history_of k
  trim-elsewhere k q = history-remove_versions k key page w ∙ rw q

-- the removal of all old versions of a key leaves nothing to collect but a final tombstone
module _ (sp : Timestamp) (key : Key) (w : View) (f : IsWellFormed w) (e : Timestamp × Option Value)
    (v : visible sp (w.history_of key) ≡ some e) where
  abbrev emptied : View
  emptied = SafePoint.remove_versions key (older_times e.0 (w.history_of key)) w

  pub history-emptied :
      emptied.history_of key
      ≡ for_each remove (older_times e.0 (w.history_of key)) (w.history_of key)
  history-emptied =
      history-remove_versions key key (older_times e.0 (w.history_of key)) w
      ∙ rw ((bytes_eq_iff key key).1 refl)

  pub visible-emptied : visible sp (emptied.history_of key) ≡ some e
  visible-emptied =
      ap (visible sp) history-emptied
      ∙ visible-removals sp (older_times e.0 (w.history_of key)) (w.history_of key) e v
          (older_times-All e.0 (w.history_of key))

  is_newest-emptied : is_newest e.0 (emptied.history_of key) ≡ is_newest e.0 (w.history_of key)
  is_newest-emptied =
      let (x, p, q) = latest-visible sp (w.history_of key) e (f.sorted key) v in
      let kept =
        latest-removals (older_times e.0 (w.history_of key)) (w.history_of key) x (f.sorted key) p (
          All-imp (λ t b. omega arith) (older_times e.0 (w.history_of key))
            (older_times-All e.0 (w.history_of key))) in
      ap (is_newest e.0) history-emptied ∙ ground (arith, p, kept)

  pub emptied-IsClean :
      (c : Bool)
      → (c && is_none e.1 && is_none (w.intent_of key) && is_newest e.0 (w.history_of key)) ≡ false
      → IsClean sp c emptied key
  emptied-IsClean c n d p =
      let same : e ≡ d = ground (arith, visible-emptied, p) in
      subst
        (λ (d : Timestamp × Option Value).
          (older_times d.0 (emptied.history_of key) ≡ [])
          × ((c
                && is_none d.1
                && is_none (emptied.intent_of key)
                && is_newest d.0 (emptied.history_of key))
              ≡ false))
        same
        (
          ap (older_times e.0) history-emptied ∙ older_times-removals e.0 (w.history_of key),
          ground (
            arith,
            n,
            is_newest-emptied,
            intent-remove_versions key key (older_times e.0 (w.history_of key)) w,
          ),
        )
