-- ===== src/Engine/IncrementalGc/Cleaning.antt =====
-- What is left of a history once all versions before the one visible at the safe point are removed.
use mathlib.Core.List.{reverse}
use nexir_mvcc_core.Prelude.{
  ◌+◌, ◌≤◌, ◌<◌, Option, some, List, [], ◌∷◌, map, ◌≡◌, refl, sym, ap, ◌∙◌, inl, inr, arith, ltb,
  All, All-imp, filter_by, next_back, Option-cases, for_each,
}
use nexir_mvcc_core.Ord.{nat_ord}
use nexir_mvcc_core.BTreeMap.{remove, IsSorted}
use nexir_mvcc_core.Types.{Timestamp, Value}
use nexir_mvcc_core.Backend.Reference.{History, latest, visible}
use nexir_mvcc_core.Backend.Reference.Histories.{UpTo, UpTo-latest, next_back-none}
use nexir_mvcc_core.Engine.KeyGc.SafePoint.{visible-later, visible-removals}
use nexir_mvcc_core.Engine.KeyGc.Collapses.{mem-reverse, mem-entries, for_each-remove-nil}
use nexir_mvcc_core.Engine.KeyGc.Tombstones.{visible-UpTo}
use nexir_mvcc_core.Engine.IncrementalGc.Steps.{older_times, All-removals}

remove-filter_by :
    (t c : Timestamp) (h : History)
    → filter_by (λ y. ltb y.0 c) (remove t h) ≡ remove t (filter_by (λ y. ltb y.0 c) h)
unfolding remove
remove-filter_by t c [] = refl
remove-filter_by t c (x ∷ h) = ground (arith, remove-filter_by t c h)

removals-filter_by :
    (ts : List Timestamp) (c : Timestamp) (h : History)
    → filter_by (λ y. ltb y.0 c) (for_each remove ts h)
      ≡ for_each remove ts (filter_by (λ y. ltb y.0 c) h)
removals-filter_by [] c h = refl
removals-filter_by (t ∷ ts) c h =
    removals-filter_by ts c (remove t h) ∙ ap (for_each remove ts) (remove-filter_by t c h)

-- nothing older is left
pub older_times-removals :
    (c : Timestamp) (h : History) → older_times c (for_each remove (older_times c h) h) ≡ []
older_times-removals c h =
    ap (λ (l : History). reverse (map (λ y. y.0) l))
      (removals-filter_by (older_times c h) c h
        ∙ for_each-remove-nil (older_times c h) (filter_by (λ y. ltb y.0 c) h) (
            All-imp (λ x m. mem-reverse x.0 (map (λ y. y.0) (filter_by (λ y. ltb y.0 c) h)) ∙ m)
              (filter_by (λ y. ltb y.0 c) h) (mem-entries (filter_by (λ y. ltb y.0 c) h))))

-- the newest version stays
pub latest-removals :
    (ts : List Timestamp) (h : History) (x : Timestamp × Option Value)
    → IsSorted h
    → latest h ≡ some x
    → All (λ t. t < x.0) ts
    → latest (for_each remove ts h) ≡ some x
latest-removals ts h x s q a =
    let u : UpTo x.0 h = UpTo-latest x.0 h s (λ y p. ground (arith, p, q)) in
    sym (
      visible-UpTo x.0 x.0 (for_each remove ts h) (omega arith)
        (All-removals (λ y. y.0 ≤ x.0) ts h u))
    ∙ visible-removals x.0 ts h x (visible-UpTo x.0 x.0 h (omega arith) u ∙ q) a

-- where there is a visible version, the newest is not older than it
pub latest-visible :
    (s : Timestamp) (h : History) (e : Timestamp × Option Value)
    → IsSorted h
    → visible s h ≡ some e
    → (x : Timestamp × Option Value) × (latest h ≡ some x) × (e.0 ≤ x.0)
unfolding latest visible
latest-visible s h e f v = elim (Option-cases (next_back h)) [
  | inl n ↦ ground (arith, v, ap (visible s) (next_back-none h n))
  | inr (x, n) ↦
      let u : UpTo x.0 h = UpTo-latest x.0 h f (λ y p. ground (arith, p, n)) in
      let wide : UpTo (s + x.0) h = All-imp (λ y p. omega arith) h u in
      let (y, p, q) = visible-later s (s + x.0) h e f (omega arith) v in
      (x, n, ground (arith, visible-UpTo (s + x.0) (s + x.0) h (omega arith) wide, p, q, n))
]
