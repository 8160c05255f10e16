-- ===== src/Engine/IncrementalGc/Steps.antt =====
-- What `gc_incremental` of src/engine.rs may do to the reference backend, as a step relation: versions
-- older than the one that reads at the safe point see are removed, or a final tombstone of a key
-- without an intent is collapsed with all that is older.
use mathlib.Core.List.{reverse}
use nexir_mvcc_core.Prelude.{
  Option, none, some, List, [], ◌∷◌, map, ◌≡◌, ◌≤◌, ◌<◌, refl, sym, ap, ◌∙◌, inl, inr, All, subst,
  Bool-cases, filter_by, ltb, for_each,
}
use nexir_mvcc_core.Ord.{bytes_eq, nat_ord}
use nexir_mvcc_core.BTreeMap.{remove}
use nexir_mvcc_core.BTreeMap.Laws.{All-filter_by}
use nexir_mvcc_core.Types.{Timestamp, Key, Value}
use nexir_mvcc_core.Exec.{ok}
use nexir_mvcc_core.Backend.Reference.{
  View, History, reference, visible, latest, release_key, drop_version, map_version,
}
use nexir_mvcc_core.Backend.Reference.WellFormed.{IsWellFormed, for_each-IsWellFormed}
use nexir_mvcc_core.Backend.Reference.Removals.{drop_versions-IsWellFormed}
use nexir_mvcc_core.Backend.Reference.Effects.{intent-release_key}
use nexir_mvcc_core.Engine.Calls.Consistency.{IsConsistent}
use nexir_mvcc_core.Engine.Read.{read, value_of}
use nexir_mvcc_core.Engine.KeyGc.SafePoint.{
  remove_versions, visible-remove_versions, history-remove_versions,
}
use nexir_mvcc_core.Engine.KeyGc.Collapses.{intent-drop_versions}
use nexir_mvcc_core.Engine.KeyGc.Tombstones.{read-collapsed, visible-tombstone, history-collapsed}

-- the timestamps before `c`, newest first
abbrev pub older_times : Timestamp → History → List Timestamp
older_times c h = reverse (map (λ y. y.0) (filter_by (λ y. ltb y.0 c) h))

-- the collapse of a tombstone with all that is older
abbrev pub collapse : Key → Timestamp → View → View
collapse key c w = (reference.collapse_tombstone key c (older_times c (w.history_of key)) w).1

pub data Step (safe_point_ts : Timestamp) : View → View → Type 0 where
  older :
      {w : View} (key : Key) (e : Timestamp × Option Value) (tss : List Timestamp)
      → visible safe_point_ts (w.history_of key) ≡ some e
      → All (λ t. t < e.0) tss
      → Step safe_point_ts w (remove_versions key tss w)
  tombstone :
      {w : View} (key : Key) (e x : Timestamp × Option Value)
      → visible safe_point_ts (w.history_of key) ≡ some e
      → e.1 ≡ none
      → latest (w.history_of key) ≡ some x
      → x.0 ≡ e.0
      → w.intent_of key ≡ none
      → Step safe_point_ts w (collapse key e.0 w)

pub data Steps (safe_point_ts : Timestamp) : View → View → Type 0 where
  stay : {w : View} → Steps safe_point_ts w w
  more : {u v w : View} → Steps safe_point_ts u v → Step safe_point_ts v w → Steps safe_point_ts u w

intent-removal :
    (k key : Key) (t : Timestamp) (w : View)
    → (release_key key (drop_version key t w)).intent_of k ≡ w.intent_of k
unfolding drop_version
intent-removal k key t w = intent-release_key k key (drop_version key t w)

pub intent-remove_versions :
    (k key : Key) (tss : List Timestamp) (w : View)
    → (remove_versions key tss w).intent_of k ≡ w.intent_of k
intent-remove_versions k key [] w = refl
intent-remove_versions k key (t ∷ tss) w =
    intent-remove_versions k key tss (release_key key (drop_version key t w))
    ∙ intent-removal k key t w

pub All-removals :
    (P : Timestamp × Option Value → Type 0) (tss : List Timestamp) (h : History)
    → All P h
    → All P (for_each remove tss h)
unfolding remove
All-removals P [] h a = a
All-removals P (t ∷ tss) h a = All-removals P tss (remove t h) (All-filter_by P _ h a)

module _ (s : Timestamp) where
  pub intent-Step : (k : Key) (v w : View) → Step s v w → w.intent_of k ≡ v.intent_of k
  intent-Step k v w (older key e tss a b) = intent-remove_versions k key tss v
  intent-Step k v w (tombstone key e x a b c d i) =
      intent-release_key k key _
      ∙ intent-drop_versions k key (e.0 ∷ older_times e.0 (v.history_of key)) v

  pub Step-IsWellFormed : (v w : View) → Step s v w → IsWellFormed v → IsWellFormed w
  Step-IsWellFormed v w (older key e tss a b) f =
      for_each-IsWellFormed (λ t u. release_key key (drop_version key t u))
        (λ u g t. drop_versions-IsWellFormed key (t ∷ []) u g) tss v f
  Step-IsWellFormed v w (tombstone key e x a b c d i) f =
      drop_versions-IsWellFormed key (e.0 ∷ older_times e.0 (v.history_of key)) v f

  pub read-Step :
      (k : Key) (r : Timestamp) (v w : View)
      → Step s v w
      → IsWellFormed v
      → s ≤ r
      → read reference k r w ≡ read reference k r v
  unfolding read
  read-Step k r v w (older key e tss a b) f q =
      ap (λ e. ok (value_of (map_version k e)))
        (visible-remove_versions k r key s tss v (f.sorted key) q (inr (e, a, b)))
  read-Step k r v w (tombstone key e x a b c d i) f q =
      read-collapsed key k r v (collapse key e.0 v) e b
        (visible-tombstone key s v e x (f.sorted key) a c d r q)
        (history-collapsed key s v e x (f.sorted key) a c d k _ refl)

  pub All-Step :
      (P : Timestamp × Option Value → Type 0) (k : Key) (v w : View)
      → Step s v w
      → IsWellFormed v
      → All P (v.history_of k)
      → All P (w.history_of k)
  All-Step P k v w (older key e tss a b) f u =
      subst (All P) (sym (history-remove_versions k key tss v))
        (elim (Bool-cases (bytes_eq key k)) [
          | inl q ↦ rw q (All-removals P tss (v.history_of k) u)
          | inr q ↦ rw q u
        ])
  All-Step P k v w (tombstone key e x a b c d i) f u =
      subst (All P) (sym (history-collapsed key s v e x (f.sorted key) a c d k _ refl))
        (elim (Bool-cases (bytes_eq key k)) [ inl q ↦ rw q tt | inr q ↦ rw q u ])

  Step-IsConsistent : (v w : View) → Step s v w → IsConsistent v → IsConsistent w
  Step-IsConsistent v w h f = record {
    in_order = Step-IsWellFormed v w h f.in_order;
    unshadowed = λ k i e.
        All-Step (λ x. x.0 ≤ i.start_ts) k v w h f.in_order
          (f.unshadowed k i (sym (intent-Step k v w h) ∙ e));
  }

  pub Steps-IsConsistent : (v w : View) → Steps s v w → IsConsistent v → IsConsistent w
  Steps-IsConsistent v w stay f = f
  Steps-IsConsistent v w (more {v = u} hs h) f =
      Step-IsConsistent u w h (Steps-IsConsistent v u hs f)

  pub Steps-IsWellFormed : (v w : View) → Steps s v w → IsWellFormed v → IsWellFormed w
  Steps-IsWellFormed v w stay f = f
  Steps-IsWellFormed v w (more {v = u} hs h) f =
      Step-IsWellFormed u w h (Steps-IsWellFormed v u hs f)

  pub intent-Steps : (k : Key) (v w : View) → Steps s v w → w.intent_of k ≡ v.intent_of k
  intent-Steps k v w stay = refl
  intent-Steps k v w (more {v = u} hs h) = intent-Step k u w h ∙ intent-Steps k v u hs

  pub read-Steps :
      (k : Key) (r : Timestamp) (v w : View)
      → Steps s v w
      → IsWellFormed v
      → s ≤ r
      → read reference k r w ≡ read reference k r v
  read-Steps k r v w stay f q = refl
  read-Steps k r v w (more {v = u} hs h) f q =
      read-Step k r u w h (Steps-IsWellFormed v u hs f) q ∙ read-Steps k r v u hs f q

  pub Steps-append : (u v w : View) → Steps s u v → Steps s v w → Steps s u w
  Steps-append u v w a stay = a
  Steps-append u v w a (more {v = x} b h) = more (Steps-append u v x a b) h
