-- ===== src/Engine/KeyGc/Tombstones.antt =====
-- The final tombstone that `plan_key_gc` of src/engine.rs lets the caller collapse.
use mathlib.Core.List.{reverse}
use nexir_mvcc_core.Prelude.{
  ◌≤◌, Option, none, some, List, [], ◌∷◌, map, ◌≡◌, refl, sym, ap, ◌∙◌, inl, inr, arith, ltb, take,
  filter_by, for_each, Option-cases, Bool-cases, if◌then◌else◌,
}
use nexir_mvcc_core.Ord.{nat_ord, bytes_ord, bytes_eq, bytes_eq_iff}
use nexir_mvcc_core.BTreeMap.{get, remove, IsSorted}
use nexir_mvcc_core.Types.{Timestamp, Key, Value}
use nexir_mvcc_core.Exec.{ok}
use nexir_mvcc_core.Backend.Reference.{
  to_version, View, History, reference, visible, latest, newest_before, drop_version,
}
use nexir_mvcc_core.Backend.Reference.WellFormed.{IsWellFormed}
use nexir_mvcc_core.Backend.Reference.Removals.{drop_versions-IsWellFormed}
use nexir_mvcc_core.Backend.Reference.Effects.{history-release_key, intent-release_key}
use nexir_mvcc_core.Backend.Reference.Histories.{UpTo, UpTo-latest}
use nexir_mvcc_core.Engine.Read.{read}
use nexir_mvcc_core.Engine.WriteBatches.{ts_eq}
use nexir_mvcc_core.Engine.KeyGc.{
  KeyGcOptions, KeyGcPlan, plan_key_gc, plan_of, is_final_tombstone, plan_below,
}
use nexir_mvcc_core.Engine.KeyGc.Collapses.{
  take-whole, collapse-nil, history-drop_versions, intent-drop_versions,
}

-- a plan that collapses a tombstone has all that is older, and the tombstone is the latest version
plan_below-collapse :
    (key : Key) (e : Timestamp × Option Value) (options : KeyGcOptions) (w : View) (p : KeyGcPlan)
    (t : Timestamp)
    → plan_below reference key (to_version key e) options w ≡ ok p
    → p.collapse_tombstone ≡ some t
    → (t ≡ e.0)
      × (e.1 ≡ none)
      × (p.versions_to_remove
          ≡ reverse (map (λ x. x.0) (filter_by (λ x. ltb x.0 e.0) (w.history_of key))))
      × ((x : Timestamp × Option Value) × (latest (w.history_of key) ≡ some x) × (x.0 ≡ e.0))
      × (w.intent_of key ≡ none)
unfolding plan_below plan_of is_final_tombstone ts_eq newest_before
plan_below-collapse key e options w p t h q =
    let all = reverse (map (λ x. x.0) (filter_by (λ x. ltb x.0 e.0) (w.history_of key))) in
    let n = options.max_versions_examined in
    elim (Option-cases (latest (w.history_of key))) [
      | inl m ↦ ground (arith, h, q)
      | inr (x, m) ↦ (
        ground (arith, h, q),
        ground (arith, h, q),
        ground (arith, h, q, take-whole n all, take-whole n (take n all)),
        (x, m, ground (arith, h, q)),
        ground (arith, h, q),
      )
    ]

pub visible-UpTo : (c r : Timestamp) (h : History) → c ≤ r → UpTo c h → visible r h ≡ latest h
unfolding visible latest
visible-UpTo c r [] q u = refl
visible-UpTo c r (x ∷ h) q (a, u) = ground (arith, visible-UpTo c r h q u)

pub visible-le :
    (r : Timestamp) (h : History) (e : Timestamp × Option Value) → visible r h ≡ some e → e.0 ≤ r
unfolding visible
visible-le r [] e p = cc
visible-le r (x ∷ h) e p = ground (arith, visible-le r h e, p)

pub read-collapsed :
    (key k : Key) (r : Timestamp) (w w' : View) (e : Timestamp × Option Value)
    → e.1 ≡ none
    → visible r (w.history_of key) ≡ some e
    → w'.history_of k ≡ (if bytes_eq key k then [] else w.history_of k)
    → read reference k r w' ≡ read reference k r w
unfolding read visible
read-collapsed key k r w w' e n v a = elim (Bool-cases (bytes_eq key k)) [
  | inl b ↦ ground (arith, n, v, a, b, (bytes_eq_iff key k).0 b)
  | inr b ↦ ground (arith, a, b)
]

module _ (key : Key) (s : Timestamp) (w : View) (e x : Timestamp × Option Value)
    (f : IsSorted (w.history_of key)) (v : visible s (w.history_of key) ≡ some e)
    (m : latest (w.history_of key) ≡ some x) (n : x.0 ≡ e.0) where
  pub up_to : UpTo e.0 (w.history_of key)
  up_to = UpTo-latest e.0 (w.history_of key) f (λ y q. ground (arith, m, n, q))

  pub visible-tombstone : (r : Timestamp) → s ≤ r → visible r (w.history_of key) ≡ some e
  visible-tombstone r q =
      let below : e.0 ≤ s = visible-le s (w.history_of key) e v in
      visible-UpTo e.0 r (w.history_of key) (omega arith) up_to
      ∙ sym (visible-UpTo e.0 s (w.history_of key) below up_to)
      ∙ v

  -- the history of each key once the tombstone and all that is older are gone
  pub history-collapsed :
      (k : Key) (tss : List Timestamp)
      → tss ≡ reverse (map (λ y. y.0) (filter_by (λ y. ltb y.0 e.0) (w.history_of key)))
      → (reference.collapse_tombstone key e.0 tss w).1.history_of k
        ≡ (if bytes_eq key k then [] else w.history_of k)
  history-collapsed k tss q =
      history-release_key k key (for_each (drop_version key) (e.0 ∷ tss) w)
      ∙ ground (
        arith,
        history-drop_versions k key (e.0 ∷ tss) w,
        bytes_eq_iff key k,
        ap (λ l. for_each remove l (remove e.0 (w.history_of key))) q
            ∙ collapse-nil e.0 (w.history_of key) up_to,
      )

-- a collapse changes no intent
intent-collapse :
    (key : Key) (t : Timestamp) (tss : List Timestamp) (w : View)
    → (reference.collapse_tombstone key t tss w).1.intent_of key ≡ w.intent_of key
intent-collapse key t tss w =
    intent-release_key key key (for_each (drop_version key) (t ∷ tss) w)
    ∙ intent-drop_versions key key (t ∷ tss) w

-- a key without an intent and without a version is not in the key set
unused_key :
    (key : Key) (w w' : View)
    → w'.history_of key ≡ (if bytes_eq key key then [] else w.history_of key)
    → w'.intent_of key ≡ none
    → IsWellFormed w'
    → get key w'.keys ≡ none
unused_key key w w' h i f = ground (arith, h, i, f.tracked key, bytes_eq_iff key key)

-- Where `plan_key_gc` returns a plan with a tombstone to collapse, on a well-formed reference state:
-- the key has no intent; and once the tombstone and the plan's versions are removed by
-- `collapse_tombstone`, the key has no version left and is gone from the key set, and every read of
-- any key at the safe point or later returns what it returned before.
pub read-collapse_tombstone :
    (key : Key) (safe_point_ts : Timestamp) (options : KeyGcOptions) (w : View) (p : KeyGcPlan)
    (t : Timestamp)
    → IsWellFormed w
    → plan_key_gc reference key safe_point_ts options w ≡ ok p
    → p.collapse_tombstone ≡ some t
    → (k : Key) (r : Timestamp) → safe_point_ts ≤ r
    → ((reference.collapse_tombstone key t p.versions_to_remove w).1.history_of key ≡ [])
      × (w.intent_of key ≡ none)
      × (get key (reference.collapse_tombstone key t p.versions_to_remove w).1.keys ≡ none)
      × (read reference k r (reference.collapse_tombstone key t p.versions_to_remove w).1
          ≡ read reference k r w)
unfolding plan_key_gc
read-collapse_tombstone key sp options w p t f h c k r q =
    elim (Option-cases (visible sp (w.history_of key))) [
      | inl n ↦ ground (arith, h, c)
      | inr (e, v) ↦
          let (a, b, l, (x, m, n), free) =
            plan_below-collapse key e options w p t (ground (arith, h)) c in
          let after : (j : Key)
              → (reference.collapse_tombstone key t p.versions_to_remove w).1.history_of j
                ≡ (if bytes_eq key j then [] else w.history_of j) =
            λ j.
              rw a (history-collapsed key sp w e x (f.sorted key) v m n j p.versions_to_remove l) in
          let seen : visible r (w.history_of key) ≡ some e =
            visible-tombstone key sp w e x (f.sorted key) v m n r q in
          (
            ground (arith, after key, bytes_eq_iff key key),
            free,
            unused_key key w _ (after key) (intent-collapse key t p.versions_to_remove w ∙ free)
                (drop_versions-IsWellFormed key (t ∷ p.versions_to_remove) w f),
            read-collapsed key k r w _ e b seen (after k),
          )
    ]
