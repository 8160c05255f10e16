-- ===== src/Engine/KeyGc/SafePoint.antt =====
-- What `plan_key_gc` of src/engine.rs may remove: reads at the safe point and later do not see it.
use mathlib.Core.List.{reverse, reverse-cons}
use nexir_mvcc_core.Prelude.{
  ℕ, zero, suc, ◌≤◌, ◌<◌, Option, none, some, List, [], ◌∷◌, ◌++◌, map, ◌≡◌, ◌⊎◌, refl, ap, inl,
  inr, arith, leb, ltb, take, length, length-take-le, next_back, filter_by, All, All-imp, for_each,
  is_none, ◌&&◌, Option-cases, Bool-cases, if◌then◌else◌,
}
use nexir_mvcc_core.Ord.{◌≺◌, nat_ord, bytes_ord, bytes_eq, bytes_eq_iff}
use nexir_mvcc_core.BTreeMap.{remove, IsSorted}
use nexir_mvcc_core.BTreeMap.Laws.{All-filter_by}
use nexir_mvcc_core.Types.{Timestamp, Key, Value}
use nexir_mvcc_core.Exec.{ok}
use nexir_mvcc_core.Backend.Reference.{
  to_version, map_version, View, History, reference, visible, newest_before, release_key,
  drop_version,
}
use nexir_mvcc_core.Backend.Reference.WellFormed.{IsWellFormed}
use nexir_mvcc_core.Backend.Reference.Histories.{All-next_back}
use nexir_mvcc_core.Engine.Read.{read, value_of}
use nexir_mvcc_core.Engine.KeyGc.{
  KeyGcOptions, KeyGcPlan, plan_key_gc, plan_of, is_final_tombstone, plan_below,
}

visible-remove-none :
    (r ts : Timestamp) (h : History) → visible r h ≡ none → visible r (remove ts h) ≡ none
unfolding visible remove
visible-remove-none r ts [] p = refl
visible-remove-none r ts (x ∷ h) p = ground (arith, visible-remove-none r ts h)

-- another version's removal leaves the visible version
visible-remove :
    (r ts : Timestamp) (h : History) (e : Timestamp × Option Value)
    → visible r h ≡ some e
    → ts < e.0
    → visible r (remove ts h) ≡ some e
unfolding visible remove
visible-remove r ts [] e p q = cc
visible-remove r ts (x ∷ h) e p q = elim (Option-cases (next_back (filter_by (λ y. leb y.0 r) h))) [
  | inl n ↦ ground (arith, visible-remove-none r ts h n)
  | inr (y, s) ↦ ground (arith, visible-remove r ts h e)
]

-- a later read sees a version that is not older
pub visible-later :
    (s r : Timestamp) (h : History) (k : Timestamp × Option Value)
    → IsSorted h
    → s ≤ r
    → visible s h ≡ some k
    → (e : Timestamp × Option Value) × (visible r h ≡ some e) × (k.0 ≤ e.0)
unfolding visible
visible-later s r [] k f q p = cc
visible-later s r (x ∷ h) k (a, f) q p =
    elim (Option-cases (next_back (filter_by (λ y. leb y.0 s) h))) [
      | inr (y, n) ↦ let (e, v, g) = visible-later s r h y f q n in (e, ground arith, ground arith)
      | inl n ↦ elim (Option-cases (next_back (filter_by (λ y. leb y.0 r) h))) [
        | inl m ↦ (x, ground arith, ground arith)
        | inr (y, m) ↦
            let later : x.0 ≺ y.0 =
              All-next_back (λ e. x.0 ≺ e.0) (filter_by (λ y. leb y.0 r) h) y
                (All-filter_by (λ e. x.0 ≺ e.0) (λ y. leb y.0 r) h a) m in
            (y, ground arith, ground arith)
      ]
    ]

All-append :
    {A : Type 0} (P : A → Type 0) (xs : List A) (x : A) → All P xs → P x → All P (xs ++ x ∷ [])
All-append P [] x a p = (p, tt)
All-append P (y ∷ xs) x (b, a) p = (b, All-append P xs x a p)

pub All-reverse : {A : Type 0} (P : A → Type 0) (xs : List A) → All P xs → All P (reverse xs)
All-reverse P [] a = tt
All-reverse P (x ∷ xs) (p, a) = rw reverse-cons (All-append P (reverse xs) x (All-reverse P xs a) p)

pub All-take : {A : Type 0} (P : A → Type 0) (n : ℕ) (xs : List A) → All P xs → All P (take n xs)
All-take P zero xs a = tt
All-take P (suc n) [] a = tt
All-take P (suc n) (x ∷ xs) (p, a) = (p, All-take P n xs a)

pub older_entries :
    (ts : Timestamp) (h : History)
    → All (λ t. t < ts) (map (λ e. e.0) (filter_by (λ e. ltb e.0 ts) h))
older_entries ts [] = tt
older_entries ts (x ∷ h) = ground (arith, older_entries ts h)

pub newest_before-All :
    (ts : Timestamp) (n : ℕ) (h : History) → All (λ t. t < ts) (newest_before ts n h)
unfolding newest_before
newest_before-All ts n h =
    All-take (λ t. t < ts) n _ (All-reverse (λ t. t < ts) _ (older_entries ts h))

-- removals of versions older than the keeper change no read at the safe point or later
pub visible-removals :
    (r : Timestamp) (tss : List Timestamp) (h : History) (e : Timestamp × Option Value)
    → visible r h ≡ some e
    → All (λ t. t < e.0) tss
    → visible r (for_each remove tss h) ≡ some e
visible-removals r [] h e p a = p
visible-removals r (t ∷ tss) h e p (q, a) =
    visible-removals r tss (remove t h) e (visible-remove r t h e p q) a

history-removal :
    (k key : Key) (t : Timestamp) (w : View)
    → (release_key key (drop_version key t w)).history_of k
      ≡ (if bytes_eq key k then remove t (w.history_of k) else w.history_of k)
unfolding release_key drop_version
history-removal k key t w = ground (arith, bytes_eq_iff key k)

-- the removal of each timestamp of a plan, with the trait's `remove_committed_version`
abbrev pub remove_versions : Key → List Timestamp → View → View
remove_versions key tss w = for_each (λ ts v. (reference.remove_committed_version key ts v).1) tss w

pub history-remove_versions :
    (k key : Key) (tss : List Timestamp) (w : View)
    → (remove_versions key tss w).history_of k
      ≡ (if bytes_eq key k then for_each remove tss (w.history_of k) else w.history_of k)
history-remove_versions k key [] w = ground arith
history-remove_versions k key (t ∷ tss) w = ground (
  arith,
  history-remove_versions k key tss (release_key key (drop_version key t w)),
  history-removal k key t w,
)

pub visible-remove_versions :
    (k : Key) (r : Timestamp) (key : Key) (s : Timestamp) (tss : List Timestamp) (w : View)
    → IsSorted (w.history_of key)
    → s ≤ r
    → (tss ≡ [])
      ⊎ ((e : Timestamp × Option Value) × (visible s (w.history_of key) ≡ some e)
          × All (λ t. t < e.0) tss)
    → visible r ((remove_versions key tss w).history_of k) ≡ visible r (w.history_of k)
visible-remove_versions k r key s tss w f q (inl n) = rw (n)
visible-remove_versions k r key s tss w f q (inr (e, v, a)) =
    let (y, u, g) = visible-later s r (w.history_of key) e f q v in
    let gone : visible r (for_each remove tss (w.history_of key)) ≡ some y =
      visible-removals r tss (w.history_of key) y u (All-imp (λ t b. omega arith) tss a) in
    ground (arith, history-remove_versions k key tss w, bytes_eq_iff key k)

-- the page of a plan below a keeper
plan_below-removes :
    (key : Key) (e : Timestamp × Option Value) (options : KeyGcOptions) (w : View) (p : KeyGcPlan)
    → plan_below reference key (to_version key e) options w ≡ ok p
    → p.versions_to_remove
      ≡ take options.max_versions_examined
          (newest_before e.0 options.max_versions_examined (w.history_of key))
unfolding plan_below plan_of is_final_tombstone
plan_below-removes key e options w p h =
    elim (Bool-cases (options.collapse_final_tombstones && is_none e.1)) [
      | inl c ↦ ground (arith, h)
      | inr c ↦ ground (arith, h)
    ]

module _ (key : Key) (safe_point_ts : Timestamp) (options : KeyGcOptions) (w : View) (p : KeyGcPlan)
    (h : plan_key_gc reference key safe_point_ts options w ≡ ok p) where
  -- what the plan removes is older than its keeper, the version that reads at the safe point see
  plan-keeper :
      (p.versions_to_remove ≡ [])
      ⊎ ((e : Timestamp × Option Value) × (visible safe_point_ts (w.history_of key) ≡ some e)
          × All (λ t. t < e.0) p.versions_to_remove)
  unfolding plan_key_gc
  plan-keeper = elim (Option-cases (visible safe_point_ts (w.history_of key))) [
    | inl n ↦ inl (ground (arith, h))
    | inr (e, v) ↦
        let page = plan_below-removes key e options w p (ground (arith, h)) in
        inr (
          e,
          v,
          rw page (
              All-take (λ t. t < e.0) options.max_versions_examined _
                (newest_before-All e.0 options.max_versions_examined (w.history_of key))),
        )
  ]

  plan-length : length p.versions_to_remove ≤ options.max_versions_examined
  unfolding plan_key_gc
  plan-length = elim (Option-cases (visible safe_point_ts (w.history_of key))) [
    | inl n ↦ ground (arith, h)
    | inr (e, v) ↦ rw (plan_below-removes key e options w p (ground (arith, h))) (
        length-take-le options.max_versions_examined
          (newest_before e.0 options.max_versions_examined (w.history_of key)))
  ]

-- Where `plan_key_gc` returns a plan on a well-formed reference state: the plan names at most
-- `max_versions_examined` versions, and once each of these is removed, every read of any key at the
-- safe point or later returns what it returned before.
pub read-plan_key_gc :
    (key : Key) (safe_point_ts : Timestamp) (options : KeyGcOptions) (w : View) (p : KeyGcPlan)
    → IsWellFormed w
    → plan_key_gc reference key safe_point_ts options w ≡ ok p
    → (k : Key) (r : Timestamp) → safe_point_ts ≤ r
    → (length p.versions_to_remove ≤ options.max_versions_examined)
      × (read reference k r (remove_versions key p.versions_to_remove w) ≡ read reference k r w)
unfolding read
read-plan_key_gc key sp options w p f h k r q = (
  plan-length key sp options w p h,
  ap (λ e. ok (value_of (map_version k e)))
      (visible-remove_versions k r key sp p.versions_to_remove w (f.sorted key) q
        (plan-keeper key sp options w p h)),
)
