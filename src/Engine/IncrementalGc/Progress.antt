-- ===== src/Engine/IncrementalGc/Progress.antt =====
-- Progress of repeated calls of `gc_incremental` in src/engine.rs: behind the cursor nothing is left to
-- collect, and each call that is not done removes a version or moves the cursor past a key.
use nexir_mvcc_core.Prelude.{
  Bool, true, false, ◌||◌, Option, none, some, List, [], ◌∷◌, ◌++◌, ◌≡◌, refl, sym, subst, ap, ◌∙◌,
  inl, inr, arith, is_some, is_empty, All, All-imp, Bool-cases,
}
use nexir_mvcc_core.Ord.{bytes_ord, bytes_eq, bytes_eq_iff, bytes_cmp-flip, bytes_cmp-eq}
use nexir_mvcc_core.BTreeMap
use nexir_mvcc_core.BTreeMap.{BTreeMap, at_least, IsSorted}
use nexir_mvcc_core.Types.{Timestamp, Key, Value}
use nexir_mvcc_core.Backend.Reference.{View, History, visible}
use nexir_mvcc_core.Backend.Reference.WellFormed.{IsWellFormed, in_use}
use nexir_mvcc_core.Engine.Batch.{contains}
use nexir_mvcc_core.Engine.IncrementalGc.{GcOptions, IncrementalGcResult}
use nexir_mvcc_core.Engine.IncrementalGc.Steps.{
  Steps, stay, more, Steps-IsWellFormed, intent-Steps, All-Step,
}
use nexir_mvcc_core.Engine.IncrementalGc.Trims.{IsClean}
use nexir_mvcc_core.Engine.IncrementalGc.Scans.{IsWithin, IsClean-elsewhere}
use nexir_mvcc_core.Engine.IncrementalGc.Cursor.{
  IsRising, is_ahead, keys_of, ahead, ahead-IsRising, All-behind, All-kept, contains-ahead,
}
use nexir_mvcc_core.Engine.IncrementalGc.Passes.{Pass}

contains-all :
    (m : BTreeMap Key (Unit {0})) (k : Key) → contains (keys_of m) k ≡ is_some (BTreeMap.get k m)
unfolding contains BTreeMap.get bytes_eq
contains-all [] k = refl
contains-all (e ∷ m) k =
    ground (arith, contains-all m k, bytes_cmp-flip k e.0, bytes_cmp-eq e.0 k, bytes_cmp-eq k e.0)

abbrev Never : Timestamp × Option Value → Type 0
Never x = true ≡ false

none-left : (h : History) → All Never h → h ≡ []
none-left [] a = refl
none-left (x ∷ h) (p, a) = cc

-- every key in use is in the list
abbrev pub Covers : List Key → View → Type 0
Covers all w = (k : Key) → in_use w k ≡ true → contains all k ≡ true

keys-members : (m : BTreeMap Key (Unit {0})) → IsWithin (keys_of m) (keys_of m)
unfolding contains
keys-members [] = tt
keys-members (e ∷ m) = (
  ground (arith, bytes_eq_iff e.0 e.0),
  All-imp (λ k q. ground (arith, q)) (keys_of m) (keys-members m),
)

contains-keys : (w : View) → IsWellFormed w → (k : Key) → contains (keys_of w.keys) k ≡ in_use w k
contains-keys w f k = ground (arith, contains-all w.keys k, f.tracked k)

-- the keys of the key set cover the keys in use
pub Covers-keys : (w : View) → IsWellFormed w → Covers (keys_of w.keys) w
Covers-keys w f k q = contains-keys w f k ∙ q

pub Covers-IsWithin :
    (all : List Key) (w : View) (c : Option Key)
    → IsWellFormed w
    → Covers all w
    → IsWithin (ahead c w.keys) all
Covers-IsWithin all w c f g =
    All-kept (is_ahead c) (λ k. contains all k ≡ true) (keys_of w.keys)
      (All-imp (λ k q. g k (sym (contains-keys w f k) ∙ q)) (keys_of w.keys) (keys-members w.keys))

-- a history that is empty stays so
pub empty-Steps :
    (sp : Timestamp) (k : Key) (v w : View)
    → Steps sp v w
    → IsWellFormed v
    → v.history_of k ≡ []
    → w.history_of k ≡ []
empty-Steps sp k v w stay f q = q
empty-Steps sp k v w (more {v = u} hs h) f q = none-left (w.history_of k) (
    All-Step sp Never k u w h (Steps-IsWellFormed sp v u hs f)
      (rw (empty-Steps sp k v u hs f q) tt))

pub All-at : (P : Key → Type 0) (ks : List Key) (k : Key) → All P ks → contains ks k ≡ true → P k
unfolding contains
All-at P [] k a q = cc
All-at P (j ∷ ks) k (p, a) q = elim (Bool-cases (bytes_eq j k)) [
  | inl e ↦ subst P ((bytes_eq_iff j k).0 e) p
  | inr e ↦ All-at P ks k a (ground (arith, q, e))
]

pub contains-append :
    (xs ys : List Key) (k : Key) → contains (xs ++ ys) k ≡ (contains xs k || contains ys k)
unfolding contains
contains-append [] ys k = refl
contains-append (x ∷ xs) ys k = ground (arith, contains-append xs ys k)

pub contains_self : (k : Key) (ks : List Key) → contains (k ∷ ks) k ≡ true
unfolding contains
contains_self k ks = ground (arith, bytes_eq_iff k k)

visible-nil : (r : Timestamp) → visible r [] ≡ none
unfolding visible
visible-nil r = refl

pub unused-nil : (h : History) → is_empty h ≡ true → h ≡ []
unused-nil [] q = refl
unused-nil (x ∷ h) q = cc

-- all keys behind the cursor are clean
abbrev pub Behind : Timestamp → Bool → Option Key → View → Type 0
Behind sp c start w = (k : Key) → is_ahead start k ≡ false → IsClean sp c w k

module _ (sp : Timestamp) (options : GcOptions) (start : Option Key) (w w' : View)
    (res : IncrementalGcResult) (f : IsWellFormed w) (p : Pass sp options start w res w')
    (b : Behind sp options.collapse_final_tombstones start w) where
  -- a key that the call does not visit is clean after it
  pub unvisited-IsClean :
      (k : Key)
      → contains (ahead start w.keys) k ≡ false
      → IsClean sp options.collapse_final_tombstones w' k
  unvisited-IsClean k q = elim (Bool-cases (is_ahead start k)) [
    | inr r ↦
        IsClean-elsewhere sp options.collapse_final_tombstones k w w' (p.elsewhere k q)
          (intent-Steps sp k w w' p.steps) (b k r)
    | inl r ↦
        let unused : in_use w k ≡ false =
          ground (arith, contains-ahead start k w.keys, f.tracked k, q, r) in
        let bare : w.history_of k ≡ [] = unused-nil (w.history_of k) (ground (arith, unused)) in
        λ e s. ground (arith, s, ap (visible sp) (p.elsewhere k q ∙ bare), visible-nil sp)
  ]

  pub All-IsClean :
      All (λ k. IsClean sp options.collapse_final_tombstones w' k) (ahead start w.keys)
      → (k : Key) → IsClean sp options.collapse_final_tombstones w' k
  All-IsClean a k = elim (Bool-cases (contains (ahead start w.keys) k)) [
    | inl q ↦ All-at (IsClean sp options.collapse_final_tombstones w') (ahead start w.keys) k a q
    | inr q ↦ unvisited-IsClean k q
  ]

  module _ (xs ys : List Key) (key : Key) (e : ahead start w.keys ≡ xs ++ key ∷ ys) where
    pub next-Behind :
        All (λ k. IsClean sp options.collapse_final_tombstones w' k) xs
        → Behind sp options.collapse_final_tombstones (some key) w'
    next-Behind a k q = elim (Bool-cases (contains (ahead start w.keys) k)) [
      | inr r ↦ unvisited-IsClean k r
      | inl r ↦ elim (Bool-cases (contains xs k)) [
        | inl m ↦ All-at (IsClean sp options.collapse_final_tombstones w') xs k a m
        | inr m ↦
            let late : contains (key ∷ ys) k ≡ true =
              ground (arith, contains-append xs (key ∷ ys) k, ap (λ l. contains l k) e, r, m) in
            let ahead_too =
              All-at (λ j. at_least key j ≡ true) (key ∷ ys) k
                (All-behind xs ys key
                  (subst IsRising e (ahead-IsRising start w.keys f.keys_sorted)))
                late in
            ground (arith, ahead_too, q)
      ]
    ]

    -- the new cursor is ahead of the old one
    pub key-ahead : is_ahead start key ≡ true
    key-ahead = ground (
      arith,
      contains-ahead start key w.keys,
      contains-append xs (key ∷ ys) key,
      ap (λ l. contains l key) e,
      contains_self key ys,
    )
