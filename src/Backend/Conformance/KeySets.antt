-- ===== src/Backend/Conformance/KeySets.antt =====
-- The keys that have versions, as a set: sorted maps that answer alike are equal, and so the key set
-- without the keys that have only an intent is the set of the keys of the map of versions.
use Prim.Native.Nat.{Ordering}
use Prim.Native.Nat.Ordering.{lt, eq, gt}
use nexir_mvcc_core.Prelude.{
  Bool, false, not, ◌&&◌, Option, none, some, [], ◌∷◌, ◌≡◌, refl, sym, ◌∙◌, subst, ◌⊎◌, inl, inr,
  Bool-cases, arith, filter_by, All, is_empty, if◌then◌else◌,
}
use nexir_mvcc_core.Ord.{
  Ord, ◌≺◌, same, bytes_ord, nat_ord, pair_ord, bytes_eq, same-bytes_eq, bytes_cmp-eq,
}
use nexir_mvcc_core.BTreeMap.{BTreeMap, IsSorted, get, insert, range_from, at_least}
use nexir_mvcc_core.BTreeMap.Laws.{get-insert, insert-IsSorted, filter_by-IsSorted, All-after_lt}
use nexir_mvcc_core.Types.{Key, Value}
use nexir_mvcc_core.Backend.InMemory.{VersionKey}
use nexir_mvcc_core.Backend.Conformance.{history}

order-cases : (x : Ordering) → (x ≡ lt) ⊎ (x ≡ gt) ⊎ (x ≡ eq)
order-cases lt = inl refl
order-cases gt = inr (inl refl)
order-cases eq = inr (inr refl)

module _ {ℓ κ} {K : Type ℓ} {V : Type κ} ⦃o : Ord K⦄ where
  pub get-before : (k : K) (m : BTreeMap K V) → All (λ e. k ≺ e.0) m → get k m ≡ none
  unfolding get
  get-before k [] a = refl
  get-before k ((j, v) ∷ m) (p, a) = ground (arith, p, get-before k m a)

  pub get-filter_by :
      (q : K → Bool) (k : K) (m : BTreeMap K V)
      → get k (filter_by (λ e. q e.0) m) ≡ (if q k then get k m else none)
  unfolding get
  get-filter_by q k [] = ground arith
  get-filter_by q k ((j, v) ∷ m) = ground (arith, get-filter_by q k m, o.cmp_eq k j)

  tails_alike :
      (k : K) (v w : V) (m n : BTreeMap K V)
      → All (λ e. k ≺ e.0) m
      → All (λ e. k ≺ e.0) n
      → ((i : K) → get i ((k, v) ∷ m) ≡ get i ((k, w) ∷ n))
      → (i : K) → get i m ≡ get i n
  unfolding get
  tails_alike k v w m n a b h i = elim (Bool-cases (same i k)) [
    | inl e ↦
        subst (λ j. get j m ≡ get j n) (sym (o.cmp_eq i k (ground (arith, e))))
          (get-before k m a ∙ sym (get-before k n b))
    | inr e ↦ ground (arith, e, h i)
  ]

  -- sorted maps that answer alike are equal
  pub sorted_ext :
      (m n : BTreeMap K V) → IsSorted m → IsSorted n → ((k : K) → get k m ≡ get k n) → m ≡ n
  unfolding get
  sorted_ext [] [] f g h = refl
  sorted_ext [] ((j, w) ∷ n) f g h = ground (arith, h j, o.cmp_self j)
  sorted_ext ((k, v) ∷ m) [] f g h = ground (arith, h k, o.cmp_self k)
  sorted_ext ((k, v) ∷ m) ((j, w) ∷ n) (a, f) (b, g) h = elim (order-cases (o.cmp k j)) [
    | inl before ↦
        let absent = get-before k n (All-after_lt k j n before b) in
        ground (arith, h k, before, absent, o.cmp_self k)
    | inr (inl after) ↦
        let earlier : j ≺ k = ground (arith, after, o.cmp_flip k j) in
        let absent = get-before j m (All-after_lt j k m earlier a) in
        ground (arith, h j, earlier, absent, o.cmp_self j)
    | inr (inr both) ↦
        let q = o.cmp_eq k j both in
        let b' = subst (λ i. All (λ e. i ≺ e.0) n) (sym q) b in
        let h' : ((i : K) → get i ((k, v) ∷ m) ≡ get i ((k, w) ∷ n)) =
          subst (λ l. (i : K) → get i ((k, v) ∷ m) ≡ get i ((l, w) ∷ n)) (sym q) h in
        let tails = sorted_ext m n f g (tails_alike k v w m n a b' h') in
        let values : some v ≡ some w = ground (arith, h' k, o.cmp_self k) in cc (q, tails, values)
  ]

  -- a key before all others comes first, once
  pub insert-front :
      (k : K) (v : V) (m : BTreeMap K V) → All (λ e. k ≺ e.0) m → insert k v m ≡ (k, v) ∷ m
  unfolding insert
  insert-front k v [] a = refl
  insert-front k v ((j, w) ∷ m) (p, a) = ground (arith, p)

  pub insert-again : (k : K) (v : V) (m : BTreeMap K V) → insert k v (insert k v m) ≡ insert k v m
  unfolding insert
  insert-again k v [] = ground (arith, o.cmp_self k)
  insert-again k v ((j, w) ∷ m) = ground (arith, o.cmp_self k, insert-again k v m)

-- the keys of the map of versions
unfoldable pub key_set : BTreeMap VersionKey (Option Value) → BTreeMap Key (Unit {0})
key_set [] = []
key_set (((k, t), v) ∷ m) = insert k tt (key_set m)

pub key_set-IsSorted : (m : BTreeMap VersionKey (Option Value)) → IsSorted (key_set m)
unfolding key_set
key_set-IsSorted [] = tt
key_set-IsSorted (((k, t), v) ∷ m) = insert-IsSorted k tt (key_set m) (key_set-IsSorted m)

get-key_set :
    (k : Key) (m : BTreeMap VersionKey (Option Value))
    → get k (key_set m) ≡ (if is_empty (history k m) then none else some tt)
unfolding key_set get history
get-key_set k [] = refl
get-key_set k (((j, t), v) ∷ m) =
    ground (arith, get-insert j k tt (key_set m), get-key_set k m, same-bytes_eq j k)

history-range_from :
    (start k : Key) (m : BTreeMap VersionKey (Option Value))
    → history k (range_from (start, 0) m) ≡ (if at_least start k then history k m else [])
unfolding history range_from bytes_eq
history-range_from start k [] = ground arith
history-range_from start k (((j, t), v) ∷ m) =
    ground (arith, history-range_from start k m, bytes_cmp-eq j k)

-- the keys from a start key on that have versions, from the map of versions and from the set of all keys
pub key_set-range_from :
    (start : Key) (m : BTreeMap VersionKey (Option Value)) (keys : BTreeMap Key (Unit {0}))
    → IsSorted keys
    → ((k : Key) → is_empty (history k m) ≡ false → get k keys ≡ some tt)
    → key_set (range_from (start, 0) m)
      ≡ filter_by (λ e. at_least start e.0 && not (is_empty (history e.0 m))) keys
key_set-range_from start m keys s h =
    let q : Key → Bool = λ k. at_least start k && not (is_empty (history k m)) in
    sorted_ext (key_set (range_from (start, 0) m)) (filter_by (λ e. q e.0) keys)
      (key_set-IsSorted (range_from (start, 0) m)) (filter_by-IsSorted (λ e. q e.0) keys s)
      (λ k. ground (
        arith,
        get-key_set k (range_from (start, 0) m),
        history-range_from start k m,
        get-filter_by q k keys,
        h k,
      ))
