-- ===== src/Backend/Conformance/Walks.antt =====
-- The loop of the prefix scan of `InMemoryBackend`, which walks the map of versions and keeps each key
-- with the prefix once.
use Prim.Native.Nat.Ordering.{lt}
use mathlib.Core.List.{append-nil, append_assoc}
use nexir_mvcc_core.Prelude.{
  ℕ, ◌+◌, ◌==◌, zero, suc, ◌≤◌, Bool, true, false, ◌<◌, Option, none, some, some_and, List, [], ◌∷◌,
  ◌++◌, map, take, length, next_back, ◌≡◌, refl, sym, ap, ◌∙◌, arith, filter_by, All, All-imp,
  if◌then◌else◌, Bool-cases, inl, inr,
}
use nexir_mvcc_core.Ord.{
  ◌≺◌, bytes_ord, nat_ord, pair_ord, bytes_eq, bytes_cmp, bytes_eq_iff, bytes_cmp-eq, bytes_cmp-lt,
}
use nexir_mvcc_core.BTreeMap.{BTreeMap, IsSorted, insert, at_least}
use nexir_mvcc_core.BTreeMap.Laws.{All-insert}
use nexir_mvcc_core.Types.{Key, Value, Timestamp}
use nexir_mvcc_core.Backend.InMemory.{VersionKey, starts_with, scan_prefix}
use nexir_mvcc_core.Backend.Reference.Histories.{next_back-append}
use nexir_mvcc_core.Backend.Conformance.KeySets.{key_set, insert-front, insert-again}

-- whether the key is the last one seen
abbrev pub seen : Option Key → Key → Bool
seen last k = some_and last (λ j. bytes_eq j k)

-- the keys of the entries, each once where its entries stand together
unfoldable pub fresh : Option Key → BTreeMap VersionKey (Option Value) → List Key
fresh last [] = []
fresh last (((k, t), v) ∷ m) = let rest = fresh (some k) m in if seen last k then rest else k ∷ rest

key_after :
    (k j : Key) (u : Timestamp) (e : VersionKey)
    → bytes_cmp k j ≡ lt
    → (j, u) ≺ e
    → bytes_cmp k e.0 ≡ lt
key_after k j u e q p = ground (arith, bytes_cmp-lt k j e.0 q, bytes_cmp-eq j e.0)

All-key_set :
    (P : Key → Type 0) (m : BTreeMap VersionKey (Option Value))
    → All (λ e. P e.0.0) m
    → All (λ e. P e.0) (key_set m)
unfolding key_set
All-key_set P [] a = tt
All-key_set P (((k, t), v) ∷ m) (p, a) =
    All-insert (λ e. P e.0) k tt (key_set m) p (All-key_set P m a)

pub fresh-none :
    (m : BTreeMap VersionKey (Option Value))
    → IsSorted m
    → fresh none m ≡ map (λ e. e.0) (key_set m)
unfolding key_set fresh
fresh-none [] s = refl
fresh-none (((k, t), v) ∷ []) s = unfold insert in refl
fresh-none (((k, t), v) ∷ ((j, u), w) ∷ m) ((p, a), (b, s)) = elim (Bool-cases (bytes_eq k j)) [
  | inl e ↦
      let q = (bytes_eq_iff k j).0 e in
      let rest = fresh-none (((j, u), w) ∷ m) (b, s) in
      let once : insert k tt (insert k tt (key_set m)) ≡ insert k tt (key_set m) =
        insert-again k tt (key_set m) in
      rw (e, q) (rest ∙ ap (map (λ e. e.0)) (sym (insert-again j tt (key_set m))))
  | inr e ↦
      let q : bytes_cmp k j ≡ lt = unfold bytes_eq in ground (arith, e, p) in
      let behind : All (λ e. bytes_cmp k e.0.0 ≡ lt) m = All-imp (λ e. key_after k j u e.0 q) m b in
      let others : All (λ e. bytes_cmp k e.0 ≡ lt) (key_set (((j, u), w) ∷ m)) =
        All-key_set (λ i. bytes_cmp k i ≡ lt) (((j, u), w) ∷ m) (q, behind) in
      rw (e, insert-front k tt (key_set (((j, u), w) ∷ m)) others)
        (ap (λ ks. k ∷ ks) (fresh-none (((j, u), w) ∷ m) (b, s)))
]

-- a key between two keys with the prefix has it too
prefix_convex :
    (p start k j : Key)
    → starts_with start p ≡ true
    → at_least start k ≡ true
    → bytes_cmp k j ≡ lt
    → starts_with j p ≡ true
    → starts_with k p ≡ true
unfolding starts_with bytes_cmp
prefix_convex [] start k j a b c d = refl
prefix_convex (x ∷ p) [] k j a b c d = cc
prefix_convex (x ∷ p) (y ∷ start) [] j a b c d = cc
prefix_convex (x ∷ p) (y ∷ start) (z ∷ k) [] a b c d = cc
prefix_convex (x ∷ p) (y ∷ start) (z ∷ k) (i ∷ j) a b c d =
    ground (arith, prefix_convex p start k j)

pub starts_with_self : (p : Key) → starts_with p p ≡ true
unfolding starts_with
starts_with_self [] = refl
starts_with_self (x ∷ p) = ground (arith, starts_with_self p)

-- once an entry is without the prefix, so are all behind it
unfoldable pub IsConvex : Key → BTreeMap VersionKey (Option Value) → Type 0
IsConvex p [] = Unit
IsConvex p (((k, t), v) ∷ m) =
    (starts_with k p ≡ false → All (λ e. starts_with e.0.0 p ≡ false) m) × IsConvex p m

filter-fresh :
    (p : Key) (last : Option Key) (m : BTreeMap VersionKey (Option Value))
    → All (λ e. starts_with e.0.0 p ≡ false) m
    → filter_by (λ k. starts_with k p) (fresh last m) ≡ []
unfolding fresh
filter-fresh p last [] a = refl
filter-fresh p last (((k, t), v) ∷ m) (q, a) = ground (arith, q, filter-fresh p (some k) m a)

unprefixed_after :
    (p start k : Key) (t : Timestamp) (e : VersionKey)
    → starts_with start p ≡ true
    → at_least start k ≡ true
    → starts_with k p ≡ false
    → (k, t) ≺ e
    → starts_with e.0 p ≡ false
unprefixed_after p start k t e q l n c =
    ground (arith, n, l, q, bytes_cmp-eq k e.0, prefix_convex p start k e.0)

pub IsConvex-sorted :
    (p start : Key)
    → starts_with start p ≡ true
    → (m : BTreeMap VersionKey (Option Value)) → IsSorted m
    → All (λ e. at_least start e.0.0 ≡ true) m
    → IsConvex p m
unfolding IsConvex
IsConvex-sorted p start q [] s a = tt
IsConvex-sorted p start q (((k, t), v) ∷ m) (b, s) (l, a) = (
  λ n. All-imp (λ e. unprefixed_after p start k t e.0 q l n) m b,
  IsConvex-sorted p start q m s a,
)

seen-last : (last : Option Key) (k : Key) → seen last k ≡ true → last ≡ some k
seen-last none k h = cc
seen-last (some j) k h = ap some ((bytes_eq_iff j k).0 h)

module _ {A : Type 0} where
  take-long : (limit : ℕ) (xs : List A) → length xs ≤ limit → take limit xs ≡ xs
  take-long zero [] l = refl
  take-long zero (x ∷ xs) l = absurd (omega arith)
  take-long (suc limit) [] l = refl
  take-long (suc limit) (x ∷ xs) l = ap (λ ys. x ∷ ys) (take-long limit xs (omega arith))

  length-grown : (xs : List A) (x : A) → length (xs ++ x ∷ []) ≡ length xs + 1
  length-grown [] x = omega arith
  length-grown (y ∷ xs) x = omega (arith, length-grown xs x)

  take-front : (xs ys : List A) → take (length xs) (xs ++ ys) ≡ xs
  take-front [] ys = refl
  take-front (x ∷ xs) ys = ap (λ zs. x ∷ zs) (take-front xs ys)

-- the keys with the prefix among those not yet collected
abbrev pub prefixed : Key → Option Key → BTreeMap VersionKey (Option Value) → List Key
prefixed p last m = filter_by (λ k. starts_with k p) (fresh last m)

-- the loop, from the keys it has collected
pub scan_prefix_lem :
    (p : Key) (limit : ℕ) (result : List Key) (m : BTreeMap VersionKey (Option Value))
    → IsConvex p m
    → length result < limit
    → scan_prefix p limit result m ≡ take limit (result ++ prefixed p (next_back result) m)
unfolding scan_prefix fresh IsConvex
scan_prefix_lem p limit result [] c l =
    sym (take-long limit (result ++ []) (rw (append-nil result) (omega arith)) ∙ append-nil result)
scan_prefix_lem p limit result (((k, t), v) ∷ m) (n, c) l = elim (Bool-cases (starts_with k p)) [
  | inr e ↦
      let stopped : scan_prefix p limit result (((k, t), v) ∷ m) ≡ result = rw e refl in
      let gone = filter-fresh p (next_back result) (((k, t), v) ∷ m) (e, n e) in
      stopped
      ∙ sym (
          ap (λ ys. take limit (result ++ ys)) gone
          ∙ ap (take limit) (append-nil result)
          ∙ take-long limit result (omega arith))
  | inl e ↦ elim (Bool-cases (seen (next_back result) k)) [
    | inl q ↦
        let on : scan_prefix p limit result (((k, t), v) ∷ m) ≡ scan_prefix p limit result m =
          rw (e, q) refl in
        let again : prefixed p (next_back result) (((k, t), v) ∷ m) ≡ prefixed p (some k) m =
          rw q refl in
        on
        ∙ scan_prefix_lem p limit result m c l
        ∙ ap (λ o. take limit (result ++ prefixed p o m)) (seen-last (next_back result) k q)
        ∙ sym (ap (λ ys. take limit (result ++ ys)) again)
    | inr q ↦
        let grown : List Key = result ++ k ∷ [] in
        let more : prefixed p (next_back result) (((k, t), v) ∷ m) ≡ k ∷ prefixed p (some k) m =
          rw (q, e) refl in
        let shape : result ++ prefixed p (next_back result) (((k, t), v) ∷ m)
            ≡ grown ++ prefixed p (some k) m =
          ap (λ ys. result ++ ys) more
          ∙ sym (append_assoc result (k ∷ []) (prefixed p (some k) m)) in
        elim (Bool-cases (length grown == limit)) [
          | inl f ↦
              let full : length grown ≡ limit = ground (arith, f) in
              let stopped : scan_prefix p limit result (((k, t), v) ∷ m) ≡ grown =
                rw (e, q, f) refl in
              stopped
              ∙ sym (
                  ap (take limit) shape
                  ∙ ap (λ x. take x (grown ++ prefixed p (some k) m)) (sym full)
                  ∙ take-front grown (prefixed p (some k) m))
          | inr f ↦
              let on : scan_prefix p limit result (((k, t), v) ∷ m) ≡ scan_prefix p limit grown m =
                rw (e, q, f) refl in
              on
              ∙ scan_prefix_lem p limit grown m c (ground (arith, f, l, length-grown result k))
              ∙ ap (λ o. take limit (grown ++ prefixed p o m)) (next_back-append result k)
              ∙ sym (ap (take limit) shape)
        ]
  ]
]
