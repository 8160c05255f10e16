-- ===== src/BTreeMap/Laws.antt =====
-- Point reads after writes, and that writes keep a map sorted.
use nexir_mvcc_core.Prelude.{
  Bool, false, not, is_empty, none, some, List, [], ◌∷◌, ◌≡◌, refl, arith, filter_by, All, All-imp,
  if◌then◌else◌,
}
use nexir_mvcc_core.Ord.{Ord, ◌≺◌, same}
use nexir_mvcc_core.BTreeMap.{BTreeMap, get, insert, remove, IsSorted}

module _ {ℓ κ} {A : Type ℓ} (P : A → Type κ) (p : A → Bool) where
  pub All-filter_by : (xs : List A) → All P xs → All P (filter_by p xs)
  All-filter_by [] h = tt
  All-filter_by (x ∷ xs) (a, h) = ground (arith, All-filter_by xs h)

module _ {ℓ κ} {K : Type ℓ} {V : Type κ} ⦃o : Ord K⦄ where
  pub get-insert :
      (k j : K) (v : V) (m : BTreeMap K V)
      → get j (insert k v m) ≡ (if same k j then some v else get j m)
  unfolding get insert
  get-insert k j v [] = ground (arith, o.cmp_flip k j)
  get-insert k j v ((i, w) ∷ m) = ground (
    arith,
    o.cmp_flip k j,
    o.cmp_eq k j,
    o.cmp_eq k i,
    o.cmp_eq j i,
    o.cmp_self k,
    o.cmp_flip j i,
    get-insert k j v m,
  )

  pub get-remove :
      (k j : K) (m : BTreeMap K V) → get j (remove k m) ≡ (if same k j then none else get j m)
  unfolding get remove
  get-remove k j [] = ground arith
  get-remove k j ((i, w) ∷ m) =
      ground (arith, o.cmp_flip k j, o.cmp_eq k j, o.cmp_eq k i, o.cmp_eq j i, get-remove k j m)

  pub is_empty-insert : (k : K) (v : V) (m : BTreeMap K V) → is_empty (insert k v m) ≡ false
  unfolding insert
  is_empty-insert k v [] = refl
  is_empty-insert k v ((j, w) ∷ m) = ground arith

  pub All-insert {μ} :
      (P : K × V → Type μ) (k : K) (v : V) (m : BTreeMap K V)
      → P (k, v)
      → All P m
      → All P (insert k v m)
  unfolding insert
  All-insert P k v [] h a = (h, tt)
  All-insert P k v ((j, w) ∷ m) h (b, a) = ground (arith, All-insert P k v m h a)

  pub All-after_lt :
      (k j : K) (m : BTreeMap K V) → k ≺ j → All (λ e. j ≺ e.0) m → All (λ e. k ≺ e.0) m
  All-after_lt k j m q a = All-imp (λ e. o.cmp_lt k j e.0 q) m a

  pub insert-IsSorted : (k : K) (v : V) (m : BTreeMap K V) → IsSorted m → IsSorted (insert k v m)
  unfolding insert
  insert-IsSorted k v [] h = (tt, tt)
  insert-IsSorted k v ((j, w) ∷ m) (a, h) = ground (
    arith,
    o.cmp_flip k j,
    o.cmp_eq k j,
    o.cmp_eq k j,
    All-after_lt k j m,
    All-insert (λ e. j ≺ e.0) k v m,
    insert-IsSorted k v m h,
  )

  pub filter_by-IsSorted :
      (p : K × V → Bool) (m : BTreeMap K V) → IsSorted m → IsSorted (filter_by p m)
  filter_by-IsSorted p [] h = tt
  filter_by-IsSorted p ((j, w) ∷ m) (a, h) =
      ground (arith, All-filter_by (λ e. j ≺ e.0) p m a, filter_by-IsSorted p m h)

  pub remove-IsSorted : (k : K) (m : BTreeMap K V) → IsSorted m → IsSorted (remove k m)
  unfolding remove
  remove-IsSorted k m h = filter_by-IsSorted (λ e. not (same k e.0)) m h
