-- ===== src/Engine/IncrementalGc/Cursor.antt =====
-- The keys that `gc_incremental` of src/engine.rs has still to visit from a cursor on, in rising order.
use nexir_mvcc_core.Prelude.{
  ℕ, zero, suc, ◌≤◌, ◌<◌, Bool, true, false, Option, none, some, List, [], ◌∷◌, ◌++◌, map, ◌≡◌,
  refl, sym, ap, arith, length, take, get_elem?, is_some, ◌&&◌, filter_by, All,
}
use nexir_mvcc_core.Ord.{bytes_ord, bytes_eq, bytes_cmp-flip, bytes_cmp-eq, bytes_cmp_self, ◌≺◌}
use nexir_mvcc_core.BTreeMap
use nexir_mvcc_core.BTreeMap.{BTreeMap, IsSorted, at_least, range_from}
use nexir_mvcc_core.Types.{Key}
use nexir_mvcc_core.Backend.Reference.{keys_at}
use nexir_mvcc_core.Backend.Reference.Effects.{Distinct}
use nexir_mvcc_core.Engine.Batch.{contains}

-- the keys that the scan has still to visit
abbrev pub is_ahead : Option Key → Key → Bool
is_ahead none k = true
is_ahead (some c) k = at_least c k

abbrev pub keys_of : BTreeMap Key (Unit {0}) → List Key
keys_of m = map (λ e. e.0) m

abbrev pub ahead : Option Key → BTreeMap Key (Unit {0}) → List Key
ahead c m = filter_by (is_ahead c) (keys_of m)

pub keys_at-ahead :
    (c : Option Key) (n : ℕ) (m : BTreeMap Key (Unit {0})) → keys_at c n m ≡ take n (ahead c m)
unfolding range_from
keys_at-ahead none n m = ap (take n) (sym (all_ahead m))
  where
    all_ahead : (m : BTreeMap Key (Unit {0})) → ahead none m ≡ keys_of m
    all_ahead [] = refl
    all_ahead (e ∷ m) = ap (λ l. e.0 ∷ l) (all_ahead m)
keys_at-ahead (some c) n m = ap (take n) (ranged m)
  where
    ranged : (m : BTreeMap Key (Unit {0})) → keys_of (range_from c m) ≡ ahead (some c) m
    ranged [] = refl
    ranged (e ∷ m) = ground (arith, ranged m)

abbrev pub IsRising : List Key → Type 0
IsRising [] = Unit
IsRising (k ∷ ks) = All (λ j. k ≺ j) ks × IsRising ks

pub keys_of-IsRising : (m : BTreeMap Key (Unit {0})) → IsSorted m → IsRising (keys_of m)
keys_of-IsRising [] s = tt
keys_of-IsRising (e ∷ m) (a, s) = (above m a, keys_of-IsRising m s)
  where
    above : (m : BTreeMap Key (Unit {0})) → All (λ j. e.0 ≺ j.0) m → All (λ j. e.0 ≺ j) (keys_of m)
    above [] a = tt
    above (x ∷ m) (p, a) = (p, above m a)

pub contains-ahead :
    (c : Option Key) (k : Key) (m : BTreeMap Key (Unit {0}))
    → contains (ahead c m) k ≡ (is_some (BTreeMap.get k m) && is_ahead c k)
unfolding contains BTreeMap.get bytes_eq
contains-ahead c k [] = refl
contains-ahead c k (e ∷ m) =
    ground
      (arith, contains-ahead c k m, bytes_cmp-flip k e.0, bytes_cmp-eq e.0 k, bytes_cmp-eq k e.0)

module _ (p : Key → Bool) where
  pub All-kept : (P : Key → Type 0) (ks : List Key) → All P ks → All P (filter_by p ks)
  All-kept P [] a = tt
  All-kept P (k ∷ ks) (q, a) = ground (arith, All-kept P ks a)

  IsRising-filter_by : (ks : List Key) → IsRising ks → IsRising (filter_by p ks)
  IsRising-filter_by [] r = tt
  IsRising-filter_by (k ∷ ks) (a, r) =
      ground (arith, All-kept (λ j. k ≺ j) ks a, IsRising-filter_by ks r)

pub ahead-IsRising :
    (c : Option Key) (m : BTreeMap Key (Unit {0})) → IsSorted m → IsRising (ahead c m)
ahead-IsRising c m s = IsRising-filter_by (is_ahead c) (keys_of m) (keys_of-IsRising m s)

contains-below : (k : Key) (ks : List Key) → All (λ j. k ≺ j) ks → contains ks k ≡ false
unfolding contains bytes_eq
contains-below k [] a = refl
contains-below k (j ∷ ks) (p, a) = ground (arith, contains-below k ks a, bytes_cmp-flip k j)

pub IsRising-Distinct : (ks : List Key) → IsRising ks → Distinct ks
IsRising-Distinct [] r = tt
IsRising-Distinct (k ∷ ks) (a, r) = (contains-below k ks a, IsRising-Distinct ks r)

All-taken : (P : Key → Type 0) (n : ℕ) (ks : List Key) → All P ks → All P (take n ks)
All-taken P zero ks a = tt
All-taken P (suc n) [] a = tt
All-taken P (suc n) (k ∷ ks) (p, a) = (p, All-taken P n ks a)

pub IsRising-take : (n : ℕ) (ks : List Key) → IsRising ks → IsRising (take n ks)
IsRising-take zero ks r = tt
IsRising-take (suc n) [] r = tt
IsRising-take (suc n) (k ∷ ks) (a, r) = (All-taken (λ j. k ≺ j) n ks a, IsRising-take n ks r)

-- in a rising list, what stands before a key comes before it
pub All-before :
    (xs ys : List Key) (c : Key) → IsRising (xs ++ c ∷ ys) → All (λ k. at_least c k ≡ false) xs
All-before [] ys c r = tt
All-before (x ∷ xs) ys c (a, r) = (before xs a, All-before xs ys c r)
  where
    before : (xs : List Key) → All (λ j. x ≺ j) (xs ++ c ∷ ys) → at_least c x ≡ false
    before [] (p, a) = ground (arith, p)
    before (y ∷ xs) (p, a) = before xs a

at_least-above : (c : Key) (ys : List Key) → All (λ j. c ≺ j) ys → All (λ k. at_least c k ≡ true) ys
at_least-above c [] a = tt
at_least-above c (y ∷ ys) (p, a) = (ground (arith, p, bytes_cmp-flip c y), at_least-above c ys a)

pub All-behind :
    (xs ys : List Key) (c : Key) → IsRising (xs ++ c ∷ ys) → All (λ k. at_least c k ≡ true) (c ∷ ys)
All-behind [] ys c (a, r) = (ground (arith, bytes_cmp_self c), at_least-above c ys a)
All-behind (x ∷ xs) ys c (a, r) = All-behind xs ys c r

-- a page that breaks off at a key, inside the whole list
pub take-prefix :
    (n : ℕ) (ks done rest : List Key) (c : Key)
    → take n ks ≡ done ++ c ∷ rest
    → (more : List Key) × (ks ≡ done ++ c ∷ more)
take-prefix zero ks [] rest c q = cc
take-prefix zero ks (d ∷ done) rest c q = cc
take-prefix (suc n) [] [] rest c q = cc
take-prefix (suc n) [] (d ∷ done) rest c q = cc
take-prefix (suc n) (k ∷ ks) [] rest c q = (ks, ground (arith, q))
take-prefix (suc n) (k ∷ ks) (d ∷ done) rest c q =
    let (more, e) = take-prefix n ks done rest c (ground (arith, q)) in
    (more, ground (arith, q, ap (λ l. d ∷ l) e))

pub take-take : (n : ℕ) (ks : List Key) → take n (take (suc n) ks) ≡ take n ks
take-take zero ks = refl
take-take (suc n) [] = refl
take-take (suc n) (k ∷ ks) = ap (λ l. k ∷ l) (take-take n ks)

-- the key behind a full page
pub take-next :
    (n : ℕ) (ks : List Key)
    → n < length (take (suc n) ks)
    → (c : Key) × (rest : List Key) × (get_elem? (take (suc n) ks) n ≡ some c)
      × (ks ≡ take n ks ++ c ∷ rest)
      × (length (take n ks) ≡ n)
take-next zero [] q = ground arith
take-next zero (k ∷ ks) q = (k, ks, refl, refl, refl)
take-next (suc n) [] q = ground arith
take-next (suc n) (k ∷ ks) q =
    let (c, rest, a, b, d) = take-next n ks (omega arith) in
    (c, rest, a, ap (λ l. k ∷ l) b, omega (arith, d))

pub take-rest : (n : ℕ) (ks : List Key) → length (take (suc n) ks) ≤ n → take n ks ≡ ks
take-rest zero [] q = refl
take-rest zero (k ∷ ks) q = ground arith
take-rest (suc n) [] q = refl
take-rest (suc n) (k ∷ ks) q = ap (λ l. k ∷ l) (take-rest n ks (omega arith))
