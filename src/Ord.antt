-- ===== src/Ord.antt =====
-- Rust's `Ord` as the maps use it: `u128` and `u64` compare as numbers, `Vec<u8>` and tuples
-- lexicographically (src/types.rs derives `Ord` for `Timestamp`; `Key` is `Vec<u8>`).
use Prim.Native.Nat.{compare, Ordering}
use Prim.Native.Nat.Ordering.{lt, eq, gt}
use nexir_mvcc_core.Prelude.{ℕ, ◌≡◌, refl, subst, ◌↔◌, Bool, true, false, List, [], ◌∷◌, arith}

abbrev pub flip : Ordering → Ordering
flip lt = gt
flip eq = eq
flip gt = lt

-- `first.then(second)`
abbrev pub then : Ordering → Ordering → Ordering
then lt second = lt
then eq second = second
then gt second = gt

pub record Ord {ℓ} (K : Type ℓ) : Type ℓ where
  pub cmp : K → K → Ordering
  pub cmp_self : (a : K) → cmp a a ≡ eq
  pub cmp_eq : (a b : K) → cmp a b ≡ eq → a ≡ b
  pub cmp_flip : (a b : K) → cmp b a ≡ flip (cmp a b)
  pub cmp_lt : (a b c : K) → cmp a b ≡ lt → cmp b c ≡ lt → cmp a c ≡ lt

infix 50 ◌≺◌
abbrev pub ◌≺◌ {ℓ} : {K : Type ℓ} ⦃o : Ord K⦄ → K → K → Type 0
◌≺◌ ⦃o⦄ a b = o.cmp a b ≡ lt

pub compare-flip : (a b : ℕ) → compare b a ≡ flip (compare a b)
compare-flip a b = ground arith

pub compare_self : (a : ℕ) → compare a a ≡ eq
compare_self a = ground arith

pub compare-eq : (a b : ℕ) → compare a b ≡ eq → a ≡ b
compare-eq a b h = ground arith

pub compare-lt : (a b c : ℕ) → compare a b ≡ lt → compare b c ≡ lt → compare a c ≡ lt
compare-lt a b c h k = ground arith

instance abbrev pub nat_ord : Ord ℕ
nat_ord = record {
  cmp = compare;
  cmp_self = compare_self;
  cmp_eq = compare-eq;
  cmp_flip = compare-flip;
  cmp_lt = compare-lt;
}

-- `a == b`, read off the order
abbrev pub same {ℓ} : {K : Type ℓ} ⦃o : Ord K⦄ → K → K → Bool
same ⦃o⦄ a b = elim (o.cmp a b) [ eq ↦ true | _ ↦ false ]

-- The order of byte strings: a proper prefix comes first.
unfoldable pub bytes_cmp : List ℕ → List ℕ → Ordering
bytes_cmp [] [] = eq
bytes_cmp [] (b ∷ bs) = lt
bytes_cmp (a ∷ as_) [] = gt
bytes_cmp (a ∷ as_) (b ∷ bs) = then (compare a b) (bytes_cmp as_ bs)

pub bytes_cmp_self : (a : List ℕ) → bytes_cmp a a ≡ eq
unfolding bytes_cmp
bytes_cmp_self [] = refl
bytes_cmp_self (a ∷ r) = ground (arith, bytes_cmp_self r)

pub bytes_cmp-eq : (a b : List ℕ) → bytes_cmp a b ≡ eq → a ≡ b
unfolding bytes_cmp
bytes_cmp-eq [] [] h = refl
bytes_cmp-eq [] (b ∷ s) h = cc
bytes_cmp-eq (a ∷ r) [] h = cc
bytes_cmp-eq (a ∷ r) (b ∷ s) h = ground (arith, bytes_cmp-eq r s)

pub bytes_cmp-flip : (a b : List ℕ) → bytes_cmp b a ≡ flip (bytes_cmp a b)
unfolding bytes_cmp
bytes_cmp-flip [] [] = refl
bytes_cmp-flip [] (b ∷ s) = refl
bytes_cmp-flip (a ∷ r) [] = refl
bytes_cmp-flip (a ∷ r) (b ∷ s) = ground (arith, bytes_cmp-flip r s)

pub bytes_cmp-lt : (a b c : List ℕ) → bytes_cmp a b ≡ lt → bytes_cmp b c ≡ lt → bytes_cmp a c ≡ lt
unfolding bytes_cmp
bytes_cmp-lt [] [] c h k = cc
bytes_cmp-lt [] (b ∷ s) [] h k = cc
bytes_cmp-lt [] (b ∷ s) (c ∷ t) h k = refl
bytes_cmp-lt (a ∷ r) [] c h k = cc
bytes_cmp-lt (a ∷ r) (b ∷ s) [] h k = cc
bytes_cmp-lt (a ∷ r) (b ∷ s) (c ∷ t) h k = ground (arith, bytes_cmp-lt r s t)

instance abbrev pub bytes_ord : Ord (List ℕ)
bytes_ord = record {
  cmp = bytes_cmp;
  cmp_self = bytes_cmp_self;
  cmp_eq = bytes_cmp-eq;
  cmp_flip = bytes_cmp-flip;
  cmp_lt = bytes_cmp-lt;
}

-- `a == b` on byte strings
unfoldable pub bytes_eq : List ℕ → List ℕ → Bool
bytes_eq a b = elim (bytes_cmp a b) [ eq ↦ true | _ ↦ false ]

pub bytes_eq_iff : (a b : List ℕ) → (bytes_eq a b ≡ true) ↔ (a ≡ b)
unfolding bytes_eq
bytes_eq_iff a b = (
  (λ h. ground (arith, bytes_cmp-eq a b)),
  (λ e. subst (λ c. bytes_eq a c ≡ true) e (ground (arith, bytes_cmp_self a))),
)

pub same-bytes_eq : (a b : List ℕ) → same a b ≡ bytes_eq a b
unfolding bytes_eq
same-bytes_eq a b = refl

module _ {ℓ κ} {A : Type ℓ} {B : Type κ} ⦃p : Ord A⦄ ⦃q : Ord B⦄ where
  abbrev pub pair_cmp : A × B → A × B → Ordering
  pair_cmp x y = then (p.cmp x.0 y.0) (q.cmp x.1 y.1)

  pub pair_cmp_self : (x : A × B) → pair_cmp x x ≡ eq
  pair_cmp_self x = ground (arith, p.cmp_self x.0, q.cmp_self x.1)

  pub pair_cmp-eq : (x y : A × B) → pair_cmp x y ≡ eq → x ≡ y
  pair_cmp-eq x y h = ground (arith, p.cmp_eq x.0 y.0, q.cmp_eq x.1 y.1)

  pub pair_cmp-flip : (x y : A × B) → pair_cmp y x ≡ flip (pair_cmp x y)
  pair_cmp-flip x y = ground (arith, p.cmp_flip x.0 y.0, q.cmp_flip x.1 y.1)

  pub pair_cmp-lt : (x y z : A × B) → pair_cmp x y ≡ lt → pair_cmp y z ≡ lt → pair_cmp x z ≡ lt
  pair_cmp-lt x y z h k = ground (
    arith,
    p.cmp_eq x.0 y.0,
    p.cmp_eq y.0 z.0,
    p.cmp_lt x.0 y.0 z.0,
    q.cmp_lt x.1 y.1 z.1,
    p.cmp_self x.0,
  )

  instance abbrev pub pair_ord : Ord (A × B)
  pair_ord = record {
    cmp = pair_cmp;
    cmp_self = pair_cmp_self;
    cmp_eq = pair_cmp-eq;
    cmp_flip = pair_cmp-flip;
    cmp_lt = pair_cmp-lt;
  }
