-- ===== src/Backend/Reference/Histories.antt =====
-- One key's history: the latest and the visible version, and what a version newer than all others
-- does to them.
use Prim.Native.Nat.{compare, Ordering}
use mathlib.Core.List.{append-nil}
use nexir_mvcc_core.Prelude.{
  suc, ◌≤◌, ◌<◌, Bool, true, false, Option, none, some, List, [], ◌∷◌, ◌++◌, ◌≡◌, refl, sym, subst,
  inl, inr, arith, leb, next_back, filter_by, All, All-imp, Option-cases, Bool-cases, if◌then◌else◌,
}
use nexir_mvcc_core.Ord.{nat_ord}
use nexir_mvcc_core.BTreeMap.{insert, IsSorted}
use nexir_mvcc_core.Types.{Timestamp, Value}
use nexir_mvcc_core.Backend.Reference.{History, visible, latest}

module _ {ℓ} {A : Type ℓ} where
  pub next_back-append : (xs : List A) (x : A) → next_back (xs ++ x ∷ []) ≡ some x
  next_back-append [] x = refl
  next_back-append (y ∷ xs) x = rw (next_back-append xs x)

  pub filter_by-append :
      (p : A → Bool) (xs ys : List A) → filter_by p (xs ++ ys) ≡ filter_by p xs ++ filter_by p ys
  filter_by-append p [] ys = refl
  filter_by-append p (x ∷ xs) ys = elim (Bool-cases (p x)) [
    | inl q ↦ rw (q, filter_by-append p xs ys)
    | inr q ↦ rw (q, filter_by-append p xs ys)
  ]

  pub All-next_back {κ} :
      (P : A → Type κ) (xs : List A) (y : A) → All P xs → next_back xs ≡ some y → P y
  All-next_back P [] y h q = cc
  All-next_back P (x ∷ xs) y (p, h) q = elim (Option-cases (next_back xs)) [
    | inl e ↦ subst P (ground arith) p
    | inr (z, e) ↦ All-next_back P xs y h (ground arith)
  ]

  pub next_back-none : (xs : List A) → next_back xs ≡ none → xs ≡ []
  next_back-none [] q = refl
  next_back-none (x ∷ xs) q = ground arith

-- all versions are older than `ts`, or not newer
abbrev pub Before : Timestamp → History → Type 0
Before ts h = All (λ e. e.0 < ts) h

abbrev pub UpTo : Timestamp → History → Type 0
UpTo ts h = All (λ e. e.0 ≤ ts) h

pub insert-newest :
    (ts : Timestamp) (v : Option Value) (h : History)
    → Before ts h
    → insert ts v h ≡ h ++ (ts, v) ∷ []
unfolding insert
insert-newest ts v [] b = refl
insert-newest ts v ((t, w) ∷ h) (p, b) = ground (arith, insert-newest ts v h)

next_back-kept :
    {A : Type 0} (xs : List A) (x : A) (c : Bool)
    → next_back (xs ++ (if c then x ∷ [] else [])) ≡ (if c then some x else next_back xs)
next_back-kept xs x true = next_back-append xs x
next_back-kept xs x false = rw append-nil

module _ (ts : Timestamp) (v : Option Value) (h : History) (b : Before ts h) where
  pub latest-insert_newest : latest (insert ts v h) ≡ some (ts, v)
  unfolding latest
  latest-insert_newest = rw (insert-newest ts v h b) (next_back-append h (ts, v))

  pub visible-insert_newest :
      (r : Timestamp) → visible r (insert ts v h) ≡ (if leb ts r then some (ts, v) else visible r h)
  unfolding visible
  visible-insert_newest r =
      rw (insert-newest ts v h b, filter_by-append (λ e. leb e.0 r) h ((ts, v) ∷ []))
        (next_back-kept (filter_by (λ e. leb e.0 r) h) (ts, v) (leb ts r))

pub Before-latest :
    (c : Timestamp) (h : History)
    → IsSorted h
    → ((e : Timestamp × Option Value) → latest h ≡ some e → e.0 < c)
    → Before c h
unfolding latest
Before-latest c [] s k = tt
Before-latest c (x ∷ h) (a, s) k = elim (Option-cases (next_back h)) [
  | inl q ↦
      let e : h ≡ [] = next_back-none h q in
      (k x (rw q), subst (λ (l : History). Before c l) (sym e) tt)
  | inr (y, q) ↦
      let after : compare x.0 y.0 ≡ Ordering.lt =
        All-next_back (λ e. compare x.0 e.0 ≡ Ordering.lt) h y a q in
      let last : y.0 < c = k y (rw q) in
      (ground arith, Before-latest c h s (λ e p. k e (ground arith)))
]

pub UpTo-Before : (ts : Timestamp) (h : History) → Before (suc ts) h → UpTo ts h
UpTo-Before ts h b = All-imp (λ e p. omega arith) h b

pub UpTo-latest :
    (ts : Timestamp) (h : History)
    → IsSorted h
    → ((e : Timestamp × Option Value) → latest h ≡ some e → e.0 ≤ ts)
    → UpTo ts h
UpTo-latest ts h s k = UpTo-Before ts h (Before-latest (suc ts) h s (λ e q. omega (arith, k e q)))

pub Before-UpTo : (ts c : Timestamp) (h : History) → ts < c → UpTo ts h → Before c h
Before-UpTo ts c h q b = All-imp (λ e p. omega arith) h b

pub latest-Before :
    (c : Timestamp) (h : History) (e : Timestamp × Option Value)
    → Before c h
    → latest h ≡ some e
    → e.0 < c
unfolding latest
latest-Before c h e b q = All-next_back (λ y. y.0 < c) h e b q
