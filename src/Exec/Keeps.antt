-- ===== src/Exec/Keeps.antt =====
-- Rules for actions: which leave the state as it is, and which do so where they fail.
use nexir_mvcc_core.Prelude.{
  ◌≡◌, refl, ◌∙◌, Bool, true, false, Option, none, some, String, arith, if◌then◌else◌,
}
use nexir_mvcc_core.Exec.{
  Result, Exec, ok, err, map_err, pure, raise, query, mutate, ok_or, reject_if, continue, ◌>>=◌,
}

-- `m` only reads
pub record IsReading {S E A : Type 0} (m : Exec S E A) : Type 0 where
  pub at : (s : S) → (m s).1 ≡ s

-- `m` leaves the state as it was wherever it fails
pub record IsAtomic {S E A : Type 0} (m : Exec S E A) : Type 0 where
  pub at : (s : S) (e : E) → (m s).0 ≡ err e → (m s).1 ≡ s

module _ {S E A : Type 0} where
  pub IsReading-pure : (a : A) → IsReading {S = S} {E = E} (pure a)
  unfolding pure
  IsReading-pure a = record { at = λ s. refl }

  pub pure-ok : (a r : A) (s s' : S) → pure {E = E} a s ≡ (ok r, s') → r ≡ a
  unfolding pure
  pure-ok a r s s' h = ground arith

  pub query-ok :
      (wrap : String → E) (f : S → A) (a : A) (s s' : S)
      → query wrap (λ x. ok (f x)) s ≡ (ok a, s')
      → a ≡ f s
  unfolding query
  query-ok wrap f a s s' h = ground arith

  pub IsReading-raise : (e : E) → IsReading {S = S} {A = A} (raise e)
  unfolding raise
  IsReading-raise e = record { at = λ s. refl }

  pub IsReading-query : (wrap : String → E) (q : S → Result String A) → IsReading (query wrap q)
  unfolding query
  IsReading-query wrap q = record { at = λ s. refl }

  pub IsReading-ok_or : (e : E) (o : Option A) → IsReading {S = S} (ok_or e o)
  unfolding ok_or
  IsReading-ok_or e none = record { at = λ s. refl }
  IsReading-ok_or e (some a) = record { at = λ s. refl }

  pub IsReading-if :
      (c : Bool) (m n : Exec S E A) → IsReading m → IsReading n → IsReading (if c then m else n)
  IsReading-if true m n h k = h
  IsReading-if false m n h k = k

  pub IsReading-option :
      {B : Type 0} (o : Option B) (m : Exec S E A) (f : B → Exec S E A)
      → IsReading m
      → ((x : B) → IsReading (f x))
      → IsReading (elim o [ none ↦ m | some x ↦ f x ])
  IsReading-option none m f h k = h
  IsReading-option (some x) m f h k = k x

  pub IsAtomic-if :
      (c : Bool) (m n : Exec S E A) → IsAtomic m → IsAtomic n → IsAtomic (if c then m else n)
  IsAtomic-if true m n h k = h
  IsAtomic-if false m n h k = k

  pub IsAtomic-option :
      {B : Type 0} (o : Option B) (m : Exec S E A) (f : B → Exec S E A)
      → IsAtomic m
      → ((x : B) → IsAtomic (f x))
      → IsAtomic (elim o [ none ↦ m | some x ↦ f x ])
  IsAtomic-option none m f h k = h
  IsAtomic-option (some x) m f h k = k x

  pub IsAtomic-reading : (m : Exec S E A) → IsReading m → IsAtomic m
  IsAtomic-reading m h = record { at = λ s e q. h.at s }

  atomic_map_err :
      (wrap : String → E) (r : Result String A) (s s' : S) (e : E)
      → ((x : String) → r ≡ err x → s' ≡ s)
      → map_err wrap r ≡ err e
      → s' ≡ s
  atomic_map_err wrap (ok a) s s' e k q = cc
  atomic_map_err wrap (err x) s s' e k q = k x refl

  pub IsAtomic-mutate :
      (wrap : String → E) (m : Exec S String A) → IsAtomic m → IsAtomic (mutate wrap m)
  unfolding mutate
  IsAtomic-mutate wrap m h = record {
    at = λ s e q. atomic_map_err wrap (m s).0 s (m s).1 e (h.at s) q;
  }

module _ {S E : Type 0} where
  pub reject_if-ok :
      (c : Bool) (e : E) (s s' : S) (y : Unit {0}) → reject_if c e s ≡ (ok y, s') → c ≡ false
  unfolding reject_if
  reject_if-ok true e s s' y h = cc
  reject_if-ok false e s s' y h = refl

  -- a write that never fails, at the end of a block that returned `Ok`
  pub mutate-ok :
      (wrap : String → E) (f : S → S) (s s' : S) (y : Unit {0})
      → mutate wrap (λ x. (ok tt, f x)) s ≡ (ok y, s')
      → s' ≡ f s
  unfolding mutate
  mutate-ok wrap f s s' y h = ground arith

  pub IsReading-reject_if : (c : Bool) (e : E) → IsReading {S = S} (reject_if c e)
  unfolding reject_if
  IsReading-reject_if true e = record { at = λ s. refl }
  IsReading-reject_if false e = record { at = λ s. refl }

module _ {S E A B : Type 0} where
  reading_continue :
      (f : A → Exec S E B) (r : Result E A) (s : S)
      → ((a : A) → IsReading (f a))
      → (continue f (r, s)).1 ≡ s
  reading_continue f (ok a) s k = (k a).at s
  reading_continue f (err e) s k = refl

  pub IsReading-bind :
      (m : Exec S E A) (f : A → Exec S E B)
      → IsReading m
      → ((a : A) → IsReading (f a))
      → IsReading (m >>= f)
  unfolding ◌>>=◌
  IsReading-bind m f h k = record { at = λ s. reading_continue f (m s).0 (m s).1 k ∙ h.at s }

  continue-ok :
      (f : A → Exec S E B) (r : Result E A) (s s' : S) (y : B)
      → continue f (r, s) ≡ (ok y, s')
      → (x : A) × (r ≡ ok x) × (f x s ≡ (ok y, s'))
  continue-ok f (ok x) s s' y h = (x, refl, h)
  continue-ok f (err e) s s' y h = cc

  -- where a block that begins with a read returns `Ok`, the read did, and the rest starts in the same
  -- state
  pub reading-bind-ok :
      (m : Exec S E A) (f : A → Exec S E B) (s s' : S) (y : B)
      → IsReading m
      → (m >>= f) s ≡ (ok y, s')
      → (x : A) × (m s ≡ (ok x, s)) × (f x s ≡ (ok y, s'))
  unfolding ◌>>=◌
  reading-bind-ok m f s s' y k h =
      let (x, p, q) = continue-ok f (m s).0 (m s).1 s' y h in
      (x, ground (arith, k.at s), ground (arith, k.at s))

  atomic_continue :
      (f : A → Exec S E B) (r : Result E A) (s : S) (e : E)
      → ((a : A) → IsAtomic (f a))
      → (continue f (r, s)).0 ≡ err e
      → (continue f (r, s)).1 ≡ s
  atomic_continue f (ok a) s e k q = (k a).at s e q
  atomic_continue f (err x) s e k q = refl

  -- only the last action may write
  pub IsAtomic-bind :
      (m : Exec S E A) (f : A → Exec S E B)
      → IsReading m
      → ((a : A) → IsAtomic (f a))
      → IsAtomic (m >>= f)
  unfolding ◌>>=◌
  IsAtomic-bind m f h k = record { at = λ s e q. atomic_continue f (m s).0 (m s).1 e k q ∙ h.at s }

  atomic_then :
      (r : Result E A) (x : B) (s s' : S) (e : E)
      → ((y : E) → r ≡ err y → s' ≡ s)
      → (continue (λ _. pure x) (r, s')).0 ≡ err e
      → (continue (λ _. pure {E = E} x) (r, s')).1 ≡ s
  unfolding pure
  atomic_then (ok a) x s s' e k q = cc
  atomic_then (err y) x s s' e k q = k y refl

  -- a value may be returned behind the write
  pub IsAtomic-then : (m : Exec S E A) (x : B) → IsAtomic m → IsAtomic (m >>= λ _. pure x)
  unfolding ◌>>=◌
  IsAtomic-then m x h = record { at = λ s e q. atomic_then (m s).0 x s (m s).1 e (h.at s) q }

pub ruleset reading_rules = (
  IsReading-pure, IsReading-raise, IsReading-query, IsReading-ok_or, IsReading-reject_if,
  IsReading-if, IsReading-option, IsReading-bind,
)

pub ruleset atomic_rules = (
  reading_rules, IsAtomic-if, IsAtomic-option, IsAtomic-reading, IsAtomic-mutate, IsAtomic-bind,
  IsAtomic-then,
)
