-- ===== src/Exec/Returns.antt =====
-- Partial correctness of actions: what an action returns, where it returns `Ok`.
use nexir_mvcc_core.Prelude.{◌≡◌, refl, subst, arith}
use nexir_mvcc_core.Exec.{Result, Exec, ok, err, pure, continue, ◌>>=◌}

-- whatever an action returns satisfies `P`
pub record Returns {S E A : Type 0} (m : Exec S E A) (P : A → Type 0) : Type 0 where
  pub at : (s : S) (a : A) → (m s).0 ≡ ok a → P a

module _ {S E : Type 0} where
  pub Returns-pure :
      {A : Type 0} (P : A → Type 0) (a : A) → P a → Returns {S = S} {E = E} (pure a) P
  unfolding pure
  Returns-pure P a p = record { at = λ s x q. subst P (ground arith) p }

  continue-returns :
      {A B : Type 0} (P : B → Type 0) (Q : A → Type 0) (f : A → Exec S E B) (r : Result E A) (s : S)
      → ((a : A) → r ≡ ok a → Q a)
      → ((a : A) → Q a → Returns (f a) P)
      → (x : B) → (continue f (r, s)).0 ≡ ok x
      → P x
  continue-returns P Q f (ok a) s p k x q = (k a (p a refl)).at s x q
  continue-returns P Q f (err e) s p k x q = cc

  pub Returns-bind :
      {A B : Type 0} (P : B → Type 0) (Q : A → Type 0) (m : Exec S E A) (f : A → Exec S E B)
      → Returns m Q
      → ((a : A) → Q a → Returns (f a) P)
      → Returns (m >>= f) P
  unfolding ◌>>=◌
  Returns-bind P Q m f h k = record {
    at = λ s x q. continue-returns P Q f (m s).0 (m s).1 (h.at s) k x q;
  }

  Returns-anything : {A : Type 0} (m : Exec S E A) → Returns m (λ a. Unit)
  Returns-anything m = record { at = λ s a q. tt }

  pub Returns-behind :
      {A B : Type 0} (P : B → Type 0) (m : Exec S E A) (f : A → Exec S E B)
      → ((a : A) → Returns (f a) P)
      → Returns (m >>= f) P
  Returns-behind P m f k = Returns-bind P (λ a. Unit) m f (Returns-anything m) (λ a u. k a)
