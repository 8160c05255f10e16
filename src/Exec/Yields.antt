-- ===== src/Exec/Yields.antt =====
-- Total correctness of actions: from a state, an action returns `Ok`, and what it returns and the
-- state after it satisfy a postcondition.
use nexir_mvcc_core.Prelude.{◌≡◌, refl, ◌∙◌, String}
use nexir_mvcc_core.Exec.{Exec, ok, pure, query, mutate, ◌>>=◌}

pub record Yields {S E A : Type 0} (m : Exec S E A) (s : S) (Q : A → S → Type 0) : Type 0 where
  pub value : A
  pub after : S
  pub result : m s ≡ (ok value, after)
  pub holds : Q value after

module _ {S E A : Type 0} (Q : A → S → Type 0) where
  pub Yields-pure : (a : A) (s : S) → Q a s → Yields {E = E} (pure a) s Q
  unfolding pure
  Yields-pure a s h = record { value = a; after = s; result = refl; holds = h }

  pub Yields-query :
      (wrap : String → E) (f : S → A) (s : S) → Q (f s) s → Yields (query wrap (λ x. ok (f x))) s Q
  unfolding query
  Yields-query wrap f s h = record { value = f s; after = s; result = refl; holds = h }

  pub Yields-mutate :
      (wrap : String → E) (a : A) (f : S → S) (s : S)
      → Q a (f s)
      → Yields (mutate wrap (λ x. (ok a, f x))) s Q
  unfolding mutate
  Yields-mutate wrap a f s h = record { value = a; after = f s; result = refl; holds = h }

  pub Yields-imp :
      (P : A → S → Type 0) (m : Exec S E A) (s : S)
      → Yields m s P
      → ((a : A) (t : S) → P a t → Q a t)
      → Yields m s Q
  Yields-imp P m s y h = record {
    value = y.value;
    after = y.after;
    result = y.result;
    holds = h y.value y.after y.holds;
  }

  -- actions that do the same at a state yield the same there
  pub Yields-same : (m n : Exec S E A) (s : S) → m s ≡ n s → Yields n s Q → Yields m s Q
  Yields-same m n s e y = record {
    value = y.value;
    after = y.after;
    result = e ∙ y.result;
    holds = y.holds;
  }

module _ {S E A B : Type 0} (P : A → S → Type 0) (Q : B → S → Type 0) where
  pub Yields-bind :
      (m : Exec S E A) (f : A → Exec S E B) (s : S)
      → Yields m s P
      → ((a : A) (t : S) → P a t → Yields (f a) t Q)
      → Yields (m >>= f) s Q
  unfolding ◌>>=◌
  Yields-bind m f s y h =
      let next = h y.value y.after y.holds in
      record {
        value = next.value;
        after = next.after;
        result = rw (y.result) next.result;
        holds = next.holds;
      }
