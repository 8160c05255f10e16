-- ===== src/Exec/Matches.antt =====
-- Two actions over two kinds of state, in step: from related states they return the same, errors
-- included, and leave related states.
use nexir_mvcc_core.Prelude.{
  ◌≡◌, refl, ap, Bool, true, false, Option, none, some, String, if◌then◌else◌,
}
use nexir_mvcc_core.Exec.{
  Result, Exec, ok, err, map_err, pure, raise, query, mutate, ok_or, reject_if, continue, ◌>>=◌,
}

module _ {S T : Type 0} (R : S → T → Type 0) where
  pub record Matches {E A : Type 0} (m : Exec S E A) (n : Exec T E A) : Type 0 where
    pub same : (s : S) (t : T) → R s t → (m s).0 ≡ (n t).0
    pub related : (s : S) (t : T) → R s t → R (m s).1 (n t).1

  -- two reads that answer alike
  pub record Answers {A : Type 0} (f : S → A) (g : T → A) : Type 0 where
    pub alike : (s : S) (t : T) → R s t → f s ≡ g t

  module _ {E A : Type 0} where
    pub Matches-pure : (a : A) → Matches {E = E} (pure a) (pure a)
    unfolding pure
    Matches-pure a = record { same = λ s t r. refl; related = λ s t r. r }

    pub Matches-raise : (e : E) → Matches {A = A} (raise e) (raise e)
    unfolding raise
    Matches-raise e = record { same = λ s t r. refl; related = λ s t r. r }

    pub Matches-query :
        (wrap : String → E) (f : S → Result String A) (g : T → Result String A)
        → Answers f g
        → Matches (query wrap f) (query wrap g)
    unfolding query
    Matches-query wrap f g h = record {
      same = λ s t r. ap (map_err wrap) (h.alike s t r);
      related = λ s t r. r;
    }

    pub Matches-mutate :
        (wrap : String → E) (m : Exec S String A) (n : Exec T String A)
        → Matches m n
        → Matches (mutate wrap m) (mutate wrap n)
    unfolding mutate
    Matches-mutate wrap m n h = record {
      same = λ s t r. ap (map_err wrap) (h.same s t r);
      related = h.related;
    }

    pub Matches-ok_or : (e : E) (o : Option A) → Matches (ok_or e o) (ok_or e o)
    unfolding ok_or
    Matches-ok_or e none = record { same = λ s t r. refl; related = λ s t r. r }
    Matches-ok_or e (some a) = record { same = λ s t r. refl; related = λ s t r. r }

    pub Matches-if :
        (c : Bool) (m m' : Exec S E A) (n n' : Exec T E A)
        → Matches m n
        → Matches m' n'
        → Matches (if c then m else m') (if c then n else n')
    Matches-if true m m' n n' h k = h
    Matches-if false m m' n n' h k = k

    pub Matches-bool :
        (c : Bool) (m m' : Exec S E A) (n n' : Exec T E A)
        → Matches m n
        → Matches m' n'
        → Matches (elim c [ true ↦ m | false ↦ m' ]) (elim c [ true ↦ n | false ↦ n' ])
    Matches-bool true m m' n n' h k = h
    Matches-bool false m m' n n' h k = k

    pub Matches-option :
        {B : Type 0} (o : Option B) (m : Exec S E A) (f : B → Exec S E A) (n : Exec T E A)
        (g : B → Exec T E A)
        → Matches m n
        → ((x : B) → Matches (f x) (g x))
        → Matches (elim o [ none ↦ m | some x ↦ f x ]) (elim o [ none ↦ n | some x ↦ g x ])
    Matches-option none m f n g h k = h
    Matches-option (some x) m f n g h k = k x

  pub Matches-reject_if : {E : Type 0} (c : Bool) (e : E) → Matches (reject_if c e) (reject_if c e)
  unfolding reject_if
  Matches-reject_if true e = record { same = λ s t r. refl; related = λ s t r. r }
  Matches-reject_if false e = record { same = λ s t r. refl; related = λ s t r. r }

  module _ {E A B : Type 0} (P : A → Type 0) (f : A → Exec S E B) (g : A → Exec T E B)
      (k : (a : A) → P a → Matches (f a) (g a)) where
    continue-same :
        (x y : Result E A) (s : S) (t : T)
        → x ≡ y
        → R s t
        → ((a : A) → y ≡ ok a → P a)
        → ((continue f (x, s)).0 ≡ (continue g (y, t)).0)
          × R (continue f (x, s)).1 (continue g (y, t)).1
    continue-same x (ok a) s t e r p =
        rw e ((k a (p a refl)).same s t r, (k a (p a refl)).related s t r)
    continue-same x (err d) s t e r p = rw e (refl, r)

    -- the rest may rely on what the second action returns
    pub Matches-bind_where :
        (m : Exec S E A) (n : Exec T E A)
        → Matches m n
        → ((t : T) (a : A) → (n t).0 ≡ ok a → P a)
        → Matches (m >>= f) (n >>= g)
    unfolding ◌>>=◌
    Matches-bind_where m n h p = record {
      same = λ s t r.
          (continue-same (m s).0 (n t).0 (m s).1 (n t).1 (h.same s t r) (h.related s t r) (p t)).0;
      related = λ s t r.
          (continue-same (m s).0 (n t).0 (m s).1 (n t).1 (h.same s t r) (h.related s t r) (p t)).1;
    }

  pub Matches-bind :
      {E A B : Type 0} (m : Exec S E A) (f : A → Exec S E B) (n : Exec T E A) (g : A → Exec T E B)
      → Matches m n
      → ((a : A) → Matches (f a) (g a))
      → Matches (m >>= f) (n >>= g)
  Matches-bind m f n g h k = Matches-bind_where (λ a. Unit) f g (λ a p. k a) m n h (λ t a e. tt)

pub ruleset matching_rules = (
  Matches-pure, Matches-raise, Matches-query, Matches-mutate, Matches-ok_or, Matches-reject_if,
  Matches-if, Matches-bool, Matches-option, Matches-bind,
)
