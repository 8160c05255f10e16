-- ===== src/Exec.antt =====
-- Rust's `Result`, and methods on `&mut self` that return one: the state after the call comes back
-- beside the result, on an error too. `query` is a call of a `&self` method of the backend and
-- `mutate` one of a `&mut self` method, each with its `.map_err(…)?`.
pub mod Keeps
pub mod Yields
pub mod Matches
pub mod Returns
use nexir_mvcc_core.Prelude.{Bool, true, false, Option, none, some, String}

pub data Result {ℓ κ} (E : Type ℓ) (A : Type κ) : Type (ℓ ⊔ κ) where
  ok : A → Result E A
  err : E → Result E A

abbrev pub map_err {ℓ κ μ} :
    {E : Type ℓ} {F : Type κ} {A : Type μ} → (E → F) → Result E A → Result F A
map_err wrap (ok a) = ok a
map_err wrap (err e) = err (wrap e)

abbrev pub map_ok {ℓ κ μ} :
    {E : Type ℓ} {A : Type κ} {B : Type μ} → (A → B) → Result E A → Result E B
map_ok f (ok a) = ok (f a)
map_ok f (err e) = err e

abbrev pub Exec : Type 0 → Type 0 → Type 0 → Type 0
Exec S E A = S → Result E A × S

module _ {S E A : Type 0} where
  unfoldable pub pure : A → Exec S E A
  pure a s = (ok a, s)

  unfoldable pub raise : E → Exec S E A
  raise e s = (err e, s)

  unfoldable pub query : (String → E) → (S → Result String A) → Exec S E A
  query wrap q s = (map_err wrap (q s), s)

  unfoldable pub mutate : (String → E) → Exec S String A → Exec S E A
  mutate wrap m s = let (r, s') = m s in (map_err wrap r, s')

  -- `option.ok_or(e)?`
  unfoldable pub ok_or : E → Option A → Exec S E A
  ok_or e none s = (err e, s)
  ok_or e (some a) s = (ok a, s)

module _ {S E : Type 0} where
  -- `if test { return Err(e); }`
  unfoldable pub reject_if : Bool → E → Exec S E (Unit {0})
  reject_if true e s = (err e, s)
  reject_if false e s = (ok tt, s)

module _ {S E A B : Type 0} where
  abbrev pub continue : (A → Exec S E B) → Result E A × S → Result E B × S
  continue f (ok a, s) = f a s
  continue f (err e, s) = (err e, s)

  infixl 5 ◌>>=◌ ◌>>◌
  -- to open this is to open the actions above
  unfoldable pub ◌>>=◌ : Exec S E A → (A → Exec S E B) → Exec S E B
  unfolding pure raise query mutate ok_or reject_if
  ◌>>=◌ m f s = continue f (m s)

  abbrev pub ◌>>◌ : Exec S E A → Exec S E B → Exec S E B
  m >> n = m >>= λ _. n

-- `result?` in a method on `&self`, which returns no state
abbrev pub and_then {ℓ κ μ} :
    {E : Type ℓ} {A : Type κ} {B : Type μ} → Result E A → (A → Result E B) → Result E B
and_then (ok a) f = f a
and_then (err e) f = err e
