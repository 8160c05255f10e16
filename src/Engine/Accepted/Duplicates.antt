-- ===== src/Engine/Accepted/Duplicates.antt =====
-- The duplicate check of the batch methods lets exactly the batches of distinct keys pass.
use nexir_mvcc_core.Prelude.{false, Option, none, some, List, [], ◌∷◌, ◌≡◌, refl, arith, All}
use nexir_mvcc_core.Ord.{bytes_eq_iff}
use nexir_mvcc_core.Types.{Key}
use nexir_mvcc_core.Engine.Batch.{contains, first_duplicate, reject_some, reject_duplicates}
use nexir_mvcc_core.Exec.{ok, ◌>>=◌}
use nexir_mvcc_core.Backend.Reference.Effects.{Distinct}

-- none of the keys is in `seen`
abbrev Fresh : List Key → List Key → Type 0
Fresh seen ks = All (λ k. contains seen k ≡ false) ks

Fresh-cons :
    (k : Key) (seen ks : List Key) → Fresh (k ∷ seen) ks → (contains ks k ≡ false) × Fresh seen ks
unfolding contains
Fresh-cons k seen [] h = (refl, tt)
Fresh-cons k seen (j ∷ ks) (p, h) =
    ground (arith, Fresh-cons k seen ks h, bytes_eq_iff k j, bytes_eq_iff j k)

Distinct-of_seen :
    (seen ks : List Key) → first_duplicate seen ks ≡ none → Fresh seen ks × Distinct ks
unfolding first_duplicate
Distinct-of_seen seen [] h = (tt, tt)
Distinct-of_seen seen (k ∷ ks) h =
    ground (arith, Distinct-of_seen (k ∷ seen) ks, Fresh-cons k seen ks)

Distinct-first_duplicate : (ks : List Key) → first_duplicate [] ks ≡ none → Distinct ks
Distinct-first_duplicate ks h = (Distinct-of_seen [] ks h).1

module _ {S E : Type 0} where
  reject_some-ok :
      (wrap : Key → E) (o : Option Key) (s s' : S) (y : Unit {0})
      → reject_some wrap o s ≡ (ok y, s')
      → o ≡ none
  unfolding ◌>>=◌
  reject_some-ok wrap none s s' y h = refl
  reject_some-ok wrap (some k) s s' y h = ground arith

  pub Distinct-reject_duplicates :
      (wrap : Key → E) (ks : List Key) (s s' : S) (y : Unit {0})
      → reject_duplicates wrap ks s ≡ (ok y, s')
      → Distinct ks
  unfolding reject_duplicates
  Distinct-reject_duplicates wrap ks s s' y h =
      Distinct-first_duplicate ks (reject_some-ok wrap (first_duplicate [] ks) s s' y h)
