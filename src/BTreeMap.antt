-- ===== src/BTreeMap.antt =====
-- `BTreeMap` and `BTreeSet` of Rust's standard library, as src/backend.rs uses them: a list of
-- entries in the order of their keys. A set is a map to `Unit`. The `HashMap` of intents is read and
-- written at single keys only, never iterated, and is the same list.
pub mod Laws
use Prim.Native.Nat.Ordering.{lt, eq, gt}
use nexir_mvcc_core.Prelude.{Bool, true, false, not, Option, none, some, List, [], ◌∷◌, ◌&&◌, ◌≡◌}
use nexir_mvcc_core.Prelude.{filter_by, All, if◌then◌else◌}
use nexir_mvcc_core.Ord.{Ord, ◌≺◌, same}

abbrev pub BTreeMap {ℓ κ} : Type ℓ → Type κ → Type (ℓ ⊔ κ)
BTreeMap K V = List (K × V)

module _ {ℓ} {K : Type ℓ} ⦃o : Ord K⦄ where
  abbrev pub at_least : K → K → Bool
  at_least lo k = elim (o.cmp k lo) [ lt ↦ false | _ ↦ true ]

  abbrev pub at_most : K → K → Bool
  at_most hi k = elim (o.cmp k hi) [ gt ↦ false | _ ↦ true ]

  abbrev pub below : K → K → Bool
  below hi k = elim (o.cmp k hi) [ lt ↦ true | _ ↦ false ]

module _ {ℓ κ} {K : Type ℓ} {V : Type κ} ⦃o : Ord K⦄ where
  unfoldable pub get : K → BTreeMap K V → Option V
  get k [] = none
  get k ((j, v) ∷ m) = if same k j then some v else get k m

  unfoldable pub insert : K → V → BTreeMap K V → BTreeMap K V
  insert k v [] = (k, v) ∷ []
  insert k v ((j, w) ∷ m) = elim (o.cmp k j) [
    | lt ↦ (k, v) ∷ (j, w) ∷ m
    | eq ↦ (k, v) ∷ m
    | gt ↦ (j, w) ∷ insert k v m
  ]

  unfoldable pub remove : K → BTreeMap K V → BTreeMap K V
  remove k m = filter_by (λ e. not (same k e.0)) m

  -- `map.range(lo..)`
  unfoldable pub range_from : K → BTreeMap K V → BTreeMap K V
  range_from lo m = filter_by (λ e. at_least lo e.0) m

  -- `map.range(lo..=hi)`
  unfoldable pub range_inclusive : K → K → BTreeMap K V → BTreeMap K V
  range_inclusive lo hi m = filter_by (λ e. at_least lo e.0 && at_most hi e.0) m

  -- `map.range(lo..hi)`
  unfoldable pub range_exclusive : K → K → BTreeMap K V → BTreeMap K V
  range_exclusive lo hi m = filter_by (λ e. at_least lo e.0 && below hi e.0) m

  -- every key comes strictly before the keys behind it
  abbrev pub IsSorted : BTreeMap K V → Type 0
  IsSorted [] = Unit
  IsSorted ((k, v) ∷ m) = All (λ e. k ≺ e.0) m × IsSorted m
