-- ===== src/Engine/IncrementalGc/Totals.antt =====
-- The number of versions that a list of keys has in the reference backend, and its change when one key
-- changes.
use nexir_mvcc_core.Prelude.{
  ℕ, ◌+◌, true, false, List, [], ◌∷◌, Option, ◌≡◌, refl, sym, subst, ap, ◌∙◌, inl, inr, arith,
  length, Bool-cases,
}
use nexir_mvcc_core.Ord.{bytes_eq, bytes_eq_iff}
use nexir_mvcc_core.Types.{Timestamp, Key, Value}
use nexir_mvcc_core.Backend.Reference.{View}
use nexir_mvcc_core.Backend.Reference.Effects.{Distinct}
use nexir_mvcc_core.Engine.Batch.{contains}

-- the number of versions that some keys have
abbrev pub total : List Key → View → ℕ
total [] w = 0
total (k ∷ ks) w = length (w.history_of k) + total ks w

module _ (w w' : View) (key : Key)
    (same : (k : Key) → bytes_eq key k ≡ false → w'.history_of k ≡ w.history_of k) where
  total-absent : (ks : List Key) → contains ks key ≡ false → total ks w' ≡ total ks w
  unfolding contains
  total-absent [] q = refl
  total-absent (k ∷ ks) q =
      let other : bytes_eq key k ≡ false =
        ground (arith, bytes_eq_iff key k, bytes_eq_iff k key, bytes_eq_iff k k, q) in
      let below = total-absent ks (ground (arith, q)) in
      ap (λ h. length h + total ks w') (same k other) ∙ ap (λ n. length (w.history_of k) + n) below

  pub total-changed :
      (ks : List Key) (a b : ℕ)
      → Distinct ks
      → contains ks key ≡ true
      → length (w'.history_of key) + a ≡ length (w.history_of key) + b
      → total ks w' + a ≡ total ks w + b
  unfolding contains
  total-changed [] a b d q e = cc
  total-changed (k ∷ ks) a b (n, d) q e = elim (Bool-cases (bytes_eq k key)) [
    | inl m ↦
        let here : k ≡ key = (bytes_eq_iff k key).0 m in
        let absent : contains ks key ≡ false = subst (λ j. contains ks j ≡ false) here n in
        let lengths =
          subst (λ j. length (w'.history_of j) + a ≡ length (w.history_of j) + b) (sym here) e in
        omega (arith, lengths, total-absent ks absent)
    | inr m ↦
        let other : bytes_eq key k ≡ false =
          ground (arith, bytes_eq_iff key k, bytes_eq_iff k k, m) in
        omega (
          arith,
          ap (length {A = Timestamp × Option Value}) (same k other),
          total-changed ks a b d (ground (arith, m, q)) e,
        )
  ]
