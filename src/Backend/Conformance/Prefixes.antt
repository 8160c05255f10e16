-- ===== src/Backend/Conformance/Prefixes.antt =====
-- The prefix scan of `InMemoryBackend`, which walks the map of versions, against the reference's filter
-- of the key set.
use nexir_mvcc_core.Prelude.{
  ℕ, ◌==◌, Bool, true, false, not, ◌&&◌, ◌<◌, Option, none, some, [], ◌∷◌, map, take, ◌≡◌, refl, ap,
  ◌∙◌, arith, filter_by, All, is_empty, Bool-cases, inl, inr,
}
use nexir_mvcc_core.Ord.{bytes_ord, nat_ord, pair_ord}
use nexir_mvcc_core.BTreeMap.{BTreeMap, IsSorted, get, range_from, at_least}
use nexir_mvcc_core.BTreeMap.Laws.{filter_by-IsSorted}
use nexir_mvcc_core.Types.{Key, Value}
use nexir_mvcc_core.Backend.InMemory.{
  InMemoryBackend, VersionKey, starts_with, scan_prefix, keys_from_prefix,
}
use nexir_mvcc_core.Exec.{ok}
use nexir_mvcc_core.Backend.Reference.{prefix_keys}
use nexir_mvcc_core.Backend.Reference.WellFormed.{IsWellFormed}
use nexir_mvcc_core.Backend.Conformance.{IsValid, view, history}
use nexir_mvcc_core.Backend.Conformance.Walks.{
  fresh-none, IsConvex-sorted, scan_prefix_lem, starts_with_self,
}
use nexir_mvcc_core.Backend.Conformance.KeySets.{key_set-range_from}

All-range_from :
    (start : Key) (m : BTreeMap VersionKey (Option Value))
    → All (λ e. at_least start e.0.0 ≡ true) (range_from (start, 0) m)
unfolding range_from
All-range_from start [] = tt
All-range_from start (((k, t), v) ∷ m) = ground (arith, All-range_from start m)

-- one filter of the key set after another
filter-range_from :
    (p start : Key) (has : Key → Bool) (keys : BTreeMap Key (Unit {0}))
    → filter_by
        (λ k. starts_with k p)
        (map (λ e. e.0) (filter_by (λ e. at_least start e.0 && has e.0) keys))
      ≡ filter_by (λ k. starts_with k p && has k) (map (λ e. e.0) (range_from start keys))
unfolding range_from
filter-range_from p start has [] = refl
filter-range_from p start has ((k, u) ∷ keys) = ground (arith, filter-range_from p start has keys)

module _ (s : InMemoryBackend) (f : IsValid s) (g : IsWellFormed (view s)) where
  -- keys with versions are in the key set
  tracked-history :
      (k : Key) → is_empty (history k s.committed) ≡ false → get k s.all_keys_set ≡ some tt
  tracked-history k h = ground (arith, h, g.tracked k)

  scan_prefix-range_from :
      (p start : Key) (limit : ℕ)
      → starts_with start p ≡ true
      → 0 < limit
      → scan_prefix p limit [] (range_from (start, 0) s.committed)
        ≡ take limit (
            filter_by
              (λ k. starts_with k p && not (is_empty (history k s.committed)))
              (map (λ e. e.0) (range_from start s.all_keys_set)))
  scan_prefix-range_from p start limit q l =
      let range = range_from (start, 0) s.committed in
      let in_order : IsSorted range =
        unfold range_from in filter_by-IsSorted _ s.committed f.sorted in
      scan_prefix_lem p limit [] range
        (IsConvex-sorted p start q range in_order (All-range_from start s.committed)) l
      ∙ ap (λ ks. take limit (filter_by (λ k. starts_with k p) ks))
          (fresh-none range in_order
            ∙ ap (map (λ e. e.0))
                (key_set-range_from start s.committed s.all_keys_set g.keys_sorted tracked-history))
      ∙ ap (take limit)
          (filter-range_from p start (λ k. not (is_empty (history k s.committed))) s.all_keys_set)

  -- On a valid and well-formed state, the prefix scan of `InMemoryBackend`, which walks the versions and
  -- keeps each key once, answers as the reference's filter of the key set does, its two errors included.
  pub keys_from_prefix-in_memory :
      (p : Key) (start : Option Key) (limit : ℕ)
      → keys_from_prefix p start limit s ≡ prefix_keys p start limit (view s)
  unfolding keys_from_prefix prefix_keys
  keys_from_prefix-in_memory p none limit = elim (Bool-cases (limit == 0)) [
    | inl e ↦ rw e refl
    | inr e ↦ elim (Bool-cases (is_empty p)) [
      | inl h ↦ rw (e, h) refl
      | inr h ↦
          rw (e, h)
            (ap ok (scan_prefix-range_from p p limit (starts_with_self p) (ground (arith, e))))
    ]
  ]
  keys_from_prefix-in_memory p (some start) limit = elim (Bool-cases (limit == 0)) [
    | inl e ↦ rw e refl
    | inr e ↦ elim (Bool-cases (is_empty p)) [
      | inl h ↦ rw (e, h) refl
      | inr h ↦ elim (Bool-cases (starts_with start p)) [
        | inl q ↦ rw (e, h, q) (ap ok (scan_prefix-range_from p start limit q (ground (arith, e))))
        | inr q ↦ rw (e, h, q) refl
      ]
    ]
  ]
