-- ===== src/Engine/Accepted/PrewriteBatches.antt =====
-- `prewrite_batch` where it returns `Ok`.
use nexir_mvcc_core.Prelude.{
  ℕ, ◌+◌, ◌≤◌, true, false, Option, none, some, List, [], ◌∷◌, ◌≡◌, ◌⊎◌, inl, inr, arith, ◌==◌, All,
  length, for_each, Bool-cases,
}
use nexir_mvcc_core.Ord.{nat_ord}
use nexir_mvcc_core.BTreeMap.{IsSorted}
use nexir_mvcc_core.Types.{Timestamp, TxnId, Key, Value, PhysicalWrite}
use nexir_mvcc_core.Exec.{ok, pure, ◌>>=◌}
use nexir_mvcc_core.Exec.Keeps.{reading-bind-ok, IsReading-reject_if}
use nexir_mvcc_core.Backend.Reference.{View, latest, reference, store_intent}
use nexir_mvcc_core.Backend.Reference.Histories.{UpTo, UpTo-latest}
use nexir_mvcc_core.Backend.Reference.Effects.{Distinct}
use nexir_mvcc_core.Engine.Batch.{keys_of}
use nexir_mvcc_core.Engine.IntentBatches.{
  intents_of, check_existing, check_absent, check_found, check_prewrite, count_existing,
  finish_prewrite, prewrite_batch,
}
use nexir_mvcc_core.Engine.Readings.{
  IsReading-check_prewrite, IsReading-count_existing, IsReading-reject_duplicates,
}
use nexir_mvcc_core.Engine.Accepted.Duplicates.{Distinct-reject_duplicates}

-- a key that a prewrite at `s` may lock
pub record IsLockable (s : Timestamp) (w : View) (k : Key) : Type 0 where
  pub unlocked : w.intent_of k ≡ none
  pub older : UpTo s (w.history_of k)

module _ (t : TxnId) (s : Timestamp) (w : View)
    (sorted : (k : Key) → IsSorted (w.history_of k)) where
  -- a round that counts nothing has found a lockable key
  module _ (x : PhysicalWrite) (n m : ℕ) (h : check_prewrite reference t s x n w ≡ (ok m, w)) where
    round_count : (m ≡ n) ⊎ (m ≡ n + 1)
    unfolding check_prewrite check_found check_existing check_absent ◌>>=◌
    round_count = ground arith

    round_unlocked : m ≡ n → w.intent_of x.key ≡ none
    unfolding check_prewrite check_found check_existing check_absent ◌>>=◌
    round_unlocked e = ground arith

    round_bound :
        m ≡ n → (e : Timestamp × Option Value) → latest (w.history_of x.key) ≡ some e → e.0 ≤ s
    unfolding check_prewrite check_found check_existing check_absent ◌>>=◌
    round_bound q e p = ground arith

  count_grows :
      (xs : List PhysicalWrite) (n m : ℕ) → count_existing reference t s xs n w ≡ (ok m, w) → n ≤ m
  unfolding count_existing pure
  count_grows [] n m h = ground arith
  count_grows (x ∷ xs) n m h =
      let (k, p, q) = reading-bind-ok _ _ w w m (IsReading-check_prewrite reference t s x n) h in
      omega (arith, round_count x n k p, count_grows xs k m q)

  count_none :
      (xs : List PhysicalWrite) (n : ℕ)
      → count_existing reference t s xs n w ≡ (ok n, w)
      → All (λ x. IsLockable s w x.key) xs
  unfolding count_existing
  count_none [] n h = tt
  count_none (x ∷ xs) n h =
      let (k, p, q) = reading-bind-ok _ _ w w n (IsReading-check_prewrite reference t s x n) h in
      let e : k ≡ n = omega (arith, round_count x n k p, count_grows xs k n q) in
      (
        record {
          unlocked = round_unlocked x n k p e;
          older = UpTo-latest s (w.history_of x.key) (sorted x.key) (round_bound x n k p e);
        },
        count_none xs n (rw e at q),
      )

-- the two ways in which a batch of prewrites succeeds
pub data BatchPrewritten (t : TxnId) (s : Timestamp) (xs : List PhysicalWrite) (w w' : View)
    : Type 0 where
  repeated : w' ≡ w → BatchPrewritten t s xs w w'
  stored :
      Distinct (keys_of xs)
      → All (λ x. IsLockable s w x.key) xs
      → w' ≡ for_each store_intent (intents_of t s xs) w
      → BatchPrewritten t s xs w w'

module _ (t : TxnId) (s : Timestamp) (w : View)
    (sorted : (k : Key) → IsSorted (w.history_of k)) where
  batch_repeated :
      (xs : List PhysicalWrite) (w' : View) (n : ℕ)
      → (n == length xs) ≡ true
      → finish_prewrite reference t s xs n w ≡ (ok tt, w')
      → w' ≡ w
  unfolding finish_prewrite ◌>>=◌
  batch_repeated xs w' n e h = ground arith

  batch_stored :
      (xs : List PhysicalWrite) (w' : View) (n : ℕ)
      → (n == length xs) ≡ false
      → finish_prewrite reference t s xs n w ≡ (ok tt, w')
      → (n ≡ 0) × (w' ≡ for_each store_intent (intents_of t s xs) w)
  unfolding finish_prewrite ◌>>=◌
  batch_stored xs w' n e h = ground arith

  pub prewrite_batch-ok :
      (xs : List PhysicalWrite) (w' : View)
      → prewrite_batch reference t s xs w ≡ (ok tt, w')
      → BatchPrewritten t s xs w w'
  unfolding prewrite_batch
  prewrite_batch-ok xs w' h =
      let (u, p, q) = reading-bind-ok _ _ w w' tt (IsReading-reject_if _ _) h in
      let (v, p2, q2) = reading-bind-ok _ _ w w' tt (IsReading-reject_duplicates _ _) q in
      let (n, p3, q3) =
        reading-bind-ok _ _ w w' tt (IsReading-count_existing reference t s xs 0) q2 in
      elim (Bool-cases (n == length xs)) [
        | inl e ↦ repeated (batch_repeated xs w' n e q3)
        | inr e ↦
            let (z, r) = batch_stored xs w' n e q3 in
            stored (Distinct-reject_duplicates _ (keys_of xs) w w v p2)
              (count_none t s w sorted xs 0 (rw z at p3)) r
      ]
