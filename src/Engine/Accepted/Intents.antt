-- ===== src/Engine/Accepted/Intents.antt =====
-- `prewrite`, `commit` and `abort` where they return `Ok`.
use nexir_mvcc_core.Prelude.{◌≤◌, ◌<◌, Option, none, some, ◌≡◌, refl, inl, inr, arith, Option-cases}
use nexir_mvcc_core.Ord.{nat_ord}
use nexir_mvcc_core.BTreeMap.{IsSorted}
use nexir_mvcc_core.Types.{Timestamp, TxnId, Key, Value, Mutation, Intent, mutation_value}
use nexir_mvcc_core.Exec.{ok, ◌>>=◌}
use nexir_mvcc_core.Backend.Reference.{
  View, latest, reference, store_intent, drop_intent, store_version,
}
use nexir_mvcc_core.Backend.Reference.Histories.{
  Before, UpTo, latest-Before, Before-latest, UpTo-latest,
}
use nexir_mvcc_core.Engine.Intents.{
  prewrite, commit, answer_prewrite, repeat_prewrite, first_prewrite, check_latest, check_min,
  new_intent,
}

-- the two ways in which a prewrite succeeds: a repeated call changes nothing, a first one stores the
-- intent over a history that is not newer than it
pub data Prewritten (t : TxnId) (s : Timestamp) (k : Key) (m : Mutation) (w w' : View)
    : Type 0 where
  repeated : w' ≡ w → Prewritten t s k m w w'
  stored :
      w.intent_of k ≡ none
      → UpTo s (w.history_of k)
      → w' ≡ store_intent (new_intent t s k m) w
      → Prewritten t s k m w w'

module _ (k : Key) (w w' : View) (sorted : IsSorted (w.history_of k)) where
  prewritten_found :
      (t : TxnId) (s : Timestamp) (m : Mutation) (i : Intent)
      → repeat_prewrite t s m i w ≡ (ok tt, w')
      → w' ≡ w
  unfolding repeat_prewrite ◌>>=◌
  prewritten_found t s m i h = ground arith

  first_effect :
      (t : TxnId) (s : Timestamp) (m : Mutation)
      → first_prewrite reference t s k m w ≡ (ok tt, w')
      → w' ≡ store_intent (new_intent t s k m) w
  unfolding first_prewrite ◌>>=◌
  first_effect t s m h = ground arith

  first_bound :
      (t : TxnId) (s : Timestamp) (m : Mutation)
      → first_prewrite reference t s k m w ≡ (ok tt, w')
      → (e : Timestamp × Option Value) → latest (w.history_of k) ≡ some e
      → e.0 ≤ s
  unfolding first_prewrite ◌>>=◌
  first_bound t s m h e q = ground arith

  answer-ok :
      (t : TxnId) (s : Timestamp) (m : Mutation) (o : Option Intent)
      → w.intent_of k ≡ o
      → answer_prewrite reference t s k m o w ≡ (ok tt, w')
      → Prewritten t s k m w w'
  unfolding answer_prewrite
  answer-ok t s m none e h =
      stored e (UpTo-latest s (w.history_of k) sorted (first_bound t s m h)) (first_effect t s m h)
  answer-ok t s m (some i) e h = repeated (prewritten_found t s m i h)

  pub prewrite-ok :
      (t : TxnId) (s : Timestamp) (m : Mutation)
      → prewrite reference t s k m w ≡ (ok tt, w')
      → Prewritten t s k m w w'
  unfolding prewrite ◌>>=◌
  prewrite-ok t s m h = answer-ok t s m (w.intent_of k) refl h

-- how a commit succeeds: it turns the intent that its transaction holds into the newest version
pub record Committed (t : TxnId) (k : Key) (s c : Timestamp) (w w' : View) (i : Intent)
    : Type 0 where
  pub held : w.intent_of k ≡ some i
  pub owner : i.txn_id ≡ t
  pub started : i.start_ts ≡ s
  pub later : s < c
  pub newest : Before c (w.history_of k)
  pub result :
      w'
      ≡ drop_intent
          (k, t, s)
          (store_version (record { key = k; commit_ts = c; value = mutation_value i.mutation }) w)

module _ (t : TxnId) (k : Key) (s c : Timestamp) (w w' : View) where
  commit_bound :
      commit reference t k s c w ≡ (ok tt, w')
      → (e : Timestamp × Option Value) → latest (w.history_of k) ≡ some e
      → e.0 < c
  unfolding commit check_latest check_min ◌>>=◌
  commit_bound h e q = ground arith

  commit-absent : w.intent_of k ≡ none → ¬ (commit reference t k s c w ≡ (ok tt, w'))
  unfolding commit ◌>>=◌
  commit-absent e h = ground arith

  module _ (i : Intent) (e : w.intent_of k ≡ some i)
      (h : commit reference t k s c w ≡ (ok tt, w')) where
    commit_checks : (i.txn_id ≡ t) × (i.start_ts ≡ s) × (s < c)
    unfolding commit check_latest check_min ◌>>=◌
    commit_checks = ground arith

    pub commit_minimum : (n : Timestamp) → i.min_commit_ts ≡ some n → n ≤ c
    unfolding commit check_latest check_min ◌>>=◌
    commit_minimum n q = ground arith

    commit_result :
        w'
        ≡ drop_intent
            (k, t, s)
            (store_version (record { key = k; commit_ts = c; value = mutation_value i.mutation }) w)
    unfolding commit check_latest check_min ◌>>=◌
    commit_result = ground arith

  pub commit-ok :
      IsSorted (w.history_of k)
      → commit reference t k s c w ≡ (ok tt, w')
      → (i : Intent) × Committed t k s c w w' i
  commit-ok sorted h = elim (Option-cases (w.intent_of k)) [
    | inl e ↦ absurd (commit-absent e h)
    | inr (i, e) ↦
        let checks = commit_checks i e h in
        (
          i,
          record {
            held = e;
            owner = checks.0;
            started = checks.1;
            later = checks.2;
            newest = Before-latest c (w.history_of k) sorted (commit_bound h);
            result = commit_result i e h;
          },
        )
  ]

  -- the other way round: the owner's commit after every version of the key goes through
  pub commit_accepted :
      (i : Intent)
      → w.intent_of k ≡ some i
      → i.txn_id ≡ t
      → i.start_ts ≡ s
      → s < c
      → Before c (w.history_of k)
      → ((n : Timestamp) → i.min_commit_ts ≡ some n → n ≤ c)
      → (commit reference t k s c w).0 ≡ ok tt
  unfolding commit check_latest check_min ◌>>=◌
  commit_accepted i e p q l b m = elim (Option-cases (latest (w.history_of k))) [
    | inl none_yet ↦ elim (Option-cases i.min_commit_ts) [
      | inl free ↦ ground arith
      | inr (n, bound) ↦ ground (arith, m n bound)
    ]
    | inr (x, last) ↦
        let below : x.0 < c = latest-Before c (w.history_of k) x b last in
        elim (Option-cases i.min_commit_ts) [
          | inl free ↦ ground arith
          | inr (n, bound) ↦ ground (arith, m n bound)
        ]
  ]
