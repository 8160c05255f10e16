-- ===== src/Engine/Calls/Ownership.antt =====
-- Who sees a pending write: `read_own_write` of src/engine.rs after a `prewrite`.
use nexir_mvcc_core.Prelude.{
  true, inl, inr, Option-cases, none, some, ◌≡◌, ◌≢◌, refl, ap, ◌∙◌, arith,
}
use nexir_mvcc_core.Ord.{bytes_eq_iff}
use nexir_mvcc_core.Types.{Timestamp, TxnId, Key, Mutation, put, delete, Intent, mutation_value}
use nexir_mvcc_core.Exec.{ok, ◌>>=◌}
use nexir_mvcc_core.Backend.Reference.{View, reference, store_intent}
use nexir_mvcc_core.Engine.Read.{read, read_own_write}
use nexir_mvcc_core.Engine.Intents.{
  mutation_eq, new_intent, prewrite, repeat_prewrite, first_prewrite, answer_prewrite,
}
use nexir_mvcc_core.Engine.Accepted.{prewrite-ok}
use nexir_mvcc_core.Engine.Calls.Consistency.{IsConsistent}
use nexir_mvcc_core.Engine.Calls.Stability.{read-Prewritten}

mutation_eq-eq : (m n : Mutation) → mutation_eq m n ≡ true → m ≡ n
unfolding mutation_eq
mutation_eq-eq (put v) (put w) h = ap put ((bytes_eq_iff v w).0 h)
mutation_eq-eq (put v) delete h = cc
mutation_eq-eq delete (put w) h = cc
mutation_eq-eq delete delete h = refl

-- the transaction holds the key, with this mutation
record IsHeld (t : TxnId) (s : Timestamp) (k : Key) (m : Mutation) (w : View) (i : Intent)
    : Type 0 where
  found : w.intent_of k ≡ some i
  owner : i.txn_id ≡ t
  started : i.start_ts ≡ s
  written : i.mutation ≡ m

module _ (t : TxnId) (s : Timestamp) (k : Key) (m : Mutation) (w w' : View) where
  repeat_prewrite-IsHeld :
      (i : Intent)
      → w.intent_of k ≡ some i
      → prewrite reference t s k m w ≡ (ok tt, w')
      → IsHeld t s k m w' i
  unfolding prewrite answer_prewrite repeat_prewrite ◌>>=◌
  repeat_prewrite-IsHeld i e h = record {
    found = ground (arith, e, h);
    owner = ground (arith, e, h);
    started = ground (arith, e, h);
    written = ground (arith, e, h, mutation_eq-eq i.mutation m);
  }

  first_prewrite-IsHeld :
      w.intent_of k ≡ none
      → prewrite reference t s k m w ≡ (ok tt, w')
      → IsHeld t s k m w' (new_intent t s k m)
  unfolding prewrite answer_prewrite first_prewrite store_intent ◌>>=◌
  first_prewrite-IsHeld e h = record {
    found = ground (arith, e, h, bytes_eq_iff k k);
    owner = refl;
    started = refl;
    written = refl;
  }

  prewrite-IsHeld : prewrite reference t s k m w ≡ (ok tt, w') → (i : Intent) × IsHeld t s k m w' i
  prewrite-IsHeld h = elim (Option-cases (w.intent_of k)) [
    | inl e ↦ (new_intent t s k m, first_prewrite-IsHeld e h)
    | inr (i, e) ↦ (i, repeat_prewrite-IsHeld i e h)
  ]

module _ (t : TxnId) (s : Timestamp) (k : Key) (m : Mutation) (w : View) (i : Intent)
    (h : IsHeld t s k m w i) (r : Timestamp) where
  own_read : read_own_write reference k t s r w ≡ ok (mutation_value m)
  unfolding read_own_write
  own_read = ground (arith, h.found, h.owner, h.started, h.written)

  other_read :
      (t' : TxnId) (s' : Timestamp)
      → (t ≡ t' → s ≢ s')
      → read_own_write reference k t' s' r w ≡ read reference k r w
  unfolding read_own_write
  other_read t' s' n = ground (arith, h.found, h.owner, h.started, n)

module _ (t : TxnId) (s : Timestamp) (k : Key) (m : Mutation) (w w' : View)
    (f : IsConsistent w) where
  -- A pending write is visible to its owner alone. After a successful prewrite, the first one or a
  -- repeated one, `read_own_write` returns the mutation that was prewritten to its transaction at its
  -- start timestamp. To every other transaction, and to the same one with another start timestamp, it
  -- returns what `read` returned before the prewrite.
  pub read_own_write-prewrite :
      prewrite reference t s k m w ≡ (ok tt, w')
      → (r : Timestamp)
      → (read_own_write reference k t s r w' ≡ ok (mutation_value m))
        × ((t' : TxnId) (s' : Timestamp)
            → (t ≡ t' → s ≢ s')
            → read_own_write reference k t' s' r w' ≡ read reference k r w)
  read_own_write-prewrite h r =
      let (i, held) = prewrite-IsHeld t s k m w w' h in
      (
        own_read t s k m w' i held r,
        λ t' s' n.
            other_read t s k m w' i held r t' s' n
            ∙ read-Prewritten k r w w' t s k m (prewrite-ok k w w' (f.in_order.sorted k) t s m h),
      )
