-- ===== src/Engine/Calls/Conflicts.antt =====
-- Conflicts between transactions on one key: whose commit goes through, and whose prewrite is refused.
use nexir_mvcc_core.Prelude.{
  ◌≤◌, ◌<◌, Option, none, some, [], ◌∷◌, ◌≡◌, ◌≢◌, ◌↔◌, refl, sym, ◌∙◌, ap, arith,
}
use nexir_mvcc_core.Ord.{nat_ord, bytes_eq_iff}
use nexir_mvcc_core.Types.{Timestamp, TxnId, Key, Value, Mutation, Intent}
use nexir_mvcc_core.Error.{PrewriteError}
use nexir_mvcc_core.Exec.{ok, err, ◌>>=◌}
use nexir_mvcc_core.Backend.Reference.{View, reference, latest}
use nexir_mvcc_core.Backend.Reference.Histories.{latest-insert_newest, Before-UpTo}
use nexir_mvcc_core.Engine.Intents.{
  prewrite, commit, repeat_prewrite, first_prewrite, answer_prewrite,
}
use nexir_mvcc_core.Engine.Accepted.{commit-ok, commit_minimum, commit_accepted, pending}
use nexir_mvcc_core.Engine.Effects.{
  committed-member, commit-IsCommittable, commit_as_batch, Distinct-single, contains-single,
}
use nexir_mvcc_core.Engine.Calls.Consistency.{IsConsistent}

module _ (t : TxnId) (k : Key) (s c : Timestamp) (w : View) (f : IsConsistent w) where
  -- A commit succeeds exactly where the key has the transaction's intent with this start timestamp, and
  -- the commit timestamp is after the start and not before the intent's minimum, if it has one: no
  -- other version can have come in between, so the errors for a duplicate or an old commit timestamp
  -- do not arise.
  pub commit_total : ((commit reference t k s c w).0 ≡ ok tt) ↔ (
      (i : Intent) × (w.intent_of k ≡ some i)
      × (i.txn_id ≡ t)
      × (i.start_ts ≡ s)
      × (s < c)
      × ((n : Timestamp) → i.min_commit_ts ≡ some n → n ≤ c))
  commit_total = (
    (λ h.
        let done : commit reference t k s c w ≡ (ok tt, (commit reference t k s c w).1) =
          ap (λ x. (x, (commit reference t k s c w).1)) h in
        let (i, r) = commit-ok t k s c w _ (f.in_order.sorted k) done in
        (
          i,
          r.held,
          r.owner,
          r.started,
          r.later,
          λ n q. commit_minimum t k s c w _ i r.held done n q,
        )),
    (λ (i, e, p, q, l, m).
        commit_accepted t k s c w w i e p q l
          (Before-UpTo i.start_ts c (w.history_of k) (omega (arith, q)) (f.unshadowed k i e)) m),
  )

locked_prewrite :
    (t' : TxnId) (s' : Timestamp) (k : Key) (m : Mutation) (w : View) (i : Intent)
    → w.intent_of k ≡ some i
    → i.txn_id ≢ t'
    → prewrite reference t' s' k m w ≡ (err (PrewriteError.key_locked i.txn_id), w)
unfolding prewrite answer_prewrite repeat_prewrite ◌>>=◌
locked_prewrite t' s' k m w i e n = ground arith

conflicting_prewrite :
    (t' : TxnId) (s' : Timestamp) (k : Key) (m : Mutation) (w : View) (e : Timestamp × Option Value)
    → w.intent_of k ≡ none
    → latest (w.history_of k) ≡ some e
    → s' < e.0
    → prewrite reference t' s' k m w ≡ (err PrewriteError.write_conflict, w)
unfolding prewrite answer_prewrite first_prewrite ◌>>=◌
conflicting_prewrite t' s' k m w e n q l = ground arith

module _ (t : TxnId) (k : Key) (s c : Timestamp) (w w' : View) (f : IsConsistent w) where
  -- No update is lost. Where a commit at `c` succeeds, a prewrite of its key by another transaction that
  -- starts before `c` is refused: before the commit as locked by the committer, and after it with a
  -- write conflict. Neither refusal changes the state.
  pub no_lost_update :
      (t' : TxnId) (s' : Timestamp) (m : Mutation)
      → t ≢ t'
      → s' < c
      → commit reference t k s c w ≡ (ok tt, w')
      → (prewrite reference t' s' k m w ≡ (err (PrewriteError.key_locked t), w))
        × (prewrite reference t' s' k m w' ≡ (err PrewriteError.write_conflict, w'))
  no_lost_update t' s' m n l h =
      let (i, done) = commit-ok t k s c w w' (f.in_order.sorted k) h in
      let (gone, added, newest) =
        committed-member t s c (k ∷ []) w w' (Distinct-single k)
          (commit_as_batch t k s c w w' i done) k (commit-IsCommittable t k s c w w' i done, tt)
          (contains-single k k ∙ (bytes_eq_iff k k).1 refl) in
      let v = pending (w.intent_of k) in
      (
        rw done.owner at (locked_prewrite t' s' k m w i done.held (λ e. n (sym done.owner ∙ e))),
        conflicting_prewrite t' s' k m w' (c, v) gone
            (ap latest added ∙ latest-insert_newest c v (w.history_of k) newest) l,
      )
