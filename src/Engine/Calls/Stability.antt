-- ===== src/Engine/Calls/Stability.antt =====
-- Snapshots: no call changes what a reader sees at a timestamp before the call's commit timestamp.
use nexir_mvcc_core.Prelude.{
  ◌<◌, Bool, true, false, ◌&&◌, Option, none, some, List, [], ◌∷◌, ◌≡◌, refl, ◌∙◌, ap, inl, inr,
  arith, for_each, leb, Bool-cases, if◌then◌else◌,
}
use nexir_mvcc_core.Ord.{bytes_eq}
use nexir_mvcc_core.Types.{Timestamp, TxnId, Key, Value, Mutation, PhysicalWrite}
use nexir_mvcc_core.Exec.{ok, ◌>>=◌}
use nexir_mvcc_core.Backend.{IntentName}
use nexir_mvcc_core.Backend.Reference.{View, reference, visible, drop_intent}
use nexir_mvcc_core.Backend.Reference.Effects.{history-drop_intents, history-store_intents}
use nexir_mvcc_core.Engine.Read.{read}
use nexir_mvcc_core.Engine.Batch.{contains}
use nexir_mvcc_core.Engine.Intents.{abort, new_intent}
use nexir_mvcc_core.Engine.IntentBatches.{intents_of}
use nexir_mvcc_core.Engine.Effects.{find_write}
use nexir_mvcc_core.Engine.Accepted.{
  Prewritten, prewrite-ok, BatchPrewritten, prewrite_batch-ok, abort_batch-ok, held_names,
}
use nexir_mvcc_core.Engine.Calls.{Call, run}
use nexir_mvcc_core.Engine.Calls.Atomicity.{run-IsAtomic, reference-IsAllOrNothing, outcome-ok}
use nexir_mvcc_core.Engine.Calls.Consistency.{IsConsistent}
use nexir_mvcc_core.Engine.Calls.Snapshots.{
  read-history, read-commit, read-commit_batch, read_after, read-apply_direct_batch,
  read-apply_guarded_batch,
}

-- the commit timestamp of the call, if it has one, comes after `r`
abbrev pub CommitsAfter : Timestamp → Call → Type 0
CommitsAfter r (Call.commit t k s c) = r < c
CommitsAfter r (Call.commit_batch t s c ks) = r < c
CommitsAfter r (Call.apply_direct_batch c xs) = r < c
CommitsAfter r (Call.apply_guarded_batch c gs xs) = r < c
CommitsAfter r _ = Unit

-- a read before `c` does not see what is written at `c`
unseen_if :
    (b : Bool) (c r : Timestamp) {A : Type 0} (x y : A)
    → r < c
    → (if b && leb c r then x else y) ≡ y
unseen_if true c r x y h = ground arith
unseen_if false c r x y h = refl

unseen_write :
    (c r : Timestamp) (o : Option (Option Value)) (w : View) (k : Key)
    → r < c
    → read_after c o w k r ≡ read reference k r w
unseen_write c r none w k h = refl
unseen_write c r (some v) w k h = unseen_if true c r (ok v) (read reference k r w) h

module _ (k : Key) (r : Timestamp) (w w' : View) where
  pub read-Prewritten :
      (t : TxnId) (s : Timestamp) (j : Key) (m : Mutation)
      → Prewritten t s j m w w'
      → read reference k r w' ≡ read reference k r w
  read-Prewritten t s j m (Prewritten.repeated e) = ap (read reference k r) e
  read-Prewritten t s j m (Prewritten.stored n u e) = read-history k r w w' (
      ap (λ x. visible r (x.history_of k)) e
      ∙ ap (visible r) (history-store_intents k (new_intent t s j m ∷ []) w))

  read-BatchPrewritten :
      (t : TxnId) (s : Timestamp) (xs : List PhysicalWrite)
      → BatchPrewritten t s xs w w'
      → read reference k r w' ≡ read reference k r w
  read-BatchPrewritten t s xs (BatchPrewritten.repeated e) = ap (read reference k r) e
  read-BatchPrewritten t s xs (BatchPrewritten.stored d a e) = read-history k r w w' (
      ap (λ x. visible r (x.history_of k)) e
      ∙ ap (visible r) (history-store_intents k (intents_of t s xs) w))

  read-drops :
      (ns : List IntentName)
      → w' ≡ for_each drop_intent ns w
      → read reference k r w' ≡ read reference k r w
  read-drops ns e =
      read-history k r w w'
        (ap (λ x. visible r (x.history_of k)) e ∙ ap (visible r) (history-drop_intents k ns w))

module _ (w : View) (f : IsConsistent w) (k : Key) (r : Timestamp) where
  accepted_stable :
      (c : Call)
      → CommitsAfter r c
      → (run reference c w).0 ≡ true
      → read reference k r (run reference c w).1 ≡ read reference k r w
  unfolding run
  accepted_stable (Call.prewrite t s j m) l h =
      read-Prewritten k r w _ t s j m
        (prewrite-ok j w _ (f.in_order.sorted j) t s m (outcome-ok _ _ h))
  accepted_stable (Call.commit t j s c) l h =
      (read-commit t j s c w _ f (outcome-ok _ _ h) k r).0 ∙ unseen_if (bytes_eq j k) c r _ _ l
  accepted_stable (Call.abort t j s) l h =
      read-drops k r w _ ((j, t, s) ∷ []) (unfold abort ◌>>=◌ in refl)
  accepted_stable (Call.prewrite_batch t s xs) l h =
      read-BatchPrewritten k r w _ t s xs
        (prewrite_batch-ok t s w f.in_order.sorted xs _ (outcome-ok _ _ h))
  accepted_stable (Call.commit_batch t s c ks) l h =
      (read-commit_batch t s c ks w _ f (outcome-ok _ _ h) k r).0
      ∙ unseen_if (contains ks k) c r _ _ l
  accepted_stable (Call.abort_batch t s ks) l h =
      read-drops k r w _ (held_names t s w ks) (abort_batch-ok t s w ks _ (outcome-ok _ _ h))
  accepted_stable (Call.apply_direct_batch c xs) l h =
      (read-apply_direct_batch c xs w _ f (outcome-ok _ _ h)).1 k r
      ∙ unseen_write c r (find_write k xs) w k l
  accepted_stable (Call.apply_guarded_batch c gs xs) l h =
      (read-apply_guarded_batch c xs w _ gs f (outcome-ok _ _ h)).2 k r
      ∙ unseen_write c r (find_write k xs) w k l

  -- Snapshot reads are repeatable: whatever the call, and whether or not it succeeds, a read at a
  -- timestamp before the call's commit timestamp returns afterwards what it returned before. A
  -- call without a commit timestamp (prewrites and aborts) changes no read at all.
  pub read-run_stable :
      (c : Call)
      → CommitsAfter r c
      → read reference k r (run reference c w).1 ≡ read reference k r w
  read-run_stable c l = elim (Bool-cases (run reference c w).0) [
    | inl h ↦ accepted_stable c l h
    | inr h ↦ ap (read reference k r) (run-IsAtomic reference reference-IsAllOrNothing c w h)
  ]
