-- ===== src/Engine/Calls/Consistency.antt =====
-- The invariant of the engine, and that every call keeps it: a backend in order, and no version of a
-- key after the start of the transaction that has an intent on it.
use nexir_mvcc_core.Prelude.{
  true, false, none, some, List, [], ◌∷◌, ◌≡◌, sym, subst, ◌∙◌, inl, inr, arith, All, All-imp,
  for_each, Bool-cases,
}
use nexir_mvcc_core.Ord.{bytes_eq, bytes_eq_iff}
use nexir_mvcc_core.Types.{Timestamp, TxnId, Key, Mutation, Intent, CommittedVersion, PhysicalWrite}
use nexir_mvcc_core.Exec.{◌>>=◌}
use nexir_mvcc_core.Backend.{IntentName}
use nexir_mvcc_core.Backend.Reference.{
  View, empty, reference, store_intent, drop_intent, store_version,
}
use nexir_mvcc_core.Backend.Reference.WellFormed.{
  IsWellFormed, empty-IsWellFormed, store_version-IsWellFormed, store_intent-IsWellFormed,
  drop_intent-IsWellFormed, for_each-IsWellFormed,
}
use nexir_mvcc_core.Backend.Reference.Histories.{UpTo}
use nexir_mvcc_core.Backend.Reference.Effects.{
  Distinct, history-store_version, intent-drop_intent, history-drop_intent,
}
use nexir_mvcc_core.Engine.Batch.{contains, version_of, versions_of, mutation_of}
use nexir_mvcc_core.Engine.Intents.{abort, new_intent}
use nexir_mvcc_core.Engine.IntentBatches.{intents_of}
use nexir_mvcc_core.Engine.Accepted.{
  Prewritten, Committed, prewrite-ok, commit-ok, BatchPrewritten, IsCommittable, IsWritable,
  pending_versions, names_of, held_names, prewrite_batch-ok, commit_batch-ok, abort_batch-ok,
  direct-ok, guarded-ok,
}
use nexir_mvcc_core.Engine.Effects.{
  committed-member, committed-absent, commit-IsCommittable, commit_as_batch, Distinct-single,
}
use nexir_mvcc_core.Engine.Calls.Atomicity.{run-IsAtomic, reference-IsAllOrNothing, outcome-ok}
use nexir_mvcc_core.Engine.Calls.{Call, run, run_all}

pub record IsConsistent (w : View) : Type 0 where
  pub in_order : IsWellFormed w
  pub unshadowed :
      (k : Key) (i : Intent) → w.intent_of k ≡ some i → UpTo i.start_ts (w.history_of k)

pub empty-IsConsistent : IsConsistent empty
empty-IsConsistent = record { in_order = empty-IsWellFormed; unshadowed = λ k i h. tt }

module _ (w : View) (f : IsConsistent w) (k : Key) (j : Intent) where
  shadow-store_intent :
      (i : Intent)
      → UpTo i.start_ts (w.history_of i.key)
      → (store_intent i w).intent_of k ≡ some j
      → UpTo j.start_ts (w.history_of k)
  unfolding store_intent
  shadow-store_intent i u h = elim (Bool-cases (bytes_eq i.key k)) [
    | inl e ↦
        let same_intent : i ≡ j = ground arith in
        subst (λ x. UpTo x.start_ts (w.history_of k)) same_intent
          (subst (λ x. UpTo i.start_ts (w.history_of x)) ((bytes_eq_iff i.key k).0 e) u)
    | inr e ↦ f.unshadowed k j (ground arith)
  ]

  other_key :
      (v : CommittedVersion)
      → w.intent_of v.key ≡ none
      → w.intent_of k ≡ some j
      → bytes_eq v.key k ≡ false
  other_key v u h = ground (arith, bytes_eq_iff v.key k)

module _ (w : View) (f : IsConsistent w) where
  store_intent-IsConsistent :
      (i : Intent) → UpTo i.start_ts (w.history_of i.key) → IsConsistent (store_intent i w)
  store_intent-IsConsistent i u = record {
    in_order = store_intent-IsWellFormed w f.in_order i;
    unshadowed = λ k j h. unfold store_intent in shadow-store_intent w f k j i u h;
  }

  drop_intent-IsConsistent : (n : IntentName) → IsConsistent (drop_intent n w)
  drop_intent-IsConsistent (j, t, s) = record {
    in_order = drop_intent-IsWellFormed w f.in_order (j, t, s);
    unshadowed = λ k i h.
        rw (history-drop_intent k (j, t, s) w)
          (f.unshadowed k i (ground (arith, intent-drop_intent k j t s w)));
  }

  store_version-IsConsistent :
      (v : CommittedVersion) → w.intent_of v.key ≡ none → IsConsistent (store_version v w)
  store_version-IsConsistent v u = record {
    in_order = store_version-IsWellFormed w f.in_order v;
    unshadowed = λ k i h.
        let old : w.intent_of k ≡ some i = unfold store_version in h in
        rw (history-store_version k v w, other_key w f k i v u old) (f.unshadowed k i old);
  }

drop_intents-IsConsistent :
    (ns : List IntentName) (w : View) → IsConsistent w → IsConsistent (for_each drop_intent ns w)
drop_intents-IsConsistent [] w f = f
drop_intents-IsConsistent (n ∷ ns) w f =
    drop_intents-IsConsistent ns (drop_intent n w) (drop_intent-IsConsistent w f n)

store_intents-IsConsistent :
    (t : TxnId) (s : Timestamp) (xs : List PhysicalWrite) (w : View)
    → All (λ x. UpTo s (w.history_of x.key)) xs
    → IsConsistent w
    → IsConsistent (for_each store_intent (intents_of t s xs) w)
unfolding store_intent
store_intents-IsConsistent t s [] w a f = f
store_intents-IsConsistent t s (x ∷ xs) w (u, a) f =
    store_intents-IsConsistent t s xs (store_intent (new_intent t s x.key (mutation_of x.value)) w)
      a (store_intent-IsConsistent w f (new_intent t s x.key (mutation_of x.value)) u)

store_versions-IsConsistent :
    (c : Timestamp) (xs : List PhysicalWrite) (w : View)
    → All (λ x. w.intent_of x.key ≡ none) xs
    → IsConsistent w
    → IsConsistent (for_each store_version (versions_of c xs) w)
unfolding store_version
store_versions-IsConsistent c [] w a f = f
store_versions-IsConsistent c (x ∷ xs) w (u, a) f =
    store_versions-IsConsistent c xs (store_version (version_of c x) w) a
      (store_version-IsConsistent w f (version_of c x) u)

module _ (w w' : View) (f : IsConsistent w) where
  -- a batch of commits keeps it, since it removes the intents of the keys that it writes
  committed-IsConsistent :
      (t : TxnId) (s c : Timestamp) (ks : List Key)
      → Distinct ks
      → All (IsCommittable t s c w) ks
      → w'
        ≡ for_each drop_intent
            (names_of t s ks)
            (for_each store_version (pending_versions c w ks) w)
      → IsConsistent w'
  committed-IsConsistent t s c ks d a e = record {
    in_order = subst IsWellFormed (sym e) (
        for_each-IsWellFormed drop_intent drop_intent-IsWellFormed (names_of t s ks) _ (
          for_each-IsWellFormed store_version store_version-IsWellFormed (pending_versions c w ks) w
            f.in_order));
    unshadowed = λ k i h. elim (Bool-cases (contains ks k)) [
      | inl m ↦ cc (h, (committed-member t s c ks w w' d e k a m).0)
      | inr m ↦
          let (same_intent, same_history) = committed-absent t s c ks w w' d e k m in
          subst (UpTo i.start_ts) (sym same_history) (f.unshadowed k i (sym same_intent ∙ h))
    ];
  }

  Prewritten-IsConsistent :
      (t : TxnId) (s : Timestamp) (k : Key) (m : Mutation)
      → Prewritten t s k m w w'
      → IsConsistent w'
  Prewritten-IsConsistent t s k m (Prewritten.repeated e) = subst IsConsistent (sym e) f
  Prewritten-IsConsistent t s k m (Prewritten.stored n u e) =
      subst IsConsistent (sym e) (store_intent-IsConsistent w f (new_intent t s k m) u)

  BatchPrewritten-IsConsistent :
      (t : TxnId) (s : Timestamp) (xs : List PhysicalWrite)
      → BatchPrewritten t s xs w w'
      → IsConsistent w'
  BatchPrewritten-IsConsistent t s xs (BatchPrewritten.repeated e) = subst IsConsistent (sym e) f
  BatchPrewritten-IsConsistent t s xs (BatchPrewritten.stored d a e) =
      subst IsConsistent (sym e)
        (store_intents-IsConsistent t s xs w (All-imp (λ x l. l.older) xs a) f)

  -- a single commit is a batch of one
  commit-IsConsistent :
      (t : TxnId) (k : Key) (s c : Timestamp) (i : Intent)
      → Committed t k s c w w' i
      → IsConsistent w'
  commit-IsConsistent t k s c i h =
      committed-IsConsistent t s c (k ∷ []) (Distinct-single k)
        (commit-IsCommittable t k s c w w' i h, tt) (commit_as_batch t k s c w w' i h)

  writes-IsConsistent :
      (c : Timestamp) (xs : List PhysicalWrite)
      → All (λ x. IsWritable c w x.key) xs
      → w' ≡ for_each store_version (versions_of c xs) w
      → IsConsistent w'
  writes-IsConsistent c xs a e =
      subst IsConsistent (sym e)
        (store_versions-IsConsistent c xs w (All-imp (λ x l. l.unlocked) xs a) f)

module _ (w : View) (f : IsConsistent w) where
  accepted-IsConsistent :
      (c : Call) → (run reference c w).0 ≡ true → IsConsistent (run reference c w).1
  unfolding run
  accepted-IsConsistent (Call.prewrite t s k m) h =
      Prewritten-IsConsistent w _ f t s k m
        (prewrite-ok k w _ (f.in_order.sorted k) t s m (outcome-ok _ _ h))
  accepted-IsConsistent (Call.commit t k s c) h =
      let (i, done) = commit-ok t k s c w _ (f.in_order.sorted k) (outcome-ok _ _ h) in
      commit-IsConsistent w _ f t k s c i done
  accepted-IsConsistent (Call.abort t k s) h =
      unfold abort ◌>>=◌ in drop_intent-IsConsistent w f (k, t, s)
  accepted-IsConsistent (Call.prewrite_batch t s xs) h =
      BatchPrewritten-IsConsistent w _ f t s xs
        (prewrite_batch-ok t s w f.in_order.sorted xs _ (outcome-ok _ _ h))
  accepted-IsConsistent (Call.commit_batch t s c ks) h =
      let (d, l, a, e) = commit_batch-ok t s c w f.in_order.sorted ks _ (outcome-ok _ _ h) in
      committed-IsConsistent w _ f t s c ks d a e
  accepted-IsConsistent (Call.abort_batch t s ks) h =
      subst IsConsistent (sym (abort_batch-ok t s w ks _ (outcome-ok _ _ h)))
        (drop_intents-IsConsistent (held_names t s w ks) w f)
  accepted-IsConsistent (Call.apply_direct_batch c xs) h =
      let (d, a, e) = direct-ok c w f.in_order.sorted xs _ (outcome-ok _ _ h) in
      writes-IsConsistent w _ f c xs a e
  accepted-IsConsistent (Call.apply_guarded_batch c gs xs) h =
      let (d, g, a, e) = guarded-ok c w f.in_order.sorted gs xs _ (outcome-ok _ _ h) in
      writes-IsConsistent w _ f c xs a e

  -- Every call, failed or not, leaves a consistent engine consistent: histories stay in ascending order,
  -- the key set holds exactly the keys in use, each intent stands under its key, and no version of
  -- a key with an intent is newer than the start of the intent's transaction.
  pub run-IsConsistent : (c : Call) → IsConsistent (run reference c w).1
  run-IsConsistent c = elim (Bool-cases (run reference c w).0) [
    | inl h ↦ accepted-IsConsistent c h
    | inr h ↦ subst IsConsistent (sym (run-IsAtomic reference reference-IsAllOrNothing c w h)) f
  ]

run_from-IsConsistent :
    (cs : List Call) (w : View) → IsConsistent w → IsConsistent (run_all reference cs w)
unfolding run_all
run_from-IsConsistent [] w f = f
run_from-IsConsistent (c ∷ cs) w f =
    run_from-IsConsistent cs (run reference c w).1 (run-IsConsistent w f c)

-- Every state that a client can reach from an empty engine, whatever calls it makes and whether or
-- not they succeed, is consistent.
pub run_all-IsConsistent : (cs : List Call) → IsConsistent (run_all reference cs empty)
run_all-IsConsistent cs = run_from-IsConsistent cs empty empty-IsConsistent
