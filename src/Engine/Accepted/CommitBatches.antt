-- ===== src/Engine/Accepted/CommitBatches.antt =====
-- `commit_batch` and `abort_batch` where they return `Ok`.
use nexir_mvcc_core.Prelude.{
  ℕ, ◌<◌, true, false, Option, none, some, List, [], ◌∷◌, ◌≡◌, ap, arith, leb, All, for_each,
  if◌then◌else◌,
}
use nexir_mvcc_core.Ord.{nat_ord}
use nexir_mvcc_core.BTreeMap.{IsSorted}
use nexir_mvcc_core.Types.{Timestamp, TxnId, Key, Value, Intent, CommittedVersion, mutation_value}
use nexir_mvcc_core.Exec.{ok, pure, ◌>>=◌}
use nexir_mvcc_core.Exec.Keeps.{
  reading-bind-ok, mutate-ok, pure-ok, query-ok, reject_if-ok, IsReading-query, IsReading-reject_if,
}
use nexir_mvcc_core.Backend.{IntentName}
use nexir_mvcc_core.Backend.Reference.{
  is_intent_of, View, latest, reference, drop_intent, store_version,
}
use nexir_mvcc_core.Backend.Reference.Histories.{Before, Before-latest}
use nexir_mvcc_core.Backend.Reference.Effects.{Distinct}
use nexir_mvcc_core.Engine.IntentBatches.{
  check_min, check_latest, prepare_commit, prepare_commits, commit_batch, add_held, held_intents,
  abort_batch,
}
use nexir_mvcc_core.Engine.Readings.{
  IsReading-prepare_commit, IsReading-prepare_commits, IsReading-held_intents,
  IsReading-reject_duplicates,
}
use nexir_mvcc_core.Engine.Accepted.Duplicates.{Distinct-reject_duplicates}

-- the value of the intent on a key
abbrev pub pending : Option Intent → Option Value
pending none = none
pending (some i) = mutation_value i.mutation

-- a key that the transaction may commit at `c`
pub record IsCommittable (t : TxnId) (s c : Timestamp) (w : View) (k : Key) : Type 0 where
  pub held : is_intent_of t s (w.intent_of k) ≡ true
  pub newest : Before c (w.history_of k)

abbrev pub pending_versions : Timestamp → View → List Key → List CommittedVersion
pending_versions c w [] = []
pending_versions c w (k ∷ ks) =
    record { key = k; commit_ts = c; value = pending (w.intent_of k) } ∷ pending_versions c w ks

abbrev pub names_of : TxnId → Timestamp → List Key → List IntentName
names_of t s [] = []
names_of t s (k ∷ ks) = (k, t, s) ∷ names_of t s ks

leb-false : (a d : ℕ) → leb a d ≡ false → d < a
leb-false a d h = ground arith

module _ (t : TxnId) (s c : Timestamp) (w : View)
    (sorted : (k : Key) → IsSorted (w.history_of k)) where
  module _ (k : Key) (r : CommittedVersion × IntentName)
      (h : prepare_commit reference t s c k w ≡ (ok r, w)) where
    round_held : is_intent_of t s (w.intent_of k) ≡ true
    unfolding prepare_commit check_min check_latest ◌>>=◌
    round_held = ground arith

    round_newest : (e : Timestamp × Option Value) → latest (w.history_of k) ≡ some e → e.0 < c
    unfolding prepare_commit check_min check_latest ◌>>=◌
    round_newest e q = ground arith

    round_version :
        (r.0 ≡ record { key = k; commit_ts = c; value = pending (w.intent_of k) })
        × (r.1 ≡ (k, t, s))
    unfolding prepare_commit check_min check_latest ◌>>=◌
    round_version = ground arith

  prepare_commits-ok :
      (ks : List Key) (r : List CommittedVersion × List IntentName)
      → prepare_commits reference t s c ks w ≡ (ok r, w)
      → All (IsCommittable t s c w) ks × (r.0 ≡ pending_versions c w ks) × (r.1 ≡ names_of t s ks)
  unfolding prepare_commits pure
  prepare_commits-ok [] r h = let e = pure-ok _ r w w h in (tt, ap (λ x. x.0) e, ap (λ x. x.1) e)
  prepare_commits-ok (k ∷ ks) r h =
      let (a, p, q) = reading-bind-ok _ _ w w r (IsReading-prepare_commit reference t s c k) h in
      let (d, p2, q2) =
        reading-bind-ok _ _ w w r (IsReading-prepare_commits reference t s c ks) q in
      let (e, f, g) = prepare_commits-ok ks d p2 in
      let whole : r ≡ (a.0 ∷ d.0, a.1 ∷ d.1) = pure-ok _ r w w q2 in
      let (version, name) = round_version k a p in
      (
        (
          record {
            held = round_held k a p;
            newest = Before-latest c (w.history_of k) (sorted k) (round_newest k a p);
          },
          e,
        ),
        cc (whole, version, f),
        cc (whole, name, g),
      )

  pub commit_batch-ok :
      (ks : List Key) (w' : View)
      → commit_batch reference t s c ks w ≡ (ok tt, w')
      → Distinct ks
        × (s < c)
        × All (IsCommittable t s c w) ks
        × (w'
            ≡ for_each drop_intent
                (names_of t s ks)
                (for_each store_version (pending_versions c w ks) w))
  unfolding commit_batch
  commit_batch-ok ks w' h =
      let (u, p, q) = reading-bind-ok _ _ w w' tt (IsReading-reject_if _ _) h in
      let (v, p2, q2) = reading-bind-ok _ _ w w' tt (IsReading-reject_duplicates _ _) q in
      let (x, p3, q3) = reading-bind-ok _ _ w w' tt (IsReading-reject_if _ _) q2 in
      let (r, p4, q4) =
        reading-bind-ok _ _ w w' tt (IsReading-prepare_commits reference t s c ks) q3 in
      let (e, f, g) = prepare_commits-ok ks r p4 in
      let written : w' ≡ for_each drop_intent r.1 (for_each store_version r.0 w) =
        mutate-ok _ (λ y. for_each drop_intent r.1 (for_each store_version r.0 y)) w w' tt q4 in
      (
        Distinct-reject_duplicates _ ks w w v p2,
        leb-false c s (reject_if-ok _ _ w w x p3),
        e,
        cc (written, f, g),
      )

-- the names that `abort_batch` removes
abbrev pub held_names : TxnId → Timestamp → View → List Key → List IntentName
held_names t s w [] = []
held_names t s w (k ∷ ks) =
    if is_intent_of t s (w.intent_of k)
    then (k, t, s) ∷ held_names t s w ks
    else held_names t s w ks

module _ (t : TxnId) (s : Timestamp) (w : View) where
  held_intents-ok :
      (ks : List Key) (r : List IntentName)
      → held_intents reference t s ks w ≡ (ok r, w)
      → r ≡ held_names t s w ks
  unfolding held_intents add_held
  held_intents-ok [] r h = pure-ok _ r w w h
  held_intents-ok (k ∷ ks) r h =
      let (found, p, q) = reading-bind-ok _ _ w w r (IsReading-query _ _) h in
      let (rest, p2, q2) = reading-bind-ok _ _ w w r (IsReading-held_intents reference t s ks) q in
      let e : found ≡ w.intent_of k = query-ok _ (λ x. x.intent_of k) found w w p in
      cc (pure-ok _ r w w q2, e, held_intents-ok ks rest p2)

  pub abort_batch-ok :
      (ks : List Key) (w' : View)
      → abort_batch reference t s ks w ≡ (ok tt, w')
      → w' ≡ for_each drop_intent (held_names t s w ks) w
  unfolding abort_batch
  abort_batch-ok [] w' h = unfold pure in ground arith
  abort_batch-ok (k ∷ ks) w' h =
      let (v, p, q) = reading-bind-ok _ _ w w' tt (IsReading-reject_duplicates _ _) h in
      let (r, p2, q2) =
        reading-bind-ok _ _ w w' tt (IsReading-held_intents reference t s (k ∷ ks)) q in
      let written : w' ≡ for_each drop_intent r w =
        mutate-ok _ (for_each drop_intent r) w w' tt q2 in
      cc (written, held_intents-ok (k ∷ ks) r p2)
