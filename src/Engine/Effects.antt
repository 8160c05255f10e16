-- ===== src/Engine/Effects.antt =====
-- The state that the batch methods leave, key by key, over the reference backend.
use nexir_mvcc_core.Prelude.{
  true, false, Option, none, some, List, [], ◌∷◌, ◌≡◌, refl, sym, subst, ◌∙◌, ap, inl, inr, arith,
  All, for_each, Bool-cases, if◌then◌else◌,
}
use nexir_mvcc_core.Ord.{nat_ord, bytes_eq, bytes_eq_iff}
use nexir_mvcc_core.BTreeMap.{insert}
use nexir_mvcc_core.Types.{Timestamp, TxnId, Key, Value, Intent, PhysicalWrite}
use nexir_mvcc_core.Backend.{IntentName}
use nexir_mvcc_core.Backend.Reference.{is_intent_of, View, drop_intent, store_version}
use nexir_mvcc_core.Backend.Reference.Histories.{Before}
use nexir_mvcc_core.Backend.Reference.Effects.{
  Distinct, find_version, extend, after_drops, version_keys, history-store_versions,
  intent-store_versions, intent-drop_intents, history-drop_intents,
}
use nexir_mvcc_core.Engine.Batch.{contains, keys_of, versions_of}
use nexir_mvcc_core.Engine.Accepted.{Committed, IsCommittable, pending, pending_versions, names_of}

pub All-contains {κ} :
    (P : Key → Type κ) (ks : List Key) (k : Key) → contains ks k ≡ true → All P ks → P k
unfolding contains
All-contains P [] k h a = cc
All-contains P (j ∷ ks) k h (p, a) = elim (Bool-cases (bytes_eq j k)) [
  | inl e ↦ subst P ((bytes_eq_iff j k).0 e) p
  | inr e ↦ All-contains P ks k (ground arith) a
]

module _ (k : Key) where
  after_drops-none : (ns : List IntentName) → after_drops k ns none ≡ none
  after_drops-none [] = refl
  after_drops-none ((j, t, s) ∷ ns) = ground (arith, after_drops-none ns)

  module _ (t : TxnId) (s : Timestamp) (o : Option Intent) where
    after_drops-absent :
        (ks : List Key) → contains ks k ≡ false → after_drops k (names_of t s ks) o ≡ o
    unfolding contains
    after_drops-absent [] h = refl
    after_drops-absent (j ∷ ks) h = ground (arith, after_drops-absent ks)

    after_drops-member :
        (ks : List Key)
        → contains ks k ≡ true
        → is_intent_of t s o ≡ true
        → after_drops k (names_of t s ks) o ≡ none
    unfolding contains
    after_drops-member [] h n = cc
    after_drops-member (j ∷ ks) h n =
        ground (arith, after_drops-none (names_of t s ks), after_drops-member ks)

  module _ (c : Timestamp) (w : View) where
    find_pending-member :
        (ks : List Key)
        → contains ks k ≡ true
        → find_version k (pending_versions c w ks)
          ≡ some (record { key = k; commit_ts = c; value = pending (w.intent_of k) })
    unfolding contains
    find_pending-member [] h = cc
    find_pending-member (j ∷ ks) h = ground (arith, find_pending-member ks, bytes_eq_iff j k)

    find_pending-absent :
        (ks : List Key) → contains ks k ≡ false → find_version k (pending_versions c w ks) ≡ none
    unfolding contains
    find_pending-absent [] h = refl
    find_pending-absent (j ∷ ks) h = ground (arith, find_pending-absent ks)

  -- the value that a batch writes to the key, if it writes it
  abbrev pub find_write : List PhysicalWrite → Option (Option Value)
  find_write [] = none
  find_write (x ∷ xs) = if bytes_eq x.key k then some x.value else find_write xs

version_keys-pending :
    (c : Timestamp) (w : View) (ks : List Key) → version_keys (pending_versions c w ks) ≡ ks
version_keys-pending c w [] = refl
version_keys-pending c w (k ∷ ks) = ap (λ l. k ∷ l) (version_keys-pending c w ks)

pub version_keys-versions_of :
    (c : Timestamp) (xs : List PhysicalWrite) → version_keys (versions_of c xs) ≡ keys_of xs
version_keys-versions_of c [] = refl
version_keys-versions_of c (x ∷ xs) = ap (λ l. x.key ∷ l) (version_keys-versions_of c xs)

-- the state after a successful `commit_batch`
module _ (t : TxnId) (s c : Timestamp) (ks : List Key) (w w' : View) (distinct : Distinct ks) where
  module _
      (result : w'
        ≡ for_each drop_intent
            (names_of t s ks)
            (for_each store_version (pending_versions c w ks) w))
      (k : Key) where
    pub history-committed :
        w'.history_of k ≡ extend (find_version k (pending_versions c w ks)) (w.history_of k)
    history-committed =
        ap (λ x. x.history_of k) result
        ∙ history-drop_intents k (names_of t s ks)
            (for_each store_version (pending_versions c w ks) w)
        ∙ history-store_versions k (pending_versions c w ks) w
            (subst Distinct (sym (version_keys-pending c w ks)) distinct)

    pub intent-committed : w'.intent_of k ≡ after_drops k (names_of t s ks) (w.intent_of k)
    intent-committed =
        ap (λ x. x.intent_of k) result
        ∙ intent-drop_intents k (names_of t s ks)
            (for_each store_version (pending_versions c w ks) w)
        ∙ ap (after_drops k (names_of t s ks)) (intent-store_versions k (pending_versions c w ks) w)

    -- a key of the batch: its intent is gone, and its history has the intent's value at `c`
    pub committed-member :
        All (IsCommittable t s c w) ks
        → contains ks k ≡ true
        → (w'.intent_of k ≡ none)
          × (w'.history_of k ≡ insert c (pending (w.intent_of k)) (w.history_of k))
          × Before c (w.history_of k)
    committed-member a m =
        let at_key = All-contains (IsCommittable t s c w) ks k m a in
        (
          intent-committed ∙ after_drops-member k t s (w.intent_of k) ks m at_key.held,
          history-committed ∙ ap (λ o. extend o (w.history_of k)) (find_pending-member k c w ks m),
          at_key.newest,
        )

    -- any other key is as it was
    pub committed-absent :
        contains ks k ≡ false
        → (w'.intent_of k ≡ w.intent_of k) × (w'.history_of k ≡ w.history_of k)
    committed-absent m = (
      intent-committed ∙ after_drops-absent k t s (w.intent_of k) ks m,
      history-committed ∙ ap (λ o. extend o (w.history_of k)) (find_pending-absent k c w ks m),
    )

-- a single commit is a batch of one
module _ (t : TxnId) (k : Key) (s c : Timestamp) (w w' : View) (i : Intent)
    (h : Committed t k s c w w' i) where
  owner_named : is_intent_of t s (w.intent_of k) ≡ true
  owner_named = ground (arith, h.held, h.owner, h.started)

  pub commit-IsCommittable : IsCommittable t s c w k
  commit-IsCommittable = record { held = owner_named; newest = h.newest }

  pub commit_as_batch :
      w'
      ≡ for_each drop_intent
          (names_of t s (k ∷ []))
          (for_each store_version (pending_versions c w (k ∷ [])) w)
  commit_as_batch = h.result ∙ rw h.held

pub Distinct-single : (k : Key) → Distinct (k ∷ [])
unfolding contains
Distinct-single k = (refl, tt)

pub contains-single : (k j : Key) → contains (k ∷ []) j ≡ bytes_eq k j
unfolding contains
contains-single k j = ground arith
