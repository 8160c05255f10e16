-- ===== src/Backend/Reference/Effects.antt =====
-- What the writes of the reference backend do at one key, singly and in the loops of the batch
-- methods.
use nexir_mvcc_core.Prelude.{
  false, ◌&&◌, Option, none, some, List, [], ◌∷◌, ◌≡◌, refl, ◌∙◌, arith, for_each, if◌then◌else◌,
}
use nexir_mvcc_core.Ord.{nat_ord, bytes_ord, bytes_eq, bytes_eq_iff}
use nexir_mvcc_core.BTreeMap.{insert}
use nexir_mvcc_core.Types.{Timestamp, TxnId, Key, Intent, CommittedVersion}
use nexir_mvcc_core.Backend.{IntentName}
use nexir_mvcc_core.Engine.Batch.{contains}
use nexir_mvcc_core.Backend.Reference.{
  is_intent_of, View, History, release_key, store_intent, drop_intent, store_version,
}

-- the version of `key` in a batch
abbrev pub find_version : Key → List CommittedVersion → Option CommittedVersion
find_version key [] = none
find_version key (v ∷ vs) = if bytes_eq v.key key then some v else find_version key vs

abbrev pub find_intent : Key → List Intent → Option Intent
find_intent key [] = none
find_intent key (i ∷ is) = if bytes_eq i.key key then some i else find_intent key is

-- a history with a version of its key added
abbrev pub extend : Option CommittedVersion → History → History
extend none h = h
extend (some v) h = insert v.commit_ts v.value h

-- an intent after the removals of a batch
abbrev pub after_drops : Key → List IntentName → Option Intent → Option Intent
after_drops key [] found = found
after_drops key ((k, txn_id, start_ts) ∷ names) found =
    after_drops key names
      (if bytes_eq k key && is_intent_of txn_id start_ts found then none else found)

-- an intent replaced by a new one, if there is one
abbrev pub replace : Option Intent → Option Intent → Option Intent
replace none old = old
replace (some i) old = some i

-- no key comes twice
abbrev pub Distinct : List Key → Type 0
Distinct [] = Unit
Distinct (k ∷ ks) = (contains ks k ≡ false) × Distinct ks

abbrev pub version_keys : List CommittedVersion → List Key
version_keys [] = []
version_keys (v ∷ vs) = v.key ∷ version_keys vs

abbrev pub intent_keys : List Intent → List Key
intent_keys [] = []
intent_keys (i ∷ is) = i.key ∷ intent_keys is

module _ (k : Key) where
  pub intent-release_key : (key : Key) (w : View) → (release_key key w).intent_of k ≡ w.intent_of k
  unfolding release_key
  intent-release_key key w = ground arith

  pub history-release_key :
      (key : Key) (w : View) → (release_key key w).history_of k ≡ w.history_of k
  unfolding release_key
  history-release_key key w = ground arith

  pub history-store_version :
      (v : CommittedVersion) (w : View)
      → (store_version v w).history_of k
        ≡ (if bytes_eq v.key k then insert v.commit_ts v.value (w.history_of k) else w.history_of k)
  unfolding store_version
  history-store_version v w = ground (arith, bytes_eq_iff v.key k)

  pub intent-drop_intent :
      (j : Key) (t : TxnId) (s : Timestamp) (w : View)
      → (drop_intent (j, t, s) w).intent_of k
        ≡ (if bytes_eq j k && is_intent_of t s (w.intent_of k) then none else w.intent_of k)
  unfolding drop_intent release_key
  intent-drop_intent j t s w = ground (arith, bytes_eq_iff j k)

  pub history-drop_intent :
      (n : IntentName) (w : View) → (drop_intent n w).history_of k ≡ w.history_of k
  unfolding drop_intent release_key
  history-drop_intent (j, t, s) w = ground arith

  pub find_version-absent :
      (vs : List CommittedVersion) → contains (version_keys vs) k ≡ false → find_version k vs ≡ none
  unfolding contains
  find_version-absent [] h = refl
  find_version-absent (v ∷ vs) h = ground (arith, find_version-absent vs)

  pub find_intent-absent :
      (is : List Intent) → contains (intent_keys is) k ≡ false → find_intent k is ≡ none
  unfolding contains
  find_intent-absent [] h = refl
  find_intent-absent (i ∷ is) h = ground (arith, find_intent-absent is)

module _ (k : Key) where
  pub history-store_versions :
      (vs : List CommittedVersion) (w : View)
      → Distinct (version_keys vs)
      → (for_each store_version vs w).history_of k ≡ extend (find_version k vs) (w.history_of k)
  history-store_versions [] w d = refl
  history-store_versions (v ∷ vs) w (d, ds) = ground (
    arith,
    history-store_versions vs (store_version v w) ds,
    history-store_version k v w,
    bytes_eq_iff v.key k,
    find_version-absent k vs,
  )

  pub intent-store_versions :
      (vs : List CommittedVersion) (w : View)
      → (for_each store_version vs w).intent_of k ≡ w.intent_of k
  unfolding store_version
  intent-store_versions [] w = refl
  intent-store_versions (v ∷ vs) w = intent-store_versions vs (store_version v w)

  pub intent-drop_intents :
      (ns : List IntentName) (w : View)
      → (for_each drop_intent ns w).intent_of k ≡ after_drops k ns (w.intent_of k)
  intent-drop_intents [] w = refl
  intent-drop_intents ((j, t, s) ∷ ns) w =
      ground (arith, intent-drop_intents ns (drop_intent (j, t, s) w), intent-drop_intent k j t s w)

  pub history-drop_intents :
      (ns : List IntentName) (w : View) → (for_each drop_intent ns w).history_of k ≡ w.history_of k
  history-drop_intents [] w = refl
  history-drop_intents (n ∷ ns) w =
      history-drop_intents ns (drop_intent n w) ∙ history-drop_intent k n w

  pub intent-store_intents :
      (is : List Intent) (w : View)
      → Distinct (intent_keys is)
      → (for_each store_intent is w).intent_of k ≡ replace (find_intent k is) (w.intent_of k)
  unfolding store_intent
  intent-store_intents [] w d = refl
  intent-store_intents (i ∷ is) w (d, ds) = ground (
    arith,
    intent-store_intents is (store_intent i w) ds,
    bytes_eq_iff i.key k,
    find_intent-absent k is,
  )

  pub history-store_intents :
      (is : List Intent) (w : View) → (for_each store_intent is w).history_of k ≡ w.history_of k
  unfolding store_intent
  history-store_intents [] w = refl
  history-store_intents (i ∷ is) w = history-store_intents is (store_intent i w)
