-- ===== src/Engine/Calls/Snapshots.antt =====
-- What readers see: reads after a commit, snapshots that later calls do not change, and write
-- conflicts.
use nexir_mvcc_core.Prelude.{
  Bool, true, false, Option, none, some, List, [], ◌∷◌, ◌≡◌, refl, sym, subst, ◌∙◌, ap, inl, inr,
  arith, All, for_each, leb, ◌&&◌, Bool-cases, Option-cases, if◌then◌else◌,
}
use nexir_mvcc_core.Ord.{nat_ord, bytes_eq, bytes_eq_iff}
use nexir_mvcc_core.BTreeMap.{insert}
use nexir_mvcc_core.Types.{Timestamp, TxnId, Key, Value, PhysicalWrite, ReadGuard}
use nexir_mvcc_core.Error.{ReadError}
use nexir_mvcc_core.Exec.{Result, ok}
use nexir_mvcc_core.Backend.Reference.{
  View, History, map_version, reference, visible, drop_intent, store_version,
}
use nexir_mvcc_core.Backend.Reference.Histories.{Before, visible-insert_newest}
use nexir_mvcc_core.Backend.Reference.Effects.{
  Distinct, find_version, extend, history-store_versions,
}
use nexir_mvcc_core.Engine.Read.{read, value_of}
use nexir_mvcc_core.Engine.Batch.{contains, keys_of, versions_of}
use nexir_mvcc_core.Engine.Intents.{commit}
use nexir_mvcc_core.Engine.IntentBatches.{commit_batch}
use nexir_mvcc_core.Engine.WriteBatches.{apply_direct_batch, apply_guarded_batch}
use nexir_mvcc_core.Engine.Accepted.{
  commit-ok, IsCommittable, IsWritable, pending, pending_versions, names_of, commit_batch-ok, Holds,
  direct-ok, guarded-ok,
}
use nexir_mvcc_core.Engine.Effects.{
  committed-member, committed-absent, commit-IsCommittable, commit_as_batch, Distinct-single,
  contains-single, find_write, version_keys-versions_of,
}
use nexir_mvcc_core.Engine.Calls.Consistency.{IsConsistent}

-- a read depends on the history of its key alone
pub read-history :
    (k : Key) (r : Timestamp) (w w' : View)
    → visible r (w'.history_of k) ≡ visible r (w.history_of k)
    → read reference k r w' ≡ read reference k r w
unfolding read
read-history k r w w' h = ap (λ o. ok (value_of (map_version k o))) h

-- a history with what a batch at `c` writes to its key
abbrev add_write : Timestamp → Option (Option Value) → History → History
add_write c none h = h
add_write c (some v) h = insert c v h

-- what a read of `k` at `r` returns after a batch at `c` that writes the given value to `k`, if any
abbrev pub read_after :
    Timestamp → Option (Option Value) → View → Key → Timestamp → Result ReadError (Option Value)
read_after c none w k r = read reference k r w
read_after c (some v) w k r = if leb c r then ok v else read reference k r w

-- a read of a key whose history has a new newest version
read-insert_newest :
    (k : Key) (r c : Timestamp) (v : Option Value) (w w' : View)
    → Before c (w.history_of k)
    → w'.history_of k ≡ insert c v (w.history_of k)
    → read reference k r w' ≡ (if leb c r then ok v else read reference k r w)
unfolding read
read-insert_newest k r c v w w' b e =
    ap (λ h. ok (value_of (map_version k (visible r h)))) e
    ∙ ap (λ o. ok (value_of (map_version k o))) (visible-insert_newest c v (w.history_of k) b r)
    ∙ read_if (leb c r)
  where
    read_if :
        (x : Bool)
        → ◌≡◌ {A = Result ReadError (Option Value)}
            (ok (value_of (map_version k (if x then some (c, v) else visible r (w.history_of k)))))
            (if x then ok v else ok (value_of (map_version k (visible r (w.history_of k)))))
    read_if true = refl
    read_if false = refl

module _ (t : TxnId) (s c : Timestamp) (ks : List Key) (w w' : View) where
  committed_reads :
      Distinct ks
      → All (IsCommittable t s c w) ks
      → w'
        ≡ for_each drop_intent
            (names_of t s ks)
            (for_each store_version (pending_versions c w ks) w)
      → (k : Key) (r : Timestamp)
      → (read reference k r w' ≡ (
          if contains ks k && leb c r then ok (pending (w.intent_of k)) else read reference k r w))
        × (w'.intent_of k ≡ (if contains ks k then none else w.intent_of k))
  committed_reads d a e k r = elim (Bool-cases (contains ks k)) [
    | inl m ↦
        let (gone, added, newest) = committed-member t s c ks w w' d e k a m in
        rw m (read-insert_newest k r c (pending (w.intent_of k)) w w' newest added, gone)
    | inr m ↦
        let (same_intent, same_history) = committed-absent t s c ks w w' d e k m in
        rw m (read-history k r w w' (ap (visible r) same_history), same_intent)
  ]

  -- After a successful `commit_batch` at `c`, a read at `c` or later of a key of the batch returns what
  -- the key's intent wrote, and every other read, of another key or at an earlier timestamp,
  -- returns what it returned before. The intents of the batch's keys are gone, and no others.
  pub read-commit_batch :
      IsConsistent w
      → commit_batch reference t s c ks w ≡ (ok tt, w')
      → (k : Key) (r : Timestamp)
      → (read reference k r w' ≡ (
          if contains ks k && leb c r then ok (pending (w.intent_of k)) else read reference k r w))
        × (w'.intent_of k ≡ (if contains ks k then none else w.intent_of k))
  read-commit_batch f h k r =
      let (d, l, a, e) = commit_batch-ok t s c w f.in_order.sorted ks w' h in
      committed_reads d a e k r

module _ (t : TxnId) (k : Key) (s c : Timestamp) (w w' : View) (f : IsConsistent w) where
  -- After a successful `commit` at `c`, a read of the key at `c` or later returns what the intent wrote;
  -- every other read returns what it returned before. The key's intent is gone, and no other.
  pub read-commit :
      commit reference t k s c w ≡ (ok tt, w')
      → (j : Key) (r : Timestamp)
      → (read reference j r w' ≡ (
          if bytes_eq k j && leb c r then ok (pending (w.intent_of j)) else read reference j r w))
        × (w'.intent_of j ≡ (if bytes_eq k j then none else w.intent_of j))
  read-commit h j r =
      let (i, done) = commit-ok t k s c w w' (f.in_order.sorted k) h in
      rw (contains-single k j) at (
        committed_reads t s c (k ∷ []) w w' (Distinct-single k)
          (commit-IsCommittable t k s c w w' i done, tt) (commit_as_batch t k s c w w' i done) j r)

-- a read after a batch of writes at `c`
module _ (c : Timestamp) (xs : List PhysicalWrite) (w w' : View) where
  extend-versions_of :
      (k : Key) (h : History) (ys : List PhysicalWrite)
      → extend (find_version k (versions_of c ys)) h ≡ add_write c (find_write k ys) h
  extend-versions_of k h [] = refl
  extend-versions_of k h (y ∷ ys) = elim (Bool-cases (bytes_eq y.key k)) [
    | inl m ↦ rw m
    | inr m ↦ rw m (extend-versions_of k h ys)
  ]

  IsWritable-found :
      (k : Key) (v : Option Value) (ys : List PhysicalWrite)
      → All (λ x. IsWritable c w x.key) ys
      → find_write k ys ≡ some v
      → IsWritable c w k
  IsWritable-found k v [] a e = cc
  IsWritable-found k v (y ∷ ys) (p, a) e = elim (Bool-cases (bytes_eq y.key k)) [
    | inl m ↦ subst (IsWritable c w) ((bytes_eq_iff y.key k).0 m) p
    | inr m ↦ IsWritable-found k v ys a (ground arith)
  ]

  history-written :
      Distinct (keys_of xs)
      → w' ≡ for_each store_version (versions_of c xs) w
      → (k : Key) → w'.history_of k ≡ add_write c (find_write k xs) (w.history_of k)
  history-written d e k =
      ap (λ x. x.history_of k) e
      ∙ history-store_versions k (versions_of c xs) w
          (subst Distinct (sym (version_keys-versions_of c xs)) d)
      ∙ extend-versions_of k (w.history_of k) xs

  pub written_reads :
      Distinct (keys_of xs)
      → All (λ x. IsWritable c w x.key) xs
      → w' ≡ for_each store_version (versions_of c xs) w
      → (k : Key) (r : Timestamp) → read reference k r w' ≡ read_after c (find_write k xs) w k r
  written_reads d a e k r = elim (Option-cases (find_write k xs)) [
    | inl n ↦
        let added = history-written d e k in
        rw n (read-history k r w w' (ap (visible r) (rw n at added)))
    | inr (v, n) ↦
        let added = history-written d e k in
        let at_key = IsWritable-found k v xs a n in
        rw n (read-insert_newest k r c v w w' at_key.newest (rw n at added))
  ]

  -- A direct batch that returns `Ok` at `c` found every key of the batch without an intent and with older
  -- versions only; afterwards a read at `c` or later of a key of the batch returns the value
  -- written, and every other read returns what it returned before.
  pub read-apply_direct_batch :
      IsConsistent w
      → apply_direct_batch reference c xs w ≡ (ok tt, w')
      → All (λ x. IsWritable c w x.key) xs
        × ((k : Key) (r : Timestamp) → read reference k r w' ≡ read_after c (find_write k xs) w k r)
  read-apply_direct_batch f h =
      let (d, a, e) = direct-ok c w f.in_order.sorted xs w' h in (a, written_reads d a e)

  -- A guarded batch that returns `Ok` at `c` is a compare-and-swap: every guard held in the state before
  -- it (no intent, nothing newer than the guard's read timestamp, which is before `c`, and the
  -- expected version or value), every key was writable, and reads change as for a direct batch.
  pub read-apply_guarded_batch :
      (gs : List ReadGuard)
      → IsConsistent w
      → apply_guarded_batch reference c gs xs w ≡ (ok tt, w')
      → All (Holds c w) gs
        × All (λ x. IsWritable c w x.key) xs
        × ((k : Key) (r : Timestamp) → read reference k r w' ≡ read_after c (find_write k xs) w k r)
  read-apply_guarded_batch gs f h =
      let (d, g, a, e) = guarded-ok c w f.in_order.sorted gs xs w' h in (g, a, written_reads d a e)
