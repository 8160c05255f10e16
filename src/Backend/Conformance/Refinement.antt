-- ===== src/Backend/Conformance/Refinement.antt =====
-- Whole sequences of calls: `InMemoryBackend` refines the reference backend.
use nexir_mvcc_core.Prelude.{
  List, [], ◌∷◌, ◌≡◌, ◌≤◌, refl, ap, ◌∙◌, All, for_each, Bool-cases, inl, inr,
}
use nexir_mvcc_core.Ord.{bytes_ord}
use nexir_mvcc_core.BTreeMap
use nexir_mvcc_core.Types.{Key, Timestamp, TxnId, Intent, CommittedVersion, max_ts}
use nexir_mvcc_core.Exec.{ok}
use nexir_mvcc_core.Backend.{IntentName}
use nexir_mvcc_core.Backend.InMemory
use nexir_mvcc_core.Backend.InMemory.{
  InMemoryBackend, in_memory, new, is_named, maybe_remove_from_keys,
}
use nexir_mvcc_core.Backend.Reference
use nexir_mvcc_core.Backend.Reference.{View, reference, empty, release_key}
use nexir_mvcc_core.Backend.Conformance.{
  IsValid, view, history, Query, ask, Write, perform, perform_all, Representable, put_intent,
  remove_intent, put_committed, put_committed_batch, remove_committed_version, put_intents_batch,
  commit_intents_batch, remove_intents_batch, collapse_tombstone,
}
use nexir_mvcc_core.Backend.Conformance.Reads.{ask-in_memory}
use nexir_mvcc_core.Backend.Conformance.Writes.{
  view-store_intent, store_intent-IsValid, view-store_version, store_version-IsValid,
  view-drop_intent, drop_intent-IsValid, view-drop_version, drop_version-IsValid,
  view-maybe_remove_from_keys, maybe_remove_from_keys-IsValid,
}

-- a valid state, and what it shows
pub record Shows (s : InMemoryBackend) (w : View) : Type 0 where
  pub shown : view s ≡ w
  pub valid : IsValid s

-- a change of the state, against the reference's
module _ (body : InMemoryBackend → InMemoryBackend) (spec : View → View)
    (agrees : (s : InMemoryBackend) → IsValid s → view (body s) ≡ spec (view s))
    (keeps : (s : InMemoryBackend) → IsValid s → IsValid (body s)) (s : InMemoryBackend) (w : View)
    (h : Shows s w) where
  Shows-step : Shows (body s) (spec w)
  Shows-step = record { shown = agrees s h.valid ∙ ap spec h.shown; valid = keeps s h.valid }

-- a loop of such changes
module _ {A : Type 0} (body : A → InMemoryBackend → InMemoryBackend) (spec : A → View → View)
    (P : A → Type 0)
    (agrees : (s : InMemoryBackend) → IsValid s → (a : A) → P a → view (body a s) ≡ spec a (view s))
    (keeps : (s : InMemoryBackend) → IsValid s → (a : A) → P a → IsValid (body a s)) where
  Shows-for_each :
      (xs : List A)
      → All P xs
      → (s : InMemoryBackend) (w : View) → Shows s w
      → Shows (for_each body xs s) (for_each spec xs w)
  Shows-for_each [] a s w h = h
  Shows-for_each (x ∷ xs) (p, a) s w h =
      Shows-for_each xs a (body x s) (spec x w)
        (Shows-step (body x) (spec x) (λ r f. agrees r f x p) (λ r f. keeps r f x p) s w h)

All-unit : {A : Type 0} (xs : List A) → All (λ (x : A). Unit {0}) xs
All-unit [] = tt
All-unit (x ∷ xs) = (tt, All-unit xs)

store_intents-Shows :
    (is : List Intent) (s : InMemoryBackend) (w : View)
    → Shows s w
    → Shows (for_each InMemory.store_intent is s) (for_each Reference.store_intent is w)
store_intents-Shows is =
    Shows-for_each InMemory.store_intent Reference.store_intent (λ _. Unit)
      (λ s f i _. view-store_intent s i) (λ s f i _. store_intent-IsValid s i f) is (All-unit is)

store_versions-Shows :
    (vs : List CommittedVersion)
    → All (λ v. v.commit_ts ≤ max_ts) vs
    → (s : InMemoryBackend) (w : View) → Shows s w
    → Shows (for_each InMemory.store_version vs s) (for_each Reference.store_version vs w)
store_versions-Shows vs r =
    Shows-for_each InMemory.store_version Reference.store_version (λ v. v.commit_ts ≤ max_ts)
      (λ s f v _. view-store_version s f v) (λ s f v q. store_version-IsValid s f v q) vs r

drop_intents-Shows :
    (names : List IntentName) (s : InMemoryBackend) (w : View)
    → Shows s w
    → Shows (for_each InMemory.drop_intent names s) (for_each Reference.drop_intent names w)
drop_intents-Shows names =
    Shows-for_each InMemory.drop_intent Reference.drop_intent (λ _. Unit)
      (λ s f n _. view-drop_intent s f n) (λ s f n _. drop_intent-IsValid s f n) names
      (All-unit names)

drop_versions-Shows :
    (k : Key) (older : List Timestamp) (s : InMemoryBackend) (w : View)
    → Shows s w
    → Shows
        (for_each (InMemory.drop_version k) older s)
        (for_each (Reference.drop_version k) older w)
drop_versions-Shows k older =
    Shows-for_each (InMemory.drop_version k) (Reference.drop_version k) (λ _. Unit)
      (λ s f t _. view-drop_version s f k t) (λ s f t _. drop_version-IsValid s f k t) older
      (All-unit older)

drop_version-Shows :
    (k : Key) (t : Timestamp) (s : InMemoryBackend) (w : View)
    → Shows s w
    → Shows (InMemory.drop_version k t s) (Reference.drop_version k t w)
drop_version-Shows k t =
    Shows-step (InMemory.drop_version k t) (Reference.drop_version k t)
      (λ s f. view-drop_version s f k t) (λ s f. drop_version-IsValid s f k t)

release_key-Shows :
    (k : Key) (s : InMemoryBackend) (w : View)
    → Shows s w
    → Shows (maybe_remove_from_keys k s) (release_key k w)
release_key-Shows k =
    Shows-step (maybe_remove_from_keys k) (release_key k) (λ s f. view-maybe_remove_from_keys s f k)
      (λ s f. maybe_remove_from_keys-IsValid s f k)

-- `remove_intent` is `drop_intent` with an answer
remove_intent-drop_intent :
    (k : Key) (t : TxnId) (ts : Timestamp) (s : InMemoryBackend)
    → InMemory.remove_intent k t ts s
      ≡ (ok (is_named t ts (BTreeMap.get k s.intents)), InMemory.drop_intent (k, t, ts) s)
unfolding InMemory.remove_intent InMemory.drop_intent
remove_intent-drop_intent k t ts s = elim (Bool-cases (is_named t ts (BTreeMap.get k s.intents))) [
  | inl e ↦ rw e
  | inr e ↦ rw e
]

drop_intent-Shows :
    (n : IntentName) (s : InMemoryBackend) (w : View)
    → Shows s w
    → Shows (InMemory.drop_intent n s) (Reference.drop_intent n w)
drop_intent-Shows n =
    Shows-step (InMemory.drop_intent n) (Reference.drop_intent n) (λ s f. view-drop_intent s f n)
      (λ s f. drop_intent-IsValid s f n)

-- equal answers, from states that show the same to states that show the same
pub record Agrees {A : Type 0} (x : A × InMemoryBackend) (y : A × View) : Type 0 where
  pub answer : x.0 ≡ y.0
  pub after : Shows x.1 y.1

pub perform-Agrees :
    (w : Write)
    → Representable w
    → (s : InMemoryBackend) (v : View) → Shows s v
    → Agrees (perform in_memory w s) (perform reference w v)
unfolding InMemory.put_intent InMemory.put_committed InMemory.put_committed_batch
    InMemory.remove_committed_version InMemory.put_intents_batch InMemory.commit_intents_batch
    InMemory.remove_intents_batch InMemory.collapse_tombstone
perform-Agrees (put_intent i) r s v h = record {
  answer = refl;
  after = store_intents-Shows (i ∷ []) s v h;
}
perform-Agrees (remove_intent k t ts) r s v h = rw (remove_intent-drop_intent k t ts s) (record {
  answer = ap (λ (w : View). ok (is_named t ts (w.intent_of k))) h.shown;
  after = drop_intent-Shows (k, t, ts) s v h;
})
perform-Agrees (put_committed c) r s v h = record {
  answer = refl;
  after = store_versions-Shows (c ∷ []) (r, tt) s v h;
}
perform-Agrees (put_committed_batch vs) r s v h = record {
  answer = refl;
  after = store_versions-Shows vs r s v h;
}
perform-Agrees (remove_committed_version k t) r s v h = record {
  answer = refl;
  after =
      release_key-Shows k (InMemory.drop_version k t s) (Reference.drop_version k t v)
        (drop_version-Shows k t s v h);
}
perform-Agrees (put_intents_batch is) r s v h = record {
  answer = refl;
  after = store_intents-Shows is s v h;
}
perform-Agrees (commit_intents_batch vs names) r s v h = record {
  answer = refl;
  after =
      drop_intents-Shows names (for_each InMemory.store_version vs s)
        (for_each Reference.store_version vs v) (store_versions-Shows vs r s v h);
}
perform-Agrees (remove_intents_batch names) r s v h = record {
  answer = refl;
  after = drop_intents-Shows names s v h;
}
perform-Agrees (collapse_tombstone k t older) r s v h = record {
  answer = refl;
  after =
      let first = drop_version-Shows k t s v h in
      release_key-Shows k _ _ (
        drop_versions-Shows k older (InMemory.drop_version k t s) (Reference.drop_version k t v)
          first);
}

perform_all-Agrees :
    (ws : List Write)
    → All Representable ws
    → (s : InMemoryBackend) (v : View) → Shows s v
    → Agrees (perform_all in_memory ws s) (perform_all reference ws v)
unfolding perform_all
perform_all-Agrees [] r s v h = record { answer = refl; after = h }
perform_all-Agrees (w ∷ ws) (r, rs) s v h =
    let first = perform-Agrees w r s v h in
    let others = perform_all-Agrees ws rs _ _ first.after in
    record { answer = cc (first.answer, others.answer); after = others.after }

pub new-Shows : Shows new empty
unfolding BTreeMap.get history
new-Shows = record { shown = refl; valid = record { sorted = tt; in_range = tt } }

-- After any sequence of writes whose versions have timestamps of the type `Timestamp`, made on a
-- new `InMemoryBackend` and on an empty reference: both have answered each write alike, and every
-- read of the trait other than the prefix scan is answered alike.
pub in_memory-refines :
    (ws : List Write)
    → All Representable ws
    → (q : Query)
    → ((perform_all in_memory ws new).0 ≡ (perform_all reference ws empty).0)
      × (ask in_memory q (perform_all in_memory ws new).1
          ≡ ask reference q (perform_all reference ws empty).1)
in_memory-refines ws r q =
    let all = perform_all-Agrees ws r new empty new-Shows in
    (
      all.answer,
      ask-in_memory (perform_all in_memory ws new).1 all.after.valid q
          ∙ ap (ask reference q) all.after.shown,
    )
