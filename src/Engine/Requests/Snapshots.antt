-- ===== src/Engine/Requests/Snapshots.antt =====
-- Sessions on the engine of src/engine.rs over the reference backend: the invariant, and what a
-- snapshot read sees of transactions, batches and collections together.
use nexir_mvcc_core.Prelude.{List, [], ◌∷◌, All, ◌≡◌, ◌≤◌, ◌<◌, refl, ap, ◌∙◌, subst}
use nexir_mvcc_core.Types.{Timestamp, Key}
use nexir_mvcc_core.Exec.{Result, ok, err}
use nexir_mvcc_core.Backend.Reference.{View, reference}
use nexir_mvcc_core.Engine.Read.{read}
use nexir_mvcc_core.Engine.Calls.{Call, run, outcome}
use nexir_mvcc_core.Engine.Calls.Consistency.{IsConsistent, run-IsConsistent}
use nexir_mvcc_core.Engine.Calls.Stability.{CommitsAfter, read-run_stable}
use nexir_mvcc_core.Engine.IncrementalGc.Passes.{IsBudget}
use nexir_mvcc_core.Engine.IncrementalGc.Steps.{Steps, Steps-IsConsistent, read-Steps}
use nexir_mvcc_core.Engine.Requests.{Request, handle, serve}
use nexir_mvcc_core.Engine.Requests.Collections.{gc-Steps, gc_incremental-Steps}

-- collections have budgets that are at least one and below the largest `usize`
abbrev pub Budgeted : Request → Type 0
Budgeted (Request.gc_incremental sp cursor o) = IsBudget o
Budgeted (Request.gc fuel sp o) = IsBudget o
Budgeted _ = Unit

-- the request commits after `r`, or collects at a safe point up to `r`, or does neither
abbrev pub Spares : Timestamp → Request → Type 0
Spares r (Request.commit n k start ts) = r < ts
Spares r (Request.commit_batch n start ts ks) = r < ts
Spares r (Request.apply_direct_batch ts ws) = r < ts
Spares r (Request.apply_guarded_batch ts gs ws) = r < ts
Spares r (Request.gc_incremental sp cursor o) = sp ≤ r
Spares r (Request.gc fuel sp o) = sp ≤ r
Spares r _ = Unit

after-outcome : {S E A : Type 0} (y : Result E A × S) → (outcome y).1 ≡ y.1
after-outcome (ok a, s) = refl
after-outcome (err e, s) = refl

-- how a request changes the state
data Effect (w : View) (q : Request) : View → Type 0 where
  unchanged : Effect w q w
  called :
      (c : Call)
      → ((r : Timestamp) → Spares r q → CommitsAfter r c)
      → Effect w q (run reference c w).1
  collected :
      (sp : Timestamp)
      → ((r : Timestamp) → Spares r q → sp ≤ r)
      → {w' : View} → Steps sp w w'
      → Effect w q w'

-- the effect of a call, said of the method itself
called_as :
    {E A : Type 0} (w : View) (q : Request) (y : Result E A × View) (c : Call)
    → run reference c w ≡ outcome y
    → ((r : Timestamp) → Spares r q → CommitsAfter r c)
    → Effect w q y.1
called_as w q y c e l = subst (Effect w q) (ap (λ z. z.1) e ∙ after-outcome y) (called c l)

handle-Effect :
    (q : Request) → Budgeted q → (w : View) → IsConsistent w → Effect w q (handle reference q w).1
unfolding run
handle-Effect (Request.read k ts) b w f = unchanged
handle-Effect (Request.read_with_version k ts) b w f = unchanged
handle-Effect (Request.read_own_write k n start ts) b w f = unchanged
handle-Effect (Request.prewrite n start k m) b w f =
    called_as w _ _ (Call.prewrite n start k m) refl (λ r l. l)
handle-Effect (Request.commit n k start ts) b w f =
    called_as w _ _ (Call.commit n k start ts) refl (λ r l. l)
handle-Effect (Request.abort n k start) b w f =
    called_as w _ _ (Call.abort n k start) refl (λ r l. l)
handle-Effect (Request.prewrite_batch n start ws) b w f =
    called_as w _ _ (Call.prewrite_batch n start ws) refl (λ r l. l)
handle-Effect (Request.commit_batch n start ts ks) b w f =
    called_as w _ _ (Call.commit_batch n start ts ks) refl (λ r l. l)
handle-Effect (Request.abort_batch n start ks) b w f =
    called_as w _ _ (Call.abort_batch n start ks) refl (λ r l. l)
handle-Effect (Request.apply_direct_batch ts ws) b w f =
    called_as w _ _ (Call.apply_direct_batch ts ws) refl (λ r l. l)
handle-Effect (Request.apply_guarded_batch ts gs ws) b w f =
    called_as w _ _ (Call.apply_guarded_batch ts gs ws) refl (λ r l. l)
handle-Effect (Request.plan_key_gc k ts o) b w f = unchanged
handle-Effect (Request.gc_incremental sp cursor o) b w f =
    collected sp (λ r l. l) (gc_incremental-Steps sp o b cursor w f.in_order)
handle-Effect (Request.gc fuel sp o) b w f =
    collected sp (λ r l. l) (gc-Steps sp o b fuel w f.in_order)

module _ (w : View) (f : IsConsistent w) (q : Request) where
  Effect-IsConsistent : (w' : View) → Effect w q w' → IsConsistent w'
  Effect-IsConsistent _ unchanged = f
  Effect-IsConsistent _ (called c l) = run-IsConsistent w f c
  Effect-IsConsistent w' (collected sp l s) = Steps-IsConsistent sp w w' s f

  read-Effect :
      (k : Key) (r : Timestamp)
      → Spares r q
      → (w' : View) → Effect w q w'
      → read reference k r w' ≡ read reference k r w
  read-Effect k r a _ unchanged = refl
  read-Effect k r a _ (called c l) = read-run_stable w f k r c (l r a)
  read-Effect k r a w' (collected sp l s) = read-Steps sp k r w w' s f.in_order (l r a)

-- Every session of requests, collections with usable budgets included, keeps the invariant.
pub serve-IsConsistent :
    (qs : List Request)
    → All Budgeted qs
    → (w : View) → IsConsistent w
    → IsConsistent (serve reference qs w)
unfolding serve
serve-IsConsistent [] b w f = f
serve-IsConsistent (q ∷ qs) (b, bs) w f =
    serve-IsConsistent qs bs _ (Effect-IsConsistent w f q _ (handle-Effect q b w f))

-- A session that spares `r` changes no read at `r`.
pub read-serve :
    (k : Key) (r : Timestamp) (qs : List Request)
    → All Budgeted qs
    → All (Spares r) qs
    → (w : View) → IsConsistent w
    → read reference k r (serve reference qs w) ≡ read reference k r w
unfolding serve
read-serve k r [] b a w f = refl
read-serve k r (q ∷ qs) (b, bs) (a, others) w f =
    let e = handle-Effect q b w f in
    read-serve k r qs bs others _ (Effect-IsConsistent w f q _ e) ∙ read-Effect w f q k r a _ e
