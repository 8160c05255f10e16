-- ===== src/Engine/IncrementalGc/Termination.antt =====
-- The loop of `gc` in src/engine.rs ends, over the reference backend, and leaves nothing to collect.
use nexir_mvcc_core.Prelude.{
  ℕ, zero, suc, ◌+◌, ◌≤◌, ◌<◌, true, false, Option, none, some, List, [], ◌∷◌, ◌++◌, ◌≡◌, refl, sym,
  subst, ap, ◌∙◌, inl, inr, arith, length, filter_by, Bool-cases,
}
use nexir_mvcc_core.Ord.{
  bytes_ord, bytes_eq, bytes_eq_iff, bytes_cmp-flip, bytes_cmp-eq, bytes_cmp-lt,
}
use nexir_mvcc_core.BTreeMap.{at_least}
use nexir_mvcc_core.Types.{Timestamp, Key}
use nexir_mvcc_core.Exec.{ok, pure, ◌>>=◌}
use nexir_mvcc_core.Exec.Yields.{Yields}
use nexir_mvcc_core.Backend.Reference.{View, reference}
use nexir_mvcc_core.Backend.Reference.WellFormed.{IsWellFormed, in_use}
use nexir_mvcc_core.Backend.Reference.Effects.{Distinct}
use nexir_mvcc_core.Engine.Batch.{contains}
use nexir_mvcc_core.Engine.IncrementalGc.{
  GcOptions, IncrementalGcCursor, IncrementalGcResult, next_key_of, gc_incremental,
}
use nexir_mvcc_core.Engine.FullGc.{gc_loop}
use nexir_mvcc_core.Engine.IncrementalGc.Steps.{
  Steps, Steps-append, Steps-IsWellFormed, intent-Steps,
}
use nexir_mvcc_core.Engine.IncrementalGc.Trims.{IsClean}
use nexir_mvcc_core.Engine.IncrementalGc.Totals.{total}
use nexir_mvcc_core.Engine.IncrementalGc.Cursor.{
  IsRising, is_ahead, ahead, ahead-IsRising, contains-ahead, All-before,
}
use nexir_mvcc_core.Engine.IncrementalGc.Passes.{IsBudget, Pass, done, next, gc_incremental-yields}
use nexir_mvcc_core.Engine.IncrementalGc.Progress.{
  Covers, Covers-IsWithin, Behind, All-IsClean, next-Behind, key-ahead, contains_self, empty-Steps,
  unused-nil, All-at,
}

-- the keys that the cursor has not passed yet
abbrev pub count_ahead : Option Key → List Key → ℕ
count_ahead c all = length (filter_by (is_ahead c) all)

at_least_trans : (a b c : Key) → at_least a b ≡ true → at_least b c ≡ true → at_least a c ≡ true
at_least_trans a b c p q = ground (
  arith,
  p,
  q,
  bytes_cmp-eq b a,
  bytes_cmp-eq c b,
  bytes_cmp-flip b a,
  bytes_cmp-flip c b,
  bytes_cmp-flip c a,
  bytes_cmp-lt a b c,
)

is_ahead_trans :
    (c : Option Key) (key k : Key)
    → is_ahead c key ≡ true
    → at_least key k ≡ true
    → is_ahead c k ≡ true
is_ahead_trans none key k p q = refl
is_ahead_trans (some c) key k p q = at_least_trans c key k p q

module _ (c : Option Key) (key : Key) (p : is_ahead c key ≡ true) where
  count_ahead-le : (all : List Key) → count_ahead (some key) all ≤ count_ahead c all
  count_ahead-le [] = omega arith
  count_ahead-le (k ∷ all) = ground (arith, count_ahead-le all, is_ahead_trans c key k p)

  -- a key between the cursors makes the difference
  count_ahead-lt :
      (all : List Key) (x : Key)
      → contains all x ≡ true
      → is_ahead c x ≡ true
      → at_least key x ≡ false
      → count_ahead (some key) all < count_ahead c all
  unfolding contains
  count_ahead-lt [] x q a b = cc
  count_ahead-lt (k ∷ all) x q a b = elim (Bool-cases (bytes_eq k x)) [
    | inl e ↦
        let same : k ≡ x = (bytes_eq_iff k x).0 e in
        let here : is_ahead c k ≡ true = subst (λ j. is_ahead c j ≡ true) (sym same) a in
        let past : at_least key k ≡ false = subst (λ j. at_least key j ≡ false) (sym same) b in
        rw (here, past) (omega (arith, count_ahead-le all))
    | inr e ↦
        ground (arith, count_ahead-lt all x (ground (arith, q, e)) a b, is_ahead_trans c key k p)
  ]

Covers-Steps :
    (sp : Timestamp) (all : List Key) (v w : View)
    → Steps sp v w
    → IsWellFormed v
    → Covers all v
    → Covers all w
Covers-Steps sp all v w h f g k q = elim (Bool-cases (in_use v k)) [
  | inl u ↦ g k u
  | inr u ↦
      let bare : v.history_of k ≡ [] = unused-nil (v.history_of k) (ground (arith, u)) in
      ground (arith, q, u, intent-Steps sp k v w h, empty-Steps sp k v w h f bare)
]

-- one turn of the loop
module _ (sp : Timestamp) (options : GcOptions) (fuel : ℕ) (cursor : Option IncrementalGcCursor)
    (n : ℕ) (w w' : View) (res : IncrementalGcResult)
    (h : gc_incremental reference sp cursor options w ≡ (ok res, w')) where
  pub gc_loop-done :
      res.done ≡ true
      → gc_loop reference (suc fuel) sp options cursor n w
        ≡ (ok (some (n + res.versions_removed)), w')
  unfolding gc_loop pure ◌>>=◌
  gc_loop-done x = rw (h, x)

  pub gc_loop-next :
      res.done ≡ false
      → gc_loop reference (suc fuel) sp options cursor n w
        ≡ gc_loop reference fuel sp options (some res.cursor) (n + res.versions_removed) w'
  unfolding gc_loop ◌>>=◌
  gc_loop-next x = rw (h, x)

-- what the loop of `gc` ends with
pub record Finished (sp : Timestamp) (options : GcOptions) (all : List Key) (w : View)
    (total_before : ℕ) (o : Option ℕ) (w' : View) : Type 0 where
  pub removed : ℕ
  pub found : o ≡ some removed
  pub steps : Steps sp w w'
  pub clean : (k : Key) → IsClean sp options.collapse_final_tombstones w' k
  pub accounted : total all w' + removed ≡ total all w + total_before

module _ (sp : Timestamp) (options : GcOptions) (g : IsBudget options) (all : List Key)
    (d : Distinct all) where
  -- a call that is not done makes the measure of the loop smaller
  module _ (start : Option Key) (w w' : View) (res : IncrementalGcResult) (f : IsWellFormed w)
      (v : Covers all w) (p : Pass sp options start w res w')
      (b : Behind sp options.collapse_final_tombstones start w) (ys : List Key) (key : Key) where
    next-measure :
        (xs : List Key)
        → ahead start w.keys ≡ xs ++ key ∷ ys
        → 1 ≤ res.versions_removed + length xs
        → count_ahead (some key) all + total all w' < count_ahead start all + total all w
    next-measure [] e l =
        let front = key-ahead sp options start w w' res f p b [] ys key e in
        omega (
          arith,
          count_ahead-le start key front all,
          p.accounted all d (Covers-IsWithin all w start f v),
        )
    next-measure (x ∷ xs) e l =
        let front = key-ahead sp options start w w' res f p b (x ∷ xs) ys key e in
        let member : contains (ahead start w.keys) x ≡ true =
          ap (λ l. contains l x) e ∙ contains_self x (xs ++ key ∷ ys) in
        let within = Covers-IsWithin all w start f v in
        let visited : is_ahead start x ≡ true =
          ground (arith, contains-ahead start x w.keys, member) in
        let past =
          All-before (x ∷ xs) ys key
            (subst IsRising e (ahead-IsRising start w.keys f.keys_sorted)) in
        omega (
          arith,
          count_ahead-lt start key front all x
              (All-at (λ k. contains all k ≡ true) (ahead start w.keys) x within member) visited
              past.0,
          p.accounted all d within,
        )

  pub gc_loop-yields :
      (fuel : ℕ) (cursor : Option IncrementalGcCursor) (n : ℕ) (w : View)
      → IsWellFormed w
      → Covers all w
      → Behind sp options.collapse_final_tombstones (next_key_of cursor) w
      → count_ahead (next_key_of cursor) all + total all w < fuel
      → Yields
          (gc_loop reference fuel sp options cursor n)
          w
          (λ o w'. Finished sp options all w n o w')
  gc_loop-yields zero cursor n w f v b m = absurd (omega arith)
  gc_loop-yields (suc fuel) cursor n w f v b m =
      let y = gc_incremental-yields sp options cursor w g f in
      let p = y.holds in
      let r = Steps-IsWellFormed sp w y.after p.steps f in
      elim p.onward [
        | done x a ↦ record {
          value = some (n + y.value.versions_removed);
          after = y.after;
          result = gc_loop-done sp options fuel cursor n w y.after y.value y.result x;
          holds = record {
            removed = n + y.value.versions_removed;
            found = refl;
            steps = p.steps;
            clean = All-IsClean sp options (next_key_of cursor) w y.after y.value f p b a;
            accounted =
                omega (arith, p.accounted all d (Covers-IsWithin all w (next_key_of cursor) f v));
          };
        }
        | next xs ys key x q e a l ↦
            let smaller =
              next-measure (next_key_of cursor) w y.after y.value f v p b ys key xs e l in
            let behind =
              next-Behind sp options (next_key_of cursor) w y.after y.value f p b xs ys key e a in
            let rest =
              gc_loop-yields fuel (some y.value.cursor) (n + y.value.versions_removed) y.after r
                (Covers-Steps sp all w y.after p.steps f v) (rw q behind)
                (rw q (omega (arith, smaller, m))) in
            record {
              value = rest.value;
              after = rest.after;
              result =
                  gc_loop-next sp options fuel cursor n w y.after y.value y.result x ∙ rest.result;
              holds = record {
                removed = rest.holds.removed;
                found = rest.holds.found;
                steps = Steps-append sp w y.after rest.after p.steps rest.holds.steps;
                clean = rest.holds.clean;
                accounted = omega (
                  arith,
                  p.accounted all d (Covers-IsWithin all w (next_key_of cursor) f v),
                  rest.holds.accounted,
                );
              };
            }
      ]
