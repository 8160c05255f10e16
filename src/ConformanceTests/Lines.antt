-- ===== src/ConformanceTests/Lines.antt =====
-- The lines of the tests of src/conformance.rs over two backends in step: a call, an `unwrap`, an
-- assertion, each with the lines after it.
use nexir_mvcc_core.Prelude.{Bool, true, Option, String, ◌≡◌, arith, leb}
use nexir_mvcc_core.Types.{Timestamp, max_ts}
use nexir_mvcc_core.Exec.{Result, Exec, ◌>>=◌}
use nexir_mvcc_core.Exec.Matches.{
  Matches, Answers, Matches-bind, Matches-query, Matches-mutate, Matches-ok_or, Matches-reject_if,
}
use nexir_mvcc_core.Backend.Conformance.Simulation.{Timely}
use nexir_mvcc_core.ConformanceTests.{Panic, get, call, unwrap, assert}

-- a literal timestamp is of the type `Timestamp`
pub timely : (n : Timestamp) → leb n max_ts ≡ true → Timely n
timely n h = ground (arith, h)

-- one line of a test, and the lines after it
module _ {S T : Type 0} (R : S → T → Type 0) where
  module _ {A B : Type 0} where
    pub then_get :
        (f : S → Result String A) (g : T → Result String A) (k : A → Exec S Panic B)
        (l : A → Exec T Panic B)
        → Answers R f g
        → ((a : A) → Matches R (k a) (l a))
        → Matches R (get f >>= k) (get g >>= l)
    then_get f g k l h = Matches-bind R _ _ _ _ (Matches-query R _ f g h)

    pub then_call :
        (m : Exec S String A) (n : Exec T String A) (k : A → Exec S Panic B)
        (l : A → Exec T Panic B)
        → Matches R m n
        → ((a : A) → Matches R (k a) (l a))
        → Matches R (call m >>= k) (call n >>= l)
    then_call m n k l h = Matches-bind R _ _ _ _ (Matches-mutate R _ m n h)

    pub then_unwrap :
        (o : Option A) (k : A → Exec S Panic B) (l : A → Exec T Panic B)
        → ((a : A) → Matches R (k a) (l a))
        → Matches R (unwrap o >>= k) (unwrap o >>= l)
    then_unwrap o k l = Matches-bind R _ _ _ _ (Matches-ok_or R _ o)

  pub then_assert :
      {B : Type 0} (x : Bool) (k : Unit {0} → Exec S Panic B) (l : Unit {0} → Exec T Panic B)
      → ((a : Unit {0}) → Matches R (k a) (l a))
      → Matches R (assert x >>= k) (assert x >>= l)
  then_assert x k l = Matches-bind R _ _ _ _ (Matches-reject_if R _ _)

  pub last_assert : (x : Bool) → Matches R (assert x) (assert x)
  last_assert x = Matches-reject_if R _ _

pub ruleset suite_rules = (then_get, then_call, then_unwrap, then_assert, last_assert, timely)
