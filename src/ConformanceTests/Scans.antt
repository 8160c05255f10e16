-- ===== src/ConformanceTests/Scans.antt =====
-- src/conformance.rs: the tests of `test_backend_conformance` on the key set and its scans.
use nexir_mvcc_core.Prelude.{Option, none, some, [], ◌∷◌}
use nexir_mvcc_core.Types.{Key, Value, put}
use nexir_mvcc_core.Exec.{Exec, ◌>>=◌, ◌>>◌}
use nexir_mvcc_core.Backend.{Backend}
use nexir_mvcc_core.ConformanceTests.{
  Panic, keys_eq, intent, version, assert, get, call, get_is_err,
}

abbrev pub a : Key
a = b'a' ∷ []

abbrev pub b_key : Key
b_key = b'b' ∷ []

abbrev pub c : Key
c = b'c' ∷ []

abbrev pub ab : Key
ab = b'a' ∷ b'b' ∷ []

abbrev pub a1 : Key
a1 = b'a' ∷ b'1' ∷ []

abbrev pub a2 : Key
a2 = b'a' ∷ b'2' ∷ []

abbrev pub a3 : Key
a3 = b'a' ∷ b'3' ∷ []

abbrev pub b1 : Key
b1 = b'b' ∷ b'1' ∷ []

abbrev pub v : Option Value
v = some (b'v' ∷ [])

abbrev pub v1 : Option Value
v1 = some (b'v' ∷ b'1' ∷ [])

abbrev pub v2 : Option Value
v2 = some (b'v' ∷ b'2' ∷ [])

abbrev pub i : Value
i = b'i' ∷ []

module _ {S : Type 0} (b : Backend S) where
  unfoldable pub test_all_keys_collation : Exec S Panic (Unit {0})
  test_all_keys_collation = do
    call (b.put_committed (version a 10 v))
    call (b.put_committed (version b_key 10 v))
    call (b.put_committed (version b_key 20 v))
    call (b.put_intent (intent c (put i)))
    keys ← get b.all_keys
    assert (keys_eq keys (a ∷ b_key ∷ c ∷ []))

  unfoldable pub test_keys_from : Exec S Panic (Unit {0})
  test_keys_from = do
    call (b.put_committed (version a 10 v))
    call (b.put_intent (intent b_key (put i)))
    call (b.put_committed (version c 10 v))
    call (b.put_committed (version c 20 v))
    all ← get (b.keys_from none 10)
    assert (keys_eq all (a ∷ b_key ∷ c ∷ []))
    two ← get (b.keys_from none 2)
    assert (keys_eq two (a ∷ b_key ∷ []))
    from_b ← get (b.keys_from (some b_key) 10)
    assert (keys_eq from_b (b_key ∷ c ∷ []))
    one ← get (b.keys_from (some b_key) 1)
    assert (keys_eq one (b_key ∷ []))
    from_absent ← get (b.keys_from (some ab) 10)
    assert (keys_eq from_absent (b_key ∷ c ∷ []))

  unfoldable pub test_keys_from_prefix : Exec S Panic (Unit {0})
  test_keys_from_prefix = do
    call (b.put_committed (version a1 10 v1))
    call (b.put_committed (version a1 20 v2))
    call (b.put_committed (version a2 10 v1))
    call (b.put_intent (intent a3 (put i)))
    call (b.put_committed (version b1 10 v1))
    all ← get (b.keys_from_prefix a none 10)
    assert (keys_eq all (a1 ∷ a2 ∷ []))
    one ← get (b.keys_from_prefix a none 1)
    assert (keys_eq one (a1 ∷ []))
    from_a2 ← get (b.keys_from_prefix a (some a2) 10)
    assert (keys_eq from_a2 (a2 ∷ []))
    no_prefix ← get_is_err (b.keys_from_prefix [] none 10)
    assert no_prefix
    wrong_start ← get_is_err (b.keys_from_prefix a (some b1) 10)
    assert wrong_start
