-- ===== src/Codec/Layout.antt =====
-- The bytes of a record, and that the encoders write them.
use mathlib.Core.List.{append_assoc, append-nil}
use nexir_mvcc_core.Prelude.{
  ℕ, ◌^◌, Bool, true, false, not, ◌&&◌, Option, none, some, List, [], ◌∷◌, ◌++◌, ◌≡◌, refl, subst,
  arith, length, ltb, if◌then◌else◌,
}
use nexir_mvcc_core.Types.{Timestamp, Value, Mutation, put, delete, Intent, CommittedVersion}
use nexir_mvcc_core.Error.{CodecError}
use nexir_mvcc_core.Exec.{ok, err, Exec, reject_if, ◌>>=◌}
use nexir_mvcc_core.Codec.{to_be_bytes, encode_u32, encode_u64, encode_u128, extend, encode_bytes}
use nexir_mvcc_core.Codec.Records.{
  finish, encode_value, encode_committed, encode_minimum, encode_mutation, encode_intent,
}

-- a byte string behind its length
abbrev pub bytes_layout : List ℕ → List ℕ
bytes_layout bytes = to_be_bytes 4 (length bytes) ++ bytes

-- what stands behind the flag of an optional value
abbrev pub value_body : Option Value → List ℕ
value_body none = []
value_body (some v) = bytes_layout v

abbrev pub minimum_body : Option Timestamp → List ℕ
minimum_body none = []
minimum_body (some ts) = to_be_bytes 16 ts

abbrev pub mutation_body : Mutation → List ℕ
mutation_body (put v) = bytes_layout v
mutation_body delete = []

abbrev pub flag_of {ℓ} : {A : Type ℓ} → Option A → ℕ
flag_of none = 0
flag_of (some a) = 1

abbrev pub mutation_type : Mutation → ℕ
mutation_type (put v) = 1
mutation_type delete = 2

abbrev pub value_layout : Option Value → List ℕ
value_layout value = flag_of value ∷ value_body value

abbrev pub minimum_layout : Option Timestamp → List ℕ
minimum_layout min = flag_of min ∷ minimum_body min

abbrev pub mutation_layout : Mutation → List ℕ
mutation_layout mutation = mutation_type mutation ∷ mutation_body mutation

-- version 2, type 1, the key, the timestamp, the value
abbrev pub committed_layout : CommittedVersion → List ℕ
committed_layout v =
    2 ∷ 1 ∷ (bytes_layout v.key ++ (to_be_bytes 16 v.commit_ts ++ value_layout v.value))

-- version 2, type 2, the key, the transaction, its start, the minimum, the mutation
abbrev pub intent_layout : Intent → List ℕ
intent_layout i =
    2
    ∷ 2
    ∷ (bytes_layout i.key
        ++ (to_be_bytes 8 i.txn_id
            ++ (to_be_bytes 16 i.start_ts
                ++ (minimum_layout i.min_commit_ts ++ mutation_layout i.mutation))))

-- a length that four bytes hold
abbrev pub is_short : List ℕ → Bool
is_short bytes = ltb (length bytes) (2 ^ 32)

abbrev pub is_short_value : Option Value → Bool
is_short_value none = true
is_short_value (some v) = is_short v

abbrev pub is_short_mutation : Mutation → Bool
is_short_mutation (put v) = is_short v
is_short_mutation delete = true

abbrev pub too_long : CodecError
too_long = CodecError.encode "byte slice too long"

-- an encoder that appends `bytes` when `fits` holds, and refuses otherwise
Encodes : Exec (List ℕ) CodecError (Unit {0}) → Bool → List ℕ → Type 0
Encodes m fits bytes =
    (buf : List ℕ)
    → ((fits ≡ true) → m buf ≡ (ok tt, buf ++ bytes)) × ((fits ≡ false) → (m buf).0 ≡ err too_long)

stays :
    (m n : Exec (List ℕ) CodecError (Unit {0})) (buf : List ℕ)
    → (m buf).0 ≡ err too_long
    → ((m >>= λ _. n) buf).0 ≡ err too_long
unfolding ◌>>=◌
stays m n buf h = ground (arith, h)

Encodes-bind :
    (m n : Exec (List ℕ) CodecError (Unit {0})) (c d : Bool) (xs ys : List ℕ)
    → Encodes m c xs
    → Encodes n d ys
    → Encodes (m >>= λ _. n) (c && d) (xs ++ ys)
unfolding Encodes ◌>>=◌
Encodes-bind m n true d xs ys p q buf = (
  (λ h. rw ((p buf).0 refl, (q (buf ++ xs)).0 h, append_assoc buf xs ys)),
  (λ h. rw ((p buf).0 refl) ((q (buf ++ xs)).1 h)),
)
Encodes-bind m n false d xs ys p q buf = ((λ h. cc), (λ h. stays m n buf ((p buf).1 refl)))

Encodes-extend : (bytes : List ℕ) → Encodes (extend bytes) true bytes
unfolding Encodes extend
Encodes-extend bytes buf = ((λ h. refl), (λ h. cc))

and_true : (c : Bool) → (c && true) ≡ c
and_true true = refl
and_true false = refl

Encodes-reject : (c : Bool) → Encodes (reject_if (not c) too_long) c []
unfolding Encodes reject_if
Encodes-reject true buf = ((λ h. rw (append-nil)), (λ h. cc))
Encodes-reject false buf = ((λ h. cc), (λ h. refl))

Encodes-bytes :
    (bytes : List ℕ) → Encodes (encode_bytes bytes) (is_short bytes) (bytes_layout bytes)
unfolding encode_bytes encode_u32
Encodes-bytes bytes =
    subst (λ c. Encodes (encode_bytes bytes) c (bytes_layout bytes)) (and_true (is_short bytes))
      (Encodes-bind _ _ (is_short bytes) true [] (bytes_layout bytes)
        (Encodes-reject (is_short bytes))
        (Encodes-bind _ _ true true (to_be_bytes 4 (length bytes)) bytes
          (Encodes-extend (to_be_bytes 4 (length bytes))) (Encodes-extend bytes)))

Encodes-value :
    (value : Option Value)
    → Encodes (encode_value value) (is_short_value value) (value_layout value)
unfolding encode_value
Encodes-value none = Encodes-extend (0 ∷ [])
Encodes-value (some v) =
    Encodes-bind _ _ true (is_short v) (1 ∷ []) (bytes_layout v) (Encodes-extend (1 ∷ []))
      (Encodes-bytes v)

Encodes-minimum : (min : Option Timestamp) → Encodes (encode_minimum min) true (minimum_layout min)
unfolding encode_minimum encode_u128
Encodes-minimum none = Encodes-extend (0 ∷ [])
Encodes-minimum (some ts) =
    Encodes-bind _ _ true true (1 ∷ []) (to_be_bytes 16 ts) (Encodes-extend (1 ∷ []))
      (Encodes-extend (to_be_bytes 16 ts))

Encodes-mutation :
    (mutation : Mutation)
    → Encodes (encode_mutation mutation) (is_short_mutation mutation) (mutation_layout mutation)
unfolding encode_mutation
Encodes-mutation (put v) =
    Encodes-bind _ _ true (is_short v) (1 ∷ []) (bytes_layout v) (Encodes-extend (1 ∷ []))
      (Encodes-bytes v)
Encodes-mutation delete = Encodes-extend (2 ∷ [])

-- an encoder on an empty buffer
Encodes-finish :
    (m : Exec (List ℕ) CodecError (Unit {0})) (c : Bool) (bytes : List ℕ)
    → Encodes m c bytes
    → finish (m []) ≡ (if c then ok bytes else err too_long)
unfolding Encodes
Encodes-finish m true bytes p = rw ((p []).0 refl)
Encodes-finish m false bytes p = ground (arith, (p []).1 refl)

-- A version is encoded exactly when the lengths of its key and its value each fit in four bytes:
-- then as its layout, and otherwise the answer is the error for a byte string too long.
pub encode_committed_lem :
    (v : CommittedVersion)
    → encode_committed v
      ≡ (if is_short v.key && is_short_value v.value then ok (committed_layout v) else err too_long)
unfolding encode_committed encode_u128
encode_committed_lem v =
    Encodes-finish _ (is_short v.key && is_short_value v.value) (committed_layout v) (
      Encodes-bind _ _ true (is_short v.key && is_short_value v.value) (2 ∷ []) _
        (Encodes-extend (2 ∷ []))
        (Encodes-bind _ _ true (is_short v.key && is_short_value v.value) (1 ∷ []) _
          (Encodes-extend (1 ∷ []))
          (Encodes-bind _ _ (is_short v.key) (is_short_value v.value) (bytes_layout v.key) _
            (Encodes-bytes v.key)
            (Encodes-bind _ _ true (is_short_value v.value) (to_be_bytes 16 v.commit_ts) _
              (Encodes-extend (to_be_bytes 16 v.commit_ts)) (Encodes-value v.value)))))

-- An intent is encoded exactly when the lengths of its key and of the value it puts each fit in
-- four bytes: then as its layout, and otherwise the answer is the error for a byte string too long.
pub encode_intent_lem :
    (i : Intent)
    → encode_intent i ≡ (
        if is_short i.key && is_short_mutation i.mutation
        then ok (intent_layout i)
        else err too_long)
unfolding encode_intent encode_u64 encode_u128
encode_intent_lem i =
    let c = is_short_mutation i.mutation in
    Encodes-finish _ (is_short i.key && c) (intent_layout i) (
      Encodes-bind _ _ true (is_short i.key && c) (2 ∷ []) _ (Encodes-extend (2 ∷ [])) (
        Encodes-bind _ _ true (is_short i.key && c) (2 ∷ []) _ (Encodes-extend (2 ∷ [])) (
          Encodes-bind _ _ (is_short i.key) c (bytes_layout i.key) _ (Encodes-bytes i.key) (
            Encodes-bind _ _ true c (to_be_bytes 8 i.txn_id) _
              (Encodes-extend (to_be_bytes 8 i.txn_id))
              (Encodes-bind _ _ true c (to_be_bytes 16 i.start_ts) _
                (Encodes-extend (to_be_bytes 16 i.start_ts))
                (Encodes-bind _ _ true c (minimum_layout i.min_commit_ts) _
                  (Encodes-minimum i.min_commit_ts) (Encodes-mutation i.mutation)))))))
