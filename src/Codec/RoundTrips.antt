-- ===== src/Codec/RoundTrips.antt =====
-- Decoding after encoding.
use mathlib.Core.List.{append-nil}
use nexir_mvcc_core.Prelude.{
  ℕ, ◌^◌, ◌<◌, ◌≤◌, Bool, true, false, not, Option, none, some, List, [], ◌∷◌, ◌++◌, ◌≡◌, refl, sym,
  ap, arith, String, ◌==◌, leb, subst,
}
use nexir_mvcc_core.Types.{
  Timestamp, Value, Mutation, put, delete, Intent, CommittedVersion, max_ts,
}
use nexir_mvcc_core.Error.{CodecError}
use nexir_mvcc_core.Exec.{Result, ok, pure, ◌>>=◌}
use nexir_mvcc_core.Codec.{to_be_bytes, decode_u128, decode_bytes, at_end}
use nexir_mvcc_core.Codec.Records.{
  committed_record, intent_record, decode_header, decode_value, decode_committed, decode_minimum,
  decode_mutation, decode_intent, encode_committed, encode_intent,
}
use nexir_mvcc_core.Codec.Layout.{
  bytes_layout, flag_of, value_body, minimum_body, mutation_body, mutation_type, committed_layout,
  intent_layout, is_short, is_short_value, is_short_mutation, encode_committed_lem,
  encode_intent_lem,
}
use nexir_mvcc_core.Codec.Parsing.{
  Rest, Rest-whole, Reads, Reads-bind, Parses, Parses-bind, Parses-pure, Parses-map,
  Parses-reject_if, Parses-next_byte, Parses-decode_uint, Parses-decode_bytes,
}

-- a minimum that is a `Timestamp`
abbrev pub is_representable : Option Timestamp → Bool
is_representable none = true
is_representable (some ts) = leb ts max_ts

module _ (buf : List ℕ) where
  Parses-key :
      (bytes : List ℕ)
      → is_short bytes ≡ true
      → Parses buf (decode_bytes buf) (bytes_layout bytes) bytes
  Parses-key bytes h = Parses-decode_bytes buf bytes (ground arith)

  Parses-ts : (ts : Timestamp) → ts ≤ max_ts → Parses buf (decode_u128 buf) (to_be_bytes 16 ts) ts
  Parses-ts ts h = Parses-decode_uint buf 16 "truncated u128" ts (omega arith)

  Parses-header :
      (t : ℕ) (expected : String)
      → (not (t == t)) ≡ false
      → Parses buf (decode_header t expected buf) (2 ∷ t ∷ []) tt
  unfolding decode_header
  Parses-header t expected h =
      Parses-bind buf _ _ (2 ∷ []) (t ∷ []) 2 tt (Parses-next_byte buf "empty buffer" 2) (
        Parses-bind buf _ _ [] (t ∷ []) tt tt (Parses-reject_if buf _ _ refl) (
          Parses-bind buf _ _ (t ∷ []) [] t tt (Parses-next_byte buf "missing record type" t)
            (Parses-reject_if buf _ _ h)))

  Parses-value :
      (value : Option Value)
      → is_short_value value ≡ true
      → Parses buf (decode_value buf (flag_of value)) (value_body value) value
  unfolding decode_value
  Parses-value none h = Parses-pure buf none
  Parses-value (some v) h =
      Parses-map buf (decode_bytes buf) some (bytes_layout v) v (Parses-key v h)

  Parses-minimum :
      (min : Option Timestamp)
      → is_representable min ≡ true
      → Parses buf (decode_minimum buf (flag_of min)) (minimum_body min) min
  unfolding decode_minimum
  Parses-minimum none h = Parses-pure buf none
  Parses-minimum (some ts) h =
      Parses-map buf (decode_u128 buf) some (to_be_bytes 16 ts) ts (Parses-ts ts (ground arith))

  Parses-mutation :
      (mutation : Mutation)
      → is_short_mutation mutation ≡ true
      → Parses buf (decode_mutation buf (mutation_type mutation)) (mutation_body mutation) mutation
  unfolding decode_mutation
  Parses-mutation (put v) h =
      Parses-map buf (decode_bytes buf) put (bytes_layout v) v (Parses-key v h)
  Parses-mutation delete h = Parses-pure buf delete

  -- the end of both decoders
  Reads-last :
      {A : Type 0} (x : A) (o : ℕ) → Rest buf o [] → Reads buf (at_end buf >>= λ _. pure x) o x []
  unfolding at_end pure ◌>>=◌
  Reads-last x o r = record { end = o; result = ground (arith, r.size); remaining = r }

Rest-nil : (buf : List ℕ) (o : ℕ) (l : List ℕ) → Rest buf o l → Rest buf o (l ++ [])
Rest-nil buf o l r = subst (λ k. Rest buf o k) (sym (append-nil l)) r

committed_record-layout :
    (buf : List ℕ) (v : CommittedVersion)
    → v.commit_ts ≤ max_ts
    → is_short v.key ≡ true
    → is_short_value v.value ≡ true
    → Rest buf 0 (committed_layout v)
    → Reads buf (committed_record buf) 0 v []
unfolding committed_record
committed_record-layout buf v t k h =
    Reads-bind buf _ _ (2 ∷ 1 ∷ []) _ [] tt v
      (Parses-header buf 1 "expected committed record type 1, got " refl)
      (Reads-bind buf _ _ (bytes_layout v.key) _ [] v.key v (Parses-key buf v.key k) (
        Reads-bind buf _ _ (to_be_bytes 16 v.commit_ts) _ [] v.commit_ts v
          (Parses-ts buf v.commit_ts t)
          (Reads-bind buf _ _ (flag_of v.value ∷ []) _ [] (flag_of v.value) v
            (Parses-next_byte buf "missing value flag" (flag_of v.value))
            (λ o r.
              Reads-bind buf _ _ (value_body v.value) [] [] v.value v (Parses-value buf v.value h)
                (Reads-last buf v) o (Rest-nil buf o (value_body v.value) r)))))
      0

intent_record-layout :
    (buf : List ℕ) (i : Intent)
    → i.txn_id < 256 ^ 8
    → i.start_ts ≤ max_ts
    → is_representable i.min_commit_ts ≡ true
    → is_short i.key ≡ true
    → is_short_mutation i.mutation ≡ true
    → Rest buf 0 (intent_layout i)
    → Reads buf (intent_record buf) 0 i []
unfolding intent_record
intent_record-layout buf i t s m k h =
    Reads-bind buf _ _ (2 ∷ 2 ∷ []) _ [] tt i
      (Parses-header buf 2 "expected intent record type 2, got " refl)
      (Reads-bind buf _ _ (bytes_layout i.key) _ [] i.key i (Parses-key buf i.key k) (
        Reads-bind buf _ _ (to_be_bytes 8 i.txn_id) _ [] i.txn_id i
          (Parses-decode_uint buf 8 "truncated u64" i.txn_id t)
          (Reads-bind buf _ _ (to_be_bytes 16 i.start_ts) _ [] i.start_ts i
            (Parses-ts buf i.start_ts s)
            (Reads-bind buf _ _ (flag_of i.min_commit_ts ∷ []) _ [] (flag_of i.min_commit_ts) i
              (Parses-next_byte buf "missing min_commit_ts flag" (flag_of i.min_commit_ts))
              (Reads-bind buf _ _ (minimum_body i.min_commit_ts) _ [] i.min_commit_ts i
                (Parses-minimum buf i.min_commit_ts m)
                (Reads-bind buf _ _ (mutation_type i.mutation ∷ []) _ [] (mutation_type i.mutation)
                  i (Parses-next_byte buf "missing mutation type" (mutation_type i.mutation))
                  (λ o r.
                    Reads-bind buf _ _ (mutation_body i.mutation) [] [] i.mutation i
                      (Parses-mutation buf i.mutation h) (Reads-last buf i) o
                      (Rest-nil buf o (mutation_body i.mutation) r))))))))
      0

-- what an encoder that returned bytes had
committed_fits :
    (v : CommittedVersion) (bytes : List ℕ)
    → encode_committed v ≡ ok bytes
    → (is_short v.key ≡ true) × (is_short_value v.value ≡ true) × (bytes ≡ committed_layout v)
committed_fits v bytes e = ground (arith, encode_committed_lem v, e)

intent_fits :
    (i : Intent) (bytes : List ℕ)
    → encode_intent i ≡ ok bytes
    → (is_short i.key ≡ true) × (is_short_mutation i.mutation ≡ true) × (bytes ≡ intent_layout i)
intent_fits i bytes e = ground (arith, encode_intent_lem i, e)

-- Where `encode_committed` returns bytes for a version whose timestamp is a `u128`,
-- `decode_committed` returns that version from them.
pub decode_committed-encode_committed :
    (v : CommittedVersion) (bytes : List ℕ)
    → v.commit_ts ≤ max_ts
    → encode_committed v ≡ ok bytes
    → decode_committed bytes ≡ ok v
unfolding decode_committed
decode_committed-encode_committed v bytes t e =
    let r = committed_fits v bytes e in
    let read =
      committed_record-layout bytes v t r.0 r.1
        (subst (λ l. Rest bytes 0 l) r.2 (Rest-whole bytes)) in
    ap (λ (p : Result CodecError CommittedVersion × ℕ). p.0) read.result

-- Where `encode_intent` returns bytes for an intent whose transaction is a `u64` and whose
-- timestamps are `u128`s, `decode_intent` returns that intent from them.
pub decode_intent-encode_intent :
    (i : Intent) (bytes : List ℕ)
    → i.txn_id < 2 ^ 64
    → i.start_ts ≤ max_ts
    → is_representable i.min_commit_ts ≡ true
    → encode_intent i ≡ ok bytes
    → decode_intent bytes ≡ ok i
unfolding decode_intent
decode_intent-encode_intent i bytes t s m e =
    let r = intent_fits i bytes e in
    let read =
      intent_record-layout bytes i (omega arith) s m r.0 r.1
        (subst (λ l. Rest bytes 0 l) r.2 (Rest-whole bytes)) in
    ap (λ (p : Result CodecError Intent × ℕ). p.0) read.result
