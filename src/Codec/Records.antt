-- ===== src/Codec/Records.antt =====
-- src/codec.rs: the encoders and decoders of versions and of intents.
use Prim.Native.String
use nexir_mvcc_core.Prelude.{ℕ, not, Option, none, some, List, [], ◌∷◌, String, ◌==◌, if◌then◌else◌}
use nexir_mvcc_core.Types.{Timestamp, Value, Mutation, put, delete, Intent, CommittedVersion}
use nexir_mvcc_core.Error.{CodecError}
use nexir_mvcc_core.Exec.{Result, ok, err, Exec, pure, raise, reject_if, ◌>>=◌, ◌>>◌}
use nexir_mvcc_core.Codec.{
  codec_version, record_committed, record_intent, flag_present, flag_absent, mutation_put,
  mutation_delete, show_u8, encode_u64, encode_u128, decode_uint, decode_u64, decode_u128, extend,
  encode_bytes, decode_bytes, next_byte, at_end,
}

-- the buffer that an encoder filled
abbrev pub finish : Result CodecError (Unit {0}) × List ℕ → Result CodecError (List ℕ)
finish (ok y, buf) = ok buf
finish (err e, buf) = err e

unfoldable pub encode_value : Option Value → Exec (List ℕ) CodecError (Unit {0})
unfolding extend encode_bytes
encode_value none = extend (flag_absent ∷ [])
encode_value (some v) = do extend (flag_present ∷ []); encode_bytes v

unfoldable pub encode_committed : CommittedVersion → Result CodecError (List ℕ)
unfolding extend encode_u128 encode_bytes encode_value ◌>>=◌
encode_committed version = finish (
    (do
      extend (codec_version ∷ [])
      extend (record_committed ∷ [])
      encode_bytes version.key
      extend (encode_u128 version.commit_ts)
      encode_value version.value)
      [])

-- the version byte and the record type, which both decoders begin with
unfoldable pub decode_header : ℕ → String → List ℕ → Exec ℕ CodecError (Unit {0})
unfolding next_byte
decode_header record_type expected buf = do
  version ← next_byte "empty buffer" buf
  reject_if (not (version == codec_version))
      (CodecError.decode (String.◌++◌ "unknown codec version " (show_u8 version)))
  found ← next_byte "missing record type" buf
  reject_if (not (found == record_type)) (CodecError.decode (String.◌++◌ expected (show_u8 found)))

-- the value behind its flag
unfoldable pub decode_value : List ℕ → ℕ → Exec ℕ CodecError (Option Value)
unfolding decode_bytes
decode_value buf flag =
    if flag == flag_present
    then (do v ← decode_bytes buf; pure (some v))
    else if flag == flag_absent
    then pure none
    else raise (CodecError.decode (String.◌++◌ "unknown value flag " (show_u8 flag)))

-- the body of `decode_committed`, over the offset
unfoldable pub committed_record : List ℕ → Exec ℕ CodecError CommittedVersion
committed_record buf = do
  decode_header record_committed "expected committed record type 1, got " buf
  key ← decode_bytes buf
  commit_ts ← decode_u128 buf
  flag ← next_byte "missing value flag" buf
  value ← decode_value buf flag
  at_end buf
  pure (record { key = key; commit_ts = commit_ts; value = value })

unfoldable pub decode_committed : List ℕ → Result CodecError CommittedVersion
unfolding committed_record decode_header decode_bytes decode_uint next_byte decode_value at_end
    ◌>>=◌
decode_committed buf = (committed_record buf 0).0

unfoldable pub encode_minimum : Option Timestamp → Exec (List ℕ) CodecError (Unit {0})
unfolding extend encode_u128
encode_minimum none = extend (flag_absent ∷ [])
encode_minimum (some ts) = do extend (flag_present ∷ []); extend (encode_u128 ts)

unfoldable pub encode_mutation : Mutation → Exec (List ℕ) CodecError (Unit {0})
unfolding extend encode_bytes
encode_mutation (put v) = do extend (mutation_put ∷ []); encode_bytes v
encode_mutation delete = extend (mutation_delete ∷ [])

unfoldable pub encode_intent : Intent → Result CodecError (List ℕ)
unfolding extend encode_u64 encode_u128 encode_bytes encode_minimum encode_mutation ◌>>=◌
encode_intent intent = finish (
    (do
      extend (codec_version ∷ [])
      extend (record_intent ∷ [])
      encode_bytes intent.key
      extend (encode_u64 intent.txn_id)
      extend (encode_u128 intent.start_ts)
      encode_minimum intent.min_commit_ts
      encode_mutation intent.mutation)
      [])

unfoldable pub decode_minimum : List ℕ → ℕ → Exec ℕ CodecError (Option Timestamp)
unfolding decode_uint
decode_minimum buf flag =
    if flag == flag_present
    then (do ts ← decode_u128 buf; pure (some ts))
    else if flag == flag_absent
    then pure none
    else raise (CodecError.decode (String.◌++◌ "unknown min_commit_ts flag " (show_u8 flag)))

unfoldable pub decode_mutation : List ℕ → ℕ → Exec ℕ CodecError Mutation
unfolding decode_bytes
decode_mutation buf mutation_type =
    if mutation_type == mutation_put
    then (do v ← decode_bytes buf; pure (put v))
    else if mutation_type == mutation_delete
    then pure delete
    else raise (CodecError.decode (String.◌++◌ "unknown mutation type " (show_u8 mutation_type)))

-- the body of `decode_intent`, over the offset
unfoldable pub intent_record : List ℕ → Exec ℕ CodecError Intent
intent_record buf = do
  decode_header record_intent "expected intent record type 2, got " buf
  key ← decode_bytes buf
  txn_id ← decode_u64 buf
  start_ts ← decode_u128 buf
  flag ← next_byte "missing min_commit_ts flag" buf
  min_commit_ts ← decode_minimum buf flag
  mutation_type ← next_byte "missing mutation type" buf
  mutation ← decode_mutation buf mutation_type
  at_end buf
  pure (record {
    key = key;
    txn_id = txn_id;
    start_ts = start_ts;
    mutation = mutation;
    min_commit_ts = min_commit_ts;
  })

unfoldable pub decode_intent : List ℕ → Result CodecError Intent
unfolding intent_record decode_header decode_bytes decode_uint next_byte decode_minimum
    decode_mutation at_end ◌>>=◌
decode_intent buf = (intent_record buf 0).0
