-- ===== src/Examples/Codec.antt =====
-- src/codec.rs on small records, and the theorems about it at them.
use nexir_mvcc_core.Prelude.{ℕ, ◌&&◌, some, List, [], ◌∷◌, ◌≡◌, refl, arith, if◌then◌else◌}
use nexir_mvcc_core.Types.{put, Intent, CommittedVersion}
use nexir_mvcc_core.Error.{CodecError}
use nexir_mvcc_core.Exec.{ok, err}
use nexir_mvcc_core.Codec.{to_be_bytes}
use nexir_mvcc_core.Codec.Records.{encode_committed, decode_committed, encode_intent, decode_intent}
use nexir_mvcc_core.Codec.Layout.{
  is_short, is_short_value, is_short_mutation, committed_layout, intent_layout, too_long,
  encode_committed_lem, encode_intent_lem,
}
use nexir_mvcc_core.Codec.RoundTrips.{
  decode_committed-encode_committed, decode_intent-encode_intent,
}

abbrev version : CommittedVersion
version = record { key = 107 ∷ []; commit_ts = 258; value = some (7 ∷ []) }

abbrev version_bytes : List ℕ
version_bytes =
    2 ∷ 1 ∷ 0 ∷ 0 ∷ 0 ∷ 1 ∷ 107 ∷ 0 ∷ 0 ∷ 0 ∷ 0 ∷ 0 ∷ 0 ∷ 0 ∷ 0 ∷ 0 ∷ 0 ∷ 0 ∷ 0 ∷ 0 ∷ 0 ∷ 1 ∷ 2 ∷ 1
    ∷ 0 ∷ 0 ∷ 0 ∷ 1 ∷ 7 ∷ []

abbrev locked : Intent
locked = record {
  key = 107 ∷ [];
  txn_id = 3;
  start_ts = 5;
  mutation = put (7 ∷ []);
  min_commit_ts = some 9;
}

abbrev locked_bytes : List ℕ
locked_bytes =
    2 ∷ 2 ∷ 0 ∷ 0 ∷ 0 ∷ 1 ∷ 107 ∷ 0 ∷ 0 ∷ 0 ∷ 0 ∷ 0 ∷ 0 ∷ 0 ∷ 3 ∷ 0 ∷ 0 ∷ 0 ∷ 0 ∷ 0 ∷ 0 ∷ 0 ∷ 0 ∷ 0
    ∷ 0 ∷ 0 ∷ 0 ∷ 0 ∷ 0 ∷ 0 ∷ 5 ∷ 1 ∷ 0 ∷ 0 ∷ 0 ∷ 0 ∷ 0 ∷ 0 ∷ 0 ∷ 0 ∷ 0 ∷ 0 ∷ 0 ∷ 0 ∷ 0 ∷ 0 ∷ 0 ∷ 9
    ∷ 1 ∷ 0 ∷ 0 ∷ 0 ∷ 1 ∷ 7 ∷ []

encode_version : encode_committed version ≡ ok version_bytes
unfolding encode_committed to_be_bytes
encode_version = refl

encode_locked : encode_intent locked ≡ ok locked_bytes
unfolding encode_intent to_be_bytes
encode_locked = refl

decode_nothing : decode_committed [] ≡ err (CodecError.decode "empty buffer")
unfolding decode_committed
decode_nothing = refl

decode_wrong_version : decode_intent (17 ∷ []) ≡ err (CodecError.decode "unknown codec version 17")
unfolding decode_intent
decode_wrong_version = refl

decode_wrong_type :
    decode_intent version_bytes ≡ err (CodecError.decode "expected intent record type 2, got 1")
unfolding decode_intent
decode_wrong_type = refl

decode_committed-encode_committed_example : decode_committed version_bytes ≡ ok version
decode_committed-encode_committed_example =
    decode_committed-encode_committed version version_bytes (omega arith) encode_version

decode_intent-encode_intent_example : decode_intent locked_bytes ≡ ok locked
decode_intent-encode_intent_example =
    decode_intent-encode_intent locked locked_bytes (omega arith) (omega arith) refl encode_locked

encode_committed_lem_example : encode_committed version ≡ (
    if is_short version.key && is_short_value version.value
    then ok (committed_layout version)
    else err too_long)
encode_committed_lem_example = encode_committed_lem version

encode_intent_lem_example : encode_intent locked ≡ (
    if is_short locked.key && is_short_mutation locked.mutation
    then ok (intent_layout locked)
    else err too_long)
encode_intent_lem_example = encode_intent_lem locked
