-- ===== src/Codec.antt =====
-- src/codec.rs: integers and byte strings as bytes, and the constants. An encoder appends to its buffer, a decoder reads `buf` at an
-- offset and moves it; the buffer and the offset are the states of these functions.
pub mod Bytes
pub mod Layout
pub mod Parsing
pub mod Records
pub mod RoundTrips
use Prim.Native.String
use nexir_mvcc_core.Prelude.{
  ℕ, zero, suc, ◌+◌, ◌*◌, ◌/◌, ◌%◌, ◌^◌, Bool, not, Option, none, some, List, [], ◌∷◌, ◌++◌, String,
  length, take, get_elem?, ◌==◌, ltb, is_empty, if◌then◌else◌,
}
use nexir_mvcc_core.Types.{
  Timestamp, TxnId, Key, Value, Mutation, put, delete, Intent, CommittedVersion,
}
use nexir_mvcc_core.Error.{CodecError}
use nexir_mvcc_core.Exec.{Result, ok, err, Exec, pure, raise, reject_if, ◌>>=◌, ◌>>◌}

abbrev pub codec_version : ℕ
codec_version = 2

abbrev pub record_committed : ℕ
record_committed = 1

abbrev pub record_intent : ℕ
record_intent = 2

abbrev pub flag_present : ℕ
flag_present = 1

abbrev pub flag_absent : ℕ
flag_absent = 0

abbrev pub mutation_put : ℕ
mutation_put = 1

abbrev pub mutation_delete : ℕ
mutation_delete = 2

-- `v.to_be_bytes()` of an integer of `width` bytes
unfoldable pub to_be_bytes : ℕ → ℕ → List ℕ
to_be_bytes zero v = []
to_be_bytes (suc width) v = to_be_bytes width (v / 256) ++ (v % 256) ∷ []

abbrev pub accumulate : ℕ → List ℕ → ℕ
accumulate high [] = high
accumulate high (b ∷ bytes) = accumulate (high * 256 + b) bytes

-- `from_be_bytes(bytes)`
abbrev pub from_be_bytes : List ℕ → ℕ
from_be_bytes bytes = accumulate 0 bytes

-- `&buf[offset..]`
abbrev pub drop : ℕ → List ℕ → List ℕ
drop zero xs = xs
drop (suc n) [] = []
drop (suc n) (x ∷ xs) = drop n xs

-- `&buf[offset..offset + n]`
abbrev pub slice : List ℕ → ℕ → ℕ → List ℕ
slice buf offset n = take n (drop offset buf)

-- a digit below ten
abbrev pub digit : ℕ → String
digit n = String.slice "0123456789" n (n + 1)

-- a `u8` in a `format!`
abbrev pub show_u8 : ℕ → String
show_u8 n =
    if ltb n 10
    then digit n
    else if ltb n 100
    then String.◌++◌ (digit (n / 10)) (digit (n % 10))
    else String.◌++◌ (digit (n / 100)) (String.◌++◌ (digit (n / 10 % 10)) (digit (n % 10)))

unfoldable pub encode_u32 : ℕ → List ℕ
encode_u32 v = to_be_bytes 4 v

unfoldable pub encode_u64 : ℕ → List ℕ
encode_u64 v = to_be_bytes 8 v

unfoldable pub encode_u128 : ℕ → List ℕ
encode_u128 v = to_be_bytes 16 v

-- `decode_u32`, `decode_u64` and `decode_u128` at their width and message
unfoldable pub decode_uint : ℕ → String → List ℕ → Exec ℕ CodecError ℕ
decode_uint width message buf offset =
    if ltb (length buf) (offset + width)
    then (err (CodecError.decode message), offset)
    else (ok (from_be_bytes (slice buf offset width)), offset + width)

abbrev pub decode_u32 : List ℕ → Exec ℕ CodecError ℕ
decode_u32 = decode_uint 4 "truncated u32"

abbrev pub decode_u64 : List ℕ → Exec ℕ CodecError ℕ
decode_u64 = decode_uint 8 "truncated u64"

abbrev pub decode_u128 : List ℕ → Exec ℕ CodecError ℕ
decode_u128 = decode_uint 16 "truncated u128"

-- `buf.extend_from_slice(bytes)`, and `buf.push(byte)` for one byte
unfoldable pub extend : List ℕ → Exec (List ℕ) CodecError (Unit {0})
extend bytes buf = (ok tt, buf ++ bytes)

unfoldable pub encode_bytes : List ℕ → Exec (List ℕ) CodecError (Unit {0})
unfolding extend encode_u32
encode_bytes bytes = do
  reject_if (not (ltb (length bytes) (2 ^ 32))) (CodecError.encode "byte slice too long")
  extend (encode_u32 (length bytes))
  extend bytes

-- the test of the length and the slice in `decode_bytes`
unfoldable pub take_bytes : List ℕ → ℕ → Exec ℕ CodecError (List ℕ)
take_bytes buf len offset =
    if ltb (length buf) (offset + len)
    then (err (CodecError.decode "truncated byte slice"), offset)
    else (ok (slice buf offset len), offset + len)

unfoldable pub decode_bytes : List ℕ → Exec ℕ CodecError (List ℕ)
unfolding decode_uint take_bytes
decode_bytes buf = do len ← decode_u32 buf; take_bytes buf len

-- the test that there is a byte at the offset, and the byte, behind which the offset moves
unfoldable pub next_byte : String → List ℕ → Exec ℕ CodecError ℕ
next_byte message buf offset = elim (get_elem? buf offset) [
  | none ↦ (err (CodecError.decode message), offset)
  | some byte ↦ (ok byte, suc offset)
]

-- `if offset != buf.len() { return Err(…) }`
unfoldable pub at_end : List ℕ → Exec ℕ CodecError (Unit {0})
at_end buf offset =
    if offset == length buf
    then (ok tt, offset)
    else (err (CodecError.decode "trailing garbage"), offset)
