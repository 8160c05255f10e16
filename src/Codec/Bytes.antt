-- ===== src/Codec/Bytes.antt =====
-- Integers as big-endian bytes, and the bytes that a decoder has still to read.
use nexir_mvcc_core.Prelude.{
  ℕ, zero, suc, ◌+◌, ◌*◌, ◌/◌, ◌%◌, ◌^◌, ◌<◌, List, [], ◌∷◌, ◌++◌, ◌≡◌, refl, ◌∙◌, arith, length,
}
use nexir_mvcc_core.Codec.{to_be_bytes, from_be_bytes, accumulate}

accumulate-append :
    (high : ℕ) (xs : List ℕ) (b : ℕ) → accumulate high (xs ++ b ∷ []) ≡ accumulate high xs * 256 + b
accumulate-append high [] b = refl
accumulate-append high (x ∷ xs) b = accumulate-append (high * 256 + x) xs b

pub length-append : (xs ys : List ℕ) → length (xs ++ ys) ≡ length xs + length ys
length-append [] ys = omega arith
length-append (x ∷ xs) ys = omega (arith, length-append xs ys)

pub length-to_be_bytes : (width v : ℕ) → length (to_be_bytes width v) ≡ width
unfolding to_be_bytes
length-to_be_bytes zero v = refl
length-to_be_bytes (suc width) v = omega (
  arith,
  length-append (to_be_bytes width (v / 256)) ((v % 256) ∷ []),
  length-to_be_bytes width (v / 256),
)

pub from_be_bytes-to_be_bytes :
    (width v : ℕ) → v < 256 ^ width → from_be_bytes (to_be_bytes width v) ≡ v
unfolding to_be_bytes
from_be_bytes-to_be_bytes zero v h = omega arith
from_be_bytes-to_be_bytes (suc width) v h =
    accumulate-append 0 (to_be_bytes width (v / 256)) (v % 256)
    ∙ omega (arith, from_be_bytes-to_be_bytes width (v / 256) (omega arith))
