-- ===== src/Codec/Parsing.antt =====
-- What a decoder reads: the bytes from the offset on, and how one read follows another.
use mathlib.Core.List.{append_assoc}
use nexir_mvcc_core.Prelude.{
  ℕ, zero, suc, ◌+◌, ◌^◌, ◌<◌, Bool, false, List, [], ◌∷◌, ◌++◌, String, ◌≡◌, refl, sym, ap, subst,
  ◌∙◌, arith, length, take, ltb, get_elem?,
}
use nexir_mvcc_core.Error.{CodecError}
use nexir_mvcc_core.Exec.{ok, Exec, pure, reject_if, ◌>>=◌}
use nexir_mvcc_core.Codec.{
  to_be_bytes, drop, slice, decode_uint, decode_u32, take_bytes, decode_bytes, next_byte, at_end,
}
use nexir_mvcc_core.Codec.Bytes.{length-append, length-to_be_bytes, from_be_bytes-to_be_bytes}

-- `rest` is what the buffer holds from the offset on
pub record Rest (buf : List ℕ) (offset : ℕ) (rest : List ℕ) : Type 0 where
  pub dropped : drop offset buf ≡ rest
  pub size : length buf ≡ offset + length rest

pub Rest-whole : (buf : List ℕ) → Rest buf 0 buf
Rest-whole buf = record { dropped = refl; size = omega arith }

drop_nil : (n : ℕ) → drop n [] ≡ []
drop_nil zero = refl
drop_nil (suc n) = refl

drop-drop : (m n : ℕ) (xs : List ℕ) → drop (m + n) xs ≡ drop n (drop m xs)
drop-drop zero n xs = ap (λ i. drop i xs) (omega arith)
drop-drop (suc m) n [] = drop_nil (suc m + n) ∙ sym (drop_nil n)
drop-drop (suc m) n (x ∷ xs) =
    let e : suc m + n ≡ suc (m + n) = omega arith in ap (λ i. drop i (x ∷ xs)) e ∙ drop-drop m n xs

drop-append : (xs ys : List ℕ) → drop (length xs) (xs ++ ys) ≡ ys
drop-append [] ys = refl
drop-append (x ∷ xs) ys = drop-append xs ys

take-append : (xs ys : List ℕ) → take (length xs) (xs ++ ys) ≡ xs
take-append [] ys = refl
take-append (x ∷ xs) ys = rw (take-append xs ys)

get_elem?-drop : (o : ℕ) (xs : List ℕ) → get_elem? xs o ≡ get_elem? (drop o xs) 0
get_elem?-drop zero xs = refl
get_elem?-drop (suc o) [] = refl
get_elem?-drop (suc o) (x ∷ xs) = get_elem?-drop o xs

module _ (buf : List ℕ) where
  Rest-after : (o : ℕ) (xs rest : List ℕ) → Rest buf o (xs ++ rest) → Rest buf (o + length xs) rest
  Rest-after o xs rest r = record {
    dropped = drop-drop o (length xs) buf ∙ ap (drop (length xs)) r.dropped ∙ drop-append xs rest;
    size = omega (arith, r.size, length-append xs rest);
  }

  -- behind the length test of a decoder stand the bytes it wants
  module _ (o n : ℕ) (xs rest : List ℕ) (e : length xs ≡ n) (r : Rest buf o (xs ++ rest)) where
    not_truncated : ltb (length buf) (o + n) ≡ false
    not_truncated = ground (arith, r.size, e, length-append xs rest)

    slice-Rest : slice buf o n ≡ xs
    slice-Rest = rw (sym e) (ap (take (length xs)) r.dropped ∙ take-append xs rest)

    Rest-behind : Rest buf (o + n) rest
    Rest-behind = rw (sym e) (Rest-after o xs rest r)

  -- a reader at `o` that returns `x` and leaves `rest`
  pub record Reads {A : Type 0} (m : Exec ℕ CodecError A) (o : ℕ) (x : A) (rest : List ℕ)
      : Type 0 where
    pub end : ℕ
    pub result : m o ≡ (ok x, end)
    pub remaining : Rest buf end rest

  -- a reader that takes `bytes` for `x`, whatever follows them
  abbrev pub Parses : {A : Type 0} → Exec ℕ CodecError A → List ℕ → A → Type 0
  Parses m bytes x = (o : ℕ) (rest : List ℕ) → Rest buf o (bytes ++ rest) → Reads m o x rest

  module _ {A B : Type 0} (m : Exec ℕ CodecError A) (f : A → Exec ℕ CodecError B) where
    pub Reads-bind :
        (bytes rest rest' : List ℕ) (x : A) (y : B)
        → Parses m bytes x
        → ((o : ℕ) → Rest buf o rest → Reads (f x) o y rest')
        → (o : ℕ) → Rest buf o (bytes ++ rest)
        → Reads (m >>= f) o y rest'
    unfolding ◌>>=◌
    Reads-bind bytes rest rest' x y p q o r =
        let first = p o rest r in
        let second = q first.end first.remaining in
        record {
          end = second.end;
          result = rw (first.result) second.result;
          remaining = second.remaining;
        }

    pub Parses-bind :
        (xs ys : List ℕ) (x : A) (y : B)
        → Parses m xs x
        → Parses (f x) ys y
        → Parses (m >>= f) (xs ++ ys) y
    Parses-bind xs ys x y p q o rest r =
        Reads-bind xs (ys ++ rest) rest x y p (λ o' r'. q o' rest r') o
          (subst (λ l. Rest buf o l) (append_assoc xs ys rest) r)

  pub Parses-pure : {A : Type 0} (x : A) → Parses (pure x) [] x
  unfolding pure
  Parses-pure x o rest r = record { end = o; result = refl; remaining = r }

  -- a reader whose result is wrapped
  pub Parses-map :
      {A B : Type 0} (m : Exec ℕ CodecError A) (f : A → B) (bytes : List ℕ) (x : A)
      → Parses m bytes x
      → Parses (m >>= λ a. pure (f a)) bytes (f x)
  Parses-map m f bytes x p o rest =
      Reads-bind m (λ a. pure (f a)) bytes rest rest x (f x) p
        (λ o' r'. Parses-pure (f x) o' rest r') o

  pub Parses-reject_if : (c : Bool) (e : CodecError) → c ≡ false → Parses (reject_if c e) [] tt
  unfolding reject_if
  Parses-reject_if c e h o rest r = record { end = o; result = rw h; remaining = r }

  pub Parses-next_byte : (message : String) (b : ℕ) → Parses (next_byte message buf) (b ∷ []) b
  unfolding next_byte
  Parses-next_byte message b o rest r = record {
    end = o + 1;
    result = ground (arith, get_elem?-drop o buf, r.dropped);
    remaining = Rest-after o (b ∷ []) rest r;
  }

  pub Parses-decode_uint :
      (width : ℕ) (message : String) (v : ℕ)
      → v < 256 ^ width
      → Parses (decode_uint width message buf) (to_be_bytes width v) v
  unfolding decode_uint
  Parses-decode_uint width message v h o rest r =
      let e = length-to_be_bytes width v in
      record {
        end = o + width;
        result = rw (
          not_truncated o width (to_be_bytes width v) rest e r,
          slice-Rest o width (to_be_bytes width v) rest e r,
          from_be_bytes-to_be_bytes width v h,
        );
        remaining = Rest-behind o width (to_be_bytes width v) rest e r;
      }

  Parses-take_bytes : (bytes : List ℕ) → Parses (take_bytes buf (length bytes)) bytes bytes
  unfolding take_bytes
  Parses-take_bytes bytes o rest r = record {
    end = o + length bytes;
    result = rw (
      not_truncated o (length bytes) bytes rest refl r,
      slice-Rest o (length bytes) bytes rest refl r,
    );
    remaining = Rest-behind o (length bytes) bytes rest refl r;
  }

  pub Parses-decode_bytes :
      (bytes : List ℕ)
      → length bytes < 256 ^ 4
      → Parses (decode_bytes buf) (to_be_bytes 4 (length bytes) ++ bytes) bytes
  unfolding decode_bytes
  Parses-decode_bytes bytes h =
      Parses-bind (decode_u32 buf) (λ len. take_bytes buf len) (to_be_bytes 4 (length bytes)) bytes
        (length bytes) bytes (Parses-decode_uint 4 "truncated u32" (length bytes) h)
        (Parses-take_bytes bytes)

  pub Reads-at_end : (o : ℕ) → Rest buf o [] → Reads (at_end buf) o tt []
  unfolding at_end
  Reads-at_end o r = record { end = o; result = ground (arith, r.size); remaining = r }
