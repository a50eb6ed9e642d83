-- ===== src/Sql/Encoding/RoundTrip.antt =====
-- What the decoder of crates/h2-sql/src/executor/encoding.rs makes of what the encoder wrote.

use mathlib.Core.List.{append_assoc, append-nil}
use h2database_rust.Prelude.{
  ℕ, ◌^◌, ◌<◌, ◌≡◌, refl, ap, ◌∙◌, true, some, List, [], ◌∷◌, ◌++◌, length,
}
use h2database_rust.Bytes.Order.{Bytes}
use h2database_rust.Bytes.Utf8.{is_utf8}
use h2database_rust.Bytes.Words.{ℤ, pos, IsSigned, as_unsigned, flip_top, be_bytes}
use h2database_rust.Sql.Value.{
  External, Value, null, boolean, tiny_int, small_int, integer, big_int, float, double, decimal,
  string, bytes, date, time, timestamp, uuid, json, array, interval,
}
use h2database_rust.Sql.Encoding.{
  float_key, encode_memcomparable_value, decode_tagged, decode_memcomparable_value, unwrap_or,
  encode_each,
}
use h2database_rust.Sql.Encoding.Fields.{
  float_back, signed_back, byte_back, text_bytes, text_wire, push_escaped-escape, read_small_int,
  read_integer, read_big_int, read_float, read_double, read_date, read_timestamp, read_decimal,
  read_uuid, date_back, read_string, read_bytes, read_boolean, read_tiny_int,
}

pub encode_each-nil : (lib : External) → encode_each {lib = lib} [] [] ≡ []
unfolding encode_each
encode_each-nil lib = refl

module _ {lib : External} where
  -- What the types of the source say of a value's fields, for the kinds of value that a key holds.
  abbrev pub IsKeyable : Value lib → Type 0
  IsKeyable null = Unit {0}
  IsKeyable (boolean b) = Unit {0}
  IsKeyable (tiny_int i) = IsSigned 7 i
  IsKeyable (small_int i) = IsSigned 15 i
  IsKeyable (integer i) = IsSigned 31 i
  IsKeyable (big_int i) = IsSigned 63 i
  IsKeyable (float u) = u < 2 ^ 32
  IsKeyable (double u) = u < 2 ^ 64
  IsKeyable (decimal d) = Unit {0}
  IsKeyable (string s) = is_utf8 s ≡ true
  IsKeyable (bytes b) = Unit {0}
  IsKeyable (date d) = Unit {0}
  IsKeyable (time t) = ⊥
  IsKeyable (timestamp t) = Unit {0}
  IsKeyable (uuid u) = length u ≡ 16
  IsKeyable (json j) = ⊥
  IsKeyable (array vs) = ⊥
  IsKeyable (interval iv) = ⊥

  -- A decimal that a double holds, and a time that fits 64 bits of nanoseconds.
  abbrev pub IsExact : Value lib → Type 0
  IsExact (decimal d) = (u : ℕ) × (lib.to_f64 d ≡ some u) × (lib.from_f64 u ≡ some d)
  IsExact (timestamp t) = (n : ℤ) × (lib.timestamp_nanos_opt t ≡ some n)
  IsExact v = Unit {0}

  -- The encoding is appended.
  pub encode_memcomparable_value-append :
      (v : Value lib) (buf : Bytes)
      → encode_memcomparable_value v buf ≡ buf ++ encode_memcomparable_value v []
  unfolding encode_memcomparable_value
  encode_memcomparable_value-append null buf = refl
  encode_memcomparable_value-append (boolean b) buf = simp append_assoc
  encode_memcomparable_value-append (tiny_int i) buf = simp append_assoc
  encode_memcomparable_value-append (small_int i) buf = simp append_assoc
  encode_memcomparable_value-append (integer i) buf = simp append_assoc
  encode_memcomparable_value-append (big_int i) buf = simp append_assoc
  encode_memcomparable_value-append (float u) buf = simp append_assoc
  encode_memcomparable_value-append (double u) buf = simp append_assoc
  encode_memcomparable_value-append (decimal d) buf = simp append_assoc
  encode_memcomparable_value-append (string s) buf = simp (push_escaped-escape, append_assoc)
  encode_memcomparable_value-append (bytes b) buf = simp (push_escaped-escape, append_assoc)
  encode_memcomparable_value-append (date d) buf = simp append_assoc
  encode_memcomparable_value-append (time t) buf = refl
  encode_memcomparable_value-append (timestamp t) buf = simp append_assoc
  encode_memcomparable_value-append (uuid u) buf = simp append_assoc
  encode_memcomparable_value-append (json j) buf = refl
  encode_memcomparable_value-append (array vs) buf = refl
  encode_memcomparable_value-append (interval iv) buf = refl

  -- A value that was encoded is read back, whatever bytes follow, and just its bytes are taken.
  pub decode-encode :
      (v : Value lib) (rest : Bytes)
      → IsKeyable v
      → IsExact v
      → decode_memcomparable_value lib (encode_memcomparable_value v [] ++ rest)
        ≡ some (v, length (encode_memcomparable_value v []))
  unfolding decode_memcomparable_value encode_memcomparable_value decode_tagged
  decode-encode null rest k e = refl
  decode-encode (boolean b) rest k e = read_boolean b rest
  decode-encode (tiny_int i) rest k e =
      read_tiny_int (flip_top 7 (as_unsigned 7 i)) rest
      ∙ ap (λ j. some (tiny_int j, 2)) (byte_back i k)
  decode-encode (small_int i) rest k e =
      read_small_int (be_bytes 2 (flip_top 15 (as_unsigned 15 i))) rest refl
      ∙ ap (λ j. some (small_int j, 3)) (signed_back 2 15 i k refl)
  decode-encode (integer i) rest k e =
      read_integer (be_bytes 4 (flip_top 31 (as_unsigned 31 i))) rest refl
      ∙ ap (λ j. some (integer j, 5)) (signed_back 4 31 i k refl)
  decode-encode (big_int i) rest k e =
      read_big_int (be_bytes 8 (flip_top 63 (as_unsigned 63 i))) rest refl
      ∙ ap (λ j. some (big_int j, 9)) (signed_back 8 63 i k refl)
  decode-encode (float u) rest k e =
      read_float (be_bytes 4 (float_key 31 u)) rest refl
      ∙ ap (λ j. some (float j, 5)) (float_back 4 31 u k refl)
  decode-encode (double u) rest k e =
      read_double (be_bytes 8 (float_key 63 u)) rest refl
      ∙ ap (λ j. some (double j, 9)) (float_back 8 63 u k refl)
  decode-encode (decimal d) rest k (u, to, from) =
      read_decimal (be_bytes 8 (float_key 63 (unwrap_or (lib.to_f64 d) 0))) rest refl
      ∙ rw (to, float_back 8 63 u (lib.to_f64_fits d u to) refl, from)
  decode-encode (string s) rest k e =
      ap (decode_memcomparable_value lib) (text_wire 0x09 s rest)
      ∙ read_string s rest k
      ∙ ap (λ bs. some (string s, length bs)) (text_bytes 0x09 s)
  decode-encode (bytes b) rest k e =
      ap (decode_memcomparable_value lib) (text_wire 0x0D b rest)
      ∙ read_bytes b rest
      ∙ ap (λ bs. some (bytes b, length bs)) (text_bytes 0x0D b)
  decode-encode (date d) rest k e =
      read_date (be_bytes 4 (flip_top 31 (as_unsigned 31 (lib.num_days_from_ce d)))) rest refl
      ∙ date_back d
  decode-encode (time t) rest k e = absurd k
  decode-encode (timestamp t) rest k (n, fits) =
      read_timestamp
        (be_bytes 8 (flip_top 63 (as_unsigned 63 (unwrap_or (lib.timestamp_nanos_opt t) (pos 0)))))
        rest refl
      ∙ rw (fits, signed_back 8 63 n (lib.nanos_fits t n fits) refl, lib.nanos_back t n fits)
  decode-encode (uuid u) rest k e = read_uuid u rest k ∙ rw k
  decode-encode (json j) rest k e = absurd k
  decode-encode (array vs) rest k e = absurd k
  decode-encode (interval iv) rest k e = absurd k

  -- A list of values is the encodings one after another.
  pub encode_each-append :
      (vals : List (Value lib)) (buf : Bytes) → encode_each vals buf ≡ buf ++ encode_each vals []
  unfolding encode_each
  encode_each-append [] buf = simp append-nil
  encode_each-append (v ∷ vals) buf =
      encode_each-append vals (encode_memcomparable_value v buf)
      ∙ rw
          (
            encode_memcomparable_value-append v buf,
            encode_each-append vals (encode_memcomparable_value v []),
          )
          (simp append_assoc)

  pub encode_each-cons :
      (v : Value lib) (vals : List (Value lib))
      → encode_each (v ∷ vals) [] ≡ encode_memcomparable_value v [] ++ encode_each vals []
  unfolding encode_each
  encode_each-cons v vals = encode_each-append vals (encode_memcomparable_value v [])

  pub first_code :
      (v : Value lib) (vs : List (Value lib)) (x : Bytes)
      → encode_each (v ∷ vs) [] ++ x ≡ encode_memcomparable_value v [] ++ (encode_each vs [] ++ x)
  first_code v vs x =
      ap (λ c. c ++ x) (encode_each-cons v vs)
      ∙ append_assoc (encode_memcomparable_value v []) (encode_each vs []) x
