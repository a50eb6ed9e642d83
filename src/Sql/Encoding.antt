-- ===== src/Sql/Encoding.antt =====
-- The order-preserving keys of crates/h2-sql/src/executor/encoding.rs. `buf` is the vector to which
-- an encoder appends.
pub mod Fields
pub mod RoundTrip
pub mod Bounds
pub mod Keys
pub mod Unread
pub mod Prefix
pub mod Payload
pub mod Order
use Prim.Native.Nat.{bit_xor, bit_and}
use h2database_rust.Prelude.{
  ℕ, zero, suc, ◌+◌, ◌-◌, ◌^◌, Bool, true, false, not, Option, none, some, List, [], ◌∷◌, ◌++◌, ltb,
  ◌==◌, if◌then◌else◌, length, take, drop, replicate,
}
use h2database_rust.Bytes.Order.{Bytes}
use h2database_rust.Bytes.Utf8.{is_utf8}
use h2database_rust.Bytes.Words.{
  ℤ, pos, negsuc, as_unsigned, as_signed, flip_top, complement, be_bytes, from_be_bytes,
}
use h2database_rust.Sql.Value.{
  External, Value, null, boolean, tiny_int, small_int, integer, big_int, float, double, decimal,
  string, bytes, date, time, timestamp, uuid, json, array, interval,
}

-- The bits of a float of `k + 1` bits as the encoder turns them.
unfoldable pub float_key : ℕ → ℕ → ℕ
unfolding flip_top
float_key k u = if not (bit_and u (2 ^ k) == 0) then complement k u else flip_top k u

-- The same as the decoder turns them back.
unfoldable pub float_bits : ℕ → ℕ → ℕ
unfolding flip_top
float_bits k u = if bit_and u (2 ^ k) == 0 then complement k u else flip_top k u

-- The loop over the bytes of a text: a zero byte is followed by 0xFF.
unfoldable pub push_escaped : Bytes → Bytes → Bytes
push_escaped [] buf = buf
push_escaped (byte ∷ rest) buf =
    push_escaped rest
      (if byte == 0 then (buf ++ (byte ∷ [])) ++ (0xFF ∷ []) else buf ++ (byte ∷ []))

-- `unwrap_or`
abbrev pub unwrap_or {ℓ} : {A : Type ℓ} → Option A → A → A
unwrap_or none d = d
unwrap_or (some a) d = a

module _ {lib : External} where
  unfoldable pub encode_memcomparable_value : Value lib → Bytes → Bytes
  unfolding as_unsigned flip_top float_key push_escaped be_bytes
  encode_memcomparable_value null buf = buf ++ (0x01 ∷ [])
  encode_memcomparable_value (boolean b) buf = (buf ++ (0x02 ∷ [])) ++ ((if b then 1 else 0) ∷ [])
  encode_memcomparable_value (tiny_int i) buf =
      (buf ++ (0x03 ∷ [])) ++ (flip_top 7 (as_unsigned 7 i) ∷ [])
  encode_memcomparable_value (small_int i) buf =
      (buf ++ (0x04 ∷ [])) ++ be_bytes 2 (flip_top 15 (as_unsigned 15 i))
  encode_memcomparable_value (integer i) buf =
      (buf ++ (0x05 ∷ [])) ++ be_bytes 4 (flip_top 31 (as_unsigned 31 i))
  encode_memcomparable_value (big_int i) buf =
      (buf ++ (0x06 ∷ [])) ++ be_bytes 8 (flip_top 63 (as_unsigned 63 i))
  encode_memcomparable_value (float u) buf = (buf ++ (0x07 ∷ [])) ++ be_bytes 4 (float_key 31 u)
  encode_memcomparable_value (double u) buf = (buf ++ (0x08 ∷ [])) ++ be_bytes 8 (float_key 63 u)
  encode_memcomparable_value (string s) buf =
      (push_escaped s (buf ++ (0x09 ∷ [])) ++ (0x00 ∷ [])) ++ (0x00 ∷ [])
  encode_memcomparable_value (date d) buf =
      (buf ++ (0x0A ∷ [])) ++ be_bytes 4 (flip_top 31 (as_unsigned 31 (lib.num_days_from_ce d)))
  encode_memcomparable_value (timestamp ts) buf =
      let nanos = unwrap_or (lib.timestamp_nanos_opt ts) (pos 0) in
      (buf ++ (0x0B ∷ [])) ++ be_bytes 8 (flip_top 63 (as_unsigned 63 nanos))
  encode_memcomparable_value (decimal dec) buf =
      (buf ++ (0x0C ∷ [])) ++ be_bytes 8 (float_key 63 (unwrap_or (lib.to_f64 dec) 0))
  encode_memcomparable_value (bytes b) buf =
      (push_escaped b (buf ++ (0x0D ∷ [])) ++ (0x00 ∷ [])) ++ (0x00 ∷ [])
  encode_memcomparable_value (uuid u) buf = (buf ++ (0x0E ∷ [])) ++ u
  encode_memcomparable_value (time t) buf = buf ++ (0xFF ∷ [])
  encode_memcomparable_value (json j) buf = buf ++ (0xFF ∷ [])
  encode_memcomparable_value (array vs) buf = buf ++ (0xFF ∷ [])
  encode_memcomparable_value (interval iv) buf = buf ++ (0xFF ∷ [])

-- The loop of the decoder over an escaped text, from the byte at `i` on: the bytes read, and the
-- index after them.
unfoldable pub unescape : Bytes → Bytes → ℕ → Bytes × ℕ
unescape [] out i = (out, i)
unescape (b ∷ []) out i = if b == 0 then (out, i + 1) else (out ++ (b ∷ []), i + 1)
unescape (b ∷ c ∷ rest) out i =
    let escaped = unescape rest (out ++ (0 ∷ [])) (i + 2) in
    let more = unescape (c ∷ rest) (out ++ (b ∷ [])) (i + 1) in
    if b == 0
    then if c == 0xFF then escaped else if c == 0 then (out, i + 2) else (out, i + 1)
    else more

module _ (lib : External) where
  -- One arm each of the decoder, on the bytes after the tag.
  unfoldable pub decode_date : ℕ → Option (Value lib × ℕ)
  unfolding as_signed flip_top
  decode_date u = elim (lib.from_num_days_from_ce_opt (as_signed 31 (flip_top 31 u))) [
    | none ↦ none
    | some d ↦ some (date d, 5)
  ]

  unfoldable pub decode_string : Bytes × ℕ → Option (Value lib × ℕ)
  decode_string (s, i) = if is_utf8 s then some (string s, i) else none

  unfoldable pub decode_bytes : Bytes × ℕ → Option (Value lib × ℕ)
  decode_bytes (b, i) = some (bytes b, i)

  unfoldable pub decode_tagged : ℕ → Bytes → Option (Value lib × ℕ)
  unfolding as_signed flip_top float_bits from_be_bytes unescape decode_date decode_string
      decode_bytes
  decode_tagged tag rest =
      let size = suc (length rest) in
      let word = λ (n : ℕ). from_be_bytes (take n rest) in
      if tag == 0x01
      then some (null, 1)
      else if tag == 0x02
      then if ltb size 2 then none else some (boolean (not (from_be_bytes (take 1 rest) == 0)), 2)
      else if tag == 0x03
      then if ltb size 2 then none else some (tiny_int (as_signed 7 (flip_top 7 (word 1))), 2)
      else if tag == 0x04
      then if ltb size 3 then none else some (small_int (as_signed 15 (flip_top 15 (word 2))), 3)
      else if tag == 0x05
      then if ltb size 5 then none else some (integer (as_signed 31 (flip_top 31 (word 4))), 5)
      else if tag == 0x06
      then if ltb size 9 then none else some (big_int (as_signed 63 (flip_top 63 (word 8))), 9)
      else if tag == 0x07
      then if ltb size 5 then none else some (float (float_bits 31 (word 4)), 5)
      else if tag == 0x08
      then if ltb size 9 then none else some (double (float_bits 63 (word 8)), 9)
      else if tag == 0x09
      then decode_string (unescape rest [] 1)
      else if tag == 0x0A
      then if ltb size 5 then none else decode_date (word 4)
      else if tag == 0x0B
      then if ltb size 9
        then none
        else some (timestamp (lib.from_timestamp_nanos (as_signed 63 (flip_top 63 (word 8)))), 9)
      else if tag == 0x0C
      then if ltb size 9
        then none
        else some
            (decimal (unwrap_or (lib.from_f64 (float_bits 63 (word 8))) lib.default_decimal), 9)
      else if tag == 0x0D
      then decode_bytes (unescape rest [] 1)
      else if tag == 0x0E
      then if ltb size 17 then none else some (uuid (take 16 rest), 17)
      else none

  unfoldable pub decode_memcomparable_value : Bytes → Option (Value lib × ℕ)
  unfolding decode_tagged
  decode_memcomparable_value [] = none
  decode_memcomparable_value (tag ∷ rest) = decode_tagged tag rest

  -- The loop, with a bound on its rounds: each takes a byte at least, so as many rounds as there
  -- are bytes are enough.
  unfoldable pub decode_loop : ℕ → List (Value lib) → Bytes → Option (List (Value lib))
  decode_loop fuel vals [] = some vals
  decode_loop zero vals (b ∷ bs) = none
  decode_loop (suc fuel) vals (b ∷ bs) = elim (decode_memcomparable_value (b ∷ bs)) [
    | none ↦ none
    | some (val, consumed) ↦ decode_loop fuel (vals ++ (val ∷ [])) (drop consumed (b ∷ bs))
  ]

  unfoldable pub decode_memcomparable_values : Bytes → Option (List (Value lib))
  decode_memcomparable_values bs = decode_loop (length bs) [] bs

module _ {lib : External} where
  unfoldable pub encode_each : List (Value lib) → Bytes → Bytes
  encode_each [] buf = buf
  encode_each (val ∷ vals) buf = encode_each vals (encode_memcomparable_value val buf)

  unfoldable pub encode_index_prefix : List (Value lib) → Bytes
  encode_index_prefix vals = encode_each vals [] ++ (0x00 ∷ [])

  unfoldable pub encode_composite_index_key : List (Value lib) → ℕ → Bytes
  encode_composite_index_key vals row_id = encode_index_prefix vals ++ be_bytes 8 row_id

  unfoldable pub encode_index_key : Value lib → ℕ → Bytes
  encode_index_key val row_id = encode_composite_index_key (val ∷ []) row_id

  unfoldable pub encode_index_key_max : List (Value lib) → Bytes
  encode_index_key_max vals = encode_index_prefix vals ++ replicate 8 0xFF

module _ (lib : External) where
  unfoldable pub decode_composite_index_key : Bytes → Option (List (Value lib) × ℕ)
  decode_composite_index_key bs =
      if ltb (length bs) 9
      then none
      else elim (decode_memcomparable_values lib (take (length bs - 9) bs)) [
        | none ↦ none
        | some vals ↦ some (vals, from_be_bytes (drop (length bs - 8) bs))
      ]

  -- A key whose value cannot be read counts as null.
  unfoldable pub decode_index_key : Bytes → Option (Value lib × ℕ)
  decode_index_key bs =
      let row_id = from_be_bytes (drop (length bs - 8) bs) in
      if ltb (length bs) 9
      then none
      else elim (decode_memcomparable_value lib (take (length bs - 9) bs)) [
        | none ↦ some (null, row_id)
        | some (v, _) ↦ some (v, row_id)
      ]
