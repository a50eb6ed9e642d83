-- ===== src/Sql/Encoding/Keys.antt =====
-- The keys of an index, as crates/h2-sql/src/executor/encoding.rs writes and reads them.
use mathlib.Core.List.{append_assoc, append-nil}
use native.Mathlib.Nat.{zero-add, suc-add}
use h2database_rust.Prelude.{
  ℕ, zero, suc, ◌+◌, ◌-◌, ◌^◌, ◌≤◌, ◌<◌, ◌≡◌, refl, sym, ap, ◌∙◌, false, Option, none, some, List,
  [], ◌∷◌, ◌++◌, arith, ltb, length, length-append, take, drop, take_len, drop_len, All,
}
use h2database_rust.Bytes.Order.{Bytes}
use h2database_rust.Bytes.Words.{be_bytes, from_be_bytes}
use h2database_rust.Bytes.Words.Laws.{length-be_bytes, from_be_bytes-be_bytes}
use h2database_rust.Sql.Value.{External, Value}
use h2database_rust.Sql.Encoding.{
  encode_memcomparable_value, decode_memcomparable_value, decode_loop, decode_memcomparable_values,
  encode_each, encode_index_prefix, encode_composite_index_key, decode_composite_index_key,
}
use h2database_rust.Sql.Encoding.RoundTrip.{
  IsKeyable, IsExact, decode-encode, encode_each-nil, encode_each-cons,
}
use h2database_rust.Sql.Encoding.Bounds.{decode_memcomparable_value_bounds, decode_loop_enough}

module _ {lib : External} where
  pub decode_loop_step :
      (fuel : ℕ) (acc : List (Value lib)) (bs : Bytes) (v : Value lib) (n : ℕ)
      → decode_memcomparable_value lib bs ≡ some (v, n)
      → decode_loop lib (suc fuel) acc bs ≡ decode_loop lib fuel (acc ++ (v ∷ [])) (drop n bs)
  unfolding decode_loop
  decode_loop_step fuel acc [] v n h =
      absurd (omega (arith, decode_memcomparable_value_bounds lib [] v n h))
  decode_loop_step fuel acc (b ∷ bs) v n h = rw (h, decode_loop)

  decode_loop_end : (fuel : ℕ) (acc : List (Value lib)) → decode_loop lib fuel acc [] ≡ some acc
  unfolding decode_loop
  decode_loop_end zero acc = refl
  decode_loop_end (suc fuel) acc = refl

  -- The list that was encoded is read back, up to what cannot be read.
  pub decode_loop-encode_each :
      (fuel : ℕ) (acc vals : List (Value lib)) (rest : Bytes)
      → All IsKeyable vals
      → All IsExact vals
      → decode_loop lib (length vals + fuel) acc (encode_each vals [] ++ rest)
        ≡ decode_loop lib fuel (acc ++ vals) rest
  decode_loop-encode_each fuel acc [] rest k e = rw (zero-add, encode_each-nil lib, append-nil)
  decode_loop-encode_each fuel acc (v ∷ vals) rest (kv, k) (ev, e) =
      let code : Bytes = encode_memcomparable_value v [] in
      let more : Bytes = encode_each vals [] ++ rest in
      let split : encode_each (v ∷ vals) [] ++ rest ≡ code ++ more =
        rw (encode_each-cons v vals) (append_assoc code (encode_each vals []) rest) in
      let step =
        decode_loop_step (length vals + fuel) acc (code ++ more) v (length code)
          (decode-encode v more kv ev) in
      let left : drop (length code) (code ++ more) ≡ more = drop_len (length code) code more refl in
      let whole : (acc ++ (v ∷ [])) ++ vals ≡ acc ++ (v ∷ vals) = append_assoc acc (v ∷ []) vals in
      rw (suc-add, split)
        (step ∙ rw left (decode_loop-encode_each fuel (acc ++ (v ∷ [])) vals rest k e ∙ rw whole))

  pub length-encode_each :
      (vals : List (Value lib))
      → All IsKeyable vals
      → All IsExact vals
      → length vals ≤ length (encode_each vals [])
  length-encode_each [] k e = omega arith
  length-encode_each (v ∷ vals) (kv, k) (ev, e) = omega (
    arith,
    ap length (encode_each-cons v vals),
    length-append (encode_memcomparable_value v []) (encode_each vals []),
    decode_memcomparable_value_bounds lib (encode_memcomparable_value v [] ++ []) v
        (length (encode_memcomparable_value v [])) (decode-encode v [] kv ev),
    length-encode_each vals k e,
  )

  decode_values-encode_each :
      (vals : List (Value lib))
      → All IsKeyable vals
      → All IsExact vals
      → decode_memcomparable_values lib (encode_each vals []) ≡ some vals
  unfolding decode_memcomparable_values
  decode_values-encode_each vals k e =
      let code : Bytes = encode_each vals [] in
      decode_loop_enough lib (length code) (length vals + length code) [] code (omega arith)
        (omega arith)
      ∙ ap (decode_loop lib (length vals + length code) []) (sym (append-nil code))
      ∙ decode_loop-encode_each (length code) [] vals [] k e
      ∙ decode_loop_end (length code) vals

  abbrev pub with_row : Option (List (Value lib)) → ℕ → Option (List (Value lib) × ℕ)
  with_row none row_id = none
  with_row (some vals) row_id = some (vals, row_id)

  -- A key is the code of its values, a zero byte, and the eight bytes of its row.
  pub decode_composite_parts :
      (code w : Bytes)
      → length w ≡ 8
      → decode_composite_index_key lib ((code ++ (0 ∷ [])) ++ w)
        ≡ with_row (decode_memcomparable_values lib code) (from_be_bytes w)
  unfolding decode_composite_index_key
  decode_composite_parts code w h =
      let key : Bytes = (code ++ (0 ∷ [])) ++ w in
      let body : length (code ++ (0 ∷ [])) ≡ length code + 1 = length-append code (0 ∷ []) in
      let size : length key ≡ length code + 9 = omega (arith, length-append (code ++ (0 ∷ [])) w) in
      let long : ltb (length key) 9 ≡ false = ground arith in
      let value : take (length key - 9) key ≡ code =
        ap (take (length key - 9)) (append_assoc code (0 ∷ []) w)
        ∙ take_len (length key - 9) code (0 ∷ w) (omega arith) in
      let row : drop (length key - 8) key ≡ w =
        drop_len (length key - 8) (code ++ (0 ∷ [])) w (omega arith) in
      rw (long, value)
        (finish (decode_memcomparable_values lib code) (drop (length key - 8) key) row)
    where
      finish :
          (o : Option (List (Value lib))) (r : Bytes)
          → r ≡ w
          → ◌≡◌ {A = Option (List (Value lib) × ℕ)}
              (elim o [ none ↦ none | some vals ↦ some (vals, from_be_bytes r) ])
              (with_row o (from_be_bytes w))
      finish none r h = refl
      finish (some vals) r h = rw h

  -- The values and the 64-bit row of an index key are read back from it, where the values are of the
  -- kinds that a key holds, decimals are held by a double and times fit 64 bits of nanoseconds.
  pub decode_composite-encode_composite :
      (vals : List (Value lib)) (row_id : ℕ)
      → All IsKeyable vals
      → All IsExact vals
      → row_id < 2 ^ 64
      → decode_composite_index_key lib (encode_composite_index_key vals row_id)
        ≡ some (vals, row_id)
  unfolding encode_composite_index_key encode_index_prefix
  decode_composite-encode_composite vals row_id k e fits =
      decode_composite_parts (encode_each vals []) (be_bytes 8 row_id) (length-be_bytes 8 row_id)
      ∙ rw (decode_values-encode_each vals k e, from_be_bytes-be_bytes 8 row_id fits)
