-- ===== src/Sql/Encoding/Unread.antt =====
-- The values that an index cannot hold: crates/h2-sql/src/executor/encoding.rs writes them all as one
-- byte, which its decoder refuses.
use mathlib.Core.List.{append_assoc}
use h2database_rust.Prelude.{
  ℕ, zero, suc, ◌+◌, ◌≡◌, refl, sym, ap, ◌∙◌, none, List, [], ◌∷◌, ◌++◌, arith, length, All,
}
use h2database_rust.Bytes.Order.{Bytes}
use h2database_rust.Bytes.Words.{be_bytes}
use h2database_rust.Bytes.Words.Laws.{length-be_bytes}
use h2database_rust.Sql.Value.{
  External, Value, null, boolean, tiny_int, small_int, integer, big_int, float, double, decimal,
  string, bytes, date, time, timestamp, uuid, json, array, interval,
}
use h2database_rust.Sql.Encoding.{
  encode_memcomparable_value, decode_tagged, decode_memcomparable_value, decode_loop,
  decode_memcomparable_values, encode_each, encode_index_prefix, encode_composite_index_key,
  decode_composite_index_key,
}
use h2database_rust.Sql.Encoding.RoundTrip.{IsKeyable, IsExact, encode_each-nil, encode_each-cons}
use h2database_rust.Sql.Encoding.Bounds.{decode_loop_enough}
use h2database_rust.Sql.Encoding.Keys.{decode_loop-encode_each, decode_composite_parts}

module _ {lib : External} where
  abbrev pub IsUnread : Value lib → Type 0
  IsUnread (time t) = Unit {0}
  IsUnread (json j) = Unit {0}
  IsUnread (array vs) = Unit {0}
  IsUnread (interval iv) = Unit {0}
  IsUnread v = ⊥

  unread_code : (u : Value lib) → IsUnread u → encode_memcomparable_value u [] ≡ 0xFF ∷ []
  unfolding encode_memcomparable_value
  unread_code (time t) h = refl
  unread_code (json j) h = refl
  unread_code (array vs) h = refl
  unread_code (interval iv) h = refl
  unread_code null h = absurd h
  unread_code (boolean b) h = absurd h
  unread_code (tiny_int i) h = absurd h
  unread_code (small_int i) h = absurd h
  unread_code (integer i) h = absurd h
  unread_code (big_int i) h = absurd h
  unread_code (float b) h = absurd h
  unread_code (double b) h = absurd h
  unread_code (decimal d) h = absurd h
  unread_code (string s) h = absurd h
  unread_code (bytes b) h = absurd h
  unread_code (date d) h = absurd h
  unread_code (timestamp t) h = absurd h
  unread_code (uuid b) h = absurd h

  refused : (rest : Bytes) → decode_memcomparable_value lib (0xFF ∷ rest) ≡ none
  unfolding decode_memcomparable_value decode_tagged
  refused rest = refl

  encode_each-++ :
      (ws vs : List (Value lib))
      → encode_each (ws ++ vs) [] ≡ encode_each ws [] ++ encode_each vs []
  encode_each-++ [] vs = rw (encode_each-nil lib)
  encode_each-++ (w ∷ ws) vs =
      rw (encode_each-cons w (ws ++ vs), encode_each-cons w ws, encode_each-++ ws vs)
        (sym
          (append_assoc (encode_memcomparable_value w []) (encode_each ws []) (encode_each vs [])))

  loop_refused :
      (fuel : ℕ) (acc : List (Value lib)) (rest : Bytes)
      → decode_loop lib fuel acc (0xFF ∷ rest) ≡ none
  unfolding decode_loop
  loop_refused zero acc rest = refl
  loop_refused (suc fuel) acc rest = rw (refused rest, decode_loop)

  -- An index key that holds a time, a JSON value, an array or an interval after values that can be
  -- read back is refused by `decode_composite_index_key`, whatever follows.
  pub decode_composite-IsUnread :
      (ws : List (Value lib)) (u : Value lib) (vs : List (Value lib)) (row_id : ℕ)
      → All IsKeyable ws
      → All IsExact ws
      → IsUnread u
      → decode_composite_index_key lib (encode_composite_index_key (ws ++ (u ∷ vs)) row_id) ≡ none
  unfolding encode_composite_index_key encode_index_prefix decode_memcomparable_values
  decode_composite-IsUnread ws u vs row_id k e h =
      let code : Bytes = encode_each (ws ++ (u ∷ vs)) [] in
      let tail : Bytes = encode_each vs [] in
      let shape : code ≡ encode_each ws [] ++ (0xFF ∷ tail) =
        encode_each-++ ws (u ∷ vs)
        ∙ ap (λ c. encode_each ws [] ++ c)
            (encode_each-cons u vs ∙ ap (λ c. c ++ tail) (unread_code u h)) in
      let loop : decode_loop lib (length code) [] code ≡ none =
        decode_loop_enough lib (length code) (length ws + length code) [] code (omega arith)
          (omega arith)
        ∙ ap (decode_loop lib (length ws + length code) []) shape
        ∙ decode_loop-encode_each (length code) [] ws (0xFF ∷ tail) k e
        ∙ loop_refused (length code) ws tail in
      decode_composite_parts code (be_bytes 8 row_id) (length-be_bytes 8 row_id) ∙ rw loop
