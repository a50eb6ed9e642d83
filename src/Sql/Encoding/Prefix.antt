-- ===== src/Sql/Encoding/Prefix.antt =====
-- The prefix scan by which an index looks for equal values: crates/h2-sql/src/executor/statement.rs
-- scans for `encode_index_prefix(&vals)`.
use mathlib.Core.List.{append_assoc}
use h2database_rust.Prelude.{
  ℕ, ◌≡◌, refl, sym, ap, ◌∙◌, true, Option, none, some, ◌↔◌, List, [], ◌∷◌, ◌++◌, arith, length,
  drop, drop_len, All,
}
use h2database_rust.Bytes.Order.{Bytes}
use h2database_rust.Bytes.Words.{be_bytes}
use h2database_rust.Sql.Value.{External, Value}
use h2database_rust.Sql.Encoding.{
  encode_memcomparable_value, decode_tagged, decode_memcomparable_value, encode_each,
  encode_index_prefix, encode_composite_index_key,
}
use h2database_rust.Sql.Encoding.RoundTrip.{
  IsKeyable, IsExact, decode-encode, encode_each-nil, first_code,
}
use h2database_rust.Tree.Scan.{starts_with}

starts_with-append : (p x : Bytes) → starts_with (p ++ x) p ≡ true
unfolding starts_with
starts_with-append [] [] = refl
starts_with-append [] (b ∷ x) = refl
starts_with-append (b ∷ p) x = ground (arith, starts_with-append p x)

starts_with-split : (k p : Bytes) → starts_with k p ≡ true → k ≡ p ++ drop (length p) k
unfolding starts_with
starts_with-split k [] h = refl
starts_with-split [] (x ∷ p) h = absurd (cc)
starts_with-split (y ∷ k) (x ∷ p) h = ground (arith, starts_with-split k p)

module _ {lib : External} where
  not_a_value : (rest : Bytes) → decode_memcomparable_value lib (0 ∷ rest) ≡ none
  unfolding decode_memcomparable_value decode_tagged
  not_a_value rest = refl

  first_value :
      (v : Value lib) (vs : List (Value lib)) (x : Bytes)
      → IsKeyable v
      → IsExact v
      → decode_memcomparable_value lib (encode_each (v ∷ vs) [] ++ x)
        ≡ some (v, length (encode_memcomparable_value v []))
  first_value v vs x k e = rw (first_code v vs x) (decode-encode v (encode_each vs [] ++ x) k e)

  no_value :
      (x : Bytes) → decode_memcomparable_value lib (encode_each {lib = lib} [] [] ++ (0 ∷ x)) ≡ none
  no_value x = rw (encode_each-nil lib) (not_a_value x)

  -- Codes of lists that are ended by a zero byte are told apart.
  codes_differ :
      (vs ws : List (Value lib)) (x y : Bytes)
      → All IsKeyable vs
      → All IsExact vs
      → All IsKeyable ws
      → All IsExact ws
      → encode_each vs [] ++ (0 ∷ x) ≡ encode_each ws [] ++ (0 ∷ y)
      → vs ≡ ws
  codes_differ [] [] x y kv ev kw ew h = refl
  codes_differ [] (w ∷ ws) x y kv ev kw ew h =
      let none_read : decode_memcomparable_value lib (encode_each (w ∷ ws) [] ++ (0 ∷ y)) ≡ none =
        ap (decode_memcomparable_value lib) (sym h) ∙ no_value x in
      absurd (cc (first_value w ws (0 ∷ y) kw.0 ew.0))
  codes_differ (v ∷ vs) [] x y kv ev kw ew h =
      let none_read : decode_memcomparable_value lib (encode_each (v ∷ vs) [] ++ (0 ∷ x)) ≡ none =
        ap (decode_memcomparable_value lib) h ∙ no_value y in
      absurd (cc (first_value v vs (0 ∷ x) kv.0 ev.0))
  codes_differ (v ∷ vs) (w ∷ ws) x y kv ev kw ew h =
      let code : Bytes = encode_memcomparable_value v [] in
      let other : Bytes = encode_memcomparable_value w [] in
      let both : ◌≡◌ {A = Option (Value lib × ℕ)} (some (v, length code)) (some (w, length other)) =
        sym (first_value v vs (0 ∷ x) kv.0 ev.0)
        ∙ ap (decode_memcomparable_value lib) h
        ∙ first_value w ws (0 ∷ y) kw.0 ew.0 in
      let value : v ≡ w = cc in
      let size : length code ≡ length other = cc in
      let rest : encode_each vs [] ++ (0 ∷ x) ≡ encode_each ws [] ++ (0 ∷ y) =
        sym (drop_len (length code) code (encode_each vs [] ++ (0 ∷ x)) refl)
        ∙ ap (drop (length code)) (sym (first_code v vs (0 ∷ x)) ∙ h ∙ first_code w ws (0 ∷ y))
        ∙ drop_len (length code) other (encode_each ws [] ++ (0 ∷ y)) (sym size) in
      let same : vs ≡ ws = codes_differ vs ws x y kv.1 ev.1 kw.1 ew.1 rest in cc

  -- An index key starts with the prefix of a list of values exactly when it is a key of that list,
  -- whatever its row, where both lists hold values that can be read back from a key.
  pub encode_index_prefix-starts_with :
      (vals : List (Value lib)) (others : List (Value lib)) (row_id : ℕ)
      → All IsKeyable vals
      → All IsExact vals
      → All IsKeyable others
      → All IsExact others
      → (starts_with (encode_composite_index_key others row_id) (encode_index_prefix vals) ≡ true)
        ↔ (vals ≡ others)
  unfolding encode_composite_index_key encode_index_prefix
  encode_index_prefix-starts_with vals others row_id k e k' e' = (
    λ h.
        let prefix : Bytes = encode_each vals [] ++ (0 ∷ []) in
        let key : Bytes = (encode_each others [] ++ (0 ∷ [])) ++ be_bytes 8 row_id in
        let rest : Bytes = drop (length prefix) key in
        sym (
          codes_differ others vals (be_bytes 8 row_id) rest k' e' k e (
            sym (append_assoc (encode_each others []) (0 ∷ []) (be_bytes 8 row_id))
            ∙ starts_with-split key prefix h
            ∙ append_assoc (encode_each vals []) (0 ∷ []) rest)),
    λ h. rw (h) (starts_with-append (encode_each others [] ++ (0 ∷ [])) (be_bytes 8 row_id)),
  )
