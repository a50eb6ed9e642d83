-- ===== src/Sql/Encoding/Order.antt =====
-- The order of the keys that crates/h2-sql/src/executor/encoding.rs writes. `tag` and `payload` say
-- what of a value its key holds, and `cmp_value` how values stand by that.
use Prim.Native.Nat.{compare, Ordering}
use mathlib.Core.List.{append_assoc}
use h2database_rust.Prelude.{
  ℕ, suc, ◌^◌, ◌%◌, ◌<◌, ◌≡◌, refl, sym, ap, ◌∙◌, List, [], ◌∷◌, ◌++◌, arith, if◌then◌else◌, All,
  Option-cases, inl, inr,
}
use h2database_rust.Bytes.Order.{Bytes, cmp}
use h2database_rust.Bytes.Words.{ℤ, pos, IsSigned, as_unsigned, flip_top, be_bytes}
use h2database_rust.Bytes.Words.Laws.{biased, biased-lt, flip_top-as_unsigned, ◌then◌, cmp-be_bytes}
use h2database_rust.Sql.Value.{
  External, Value, null, boolean, tiny_int, small_int, integer, big_int, float, double, decimal,
  string, bytes, date, time, timestamp, uuid, json, array, interval,
}
use h2database_rust.Sql.Encoding.{
  float_key, encode_memcomparable_value, unwrap_or, encode_each, encode_index_prefix,
  encode_composite_index_key,
}
use h2database_rust.Sql.Encoding.Fields.{text_bytes}
use h2database_rust.Sql.Encoding.RoundTrip.{IsKeyable, encode_each-nil, first_code}
use h2database_rust.Sql.Encoding.Payload.{
  float_number, Payload, void, flag, number, text, block, cmp_payload, wire, IsPayload, shape,
  shape_of, cmp-cons, then_assoc, cmp-wire, float_key-number,
}

signed_word :
    (n k : ℕ) (i : ℤ)
    → IsSigned k i
    → be_bytes n (flip_top k (as_unsigned k i)) ≡ be_bytes n (biased k i)
signed_word n k i h = ap (be_bytes n) (flip_top-as_unsigned k i h)

float_word :
    (n k u : ℕ)
    → u < 2 ^ suc k
    → be_bytes n (float_key k u) ≡ be_bytes n (biased k (float_number k u))
float_word n k u h = ap (be_bytes n) (float_key-number k u h).0

nanos_fit :
    (lib : External) (t : lib.DateTime)
    → IsSigned 63 (unwrap_or (lib.timestamp_nanos_opt t) (pos 0))
nanos_fit lib t = elim (Option-cases (lib.timestamp_nanos_opt t)) [
  | inl e ↦ rw e (omega arith)
  | inr (n, e) ↦ rw e (lib.nanos_fits t n e)
]

double_fits : (lib : External) (d : lib.Decimal) → unwrap_or (lib.to_f64 d) 0 < 2 ^ 64
double_fits lib d = elim (Option-cases (lib.to_f64 d)) [
  | inl e ↦ rw e (omega arith)
  | inr (u, e) ↦ rw e (lib.to_f64_fits d u e)
]

module _ {lib : External} where
  -- The number of a value's kind: null before all others, and the kinds in this order.
  abbrev pub tag : Value lib → ℕ
  tag null = 1
  tag (boolean b) = 2
  tag (tiny_int i) = 3
  tag (small_int i) = 4
  tag (integer i) = 5
  tag (big_int i) = 6
  tag (float u) = 7
  tag (double u) = 8
  tag (string s) = 9
  tag (date d) = 10
  tag (timestamp t) = 11
  tag (decimal d) = 12
  tag (bytes b) = 13
  tag (uuid u) = 14
  tag (time t) = 255
  tag (json j) = 255
  tag (array vs) = 255
  tag (interval iv) = 255

  -- A decimal counts by the double that it is converted to, and a time by its nanoseconds, 0 where
  -- they do not fit.
  abbrev pub payload : Value lib → Payload
  payload (boolean b) = flag b
  payload (tiny_int i) = number 1 7 i
  payload (small_int i) = number 2 15 i
  payload (integer i) = number 4 31 i
  payload (big_int i) = number 8 63 i
  payload (float u) = number 4 31 (float_number 31 u)
  payload (double u) = number 8 63 (float_number 63 u)
  payload (string s) = text s
  payload (date d) = number 4 31 (lib.num_days_from_ce d)
  payload (timestamp t) = number 8 63 (unwrap_or (lib.timestamp_nanos_opt t) (pos 0))
  payload (decimal d) = number 8 63 (float_number 63 (unwrap_or (lib.to_f64 d) 0))
  payload (bytes b) = text b
  payload (uuid u) = block u
  payload v = void

  abbrev pub cmp_value : Value lib → Value lib → Ordering
  cmp_value v w = compare (tag v) (tag w) then cmp_payload (payload v) (payload w)

  abbrev pub cmp_values : List (Value lib) → List (Value lib) → Ordering
  cmp_values [] [] = Ordering.eq
  cmp_values [] (w ∷ ws) = Ordering.lt
  cmp_values (v ∷ vs) [] = Ordering.gt
  cmp_values (v ∷ vs) (w ∷ ws) = cmp_value v w then cmp_values vs ws

  payload-IsPayload : (v : Value lib) → IsKeyable v → IsPayload (payload v)
  payload-IsPayload null k = tt
  payload-IsPayload (boolean b) k = tt
  payload-IsPayload (tiny_int i) k = (refl, k)
  payload-IsPayload (small_int i) k = (refl, k)
  payload-IsPayload (integer i) k = (refl, k)
  payload-IsPayload (big_int i) k = (refl, k)
  payload-IsPayload (float u) k = (refl, (float_key-number 31 u k).1)
  payload-IsPayload (double u) k = (refl, (float_key-number 63 u k).1)
  payload-IsPayload (string s) k = tt
  payload-IsPayload (date d) k = (refl, lib.num_days_fits d)
  payload-IsPayload (timestamp t) k = (refl, nanos_fit lib t)
  payload-IsPayload (decimal d) k = (refl, (float_key-number 63 _ (double_fits lib d)).1)
  payload-IsPayload (bytes b) k = tt
  payload-IsPayload (uuid u) k = k
  payload-IsPayload (time t) k = tt
  payload-IsPayload (json j) k = tt
  payload-IsPayload (array vs) k = tt
  payload-IsPayload (interval iv) k = tt

  shape-payload : (v : Value lib) → shape (payload v) ≡ shape_of (tag v)
  shape-payload null = refl
  shape-payload (boolean b) = refl
  shape-payload (tiny_int i) = refl
  shape-payload (small_int i) = refl
  shape-payload (integer i) = refl
  shape-payload (big_int i) = refl
  shape-payload (float u) = refl
  shape-payload (double u) = refl
  shape-payload (string s) = refl
  shape-payload (date d) = refl
  shape-payload (timestamp t) = refl
  shape-payload (decimal d) = refl
  shape-payload (bytes b) = refl
  shape-payload (uuid u) = refl
  shape-payload (time t) = refl
  shape-payload (json j) = refl
  shape-payload (array vs) = refl
  shape-payload (interval iv) = refl

  -- The code of a value is its tag and its payload.
  value_code :
      (v : Value lib) → IsKeyable v → encode_memcomparable_value v [] ≡ tag v ∷ wire (payload v)
  unfolding encode_memcomparable_value
  value_code null k = refl
  value_code (boolean b) k = refl
  value_code (tiny_int i) k =
      let whole : biased 7 i ≡ biased 7 i % 256 = omega (arith, biased-lt 7 i k) in
      ap (λ b. 3 ∷ (b ∷ [])) (flip_top-as_unsigned 7 i k ∙ whole)
  value_code (small_int i) k = ap (◌∷◌ 4) (signed_word 2 15 i k)
  value_code (integer i) k = ap (◌∷◌ 5) (signed_word 4 31 i k)
  value_code (big_int i) k = ap (◌∷◌ 6) (signed_word 8 63 i k)
  value_code (float u) k = ap (◌∷◌ 7) (float_word 4 31 u k)
  value_code (double u) k = ap (◌∷◌ 8) (float_word 8 63 u k)
  value_code (string s) k = sym (text_bytes 0x09 s)
  value_code (date d) k =
      ap (◌∷◌ 10) (signed_word 4 31 (lib.num_days_from_ce d) (lib.num_days_fits d))
  value_code (timestamp t) k = ap (◌∷◌ 11) (signed_word 8 63 _ (nanos_fit lib t))
  value_code (decimal d) k = ap (◌∷◌ 12) (float_word 8 63 _ (double_fits lib d))
  value_code (bytes b) k = sym (text_bytes 0x0D b)
  value_code (uuid u) k = refl
  value_code (time t) k = absurd k
  value_code (json j) k = absurd k
  value_code (array vs) k = absurd k
  value_code (interval iv) k = absurd k

  same_shape : (v w : Value lib) → tag v ≡ tag w → shape (payload v) ≡ shape (payload w)
  same_shape v w e = shape-payload v ∙ ap shape_of e ∙ sym (shape-payload w)

  -- One encoded value decides, or what follows it.
  pub cmp-encode :
      (v w : Value lib) (x y : Bytes)
      → IsKeyable v
      → IsKeyable w
      → cmp (encode_memcomparable_value v [] ++ x) (encode_memcomparable_value w [] ++ y)
        ≡ (cmp_value v w then cmp x y)
  cmp-encode v w x y kv kw =
      rw (value_code v kv, value_code w kw)
        (cmp-cons (tag v) (tag w) (wire (payload v) ++ x) (wire (payload w) ++ y)
          ∙ finish (compare (tag v) (tag w)) refl
          ∙ sym (
              then_assoc (compare (tag v) (tag w)) (cmp_payload (payload v) (payload w)) (cmp x y)))
    where
      finish :
          (o : Ordering)
          → compare (tag v) (tag w) ≡ o
          → (o then cmp (wire (payload v) ++ x) (wire (payload w) ++ y))
            ≡ (o then (cmp_payload (payload v) (payload w) then cmp x y))
      finish Ordering.lt e = refl
      finish Ordering.eq e =
          cmp-wire (payload v) (payload w) x y (payload-IsPayload v kv) (payload-IsPayload w kw)
            (same_shape v w (ground arith))
      finish Ordering.gt e = refl

  below_tags : (w : Value lib) → compare 0 (tag w) ≡ Ordering.lt
  below_tags null = refl
  below_tags (boolean b) = refl
  below_tags (tiny_int i) = refl
  below_tags (small_int i) = refl
  below_tags (integer i) = refl
  below_tags (big_int i) = refl
  below_tags (float u) = refl
  below_tags (double u) = refl
  below_tags (string s) = refl
  below_tags (date d) = refl
  below_tags (timestamp t) = refl
  below_tags (decimal d) = refl
  below_tags (bytes b) = refl
  below_tags (uuid u) = refl
  below_tags (time t) = refl
  below_tags (json j) = refl
  below_tags (array vs) = refl
  below_tags (interval iv) = refl

  pub cmp-encode_each :
      (vs ws : List (Value lib)) (x y : Bytes)
      → All IsKeyable vs
      → All IsKeyable ws
      → cmp (encode_each vs [] ++ (0 ∷ x)) (encode_each ws [] ++ (0 ∷ y))
        ≡ (cmp_values vs ws then cmp x y)
  cmp-encode_each [] [] x y kv kw = rw (encode_each-nil lib) (cmp-cons 0 0 x y)
  cmp-encode_each [] (w ∷ ws) x y kv (kw, ls) =
      rw (encode_each-nil lib, first_code w ws (0 ∷ y), value_code w kw)
        (cmp-cons 0 (tag w) x (wire (payload w) ++ (encode_each ws [] ++ (0 ∷ y)))
          ∙ rw (below_tags w))
  cmp-encode_each (v ∷ vs) [] x y (kv, ks) kw =
      let above : compare (tag v) 0 ≡ Ordering.gt = ground (arith, below_tags v) in
      rw (encode_each-nil lib, first_code v vs (0 ∷ x), value_code v kv)
        (cmp-cons (tag v) 0 (wire (payload v) ++ (encode_each vs [] ++ (0 ∷ x))) y ∙ rw above)
  cmp-encode_each (v ∷ vs) (w ∷ ws) x y (kv, ks) (kw, ls) =
      rw (first_code v vs (0 ∷ x), first_code w ws (0 ∷ y))
        (cmp-encode v w (encode_each vs [] ++ (0 ∷ x)) (encode_each ws [] ++ (0 ∷ y)) kv kw
          ∙ ap (λ o. cmp_value v w then o) (cmp-encode_each vs ws x y ks ls)
          ∙ sym (then_assoc (cmp_value v w) (cmp_values vs ws) (cmp x y)))

  -- The bytes of two index keys stand as their values do by `cmp_value`, one after another, a list
  -- before those that extend it, and for equal values as their rows do. The values are of the kinds
  -- that a key holds, with fields of the width of their types, and the rows have 64 bits.
  pub cmp-encode_composite :
      (vs ws : List (Value lib)) (r s : ℕ)
      → All IsKeyable vs
      → All IsKeyable ws
      → r < 2 ^ 64
      → s < 2 ^ 64
      → cmp (encode_composite_index_key vs r) (encode_composite_index_key ws s)
        ≡ (cmp_values vs ws then compare r s)
  unfolding encode_composite_index_key encode_index_prefix
  cmp-encode_composite vs ws r s kv kw fr fs =
      rw
        (
          append_assoc (encode_each vs []) (0 ∷ []) (be_bytes 8 r),
          append_assoc (encode_each ws []) (0 ∷ []) (be_bytes 8 s),
        )
        (cmp-encode_each vs ws (be_bytes 8 r) (be_bytes 8 s) kv kw
          ∙ ap (λ o. cmp_values vs ws then o) (cmp-be_bytes 8 r s fr fs))
