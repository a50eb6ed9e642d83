-- ===== src/Sql/Encoding/Fields.antt =====
-- The fields of a key through the encoder and the decoder of crates/h2-sql/src/executor/encoding.rs:
-- escaped texts, floats and integers, and the arms of the decoder on a word of the right length.

use native.Mathlib.Nat.{pow-suc}
use mathlib.Core.List.{append_assoc, append-nil}
use h2database_rust.Prelude.{
  ℕ, zero, suc, ◌+◌, ◌-◌, ◌^◌, ◌<◌, ◌≡◌, ◌≢◌, refl, ap, ◌∙◌, Bool, true, false, some, [], ◌∷◌, ◌++◌,
  arith, ltb, ◌==◌, if◌then◌else◌, length, length-append, take_len,
}
use h2database_rust.Bytes.Order.{Bytes}
use h2database_rust.Bytes.Utf8.{is_utf8}
use h2database_rust.Bytes.Words.{
  ℤ, IsSigned, as_unsigned, as_signed, flip_top, be_bytes, from_be_bytes,
}
use h2database_rust.Bytes.Words.Laws.{
  flip_top_lem, and_top, biased, biased-lt, flip_top-as_unsigned, as_signed-flip_top,
  from_be_bytes-be_bytes,
}
use h2database_rust.Sql.Value.{
  External, boolean, tiny_int, small_int, integer, big_int, float, double, decimal, string, bytes,
  date, timestamp, uuid,
}
use h2database_rust.Sql.Encoding.{
  float_key, float_bits, push_escaped, unescape, decode_date, decode_string, decode_bytes,
  decode_tagged, unwrap_or,
}

-- A text with each zero byte followed by 0xFF.
abbrev pub escape : Bytes → Bytes
escape [] = []
escape (b ∷ bs) = if b == 0 then b ∷ (0xFF ∷ escape bs) else b ∷ escape bs

pub push_escaped-escape : (bs buf : Bytes) → push_escaped bs buf ≡ buf ++ escape bs
unfolding push_escaped
push_escaped-escape [] buf = simp append-nil
push_escaped-escape (b ∷ bs) buf =
    elim (b == 0)
      as (λ t.
        push_escaped bs (if t then (buf ++ (b ∷ [])) ++ (0xFF ∷ []) else buf ++ (b ∷ []))
        ≡ buf ++ (if t then b ∷ (0xFF ∷ escape bs) else b ∷ escape bs)) [
          | true ↦ simp (push_escaped-escape bs, append_assoc)
          | false ↦ simp (push_escaped-escape bs, append_assoc)
        ]

unescape-plain :
    (b : ℕ) (bs out : Bytes) (i : ℕ)
    → b ≢ 0
    → 0 < length bs
    → unescape (b ∷ bs) out i ≡ unescape bs (out ++ (b ∷ [])) (i + 1)
unfolding unescape
unescape-plain b [] out i h g = absurd (omega arith)
unescape-plain b (c ∷ bs) out i h g = ground arith

pub unescape-escape :
    (s rest out : Bytes) (i : ℕ)
    → unescape (escape s ++ (0 ∷ (0 ∷ rest))) out i ≡ (out ++ s, i + length (escape s) + 2)
unfolding unescape
unescape-escape [] rest out i = simp append-nil (ground arith)
unescape-escape (zero ∷ s) rest out i =
    let sum : i + 2 + length (escape s) + 2 ≡ i + suc (suc (length (escape s))) + 2 = omega arith in
    unescape-escape s rest (out ++ (0 ∷ [])) (i + 2) ∙ rw (append_assoc out (0 ∷ []) s, sum)
unescape-escape (suc b ∷ s) rest out i =
    let plain : (suc b == 0) ≡ false = ground arith in
    let sum : i + 1 + length (escape s) + 2 ≡ i + suc (length (escape s)) + 2 = omega arith in
    rw plain (
      unescape-plain (suc b) (escape s ++ (0 ∷ (0 ∷ rest))) out i (omega arith)
        (omega (arith, length-append (escape s) (0 ∷ (0 ∷ rest))))
      ∙ unescape-escape s rest (out ++ (suc b ∷ [])) (i + 1)
      ∙ rw (append_assoc out (suc b ∷ []) s, sum))

enough : (n : ℕ) (w rest : Bytes) → length w ≡ n → ltb (suc (length (w ++ rest))) (suc n) ≡ false
enough n w rest h = ground (arith, length-append w rest)

pub float_bits-float_key : (k u : ℕ) → u < 2 ^ suc k → float_bits k (float_key k u) ≡ u
unfolding float_bits float_key
float_bits-float_key k u h = ground (
  arith,
  pow-suc 2 k,
  and_top k u,
  flip_top_lem k u,
  and_top k (2 ^ suc k - 1 - u),
  and_top k (u + 2 ^ k),
  flip_top_lem k (u + 2 ^ k),
)

pub float_key-lt : (k u : ℕ) → u < 2 ^ suc k → float_key k u < 2 ^ suc k
unfolding float_key
float_key-lt k u h = ground (arith, pow-suc 2 k, and_top k u, flip_top_lem k u)

-- A signed integer through its big-endian bytes.
pub signed_back :
    (n k : ℕ) (i : ℤ)
    → IsSigned k i
    → 2 ^ suc k ≡ 256 ^ n
    → as_signed k (flip_top k (from_be_bytes (be_bytes n (flip_top k (as_unsigned k i))))) ≡ i
signed_back n k i h e =
    let small : biased k i < 256 ^ n = omega (arith, biased-lt k i h) in
    rw (flip_top-as_unsigned k i h, from_be_bytes-be_bytes n (biased k i) small)
      (as_signed-flip_top k i h)

pub float_back :
    (n k u : ℕ)
    → u < 2 ^ suc k
    → 2 ^ suc k ≡ 256 ^ n
    → float_bits k (from_be_bytes (be_bytes n (float_key k u))) ≡ u
float_back n k u h e =
    rw (from_be_bytes-be_bytes n (float_key k u) (omega (arith, float_key-lt k u h)))
      (float_bits-float_key k u h)

from_be_bytes-one : (x : ℕ) → from_be_bytes (x ∷ []) ≡ x
unfolding from_be_bytes
from_be_bytes-one x = omega arith

pub byte_back :
    (i : ℤ)
    → IsSigned 7 i
    → as_signed 7 (flip_top 7 (from_be_bytes (flip_top 7 (as_unsigned 7 i) ∷ []))) ≡ i
byte_back i h =
    rw (from_be_bytes-one (flip_top 7 (as_unsigned 7 i)), flip_top-as_unsigned 7 i h)
      (as_signed-flip_top 7 i h)

pub text_wire :
    (tag : ℕ) (s rest : Bytes)
    → ((push_escaped s (tag ∷ []) ++ (0 ∷ [])) ++ (0 ∷ [])) ++ rest
      ≡ tag ∷ (escape s ++ (0 ∷ (0 ∷ rest)))
text_wire tag s rest = rw push_escaped-escape (simp append_assoc)

text_size : (s : Bytes) → 1 + length (escape s) + 2 ≡ suc (length (escape s ++ (0 ∷ (0 ∷ []))))
text_size s = omega (arith, length-append (escape s) (0 ∷ (0 ∷ [])))

pub text_bytes :
    (tag : ℕ) (s : Bytes)
    → tag ∷ (escape s ++ (0 ∷ (0 ∷ []))) ≡ (push_escaped s (tag ∷ []) ++ (0 ∷ [])) ++ (0 ∷ [])
text_bytes tag s = rw push_escaped-escape (simp append_assoc)

module _ {lib : External} where
  -- The arms of the decoder, on a word of the right length.
  pub read_small_int :
      (w rest : Bytes)
      → length w ≡ 2
      → decode_tagged lib 0x04 (w ++ rest)
        ≡ some (small_int (as_signed 15 (flip_top 15 (from_be_bytes w))), 3)
  unfolding decode_tagged
  read_small_int w rest h = rw (enough 2 w rest h, take_len 2 w rest h)

  pub read_integer :
      (w rest : Bytes)
      → length w ≡ 4
      → decode_tagged lib 0x05 (w ++ rest)
        ≡ some (integer (as_signed 31 (flip_top 31 (from_be_bytes w))), 5)
  unfolding decode_tagged
  read_integer w rest h = rw (enough 4 w rest h, take_len 4 w rest h)

  pub read_big_int :
      (w rest : Bytes)
      → length w ≡ 8
      → decode_tagged lib 0x06 (w ++ rest)
        ≡ some (big_int (as_signed 63 (flip_top 63 (from_be_bytes w))), 9)
  unfolding decode_tagged
  read_big_int w rest h = rw (enough 8 w rest h, take_len 8 w rest h)

  pub read_float :
      (w rest : Bytes)
      → length w ≡ 4
      → decode_tagged lib 0x07 (w ++ rest) ≡ some (float (float_bits 31 (from_be_bytes w)), 5)
  unfolding decode_tagged
  read_float w rest h = rw (enough 4 w rest h, take_len 4 w rest h)

  pub read_double :
      (w rest : Bytes)
      → length w ≡ 8
      → decode_tagged lib 0x08 (w ++ rest) ≡ some (double (float_bits 63 (from_be_bytes w)), 9)
  unfolding decode_tagged
  read_double w rest h = rw (enough 8 w rest h, take_len 8 w rest h)

  pub read_date :
      (w rest : Bytes)
      → length w ≡ 4
      → decode_tagged lib 0x0A (w ++ rest) ≡ decode_date lib (from_be_bytes w)
  unfolding decode_tagged
  read_date w rest h = rw (enough 4 w rest h, take_len 4 w rest h)

  pub read_timestamp :
      (w rest : Bytes)
      → length w ≡ 8
      → decode_tagged lib 0x0B (w ++ rest)
        ≡ some
            (timestamp (lib.from_timestamp_nanos (as_signed 63 (flip_top 63 (from_be_bytes w)))), 9)
  unfolding decode_tagged
  read_timestamp w rest h = rw (enough 8 w rest h, take_len 8 w rest h)

  pub read_decimal :
      (w rest : Bytes)
      → length w ≡ 8
      → decode_tagged lib 0x0C (w ++ rest)
        ≡ some (
          decimal (unwrap_or (lib.from_f64 (float_bits 63 (from_be_bytes w))) lib.default_decimal),
          9,
        )
  unfolding decode_tagged
  read_decimal w rest h = rw (enough 8 w rest h, take_len 8 w rest h)

  pub read_uuid :
      (w rest : Bytes) → length w ≡ 16 → decode_tagged lib 0x0E (w ++ rest) ≡ some (uuid w, 17)
  unfolding decode_tagged
  read_uuid w rest h = rw (enough 16 w rest h, take_len 16 w rest h)

  decode_date-some :
      (u : ℕ) (d : lib.NaiveDate)
      → lib.from_num_days_from_ce_opt (as_signed 31 (flip_top 31 u)) ≡ some d
      → decode_date lib u ≡ some (date d, 5)
  unfolding decode_date
  decode_date-some u d h = rw (h, decode_date)

  pub date_back :
      (d : lib.NaiveDate)
      → decode_date lib
          (from_be_bytes (be_bytes 4 (flip_top 31 (as_unsigned 31 (lib.num_days_from_ce d)))))
        ≡ some (date d, 5)
  date_back d = decode_date-some _ d (
      ap lib.from_num_days_from_ce_opt
        (signed_back 4 31 (lib.num_days_from_ce d) (lib.num_days_fits d) refl)
      ∙ lib.num_days_back d)

  pub read_string :
      (s rest : Bytes)
      → is_utf8 s ≡ true
      → decode_string lib (unescape (escape s ++ (0 ∷ (0 ∷ rest))) [] 1)
        ≡ some (string s, suc (length (escape s ++ (0 ∷ (0 ∷ [])))))
  unfolding decode_string
  read_string s rest k = ap (decode_string lib) (unescape-escape s rest [] 1) ∙ rw (k, text_size s)

  pub read_bytes :
      (s rest : Bytes)
      → decode_bytes lib (unescape (escape s ++ (0 ∷ (0 ∷ rest))) [] 1)
        ≡ some (bytes s, suc (length (escape s ++ (0 ∷ (0 ∷ [])))))
  unfolding decode_bytes
  read_bytes s rest = ap (decode_bytes lib) (unescape-escape s rest [] 1) ∙ rw (text_size s)

  pub read_boolean :
      (b : Bool) (rest : Bytes)
      → decode_tagged lib 0x02 ((if b then 1 else 0) ∷ rest) ≡ some (boolean b, 2)
  unfolding decode_tagged from_be_bytes
  read_boolean true rest = ground arith
  read_boolean false rest = ground arith

  pub read_tiny_int :
      (w : ℕ) (rest : Bytes)
      → decode_tagged lib 0x03 (w ∷ rest)
        ≡ some (tiny_int (as_signed 7 (flip_top 7 (from_be_bytes (w ∷ [])))), 2)
  unfolding decode_tagged
  read_tiny_int w rest = rw (enough 1 (w ∷ []) rest refl)
