-- ===== src/Sql/Ranges/Agree.antt =====
-- Where the byte bounds lie among the keys of an index.
use Prim.Native.Nat.{compare, Ordering}
use mathlib.Core.List.{append_assoc}
use h2database_rust.Prelude.{
  ℕ, ◌-◌, ◌^◌, ◌<◌, ◌≡◌, refl, sym, ap, ◌∙◌, Bool, true, false, [], ◌∷◌, ◌++◌, arith, if◌then◌else◌,
  length, replicate,
}
use h2database_rust.Bytes.Order.{Bytes, cmp, gt_of_lt}
use h2database_rust.Tree.Scan.{within_end}
use h2database_rust.Tree.Scan.Range.{after_start}
use h2database_rust.Bytes.Words.{be_bytes}
use h2database_rust.Bytes.Words.Laws.{◌then◌, length-be_bytes}
use h2database_rust.Sql.Value.{External, Value}
use h2database_rust.Sql.Encoding.{
  encode_each, encode_index_prefix, encode_composite_index_key, encode_index_key,
  encode_index_key_max,
}
use h2database_rust.Sql.Encoding.RoundTrip.{IsKeyable}
use h2database_rust.Sql.Encoding.Order.{cmp_value, cmp-encode_each, cmp-encode_composite}
use h2database_rust.Sql.Ranges.{ValueBound, unbounded, included, excluded, start_bytes, end_bytes}

last_row : be_bytes 8 (2 ^ 64 - 1) ≡ replicate 8 0xFF
unfolding be_bytes
last_row = refl

-- `a <= b` and `a < b` by the result of a comparison.
abbrev pub at_most : Ordering → Bool
at_most Ordering.gt = false
at_most o = true

abbrev pub below : Ordering → Bool
below Ordering.lt = true
below o = false

module _ {lib : External} (cast_val : Value lib → Value lib) where
  -- The values that a comparison with the cast bound admits.
  abbrev pub after_value : ValueBound (Value lib) → Value lib → Bool
  after_value unbounded v = true
  after_value (included b) v = at_most (cmp_value (cast_val b) v)
  after_value (excluded b) v = below (cmp_value (cast_val b) v)

  abbrev pub before_value : ValueBound (Value lib) → Value lib → Bool
  before_value unbounded v = true
  before_value (included b) v = at_most (cmp_value v (cast_val b))
  before_value (excluded b) v = below (cmp_value v (cast_val b))

  abbrev pub IsKeyableBound : ValueBound (Value lib) → Type 0
  IsKeyableBound unbounded = Unit {0}
  IsKeyableBound (included b) = IsKeyable (cast_val b)
  IsKeyableBound (excluded b) = IsKeyable (cast_val b)

nothing_first : (w : Bytes) → length w ≡ 8 → cmp [] w ≡ Ordering.lt
unfolding cmp
nothing_first [] h = absurd (omega arith)
nothing_first (x ∷ w) h = refl

max_key :
    {lib : External} (b : Value lib)
    → encode_index_key_max (b ∷ []) ≡ encode_composite_index_key (b ∷ []) (2 ^ 64 - 1)
unfolding encode_index_key_max encode_composite_index_key
max_key b = ap (λ w. encode_index_prefix (b ∷ []) ++ w) (sym last_row)

module _ {lib : External} (b v : Value lib) (row : ℕ) (kb : IsKeyable b) (kv : IsKeyable v) where
  prefix_first :
      cmp (encode_index_prefix (b ∷ [])) (encode_index_key v row)
      ≡ ((cmp_value b v then Ordering.eq) then Ordering.lt)
  unfolding encode_index_key encode_composite_index_key encode_index_prefix cmp
  prefix_first = rw (append_assoc (encode_each (v ∷ []) []) (0 ∷ []) (be_bytes 8 row)) (
      cmp-encode_each (b ∷ []) (v ∷ []) [] (be_bytes 8 row) (kb, tt) (kv, tt)
      ∙ ap (λ o. cmp_value b v then Ordering.eq then o)
          (nothing_first (be_bytes 8 row) (length-be_bytes 8 row)))

  prefix_last :
      cmp (encode_index_key v row) (encode_index_prefix (b ∷ []))
      ≡ ((cmp_value v b then Ordering.eq) then Ordering.gt)
  unfolding encode_index_key encode_composite_index_key encode_index_prefix cmp
  prefix_last = rw (append_assoc (encode_each (v ∷ []) []) (0 ∷ []) (be_bytes 8 row)) (
      cmp-encode_each (v ∷ []) (b ∷ []) (be_bytes 8 row) [] (kv, tt) (kb, tt)
      ∙ ap (λ o. cmp_value v b then Ordering.eq then o)
          (gt_of_lt [] (be_bytes 8 row) (nothing_first (be_bytes 8 row) (length-be_bytes 8 row))))

  module _ (fits : row < 2 ^ 64) where
    max_first :
        cmp (encode_index_key_max (b ∷ [])) (encode_index_key v row)
        ≡ ((cmp_value b v then Ordering.eq) then compare (2 ^ 64 - 1) row)
    unfolding encode_index_key
    max_first =
        ap (λ m. cmp m (encode_index_key v row)) (max_key b)
        ∙ cmp-encode_composite (b ∷ []) (v ∷ []) (2 ^ 64 - 1) row (kb, tt) (kv, tt) (omega arith)
            fits

    max_last :
        cmp (encode_index_key v row) (encode_index_key_max (b ∷ []))
        ≡ ((cmp_value v b then Ordering.eq) then compare row (2 ^ 64 - 1))
    unfolding encode_index_key
    max_last =
        ap (cmp (encode_index_key v row)) (max_key b)
        ∙ cmp-encode_composite (v ∷ []) (b ∷ []) row (2 ^ 64 - 1) (kv, tt) (kb, tt) fits
            (omega arith)

module _ {lib : External} (cast_val : Value lib → Value lib) (v : Value lib) (row : ℕ) where
  pub start_agrees :
      (start : ValueBound (Value lib))
      → IsKeyableBound cast_val start
      → IsKeyable v
      → row < 2 ^ 64
      → after_start (start_bytes cast_val start) (encode_index_key v row)
        ≡ after_value cast_val start v
  unfolding start_bytes after_start
  start_agrees unbounded kb kv h = refl
  start_agrees (included b) kb kv h = ground (arith, prefix_first (cast_val b) v row kb kv)
  start_agrees (excluded b) kb kv h = ground (arith, max_first (cast_val b) v row kb kv h)

  pub end_agrees :
      (end : ValueBound (Value lib))
      → IsKeyableBound cast_val end
      → IsKeyable v
      → row < 2 ^ 64
      → within_end (end_bytes cast_val end) (encode_index_key v row) ≡ before_value cast_val end v
  unfolding end_bytes within_end
  end_agrees unbounded kb kv h = refl
  end_agrees (included b) kb kv h = ground (arith, max_last (cast_val b) v row kb kv h)
  end_agrees (excluded b) kb kv h = ground (arith, prefix_last (cast_val b) v row kb kv)
