-- ===== src/Sql/Ranges/Scan.antt =====
-- A range scan of an index finds the keys of the values in the range.

use h2database_rust.Prelude.{
  ℕ, ◌^◌, ◌<◌, ◌≡◌, refl, ap, ◌∙◌, Bool, ◌&&◌, some, List, [], ◌∷◌, if◌then◌else◌, All, Bool-cases,
  inl, inr,
}
use h2database_rust.Bytes.Order.{Bytes}
use h2database_rust.Tree.{Entry, MvTree}
use h2database_rust.Tree.Model.{IsValid, contents}
use h2database_rust.Tree.Scan.{scan_range}
use h2database_rust.Tree.Scan.Keep.{keep}
use h2database_rust.Tree.Scan.Range.{in_range, scan_range-keep}
use h2database_rust.Bytes.Words.Laws.{◌then◌}
use h2database_rust.Sql.Value.{External, Value}
use h2database_rust.Sql.Encoding.{encode_index_key}
use h2database_rust.Sql.Encoding.RoundTrip.{IsKeyable}
use h2database_rust.Sql.Ranges.{ValueBound, start_bytes, end_bytes, convert_value_bounds_to_bytes}
use h2database_rust.Sql.Ranges.Agree.{
  after_value, before_value, IsKeyableBound, start_agrees, end_agrees,
}

-- An index as its rows: a value, the row that has it, and what is stored with the key.
pub record IndexRow (lib : External) : Type 0 where
  pub column : Value lib
  pub row_id : ℕ
  pub stored : Bytes

module _ {lib : External} where
  abbrev pub index_entries : List (IndexRow lib) → List Entry
  index_entries [] = []
  index_entries (r ∷ rows) =
      record { key = encode_index_key r.column r.row_id; value = r.stored } ∷ index_entries rows

  abbrev pub rows_within :
      (Value lib → Value lib)
      → ValueBound (Value lib)
      → ValueBound (Value lib)
      → List (IndexRow lib)
      → List (IndexRow lib)
  rows_within cast_val start end [] = []
  rows_within cast_val start end (r ∷ rows) =
      if after_value cast_val start r.column && before_value cast_val end r.column
      then r ∷ rows_within cast_val start end rows
      else rows_within cast_val start end rows

  abbrev pub IsIndexRow : IndexRow lib → Type 0
  IsIndexRow r = IsKeyable r.column × (r.row_id < 2 ^ 64)

  keep-rows_within :
      (cast_val : Value lib → Value lib) (start end : ValueBound (Value lib))
      (rows : List (IndexRow lib))
      → IsKeyableBound cast_val start
      → IsKeyableBound cast_val end
      → All IsIndexRow rows
      → keep (in_range (start_bytes cast_val start) (end_bytes cast_val end)) (index_entries rows)
        ≡ index_entries (rows_within cast_val start end rows)
  unfolding keep in_range
  keep-rows_within cast_val start end [] ks ke a = refl
  keep-rows_within cast_val start end (r ∷ rows) ks ke a =
      let within : Bool =
        after_value cast_val start r.column && before_value cast_val end r.column in
      let rest = keep-rows_within cast_val start end rows ks ke a.1 in
      rw
        (
          start_agrees cast_val r.column r.row_id start ks a.0.0 a.0.1,
          end_agrees cast_val r.column r.row_id end ke a.0.0 a.0.1,
          rest,
        )
        (elim (Bool-cases within) [ inl yes_in ↦ rw yes_in | inr not_in ↦ rw not_in ])

  -- In a valid tree that holds the keys of an index on one column, whose values are of the kinds that
  -- a key holds, the range scan over the converted bounds, of such kinds too, does not panic and
  -- returns just the entries of the rows whose values the cast bounds admit by `cmp_value`, in order.
  pub scan_range-convert_value_bounds :
      (t : MvTree) (rows : List (IndexRow lib)) (cast_val : Value lib → Value lib)
      (start end : ValueBound (Value lib))
      → IsValid t
      → contents t ≡ index_entries rows
      → All IsIndexRow rows
      → IsKeyableBound cast_val start
      → IsKeyableBound cast_val end
      → scan_range t
          (convert_value_bounds_to_bytes cast_val start end).0
          (convert_value_bounds_to_bytes cast_val start end).1
        ≡ some (index_entries (rows_within cast_val start end rows))
  unfolding convert_value_bounds_to_bytes
  scan_range-convert_value_bounds t rows cast_val start end v c a ks ke =
      scan_range-keep t (start_bytes cast_val start) (end_bytes cast_val end) v
      ∙ ap (λ es. some (keep (in_range (start_bytes cast_val start) (end_bytes cast_val end)) es)) c
      ∙ ap some (keep-rows_within cast_val start end rows ks ke a)
