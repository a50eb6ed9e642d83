-- ===== src/Sql/Ranges.antt =====
-- The byte ranges by which an index on one column answers a comparison:
-- `convert_value_bounds_to_bytes` of crates/h2-sql/src/executor/query.rs.
pub mod Agree
pub mod Scan
pub mod Compared
use h2database_rust.Prelude.{[], ◌∷◌}
use h2database_rust.Tree.Scan.{Bound}
use h2database_rust.Sql.Value.{External, Value}
use h2database_rust.Sql.Encoding.{encode_index_prefix, encode_index_key_max}

-- `std::ops::Bound<Value>`
pub data ValueBound (A : Type 0) : Type 0 where
  unbounded : ValueBound A
  included : A → ValueBound A
  excluded : A → ValueBound A

module _ {lib : External} where
  -- `cast_val` is the cast to the column's type that the function makes from the table.
  unfoldable pub start_bytes : (Value lib → Value lib) → ValueBound (Value lib) → Bound
  start_bytes cast_val (included v) = Bound.included (encode_index_prefix (cast_val v ∷ []))
  start_bytes cast_val (excluded v) = Bound.excluded (encode_index_key_max (cast_val v ∷ []))
  start_bytes cast_val unbounded = Bound.unbounded

  unfoldable pub end_bytes : (Value lib → Value lib) → ValueBound (Value lib) → Bound
  end_bytes cast_val (included v) = Bound.included (encode_index_key_max (cast_val v ∷ []))
  end_bytes cast_val (excluded v) = Bound.excluded (encode_index_prefix (cast_val v ∷ []))
  end_bytes cast_val unbounded = Bound.unbounded

  unfoldable pub convert_value_bounds_to_bytes :
      (Value lib → Value lib) → ValueBound (Value lib) → ValueBound (Value lib) → Bound × Bound
  convert_value_bounds_to_bytes cast_val start end =
      (start_bytes cast_val start, end_bytes cast_val end)
