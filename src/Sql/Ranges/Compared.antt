-- ===== src/Sql/Ranges/Compared.antt =====
-- A range scan of an index finds the rows whose values `PartialOrd` puts in the range.
use Prim.Native.Nat.{Ordering}
use h2database_rust.Prelude.{
  ◌≡◌, refl, ap, ◌∙◌, Bool, true, false, ◌&&◌, Option, none, some, List, [], ◌∷◌, if◌then◌else◌,
  All,
}
use h2database_rust.Tree.{MvTree}
use h2database_rust.Tree.Model.{IsValid, contents}
use h2database_rust.Tree.Scan.{scan_range}
use h2database_rust.Sql.Value.{External, Value}
use h2database_rust.Sql.Encoding.RoundTrip.{IsKeyable}
use h2database_rust.Sql.Compare.{partial_cmp}
use h2database_rust.Sql.Compare.Keys.{IsRanked, AreAlike, partial_cmp-cmp_value}
use h2database_rust.Sql.Ranges.{
  ValueBound, unbounded, included, excluded, convert_value_bounds_to_bytes,
}
use h2database_rust.Sql.Ranges.Agree.{at_most, below, after_value, before_value, IsKeyableBound}
use h2database_rust.Sql.Ranges.Scan.{
  IndexRow, IsIndexRow, index_entries, rows_within, scan_range-convert_value_bounds,
}

-- `<=` and `<` by `partial_cmp`; values that do not compare are not in order.
abbrev pub is_le : Option Ordering → Bool
is_le none = false
is_le (some o) = at_most o

abbrev pub is_lt : Option Ordering → Bool
is_lt none = false
is_lt (some o) = below o

module _ {lib : External} (others : Value lib → Value lib → Option Ordering)
    (cast_val : Value lib → Value lib) where
  -- Whether a value is not below the start, or not above the end, by `PartialOrd`.
  abbrev pub is_after : ValueBound (Value lib) → Value lib → Bool
  is_after unbounded v = true
  is_after (included b) v = is_le (partial_cmp others (cast_val b) v)
  is_after (excluded b) v = is_lt (partial_cmp others (cast_val b) v)

  abbrev pub is_before : ValueBound (Value lib) → Value lib → Bool
  is_before unbounded v = true
  is_before (included b) v = is_le (partial_cmp others v (cast_val b))
  is_before (excluded b) v = is_lt (partial_cmp others v (cast_val b))

  abbrev pub rows_between :
      ValueBound (Value lib) → ValueBound (Value lib) → List (IndexRow lib) → List (IndexRow lib)
  rows_between start end [] = []
  rows_between start end (r ∷ rows) =
      if is_after start r.column && is_before end r.column
      then r ∷ rows_between start end rows
      else rows_between start end rows

  -- The cast bound is a value that its key ranks as `PartialOrd` does, of the kind of a value.
  abbrev pub IsRankedBound : ValueBound (Value lib) → Type 0
  IsRankedBound unbounded = Unit {0}
  IsRankedBound (included b) = IsKeyable (cast_val b) × IsRanked (cast_val b)
  IsRankedBound (excluded b) = IsKeyable (cast_val b) × IsRanked (cast_val b)

  abbrev pub IsAlikeBound : Value lib → ValueBound (Value lib) → Type 0
  IsAlikeBound v unbounded = Unit {0}
  IsAlikeBound v (included b) = AreAlike (cast_val b) v × AreAlike v (cast_val b)
  IsAlikeBound v (excluded b) = AreAlike (cast_val b) v × AreAlike v (cast_val b)

  keyable : (b : ValueBound (Value lib)) → IsRankedBound b → IsKeyableBound cast_val b
  keyable unbounded r = tt
  keyable (included b) r = r.0
  keyable (excluded b) r = r.0

  after_same :
      (b : ValueBound (Value lib)) (v : Value lib)
      → IsKeyable v
      → IsRanked v
      → IsRankedBound b
      → IsAlikeBound v b
      → is_after b v ≡ after_value cast_val b v
  after_same unbounded v k r rb a = refl
  after_same (included b) v k r rb a =
      rw (partial_cmp-cmp_value others (cast_val b) v rb.0 k rb.1 r a.0) refl
  after_same (excluded b) v k r rb a =
      rw (partial_cmp-cmp_value others (cast_val b) v rb.0 k rb.1 r a.0) refl

  before_same :
      (b : ValueBound (Value lib)) (v : Value lib)
      → IsKeyable v
      → IsRanked v
      → IsRankedBound b
      → IsAlikeBound v b
      → is_before b v ≡ before_value cast_val b v
  before_same unbounded v k r rb a = refl
  before_same (included b) v k r rb a =
      rw (partial_cmp-cmp_value others v (cast_val b) k rb.0 r rb.1 a.1) refl
  before_same (excluded b) v k r rb a =
      rw (partial_cmp-cmp_value others v (cast_val b) k rb.0 r rb.1 a.1) refl

  abbrev pub IsRankedRow : ValueBound (Value lib) → ValueBound (Value lib) → IndexRow lib → Type 0
  IsRankedRow start end r =
      IsRanked r.column × IsAlikeBound r.column start × IsAlikeBound r.column end

  rows_same :
      (start end : ValueBound (Value lib)) (rows : List (IndexRow lib))
      → All IsIndexRow rows
      → All (IsRankedRow start end) rows
      → IsRankedBound start
      → IsRankedBound end
      → rows_within cast_val start end rows ≡ rows_between start end rows
  rows_same start end [] a r rs re = refl
  rows_same start end (x ∷ rows) (a, indexed) ((r, ls, le), more) rs re =
      rw
        (
          after_same start x.column a.0 r rs ls,
          before_same end x.column a.0 r re le,
          rows_same start end rows indexed more rs re,
        )
        refl

  -- In a valid tree that holds the keys of an index on one column, the range scan over the converted
  -- bounds does not panic and returns just the entries of the rows whose values are between the cast
  -- bounds by `PartialOrd`, in order. The values and the bounds are of one kind or null; no decimals,
  -- no NaN and no -0 are among them, no kinds that keys do not hold, and only times that fit 64 bits
  -- of nanoseconds.
  pub scan_range-rows_between :
      (t : MvTree) (rows : List (IndexRow lib)) (start end : ValueBound (Value lib))
      → IsValid t
      → contents t ≡ index_entries rows
      → All IsIndexRow rows
      → All (IsRankedRow start end) rows
      → IsRankedBound start
      → IsRankedBound end
      → scan_range t
          (convert_value_bounds_to_bytes cast_val start end).0
          (convert_value_bounds_to_bytes cast_val start end).1
        ≡ some (index_entries (rows_between start end rows))
  scan_range-rows_between t rows start end v c a r rs re =
      scan_range-convert_value_bounds t rows cast_val start end v c a (keyable start rs)
        (keyable end re)
      ∙ ap (λ l. some (index_entries l)) (rows_same start end rows a r rs re)
