-- ===== src/Tests/Keys.antt =====
-- Index keys of two columns, over stand-ins for chrono, rust_decimal and serde_json with two dates,
-- two times and two decimals.
use Prim.Native.Nat.{compare, Ordering}
use h2database_rust.Prelude.{
  ℕ, ◌≤◌, ◌<◌, ◌≡◌, ◌↔◌, refl, Bool, true, false, Option, none, some, List, [], ◌∷◌, ◌^◌, arith,
  ◌==◌, if◌then◌else◌, length, inl, inr,
}
use h2database_rust.Bytes.Order.{Bytes, cmp}
use h2database_rust.Bytes.Utf8.{is_utf8}
use h2database_rust.Bytes.Words.{ℤ, pos, negsuc, cmp_int, IsSigned}
use h2database_rust.Bytes.Words.Laws.{◌then◌}
use h2database_rust.Tree.{MvTree, leaf}
use h2database_rust.Tree.Shape.{IsOrdered}
use h2database_rust.Tree.Entries.{entries}
use h2database_rust.Tree.Model.{IsValid}
use h2database_rust.Tree.Scan.{scan_range, starts_with}
use h2database_rust.Sql.Value.{External, Value, null, integer, string, decimal, date, time}
use h2database_rust.Sql.Encoding.{
  decode_memcomparable_value, encode_index_prefix, encode_composite_index_key,
  decode_composite_index_key, encode_index_key,
}
use h2database_rust.Sql.Encoding.Bounds.{decode_memcomparable_value_bounds}
use h2database_rust.Sql.Encoding.Keys.{decode_composite-encode_composite}
use h2database_rust.Sql.Encoding.Unread.{decode_composite-IsUnread}
use h2database_rust.Sql.Encoding.Prefix.{encode_index_prefix-starts_with}
use h2database_rust.Sql.Encoding.Order.{cmp-encode_composite}
use h2database_rust.Sql.Ranges.{ValueBound, unbounded, excluded, convert_value_bounds_to_bytes}
use h2database_rust.Sql.Ranges.Scan.{IndexRow, index_entries}
use h2database_rust.Sql.Ranges.Compared.{rows_between, scan_range-rows_between}
use h2database_rust.Sql.Compare.{partial_cmp_columns}
use h2database_rust.Sql.Compare.Keys.{cmp-partial_cmp_columns}

abbrev days : Bool → ℤ
days false = pos 738886
days true = pos 738887

abbrev day_of : ℤ → Option Bool
day_of (pos n) = if n == 738886 then some false else if n == 738887 then some true else none
day_of (negsuc n) = none

abbrev nanos : Bool → Option ℤ
nanos false = some (negsuc 0)
nanos true = some (pos 0)

abbrev time_of : ℤ → Bool
time_of (pos n) = true
time_of (negsuc n) = false

-- One half and one and a half.
abbrev double_of : Bool → Option ℕ
double_of false = some 0x3FE0_0000_0000_0000
double_of true = some 0x3FF8_0000_0000_0000

abbrev decimal_of : ℕ → Option Bool
decimal_of u =
    if u == 0x3FE0_0000_0000_0000
    then some false
    else if u == 0x3FF8_0000_0000_0000
    then some true
    else none

days_fit : (d : Bool) → IsSigned 31 (days d)
days_fit false = omega arith
days_fit true = omega arith

days_back : (d : Bool) → day_of (days d) ≡ some d
days_back false = refl
days_back true = refl

nanos_fit : (t : Bool) (n : ℤ) → nanos t ≡ some n → IsSigned 63 n
nanos_fit false (pos n) e = absurd (ground arith)
nanos_fit false (negsuc n) e = ground arith
nanos_fit true (pos n) e = ground arith
nanos_fit true (negsuc n) e = absurd (ground arith)

nanos_same : (t : Bool) (n : ℤ) → nanos t ≡ some n → time_of n ≡ t
nanos_same false (pos n) e = absurd (ground arith)
nanos_same false (negsuc n) e = refl
nanos_same true (pos n) e = refl
nanos_same true (negsuc n) e = absurd (ground arith)

doubles_fit : (d : Bool) (u : ℕ) → double_of d ≡ some u → u < 2 ^ 64
doubles_fit false u e = ground arith
doubles_fit true u e = ground arith

abbrev order_of : Bool → Bool → Ordering
order_of false true = Ordering.lt
order_of true false = Ordering.gt
order_of a b = Ordering.eq

days_order : (a b : Bool) → order_of a b ≡ cmp_int (days a) (days b)
days_order false false = refl
days_order false true = refl
days_order true false = refl
days_order true true = refl

nanos_order :
    (a b : Bool) (m n : ℤ) → nanos a ≡ some m → nanos b ≡ some n → order_of a b ≡ cmp_int m n
nanos_order false false m n p q = ground (arith, p, q)
nanos_order false true m n p q = ground (arith, p, q)
nanos_order true false m n p q = ground (arith, p, q)
nanos_order true true m n p q = ground (arith, p, q)

abbrev libraries : External
libraries = record {
  NaiveDate = Bool;
  NaiveTime = Bool;
  DateTime = Bool;
  Decimal = Bool;
  Json = Bool;
  num_days_from_ce = days;
  from_num_days_from_ce_opt = day_of;
  timestamp_nanos_opt = nanos;
  from_timestamp_nanos = time_of;
  to_f64 = double_of;
  from_f64 = decimal_of;
  default_decimal = false;
  cmp_date = order_of;
  cmp_time = order_of;
  cmp_datetime = order_of;
  cmp_decimal = order_of;
  num_days_fits = days_fit;
  num_days_back = days_back;
  nanos_fits = nanos_fit;
  nanos_back = nanos_same;
  date_order = days_order;
  datetime_order = nanos_order;
  to_f64_fits = doubles_fit;
}

abbrev first : List (Value libraries)
first = integer (negsuc 4) ∷ string (b'a' ∷ 0 ∷ b'b' ∷ []) ∷ date true ∷ []

abbrev second : List (Value libraries)
second = integer (negsuc 4) ∷ string (b'a' ∷ []) ∷ decimal false ∷ []

abbrev third : List (Value libraries)
third = integer (negsuc 4) ∷ string (b'a' ∷ []) ∷ null ∷ []

cmp-partial_cmp_columns_example :
    (o : Ordering) × (partial_cmp_columns
        (λ (v : Value libraries) (w : Value libraries). none)
        first
        third
      ≡ some o)
    × (cmp (encode_composite_index_key first 3) (encode_composite_index_key third 9)
        ≡ (o then compare 3 9))
unfolding is_utf8
cmp-partial_cmp_columns_example =
    cmp-partial_cmp_columns (λ v w. none) first third 3 9 (omega arith, (refl, (tt, tt)))
      (omega arith, (refl, (tt, tt))) (tt, (tt, (tt, tt))) (tt, (tt, (tt, tt)))
      (inl refl, (inl refl, (inr (inr refl), tt))) (omega arith) (omega arith)

decode_composite-encode_composite_example :
    decode_composite_index_key libraries (encode_composite_index_key first 3) ≡ some (first, 3)
unfolding is_utf8
decode_composite-encode_composite_example =
    decode_composite-encode_composite first 3 (omega arith, (refl, (tt, tt))) (tt, (tt, (tt, tt)))
      (omega arith)

encode_index_prefix-starts_with_example :
    (starts_with (encode_composite_index_key first 3) (encode_index_prefix second) ≡ true)
    ↔ ◌≡◌ {A = List (Value libraries)} second first
unfolding is_utf8
encode_index_prefix-starts_with_example =
    encode_index_prefix-starts_with second first 3 (omega arith, (refl, (tt, tt)))
      (tt, (tt, ((0x3FE0_0000_0000_0000, refl, refl), tt))) (omega arith, (refl, (tt, tt)))
      (tt, (tt, (tt, tt)))

decode_composite-IsUnread_example :
    decode_composite_index_key libraries (
      encode_composite_index_key {lib = libraries} (integer (pos 1) ∷ (time false ∷ (null ∷ []))) 3)
    ≡ none
decode_composite-IsUnread_example =
    decode_composite-IsUnread (integer (pos 1) ∷ []) (time false) (null ∷ []) 3 (omega arith, tt)
      (tt, tt) tt

abbrev stored_seven : Bytes
stored_seven = 5 ∷ 128 ∷ 0 ∷ 0 ∷ 7 ∷ 9 ∷ []

decode_seven : decode_memcomparable_value libraries stored_seven ≡ some (integer (pos 7), 5)
unfolding decode_memcomparable_value
decode_seven = refl

decode_memcomparable_value_bounds_example : (0 < 5) × (5 ≤ length stored_seven)
decode_memcomparable_value_bounds_example =
    decode_memcomparable_value_bounds libraries stored_seven (integer (pos 7)) 5 decode_seven

abbrev above_four : ValueBound (Value libraries)
above_four = excluded (integer (negsuc 4))

abbrev rows : List (IndexRow libraries)
rows =
    record { column = integer (negsuc 4); row_id = 2; stored = [] }
    ∷ record { column = integer (pos 9); row_id = 1; stored = [] }
    ∷ []

abbrev index : MvTree
index = record { root = leaf (index_entries rows); max_entries_per_page = 4; version = 0 }

index-IsValid : IsValid index
unfolding IsOrdered encode_index_key
index-IsValid = record {
  ordered = (
    (
      (
        cmp-encode_composite (integer (negsuc 4) ∷ []) (integer (pos 9) ∷ []) 2 1 (omega arith, tt)
            (omega arith, tt) (omega arith) (omega arith),
        tt,
      ),
      (tt, tt),
    ),
    ((tt, tt), ((tt, tt), tt)),
  );
  room = omega arith;
}

scan_range-rows_between_example :
    scan_range index
      (convert_value_bounds_to_bytes (λ v. v) above_four unbounded).0
      (convert_value_bounds_to_bytes (λ v. v) above_four unbounded).1
    ≡ some (index_entries (rows_between (λ v w. none) (λ v. v) above_four unbounded rows))
unfolding entries
scan_range-rows_between_example =
    scan_range-rows_between (λ v w. none) (λ v. v) index rows above_four unbounded index-IsValid
      refl ((omega arith, omega arith), ((omega arith, omega arith), tt))
      ((tt, (inl refl, inl refl), tt), ((tt, (inl refl, inl refl), tt), tt)) (omega arith, tt) tt
