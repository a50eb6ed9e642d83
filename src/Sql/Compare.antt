-- ===== src/Sql/Compare.antt =====
-- `PartialOrd` of the values of crates/h2-types/src/value.rs, which the executor compares with.
pub mod Keys
use Prim.Native.Nat.{Ordering}
use h2database_rust.Prelude.{
  ℕ, zero, suc, ◌-◌, ◌%◌, ◌^◌, Bool, true, false, ◌||◌, Option, none, some, List, [], ◌∷◌, ltb,
  if◌then◌else◌,
}
use h2database_rust.Bytes.Order.{Bytes, cmp}
use h2database_rust.Bytes.Words.{ℤ, pos, negsuc, cmp_int}
use h2database_rust.Bytes.Words.Laws.{◌then◌}
use h2database_rust.Sql.Value.{
  External, IntervalValue, Value, null, boolean, tiny_int, small_int, integer, big_int, float,
  double, decimal, string, bytes, date, time, timestamp, uuid, array, interval,
}

abbrev pub cmp_bool : Bool → Bool → Ordering
cmp_bool false true = Ordering.lt
cmp_bool true false = Ordering.gt
cmp_bool a b = Ordering.eq

-- The bits of an infinite `f32` and `f64`; a magnitude above them is not a number.
abbrev pub infinite : ℕ
infinite = 0x7F80_0000

abbrev pub infinite_double : ℕ
infinite_double = 0x7FF0_0000_0000_0000

abbrev pub is_nan : ℕ → ℕ → ℕ → Bool
is_nan k infinity u = ltb infinity (u % 2 ^ k)

abbrev pub negated : ℕ → ℤ
negated zero = pos 0
negated (suc n) = negsuc n

-- The sign and the magnitude of a float of `k + 1` bits stand as the float does; both zeros are 0.
abbrev pub float_value : ℕ → ℕ → ℤ
float_value k u = if ltb u (2 ^ k) then pos u else negated (u - 2 ^ k)

abbrev pub float_partial_cmp : ℕ → ℕ → ℕ → ℕ → Option Ordering
float_partial_cmp k infinity u v =
    if is_nan k infinity u || is_nan k infinity v
    then none
    else some (cmp_int (float_value k u) (float_value k v))

-- The fields of an interval in their order, which the derived `PartialOrd` compares.
abbrev pub cmp_interval : IntervalValue → IntervalValue → Ordering
cmp_interval a b =
    cmp_int a.months b.months
    then (cmp_int a.days b.days then cmp_int a.microseconds b.microseconds)

-- `others` stands for the arms of arrays and of values of different kinds.
unfoldable pub partial_cmp :
    {lib : External}
    → (Value lib → Value lib → Option Ordering)
    → Value lib
    → Value lib
    → Option Ordering
partial_cmp others null null = some Ordering.eq
partial_cmp others null w = some Ordering.lt
partial_cmp others v null = some Ordering.gt
partial_cmp others (boolean a) (boolean b) = some (cmp_bool a b)
partial_cmp others (tiny_int a) (tiny_int b) = some (cmp_int a b)
partial_cmp others (small_int a) (small_int b) = some (cmp_int a b)
partial_cmp others (integer a) (integer b) = some (cmp_int a b)
partial_cmp others (big_int a) (big_int b) = some (cmp_int a b)
partial_cmp others (float a) (float b) = float_partial_cmp 31 infinite a b
partial_cmp others (double a) (double b) = float_partial_cmp 63 infinite_double a b
partial_cmp {lib} others (decimal a) (decimal b) = some (lib.cmp_decimal a b)
partial_cmp others (string a) (string b) = some (cmp a b)
partial_cmp others (bytes a) (bytes b) = some (cmp a b)
partial_cmp {lib} others (date a) (date b) = some (lib.cmp_date a b)
partial_cmp {lib} others (time a) (time b) = some (lib.cmp_time a b)
partial_cmp {lib} others (timestamp a) (timestamp b) = some (lib.cmp_datetime a b)
partial_cmp others (uuid a) (uuid b) = some (cmp a b)
partial_cmp others (interval a) (interval b) = some (cmp_interval a b)
partial_cmp others v w = others v w

-- Lists of values compare column by column, a list before those that extend it.
unfoldable pub partial_cmp_columns :
    {lib : External}
    → (Value lib → Value lib → Option Ordering)
    → List (Value lib)
    → List (Value lib)
    → Option Ordering
unfolding partial_cmp
partial_cmp_columns others [] [] = some Ordering.eq
partial_cmp_columns others [] (w ∷ ws) = some Ordering.lt
partial_cmp_columns others (v ∷ vs) [] = some Ordering.gt
partial_cmp_columns others (v ∷ vs) (w ∷ ws) =
    let rest = partial_cmp_columns others vs ws in
    elim (partial_cmp others v w) [
      | none ↦ none
      | some Ordering.lt ↦ some Ordering.lt
      | some Ordering.eq ↦ rest
      | some Ordering.gt ↦ some Ordering.gt
    ]
