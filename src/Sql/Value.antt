-- ===== src/Sql/Value.antt =====
-- The values of crates/h2-types/src/value.rs, over what they take from chrono, rust_decimal and
-- serde_json.
use Prim.Native.Nat.{Ordering}
use h2database_rust.Prelude.{ℕ, ◌<◌, ◌^◌, ◌≡◌, Bool, Option, some}
use h2database_rust.Bytes.Order.{Bytes}
use h2database_rust.Bytes.Words.{ℤ, cmp_int, IsSigned}

-- The types and functions of the three libraries that the keys use. A double is its 64 bits.
pub record External : Type 1 where
  pub NaiveDate : Type 0
  pub NaiveTime : Type 0
  pub DateTime : Type 0
  pub Decimal : Type 0
  pub Json : Type 0
  pub num_days_from_ce : NaiveDate → ℤ
  pub from_num_days_from_ce_opt : ℤ → Option NaiveDate
  pub timestamp_nanos_opt : DateTime → Option ℤ
  pub from_timestamp_nanos : ℤ → DateTime
  pub to_f64 : Decimal → Option ℕ
  pub from_f64 : ℕ → Option Decimal
  pub default_decimal : Decimal
  pub cmp_date : NaiveDate → NaiveDate → Ordering
  pub cmp_time : NaiveTime → NaiveTime → Ordering
  pub cmp_datetime : DateTime → DateTime → Ordering
  pub cmp_decimal : Decimal → Decimal → Ordering
  -- A day number is an `i32` that names its date, a number of nanoseconds an `i64` that names its
  -- time, and a double has 64 bits.
  pub num_days_fits : (d : NaiveDate) → IsSigned 31 (num_days_from_ce d)
  pub num_days_back : (d : NaiveDate) → from_num_days_from_ce_opt (num_days_from_ce d) ≡ some d
  pub nanos_fits : (t : DateTime) (n : ℤ) → timestamp_nanos_opt t ≡ some n → IsSigned 63 n
  pub nanos_back :
      (t : DateTime) (n : ℤ) → timestamp_nanos_opt t ≡ some n → from_timestamp_nanos n ≡ t
  -- Dates are ordered as their days, and times as their nanoseconds where they have them.
  pub date_order :
      (a b : NaiveDate) → cmp_date a b ≡ cmp_int (num_days_from_ce a) (num_days_from_ce b)
  pub datetime_order :
      (a b : DateTime) (m n : ℤ)
      → timestamp_nanos_opt a ≡ some m
      → timestamp_nanos_opt b ≡ some n
      → cmp_datetime a b ≡ cmp_int m n
  pub to_f64_fits : (d : Decimal) (u : ℕ) → to_f64 d ≡ some u → u < 2 ^ 64

pub record IntervalValue : Type 0 where
  pub months : ℤ
  pub days : ℤ
  pub microseconds : ℤ

-- A float is its bits, a text its UTF-8 bytes, a UUID its sixteen bytes.
mutual
  pub data Value (x : External) : Type 0 where
    null : Value x
    boolean : Bool → Value x
    tiny_int : ℤ → Value x
    small_int : ℤ → Value x
    integer : ℤ → Value x
    big_int : ℤ → Value x
    float : ℕ → Value x
    double : ℕ → Value x
    decimal : x.Decimal → Value x
    string : Bytes → Value x
    bytes : Bytes → Value x
    date : x.NaiveDate → Value x
    time : x.NaiveTime → Value x
    timestamp : x.DateTime → Value x
    uuid : Bytes → Value x
    json : x.Json → Value x
    array : Values x → Value x
    interval : IntervalValue → Value x

  pub data Values (x : External) : Type 0 where
    nil : Values x
    cons : Value x → Values x → Values x
