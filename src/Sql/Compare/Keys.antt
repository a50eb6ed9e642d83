-- ===== src/Sql/Compare/Keys.antt =====
-- The keys of crates/h2-sql/src/executor/encoding.rs stand as `PartialOrd` of
-- crates/h2-types/src/value.rs puts their values.
use Prim.Native.Nat.{compare, Ordering}
use h2database_rust.Prelude.{
  ℕ, zero, suc, ◌-◌, ◌^◌, ◌<◌, ◌≡◌, ◌≢◌, ◌⊎◌, refl, ap, Bool, true, false, Option, some, List, [],
  ◌∷◌, arith, ltb, if◌then◌else◌, All, inl, inr, Bool-cases,
}
use h2database_rust.Bytes.Order.{cmp}
use h2database_rust.Bytes.Words.{ℤ, pos, cmp_int}
use h2database_rust.Bytes.Words.Laws.{◌then◌}
use h2database_rust.Sql.Value.{
  External, Value, null, boolean, tiny_int, small_int, integer, big_int, float, double, decimal,
  string, bytes, date, timestamp, uuid,
}
use h2database_rust.Sql.Encoding.{encode_composite_index_key}
use h2database_rust.Sql.Encoding.RoundTrip.{IsKeyable}
use h2database_rust.Sql.Encoding.Payload.{cmp_flag, float_number}
use h2database_rust.Sql.Encoding.Order.{tag, cmp_value, cmp_values, cmp-encode_composite}
use h2database_rust.Sql.Compare.{
  cmp_bool, infinite, infinite_double, is_nan, negated, float_partial_cmp, partial_cmp,
  partial_cmp_columns,
}

cmp_bool_lem : (a b : Bool) → cmp_bool a b ≡ cmp_flag a b
cmp_bool_lem false false = refl
cmp_bool_lem false true = refl
cmp_bool_lem true false = refl
cmp_bool_lem true true = refl

-- A float that is a number and not -0.
abbrev pub IsNumber : ℕ → ℕ → ℕ → Type 0
IsNumber k infinity u = (is_nan k infinity u ≡ false) × (u ≢ 2 ^ k)

cmp-negated : (a b : ℕ) → 0 < a → 0 < b → cmp_int (negated a) (negated b) ≡ compare b a
cmp-negated zero b p q = absurd (omega arith)
cmp-negated (suc a) zero p q = absurd (omega arith)
cmp-negated (suc a) (suc b) p q = ground arith

cmp-negated_pos : (a n : ℕ) → 0 < a → cmp_int (negated a) (pos n) ≡ Ordering.lt
cmp-negated_pos zero n p = absurd (omega arith)
cmp-negated_pos (suc a) n p = refl

cmp-pos_negated : (a n : ℕ) → 0 < a → cmp_int (pos n) (negated a) ≡ Ordering.gt
cmp-pos_negated zero n p = absurd (omega arith)
cmp-pos_negated (suc a) n p = refl

float_agrees :
    (k infinity u v : ℕ)
    → IsNumber k infinity u
    → IsNumber k infinity v
    → float_partial_cmp k infinity u v ≡ some (cmp_int (float_number k u) (float_number k v))
float_agrees k infinity u v (nu, zu) (nv, zv) =
    rw (nu, nv)
      (ap some (elim (Bool-cases (ltb u (2 ^ k))) [
        | inl a ↦ elim (Bool-cases (ltb v (2 ^ k))) [
          | inl b ↦ rw (a, b) refl
          | inr b ↦ rw (a, b) (cmp-pos_negated (v - 2 ^ k) u (ground (arith, b)))
        ]
        | inr a ↦ elim (Bool-cases (ltb v (2 ^ k))) [
          | inl b ↦ rw (a, b) (cmp-negated_pos (u - 2 ^ k) v (ground (arith, a)))
          | inr b ↦
              rw (a, b)
                (cmp-negated (u - 2 ^ k) (v - 2 ^ k) (ground (arith, a)) (ground (arith, b)))
        ]
      ]))

module _ {lib : External} where
  -- The values that their keys rank as `PartialOrd` does: no decimals, no NaN, no -0, and times of 64
  -- bits of nanoseconds.
  abbrev pub IsRanked : Value lib → Type 0
  IsRanked (float u) = IsNumber 31 infinite u
  IsRanked (double u) = IsNumber 63 infinite_double u
  IsRanked (decimal d) = ⊥
  IsRanked (timestamp t) = (n : ℤ) × (lib.timestamp_nanos_opt t ≡ some n)
  IsRanked v = Unit {0}

  -- Two values of one kind, or a null and any value.
  abbrev pub AreAlike : Value lib → Value lib → Type 0
  AreAlike v w = (tag v ≡ tag w) ⊎ ((tag v ≡ 1) ⊎ (tag w ≡ 1))

  pub partial_cmp-cmp_value :
      (others : Value lib → Value lib → Option Ordering) (v w : Value lib)
      → IsKeyable v
      → IsKeyable w
      → IsRanked v
      → IsRanked w
      → AreAlike v w
      → partial_cmp others v w ≡ some (cmp_value v w)
  unfolding partial_cmp
  partial_cmp-cmp_value others null null kv kw rv rz a = refl
  partial_cmp-cmp_value others null w kv kw rv rz a = refl
  partial_cmp-cmp_value others v null kv kw rv rz a = refl
  partial_cmp-cmp_value others (boolean x) (boolean y) kv kw rv rz a = ap some (cmp_bool_lem x y)
  partial_cmp-cmp_value others (tiny_int x) (tiny_int y) kv kw rv rz a = refl
  partial_cmp-cmp_value others (small_int x) (small_int y) kv kw rv rz a = refl
  partial_cmp-cmp_value others (integer x) (integer y) kv kw rv rz a = refl
  partial_cmp-cmp_value others (big_int x) (big_int y) kv kw rv rz a = refl
  partial_cmp-cmp_value others (float x) (float y) kv kw rv rz a =
      float_agrees 31 infinite x y rv rz
  partial_cmp-cmp_value others (double x) (double y) kv kw rv rz a =
      float_agrees 63 infinite_double x y rv rz
  partial_cmp-cmp_value others (string x) (string y) kv kw rv rz a = refl
  partial_cmp-cmp_value others (bytes x) (bytes y) kv kw rv rz a = refl
  partial_cmp-cmp_value others (date x) (date y) kv kw rv rz a = ap some (lib.date_order x y)
  partial_cmp-cmp_value others (timestamp x) (timestamp y) kv kw (m, p) (n, q) a =
      rw (p, q) (ap some (lib.datetime_order x y m n p q))
  partial_cmp-cmp_value others (uuid x) (uuid y) kv kw rv rz a = refl
  partial_cmp-cmp_value others v w kv kw rv rz a = absurd (ground arith)

  abbrev pub AreAlikeColumns : List (Value lib) → List (Value lib) → Type 0
  AreAlikeColumns (v ∷ vs) (w ∷ ws) = AreAlike v w × AreAlikeColumns vs ws
  AreAlikeColumns vs ws = Unit {0}

  columns_agree :
      (others : Value lib → Value lib → Option Ordering) (vs ws : List (Value lib))
      → All IsKeyable vs
      → All IsKeyable ws
      → All IsRanked vs
      → All IsRanked ws
      → AreAlikeColumns vs ws
      → partial_cmp_columns others vs ws ≡ some (cmp_values vs ws)
  unfolding partial_cmp_columns
  columns_agree others [] [] kv kw rv rz a = refl
  columns_agree others [] (w ∷ ws) kv kw rv rz a = refl
  columns_agree others (v ∷ vs) [] kv kw rv rz a = refl
  columns_agree others (v ∷ vs) (w ∷ ws) (kv, ks) (kw, ls) (rv, rs) (rz, ss) (a, more) =
      rw (partial_cmp-cmp_value others v w kv kw rv rz a, partial_cmp_columns)
        (decide (cmp_value v w) (columns_agree others vs ws ks ls rs ss more))
    where
      decide :
          (o : Ordering)
          → partial_cmp_columns others vs ws ≡ some (cmp_values vs ws)
          → ◌≡◌ {A = Option Ordering}
              (elim o [
                | Ordering.lt ↦ some Ordering.lt
                | Ordering.eq ↦ partial_cmp_columns others vs ws
                | Ordering.gt ↦ some Ordering.gt
              ])
              (some (o then cmp_values vs ws))
      decide Ordering.lt e = refl
      decide Ordering.eq e = e
      decide Ordering.gt e = refl

  -- The bytes of two index keys stand as `PartialOrd` puts their values, column by column, and for
  -- equal values as their rows do. In each column stand values of one kind or nulls, with fields of
  -- the width of their types; no decimals, no NaN and no -0 are among them, no kinds that keys do not
  -- hold, and only times that fit 64 bits of nanoseconds. The rows have 64 bits.
  pub cmp-partial_cmp_columns :
      (others : Value lib → Value lib → Option Ordering) (vs ws : List (Value lib)) (r s : ℕ)
      → All IsKeyable vs
      → All IsKeyable ws
      → All IsRanked vs
      → All IsRanked ws
      → AreAlikeColumns vs ws
      → r < 2 ^ 64
      → s < 2 ^ 64
      → (o : Ordering) × (partial_cmp_columns others vs ws ≡ some o)
        × (cmp (encode_composite_index_key vs r) (encode_composite_index_key ws s)
            ≡ (o then compare r s))
  cmp-partial_cmp_columns others vs ws r s kv kw rv rz a fr fs = (
    cmp_values vs ws,
    columns_agree others vs ws kv kw rv rz a,
    cmp-encode_composite vs ws r s kv kw fr fs,
  )
