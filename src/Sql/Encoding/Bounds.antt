-- ===== src/Sql/Encoding/Bounds.antt =====
-- The decoder of crates/h2-sql/src/executor/encoding.rs stays within its bytes, and its loop ends.

use mathlib.Core.Path.{subst}
use h2database_rust.Prelude.{
  ℕ, zero, suc, ◌+◌, ◌≤◌, ◌<◌, ◌≡◌, refl, Bool, true, false, Option, none, some, List, [], ◌∷◌,
  ◌++◌, arith, ltb, ◌==◌, if◌then◌else◌, length, drop, length-drop, Option-cases, Bool-cases, inl,
  inr,
}
use h2database_rust.Bytes.Order.{Bytes}
use h2database_rust.Bytes.Utf8.{is_utf8}
use h2database_rust.Bytes.Words.{as_signed, flip_top}
use h2database_rust.Sql.Value.{External, Value, date}
use h2database_rust.Sql.Encoding.{
  unescape, decode_tagged, decode_date, decode_string, decode_bytes, decode_memcomparable_value,
  decode_loop,
}

unescape_bounds :
    (bs out : Bytes) (i : ℕ) → (i ≤ (unescape bs out i).1) × ((unescape bs out i).1 ≤ i + length bs)
unfolding unescape
unescape_bounds [] out i = omega arith
unescape_bounds (b ∷ []) out i = ground arith
unescape_bounds (b ∷ c ∷ rest) out i = ground (
  arith,
  unescape_bounds rest (out ++ (0 ∷ [])) (i + 2),
  unescape_bounds (c ∷ rest) (out ++ (b ∷ [])) (i + 1),
)

module _ {lib : External} where
  -- A decoded value took a byte at least, and no more bytes than the `size` there are.
  abbrev Took : ℕ → Option (Value lib × ℕ) → Type 0
  Took size none = Unit {0}
  Took size (some (v, n)) = (0 < n) × (n ≤ size)

  either_Took :
      (size : ℕ) (t : Bool) (a b : Option (Value lib × ℕ))
      → Took size a
      → Took size b
      → Took size (if t then a else b)
  either_Took size true a b p q = p
  either_Took size false a b p q = q

  guarded_Took :
      (size n : ℕ) (v : Value lib) → 0 < n → Took size (if ltb size n then none else some (v, n))
  guarded_Took size n v h = elim (Bool-cases (ltb size n)) [
    | inl short ↦ rw short tt
    | inr long ↦ rw long (ground arith)
  ]

module _ (lib : External) where
  date_Took : (size u : ℕ) → 5 ≤ size → Took size (decode_date lib u)
  unfolding decode_date
  date_Took size u h =
      elim (lib.from_num_days_from_ce_opt (as_signed 31 (flip_top 31 u)))
        as (λ o. Took {lib = lib} size (elim o [ none ↦ none | some d ↦ some (date d, 5) ])) [
          | none ↦ tt
          | some d ↦ omega arith
        ]

  guarded_date_Took : (size u : ℕ) → Took size (if ltb size 5 then none else decode_date lib u)
  guarded_date_Took size u = elim (Bool-cases (ltb size 5)) [
    | inl short ↦ rw short tt
    | inr long ↦ rw long (date_Took size u (ground arith))
  ]

  decode_tagged_bounds :
      (tag : ℕ) (rest : Bytes) → Took (suc (length rest)) (decode_tagged lib tag rest)
  unfolding decode_tagged decode_string decode_bytes
  decode_tagged_bounds tag rest =
      let size : ℕ = suc (length rest) in
      either_Took size (tag == 0x01) _ _ (omega arith) (
        either_Took size (tag == 0x02) _ _ (guarded_Took size 2 _ (omega arith)) (
          either_Took size (tag == 0x03) _ _ (guarded_Took size 2 _ (omega arith)) (
            either_Took size (tag == 0x04) _ _ (guarded_Took size 3 _ (omega arith)) (
              either_Took size (tag == 0x05) _ _ (guarded_Took size 5 _ (omega arith)) (
                either_Took size (tag == 0x06) _ _ (guarded_Took size 9 _ (omega arith)) (
                  either_Took size (tag == 0x07) _ _ (guarded_Took size 5 _ (omega arith)) (
                    either_Took size (tag == 0x08) _ _ (guarded_Took size 9 _ (omega arith)) (
                      either_Took size (tag == 0x09) _ _
                        (either_Took size (is_utf8 (unescape rest [] 1).0) _ none
                          (omega (arith, unescape_bounds rest [] 1)) tt)
                        (either_Took size (tag == 0x0A) _ _ (guarded_date_Took size _) (
                          either_Took size (tag == 0x0B) _ _ (guarded_Took size 9 _ (omega arith)) (
                            either_Took size (tag == 0x0C) _ _ (guarded_Took size 9 _ (omega arith))
                              (either_Took size (tag == 0x0D) _ _
                                (omega (arith, unescape_bounds rest [] 1))
                                (either_Took size (tag == 0x0E) _ _
                                  (guarded_Took size 17 _ (omega arith)) tt)))))))))))))

  -- From any bytes, a value that is decoded takes at least one byte and none past the end.
  pub decode_memcomparable_value_bounds :
      (bs : Bytes) (v : Value lib) (n : ℕ)
      → decode_memcomparable_value lib bs ≡ some (v, n)
      → (0 < n) × (n ≤ length bs)
  unfolding decode_memcomparable_value
  decode_memcomparable_value_bounds [] v n h = absurd (cc)
  decode_memcomparable_value_bounds (tag ∷ rest) v n h =
      subst (Took (suc (length rest))) h (decode_tagged_bounds tag rest)

  pub decode_loop_enough :
      (fuel more : ℕ) (vals : List (Value lib)) (bs : Bytes)
      → length bs ≤ fuel
      → length bs ≤ more
      → decode_loop lib fuel vals bs ≡ decode_loop lib more vals bs
  unfolding decode_loop
  decode_loop_enough zero zero vals [] h g = refl
  decode_loop_enough zero (suc more) vals [] h g = refl
  decode_loop_enough (suc fuel) zero vals [] h g = refl
  decode_loop_enough (suc fuel) (suc more) vals [] h g = refl
  decode_loop_enough zero more vals (b ∷ bs) h g = absurd (omega arith)
  decode_loop_enough (suc fuel) zero vals (b ∷ bs) h g = absurd (omega arith)
  decode_loop_enough (suc fuel) (suc more) vals (b ∷ bs) h g =
      elim (Option-cases (decode_memcomparable_value lib (b ∷ bs))) [
        | inl e ↦ rw (e, decode_loop)
        | inr ((v, n), e) ↦
            let taken : (0 < n) × (n ≤ length (b ∷ bs)) =
              decode_memcomparable_value_bounds (b ∷ bs) v n e in
            let size : length (drop n (b ∷ bs)) ≤ length bs =
              omega (arith, length-drop n (b ∷ bs)) in
            rw (e, decode_loop)
              (decode_loop_enough fuel more (vals ++ (v ∷ [])) (drop n (b ∷ bs)) (omega arith)
                (omega arith))
      ]
