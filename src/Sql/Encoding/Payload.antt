-- ===== src/Sql/Encoding/Payload.antt =====
-- What a key of crates/h2-sql/src/executor/encoding.rs holds of one value after its tag, the order of
-- that, and the same order of its bytes.
use Prim.Native.Nat.{compare, Ordering}
use native.Mathlib.Nat.{pow-suc}
use mathlib.Core.Path.{subst}
use mathlib.Core.List.{append_assoc}
use h2database_rust.Prelude.{
  ℕ, suc, ◌-◌, ◌^◌, ◌<◌, ◌≡◌, refl, sym, ap, ◌∙◌, Bool, true, false, [], ◌∷◌, ◌++◌, arith, ltb,
  ◌==◌, if◌then◌else◌, length,
}
use h2database_rust.Bytes.Order.{Bytes, cmp}
use h2database_rust.Bytes.Words.{ℤ, pos, negsuc, cmp_int, IsSigned, be_bytes}
use h2database_rust.Bytes.Words.Laws.{
  biased, biased-lt, flip_top_lem, and_top, length-be_bytes, ◌then◌, cmp-append, cmp-be_bytes,
  compare-biased,
}
use h2database_rust.Sql.Encoding.{float_key}
use h2database_rust.Sql.Encoding.Fields.{escape}

-- The number that the sign and the magnitude of a float of `k + 1` bits give, -0 just below 0.
abbrev pub float_number : ℕ → ℕ → ℤ
float_number k u = if ltb u (2 ^ k) then pos u else negsuc (u - 2 ^ k)

-- `number n k i` takes `n` bytes, of `k + 1` bits.
pub data Payload : Type 0 where
  void : Payload
  flag : Bool → Payload
  number : ℕ → ℕ → ℤ → Payload
  text : Bytes → Payload
  block : Bytes → Payload

abbrev pub cmp_flag : Bool → Bool → Ordering
cmp_flag false true = Ordering.lt
cmp_flag true false = Ordering.gt
cmp_flag a b = Ordering.eq

abbrev pub cmp_payload : Payload → Payload → Ordering
cmp_payload (flag a) (flag b) = cmp_flag a b
cmp_payload (number _ _ i) (number _ _ j) = cmp_int i j
cmp_payload (text a) (text b) = cmp a b
cmp_payload (block a) (block b) = cmp a b
cmp_payload p q = Ordering.eq

-- The bytes of a payload.
abbrev pub wire : Payload → Bytes
wire void = []
wire (flag b) = (if b then 1 else 0) ∷ []
wire (number n k i) = be_bytes n (biased k i)
wire (text s) = escape s ++ (0 ∷ (0 ∷ []))
wire (block u) = u

abbrev pub IsPayload : Payload → Type 0
IsPayload (number n k i) = (2 ^ suc k ≡ 256 ^ n) × IsSigned k i
IsPayload (block u) = length u ≡ 16
IsPayload p = Unit {0}

pub data Shape : Type 0 where
  no_bytes : Shape
  one_flag : Shape
  integer_of : ℕ → ℕ → Shape
  escaped : Shape
  sixteen : Shape

abbrev pub shape : Payload → Shape
shape void = no_bytes
shape (flag b) = one_flag
shape (number n k i) = integer_of n k
shape (text s) = escaped
shape (block u) = sixteen

-- What a tag says of the shape.
abbrev pub shape_of : ℕ → Shape
shape_of t =
    if t == 2
    then one_flag
    else if t == 3
    then integer_of 1 7
    else if t == 4
    then integer_of 2 15
    else if t == 5
    then integer_of 4 31
    else if t == 6
    then integer_of 8 63
    else if t == 7
    then integer_of 4 31
    else if t == 8
    then integer_of 8 63
    else if t == 9
    then escaped
    else if t == 10
    then integer_of 4 31
    else if t == 11
    then integer_of 8 63
    else if t == 12
    then integer_of 8 63
    else if t == 13
    then escaped
    else if t == 14
    then sixteen
    else no_bytes

pub cmp-cons : (x y : ℕ) (a b : Bytes) → cmp (x ∷ a) (y ∷ b) ≡ (compare x y then cmp a b)
unfolding cmp
cmp-cons x y a b = ground arith

pub then_assoc : (a b c : Ordering) → ((a then b) then c) ≡ (a then (b then c))
then_assoc Ordering.lt b c = refl
then_assoc Ordering.eq b c = refl
then_assoc Ordering.gt b c = refl

-- The escapes and the two zero bytes at the end keep the order of texts.
cmp-escape :
    (a b x y : Bytes)
    → cmp (escape a ++ (0 ∷ (0 ∷ x))) (escape b ++ (0 ∷ (0 ∷ y))) ≡ (cmp a b then cmp x y)
unfolding cmp
cmp-escape [] [] x y = refl
cmp-escape [] (d ∷ b) x y = ground arith
cmp-escape (c ∷ a) [] x y = ground arith
cmp-escape (c ∷ a) (d ∷ b) x y = ground (arith, cmp-escape a b x y)

cmp-number :
    (n k : ℕ) (i j : ℤ) (x y : Bytes)
    → 2 ^ suc k ≡ 256 ^ n
    → IsSigned k i
    → IsSigned k j
    → cmp (be_bytes n (biased k i) ++ x) (be_bytes n (biased k j) ++ y) ≡ (cmp_int i j then cmp x y)
cmp-number n k i j x y e fi fj =
    cmp-append (be_bytes n (biased k i)) (be_bytes n (biased k j)) x y
      (length-be_bytes n (biased k i) ∙ sym (length-be_bytes n (biased k j)))
    ∙ ap (λ o. o then cmp x y)
        (cmp-be_bytes n (biased k i) (biased k j) (omega (arith, biased-lt k i fi))
            (omega (arith, biased-lt k j fj))
          ∙ compare-biased k i j fi fj)

pub cmp-wire :
    (p q : Payload) (x y : Bytes)
    → IsPayload p
    → IsPayload q
    → shape p ≡ shape q
    → cmp (wire p ++ x) (wire q ++ y) ≡ (cmp_payload p q then cmp x y)
cmp-wire void void x y vp vq s = refl
cmp-wire (flag true) (flag true) x y vp vq s = cmp-cons 1 1 x y
cmp-wire (flag true) (flag false) x y vp vq s = cmp-cons 1 0 x y
cmp-wire (flag false) (flag true) x y vp vq s = cmp-cons 0 1 x y
cmp-wire (flag false) (flag false) x y vp vq s = cmp-cons 0 0 x y
cmp-wire (number n k i) (number m l j) x y vp vq s =
    let width : n ≡ m = cc in
    let bits : k ≡ l = cc in
    let fits : IsSigned k j = subst (λ t. IsSigned t j) (sym bits) vq.1 in
    rw (← width, ← bits) (cmp-number n k i j x y vp.0 vp.1 fits)
cmp-wire (text a) (text b) x y vp vq s = simp append_assoc (cmp-escape a b x y)
cmp-wire (block a) (block b) x y vp vq s = cmp-append a b x y (vp ∙ sym vq)
cmp-wire p q x y vp vq s = absurd (cc)

-- The key of a float is the bias of its number.
pub float_key-number :
    (k u : ℕ)
    → u < 2 ^ suc k
    → (float_key k u ≡ biased k (float_number k u)) × IsSigned k (float_number k u)
unfolding float_key
float_key-number k u h = ground (arith, pow-suc 2 k, and_top k u, flip_top_lem k u)
