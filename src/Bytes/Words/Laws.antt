-- ===== src/Bytes/Words/Laws.antt =====
-- What the top bit, the casts and the big-endian bytes of a word do to its value and its order.
use Prim.Native.Nat.{
  compare, Ordering, bit_xor, bit_and, bit_xor-bitwise, bit_and-bitwise, digits, bitwise, differ,
  min,
}
use native.Mathlib.Nat.{pow-suc, le_refl}
use h2database_rust.Prelude.{
  ℕ, zero, suc, ◌+◌, ◌-◌, ◌*◌, ◌/◌, ◌%◌, ◌^◌, ◌≤◌, ◌<◌, ◌≡◌, refl, [], ◌∷◌, ◌++◌, arith, ltb, ◌==◌,
  if◌then◌else◌, length, length-append,
}
use h2database_rust.Bytes.Order.{Bytes, cmp}
use h2database_rust.Bytes.Words.{
  ℤ, pos, negsuc, cmp_int, IsSigned, as_unsigned, as_signed, flip_top, be_bytes, be_loop,
  from_be_bytes,
}

module _ (z : ℕ → ℕ) (f : ℕ → ℕ → ℕ) where
  digits_enough : (n m a b : ℕ) → a ≤ n → a ≤ m → digits z f n a b ≡ digits z f m a b
  digits_enough zero zero a b p q = refl
  digits_enough zero (suc m) zero b p q = refl
  digits_enough zero (suc m) (suc a) b p q = absurd (omega arith)
  digits_enough (suc n) zero zero b p q = refl
  digits_enough (suc n) zero (suc a) b p q = absurd (omega arith)
  digits_enough (suc n) (suc m) zero b p q = refl
  digits_enough (suc n) (suc m) (suc a) b p q =
      rw (digits_enough n m (suc a / 2) (b / 2) (omega arith) (omega arith))

  lowest_digit :
      (a b : ℕ)
      → bitwise z f (suc a) b ≡ bitwise z f (suc a / 2) (b / 2) * 2 + f (suc a % 2) (b % 2)
  lowest_digit a b =
      omega (arith, digits_enough a (suc a / 2) (suc a / 2) (b / 2) (omega arith) (le_refl _))

xor_digit : (a b : ℕ) → bit_xor a b ≡ bit_xor (a / 2) (b / 2) * 2 + differ (a % 2) (b % 2)
xor_digit zero b = simp bit_xor-bitwise (omega arith)
xor_digit (suc a) b = simp bit_xor-bitwise (lowest_digit (λ y. y) differ a b)

and_digit : (a b : ℕ) → bit_and a b ≡ bit_and (a / 2) (b / 2) * 2 + min (a % 2) (b % 2)
and_digit zero b = simp bit_and-bitwise (omega arith)
and_digit (suc a) b = simp bit_and-bitwise (lowest_digit (λ y. 0) min a b)

differ-zero : (x : ℕ) → differ x 0 ≡ x
differ-zero zero = refl
differ-zero (suc x) = refl

pub flip_top_lem :
    (k u : ℕ) → u < 2 ^ suc k → flip_top k u ≡ (if ltb u (2 ^ k) then u + 2 ^ k else u - 2 ^ k)
unfolding flip_top
flip_top_lem zero zero h = refl
flip_top_lem zero (suc zero) h = refl
flip_top_lem zero (suc (suc u)) h = absurd (omega arith)
flip_top_lem (suc k) u h = ground (
  arith,
  xor_digit u (2 ^ suc k),
  differ-zero (u % 2),
  pow-suc 2 k,
  pow-suc 2 (suc k),
  flip_top_lem k (u / 2),
)

pub and_top : (k u : ℕ) → u < 2 ^ suc k → (bit_and u (2 ^ k) == 0) ≡ ltb u (2 ^ k)
and_top k u h = ground (arith, top_part k u h)
  where
    min-zero : (x : ℕ) → min x 0 ≡ 0
    min-zero x = omega arith

    top_part : (k u : ℕ) → u < 2 ^ suc k → bit_and u (2 ^ k) ≡ (if ltb u (2 ^ k) then 0 else 2 ^ k)
    top_part zero zero h = refl
    top_part zero (suc zero) h = refl
    top_part zero (suc (suc u)) h = absurd (omega arith)
    top_part (suc k) u h = ground (
      arith,
      and_digit u (2 ^ suc k),
      min-zero (u % 2),
      pow-suc 2 k,
      pow-suc 2 (suc k),
      top_part k (u / 2),
    )

mod_small : (n m : ℕ) → n < m → n % m ≡ n
mod_small n m h = grind arith

-- Where the sign bit is turned over, the signed order becomes the order of numbers.
abbrev pub biased : ℕ → ℤ → ℕ
biased k (pos n) = 2 ^ k + n
biased k (negsuc n) = 2 ^ k - 1 - n

pub flip_top-as_unsigned :
    (k : ℕ) (i : ℤ) → IsSigned k i → flip_top k (as_unsigned k i) ≡ biased k i
unfolding as_unsigned
flip_top-as_unsigned k (pos n) h =
    ground (arith, pow-suc 2 k, flip_top_lem k n, mod_small n (2 ^ suc k))
flip_top-as_unsigned k (negsuc n) h =
    ground (arith, pow-suc 2 k, flip_top_lem k (2 ^ suc k - 1 - n), mod_small n (2 ^ suc k))

pub biased-lt : (k : ℕ) (i : ℤ) → IsSigned k i → biased k i < 2 ^ suc k
biased-lt k (pos n) h = ground (arith, pow-suc 2 k)
biased-lt k (negsuc n) h = ground (arith, pow-suc 2 k)

pub as_signed-flip_top : (k : ℕ) (i : ℤ) → IsSigned k i → as_signed k (flip_top k (biased k i)) ≡ i
unfolding as_signed
as_signed-flip_top k (pos n) h = ground (arith, pow-suc 2 k, flip_top_lem k (2 ^ k + n))
as_signed-flip_top k (negsuc n) h = ground (arith, pow-suc 2 k, flip_top_lem k (2 ^ k - 1 - n))

pub compare-biased :
    (k : ℕ) (i j : ℤ)
    → IsSigned k i
    → IsSigned k j
    → compare (biased k i) (biased k j) ≡ cmp_int i j
compare-biased k (pos a) (pos b) h g = ground arith
compare-biased k (pos a) (negsuc b) h g = ground arith
compare-biased k (negsuc a) (pos b) h g = ground arith
compare-biased k (negsuc a) (negsuc b) h g = ground arith

pub length-be_bytes : (n v : ℕ) → length (be_bytes n v) ≡ n
unfolding be_bytes
length-be_bytes zero v = refl
length-be_bytes (suc n) v =
    omega (arith, length-append (be_bytes n (v / 256)) (v % 256 ∷ []), length-be_bytes n (v / 256))

be_loop-append :
    (acc : ℕ) (bs : Bytes) (b : ℕ) → be_loop acc (bs ++ b ∷ []) ≡ be_loop acc bs * 256 + b
unfolding be_loop
be_loop-append acc [] b = refl
be_loop-append acc (c ∷ bs) b = be_loop-append (acc * 256 + c) bs b

pub from_be_bytes-be_bytes : (n v : ℕ) → v < 256 ^ n → from_be_bytes (be_bytes n v) ≡ v
unfolding be_bytes from_be_bytes be_loop
from_be_bytes-be_bytes zero v h = omega arith
from_be_bytes-be_bytes (suc n) v h = omega (
  arith,
  pow-suc 256 n,
  be_loop-append 0 (be_bytes n (v / 256)) (v % 256),
  from_be_bytes-be_bytes n (v / 256) (omega (arith, pow-suc 256 n)),
)

-- The first of two comparisons that is not equal decides: `Ordering::then`.
infixl 40 ◌then◌
abbrev pub ◌then◌ : Ordering → Ordering → Ordering
Ordering.lt then o = Ordering.lt
Ordering.eq then o = o
Ordering.gt then o = Ordering.gt

pub cmp-append :
    (a b x y : Bytes) → length a ≡ length b → cmp (a ++ x) (b ++ y) ≡ (cmp a b then cmp x y)
unfolding cmp
cmp-append [] [] x y h = refl
cmp-append [] (c ∷ b) x y h = absurd (omega arith)
cmp-append (c ∷ a) [] x y h = absurd (omega arith)
cmp-append (c ∷ a) (d ∷ b) x y h = ground (arith, cmp-append a b x y)

pub cmp-be_bytes :
    (n v w : ℕ) → v < 256 ^ n → w < 256 ^ n → cmp (be_bytes n v) (be_bytes n w) ≡ compare v w
unfolding be_bytes cmp
cmp-be_bytes zero v w h g = ground arith
cmp-be_bytes (suc n) v w h g = ground (
  arith,
  pow-suc 256 n,
  cmp-append (be_bytes n (v / 256)) (be_bytes n (w / 256)) (v % 256 ∷ []) (w % 256 ∷ []),
  length-be_bytes n (v / 256),
  length-be_bytes n (w / 256),
  cmp-be_bytes n (v / 256) (w / 256),
)
