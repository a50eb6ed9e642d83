-- ===== src/Bytes/Words.antt =====
-- Fixed-width integers as Rust has them: casts between signed and unsigned, the top bit, and
-- big-endian bytes (`as`, `^`, `&`, `!`, `to_be_bytes`, `from_be_bytes`).
pub mod Laws
use Prim.Native.Nat.{compare, Ordering, bit_xor}
use h2database_rust.Prelude.{
  ℕ, zero, suc, ◌+◌, ◌-◌, ◌*◌, ◌/◌, ◌%◌, ◌^◌, ◌<◌, Bool, List, [], ◌∷◌, ◌++◌, ltb, ◌==◌,
  if◌then◌else◌,
}
use h2database_rust.Bytes.Order.{Bytes}

-- `negsuc n` is -(n + 1).
pub data ℤ : Type 0 where
  pos : ℕ → ℤ
  negsuc : ℕ → ℤ

-- `a.cmp(&b)` of signed integers.
abbrev pub cmp_int : ℤ → ℤ → Ordering
cmp_int (pos a) (pos b) = compare a b
cmp_int (pos a) (negsuc b) = Ordering.gt
cmp_int (negsuc a) (pos b) = Ordering.lt
cmp_int (negsuc a) (negsuc b) = compare b a

-- The integers of `k + 1` bits.
abbrev pub IsSigned : ℕ → ℤ → Type 0
IsSigned k (pos n) = n < 2 ^ k
IsSigned k (negsuc n) = n < 2 ^ k

-- `i as u8` and its like, at `k + 1` bits.
unfoldable pub as_unsigned : ℕ → ℤ → ℕ
as_unsigned k (pos n) = n % 2 ^ suc k
as_unsigned k (negsuc n) = 2 ^ suc k - 1 - n % 2 ^ suc k

-- `u as i8` and its like, of a word of `k + 1` bits.
unfoldable pub as_signed : ℕ → ℕ → ℤ
as_signed k u = if ltb u (2 ^ k) then pos u else negsuc (2 ^ suc k - 1 - u)

-- `u ^ 0x80` and its like: the top bit of a word of `k + 1` bits is turned over.
unfoldable pub flip_top : ℕ → ℕ → ℕ
flip_top k u = bit_xor u (2 ^ k)

-- `!u`
abbrev pub complement : ℕ → ℕ → ℕ
complement k u = 2 ^ suc k - 1 - u

-- `v.to_be_bytes()` of a word of `n` bytes.
unfoldable pub be_bytes : ℕ → ℕ → Bytes
be_bytes zero v = []
be_bytes (suc n) v = be_bytes n (v / 256) ++ (v % 256 ∷ [])

be_loop : ℕ → Bytes → ℕ
be_loop acc [] = acc
be_loop acc (b ∷ bs) = be_loop (acc * 256 + b) bs

-- `from_be_bytes`
unfoldable pub from_be_bytes : Bytes → ℕ
unfolding be_loop
from_be_bytes bs = be_loop 0 bs
