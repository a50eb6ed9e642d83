-- ===== src/Bytes/Utf8.antt =====
-- The test that `String::from_utf8` makes: the well-formed byte sequences of the Unicode standard.
use h2database_rust.Prelude.{
  ℕ, zero, suc, Bool, true, false, ◌&&◌, Option, none, some, [], ◌∷◌, ltb, leb, ◌==◌, if◌then◌else◌,
}
use h2database_rust.Bytes.Order.{Bytes}

-- How many bytes follow a first byte, and the range of the next one.
lead : ℕ → Option (ℕ × ℕ × ℕ)
lead b =
    if ltb b 0x80
    then some (0, 0, 0)
    else if leb 0xC2 b && leb b 0xDF
    then some (1, 0x80, 0xBF)
    else if b == 0xE0
    then some (2, 0xA0, 0xBF)
    else if b == 0xED
    then some (2, 0x80, 0x9F)
    else if leb 0xE1 b && leb b 0xEF
    then some (2, 0x80, 0xBF)
    else if b == 0xF0
    then some (3, 0x90, 0xBF)
    else if leb 0xF1 b && leb b 0xF3
    then some (3, 0x80, 0xBF)
    else if b == 0xF4
    then some (3, 0x80, 0x8F)
    else none

follows : ℕ → ℕ → ℕ → Bytes → Bool
follows zero lo hi [] = true
follows (suc n) lo hi [] = false
follows zero lo hi (b ∷ bs) = elim (lead b) [
  | none ↦ false
  | some (n, lo', hi') ↦ follows n lo' hi' bs
]
follows (suc n) lo hi (b ∷ bs) = leb lo b && leb b hi && follows n 0x80 0xBF bs

unfoldable pub is_utf8 : Bytes → Bool
unfolding lead follows
is_utf8 bs = follows 0 0 0 bs
