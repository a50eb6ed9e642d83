-- ===== src/BufferPool/Slices.antt =====
-- Reads and writes of a part of a buffer: `&buf[i..i + n]` and `copy_from_slice`.

use h2database_rust.Prelude.{
  ℕ, zero, suc, ◌+◌, ◌≤◌, ◌≡◌, refl, ap, [], ◌∷◌, arith, length, take, drop,
}
use h2database_rust.Bytes.Order.{Bytes}

-- `&buf[offset..offset + n]`
unfoldable pub slice : Bytes → ℕ → ℕ → Bytes
slice buf offset n = take n (drop offset buf)

-- `buf[offset..offset + bs.len()].copy_from_slice(bs)`
unfoldable pub splice : Bytes → ℕ → Bytes → Bytes
splice buf zero [] = buf
splice buf zero (b ∷ bs) = b ∷ splice (drop 1 buf) zero bs
splice [] (suc offset) bs = []
splice (x ∷ buf) (suc offset) bs = x ∷ splice buf offset bs

pub length-splice :
    (buf : Bytes) (offset : ℕ) (bs : Bytes)
    → offset + length bs ≤ length buf
    → length (splice buf offset bs) ≡ length buf
unfolding splice
length-splice buf zero [] h = refl
length-splice [] zero (b ∷ bs) h = absurd (omega arith)
length-splice (x ∷ buf) zero (b ∷ bs) h = omega (arith, length-splice buf zero bs (omega arith))
length-splice [] (suc offset) bs h = absurd (omega arith)
length-splice (x ∷ buf) (suc offset) bs h = omega (arith, length-splice buf offset bs (omega arith))

pub slice-splice_self :
    (buf : Bytes) (offset : ℕ) (bs : Bytes)
    → offset + length bs ≤ length buf
    → slice (splice buf offset bs) offset (length bs) ≡ bs
unfolding splice slice
slice-splice_self buf zero [] h = refl
slice-splice_self [] zero (b ∷ bs) h = absurd (omega arith)
slice-splice_self (x ∷ buf) zero (b ∷ bs) h =
    ap (◌∷◌ b) (slice-splice_self buf zero bs (omega arith))
slice-splice_self [] (suc offset) bs h = absurd (omega arith)
slice-splice_self (x ∷ buf) (suc offset) bs h = slice-splice_self buf offset bs (omega arith)

-- A write elsewhere is not seen.
pub slice-splice_below :
    (buf : Bytes) (offset : ℕ) (bs : Bytes) (from n : ℕ)
    → from + n ≤ offset
    → slice (splice buf offset bs) from n ≡ slice buf from n
unfolding splice slice
slice-splice_below buf zero bs zero zero h = refl
slice-splice_below buf zero bs (suc from) n h = absurd (omega arith)
slice-splice_below buf zero bs zero (suc n) h = absurd (omega arith)
slice-splice_below [] (suc offset) bs from n h = refl
slice-splice_below (x ∷ buf) (suc offset) bs zero zero h = refl
slice-splice_below (x ∷ buf) (suc offset) bs zero (suc n) h =
    ap (◌∷◌ x) (slice-splice_below buf offset bs zero n (omega arith))
slice-splice_below (x ∷ buf) (suc offset) bs (suc from) n h =
    slice-splice_below buf offset bs from n (omega arith)

pub slice-splice_above :
    (buf : Bytes) (offset : ℕ) (bs : Bytes) (from n : ℕ)
    → offset + length bs ≤ from
    → offset + length bs ≤ length buf
    → slice (splice buf offset bs) from n ≡ slice buf from n
unfolding splice slice
slice-splice_above buf zero [] from n h g = refl
slice-splice_above [] zero (b ∷ bs) from n h g = absurd (omega arith)
slice-splice_above (x ∷ buf) zero (b ∷ bs) zero n h g = absurd (omega arith)
slice-splice_above (x ∷ buf) zero (b ∷ bs) (suc from) n h g =
    slice-splice_above buf zero bs from n (omega arith) (omega arith)
slice-splice_above [] (suc offset) bs from n h g = refl
slice-splice_above (x ∷ buf) (suc offset) bs zero n h g = absurd (omega arith)
slice-splice_above (x ∷ buf) (suc offset) bs (suc from) n h g =
    slice-splice_above buf offset bs from n (omega arith) (omega arith)

pub length-slice :
    (buf : Bytes) (offset n : ℕ) → offset + n ≤ length buf → length (slice buf offset n) ≡ n
unfolding slice
length-slice buf zero zero h = refl
length-slice [] zero (suc n) h = absurd (omega arith)
length-slice (x ∷ buf) zero (suc n) h = omega (arith, length-slice buf zero n (omega arith))
length-slice [] (suc offset) zero h = absurd (omega arith)
length-slice [] (suc offset) (suc n) h = absurd (omega arith)
length-slice (x ∷ buf) (suc offset) n h = length-slice buf offset n (omega arith)

-- Of two writes at one place the second one stays.
pub splice_twice :
    (buf : Bytes) (offset : ℕ) (xs ys : Bytes)
    → length xs ≡ length ys
    → offset + length xs ≤ length buf
    → splice (splice buf offset xs) offset ys ≡ splice buf offset ys
unfolding splice
splice_twice buf zero [] [] e h = refl
splice_twice buf zero [] (y ∷ ys) e h = absurd (omega arith)
splice_twice buf zero (x ∷ xs) [] e h = absurd (omega arith)
splice_twice [] zero (x ∷ xs) (y ∷ ys) e h = absurd (omega arith)
splice_twice (b ∷ buf) zero (x ∷ xs) (y ∷ ys) e h =
    ap (◌∷◌ y) (splice_twice buf zero xs ys (omega arith) (omega arith))
splice_twice [] (suc offset) xs ys e h = refl
splice_twice (b ∷ buf) (suc offset) xs ys e h =
    ap (◌∷◌ b) (splice_twice buf offset xs ys e (omega arith))
