-- ===== src/Bytes/Order.antt =====
-- The lexicographic order of byte strings, and its laws.
use Prim.Native.Nat.{compare, Ordering}
use mathlib.Core.Path.{subst}
use h2database_rust.Prelude.{ℕ, List, [], ◌∷◌, ◌≡◌, refl, arith, ◌⊎◌, inl, inr, sym}

abbrev pub Bytes : Type 0
Bytes = List ℕ

-- `a.cmp(b)`
unfoldable pub cmp : Bytes → Bytes → Ordering
cmp [] [] = Ordering.eq
cmp [] (y ∷ ys) = Ordering.lt
cmp (x ∷ xs) [] = Ordering.gt
cmp (x ∷ xs) (y ∷ ys) = elim (compare x y) [
  | Ordering.lt ↦ Ordering.lt
  | Ordering.eq ↦ cmp xs ys
  | Ordering.gt ↦ Ordering.gt
]

infix 50 ◌≺◌
abbrev pub ◌≺◌ : Bytes → Bytes → Type 0
a ≺ b = cmp a b ≡ Ordering.lt

pub cmp_self : (a : Bytes) → cmp a a ≡ Ordering.eq
unfolding cmp
cmp_self [] = refl
cmp_self (x ∷ xs) = ground (arith, cmp_self xs)

pub cmp_eq : (a b : Bytes) → cmp a b ≡ Ordering.eq → a ≡ b
unfolding cmp
cmp_eq [] [] e = refl
cmp_eq [] (y ∷ ys) e = absurd (cc)
cmp_eq (x ∷ xs) [] e = absurd (cc)
cmp_eq (x ∷ xs) (y ∷ ys) e = ground (arith, cmp_eq xs ys)

pub lt_of_gt : (a b : Bytes) → cmp a b ≡ Ordering.gt → b ≺ a
unfolding cmp
lt_of_gt [] [] e = absurd (cc)
lt_of_gt [] (y ∷ ys) e = absurd (cc)
lt_of_gt (x ∷ xs) [] e = refl
lt_of_gt (x ∷ xs) (y ∷ ys) e = ground (arith, lt_of_gt xs ys)

pub gt_of_lt : (a b : Bytes) → a ≺ b → cmp b a ≡ Ordering.gt
unfolding cmp
gt_of_lt [] [] e = absurd (cc)
gt_of_lt [] (y ∷ ys) e = refl
gt_of_lt (x ∷ xs) [] e = absurd (cc)
gt_of_lt (x ∷ xs) (y ∷ ys) e = ground (arith, gt_of_lt xs ys)

pub eq_of_eq : (a b : Bytes) → cmp a b ≡ Ordering.eq → cmp b a ≡ Ordering.eq
eq_of_eq a b e = subst (λ x. cmp x a ≡ Ordering.eq) (cmp_eq a b e) (cmp_self a)

pub lt_trans : (a b c : Bytes) → a ≺ b → b ≺ c → a ≺ c
unfolding cmp
lt_trans [] [] c p q = absurd (cc)
lt_trans [] (y ∷ ys) [] p q = absurd (cc)
lt_trans [] (y ∷ ys) (z ∷ zs) p q = refl
lt_trans (x ∷ xs) [] c p q = absurd (cc)
lt_trans (x ∷ xs) (y ∷ ys) [] p q = absurd (cc)
lt_trans (x ∷ xs) (y ∷ ys) (z ∷ zs) p q = ground (arith, lt_trans xs ys zs)

pub not-lt_self : (a : Bytes) → ¬ (a ≺ a)
not-lt_self a p = cc (cmp_self a)

-- The three outcomes of a comparison, with the equation.
pub cmp-cases : (a b : Bytes) → (a ≺ b) ⊎ ((cmp a b ≡ Ordering.eq) ⊎ (cmp a b ≡ Ordering.gt))
cmp-cases a b = go (cmp a b) refl
  where
    go :
        (o : Ordering)
        → cmp a b ≡ o
        → (cmp a b ≡ Ordering.lt) ⊎ ((cmp a b ≡ Ordering.eq) ⊎ (cmp a b ≡ Ordering.gt))
    go Ordering.lt e = inl e
    go Ordering.eq e = inr (inl e)
    go Ordering.gt e = inr (inr e)

-- `¬ (b ≺ a)` is `a ≤ b`.
pub lt_of_lt_of_le : (a b c : Bytes) → a ≺ b → ¬ (c ≺ b) → a ≺ c
lt_of_lt_of_le a b c p q = elim (cmp-cases a c) [
  | inl less ↦ less
  | inr (inl same) ↦
      absurd (q (let e : c ≡ a = cc (cmp_eq a c same) in subst (λ x. x ≺ b) (sym e) p))
  | inr (inr more) ↦ absurd (q (lt_trans c a b (lt_of_gt a c more) p))
]

pub lt_of_le_of_lt : (a b c : Bytes) → ¬ (b ≺ a) → b ≺ c → a ≺ c
lt_of_le_of_lt a b c p q = elim (cmp-cases a b) [
  | inl less ↦ lt_trans a b c less q
  | inr (inl same) ↦ let e : a ≡ b = cmp_eq a b same in subst (λ x. x ≺ c) (sym e) q
  | inr (inr more) ↦ absurd (p (lt_of_gt a b more))
]
