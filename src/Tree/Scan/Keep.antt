-- ===== src/Tree/Scan/Keep.antt =====
-- The entries whose keys pass a test, in order: the specification of the scans.

use h2database_rust.Prelude.{
  Bool, true, false, ◌&&◌, List, [], ◌∷◌, ◌++◌, if◌then◌else◌, All, ◌≡◌, refl, ap, inl, inr,
  Bool-cases,
}
use h2database_rust.Bytes.Order.{Bytes}
use h2database_rust.Tree.{Entry}
use h2database_rust.Tree.Entries.{IsAscending}

unfoldable pub keep : (Bytes → Bool) → List Entry → List Entry
keep P [] = []
keep P (e ∷ es) = let rest = keep P es in if P e.key then e ∷ rest else rest

pub keep-append :
    (P : Bytes → Bool) (xs ys : List Entry) → keep P (xs ++ ys) ≡ keep P xs ++ keep P ys
unfolding keep
keep-append P [] ys = refl
keep-append P (e ∷ xs) ys = elim (Bool-cases (P e.key)) [
  | inl kept ↦ rw (kept, keep) (ap (◌∷◌ e) (keep-append P xs ys))
  | inr not ↦ rw (not, keep) (keep-append P xs ys)
]

pub keep_none :
    (P : Bytes → Bool) (es : List Entry) → All (λ e. P e.key ≡ false) es → keep P es ≡ []
unfolding keep
keep_none P [] h = refl
keep_none P (e ∷ es) h = rw (h.0, keep) (keep_none P es h.1)

pub keep-All : (P : Bytes → Bool) (es : List Entry) → All (λ e. P e.key ≡ true) es → keep P es ≡ es
unfolding keep
keep-All P [] h = refl
keep-All P (e ∷ es) h = rw (h.0, keep) (ap (◌∷◌ e) (keep-All P es h.1))

pub keep-keep :
    (P Q : Bytes → Bool) (es : List Entry) → keep Q (keep P es) ≡ keep (λ k. P k && Q k) es
unfolding keep
keep-keep P Q [] = refl
keep-keep P Q (e ∷ es) = elim (Bool-cases (P e.key)) [
  | inl kept ↦ elim (Bool-cases (Q e.key)) [
    | inl also ↦ rw (kept, also, keep) (ap (◌∷◌ e) (keep-keep P Q es))
    | inr not ↦ rw (kept, not, keep) (keep-keep P Q es)
  ]
  | inr not ↦ rw (not, keep) (keep-keep P Q es)
]

pub All-keep {κ} :
    (R : Entry → Type κ) (P : Bytes → Bool) (es : List Entry) → All R es → All R (keep P es)
unfolding keep
All-keep R P [] h = tt
All-keep R P (e ∷ es) h = elim (Bool-cases (P e.key)) [
  | inl kept ↦ rw (kept, keep) (h.0, All-keep R P es h.1)
  | inr not ↦ rw (not, keep) (All-keep R P es h.1)
]

pub keep-IsAscending :
    (P : Bytes → Bool) (es : List Entry) → IsAscending es → IsAscending (keep P es)
unfolding keep
keep-IsAscending P [] a = tt
keep-IsAscending P (e ∷ es) a = elim (Bool-cases (P e.key)) [
  | inl kept ↦ rw (kept, keep) (All-keep _ P es a.0, keep-IsAscending P es a.1)
  | inr not ↦ rw (not, keep) (keep-IsAscending P es a.1)
]

pub keep_everything :
    (P : Bytes → Bool) (es : List Entry) → ((k : Bytes) → P k ≡ true) → keep P es ≡ es
unfolding keep
keep_everything P [] h = refl
keep_everything P (e ∷ es) h = rw (h e.key, keep) (ap (◌∷◌ e) (keep_everything P es h))
