-- ===== src/Tree/Split.antt =====
-- A page that has grown past its size is split at its middle into two ordered pages.
use h2database_rust.Prelude.{
  ℕ, zero, suc, ◌-◌, ◌/◌, ◌<◌, Option, some, List, [], ◌∷◌, ◌++◌, All, ◌≡◌, refl, arith, inl, inr,
  ◌⊎◌, get_elem?, ◌∙◌, sym, ap, length, length-append, take, drop, ltb, Bool-cases, remove_at,
  tests,
}
use mathlib.Core.List.{append-nil, append_assoc}
use mathlib.Core.Path.{subst}
use h2database_rust.Bytes.Order.{Bytes, ◌≺◌, not-lt_self}
use h2database_rust.Tree.{
  Entry, Pages, leaf, nil, cons, new_branch, take_pages, drop_pages, Inserted, whole, split,
  split_leaf, split_branch,
}
use h2database_rust.Tree.Entries.{entries, entries_of, IsAscending}
use h2database_rust.Tree.Shape.{
  Above, Below, AllWithin, IsOrdered, AreOrdered, AtLeast-Above, Above-trans, not-lt_of_lt,
}

List-cases {ℓ} : {A : Type ℓ} (xs : List A) → (xs ≡ []) ⊎ ((x : A) × (ys : List A) × (xs ≡ x ∷ ys))
List-cases [] = inl refl
List-cases (x ∷ xs) = inr (x, xs, refl)

-- What an insertion must leave behind: ordered pages within the bounds, which hold `es`.
abbrev pub Holds : Option Bytes → Option Bytes → List Entry → Inserted → Type 0
Holds lo hi es (whole p) = IsOrdered lo hi p × (entries p ≡ es)
Holds lo hi es (split p pivot q) =
    IsOrdered lo (some pivot) p
    × IsOrdered (some pivot) hi q
    × Above lo pivot
    × Below hi pivot
    × (entries p ++ entries q ≡ es)

take-append-drop {ℓ} : {A : Type ℓ} (n : ℕ) (xs : List A) → take n xs ++ drop n xs ≡ xs
take-append-drop zero xs = refl
take-append-drop (suc n) [] = refl
take-append-drop (suc n) (x ∷ xs) = ap (◌∷◌ x) (take-append-drop n xs)

length-drop {ℓ} : {A : Type ℓ} (n : ℕ) (xs : List A) → length (drop n xs) ≡ length xs - n
length-drop zero xs = omega arith
length-drop (suc n) [] = omega arith
length-drop (suc n) (x ∷ xs) = omega (arith, length-drop n xs)

pub All-left {ℓ κ} : {A : Type ℓ} (P : A → Type κ) (xs ys : List A) → All P (xs ++ ys) → All P xs
All-left P [] ys h = tt
All-left P (x ∷ xs) ys h = (h.0, All-left P xs ys h.1)

pub All-right {ℓ κ} : {A : Type ℓ} (P : A → Type κ) (xs ys : List A) → All P (xs ++ ys) → All P ys
All-right P [] ys h = h
All-right P (x ∷ xs) ys h = All-right P xs ys h.1

-- Two parts of an ascending list within bounds, parted by the key of the second one's head.
halves :
    (lo hi : Option Bytes) (xs : List Entry) (r : Entry) (ys : List Entry)
    → IsAscending (xs ++ r ∷ ys)
    → AllWithin lo hi (xs ++ r ∷ ys)
    → (IsAscending xs × AllWithin lo (some r.key) xs)
      × (IsAscending (r ∷ ys) × AllWithin (some r.key) hi (r ∷ ys))
halves lo hi [] r ys a w =
    ((tt, tt), (a, ((not-lt_self r.key, w.0.1), halves_above r.key ys a.0 w.1)))
  where
    halves_above :
        (k : Bytes) (zs : List Entry)
        → All (λ f. k ≺ f.key) zs
        → AllWithin lo hi zs
        → AllWithin (some k) hi zs
    halves_above k [] b v = tt
    halves_above k (z ∷ zs) b v = ((not-lt_of_lt k z.key b.0, v.0.1), halves_above k zs b.1 v.1)
halves lo hi (x ∷ xs) r ys a w =
    let (left, right) = halves lo hi xs r ys a.1 w.1 in
    (
      ((All-left _ xs (r ∷ ys) a.0, left.0), ((w.0.0, (All-right _ xs (r ∷ ys) a.0).0), left.1)),
      right,
    )

split_leaf_parts :
    (lo hi : Option Bytes) (xs : List Entry) (r : Entry) (ys es : List Entry)
    → 0 < length xs
    → xs ++ r ∷ ys ≡ es
    → IsAscending es
    → AllWithin lo hi es
    → Holds lo hi es (split (leaf xs) r.key (leaf (r ∷ ys)))
unfolding IsOrdered entries
split_leaf_parts lo hi [] r ys es n e a w = absurd (omega arith)
split_leaf_parts lo hi (x ∷ xs) r ys es n e a w =
    let a' : IsAscending ((x ∷ xs) ++ r ∷ ys) = subst IsAscending (sym e) a in
    let w' : AllWithin lo hi ((x ∷ xs) ++ r ∷ ys) = subst (AllWithin lo hi) (sym e) w in
    let (left, right) = halves lo hi (x ∷ xs) r ys a' w' in
    (left, right, AtLeast-Above lo x.key r.key w'.0.0 (left.1).0.1, (right.1).0.1, e)

-- A leaf that has grown past `max` is split into two leaves that hold its entries.
pub split_leaf-Holds :
    (max : ℕ) (lo hi : Option Bytes) (es : List Entry)
    → 0 < max
    → IsAscending es
    → AllWithin lo hi es
    → (r : Inserted) × (split_leaf max es ≡ some r) × Holds lo hi es r
unfolding split_leaf IsOrdered entries
split_leaf-Holds max lo hi es pos a w = elim (Bool-cases (ltb max (length es))) [
  | inr small ↦ (whole (leaf es), rw (small, split_leaf), ((a, w), refl))
  | inl large ↦ elim (List-cases (drop (length es / 2) es)) [
    | inl none_left ↦ absurd (omega (tests, length-drop (length es / 2) es, ap length none_left))
    | inr (r, right, e) ↦ (
      split (leaf (take (length es / 2) es)) r.key (leaf (r ∷ right)),
      rw (large, e, split_leaf),
      split_leaf_parts lo hi (take (length es / 2) es) r right es
          (omega (
            tests,
            length-drop (length es / 2) es,
            length-append (take (length es / 2) es) (drop (length es / 2) es),
            ap length (take-append-drop (length es / 2) es),
          ))
          (rw (← e) (take-append-drop (length es / 2) es)) a w,
    )
  ]
]

-- A branch that has grown past `max` is split into two branches that hold its entries.
module _ (hi : Option Bytes) where
  split_at :
      (mid : ℕ) (ks : List Bytes) (ps : Pages) (lo : Option Bytes) (pivot : Bytes)
      → AreOrdered lo hi ks ps
      → get_elem? ks mid ≡ some pivot
      → AreOrdered lo (some pivot) (take mid (remove_at ks mid)) (take_pages (suc mid) ps)
        × AreOrdered (some pivot) hi (drop mid (remove_at ks mid)) (drop_pages (suc mid) ps)
        × Above lo pivot
        × Below hi pivot
        × (entries_of (take_pages (suc mid) ps) ++ entries_of (drop_pages (suc mid) ps)
            ≡ entries_of ps)
  unfolding AreOrdered entries_of
  split_at mid ks nil lo pivot o e = absurd o
  split_at mid [] (cons p ps) lo pivot o e = absurd (cc)
  split_at zero (k ∷ ks) (cons p ps) lo pivot o e =
      let same : k ≡ pivot = cc in
      subst
        (λ j.
          IsOrdered lo (some j) p
          × AreOrdered (some j) hi ks ps
          × Above lo j
          × Below hi j
          × ((entries p ++ []) ++ entries_of ps ≡ entries p ++ entries_of ps))
        same (o.0, o.3, o.1, o.2, rw append-nil)
  split_at (suc mid) (k ∷ ks) (cons p ps) lo pivot o e =
      let (left, right, low, high, all) = split_at mid ks ps (some k) pivot o.3 e in
      (
        (o.0, o.1, low, left),
        right,
        Above-trans lo k pivot o.1 low,
        high,
        rw append_assoc (ap (◌++◌ (entries p)) all),
      )

get_elem?-lt {ℓ} :
    {A : Type ℓ} (xs : List A) (i : ℕ) → i < length xs → (x : A) × (get_elem? xs i ≡ some x)
get_elem?-lt [] i h = elim h [ ]
get_elem?-lt (x ∷ xs) zero h = (x, refl)
get_elem?-lt (x ∷ xs) (suc i) h = get_elem?-lt xs i (omega arith)

pub split_branch-Holds :
    (max : ℕ) (lo hi : Option Bytes) (ks : List Bytes) (ps : Pages) (es : List Entry)
    → AreOrdered lo hi ks ps
    → entries_of ps ≡ es
    → (r : Inserted) × (split_branch max ks ps ≡ some r) × Holds lo hi es r
unfolding split_branch IsOrdered entries new_branch
split_branch-Holds max lo hi ks ps es o all = elim (Bool-cases (ltb max (length ks))) [
  | inr small ↦ (whole (new_branch ks ps), rw (small, split_branch), (o, all))
  | inl large ↦
      let (pivot, e) = get_elem?-lt ks (length ks / 2) (omega tests) in
      let mid = length ks / 2 in
      let rest = remove_at ks mid in
      let (left, right, low, high, both) = split_at hi mid ks ps lo pivot o e in
      (
        split (new_branch (take mid rest) (take_pages (suc mid) ps)) pivot
            (new_branch (drop mid rest) (drop_pages (suc mid) ps)),
        rw (large, e, split_branch),
        (left, right, low, high, both ∙ all),
      )
]
