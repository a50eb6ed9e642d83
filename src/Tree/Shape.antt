-- ===== src/Tree/Shape.antt =====
-- The order of a tree: the keys of a page lie between two bounds, ascend, and are parted by the
-- separators of the branches.
use mathlib.Core.List.{append-nil}
use mathlib.Core.Path.{subst}
use h2database_rust.Prelude.{
  suc, Option, none, some, List, [], ◌∷◌, ◌++◌, All, ◌≡◌, refl, arith, inl, inr,
}
use h2database_rust.Bytes.Order.{
  Bytes, ◌≺◌, lt_trans, lt_of_gt, gt_of_lt, lt_of_lt_of_le, lt_of_le_of_lt, not-lt_self, cmp-cases,
  cmp_eq,
}
use h2database_rust.Tree.{Entry, Page, Pages, leaf, branch, nil, cons, search_keys, child_index}
use h2database_rust.Tree.Entries.{entries, entries_of, IsAscending, AllBelow}

-- A bound that is `none` bounds nothing.
abbrev pub AtLeast : Option Bytes → Bytes → Type 0
AtLeast none k = Unit
AtLeast (some low) k = ¬ (k ≺ low)

abbrev pub Above : Option Bytes → Bytes → Type 0
Above none k = Unit
Above (some low) k = low ≺ k

abbrev pub Below : Option Bytes → Bytes → Type 0
Below none k = Unit
Below (some high) k = k ≺ high

abbrev pub AllWithin : Option Bytes → Option Bytes → List Entry → Type 0
AllWithin lo hi es = All (λ e. AtLeast lo e.key × Below hi e.key) es

unfoldable mutual
  pub IsOrdered : Option Bytes → Option Bytes → Page → Type 0
  IsOrdered lo hi (leaf es) = IsAscending es × AllWithin lo hi es
  IsOrdered lo hi (branch keys children refs) = AreOrdered lo hi keys children

  -- One child more than there are separators.
  pub AreOrdered : Option Bytes → Option Bytes → List Bytes → Pages → Type 0
  AreOrdered lo hi keys nil = ⊥
  AreOrdered lo hi [] (cons p nil) = IsOrdered lo hi p
  AreOrdered lo hi [] (cons p (cons q ps)) = ⊥
  AreOrdered lo hi (k ∷ ks) (cons p ps) =
      IsOrdered lo (some k) p × Above lo k × Below hi k × AreOrdered (some k) hi ks ps

pub Above-AtLeast : (lo : Option Bytes) (k j : Bytes) → Above lo k → ¬ (j ≺ k) → AtLeast lo j
Above-AtLeast none k j a h = tt
Above-AtLeast (some low) k j a h = λ less. h (lt_trans j low k less a)

pub Below-trans : (hi : Option Bytes) (k j : Bytes) → Below hi k → j ≺ k → Below hi j
Below-trans none k j b h = tt
Below-trans (some high) k j b h = lt_trans j k high h b

pub Above-trans : (lo : Option Bytes) (k j : Bytes) → Above lo k → k ≺ j → Above lo j
Above-trans none k j b h = tt
Above-trans (some low) k j b h = lt_trans low k j b h

pub AtLeast-Above : (lo : Option Bytes) (k j : Bytes) → AtLeast lo k → k ≺ j → Above lo j
AtLeast-Above none k j a h = tt
AtLeast-Above (some low) k j a h = lt_of_le_of_lt low k j a h

pub not-lt_of_lt : (a b : Bytes) → a ≺ b → ¬ (b ≺ a)
not-lt_of_lt a b p q = not-lt_self a (lt_trans a b a p q)

pub All-append {ℓ κ} :
    {E : Type ℓ} (R : E → Type κ) (front back : List E)
    → All R front
    → All R back
    → All R (front ++ back)
All-append R (e ∷ front) back (here, f) b = (here, All-append R front back f b)
All-append R [] back f b = b

pub All-weaken {ℓ κ μ} :
    {A : Type ℓ} (P : A → Type κ) (Q : A → Type μ) (xs : List A)
    → ((x : A) → P x → Q x)
    → All P xs
    → All Q xs
All-weaken P Q [] f h = tt
All-weaken P Q (x ∷ xs) f h = (f x h.0, All-weaken P Q xs f h.1)

pub IsAscending-append :
    (k : Bytes) (xs ys : List Entry)
    → IsAscending xs
    → IsAscending ys
    → AllBelow k xs
    → All (λ e. ¬ (e.key ≺ k)) ys
    → IsAscending (xs ++ ys)
IsAscending-append k [] ys ax ay b a = ay
IsAscending-append k (x ∷ xs) ys ax ay b a = (
  All-append _ xs ys ax.0 (All-weaken _ _ ys (λ e h. lt_of_lt_of_le x.key k e.key b.0 h) a),
  IsAscending-append k xs ys ax.1 ay b.1 a,
)

-- Weaker bounds.
widen_low :
    (lo hi : Option Bytes) (k : Bytes) (es : List Entry)
    → Above lo k
    → AllWithin (some k) hi es
    → AllWithin lo hi es
widen_low lo hi k es a h = All-weaken _ _ es (λ e w. (Above-AtLeast lo k e.key a w.0, w.1)) h

widen_high :
    (lo hi : Option Bytes) (k : Bytes) (es : List Entry)
    → Below hi k
    → AllWithin lo (some k) es
    → AllWithin lo hi es
widen_high lo hi k es b h = All-weaken _ _ es (λ e w. (w.0, Below-trans hi k e.key b w.1)) h

mutual
  unfolding IsOrdered AreOrdered entries entries_of

  within_page : (p : Page) (lo hi : Option Bytes) → IsOrdered lo hi p → AllWithin lo hi (entries p)
  within_page (leaf es) lo hi o = o.1
  within_page (branch keys children refs) lo hi o = within_pages children keys lo hi o

  within_pages :
      (ps : Pages) (keys : List Bytes) (lo hi : Option Bytes)
      → AreOrdered lo hi keys ps
      → AllWithin lo hi (entries_of ps)
  within_pages nil keys lo hi o = absurd o
  within_pages (cons p nil) [] lo hi o = All-append _ (entries p) [] (within_page p lo hi o) tt
  within_pages (cons p (cons q ps)) [] lo hi o = absurd o
  within_pages (cons p ps) (k ∷ ks) lo hi o =
      All-append _ (entries p) (entries_of ps)
        (widen_high lo hi k (entries p) o.2 (within_page p lo (some k) o.0))
        (widen_low lo hi k (entries_of ps) o.1 (within_pages ps ks (some k) hi o.3))

-- The entries of an ordered page lie within its bounds.
pub entries-AllWithin :
    (p : Page) (lo hi : Option Bytes) → IsOrdered lo hi p → AllWithin lo hi (entries p)
entries-AllWithin = within_page

pub entries_of-AllWithin :
    (ps : Pages) (keys : List Bytes) (lo hi : Option Bytes)
    → AreOrdered lo hi keys ps
    → AllWithin lo hi (entries_of ps)
entries_of-AllWithin = within_pages

pub AllWithin-below :
    (lo : Option Bytes) (k : Bytes) (es : List Entry) → AllWithin lo (some k) es → AllBelow k es
AllWithin-below lo k es h = All-weaken _ _ es (λ e w. w.1) h

pub AllWithin-from :
    (hi : Option Bytes) (k : Bytes) (es : List Entry)
    → AllWithin (some k) hi es
    → All (λ e. ¬ (e.key ≺ k)) es
AllWithin-from hi k es h = All-weaken _ _ es (λ e w. w.0) h

mutual
  unfolding IsOrdered AreOrdered entries entries_of

  IsAscending-page : (p : Page) (lo hi : Option Bytes) → IsOrdered lo hi p → IsAscending (entries p)
  IsAscending-page (leaf es) lo hi o = o.0
  IsAscending-page (branch keys children refs) lo hi o = IsAscending-pages children keys lo hi o

  IsAscending-pages :
      (ps : Pages) (keys : List Bytes) (lo hi : Option Bytes)
      → AreOrdered lo hi keys ps
      → IsAscending (entries_of ps)
  IsAscending-pages nil keys lo hi o = absurd o
  IsAscending-pages (cons p nil) [] lo hi o = rw append-nil (IsAscending-page p lo hi o)
  IsAscending-pages (cons p (cons q ps)) [] lo hi o = absurd o
  IsAscending-pages (cons p ps) (k ∷ ks) lo hi o =
      IsAscending-append k (entries p) (entries_of ps) (IsAscending-page p lo (some k) o.0)
        (IsAscending-pages ps ks (some k) hi o.3)
        (AllWithin-below lo k (entries p) (within_page p lo (some k) o.0))
        (AllWithin-from hi k (entries_of ps) (within_pages ps ks (some k) hi o.3))

-- The entries of an ordered page ascend.
pub entries-IsAscending :
    (p : Page) (lo hi : Option Bytes) → IsOrdered lo hi p → IsAscending (entries p)
entries-IsAscending = IsAscending-page

-- A key below the first separator belongs in the first child.
pub child_index_first :
    (k : Bytes) (ks : List Bytes) (key : Bytes) → key ≺ k → child_index (k ∷ ks) key ≡ 0
unfolding child_index search_keys
child_index_first k ks key less = ground (arith, gt_of_lt key k less)

child_index_equal :
    (k : Bytes) (ks : List Bytes) (hi : Option Bytes) (ps : Pages)
    → AreOrdered (some k) hi ks ps
    → child_index ks k ≡ 0
unfolding child_index search_keys AreOrdered
child_index_equal k ks hi nil o = absurd o
child_index_equal k [] hi (cons p ps) o = refl
child_index_equal k (j ∷ ks) hi (cons p ps) o = ground (arith, gt_of_lt k j o.1)

-- Any other key belongs where it belongs among the remaining children.
pub child_index_later :
    (k : Bytes) (ks : List Bytes) (key : Bytes) (hi : Option Bytes) (ps : Pages)
    → ¬ (key ≺ k)
    → AreOrdered (some k) hi ks ps
    → child_index (k ∷ ks) key ≡ suc (child_index ks key)
unfolding child_index search_keys AreOrdered
child_index_later k ks key hi ps ge o = elim (cmp-cases k key) [
  | inl less ↦ ground arith
  | inr (inl same) ↦
      let zeroth : child_index ks key ≡ 0 =
        subst (λ j. child_index ks j ≡ 0) (cmp_eq k key same) (child_index_equal k ks hi ps o) in
      ground arith
  | inr (inr more) ↦ absurd (ge (lt_of_gt k key more))
]
