-- ===== src/Tree/Scan/Prefix.antt =====
-- A prefix scan returns exactly the entries of the tree whose keys begin with the prefix, in order.

use mathlib.Core.List.{append-nil, append_assoc}
use mathlib.Core.Path.{subst, fun_ext}
use h2database_rust.Prelude.{
  Bool, true, false, ◌&&◌, ◌||◌, Option, none, some, List, [], ◌∷◌, ◌++◌, drop, All, ◌≡◌, refl, sym,
  ◌∙◌, ap, arith, inl, inr, Bool-cases, ◌==◌,
}
use h2database_rust.Bytes.Order.{Bytes, cmp, ◌≺◌, cmp-cases, cmp_eq, lt_of_gt, lt_trans}
use h2database_rust.Tree.{Entry, Page, Pages, leaf, branch, nil, cons, MvTree}
use h2database_rust.Tree.Entries.{entries, entries_of, IsAscending}
use h2database_rust.Tree.Shape.{
  AtLeast, IsOrdered, AreOrdered, All-weaken, not-lt_of_lt, AllWithin-below, AllWithin-from,
  entries-AllWithin, entries_of-AllWithin,
}
use h2database_rust.Tree.Split.{All-left}
use h2database_rust.Tree.Model.{IsValid, contents}
use h2database_rust.Tree.Scan.{
  is_lt, included, start_index, starts_with, push_prefix, prefix_past, prefix_before,
  collect_prefix, prefix_pages, scan_prefix, and_then,
}
use h2database_rust.Tree.Scan.Keep.{keep, keep-append, keep_none, keep-keep, keep-IsAscending}
use h2database_rust.Tree.Scan.Range.{drop-start_index, after_start}

-- What begins with the prefix is not below it.
starts_with-ge : (k p : Bytes) → starts_with k p ≡ true → ¬ (k ≺ p)
unfolding starts_with cmp
starts_with-ge [] [] h = λ l. cc
starts_with-ge (y ∷ k) [] h = λ l. cc
starts_with-ge [] (x ∷ p) h = absurd (cc)
starts_with-ge (y ∷ k) (x ∷ p) h = λ l. starts_with-ge k p (ground arith) (ground arith)

-- Past the prefix, nothing begins with it.
starts_with-past :
    (p l k : Bytes) → p ≺ l → starts_with l p ≡ false → ¬ (k ≺ l) → starts_with k p ≡ false
unfolding starts_with cmp
starts_with-past [] l k less h ge = absurd (cc)
starts_with-past (x ∷ p) [] k less h ge = absurd (cc)
starts_with-past (x ∷ p) (z ∷ l) [] less h ge = refl
starts_with-past (x ∷ p) (z ∷ l) (y ∷ k) less h ge = elim (Bool-cases (y == x)) [
  | inr other ↦ ground arith
  | inl same ↦ elim (Bool-cases (x == z)) [
    | inl equal ↦
        let ih : starts_with k p ≡ false =
          starts_with-past p l k (ground arith) (ground arith) (λ q. ge (ground arith)) in
        ground arith
    | inr apart ↦ absurd (ge (ground arith))
  ]
]

push_prefix-keep :
    (es : List Entry) (prefix : Bytes) (out : List Entry)
    → IsAscending es
    → push_prefix es prefix out ≡ out ++ keep (λ k. starts_with k prefix) es
unfolding push_prefix keep
push_prefix-keep [] prefix out a = rw append-nil
push_prefix-keep (e ∷ es) prefix out a = elim (Bool-cases (starts_with e.key prefix)) [
  | inl matches ↦
      rw (matches, push_prefix, keep)
        (push_prefix-keep es prefix (out ++ e ∷ []) a.1
          ∙ append_assoc out (e ∷ []) (keep (λ k. starts_with k prefix) es))
  | inr other ↦ elim (Bool-cases (is_lt prefix e.key)) [
    | inr before ↦ rw (other, before, push_prefix, keep) (push_prefix-keep es prefix out a.1)
    | inl past ↦
        let less : prefix ≺ e.key = ground arith in
        let gone : keep (λ k. starts_with k prefix) es ≡ [] = keep_none _ es (
          All-weaken _ _ es
            (λ f above.
              starts_with-past prefix e.key f.key less other (not-lt_of_lt e.key f.key above))
            a.0) in
        rw (other, past, push_prefix, keep, gone, append-nil)
  ]
]

module _ (prefix : Bytes) where
  matching : Bytes → Bool
  matching k = starts_with k prefix

  matching-after_start : (k : Bytes) → (after_start (included prefix) k && matching k) ≡ matching k
  unfolding matching after_start
  matching-after_start k = elim (Bool-cases (starts_with k prefix)) [
    | inr other ↦ ground arith
    | inl yes_it_does ↦ elim (cmp-cases prefix k) [
      | inl less ↦ ground arith
      | inr (inl same) ↦ ground arith
      | inr (inr more) ↦ absurd (starts_with-ge k prefix yes_it_does (lt_of_gt prefix k more))
    ]
  ]

  prefix_leaf :
      (es out : List Entry)
      → IsAscending es
      → push_prefix (drop (start_index es (included prefix)) es) prefix out
        ≡ out ++ keep matching es
  unfolding matching
  prefix_leaf es out a =
      let from_start = after_start (included prefix) in
      rw (drop-start_index es (included prefix) a) (
        push_prefix-keep (keep from_start es) prefix out (keep-IsAscending from_start es a)
        ∙ ap (◌++◌ out)
            (keep-keep from_start matching es ∙ ap (λ P. keep P es) (fun_ext matching-after_start)))

  skipped_past :
      (lower : Option Bytes) (es : List Entry)
      → prefix_past lower prefix ≡ true
      → All (λ e. AtLeast lower e.key) es
      → keep matching es ≡ []
  unfolding matching prefix_past
  skipped_past none es h a = absurd (cc)
  skipped_past (some l) es h a =
      let less : prefix ≺ l = ground arith in
      let other : starts_with l prefix ≡ false = ground arith in
      keep_none _ es (All-weaken _ _ es (λ e ge. starts_with-past prefix l e.key less other ge) a)

  below_prefix : (u k : Bytes) → prefix_before (some u) prefix ≡ true → k ≺ u → k ≺ prefix
  unfolding prefix_before
  below_prefix u k h less = elim (cmp-cases u prefix) [
    | inl low ↦ lt_trans k u prefix less low
    | inr (inl same) ↦ subst (λ x. k ≺ x) (cmp_eq u prefix same) less
    | inr (inr more) ↦ absurd (ground arith)
  ]

  skipped_before :
      (u : Bytes) (es : List Entry)
      → prefix_before (some u) prefix ≡ true
      → All (λ e. e.key ≺ u) es
      → keep matching es ≡ []
  unfolding matching
  skipped_before u es h a = keep_none _ es (
      All-weaken _ _ es
        (λ e less. elim (Bool-cases (starts_with e.key prefix)) [
          | inr other ↦ other
          | inl starts ↦ absurd (starts_with-ge e.key prefix starts (below_prefix u e.key h less))
        ])
        a)

  skipped :
      (lower : Option Bytes) (u : Bytes) (es : List Entry)
      → (prefix_past lower prefix || prefix_before (some u) prefix) ≡ true
      → All (λ e. AtLeast lower e.key) es
      → All (λ e. e.key ≺ u) es
      → keep matching es ≡ []
  skipped lower u es h low high = elim (Bool-cases (prefix_past lower prefix)) [
    | inl past ↦ skipped_past lower es past low
    | inr not_past ↦ skipped_before u es (ground arith) high
  ]

  visit_child :
      (skip : Bool) (es out : List Entry) (visited : Option (List Entry))
      → (skip ≡ true → keep matching es ≡ [])
      → visited ≡ some (out ++ keep matching es)
      → (elim skip [ true ↦ some out | false ↦ visited ]) ≡ some (out ++ keep matching es)
  visit_child true es out visited gone e = rw (gone refl, append-nil)
  visit_child false es out visited gone e = e

  joined :
      (out xs ys : List Entry)
      → (out ++ keep matching xs) ++ keep matching ys ≡ out ++ keep matching (xs ++ ys)
  joined out xs ys =
      append_assoc out (keep matching xs) (keep matching ys)
      ∙ ap (◌++◌ out) (sym (keep-append matching xs ys))

  mutual
    unfolding collect_prefix prefix_pages entries entries_of IsOrdered AreOrdered start_index

    prefix_page :
        (p : Page) (lo hi : Option Bytes) (out : List Entry)
        → IsOrdered lo hi p
        → collect_prefix p prefix out ≡ some (out ++ keep matching (entries p))
    prefix_page (leaf es) lo hi out o = ap some (prefix_leaf es out o.0)
    prefix_page (branch keys children refs) lo hi out o =
        prefix_children children none keys lo hi out o (
          All-weaken _ _ (entries_of children) (λ e _. tt)
            (entries_of-AllWithin children keys lo hi o))

    prefix_children :
        (ps : Pages) (lower : Option Bytes) (keys : List Bytes) (lo hi : Option Bytes)
        (out : List Entry)
        → AreOrdered lo hi keys ps
        → All (λ e. AtLeast lower e.key) (entries_of ps)
        → prefix_pages ps lower keys prefix out ≡ some (out ++ keep matching (entries_of ps))
    prefix_children nil lower keys lo hi out o a = absurd o
    prefix_children (cons p nil) lower [] lo hi out o a = simp append-nil (
        visit_child (prefix_past lower prefix) (entries p) out (collect_prefix p prefix out)
          (λ h. skipped_past lower (entries p) h (All-left _ (entries p) [] a))
          (prefix_page p lo hi out o))
    prefix_children (cons p (cons q ps)) lower [] lo hi out o a = absurd o
    prefix_children (cons p ps) lower (k ∷ ks) lo hi out o a =
        ap (λ r. and_then r (λ out'. prefix_pages ps (some k) ks prefix out'))
          (visit_child (prefix_past lower prefix || prefix_before (some k) prefix) (entries p) out
            (collect_prefix p prefix out)
            (λ h.
              skipped lower k (entries p) h (All-left _ (entries p) (entries_of ps) a)
                (AllWithin-below lo k (entries p) (entries-AllWithin p lo (some k) o.0)))
            (prefix_page p lo (some k) out o.0))
        ∙ prefix_children ps (some k) ks (some k) hi (out ++ keep matching (entries p)) o.3
            (AllWithin-from hi k (entries_of ps) (entries_of-AllWithin ps ks (some k) hi o.3))
        ∙ ap some (joined out (entries p) (entries_of ps))

-- A prefix scan of a valid tree does not panic, and returns exactly the contents whose keys begin
-- with the prefix, in order.
pub scan_prefix-keep :
    (t : MvTree) (prefix : Bytes)
    → IsValid t
    → scan_prefix t prefix ≡ some (keep (λ k. starts_with k prefix) (contents t))
unfolding scan_prefix matching
scan_prefix-keep t prefix v = prefix_page prefix t.root none none [] v.ordered
