-- ===== src/Tree/Scan/Range.antt =====
-- A range scan returns exactly the entries of the tree whose keys lie in the range, in order.

use mathlib.Core.List.{append-nil, append_assoc}
use mathlib.Core.Path.{subst}
use h2database_rust.Prelude.{
  suc, Bool, true, false, ◌&&◌, ◌||◌, Option, none, some, List, [], ◌∷◌, ◌++◌, drop, All, ◌≡◌, refl,
  sym, ◌∙◌, ap, arith, inl, inr, Bool-cases,
}
use h2database_rust.Bytes.Order.{
  Bytes, ◌≺◌, cmp-cases, cmp_eq, lt_of_gt, gt_of_lt, eq_of_eq, lt_trans, lt_of_lt_of_le,
  lt_of_le_of_lt,
}
use h2database_rust.Tree.{
  Entry, Page, Pages, leaf, branch, nil, cons, MvTree, Search, found, absent, next_index,
  search_keys, search_entries,
}
use h2database_rust.Tree.Entries.{entries, entries_of, IsAscending}
use h2database_rust.Tree.Shape.{
  AtLeast, IsOrdered, AreOrdered, All-weaken, AllWithin-below, AllWithin-from, entries-AllWithin,
  entries_of-AllWithin,
}
use h2database_rust.Tree.Split.{All-left}
use h2database_rust.Tree.Model.{IsValid, contents}
use h2database_rust.Tree.Scan.{
  is_lt, is_le, Bound, unbounded, included, excluded, at_or_after, just_after, start_index,
  within_end, push_range, past_end, before_start, collect_range, range_pages, scan_range, and_then,
}
use h2database_rust.Tree.Scan.Keep.{
  keep, keep-append, keep_none, keep-All, keep-keep, keep-IsAscending, keep_everything,
}

unfoldable pub after_start : Bound → Bytes → Bool
after_start unbounded k = true
after_start (included start_k) k = is_le start_k k
after_start (excluded start_k) k = is_lt start_k k

unfoldable pub in_range : Bound → Bound → Bytes → Bool
in_range start end k = after_start start k && within_end end k

at_or_after-next : (s : Search) → at_or_after (next_index s) ≡ suc (at_or_after s)
at_or_after-next (found i) = refl
at_or_after-next (absent i) = refl

just_after-next : (s : Search) → just_after (next_index s) ≡ suc (just_after s)
just_after-next (found i) = refl
just_after-next (absent i) = refl

All-after :
    (k : Bytes) (e : Entry) (es : List Entry)
    → ¬ (e.key ≺ k)
    → All (λ f. e.key ≺ f.key) es
    → (All (λ f. is_le k f.key ≡ true) es) × (All (λ f. is_lt k f.key ≡ true) es)
All-after k e es ge a = (
  All-weaken _ _ es (λ f h. ground (arith, lt_of_le_of_lt k e.key f.key ge h)) a,
  All-weaken _ _ es (λ f h. ground (arith, lt_of_le_of_lt k e.key f.key ge h)) a,
)

-- The entries from the index at which a scan starts are those past the start.
pub drop-start_index :
    (es : List Entry) (start : Bound)
    → IsAscending es
    → drop (start_index es start) es ≡ keep (after_start start) es
unfolding start_index search_entries search_keys keep after_start
drop-start_index es unbounded a = sym (keep_everything _ es (λ k. refl))
drop-start_index [] (included k) a = refl
drop-start_index (e ∷ es) (included k) a = elim (cmp-cases e.key k) [
  | inl less ↦ ground (
    arith,
    gt_of_lt e.key k less,
    at_or_after-next (search_entries es k),
    drop-start_index es (included k) a.1,
  )
  | inr (inl same) ↦ ground (
    arith,
    eq_of_eq e.key k same,
    keep-All (λ j. is_le k j) es (All-after k e es (λ p. cc) a.0).0,
  )
  | inr (inr more) ↦ ground (
    arith,
    lt_of_gt e.key k more,
    keep-All (λ j. is_le k j) es (All-after k e es (λ p. cc) a.0).0,
  )
]
drop-start_index [] (excluded k) a = refl
drop-start_index (e ∷ es) (excluded k) a = elim (cmp-cases e.key k) [
  | inl less ↦ ground (
    arith,
    gt_of_lt e.key k less,
    just_after-next (search_entries es k),
    drop-start_index es (excluded k) a.1,
  )
  | inr (inl same) ↦ ground (
    arith,
    eq_of_eq e.key k same,
    keep-All (λ j. is_lt k j) es (All-after k e es (λ p. cc) a.0).1,
  )
  | inr (inr more) ↦ ground (
    arith,
    lt_of_gt e.key k more,
    keep-All (λ j. is_lt k j) es (All-after k e es (λ p. cc) a.0).1,
  )
]

-- Past the end, all later keys are past the end.
within_end-later :
    (end : Bound) (a b : Bytes) → a ≺ b → within_end end a ≡ false → within_end end b ≡ false
unfolding within_end
within_end-later unbounded a b less h = h
within_end-later (included k) a b less h =
    ground (arith, lt_of_gt a k, gt_of_lt k b, lt_trans k a b)
within_end-later (excluded k) a b less h = elim (cmp-cases a k) [
  | inl low ↦ absurd (ground arith)
  | inr (inl same) ↦
      let high : k ≺ b = subst (λ x. x ≺ b) (cmp_eq a k same) less in
      ground (arith, gt_of_lt k b high)
  | inr (inr more) ↦ ground (arith, gt_of_lt k b (lt_trans k a b (lt_of_gt a k more) less))
]

push_range-keep :
    (es : List Entry) (end : Bound) (out : List Entry)
    → IsAscending es
    → push_range es end out ≡ out ++ keep (within_end end) es
unfolding push_range keep
push_range-keep [] end out a = rw append-nil
push_range-keep (e ∷ es) end out a = elim (Bool-cases (within_end end e.key)) [
  | inl inside ↦
      rw (inside, push_range, keep)
        (push_range-keep es end (out ++ e ∷ []) a.1
          ∙ append_assoc out (e ∷ []) (keep (within_end end) es))
  | inr past ↦
      let gone : keep (within_end end) es ≡ [] =
        keep_none _ es
          (All-weaken _ _ es (λ f less. within_end-later end e.key f.key less past) a.0) in
      rw (past, push_range, keep, gone, append-nil)
]

past_end-outside :
    (lower : Option Bytes) (end : Bound) (k : Bytes)
    → past_end lower end ≡ true
    → AtLeast lower k
    → within_end end k ≡ false
unfolding past_end within_end
past_end-outside none end k h a = absurd (cc)
past_end-outside (some l) unbounded k h a = absurd (cc)
past_end-outside (some l) (included e) k h a =
    let less : e ≺ l = ground arith in ground (arith, gt_of_lt e k (lt_of_lt_of_le e l k less a))
past_end-outside (some l) (excluded e) k h a = elim (cmp-cases e l) [
  | inl less ↦ ground (arith, gt_of_lt e k (lt_of_lt_of_le e l k less a))
  | inr (inl same) ↦
      let low : ¬ (k ≺ e) = subst (λ x. ¬ (k ≺ x)) (sym (cmp_eq e l same)) a in
      elim (cmp-cases k e) [
        | inl less ↦ absurd (low less)
        | inr (inl equal) ↦ ground arith
        | inr (inr more) ↦ ground arith
      ]
  | inr (inr more) ↦ absurd (ground arith)
]

lt_of_lt_of_is_le : (k u s : Bytes) → k ≺ u → is_le u s ≡ true → k ≺ s
lt_of_lt_of_is_le k u s less h = elim (cmp-cases u s) [
  | inl low ↦ lt_trans k u s less low
  | inr (inl same) ↦ subst (λ x. k ≺ x) (cmp_eq u s same) less
  | inr (inr more) ↦ absurd (ground arith)
]

before_start-outside :
    (u : Bytes) (start : Bound) (k : Bytes)
    → before_start (some u) start ≡ true
    → k ≺ u
    → after_start start k ≡ false
unfolding before_start after_start
before_start-outside u unbounded k h less = absurd (cc)
before_start-outside u (included s) k h less =
    ground (arith, gt_of_lt k s (lt_of_lt_of_is_le k u s less h))
before_start-outside u (excluded s) k h less =
    ground (arith, gt_of_lt k s (lt_of_lt_of_is_le k u s less h))

module _ (start end : Bound) where
  inside : Bytes → Bool
  inside = in_range start end

  range_leaf :
      (es out : List Entry)
      → IsAscending es
      → push_range (drop (start_index es start) es) end out ≡ out ++ keep inside es
  unfolding inside in_range
  range_leaf es out a = rw (drop-start_index es start a) (
      push_range-keep (keep (after_start start) es) end out
        (keep-IsAscending (after_start start) es a)
      ∙ ap (◌++◌ out) (keep-keep (after_start start) (within_end end) es))

  -- A child that is passed over has no entry in the range.
  skipped_end :
      (lower : Option Bytes) (es : List Entry)
      → past_end lower end ≡ true
      → All (λ e. AtLeast lower e.key) es
      → keep inside es ≡ []
  unfolding inside in_range
  skipped_end lower es h a =
      keep_none _ es
        (All-weaken _ _ es (λ e low. ground (arith, past_end-outside lower end e.key h low)) a)

  skipped_start :
      (u : Bytes) (es : List Entry)
      → before_start (some u) start ≡ true
      → All (λ e. e.key ≺ u) es
      → keep inside es ≡ []
  unfolding inside in_range
  skipped_start u es h a =
      keep_none _ es
        (All-weaken _ _ es (λ e less. ground (arith, before_start-outside u start e.key h less)) a)

  skipped :
      (lower : Option Bytes) (u : Bytes) (es : List Entry)
      → (past_end lower end || before_start (some u) start) ≡ true
      → All (λ e. AtLeast lower e.key) es
      → All (λ e. e.key ≺ u) es
      → keep inside es ≡ []
  skipped lower u es h low high = elim (Bool-cases (past_end lower end)) [
    | inl past ↦ skipped_end lower es past low
    | inr not ↦ skipped_start u es (ground arith) high
  ]

  visit_child :
      (skip : Bool) (es out : List Entry) (visited : Option (List Entry))
      → (skip ≡ true → keep inside es ≡ [])
      → visited ≡ some (out ++ keep inside es)
      → (elim skip [ true ↦ some out | false ↦ visited ]) ≡ some (out ++ keep inside es)
  visit_child true es out visited gone e = rw (gone refl, append-nil)
  visit_child false es out visited gone e = e

  joined :
      (out xs ys : List Entry)
      → (out ++ keep inside xs) ++ keep inside ys ≡ out ++ keep inside (xs ++ ys)
  joined out xs ys =
      append_assoc out (keep inside xs) (keep inside ys)
      ∙ ap (◌++◌ out) (sym (keep-append inside xs ys))

  mutual
    unfolding collect_range range_pages entries entries_of IsOrdered AreOrdered

    range_page :
        (p : Page) (lo hi : Option Bytes) (out : List Entry)
        → IsOrdered lo hi p
        → collect_range p start end out ≡ some (out ++ keep inside (entries p))
    range_page (leaf es) lo hi out o = ap some (range_leaf es out o.0)
    range_page (branch keys children refs) lo hi out o =
        range_children children none keys lo hi out o (
          All-weaken _ _ (entries_of children) (λ e _. tt)
            (entries_of-AllWithin children keys lo hi o))

    range_children :
        (ps : Pages) (lower : Option Bytes) (keys : List Bytes) (lo hi : Option Bytes)
        (out : List Entry)
        → AreOrdered lo hi keys ps
        → All (λ e. AtLeast lower e.key) (entries_of ps)
        → range_pages ps lower keys start end out ≡ some (out ++ keep inside (entries_of ps))
    range_children nil lower keys lo hi out o a = absurd o
    range_children (cons p nil) lower [] lo hi out o a = simp append-nil (
        visit_child (past_end lower end) (entries p) out (collect_range p start end out)
          (λ h. skipped_end lower (entries p) h (All-left _ (entries p) [] a))
          (range_page p lo hi out o))
    range_children (cons p (cons q ps)) lower [] lo hi out o a = absurd o
    range_children (cons p ps) lower (k ∷ ks) lo hi out o a =
        ap (λ r. and_then r (λ out'. range_pages ps (some k) ks start end out'))
          (visit_child (past_end lower end || before_start (some k) start) (entries p) out
            (collect_range p start end out)
            (λ h.
              skipped lower k (entries p) h (All-left _ (entries p) (entries_of ps) a)
                (AllWithin-below lo k (entries p) (entries-AllWithin p lo (some k) o.0)))
            (range_page p lo (some k) out o.0))
        ∙ range_children ps (some k) ks (some k) hi (out ++ keep inside (entries p)) o.3
            (AllWithin-from hi k (entries_of ps) (entries_of-AllWithin ps ks (some k) hi o.3))
        ∙ ap some (joined out (entries p) (entries_of ps))

-- A range scan of a valid tree does not panic, and returns exactly the contents whose keys lie
-- between the bounds, in order.
pub scan_range-keep :
    (t : MvTree) (start end : Bound)
    → IsValid t
    → scan_range t start end ≡ some (keep (in_range start end) (contents t))
unfolding scan_range inside
scan_range-keep t start end v = range_page start end t.root none none [] v.ordered
