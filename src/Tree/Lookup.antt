-- ===== src/Tree/Lookup.antt =====
-- Looking up a key in an ordered page never goes out of bounds, and finds what the entries hold.
use h2database_rust.Prelude.{
  Option, some, List, [], ◌∷◌, All, ◌≡◌, refl, arith, inl, inr, ◌⊎◌, ◌∙◌, sym, ap,
}
use mathlib.Core.List.{append-nil}
use h2database_rust.Bytes.Order.{Bytes, ◌≺◌, lt_trans, lt_of_gt, lt_of_lt_of_le, cmp-cases}
use h2database_rust.Tree.{
  Entry, Page, Pages, leaf, branch, nil, cons, search_keys, search_entries, child_index, leaf_get,
  get_page, get_child,
}
use h2database_rust.Tree.Entries.{
  entries, entries_of, IsAscending, AllAbove, AllBelow, lookup, lookup_above, lookup-append_above,
  lookup-append_below,
}
use h2database_rust.Tree.Shape.{
  IsOrdered, AreOrdered, All-weaken, entries-AllWithin, entries_of-AllWithin, AllWithin-below,
  AllWithin-from, child_index_first, child_index_later,
}

-- `key ≺ k` holds or does not.
pub lt-cases : (a b : Bytes) → (a ≺ b) ⊎ (¬ (a ≺ b))
lt-cases a b = elim (cmp-cases a b) [
  | inl less ↦ inl less
  | inr (inl same) ↦ inr (λ p. cc)
  | inr (inr more) ↦ inr (λ p. cc)
]

pub leaf_get-lookup :
    (es : List Entry) (key : Bytes) → IsAscending es → leaf_get es key ≡ some (lookup es key)
unfolding leaf_get search_entries search_keys lookup
leaf_get-lookup [] key a = refl
leaf_get-lookup (e ∷ es) key a = elim (cmp-cases e.key key) [
  | inl less ↦ ground (arith, leaf_get-lookup es key a.1)
  | inr (inl same) ↦ ground arith
  | inr (inr more) ↦
      let above : AllAbove key es =
        All-weaken _ _ es (λ f h. lt_trans key e.key f.key (lt_of_gt e.key key more) h) a.0 in
      ground (arith, lookup_above es key above)
]

-- The entries from a separator on are above a key below it, and those before it below any other.
pub above_of_from :
    (k key : Bytes) (es : List Entry) → key ≺ k → All (λ e. ¬ (e.key ≺ k)) es → AllAbove key es
above_of_from k key es less h = All-weaken _ _ es (λ e ge. lt_of_lt_of_le key k e.key less ge) h

pub below_of_below :
    (k key : Bytes) (es : List Entry) → ¬ (key ≺ k) → AllBelow k es → AllBelow key es
below_of_below k key es ge h = All-weaken _ _ es (λ e less. lt_of_lt_of_le e.key k key less ge) h

mutual
  unfolding get_page get_child entries entries_of IsOrdered AreOrdered

  get_page-lookup' :
      (p : Page) (lo hi : Option Bytes) (key : Bytes)
      → IsOrdered lo hi p
      → get_page p key ≡ some (lookup (entries p) key)
  get_page-lookup' (leaf es) lo hi key o = leaf_get-lookup es key o.0
  get_page-lookup' (branch keys children refs) lo hi key o =
      get_child-lookup children keys lo hi key o

  get_child-lookup :
      (ps : Pages) (keys : List Bytes) (lo hi : Option Bytes) (key : Bytes)
      → AreOrdered lo hi keys ps
      → get_child ps (child_index keys key) key ≡ some (lookup (entries_of ps) key)
  get_child-lookup nil keys lo hi key o = absurd o
  get_child-lookup (cons p nil) [] lo hi key o = rw append-nil (get_page-lookup' p lo hi key o)
  get_child-lookup (cons p (cons q ps)) [] lo hi key o = absurd o
  get_child-lookup (cons p ps) (k ∷ ks) lo hi key o = elim (lt-cases key k) [
    | inl less ↦ rw (child_index_first k ks key less) (
        get_page-lookup' p lo (some k) key o.0
        ∙ ap some (
            sym (
              lookup-append_above (entries p) (entries_of ps) key (
                above_of_from k key (entries_of ps) less (
                  AllWithin-from hi k (entries_of ps)
                    (entries_of-AllWithin ps ks (some k) hi o.3))))))
    | inr ge ↦ rw (child_index_later k ks key hi ps ge o.3) (
        get_child-lookup ps ks (some k) hi key o.3
        ∙ ap some (
            sym (
              lookup-append_below (entries p) (entries_of ps) key (
                below_of_below k key (entries p) ge
                  (AllWithin-below lo k (entries p) (entries-AllWithin p lo (some k) o.0))))))
  ]

-- Reading a key of an ordered page finds what the list of its entries holds under the key.
pub get_page-lookup :
    (p : Page) (lo hi : Option Bytes) (key : Bytes)
    → IsOrdered lo hi p
    → get_page p key ≡ some (lookup (entries p) key)
get_page-lookup p lo hi key o = get_page-lookup' p lo hi key o
