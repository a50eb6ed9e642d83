-- ===== src/Tree/Remove.antt =====
-- A removal from an ordered page never goes out of bounds, keeps it ordered, returns what the page
-- held under the key, and erases just that.
use h2database_rust.Prelude.{
  ℕ, Option, none, some, List, [], ◌∷◌, ◌++◌, ◌≡◌, refl, arith, inl, inr, ◌∙◌, sym, ap, remove_at,
  get_elem?, Option-cases,
}
use mathlib.Core.List.{append-nil}
use mathlib.Core.Path.{subst}
use h2database_rust.Bytes.Order.{Bytes, ◌≺◌, cmp-cases}
use h2database_rust.Tree.{
  Entry, Page, Pages, leaf, branch, nil, cons, new_branch, set_page, Search, found, absent,
  next_index, search_keys, search_entries, child_index, leaf_get, Removed, remove_leaf,
  rebuild_removed, remove_page, remove_child, PageRef,
}
use h2database_rust.Tree.Entries.{
  entries, entries_of, IsAscending, AllAbove, AllBelow, lookup, lookup-append_above,
  lookup-append_below, erase, erase-append_above, erase-append_below, All-erase,
}
use h2database_rust.Tree.Shape.{
  AtLeast, Below, IsOrdered, AreOrdered, AllWithin-below, AllWithin-from, entries-AllWithin,
  entries_of-AllWithin, child_index_first, child_index_later,
}
use h2database_rust.Tree.Lookup.{lt-cases, above_of_from, below_of_below, leaf_get-lookup}

-- What is left of a leaf after the search.
take_out : List Entry → Search → List Entry
take_out es (found i) = remove_at es i
take_out es (absent i) = es

take_out-next :
    (e : Entry) (es : List Entry) (s : Search)
    → take_out (e ∷ es) (next_index s) ≡ e ∷ take_out es s
unfolding take_out
take_out-next e es (found i) = refl
take_out-next e es (absent i) = refl

take_out-erase :
    (es : List Entry) (key : Bytes) → take_out es (search_entries es key) ≡ erase es key
unfolding take_out search_entries search_keys erase
take_out-erase [] key = refl
take_out-erase (e ∷ es) key = elim (cmp-cases e.key key) [
  | inl less ↦
      rw (less, search_entries, search_keys, erase)
        (take_out-next e es (search_entries es key) ∙ ap (◌∷◌ e) (take_out-erase es key))
  | inr (inl same) ↦ rw (same, search_entries, search_keys, erase)
  | inr (inr more) ↦ rw (more, search_entries, search_keys, erase)
]

pub erase_absent : (es : List Entry) (key : Bytes) → lookup es key ≡ none → erase es key ≡ es
unfolding erase lookup
erase_absent [] key h = refl
erase_absent (e ∷ es) key h = ground (arith, erase_absent es key)

pub erase-IsAscending :
    (es : List Entry) (key : Bytes) → IsAscending es → IsAscending (erase es key)
unfolding erase
erase-IsAscending [] key a = tt
erase-IsAscending (e ∷ es) key a = elim (cmp-cases e.key key) [
  | inl less ↦
      rw (less, erase) (All-erase (λ k. e.key ≺ k) es key a.0, erase-IsAscending es key a.1)
  | inr (inl same) ↦ rw (same, erase) a.1
  | inr (inr more) ↦ rw (more, erase) a
]

-- The page that a removal leaves, and the value that it returns.
abbrev pub IsRemoval : Option Bytes → Option Bytes → List Entry → Bytes → Removed → Type 0
IsRemoval lo hi es key (q, old) =
    IsOrdered lo hi q × (entries q ≡ erase es key) × (old ≡ lookup es key)

remove_leaf-IsRemoval :
    (lo hi : Option Bytes) (es : List Entry) (key : Bytes)
    → IsOrdered lo hi (leaf es)
    → (r : Removed) × (remove_leaf es key ≡ some r) × IsRemoval lo hi es key r
unfolding remove_leaf leaf_get IsOrdered entries take_out
remove_leaf-IsRemoval lo hi es key o = go (search_entries es key) refl
  where
    read : leaf_get es key ≡ some (lookup es key)
    read = leaf_get-lookup es key o.0

    kept : IsOrdered lo hi (leaf (erase es key))
    kept = (erase-IsAscending es key o.0, All-erase (λ k. AtLeast lo k × Below hi k) es key o.1)

    go :
        (s : Search)
        → search_entries es key ≡ s
        → (r : Removed) × (remove_leaf es key ≡ some r) × IsRemoval lo hi es key r
    go (absent i) e =
        let gone : lookup es key ≡ none = ground (arith, read) in
        ((leaf es, none), rw (e, remove_leaf), (o, sym (erase_absent es key gone), sym gone))
    go (found i) e =
        let out : remove_at es i ≡ erase es key =
          subst (λ t. take_out es t ≡ erase es key) e (take_out-erase es key) in
        elim (Option-cases (get_elem? es i)) [
          | inl missing ↦ absurd (ground (arith, read))
          | inr (x, at) ↦
              let old : some x.value ≡ lookup es key = ground (arith, read) in
              (
                (leaf (remove_at es i), some x.value),
                rw (e, at, remove_leaf),
                (subst (λ l. IsOrdered lo hi (leaf l)) (sym out) kept, out, old),
              )
        ]

-- The children of a branch after a removal from child `i`.
abbrev AreRemoved : Option Bytes → Option Bytes → List Bytes → Pages → ℕ → Bytes → Removed → Type 0
AreRemoved lo hi keys ps i key (q, old) =
    AreOrdered lo hi keys (set_page ps i q)
    × (entries_of (set_page ps i q) ≡ erase (entries_of ps) key)
    × (old ≡ lookup (entries_of ps) key)

rebuild_removed-IsRemoval :
    (lo hi : Option Bytes) (keys : List Bytes) (ps : Pages) (refs : List PageRef) (i : ℕ)
    (key : Bytes) (r : Removed)
    → AreOrdered lo hi keys ps
    → AreRemoved lo hi keys ps i key r
    → (r' : Removed) × (rebuild_removed keys ps refs i (some r) ≡ some r')
      × IsRemoval lo hi (entries_of ps) key r'
unfolding rebuild_removed IsOrdered entries new_branch
rebuild_removed-IsRemoval lo hi keys ps refs i key (q, none) o h =
    ((branch keys ps refs, none), refl, (o, sym (erase_absent (entries_of ps) key (sym h.2)), h.2))
rebuild_removed-IsRemoval lo hi keys ps refs i key (q, some old) o h =
    ((new_branch keys (set_page ps i q), some old), refl, h)

mutual
  unfolding remove_page remove_child entries entries_of IsOrdered AreOrdered

  page-IsRemoval :
      (p : Page) (lo hi : Option Bytes) (key : Bytes)
      → IsOrdered lo hi p
      → (r : Removed) × (remove_page p key ≡ some r) × IsRemoval lo hi (entries p) key r
  page-IsRemoval (leaf es) lo hi key o = remove_leaf-IsRemoval lo hi es key o
  page-IsRemoval (branch keys children refs) lo hi key o =
      let (r, done, h) = child_removal children keys lo hi key o in
      let (r', done', h') =
        rebuild_removed-IsRemoval lo hi keys children refs (child_index keys key) key r o h in
      (r', rw done done', h')

  child_removal :
      (ps : Pages) (keys : List Bytes) (lo hi : Option Bytes) (key : Bytes)
      → AreOrdered lo hi keys ps
      → (r : Removed) × (remove_child ps (child_index keys key) key ≡ some r)
        × AreRemoved lo hi keys ps (child_index keys key) key r
  child_removal nil keys lo hi key o = absurd o
  child_removal (cons p nil) [] lo hi key o =
      let (r, done, h) = page-IsRemoval p lo hi key o in (r, done, simp append-nil h)
  child_removal (cons p (cons q ps)) [] lo hi key o = absurd o
  child_removal (cons p ps) (k ∷ ks) lo hi key o = elim (lt-cases key k) [
    | inl less ↦
        let (r, done, h) = page-IsRemoval p lo (some k) key o.0 in
        let above : AllAbove key (entries_of ps) =
          above_of_from k key (entries_of ps) less
            (AllWithin-from hi k (entries_of ps) (entries_of-AllWithin ps ks (some k) hi o.3)) in
        rw (child_index_first k ks key less) (
          r,
          done,
          (
            (h.0, o.1, o.2, o.3),
            ap (λ l. l ++ entries_of ps) h.1
                ∙ sym (erase-append_above (entries p) (entries_of ps) key above),
            h.2 ∙ sym (lookup-append_above (entries p) (entries_of ps) key above),
          ),
        )
    | inr ge ↦
        let (r, done, h) = child_removal ps ks (some k) hi key o.3 in
        let below : AllBelow key (entries p) =
          below_of_below k key (entries p) ge
            (AllWithin-below lo k (entries p) (entries-AllWithin p lo (some k) o.0)) in
        rw (child_index_later k ks key hi ps ge o.3) (
          r,
          done,
          (
            (o.0, o.1, o.2, h.0),
            ap (◌++◌ (entries p)) h.1
                ∙ sym (erase-append_below (entries p) (entries_of ps) key below),
            h.2 ∙ sym (lookup-append_below (entries p) (entries_of ps) key below),
          ),
        )
  ]

-- A removal from an ordered page returns the value that the entries hold under the key, and leaves
-- an ordered page that holds the entries without the key.
pub remove_page-IsRemoval :
    (p : Page) (lo hi : Option Bytes) (key : Bytes)
    → IsOrdered lo hi p
    → (r : Removed) × (remove_page p key ≡ some r) × IsRemoval lo hi (entries p) key r
remove_page-IsRemoval = page-IsRemoval
