-- ===== src/Tree/Put.antt =====
-- An insertion into an ordered page never goes out of bounds, keeps it ordered, and changes its
-- entries as an insertion into the list.
use h2database_rust.Prelude.{
  ℕ, suc, ◌<◌, Option, some, List, [], ◌∷◌, ◌++◌, ◌≡◌, refl, inl, inr, ◌∙◌, sym, ap, insert_at,
}
use mathlib.Core.List.{append-nil, append_assoc}
use mathlib.Core.Path.{subst}
use h2database_rust.Bytes.Order.{Bytes, ◌≺◌, lt_trans, lt_of_gt, cmp-cases}
use h2database_rust.Tree.{
  Entry, Page, Pages, leaf, branch, nil, cons, new_branch, set_page, insert_page_at, Search, found,
  absent, next_index, search_keys, search_entries, set_value, child_index, Inserted, whole, split,
  insert_leaf, rebuild, insert_page, insert_child,
}
use h2database_rust.Tree.Entries.{
  entries, entries_of, IsAscending, insert, insert-append_above, insert-append_below, All-insert,
}
use h2database_rust.Tree.Shape.{
  AtLeast, Below, AllWithin, IsOrdered, AreOrdered, All-weaken, Below-trans, AllWithin-below,
  AllWithin-from, entries-AllWithin, entries_of-AllWithin, child_index_first, child_index_later,
}
use h2database_rust.Tree.Lookup.{lt-cases, above_of_from, below_of_below}
use h2database_rust.Tree.Split.{Holds, split_leaf-Holds, split_branch-Holds}

-- What the leaf's code does with the result of its search is the insertion into the list.
place : List Entry → Search → Bytes → Bytes → List Entry
place es (found i) key value = set_value es i value
place es (absent i) key value = insert_at es i (record { key = key; value = value })

place-next :
    (e : Entry) (es : List Entry) (s : Search) (key value : Bytes)
    → place (e ∷ es) (next_index s) key value ≡ e ∷ place es s key value
unfolding place set_value
place-next e es (found i) key value = refl
place-next e es (absent i) key value = refl

place-insert :
    (es : List Entry) (key value : Bytes)
    → place es (search_entries es key) key value ≡ insert es key value
unfolding place search_entries search_keys set_value insert
place-insert [] key value = refl
place-insert (e ∷ es) key value = elim (cmp-cases e.key key) [
  | inl less ↦
      rw (less, search_entries, search_keys, insert)
        (place-next e es (search_entries es key) key value ∙ ap (◌∷◌ e) (place-insert es key value))
  | inr (inl same) ↦ rw (same, search_entries, search_keys, insert)
  | inr (inr more) ↦ rw (more, search_entries, search_keys, insert)
]

insert-IsAscending :
    (es : List Entry) (key value : Bytes) → IsAscending es → IsAscending (insert es key value)
unfolding insert
insert-IsAscending [] key value a = (tt, tt)
insert-IsAscending (e ∷ es) key value a = elim (cmp-cases e.key key) [
  | inl less ↦
      rw (less, insert)
        (All-insert (λ k. e.key ≺ k) es key value a.0 less, insert-IsAscending es key value a.1)
  | inr (inl same) ↦ rw (same, insert) a
  | inr (inr more) ↦
      let low : key ≺ e.key = lt_of_gt e.key key more in
      rw (more, insert) ((low, All-weaken _ _ es (λ f h. lt_trans key e.key f.key low h) a.0), a)
]

insert_leaf-Holds :
    (max : ℕ) (lo hi : Option Bytes) (es : List Entry) (key value : Bytes)
    → 0 < max
    → IsOrdered lo hi (leaf es)
    → AtLeast lo key
    → Below hi key
    → (r : Inserted) × (insert_leaf max es key value ≡ some r) × Holds lo hi (insert es key value) r
unfolding insert_leaf IsOrdered entries place
insert_leaf-Holds max lo hi es key value pos o low high = go (search_entries es key) refl
  where
    a : IsAscending (insert es key value)
    a = insert-IsAscending es key value o.0

    w : AllWithin lo hi (insert es key value)
    w = All-insert (λ k. AtLeast lo k × Below hi k) es key value o.1 (low, high)

    go :
        (s : Search)
        → search_entries es key ≡ s
        → (r : Inserted) × (insert_leaf max es key value ≡ some r)
          × Holds lo hi (insert es key value) r
    go (found i) e =
        let placed : set_value es i value ≡ insert es key value =
          subst (λ t. place es t key value ≡ insert es key value) e (place-insert es key value) in
        (
          whole (leaf (set_value es i value)),
          rw (e, insert_leaf),
          ((rw placed a, rw placed w), placed),
        )
    go (absent i) e =
        let placed : insert_at es i (record { key = key; value = value }) ≡ insert es key value =
          subst (λ t. place es t key value ≡ insert es key value) e (place-insert es key value) in
        let grown = insert_at es i (record { key = key; value = value }) in
        let (r, done, holds) =
          split_leaf-Holds max lo hi grown pos (subst IsAscending (sym placed) a)
            (subst (AllWithin lo hi) (sym placed) w) in
        (r, rw (e, insert_leaf) done, subst (λ l. Holds lo hi l r) placed holds)

-- What the children of a branch become when child `i` is replaced, before the branch is split.
new_keys : List Bytes → ℕ → Inserted → List Bytes
new_keys keys i (whole child) = keys
new_keys keys i (split child pivot right) = insert_at keys i pivot

new_children : Pages → ℕ → Inserted → Pages
new_children ps i (whole child) = set_page ps i child
new_children ps i (split child pivot right) = insert_page_at (set_page ps i child) (suc i) right

abbrev HoldAll :
    Option Bytes → Option Bytes → List Bytes → Pages → ℕ → List Entry → Inserted → Type 0
HoldAll lo hi keys ps i es r =
    AreOrdered lo hi (new_keys keys i r) (new_children ps i r)
    × (entries_of (new_children ps i r) ≡ es)

module _ (lo hi : Option Bytes) (key value : Bytes) where
  only_child :
      (p : Page) (r : Inserted)
      → Holds lo hi (insert (entries p) key value) r
      → HoldAll lo hi [] (cons p nil) 0 (insert (entries p) key value) r
  unfolding new_keys new_children AreOrdered entries_of
  only_child p (whole q) h = (h.0, rw append-nil h.1)
  only_child p (split q pivot s) h = ((h.0, h.2, h.3, h.1), rw append-nil h.4)

  first_child :
      (k : Bytes) (ks : List Bytes) (p : Page) (ps : Pages) (r : Inserted)
      → AreOrdered lo hi (k ∷ ks) (cons p ps)
      → key ≺ k
      → Holds lo (some k) (insert (entries p) key value) r
      → HoldAll lo hi (k ∷ ks) (cons p ps) 0 (insert (entries_of (cons p ps)) key value) r
  unfolding new_keys new_children AreOrdered entries_of
  first_child k ks p ps r o less = go r
    where
      rest : List Entry
      rest = entries_of ps

      joined : insert (entries p ++ rest) key value ≡ insert (entries p) key value ++ rest
      joined = insert-append_above (entries p) rest key value (
          above_of_from k key rest less
            (AllWithin-from hi k rest (entries_of-AllWithin ps ks (some k) hi o.3)))

      go :
          (r : Inserted)
          → Holds lo (some k) (insert (entries p) key value) r
          → HoldAll lo hi (k ∷ ks) (cons p ps) 0 (insert (entries p ++ rest) key value) r
      go (whole q) h = ((h.0, o.1, o.2, o.3), ap (λ l. l ++ rest) h.1 ∙ sym joined)
      go (split q pivot s) h = (
        (h.0, h.2, Below-trans hi k pivot o.2 h.3, (h.1, h.3, o.2, o.3)),
        sym (append_assoc (entries q) (entries s) rest) ∙ ap (λ l. l ++ rest) h.4 ∙ sym joined,
      )

  later_child :
      (k : Bytes) (ks : List Bytes) (p : Page) (ps : Pages) (i : ℕ) (r : Inserted)
      → AreOrdered lo hi (k ∷ ks) (cons p ps)
      → ¬ (key ≺ k)
      → HoldAll (some k) hi ks ps i (insert (entries_of ps) key value) r
      → HoldAll lo hi (k ∷ ks) (cons p ps) (suc i) (insert (entries_of (cons p ps)) key value) r
  unfolding new_keys new_children AreOrdered entries_of
  later_child k ks p ps i r o ge = go r
    where
      joined :
          insert (entries p ++ entries_of ps) key value
          ≡ entries p ++ insert (entries_of ps) key value
      joined = insert-append_below (entries p) (entries_of ps) key value (
          below_of_below k key (entries p) ge
            (AllWithin-below lo k (entries p) (entries-AllWithin p lo (some k) o.0)))

      go :
          (r : Inserted)
          → HoldAll (some k) hi ks ps i (insert (entries_of ps) key value) r
          → HoldAll lo hi
              (k ∷ ks)
              (cons p ps)
              (suc i)
              (insert (entries p ++ entries_of ps) key value)
              r
      go (whole q) h = ((o.0, o.1, o.2, h.0), ap (◌++◌ (entries p)) h.1 ∙ sym joined)
      go (split q pivot s) h = ((o.0, o.1, o.2, h.0), ap (◌++◌ (entries p)) h.1 ∙ sym joined)

rebuild-Holds :
    (max : ℕ) (lo hi : Option Bytes) (keys : List Bytes) (ps : Pages) (i : ℕ) (es : List Entry)
    (r : Inserted)
    → HoldAll lo hi keys ps i es r
    → (r' : Inserted) × (rebuild max keys ps i r ≡ some r') × Holds lo hi es r'
unfolding rebuild new_keys new_children IsOrdered entries
rebuild-Holds max lo hi keys ps i es (whole q) h =
    (whole (new_branch keys (set_page ps i q)), refl, h)
rebuild-Holds max lo hi keys ps i es (split q pivot s) h =
    split_branch-Holds max lo hi (insert_at keys i pivot)
      (insert_page_at (set_page ps i q) (suc i) s) es h.0 h.1

mutual
  unfolding insert_page insert_child entries entries_of IsOrdered AreOrdered

  page-Holds :
      (p : Page) (max : ℕ) (lo hi : Option Bytes) (key value : Bytes)
      → 0 < max
      → IsOrdered lo hi p
      → AtLeast lo key
      → Below hi key
      → (r : Inserted) × (insert_page max p key value ≡ some r)
        × Holds lo hi (insert (entries p) key value) r
  page-Holds (leaf es) max lo hi key value pos o low high =
      insert_leaf-Holds max lo hi es key value pos o low high
  page-Holds (branch keys children refs) max lo hi key value pos o low high =
      let (r, done, h) = child_holds children keys max lo hi key value pos o low high in
      let (r', done', h') =
        rebuild-Holds max lo hi keys children (child_index keys key)
          (insert (entries_of children) key value) r h in
      (r', rw done done', h')

  child_holds :
      (ps : Pages) (keys : List Bytes) (max : ℕ) (lo hi : Option Bytes) (key value : Bytes)
      → 0 < max
      → AreOrdered lo hi keys ps
      → AtLeast lo key
      → Below hi key
      → (r : Inserted) × (insert_child max ps (child_index keys key) key value ≡ some r)
        × HoldAll lo hi keys ps (child_index keys key) (insert (entries_of ps) key value) r
  child_holds nil keys max lo hi key value pos o low high = absurd o
  child_holds (cons p nil) [] max lo hi key value pos o low high =
      let (r, done, h) = page-Holds p max lo hi key value pos o low high in
      (r, done, rw append-nil (only_child lo hi key value p r h))
  child_holds (cons p (cons q ps)) [] max lo hi key value pos o low high = absurd o
  child_holds (cons p ps) (k ∷ ks) max lo hi key value pos o low high = elim (lt-cases key k) [
    | inl less ↦
        let (r, done, h) = page-Holds p max lo (some k) key value pos o.0 low less in
        rw (child_index_first k ks key less)
          (r, done, first_child lo hi key value k ks p ps r o less h)
    | inr ge ↦
        let (r, done, h) = child_holds ps ks max (some k) hi key value pos o.3 ge high in
        rw (child_index_later k ks key hi ps ge o.3)
          (r, done, later_child lo hi key value k ks p ps (child_index ks key) r o ge h)
  ]

-- An insertion into an ordered page returns, and leaves ordered pages that hold the entries with
-- the key inserted.
pub insert_page-Holds :
    (p : Page) (max : ℕ) (lo hi : Option Bytes) (key value : Bytes)
    → 0 < max
    → IsOrdered lo hi p
    → AtLeast lo key
    → Below hi key
    → (r : Inserted) × (insert_page max p key value ≡ some r)
      × Holds lo hi (insert (entries p) key value) r
insert_page-Holds = page-Holds
