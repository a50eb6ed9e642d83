-- ===== src/Tree/Model.antt =====
-- The tree refines a list of entries with ascending keys, and so a map.
use Prim.Native.Nat.{Ordering}
use mathlib.Core.Path.{subst}
use mathlib.Core.List.{append-nil}
use h2database_rust.Prelude.{
  ℕ, ◌<◌, Option, none, some, List, [], ◌∷◌, All, ◌≡◌, refl, arith, inl, inr, ◌∙◌, sym, ap,
}
use h2database_rust.Bytes.Order.{
  Bytes, cmp, ◌≺◌, lt_trans, lt_of_gt, gt_of_lt, cmp-cases, cmp_eq, cmp_self,
}
use h2database_rust.Tree.{
  Entry, Page, nil, cons, MvTree, new, get, put, remove, new_branch, new_leaf, whole, split,
  Inserted, insert_page, remove_page,
}
use h2database_rust.Tree.Entries.{
  entries, entries_of, IsAscending, lookup, lookup_above, insert, erase,
}
use h2database_rust.Tree.Shape.{IsOrdered, All-weaken, entries-IsAscending}
use h2database_rust.Tree.Lookup.{get_page-lookup}
use h2database_rust.Tree.Split.{Holds}
use h2database_rust.Tree.Put.{insert_page-Holds}
use h2database_rust.Tree.Remove.{remove_page-IsRemoval, erase_absent}

-- The tree's keys are in order, and a page may hold at least one entry.
pub record IsValid (t : MvTree) : Type 0 where
  pub ordered : IsOrdered none none t.root
  pub room : 0 < t.max_entries_per_page

abbrev pub contents : MvTree → List Entry
contents t = entries t.root

-- A new tree is valid and empty.
pub new-IsValid : (max : ℕ) → 0 < max → IsValid (new max) × (contents (new max) ≡ [])
unfolding new new_leaf IsOrdered entries
new-IsValid max h = (record { ordered = (tt, tt); room = h }, refl)

-- `get` on a valid tree does not panic, and returns what the contents hold under the key.
pub get-lookup : (t : MvTree) (key : Bytes) → IsValid t → get t key ≡ some (lookup (contents t) key)
unfolding get
get-lookup t key v = get_page-lookup t.root none none key v.ordered

-- `put` on a valid tree does not panic; the tree stays valid, and its contents are the old ones
-- with the entry inserted in its place.
pub put-insert :
    (t : MvTree) (key value : Bytes)
    → IsValid t
    → (t' : MvTree) × (put t key value ≡ some t')
      × IsValid t'
      × (contents t' ≡ insert (contents t) key value)
unfolding put entries entries_of IsOrdered new_branch
put-insert t key value v =
    let (r, done, h) =
      insert_page-Holds t.root t.max_entries_per_page none none key value v.room v.ordered tt tt in
    go r done h
  where
    go :
        (r : Inserted)
        → insert_page t.max_entries_per_page t.root key value ≡ some r
        → Holds none none (insert (entries t.root) key value) r
        → (t' : MvTree) × (put t key value ≡ some t')
          × IsValid t'
          × (contents t' ≡ insert (contents t) key value)
    go (whole p) done h =
        (record t { root = p }, rw (done, put), record { ordered = h.0; room = v.room }, h.1)
    go (split p pivot q) done h = (
      record t { root = new_branch (pivot ∷ []) (cons p (cons q nil)) },
      rw (done, put),
      record { ordered = (h.0, h.2, h.3, h.1); room = v.room },
      rw append-nil h.4,
    )

-- `remove` on a valid tree does not panic and returns the value that was held; the tree stays
-- valid, and its contents are the old ones without the key.
pub remove-erase :
    (t : MvTree) (key : Bytes)
    → IsValid t
    → (t' : MvTree) × (remove t key ≡ some (t', lookup (contents t) key))
      × IsValid t'
      × (contents t' ≡ erase (contents t) key)
unfolding remove
remove-erase t key v =
    let (r, done, h) = remove_page-IsRemoval t.root none none key v.ordered in
    go r.0 r.1 done h.0 h.1 h.2
  where
    go :
        (q : Page) (old : Option Bytes)
        → remove_page t.root key ≡ some (q, old)
        → IsOrdered none none q
        → entries q ≡ erase (entries t.root) key
        → old ≡ lookup (entries t.root) key
        → (t' : MvTree) × (remove t key ≡ some (t', lookup (contents t) key))
          × IsValid t'
          × (contents t' ≡ erase (contents t) key)
    go q none done o e l =
        (t, rw (done, ← l, remove), v, sym (erase_absent (entries t.root) key (sym l)))
    go q (some old) done o e l =
        (record t { root = q }, rw (done, ← l, remove), record { ordered = o; room = v.room }, e)

-- Whether two keys are equal, by the order of the tree.
abbrev pub if_same {ℓ} : {A : Type ℓ} → Bytes → Bytes → A → A → A
if_same k j a b = elim (cmp k j) [ Ordering.eq ↦ a | Ordering.lt ↦ b | Ordering.gt ↦ b ]

pub lookup-insert :
    (es : List Entry) (k value j : Bytes)
    → lookup (insert es k value) j ≡ if_same k j (some value) (lookup es j)
unfolding lookup insert
lookup-insert [] k value j = ground arith
lookup-insert (e ∷ es) k value j =
    ground (arith, lookup-insert es k value j, cmp_eq e.key j, cmp_eq e.key k, cmp_eq k j)

pub lookup-erase :
    (es : List Entry) (k j : Bytes)
    → IsAscending es
    → lookup (erase es k) j ≡ if_same k j none (lookup es j)
unfolding lookup erase
lookup-erase [] k j a = ground arith
lookup-erase (e ∷ es) k j a = elim (cmp-cases e.key k) [
  | inl less ↦
      ground
        (arith, less, gt_of_lt e.key k less, lookup-erase es k j a.1, cmp_eq e.key j, cmp_eq k j)
  | inr (inl same) ↦
      let p : e.key ≡ k = cmp_eq e.key k same in
      let gone : lookup es k ≡ none =
        lookup_above es k (subst (λ x. All (λ f. x ≺ f.key) es) p a.0) in
      ground (arith, gone, same, p, cmp_eq k j, cmp_self k)
  | inr (inr more) ↦
      let low : k ≺ e.key = lt_of_gt e.key k more in
      let gone : lookup (e ∷ es) k ≡ none =
        lookup_above (e ∷ es) k
          (low, All-weaken _ _ es (λ f h. lt_trans k e.key f.key low h) a.0) in
      ground (arith, gone, more, cmp_eq k j)
]

-- After a `put`, a key reads as the new value if it is the key that was put, and otherwise as it
-- did before.
pub get-put :
    (t t' : MvTree) (k value j : Bytes)
    → IsValid t
    → put t k value ≡ some t'
    → get t' j ≡ if_same k j (some (some value)) (get t j)
get-put t t' k value j v e =
    let (u, done, valid, held) = put-insert t k value v in
    let same : u ≡ t' = cc in
    let held' : contents t' ≡ insert (contents t) k value =
      subst (λ x. contents x ≡ insert (contents t) k value) same held in
    ground (
      arith,
      get-lookup t' j (subst IsValid same valid),
      get-lookup t j v,
      held',
      lookup-insert (contents t) k value j,
    )

-- After a `remove`, which returns what `get` reads, the key is gone and every other key reads as
-- before.
pub get-remove :
    (t t' : MvTree) (k j : Bytes) (old : Option Bytes)
    → IsValid t
    → remove t k ≡ some (t', old)
    → (get t k ≡ some old) × (get t' j ≡ if_same k j (some none) (get t j))
get-remove t t' k j old v e =
    let (u, done, valid, held) = remove-erase t k v in
    let same : u ≡ t' = cc in
    let returned : lookup (contents t) k ≡ old = cc in
    let held' : contents t' ≡ erase (contents t) k =
      subst (λ x. contents x ≡ erase (contents t) k) same held in
    (
      get-lookup t k v ∙ ap some returned,
      ground (
        arith,
        get-lookup t' j (subst IsValid same valid),
        get-lookup t j v,
        held',
        lookup-erase (contents t) k j (entries-IsAscending t.root none none v.ordered),
      ),
    )

-- The calls that change a tree.
pub data TreeCall : Type 0 where
  putting : Bytes → Bytes → TreeCall
  removing : Bytes → TreeCall

pub after_call : MvTree → TreeCall → Option MvTree
after_call t (putting key value) = put t key value
after_call t (removing key) = elim (remove t key) [ none ↦ none | some (t', _) ↦ some t' ]

pub list_call : List Entry → TreeCall → List Entry
list_call es (putting key value) = insert es key value
list_call es (removing key) = erase es key

pub run_calls : Option MvTree → List TreeCall → Option MvTree
run_calls none calls = none
run_calls (some t) [] = some t
run_calls (some t) (c ∷ calls) = run_calls (after_call t c) calls

pub list_calls : List Entry → List TreeCall → List Entry
list_calls es [] = es
list_calls es (c ∷ calls) = list_calls (list_call es c) calls

after_call-list_call :
    (t : MvTree) (c : TreeCall)
    → IsValid t
    → (t' : MvTree) × (after_call t c ≡ some t')
      × IsValid t'
      × (contents t' ≡ list_call (contents t) c)
unfolding after_call list_call
after_call-list_call t (putting key value) v = put-insert t key value v
after_call-list_call t (removing key) v =
    let (t', done, valid, held) = remove-erase t key v in (t', rw (done, after_call), valid, held)

run_calls-list_calls_from :
    (t : MvTree) (calls : List TreeCall)
    → IsValid t
    → (t' : MvTree) × (run_calls (some t) calls ≡ some t')
      × IsValid t'
      × (contents t' ≡ list_calls (contents t) calls)
unfolding run_calls list_calls
run_calls-list_calls_from t [] v = (t, refl, v, refl)
run_calls-list_calls_from t (c ∷ calls) v =
    let (u, done, valid, held) = after_call-list_call t c v in
    let (t', done', valid', held') = run_calls-list_calls_from u calls valid in
    (t', rw (done, run_calls) done', valid', held' ∙ ap (λ es. list_calls es calls) held)

-- Whatever is put into a new tree and removed from it, no call panics, the tree stays valid, and
-- every key reads as in the list to which the same calls were made.
pub run_calls-refines :
    (max : ℕ) (calls : List TreeCall)
    → 0 < max
    → (t : MvTree) × (run_calls (some (new max)) calls ≡ some t)
      × IsValid t
      × ((key : Bytes) → get t key ≡ some (lookup (list_calls [] calls) key))
run_calls-refines max calls h =
    let (v, empty) = new-IsValid max h in
    let (t, done, valid, held) = run_calls-list_calls_from (new max) calls v in
    (
      t,
      done,
      valid,
      λ key.
          get-lookup t key valid
          ∙ ap (λ es. some (lookup es key)) (held ∙ ap (λ es. list_calls es calls) empty),
    )
