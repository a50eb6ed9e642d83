-- ===== src/Tree.antt =====
-- crates/h2-mvstore/src/page.rs and tree.rs: the pages of a map and its copy-on-write B-tree.
-- The source never writes to a page that it shares (`Arc<Page>`), so pages are values here. A result
-- `none` is a panic: an index out of bounds. `Vec<Arc<Page>>` is the data type `Pages`.
pub mod Entries
pub mod Shape
pub mod Lookup
pub mod Split
pub mod Put
pub mod Remove
pub mod Model
pub mod Scan
use Prim.Native.Nat.{Ordering}
use h2database_rust.Prelude.{
  ℕ, zero, suc, ◌+◌, ◌-◌, ◌/◌, Bool, true, false, not, ◌&&◌, Option, none, some, List, [], ◌∷◌,
  ◌++◌, map, ltb, if◌then◌else◌, length, get_elem?, set, insert_at, remove_at, take, drop,
  replicate,
}
use h2database_rust.Bytes.Order.{Bytes, cmp}

pub record PageRef : Type 0 where
  pub chunk_id : ℕ
  pub page_offset : ℕ

abbrev pub memory_only : PageRef
memory_only = record { chunk_id = 0; page_offset = 0 }

pub record Entry : Type 0 where
  pub key : Bytes
  pub value : Bytes

mutual
  pub data Page : Type 0 where
    leaf : List Entry → Page
    branch : List Bytes → Pages → List PageRef → Page

  pub data Pages : Type 0 where
    nil : Pages
    cons : Page → Pages → Pages

-- The list operations of `Vec` on children.
abbrev pub count : Pages → ℕ
count nil = 0
count (cons p ps) = suc (count ps)

abbrev pub set_page : Pages → ℕ → Page → Pages
set_page nil i q = nil
set_page (cons p ps) zero q = cons q ps
set_page (cons p ps) (suc i) q = cons p (set_page ps i q)

abbrev pub insert_page_at : Pages → ℕ → Page → Pages
insert_page_at ps zero q = cons q ps
insert_page_at nil (suc i) q = nil
insert_page_at (cons p ps) (suc i) q = cons p (insert_page_at ps i q)

abbrev pub take_pages : ℕ → Pages → Pages
take_pages zero ps = nil
take_pages (suc n) nil = nil
take_pages (suc n) (cons p ps) = cons p (take_pages n ps)

abbrev pub drop_pages : ℕ → Pages → Pages
drop_pages zero ps = ps
drop_pages (suc n) nil = nil
drop_pages (suc n) (cons p ps) = drop_pages n ps

unfoldable pub new_leaf : Page
new_leaf = leaf []

unfoldable pub new_branch : List Bytes → Pages → Page
new_branch keys children = branch keys children (replicate (count children) memory_only)

-- The result of `binary_search_by` on a slice whose keys ascend: the index of the key, or the one
-- at which it would be inserted.
pub data Search : Type 0 where
  found : ℕ → Search
  absent : ℕ → Search

abbrev pub next_index : Search → Search
next_index (found i) = found (suc i)
next_index (absent i) = absent (suc i)

unfoldable pub search_keys : List Bytes → Bytes → Search
search_keys [] key = absent 0
search_keys (k ∷ ks) key = elim (cmp k key) [
  | Ordering.lt ↦ next_index (search_keys ks key)
  | Ordering.eq ↦ found 0
  | Ordering.gt ↦ absent 0
]

-- `Page::find_key` on the entries of a leaf
unfoldable pub search_entries : List Entry → Bytes → Search
unfolding search_keys
search_entries entries key = search_keys (map (λ e. e.key) entries) key

-- The child of a branch in which a key belongs: right of an equal separator.
unfoldable pub child_index : List Bytes → Bytes → ℕ
unfolding search_keys
child_index keys key = elim (search_keys keys key) [ found i ↦ suc i | absent i ↦ i ]

unfoldable pub leaf_get : List Entry → Bytes → Option (Option Bytes)
unfolding search_entries
leaf_get entries key = elim (search_entries entries key) [
  | found i ↦ elim (get_elem? entries i) [ none ↦ none | some e ↦ some (some e.value) ]
  | absent i ↦ some none
]

unfoldable mutual
  unfolding leaf_get child_index

  pub get_page : Page → Bytes → Option (Option Bytes)
  get_page (leaf entries) key = leaf_get entries key
  get_page (branch keys children refs) key = get_child children (child_index keys key) key

  pub get_child : Pages → ℕ → Bytes → Option (Option Bytes)
  get_child nil i key = none
  get_child (cons p ps) zero key = get_page p key
  get_child (cons p ps) (suc i) key = get_child ps i key

-- A page after an insertion, and the pivot and right sibling if it was split.
pub data Inserted : Type 0 where
  whole : Page → Inserted
  split : Page → Bytes → Page → Inserted

-- `new_entries[idx].value = value`
unfoldable pub set_value : List Entry → ℕ → Bytes → List Entry
set_value [] i value = []
set_value (e ∷ es) zero value = record e { value = value } ∷ es
set_value (e ∷ es) (suc i) value = e ∷ set_value es i value

unfoldable pub split_leaf : ℕ → List Entry → Option Inserted
split_leaf max entries =
    if ltb max (length entries)
    then elim (drop (length entries / 2) entries) [
      | [] ↦ none
      | r ∷ right ↦ some (split (leaf (take (length entries / 2) entries)) r.key (leaf (r ∷ right)))
    ]
    else some (whole (leaf entries))

unfoldable pub insert_leaf : ℕ → List Entry → Bytes → Bytes → Option Inserted
unfolding search_entries set_value split_leaf
insert_leaf max entries key value = elim (search_entries entries key) [
  | found i ↦ some (whole (leaf (set_value entries i value)))
  | absent i ↦ split_leaf max (insert_at entries i (record { key = key; value = value }))
]

unfoldable pub split_branch : ℕ → List Bytes → Pages → Option Inserted
unfolding new_branch
split_branch max keys children =
    if ltb max (length keys)
    then elim (get_elem? keys (length keys / 2)) [
      | none ↦ none
      | some pivot ↦
          let mid = length keys / 2 in
          let rest = remove_at keys mid in
          some (
            split (new_branch (take mid rest) (take_pages (suc mid) children)) pivot
              (new_branch (drop mid rest) (drop_pages (suc mid) children)))
    ]
    else some (whole (new_branch keys children))

-- A branch whose child `i` was replaced by the result of an insertion.
unfoldable pub rebuild : ℕ → List Bytes → Pages → ℕ → Inserted → Option Inserted
unfolding split_branch new_branch
rebuild max keys children i (whole child) =
    some (whole (new_branch keys (set_page children i child)))
rebuild max keys children i (split child pivot right) =
    split_branch max (insert_at keys i pivot)
      (insert_page_at (set_page children i child) (suc i) right)

unfoldable pub or_panic : Option Inserted → (Inserted → Option Inserted) → Option Inserted
or_panic none f = none
or_panic (some r) f = f r

unfoldable mutual
  unfolding insert_leaf rebuild child_index or_panic

  -- `insert_recursive`
  pub insert_page : ℕ → Page → Bytes → Bytes → Option Inserted
  insert_page max (leaf entries) key value = insert_leaf max entries key value
  insert_page max (branch keys children refs) key value =
      or_panic (insert_child max children (child_index keys key) key value)
        (rebuild max keys children (child_index keys key))

  pub insert_child : ℕ → Pages → ℕ → Bytes → Bytes → Option Inserted
  insert_child max nil i key value = none
  insert_child max (cons p ps) zero key value = insert_page max p key value
  insert_child max (cons p ps) (suc i) key value = insert_child max ps i key value

-- A page after a removal, and the value that was removed.
abbrev pub Removed : Type 0
Removed = Page × Option Bytes

unfoldable pub remove_leaf : List Entry → Bytes → Option Removed
unfolding search_entries
remove_leaf entries key = elim (search_entries entries key) [
  | found i ↦ elim (get_elem? entries i) [
    | none ↦ none
    | some e ↦ some (leaf (remove_at entries i), some e.value)
  ]
  | absent i ↦ some (leaf entries, none)
]

-- A branch is rebuilt only if a value was removed.
unfoldable pub rebuild_removed :
    List Bytes → Pages → List PageRef → ℕ → Option Removed → Option Removed
unfolding new_branch
rebuild_removed keys children refs i none = none
rebuild_removed keys children refs i (some (child, none)) = some (branch keys children refs, none)
rebuild_removed keys children refs i (some (child, some old)) =
    some (new_branch keys (set_page children i child), some old)

unfoldable mutual
  unfolding remove_leaf rebuild_removed child_index

  -- `remove_recursive`
  pub remove_page : Page → Bytes → Option Removed
  remove_page (leaf entries) key = remove_leaf entries key
  remove_page (branch keys children refs) key =
      rebuild_removed keys children refs (child_index keys key)
        (remove_child children (child_index keys key) key)

  pub remove_child : Pages → ℕ → Bytes → Option Removed
  remove_child nil i key = none
  remove_child (cons p ps) zero key = remove_page p key
  remove_child (cons p ps) (suc i) key = remove_child ps i key

pub record MvTree : Type 0 where
  pub root : Page
  pub max_entries_per_page : ℕ
  pub version : ℕ

abbrev pub default_page_split_size : ℕ
default_page_split_size = 32

unfoldable pub new : ℕ → MvTree
unfolding new_leaf
new max_entries_per_page = record {
  root = new_leaf;
  max_entries_per_page = max_entries_per_page;
  version = 0;
}

unfoldable pub get : MvTree → Bytes → Option (Option Bytes)
get t key = get_page t.root key

unfoldable pub put : MvTree → Bytes → Bytes → Option MvTree
unfolding new_branch
put t key value = elim (insert_page t.max_entries_per_page t.root key value) [
  | none ↦ none
  | some (whole new_page) ↦ some (record t { root = new_page })
  | some (split new_page pivot right) ↦
      some (record t { root = new_branch (pivot ∷ []) (cons new_page (cons right nil)) })
]

unfoldable pub remove : MvTree → Bytes → Option (MvTree × Option Bytes)
remove t key = elim (remove_page t.root key) [
  | none ↦ none
  | some (new_page, none) ↦ some (t, none)
  | some (new_page, some val) ↦ some (record t { root = new_page }, some val)
]
