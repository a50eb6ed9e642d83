-- ===== src/Tx/Maps/Trees.antt =====
-- Named B-trees are maps: the theorems about the tree are the laws of the interface.

use text.Mathlib.Text.{◌==◌ as str_eq}
use text.Mathlib.TextEquality.{eq_iff}
use h2database_rust.Prelude.{
  true, Option, none, some, List, [], ◌∷◌, String, ◌≡◌, if◌then◌else◌, arith, sym, ◌∙◌, ap,
  Bool-cases, inl, inr,
}
use h2database_rust.Bytes.Order.{Bytes}
use h2database_rust.Tree
use h2database_rust.Tree.{Entry, MvTree, default_page_split_size}
use h2database_rust.Tree.Entries.{lookup, IsAscending}
use h2database_rust.Tree.Model.{
  IsValid, contents, get-lookup, new-IsValid, put-insert, remove-erase, lookup-insert, lookup-erase,
}
use h2database_rust.Tree.Shape.{entries-IsAscending}
use h2database_rust.Tree.Scan.{Bound, starts_with, scan_range, scan_prefix}
use h2database_rust.Tree.Scan.Keep.{keep}
use h2database_rust.Tree.Scan.Range.{in_range, scan_range-keep}
use h2database_rust.Tree.Scan.Prefix.{scan_prefix-keep}
use h2database_rust.Tx.Maps.{Maps, same_place}

-- A tree that is in order. No call of it panics.
pub record SoundTree : Type 0 where
  pub tree : MvTree
  pub valid : IsValid tree

default : SoundTree
default = record {
  tree = Tree.new default_page_split_size;
  valid = (new-IsValid default_page_split_size (omega arith)).0;
}

flatten : Option (Option Bytes) → Option Bytes
flatten none = none
flatten (some o) = o

or_empty : Option (List Entry) → List Entry
or_empty none = []
or_empty (some es) = es

find_tree : List (String × SoundTree) → String → SoundTree
find_tree [] m = default
find_tree ((n, t) ∷ s) m = if str_eq n m then t else find_tree s m

get_in : List (String × SoundTree) → String → Bytes → Option Bytes
get_in s m k = flatten (Tree.get (find_tree s m).tree k)

put_in : List (String × SoundTree) → String → Bytes → Bytes → List (String × SoundTree)
put_in s m k v =
    let t = find_tree s m in
    let (t', _, valid, _) = put-insert t.tree k v t.valid in
    (m, record { tree = t'; valid = valid }) ∷ s

remove_in : List (String × SoundTree) → String → Bytes → List (String × SoundTree)
remove_in s m k =
    let t = find_tree s m in
    let (t', _, valid, _) = remove-erase t.tree k t.valid in
    (m, record { tree = t'; valid = valid }) ∷ s

scan_all_in : List (String × SoundTree) → String → List Entry
scan_all_in s m = contents (find_tree s m).tree

scan_prefix_in : List (String × SoundTree) → String → Bytes → List Entry
scan_prefix_in s m p = or_empty (scan_prefix (find_tree s m).tree p)

scan_range_in : List (String × SoundTree) → String → Bound → Bound → List Entry
scan_range_in s m start end = or_empty (scan_range (find_tree s m).tree start end)

get_in-lookup :
    (s : List (String × SoundTree)) (m : String) (k : Bytes)
    → get_in s m k ≡ lookup (contents (find_tree s m).tree) k
unfolding get_in flatten
get_in-lookup s m k = ap flatten (get-lookup (find_tree s m).tree k (find_tree s m).valid)

find_tree_same :
    (s : List (String × SoundTree)) (m n : String)
    → str_eq m n ≡ true
    → find_tree s m ≡ find_tree s n
find_tree_same s m n h = ap (find_tree s) ((eq_iff m n).0 h)

get_in-put_in :
    (s : List (String × SoundTree)) (m : String) (k v : Bytes) (n : String) (j : Bytes)
    → get_in (put_in s m k v) n j ≡ (if same_place m k n j then some v else get_in s n j)
unfolding put_in find_tree same_place
get_in-put_in s m k v n j =
    let t = find_tree s m in
    let (t', done, valid, held) = put-insert t.tree k v t.valid in
    elim (Bool-cases (str_eq m n)) [
      | inl here ↦
          get_in-lookup (put_in s m k v) n j
          ∙ ground (
            arith,
            here,
            held,
            lookup-insert (contents t.tree) k v j,
            get_in-lookup s n j,
            find_tree_same s m n here,
          )
      | inr there ↦ get_in-lookup (put_in s m k v) n j ∙ ground (arith, there, get_in-lookup s n j)
    ]

get_in-remove_in :
    (s : List (String × SoundTree)) (m : String) (k : Bytes) (n : String) (j : Bytes)
    → get_in (remove_in s m k) n j ≡ (if same_place m k n j then none else get_in s n j)
unfolding remove_in find_tree same_place
get_in-remove_in s m k n j =
    let t = find_tree s m in
    let (t', done, valid, held) = remove-erase t.tree k t.valid in
    elim (Bool-cases (str_eq m n)) [
      | inl here ↦
          get_in-lookup (remove_in s m k) n j
          ∙ ground (
            arith,
            here,
            held,
            lookup-erase (contents t.tree) k j
                (entries-IsAscending t.tree.root none none t.valid.ordered),
            get_in-lookup s n j,
            find_tree_same s m n here,
          )
      | inr there ↦ get_in-lookup (remove_in s m k) n j ∙ ground (arith, there, get_in-lookup s n j)
    ]

lookup-scan_all_in :
    (s : List (String × SoundTree)) (m : String) (k : Bytes)
    → lookup (scan_all_in s m) k ≡ get_in s m k
unfolding scan_all_in
lookup-scan_all_in s m k = sym (get_in-lookup s m k)

scan_all_in-IsAscending :
    (s : List (String × SoundTree)) (m : String) → IsAscending (scan_all_in s m)
unfolding scan_all_in
scan_all_in-IsAscending s m =
    let t = find_tree s m in entries-IsAscending t.tree.root none none t.valid.ordered

scan_prefix_in-keep :
    (s : List (String × SoundTree)) (m : String) (p : Bytes)
    → scan_prefix_in s m p ≡ keep (λ k. starts_with k p) (scan_all_in s m)
unfolding scan_prefix_in scan_all_in or_empty
scan_prefix_in-keep s m p =
    ap or_empty (scan_prefix-keep (find_tree s m).tree p (find_tree s m).valid)

scan_range_in-keep :
    (s : List (String × SoundTree)) (m : String) (start end : Bound)
    → scan_range_in s m start end ≡ keep (in_range start end) (scan_all_in s m)
unfolding scan_range_in scan_all_in or_empty
scan_range_in-keep s m start end =
    ap or_empty (scan_range-keep (find_tree s m).tree start end (find_tree s m).valid)

-- The maps of a store of trees.
pub trees : Maps
trees = record {
  Store = List (String × SoundTree);
  get = get_in;
  put = put_in;
  remove = remove_in;
  scan_all = scan_all_in;
  scan_prefix = scan_prefix_in;
  scan_range = scan_range_in;
  get-put = get_in-put_in;
  get-remove = get_in-remove_in;
  lookup-scan_all = lookup-scan_all_in;
  scan_all-IsAscending = scan_all_in-IsAscending;
  scan_prefix-keep = scan_prefix_in-keep;
  scan_range-keep = scan_range_in-keep;
}

-- A store with no maps holds nothing.
pub no_maps : trees.Store
unfolding trees
no_maps = []

pub get-no_maps : (m : String) (k : Bytes) → trees.get no_maps m k ≡ none
unfolding trees no_maps find_tree lookup Tree.new default
get-no_maps m k =
    get_in-lookup [] m k
    ∙ ap (λ es. lookup es k) (new-IsValid default_page_split_size (omega arith)).1
