-- ===== src/Tests/Trees.antt =====
-- A tree with two leaves.
use h2database_rust.Prelude.{ℕ, ◌+◌, some, List, [], ◌∷◌, ◌≡◌, refl, arith}
use h2database_rust.Bytes.Order.{Bytes, cmp}
use h2database_rust.Tree
use h2database_rust.Tree.{Entry, MvTree, leaf, branch, cons, nil}
use h2database_rust.Tree.Entries.{lookup, insert, erase}
use h2database_rust.Tree.Shape.{IsOrdered, AreOrdered}
use h2database_rust.Tree.Model.{
  IsValid, contents, TreeCall, putting, removing, run_calls, list_calls, run_calls-refines,
  put-insert, remove-erase,
}
use h2database_rust.Tree.Scan.{
  scan_all, each_entry, for_each_entry, included, excluded, scan_range, scan_prefix, starts_with,
}
use h2database_rust.Tree.Scan.All.{scan_all-contents}
use h2database_rust.Tree.Scan.Keep.{keep}
use h2database_rust.Tree.Scan.Range.{in_range, scan_range-keep}
use h2database_rust.Tree.Scan.Prefix.{scan_prefix-keep}

abbrev entry : ℕ → Entry
entry n = record { key = n ∷ 7 ∷ []; value = n ∷ [] }

abbrev tree : MvTree
tree = record {
  root =
      branch ((3 ∷ 7 ∷ []) ∷ [])
        (cons (leaf (entry 1 ∷ entry 2 ∷ [])) (cons (leaf (entry 3 ∷ [])) nil)) [];
  max_entries_per_page = 2;
  version = 0;
}

tree-IsValid : IsValid tree
unfolding IsOrdered AreOrdered cmp
tree-IsValid = record {
  ordered = (
    (((refl, tt), (tt, tt)), ((tt, refl), ((tt, refl), tt))),
    tt,
    tt,
    ((tt, tt), (((λ e. cc), tt), tt)),
  );
  room = omega arith;
}

calls : List TreeCall
calls = putting (1 ∷ []) (5 ∷ []) ∷ putting (2 ∷ []) (6 ∷ []) ∷ removing (1 ∷ []) ∷ []

run_calls-refines_example :
    (t : MvTree) × (run_calls (some (Tree.new 2)) calls ≡ some t)
    × IsValid t
    × ((key : Bytes) → Tree.get t key ≡ some (lookup (list_calls [] calls) key))
run_calls-refines_example = run_calls-refines 2 calls (omega arith)

put-insert_example :
    (t : MvTree) × (Tree.put tree (0 ∷ []) (8 ∷ []) ≡ some t)
    × IsValid t
    × (contents t ≡ insert (contents tree) (0 ∷ []) (8 ∷ []))
put-insert_example = put-insert tree (0 ∷ []) (8 ∷ []) tree-IsValid

remove-erase_example :
    (t : MvTree) × (Tree.remove tree (3 ∷ 7 ∷ []) ≡ some (t, lookup (contents tree) (3 ∷ 7 ∷ [])))
    × IsValid t
    × (contents t ≡ erase (contents tree) (3 ∷ 7 ∷ []))
remove-erase_example = remove-erase tree (3 ∷ 7 ∷ []) tree-IsValid

scan_range-keep_example :
    scan_range tree (included (2 ∷ [])) (excluded (3 ∷ 7 ∷ []))
    ≡ some (keep (in_range (included (2 ∷ [])) (excluded (3 ∷ 7 ∷ []))) (contents tree))
scan_range-keep_example =
    scan_range-keep tree (included (2 ∷ [])) (excluded (3 ∷ 7 ∷ [])) tree-IsValid

scan_prefix-keep_example :
    scan_prefix tree (3 ∷ []) ≡ some (keep (λ k. starts_with k (3 ∷ [])) (contents tree))
scan_prefix-keep_example = scan_prefix-keep tree (3 ∷ []) tree-IsValid

scan_all-contents_example :
    (scan_all tree ≡ contents tree)
    × (for_each_entry {S = ℕ} (λ k v n. n + 1) tree 0
        ≡ each_entry (λ k v n. n + 1) (scan_all tree) 0)
scan_all-contents_example = scan_all-contents {S = ℕ} (λ k v n. n + 1) tree 0
