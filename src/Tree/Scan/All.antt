-- ===== src/Tree/Scan/All.antt =====
-- The full scans visit the entries of the tree in order.
use mathlib.Core.List.{append-nil, append_assoc}
use h2database_rust.Prelude.{List, [], ◌∷◌, ◌++◌, ◌≡◌, refl, ◌∙◌, sym, ap}
use h2database_rust.Bytes.Order.{Bytes}
use h2database_rust.Tree.{Entry, Page, Pages, leaf, branch, nil, cons, MvTree}
use h2database_rust.Tree.Entries.{entries, entries_of}
use h2database_rust.Tree.Model.{contents}
use h2database_rust.Tree.Scan.{
  collect_entries, collect_pages, scan_all, each_entry, traverse_for_each, traverse_pages,
  for_each_entry,
}

mutual
  unfolding collect_entries collect_pages entries entries_of

  collect_page : (p : Page) (out : List Entry) → collect_entries p out ≡ out ++ entries p
  collect_page (leaf es) out = refl
  collect_page (branch keys children refs) out = collect_children children out

  collect_children : (ps : Pages) (out : List Entry) → collect_pages ps out ≡ out ++ entries_of ps
  collect_children nil out = rw append-nil
  collect_children (cons p ps) out =
      collect_children ps (collect_entries p out)
      ∙ ap (λ l. l ++ entries_of ps) (collect_page p out)
      ∙ append_assoc out (entries p) (entries_of ps)

each_entry-append {ℓ} :
    {S : Type ℓ} (f : Bytes → Bytes → S → S) (xs ys : List Entry) (s : S)
    → each_entry f (xs ++ ys) s ≡ each_entry f ys (each_entry f xs s)
unfolding each_entry
each_entry-append f [] ys s = refl
each_entry-append f (e ∷ xs) ys s = each_entry-append f xs ys (f e.key e.value s)

mutual
  unfolding traverse_for_each traverse_pages entries entries_of each_entry

  traverse_page {ℓ} :
      {S : Type ℓ} (f : Bytes → Bytes → S → S) (p : Page) (s : S)
      → traverse_for_each f p s ≡ each_entry f (entries p) s
  traverse_page f (leaf es) s = refl
  traverse_page f (branch keys children refs) s = traverse_children f children s

  traverse_children {ℓ} :
      {S : Type ℓ} (f : Bytes → Bytes → S → S) (ps : Pages) (s : S)
      → traverse_pages f ps s ≡ each_entry f (entries_of ps) s
  traverse_children f nil s = refl
  traverse_children f (cons p ps) s =
      traverse_children f ps (traverse_for_each f p s)
      ∙ ap (each_entry f (entries_of ps)) (traverse_page f p s)
      ∙ sym (each_entry-append f (entries p) (entries_of ps) s)

-- `scan_all` returns the contents of the tree, and `for_each_entry` calls its closure on each of
-- them once, in the same order.
pub scan_all-contents {ℓ} :
    {S : Type ℓ} (f : Bytes → Bytes → S → S) (t : MvTree) (s : S)
    → (scan_all t ≡ contents t) × (for_each_entry f t s ≡ each_entry f (scan_all t) s)
unfolding scan_all for_each_entry
scan_all-contents f t s = (
  collect_page t.root [],
  traverse_page f t.root s ∙ ap (λ es. each_entry f es s) (sym (collect_page t.root [])),
)
