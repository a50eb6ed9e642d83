-- ===== src/Tree/Scan.antt =====
-- The scans of crates/h2-mvstore/src/tree.rs. `out` is the vector to which a scan appends.
pub mod All
pub mod Keep
pub mod Range
pub mod Prefix
use Prim.Native.Nat.{Ordering}
use h2database_rust.Prelude.{
  ℕ, zero, suc, Bool, true, false, not, ◌&&◌, ◌||◌, Option, none, some, List, [], ◌∷◌, ◌++◌,
  if◌then◌else◌, drop, ◌==◌,
}
use h2database_rust.Bytes.Order.{Bytes, cmp}
use h2database_rust.Tree.{
  Entry, Page, Pages, leaf, branch, nil, cons, MvTree, Search, found, absent, search_entries,
}

unfoldable mutual
  pub collect_entries : Page → List Entry → List Entry
  collect_entries (leaf entries) out = out ++ entries
  collect_entries (branch keys children refs) out = collect_pages children out

  pub collect_pages : Pages → List Entry → List Entry
  collect_pages nil out = out
  collect_pages (cons child children) out = collect_pages children (collect_entries child out)

unfoldable pub scan_all : MvTree → List Entry
scan_all t = collect_entries t.root []

-- The closure that `for_each_entry` calls changes a state `S`.
unfoldable pub each_entry {ℓ} : {S : Type ℓ} → (Bytes → Bytes → S → S) → List Entry → S → S
each_entry f [] s = s
each_entry f (e ∷ es) s = each_entry f es (f e.key e.value s)

unfoldable mutual
  unfolding each_entry

  pub traverse_for_each {ℓ} : {S : Type ℓ} → (Bytes → Bytes → S → S) → Page → S → S
  traverse_for_each f (leaf entries) s = each_entry f entries s
  traverse_for_each f (branch keys children refs) s = traverse_pages f children s

  pub traverse_pages {ℓ} : {S : Type ℓ} → (Bytes → Bytes → S → S) → Pages → S → S
  traverse_pages f nil s = s
  traverse_pages f (cons child children) s = traverse_pages f children (traverse_for_each f child s)

unfoldable pub for_each_entry {ℓ} : {S : Type ℓ} → (Bytes → Bytes → S → S) → MvTree → S → S
for_each_entry f t s = traverse_for_each f t.root s

-- `a < b`, `a <= b` and `key.starts_with(prefix)`
abbrev pub is_lt : Bytes → Bytes → Bool
is_lt a b = elim (cmp a b) [ Ordering.lt ↦ true | Ordering.eq ↦ false | Ordering.gt ↦ false ]

abbrev pub is_le : Bytes → Bytes → Bool
is_le a b = elim (cmp a b) [ Ordering.lt ↦ true | Ordering.eq ↦ true | Ordering.gt ↦ false ]

unfoldable pub starts_with : Bytes → Bytes → Bool
starts_with k [] = true
starts_with [] (x ∷ p) = false
starts_with (y ∷ k) (x ∷ p) = if y == x then starts_with k p else false

pub data Bound : Type 0 where
  unbounded : Bound
  included : Bytes → Bound
  excluded : Bytes → Bound

-- `Ok(idx) | Err(idx) => idx`, and `Ok(idx) => idx + 1`
abbrev pub at_or_after : Search → ℕ
at_or_after (found i) = i
at_or_after (absent i) = i

abbrev pub just_after : Search → ℕ
just_after (found i) = suc i
just_after (absent i) = i

unfoldable pub start_index : List Entry → Bound → ℕ
unfolding search_entries
start_index entries unbounded = 0
start_index entries (included k) = at_or_after (search_entries entries k)
start_index entries (excluded k) = just_after (search_entries entries k)

unfoldable pub within_end : Bound → Bytes → Bool
within_end unbounded k = true
within_end (included end_k) k = is_le k end_k
within_end (excluded end_k) k = is_lt k end_k

-- The loop over a leaf: it breaks at the first key past the end.
unfoldable pub push_range : List Entry → Bound → List Entry → List Entry
unfolding within_end
push_range [] end out = out
push_range (entry ∷ rest) end out =
    let more = push_range rest end (out ++ entry ∷ []) in
    if within_end end entry.key then more else out

-- A child is passed over if the separator on its left is past the end, or the one on its right is
-- not past the start.
unfoldable pub past_end : Option Bytes → Bound → Bool
past_end none end = false
past_end (some lower) unbounded = false
past_end (some lower) (included end_k) = is_lt end_k lower
past_end (some lower) (excluded end_k) = is_le end_k lower

unfoldable pub before_start : Option Bytes → Bound → Bool
before_start none start = false
before_start (some upper) unbounded = false
before_start (some upper) (included start_k) = is_le upper start_k
before_start (some upper) (excluded start_k) = is_le upper start_k

abbrev pub and_then : Option (List Entry) → (List Entry → Option (List Entry)) → Option (List Entry)
and_then none f = none
and_then (some out) f = f out

-- `lower` is the separator on the left of the child, if there is one, and the keys are those on its
-- right. A further child with no separator before it is an index out of bounds.
unfoldable mutual
  unfolding start_index push_range past_end before_start

  pub collect_range : Page → Bound → Bound → List Entry → Option (List Entry)
  collect_range (leaf entries) start end out =
      some (push_range (drop (start_index entries start) entries) end out)
  collect_range (branch keys children refs) start end out =
      range_pages children none keys start end out

  pub range_pages :
      Pages → Option Bytes → List Bytes → Bound → Bound → List Entry → Option (List Entry)
  range_pages nil lower keys start end out = some out
  range_pages (cons child nil) lower [] start end out = elim (past_end lower end) [
    | true ↦ some out
    | false ↦ collect_range child start end out
  ]
  range_pages (cons child (cons next children)) lower [] start end out = none
  range_pages (cons child children) lower (k ∷ ks) start end out =
      and_then
        (elim (past_end lower end || before_start (some k) start) [
          | true ↦ some out
          | false ↦ collect_range child start end out
        ])
        (λ out'. range_pages children (some k) ks start end out')

unfoldable pub scan_range : MvTree → Bound → Bound → Option (List Entry)
scan_range t start end = collect_range t.root start end []

-- The loop over a leaf: it breaks at the first key that is past the prefix and does not match.
unfoldable pub push_prefix : List Entry → Bytes → List Entry → List Entry
push_prefix [] prefix out = out
push_prefix (entry ∷ rest) prefix out =
    let matching = push_prefix rest prefix (out ++ entry ∷ []) in
    let other = push_prefix rest prefix out in
    if starts_with entry.key prefix then matching else if is_lt prefix entry.key then out else other

unfoldable pub prefix_past : Option Bytes → Bytes → Bool
prefix_past none prefix = false
prefix_past (some l) prefix = is_lt prefix l && not (starts_with l prefix)

unfoldable pub prefix_before : Option Bytes → Bytes → Bool
prefix_before none prefix = false
prefix_before (some r) prefix = is_le r prefix && not (starts_with r prefix)

unfoldable mutual
  unfolding search_entries push_prefix prefix_past prefix_before

  pub collect_prefix : Page → Bytes → List Entry → Option (List Entry)
  collect_prefix (leaf entries) prefix out =
      some (push_prefix (drop (at_or_after (search_entries entries prefix)) entries) prefix out)
  collect_prefix (branch keys children refs) prefix out = prefix_pages children none keys prefix out

  pub prefix_pages : Pages → Option Bytes → List Bytes → Bytes → List Entry → Option (List Entry)
  prefix_pages nil lower keys prefix out = some out
  prefix_pages (cons child nil) lower [] prefix out = elim (prefix_past lower prefix) [
    | true ↦ some out
    | false ↦ collect_prefix child prefix out
  ]
  prefix_pages (cons child (cons next children)) lower [] prefix out = none
  prefix_pages (cons child children) lower (k ∷ ks) prefix out =
      and_then
        (elim (prefix_past lower prefix || prefix_before (some k) prefix) [
          | true ↦ some out
          | false ↦ collect_prefix child prefix out
        ])
        (λ out'. prefix_pages children (some k) ks prefix out')

unfoldable pub scan_prefix : MvTree → Bytes → Option (List Entry)
scan_prefix t prefix = collect_prefix t.root prefix []
