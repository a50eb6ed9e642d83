-- ===== src/Tree/Entries.antt =====
-- The entries of a page in order, and what the operations of a tree do to them: the specification
-- of the tree is a list of entries with ascending keys.
use Prim.Native.Nat.{Ordering}
use h2database_rust.Prelude.{
  Option, none, some, List, [], ◌∷◌, ◌++◌, All, ◌≡◌, refl, ap, arith, inl, inr,
}
use h2database_rust.Bytes.Order.{Bytes, cmp, ◌≺◌, cmp-cases, gt_of_lt}
use h2database_rust.Tree.{Entry, Page, Pages, leaf, branch, nil, cons}

unfoldable mutual
  pub entries : Page → List Entry
  entries (leaf es) = es
  entries (branch keys children refs) = entries_of children

  pub entries_of : Pages → List Entry
  entries_of nil = []
  entries_of (cons p ps) = entries p ++ entries_of ps

-- Keys ascend strictly.
abbrev pub IsAscending : List Entry → Type 0
IsAscending [] = Unit
IsAscending (e ∷ es) = All (λ f. e.key ≺ f.key) es × IsAscending es

unfoldable pub lookup : List Entry → Bytes → Option Bytes
lookup [] key = none
lookup (e ∷ es) key = elim (cmp e.key key) [
  | Ordering.eq ↦ some e.value
  | Ordering.lt ↦ lookup es key
  | Ordering.gt ↦ lookup es key
]

unfoldable pub insert : List Entry → Bytes → Bytes → List Entry
insert [] key value = record { key = key; value = value } ∷ []
insert (e ∷ es) key value = elim (cmp e.key key) [
  | Ordering.lt ↦ e ∷ insert es key value
  | Ordering.eq ↦ record e { value = value } ∷ es
  | Ordering.gt ↦ record { key = key; value = value } ∷ e ∷ es
]

unfoldable pub erase : List Entry → Bytes → List Entry
erase [] key = []
erase (e ∷ es) key = elim (cmp e.key key) [
  | Ordering.lt ↦ e ∷ erase es key
  | Ordering.eq ↦ es
  | Ordering.gt ↦ e ∷ es
]

abbrev pub AllAbove : Bytes → List Entry → Type 0
AllAbove key es = All (λ e. key ≺ e.key) es

abbrev pub AllBelow : Bytes → List Entry → Type 0
AllBelow key es = All (λ e. e.key ≺ key) es

pub lookup_above : (es : List Entry) (key : Bytes) → AllAbove key es → lookup es key ≡ none
unfolding lookup
lookup_above [] key h = refl
lookup_above (e ∷ es) key h = rw (gt_of_lt key e.key h.0, lookup) (lookup_above es key h.1)

pub lookup-append_above :
    (xs ys : List Entry) (key : Bytes) → AllAbove key ys → lookup (xs ++ ys) key ≡ lookup xs key
unfolding lookup
lookup-append_above [] ys key h = lookup_above ys key h
lookup-append_above (e ∷ xs) ys key h = ground (arith, lookup-append_above xs ys key h)

pub lookup-append_below :
    (xs ys : List Entry) (key : Bytes) → AllBelow key xs → lookup (xs ++ ys) key ≡ lookup ys key
unfolding lookup
lookup-append_below [] ys key h = refl
lookup-append_below (e ∷ xs) ys key h = rw (h.0, lookup) (lookup-append_below xs ys key h.1)

insert_above :
    (es : List Entry) (key value : Bytes)
    → AllAbove key es
    → insert es key value ≡ record { key = key; value = value } ∷ es
unfolding insert
insert_above [] key value h = refl
insert_above (e ∷ es) key value h = rw (gt_of_lt key e.key h.0, insert)

pub insert-append_above :
    (xs ys : List Entry) (key value : Bytes)
    → AllAbove key ys
    → insert (xs ++ ys) key value ≡ insert xs key value ++ ys
unfolding insert
insert-append_above [] ys key value h = insert_above ys key value h
insert-append_above (e ∷ xs) ys key value h = ground (arith, insert-append_above xs ys key value h)

pub insert-append_below :
    (xs ys : List Entry) (key value : Bytes)
    → AllBelow key xs
    → insert (xs ++ ys) key value ≡ xs ++ insert ys key value
unfolding insert
insert-append_below [] ys key value h = refl
insert-append_below (e ∷ xs) ys key value h =
    rw (h.0, insert) (ap (◌∷◌ e) (insert-append_below xs ys key value h.1))

erase_above : (es : List Entry) (key : Bytes) → AllAbove key es → erase es key ≡ es
unfolding erase
erase_above [] key h = refl
erase_above (e ∷ es) key h = rw (gt_of_lt key e.key h.0, erase)

pub erase-append_above :
    (xs ys : List Entry) (key : Bytes) → AllAbove key ys → erase (xs ++ ys) key ≡ erase xs key ++ ys
unfolding erase
erase-append_above [] ys key h = erase_above ys key h
erase-append_above (e ∷ xs) ys key h = ground (arith, erase-append_above xs ys key h)

pub erase-append_below :
    (xs ys : List Entry) (key : Bytes) → AllBelow key xs → erase (xs ++ ys) key ≡ xs ++ erase ys key
unfolding erase
erase-append_below [] ys key h = refl
erase-append_below (e ∷ xs) ys key h =
    rw (h.0, erase) (ap (◌∷◌ e) (erase-append_below xs ys key h.1))

-- Whatever holds of the keys and of the new key holds of all keys after an insertion.
pub All-insert {κ} :
    (P : Bytes → Type κ) (es : List Entry) (key value : Bytes)
    → All (λ e. P e.key) es
    → P key
    → All (λ e. P e.key) (insert es key value)
unfolding insert
All-insert P [] key value h p = (p, tt)
All-insert P (e ∷ es) key value h p = elim (cmp-cases e.key key) [
  | inl less ↦ rw (less, insert) (h.0, All-insert P es key value h.1 p)
  | inr (inl same) ↦ rw (same, insert) h
  | inr (inr more) ↦ rw (more, insert) (p, h)
]

pub All-erase {κ} :
    (P : Bytes → Type κ) (es : List Entry) (key : Bytes)
    → All (λ e. P e.key) es
    → All (λ e. P e.key) (erase es key)
unfolding erase
All-erase P [] key h = tt
All-erase P (e ∷ es) key h = elim (cmp-cases e.key key) [
  | inl less ↦ rw (less, erase) (h.0, All-erase P es key h.1)
  | inr (inl same) ↦ rw (same, erase) h.1
  | inr (inr more) ↦ rw (more, erase) h
]
