-- ===== src/Tx/Reads/Agree.antt =====
-- The reads agree with each other: the fast path with the full read, and the scans with `get`.

use mathlib.Core.Path.{subst}
use h2database_rust.Prelude.{
  ℕ, suc, Bool, false, Option, none, some, List, [], ◌∷◌, String, All, ◌≡◌, refl, ap, sym, ◌∙◌, inl,
  inr, Bool-cases, Option-cases,
}
use h2database_rust.Bytes.Order.{Bytes, cmp-cases, cmp_eq, ◌≺◌}
use h2database_rust.Tree.{Entry}
use h2database_rust.Tree.Entries.{lookup, lookup_above, IsAscending}
use h2database_rust.Tree.Scan.{Bound, each_entry, starts_with}
use h2database_rust.Tree.Scan.Keep.{keep}
use h2database_rust.Tree.Scan.Range.{in_range}
use h2database_rust.Tx.VersionedValue.{VersionedValue, read_visible}
use h2database_rust.Tx.Codec.{Codec, to_bytes, from_bytes, read_visible_raw}
use h2database_rust.Tx.Codec.Raw.{read_visible_raw-read_visible, from_bytes-to_bytes}
use h2database_rust.Tx.Maps.{Maps}
use h2database_rust.Tx.Engine.{ok, Transaction, Engine, is_open, open_tx}
use h2database_rust.Tx.Reads.{
  read_full, read_fast, get_bytes, visible_entries, get, scan_visible, for_each_visible,
  scan_prefix_visible, scan_range_visible,
}

-- No scan is out of time.
abbrev pub never : ℕ → Bool
never i = false

module _ (codec : Codec) where
  -- The bytes were written by `to_bytes`.
  abbrev pub IsStored : Bytes → Type 0
  IsStored bytes = (vv : VersionedValue) × (to_bytes codec vv ≡ some bytes)

  -- Of stored bytes, the fast and the full read of a scan return what the transaction sees of the
  -- value, and `get` returns it with no error.
  pub reads_stored :
      (tx : Transaction) (vv : VersionedValue) (bytes : Bytes)
      → to_bytes codec vv ≡ some bytes
      → (read_full codec tx bytes ≡ read_visible vv tx.tx_id tx.snapshot_version)
        × (read_fast codec tx bytes ≡ read_visible vv tx.tx_id tx.snapshot_version)
        × (get_bytes codec tx (some bytes) ≡ ok (read_visible vv tx.tx_id tx.snapshot_version))
  unfolding read_full read_fast get_bytes
  reads_stored tx vv bytes e =
      let back : from_bytes codec bytes ≡ some vv = from_bytes-to_bytes codec vv bytes e in
      elim (Option-cases (read_visible_raw bytes tx.tx_id tx.snapshot_version)) [
        | inl slow ↦ rw (slow, back, read_full, read_fast, get_bytes) (refl, refl, refl)
        | inr (v, fast) ↦
            let seen : read_visible vv tx.tx_id tx.snapshot_version ≡ some v =
              read_visible_raw-read_visible codec vv bytes tx.tx_id tx.snapshot_version v e fast in
            rw (fast, back, seen, read_full, read_fast, get_bytes) (refl, refl, refl)
      ]

-- The visible entries, with no limit of time.
visible : (Bytes → Option Bytes) → List Entry → List Entry
visible read [] = []
visible read (entry ∷ rest) = elim (read entry.value) [
  | none ↦ visible read rest
  | some v ↦ record entry { value = v } ∷ visible read rest
]

visible_entries-visible :
    (codec : Codec) (read : Bytes → Option Bytes) (i : ℕ) (es : List Entry)
    → visible_entries codec read never i es ≡ ok (visible read es)
unfolding visible_entries visible
visible_entries-visible codec read i [] = refl
visible_entries-visible codec read i (entry ∷ rest) = elim (Option-cases (read entry.value)) [
  | inl e ↦ rw (e, visible_entries, visible) (visible_entries-visible codec read (suc i) rest)
  | inr (v, e) ↦ rw (e, visible_entries, visible, visible_entries-visible codec read (suc i) rest)
]

visible-same :
    (read other : Bytes → Option Bytes) (es : List Entry)
    → All (λ e. read e.value ≡ other e.value) es
    → visible read es ≡ visible other es
unfolding visible
visible-same read other [] h = refl
visible-same read other (e ∷ es) h = elim (Option-cases (other e.value)) [
  | inl n ↦ rw (h.0, visible) (rw (n, visible) (visible-same read other es h.1))
  | inr (v, s) ↦
      rw (h.0, visible)
        (rw (s, visible) (ap (λ l. record e { value = v } ∷ l) (visible-same read other es h.1)))
]

keep-visible :
    (read : Bytes → Option Bytes) (P : Bytes → Bool) (es : List Entry)
    → visible read (keep P es) ≡ keep P (visible read es)
unfolding visible keep
keep-visible read P [] = refl
keep-visible read P (e ∷ es) = elim (Bool-cases (P e.key)) [
  | inl kept ↦ elim (Option-cases (read e.value)) [
    | inl n ↦ rw (kept, n, visible, keep) (keep-visible read P es)
    | inr (v, s) ↦ rw (kept, s, visible, keep) (rw kept (rw (keep-visible read P es)))
  ]
  | inr not ↦ elim (Option-cases (read e.value)) [
    | inl n ↦ rw (not, n, visible, keep) (keep-visible read P es)
    | inr (v, s) ↦ rw (not, s, visible, keep) (rw not (keep-visible read P es))
  ]
]

each_entry-visible :
    {A : Type 0} (read : Bytes → Option Bytes) (f : Bytes → Bytes → A → A) (es : List Entry) (a : A)
    → each_entry (λ k raw b. elim (read raw) [ none ↦ b | some v ↦ f k v b ]) es a
      ≡ each_entry f (visible read es) a
unfolding visible each_entry
each_entry-visible read f [] a = refl
each_entry-visible read f (e ∷ es) a = elim (Option-cases (read e.value)) [
  | inl n ↦ rw (n, visible, each_entry) (each_entry-visible read f es a)
  | inr (v, s) ↦ rw (s, visible, each_entry) (each_entry-visible read f es (f e.key v a))
]

lookup-visible :
    (read : Bytes → Option Bytes) (es : List Entry) (k : Bytes)
    → IsAscending es
    → lookup (visible read es) k ≡ elim (lookup es k) [ none ↦ none | some raw ↦ read raw ]
unfolding visible lookup
lookup-visible read [] k a = refl
lookup-visible read (e ∷ es) k a =
    let ih = lookup-visible read es k a.1 in
    elim (cmp-cases e.key k) [
      | inl less ↦ elim (Option-cases (read e.value)) [
        | inl n ↦ rw (n, less, visible, lookup) ih
        | inr (v, s) ↦ rw (s, less, visible, lookup) ih
      ]
      | inr (inl same) ↦ elim (Option-cases (read e.value)) [
        | inl n ↦
            let above : lookup es k ≡ none =
              lookup_above es k (subst (λ j. All (λ f. j ≺ f.key) es) (cmp_eq e.key k same) a.0) in
            rw (n, same, visible, lookup) (ih ∙ rw above (sym n))
        | inr (v, s) ↦ rw (s, same, visible, lookup) (sym s)
      ]
      | inr (inr more) ↦ elim (Option-cases (read e.value)) [
        | inl n ↦ rw (n, more, visible, lookup) ih
        | inr (v, s) ↦ rw (s, more, visible, lookup) ih
      ]
    ]

All-lookup {κ} :
    (P : Bytes → Type κ) (es : List Entry) (k raw : Bytes)
    → All (λ e. P e.value) es
    → lookup es k ≡ some raw
    → P raw
unfolding lookup
All-lookup P [] k raw h e = cc
All-lookup P (x ∷ es) k raw h e = elim (cmp-cases x.key k) [
  | inl less ↦ All-lookup P es k raw h.1 (sym (rw (less, lookup)) ∙ e)
  | inr (inl same) ↦
      let q : some x.value ≡ some raw = sym (rw (same, lookup)) ∙ e in
      let p : x.value ≡ raw = cc in subst P p h.0
  | inr (inr more) ↦ All-lookup P es k raw h.1 (sym (rw (more, lookup)) ∙ e)
]

-- The stored value that is under a key, or nothing.
lookup-stored :
    (codec : Codec) (es : List Entry) (k : Bytes)
    → All (λ e. IsStored codec e.value) es
    → (tx : Transaction)
    → get_bytes codec tx (lookup es k)
      ≡ ok (elim (lookup es k) [ none ↦ none | some raw ↦ read_full codec tx raw ])
unfolding get_bytes
lookup-stored codec es k h tx = elim (Option-cases (lookup es k)) [
  | inl e ↦ rw (e, get_bytes)
  | inr (raw, e) ↦
      let (vv, stored) = All-lookup (IsStored codec) es k raw h e in
      let (full, fast, got) = reads_stored codec tx vv raw stored in rw e (got ∙ ap ok (sym full))
]

fast-full :
    (codec : Codec) (tx : Transaction) (es : List Entry)
    → All (λ e. IsStored codec e.value) es
    → All (λ e. read_fast codec tx e.value ≡ read_full codec tx e.value) es
fast-full codec tx [] h = tt
fast-full codec tx (e ∷ es) h =
    let (full, fast, got) = reads_stored codec tx h.0.0 e.value h.0.1 in
    (fast ∙ sym full, fast-full codec tx es h.1)

fast_scan :
    (codec : Codec) (tx : Transaction) (P : Bytes → Bool) (es : List Entry)
    → All (λ e. IsStored codec e.value) es
    → visible_entries codec (read_fast codec tx) never 0 (keep P es)
      ≡ ok (keep P (visible (read_full codec tx) es))
fast_scan codec tx P es h =
    visible_entries-visible codec (read_fast codec tx) 0 (keep P es)
    ∙ ap ok (
        keep-visible (read_fast codec tx) P es
        ∙ ap (keep P)
            (visible-same (read_fast codec tx) (read_full codec tx) es (fast-full codec tx es h)))

-- On an open transaction, in a map whose values were all stored by `to_bytes`, and with no query
-- timeout: `scan_visible` returns a list in which each key has the value that `get` returns for it,
-- `scan_prefix_visible` and `scan_range_visible` return the part of this list whose keys start with
-- the prefix or lie in the range, and `for_each_visible` calls its closure on each entry of this
-- list in order.
pub scans-agree :
    {A : Type 0} (maps : Maps) (codec : Codec) (e : Engine maps.Store) (tx : Transaction)
    (m : String) (f : Bytes → Bytes → A → A) (a : A)
    → tx.status ≡ open_tx
    → All (λ x. IsStored codec x.value) (maps.scan_all e.store m)
    → (l : List Entry) × (scan_visible maps codec e tx m never ≡ ok l)
      × ((k : Bytes) → get maps codec e tx m k ≡ ok (lookup l k))
      × ((p : Bytes)
          → scan_prefix_visible maps codec e tx m p never ≡ ok (keep (λ k. starts_with k p) l))
      × ((start end : Bound)
          → scan_range_visible maps codec e tx m start end never ≡ ok (keep (in_range start end) l))
      × (for_each_visible maps codec e tx m f a ≡ ok (each_entry f l a))
unfolding scan_visible get scan_prefix_visible scan_range_visible for_each_visible is_open
scans-agree maps codec e tx m f a o h =
    let es = maps.scan_all e.store m in
    let l = visible (read_full codec tx) es in
    let fast_l : visible (read_fast codec tx) es ≡ l =
      visible-same (read_fast codec tx) (read_full codec tx) es (fast-full codec tx es h) in
    (
      l,
      rw (o, scan_visible) (visible_entries-visible codec (read_full codec tx) 0 es),
      λ k.
          rw (o, get)
            (ap (get_bytes codec tx) (sym (maps.lookup-scan_all e.store m k))
              ∙ lookup-stored codec es k h tx
              ∙ ap ok (
                  sym (
                    lookup-visible (read_full codec tx) es k
                      (maps.scan_all-IsAscending e.store m)))),
      λ p.
          rw (o, scan_prefix_visible)
            (ap (visible_entries codec (read_fast codec tx) never 0)
                (maps.scan_prefix-keep e.store m p)
              ∙ fast_scan codec tx (λ k. starts_with k p) es h),
      λ start end.
          rw (o, scan_range_visible)
            (ap (visible_entries codec (read_fast codec tx) never 0)
                (maps.scan_range-keep e.store m start end)
              ∙ fast_scan codec tx (in_range start end) es h),
      rw (o, for_each_visible)
          (ap ok
            (each_entry-visible (read_fast codec tx) f es a ∙ ap (λ l. each_entry f l a) fast_l)),
    )
