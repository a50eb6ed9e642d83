-- ===== src/Tx/VersionedValue/Reads.antt =====
-- What a reader sees of a versioned value, and what a commit or a rollback changes of it.
use h2database_rust.Prelude.{
  ℕ, zero, suc, ◌≤◌, ◌<◌, ◌≡◌, ◌≢◌, refl, Option, none, some, List, [], ◌∷◌, arith, ltb, leb,
  if◌then◌else◌, length, take, take_of_length-le, length-take-le, get_elem?, All, Option-cases,
  Bool-cases, inl, inr, tests,
}
use mathlib.Core.Path.{subst}
use h2database_rust.Bytes.Order.{Bytes}
use h2database_rust.Tx.VersionedValue.{
  VersionRecord, UncommittedRecord, VersionedValue, read_history, read_visible, commit_uncommitted,
  rollback_uncommitted, active_tx_id,
}

-- Newest first: each version is above all that follow.
abbrev pub IsDescending : List VersionRecord → Type 0
IsDescending [] = Unit
IsDescending (r ∷ rest) = All (λ s. s.commit_version < r.commit_version) rest × IsDescending rest

-- Every commit of the value is older than version `c`.
abbrev pub IsBelow : ℕ → VersionedValue → Type 0
IsBelow c vv = All (λ r. r.commit_version < c) vv.committed_history

-- The value that a transaction has written is what it reads, whatever its snapshot.
pub read_visible-own :
    (vv : VersionedValue) (tx snapshot : ℕ) (v : Option Bytes)
    → read_visible (record vv { uncommitted = some (record { tx_id = tx; value = v }) }) tx snapshot
      ≡ v
unfolding read_visible
read_visible-own vv tx snapshot v = ground arith

-- An uncommitted write is invisible to every other transaction.
pub read_visible-other :
    (vv : VersionedValue) (tx reader snapshot : ℕ) (v : Option Bytes)
    → tx ≢ reader
    → read_visible
        (record vv { uncommitted = some (record { tx_id = tx; value = v }) })
        reader
        snapshot
      ≡ read_history vv.committed_history snapshot
unfolding read_visible
read_visible-other vv tx reader snapshot v h = ground arith

-- After a commit at `c`, with room in the history, a snapshot from `c` on reads the value that the
-- transaction wrote, and an older snapshot reads what it read before the commit.
pub read_visible-commit :
    (vv : VersionedValue) (u : UncommittedRecord) (c reader snapshot : ℕ)
    → vv.uncommitted ≡ some u
    → length vv.committed_history < 32
    → read_visible (commit_uncommitted vv c) reader snapshot
      ≡ (if leb c snapshot then u.value else read_history vv.committed_history snapshot)
unfolding read_visible commit_uncommitted read_history
read_visible-commit vv u c reader snapshot e h = ground (
  arith,
  take_of_length-le 32 (record { value = u.value; commit_version = c } ∷ vv.committed_history)
      (omega arith),
)

-- A rollback leaves the committed versions, and no transaction as the writer.
pub read_visible-rollback :
    (vv : VersionedValue) (reader snapshot : ℕ)
    → (read_visible (rollback_uncommitted vv) reader snapshot
        ≡ read_history vv.committed_history snapshot)
      × (active_tx_id (rollback_uncommitted vv) ≡ none)
unfolding read_visible rollback_uncommitted active_tx_id
read_visible-rollback vv reader snapshot = (refl, refl)

All-take {ℓ κ} : {A : Type ℓ} (P : A → Type κ) (n : ℕ) (l : List A) → All P l → All P (take n l)
All-take P zero l h = tt
All-take P (suc n) [] h = tt
All-take P (suc n) (x ∷ l) h = (h.0, All-take P n l h.1)

pub All-at {ℓ κ} :
    {A : Type ℓ} (P : A → Type κ) (l : List A) (i : ℕ) (x : A)
    → All P l
    → get_elem? l i ≡ some x
    → P x
All-at P [] i x h e = cc
All-at P (y ∷ l) zero x h e = let p : y ≡ x = cc in subst P p h.0
All-at P (y ∷ l) (suc i) x h e = All-at P l i x h.1 e

pub take-IsDescending : (n : ℕ) (h : List VersionRecord) → IsDescending h → IsDescending (take n h)
take-IsDescending zero h d = tt
take-IsDescending (suc n) [] d = tt
take-IsDescending (suc n) (r ∷ h) d = (All-take _ n h d.0, take-IsDescending n h d.1)

-- A commit at a version above the history keeps it newest first and within 32 versions.
pub commit-IsDescending :
    (vv : VersionedValue) (c : ℕ)
    → IsDescending vv.committed_history
    → length vv.committed_history ≤ 32
    → IsBelow c vv
    → IsDescending (commit_uncommitted vv c).committed_history
      × (length (commit_uncommitted vv c).committed_history ≤ 32)
unfolding commit_uncommitted
commit-IsDescending vv c d h b = elim (Option-cases vv.uncommitted) [
  | inl e ↦ rw (e, commit_uncommitted) (d, h)
  | inr (u, e) ↦
      let record_c : VersionRecord = record { value = u.value; commit_version = c } in
      rw (e, commit_uncommitted)
        (elim (Bool-cases (ltb 32 (length (record_c ∷ vv.committed_history)))) [
          | inl full ↦ rw full (
            take-IsDescending 32 (record_c ∷ vv.committed_history) (b, d),
            length-take-le 32 (record_c ∷ vv.committed_history),
          )
          | inr room ↦ rw room ((b, d), ground arith)
        ])
]

-- On a newest-first history a read returns the newest version that is at most the snapshot.
pub read_history-newest :
    (h : List VersionRecord) (i snapshot : ℕ) (r : VersionRecord)
    → IsDescending h
    → get_elem? h i ≡ some r
    → r.commit_version ≤ snapshot
    → All (λ q. q.commit_version ≤ snapshot → q.commit_version ≤ r.commit_version) h
    → read_history h snapshot ≡ r.value
unfolding read_history
read_history-newest [] i snapshot r d e le all = cc
read_history-newest (q ∷ h) zero snapshot r d e le all = ground arith
read_history-newest (q ∷ h) (suc i) snapshot r d e le all =
    let later : r.commit_version < q.commit_version = All-at _ h i r d.0 e in
    let ih : read_history h snapshot ≡ r.value =
      read_history-newest h i snapshot r d.1 e le all.1 in
    elim (Bool-cases (leb q.commit_version snapshot)) [
      | inl seen ↦ absurd (omega (tests, all.0))
      | inr later ↦ rw later ih
    ]

-- A snapshot older than every version reads nothing.
pub read_history-none :
    (h : List VersionRecord) (snapshot : ℕ)
    → All (λ q. snapshot < q.commit_version) h
    → read_history h snapshot ≡ none
unfolding read_history
read_history-none [] snapshot all = refl
read_history-none (q ∷ h) snapshot all = ground (arith, read_history-none h snapshot all.1)
