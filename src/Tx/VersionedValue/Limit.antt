-- ===== src/Tx/VersionedValue/Limit.antt =====
-- The limit of 32 versions, and a snapshot that is older than the 32 newest.
use mathlib.Core.Path.{subst}
use h2database_rust.Prelude.{
  ℕ, suc, ◌≤◌, ◌<◌, none, some, List, [], ◌∷◌, ◌++◌, All, length, length-append, take,
  take-append_self, ◌≡◌, ◌≢◌, arith,
}
use h2database_rust.Tx.VersionedValue.{
  VersionRecord, UncommittedRecord, VersionedValue, read_visible, read_history, commit_uncommitted,
}
use h2database_rust.Tx.VersionedValue.Reads.{read_history-none}

read_history-last :
    (newer : List VersionRecord) (r : VersionRecord) (snapshot : ℕ)
    → All (λ q. snapshot < q.commit_version) newer
    → r.commit_version ≤ snapshot
    → read_history (newer ++ (r ∷ [])) snapshot ≡ r.value
unfolding read_history
read_history-last [] r snapshot all le = ground arith
read_history-last (q ∷ newer) r snapshot all le =
    ground (arith, read_history-last newer r snapshot all.1 le)

-- When the history has 32 versions and a snapshot sees only the oldest of them, another commit
-- takes this one away: a reader with another transaction saw its value before, and sees none after.
pub commit-forgets :
    (vv : VersionedValue) (u : UncommittedRecord) (newer : List VersionRecord) (r : VersionRecord)
    (c reader snapshot : ℕ)
    → vv.uncommitted ≡ some u
    → vv.committed_history ≡ newer ++ (r ∷ [])
    → length newer ≡ 31
    → u.tx_id ≢ reader
    → All (λ q. snapshot < q.commit_version) newer
    → r.commit_version ≤ snapshot
    → snapshot < c
    → (read_visible vv reader snapshot ≡ r.value)
      × (read_visible (commit_uncommitted vv c) reader snapshot ≡ none)
unfolding read_visible commit_uncommitted
commit-forgets vv u newer r c reader snapshot e h n other all le less = (
  ground (arith, e, h, read_history-last newer r snapshot all le),
  ground (arith, e, h, long, cut, gone),
)
  where
    newest : VersionRecord
    newest = record { value = u.value; commit_version = c }

    long : length (newest ∷ (newer ++ (r ∷ []))) ≡ 33
    long = omega (arith, length-append newer (r ∷ []), n)

    cut : take 32 (newest ∷ (newer ++ (r ∷ []))) ≡ newest ∷ newer
    cut =
        subst (λ k. take (suc k) (newest ∷ (newer ++ (r ∷ []))) ≡ newest ∷ newer) n
          (take-append_self (newest ∷ newer) (r ∷ []))

    gone : read_history (newest ∷ newer) snapshot ≡ none
    gone = read_history-none (newest ∷ newer) snapshot (less, all)
