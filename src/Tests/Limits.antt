-- ===== src/Tests/Limits.antt =====
-- A history of 32 versions, of which an old snapshot sees the last.
use h2database_rust.Prelude.{
  ℕ, ◌<◌, none, some, List, [], ◌∷◌, ◌++◌, replicate, All, zero, suc, ◌≡◌, refl, arith,
}
use h2database_rust.Tx.VersionedValue.{
  VersionRecord, VersionedValue, read_visible, commit_uncommitted,
}
use h2database_rust.Tx.VersionedValue.Limit.{commit-forgets}

abbrev newer : List VersionRecord
newer = replicate 31 (record { value = some (2 ∷ []); commit_version = 9 })

abbrev oldest : VersionRecord
oldest = record { value = some (1 ∷ []); commit_version = 3 }

abbrev full : VersionedValue
full = record {
  uncommitted = some (record { tx_id = 1; value = none });
  committed_history = newer ++ (oldest ∷ []);
}

All-replicate :
    (n : ℕ)
    → All
        (λ (q : VersionRecord). 5 < q.commit_version)
        (replicate n (record { value = some (2 ∷ []); commit_version = 9 }))
All-replicate zero = tt
All-replicate (suc n) = (omega arith, All-replicate n)

commit-forgets_example :
    (read_visible full 2 5 ≡ some (1 ∷ [])) × (read_visible (commit_uncommitted full 10) 2 5 ≡ none)
commit-forgets_example =
    commit-forgets full (record { tx_id = 1; value = none }) newer oldest 10 2 5 refl refl refl
      (λ e. absurd (omega (arith, e))) (All-replicate 31) (omega arith) (omega arith)
