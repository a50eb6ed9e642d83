-- ===== src/Tests/Fleets.antt =====
-- A fleet of three nodes, of which one fails.
use h2database_rust.Prelude.{
  ℕ, ◌≤◌, true, false, none, some, [], ◌∷◌, get_elem?, ◌≡◌, ◌≢◌, ◌↔◌, refl, arith,
}
use h2database_rust.Quorum.{StorageFleet, three_nodes, validate, append_logs_quorum}
use h2database_rust.Quorum.Overlap.{members, quorums_overlap}
use h2database_rust.Quorum.Acks.{acks_of, append_logs_quorum-decides}

quorums_overlap_example :
    (i : ℕ) × (get_elem? (true ∷ true ∷ false ∷ []) i ≡ some true)
    × (get_elem? (false ∷ true ∷ true ∷ []) i ≡ some true)
unfolding validate members
quorums_overlap_example =
    quorums_overlap three_nodes (true ∷ true ∷ false ∷ []) (false ∷ true ∷ true ∷ []) refl refl refl
      (omega arith) (omega arith)

abbrev fleet : StorageFleet
fleet = record { nodes = 3; config = three_nodes; latest_committed_lsn = 4; fencing_token = 1 }

append_logs_quorum-decides_example :
    (((append_logs_quorum {R = ℕ} fleet (b'a' ∷ []) (some 7 ∷ none ∷ some 8 ∷ [])).1 ≢ none)
      ↔ (2 ≤ acks_of (some 7 ∷ none ∷ some 8 ∷ [])))
    × ((append_logs_quorum {R = ℕ} fleet
          (b'a' ∷ [])
          (some 7 ∷ none ∷ some 8 ∷ [])).0.latest_committed_lsn
        ≡ elim (append_logs_quorum {R = ℕ} fleet (b'a' ∷ []) (some 7 ∷ none ∷ some 8 ∷ [])).1 [
          | none ↦ 4
          | some lsn ↦ lsn
        ])
    × (append_logs_quorum {R = ℕ} fleet [] (some 7 ∷ none ∷ some 8 ∷ []) ≡ (fleet, some 4))
append_logs_quorum-decides_example =
    append_logs_quorum-decides {R = ℕ} fleet b'a' [] (some 7 ∷ none ∷ some 8 ∷ []) (omega arith)
      refl
