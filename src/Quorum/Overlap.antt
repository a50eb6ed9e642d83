-- ===== src/Quorum/Overlap.antt =====
-- A write quorum and a read quorum of a valid configuration share a node.
use h2database_rust.Prelude.{
  ℕ, suc, ◌+◌, ◌≤◌, ◌<◌, Bool, true, false, some, List, [], ◌∷◌, length, get_elem?, ◌≡◌, refl,
  arith,
}
use h2database_rust.Quorum.{QuorumConfig, validate}

-- How many of the nodes are in a set.
unfoldable pub members : List Bool → ℕ
members [] = 0
members (true ∷ s) = suc (members s)
members (false ∷ s) = members s

meet :
    (w r : List Bool)
    → length w ≡ length r
    → length w < members w + members r
    → (i : ℕ) × (get_elem? w i ≡ some true) × (get_elem? r i ≡ some true)
unfolding members
meet [] [] e h = absurd (omega (arith, h))
meet [] (b ∷ r) e h = absurd (omega (arith, e))
meet (a ∷ w) [] e h = absurd (omega (arith, e))
meet (true ∷ w) (true ∷ r) e h = (0, refl, refl)
meet (true ∷ w) (false ∷ r) e h =
    let (i, p, q) = meet w r (omega (arith, e)) (omega (arith, h)) in (suc i, p, q)
meet (false ∷ w) (true ∷ r) e h =
    let (i, p, q) = meet w r (omega (arith, e)) (omega (arith, h)) in (suc i, p, q)
meet (false ∷ w) (false ∷ r) e h =
    let (i, p, q) = meet w r (omega (arith, e)) (omega (arith, h)) in (suc i, p, q)

-- In a configuration that `validate` accepts, any set of nodes of the size of a write quorum and
-- any of the size of a read quorum have a node in common.
pub quorums_overlap :
    (c : QuorumConfig) (written read : List Bool)
    → validate c ≡ true
    → length written ≡ c.total_nodes
    → length read ≡ c.total_nodes
    → c.write_quorum ≤ members written
    → c.read_quorum ≤ members read
    → (i : ℕ) × (get_elem? written i ≡ some true) × (get_elem? read i ≡ some true)
unfolding validate
quorums_overlap c written read v lw lr w r =
    let more : c.total_nodes < c.write_quorum + c.read_quorum = ground (arith, v) in
    meet written read (omega (arith, lw, lr)) (omega (arith, more, lw, w, r))
