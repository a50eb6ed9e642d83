-- ===== src/Quorum.antt =====
-- crates/h2/src/storage/quorum.rs: the quorums of a fleet of storage nodes. The nodes answer on a
-- channel, so their answers are a list in the order in which they arrive; each node answers.
pub mod Overlap
pub mod Acks
use h2database_rust.Prelude.{
  ℕ, zero, suc, ◌+◌, ◌-◌, Bool, true, false, Option, none, some, List, [], ◌∷◌, ltb, leb, ◌==◌,
  if◌then◌else◌,
}

pub record QuorumConfig : Type 0 where
  pub total_nodes : ℕ
  pub write_quorum : ℕ
  pub read_quorum : ℕ

abbrev pub three_nodes : QuorumConfig
three_nodes = record { total_nodes = 3; write_quorum = 2; read_quorum = 2 }

abbrev pub six_nodes : QuorumConfig
six_nodes = record { total_nodes = 6; write_quorum = 4; read_quorum = 3 }

-- `false` is `H2Error::Storage`.
unfoldable pub validate : QuorumConfig → Bool
validate c =
    if ltb c.total_nodes c.write_quorum
    then false
    else if leb (c.write_quorum + c.read_quorum) c.total_nodes
    then false
    else true

-- The fleet, with the number of its nodes.
pub record StorageFleet : Type 0 where
  pub nodes : ℕ
  pub config : QuorumConfig
  pub latest_committed_lsn : ℕ
  pub fencing_token : ℕ

unfoldable pub new : ℕ → QuorumConfig → Option StorageFleet
unfolding validate
new nodes config =
    if validate config
    then if nodes == config.total_nodes
      then some
          (record { nodes = nodes; config = config; latest_committed_lsn = 0; fencing_token = 1 })
      else none
    else none

-- The loop of `acquire_lease_quorum` over the answers: whether the lease is acquired.
unfoldable pub lease_loop : QuorumConfig → ℕ → ℕ → ℕ → List Bool → Bool
lease_loop c total acks rejections [] = false
lease_loop c total acks rejections (true ∷ answers) =
    let rest = lease_loop c total (acks + 1) rejections answers in
    if leb c.write_quorum (acks + 1) then true else rest
lease_loop c total acks rejections (false ∷ answers) =
    let rest = lease_loop c total acks (rejections + 1) answers in
    if ltb (total - (rejections + 1)) c.write_quorum then false else rest

unfoldable pub acquire_lease_quorum : StorageFleet → ℕ → List Bool → StorageFleet × Bool
unfolding lease_loop
acquire_lease_quorum f token answers =
    if lease_loop f.config f.nodes 0 0 answers
    then (record f { fencing_token = token }, true)
    else (f, false)

unfoldable pub max : ℕ → ℕ → ℕ
max a b = if ltb a b then b else a

-- The loop of `append_logs_quorum`. An answer is the node's LSN, or `none` for an error.
unfoldable pub append_loop : QuorumConfig → ℕ → ℕ → ℕ → ℕ → List (Option ℕ) → Option ℕ
unfolding max
append_loop c total acks errors max_ack_lsn [] = none
append_loop c total acks errors max_ack_lsn (some lsn ∷ answers) =
    let rest = append_loop c total (acks + 1) errors (max max_ack_lsn lsn) answers in
    if leb c.write_quorum (acks + 1) then some (max max_ack_lsn lsn) else rest
append_loop c total acks errors max_ack_lsn (none ∷ answers) =
    let rest = append_loop c total acks (errors + 1) max_ack_lsn answers in
    if ltb (total - (errors + 1)) c.write_quorum then none else rest

-- Records that are not empty are sent to all nodes.
unfoldable pub append_records : StorageFleet → List (Option ℕ) → StorageFleet × Option ℕ
unfolding append_loop
append_records f answers = elim (append_loop f.config f.nodes 0 0 0 answers) [
  | none ↦ (f, none)
  | some lsn ↦ (record f { latest_committed_lsn = lsn }, some lsn)
]

unfoldable pub append_logs_quorum :
    {R : Type 0} → StorageFleet → List R → List (Option ℕ) → StorageFleet × Option ℕ
unfolding append_records
append_logs_quorum f [] answers = (f, some f.latest_committed_lsn)
append_logs_quorum f (r ∷ records) answers = append_records f answers

-- The first answer that is no error; `none` if all nodes fail.
unfoldable pub get_key_quorum : {A : Type 0} → List (Option A) → Option A
get_key_quorum [] = none
get_key_quorum (some val ∷ answers) = some val
get_key_quorum (none ∷ answers) = get_key_quorum answers
