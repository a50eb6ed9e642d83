-- ===== src/Tx/VersionedValue.antt =====
-- crates/h2-mvstore/src/tx/versioned_value.rs: the versions that are kept of one key.
pub mod Reads
pub mod Vacuum
pub mod Limit
use h2database_rust.Bytes.Order.{Bytes}
use h2database_rust.Prelude.{
  ℕ, zero, suc, ◌+◌, ◌≤◌, ◌<◌, Bool, true, false, Option, none, some, List, [], ◌∷◌, ltb, leb, ◌==◌,
  if◌then◌else◌, length, take,
}

-- `none` as a value is a deletion.
pub record VersionRecord : Type 0 where
  pub value : Option Bytes
  pub commit_version : ℕ

pub record UncommittedRecord : Type 0 where
  pub tx_id : ℕ
  pub value : Option Bytes

-- The history is kept newest first.
pub record VersionedValue : Type 0 where
  pub uncommitted : Option UncommittedRecord
  pub committed_history : List VersionRecord

unfoldable pub new_committed : Bytes → ℕ → VersionedValue
new_committed value commit_version = record {
  uncommitted = none;
  committed_history = record { value = some value; commit_version = commit_version } ∷ [];
}

unfoldable pub new_uncommitted : ℕ → Option Bytes → VersionedValue
new_uncommitted tx_id value = record {
  uncommitted = some (record { tx_id = tx_id; value = value });
  committed_history = [];
}

-- The loop of `read_visible` over the history.
unfoldable pub read_history : List VersionRecord → ℕ → Option Bytes
read_history [] snapshot_version = none
read_history (r ∷ rest) snapshot_version =
    if leb r.commit_version snapshot_version then r.value else read_history rest snapshot_version

unfoldable pub read_visible : VersionedValue → ℕ → ℕ → Option Bytes
read_visible vv reader_tx_id snapshot_version = elim vv.uncommitted [
  | none ↦ read_history vv.committed_history snapshot_version
  | some u ↦
      if u.tx_id == reader_tx_id
      then u.value
      else read_history vv.committed_history snapshot_version
]

unfoldable pub active_tx_id : VersionedValue → Option ℕ
active_tx_id vv = elim vv.uncommitted [ none ↦ none | some u ↦ some u.tx_id ]

-- The history keeps at most 32 versions.
unfoldable pub commit_uncommitted : VersionedValue → ℕ → VersionedValue
commit_uncommitted vv commit_version = elim vv.uncommitted [
  | none ↦ vv
  | some u ↦
      let history =
        record { value = u.value; commit_version = commit_version } ∷ vv.committed_history in
      record {
        uncommitted = none;
        committed_history = if ltb 32 (length history) then take 32 history else history;
      }
]

unfoldable pub rollback_uncommitted : VersionedValue → VersionedValue
rollback_uncommitted vv = record vv { uncommitted = none }

unfoldable pub is_dead_history : List VersionRecord → ℕ → Bool
is_dead_history [] horizon_version = true
is_dead_history (first ∷ rest) horizon_version =
    if leb first.commit_version horizon_version
    then elim first.value [ none ↦ true | some _ ↦ false ]
    else false

unfoldable pub is_dead : VersionedValue → ℕ → Bool
unfolding is_dead_history
is_dead vv horizon_version = elim vv.uncommitted [
  | some _ ↦ false
  | none ↦ is_dead_history vv.committed_history horizon_version
]

-- The search for the cutoff: one past the first version that is at most the horizon. `i` is the
-- counter of `enumerate`.
unfoldable pub find_cutoff : ℕ → List VersionRecord → ℕ → Option ℕ
find_cutoff i [] horizon_version = none
find_cutoff i (rec ∷ rest) horizon_version =
    if leb rec.commit_version horizon_version
    then some (i + 1)
    else find_cutoff (suc i) rest horizon_version

-- The value left behind, and whether anything was cut off.
unfoldable pub prune_old_versions : VersionedValue → ℕ → VersionedValue × Bool
unfolding find_cutoff
prune_old_versions vv horizon_version =
    if leb (length vv.committed_history) 1
    then (vv, false)
    else elim (find_cutoff 0 vv.committed_history horizon_version) [
      | none ↦ (vv, false)
      | some cutoff ↦
          if ltb cutoff (length vv.committed_history)
          then (record vv { committed_history = take cutoff vv.committed_history }, true)
          else (vv, false)
    ]
