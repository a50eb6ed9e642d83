-- ===== src/Tx/Commit.antt =====
-- The commit of a transaction: `commit` of crates/h2-mvstore/src/tx/transaction.rs and `commit_with`
-- of crates/h2-mvstore/src/store.rs. The log file, the replication listener and the other
-- committers are arguments (`Faults`, `Batch`).
pub mod Effect
pub mod Visible
use h2database_rust.Prelude.{
  ℕ, zero, suc, ◌+◌, Bool, true, false, Option, none, some, List, [], ◌∷◌, ◌++◌, String,
  if◌then◌else◌,
}
use h2database_rust.Bytes.Order.{Bytes}
use h2database_rust.Tx.VersionedValue.{VersionedValue, commit_uncommitted}
use h2database_rust.Tx.Codec.{Codec, to_bytes, from_bytes}
use h2database_rust.Tx.Maps.{Maps}
use h2database_rust.Tx.Engine.{
  Error, transaction, serialization, storage, Result, ok, err, open_tx, committed, rolled_back,
  UndoLogEntry, Transaction, Engine, Outcome, remove_active_tx,
}
use h2database_rust.Tx.Writes.{is_writer, rollback}

pub record WalChange : Type 0 where
  pub map_name : String
  pub key : Bytes
  pub value : Option Bytes

-- Without the time stamp, which only restores to a point in time read.
pub record WalRecord : Type 0 where
  pub tx_id : ℕ
  pub commit_version : ℕ
  pub changes : List WalChange

-- The commits that wait for the leader, and whether the log is beyond repair.
pub record CommitQueue : Type 0 where
  pub pending : List WalRecord
  pub poisoned : Bool

-- Which calls of the log succeed, and whether the listener takes the commit.
pub record Faults : Type 0 where
  pub appended : Bool
  pub truncated : Bool
  pub synced : Bool
  pub sync_truncated : Bool
  pub listener_took : Bool

-- The records of other committers that join the batch behind this one, and what other threads do
-- between the append and the sync.
pub record Batch (S : Type 0) : Type 0 where
  pub joined : List WalRecord
  pub meanwhile : Engine S → Engine S

-- How the commit in the store ends. After a durable failure the commit stands.
pub data CommitEnd : Type 0 where
  done : CommitEnd
  commit_failure : Error → Bool → CommitEnd

module _ (maps : Maps) (codec : Codec) where
  open maps use {Store}

  -- What `prepare` makes of one entry of the undo log: nothing, or one change.
  unfoldable pub prepare_one : Store → ℕ → ℕ → UndoLogEntry → Option (List WalChange)
  unfolding is_writer commit_uncommitted
  prepare_one s tx_id commit_version log = elim (maps.get s log.map_name log.key) [
    | none ↦ some (record { map_name = log.map_name; key = log.key; value = none } ∷ [])
    | some bytes ↦ elim (from_bytes codec bytes) [
      | none ↦ none
      | some vv ↦
          if is_writer vv tx_id
          then elim (to_bytes codec (commit_uncommitted vv commit_version)) [
            | none ↦ none
            | some serialized ↦
                some
                  (record { map_name = log.map_name; key = log.key; value = some serialized } ∷ [])
          ]
          else some []
    ]
  ]

  -- The undo log is kept newest first, and its entries are prepared oldest first.
  unfoldable pub prepare : Store → ℕ → ℕ → List UndoLogEntry → Option (List WalChange)
  unfolding prepare_one
  prepare s tx_id commit_version [] = some []
  prepare s tx_id commit_version (log ∷ logs) = elim (prepare s tx_id commit_version logs) [
    | none ↦ none
    | some older ↦ elim (prepare_one s tx_id commit_version log) [
      | none ↦ none
      | some newest ↦ some (older ++ newest)
    ]
  ]

  unfoldable pub apply_change : Store → WalChange → Store
  apply_change s change = elim change.value [
    | some value ↦ maps.put s change.map_name change.key value
    | none ↦ maps.remove s change.map_name change.key
  ]

  unfoldable pub apply_changes : Store → List WalChange → Store
  unfolding apply_change
  apply_changes s [] = s
  apply_changes s (change ∷ changes) = apply_changes (apply_change s change) changes

  unfoldable pub apply_records : Store → List WalRecord → Store
  unfolding apply_changes
  apply_records s [] = s
  apply_records s (item ∷ pending) = apply_records (apply_changes s item.changes) pending

  -- The version after a batch is that of its last record.
  unfoldable pub last_version : ℕ → List WalRecord → ℕ
  last_version version [] = version
  last_version version (item ∷ pending) = last_version item.commit_version pending

  -- What the leader does with the batch.
  unfoldable pub flush :
      Faults → Engine Store → CommitQueue → Engine Store × CommitQueue × CommitEnd
  unfolding apply_records last_version
  flush faults e queue =
      if faults.synced
      then (
        record e {
          store = apply_records e.store queue.pending;
          version = last_version e.version queue.pending;
        },
        record queue { pending = [] },
        if faults.listener_took then done else commit_failure storage true,
      )
      else (
        e,
        record { pending = []; poisoned = if faults.sync_truncated then queue.poisoned else true },
        commit_failure storage false,
      )

  unfoldable pub commit_with :
      Faults
      → Batch Store
      → Engine Store
      → CommitQueue
      → ℕ
      → List UndoLogEntry
      → Engine Store × CommitQueue × CommitEnd
  unfolding prepare flush
  commit_with faults batch e queue tx_id undo_log =
      let commit_version = e.next_commit_version + 1 in
      let e1 = record e { next_commit_version = commit_version } in
      if queue.poisoned
      then (e, queue, commit_failure storage false)
      else elim (prepare e.store tx_id commit_version undo_log) [
        | none ↦ (e1, queue, commit_failure serialization false)
        | some changes ↦
            let item : WalRecord = record {
              tx_id = tx_id;
              commit_version = commit_version;
              changes = changes;
            } in
            if faults.appended
            then flush faults (batch.meanwhile e1)
                (record queue { pending = queue.pending ++ (item ∷ batch.joined) })
            else (
              e1,
              record queue { poisoned = if faults.truncated then queue.poisoned else true },
              commit_failure storage false,
            )
      ]

  -- The end of `commit`, on a success and on a durable failure.
  unfoldable pub close : Engine Store → Transaction → Engine Store × Transaction
  unfolding remove_active_tx
  close e tx = (remove_active_tx e tx.tx_id, record tx { status = committed })

  -- What `commit` does with the failure of `commit_with`. An error of the rollback goes first.
  unfoldable pub commit_failed :
      Engine Store → Transaction → Error → Bool → Outcome Store (Unit {0})
  unfolding close rollback
  commit_failed e tx x true = let (e', tx') = close e tx in (e', tx', err x)
  commit_failed e tx x false =
      let (e', tx', r) = rollback maps codec e tx in
      (e', tx', elim r [ ok _ ↦ err x | err y ↦ err y ])

  unfoldable pub commit_open :
      Faults
      → Batch Store
      → Engine Store
      → CommitQueue
      → Transaction
      → CommitQueue × Outcome Store (Unit {0})
  unfolding commit_with close commit_failed
  commit_open faults batch e queue tx = elim tx.undo_log [
    | [] ↦ let (e', tx') = close e tx in (queue, (e', tx', ok tt))
    | log ∷ logs ↦
        let (e', queue', end) = commit_with faults batch e queue tx.tx_id tx.undo_log in
        elim end [
          | done ↦ let (e'', tx') = close e' tx in (queue', (e'', tx', ok tt))
          | commit_failure x durable ↦ (queue', commit_failed e' tx x durable)
        ]
  ]

  unfoldable pub commit :
      Faults
      → Batch Store
      → Engine Store
      → CommitQueue
      → Transaction
      → CommitQueue × Outcome Store (Unit {0})
  unfolding commit_open
  commit faults batch e queue tx = elim tx.status [
    | committed ↦ (queue, (e, tx, ok tt))
    | rolled_back ↦ (queue, (e, tx, err transaction))
    | open_tx ↦ commit_open faults batch e queue tx
  ]
