-- ===== src/Tx/Writes.antt =====
-- `put`, `remove` and `rollback` of crates/h2-mvstore/src/tx/transaction.rs. The stripe lock of a key
-- is held through each attempt, which is one step, and let go while the transaction waits. What
-- other threads do meanwhile is an argument (`Wait`).
pub mod Views
pub mod Undo
pub mod Exclusive
pub mod Removal
use h2database_rust.Prelude.{
  ℕ, zero, suc, ◌+◌, Bool, true, false, not, Option, none, some, List, [], ◌∷◌, String, ◌==◌,
  if◌then◌else◌,
}
use h2database_rust.Bytes.Order.{Bytes}
use h2database_rust.Tx.VersionedValue.{
  VersionedValue, UncommittedRecord, read_visible, active_tx_id, rollback_uncommitted,
}
use h2database_rust.Tx.Codec.{Codec, to_bytes, from_bytes}
use h2database_rust.Tx.Lock
use h2database_rust.Tx.Maps.{Maps}
use h2database_rust.Tx.Engine.{
  Error, lock_conflict, query_timeout, transaction, serialization, Result, ok, err, open_tx,
  committed, rolled_back, Status, UndoLogEntry, Transaction, Engine, Outcome, is_open, is_tx_active,
  remove_active_tx,
}

-- One wait for a lock: the time that the query has left before and after it (`none` without a
-- limit), what others do between the registration and the last look at the holder, and what they do
-- until the sleeper wakes, released or out of time.
pub record Wait (S : Type 0) : Type 0 where
  pub remaining_before : Option ℕ
  pub remaining_after : Option ℕ
  pub meanwhile : Engine S → Engine S
  pub asleep : Engine S → Engine S

pub data Attempt (S A : Type 0) : Type 0 where
  done : Engine S → Transaction → A → Attempt S A
  blocked : ℕ → Attempt S A
  failed : Error → Attempt S A

-- A lock was released and the attempt is made again, or the transaction gave up.
pub data Woken (S : Type 0) : Type 0 where
  retry : Engine S → Woken S
  gave_up : Engine S → Transaction → Error → Woken S

unfoldable pub is_zero : Option ℕ → Bool
is_zero none = false
is_zero (some n) = n == 0

abbrev pub empty_value : VersionedValue
empty_value = record { uncommitted = none; committed_history = [] }

unfoldable pub with_write : VersionedValue → ℕ → Option Bytes → VersionedValue
with_write vv tx_id value = record vv {
  uncommitted = some (record { tx_id = tx_id; value = value });
}

-- Whether `vv.active_tx_id() == Some(tx_id)`
unfoldable pub is_writer : VersionedValue → ℕ → Bool
unfolding active_tx_id
is_writer vv tx_id = elim (active_tx_id vv) [ none ↦ false | some id ↦ id == tx_id ]

module _ {S : Type 0} where
  -- The other transaction that holds the value, if it is active.
  unfoldable pub holder_of : Engine S → Transaction → VersionedValue → Option ℕ
  unfolding active_tx_id is_tx_active
  holder_of e tx vv = elim (active_tx_id vv) [
    | none ↦ none
    | some id ↦ if id == tx.tx_id then none else if is_tx_active e id then some id else none
  ]

module _ (maps : Maps) (codec : Codec) where
  open maps use {Store}

  -- The body of the loop of `rollback`; `none` is a failed `to_bytes`.
  unfoldable pub undo_one : Store → ℕ → UndoLogEntry → Option Store
  unfolding is_writer rollback_uncommitted
  undo_one s tx_id log = elim (maps.get s log.map_name log.key) [
    | none ↦ some s
    | some bytes ↦ elim (from_bytes codec bytes) [
      | none ↦ some s
      | some vv ↦
          if is_writer vv tx_id
          then elim vv.committed_history [
            | [] ↦ some (maps.remove s log.map_name log.key)
            | r ∷ rs ↦ elim (to_bytes codec (rollback_uncommitted vv)) [
              | none ↦ none
              | some serialized ↦ some (maps.put s log.map_name log.key serialized)
            ]
          ]
          else some s
    ]
  ]

  -- The store, the log that is left, and whether the loop came to its end.
  unfoldable pub undo_all : Store → ℕ → List UndoLogEntry → Store × List UndoLogEntry × Bool
  unfolding undo_one
  undo_all s tx_id [] = (s, [], true)
  undo_all s tx_id (log ∷ logs) = elim (undo_one s tx_id log) [
    | none ↦ (s, logs, false)
    | some s' ↦ undo_all s' tx_id logs
  ]

  unfoldable pub rollback_open : Engine Store → Transaction → Outcome Store (Unit {0})
  unfolding undo_all remove_active_tx
  rollback_open e tx =
      let (s, logs, finished) = undo_all e.store tx.tx_id tx.undo_log in
      if finished
      then (
        remove_active_tx (record e { store = s }) tx.tx_id,
        record tx { undo_log = logs; status = rolled_back },
        ok tt,
      )
      else (record e { store = s }, record tx { undo_log = logs }, err serialization)

  unfoldable pub rollback : Engine Store → Transaction → Outcome Store (Unit {0})
  unfolding rollback_open
  rollback e tx = elim tx.status [
    | rolled_back ↦ (e, tx, ok tt)
    | committed ↦ (e, tx, err transaction)
    | open_tx ↦ rollback_open e tx
  ]

  -- The transaction is rolled back, whatever that returns, and the error is reported.
  unfoldable pub cancel : Engine Store → Transaction → Error → Woken Store
  unfolding rollback
  cancel e tx x = let (e', tx', _) = rollback e tx in gave_up e' tx' x

  -- What follows the sleep. Out of time the transaction stays open, unless the query is out of time.
  unfoldable pub after_sleep : Engine Store → Transaction → Wait Store → Bool → Woken Store
  unfolding is_zero cancel
  after_sleep e tx w true = retry e
  after_sleep e tx w false =
      if is_zero w.remaining_after then cancel e tx query_timeout else gave_up e tx lock_conflict

  -- From the registration of the wait to the retry or the error.
  unfoldable pub wait_round : Engine Store → Transaction → ℕ → Wait Store → Woken Store
  unfolding cancel is_zero is_tx_active after_sleep
  wait_round e tx holder w = elim (Lock.register_wait e.lock_manager tx.tx_id holder) [
    | none ↦ cancel e tx lock_conflict
    | some locks ↦
        let e1 = record e { lock_manager = locks } in
        if is_zero w.remaining_before
        then cancel e1 tx query_timeout
        else let e2 = w.meanwhile e1 in
          let e3 = w.asleep e2 in
          let e4 = if is_tx_active e2 holder then e3 else e2 in
          let released =
            if is_tx_active e2 holder
            then Lock.wait_timeout e2.lock_manager e3.lock_manager holder
            else true in
          after_sleep (record e4 { lock_manager = Lock.unregister_wait e4.lock_manager tx.tx_id })
            tx w released
  ]

  -- The `loop` of `put` and `remove`, through the waits that are given; `none` means that it is
  -- still blocked after them.
  unfoldable pub locked_loop :
      {A : Type 0}
      → (Engine Store → Transaction → Attempt Store A)
      → List (Wait Store)
      → Engine Store
      → Transaction
      → Option (Outcome Store A)
  unfolding wait_round
  locked_loop attempt [] e tx = elim (attempt e tx) [
    | done e' tx' a ↦ some (e', tx', ok a)
    | failed x ↦ some (e, tx, err x)
    | blocked holder ↦ none
  ]
  locked_loop attempt (w ∷ ws) e tx = elim (attempt e tx) [
    | done e' tx' a ↦ some (e', tx', ok a)
    | failed x ↦ some (e, tx, err x)
    | blocked holder ↦ elim (wait_round e tx holder w) [
      | gave_up e' tx' x ↦ some (e', tx', err x)
      | retry e' ↦ locked_loop attempt ws e' tx
    ]
  ]

  -- The uncommitted value is serialized, logged for undo and put into the map.
  unfoldable pub write :
      {A : Type 0}
      → Engine Store
      → Transaction
      → String
      → Bytes
      → VersionedValue
      → A
      → Attempt Store A
  write e tx map_name key vv a = elim (to_bytes codec vv) [
    | none ↦ failed serialization
    | some serialized ↦
        done (record e { store = maps.put e.store map_name key serialized })
          (record tx { undo_log = record { map_name = map_name; key = key } ∷ tx.undo_log }) a
  ]

  unfoldable pub put_value :
      Engine Store
      → Transaction
      → String
      → Bytes
      → Bytes
      → VersionedValue
      → Attempt Store (Unit {0})
  unfolding holder_of write with_write
  put_value e tx map_name key value vv = elim (holder_of e tx vv) [
    | some holder ↦ blocked holder
    | none ↦ write e tx map_name key (with_write vv tx.tx_id (some value)) tt
  ]

  unfoldable pub put_attempt :
      String → Bytes → Bytes → Engine Store → Transaction → Attempt Store (Unit {0})
  unfolding put_value
  put_attempt map_name key value e tx = elim (maps.get e.store map_name key) [
    | none ↦ put_value e tx map_name key value empty_value
    | some bytes ↦ elim (from_bytes codec bytes) [
      | none ↦ failed serialization
      | some vv ↦ put_value e tx map_name key value vv
    ]
  ]

  unfoldable pub put :
      List (Wait Store)
      → Engine Store
      → Transaction
      → String
      → Bytes
      → Bytes
      → Option (Outcome Store (Unit {0}))
  unfolding locked_loop put_attempt is_open
  put waits e tx map_name key value =
      if is_open tx.status
      then locked_loop (put_attempt map_name key value) waits e tx
      else some (e, tx, err transaction)

  unfoldable pub remove_value :
      Engine Store → Transaction → String → Bytes → VersionedValue → Attempt Store Bool
  unfolding holder_of write with_write
  remove_value e tx map_name key vv = elim (holder_of e tx vv) [
    | some holder ↦ blocked holder
    | none ↦ elim (read_visible vv tx.tx_id tx.snapshot_version) [
      | none ↦ done e tx false
      | some _ ↦ write e tx map_name key (with_write vv tx.tx_id none) true
    ]
  ]

  unfoldable pub remove_attempt : String → Bytes → Engine Store → Transaction → Attempt Store Bool
  unfolding remove_value
  remove_attempt map_name key e tx = elim (maps.get e.store map_name key) [
    | none ↦ done e tx false
    | some bytes ↦ elim (from_bytes codec bytes) [
      | none ↦ failed serialization
      | some vv ↦ remove_value e tx map_name key vv
    ]
  ]

  unfoldable pub remove :
      List (Wait Store) → Engine Store → Transaction → String → Bytes → Option (Outcome Store Bool)
  unfolding locked_loop remove_attempt is_open
  remove waits e tx map_name key =
      if is_open tx.status
      then locked_loop (remove_attempt map_name key) waits e tx
      else some (e, tx, err transaction)
