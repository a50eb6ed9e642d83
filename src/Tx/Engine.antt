-- ===== src/Tx/Engine.antt =====
-- The state that transactions work on: `TransactionStore` of crates/h2-mvstore/src/tx/store.rs with
-- what it uses of `MVStore`, and `Transaction` of crates/h2-mvstore/src/tx/transaction.rs. Error
-- messages are not modelled, only their kinds.
use h2database_rust.Prelude.{
  ℕ, ◌+◌, Bool, true, false, Option, none, some, List, [], ◌∷◌, String, ltb, if◌then◌else◌,
}
use h2database_rust.Prelude.HashMap
use h2database_rust.Prelude.HashMap.{HashMap}
use h2database_rust.Bytes.Order.{Bytes}
use h2database_rust.Tx.Lock
use h2database_rust.Tx.Lock.{WaitState}

pub data Error : Type 0 where
  lock_conflict query_timeout transaction serialization storage : Error

pub data Result {ℓ} (A : Type ℓ) : Type ℓ where
  ok : A → Result A
  err : Error → Result A

pub data Status : Type 0 where
  open_tx committed rolled_back : Status

pub record UndoLogEntry : Type 0 where
  pub map_name : String
  pub key : Bytes

-- The undo log is held newest first: `push` is `∷`, and `pop` takes the head.
pub record Transaction : Type 0 where
  pub tx_id : ℕ
  pub snapshot_version : ℕ
  pub status : Status
  pub undo_log : List UndoLogEntry

-- `S` is the state of the maps.
pub record Engine (S : Type 0) : Type 0 where
  pub store : S
  pub version : ℕ
  pub next_commit_version : ℕ
  pub next_tx_id : ℕ
  pub active_transactions : HashMap ℕ
  pub lock_manager : WaitState
  pub lock_timeout : ℕ

-- The result of a method, with the states that it leaves.
abbrev pub Outcome : Type 0 → Type 0 → Type 0
Outcome S A = Engine S × Transaction × Result A

unfoldable pub is_open : Status → Bool
is_open open_tx = true
is_open committed = false
is_open rolled_back = false

-- The minimum of the snapshots, and the current version if there is none.
unfoldable pub min_snapshot : HashMap ℕ → Option ℕ
min_snapshot [] = none
min_snapshot ((_, v) ∷ m) = elim (min_snapshot m) [
  | none ↦ some v
  | some w ↦ some (if ltb w v then w else v)
]

module _ {S : Type 0} where
  unfoldable pub is_tx_active : Engine S → ℕ → Bool
  is_tx_active e tx_id = elim (HashMap.get e.active_transactions tx_id) [
    | none ↦ false
    | some _ ↦ true
  ]

  unfoldable pub begin : Engine S → Engine S × Transaction
  begin e = (
    record e {
      next_tx_id = e.next_tx_id + 1;
      active_transactions = HashMap.insert e.active_transactions e.next_tx_id e.version;
    },
    record { tx_id = e.next_tx_id; snapshot_version = e.version; status = open_tx; undo_log = [] },
  )

  unfoldable pub remove_active_tx : Engine S → ℕ → Engine S
  remove_active_tx e tx_id = record e {
    active_transactions = HashMap.remove e.active_transactions tx_id;
    lock_manager = Lock.notify_lock_released (Lock.unregister_wait e.lock_manager tx_id) tx_id;
  }

  unfoldable pub oldest_active_version : Engine S → ℕ
  unfolding min_snapshot
  oldest_active_version e = elim (min_snapshot e.active_transactions) [
    | none ↦ e.version
    | some v ↦ v
  ]
