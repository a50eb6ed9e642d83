-- ===== src/Tests/Data.antt =====
-- A store with one map and one key, two active transactions, and the states that a write leaves.
use h2database_rust.Prelude.{
  none, some, [], ◌∷◌, String, ◌≡◌, refl, ◌∙◌, arith, inl, inr, Bool-cases,
}
use h2database_rust.Bytes.Order.{Bytes}
use h2database_rust.Tx.VersionedValue.{VersionedValue}
use h2database_rust.Tx.Codec.{wire, to_bytes}
use h2database_rust.Tx.Codec.Bincode.{bincode, serialize-wire}
use h2database_rust.Tx.Lock
use h2database_rust.Tx.Maps.{same_place}
use h2database_rust.Tx.Maps.Trees.{trees, no_maps, get-no_maps}
use h2database_rust.Tx.Engine.{Engine, Transaction, open_tx}
use h2database_rust.Tx.Writes.Views.{same_place_self}
use h2database_rust.Tx.Writes.Undo.{IsSound}

abbrev pub key : Bytes
key = 107 ∷ []

abbrev pub old_value : Bytes
old_value = 1 ∷ 2 ∷ []

abbrev pub new_value : Bytes
new_value = 9 ∷ []

-- Committed at version 3.
abbrev pub stored : VersionedValue
stored = record {
  uncommitted = none;
  committed_history = record { value = some old_value; commit_version = 3 } ∷ [];
}

-- Transaction 1 has written a new value.
abbrev pub written : VersionedValue
written = record {
  uncommitted = some (record { tx_id = 1; value = some new_value });
  committed_history = record { value = some old_value; commit_version = 3 } ∷ [];
}

-- Transaction 1 has removed it.
abbrev pub removed : VersionedValue
removed = record {
  uncommitted = some (record { tx_id = 1; value = none });
  committed_history = record { value = some old_value; commit_version = 3 } ∷ [];
}

-- And committed the new value at version 6.
abbrev pub twice : VersionedValue
twice = record {
  uncommitted = none;
  committed_history =
      record { value = some new_value; commit_version = 6 }
      ∷ record { value = some old_value; commit_version = 3 }
      ∷ [];
}

pub stored-bytes : to_bytes bincode stored ≡ some (wire stored)
unfolding to_bytes
stored-bytes =
    serialize-wire stored (record {
      uncommitted = tt;
      versions = omega arith;
      history = (omega arith, omega arith, tt);
    })

pub written-bytes : to_bytes bincode written ≡ some (wire written)
unfolding to_bytes
written-bytes = serialize-wire written (record {
  uncommitted = (omega arith, omega arith);
  versions = omega arith;
  history = (omega arith, omega arith, tt);
})

pub removed-bytes : to_bytes bincode removed ≡ some (wire removed)
unfolding to_bytes
removed-bytes = serialize-wire removed (record {
  uncommitted = (omega arith, tt);
  versions = omega arith;
  history = (omega arith, omega arith, tt);
})

pub twice-bytes : to_bytes bincode twice ≡ some (wire twice)
unfolding to_bytes
twice-bytes = serialize-wire twice (record {
  uncommitted = tt;
  versions = omega arith;
  history = (omega arith, omega arith, (omega arith, omega arith, tt));
})

abbrev pub store : trees.Store
store = trees.put no_maps "m" key (wire stored)

abbrev pub written_store : trees.Store
written_store = trees.put store "m" key (wire written)

pub get-store : trees.get store "m" key ≡ some (wire stored)
get-store = trees.get-put no_maps "m" key (wire stored) "m" key ∙ rw (same_place_self "m" key) refl

pub get-written_store : trees.get written_store "m" key ≡ some (wire written)
get-written_store =
    trees.get-put store "m" key (wire written) "m" key ∙ rw (same_place_self "m" key) refl

pub IsSound-put :
    (s : trees.Store) (m : String) (k bytes : Bytes) (vv : VersionedValue)
    → to_bytes bincode vv ≡ some bytes
    → IsSound trees bincode s
    → IsSound trees bincode (trees.put s m k bytes)
IsSound-put s m k bytes vv e sound n j = elim (Bool-cases (same_place m k n j)) [
  | inl here ↦ rw (trees.get-put s m k bytes n j, here) (vv, e)
  | inr there ↦ rw (trees.get-put s m k bytes n j, there) (sound n j)
]

pub store-IsSound : IsSound trees bincode store
store-IsSound =
    IsSound-put no_maps "m" key (wire stored) stored stored-bytes (λ n j. rw (get-no_maps n j) tt)

pub written_store-IsSound : IsSound trees bincode written_store
written_store-IsSound = IsSound-put store "m" key (wire written) written written-bytes store-IsSound

abbrev pub engine : Engine trees.Store
engine = record {
  store = store;
  version = 5;
  next_commit_version = 5;
  next_tx_id = 3;
  active_transactions = (1, 5) ∷ (2, 5) ∷ [];
  lock_manager = Lock.new;
  lock_timeout = 5000;
}

abbrev pub written_engine : Engine trees.Store
written_engine = record engine { store = written_store }

abbrev pub writer : Transaction
writer = record { tx_id = 1; snapshot_version = 5; status = open_tx; undo_log = [] }

abbrev pub done_writer : Transaction
done_writer = record writer { undo_log = record { map_name = "m"; key = key } ∷ [] }

abbrev pub reader : Transaction
reader = record { tx_id = 2; snapshot_version = 5; status = open_tx; undo_log = [] }
