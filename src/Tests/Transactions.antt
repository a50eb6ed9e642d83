-- ===== src/Tests/Transactions.antt =====
-- Reads, writes, rollbacks and vacuums of two transactions over one key.
use h2database_rust.Prelude.{
  ℕ, true, some, [], ◌≡◌, ◌≢◌, ◌↔◌, ◌⊎◌, refl, ap, All, List, ◌∷◌, arith, Option, none,
}
use h2database_rust.Prelude.HashMap
use h2database_rust.Bytes.Order.{Bytes}
use h2database_rust.Tx.VersionedValue.{
  VersionedValue, active_tx_id, rollback_uncommitted, read_visible, read_history,
}
use h2database_rust.Tx.Codec.{wire, to_bytes, from_bytes}
use h2database_rust.Tx.Codec.Raw.{from_bytes-to_bytes}
use h2database_rust.Tx.Codec.Bincode.{bincode}
use h2database_rust.Tx.Maps.Trees.{trees}
use h2database_rust.Tx.Engine.{Error, serialization, ok, is_tx_active, is_open, Engine}
use h2database_rust.Tx.Reads.{get}
use h2database_rust.Tx.Writes.{
  done, blocked, failed, put, put_attempt, put_value, write, with_write, holder_of, locked_loop,
  rollback, rollback_open, undo_all, undo_one, is_writer, remove_attempt, remove_value,
}
use h2database_rust.Tx.Writes.Exclusive.{Stored, put-get, put-isolated, put_attempt-outcomes}
use h2database_rust.Tx.Writes.Undo.{IsSound, rollback-isolated}
use h2database_rust.Tx.Maps.{same_place}
use h2database_rust.Tree.{Entry}
use h2database_rust.Tx.Reads.{get_bytes}
use h2database_rust.Tx.Vacuum.{vacuum_map}
use h2database_rust.Tx.Vacuum.Keeps.{IsApart, vacuum_map-keeps}
use h2database_rust.Tx.Writes.Removal.{is_some, remove_attempt-get}
use h2database_rust.Tests.Data.{
  IsSound-put, written, written-bytes, written_store-IsSound, stored-bytes, removed, removed-bytes,
  key, old_value, new_value, stored, written_store, get-store, store-IsSound, engine,
  written_engine, writer, done_writer, reader, get-written_store, store,
}

value_run :
    put_value trees bincode engine writer "m" key new_value stored
    ≡ done written_engine done_writer tt
unfolding put_value holder_of with_write write active_tx_id
value_run = ground (arith, written-bytes)

attempt :
    put_attempt trees bincode "m" key new_value engine writer ≡ done written_engine done_writer tt
unfolding put_attempt
attempt =
    rw (get-store, put_attempt)
      (rw (from_bytes-to_bytes bincode stored (wire stored) stored-bytes) value_run)

put_run :
    put trees bincode [] engine writer "m" key new_value ≡ some (written_engine, done_writer, ok tt)
unfolding put locked_loop is_open
put_run = rw (attempt, locked_loop, put) refl

put-get_example : get trees bincode written_engine done_writer "m" key ≡ ok (some new_value)
put-get_example =
    put-get trees bincode [] engine writer "m" key new_value written_engine done_writer put_run

put-isolated_example :
    get trees bincode written_engine reader "m" key ≡ get trees bincode engine reader "m" key
unfolding is_tx_active HashMap.get
put-isolated_example =
    put-isolated trees bincode engine writer reader "m" key new_value written_engine done_writer
      attempt (store-IsSound "m" key) refl (λ e. absurd (omega (arith, e))) "m" key

put_attempt-outcomes_example :
    ((put_attempt trees bincode "m" key old_value written_engine reader ≡ blocked 1) ↔ (
      (bytes : Bytes) × (vv : VersionedValue) × (trees.get written_store "m" key ≡ some bytes)
      × (from_bytes bincode bytes ≡ some vv)
      × (active_tx_id vv ≡ some 1)
      × (◌≢◌ {A = ℕ} 1 2)
      × (is_tx_active written_engine 1 ≡ true)))
    × (put_attempt trees bincode "m" key old_value written_engine reader ≡ failed serialization
        → ◌≡◌ {A = Error} serialization serialization
          × (((bytes : Bytes) × (trees.get written_store "m" key ≡ some bytes)
                × (from_bytes bincode bytes ≡ none))
              ⊎ ((vv : VersionedValue) × Stored trees bincode written_engine "m" key vv
                  × (to_bytes bincode (with_write vv 2 (some old_value)) ≡ none))))
put_attempt-outcomes_example =
    put_attempt-outcomes trees bincode written_engine reader "m" key old_value 1 serialization

rollback-isolated_example :
    IsSound trees bincode (rollback trees bincode written_engine done_writer).0.store
    × (get trees bincode (rollback trees bincode written_engine done_writer).0 reader "m" key
        ≡ get trees bincode written_engine reader "m" key)
rollback-isolated_example =
    rollback-isolated trees bincode written_engine done_writer reader "m" key written_store-IsSound
      (λ e. absurd (omega (arith, e)))

rollback_run : (rollback trees bincode written_engine done_writer).2 ≡ ok tt
unfolding rollback rollback_open undo_all undo_one is_writer active_tx_id rollback_uncommitted
rollback_run = ground (
  arith,
  get-written_store,
  from_bytes-to_bytes bincode written (wire written) written-bytes,
  stored-bytes,
)

abbrev removed_engine : Engine trees.Store
removed_engine = record engine { store = trees.put store "m" key (wire removed) }

remove_run :
    remove_attempt trees bincode "m" key engine writer ≡ done removed_engine done_writer true
unfolding remove_attempt remove_value holder_of with_write write active_tx_id read_visible
    read_history
remove_run =
    ground (
      arith,
      get-store,
      from_bytes-to_bytes bincode stored (wire stored) stored-bytes,
      removed-bytes,
    )

remove_attempt-get_example :
    (seen : Option Bytes) × (get trees bincode engine writer "m" key ≡ ok seen)
    × (true ≡ is_some seen)
    × (get trees bincode removed_engine done_writer "m" key ≡ ok none)
remove_attempt-get_example =
    remove_attempt-get trees bincode engine writer "m" key removed_engine done_writer true refl
      (store-IsSound "m" key) remove_run

-- Another thread writes to another map.
abbrev elsewhere : Engine trees.Store → Engine trees.Store
elsewhere e = record e { store = trees.put e.store "n" key (wire stored) }

same_elsewhere :
    (s : trees.Store) (j : Bytes)
    → trees.get (trees.put s "n" key (wire stored)) "m" j ≡ trees.get s "m" j
unfolding same_place
same_elsewhere s j = trees.get-put s "n" key (wire stored) "m" j

All_of : {P : Entry → Type 0} (es : List Entry) → ((x : Entry) → P x) → All P es
All_of [] f = tt
All_of (x ∷ es) f = (f x, All_of es f)

elsewhere-IsApart : (es : List Entry) → IsApart trees bincode reader "m" key "m" es elsewhere
elsewhere-IsApart es = record {
  sound = λ e h. IsSound-put e.store "n" key (wire stored) stored stored-bytes h;
  entries = λ e. All_of es (λ x. same_elsewhere e.store x.key);
  reads = λ e. ap (get_bytes bincode reader) (same_elsewhere e.store key);
}

vacuum_map-keeps_example :
    IsSound trees bincode
      (vacuum_map trees bincode (elsewhere ∷ elsewhere ∷ []) written_engine "m").0.store
    × (get trees bincode
          (vacuum_map trees bincode (elsewhere ∷ elsewhere ∷ []) written_engine "m").0
          reader
          "m"
          key
        ≡ get trees bincode written_engine reader "m" key)
unfolding HashMap.get
vacuum_map-keeps_example =
    vacuum_map-keeps trees bincode (elsewhere ∷ elsewhere ∷ []) written_engine "m" reader "m" key
      written_store-IsSound refl (elsewhere-IsApart [], (elsewhere-IsApart [], tt))
      (elsewhere-IsApart (trees.scan_all (elsewhere written_engine).store "m"), tt)
