-- ===== src/Tests/Commits.antt =====
-- A commit of one write, and one that cannot be synced.
use h2database_rust.Prelude.{ℕ, ◌+◌, true, false, some, List, [], ◌∷◌, ◌≡◌, ◌≢◌, refl, arith}
use h2database_rust.Bytes.Order.{Bytes}
use h2database_rust.Tree.{Entry}
use h2database_rust.Tree.Entries.{lookup}
use h2database_rust.Tree.Scan.{Bound, each_entry, starts_with}
use h2database_rust.Tree.Scan.Keep.{keep}
use h2database_rust.Tree.Scan.Range.{in_range}
use h2database_rust.Tx.VersionedValue.{commit_uncommitted, active_tx_id, read_history}
use h2database_rust.Tx.Codec.{wire}
use h2database_rust.Tx.Codec.Raw.{from_bytes-to_bytes}
use h2database_rust.Tx.Codec.Bincode.{bincode}
use h2database_rust.Tx.Maps.Trees.{trees}
use h2database_rust.Tx.Engine.{ok, committed}
use h2database_rust.Tx.Reads.{
  get, scan_visible, scan_prefix_visible, scan_range_visible, for_each_visible,
}
use h2database_rust.Tx.Reads.Agree.{never, scans-agree}
use h2database_rust.Tx.Writes.{is_writer}
use h2database_rust.Tx.Writes.Undo.{IsSound}
use h2database_rust.Tx.Writes.Views.{same_place_self}
use h2database_rust.Tx.Vacuum.Entries.{scan_all-IsStored}
use h2database_rust.Tx.Commit.{
  CommitQueue, Faults, Batch, prepare, prepare_one, commit, commit_open, commit_with, flush, close,
}
use h2database_rust.Tx.Commit.Effect.{logged}
use h2database_rust.Tx.Commit.Visible.{commit-visible, commit-not_durable}
use h2database_rust.Tests.Data.{
  key, old_value, new_value, written, twice, written-bytes, twice-bytes, written_store,
  get-written_store, written_store-IsSound, written_engine, done_writer, reader,
}

abbrev all_well : Faults
all_well = record {
  appended = true;
  truncated = true;
  synced = true;
  sync_truncated = true;
  listener_took = true;
}

abbrev alone : Batch trees.Store
alone = record { joined = []; meanwhile = λ e. e }

abbrev queue : CommitQueue
queue = record { pending = []; poisoned = false }

one_change :
    prepare trees bincode written_store 1 6 done_writer.undo_log
    ≡ some (record { map_name = "m"; key = key; value = some (wire twice) } ∷ [])
unfolding prepare prepare_one is_writer commit_uncommitted active_tx_id
one_change = ground (
  arith,
  get-written_store,
  from_bytes-to_bytes bincode written (wire written) written-bytes,
  twice-bytes,
)

commit_run : (commit trees bincode all_well alone written_engine queue done_writer).1.2 ≡ ok tt
unfolding commit commit_open commit_with flush close
commit_run = ground (arith, one_change)

key_logged : logged done_writer.undo_log "m" key ≡ true
unfolding logged
key_logged = ground (arith, same_place_self "m" key)

commit-visible_example :
    (get trees bincode
        (commit trees bincode all_well alone written_engine queue done_writer).1.0
        reader
        "m"
        key
      ≡ ok (some old_value))
    × ((commit trees bincode all_well alone written_engine queue done_writer).1.0.version ≡ 6)
    × ((commit trees bincode all_well alone written_engine queue done_writer).1.1.status
        ≡ committed)
unfolding read_history
commit-visible_example =
    commit-visible trees bincode all_well alone written_engine queue done_writer reader "m" key
      (wire written) written (record { tx_id = 1; value = some new_value }) refl refl refl refl
      key_logged get-written_store written-bytes refl refl (omega arith) (λ d. refl) commit_run

commit-not_durable_example :
    ((commit trees bincode
        (record all_well { synced = false })
        alone
        written_engine
        queue
        done_writer).1.2
      ≢ ok tt)
    × IsSound trees bincode
        (commit trees bincode
          (record all_well { synced = false })
          alone
          written_engine
          queue
          done_writer).1.0.store
    × (get trees bincode
          (commit trees bincode
            (record all_well { synced = false })
            alone
            written_engine
            queue
            done_writer).1.0
          reader
          "m"
          key
        ≡ get trees bincode written_engine reader "m" key)
commit-not_durable_example =
    commit-not_durable trees bincode (record all_well { synced = false }) alone written_engine queue
      done_writer reader (record { map_name = "m"; key = key }) [] "m" key refl refl refl
      (λ d. refl) written_store-IsSound (λ e. absurd (omega (arith, e)))

scans-agree_example :
    (l : List Entry) × (scan_visible trees bincode written_engine reader "m" never ≡ ok l)
    × ((k : Bytes) → get trees bincode written_engine reader "m" k ≡ ok (lookup l k))
    × ((p : Bytes)
        → scan_prefix_visible trees bincode written_engine reader "m" p never
          ≡ ok (keep (λ k. starts_with k p) l))
    × ((start end : Bound)
        → scan_range_visible trees bincode written_engine reader "m" start end never
          ≡ ok (keep (in_range start end) l))
    × (for_each_visible trees bincode written_engine reader "m" (λ k v n. n + 1) 0
        ≡ ok (each_entry (λ k v n. n + 1) l 0))
scans-agree_example =
    scans-agree {A = ℕ} trees bincode written_engine reader "m" (λ k v n. n + 1) 0 refl
      (scan_all-IsStored trees bincode written_store "m" written_store-IsSound)
