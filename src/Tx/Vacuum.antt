-- ===== src/Tx/Vacuum.antt =====
-- `vacuum_map` of crates/h2-mvstore/src/tx/store.rs.
pub mod Entries
pub mod Keeps
use h2database_rust.Prelude.{
  ℕ, zero, suc, ◌+◌, Bool, true, false, Option, none, some, List, [], ◌∷◌, String, if◌then◌else◌,
}
use h2database_rust.Bytes.Order.{Bytes}
use h2database_rust.Tree.{Entry}
use h2database_rust.Tx.VersionedValue.{VersionedValue, is_dead, prune_old_versions}
use h2database_rust.Tx.Codec.{Codec, to_bytes, from_bytes}
use h2database_rust.Tx.Maps.{Maps}
use h2database_rust.Tx.Engine.{Error, serialization, Result, ok, err, Engine, oldest_active_version}

module _ (maps : Maps) (codec : Codec) where
  open maps use {Store}

  -- One entry: the store, and how many dead values were removed; `none` is a failed `to_bytes`.
  unfoldable pub vacuum_entry : Store → String → ℕ → Entry → Option (Store × ℕ)
  unfolding is_dead prune_old_versions
  vacuum_entry s map_name horizon_version entry = elim (from_bytes codec entry.value) [
    | none ↦ some (s, 0)
    | some vv ↦
        if is_dead vv horizon_version
        then some (maps.remove s map_name entry.key, 1)
        else let (pruned, changed) = prune_old_versions vv horizon_version in
          if changed
          then elim (to_bytes codec pruned) [
            | none ↦ none
            | some new_bytes ↦ some (maps.put s map_name entry.key new_bytes, 0)
          ]
          else some (s, 0)
  ]

  -- What other threads do before the next step, and the steps after that.
  abbrev pub after_others : List (Engine Store → Engine Store) → Engine Store → Engine Store
  after_others [] e = e
  after_others (f ∷ others) e = f e

  abbrev pub later : List (Engine Store → Engine Store) → List (Engine Store → Engine Store)
  later [] = []
  later (f ∷ others) = others

  -- The entries are those of the scan; other threads may change the store before each of them.
  unfoldable pub vacuum_entries :
      List (Engine Store → Engine Store)
      → Engine Store
      → String
      → ℕ
      → ℕ
      → List Entry
      → Engine Store × Result ℕ
  unfolding vacuum_entry
  vacuum_entries others e map_name horizon_version pruned_count [] = (e, ok pruned_count)
  vacuum_entries others e map_name horizon_version pruned_count (entry ∷ entries) =
      let e1 = after_others others e in
      elim (vacuum_entry e1.store map_name horizon_version entry) [
        | none ↦ (e1, err serialization)
        | some (s, n) ↦
            vacuum_entries (later others) (record e1 { store = s }) map_name horizon_version
              (pruned_count + n) entries
      ]

  -- No lock is held: `others` is what other threads do between the choice of the horizon and the
  -- scan, and then before each entry.
  unfoldable pub vacuum_map :
      List (Engine Store → Engine Store) → Engine Store → String → Engine Store × Result ℕ
  unfolding vacuum_entries oldest_active_version
  vacuum_map others e map_name =
      let e1 = after_others others e in
      vacuum_entries (later others) e1 map_name (oldest_active_version e) 0
        (maps.scan_all e1.store map_name)
