-- ===== src/Tx/Reads.antt =====
-- The reads of crates/h2-mvstore/src/tx/transaction.rs: `get` and the scans.
pub mod Agree
use h2database_rust.Prelude.{
  ℕ, zero, suc, Bool, true, false, Option, none, some, List, [], ◌∷◌, String, if◌then◌else◌,
}
use h2database_rust.Bytes.Order.{Bytes}
use h2database_rust.Tree.{Entry}
use h2database_rust.Tree.Scan.{Bound, each_entry}
use h2database_rust.Tx.VersionedValue.{VersionedValue, read_visible}
use h2database_rust.Tx.Codec.{Codec, from_bytes, read_visible_raw}
use h2database_rust.Tx.Maps.{Maps}
use h2database_rust.Tx.Engine.{
  Error, transaction, serialization, query_timeout, Result, ok, err, Transaction, Engine, is_open,
}

module _ (codec : Codec) where
  -- What a scan makes of a stored value: one that cannot be decoded is passed over.
  unfoldable pub read_full : Transaction → Bytes → Option Bytes
  read_full tx bytes = elim (from_bytes codec bytes) [
    | none ↦ none
    | some vv ↦ read_visible vv tx.tx_id tx.snapshot_version
  ]

  unfoldable pub read_fast : Transaction → Bytes → Option Bytes
  unfolding read_full
  read_fast tx bytes = elim (read_visible_raw bytes tx.tx_id tx.snapshot_version) [
    | some v ↦ some v
    | none ↦ read_full tx bytes
  ]

  -- `get`, from the bytes that the map holds under the key.
  unfoldable pub get_bytes : Transaction → Option Bytes → Result (Option Bytes)
  get_bytes tx none = ok none
  get_bytes tx (some bytes) = elim (read_visible_raw bytes tx.tx_id tx.snapshot_version) [
    | some v ↦ ok (some v)
    | none ↦ elim (from_bytes codec bytes) [
      | none ↦ err serialization
      | some vv ↦ ok (read_visible vv tx.tx_id tx.snapshot_version)
    ]
  ]

  -- The loop of a scan over the raw entries. `expired i` is what `check_query_timeout` finds at
  -- entry `i`.
  unfoldable pub visible_entries :
      (Bytes → Option Bytes) → (ℕ → Bool) → ℕ → List Entry → Result (List Entry)
  visible_entries read expired i [] = ok []
  visible_entries read expired i (entry ∷ rest) =
      let more = visible_entries read expired (suc i) rest in
      if expired i then err query_timeout else elim (read entry.value) [
        | none ↦ more
        | some v ↦ elim more [ ok found ↦ ok (record entry { value = v } ∷ found) | err x ↦ err x ]
      ]

module _ (maps : Maps) (codec : Codec) where
  open maps use {Store}

  unfoldable pub get : Engine Store → Transaction → String → Bytes → Result (Option Bytes)
  unfolding get_bytes is_open
  get e tx map_name key =
      if is_open tx.status
      then get_bytes codec tx (maps.get e.store map_name key)
      else err transaction

  unfoldable pub scan_visible :
      Engine Store → Transaction → String → (ℕ → Bool) → Result (List Entry)
  unfolding visible_entries read_full is_open
  scan_visible e tx map_name expired =
      if is_open tx.status
      then visible_entries codec (read_full codec tx) expired 0 (maps.scan_all e.store map_name)
      else err transaction

  -- The closure that is called on each visible entry changes a state `A`.
  unfoldable pub for_each_visible :
      {A : Type 0} → Engine Store → Transaction → String → (Bytes → Bytes → A → A) → A → Result A
  unfolding read_fast each_entry is_open
  for_each_visible e tx map_name f a =
      if is_open tx.status
      then ok (
          each_entry (λ k raw b. elim (read_fast codec tx raw) [ none ↦ b | some v ↦ f k v b ])
            (maps.scan_all e.store map_name) a)
      else err transaction

  unfoldable pub scan_prefix_visible :
      Engine Store → Transaction → String → Bytes → (ℕ → Bool) → Result (List Entry)
  unfolding visible_entries read_fast is_open
  scan_prefix_visible e tx map_name prefix expired =
      if is_open tx.status
      then visible_entries codec (read_fast codec tx) expired 0
          (maps.scan_prefix e.store map_name prefix)
      else err transaction

  unfoldable pub scan_range_visible :
      Engine Store → Transaction → String → Bound → Bound → (ℕ → Bool) → Result (List Entry)
  unfolding visible_entries read_fast is_open
  scan_range_visible e tx map_name start end expired =
      if is_open tx.status
      then visible_entries codec (read_fast codec tx) expired 0
          (maps.scan_range e.store map_name start end)
      else err transaction
