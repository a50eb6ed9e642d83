-- ===== src/Wal.antt =====
-- crates/h2-mvstore/src/wal.rs: the write-ahead log, a file of records that are framed by their
-- length and checksum. bincode and crc32fast are a parameter (`WalCodec`), and the file's contents
-- are the state. A failing disk is not modelled here; a file that ends in the middle of a record is.
pub mod Recovery
use h2database_rust.Prelude.{
  ℕ, zero, suc, ◌+◌, ◌-◌, ◌<◌, ◌^◌, ◌%◌, Bool, true, false, Option, none, some, List, [], ◌∷◌, ◌++◌,
  ltb, ◌==◌, if◌then◌else◌, length, take, drop, ◌≡◌,
}
use h2database_rust.Bytes.Order.{Bytes}
use h2database_rust.Tx.Codec.{le_bytes, from_le_bytes}

-- What the code relies on: what bincode writes it reads back, and the checksum is a `u32`.
pub record WalCodec (R : Type 0) : Type 0 where
  pub serialize : R → Option Bytes
  pub deserialize : Bytes → Option R
  pub crc32 : Bytes → ℕ
  pub deserialize-serialize : (r : R) (b : Bytes) → serialize r ≡ some b → deserialize b ≡ some r
  pub crc32_bound : (b : Bytes) → crc32 b < 256 ^ 4

-- `file` is `none` in memory.
pub record WalManager : Type 0 where
  pub file : Option Bytes
  pub sync_on_commit : Bool

module _ {R : Type 0} (codec : WalCodec R) where
  -- The length is cut to a `u32`.
  unfoldable pub frame : Bytes → Bytes
  unfolding le_bytes
  frame payload_bytes =
      le_bytes 4 (length payload_bytes % 256 ^ 4)
      ++ (le_bytes 4 (codec.crc32 payload_bytes) ++ payload_bytes)

  -- `none` is an error of bincode.
  unfoldable pub append_unsynced : WalManager → R → Option WalManager
  unfolding frame
  append_unsynced w record_ = elim w.file [
    | none ↦ some w
    | some file ↦ elim (codec.serialize record_) [
      | none ↦ none
      | some payload_bytes ↦ some (record w { file = some (file ++ frame payload_bytes) })
    ]
  ]

  -- One round of the loop of `read_all_records`: the record and what is left of the file, or the
  -- end of the loop.
  unfoldable pub read_record : Bytes → Option (R × Bytes)
  unfolding from_le_bytes
  read_record file =
      let len = from_le_bytes (take 4 file) in
      let expected_crc = from_le_bytes (take 4 (drop 4 file)) in
      let payload = take len (drop 8 file) in
      if ltb (length file) 8
      then none
      else if ltb (length (drop 8 file)) len
      then none
      else if codec.crc32 payload == expected_crc
      then elim (codec.deserialize payload) [
        | none ↦ none
        | some record_ ↦ some (record_, drop len (drop 8 file))
      ]
      else none

  -- The records, and what is left of the file after the last of them. Each record takes 8 bytes or
  -- more, so as many rounds as the file has bytes are enough.
  unfoldable pub read_records : ℕ → Bytes → List R × Bytes
  unfolding read_record
  read_records zero file = ([], file)
  read_records (suc fuel) file = elim (read_record file) [
    | none ↦ ([], file)
    | some (record_, rest) ↦
        let (records, left) = read_records fuel rest in (record_ ∷ records, left)
  ]

  -- The file is cut after the last record that was read.
  unfoldable pub read_all_records : WalManager → WalManager × List R
  unfolding read_records
  read_all_records w = elim w.file [
    | none ↦ (w, [])
    | some file ↦
        let (records, left) = read_records (length file) file in
        (record w { file = some (take (length file - length left) file) }, records)
  ]

unfoldable pub truncate_to : WalManager → ℕ → WalManager
truncate_to w len = elim w.file [ none ↦ w | some file ↦ record w { file = some (take len file) } ]

unfoldable pub clear : WalManager → WalManager
clear w = elim w.file [ none ↦ w | some _ ↦ record w { file = some [] } ]

unfoldable pub len : WalManager → ℕ
len w = elim w.file [ none ↦ 0 | some file ↦ length file ]
