-- ===== src/Tests/Versions.antt =====
-- Versioned values and their stored form.
use h2database_rust.Prelude.{none, some, [], ◌∷◌, ◌≡◌, refl}
use h2database_rust.Tx.VersionedValue.{VersionedValue, read_visible}
use h2database_rust.Tx.Codec.{wire, read_visible_raw, from_le_bytes, le_bytes}
use h2database_rust.Tx.Codec.Raw.{read_visible_raw-read_visible}
use h2database_rust.Tx.Codec.Bincode.{bincode}
use h2database_rust.Tests.Data.{old_value, stored, stored-bytes}

abbrev deleted : VersionedValue
deleted = record {
  uncommitted = none;
  committed_history = record { value = none; commit_version = 4 } ∷ [];
}

read_visible_raw-read_visible_example : read_visible stored 2 5 ≡ some old_value
unfolding read_visible_raw from_le_bytes wire le_bytes
read_visible_raw-read_visible_example =
    read_visible_raw-read_visible bincode stored (wire stored) 2 5 old_value stored-bytes refl
