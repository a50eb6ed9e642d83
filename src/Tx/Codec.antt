-- ===== src/Tx/Codec.antt =====
-- The stored form of a versioned value. `to_bytes` and `from_bytes` of
-- crates/h2-mvstore/src/tx/versioned_value.rs call bincode, which is a parameter here (`Codec`) with
-- the format that bincode documents: integers of a fixed width with the low byte first, a byte for
-- the variant of an option, a length before a sequence.
pub mod Raw
pub mod Bincode
use h2database_rust.Prelude.{
  ℕ, zero, suc, ◌+◌, ◌-◌, ◌*◌, ◌/◌, ◌%◌, ◌^◌, ◌≤◌, ◌<◌, ◌≡◌, ◌≢◌, refl, ap, Bool, true, false, ◌&&◌,
  Option, none, some, List, [], ◌∷◌, ◌++◌, arith, ltb, leb, ◌==◌, if◌then◌else◌, length, take, drop,
  get_elem?,
}
use native.Mathlib.Nat.{pow-suc}
use mathlib.Core.Path.{subst}
use h2database_rust.Bytes.Order.{Bytes}
use h2database_rust.Tx.VersionedValue.{VersionRecord, UncommittedRecord, VersionedValue}

-- An integer of `k` bytes, low byte first.
unfoldable pub le_bytes : ℕ → ℕ → Bytes
le_bytes zero n = []
le_bytes (suc k) n = n % 256 ∷ le_bytes k (n / 256)

unfoldable pub from_le_bytes : Bytes → ℕ
from_le_bytes [] = 0
from_le_bytes (b ∷ bs) = b + 256 * from_le_bytes bs

pub from_le_bytes-le_bytes : (k n : ℕ) → n < 256 ^ k → from_le_bytes (le_bytes k n) ≡ n
unfolding le_bytes from_le_bytes
from_le_bytes-le_bytes zero n h = omega arith
from_le_bytes-le_bytes (suc k) n h =
    let bound : n < 256 ^ k * 256 = subst (λ m. n < m) (pow-suc 256 k) h in
    omega (arith, from_le_bytes-le_bytes k (n / 256) (omega arith))

pub length-le_bytes : (k n : ℕ) → length (le_bytes k n) ≡ k
unfolding le_bytes
length-le_bytes zero n = refl
length-le_bytes (suc k) n = ap suc (length-le_bytes k (n / 256))

-- The documented format.
unfoldable pub wire_value : Option Bytes → Bytes
wire_value none = 0 ∷ []
wire_value (some v) = 1 ∷ (le_bytes 8 (length v) ++ v)

unfoldable pub wire_record : VersionRecord → Bytes
wire_record r = wire_value r.value ++ le_bytes 8 r.commit_version

unfoldable pub wire_records : List VersionRecord → Bytes
wire_records [] = []
wire_records (r ∷ rs) = wire_record r ++ wire_records rs

unfoldable pub wire_uncommitted : Option UncommittedRecord → Bytes
wire_uncommitted none = 0 ∷ []
wire_uncommitted (some u) = 1 ∷ (le_bytes 8 u.tx_id ++ wire_value u.value)

unfoldable pub wire : VersionedValue → Bytes
unfolding wire_uncommitted wire_records wire_record wire_value
wire vv =
    wire_uncommitted vv.uncommitted
    ++ (le_bytes 8 (length vv.committed_history) ++ wire_records vv.committed_history)

-- Every number of the value fits its `u64`.
abbrev pub u64_limit : ℕ
u64_limit = 256 ^ 8

abbrev pub FitsValue : Option Bytes → Type 0
FitsValue none = Unit
FitsValue (some v) = length v < u64_limit

abbrev pub FitsRecords : List VersionRecord → Type 0
FitsRecords [] = Unit
FitsRecords (r ∷ rs) = FitsValue r.value × (r.commit_version < u64_limit) × FitsRecords rs

abbrev pub FitsUncommitted : Option UncommittedRecord → Type 0
FitsUncommitted none = Unit
FitsUncommitted (some u) = (u.tx_id < u64_limit) × FitsValue u.value

pub record Fits (vv : VersionedValue) : Type 0 where
  pub uncommitted : FitsUncommitted vv.uncommitted
  pub versions : length vv.committed_history < u64_limit
  pub history : FitsRecords vv.committed_history

-- What the code relies on of bincode: what it writes it reads back, in the documented format, and
-- it only writes numbers that fit.
pub record Codec : Type 0 where
  pub serialize : VersionedValue → Option Bytes
  pub deserialize : Bytes → Option VersionedValue
  pub deserialize-serialize :
      (vv : VersionedValue) (b : Bytes) → serialize vv ≡ some b → deserialize b ≡ some vv
  pub serialize_format :
      (vv : VersionedValue) (b : Bytes) → serialize vv ≡ some b → (b ≡ wire vv) × Fits vv

module _ (codec : Codec) where
  -- `none` is `H2Error::Serialization`.
  unfoldable pub to_bytes : VersionedValue → Option Bytes
  to_bytes vv = codec.serialize vv

  unfoldable pub from_bytes : Bytes → Option VersionedValue
  from_bytes [] = none
  from_bytes (b ∷ bytes) = codec.deserialize (b ∷ bytes)

abbrev pub byte_is : Bytes → ℕ → ℕ → Bool
byte_is bytes i b = elim (get_elem? bytes i) [ none ↦ false | some x ↦ x == b ]

-- The fast path reads a value with one committed version straight from its bytes. The sums of the
-- source do not overflow on bytes that `to_bytes` has written.
unfoldable pub read_visible_raw : Bytes → ℕ → ℕ → Option Bytes
unfolding from_le_bytes
read_visible_raw bytes reader_tx_id snapshot_version =
    let hist_len = from_le_bytes (take 8 (drop 1 bytes)) in
    let val_len = from_le_bytes (take 8 (drop 10 bytes)) in
    let commit_ver = from_le_bytes (take 8 (drop val_len (drop 18 bytes))) in
    if leb 26 (length bytes) && byte_is bytes 0 0
    then if hist_len == 1 && byte_is bytes 9 1
      then if length bytes == 18 + val_len + 8
        then if leb commit_ver snapshot_version then some (take val_len (drop 18 bytes)) else none
        else none
      else none
    else none
