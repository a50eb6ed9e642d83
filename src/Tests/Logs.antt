-- ===== src/Tests/Logs.antt =====
-- A log of two records, and a third that was cut off.
use mathlib.Core.Path.{subst}
use h2database_rust.Prelude.{
  ℕ, ◌<◌, ◌^◌, true, Option, none, some, [], ◌∷◌, ◌++◌, take, ◌≡◌, refl, arith, length,
}
use h2database_rust.Bytes.Order.{Bytes}
use h2database_rust.Tx.Codec.{le_bytes}
use h2database_rust.Wal.{WalCodec, frame, append_unsynced, read_all_records}
use h2database_rust.Wal.Recovery.{append_all, FitsFrame, read_all_records-recovers}

byte : Bytes → Option ℕ
byte [] = none
byte (n ∷ _) = some n

codec : WalCodec ℕ
unfolding byte
codec = record {
  serialize = λ n. some (n ∷ []);
  deserialize = byte;
  crc32 = λ b. 7;
  deserialize-serialize = λ n b e. let q : n ∷ [] ≡ b = cc in subst (λ x. byte x ≡ some n) q refl;
  crc32_bound = λ b. omega arith;
}

abbrev log : Bytes
log = frame codec (1 ∷ []) ++ frame codec (2 ∷ [])

log_run :
    append_all codec (record { file = some []; sync_on_commit = true }) (1 ∷ 2 ∷ [])
    ≡ some (record { file = some log; sync_on_commit = true })
unfolding append_all append_unsynced codec frame le_bytes
log_run = refl

FitsFrame-byte : (n : ℕ) → FitsFrame codec n
unfolding codec
FitsFrame-byte n p e = let q : n ∷ [] ≡ p = cc in subst (λ x. length x < 256 ^ 4) q (omega arith)

read_all_records-recovers_example :
    read_all_records codec
      (record { file = some (log ++ take 5 (frame codec (3 ∷ []))); sync_on_commit = true })
    ≡ (record { file = some log; sync_on_commit = true }, 1 ∷ 2 ∷ [])
unfolding codec frame le_bytes
read_all_records-recovers_example =
    read_all_records-recovers codec (1 ∷ 2 ∷ []) 3 log (3 ∷ []) 5 true log_run
      (FitsFrame-byte 1, (FitsFrame-byte 2, tt)) refl (omega arith) (omega arith)
