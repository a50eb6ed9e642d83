-- ===== src/Tx/Codec/Bincode.antt =====
-- A concrete codec in the documented format: the assumptions on bincode can be met.
use mathlib.Core.Path.{subst}
use mathlib.Core.List.{append_assoc, append-nil}
use native.Mathlib.Decide.{dec_lt}
use h2database_rust.Prelude.{
  ℕ, zero, suc, ◌<◌, ◌≡◌, refl, Option, none, some, List, [], ◌∷◌, ◌++◌, arith, leb, ◌==◌,
  if◌then◌else◌, length, length-append, take, drop, take-append_self, drop-append_self, take_len,
  drop_len,
}
use h2database_rust.Bytes.Order.{Bytes}
use h2database_rust.Tx.VersionedValue.{VersionRecord, UncommittedRecord, VersionedValue}
use h2database_rust.Tx.Codec.{
  Codec, le_bytes, from_le_bytes, from_le_bytes-le_bytes, length-le_bytes, wire, wire_value,
  wire_record, wire_records, wire_uncommitted, Fits, FitsValue, FitsRecords, FitsUncommitted,
  u64_limit,
}

infixl 5 ◌>>=◌
abbrev ◌>>=◌ : {A B : Type 0} → Option A → (A → Option B) → Option B
none >>= f = none
some a >>= f = f a

abbrev Parsed : Type 0 → Type 0
Parsed A = Option (A × Bytes)

parse_u64 : Bytes → Parsed ℕ
unfolding from_le_bytes
parse_u64 b = if leb 8 (length b) then some (from_le_bytes (take 8 b), drop 8 b) else none

parse_bytes : Bytes → Parsed Bytes
unfolding parse_u64
parse_bytes b = do
  (n, rest) ← parse_u64 b
  if leb n (length rest) then some (take n rest, drop n rest) else none

parse_value : Bytes → Parsed (Option Bytes)
unfolding parse_bytes
parse_value [] = none
parse_value (tag ∷ b) =
    if tag == 0
    then some (none, b)
    else if tag == 1
    then (do (v, rest) ← parse_bytes b; some (some v, rest))
    else none

parse_record : Bytes → Parsed VersionRecord
unfolding parse_value parse_u64
parse_record b = do
  (v, rest) ← parse_value b
  (c, rest') ← parse_u64 rest
  some (record { value = v; commit_version = c }, rest')

parse_records : ℕ → Bytes → Parsed (List VersionRecord)
unfolding parse_record
parse_records zero b = some ([], b)
parse_records (suc n) b = do
  (r, rest) ← parse_record b
  (rs, rest') ← parse_records n rest
  some (r ∷ rs, rest')

parse_uncommitted : Bytes → Parsed (Option UncommittedRecord)
unfolding parse_value parse_u64
parse_uncommitted [] = none
parse_uncommitted (tag ∷ b) =
    if tag == 0
    then some (none, b)
    else if tag == 1
    then (do
      (tx, rest) ← parse_u64 b
      (v, rest') ← parse_value rest
      some (some (record { tx_id = tx; value = v }), rest'))
    else none

unfoldable pub parse : Bytes → Option VersionedValue
unfolding parse_uncommitted parse_u64 parse_records
parse b = do
  (u, rest) ← parse_uncommitted b
  (n, rest') ← parse_u64 rest
  (h, rest'') ← parse_records n rest'
  some (record { uncommitted = u; committed_history = h })

parse_u64-le_bytes :
    (n : ℕ) (rest : Bytes) → n < u64_limit → parse_u64 (le_bytes 8 n ++ rest) ≡ some (n, rest)
unfolding parse_u64
parse_u64-le_bytes n rest h = ground (
  arith,
  length-append (le_bytes 8 n) rest,
  length-le_bytes 8 n,
  take_len 8 (le_bytes 8 n) rest (length-le_bytes 8 n),
  drop_len 8 (le_bytes 8 n) rest (length-le_bytes 8 n),
  from_le_bytes-le_bytes 8 n h,
)

parse_value-wire :
    (o : Option Bytes) (rest : Bytes)
    → FitsValue o
    → parse_value (wire_value o ++ rest) ≡ some (o, rest)
unfolding parse_value parse_bytes wire_value
parse_value-wire none rest f = refl
parse_value-wire (some v) rest f =
    rw (append_assoc, parse_u64-le_bytes (length v) (v ++ rest) f)
      (ground (arith, length-append v rest, take-append_self v rest, drop-append_self v rest))

parse_record-wire :
    (r : VersionRecord) (rest : Bytes)
    → FitsValue r.value
    → r.commit_version < u64_limit
    → parse_record (wire_record r ++ rest) ≡ some (r, rest)
unfolding parse_record wire_record
parse_record-wire r rest f c = rw (
  append_assoc,
  parse_value-wire r.value (le_bytes 8 r.commit_version ++ rest) f,
  parse_u64-le_bytes r.commit_version rest c,
)

parse_records-wire :
    (h : List VersionRecord) (rest : Bytes)
    → FitsRecords h
    → parse_records (length h) (wire_records h ++ rest) ≡ some (h, rest)
unfolding parse_records wire_records
parse_records-wire [] rest f = refl
parse_records-wire (r ∷ h) rest f = rw (
  append_assoc,
  parse_record-wire r (wire_records h ++ rest) f.0 f.1,
  parse_records-wire h rest f.2,
)

parse_uncommitted-wire :
    (u : Option UncommittedRecord) (rest : Bytes)
    → FitsUncommitted u
    → parse_uncommitted (wire_uncommitted u ++ rest) ≡ some (u, rest)
unfolding parse_uncommitted wire_uncommitted
parse_uncommitted-wire none rest f = refl
parse_uncommitted-wire (some u) rest f = rw (
  append_assoc,
  parse_u64-le_bytes u.tx_id (wire_value u.value ++ rest) f.0,
  parse_value-wire u.value rest f.1,
)

parse-wire : (vv : VersionedValue) → Fits vv → parse (wire vv) ≡ some vv
unfolding parse wire
parse-wire vv f =
    let h = vv.committed_history in
    let records : parse_records (length h) (wire_records h) ≡ some (h, []) =
      subst (λ b. parse_records (length h) b ≡ some (h, [])) (append-nil (wire_records h))
        (parse_records-wire h [] f.history) in
    rw (
      parse,
      parse_uncommitted-wire vv.uncommitted (le_bytes 8 (length h) ++ wire_records h) f.uncommitted,
      parse_u64-le_bytes (length h) (wire_records h) f.versions,
      records,
    )

fits_value : (o : Option Bytes) → Dec (FitsValue o)
unfolding dec_lt
fits_value none = yes tt
fits_value (some v) = dec_lt (length v) u64_limit

both {ℓ κ} : {A : Type ℓ} {B : Type κ} → Dec A → Dec B → Dec (A × B)
both (yes a) (yes b) = yes (a, b)
both (yes a) (no b) = no (λ p. b p.1)
both (no a) _ = no (λ p. a p.0)

fits_records : (h : List VersionRecord) → Dec (FitsRecords h)
unfolding both fits_value dec_lt
fits_records [] = yes tt
fits_records (r ∷ h) =
    elim (both (both (fits_value r.value) (dec_lt r.commit_version u64_limit)) (fits_records h)) [
      | yes p ↦ yes (p.0.0, p.0.1, p.1)
      | no n ↦ no (λ f. n ((f.0, f.1), f.2))
    ]

fits_uncommitted : (u : Option UncommittedRecord) → Dec (FitsUncommitted u)
unfolding both fits_value dec_lt
fits_uncommitted none = yes tt
fits_uncommitted (some u) = both (dec_lt u.tx_id u64_limit) (fits_value u.value)

fits : (vv : VersionedValue) → Dec (Fits vv)
unfolding both fits_uncommitted fits_records dec_lt
fits vv =
    elim (both
      (both (fits_uncommitted vv.uncommitted) (dec_lt (length vv.committed_history) u64_limit))
      (fits_records vv.committed_history)) [
        | yes p ↦ yes (record { uncommitted = p.0.0; versions = p.0.1; history = p.1 })
        | no n ↦ no (λ f. n ((f.uncommitted, f.versions), f.history))
      ]

unfoldable pub serialize : VersionedValue → Option Bytes
unfolding fits wire
serialize vv = elim (fits vv) [ yes _ ↦ some (wire vv) | no _ ↦ none ]

pub serialize-fits :
    (vv : VersionedValue) (b : Bytes) → serialize vv ≡ some b → (b ≡ wire vv) × Fits vv
unfolding serialize
serialize-fits vv b e = go (fits vv) refl
  where
    go : (d : Dec (Fits vv)) → fits vv ≡ d → (b ≡ wire vv) × Fits vv
    go (yes f) p =
        let done : serialize vv ≡ some (wire vv) = rw (p, serialize) in
        let same : b ≡ wire vv = cc in (same, f)
    go (no n) p = let done : serialize vv ≡ none = rw (p, serialize) in absurd (cc)

pub serialize-wire : (vv : VersionedValue) → Fits vv → serialize vv ≡ some (wire vv)
unfolding serialize
serialize-wire vv f =
    elim (fits vv) as (λ d. elim d [ yes _ ↦ some (wire vv) | no _ ↦ none ] ≡ some (wire vv)) [
      | yes _ ↦ refl
      | no n ↦ absurd (n f)
    ]

pub parse-serialize : (vv : VersionedValue) (b : Bytes) → serialize vv ≡ some b → parse b ≡ some vv
parse-serialize vv b e = let (format, f) = serialize-fits vv b e in rw format (parse-wire vv f)

abbrev pub bincode : Codec
bincode = record {
  serialize = serialize;
  deserialize = parse;
  deserialize-serialize = parse-serialize;
  serialize_format = serialize-fits;
}
