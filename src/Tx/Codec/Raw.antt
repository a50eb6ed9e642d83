-- ===== src/Tx/Codec/Raw.antt =====
-- The fast path agrees with the full read.
use h2database_rust.Prelude.{
  ℕ, zero, suc, ◌+◌, ◌<◌, ◌≡◌, ◌≢◌, ap, sym, ◌∙◌, Option, none, some, List, [], ◌∷◌, ◌++◌, arith,
  leb, if◌then◌else◌, length, length-append, take, drop, get_elem?, take-append_self,
  drop-append_self, take_of_length-le, take_len, drop_len, drop-drop,
}
use mathlib.Core.Path.{subst}
use mathlib.Core.List.{append_assoc, append-nil}
use h2database_rust.Bytes.Order.{Bytes}
use h2database_rust.Tx.VersionedValue.{
  VersionRecord, UncommittedRecord, VersionedValue, read_visible, read_history,
}
use h2database_rust.Tx.Codec.{
  Codec, le_bytes, from_le_bytes, from_le_bytes-le_bytes, length-le_bytes, wire, wire_records,
  read_visible_raw, to_bytes, from_bytes, u64_limit, FitsRecords,
}

get_elem?-drop {ℓ} :
    {A : Type ℓ} (n : ℕ) (xs : List A) (x : A) (ys : List A)
    → drop n xs ≡ x ∷ ys
    → get_elem? xs n ≡ some x
get_elem?-drop zero xs x ys h = rw h
get_elem?-drop (suc n) [] x ys h = absurd (cc)
get_elem?-drop (suc n) (z ∷ xs) x ys h = get_elem?-drop n xs x ys h

raw_value :
    (head value version v : Bytes) (reader s : ℕ)
    → length head ≡ 8
    → length value ≡ 8
    → length version ≡ 8
    → from_le_bytes head ≡ 1
    → from_le_bytes value ≡ length v
    → read_visible_raw (0 ∷ (head ++ (1 ∷ (value ++ (v ++ version))))) reader s
      ≡ (if leb (from_le_bytes version) s then some v else none)
unfolding read_visible_raw
raw_value head value version v reader s h8 v8 c8 one len =
    rw (read_visible_raw, e1, e2, e3, len, e4, e5) (ground (arith, size, tag, one))
  where
    rest : Bytes
    rest = v ++ version

    all : Bytes
    all = 0 ∷ (head ++ (1 ∷ (value ++ rest)))

    e1 : take 8 (drop 1 all) ≡ head
    e1 = take_len 8 head (1 ∷ (value ++ rest)) h8

    d9 : drop 9 all ≡ 1 ∷ (value ++ rest)
    d9 = drop_len 8 head (1 ∷ (value ++ rest)) h8

    d10 : drop 10 all ≡ value ++ rest
    d10 = sym (drop-drop 9 1 all) ∙ ap (drop 1) d9

    e2 : take 8 (drop 10 all) ≡ value
    e2 = ap (take 8) d10 ∙ take_len 8 value rest v8

    e3 : drop 18 all ≡ rest
    e3 = sym (drop-drop 10 8 all) ∙ ap (drop 8) d10 ∙ drop_len 8 value rest v8

    e4 : take 8 (drop (length v) rest) ≡ version
    e4 = ap (take 8) (drop-append_self v version) ∙ take_of_length-le 8 version (omega arith)

    e5 : take (length v) rest ≡ v
    e5 = take-append_self v version

    tag : get_elem? (head ++ (1 ∷ (value ++ rest))) 8 ≡ some 1
    tag = get_elem?-drop 8 (head ++ (1 ∷ (value ++ rest))) 1 (value ++ rest) d9

    size : length (head ++ (1 ∷ (value ++ rest))) ≡ 25 + length v
    size = omega (
      arith,
      length-append head (1 ∷ (value ++ rest)),
      length-append value rest,
      length-append v version,
    )

-- Any other number of versions, or a deleted one, is left to the full read.
raw_other :
    (head rest : Bytes) (reader s : ℕ)
    → length head ≡ 8
    → from_le_bytes head ≢ 1
    → read_visible_raw (0 ∷ (head ++ rest)) reader s ≡ none
unfolding read_visible_raw
raw_other head rest reader s h8 other =
    let e1 : take 8 (drop 1 (0 ∷ (head ++ rest))) ≡ head = take_len 8 head rest h8 in
    rw (read_visible_raw, e1) (ground arith)

raw_deleted :
    (head rest : Bytes) (reader s : ℕ)
    → length head ≡ 8
    → read_visible_raw (0 ∷ (head ++ (0 ∷ rest))) reader s ≡ none
unfolding read_visible_raw
raw_deleted head rest reader s h8 =
    let tag : get_elem? (head ++ (0 ∷ rest)) 8 ≡ some 0 =
      get_elem?-drop 8 (head ++ (0 ∷ rest)) 0 rest (drop_len 8 head (0 ∷ rest) h8) in
    ground (arith, tag)

raw_uncommitted : (rest : Bytes) (reader s : ℕ) → read_visible_raw (1 ∷ rest) reader s ≡ none
unfolding read_visible_raw
raw_uncommitted rest reader s = ground arith

raw_format :
    (u : Option UncommittedRecord) (h : List VersionRecord) (reader s : ℕ) (v : Bytes)
    → length h < u64_limit
    → FitsRecords h
    → read_visible_raw (wire (record { uncommitted = u; committed_history = h })) reader s ≡ some v
    → read_visible (record { uncommitted = u; committed_history = h }) reader s ≡ some v
unfolding wire read_visible read_history
raw_format (some u) h reader s v n f e =
    let gone : read_visible_raw (wire (record { uncommitted = some u; committed_history = h }))
          reader s
        ≡ none =
      raw_uncommitted _ reader s in
    absurd (cc)
raw_format none [] reader s v n f e =
    let gone : read_visible_raw (wire (record { uncommitted = none; committed_history = [] }))
          reader s
        ≡ none =
      raw_other (le_bytes 8 0) [] reader s (length-le_bytes 8 0)
        (λ p. absurd (omega (arith, from_le_bytes-le_bytes 8 0 (omega arith)))) in
    absurd (cc)
raw_format none (r ∷ q ∷ h) reader s v n f e =
    let size = length (r ∷ q ∷ h) in
    let gone : read_visible_raw
          (wire (record { uncommitted = none; committed_history = r ∷ q ∷ h })) reader s
        ≡ none =
      raw_other (le_bytes 8 size) (wire_records (r ∷ q ∷ h)) reader s (length-le_bytes 8 size)
        (λ p. absurd (omega (arith, from_le_bytes-le_bytes 8 size n))) in
    absurd (cc)
raw_format none (r ∷ []) reader s v n f e = one_version r.value r.commit_version f e
  where
    one_version :
        (o : Option Bytes) (c : ℕ)
        → FitsRecords (record { value = o; commit_version = c } ∷ [])
        → read_visible_raw
            (wire (record {
              uncommitted = none;
              committed_history = record { value = o; commit_version = c } ∷ [];
            }))
            reader
            s
          ≡ some v
        → (if leb c s then o else none) ≡ some v
    one_version none c g k = absurd (
        ground
          (arith, raw_deleted (le_bytes 8 1) (le_bytes 8 c ++ []) reader s (length-le_bytes 8 1)))
    one_version (some w) c g k =
        let shape : (1 ∷ (le_bytes 8 (length w) ++ w)) ++ le_bytes 8 c ++ []
            ≡ 1 ∷ (le_bytes 8 (length w) ++ (w ++ le_bytes 8 c)) =
          simp (append_assoc, append-nil) in
        let read =
          raw_value (le_bytes 8 1) (le_bytes 8 (length w)) (le_bytes 8 c) w reader s
            (length-le_bytes 8 1) (length-le_bytes 8 (length w)) (length-le_bytes 8 c)
            (from_le_bytes-le_bytes 8 1 (omega arith)) (from_le_bytes-le_bytes 8 (length w) g.0) in
        let version : from_le_bytes (le_bytes 8 c) ≡ c = from_le_bytes-le_bytes 8 c g.1 in
        subst (λ x. (if leb x s then some w else none) ≡ some v) version
          (sym read
            ∙ (subst (λ x. read_visible_raw (0 ∷ (le_bytes 8 1 ++ x)) reader s ≡ some v) shape k))

-- What the fast path returns of stored bytes is what the full read returns.
pub read_visible_raw-read_visible :
    (codec : Codec) (vv : VersionedValue) (bytes : Bytes) (reader s : ℕ) (v : Bytes)
    → to_bytes codec vv ≡ some bytes
    → read_visible_raw bytes reader s ≡ some v
    → read_visible vv reader s ≡ some v
unfolding to_bytes
read_visible_raw-read_visible codec vv bytes reader s v e h =
    let (format, fits) = codec.serialize_format vv bytes e in
    raw_format vv.uncommitted vv.committed_history reader s v fits.versions fits.history
      (subst (λ b. read_visible_raw b reader s ≡ some v) format h)

wire-ne-nil :
    (u : Option UncommittedRecord) (h : List VersionRecord)
    → wire (record { uncommitted = u; committed_history = h }) ≢ []
unfolding wire
wire-ne-nil none h = λ e. cc
wire-ne-nil (some u) h = λ e. cc

-- The full read of stored bytes gets back the value that was stored.
pub from_bytes-to_bytes :
    (codec : Codec) (vv : VersionedValue) (bytes : Bytes)
    → to_bytes codec vv ≡ some bytes
    → from_bytes codec bytes ≡ some vv
unfolding to_bytes from_bytes
from_bytes-to_bytes codec vv [] e =
    absurd
      (wire-ne-nil vv.uncommitted vv.committed_history (sym (codec.serialize_format vv [] e).0))
from_bytes-to_bytes codec vv (b ∷ bytes) e = codec.deserialize-serialize vv (b ∷ bytes) e
