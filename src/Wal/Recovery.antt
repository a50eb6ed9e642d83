-- ===== src/Wal/Recovery.antt =====
-- Recovery reads back what was appended, up to a record that was cut off.
use mathlib.Core.Path.{subst}
use mathlib.Core.List.{append_assoc, append-nil}
use native.Mathlib.Nat.{mod-eq_of_lt, zero-add, suc-add}
use h2database_rust.Prelude.{
  ℕ, zero, suc, ◌+◌, ◌-◌, ◌<◌, ◌≤◌, ◌^◌, ◌%◌, Bool, Option, none, some, List, [], ◌∷◌, ◌++◌, ltb,
  length, All, length-append, take, drop, take-append_self, drop-append_self, ◌≡◌, refl, ap, sym,
  ◌∙◌, arith, inl, inr, Bool-cases, Option-cases, take_len, drop_len, drop-drop,
}
use h2database_rust.Bytes.Order.{Bytes}
use h2database_rust.Tx.Codec.{le_bytes, from_le_bytes, from_le_bytes-le_bytes, length-le_bytes}
use h2database_rust.Wal.{
  WalCodec, WalManager, frame, append_unsynced, read_record, read_records, read_all_records,
}

module _ {R : Type 0} (codec : WalCodec R) where
  length-frame : (p : Bytes) → length (frame codec p) ≡ 8 + length p
  unfolding frame
  length-frame p = omega (
    arith,
    length-append (le_bytes 4 (length p % 256 ^ 4)) (le_bytes 4 (codec.crc32 p) ++ p),
    length-append (le_bytes 4 (codec.crc32 p)) p,
    length-le_bytes 4 (length p % 256 ^ 4),
    length-le_bytes 4 (codec.crc32 p),
  )

  -- The parts of a file that begins with a frame, the payload of which may be cut off.
  module _ (p body : Bytes) where
    file : Bytes
    file = le_bytes 4 (length p % 256 ^ 4) ++ (le_bytes 4 (codec.crc32 p) ++ body)

    length-file : length file ≡ 8 + length body
    unfolding file
    length-file = omega (
      arith,
      length-append (le_bytes 4 (length p % 256 ^ 4)) (le_bytes 4 (codec.crc32 p) ++ body),
      length-append (le_bytes 4 (codec.crc32 p)) body,
      length-le_bytes 4 (length p % 256 ^ 4),
      length-le_bytes 4 (codec.crc32 p),
    )

    file_len : length p < 256 ^ 4 → from_le_bytes (take 4 file) ≡ length p
    unfolding file
    file_len h =
        ap from_le_bytes (
          take_len 4 (le_bytes 4 (length p % 256 ^ 4)) (le_bytes 4 (codec.crc32 p) ++ body)
            (length-le_bytes 4 (length p % 256 ^ 4)))
        ∙ ap (λ n. from_le_bytes (le_bytes 4 n)) (mod-eq_of_lt h)
        ∙ from_le_bytes-le_bytes 4 (length p) h

    drop_len4 : drop 4 file ≡ le_bytes 4 (codec.crc32 p) ++ body
    unfolding file
    drop_len4 =
        drop_len 4 (le_bytes 4 (length p % 256 ^ 4)) (le_bytes 4 (codec.crc32 p) ++ body)
          (length-le_bytes 4 (length p % 256 ^ 4))

    file_crc : from_le_bytes (take 4 (drop 4 file)) ≡ codec.crc32 p
    file_crc =
        ap (λ x. from_le_bytes (take 4 x)) drop_len4
        ∙ ap from_le_bytes
            (take_len 4 (le_bytes 4 (codec.crc32 p)) body (length-le_bytes 4 (codec.crc32 p)))
        ∙ from_le_bytes-le_bytes 4 (codec.crc32 p) (codec.crc32_bound p)

    file_body : drop 8 file ≡ body
    file_body =
        sym (drop-drop 4 4 file)
        ∙ ap (drop 4) drop_len4
        ∙ drop_len 4 (le_bytes 4 (codec.crc32 p)) body (length-le_bytes 4 (codec.crc32 p))

  -- A frame is read back, and the rest of the file is left.
  read_record-frame :
      (r : R) (p rest : Bytes)
      → codec.serialize r ≡ some p
      → length p < 256 ^ 4
      → read_record codec (frame codec p ++ rest) ≡ some (r, rest)
  unfolding read_record frame file
  read_record-frame r p rest s h =
      let whole : frame codec p ++ rest ≡ file p (p ++ rest) = simp append_assoc in
      ap (read_record codec) whole ∙ found
    where
      found : read_record codec (file p (p ++ rest)) ≡ some (r, rest)
      found =
          let e1 = file_len p (p ++ rest) h in
          let e2 = file_crc p (p ++ rest) in
          let e3 = file_body p (p ++ rest) in
          let e4 : take (length p) (p ++ rest) ≡ p = take-append_self p rest in
          let e5 : drop (length p) (p ++ rest) ≡ rest = drop-append_self p rest in
          let e6 = codec.deserialize-serialize r p s in
          rw (read_record, e1, e2, e3, e4, e6)
            (rw (e1, e3, e5) (ground (arith, length-file p (p ++ rest), length-append p rest)))

  -- A frame whose payload is cut off ends the loop.
  read_record-torn :
      (p body : Bytes)
      → length p < 256 ^ 4
      → length body < length p
      → read_record codec (file p body) ≡ none
  unfolding read_record
  read_record-torn p body h less =
      let e1 = file_len p body h in
      let e3 = file_body p body in
      rw (read_record, e1, e3) (ground (arith, less, length-file p body))

  take_past {ℓ} :
      {A : Type ℓ} (xs ys : List A) (k : ℕ) → take (length xs + k) (xs ++ ys) ≡ xs ++ take k ys
  take_past [] ys k = rw zero-add refl
  take_past (x ∷ xs) ys k = rw suc-add (ap (◌∷◌ x) (take_past xs ys k))

  length-take {ℓ} : {A : Type ℓ} (k : ℕ) (xs : List A) → k ≤ length xs → length (take k xs) ≡ k
  length-take zero xs h = refl
  length-take (suc k) [] h = absurd (omega (arith, h))
  length-take (suc k) (x ∷ xs) h = ap suc (length-take k xs (omega (arith, h)))

  -- A record that was cut off anywhere ends the loop.
  read_record-cut :
      (p : Bytes) (k : ℕ)
      → length p < 256 ^ 4
      → k < length (frame codec p)
      → read_record codec (take k (frame codec p)) ≡ none
  unfolding read_record frame file
  read_record-cut p k h less = elim (Bool-cases (ltb k 8)) [
    | inl short ↦ ground (arith, short, length-take k (frame codec p) (omega (arith, less)))
    | inr long ↦
        let j = k - 8 in
        let at : k ≡ 8 + j = ground (arith, long) in
        ap (λ n. read_record codec (take n (frame codec p))) at
        ∙ ap (read_record codec) (cut j)
        ∙ read_record-torn p (take j p) h (
            omega (
              arith,
              at,
              less,
              length-frame p,
              length-take j p (omega (arith, at, less, length-frame p)),
            ))
  ]
    where
      cut : (j : ℕ) → take (8 + j) (frame codec p) ≡ file p (take j p)
      cut j =
          let head = le_bytes 4 (length p % 256 ^ 4) ++ le_bytes 4 (codec.crc32 p) in
          let eight : length head ≡ 8 = omega (
            arith,
            length-append (le_bytes 4 (length p % 256 ^ 4)) (le_bytes 4 (codec.crc32 p)),
            length-le_bytes 4 (length p % 256 ^ 4),
            length-le_bytes 4 (codec.crc32 p),
          ) in
          let whole : frame codec p ≡ head ++ p =
            sym (append_assoc (le_bytes 4 (length p % 256 ^ 4)) (le_bytes 4 (codec.crc32 p)) p) in
          let short : head ++ take j p ≡ file p (take j p) =
            append_assoc (le_bytes 4 (length p % 256 ^ 4)) (le_bytes 4 (codec.crc32 p))
              (take j p) in
          ap (take (8 + j)) whole
          ∙ subst (λ n. take (n + j) (head ++ p) ≡ head ++ take j p) eight (take_past head p j)
          ∙ short

  -- The frames of some records, one after another.
  frames : List R → Option Bytes
  unfolding frame
  frames [] = some []
  frames (r ∷ rs) = elim (codec.serialize r) [
    | none ↦ none
    | some p ↦ elim (frames rs) [ none ↦ none | some fs ↦ some (frame codec p ++ fs) ]
  ]

  -- The length of the record fits the four bytes of its frame.
  abbrev pub FitsFrame : R → Type 0
  FitsFrame r = (p : Bytes) → codec.serialize r ≡ some p → length p < 256 ^ 4

  read_records-frames :
      (rs : List R) (fs tail : Bytes) (fuel : ℕ)
      → frames rs ≡ some fs
      → All FitsFrame rs
      → read_record codec tail ≡ none
      → length rs ≤ fuel
      → read_records codec fuel (fs ++ tail) ≡ (rs, tail)
  unfolding frames read_records
  read_records-frames [] fs tail fuel e fit torn h =
      let p : ◌≡◌ {A = Bytes} [] fs = cc in
      subst (λ x. read_records codec fuel (x ++ tail) ≡ ([], tail)) p (stop fuel)
    where
      stop : (fuel : ℕ) → read_records codec fuel tail ≡ ([], tail)
      stop zero = refl
      stop (suc fuel) = rw (torn, read_records) refl
  read_records-frames (r ∷ rs) fs tail zero e fit torn h = absurd (omega (arith, h))
  read_records-frames (r ∷ rs) fs tail (suc fuel) e fit torn h =
      elim (Option-cases (codec.serialize r)) [
        | inl n ↦ absurd (ground (arith, n, e))
        | inr (p, s) ↦ elim (Option-cases (frames rs)) [
          | inl n ↦ absurd (ground (arith, s, n, e))
          | inr (more, q) ↦
              let whole : some (frame codec p ++ more) ≡ some fs =
                sym (rw (s, frames) (rw q refl)) ∙ e in
              let at : frame codec p ++ more ≡ fs = cc in
              let split : fs ++ tail ≡ frame codec p ++ (more ++ tail) =
                ap (λ x. x ++ tail) (sym at) ∙ append_assoc (frame codec p) more tail in
              let one = read_record-frame r p (more ++ tail) s (fit.0 p s) in
              let ih = read_records-frames rs more tail fuel q fit.1 torn (omega (arith, h)) in
              ap (read_records codec (suc fuel)) split ∙ rw (one, read_records) (rw ih refl)
        ]
      ]

  length-frames : (rs : List R) (fs : Bytes) → frames rs ≡ some fs → length rs ≤ length fs
  unfolding frames
  length-frames [] fs e = omega arith
  length-frames (r ∷ rs) fs e = elim (Option-cases (codec.serialize r)) [
    | inl n ↦ absurd (ground (arith, n, e))
    | inr (p, s) ↦ elim (Option-cases (frames rs)) [
      | inl n ↦ absurd (ground (arith, s, n, e))
      | inr (more, q) ↦
          let whole : some (frame codec p ++ more) ≡ some fs =
            sym (rw (s, frames) (rw q refl)) ∙ e in
          let at : frame codec p ++ more ≡ fs = cc in
          subst (λ x. suc (length rs) ≤ length x) at
            (omega
              (arith, length-append (frame codec p) more, length-frame p, length-frames rs more q))
    ]
  ]

  -- Records appended one after another.
  unfoldable pub append_all : WalManager → List R → Option WalManager
  unfolding append_unsynced
  append_all w [] = some w
  append_all w (r ∷ rs) = elim (append_unsynced codec w r) [
    | none ↦ none
    | some w' ↦ append_all w' rs
  ]

  append_all-frames :
      (rs : List R) (start log : Bytes) (sync : Bool)
      → append_all (record { file = some start; sync_on_commit = sync }) rs
        ≡ some (record { file = some log; sync_on_commit = sync })
      → (fs : Bytes) × (frames rs ≡ some fs) × (log ≡ start ++ fs)
  unfolding append_all append_unsynced frames
  append_all-frames [] start log sync h =
      let q : start ≡ log = cc in ([], refl, sym (rw append-nil q))
  append_all-frames (r ∷ rs) start log sync h = elim (Option-cases (codec.serialize r)) [
    | inl n ↦ absurd (ground (arith, n, h))
    | inr (p, s) ↦
        let next : append_all
              (record { file = some (start ++ frame codec p); sync_on_commit = sync }) rs
            ≡ some (record { file = some log; sync_on_commit = sync }) =
          sym (rw (s, append_all) refl) ∙ h in
        let (more, q, at) = append_all-frames rs (start ++ frame codec p) log sync next in
        (
          frame codec p ++ more,
          rw (s, frames) (rw q refl),
          at ∙ append_assoc start (frame codec p) more,
        )
  ]

  -- Crash recovery: of a log to which records were appended, and then one more that was cut off
  -- at any byte, `read_all_records` returns exactly the whole records, in order, and cuts the file
  -- after the last of them.
  pub read_all_records-recovers :
      (rs : List R) (next : R) (log p : Bytes) (k : ℕ) (sync : Bool)
      → append_all (record { file = some []; sync_on_commit = sync }) rs
        ≡ some (record { file = some log; sync_on_commit = sync })
      → All FitsFrame rs
      → codec.serialize next ≡ some p
      → length p < 256 ^ 4
      → k < length (frame codec p)
      → read_all_records codec
          (record { file = some (log ++ take k (frame codec p)); sync_on_commit = sync })
        ≡ (record { file = some log; sync_on_commit = sync }, rs)
  unfolding read_all_records
  read_all_records-recovers rs next log p k sync h fit s short less =
      let (fs, q, at) = append_all-frames rs [] log sync h in
      let tail = take k (frame codec p) in
      let torn = read_record-cut p k short less in
      let read : read_records codec (length (log ++ tail)) (log ++ tail) ≡ (rs, tail) =
        subst (λ x. read_records codec (length (x ++ tail)) (x ++ tail) ≡ (rs, tail)) (sym at)
          (read_records-frames rs fs tail (length (fs ++ tail)) q fit torn
            (omega (arith, length-append fs tail, length-frames rs fs q))) in
      let size : length (log ++ tail) - length tail ≡ length log =
        omega (arith, length-append log tail) in
      let kept : take (length (log ++ tail) - length tail) (log ++ tail) ≡ log =
        ap (λ n. take n (log ++ tail)) size ∙ take-append_self log tail in
      rw (read_all_records, read) (rw kept refl)
