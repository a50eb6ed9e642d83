-- ===== src/BufferPool/SlottedPage/WriteBack.antt =====
-- The loop of `defragment` of crates/h2-mvstore/src/buffer_pool/slotted_page.rs that writes the live
-- tuples back from the end of the page.
use mathlib.Core.Path.{subst}
use h2database_rust.Prelude.{
  ℕ, suc, ◌+◌, ◌-◌, ◌*◌, ◌≤◌, ◌<◌, ◌≡◌, ◌≢◌, ◌⊎◌, sym, ap, ◌∙◌, List, [], ◌∷◌, arith, length, All,
}
use h2database_rust.Bytes.Order.{Bytes}
use h2database_rust.Bytes.Words.{be_bytes}
use h2database_rust.Bytes.Words.Laws.{length-be_bytes}
use h2database_rust.BufferPool.Slices.{slice, splice}
use h2database_rust.BufferPool.SlottedPage.{
  read_word, write_word, slot_offset, slot_len, write_back,
}
use h2database_rust.BufferPool.SlottedPage.Layout.{
  AreWithin, AllApart, write_all, length-write_all, slice-write_all_at, read_word-write_all_at,
}

-- The bytes of the tuples that are written back, and the writes.
abbrev pub total : List (ℕ × Bytes) → ℕ
total [] = 0
total ((slot_id, tuple) ∷ rest) = length tuple + total rest

abbrev pub back_writes : List (ℕ × Bytes) → ℕ → List (ℕ × Bytes)
back_writes [] upper = []
back_writes ((slot_id, tuple) ∷ rest) upper =
    let top = upper - length tuple in
    (top, tuple)
    ∷ (32 + slot_id * 4, be_bytes 2 top)
    ∷ (32 + slot_id * 4 + 2, be_bytes 2 (length tuple))
    ∷ back_writes rest top

-- Slots of a page of `count` slots, `from` the first one on, in order.
abbrev pub AreSlots : ℕ → ℕ → List (ℕ × Bytes) → Type 0
AreSlots from count [] = Unit {0}
AreSlots from count ((slot_id, tuple) ∷ rest) =
    (from ≤ slot_id) × (slot_id < count) × AreSlots (suc slot_id) count rest

pub write_back_lem :
    (live : List (ℕ × Bytes)) (upper : ℕ) (buf : Bytes)
    → write_back live upper buf ≡ (write_all (back_writes live upper) buf, upper - total live)
unfolding write_back write_word
write_back_lem [] upper buf = ap (λ (u : ℕ). (buf, u)) (omega arith)
write_back_lem ((slot_id, tuple) ∷ rest) upper buf =
    let top : ℕ = upper - length tuple in
    let sum : top - total rest ≡ upper - (length tuple + total rest) = omega arith in
    write_back_lem rest top _ ∙ rw sum

pub back_writes_within :
    (live : List (ℕ × Bytes)) (from count upper : ℕ)
    → AreSlots from count live
    → 32 + count * 4 + total live ≤ upper
    → upper ≤ 8192
    → AreWithin 8192 (back_writes live upper)
back_writes_within [] from count upper a h g = tt
back_writes_within ((slot_id, tuple) ∷ rest) from count upper a h g =
    let top : ℕ = upper - length tuple in
    let tail = back_writes_within rest (suc slot_id) count top a.2 (omega arith) (omega arith) in
    (
      omega arith,
      (
        omega (arith, a, length-be_bytes 2 top),
        (omega (arith, a, length-be_bytes 2 (length tuple)), tail),
      ),
    )

-- What lies before the slots that are written, or from `upper` on, is not written; nor is a slot that
-- is not among them.
pub back_writes_header :
    (live : List (ℕ × Bytes)) (first count upper from n : ℕ)
    → AreSlots first count live
    → 32 + count * 4 + total live ≤ upper
    → from + n ≤ 32 + first * 4
    → first ≤ count
    → AllApart from n (back_writes live upper)
back_writes_header [] first count upper from n a h low o = tt
back_writes_header ((slot_id, tuple) ∷ rest) first count upper from n a h low o =
    let top : ℕ = upper - length tuple in
    let tail =
      back_writes_header rest (suc slot_id) count top from n a.2 (omega arith) (omega (arith, a))
        (omega (arith, a)) in
    (
      omega (arith, a),
      (
        omega (arith, a, length-be_bytes 2 top),
        (omega (arith, a, length-be_bytes 2 (length tuple)), tail),
      ),
    )

pub back_writes_top :
    (live : List (ℕ × Bytes)) (first count upper from n : ℕ)
    → AreSlots first count live
    → 32 + count * 4 + total live ≤ upper
    → upper ≤ from
    → AllApart from n (back_writes live upper)
back_writes_top [] first count upper from n a h high = tt
back_writes_top ((slot_id, tuple) ∷ rest) first count upper from n a h high =
    let top : ℕ = upper - length tuple in
    let tail =
      back_writes_top rest (suc slot_id) count top from n a.2 (omega arith) (omega arith) in
    (
      omega (arith, a),
      (
        omega (arith, a, length-be_bytes 2 top),
        (omega (arith, a, length-be_bytes 2 (length tuple)), tail),
      ),
    )

pub back_writes_other :
    (live : List (ℕ × Bytes)) (first count upper j at : ℕ)
    → AreSlots first count live
    → 32 + count * 4 + total live ≤ upper
    → j < count
    → All (λ e. j ≢ e.0) live
    → (at ≡ 32 + j * 4) ⊎ (at ≡ 32 + j * 4 + 2)
    → AllApart at 2 (back_writes live upper)
back_writes_other [] first count upper j at a h known ne which = tt
back_writes_other ((slot_id, tuple) ∷ rest) first count upper j at a h known ne which =
    let top : ℕ = upper - length tuple in
    let other : j ≢ slot_id = ne.0 in
    let tail =
      back_writes_other rest (suc slot_id) count top j at a.2 (omega arith) known ne.1 which in
    (
      omega (arith, which),
      (
        omega (arith, which, length-be_bytes 2 top),
        (omega (arith, which, length-be_bytes 2 (length tuple)), tail),
      ),
    )

-- What is true of a tuple that was written back, with the end of the free space.
abbrev pub Holds : Bytes → ℕ → ℕ × Bytes → Type 0
Holds buf bottom (slot_id, tuple) =
    (bottom ≤ slot_offset buf slot_id)
    × (slot_offset buf slot_id + length tuple ≤ 8192)
    × (slot_len buf slot_id ≡ length tuple)
    × (slice buf (slot_offset buf slot_id) (length tuple) ≡ tuple)

module _ (slot_id : ℕ) (tuple : Bytes) (rest : List (ℕ × Bytes)) (first count upper : ℕ)
    (buf : Bytes) (a : AreSlots first count ((slot_id, tuple) ∷ rest))
    (h : 32 + count * 4 + (length tuple + total rest) ≤ upper) (g : upper ≤ 8192)
    (size : length buf ≡ 8192) where
  abbrev top : ℕ
  top = upper - length tuple

  abbrev slot : ℕ
  slot = 32 + slot_id * 4

  abbrev written : Bytes
  written = write_all (back_writes ((slot_id, tuple) ∷ rest) upper) buf

  within : AreWithin (length buf) (back_writes ((slot_id, tuple) ∷ rest) upper)
  within =
      subst (λ n. AreWithin n (back_writes ((slot_id, tuple) ∷ rest) upper)) (sym size)
        (back_writes_within ((slot_id, tuple) ∷ rest) first count upper a h g)

  later : (from : ℕ) → from + 2 ≤ 32 + suc slot_id * 4 → AllApart from 2 (back_writes rest top)
  later from low =
      back_writes_header rest (suc slot_id) count top from 2 a.2 (omega arith) low
        (omega (arith, a))

  back_offset : read_word 2 written slot ≡ top
  back_offset =
      read_word-write_all_at ((top, tuple) ∷ []) slot top
        ((slot + 2, be_bytes 2 (length tuple)) ∷ back_writes rest top) buf within
        (omega (arith, length-be_bytes 2 (length tuple)), later slot (omega arith)) (omega arith)

  back_len : read_word 2 written (slot + 2) ≡ length tuple
  back_len =
      read_word-write_all_at ((top, tuple) ∷ (slot, be_bytes 2 top) ∷ []) (slot + 2) (length tuple)
        (back_writes rest top) buf within (later (slot + 2) (omega arith)) (omega arith)

  back_tuple : slice written top (length tuple) ≡ tuple
  back_tuple =
      slice-write_all_at [] top tuple
        ((slot, be_bytes 2 top) ∷ (slot + 2, be_bytes 2 (length tuple)) ∷ back_writes rest top) buf
        within
        (
          omega (arith, a, length-be_bytes 2 top),
          (
            omega (arith, a, length-be_bytes 2 (length tuple)),
            back_writes_top rest (suc slot_id) count top top (length tuple) a.2 (omega arith)
                (omega arith),
          ),
        )

  back_Holds : Holds written (upper - (length tuple + total rest)) (slot_id, tuple)
  back_Holds = (
    omega (arith, back_offset),
    omega (arith, back_offset),
    back_len,
    ap (λ o. slice written o (length tuple)) back_offset ∙ back_tuple,
  )

  rest_size :
      length (
        splice
          (splice (splice buf top tuple) slot (be_bytes 2 top))
          (slot + 2)
          (be_bytes 2 (length tuple)))
      ≡ 8192
  rest_size =
      length-write_all
        ((top, tuple) ∷ (slot, be_bytes 2 top) ∷ (slot + 2, be_bytes 2 (length tuple)) ∷ []) buf
        (omega (arith, within))
      ∙ size

pub back_writes-Holds :
    (live : List (ℕ × Bytes)) (first count upper : ℕ) (buf : Bytes)
    → AreSlots first count live
    → 32 + count * 4 + total live ≤ upper
    → upper ≤ 8192
    → length buf ≡ 8192
    → All (Holds (write_all (back_writes live upper) buf) (upper - total live)) live
back_writes-Holds [] first count upper buf a h g size = tt
back_writes-Holds ((slot_id, tuple) ∷ rest) first count upper buf a h g size =
    let top : ℕ = upper - length tuple in
    let sum : upper - (length tuple + total rest) ≡ top - total rest = omega arith in
    let after : Bytes =
      write_all
        ((top, tuple)
          ∷ (32 + slot_id * 4, be_bytes 2 top)
          ∷ (32 + slot_id * 4 + 2, be_bytes 2 (length tuple))
          ∷ [])
        buf in
    (
      back_Holds slot_id tuple rest first count upper buf a h g size,
      subst (λ (u : ℕ). All (Holds (write_all (back_writes rest top) after) u) rest) (sym sum)
          (back_writes-Holds rest (suc slot_id) count top after a.2 (omega arith) (omega arith)
            (rest_size slot_id tuple rest first count upper buf a h g size)),
    )
