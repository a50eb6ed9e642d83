-- ===== src/BufferPool/SlottedPage/Delete.antt =====
-- What `delete_tuple` of crates/h2-mvstore/src/buffer_pool/slotted_page.rs does to a well-formed page.

use native.Mathlib.Decide.{ℕ_discrete}
use h2database_rust.Prelude.{
  ℕ, zero, suc, ◌+◌, ◌*◌, ◌≤◌, ◌<◌, ◌≡◌, ◌≢◌, ◌⊎◌, inl, inr, refl, sym, ap, ◌∙◌, true, false, none,
  List, [], ◌∷◌, arith, length, leb,
}
use h2database_rust.Bytes.Order.{Bytes}
use h2database_rust.Bytes.Words.{be_bytes}
use h2database_rust.Bytes.Words.Laws.{length-be_bytes}
use h2database_rust.BufferPool.Slices.{slice}
use h2database_rust.BufferPool.SlottedPage.{
  read_word, write_word, get_tuple_count, get_free_space_upper, slot_offset, slot_len, is_dead,
  get_tuple, delete_tuple,
}
use h2database_rust.BufferPool.SlottedPage.Layout.{
  AreWithin, write_all, length-write_all, slice-write_all, read_word-write_all_at, read_word-slice,
  cost, used, is_dead-slice, get_tuple_same, IsPage,
}

module _ (buf : Bytes) (slot_id : ℕ) (p : IsPage buf) (there : slot_id < get_tuple_count buf) where
  abbrev at : ℕ
  at = 32 + slot_id * 4

  abbrev clearing : List (ℕ × Bytes)
  clearing = (at, be_bytes 2 0) ∷ (at + 2, be_bytes 2 0) ∷ []

  abbrev cleared : Bytes
  cleared = write_all clearing buf

  delete_tuple_lem : delete_tuple buf slot_id ≡ (cleared, true)
  unfolding delete_tuple write_word
  delete_tuple_lem =
      let known : leb (get_tuple_count buf) slot_id ≡ false = ground arith in rw known

  sizes : length (be_bytes 2 0) ≡ 2
  sizes = length-be_bytes 2 0

  within : AreWithin (length buf) clearing
  within = omega (arith, sizes, p.size, p.lower, p.order, p.upper)

  unseen :
      (from n : ℕ) → (from + n ≤ at) ⊎ (at + 4 ≤ from) → slice cleared from n ≡ slice buf from n
  unseen from n (inl low) = slice-write_all clearing buf from n within (omega (arith, sizes))
  unseen from n (inr high) = slice-write_all clearing buf from n within (omega (arith, sizes))

  word_same :
      (from : ℕ)
      → (from + 2 ≤ at) ⊎ (at + 4 ≤ from)
      → read_word 2 cleared from ≡ read_word 2 buf from
  word_same from apart = read_word-slice 2 cleared buf from (unseen from 2 apart)

  gone : is_dead cleared slot_id ≡ true
  unfolding is_dead
  gone =
      let zero_offset : slot_offset cleared slot_id ≡ 0 =
        read_word-write_all_at [] at 0 ((at + 2, be_bytes 2 0) ∷ []) buf within
          (omega (arith, sizes)) (omega arith) in
      rw zero_offset

  others :
      (i : ℕ)
      → i ≢ slot_id
      → (slot_offset cleared i ≡ slot_offset buf i) × (slot_len cleared i ≡ slot_len buf i)
  others i ne = (word_same (32 + i * 4) (omega arith), word_same (32 + i * 4 + 2) (omega arith))

  count_same : get_tuple_count cleared ≡ get_tuple_count buf
  count_same = word_same 14 (omega arith)

  upper_same : get_free_space_upper cleared ≡ get_free_space_upper buf
  upper_same = word_same 18 (omega arith)

  used_less : (n start : ℕ) → used n cleared start ≤ used n buf start
  unfolding used cost
  used_less zero start = omega arith
  used_less (suc n) start = elim (ℕ_discrete start slot_id) [
    | yes same ↦ rw (same, gone) (omega (arith, used_less n (suc slot_id)))
    | no other ↦
        let words = others start other in
        rw (is_dead-slice cleared buf start words.0 words.1, words.1)
          (omega (arith, used_less n (suc start)))
  ]

  cleared_tuples :
      (i : ℕ)
      → i < get_tuple_count cleared
      → is_dead cleared i ≡ false
      → get_free_space_upper cleared ≤ slot_offset cleared i
  cleared_tuples i h live = elim (ℕ_discrete i slot_id) [
    | yes same ↦ absurd (cc (gone, ap (is_dead cleared) same))
    | no other ↦
        let words = others i other in
        omega (
          arith,
          upper_same,
          words,
          p.tuples i (omega (arith, count_same))
              (sym (is_dead-slice cleared buf i words.0 words.1) ∙ live),
        )
  ]

  cleared-IsPage : IsPage cleared
  cleared-IsPage = record {
    size = length-write_all clearing buf within ∙ p.size;
    lower = omega (arith, word_same 16 (omega arith), count_same, p.lower);
    order = omega (arith, word_same 16 (omega arith), upper_same, p.order);
    upper = omega (arith, upper_same, p.upper);
    tuples = cleared_tuples;
    room = omega (
      arith,
      ap (λ n. used n cleared 0) count_same,
      used_less (get_tuple_count buf) 0,
      upper_same,
      p.room,
    );
  }

  get_tuple_gone : get_tuple cleared slot_id ≡ none
  unfolding get_tuple
  get_tuple_gone =
      let known : leb (get_tuple_count cleared) slot_id ≡ false = ground (arith, count_same) in
      rw (known, gone)

  get_tuple_others : (i : ℕ) → i ≢ slot_id → get_tuple cleared i ≡ get_tuple buf i
  get_tuple_others i ne = get_tuple_same cleared buf i count_same (others i ne) (λ h live.
      unseen (slot_offset buf i) (slot_len buf i)
        (inr (omega (arith, p.tuples i h live, p.lower, p.order))))

-- A slot that the page has is emptied, and reads as nothing from then on; every other slot reads as
-- before, and the page stays well-formed.
pub get_tuple-delete_tuple :
    (buf : Bytes) (slot_id : ℕ)
    → IsPage buf
    → slot_id < get_tuple_count buf
    → ((delete_tuple buf slot_id).1 ≡ true)
      × IsPage (delete_tuple buf slot_id).0
      × (get_tuple (delete_tuple buf slot_id).0 slot_id ≡ none)
      × ((i : ℕ) → i ≢ slot_id → get_tuple (delete_tuple buf slot_id).0 i ≡ get_tuple buf i)
get_tuple-delete_tuple buf slot_id p h = rw (delete_tuple_lem buf slot_id p h) (
  refl,
  cleared-IsPage buf slot_id p h,
  get_tuple_gone buf slot_id p h,
  get_tuple_others buf slot_id p h,
)
