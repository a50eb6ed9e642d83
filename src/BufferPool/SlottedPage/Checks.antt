-- ===== src/BufferPool/SlottedPage/Checks.antt =====
-- New pages, the test for a page without tuples, and the checksum of
-- crates/h2-mvstore/src/buffer_pool/slotted_page.rs.

use native.Mathlib.Decide.{ℕ_discrete}
use h2database_rust.Prelude.{
  ℕ, zero, suc, ◌+◌, ◌^◌, ◌≤◌, ◌<◌, ◌≡◌, inl, inr, refl, sym, ap, ◌∙◌, true, false, none, List, [],
  ◌∷◌, arith, length, replicate, length-replicate, ◌↔◌, leb, Bool-cases,
}
use h2database_rust.Bytes.Order.{Bytes}
use h2database_rust.Bytes.Words.{be_bytes}
use h2database_rust.Bytes.Words.Laws.{length-be_bytes}
use h2database_rust.BufferPool.SlottedPage.{
  read_word, write_word, get_tuple_count, get_free_space_lower, get_free_space_upper, is_dead,
  get_tuple, page_size, init, live_from, live_tuple_count, is_all_dead, compute_and_write_checksum,
  verify_checksum,
}
use h2database_rust.BufferPool.SlottedPage.Layout.{
  AreWithin, write_all, length-write_all, length-write_word, read_word-write_word_self,
  read_word-write_all_at, read_word-write_word_self, used, IsPage,
}
use h2database_rust.BufferPool.Slices.{splice_twice}

abbrev blank_writes : ℕ → ℕ → List (ℕ × Bytes)
blank_writes page_id page_type =
    (0, be_bytes 4 page_id)
    ∷ (4, be_bytes 8 0)
    ∷ (12, page_type ∷ [])
    ∷ (13, 0 ∷ [])
    ∷ (14, be_bytes 2 0)
    ∷ (16, be_bytes 2 32)
    ∷ (18, be_bytes 2 8192)
    ∷ (20, be_bytes 4 0)
    ∷ []

module _ (page_id page_type : ℕ) (blank : Bytes) (size : length blank ≡ 8192) where
  abbrev fresh : Bytes
  fresh = write_all (blank_writes page_id page_type) blank

  lengths :
      (length (be_bytes 4 page_id) ≡ 4)
      × (length (be_bytes 8 0) ≡ 8)
      × (length (be_bytes 2 0) ≡ 2)
      × (length (be_bytes 2 32) ≡ 2)
      × (length (be_bytes 2 8192) ≡ 2)
      × (length (be_bytes 4 0) ≡ 4)
  lengths = (
    length-be_bytes 4 page_id,
    length-be_bytes 8 0,
    length-be_bytes 2 0,
    length-be_bytes 2 32,
    length-be_bytes 2 8192,
    length-be_bytes 4 0,
  )

  within : AreWithin (length blank) (blank_writes page_id page_type)
  within = omega (arith, size, lengths)

  fresh_count : get_tuple_count fresh ≡ 0
  fresh_count =
      read_word-write_all_at
        ((0, be_bytes 4 page_id) ∷ (4, be_bytes 8 0) ∷ (12, page_type ∷ []) ∷ (13, 0 ∷ []) ∷ []) 14
        0 ((16, be_bytes 2 32) ∷ (18, be_bytes 2 8192) ∷ (20, be_bytes 4 0) ∷ []) blank within
        (omega (arith, lengths)) (omega arith)

  fresh_lower : get_free_space_lower fresh ≡ 32
  fresh_lower =
      read_word-write_all_at
        ((0, be_bytes 4 page_id)
          ∷ (4, be_bytes 8 0)
          ∷ (12, page_type ∷ [])
          ∷ (13, 0 ∷ [])
          ∷ (14, be_bytes 2 0)
          ∷ [])
        16 32 ((18, be_bytes 2 8192) ∷ (20, be_bytes 4 0) ∷ []) blank within
        (omega (arith, lengths)) (omega arith)

  fresh_upper : get_free_space_upper fresh ≡ 8192
  fresh_upper =
      read_word-write_all_at
        ((0, be_bytes 4 page_id)
          ∷ (4, be_bytes 8 0)
          ∷ (12, page_type ∷ [])
          ∷ (13, 0 ∷ [])
          ∷ (14, be_bytes 2 0)
          ∷ (16, be_bytes 2 32)
          ∷ [])
        18 8192 ((20, be_bytes 4 0) ∷ []) blank within (omega (arith, lengths)) (omega arith)

  fresh-IsPage : IsPage fresh
  unfolding used
  fresh-IsPage = record {
    size = length-write_all (blank_writes page_id page_type) blank within ∙ size;
    lower = omega (arith, fresh_lower, fresh_count);
    order = omega (arith, fresh_lower, fresh_upper);
    upper = omega (arith, fresh_upper);
    tuples = λ i h live. absurd (omega (arith, fresh_count));
    room = omega (arith, ap (λ n. used n fresh 0) fresh_count, fresh_upper);
  }

-- A new page is well-formed.
pub init-IsPage : (page_id page_type : ℕ) → IsPage (init page_id page_type)
unfolding init write_word
init-IsPage page_id page_type =
    fresh-IsPage page_id page_type (replicate page_size 0) (length-replicate {A = ℕ} page_size 0)

live_from_none :
    (n : ℕ) (buf : Bytes) (i j : ℕ)
    → live_from n buf i ≡ 0
    → i ≤ j
    → j < i + n
    → is_dead buf j ≡ true
unfolding live_from
live_from_none zero buf i j e low high = absurd (omega arith)
live_from_none (suc n) buf i j e low high = elim (Bool-cases (is_dead buf i)) [
  | inl dead ↦ elim (ℕ_discrete j i) [
    | yes same ↦ rw same dead
    | no other ↦ live_from_none n buf (suc i) j (ground arith) (omega arith) (omega arith)
  ]
  | inr live ↦ absurd (ground arith)
]

live_from_all :
    (n : ℕ) (buf : Bytes) (i : ℕ)
    → ((j : ℕ) → i ≤ j → j < i + n → is_dead buf j ≡ true)
    → live_from n buf i ≡ 0
unfolding live_from
live_from_all zero buf i h = refl
live_from_all (suc n) buf i h =
    rw (h i (omega arith) (omega arith))
      (live_from_all n buf (suc i) (λ j low high. h j (omega arith) (omega arith)))

-- The test for a page of dead tuples holds just where no slot has a tuple.
pub is_all_dead_iff : (buf : Bytes) → (is_all_dead buf ≡ true) ↔ ((i : ℕ) → get_tuple buf i ≡ none)
unfolding is_all_dead live_tuple_count get_tuple
is_all_dead_iff buf = (forward, backward)
  where
    forward : is_all_dead buf ≡ true → (i : ℕ) → get_tuple buf i ≡ none
    forward e i = elim (Bool-cases (leb (get_tuple_count buf) i)) [
      | inl past ↦ rw past
      | inr known ↦ rw (
        known,
        live_from_none (get_tuple_count buf) buf 0 i (ground arith) (omega arith) (ground arith),
      )
    ]

    backward : ((i : ℕ) → get_tuple buf i ≡ none) → is_all_dead buf ≡ true
    backward h =
        let none_live : live_from (get_tuple_count buf) buf 0 ≡ 0 =
          live_from_all (get_tuple_count buf) buf 0 (λ j low high.
            let known : leb (get_tuple_count buf) j ≡ false = ground arith in
            let gone : get_tuple buf j ≡ none = h j in ground (arith)) in
        rw none_live

write_word_twice :
    (buf : Bytes) (v w : ℕ)
    → 24 ≤ length buf
    → write_word 4 (write_word 4 buf 20 v) 20 w ≡ write_word 4 buf 20 w
unfolding write_word
write_word_twice buf v w h =
    splice_twice buf 20 (be_bytes 4 v) (be_bytes 4 w)
      (length-be_bytes 4 v ∙ sym (length-be_bytes 4 w)) (omega (arith, length-be_bytes 4 v))

-- A page passes the test of the checksum that was written to it.
pub verify_checksum-compute :
    (crc : Bytes → ℕ) (buf : Bytes)
    → ((b : Bytes) → crc b < 2 ^ 32)
    → length buf ≡ 8192
    → verify_checksum crc (compute_and_write_checksum crc buf) ≡ true
unfolding verify_checksum compute_and_write_checksum
verify_checksum-compute crc buf fits size =
    let zeroed : Bytes = write_word 4 buf 20 0 in
    let zeroed_size : length zeroed ≡ 8192 = length-write_word 4 buf 20 0 (omega arith) ∙ size in
    let sum : ℕ = crc zeroed in
    let stored : read_word 4 (write_word 4 zeroed 20 sum) 20 ≡ sum =
      read_word-write_word_self 4 zeroed 20 sum (omega arith) (omega (arith, fits zeroed)) in
    let back : write_word 4 (write_word 4 zeroed 20 sum) 20 0 ≡ zeroed =
      write_word_twice zeroed sum 0 (omega arith) ∙ write_word_twice buf 0 0 (omega arith) in
    rw (stored, back) (ground arith)
