-- ===== src/BufferPool/SlottedPage/Defragment.antt =====
-- `defragment` of crates/h2-mvstore/src/buffer_pool/slotted_page.rs loses and changes no tuple.
use mathlib.Core.Path.{subst}
use native.Mathlib.Nat.{zero-add}
use native.Mathlib.Decide.{ℕ_discrete}
use h2database_rust.Prelude.{
  ℕ, zero, suc, ◌+◌, ◌-◌, ◌*◌, ◌≤◌, ◌<◌, ◌≡◌, ◌≢◌, ◌⊎◌, inl, inr, refl, sym, ap, ◌∙◌, Bool, true,
  false, some, List, [], ◌∷◌, arith, length, All, if◌then◌else◌, leb, Bool-cases,
}
use h2database_rust.Bytes.Order.{Bytes}
use h2database_rust.BufferPool.Slices.{slice, length-slice}
use h2database_rust.BufferPool.SlottedPage.{
  read_word, write_word, get_tuple_count, get_free_space_upper, slot_offset, slot_len, is_dead,
  get_tuple, collect_live, defragment,
}
use h2database_rust.BufferPool.SlottedPage.Layout.{
  AreWithin, AllApart, write_all, length-write_all, length-write_word, slice-write_all,
  slice-write_word_apart, read_word-write_word_self, read_word-write_word_self, read_word-slice,
  cost, used, used_same, is_dead-slice, is_dead_bounds, IsPage,
}
use h2database_rust.BufferPool.SlottedPage.WriteBack.{
  total, back_writes, AreSlots, Holds, write_back_lem, back_writes_within, back_writes_header,
  back_writes_other, back_writes-Holds,
}

abbrev tuple_at : Bytes → ℕ → ℕ × Bytes
tuple_at buf i = (i, slice buf (slot_offset buf i) (slot_len buf i))

-- The live tuples are those of the slots in order.
collect_AreSlots :
    (n : ℕ) (buf : Bytes) (i count : ℕ) → i + n ≤ count → AreSlots i count (collect_live n buf i)
unfolding collect_live
collect_AreSlots zero buf i count h = tt
collect_AreSlots (suc n) buf i count h =
    let rest = collect_AreSlots n buf (suc i) count (omega arith) in
    elim (Bool-cases (is_dead buf i)) [
      | inl dead ↦ rw dead (earlier (collect_live n buf (suc i)) rest)
      | inr live ↦ rw live (omega arith, omega arith, rest)
    ]
  where
    earlier : (l : List (ℕ × Bytes)) → AreSlots (suc i) count l → AreSlots i count l
    earlier [] a = tt
    earlier ((j, t) ∷ l) a = (omega arith, a.1, a.2)

collect_total :
    (n : ℕ) (buf : Bytes) (i : ℕ) → length buf ≡ 8192 → total (collect_live n buf i) ≡ used n buf i
unfolding collect_live used cost
collect_total zero buf i size = refl
collect_total (suc n) buf i size = elim (Bool-cases (is_dead buf i)) [
  | inl dead ↦ rw dead (collect_total n buf (suc i) size ∙ sym (zero-add (used n buf (suc i))))
  | inr live ↦ rw live (
      omega (
        arith,
        length-slice buf (slot_offset buf i) (slot_len buf i)
            (omega (arith, is_dead_bounds buf i live, size)),
        collect_total n buf (suc i) size,
      ))
]

collect_at :
    (P : ℕ × Bytes → Type 0) (n : ℕ) (buf : Bytes) (i j : ℕ)
    → All P (collect_live n buf i)
    → i ≤ j
    → j < i + n
    → is_dead buf j ≡ false
    → P (tuple_at buf j)
unfolding collect_live
collect_at P zero buf i j all low high live = absurd (omega arith)
collect_at P (suc n) buf i j all low high live =
    let rest : List (ℕ × Bytes) = collect_live n buf (suc i) in
    let first : (t : Bool) → is_dead buf i ≡ t → All P (if t then rest else tuple_at buf i ∷ rest) =
      λ t e. subst (λ b. All P (if b then rest else tuple_at buf i ∷ rest)) e all in
    elim (ℕ_discrete j i) [
      | yes same ↦
          let here : is_dead buf i ≡ false = sym (ap (is_dead buf) same) ∙ live in
          subst (λ k. P (tuple_at buf k)) (sym same) (first false here).0
      | no other ↦ elim (Bool-cases (is_dead buf i)) [
        | inl dead ↦ collect_at P n buf (suc i) j (first true dead) (omega arith) (omega arith) live
        | inr kept ↦
            collect_at P n buf (suc i) j (first false kept).1 (omega arith) (omega arith) live
      ]
    ]

collect_not :
    (n : ℕ) (buf : Bytes) (i j : ℕ)
    → is_dead buf j ≡ true
    → All (λ e. j ≢ e.0) (collect_live n buf i)
unfolding collect_live
collect_not zero buf i j dead = tt
collect_not (suc n) buf i j dead = elim (Bool-cases (is_dead buf i)) [
  | inl gone ↦ rw gone (collect_not n buf (suc i) j dead)
  | inr live ↦ rw live (λ e. cc (ap (is_dead buf) e, dead, live), collect_not n buf (suc i) j dead)
]

not_dead :
    (buf : Bytes) (i : ℕ)
    → 0 < slot_offset buf i
    → 0 < slot_len buf i
    → slot_offset buf i + slot_len buf i ≤ 8192
    → is_dead buf i ≡ false
unfolding is_dead
not_dead buf i a b c = ground arith

module _ (buf : Bytes) (p : IsPage buf) where
  abbrev count : ℕ
  count = get_tuple_count buf

  abbrev live : List (ℕ × Bytes)
  live = collect_live count buf 0

  abbrev bottom : ℕ
  bottom = 8192 - total live

  abbrev moved : Bytes
  moved = write_all (back_writes live 8192) buf

  abbrev result : Bytes
  result = write_word 2 moved 18 bottom

  defragment_lem : defragment buf ≡ result
  unfolding defragment
  defragment_lem = rw (write_back_lem live 8192 buf)

  slots : AreSlots 0 count live
  slots = collect_AreSlots count buf 0 count (omega arith)

  sum : total live ≡ used count buf 0
  sum = collect_total count buf 0 p.size

  fits : 32 + count * 4 + total live ≤ 8192
  fits = omega (arith, sum, p.room, p.lower, p.order)

  moved_size : length moved ≡ 8192
  moved_size =
      length-write_all (back_writes live 8192) buf (
        subst (λ n. AreWithin n (back_writes live 8192)) (sym p.size)
          (back_writes_within live 0 count 8192 slots fits (omega arith)))
      ∙ p.size

  unmoved :
      (from n : ℕ) → AllApart from n (back_writes live 8192) → slice moved from n ≡ slice buf from n
  unmoved from n apart =
      slice-write_all (back_writes live 8192) buf from n
        (subst (λ n. AreWithin n (back_writes live 8192)) (sym p.size)
          (back_writes_within live 0 count 8192 slots fits (omega arith)))
        apart

  outside : (from n : ℕ) → (from + n ≤ 18) ⊎ (20 ≤ from) → slice result from n ≡ slice moved from n
  outside from n apart =
      slice-write_word_apart 2 moved 18 bottom from n (omega (arith, moved_size)) (omega arith)

  header : (from : ℕ) → from + 2 ≤ 18 → read_word 2 result from ≡ read_word 2 buf from
  header from low = read_word-slice 2 result buf from (
      outside from 2 (inl low)
      ∙ unmoved from 2
          (back_writes_header live 0 count 8192 from 2 slots fits (omega arith) (omega arith)))

  new_upper : get_free_space_upper result ≡ bottom
  new_upper = read_word-write_word_self 2 moved 18 bottom (omega (arith, moved_size)) (omega arith)

  slot_word : (at : ℕ) → 20 ≤ at → read_word 2 result at ≡ read_word 2 moved at
  slot_word at high = read_word-slice 2 result moved at (outside at 2 (inr high))

  -- A dead slot keeps its words.
  dead_words :
      (i : ℕ)
      → i < count
      → is_dead buf i ≡ true
      → (slot_offset result i ≡ slot_offset buf i) × (slot_len result i ≡ slot_len buf i)
  dead_words i known dead =
      let absent = collect_not count buf 0 i dead in
      (
        slot_word (32 + i * 4) (omega arith)
            ∙ read_word-slice 2 moved buf (32 + i * 4) (
                unmoved (32 + i * 4) 2 (
                  back_writes_other live 0 count 8192 i (32 + i * 4) slots fits known absent
                    (inl refl))),
        slot_word (32 + i * 4 + 2) (omega arith)
            ∙ read_word-slice 2 moved buf (32 + i * 4 + 2) (
                unmoved (32 + i * 4 + 2) 2 (
                  back_writes_other live 0 count 8192 i (32 + i * 4 + 2) slots fits known absent
                    (inr refl))),
      )

  -- A live slot has its tuple at the new place.
  live_Holds : (i : ℕ) → i < count → is_dead buf i ≡ false → Holds result bottom (tuple_at buf i)
  live_Holds i known alive =
      let h : Holds moved bottom (tuple_at buf i) =
        collect_at (Holds moved bottom) count buf 0 i
          (back_writes-Holds live 0 count 8192 buf slots fits (omega arith) p.size) (omega arith)
          (omega arith) alive in
      let offset = slot_word (32 + i * 4) (omega arith) in
      let len = slot_word (32 + i * 4 + 2) (omega arith) in
      (
        omega (arith, h, offset),
        omega (arith, h, offset),
        len ∙ h.2,
        ap (λ o. slice result o (length (slice buf (slot_offset buf i) (slot_len buf i)))) offset
            ∙ outside (slot_offset moved i)
                (length (slice buf (slot_offset buf i) (slot_len buf i)))
                (inr (omega (arith, h, fits)))
            ∙ h.3,
      )

  tuple_size :
      (i : ℕ)
      → is_dead buf i ≡ false
      → length (slice buf (slot_offset buf i) (slot_len buf i)) ≡ slot_len buf i
  tuple_size i alive =
      length-slice buf (slot_offset buf i) (slot_len buf i)
        (omega (arith, is_dead_bounds buf i alive, p.size))

  len_same : (i : ℕ) → i < count → slot_len result i ≡ slot_len buf i
  len_same i known = elim (Bool-cases (is_dead buf i)) [
    | inl dead ↦ (dead_words i known dead).1
    | inr alive ↦ (live_Holds i known alive).2 ∙ tuple_size i alive
  ]

  dead_same : (i : ℕ) → i < count → is_dead result i ≡ is_dead buf i
  dead_same i known = elim (Bool-cases (is_dead buf i)) [
    | inl dead ↦ let words = dead_words i known dead in is_dead-slice result buf i words.0 words.1
    | inr alive ↦ still_alive i known alive ∙ sym alive
  ]
    where
      still_alive : (i : ℕ) → i < count → is_dead buf i ≡ false → is_dead result i ≡ false
      still_alive i known alive =
          not_dead result i (omega (arith, live_Holds i known alive, fits))
            (omega (arith, len_same i known, is_dead_bounds buf i alive))
            (omega (arith, live_Holds i known alive, tuple_size i alive, len_same i known))

  used_kept : used count result 0 ≡ used count buf 0
  used_kept =
      used_same count result buf 0
        (λ i low high. (dead_same i (omega arith), len_same i (omega arith)))

  result-IsPage : IsPage result
  result-IsPage = record {
    size = length-write_word 2 moved 18 bottom (omega (arith, moved_size)) ∙ moved_size;
    lower = omega (arith, header 16 (omega arith), header 14 (omega arith), p.lower);
    order = omega (arith, new_upper, header 16 (omega arith), p.lower, fits);
    upper = omega (arith, new_upper);
    tuples = λ i h alive.
        let known : i < count = omega (arith, header 14 (omega arith)) in
        omega (arith, new_upper, live_Holds i known (sym (dead_same i known) ∙ alive));
    room = omega (
      arith,
      ap (λ n. used n result 0) (header 14 (omega arith)),
      used_kept,
      new_upper,
      sum,
      fits,
    );
  }

  result_tuple : (i : ℕ) → get_tuple result i ≡ get_tuple buf i
  unfolding get_tuple
  result_tuple i = elim (Bool-cases (leb count i)) [
    | inl past ↦ rw (header 14 (omega arith), past)
    | inr known ↦
        let below : i < count = ground arith in
        elim (Bool-cases (is_dead buf i)) [
          | inl dead ↦ rw (header 14 (omega arith), known, dead_same i below, dead)
          | inr alive ↦
              let there = live_Holds i below alive in
              rw (header 14 (omega arith), known, dead_same i below, alive)
                (ap some (ap (slice result (slot_offset result i)) there.2 ∙ there.3))
        ]
  ]

-- Defragmentation keeps a page well-formed and every slot's tuple, and leaves as free space all that
-- the live tuples and the slots do not take.
pub get_tuple-defragment :
    (buf : Bytes)
    → IsPage buf
    → IsPage (defragment buf)
      × ((i : ℕ) → get_tuple (defragment buf) i ≡ get_tuple buf i)
      × (get_free_space_upper (defragment buf) + used (get_tuple_count buf) buf 0 ≡ 8192)
get_tuple-defragment buf p =
    rw (defragment_lem buf p) (
      result-IsPage buf p,
      result_tuple buf p,
      omega (arith, new_upper buf p, sum buf p, fits buf p),
    )
