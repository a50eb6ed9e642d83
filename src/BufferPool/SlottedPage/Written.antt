-- ===== src/BufferPool/SlottedPage/Written.antt =====
-- The page that `insert_tuple` of crates/h2-mvstore/src/buffer_pool/slotted_page.rs writes where the
-- tuple fits.
use native.Mathlib.Nat.{zero-add}
use native.Mathlib.Decide.{dec_lt}
use h2database_rust.Prelude.{
  ℕ, suc, ◌+◌, ◌-◌, ◌*◌, ◌≤◌, ◌<◌, ◌≡◌, ◌≢◌, inl, inr, sym, ap, ◌∙◌, true, false, some, List, [],
  ◌∷◌, arith, length, ltb, leb, ◌==◌, Bool-cases,
}
use h2database_rust.Bytes.Order.{Bytes}
use h2database_rust.Bytes.Words.{be_bytes}
use h2database_rust.Bytes.Words.Laws.{length-be_bytes}
use h2database_rust.BufferPool.Slices.{slice, splice}
use h2database_rust.BufferPool.SlottedPage.{
  read_word, write_word, get_tuple_count, get_free_space_lower, get_free_space_upper, slot_offset,
  slot_len, is_dead, get_free_space, insert_tuple, get_tuple,
}
use h2database_rust.BufferPool.SlottedPage.Layout.{
  AreWithin, write_all, length-write_all, slice-write_all, slice-write_all_at,
  read_word-write_all_at, read_word-slice, cost, cost-le, used, used_last, used_same, is_dead-slice,
  IsPage,
}

-- The writes of `insert_tuple`, with what it reads.
abbrev pub writes : ℕ → ℕ → ℕ → Bytes → List (ℕ × Bytes)
writes count lower upper tuple =
    (upper, tuple)
    ∷ (lower, be_bytes 2 upper)
    ∷ (lower + 2, be_bytes 2 (length tuple))
    ∷ (14, be_bytes 2 (count + 1))
    ∷ (16, be_bytes 2 (lower + 4))
    ∷ (18, be_bytes 2 upper)
    ∷ []

module _ (buf tuple : Bytes) (p : IsPage buf)
    (fits : get_free_space_lower buf + (length tuple + 4) ≤ get_free_space_upper buf) where
  abbrev pub top : ℕ
  top = get_free_space_upper buf - length tuple

  abbrev pub low : ℕ
  low = get_free_space_lower buf

  abbrev pub code : ℕ → Bytes
  code v = be_bytes 2 v

  within : (count : ℕ) → AreWithin (length buf) (writes count low top tuple)
  within count = omega (
    arith,
    p.size,
    p.lower,
    p.upper,
    length-be_bytes 2 top,
    length-be_bytes 2 (length tuple),
    length-be_bytes 2 (count + 1),
    length-be_bytes 2 (low + 4),
  )

  insert_count :
      get_tuple_count
        (write_word 2 (write_word 2 (splice buf top tuple) low top) (low + 2) (length tuple))
      ≡ get_tuple_count buf
  unfolding write_word
  insert_count = read_word-slice 2 _ buf 14 (
      slice-write_all ((top, tuple) ∷ (low, code top) ∷ (low + 2, code (length tuple)) ∷ []) buf 14
        2 (omega (arith, within 0)) (omega (arith, p.lower)))

  pub insert_tuple_lem :
      insert_tuple buf tuple
      ≡ (write_all (writes (get_tuple_count buf) low top tuple) buf, some (get_tuple_count buf))
  unfolding insert_tuple write_word get_free_space
  insert_tuple_lem =
      let room : leb low (get_free_space_upper buf) ≡ true = ground (arith, p.order) in
      let enough : ltb (get_free_space_upper buf - low) (length tuple + 4) ≡ false = ground arith in
      rw (room, enough, insert_count)

  abbrev pub page : Bytes
  page = write_all (writes (get_tuple_count buf) low top tuple) buf

  sizes :
      (length (code top) ≡ 2)
      × (length (code (length tuple)) ≡ 2)
      × (length (code (low + 4)) ≡ 2)
      × (length (code (get_tuple_count buf + 1)) ≡ 2)
  sizes = (
    length-be_bytes 2 top,
    length-be_bytes 2 (length tuple),
    length-be_bytes 2 (low + 4),
    length-be_bytes 2 (get_tuple_count buf + 1),
  )

  page_count : get_tuple_count page ≡ get_tuple_count buf + 1
  page_count =
      read_word-write_all_at ((top, tuple) ∷ (low, code top) ∷ (low + 2, code (length tuple)) ∷ [])
        14 (get_tuple_count buf + 1) ((16, code (low + 4)) ∷ (18, code top) ∷ []) buf
        (within (get_tuple_count buf)) (omega (arith, sizes)) (omega (arith, p.lower, p.upper))

  page_lower : get_free_space_lower page ≡ low + 4
  page_lower =
      read_word-write_all_at
        ((top, tuple)
          ∷ (low, code top)
          ∷ (low + 2, code (length tuple))
          ∷ (14, code (get_tuple_count buf + 1))
          ∷ [])
        16 (low + 4) ((18, code top) ∷ []) buf (within (get_tuple_count buf)) (omega (arith, sizes))
        (omega (arith, p.lower, p.upper))

  page_upper : get_free_space_upper page ≡ top
  page_upper =
      read_word-write_all_at
        ((top, tuple)
          ∷ (low, code top)
          ∷ (low + 2, code (length tuple))
          ∷ (14, code (get_tuple_count buf + 1))
          ∷ (16, code (low + 4))
          ∷ [])
        18 top [] buf (within (get_tuple_count buf)) tt (omega (arith, p.lower, p.upper))

  page_slot :
      (slot_offset page (get_tuple_count buf) ≡ top)
      × (slot_len page (get_tuple_count buf) ≡ length tuple)
  page_slot =
      let at : 32 + get_tuple_count buf * 4 ≡ low = sym p.lower in
      (
        ap (read_word 2 page) at
            ∙ read_word-write_all_at ((top, tuple) ∷ []) low top
                ((low + 2, code (length tuple))
                  ∷ (14, code (get_tuple_count buf + 1))
                  ∷ (16, code (low + 4))
                  ∷ (18, code top)
                  ∷ [])
                buf (within (get_tuple_count buf)) (omega (arith, sizes, p.lower))
                (omega (arith, p.upper)),
        ap (λ m. read_word 2 page (m + 2)) at
            ∙ read_word-write_all_at ((top, tuple) ∷ (low, code top) ∷ []) (low + 2) (length tuple)
                ((14, code (get_tuple_count buf + 1)) ∷ (16, code (low + 4)) ∷ (18, code top) ∷ [])
                buf (within (get_tuple_count buf)) (omega (arith, sizes, p.lower))
                (omega (arith, p.upper)),
      )

  tuple_of_page : slice page top (length tuple) ≡ tuple
  tuple_of_page =
      slice-write_all_at [] top tuple
        ((low, code top)
          ∷ (low + 2, code (length tuple))
          ∷ (14, code (get_tuple_count buf + 1))
          ∷ (16, code (low + 4))
          ∷ (18, code top)
          ∷ [])
        buf (within (get_tuple_count buf)) (omega (arith, sizes, p.lower))

  -- The older slots and the older tuples are as they were.
  page_old_slot : (from n : ℕ) → 20 ≤ from → from + n ≤ low → slice page from n ≡ slice buf from n
  page_old_slot from n h g =
      slice-write_all (writes (get_tuple_count buf) low top tuple) buf from n
        (within (get_tuple_count buf)) (omega (arith, sizes))

  page_old_tuple :
      (from n : ℕ) → get_free_space_upper buf ≤ from → slice page from n ≡ slice buf from n
  page_old_tuple from n h =
      slice-write_all (writes (get_tuple_count buf) low top tuple) buf from n
        (within (get_tuple_count buf)) (omega (arith, sizes, p.lower))

  old_words :
      (i : ℕ)
      → i < get_tuple_count buf
      → (slot_offset page i ≡ slot_offset buf i) × (slot_len page i ≡ slot_len buf i)
  old_words i h = (
    read_word-slice 2 page buf (32 + i * 4)
        (page_old_slot (32 + i * 4) 2 (omega arith) (omega (arith, p.lower))),
    read_word-slice 2 page buf (32 + i * 4 + 2)
        (page_old_slot (32 + i * 4 + 2) 2 (omega arith) (omega (arith, p.lower))),
  )

  old_dead : (i : ℕ) → i < get_tuple_count buf → is_dead page i ≡ is_dead buf i
  old_dead i h = is_dead-slice page buf i (old_words i h).0 (old_words i h).1

  new_dead : is_dead page (get_tuple_count buf) ≡ (length tuple == 0)
  unfolding is_dead
  new_dead = ground (arith, page_slot, p.lower, p.upper)

  page_room : used (get_tuple_count page) page 0 + get_free_space_upper page ≤ 8192
  page_room =
      let count : get_tuple_count page ≡ suc (get_tuple_count buf) = omega (arith, page_count) in
      let older : used (get_tuple_count buf) page 0 ≡ used (get_tuple_count buf) buf 0 =
        used_same (get_tuple_count buf) page buf 0
          (λ i low high. (old_dead i (omega arith), (old_words i (omega arith)).1)) in
      omega (
        arith,
        ap (λ n. used n page 0) count,
        used_last (get_tuple_count buf) page 0,
        older,
        ap (cost page) (zero-add (get_tuple_count buf)),
        cost-le page (get_tuple_count buf),
        page_slot,
        page_upper,
        p.room,
      )

  pub page-IsPage : IsPage page
  page-IsPage = record {
    size =
        length-write_all (writes (get_tuple_count buf) low top tuple) buf
          (within (get_tuple_count buf))
        ∙ p.size;
    lower = omega (arith, page_lower, page_count, p.lower);
    order = omega (arith, page_lower, page_upper);
    upper = omega (arith, page_upper, p.upper);
    tuples = λ i h live. elim (dec_lt i (get_tuple_count buf)) [
      | yes older ↦
          omega
            (arith, page_upper, p.tuples i older (sym (old_dead i older) ∙ live), old_words i older)
      | no newer ↦
          let last : i ≡ get_tuple_count buf = omega (arith, page_count) in
          omega (arith, page_upper, ap (slot_offset page) last, page_slot)
    ];
    room = page_room;
  }

  pub get_tuple_new : 0 < length tuple → get_tuple page (get_tuple_count buf) ≡ some tuple
  unfolding get_tuple
  get_tuple_new some_bytes =
      let there : leb (get_tuple_count page) (get_tuple_count buf) ≡ false =
        ground (arith, page_count) in
      let live : is_dead page (get_tuple_count buf) ≡ false = new_dead ∙ ground arith in
      rw (there, live, page_slot.0, page_slot.1, tuple_of_page)

  pub get_tuple_old : (i : ℕ) → i ≢ get_tuple_count buf → get_tuple page i ≡ get_tuple buf i
  unfolding get_tuple
  get_tuple_old i other = elim (dec_lt i (get_tuple_count buf)) [
    | yes older ↦
        let t1 : leb (get_tuple_count page) i ≡ false = ground (arith, page_count) in
        let t2 : leb (get_tuple_count buf) i ≡ false = ground arith in
        elim (Bool-cases (is_dead buf i)) [
          | inl dead ↦ rw (t1, t2, old_dead i older, dead)
          | inr live ↦
              rw (t1, t2, old_dead i older, live, (old_words i older).0, (old_words i older).1)
                (ap some
                  (page_old_tuple (slot_offset buf i) (slot_len buf i) (p.tuples i older live)))
        ]
    | no newer ↦
        let t1 : leb (get_tuple_count page) i ≡ true = ground (arith, page_count) in
        let t2 : leb (get_tuple_count buf) i ≡ true = ground arith in rw (t1, t2)
  ]
