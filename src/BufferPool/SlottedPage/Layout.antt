-- ===== src/BufferPool/SlottedPage/Layout.antt =====
-- The layout of a page of crates/h2-mvstore/src/buffer_pool/slotted_page.rs, and what a write leaves
-- of it.
use native.Mathlib.Nat.{add-zero}
use mathlib.Core.Path.{subst}
use h2database_rust.Prelude.{
  ℕ, zero, suc, ◌+◌, ◌*◌, ◌^◌, ◌≤◌, ◌<◌, ◌≡◌, ◌⊎◌, inl, inr, refl, sym, ap, ◌∙◌, false, some, List,
  [], ◌∷◌, ◌++◌, arith, length, leb, Bool-cases, if◌then◌else◌,
}
use h2database_rust.Bytes.Order.{Bytes}
use h2database_rust.Bytes.Words.{be_bytes, from_be_bytes}
use h2database_rust.Bytes.Words.Laws.{length-be_bytes, from_be_bytes-be_bytes}
use h2database_rust.BufferPool.Slices.{
  slice, splice, length-splice, slice-splice_self, slice-splice_below, slice-splice_above,
}
use h2database_rust.BufferPool.SlottedPage.{
  read_word, write_word, get_tuple_count, get_free_space_lower, get_free_space_upper, slot_offset,
  slot_len, is_dead, get_tuple,
}

-- The bytes at `from..from + n` and at `offset..offset + m` are apart.
abbrev pub AreApart : ℕ → ℕ → ℕ → ℕ → Type 0
AreApart from n offset m = (from + n ≤ offset) ⊎ (offset + m ≤ from)

pub slice-splice_apart :
    (buf : Bytes) (offset : ℕ) (bs : Bytes) (from n : ℕ)
    → offset + length bs ≤ length buf
    → AreApart from n offset (length bs)
    → slice (splice buf offset bs) from n ≡ slice buf from n
slice-splice_apart buf offset bs from n h (inl low) = slice-splice_below buf offset bs from n low
slice-splice_apart buf offset bs from n h (inr high) =
    slice-splice_above buf offset bs from n high h

pub length-write_word :
    (n : ℕ) (buf : Bytes) (at v : ℕ)
    → at + n ≤ length buf
    → length (write_word n buf at v) ≡ length buf
unfolding write_word
length-write_word n buf at v h =
    length-splice buf at (be_bytes n v) (omega (arith, length-be_bytes n v))

pub slice-write_word_apart :
    (n : ℕ) (buf : Bytes) (at v from m : ℕ)
    → at + n ≤ length buf
    → AreApart from m at n
    → slice (write_word n buf at v) from m ≡ slice buf from m
unfolding write_word
slice-write_word_apart n buf at v from m h (inl low) =
    slice-splice_below buf at (be_bytes n v) from m low
slice-write_word_apart n buf at v from m h (inr high) =
    slice-splice_above buf at (be_bytes n v) from m (omega (arith, length-be_bytes n v))
      (omega (arith, length-be_bytes n v))

pub read_word-write_word_self :
    (n : ℕ) (buf : Bytes) (at v : ℕ)
    → at + n ≤ length buf
    → v < 256 ^ n
    → read_word n (write_word n buf at v) at ≡ v
unfolding read_word write_word
read_word-write_word_self n buf at v h fits =
    let code : Bytes = be_bytes n v in
    let size : length code ≡ n = length-be_bytes n v in
    let back : slice (splice buf at code) at n ≡ code =
      subst (λ m. slice (splice buf at code) at m ≡ code) size
        (slice-splice_self buf at code (omega arith)) in
    ap from_be_bytes back ∙ from_be_bytes-be_bytes n v fits

pub read_word-slice :
    (n : ℕ) (a b : Bytes) (at : ℕ)
    → slice a at n ≡ slice b at n
    → read_word n a at ≡ read_word n b at
unfolding read_word
read_word-slice n a b at h = ap from_be_bytes h

-- Several writes, the first one first.
abbrev pub write_all : List (ℕ × Bytes) → Bytes → Bytes
write_all [] buf = buf
write_all ((offset, bs) ∷ ws) buf = write_all ws (splice buf offset bs)

abbrev pub AreWithin : ℕ → List (ℕ × Bytes) → Type 0
AreWithin size [] = Unit {0}
AreWithin size ((offset, bs) ∷ ws) = (offset + length bs ≤ size) × AreWithin size ws

abbrev pub AllApart : ℕ → ℕ → List (ℕ × Bytes) → Type 0
AllApart from n [] = Unit {0}
AllApart from n ((offset, bs) ∷ ws) = AreApart from n offset (length bs) × AllApart from n ws

pub length-write_all :
    (ws : List (ℕ × Bytes)) (buf : Bytes)
    → AreWithin (length buf) ws
    → length (write_all ws buf) ≡ length buf
length-write_all [] buf h = refl
length-write_all ((offset, bs) ∷ ws) buf h =
    let size : length (splice buf offset bs) ≡ length buf = length-splice buf offset bs h.0 in
    length-write_all ws (splice buf offset bs) (subst (λ n. AreWithin n ws) (sym size) h.1) ∙ size

pub slice-write_all :
    (ws : List (ℕ × Bytes)) (buf : Bytes) (from n : ℕ)
    → AreWithin (length buf) ws
    → AllApart from n ws
    → slice (write_all ws buf) from n ≡ slice buf from n
slice-write_all [] buf from n h a = refl
slice-write_all ((offset, bs) ∷ ws) buf from n h a =
    let size : length (splice buf offset bs) ≡ length buf = length-splice buf offset bs h.0 in
    slice-write_all ws (splice buf offset bs) from n (subst (λ n. AreWithin n ws) (sym size) h.1)
      a.1
    ∙ slice-splice_apart buf offset bs from n h.0 a.0

-- What one of the writes wrote is there if the later ones are apart from it.
pub slice-write_all_self :
    (offset : ℕ) (bs : Bytes) (ws : List (ℕ × Bytes)) (buf : Bytes)
    → AreWithin (length buf) ((offset, bs) ∷ ws)
    → AllApart offset (length bs) ws
    → slice (write_all ((offset, bs) ∷ ws) buf) offset (length bs) ≡ bs
slice-write_all_self offset bs ws buf h a =
    let size : length (splice buf offset bs) ≡ length buf = length-splice buf offset bs h.0 in
    slice-write_all ws (splice buf offset bs) offset (length bs)
      (subst (λ n. AreWithin n ws) (sym size) h.1) a
    ∙ slice-splice_self buf offset bs h.0

pub slice-write_all_at :
    (ps : List (ℕ × Bytes)) (offset : ℕ) (bs : Bytes) (ws : List (ℕ × Bytes)) (buf : Bytes)
    → AreWithin (length buf) (ps ++ ((offset, bs) ∷ ws))
    → AllApart offset (length bs) ws
    → slice (write_all (ps ++ ((offset, bs) ∷ ws)) buf) offset (length bs) ≡ bs
slice-write_all_at [] offset bs ws buf h a = slice-write_all_self offset bs ws buf h a
slice-write_all_at ((o, cs) ∷ ps) offset bs ws buf h a =
    let size : length (splice buf o cs) ≡ length buf = length-splice buf o cs h.0 in
    slice-write_all_at ps offset bs ws (splice buf o cs)
      (subst (λ n. AreWithin n (ps ++ ((offset, bs) ∷ ws))) (sym size) h.1) a

-- A 16-bit word that one of the writes wrote.
pub read_word-write_all_at :
    (ps : List (ℕ × Bytes)) (at v : ℕ) (ws : List (ℕ × Bytes)) (buf : Bytes)
    → AreWithin (length buf) (ps ++ ((at, be_bytes 2 v) ∷ ws))
    → AllApart at 2 ws
    → v < 65536
    → read_word 2 (write_all (ps ++ ((at, be_bytes 2 v) ∷ ws)) buf) at ≡ v
unfolding read_word
read_word-write_all_at ps at v ws buf h a fits =
    let code : Bytes = be_bytes 2 v in
    let size : length code ≡ 2 = length-be_bytes 2 v in
    let back : slice (write_all (ps ++ ((at, code) ∷ ws)) buf) at 2 ≡ code =
      subst (λ m. slice (write_all (ps ++ ((at, code) ∷ ws)) buf) at m ≡ code) size
        (slice-write_all_at ps at code ws buf h (subst (λ m. AllApart at m ws) (sym size) a)) in
    ap from_be_bytes back ∙ from_be_bytes-be_bytes 2 v (omega arith)

-- The bytes that a slot's tuple takes, and those of the slots `slot_id..slot_id + n`.
unfoldable pub cost : Bytes → ℕ → ℕ
cost buf slot_id = if is_dead buf slot_id then 0 else slot_len buf slot_id

unfoldable pub used : ℕ → Bytes → ℕ → ℕ
used zero buf slot_id = 0
used (suc n) buf slot_id = cost buf slot_id + used n buf (suc slot_id)

-- The slots end where the free space starts, the tuples lie behind the free space, and there is room
-- for all live ones there.
pub record IsPage (buf : Bytes) : Type 0 where
  pub size : length buf ≡ 8192
  pub lower : get_free_space_lower buf ≡ 32 + get_tuple_count buf * 4
  pub order : get_free_space_lower buf ≤ get_free_space_upper buf
  pub upper : get_free_space_upper buf ≤ 8192
  pub tuples :
      (i : ℕ)
      → i < get_tuple_count buf
      → is_dead buf i ≡ false
      → get_free_space_upper buf ≤ slot_offset buf i
  pub room : used (get_tuple_count buf) buf 0 + get_free_space_upper buf ≤ 8192

pub used_last :
    (n : ℕ) (buf : Bytes) (slot_id : ℕ)
    → used (suc n) buf slot_id ≡ used n buf slot_id + cost buf (slot_id + n)
unfolding used
used_last zero buf slot_id = omega (arith, ap (cost buf) (add-zero slot_id))
used_last (suc n) buf slot_id =
    let next : suc slot_id + n ≡ slot_id + suc n = omega arith in
    omega (arith, used_last n buf (suc slot_id), ap (cost buf) next)

-- A live slot has some bytes, behind the start of the page and within it.
pub is_dead_bounds :
    (buf : Bytes) (i : ℕ)
    → is_dead buf i ≡ false
    → (0 < slot_offset buf i) × (0 < slot_len buf i) × (slot_offset buf i + slot_len buf i ≤ 8192)
unfolding is_dead
is_dead_bounds buf i live = ground arith

pub cost-le : (buf : Bytes) (i : ℕ) → cost buf i ≤ slot_len buf i
unfolding cost
cost-le buf i = ground arith

-- A slot depends on its own four bytes.
pub is_dead-slice :
    (a b : Bytes) (i : ℕ)
    → slot_offset a i ≡ slot_offset b i
    → slot_len a i ≡ slot_len b i
    → is_dead a i ≡ is_dead b i
unfolding is_dead
is_dead-slice a b i o l = rw (o, l)

pub used_same :
    (n : ℕ) (a b : Bytes) (slot_id : ℕ)
    → ((i : ℕ)
        → slot_id ≤ i
        → i < slot_id + n
        → (is_dead a i ≡ is_dead b i) × (slot_len a i ≡ slot_len b i))
    → used n a slot_id ≡ used n b slot_id
unfolding used cost
used_same zero a b slot_id h = refl
used_same (suc n) a b slot_id h =
    let here = h slot_id (omega arith) (omega arith) in
    let rest = used_same n a b (suc slot_id) (λ i low high. h i (omega arith) (omega arith)) in
    rw (here.0, here.1, rest)

-- Pages that agree on a slot, and on the bytes of its tuple where it is live, have the same tuple.
pub get_tuple_same :
    (a b : Bytes) (i : ℕ)
    → get_tuple_count a ≡ get_tuple_count b
    → (slot_offset a i ≡ slot_offset b i) × (slot_len a i ≡ slot_len b i)
    → (i < get_tuple_count b
        → is_dead b i ≡ false
        → slice a (slot_offset b i) (slot_len b i) ≡ slice b (slot_offset b i) (slot_len b i))
    → get_tuple a i ≡ get_tuple b i
unfolding get_tuple
get_tuple_same a b i count words tuple = elim (Bool-cases (leb (get_tuple_count b) i)) [
  | inl past ↦ rw (count, past)
  | inr known ↦ elim (Bool-cases (is_dead b i)) [
    | inl dead ↦ rw (count, known, is_dead-slice a b i words.0 words.1, dead)
    | inr live ↦
        rw (count, known, is_dead-slice a b i words.0 words.1, live, words.0, words.1)
          (ap some (tuple (ground arith) live))
  ]
]
