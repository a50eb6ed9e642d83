-- ===== src/BufferPool/SlottedPage.antt =====
-- crates/h2-mvstore/src/buffer_pool/slotted_page.rs: tuples in a page of 8192 bytes, which is a list
-- of as many numbers. On a well-formed page every range that an operation reads or writes is within
-- the page.
pub mod Layout
pub mod Written
pub mod Insert
pub mod Delete
pub mod WriteBack
pub mod Checks
pub mod Defragment
use h2database_rust.Prelude.{
  ℕ, zero, suc, ◌+◌, ◌-◌, ◌*◌, Bool, true, false, ◌||◌, Option, none, some, List, [], ◌∷◌, ltb, leb,
  ◌==◌, if◌then◌else◌, length, replicate,
}
use h2database_rust.Bytes.Order.{Bytes}
use h2database_rust.Bytes.Words.{be_bytes, from_be_bytes}
use h2database_rust.BufferPool.Slices.{slice, splice}

abbrev pub page_size : ℕ
page_size = 8192

abbrev pub page_header_size : ℕ
page_header_size = 32

abbrev pub slot_size : ℕ
slot_size = 4

-- `BigEndian::read_u16(&buf[at..at + 2])` and its like, of `n` bytes.
unfoldable pub read_word : ℕ → Bytes → ℕ → ℕ
read_word n buf at = from_be_bytes (slice buf at n)

unfoldable pub write_word : ℕ → Bytes → ℕ → ℕ → Bytes
write_word n buf at v = splice buf at (be_bytes n v)

unfoldable pub init : ℕ → ℕ → Bytes
init page_id page_type =
    let buf0 = write_word 4 (replicate page_size 0) 0 page_id in
    let buf1 = write_word 8 buf0 4 0 in
    let buf2 = splice buf1 12 (page_type ∷ []) in
    let buf3 = splice buf2 13 (0 ∷ []) in
    let buf4 = write_word 2 buf3 14 0 in
    let buf5 = write_word 2 buf4 16 page_header_size in
    let buf6 = write_word 2 buf5 18 page_size in write_word 4 buf6 20 0

abbrev pub get_page_id : Bytes → ℕ
get_page_id buf = read_word 4 buf 0

abbrev pub get_tuple_count : Bytes → ℕ
get_tuple_count buf = read_word 2 buf 14

abbrev pub get_free_space_lower : Bytes → ℕ
get_free_space_lower buf = read_word 2 buf 16

abbrev pub get_free_space_upper : Bytes → ℕ
get_free_space_upper buf = read_word 2 buf 18

unfoldable pub get_free_space : Bytes → ℕ
get_free_space buf =
    let lower = get_free_space_lower buf in
    let upper = get_free_space_upper buf in if leb lower upper then upper - lower else 0

unfoldable pub insert_tuple : Bytes → Bytes → Bytes × Option ℕ
insert_tuple buf tuple =
    let data_len = length tuple in
    let needed_space = data_len + slot_size in
    let lower = get_free_space_lower buf in
    let upper = get_free_space_upper buf in
    let new_upper = upper - data_len in
    let new_lower = lower + slot_size in
    let buf1 = splice buf new_upper tuple in
    let buf2 = write_word 2 buf1 lower new_upper in
    let buf3 = write_word 2 buf2 (lower + 2) data_len in
    let tuple_count = get_tuple_count buf3 in
    let buf4 = write_word 2 buf3 14 (tuple_count + 1) in
    let buf5 = write_word 2 buf4 16 new_lower in
    let buf6 = write_word 2 buf5 18 new_upper in
    if ltb (get_free_space buf) needed_space then (buf, none) else (buf6, some tuple_count)

abbrev pub slot_at : ℕ → ℕ
slot_at slot_id = page_header_size + slot_id * slot_size

abbrev pub slot_offset : Bytes → ℕ → ℕ
slot_offset buf slot_id = read_word 2 buf (slot_at slot_id)

abbrev pub slot_len : Bytes → ℕ → ℕ
slot_len buf slot_id = read_word 2 buf (slot_at slot_id + 2)

-- The test that a slot is deleted or invalid.
unfoldable pub is_dead : Bytes → ℕ → Bool
is_dead buf slot_id =
    let offset = slot_offset buf slot_id in
    let len = slot_len buf slot_id in offset == 0 || len == 0 || ltb page_size (offset + len)

unfoldable pub get_tuple : Bytes → ℕ → Option Bytes
get_tuple buf slot_id =
    if leb (get_tuple_count buf) slot_id
    then none
    else if is_dead buf slot_id
    then none
    else some (slice buf (slot_offset buf slot_id) (slot_len buf slot_id))

unfoldable pub delete_tuple : Bytes → ℕ → Bytes × Bool
delete_tuple buf slot_id =
    if leb (get_tuple_count buf) slot_id
    then (buf, false)
    else (write_word 2 (write_word 2 buf (slot_at slot_id) 0) (slot_at slot_id + 2) 0, true)

-- The loop over `slot_id..slot_id + n`.
unfoldable pub live_from : ℕ → Bytes → ℕ → ℕ
live_from zero buf slot_id = 0
live_from (suc n) buf slot_id =
    let rest = live_from n buf (suc slot_id) in if is_dead buf slot_id then rest else suc rest

unfoldable pub live_tuple_count : Bytes → ℕ
live_tuple_count buf = live_from (get_tuple_count buf) buf 0

unfoldable pub is_all_dead : Bytes → Bool
is_all_dead buf = live_tuple_count buf == 0

unfoldable pub mark_as_free : Bytes → Bytes
mark_as_free buf = init (get_page_id buf) 2

-- The live tuples with their slots, `temp_data` and `valid_slots`.
unfoldable pub collect_live : ℕ → Bytes → ℕ → List (ℕ × Bytes)
collect_live zero buf slot_id = []
collect_live (suc n) buf slot_id =
    let rest = collect_live n buf (suc slot_id) in
    if is_dead buf slot_id
    then rest
    else (slot_id, slice buf (slot_offset buf slot_id) (slot_len buf slot_id)) ∷ rest

-- The loop that writes the tuples back from the end of the page.
unfoldable pub write_back : List (ℕ × Bytes) → ℕ → Bytes → Bytes × ℕ
write_back [] current_upper buf = (buf, current_upper)
write_back ((slot_id, tuple) ∷ rest) current_upper buf =
    let upper = current_upper - length tuple in
    let buf1 = splice buf upper tuple in
    let buf2 = write_word 2 buf1 (slot_at slot_id) upper in
    write_back rest upper (write_word 2 buf2 (slot_at slot_id + 2) (length tuple))

unfoldable pub defragment : Bytes → Bytes
defragment buf =
    let live = collect_live (get_tuple_count buf) buf 0 in
    let (buf', current_upper) = write_back live page_size buf in write_word 2 buf' 18 current_upper

-- The checksum is taken over the page with its own field zero; `crc` is that of crc32fast.
unfoldable pub compute_and_write_checksum : (Bytes → ℕ) → Bytes → Bytes
compute_and_write_checksum crc buf =
    let buf1 = write_word 4 buf 20 0 in write_word 4 buf1 20 (crc buf1)

unfoldable pub verify_checksum : (Bytes → ℕ) → Bytes → Bool
verify_checksum crc buf =
    let stored_checksum = read_word 4 buf 20 in
    if stored_checksum == 0 then true else crc (write_word 4 buf 20 0) == stored_checksum
