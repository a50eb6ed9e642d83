-- ===== src/BufferPool/SlottedPage/Insert.antt =====
-- What `insert_tuple` of crates/h2-mvstore/src/buffer_pool/slotted_page.rs does to a well-formed page.

use native.Mathlib.Decide.{dec_lt}
use h2database_rust.Prelude.{ℕ, ◌+◌, ◌≤◌, ◌<◌, ◌≡◌, ◌≢◌, refl, true, none, some, arith, length, ltb}
use h2database_rust.Bytes.Order.{Bytes}
use h2database_rust.BufferPool.SlottedPage.{
  get_tuple_count, get_free_space_lower, get_free_space_upper, get_free_space, insert_tuple,
  get_tuple,
}
use h2database_rust.BufferPool.SlottedPage.Layout.{IsPage}
use h2database_rust.BufferPool.SlottedPage.Written.{
  insert_tuple_lem, page-IsPage, get_tuple_new, get_tuple_old,
}

-- An insertion that does not fit is refused.
insert_tuple_refused :
    (buf tuple : Bytes)
    → get_free_space buf < length tuple + 4
    → insert_tuple buf tuple ≡ (buf, none)
unfolding insert_tuple
insert_tuple_refused buf tuple h =
    let refused : ltb (get_free_space buf) (length tuple + 4) ≡ true = ground arith in rw refused

space :
    (buf : Bytes) (p : IsPage buf)
    → get_free_space buf + get_free_space_lower buf ≡ get_free_space_upper buf
unfolding get_free_space
space buf p = ground (arith, p.order)

-- Whatever is inserted, the page stays well-formed.
pub insert_tuple-IsPage : (buf tuple : Bytes) → IsPage buf → IsPage (insert_tuple buf tuple).0
insert_tuple-IsPage buf tuple p = elim (dec_lt (get_free_space buf) (length tuple + 4)) [
  | yes small ↦ rw (insert_tuple_refused buf tuple small) p
  | no large ↦
      let fits : get_free_space_lower buf + (length tuple + 4) ≤ get_free_space_upper buf =
        omega (arith, space buf p) in
      rw (insert_tuple_lem buf tuple p fits) (page-IsPage buf tuple p fits)
]

-- Where a tuple of some bytes fits with its slot in the free space of a well-formed page, it gets the
-- next slot and is read back from there, every other slot reads as before, and the page stays
-- well-formed.
pub get_tuple-insert_tuple :
    (buf tuple : Bytes)
    → IsPage buf
    → length tuple + 4 ≤ get_free_space buf
    → 0 < length tuple
    → ((insert_tuple buf tuple).1 ≡ some (get_tuple_count buf))
      × IsPage (insert_tuple buf tuple).0
      × (get_tuple (insert_tuple buf tuple).0 (get_tuple_count buf) ≡ some tuple)
      × ((i : ℕ)
          → i ≢ get_tuple_count buf
          → get_tuple (insert_tuple buf tuple).0 i ≡ get_tuple buf i)
get_tuple-insert_tuple buf tuple p h some_bytes =
    let fits : get_free_space_lower buf + (length tuple + 4) ≤ get_free_space_upper buf =
      omega (arith, space buf p) in
    rw (insert_tuple_lem buf tuple p fits) (
      refl,
      page-IsPage buf tuple p fits,
      get_tuple_new buf tuple p fits some_bytes,
      get_tuple_old buf tuple p fits,
    )
