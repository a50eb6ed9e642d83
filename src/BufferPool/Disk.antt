-- ===== src/BufferPool/Disk.antt =====
-- crates/h2-mvstore/src/buffer_pool/disk_manager.rs: the pages on disk, in a file or in memory. A read
-- or a write that fails is an argument, `works`.
use h2database_rust.Prelude.{
  ℕ, ◌+◌, ◌%◌, ◌^◌, Bool, false, not, ◌&&◌, ◌||◌, Option, none, some, List, [], ◌∷◌, leb, ◌==◌,
  if◌then◌else◌, replicate,
}
use h2database_rust.Prelude.HashMap
use h2database_rust.Prelude.HashMap.{HashMap}
use h2database_rust.Bytes.Order.{Bytes}
use h2database_rust.BufferPool.SlottedPage.{page_size}

-- `pages` are those that were written; a file has `extent` pages, of which the others are zeros.
-- `free_pages` has its last page first.
pub record DiskManager : Type 0 where
  pub in_file : Bool
  pub pages : HashMap Bytes
  pub extent : ℕ
  pub num_pages : ℕ
  pub free_pages : List ℕ

unfoldable pub new_in_memory : DiskManager
new_in_memory = record { in_file = false; pages = []; extent = 0; num_pages = 0; free_pages = [] }

unfoldable pub blank : Bytes
blank = replicate page_size 0

unfoldable pub page_on_disk : DiskManager → ℕ → Bytes
page_on_disk d page_id = elim (HashMap.get d.pages page_id) [ none ↦ blank | some bytes ↦ bytes ]

-- `none` is an error: `read_exact` finds too few bytes, or the disk fails.
unfoldable pub read_page : DiskManager → Bool → ℕ → Option Bytes
read_page d works page_id =
    if d.in_file && (not works || leb d.extent page_id) then none else some (page_on_disk d page_id)

-- The page after `u32::MAX`, which is no page of the pool, is not met.
unfoldable pub write_page : DiskManager → Bool → ℕ → Bytes → Option DiskManager
write_page d works page_id buf =
    if d.in_file && not works
    then none
    else some (record d {
      pages = HashMap.insert d.pages page_id buf;
      extent = if leb d.extent page_id then page_id + 1 else d.extent;
      num_pages = if leb d.num_pages page_id then page_id + 1 else d.num_pages;
    })

abbrev pub pop_or_next : List ℕ → DiskManager → DiskManager × ℕ
pop_or_next [] d = (record d { num_pages = (d.num_pages + 1) % 2 ^ 32 }, d.num_pages)
pop_or_next (page_id ∷ rest) d = (record d { free_pages = rest }, page_id)

unfoldable pub allocate_page : DiskManager → DiskManager × ℕ
allocate_page d = pop_or_next d.free_pages d

unfoldable pub contains : List ℕ → ℕ → Bool
contains [] page_id = false
contains (p ∷ ps) page_id = p == page_id || contains ps page_id

unfoldable pub deallocate_page : DiskManager → ℕ → DiskManager
deallocate_page d page_id =
    if contains d.free_pages page_id then d else record d { free_pages = page_id ∷ d.free_pages }
