-- ===== src/BufferPool/Manager.antt =====
-- crates/h2-mvstore/src/buffer_pool/mod.rs: the pool of frames over the disk, the methods one after
-- another. `IoFaults` says which calls of the disk work. Pin counts are `u32` and wrap around.
pub mod View
pub mod Install
pub mod Touch
pub mod Victim
pub mod Load
pub mod Fetch
pub mod Create
pub mod Unpin
pub mod Pins
pub mod Flush
use h2database_rust.Prelude.{
  ℕ, zero, suc, ◌+◌, ◌-◌, ◌%◌, ◌^◌, Bool, true, false, not, ◌&&◌, Option, none, some, List, [], ◌∷◌,
  ◌==◌, if◌then◌else◌, get_elem?, set, replicate,
}
use h2database_rust.Prelude.HashMap
use h2database_rust.Prelude.HashMap.{HashMap}
use h2database_rust.Bytes.Order.{Bytes}
use h2database_rust.BufferPool.Clock
use h2database_rust.BufferPool.Clock.{ClockReplacer, victim}
use h2database_rust.BufferPool.Disk.{
  DiskManager, blank, read_page, write_page, allocate_page, deallocate_page,
}
use h2database_rust.BufferPool.SlottedPage.{
  init, mark_as_free, is_all_dead, compute_and_write_checksum, defragment as defragment_page,
}

-- `u32::MAX`, the id of a frame with no page.
abbrev pub no_page : ℕ
no_page = 2 ^ 32 - 1

pub record PageFrame : Type 0 where
  pub content : Bytes
  pub page_id : ℕ
  pub pin_count : ℕ
  pub is_dirty : Bool

pub record BufferPoolManager : Type 0 where
  pub disk_manager : DiskManager
  pub replacer : ClockReplacer
  pub frames : List PageFrame
  pub page_table : HashMap ℕ

pub record IoFaults : Type 0 where
  pub read_works : Bool
  pub write_works : Bool

pub data PoolError : Type 0 where
  all_pinned : PoolError
  io_error : PoolError
  not_found : PoolError

-- `panics` is an index out of range.
pub data Outcome (A : Type 0) : Type 0 where
  ok : A → Outcome A
  err : PoolError → Outcome A
  panics : Outcome A

unfoldable pub unpin_all : ℕ → ClockReplacer → ClockReplacer
unpin_all zero c = c
unpin_all (suc n) c = Clock.unpin (unpin_all n c) n

unfoldable pub new : DiskManager → ℕ → BufferPoolManager
new disk pool_size = record {
  disk_manager = disk;
  replacer = unpin_all pool_size (Clock.new pool_size);
  frames =
      replicate pool_size
        (record { content = blank; page_id = no_page; pin_count = 0; is_dirty = false });
  page_table = [];
}

abbrev pub with_frame : BufferPoolManager → ℕ → PageFrame → BufferPoolManager
with_frame p frame_id frame = record p { frames = set p.frames frame_id frame }

-- The first part of a miss: a dirty page goes to the disk, `none` if that fails.
unfoldable pub write_out : DiskManager → Bool → PageFrame → Option DiskManager
write_out disk works frame =
    if frame.is_dirty && not (frame.page_id == no_page)
    then write_page disk works frame.page_id frame.content
    else some disk

unfoldable pub unmap : HashMap ℕ → PageFrame → HashMap ℕ
unmap page_table frame =
    if frame.page_id == no_page then page_table else HashMap.remove page_table frame.page_id

-- The victim frame is given its new page; the clock has let it go.
unfoldable pub install : BufferPoolManager → ℕ → PageFrame → BufferPoolManager
install p frame_id frame = record (with_frame p frame_id frame) {
  page_table = HashMap.insert p.page_table frame.page_id frame_id;
  replacer = Clock.pin p.replacer frame_id;
}

-- After the dirty page was written, the new one is read. A page that cannot be read leaves the frame
-- with the old page's id, unmapped; its bytes, of which a short read may leave some changed, are no
-- longer looked at.
unfoldable pub load :
    IoFaults → BufferPoolManager → ℕ → PageFrame → ℕ → BufferPoolManager × Outcome ℕ
load faults p frame_id frame page_id =
    let unmapped = record p { page_table = unmap p.page_table frame } in
    let clean = record frame { is_dirty = false } in
    elim (read_page p.disk_manager faults.read_works page_id) [
      | none ↦ (with_frame unmapped frame_id clean, err io_error)
      | some bytes ↦ (
        install unmapped frame_id
            (record { content = bytes; page_id = page_id; pin_count = 1; is_dirty = false }),
        ok frame_id,
      )
    ]

unfoldable pub fetch_into :
    IoFaults → BufferPoolManager → ℕ → PageFrame → ℕ → BufferPoolManager × Outcome ℕ
fetch_into faults p frame_id frame page_id =
    elim (write_out p.disk_manager faults.write_works frame) [
      | none ↦ (p, err io_error)
      | some disk ↦ load faults (record p { disk_manager = disk }) frame_id frame page_id
    ]

-- A step for the frame that the clock chose, after the replacer has let it go.
unfoldable pub on_victim :
    {A : Type 0}
    → BufferPoolManager
    → (BufferPoolManager → ℕ → PageFrame → BufferPoolManager × Outcome A)
    → BufferPoolManager × Outcome A
on_victim p step = elim (victim p.replacer) [
  | none ↦ (p, panics)
  | some (replacer, none) ↦ (record p { replacer = replacer }, err all_pinned)
  | some (replacer, some frame_id) ↦ elim (get_elem? p.frames frame_id) [
    | none ↦ (record p { replacer = replacer }, panics)
    | some frame ↦ step (record p { replacer = replacer }) frame_id frame
  ]
]

unfoldable pub hit : BufferPoolManager → ℕ → BufferPoolManager × Outcome ℕ
hit p frame_id = elim (get_elem? p.frames frame_id) [
  | none ↦ (p, panics)
  | some frame ↦ (
    record (with_frame p frame_id (record frame { pin_count = (frame.pin_count + 1) % 2 ^ 32 })) {
      replacer = Clock.pin p.replacer frame_id;
    },
    ok frame_id,
  )
]

unfoldable pub fetch_page : IoFaults → BufferPoolManager → ℕ → BufferPoolManager × Outcome ℕ
fetch_page faults p page_id = elim (HashMap.get p.page_table page_id) [
  | some frame_id ↦ hit p frame_id
  | none ↦ on_victim p (λ p' frame_id frame. fetch_into faults p' frame_id frame page_id)
]

-- The new page of `new_page`; it is dirty from the start.
unfoldable pub create_into :
    IoFaults → BufferPoolManager → ℕ → PageFrame → ℕ → ℕ → BufferPoolManager × Outcome (ℕ × ℕ)
create_into faults p frame_id frame new_page_id page_type =
    elim (write_out p.disk_manager faults.write_works frame) [
      | none ↦ (p, err io_error)
      | some disk ↦ (
        install (record p { disk_manager = disk; page_table = unmap p.page_table frame }) frame_id
            (record {
              content = init new_page_id page_type;
              page_id = new_page_id;
              pin_count = 1;
              is_dirty = true;
            }),
        ok (new_page_id, frame_id),
      )
    ]

unfoldable pub new_page : IoFaults → BufferPoolManager → ℕ → BufferPoolManager × Outcome (ℕ × ℕ)
new_page faults p page_type = on_victim p (λ p' frame_id frame.
    let (disk, new_page_id) = allocate_page p'.disk_manager in
    create_into faults (record p' { disk_manager = disk }) frame_id frame new_page_id page_type)

-- `fetch_sub` wraps around, and the frame goes back to the clock where the count was 1.
unfoldable pub unpin_page : BufferPoolManager → ℕ → Bool → BufferPoolManager × Outcome (Unit {0})
unpin_page p page_id is_dirty = elim (HashMap.get p.page_table page_id) [
  | none ↦ (p, err not_found)
  | some frame_id ↦ elim (get_elem? p.frames frame_id) [
    | none ↦ (p, panics)
    | some frame ↦
        let frame' = record frame {
          pin_count = (frame.pin_count + (2 ^ 32 - 1)) % 2 ^ 32;
          is_dirty = if is_dirty then true else frame.is_dirty;
        } in
        (
          record (with_frame p frame_id frame') {
            replacer = if frame.pin_count == 1 then Clock.unpin p.replacer frame_id else p.replacer;
          },
          ok tt,
        )
  ]
]

-- The write of a dirty frame with its checksum.
unfoldable pub flush_frame :
    (Bytes → ℕ)
    → IoFaults
    → BufferPoolManager
    → ℕ
    → ℕ
    → PageFrame
    → BufferPoolManager × Outcome (Unit {0})
flush_frame crc faults p page_id frame_id frame =
    let summed = record frame { content = compute_and_write_checksum crc frame.content } in
    if frame.is_dirty
    then elim (write_page p.disk_manager faults.write_works page_id summed.content) [
      | none ↦ (with_frame p frame_id summed, err io_error)
      | some disk ↦ (
        record (with_frame p frame_id (record summed { is_dirty = false })) { disk_manager = disk },
        ok tt,
      )
    ]
    else (p, ok tt)

unfoldable pub flush_page :
    (Bytes → ℕ) → IoFaults → BufferPoolManager → ℕ → BufferPoolManager × Outcome (Unit {0})
flush_page crc faults p page_id = elim (HashMap.get p.page_table page_id) [
  | none ↦ (p, ok tt)
  | some frame_id ↦ elim (get_elem? p.frames frame_id) [
    | none ↦ (p, panics)
    | some frame ↦ flush_frame crc faults p page_id frame_id frame
  ]
]

-- What follows a successful call, `?`.
infixl 5 ◌>>=◌
abbrev pub ◌>>=◌ :
    {A B : Type 0}
    → BufferPoolManager × Outcome A
    → (A → BufferPoolManager → BufferPoolManager × Outcome B)
    → BufferPoolManager × Outcome B
(p, ok a) >>= f = f a p
(p, err e) >>= f = (p, err e)
(p, panics) >>= f = (p, panics)

-- The loop of `flush_all`, which an error ends.
unfoldable pub flush_each :
    (Bytes → ℕ) → IoFaults → HashMap ℕ → BufferPoolManager → BufferPoolManager × Outcome (Unit {0})
flush_each crc faults [] p = (p, ok tt)
flush_each crc faults ((page_id, frame_id) ∷ rest) p = elim (get_elem? p.frames frame_id) [
  | none ↦ (p, panics)
  | some frame ↦
      flush_frame crc faults p page_id frame_id frame >>= λ _ p'. flush_each crc faults rest p'
]

unfoldable pub flush_all :
    (Bytes → ℕ) → IoFaults → BufferPoolManager → BufferPoolManager × Outcome (Unit {0})
flush_all crc faults p = flush_each crc faults p.page_table p

-- The page of a frame is changed, and the frame is dirty.
unfoldable pub rewrite :
    (Bytes → Bytes) → ℕ → BufferPoolManager → BufferPoolManager × Outcome (Unit {0})
rewrite f frame_id p = elim (get_elem? p.frames frame_id) [
  | none ↦ (p, panics)
  | some frame ↦
      (with_frame p frame_id (record frame { content = f frame.content; is_dirty = true }), ok tt)
]

unfoldable pub deallocate : ℕ → BufferPoolManager → BufferPoolManager
deallocate page_id p = record p { disk_manager = deallocate_page p.disk_manager page_id }

unfoldable pub free_page : IoFaults → BufferPoolManager → ℕ → BufferPoolManager × Outcome (Unit {0})
free_page faults p page_id = fetch_page faults p page_id >>= λ frame_id p1.
    rewrite mark_as_free frame_id p1 >>= λ _ p2.
    unpin_page p2 page_id true >>= λ _ p3. (deallocate page_id p3, ok tt)

-- `true` if the page had no tuples and was freed, `false` if it was defragmented.
unfoldable pub vacuum_page : IoFaults → BufferPoolManager → ℕ → BufferPoolManager × Outcome Bool
vacuum_page faults p page_id = fetch_page faults p page_id >>= λ frame_id p1.
    elim (get_elem? p1.frames frame_id) [
      | none ↦ (p1, panics)
      | some frame ↦
          if is_all_dead frame.content
          then (rewrite mark_as_free frame_id p1 >>= λ _ p2.
              unpin_page p2 page_id true >>= λ _ p3. (deallocate page_id p3, ok true))
          else (rewrite defragment_page frame_id p1 >>= λ _ p2.
              unpin_page p2 page_id true >>= λ _ p3. (p3, ok false))
    ]
