-- ===== src/Tests/Pools.antt =====
-- A pool of two frames over a disk in memory.
use h2database_rust.Prelude.{
  ℕ, ◌≡◌, ◌≢◌, ◌↔◌, zero, suc, [], ◌∷◌, false, ◌^◌, ◌-◌, sym, ap, ◌∙◌, length, refl, ◌⊎◌, true,
  none, some, get_elem?, arith,
}
use h2database_rust.Prelude.HashMap
use h2database_rust.Bytes.Order.{Bytes}
use h2database_rust.BufferPool.Disk.{new_in_memory, blank, read_page, page_on_disk, allocate_page}
use h2database_rust.BufferPool.SlottedPage.{init, compute_and_write_checksum}
use h2database_rust.BufferPool.Manager.{
  BufferPoolManager, PageFrame, IoFaults, ok, err, panics, not_found, new, fetch_page, new_page,
  unpin_all, hit, on_victim, fetch_into, write_out, load, unmap, install, unpin_page, flush_page,
}
use h2database_rust.BufferPool.Manager.View.{view, IsPool}
use h2database_rust.BufferPool.Manager.Fetch.{fetch_page-view}
use h2database_rust.BufferPool.Manager.Unpin.{new-IsPool}
use h2database_rust.BufferPool.Manager.Pins.{IsPinSafe, unpin_page-pins}
use h2database_rust.BufferPool.Clock
use h2database_rust.BufferPool.Manager.Create.{new_page-view}
use h2database_rust.BufferPool.Manager.Flush.{flush_page-stored}

abbrev works : IoFaults
works = record { read_works = true; write_works = true }

abbrev pool : BufferPoolManager
pool = new new_in_memory 2

fetch_page-view_example :
    IsPool (fetch_page works pool 5).0
    × ((j : ℕ) → view (fetch_page works pool 5).0 j ≡ view pool j)
    × ((frame_id : ℕ)
        → (fetch_page works pool 5).1 ≡ ok frame_id
        → (frame : PageFrame) × (get_elem? (fetch_page works pool 5).0.frames frame_id ≡ some frame)
          × (frame.page_id ≡ 5)
          × (frame.content ≡ view pool 5))
fetch_page-view_example = fetch_page-view works pool 5 (new-IsPool new_in_memory 2) (omega arith)

abbrev fetched : BufferPoolManager
fetched = (fetch_page works pool 5).0

fetched-IsPool : IsPool fetched
fetched-IsPool = (fetch_page-view works pool 5 (new-IsPool new_in_memory 2) (omega arith)).0

abbrev fifth : PageFrame
fifth = record { content = blank; page_id = 5; pin_count = 1; is_dirty = false }

abbrev unused : PageFrame
unused = record { content = blank; page_id = 2 ^ 32 - 1; pin_count = 0; is_dirty = false }

fetched_shape :
    (fetched.frames ≡ fifth ∷ (unused ∷ []))
    × (fetched.replacer.in_replacer ≡ false ∷ (true ∷ []))
    × (fetched.replacer.num_frames ≡ 2)
    × (fetched.page_table ≡ (5, 0) ∷ [])
unfolding fetch_page hit on_victim fetch_into write_out load unmap install HashMap.get
    HashMap.insert Clock.victim Clock.victim_loop Clock.advance Clock.pin Clock.unpin Clock.new
    unpin_all new new_in_memory read_page page_on_disk
fetched_shape = (refl, refl, refl, refl)

offered_free :
    (f : ℕ) (frame : PageFrame)
    → get_elem? (fifth ∷ (unused ∷ [])) f ≡ some frame
    → get_elem? (false ∷ (true ∷ [])) f ≡ some true
    → frame.pin_count ≡ 0
offered_free zero frame at inside = absurd (cc)
offered_free (suc zero) frame at inside =
    let same : unused ≡ frame = cc in ap (λ (t : PageFrame). t.pin_count) (sym same)
offered_free (suc (suc f)) frame at inside = absurd (cc)

fetched-IsPinSafe : IsPinSafe fetched
fetched-IsPinSafe =
    let (frames, bits, number, _) = fetched_shape in
    record {
      frames = number ∙ sym (ap length frames);
      bits = ap length bits ∙ sym (ap length frames);
      free = λ f frame at inside.
          offered_free f frame (ap (λ l. get_elem? l f) (sym frames) ∙ at)
            (ap (λ l. get_elem? l f) (sym bits) ∙ inside);
    }

fifth_frame :
    (HashMap.get fetched.page_table 5 ≡ some 0)
    × (get_elem? fetched.frames 0 ≡ some fifth)
    × (HashMap.get fetched.page_table 6 ≡ none)
unfolding HashMap.get
fifth_frame =
    let (frames, _, _, table) = fetched_shape in
    (
      ap (λ m. HashMap.get m 5) table,
      ap (λ l. get_elem? l 0) frames,
      ap (λ m. HashMap.get m 6) table,
    )

unpin_page-pins_example :
    ((unpin_page fetched 5 true).1 ≡ ok tt)
    × IsPool (unpin_page fetched 5 true).0
    × IsPinSafe (unpin_page fetched 5 true).0
    × ((j : ℕ) → view (unpin_page fetched 5 true).0 j ≡ view fetched j)
    × (get_elem? (unpin_page fetched 5 true).0.frames 0
        ≡ some (record { content = blank; page_id = 5; pin_count = 0; is_dirty = true }))
    × ((get_elem? (unpin_page fetched 5 true).0.replacer.in_replacer 0 ≡ some true)
        ↔ ◌≡◌ {A = ℕ} 0 0)
    × (unpin_page fetched 6 true ≡ (fetched, err not_found))
unpin_page-pins_example =
    unpin_page-pins fetched 5 true 0 0 fifth 6 fetched-IsPool fetched-IsPinSafe fifth_frame.0
      fifth_frame.1 refl (omega arith) fifth_frame.2

abbrev dirty : BufferPoolManager
dirty = (unpin_page fetched 5 true).0

dirty-IsPool : IsPool dirty
dirty-IsPool =
    (unpin_page-pins fetched 5 true 0 0 fifth 6 fetched-IsPool fetched-IsPinSafe fifth_frame.0
      fifth_frame.1 refl (omega arith) fifth_frame.2).1

abbrev crc : Bytes → ℕ
crc bytes = 7

flush_page-stored_example :
    IsPool (flush_page crc works dirty 5).0
    × ((j : ℕ) → 5 ≢ j → view (flush_page crc works dirty 5).0 j ≡ view dirty j)
    × ((view (flush_page crc works dirty 5).0 5 ≡ view dirty 5)
        ⊎ (view (flush_page crc works dirty 5).0 5 ≡ compute_and_write_checksum crc (view dirty 5)))
    × ((flush_page crc works dirty 5).1 ≡ ok tt
        → page_on_disk (flush_page crc works dirty 5).0.disk_manager 5
          ≡ view (flush_page crc works dirty 5).0 5)
    × ((flush_page crc works dirty 5).1 ≢ panics)
flush_page-stored_example = flush_page-stored crc works dirty 5 dirty-IsPool

new_page-view_example :
    IsPool (new_page works pool 1).0
    × ((j : ℕ)
        → (allocate_page pool.disk_manager).1 ≢ j
        → view (new_page works pool 1).0 j ≡ view pool j)
    × ((a : ℕ × ℕ)
        → (new_page works pool 1).1 ≡ ok a
        → (a.0 ≡ (allocate_page pool.disk_manager).1)
          × (HashMap.get (new_page works pool 1).0.page_table (allocate_page pool.disk_manager).1
              ≡ some a.1)
          × (view (new_page works pool 1).0 (allocate_page pool.disk_manager).1
              ≡ init (allocate_page pool.disk_manager).1 1))
unfolding new new_in_memory allocate_page HashMap.get
new_page-view_example = new_page-view works pool 1 (new-IsPool new_in_memory 2) refl (omega arith)
