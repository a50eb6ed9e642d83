-- ===== src/BufferPool/Manager/Flush.antt =====
-- `flush_page` of crates/h2-mvstore/src/buffer_pool/mod.rs.
use mathlib.Core.Path.{subst}
use h2database_rust.Prelude.{
  ℕ, ◌≡◌, ◌≢◌, ◌⊎◌, refl, sym, ap, ◌∙◌, Bool, true, false, none, some, arith, if◌then◌else◌,
  get_elem?, set, Option-cases, Bool-cases, inl, inr,
}
use h2database_rust.Prelude.HashMap
use h2database_rust.Prelude.HashMap.{HashMap, get-insert, get-remove}
use h2database_rust.Bytes.Order.{Bytes}
use h2database_rust.BufferPool.Disk.{DiskManager, page_on_disk, write_page}
use h2database_rust.BufferPool.Manager.{
  PageFrame, BufferPoolManager, with_frame, io_error, Outcome, ok, err, panics, flush_frame,
  flush_page, IoFaults,
}
use h2database_rust.BufferPool.Manager.View.{
  page_on_disk-write_page, view, view_absent, view_present, IsPool,
}
use h2database_rust.BufferPool.Manager.Touch.{view-touched_self, view-touched_ne, touched-IsPool}
use h2database_rust.BufferPool.SlottedPage.{compute_and_write_checksum}

if-true : {A : Type 0} (b : Bool) (x y : A) → b ≡ true → (if b then x else y) ≡ x
if-true true x y e = refl
if-true false x y e = absurd (cc)

module _ (crc : Bytes → ℕ) (faults : IoFaults) (p : BufferPoolManager) (page_id : ℕ) where
  -- The flushed page has its checksum or is as it was; after a success it is on disk.
  Flushed : BufferPoolManager × Outcome (Unit {0}) → Type 0
  Flushed (p', o) =
      IsPool p'
      × ((j : ℕ) → page_id ≢ j → view p' j ≡ view p j)
      × ((view p' page_id ≡ view p page_id)
          ⊎ (view p' page_id ≡ compute_and_write_checksum crc (view p page_id)))
      × (o ≡ ok tt → page_on_disk p'.disk_manager page_id ≡ view p' page_id)
      × (o ≢ panics)

  flush_missing :
      HashMap.get p.page_table page_id ≡ none → flush_page crc faults p page_id ≡ (p, ok tt)
  unfolding flush_page
  flush_missing e = rw (e, flush_page) refl

  missing-Flushed : IsPool p → HashMap.get p.page_table page_id ≡ none → Flushed (p, ok tt)
  unfolding Flushed
  missing-Flushed v e = (v, λ j q. refl, inl refl, λ q. sym (view_absent p page_id e), λ q. cc)

  module _ (v : IsPool p) (frame_id : ℕ) (frame : PageFrame)
      (e : HashMap.get p.page_table page_id ≡ some frame_id)
      (at : get_elem? p.frames frame_id ≡ some frame) (name : frame.page_id ≡ page_id) where
    summed : PageFrame
    summed = record frame { content = compute_and_write_checksum crc frame.content }

    flush_clean : frame.is_dirty ≡ false → flush_page crc faults p page_id ≡ (p, ok tt)
    unfolding flush_page flush_frame
    flush_clean q = rw (e, at, flush_page, q, flush_frame) refl

    flush_failed :
        frame.is_dirty ≡ true
        → write_page p.disk_manager faults.write_works page_id summed.content ≡ none
        → flush_page crc faults p page_id ≡ (with_frame p frame_id summed, err io_error)
    unfolding flush_page flush_frame summed
    flush_failed q w = rw (e, at, flush_page, w, flush_frame) (if-true frame.is_dirty _ _ q)

    flush_written :
        (disk : DiskManager)
        → frame.is_dirty ≡ true
        → write_page p.disk_manager faults.write_works page_id summed.content ≡ some disk
        → flush_page crc faults p page_id ≡ (
          record (with_frame p frame_id (record summed { is_dirty = false })) {
            disk_manager = disk;
          },
          ok tt,
        )
    unfolding flush_page flush_frame summed
    flush_written disk q w = rw (e, at, flush_page, q, w, flush_frame) refl

    clean-Flushed : frame.is_dirty ≡ false → Flushed (p, ok tt)
    unfolding Flushed
    clean-Flushed q = (
      v,
      λ j other. refl,
      inl refl,
      λ r. v.clean page_id frame_id frame e at q ∙ sym (view_present p page_id frame_id frame e at),
      λ r. cc,
    )

    module _ (disk : DiskManager) (new : PageFrame)
        (others : (j : ℕ) → j ≢ page_id → page_on_disk disk j ≡ page_on_disk p.disk_manager j)
        (as_on_disk : new.is_dirty ≡ false → page_on_disk disk page_id ≡ new.content)
        (new_name : new.page_id ≡ page_id)
        (content : new.content ≡ compute_and_write_checksum crc frame.content)
        (o : Outcome (Unit {0})) (flushed : o ≡ ok tt → new.is_dirty ≡ false)
        (safe : o ≢ panics) where
      written-Flushed : Flushed (
        record p { disk_manager = disk; replacer = p.replacer; frames = set p.frames frame_id new },
        o,
      )
      unfolding Flushed
      written-Flushed =
          let inside : (g : ℕ)
              → get_elem? p.replacer.in_replacer g ≡ some true
              → (get_elem? p.replacer.in_replacer g ≡ some true) ⊎ (frame_id ≡ g) =
            λ g q. inl q in
          let self =
            view-touched_self p v page_id frame_id frame new e at new_name disk others as_on_disk
              p.replacer inside in
          (
            touched-IsPool p v page_id frame_id frame new e at new_name disk others as_on_disk
                p.replacer inside,
            view-touched_ne p v page_id frame_id frame new e at new_name disk others as_on_disk
                p.replacer inside,
            inr (
                self
                ∙ content
                ∙ ap (compute_and_write_checksum crc)
                    (sym (view_present p page_id frame_id frame e at))),
            λ q. as_on_disk (flushed q) ∙ sym self,
            safe,
          )

    dirty-Flushed : frame.is_dirty ≡ true → Flushed (flush_page crc faults p page_id)
    unfolding summed
    dirty-Flushed q =
        elim (Option-cases (write_page p.disk_manager faults.write_works page_id summed.content)) [
          | inl w ↦ subst Flushed (sym (flush_failed q w)) (
              written-Flushed p.disk_manager summed (λ j other. refl) (λ r. absurd (cc)) name refl
                (err io_error) (λ r. absurd (cc)) (λ r. cc))
          | inr (disk, w) ↦
              let stored = page_on_disk-write_page p.disk_manager disk faults.write_works page_id in
              subst Flushed (sym (flush_written disk q w)) (
                written-Flushed disk (record summed { is_dirty = false })
                  (λ j other. ground (arith, stored j summed.content w))
                  (λ r. ground (arith, stored page_id summed.content w)) name refl (ok tt)
                  (λ r. refl) (λ r. cc))
        ]

  flush_page-Flushed : IsPool p → Flushed (flush_page crc faults p page_id)
  flush_page-Flushed v = elim (Option-cases (HashMap.get p.page_table page_id)) [
    | inl e ↦ subst Flushed (sym (flush_missing e)) (missing-Flushed v e)
    | inr (frame_id, e) ↦
        let (frame, at, name) = v.mapped page_id frame_id e in
        elim (Bool-cases frame.is_dirty) [
          | inl q ↦ dirty-Flushed v frame_id frame e at name q
          | inr q ↦
              subst Flushed (sym (flush_clean v frame_id frame e at name q))
                (clean-Flushed v frame_id frame e at name q)
        ]
  ]

-- In a pool whose frames, table and clock agree, `flush_page` keeps them in agreement, whether the
-- write works or not, and does not panic. It leaves the content of every other page, and that of its
-- own page but for a checksum; if it returns without an error, the disk holds the page's content.
pub flush_page-stored :
    (crc : Bytes → ℕ) (faults : IoFaults) (p : BufferPoolManager) (page_id : ℕ)
    → IsPool p
    → IsPool (flush_page crc faults p page_id).0
      × ((j : ℕ) → page_id ≢ j → view (flush_page crc faults p page_id).0 j ≡ view p j)
      × ((view (flush_page crc faults p page_id).0 page_id ≡ view p page_id)
          ⊎ (view (flush_page crc faults p page_id).0 page_id
              ≡ compute_and_write_checksum crc (view p page_id)))
      × ((flush_page crc faults p page_id).1 ≡ ok tt
          → page_on_disk (flush_page crc faults p page_id).0.disk_manager page_id
            ≡ view (flush_page crc faults p page_id).0 page_id)
      × ((flush_page crc faults p page_id).1 ≢ panics)
unfolding Flushed
flush_page-stored crc faults p page_id v = flush_page-Flushed crc faults p page_id v
