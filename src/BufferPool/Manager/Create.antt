-- ===== src/BufferPool/Manager/Create.antt =====
-- `new_page` of crates/h2-mvstore/src/buffer_pool/mod.rs.
use mathlib.Core.Path.{subst}
use h2database_rust.Prelude.{
  ℕ, ◌≡◌, ◌≢◌, refl, sym, ap, ◌∙◌, true, false, none, some, arith, get_elem?, set, Option-cases,
  inl, inr, List, [], ◌∷◌,
}
use h2database_rust.Prelude.HashMap
use h2database_rust.Prelude.HashMap.{HashMap, get-insert, get-remove}
use h2database_rust.BufferPool.Clock.{ClockReplacer}
use h2database_rust.BufferPool.Disk.{DiskManager, page_on_disk, allocate_page, pop_or_next}
use h2database_rust.BufferPool.Manager.{
  no_page, PageFrame, BufferPoolManager, write_out, install, IoFaults, io_error, Outcome, ok, err,
  new_page, create_into,
}
use h2database_rust.BufferPool.Manager.View.{view, IsPool}
use h2database_rust.BufferPool.Manager.Install.{view-install_self, view-install_ne, install-IsPool}
use h2database_rust.BufferPool.Manager.Victim.{
  view-rebased, rebased-IsPool, kept, on_victim-cases, out, base, base-IsPool, base-unused,
  base-missing, base-view,
}
use h2database_rust.BufferPool.SlottedPage.{init}

pages_kept : (d : DiskManager) (j : ℕ) → page_on_disk (allocate_page d).0 j ≡ page_on_disk d j
unfolding allocate_page page_on_disk
pages_kept d j = go d.free_pages
  where
    go : (l : List ℕ) → page_on_disk (pop_or_next l d).0 j ≡ page_on_disk d j
    go [] = refl
    go (page_id ∷ rest) = refl

-- Every page but the new one is as it was; the new one, if it is returned, is an empty page.
abbrev Created : BufferPoolManager → ℕ → ℕ → BufferPoolManager × Outcome (ℕ × ℕ) → Type 0
Created p new_page_id page_type (p', o) =
    IsPool p'
    × ((j : ℕ) → new_page_id ≢ j → view p' j ≡ view p j)
    × ((a : ℕ × ℕ)
        → o ≡ ok a
        → (a.0 ≡ new_page_id)
          × (HashMap.get p'.page_table new_page_id ≡ some a.1)
          × (view p' new_page_id ≡ init new_page_id page_type))

ok_pair : (a b : ℕ × ℕ) → ok a ≡ ok b → a ≡ b
ok_pair a b e = cc

module _ (p : BufferPoolManager) (v : IsPool p) (frame_id : ℕ) (frame : PageFrame)
    (new_page_id page_type : ℕ) (there : get_elem? p.frames frame_id ≡ some frame)
    (free : get_elem? p.replacer.in_replacer frame_id ≡ some true) (replacer : ClockReplacer)
    (gone : replacer.in_replacer ≡ set p.replacer.in_replacer frame_id false)
    (missing : HashMap.get p.page_table new_page_id ≡ none) (named : new_page_id ≢ no_page)
    (faults : IoFaults) where
  new : PageFrame
  new = record {
    content = init new_page_id page_type;
    page_id = new_page_id;
    pin_count = 1;
    is_dirty = true;
  }

  create_into-none :
      write_out p.disk_manager faults.write_works frame ≡ none
      → create_into faults (record p { replacer = replacer }) frame_id frame new_page_id page_type
        ≡ (record p { replacer = replacer }, err io_error)
  unfolding create_into
  create_into-none e = rw (e, create_into) refl

  module _ (disk : DiskManager)
      (written : write_out p.disk_manager faults.write_works frame ≡ some disk) where
    abbrev freed : BufferPoolManager
    freed =
        base p v frame_id frame new_page_id there free replacer gone missing faults.write_works disk
          written

    create_into-some :
        create_into faults (record p { replacer = replacer }) frame_id frame new_page_id page_type
        ≡ (install freed frame_id new, ok (new_page_id, frame_id))
    unfolding create_into new
    create_into-some = rw (written, create_into) refl

    created :
        Created p new_page_id page_type (install freed frame_id new, ok (new_page_id, frame_id))
    unfolding install new
    created =
        let w =
          base-IsPool p v frame_id frame new_page_id there free replacer gone missing
            faults.write_works disk written in
        let unused_now =
          base-unused p v frame_id frame new_page_id there free replacer gone missing
            faults.write_works disk written in
        let out_now = out p v frame_id frame new_page_id there free replacer gone missing in
        let missing_now =
          base-missing p v frame_id frame new_page_id there free replacer gone missing
            faults.write_works disk written in
        let same =
          base-view p v frame_id frame new_page_id there free replacer gone missing
            faults.write_works disk written in
        (
          install-IsPool freed w frame_id frame new there unused_now out_now missing_now named
              (λ q. absurd (cc)),
          λ j other.
              view-install_ne freed w frame_id frame new there unused_now out_now missing_now named
                (λ q. absurd (cc)) j (λ q. other (sym q))
              ∙ same j,
          λ a q.
              let pair : (new_page_id, frame_id) ≡ a = ok_pair (new_page_id, frame_id) a q in
              (
                sym (ap (λ (c : ℕ × ℕ). c.0) pair),
                ground (
                  arith,
                  get-insert freed.page_table new_page_id new_page_id frame_id,
                  ap (λ (c : ℕ × ℕ). c.1) pair,
                ),
                view-install_self freed w frame_id frame new there unused_now out_now missing_now
                    named (λ q. absurd (cc)),
              ),
        )

  create_into-Created :
      Created p new_page_id page_type
        (create_into faults (record p { replacer = replacer }) frame_id frame new_page_id page_type)
  create_into-Created = elim (Option-cases (write_out p.disk_manager faults.write_works frame)) [
    | inl e ↦ subst (Created p new_page_id page_type) (sym (create_into-none e)) (
      rebased-IsPool p v p.disk_manager replacer (λ j. refl)
          (kept p.replacer replacer frame_id gone),
      λ j other.
          view-rebased p v p.disk_manager replacer (λ j. refl)
            (kept p.replacer replacer frame_id gone) j,
      λ a q. absurd (cc),
    )
    | inr (disk, e) ↦
        subst (Created p new_page_id page_type) (sym (create_into-some disk e)) (created disk e)
  ]

-- In a pool whose frames, table and clock agree, where the page id that the disk gives next is not
-- in the page table and is not `u32::MAX`, `new_page` keeps them in agreement, whatever it returns,
-- and leaves the content of every other page; if it succeeds, it returns that id with the frame of
-- the page, which is initialised.
pub new_page-view :
    (faults : IoFaults) (p : BufferPoolManager) (page_type : ℕ)
    → IsPool p
    → HashMap.get p.page_table (allocate_page p.disk_manager).1 ≡ none
    → (allocate_page p.disk_manager).1 ≢ no_page
    → IsPool (new_page faults p page_type).0
      × ((j : ℕ)
          → (allocate_page p.disk_manager).1 ≢ j
          → view (new_page faults p page_type).0 j ≡ view p j)
      × ((a : ℕ × ℕ)
          → (new_page faults p page_type).1 ≡ ok a
          → (a.0 ≡ (allocate_page p.disk_manager).1)
            × (HashMap.get
                  (new_page faults p page_type).0.page_table
                  (allocate_page p.disk_manager).1
                ≡ some a.1)
            × (view (new_page faults p page_type).0 (allocate_page p.disk_manager).1
                ≡ init (allocate_page p.disk_manager).1 page_type))
unfolding new_page
new_page-view faults p page_type v missing named =
    let disk : DiskManager = (allocate_page p.disk_manager).0 in
    let new_page_id : ℕ = (allocate_page p.disk_manager).1 in
    let given : BufferPoolManager = record p { disk_manager = disk } in
    let same : (j : ℕ) → page_on_disk disk j ≡ page_on_disk p.disk_manager j =
      pages_kept p.disk_manager in
    let w : IsPool given = rebased-IsPool p v disk p.replacer same (λ f q. q) in
    on_victim-cases p
      (λ p' frame_id frame.
        let (disk, new_page_id) = allocate_page p'.disk_manager in
        create_into faults (record p' { disk_manager = disk }) frame_id frame new_page_id page_type)
      (Created p (allocate_page p.disk_manager).1 page_type)
      (λ replacer o failed inside. (
        rebased-IsPool p v p.disk_manager replacer (λ j. refl) inside,
        λ j other. view-rebased p v p.disk_manager replacer (λ j. refl) inside j,
        λ a q. absurd (failed a q),
      ))
      (λ replacer f frame at free gone.
        let (kept_pool, others, result) =
          create_into-Created given w f frame new_page_id page_type at free replacer gone missing
            named faults in
        (
          kept_pool,
          λ j other. others j other ∙ view-rebased p v disk p.replacer same (λ f q. q) j,
          result,
        ))
