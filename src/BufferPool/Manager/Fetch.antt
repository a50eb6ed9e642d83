-- ===== src/BufferPool/Manager/Fetch.antt =====
-- `fetch_page` of crates/h2-mvstore/src/buffer_pool/mod.rs shows every page as it was.
use mathlib.Core.Path.{subst}
use native.Mathlib.Decide.{ℕ_discrete}
use h2database_rust.Prelude.{
  ℕ, ◌+◌, ◌%◌, ◌^◌, ◌≡◌, ◌≢◌, ◌⊎◌, refl, sym, ap, ◌∙◌, true, false, none, some, get_elem?, set,
  Option-cases, inl, inr,
}
use h2database_rust.Prelude.HashMap
use h2database_rust.Prelude.HashMap.{HashMap, get-insert, get-remove}
use h2database_rust.BufferPool.Clock
use h2database_rust.BufferPool.Clock.{ClockReplacer, victim}
use h2database_rust.BufferPool.Disk.{page_on_disk}
use h2database_rust.BufferPool.Manager.{
  no_page, PageFrame, BufferPoolManager, IoFaults, ok, hit, fetch_into, on_victim, fetch_page,
}
use h2database_rust.BufferPool.Manager.View.{view, view_present, IsPool}
use h2database_rust.BufferPool.Manager.Install.{pin_inside}
use h2database_rust.BufferPool.Manager.Touch.{view-touched_self, view-touched_ne, touched-IsPool}
use h2database_rust.BufferPool.Manager.Victim.{on_victim-cases}
use h2database_rust.BufferPool.Manager.Load.{Fetched, ok_same, unnamed, fetch_into-Fetched}

hit_lem :
    (p : BufferPoolManager) (frame_id : ℕ) (frame : PageFrame)
    → get_elem? p.frames frame_id ≡ some frame
    → hit p frame_id ≡ (
      record p {
        frames =
            set p.frames frame_id (record frame { pin_count = (frame.pin_count + 1) % 2 ^ 32 });
        replacer = Clock.pin p.replacer frame_id;
      },
      ok frame_id,
    )
unfolding hit
hit_lem p frame_id frame at = rw (at, hit)

hit-Fetched :
    (p : BufferPoolManager) (page_id frame_id : ℕ)
    → IsPool p
    → HashMap.get p.page_table page_id ≡ some frame_id
    → Fetched p page_id (hit p frame_id)
hit-Fetched p page_id frame_id v e =
    let (frame, at, name) = v.mapped page_id frame_id e in
    let pinned : PageFrame = record frame { pin_count = (frame.pin_count + 1) % 2 ^ 32 } in
    let replacer : ClockReplacer = Clock.pin p.replacer frame_id in
    let others : (j : ℕ)
        → j ≢ page_id
        → page_on_disk p.disk_manager j ≡ page_on_disk p.disk_manager j =
      λ j q. refl in
    let clean : pinned.is_dirty ≡ false → page_on_disk p.disk_manager page_id ≡ pinned.content =
      v.clean page_id frame_id frame e at in
    let inside : (g : ℕ)
        → get_elem? replacer.in_replacer g ≡ some true
        → (get_elem? p.replacer.in_replacer g ≡ some true) ⊎ (frame_id ≡ g) =
      λ g q. inl (pin_inside p.replacer frame_id g q) in
    let self =
      view-touched_self p v page_id frame_id frame pinned e at name p.disk_manager others clean
        replacer inside
      ∙ sym (view_present p page_id frame_id frame e at) in
    let others_view =
      view-touched_ne p v page_id frame_id frame pinned e at name p.disk_manager others clean
        replacer inside in
    let pool =
      touched-IsPool p v page_id frame_id frame pinned e at name p.disk_manager others clean
        replacer inside in
    subst (Fetched p page_id) (sym (hit_lem p frame_id frame at)) (
      pool,
      λ j. elim (ℕ_discrete page_id j) [
        | yes same ↦
            subst
              (λ t.
                view (record p { frames = set p.frames frame_id pinned; replacer = replacer }) t
                ≡ view p t)
              same self
        | no other ↦ others_view j other
      ],
      λ f q. e ∙ ap some (ok_same frame_id f q),
    )

module _ (faults : IoFaults) (p : BufferPoolManager) (page_id : ℕ) where
  fetch_hit :
      (frame_id : ℕ)
      → HashMap.get p.page_table page_id ≡ some frame_id
      → fetch_page faults p page_id ≡ hit p frame_id
  unfolding fetch_page
  fetch_hit frame_id e = rw (e, fetch_page) refl

  fetch_miss :
      HashMap.get p.page_table page_id ≡ none
      → fetch_page faults p page_id
        ≡ on_victim p (λ p' frame_id frame. fetch_into faults p' frame_id frame page_id)
  unfolding fetch_page
  fetch_miss e = rw (e, fetch_page) refl

  fetch_page-Fetched :
      IsPool p → page_id ≢ no_page → Fetched p page_id (fetch_page faults p page_id)
  fetch_page-Fetched v named = elim (Option-cases (HashMap.get p.page_table page_id)) [
    | inr (frame_id, e) ↦
        subst (Fetched p page_id) (sym (fetch_hit frame_id e)) (hit-Fetched p page_id frame_id v e)
    | inl missing ↦ subst (Fetched p page_id) (sym (fetch_miss missing)) (
        on_victim-cases p (λ p' frame_id frame. fetch_into faults p' frame_id frame page_id)
          (Fetched p page_id) (unnamed p v page_id)
          (λ replacer f frame at free gone.
            fetch_into-Fetched p v f frame page_id at free replacer gone missing named faults))
  ]

-- In a pool whose frames, table and clock agree, `fetch_page` of any page but `u32::MAX`, whatever
-- it returns and whichever calls of the disk fail, keeps them in agreement and leaves the content of
-- every page as it was, the victim's included; a frame that it returns holds the content of the page
-- that was asked for.
pub fetch_page-view :
    (faults : IoFaults) (p : BufferPoolManager) (page_id : ℕ)
    → IsPool p
    → page_id ≢ no_page
    → IsPool (fetch_page faults p page_id).0
      × ((j : ℕ) → view (fetch_page faults p page_id).0 j ≡ view p j)
      × ((frame_id : ℕ)
          → (fetch_page faults p page_id).1 ≡ ok frame_id
          → (frame : PageFrame) × (get_elem? (fetch_page faults p page_id).0.frames frame_id
              ≡ some frame)
            × (frame.page_id ≡ page_id)
            × (frame.content ≡ view p page_id))
fetch_page-view faults p page_id v named =
    let (v', same, found) = fetch_page-Fetched faults p page_id v named in
    let p' : BufferPoolManager = (fetch_page faults p page_id).0 in
    (
      v',
      same,
      λ frame_id q.
          let e = found frame_id q in
          let (frame, at, name) = v'.mapped page_id frame_id e in
          (frame, at, name, sym (view_present p' page_id frame_id frame e at) ∙ same page_id),
    )
