-- ===== src/BufferPool/Manager/Touch.antt =====
-- A mapped frame that is changed in place in the pool of crates/h2-mvstore/src/buffer_pool/mod.rs.
use mathlib.Core.Path.{subst}
use native.Mathlib.Decide.{ℕ_discrete}
use h2database_rust.Prelude.{
  ℕ, ◌≡◌, ◌≢◌, ◌⊎◌, sym, ap, ◌∙◌, true, false, some, get_elem?, set, get_elem?-set_self,
  get_elem?-set_ne, Option-cases, inl, inr,
}
use h2database_rust.Prelude.HashMap
use h2database_rust.Prelude.HashMap.{HashMap, get-insert, get-remove}
use h2database_rust.BufferPool.Clock.{ClockReplacer}
use h2database_rust.BufferPool.Disk.{DiskManager, page_on_disk}
use h2database_rust.BufferPool.Manager.{no_page, PageFrame, BufferPoolManager}
use h2database_rust.BufferPool.Manager.View.{view, view_absent, view_present, IsPool}
use h2database_rust.BufferPool.Manager.Install.{get_elem?-lt}

module _ (p : BufferPoolManager) (v : IsPool p) (page_id frame_id : ℕ) (old new : PageFrame)
    (present : HashMap.get p.page_table page_id ≡ some frame_id)
    (there : get_elem? p.frames frame_id ≡ some old) (name : new.page_id ≡ page_id)
    (disk : DiskManager)
    (others : (j : ℕ) → j ≢ page_id → page_on_disk disk j ≡ page_on_disk p.disk_manager j)
    (as_on_disk : new.is_dirty ≡ false → page_on_disk disk page_id ≡ new.content)
    (replacer : ClockReplacer)
    (inside : (g : ℕ)
      → get_elem? replacer.in_replacer g ≡ some true
      → (get_elem? p.replacer.in_replacer g ≡ some true) ⊎ (frame_id ≡ g)) where
  abbrev pub touched : BufferPoolManager
  touched = record p {
    disk_manager = disk;
    replacer = replacer;
    frames = set p.frames frame_id new;
  }

  new_frame : get_elem? (set p.frames frame_id new) frame_id ≡ some new
  new_frame = get_elem?-set_self p.frames frame_id new (get_elem?-lt p.frames frame_id old there)

  -- Only this page is in the frame.
  mine_alone : (j : ℕ) → HashMap.get p.page_table j ≡ some frame_id → page_id ≡ j
  mine_alone j e =
      let (a, at, first) = v.mapped page_id frame_id present in
      let (b, at', second) = v.mapped j frame_id e in
      let both : some a ≡ some b = sym at ∙ at' in
      let same : a ≡ b = cc in sym first ∙ ap (λ (t : PageFrame). t.page_id) same ∙ second

  other_frame :
      (f : ℕ) → frame_id ≢ f → get_elem? (set p.frames frame_id new) f ≡ get_elem? p.frames f
  other_frame f apart = get_elem?-set_ne p.frames frame_id f new apart

  apart_of : (j f : ℕ) → page_id ≢ j → HashMap.get p.page_table j ≡ some f → frame_id ≢ f
  apart_of j f other e = λ same. other (mine_alone j (e ∙ ap some (sym same)))

  pub view-touched_self : view touched page_id ≡ new.content
  view-touched_self = view_present touched page_id frame_id new present new_frame

  pub view-touched_ne : (j : ℕ) → page_id ≢ j → view touched j ≡ view p j
  view-touched_ne j other = elim (Option-cases (HashMap.get p.page_table j)) [
    | inl gone ↦
        view_absent touched j gone ∙ others j (λ e. other (sym e)) ∙ sym (view_absent p j gone)
    | inr (f, e) ↦
        let (fr, at, _) = v.mapped j f e in
        view_present touched j f fr e (other_frame f (apart_of j f other e) ∙ at)
        ∙ sym (view_present p j f fr e at)
  ]

  touched_mapped :
      (j f : ℕ)
      → HashMap.get p.page_table j ≡ some f
      → (fr : PageFrame) × (get_elem? (set p.frames frame_id new) f ≡ some fr) × (fr.page_id ≡ j)
  touched_mapped j f e = elim (ℕ_discrete frame_id f) [
    | yes same ↦ (
      new,
      subst (λ g. get_elem? (set p.frames frame_id new) g ≡ some new) same new_frame,
      name ∙ mine_alone j (e ∙ ap some (sym same)),
    )
    | no other ↦ let (fr, at, n) = v.mapped j f e in (fr, other_frame f other ∙ at, n)
  ]

  touched_clean :
      (j f : ℕ) (fr : PageFrame)
      → HashMap.get p.page_table j ≡ some f
      → get_elem? (set p.frames frame_id new) f ≡ some fr
      → fr.is_dirty ≡ false
      → page_on_disk disk j ≡ fr.content
  touched_clean j f fr e at unchanged = elim (ℕ_discrete frame_id f) [
    | yes same ↦
        let both : some new ≡ some fr =
          sym new_frame ∙ ap (get_elem? (set p.frames frame_id new)) same ∙ at in
        let is_new : new ≡ fr = cc in
        ap (page_on_disk disk) (sym (mine_alone j (e ∙ ap some (sym same))))
        ∙ as_on_disk (ap (λ (t : PageFrame). t.is_dirty) is_new ∙ unchanged)
        ∙ ap (λ (t : PageFrame). t.content) is_new
    | no other ↦
        let elsewhere : j ≢ page_id = λ q. other (
          let twice : some frame_id ≡ some f =
            sym present ∙ ap (HashMap.get p.page_table) (sym q) ∙ e in
          cc) in
        others j elsewhere ∙ v.clean j f fr e (sym (other_frame f other) ∙ at) unchanged
  ]

  touched_owned :
      (f : ℕ) (fr : PageFrame)
      → get_elem? (set p.frames frame_id new) f ≡ some fr
      → get_elem? replacer.in_replacer f ≡ some true
      → fr.page_id ≢ no_page
      → HashMap.get p.page_table fr.page_id ≡ some f
  touched_owned f fr at within named = elim (ℕ_discrete frame_id f) [
    | yes same ↦
        let both : some new ≡ some fr =
          sym new_frame ∙ ap (get_elem? (set p.frames frame_id new)) same ∙ at in
        let is_new : new ≡ fr = cc in
        ap (HashMap.get p.page_table) (sym (ap (λ (t : PageFrame). t.page_id) is_new) ∙ name)
        ∙ present
        ∙ ap some same
    | no other ↦ elim (inside f within) [
      | inl was ↦ v.owned f fr (sym (other_frame f other) ∙ at) was named
      | inr same ↦ absurd (other same)
    ]
  ]

  pub touched-IsPool : IsPool touched
  touched-IsPool = record {
    mapped = touched_mapped;
    clean = touched_clean;
    owned = touched_owned;
    nameless = v.nameless;
  }
