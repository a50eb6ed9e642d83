-- ===== src/BufferPool/Manager/Install.antt =====
-- A frame that is given a page in the pool of crates/h2-mvstore/src/buffer_pool/mod.rs.
use mathlib.Core.Path.{subst}
use native.Mathlib.Decide.{ℕ_discrete}
use h2database_rust.Prelude.{
  ℕ, zero, suc, ◌<◌, ltb, ◌≡◌, ◌≢◌, sym, ap, ◌∙◌, true, false, none, some, List, [], ◌∷◌, arith,
  ◌==◌, if◌then◌else◌, get_elem?, set, length, get_elem?-set_self, get_elem?-set_ne, Option-cases,
  Bool-cases, inl, inr,
}
use h2database_rust.Prelude.HashMap
use h2database_rust.Prelude.HashMap.{HashMap, get-insert, get-remove}
use h2database_rust.BufferPool.Clock
use h2database_rust.BufferPool.Clock.{ClockReplacer}
use h2database_rust.BufferPool.Disk.{page_on_disk}
use h2database_rust.BufferPool.Manager.{no_page, PageFrame, BufferPoolManager, install}
use h2database_rust.BufferPool.Manager.View.{view, view_absent, view_present, IsPool, cleared}

pub pin_inside :
    (c : ClockReplacer) (f g : ℕ)
    → get_elem? (Clock.pin c f).in_replacer g ≡ some true
    → get_elem? c.in_replacer g ≡ some true
unfolding Clock.pin
pin_inside c f g e = elim (ℕ_discrete f g) [
  | yes same ↦ elim (Bool-cases (ltb f c.num_frames)) [
    | inl known ↦ absurd (cleared c.in_replacer g (ground (arith)))
    | inr past ↦ ground arith
  ]
  | no other ↦ ground (arith, get_elem?-set_ne c.in_replacer f g false other)
]

pub get_elem?-lt {ℓ} :
    {A : Type ℓ} (l : List A) (i : ℕ) (a : A) → get_elem? l i ≡ some a → i < length l
get_elem?-lt [] i a e = absurd (cc)
get_elem?-lt (x ∷ l) zero a e = omega arith
get_elem?-lt (x ∷ l) (suc i) a e = omega (arith, get_elem?-lt l i a e)

module _ (p : BufferPoolManager) (v : IsPool p) (frame_id : ℕ) (old new : PageFrame)
    (there : get_elem? p.frames frame_id ≡ some old)
    (unused : (j : ℕ) → HashMap.get p.page_table j ≢ some frame_id)
    (out : ¬ (get_elem? p.replacer.in_replacer frame_id ≡ some true))
    (absent : HashMap.get p.page_table new.page_id ≡ none) (named : new.page_id ≢ no_page)
    (as_on_disk : new.is_dirty ≡ false
      → page_on_disk p.disk_manager new.page_id ≡ new.content) where
  abbrev result : BufferPoolManager
  result = install p frame_id new

  new_frame : get_elem? (set p.frames frame_id new) frame_id ≡ some new
  new_frame = get_elem?-set_self p.frames frame_id new (get_elem?-lt p.frames frame_id old there)

  table-get :
      (j : ℕ)
      → HashMap.get result.page_table j
        ≡ (if new.page_id == j then some frame_id else HashMap.get p.page_table j)
  unfolding install
  table-get j = get-insert p.page_table new.page_id j frame_id

  other_frame :
      (j f : ℕ)
      → HashMap.get p.page_table j ≡ some f
      → get_elem? (set p.frames frame_id new) f ≡ get_elem? p.frames f
  other_frame j f e =
      get_elem?-set_ne p.frames frame_id f new (λ same. unused j (e ∙ ap some (sym same)))

  pub view-install_self : view result new.page_id ≡ new.content
  unfolding install
  view-install_self =
      view_present result new.page_id frame_id new (ground (arith, table-get new.page_id)) new_frame

  pub view-install_ne : (j : ℕ) → j ≢ new.page_id → view result j ≡ view p j
  unfolding install
  view-install_ne j other =
      let as_mapped : HashMap.get result.page_table j ≡ HashMap.get p.page_table j =
        ground (arith, table-get j) in
      elim (Option-cases (HashMap.get p.page_table j)) [
        | inl gone ↦ view_absent result j (as_mapped ∙ gone) ∙ sym (view_absent p j gone)
        | inr (f, present) ↦
            let (fr, at, _) = v.mapped j f present in
            view_present result j f fr (as_mapped ∙ present) (other_frame j f present ∙ at)
            ∙ sym (view_present p j f fr present at)
      ]

  install_mapped :
      (j f : ℕ)
      → HashMap.get result.page_table j ≡ some f
      → (fr : PageFrame) × (get_elem? result.frames f ≡ some fr) × (fr.page_id ≡ j)
  unfolding install
  install_mapped j f e = elim (ℕ_discrete new.page_id j) [
    | yes same ↦
        let mine : frame_id ≡ f = ground (arith, table-get j) in
        (new, subst (λ g. get_elem? (set p.frames frame_id new) g ≡ some new) mine new_frame, same)
    | no other ↦
        let before : HashMap.get p.page_table j ≡ some f = ground (arith, table-get j) in
        let (fr, at, name) = v.mapped j f before in (fr, other_frame j f before ∙ at, name)
  ]

  install_clean :
      (j f : ℕ) (fr : PageFrame)
      → HashMap.get result.page_table j ≡ some f
      → get_elem? result.frames f ≡ some fr
      → fr.is_dirty ≡ false
      → page_on_disk p.disk_manager j ≡ fr.content
  unfolding install
  install_clean j f fr e at unchanged = elim (ℕ_discrete new.page_id j) [
    | yes same ↦
        let mine : frame_id ≡ f = ground (arith, table-get j) in
        let both : some new ≡ some fr =
          sym new_frame ∙ ap (get_elem? (set p.frames frame_id new)) mine ∙ at in
        let is_new : new ≡ fr = cc in
        ap (page_on_disk p.disk_manager) (sym same)
        ∙ as_on_disk (ap (λ (t : PageFrame). t.is_dirty) is_new ∙ unchanged)
        ∙ ap (λ (t : PageFrame). t.content) is_new
    | no other ↦
        let before : HashMap.get p.page_table j ≡ some f = ground (arith, table-get j) in
        v.clean j f fr before (sym (other_frame j f before) ∙ at) unchanged
  ]

  install_owned :
      (f : ℕ) (fr : PageFrame)
      → get_elem? result.frames f ≡ some fr
      → get_elem? result.replacer.in_replacer f ≡ some true
      → fr.page_id ≢ no_page
      → HashMap.get result.page_table fr.page_id ≡ some f
  unfolding install
  install_owned f fr at inside name =
      let was : get_elem? p.replacer.in_replacer f ≡ some true =
        pin_inside p.replacer frame_id f inside in
      let apart : frame_id ≢ f = λ same. out (ap (get_elem? p.replacer.in_replacer) same ∙ was) in
      let mine : HashMap.get p.page_table fr.page_id ≡ some f =
        v.owned f fr (sym (get_elem?-set_ne p.frames frame_id f new apart) ∙ at) was name in
      let fresh : new.page_id ≢ fr.page_id = λ same.
        let clash : HashMap.get p.page_table new.page_id ≡ some f =
          ap (HashMap.get p.page_table) same ∙ mine in
        absurd (cc (absent)) in
      ground (arith, table-get fr.page_id)

  pub install-IsPool : IsPool result
  unfolding install
  install-IsPool = record {
    mapped = install_mapped;
    clean = install_clean;
    owned = install_owned;
    nameless = ground (arith, table-get no_page, v.nameless);
  }
