-- ===== src/BufferPool/Manager/Victim.antt =====
-- The frame that the clock chooses in crates/h2-mvstore/src/buffer_pool/mod.rs.
use mathlib.Core.Path.{subst}
use native.Mathlib.Decide.{ℕ_discrete}
use h2database_rust.Prelude.{
  ℕ, ◌≡◌, ◌≢◌, refl, sym, ap, ◌∙◌, Bool, true, false, none, some, arith, get_elem?, set,
  get_elem?-set_ne, Option-cases, inl, inr,
}
use h2database_rust.Prelude.HashMap
use h2database_rust.Prelude.HashMap.{HashMap, get-insert, get-remove}
use h2database_rust.BufferPool.Clock.{ClockReplacer, victim}
use h2database_rust.BufferPool.Disk.{DiskManager, page_on_disk}
use h2database_rust.BufferPool.Manager.{
  PageFrame, BufferPoolManager, write_out, all_pinned, Outcome, ok, err, panics, on_victim,
}
use h2database_rust.BufferPool.Manager.View.{
  view, view_absent, view_present, IsPool, cleared, released, view-released, unused,
  released-IsPool, table-get,
}
use h2database_rust.BufferPool.Clock.Chosen.{victim-Chosen}

-- The clock may let go of frames, and the disk may change where it shows no page otherwise.
module _ (p : BufferPoolManager) (v : IsPool p) (disk : DiskManager) (replacer : ClockReplacer)
    (same : (j : ℕ) → page_on_disk disk j ≡ page_on_disk p.disk_manager j)
    (inside : (f : ℕ)
      → get_elem? replacer.in_replacer f ≡ some true
      → get_elem? p.replacer.in_replacer f ≡ some true) where
  abbrev rebased : BufferPoolManager
  rebased = record p { disk_manager = disk; replacer = replacer }

  pub view-rebased : (j : ℕ) → view rebased j ≡ view p j
  view-rebased j = elim (Option-cases (HashMap.get p.page_table j)) [
    | inl gone ↦ view_absent rebased j gone ∙ same j ∙ sym (view_absent p j gone)
    | inr (f, e) ↦
        let (fr, at, _) = v.mapped j f e in
        view_present rebased j f fr e at ∙ sym (view_present p j f fr e at)
  ]

  pub rebased-IsPool : IsPool rebased
  rebased-IsPool = record {
    mapped = v.mapped;
    clean = λ j f fr e at q. same j ∙ v.clean j f fr e at q;
    owned = λ f fr at within. v.owned f fr at (inside f within);
    nameless = v.nameless;
  }

-- A frame that is in the clock after the victim left it was in it before.
pub kept :
    (c c' : ClockReplacer) (frame_id : ℕ)
    → c'.in_replacer ≡ set c.in_replacer frame_id false
    → (f : ℕ) → get_elem? c'.in_replacer f ≡ some true
    → get_elem? c.in_replacer f ≡ some true
kept c c' frame_id gone f q =
    let still : get_elem? (set c.in_replacer frame_id false) f ≡ some true =
      ap (λ l. get_elem? l f) (sym gone) ∙ q in
    elim (ℕ_discrete frame_id f) [
      | yes same ↦ absurd (
          cleared c.in_replacer frame_id
            (ap (get_elem? (set c.in_replacer frame_id false)) same ∙ still))
      | no other ↦ sym (get_elem?-set_ne c.in_replacer frame_id f false other) ∙ still
    ]

-- What holds of a step with the chosen frame, and of each way to have none, holds of `on_victim`.
module _ {A : Type 0} (p : BufferPoolManager)
    (step : BufferPoolManager → ℕ → PageFrame → BufferPoolManager × Outcome A)
    (P : BufferPoolManager × Outcome A → Type 0)
    (failed : (replacer : ClockReplacer) (o : Outcome A)
      → ((a : A) → o ≢ ok a)
      → ((f : ℕ)
          → get_elem? replacer.in_replacer f ≡ some true
          → get_elem? p.replacer.in_replacer f ≡ some true)
      → P (record p { replacer = replacer }, o))
    (chosen : (replacer : ClockReplacer) (f : ℕ) (frame : PageFrame)
      → get_elem? p.frames f ≡ some frame
      → get_elem? p.replacer.in_replacer f ≡ some true
      → replacer.in_replacer ≡ set p.replacer.in_replacer f false
      → P (step (record p { replacer = replacer }) f frame)) where
  stuck : victim p.replacer ≡ none → on_victim p step ≡ (p, panics)
  unfolding on_victim
  stuck e = rw (e, on_victim) refl

  pinned :
      (replacer : ClockReplacer)
      → victim p.replacer ≡ some (replacer, none)
      → on_victim p step ≡ (record p { replacer = replacer }, err all_pinned)
  unfolding on_victim
  pinned replacer e = rw (e, on_victim) refl

  outside :
      (replacer : ClockReplacer) (f : ℕ)
      → victim p.replacer ≡ some (replacer, some f)
      → get_elem? p.frames f ≡ none
      → on_victim p step ≡ (record p { replacer = replacer }, panics)
  unfolding on_victim
  outside replacer f e at = rw (e, at, on_victim) refl

  stepped :
      (replacer : ClockReplacer) (f : ℕ) (frame : PageFrame)
      → victim p.replacer ≡ some (replacer, some f)
      → get_elem? p.frames f ≡ some frame
      → on_victim p step ≡ step (record p { replacer = replacer }) f frame
  unfolding on_victim
  stepped replacer f frame e at = rw (e, at, on_victim) refl

  pub on_victim-cases : P (on_victim p step)
  on_victim-cases = elim (Option-cases (victim p.replacer)) [
    | inl e ↦ subst P (sym (stuck e)) (failed p.replacer panics (λ a q. cc) (λ f q. q))
    | inr ((replacer, none), e) ↦ subst P (sym (pinned replacer e)) (
        failed replacer (err all_pinned) (λ a q. cc)
          (λ f q. ap (λ l. get_elem? l f) (sym (victim-Chosen p.replacer replacer none e)) ∙ q))
    | inr ((replacer, some f), e) ↦
        let (free, gone) = victim-Chosen p.replacer replacer (some f) e in
        elim (Option-cases (get_elem? p.frames f)) [
          | inl at ↦
              subst P (sym (outside replacer f e at))
                (failed replacer panics (λ a q. cc) (kept p.replacer replacer f gone))
          | inr (frame, at) ↦
              subst P (sym (stepped replacer f frame e at)) (chosen replacer f frame at free gone)
        ]
  ]

-- The pool after the page of the chosen frame was written out and unmapped.
module _ (p : BufferPoolManager) (v : IsPool p) (frame_id : ℕ) (frame : PageFrame) (page_id : ℕ)
    (there : get_elem? p.frames frame_id ≡ some frame)
    (free : get_elem? p.replacer.in_replacer frame_id ≡ some true) (replacer : ClockReplacer)
    (gone : replacer.in_replacer ≡ set p.replacer.in_replacer frame_id false)
    (missing : HashMap.get p.page_table page_id ≡ none) where
  pub out : ¬ (get_elem? replacer.in_replacer frame_id ≡ some true)
  out e = cleared p.replacer.in_replacer frame_id (sym (ap (λ l. get_elem? l frame_id) gone) ∙ e)

  module _ (works : Bool) (disk : DiskManager)
      (written : write_out p.disk_manager works frame ≡ some disk) where
    abbrev pub base : BufferPoolManager
    base = released p v frame_id frame there free works disk written replacer

    pub base-IsPool : IsPool base
    base-IsPool = released-IsPool p v frame_id frame there free works disk written replacer gone

    pub base-unused : (j : ℕ) → HashMap.get base.page_table j ≢ some frame_id
    base-unused = unused p v frame_id frame there free works disk written

    pub base-missing : HashMap.get base.page_table page_id ≡ none
    base-missing =
        ground (arith, table-get p v frame_id frame there free works disk written page_id, missing)

    pub base-view : (j : ℕ) → view base j ≡ view p j
    base-view j = view-released p v frame_id frame there free works disk written replacer j
