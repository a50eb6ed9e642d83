-- ===== src/BufferPool/Manager/Unpin.antt =====
-- A new pool and `unpin_page` of crates/h2-mvstore/src/buffer_pool/mod.rs.
use mathlib.Core.Path.{subst}
use native.Mathlib.Decide.{ℕ_discrete}
use h2database_rust.Prelude.{
  ℕ, zero, suc, ◌+◌, ◌-◌, ◌%◌, ◌^◌, ◌≡◌, ◌≢◌, ◌⊎◌, refl, sym, ap, ◌∙◌, Bool, true, false, none,
  some, replicate, arith, ◌==◌, if◌then◌else◌, get_elem?, get_elem?-set_ne, Option-cases,
  Bool-cases, inl, inr,
}
use h2database_rust.Prelude.HashMap
use h2database_rust.Prelude.HashMap.{HashMap, get-insert, get-remove}
use h2database_rust.BufferPool.Clock
use h2database_rust.BufferPool.Clock.{ClockReplacer, victim}
use h2database_rust.BufferPool.Disk.{DiskManager, blank, page_on_disk}
use h2database_rust.BufferPool.Manager.{
  no_page, PageFrame, BufferPoolManager, with_frame, not_found, Outcome, ok, err, unpin_page, new,
}
use h2database_rust.BufferPool.Manager.View.{view, view_present, IsPool}
use h2database_rust.BufferPool.Manager.Touch.{view-touched_self, view-touched_ne, touched-IsPool}

get_elem?-replicate {ℓ} :
    {A : Type ℓ} (n i : ℕ) (a b : A) → get_elem? (replicate n a) i ≡ some b → a ≡ b
get_elem?-replicate zero i a b e = absurd (cc)
get_elem?-replicate (suc n) zero a b e = cc
get_elem?-replicate (suc n) (suc i) a b e = get_elem?-replicate n i a b e

pub new-IsPool : (disk : DiskManager) (pool_size : ℕ) → IsPool (new disk pool_size)
unfolding new HashMap.get
new-IsPool disk pool_size = record {
  mapped = λ j f e. absurd (cc);
  clean = λ j f fr e at unchanged. absurd (cc);
  owned = λ f fr at inside named. absurd (
      named (
        sym (
          ap (λ (t : PageFrame). t.page_id)
            (get_elem?-replicate pool_size f
              (record { content = blank; page_id = no_page; pin_count = 0; is_dirty = false }) fr
              at))));
  nameless = refl;
}

unpin_inside :
    (c : ClockReplacer) (f g : ℕ)
    → get_elem? (Clock.unpin c f).in_replacer g ≡ some true
    → (get_elem? c.in_replacer g ≡ some true) ⊎ (f ≡ g)
unfolding Clock.unpin
unpin_inside c f g e = elim (ℕ_discrete f g) [
  | yes same ↦ inr same
  | no other ↦ inl (ground (arith, get_elem?-set_ne c.in_replacer f g true other))
]

module _ (p : BufferPoolManager) (page_id : ℕ) (is_dirty : Bool) where
  unfoldable pub pinned_less : PageFrame → PageFrame
  pinned_less frame = record frame {
    pin_count = (frame.pin_count + (2 ^ 32 - 1)) % 2 ^ 32;
    is_dirty = if is_dirty then true else frame.is_dirty;
  }

  unfoldable pub clock_after : ℕ → PageFrame → ClockReplacer
  clock_after frame_id frame =
      if frame.pin_count == 1 then Clock.unpin p.replacer frame_id else p.replacer

  clock_after_inside :
      (frame_id : ℕ) (frame : PageFrame) (g : ℕ)
      → get_elem? (clock_after frame_id frame).in_replacer g ≡ some true
      → (get_elem? p.replacer.in_replacer g ≡ some true) ⊎ (frame_id ≡ g)
  unfolding clock_after
  clock_after_inside frame_id frame g e = elim (Bool-cases (frame.pin_count == 1)) [
    | inl b ↦ unpin_inside p.replacer frame_id g (ground (arith, b, e))
    | inr b ↦ inl (ground (arith, b, e))
  ]

  pub unpin_missing :
      HashMap.get p.page_table page_id ≡ none → unpin_page p page_id is_dirty ≡ (p, err not_found)
  unfolding unpin_page
  unpin_missing e = rw (e, unpin_page) refl

  pub unpin_found :
      (frame_id : ℕ) (frame : PageFrame)
      → HashMap.get p.page_table page_id ≡ some frame_id
      → get_elem? p.frames frame_id ≡ some frame
      → unpin_page p page_id is_dirty ≡ (
        record (with_frame p frame_id (pinned_less frame)) {
          replacer = clock_after frame_id frame;
        },
        ok tt,
      )
  unfolding unpin_page pinned_less clock_after
  unpin_found frame_id frame e at = rw (e, at, unpin_page) refl

  unfoldable pub Kept : BufferPoolManager × Outcome (Unit {0}) → Type 0
  Kept (p', o) =
      IsPool p'
      × ((j : ℕ) → view p' j ≡ view p j)
      × (HashMap.get p.page_table page_id ≡ none → o ≡ err not_found)
      × ((frame_id : ℕ) → HashMap.get p.page_table page_id ≡ some frame_id → o ≡ ok tt)

  unpin_found-Kept :
      (v : IsPool p) (frame_id : ℕ) (frame : PageFrame)
      → HashMap.get p.page_table page_id ≡ some frame_id
      → get_elem? p.frames frame_id ≡ some frame
      → frame.page_id ≡ page_id
      → Kept (
        record (with_frame p frame_id (pinned_less frame)) {
          replacer = clock_after frame_id frame;
        },
        ok tt,
      )
  unfolding Kept pinned_less
  unpin_found-Kept v frame_id frame e at name =
      let others : (j : ℕ)
          → j ≢ page_id
          → page_on_disk p.disk_manager j ≡ page_on_disk p.disk_manager j =
        λ j q. refl in
      let clean : (pinned_less frame).is_dirty ≡ false
          → page_on_disk p.disk_manager page_id ≡ frame.content =
        λ q. v.clean page_id frame_id frame e at (ground (arith)) in
      let inside = clock_after_inside frame_id frame in
      let self =
        view-touched_self p v page_id frame_id frame (pinned_less frame) e at name p.disk_manager
          others clean (clock_after frame_id frame) inside
        ∙ sym (view_present p page_id frame_id frame e at) in
      (
        touched-IsPool p v page_id frame_id frame (pinned_less frame) e at name p.disk_manager
            others clean (clock_after frame_id frame) inside,
        λ j. elim (ℕ_discrete page_id j) [
          | yes same ↦
              subst
                (λ t.
                  view
                    (record (with_frame p frame_id (pinned_less frame)) {
                      replacer = clock_after frame_id frame;
                    })
                    t
                  ≡ view p t)
                same self
          | no other ↦
              view-touched_ne p v page_id frame_id frame (pinned_less frame) e at name
                p.disk_manager others clean (clock_after frame_id frame) inside j other
        ],
        λ q. absurd (cc),
        λ f q. refl,
      )

  pub unpin_page-Kept : IsPool p → Kept (unpin_page p page_id is_dirty)
  unfolding Kept
  unpin_page-Kept v = elim (Option-cases (HashMap.get p.page_table page_id)) [
    | inl e ↦ subst Kept (sym (unpin_missing e)) (v, λ j. refl, λ q. refl, λ f q. absurd (cc))
    | inr (frame_id, e) ↦
        let (frame, at, name) = v.mapped page_id frame_id e in
        subst Kept (sym (unpin_found frame_id frame e at))
          (unpin_found-Kept v frame_id frame e at name)
  ]
