-- ===== src/BufferPool/Manager/Pins.antt =====
-- The pins of the frames in the pool of crates/h2-mvstore/src/buffer_pool/mod.rs.
use mathlib.Core.Path.{subst}
use native.Mathlib.Decide.{ℕ_discrete}
use h2database_rust.Prelude.{
  ℕ, suc, ◌^◌, ◌<◌, ◌≡◌, ◌≢◌, ◌↔◌, refl, sym, ap, ◌∙◌, Bool, true, false, none, some, arith, ◌==◌,
  length, set, length-set, if◌then◌else◌, get_elem?, get_elem?-set_self, get_elem?-set_ne,
}
use h2database_rust.Prelude.HashMap
use h2database_rust.BufferPool.Clock
use h2database_rust.BufferPool.Clock.{ClockReplacer}
use h2database_rust.BufferPool.Manager.{
  PageFrame, BufferPoolManager, with_frame, not_found, ok, err, unpin_page,
}
use h2database_rust.BufferPool.Manager.View.{view, IsPool}
use h2database_rust.BufferPool.Manager.Install.{get_elem?-lt}
use h2database_rust.BufferPool.Manager.Unpin.{
  pinned_less, clock_after, unpin_missing, unpin_found, Kept, unpin_page-Kept,
}

-- The clock has a bit for each frame, and offers only frames without pins.
pub record IsPinSafe (p : BufferPoolManager) : Type 0 where
  pub frames : p.replacer.num_frames ≡ length p.frames
  pub bits : length p.replacer.in_replacer ≡ length p.frames
  pub free :
      (f : ℕ) (frame : PageFrame)
      → get_elem? p.frames f ≡ some frame
      → get_elem? p.replacer.in_replacer f ≡ some true
      → frame.pin_count ≡ 0

unpin_self :
    (c : ClockReplacer) (f : ℕ)
    → f < c.num_frames
    → f < length c.in_replacer
    → get_elem? (Clock.unpin c f).in_replacer f ≡ some true
unfolding Clock.unpin
unpin_self c f h l = ground (arith, get_elem?-set_self c.in_replacer f true l)

unpin_other :
    (c : ClockReplacer) (f g : ℕ)
    → f ≢ g
    → get_elem? (Clock.unpin c f).in_replacer g ≡ get_elem? c.in_replacer g
unfolding Clock.unpin
unpin_other c f g other = ground (arith, get_elem?-set_ne c.in_replacer f g true other)

unpin_lengths :
    (c : ClockReplacer) (f : ℕ)
    → ((Clock.unpin c f).num_frames ≡ c.num_frames)
      × (length (Clock.unpin c f).in_replacer ≡ length c.in_replacer)
unfolding Clock.unpin
unpin_lengths c f = ground (arith, length-set c.in_replacer f true)

module _ (p : BufferPoolManager) (page_id : ℕ) (is_dirty : Bool) (v : IsPool p) (s : IsPinSafe p)
    (frame_id n : ℕ) (frame : PageFrame) (e : HashMap.get p.page_table page_id ≡ some frame_id)
    (at : get_elem? p.frames frame_id ≡ some frame) (pins : frame.pin_count ≡ suc n)
    (fits : suc n < 2 ^ 32) where
  after : ClockReplacer
  after = clock_after p page_id is_dirty frame_id frame

  less : PageFrame
  less = pinned_less p page_id is_dirty frame

  less_pins : less.pin_count ≡ n
  unfolding less pinned_less
  less_pins = omega (arith, pins, fits)

  known : frame_id < length p.frames
  known = get_elem?-lt p.frames frame_id frame at

  after_self : (get_elem? after.in_replacer frame_id ≡ some true) ↔ (n ≡ 0)
  unfolding after clock_after
  after_self = elim (ℕ_discrete n 0) [
    | yes last ↦
        let one : frame.pin_count ≡ 1 = omega (arith, pins, last) in
        (
          (λ q. last),
          λ q. rw one (
              unpin_self p.replacer frame_id (omega (arith, known, s.frames))
                (omega (arith, known, s.bits))),
        )
    | no more ↦
        let still : (frame.pin_count == 1) ≡ false = ground (arith, pins, more) in
        (
          (λ q. absurd (omega (arith, pins, s.free frame_id frame at (ground (arith, still, q))))),
          λ q. absurd (more q),
        )
  ]

  after_other :
      (g : ℕ) → frame_id ≢ g → get_elem? after.in_replacer g ≡ get_elem? p.replacer.in_replacer g
  unfolding after clock_after
  after_other g other = ground (arith, unpin_other p.replacer frame_id g other)

  after_lengths :
      (after.num_frames ≡ length p.frames) × (length after.in_replacer ≡ length p.frames)
  unfolding after clock_after
  after_lengths = ground (arith, unpin_lengths p.replacer frame_id, s.frames, s.bits)

  abbrev result : BufferPoolManager
  result = record (with_frame p frame_id less) { replacer = after }

  frame_now : get_elem? result.frames frame_id ≡ some less
  frame_now = get_elem?-set_self p.frames frame_id less known

  result-IsPinSafe : IsPinSafe result
  result-IsPinSafe = record {
    frames = after_lengths.0 ∙ sym (length-set p.frames frame_id less);
    bits = after_lengths.1 ∙ sym (length-set p.frames frame_id less);
    free = λ f fr there inside. elim (ℕ_discrete frame_id f) [
      | yes same ↦
          let both : some less ≡ some fr =
            sym frame_now ∙ ap (get_elem? (set p.frames frame_id less)) same ∙ there in
          let is_less : less ≡ fr = cc in
          ap (λ (t : PageFrame). t.pin_count) (sym is_less)
          ∙ less_pins
          ∙ after_self.0 (ap (get_elem? after.in_replacer) same ∙ inside)
      | no other ↦
          s.free f fr (sym (get_elem?-set_ne p.frames frame_id f less other) ∙ there)
            (sym (after_other f other) ∙ inside)
    ];
  }

  unpinned :
      IsPool result
      × IsPinSafe result
      × ((j : ℕ) → view result j ≡ view p j)
      × (get_elem? result.frames frame_id
          ≡ some (record frame {
            pin_count = n;
            is_dirty = if is_dirty then true else frame.is_dirty;
          }))
      × ((get_elem? result.replacer.in_replacer frame_id ≡ some true) ↔ (n ≡ 0))
  unfolding after less Kept pinned_less
  unpinned =
      let (pool, same, _, _) =
        subst (Kept p page_id is_dirty) (unpin_found p page_id is_dirty frame_id frame e at)
          (unpin_page-Kept p page_id is_dirty v) in
      (
        pool,
        result-IsPinSafe,
        same,
        frame_now
            ∙ ap
                (λ k. some (record frame {
                  pin_count = k;
                  is_dirty = if is_dirty then true else frame.is_dirty;
                }))
                less_pins,
        after_self,
      )

-- In a pool whose frames, table and clock agree and whose clock offers only frames without pins,
-- `unpin_page` of a page in the table with a pin, below the overflow of the count, keeps all of that
-- and the content of every page. The frame has one pin less and is dirty if it was or if that is
-- asked for, and the clock offers it exactly when no pin is left. A page that is not in the table is
-- refused and changes nothing.
pub unpin_page-pins :
    (p : BufferPoolManager) (page_id : ℕ) (is_dirty : Bool) (frame_id n : ℕ) (frame : PageFrame)
    (other : ℕ)
    → IsPool p
    → IsPinSafe p
    → HashMap.get p.page_table page_id ≡ some frame_id
    → get_elem? p.frames frame_id ≡ some frame
    → frame.pin_count ≡ suc n
    → suc n < 2 ^ 32
    → HashMap.get p.page_table other ≡ none
    → ((unpin_page p page_id is_dirty).1 ≡ ok tt)
      × IsPool (unpin_page p page_id is_dirty).0
      × IsPinSafe (unpin_page p page_id is_dirty).0
      × ((j : ℕ) → view (unpin_page p page_id is_dirty).0 j ≡ view p j)
      × (get_elem? (unpin_page p page_id is_dirty).0.frames frame_id
          ≡ some (record frame {
            pin_count = n;
            is_dirty = if is_dirty then true else frame.is_dirty;
          }))
      × ((get_elem? (unpin_page p page_id is_dirty).0.replacer.in_replacer frame_id ≡ some true)
          ↔ (n ≡ 0))
      × (unpin_page p other is_dirty ≡ (p, err not_found))
unfolding after less
unpin_page-pins p page_id is_dirty frame_id n frame other v s e at pins fits missing =
    let (pool, safe, same, now, offered) =
      unpinned p page_id is_dirty v s frame_id n frame e at pins fits in
    rw (unpin_found p page_id is_dirty frame_id frame e at)
      (refl, pool, safe, same, now, offered, unpin_missing p other is_dirty missing)
