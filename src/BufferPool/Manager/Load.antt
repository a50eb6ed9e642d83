-- ===== src/BufferPool/Manager/Load.antt =====
-- The page that `fetch_page` of crates/h2-mvstore/src/buffer_pool/mod.rs reads into a frame.
use mathlib.Core.Path.{subst}
use native.Mathlib.Decide.{ℕ_discrete}
use h2database_rust.Prelude.{
  ℕ, ◌≡◌, ◌≢◌, refl, sym, ap, ◌∙◌, Bool, true, false, none, some, arith, get_elem?, set,
  get_elem?-set_ne, Option-cases, inl, inr,
}
use h2database_rust.Prelude.HashMap
use h2database_rust.Prelude.HashMap.{HashMap, get-insert, get-remove}
use h2database_rust.Bytes.Order.{Bytes}
use h2database_rust.BufferPool.Clock.{ClockReplacer}
use h2database_rust.BufferPool.Disk.{DiskManager, page_on_disk, read_page}
use h2database_rust.BufferPool.Manager.{
  no_page, PageFrame, BufferPoolManager, write_out, install, with_frame, IoFaults, io_error,
  Outcome, ok, err, load, fetch_into,
}
use h2database_rust.BufferPool.Manager.View.{view, view_absent, view_present, IsPool}
use h2database_rust.BufferPool.Manager.Install.{view-install_self, view-install_ne, install-IsPool}
use h2database_rust.BufferPool.Manager.Victim.{
  view-rebased, rebased-IsPool, kept, out, base, base-IsPool, base-unused, base-missing, base-view,
}

-- The pool is in order, shows each page as before, and a frame that is returned holds the page.
abbrev pub Fetched : BufferPoolManager → ℕ → BufferPoolManager × Outcome ℕ → Type 0
Fetched p page_id (p', o) =
    IsPool p'
    × ((j : ℕ) → view p' j ≡ view p j)
    × ((frame_id : ℕ) → o ≡ ok frame_id → HashMap.get p'.page_table page_id ≡ some frame_id)

pub ok_same : (a b : ℕ) → ok a ≡ ok b → a ≡ b
ok_same a b e = cc

-- The clock and an unmapped frame may be changed where the replacer does not gain a frame.
module _ (p : BufferPoolManager) (v : IsPool p) (frame_id : ℕ) (new : PageFrame)
    (unused : (j : ℕ) → HashMap.get p.page_table j ≢ some frame_id)
    (out : ¬ (get_elem? p.replacer.in_replacer frame_id ≡ some true)) where
  other_frame :
      (j f : ℕ)
      → HashMap.get p.page_table j ≡ some f
      → get_elem? (set p.frames frame_id new) f ≡ get_elem? p.frames f
  other_frame j f e =
      get_elem?-set_ne p.frames frame_id f new (λ same. unused j (e ∙ ap some (sym same)))

  view-stray : (j : ℕ) → view (with_frame p frame_id new) j ≡ view p j
  view-stray j = elim (Option-cases (HashMap.get p.page_table j)) [
    | inl gone ↦ view_absent (with_frame p frame_id new) j gone ∙ sym (view_absent p j gone)
    | inr (f, e) ↦
        let (fr, at, _) = v.mapped j f e in
        view_present (with_frame p frame_id new) j f fr e (other_frame j f e ∙ at)
        ∙ sym (view_present p j f fr e at)
  ]

  stray-IsPool : IsPool (with_frame p frame_id new)
  stray-IsPool = record {
    mapped = λ j f e. let (fr, at, n) = v.mapped j f e in (fr, other_frame j f e ∙ at, n);
    clean = λ j f fr e at. v.clean j f fr e (sym (other_frame j f e) ∙ at);
    owned = λ f fr at inside.
        v.owned f fr
          (sym (
              get_elem?-set_ne p.frames frame_id f new
                (λ same. out (ap (get_elem? p.replacer.in_replacer) same ∙ inside)))
            ∙ at)
          inside;
    nameless = v.nameless;
  }

read_page-some :
    (d : DiskManager) (works : Bool) (page_id : ℕ) (buf : Bytes)
    → read_page d works page_id ≡ some buf
    → page_on_disk d page_id ≡ buf
unfolding read_page
read_page-some d works page_id buf e = ground arith

pub unnamed :
    (p : BufferPoolManager) (v : IsPool p) (page_id : ℕ) (replacer : ClockReplacer) (o : Outcome ℕ)
    → ((f : ℕ) → o ≢ ok f)
    → ((f : ℕ)
        → get_elem? replacer.in_replacer f ≡ some true
        → get_elem? p.replacer.in_replacer f ≡ some true)
    → Fetched p page_id (record p { replacer = replacer }, o)
unnamed p v page_id replacer o failed inside = (
  rebased-IsPool p v p.disk_manager replacer (λ j. refl) inside,
  view-rebased p v p.disk_manager replacer (λ j. refl) inside,
  λ f q. absurd (failed f q),
)

-- A page that is not in the pool, into the frame that the clock chose.
module _ (p : BufferPoolManager) (v : IsPool p) (frame_id : ℕ) (frame : PageFrame) (page_id : ℕ)
    (there : get_elem? p.frames frame_id ≡ some frame)
    (free : get_elem? p.replacer.in_replacer frame_id ≡ some true) (replacer : ClockReplacer)
    (gone : replacer.in_replacer ≡ set p.replacer.in_replacer frame_id false)
    (missing : HashMap.get p.page_table page_id ≡ none) (named : page_id ≢ no_page) where
  module _ (works : Bool) (disk : DiskManager)
      (written : write_out p.disk_manager works frame ≡ some disk) where
    abbrev freed : BufferPoolManager
    freed = base p v frame_id frame page_id there free replacer gone missing works disk written

    freed-IsPool : IsPool freed
    freed-IsPool =
        base-IsPool p v frame_id frame page_id there free replacer gone missing works disk written

    freed-unused : (j : ℕ) → HashMap.get freed.page_table j ≢ some frame_id
    freed-unused =
        base-unused p v frame_id frame page_id there free replacer gone missing works disk written

    freed-missing : HashMap.get freed.page_table page_id ≡ none
    freed-missing =
        base-missing p v frame_id frame page_id there free replacer gone missing works disk written

    freed-view : (j : ℕ) → view freed j ≡ view p j
    freed-view =
        base-view p v frame_id frame page_id there free replacer gone missing works disk written

    freed-out : ¬ (get_elem? replacer.in_replacer frame_id ≡ some true)
    freed-out = out p v frame_id frame page_id there free replacer gone missing

    load-none :
        (faults : IoFaults)
        → read_page disk faults.read_works page_id ≡ none
        → load faults (record p { disk_manager = disk; replacer = replacer }) frame_id frame page_id
          ≡ (with_frame freed frame_id (record frame { is_dirty = false }), err io_error)
    unfolding load
    load-none faults e = rw (e, load) refl

    load-some :
        (faults : IoFaults) (bytes : Bytes)
        → read_page disk faults.read_works page_id ≡ some bytes
        → load faults (record p { disk_manager = disk; replacer = replacer }) frame_id frame page_id
          ≡ (
            install freed frame_id
                (record { content = bytes; page_id = page_id; pin_count = 1; is_dirty = false }),
            ok frame_id,
          )
    unfolding load
    load-some faults bytes e = rw (e, load) refl

    unread-Fetched :
        Fetched p page_id
          (with_frame freed frame_id (record frame { is_dirty = false }), err io_error)
    unread-Fetched =
        let clean : PageFrame = record frame { is_dirty = false } in
        (
          stray-IsPool freed freed-IsPool frame_id clean freed-unused freed-out,
          λ j. view-stray freed freed-IsPool frame_id clean freed-unused freed-out j ∙ freed-view j,
          λ f q. absurd (cc),
        )

    loaded-Fetched :
        (bytes : Bytes)
        → page_on_disk disk page_id ≡ bytes
        → Fetched p page_id (
          install freed frame_id
              (record { content = bytes; page_id = page_id; pin_count = 1; is_dirty = false }),
          ok frame_id,
        )
    unfolding install
    loaded-Fetched bytes stored =
        let new : PageFrame = record {
          content = bytes;
          page_id = page_id;
          pin_count = 1;
          is_dirty = false;
        } in
        let p' : BufferPoolManager = install freed frame_id new in
        let self : view p' page_id ≡ view freed page_id =
          view-install_self freed freed-IsPool frame_id frame new there freed-unused freed-out
            freed-missing named (λ q. stored)
          ∙ sym stored
          ∙ sym (view_absent freed page_id freed-missing) in
        (
          install-IsPool freed freed-IsPool frame_id frame new there freed-unused freed-out
              freed-missing named (λ q. stored),
          λ j.
              elim (ℕ_discrete page_id j) [
                | yes same ↦
                    subst (λ t. view (install freed frame_id new) t ≡ view freed t) same self
                | no other ↦
                    view-install_ne freed freed-IsPool frame_id frame new there freed-unused
                      freed-out freed-missing named (λ q. stored) j (λ q. other (sym q))
              ]
              ∙ freed-view j,
          λ f q.
              ground
                (arith, get-insert freed.page_table page_id page_id frame_id, ok_same frame_id f q),
        )

    load-Fetched :
        (faults : IoFaults)
        → Fetched p page_id (
            load faults
              (record p { disk_manager = disk; replacer = replacer })
              frame_id
              frame
              page_id)
    load-Fetched faults = elim (Option-cases (read_page disk faults.read_works page_id)) [
      | inl e ↦ subst (Fetched p page_id) (sym (load-none faults e)) unread-Fetched
      | inr (bytes, e) ↦
          subst (Fetched p page_id) (sym (load-some faults bytes e))
            (loaded-Fetched bytes (read_page-some disk faults.read_works page_id bytes e))
    ]

  fetch_into-none :
      (faults : IoFaults)
      → write_out p.disk_manager faults.write_works frame ≡ none
      → fetch_into faults (record p { replacer = replacer }) frame_id frame page_id
        ≡ (record p { replacer = replacer }, err io_error)
  unfolding fetch_into
  fetch_into-none faults e = rw (e, fetch_into) refl

  fetch_into-some :
      (faults : IoFaults) (disk : DiskManager)
      → write_out p.disk_manager faults.write_works frame ≡ some disk
      → fetch_into faults (record p { replacer = replacer }) frame_id frame page_id
        ≡ load faults (record p { disk_manager = disk; replacer = replacer }) frame_id frame page_id
  unfolding fetch_into
  fetch_into-some faults disk e = rw (e, fetch_into) refl

  pub fetch_into-Fetched :
      (faults : IoFaults)
      → Fetched p page_id
          (fetch_into faults (record p { replacer = replacer }) frame_id frame page_id)
  fetch_into-Fetched faults =
      elim (Option-cases (write_out p.disk_manager faults.write_works frame)) [
        | inl e ↦ subst (Fetched p page_id) (sym (fetch_into-none faults e)) (
            unnamed p v page_id replacer (err io_error) (λ f q. cc)
              (kept p.replacer replacer frame_id gone))
        | inr (disk, e) ↦
            subst (Fetched p page_id) (sym (fetch_into-some faults disk e))
              (load-Fetched faults.write_works disk e faults)
      ]
