-- ===== src/BufferPool/Manager/View.antt =====
-- What the pool of crates/h2-mvstore/src/buffer_pool/mod.rs shows of each page, and when its frames,
-- its page table and its clock agree.
use native.Mathlib.Decide.{ℕ_discrete}
use h2database_rust.Prelude.{
  ℕ, zero, suc, ◌≡◌, ◌≢◌, sym, ap, ◌∙◌, Bool, true, false, not, ◌&&◌, none, some, List, [], ◌∷◌,
  arith, ◌==◌, if◌then◌else◌, get_elem?, set, get_elem?-set_ne, Option-cases, inl, inr,
}
use h2database_rust.Prelude.HashMap
use h2database_rust.Prelude.HashMap.{HashMap, get-insert, get-remove}
use h2database_rust.Bytes.Order.{Bytes}
use h2database_rust.BufferPool.Clock.{ClockReplacer}
use h2database_rust.BufferPool.Disk.{DiskManager, blank, page_on_disk, write_page}
use h2database_rust.BufferPool.Manager.{no_page, PageFrame, BufferPoolManager, write_out, unmap}

-- The content of a page: that of its frame, or that on disk.
pub view : BufferPoolManager → ℕ → Bytes
view p page_id = elim (HashMap.get p.page_table page_id) [
  | none ↦ page_on_disk p.disk_manager page_id
  | some frame_id ↦ elim (get_elem? p.frames frame_id) [ none ↦ blank | some frame ↦ frame.content ]
]

pub view_absent :
    (p : BufferPoolManager) (j : ℕ)
    → HashMap.get p.page_table j ≡ none
    → view p j ≡ page_on_disk p.disk_manager j
unfolding view
view_absent p j e = rw (e, view)

pub view_present :
    (p : BufferPoolManager) (j frame_id : ℕ) (frame : PageFrame)
    → HashMap.get p.page_table j ≡ some frame_id
    → get_elem? p.frames frame_id ≡ some frame
    → view p j ≡ frame.content
unfolding view
view_present p j frame_id frame e at = rw (e, at, view)

-- Each page of the table is in its frame; a clean frame has what is on disk; a frame in the clock
-- with a page is the one that the table gives for it.
pub record IsPool (p : BufferPoolManager) : Type 0 where
  pub mapped :
      (page_id frame_id : ℕ)
      → HashMap.get p.page_table page_id ≡ some frame_id
      → (frame : PageFrame) × (get_elem? p.frames frame_id ≡ some frame) × (frame.page_id ≡ page_id)
  pub clean :
      (page_id frame_id : ℕ) (frame : PageFrame)
      → HashMap.get p.page_table page_id ≡ some frame_id
      → get_elem? p.frames frame_id ≡ some frame
      → frame.is_dirty ≡ false
      → page_on_disk p.disk_manager page_id ≡ frame.content
  pub owned :
      (frame_id : ℕ) (frame : PageFrame)
      → get_elem? p.frames frame_id ≡ some frame
      → get_elem? p.replacer.in_replacer frame_id ≡ some true
      → frame.page_id ≢ no_page
      → HashMap.get p.page_table frame.page_id ≡ some frame_id
  pub nameless : HashMap.get p.page_table no_page ≡ none

pub page_on_disk-write_page :
    (d d' : DiskManager) (works : Bool) (page_id j : ℕ) (buf : Bytes)
    → write_page d works page_id buf ≡ some d'
    → page_on_disk d' j ≡ (if page_id == j then buf else page_on_disk d j)
unfolding page_on_disk write_page
page_on_disk-write_page d d' works page_id j buf e =
    ground (arith, get-insert d.pages page_id j buf)

pub cleared : (l : List Bool) (i : ℕ) → ¬ (get_elem? (set l i false) i ≡ some true)
cleared [] i = λ e. cc
cleared (b ∷ l) zero = λ e. cc
cleared (b ∷ l) (suc i) = cleared l i

-- The frame of the victim after its page was written out and unmapped.
module _ (p : BufferPoolManager) (v : IsPool p) (frame_id : ℕ) (frame : PageFrame)
    (there : get_elem? p.frames frame_id ≡ some frame)
    (free : get_elem? p.replacer.in_replacer frame_id ≡ some true) (works : Bool)
    (disk : DiskManager) (written : write_out p.disk_manager works frame ≡ some disk) where
  abbrev pub table : HashMap ℕ
  table = unmap p.page_table frame

  pub table-get :
      (j : ℕ)
      → HashMap.get table j ≡ (if frame.page_id == j then none else HashMap.get p.page_table j)
  unfolding unmap
  table-get j = ground (arith, get-remove p.page_table frame.page_id j, v.nameless)

  disk-get :
      (j : ℕ)
      → page_on_disk disk j ≡ (
          if frame.page_id == j && frame.is_dirty && not (frame.page_id == no_page)
          then frame.content
          else page_on_disk p.disk_manager j)
  unfolding write_out
  disk-get j =
      ground
        (arith, page_on_disk-write_page p.disk_manager disk works frame.page_id j frame.content)

  abbrev pub released : ClockReplacer → BufferPoolManager
  released replacer = record p { disk_manager = disk; page_table = table; replacer = replacer }

  owned_here : frame.page_id ≢ no_page → HashMap.get p.page_table frame.page_id ≡ some frame_id
  owned_here = v.owned frame_id frame there free

  pub view-released : (replacer : ClockReplacer) (j : ℕ) → view (released replacer) j ≡ view p j
  view-released replacer j = elim (ℕ_discrete frame.page_id j) [
    | yes same ↦
        let gone : HashMap.get table j ≡ none = ground (arith, table-get j) in
        elim (ℕ_discrete frame.page_id no_page) [
          | yes nameless ↦
              let absent : HashMap.get p.page_table j ≡ none =
                ap (HashMap.get p.page_table) (sym same ∙ nameless) ∙ v.nameless in
              let as_before : page_on_disk disk j ≡ page_on_disk p.disk_manager j =
                ground (arith, disk-get j) in
              view_absent (released replacer) j gone ∙ as_before ∙ sym (view_absent p j absent)
          | no named ↦
              let mine : HashMap.get p.page_table j ≡ some frame_id =
                ap (HashMap.get p.page_table) (sym same) ∙ owned_here named in
              let content : page_on_disk disk j ≡ frame.content =
                ground (arith, disk-get j, v.clean j frame_id frame mine there) in
              view_absent (released replacer) j gone
              ∙ content
              ∙ sym (view_present p j frame_id frame mine there)
        ]
    | no other ↦
        let as_mapped : HashMap.get table j ≡ HashMap.get p.page_table j =
          ground (arith, table-get j) in
        let as_before : page_on_disk disk j ≡ page_on_disk p.disk_manager j =
          ground (arith, disk-get j) in
        elim (Option-cases (HashMap.get p.page_table j)) [
          | inl absent ↦
              view_absent (released replacer) j (as_mapped ∙ absent)
              ∙ as_before
              ∙ sym (view_absent p j absent)
          | inr (f, present) ↦
              let (fr, at, _) = v.mapped j f present in
              view_present (released replacer) j f fr (as_mapped ∙ present) at
              ∙ sym (view_present p j f fr present at)
        ]
  ]

  -- No page of the table is in the frame any more.
  pub unused : (j : ℕ) → HashMap.get table j ≢ some frame_id
  unused j e =
      let old : HashMap.get p.page_table j ≡ some frame_id = ground (arith, table-get j) in
      let (other, at, named) = v.mapped j frame_id old in
      let same : other ≡ frame = cc in
      let named' : frame.page_id ≡ j = ap (λ (f : PageFrame). f.page_id) (sym same) ∙ named in
      absurd (ground (arith, table-get j))

  released_owned :
      (replacer : ClockReplacer)
      → replacer.in_replacer ≡ set p.replacer.in_replacer frame_id false
      → (f : ℕ) (fr : PageFrame) → get_elem? p.frames f ≡ some fr
      → get_elem? replacer.in_replacer f ≡ some true
      → fr.page_id ≢ no_page
      → HashMap.get table fr.page_id ≡ some f
  released_owned replacer gone f fr at inside named = elim (ℕ_discrete frame_id f) [
    | yes same ↦ absurd (
        cleared p.replacer.in_replacer frame_id (
          sym (ap (λ l. get_elem? l frame_id) gone)
          ∙ ap (get_elem? replacer.in_replacer) same
          ∙ inside))
    | no other ↦
        let was : get_elem? p.replacer.in_replacer f ≡ some true =
          sym (get_elem?-set_ne p.replacer.in_replacer frame_id f false other)
          ∙ ap (λ l. get_elem? l f) (sym gone)
          ∙ inside in
        let mine : HashMap.get p.page_table fr.page_id ≡ some f = v.owned f fr at was named in
        let apart : frame.page_id ≢ fr.page_id = λ e.
          let clash : HashMap.get p.page_table fr.page_id ≡ some frame_id =
            ap (HashMap.get p.page_table) (sym e) ∙ owned_here (λ q. named (sym e ∙ q)) in
          ground (arith) in
        ground (arith, table-get fr.page_id)
  ]

  pub released-IsPool :
      (replacer : ClockReplacer)
      → replacer.in_replacer ≡ set p.replacer.in_replacer frame_id false
      → IsPool (released replacer)
  released-IsPool replacer gone = record {
    mapped = λ j f e. v.mapped j f (ground (arith, table-get j));
    clean = λ j f fr e at unchanged. ground (arith, table-get j, disk-get j, v.clean j f fr);
    owned = released_owned replacer gone;
    nameless = ground (arith, table-get no_page, v.nameless);
  }
