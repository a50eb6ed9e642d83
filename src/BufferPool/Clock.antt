-- ===== src/BufferPool/Clock.antt =====
-- crates/h2-mvstore/src/buffer_pool/clock_replacer.rs: the clock with a second chance. Each method
-- is one step. `none` is a panic, an index out of range.
pub mod Victim
pub mod Chosen
use h2database_rust.Prelude.{
  ℕ, zero, suc, ◌+◌, ◌*◌, ◌%◌, Bool, true, false, Option, none, some, List, [], ◌∷◌, ltb,
  if◌then◌else◌, get_elem?, set, replicate,
}

pub record ClockReplacer : Type 0 where
  pub num_frames : ℕ
  pub clock_hand : ℕ
  pub ref_bits : List Bool
  pub in_replacer : List Bool

unfoldable pub new : ℕ → ClockReplacer
new num_frames = record {
  num_frames = num_frames;
  clock_hand = 0;
  ref_bits = replicate num_frames false;
  in_replacer = replicate num_frames false;
}

unfoldable pub advance : ClockReplacer → ClockReplacer
advance c = record c { clock_hand = (c.clock_hand + 1) % c.num_frames }

-- The `for` loop of `victim`, with the steps that are left.
unfoldable pub victim_loop : ℕ → ClockReplacer → Option (ClockReplacer × Option ℕ)
unfolding advance
victim_loop zero c = some (c, none)
victim_loop (suc steps) c = elim (get_elem? c.in_replacer c.clock_hand) [
  | none ↦ none
  | some false ↦ victim_loop steps (advance c)
  | some true ↦ elim (get_elem? c.ref_bits c.clock_hand) [
    | none ↦ none
    | some true ↦
        victim_loop steps (record (advance c) { ref_bits = set c.ref_bits c.clock_hand false })
    | some false ↦ some (
      record (advance c) { in_replacer = set c.in_replacer c.clock_hand false },
      some c.clock_hand,
    )
  ]
]

unfoldable pub victim : ClockReplacer → Option (ClockReplacer × Option ℕ)
unfolding victim_loop
victim c = victim_loop (c.num_frames * 2) c

unfoldable pub pin : ClockReplacer → ℕ → ClockReplacer
pin c frame_id =
    if ltb frame_id c.num_frames
    then record c {
      in_replacer = set c.in_replacer frame_id false;
      ref_bits = set c.ref_bits frame_id false;
    }
    else c

unfoldable pub unpin : ClockReplacer → ℕ → ClockReplacer
unpin c frame_id =
    if ltb frame_id c.num_frames
    then record c {
      in_replacer = set c.in_replacer frame_id true;
      ref_bits = set c.ref_bits frame_id true;
    }
    else c

unfoldable pub count : List Bool → ℕ
count [] = 0
count (b ∷ bs) = let rest = count bs in if b then suc rest else rest

unfoldable pub size : ClockReplacer → ℕ
unfolding count
size c = count c.in_replacer
