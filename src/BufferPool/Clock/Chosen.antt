-- ===== src/BufferPool/Clock/Chosen.antt =====
-- What any outcome of `victim` says of the frames in the replacer.
use h2database_rust.Prelude.{
  ℕ, zero, suc, ◌*◌, ◌≡◌, true, false, Option, none, some, arith, get_elem?, set,
}
use h2database_rust.BufferPool.Clock.{ClockReplacer, advance, victim_loop, victim}

-- The frame that was chosen was in the replacer and leaves it; without one nothing changes.
abbrev pub Chosen : ClockReplacer → ClockReplacer → Option ℕ → Type 0
Chosen c c' none = c'.in_replacer ≡ c.in_replacer
Chosen c c' (some g) =
    (get_elem? c.in_replacer g ≡ some true) × (c'.in_replacer ≡ set c.in_replacer g false)

victim_loop-Chosen :
    (steps : ℕ) (c c' : ClockReplacer) (o : Option ℕ)
    → victim_loop steps c ≡ some (c', o)
    → Chosen c c' o
unfolding victim_loop advance
victim_loop-Chosen zero c c' none e = ground arith
victim_loop-Chosen zero c c' (some g) e = absurd (ground arith)
victim_loop-Chosen (suc steps) c c' none e = ground (
  arith,
  victim_loop-Chosen steps (advance c) c' none,
  victim_loop-Chosen steps (record (advance c) { ref_bits = set c.ref_bits c.clock_hand false }) c'
      none,
)
victim_loop-Chosen (suc steps) c c' (some g) e = ground (
  arith,
  victim_loop-Chosen steps (advance c) c' (some g),
  victim_loop-Chosen steps (record (advance c) { ref_bits = set c.ref_bits c.clock_hand false }) c'
      (some g),
)

pub victim-Chosen : (c c' : ClockReplacer) (o : Option ℕ) → victim c ≡ some (c', o) → Chosen c c' o
unfolding victim
victim-Chosen c c' o e = victim_loop-Chosen (c.num_frames * 2) c c' o e
