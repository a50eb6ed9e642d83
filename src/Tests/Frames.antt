-- ===== src/Tests/Frames.antt =====
-- A clock of two frames, of which one waits with its second chance.
use h2database_rust.Prelude.{true, false, [], ◌∷◌, refl, arith}
use h2database_rust.BufferPool.Clock.{ClockReplacer, victim}
use h2database_rust.BufferPool.Clock.Victim.{Found, victim-Found}

abbrev clock : ClockReplacer
clock = record {
  num_frames = 2;
  clock_hand = 1;
  ref_bits = true ∷ false ∷ [];
  in_replacer = true ∷ false ∷ [];
}

victim-Found_example : Found clock (victim clock)
victim-Found_example =
    victim-Found clock 0 (record { hand = omega arith; refs = refl; ins = refl }) (omega arith) refl
