-- ===== src/BufferPool/Clock/Victim.antt =====
-- The victim is a frame in the replacer, and there is one whenever some frame is in the replacer.
use h2database_rust.Prelude.{
  ℕ, zero, suc, ◌+◌, ◌-◌, ◌*◌, ◌%◌, ◌<◌, Bool, true, false, Option, some, List, [], ◌∷◌, ltb,
  if◌then◌else◌, get_elem?, set, length, length-set, get_elem?-set_self, get_elem?-set_ne, ◌≡◌, ◌≢◌,
  ◌⊎◌, ◌==◌, refl, ap, sym, ◌∙◌, arith, inl, inr, Bool-cases,
}
use mathlib.Core.Path.{subst}
use native.Mathlib.Nat.{mod-lt, mod_self, mod-eq_of_lt}
use h2database_rust.BufferPool.Clock.{ClockReplacer, advance, victim_loop, victim}

-- Both rows have a bit for each frame, and the hand is at a frame.
pub record IsValid (c : ClockReplacer) : Type 0 where
  pub hand : c.clock_hand < c.num_frames
  pub refs : length c.ref_bits ≡ c.num_frames
  pub ins : length c.in_replacer ≡ c.num_frames

get_elem?-lt : (bs : List Bool) (i : ℕ) → i < length bs → (b : Bool) × (get_elem? bs i ≡ some b)
get_elem?-lt [] i h = absurd (omega (arith, h))
get_elem?-lt (b ∷ bs) zero h = (b, refl)
get_elem?-lt (b ∷ bs) (suc i) h = get_elem?-lt bs i (omega (arith, h))

-- The steps from the hand to a frame.
distance : ℕ → ℕ → ℕ → ℕ
distance n hand f = if ltb f hand then f + n - hand else f - hand

next_hand :
    (n h : ℕ) → h < n → ((h + 1 < n) × ((h + 1) % n ≡ h + 1)) ⊎ ((h + 1 ≡ n) × ((h + 1) % n ≡ 0))
next_hand n h l = elim (Bool-cases (ltb (h + 1) n)) [
  | inl less ↦ inl (ground (arith, less), mod-eq_of_lt (ground (arith, less)))
  | inr not ↦ let p : h + 1 ≡ n = ground (arith, l, not) in inr (p, ap (λ k. k % n) p ∙ mod_self n)
]

advance-IsValid : (c : ClockReplacer) → IsValid c → IsValid (advance c)
unfolding advance
advance-IsValid c v = record {
  hand = mod-lt (c.clock_hand + 1) (omega (arith, v.hand));
  refs = v.refs;
  ins = v.ins;
}

distance_self : (n h : ℕ) → h < n → distance n ((h + 1) % n) h < n
unfolding distance
distance_self n h l = elim (next_hand n h l) [
  | inl (less, e) ↦ rw (e, distance) (ground arith)
  | inr (last, e) ↦ rw (e, distance) (ground arith)
]

distance_step :
    (n h f : ℕ) → h < n → f < n → h ≢ f → distance n ((h + 1) % n) f + 1 ≡ distance n h f
unfolding distance
distance_step n h f l k other = elim (next_hand n h l) [
  | inl (less, e) ↦ rw (e, distance) (ground arith)
  | inr (last, e) ↦ rw (e, distance) (ground arith)
]

-- The frame is in the replacer, and it has had its second chance if `chance` is false.
record Waits (f : ℕ) (chance : Bool) (c : ClockReplacer) : Type 0 where
  inside : get_elem? c.in_replacer f ≡ some true
  bit : get_elem? c.ref_bits f ≡ some chance
  frame : f < c.num_frames

-- The steps that are enough to find a victim.
enough : Bool → ℕ → ℕ → ℕ → ℕ
enough true n h f = n + distance n h f
enough false n h f = distance n h f

-- A victim was found: a frame that was in the replacer, and has left it.
abbrev pub Found : ClockReplacer → Option (ClockReplacer × Option ℕ) → Type 0
Found c r =
    (c' : ClockReplacer) × (g : ℕ) × (r ≡ some (c', some g))
    × IsValid c'
    × (get_elem? c.in_replacer g ≡ some true)
    × (c'.in_replacer ≡ set c.in_replacer g false)

victim_loop-Found :
    (steps : ℕ) (c : ClockReplacer) (f : ℕ) (chance : Bool)
    → IsValid c
    → Waits f chance c
    → enough chance c.num_frames c.clock_hand f < steps
    → Found c (victim_loop steps c)
unfolding victim_loop advance enough
victim_loop-Found zero c f chance v w h = absurd (omega (arith, h))
victim_loop-Found (suc steps) c f chance v w h =
    go (get_elem?-lt c.in_replacer c.clock_hand (omega (arith, v.hand, v.ins)))
      (get_elem?-lt c.ref_bits c.clock_hand (omega (arith, v.hand, v.refs)))
      (λ d chance' p v' w' h'. victim_loop-Found steps d f chance' v' w' h')
  where
    cleared : ClockReplacer
    cleared = record (advance c) { ref_bits = set c.ref_bits c.clock_hand false }

    cleared-IsValid : IsValid cleared
    cleared-IsValid = record {
      hand = (advance-IsValid c v).hand;
      refs = length-set c.ref_bits c.clock_hand false ∙ v.refs;
      ins = v.ins;
    }

    less_after :
        (b : Bool)
        → c.clock_hand ≢ f
        → enough b c.num_frames c.clock_hand f < suc steps
        → enough b c.num_frames ((c.clock_hand + 1) % c.num_frames) f < steps
    less_after true other k =
        omega (arith, k, distance_step c.num_frames c.clock_hand f v.hand w.frame other)
    less_after false other k =
        omega (arith, k, distance_step c.num_frames c.clock_hand f v.hand w.frame other)

    Again : Type 0
    Again =
        (d : ClockReplacer) (b : Bool)
        → d.in_replacer ≡ c.in_replacer
        → IsValid d
        → Waits f b d
        → enough b d.num_frames d.clock_hand f < steps
        → Found d (victim_loop steps d)

    onward :
        (d : ClockReplacer)
        → d.in_replacer ≡ c.in_replacer
        → victim_loop (suc steps) c ≡ victim_loop steps d
        → Found d (victim_loop steps d)
        → Found c (victim_loop (suc steps) c)
    onward d p e (c', g, r, v', inside, left) = (
      c',
      g,
      e ∙ r,
      v',
      subst (λ l. get_elem? l g ≡ some true) p inside,
      subst (λ l. c'.in_replacer ≡ set l g false) p left,
    )

    has_chance :
        (b : Bool)
        → chance ≡ b
        → get_elem? c.in_replacer c.clock_hand ≡ some true
        → get_elem? c.ref_bits c.clock_hand ≡ some true
        → c.clock_hand ≡ f
        → Again
        → Found cleared (victim_loop steps cleared)
    has_chance false q i r e again =
        let bad : some true ≡ some false =
          sym r ∙ ap (get_elem? c.ref_bits) e ∙ w.bit ∙ ap some q in
        absurd (cc)
    has_chance true q i r e again =
        let near : distance c.num_frames ((c.clock_hand + 1) % c.num_frames) f < c.num_frames =
          subst (λ k. distance c.num_frames ((c.clock_hand + 1) % c.num_frames) k < c.num_frames) e
            (distance_self c.num_frames c.clock_hand v.hand) in
        let much : c.num_frames + distance c.num_frames c.clock_hand f < suc steps =
          subst (λ b. enough b c.num_frames c.clock_hand f < suc steps) q h in
        again cleared false refl cleared-IsValid
          (record {
            inside = w.inside;
            bit =
                subst (λ k. get_elem? (set c.ref_bits c.clock_hand false) k ≡ some false) e
                  (get_elem?-set_self c.ref_bits c.clock_hand false
                    (omega (arith, v.hand, v.refs)));
            frame = w.frame;
          })
          (omega (arith, near, much))

    at_hand :
        (b r : Bool)
        → get_elem? c.in_replacer c.clock_hand ≡ some b
        → get_elem? c.ref_bits c.clock_hand ≡ some r
        → Again
        → Found c (victim_loop (suc steps) c)
    at_hand false r i q again =
        let other : c.clock_hand ≢ f = λ e.
          let bad : some false ≡ some true = sym i ∙ ap (get_elem? c.in_replacer) e ∙ w.inside in
          absurd (cc) in
        onward (advance c) refl (rw (i, victim_loop) refl) (
          again (advance c) chance refl (advance-IsValid c v)
            (record { inside = w.inside; bit = w.bit; frame = w.frame })
            (less_after chance other h))
    at_hand true false i q again = (
      record (advance c) { in_replacer = set c.in_replacer c.clock_hand false },
      c.clock_hand,
      rw (i, victim_loop) (rw q refl),
      record {
        hand = (advance-IsValid c v).hand;
        refs = v.refs;
        ins = length-set c.in_replacer c.clock_hand false ∙ v.ins;
      },
      i,
      refl,
    )
    at_hand true true i q again =
        onward cleared refl (rw (i, victim_loop) (rw q refl))
          (elim (Bool-cases (c.clock_hand == f)) [
            | inl here ↦ has_chance chance refl i q (ground (arith, here)) again
            | inr there ↦
                let other : c.clock_hand ≢ f = ground (arith, there) in
                again cleared chance refl cleared-IsValid
                  (record {
                    inside = w.inside;
                    bit = get_elem?-set_ne c.ref_bits c.clock_hand f false other ∙ w.bit;
                    frame = w.frame;
                  })
                  (less_after chance other h)
          ])

    go :
        (b : Bool) × (get_elem? c.in_replacer c.clock_hand ≡ some b)
        → (r : Bool) × (get_elem? c.ref_bits c.clock_hand ≡ some r)
        → Again
        → Found c (victim_loop (suc steps) c)
    go (b, i) (r, q) again = at_hand b r i q again

-- When some frame is in the replacer, `victim` does not panic and finds a frame within its two
-- rounds: one that was in the replacer, that leaves it, and no other frame enters or leaves.
pub victim-Found :
    (c : ClockReplacer) (f : ℕ)
    → IsValid c
    → f < c.num_frames
    → get_elem? c.in_replacer f ≡ some true
    → Found c (victim c)
unfolding victim enough distance
victim-Found c f v l inside =
    let (b, bit) = get_elem?-lt c.ref_bits f (omega (arith, l, v.refs)) in
    victim_loop-Found (c.num_frames * 2) c f b v (record { inside = inside; bit = bit; frame = l })
      (bound b)
  where
    bound : (b : Bool) → enough b c.num_frames c.clock_hand f < c.num_frames * 2
    bound true = ground (arith, v.hand, l)
    bound false = ground (arith, v.hand, l)
