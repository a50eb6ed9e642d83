-- ===== src/Tx/Lock/Sleep.antt =====
-- A transaction that sleeps on the cell of its holder in crates/h2-mvstore/src/tx/lock.rs.

use native.Mathlib.Decide.{ℕ_discrete}
use h2database_rust.Prelude.{
  Option, ℕ, ◌+◌, ◌-◌, ◌<◌, ◌≤◌, ◌≡◌, ◌≢◌, sym, ap, ◌∙◌, none, length-set, true, false, some, [],
  ◌∷◌, arith, length, length-append, inl, inr, Option-cases,
}
use h2database_rust.Prelude.HashMap
use h2database_rust.Prelude.HashMap.{HashMap, get-insert, get-remove}
use h2database_rust.Tx.Lock.{
  WaitState, unregister_wait, drop_waiter, notify_lock_released, add_waiter,
}
use h2database_rust.Tx.Lock.Acyclic.{LockCall, register, unregister, notify}
use h2database_rust.Tx.Lock.Cells.{
  HasFlags, waiters, waiters-remove, waiters-remove_here, waiters-get, waiters-insert, IsCounted,
  added,
}

-- A waiter sleeps on a cell, which is still that of its holder.
pub record Sleeps (s : WaitState) (waiter holder cell : ℕ) : Type 0 where
  pub count : ℕ
  pub waits : HashMap.get s.wait_for waiter ≡ some holder
  pub stands : HashMap.get s.wait_cells holder ≡ some (count, cell)
  pub counted : waiters s.wait_for holder ≤ count
  pub flagged : cell < length s.released

pub added-Sleeps_new :
    (s : WaitState) (w h : ℕ)
    → HasFlags s
    → IsCounted s h
    → (cell : ℕ) × Sleeps (added s w h) w h cell
unfolding add_waiter
added-Sleeps_new s w h ok c = elim (Option-cases (HashMap.get s.wait_cells h)) [
  | inl fresh ↦ (
    length s.released,
    record {
      count = 1;
      waits = ground (arith, fresh, get-insert s.wait_for w w h);
      stands = ground (arith, fresh, get-insert s.wait_cells h h (1, length s.released));
      counted = ground (arith, fresh, c, waiters-insert s.wait_for w h h);
      flagged = ground (arith, fresh, length-append s.released (false ∷ []));
    },
  )
  | inr ((n, cell), old) ↦ (
    cell,
    record {
      count = n + 1;
      waits = ground (arith, old, get-insert s.wait_for w w h);
      stands = ground (arith, old, get-insert s.wait_cells h h (n + 1, cell));
      counted = ground (arith, old, c, waiters-insert s.wait_for w h h);
      flagged = ground (arith, old, ok h n cell);
    },
  )
]

-- The calls that leave a sleeper its cell: those of other waiters, and notices of other holders.
abbrev pub IsApart : ℕ → ℕ → LockCall → Type 0
IsApart waiter holder (register w x) = w ≢ waiter
IsApart waiter holder (unregister w) = w ≢ waiter
IsApart waiter holder (notify x) = x ≢ holder

pub added-Sleeps :
    (s : WaitState) (w x waiter holder cell : ℕ)
    → w ≢ waiter
    → Sleeps s waiter holder cell
    → Sleeps (added s w x) waiter holder cell
unfolding add_waiter
added-Sleeps s w x waiter holder cell other z = elim (Option-cases (HashMap.get s.wait_cells x)) [
  | inl fresh ↦
      let apart : x ≢ holder = λ q.
        let none_here : HashMap.get s.wait_cells holder ≡ none =
          ap (HashMap.get s.wait_cells) (sym q) ∙ fresh in
        absurd (cc (z.stands, none_here)) in
      record {
        count = z.count;
        waits = ground (arith, fresh, z.waits, get-insert s.wait_for w waiter x);
        stands =
            ground
              (arith, fresh, z.stands, get-insert s.wait_cells x holder (1, length s.released));
        counted = ground (arith, fresh, z.counted, waiters-insert s.wait_for w x holder);
        flagged = ground (arith, fresh, z.flagged, length-append s.released (false ∷ []));
      }
  | inr ((n, c), old) ↦ elim (ℕ_discrete x holder) [
    | yes q ↦
        let same : ◌≡◌ {A = Option (ℕ × ℕ)} (some (n, c)) (some (z.count, cell)) =
          sym old ∙ ap (HashMap.get s.wait_cells) q ∙ z.stands in
        let same_cell : c ≡ cell = cc in
        let same_count : n ≡ z.count = cc in
        record {
          count = n + 1;
          waits = ground (arith, old, z.waits, get-insert s.wait_for w waiter x);
          stands = ground (arith, old, same_cell, get-insert s.wait_cells x holder (n + 1, c));
          counted =
              ground (arith, old, z.counted, same_count, waiters-insert s.wait_for w x holder);
          flagged = ground (arith, old, z.flagged);
        }
    | no apart ↦ record {
      count = z.count;
      waits = ground (arith, old, z.waits, get-insert s.wait_for w waiter x);
      stands = ground (arith, old, z.stands, get-insert s.wait_cells x holder (n + 1, c));
      counted = ground (arith, old, z.counted, waiters-insert s.wait_for w x holder);
      flagged = ground (arith, old, z.flagged);
    }
  ]
]

pub unregister-Sleeps :
    (s : WaitState) (w waiter holder cell : ℕ)
    → w ≢ waiter
    → Sleeps s waiter holder cell
    → Sleeps (unregister_wait s w) waiter holder cell
unfolding unregister_wait drop_waiter
unregister-Sleeps s w waiter holder cell other z = elim (Option-cases (HashMap.get s.wait_for w)) [
  | inl e ↦ record {
    count = z.count;
    waits = ground (arith, e, z.waits);
    stands = ground (arith, e, z.stands);
    counted = ground (arith, e, z.counted);
    flagged = ground (arith, e, z.flagged);
  }
  | inr (x, e) ↦
      let waits : HashMap.get (HashMap.remove s.wait_for w) waiter ≡ some holder =
        ground (arith, z.waits, get-remove s.wait_for w waiter) in
      let fewer = waiters-remove s.wait_for w holder in
      elim (Option-cases (HashMap.get s.wait_cells x)) [
        | inl gone ↦ record {
          count = z.count;
          waits = ground (arith, e, gone, waits);
          stands = ground (arith, e, gone, z.stands);
          counted = ground (arith, e, gone, z.counted, fewer);
          flagged = ground (arith, e, gone, z.flagged);
        }
        | inr ((n, c), old) ↦ elim (ℕ_discrete x holder) [
          | yes q ↦
              let same : ◌≡◌ {A = Option (ℕ × ℕ)} (some (n, c)) (some (z.count, cell)) =
                sym old ∙ ap (HashMap.get s.wait_cells) q ∙ z.stands in
              let same_cell : c ≡ cell = cc in
              let same_count : n ≡ z.count = cc in
              let mine : HashMap.get s.wait_for w ≡ some holder = e ∙ ap some q in
              let left : waiters (HashMap.remove s.wait_for w) holder + 1 ≤ n =
                omega
                  (arith, waiters-remove_here s.wait_for w holder mine, z.counted, same_count) in
              let some_left : 0 < waiters (HashMap.remove s.wait_for w) holder =
                waiters-get (HashMap.remove s.wait_for w) waiter holder waits in
              record {
                count = n - 1;
                waits = ground (arith, e, old, waits, left, some_left);
                stands = ground (
                  arith,
                  e,
                  old,
                  left,
                  some_left,
                  same_cell,
                  get-insert s.wait_cells x holder (n - 1, c),
                );
                counted = ground (arith, e, old, left, some_left);
                flagged = ground (arith, e, old, z.flagged, left, some_left);
              }
          | no apart ↦ record {
            count = z.count;
            waits = ground (arith, e, old, waits);
            stands = ground (
              arith,
              e,
              old,
              z.stands,
              get-insert s.wait_cells x holder (n - 1, c),
              get-remove s.wait_cells x holder,
            );
            counted = ground (arith, e, old, z.counted, fewer);
            flagged = ground (arith, e, old, z.flagged);
          }
        ]
      ]
]

pub notify-Sleeps :
    (s : WaitState) (x waiter holder cell : ℕ)
    → x ≢ holder
    → Sleeps s waiter holder cell
    → Sleeps (notify_lock_released s x) waiter holder cell
unfolding notify_lock_released
notify-Sleeps s x waiter holder cell other z = elim (Option-cases (HashMap.get s.wait_cells x)) [
  | inl e ↦ record {
    count = z.count;
    waits = ground (arith, e, z.waits);
    stands = ground (arith, e, z.stands);
    counted = ground (arith, e, z.counted);
    flagged = ground (arith, e, z.flagged);
  }
  | inr ((n, c), e) ↦ record {
    count = z.count;
    waits = ground (arith, e, z.waits);
    stands = ground (arith, e, z.stands, get-remove s.wait_cells x holder);
    counted = ground (arith, e, z.counted);
    flagged = ground (arith, e, z.flagged, length-set s.released c true);
  }
]
