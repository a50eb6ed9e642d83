-- ===== src/Tx/Lock/Cells.antt =====
-- The cells of crates/h2-mvstore/src/tx/lock.rs: each has a flag and counts those that wait on it.

use h2database_rust.Prelude.{
  ℕ, ◌+◌, ◌-◌, ◌<◌, ◌≤◌, ◌≡◌, ◌≢◌, Option, none, ◌==◌, if◌then◌else◌, length-set, true, false, some,
  [], ◌∷◌, arith, length, length-append, inl, inr, Option-cases,
}
use h2database_rust.Prelude.HashMap
use h2database_rust.Prelude.HashMap.{HashMap, get-insert, get-remove}
use h2database_rust.Tx.Lock.{
  WaitState, register_wait, unregister_wait, drop_waiter, notify_lock_released, add_waiter,
}

-- Every cell in the map has a flag.
abbrev pub HasFlags : WaitState → Type 0
HasFlags s =
    (h count cell : ℕ) → HashMap.get s.wait_cells h ≡ some (count, cell) → cell < length s.released

-- After a wait is registered the holder has a cell with a flag, and all cells keep theirs.
pub register_wait-HasFlags :
    (s t : WaitState) (waiter holder : ℕ)
    → HasFlags s
    → register_wait s waiter holder ≡ some t
    → HasFlags t
unfolding register_wait add_waiter
register_wait-HasFlags s t waiter holder ok e h count cell p =
    elim (Option-cases (HashMap.get s.wait_cells holder)) [
      | inl fresh ↦ ground (
        arith,
        get-insert s.wait_cells holder h (1, length s.released),
        length-append s.released (false ∷ []),
        ok h count cell,
      )
      | inr ((n, c), old) ↦
          ground
            (arith, get-insert s.wait_cells holder h (n + 1, c), ok h count cell, ok holder n c)
    ]

-- How many transactions wait for a holder.
unfoldable pub waiters : HashMap ℕ → ℕ → ℕ
waiters [] h = 0
waiters ((w, x) ∷ m) h = (if x == h then 1 else 0) + waiters m h

pub waiters-remove : (m : HashMap ℕ) (k h : ℕ) → waiters (HashMap.remove m k) h ≤ waiters m h
unfolding waiters HashMap.remove
waiters-remove [] k h = omega arith
waiters-remove ((w, x) ∷ m) k h = ground (arith, waiters-remove m k h)

pub waiters-remove_here :
    (m : HashMap ℕ) (k h : ℕ)
    → HashMap.get m k ≡ some h
    → waiters (HashMap.remove m k) h + 1 ≤ waiters m h
unfolding waiters HashMap.remove HashMap.get
waiters-remove_here [] k h e = absurd (cc)
waiters-remove_here ((w, x) ∷ m) k h e =
    ground (arith, waiters-remove m k h, waiters-remove_here m k h)

pub waiters-get : (m : HashMap ℕ) (k h : ℕ) → HashMap.get m k ≡ some h → 0 < waiters m h
waiters-get m k h e = omega (arith, waiters-remove_here m k h e)

pub waiters-insert :
    (m : HashMap ℕ) (k x h : ℕ)
    → waiters (HashMap.insert m k x) h ≤ (if x == h then 1 else 0) + waiters m h
unfolding waiters HashMap.insert
waiters-insert m k x h = omega (arith, waiters-remove m k h)

abbrev pub count_of : Option (ℕ × ℕ) → ℕ
count_of none = 0
count_of (some (n, cell)) = n

-- A cell counts at least the transactions that wait for its holder.
abbrev pub IsCounted : WaitState → ℕ → Type 0
IsCounted s h = waiters s.wait_for h ≤ count_of (HashMap.get s.wait_cells h)

pub register_wait_lem :
    (s t : WaitState) (w x : ℕ)
    → register_wait s w x ≡ some t
    → add_waiter (record s { wait_for = HashMap.insert s.wait_for w x }) x ≡ t
unfolding register_wait
register_wait_lem s t w x e = ground arith

abbrev pub added : WaitState → ℕ → ℕ → WaitState
added s w x = add_waiter (record s { wait_for = HashMap.insert s.wait_for w x }) x

pub added-IsCounted :
    (s : WaitState) (w x h : ℕ)
    → IsCounted s h
    → IsCounted (add_waiter (record s { wait_for = HashMap.insert s.wait_for w x }) x) h
unfolding add_waiter
added-IsCounted s w x h c = elim (Option-cases (HashMap.get s.wait_cells x)) [
  | inl fresh ↦ ground (
    arith,
    c,
    waiters-insert s.wait_for w x h,
    get-insert s.wait_cells x h (1, length s.released),
  )
  | inr ((n, cell), old) ↦
      ground (arith, c, waiters-insert s.wait_for w x h, get-insert s.wait_cells x h (n + 1, cell))
]

pub unregister-IsCounted :
    (s : WaitState) (w h : ℕ) → IsCounted s h → IsCounted (unregister_wait s w) h
unfolding unregister_wait drop_waiter
unregister-IsCounted s w h c = elim (Option-cases (HashMap.get s.wait_for w)) [
  | inl e ↦ ground (arith, e, c)
  | inr (x, e) ↦
      let fewer = waiters-remove s.wait_for w h in
      elim (Option-cases (HashMap.get s.wait_cells x)) [
        | inl gone ↦ ground (arith, e, gone, c, fewer)
        | inr ((n, cell), old) ↦ ground (
          arith,
          e,
          old,
          c,
          fewer,
          waiters-remove_here s.wait_for w h,
          get-insert s.wait_cells x h (n - 1, cell),
          get-remove s.wait_cells x h,
        )
      ]
]

pub notify-IsCounted :
    (s : WaitState) (x h : ℕ) → x ≢ h → IsCounted s h → IsCounted (notify_lock_released s x) h
unfolding notify_lock_released
notify-IsCounted s x h other c = ground (arith, c, get-remove s.wait_cells x h)

pub unregister-HasFlags : (s : WaitState) (w : ℕ) → HasFlags s → HasFlags (unregister_wait s w)
unfolding unregister_wait drop_waiter
unregister-HasFlags s w ok h count cell p = elim (Option-cases (HashMap.get s.wait_for w)) [
  | inl e ↦ ground (arith, e, p, ok h count cell)
  | inr (x, e) ↦ elim (Option-cases (HashMap.get s.wait_cells x)) [
    | inl gone ↦ ground (arith, e, gone, p, ok h count cell)
    | inr ((n, c), old) ↦ ground (
      arith,
      e,
      old,
      p,
      ok h count cell,
      ok x n c,
      get-insert s.wait_cells x h (n - 1, c),
      get-remove s.wait_cells x h,
    )
  ]
]

pub notify-HasFlags : (s : WaitState) (x : ℕ) → HasFlags s → HasFlags (notify_lock_released s x)
unfolding notify_lock_released
notify-HasFlags s x ok h count cell p = elim (Option-cases (HashMap.get s.wait_cells x)) [
  | inl e ↦ ground (arith, e, p, ok h count cell)
  | inr ((n, c), e) ↦
      ground
        (arith, e, p, ok h count cell, get-remove s.wait_cells x h, length-set s.released c true)
]
