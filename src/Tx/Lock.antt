-- ===== src/Tx/Lock.antt =====
-- crates/h2-mvstore/src/tx/lock.rs: the wait-for graph of transactions, the search for a deadlock
-- in it, and the cells on which waiters sleep. An operation holds the mutex of the state from its
-- first to its last line, so it is one step. The stripes of `lock_key` are mutexes over no data.
pub mod Termination
pub mod Acyclic
pub mod Exact
pub mod Cells
pub mod Sleep
pub mod Woken
use h2database_rust.Prelude.{
  ℕ, zero, suc, ◌+◌, ◌-◌, Bool, true, false, Option, none, some, List, [], ◌∷◌, ◌++◌, ◌==◌,
  if◌then◌else◌, length, set, get_elem?,
}
use h2database_rust.Prelude.HashMap
use h2database_rust.Prelude.HashMap.{HashMap}

-- `wait_cells` holds for a holder how many wait on it, and the `Arc` of the cell on which they do:
-- an index into `released`, the flags of all cells ever made.
pub record WaitState : Type 0 where
  pub wait_for : HashMap ℕ
  pub wait_cells : HashMap (ℕ × ℕ)
  pub released : List Bool

abbrev pub new : WaitState
new = record { wait_for = []; wait_cells = []; released = [] }

unfoldable pub contains : List ℕ → ℕ → Bool
contains [] x = false
contains (y ∷ ys) x = if y == x then true else contains ys x

-- The `while` loop of `check_cycle`. `none` means that the fuel ran out.
unfoldable pub cycle_loop : ℕ → HashMap ℕ → ℕ → List ℕ → ℕ → Option Bool
unfolding contains
cycle_loop zero wait_for waiter visited curr = none
cycle_loop (suc fuel) wait_for waiter visited curr = elim (HashMap.get wait_for curr) [
  | none ↦ some false
  | some next ↦
      let rest = cycle_loop fuel wait_for waiter (next ∷ visited) next in
      if next == waiter then some true else if contains visited next then some true else rest
]

unfoldable pub or_true : Option Bool → Bool
or_true none = true
or_true (some b) = b

-- Each round visits one more transaction that waits, so two rounds more than there are edges are
-- enough.
unfoldable pub check_cycle : HashMap ℕ → ℕ → ℕ → Bool
unfolding or_true
check_cycle wait_for waiter holder =
    if waiter == holder
    then true
    else or_true (cycle_loop (length wait_for + 2) wait_for waiter (holder ∷ waiter ∷ []) holder)

-- `entry(holder).and_modify(…).or_insert_with(…)`
unfoldable pub add_waiter : WaitState → ℕ → WaitState
add_waiter s holder = elim (HashMap.get s.wait_cells holder) [
  | some (count, cell) ↦ record s {
    wait_cells = HashMap.insert s.wait_cells holder (count + 1, cell);
  }
  | none ↦ record s {
    wait_cells = HashMap.insert s.wait_cells holder (1, length s.released);
    released = s.released ++ false ∷ [];
  }
]

-- `none` is the error that reports a deadlock; the state is then as it was.
unfoldable pub register_wait : WaitState → ℕ → ℕ → Option WaitState
unfolding add_waiter
register_wait s waiter holder =
    if check_cycle s.wait_for waiter holder
    then none
    else some (add_waiter (record s { wait_for = HashMap.insert s.wait_for waiter holder }) holder)

-- The last waiter takes the cell out of the map.
unfoldable pub drop_waiter : WaitState → ℕ → WaitState
drop_waiter s holder = elim (HashMap.get s.wait_cells holder) [
  | none ↦ s
  | some (count, cell) ↦
      if count - 1 == 0
      then record s { wait_cells = HashMap.remove s.wait_cells holder }
      else record s { wait_cells = HashMap.insert s.wait_cells holder (count - 1, cell) }
]

unfoldable pub unregister_wait : WaitState → ℕ → WaitState
unfolding drop_waiter
unregister_wait s waiter = elim (HashMap.get s.wait_for waiter) [
  | none ↦ s
  | some holder ↦ drop_waiter (record s { wait_for = HashMap.remove s.wait_for waiter }) holder
]

unfoldable pub notify_lock_released : WaitState → ℕ → WaitState
notify_lock_released s holder = elim (HashMap.get s.wait_cells holder) [
  | none ↦ s
  | some (count, cell) ↦ record s {
    wait_cells = HashMap.remove s.wait_cells holder;
    released = set s.released cell true;
  }
]

-- The cell on which `wait_timeout` sleeps, if there is one.
unfoldable pub wait_cell : WaitState → ℕ → Option ℕ
wait_cell s holder = elim (HashMap.get s.wait_cells holder) [
  | none ↦ none
  | some (count, cell) ↦ some cell
]

-- What `wait_timeout` returns: `asleep` is the state in which it takes the cell, `awake` that in
-- which it looks at the flag for the last time, released or out of time.
unfoldable pub wait_timeout : WaitState → WaitState → ℕ → Bool
unfolding wait_cell
wait_timeout asleep awake holder = elim (wait_cell asleep holder) [
  | none ↦ true
  | some cell ↦ elim (get_elem? awake.released cell) [ none ↦ false | some flag ↦ flag ]
]
