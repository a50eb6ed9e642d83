-- ===== src/Tx/Lock/Termination.antt =====
-- The search for a cycle ends within its fuel, whatever the graph.
use h2database_rust.Prelude.{
  ℕ, zero, suc, ◌+◌, ◌≤◌, ◌<◌, ◌≡◌, ◌≢◌, false, none, some, List, [], ◌∷◌, arith, if◌then◌else◌,
  length, inl, inr, Option-cases,
}
use h2database_rust.Prelude.HashMap
use h2database_rust.Prelude.HashMap.{HashMap}
use h2database_rust.Tx.Lock.{contains, cycle_loop}

-- How many edges start at a transaction that is not visited.
unvisited : HashMap ℕ → List ℕ → ℕ
unvisited [] visited = 0
unvisited ((k, _) ∷ m) visited =
    if contains visited k then unvisited m visited else suc (unvisited m visited)

unvisited-le-length : (m : HashMap ℕ) (visited : List ℕ) → unvisited m visited ≤ length m
unfolding unvisited
unvisited-le-length [] visited = omega arith
unvisited-le-length ((k, _) ∷ m) visited = ground (arith, unvisited-le-length m visited)

unvisited-cons-le :
    (m : HashMap ℕ) (visited : List ℕ) (x : ℕ) → unvisited m (x ∷ visited) ≤ unvisited m visited
unfolding unvisited contains
unvisited-cons-le [] visited x = omega arith
unvisited-cons-le ((k, _) ∷ m) visited x = ground (arith, unvisited-cons-le m visited x)

unvisited-cons-lt :
    (m : HashMap ℕ) (visited : List ℕ) (x y : ℕ)
    → contains visited x ≡ false
    → HashMap.get m x ≡ some y
    → unvisited m (x ∷ visited) < unvisited m visited
unfolding unvisited contains HashMap.get
unvisited-cons-lt [] visited x y h e = cc
unvisited-cons-lt ((k, _) ∷ m) visited x y h e =
    ground (arith, unvisited-cons-le m visited x, unvisited-cons-lt m visited x y h)

-- One round: it stops, or goes on at an unvisited transaction.
cycle_loop_step :
    (f : ℕ) (w : HashMap ℕ) (waiter : ℕ) (visited : List ℕ) (curr next : ℕ)
    → HashMap.get w curr ≡ some next
    → (contains visited next ≡ false → cycle_loop f w waiter (next ∷ visited) next ≢ none)
    → cycle_loop (suc f) w waiter visited curr ≢ none
unfolding cycle_loop
cycle_loop_step f w waiter visited curr next e go = rw (e, cycle_loop) (ground arith)

cycle_loop-ne-none_last :
    (fuel : ℕ) (w : HashMap ℕ) (waiter : ℕ) (visited : List ℕ) (curr : ℕ)
    → HashMap.get w curr ≡ none
    → 0 < fuel
    → cycle_loop fuel w waiter visited curr ≢ none
unfolding cycle_loop
cycle_loop-ne-none_last zero w waiter visited curr e h = absurd (omega arith)
cycle_loop-ne-none_last (suc f) w waiter visited curr e h = rw (e, cycle_loop) (ground arith)

cycle_loop-ne-none_from :
    (fuel : ℕ) (w : HashMap ℕ) (waiter : ℕ) (visited : List ℕ) (curr : ℕ)
    → unvisited w visited + 1 < fuel
    → cycle_loop fuel w waiter visited curr ≢ none
cycle_loop-ne-none_from zero w waiter visited curr h = absurd (omega arith)
cycle_loop-ne-none_from (suc f) w waiter visited curr h = elim (Option-cases (HashMap.get w curr)) [
  | inl e ↦ cycle_loop-ne-none_last (suc f) w waiter visited curr e (omega arith)
  | inr (next, e) ↦ cycle_loop_step f w waiter visited curr next e (λ fresh.
      elim (Option-cases (HashMap.get w next)) [
        | inl last ↦ cycle_loop-ne-none_last f w waiter (next ∷ visited) next last (omega arith)
        | inr (y, more) ↦
            cycle_loop-ne-none_from f w waiter (next ∷ visited) next
              (omega (arith, unvisited-cons-lt w visited next y fresh more))
      ])
]

-- The loop of `check_cycle` ends: with two rounds more than the graph has edges, the fuel does not
-- run out.
pub cycle_loop-ne-none :
    (w : HashMap ℕ) (waiter : ℕ) (visited : List ℕ) (curr : ℕ)
    → cycle_loop (length w + 2) w waiter visited curr ≢ none
cycle_loop-ne-none w waiter visited curr =
    cycle_loop-ne-none_from (length w + 2) w waiter visited curr
      (omega (arith, unvisited-le-length w visited))
