-- ===== src/Tx/Lock/Acyclic.antt =====
-- The wait-for graph never has a cycle: every chain of waits ends.
use h2database_rust.Prelude.{
  ℕ, zero, suc, ◌+◌, ◌≡◌, ◌≢◌, refl, false, Option, none, some, List, [], ◌∷◌, arith, ◌==◌, length,
  inl, inr, Bool-cases, Option-cases, ◌⊎◌,
}
use h2database_rust.Prelude.HashMap
use h2database_rust.Prelude.HashMap.{HashMap, get-insert, get-remove}
use h2database_rust.Tx.Lock.{
  WaitState, new, cycle_loop, check_cycle, or_true, register_wait, unregister_wait,
  notify_lock_released, add_waiter, drop_waiter,
}

-- The transaction that is `n` waits further on, if the chain is that long.
unfoldable pub follow : HashMap ℕ → ℕ → ℕ → Option ℕ
follow w zero a = some a
follow w (suc n) a = elim (HashMap.get w a) [ none ↦ none | some b ↦ follow w n b ]

abbrev pub Ends : HashMap ℕ → ℕ → Type 0
Ends w a = (n : ℕ) × (follow w n a ≡ none)

-- Every chain of waits comes to a transaction that does not wait, so none of them is deadlocked.
abbrev pub IsAcyclic : WaitState → Type 0
IsAcyclic s = (a : ℕ) → Ends s.wait_for a

Ends-none : (w : HashMap ℕ) (a : ℕ) → HashMap.get w a ≡ none → Ends w a
unfolding follow
Ends-none w a e = (1, rw (e, follow))

Ends-step : (w : HashMap ℕ) (a b : ℕ) → HashMap.get w a ≡ some b → Ends w b → Ends w a
unfolding follow
Ends-step w a b e (n, p) = (suc n, rw (e, follow) p)

-- If the search from `curr` finds nothing, the chain from `curr` still ends when the edge from the
-- waiter is put in.
cycle_loop-Ends :
    (fuel : ℕ) (w : HashMap ℕ) (waiter holder : ℕ) (visited : List ℕ) (curr : ℕ)
    → cycle_loop fuel w waiter visited curr ≡ some false
    → curr ≢ waiter
    → Ends (HashMap.insert w waiter holder) curr
unfolding cycle_loop
cycle_loop-Ends zero w waiter holder visited curr e ne = cc
cycle_loop-Ends (suc f) w waiter holder visited curr e ne =
    let same : HashMap.get (HashMap.insert w waiter holder) curr ≡ HashMap.get w curr =
      rw get-insert (ground arith) in
    elim (Option-cases (HashMap.get w curr)) [
      | inl last ↦ Ends-none _ curr (rw same last)
      | inr (next, more) ↦
          Ends-step _ curr next (rw same more)
            (cycle_loop-Ends f w waiter holder (next ∷ visited) next (ground arith) (ground arith))
    ]

check_cycle-Ends :
    (w : HashMap ℕ) (waiter holder : ℕ)
    → check_cycle w waiter holder ≡ false
    → Ends (HashMap.insert w waiter holder) holder
unfolding check_cycle or_true
check_cycle-Ends w waiter holder h =
    cycle_loop-Ends (length w + 2) w waiter holder (holder ∷ waiter ∷ []) holder (ground arith)
      (ground arith)

Ends-insert :
    (w : HashMap ℕ) (waiter holder : ℕ)
    → Ends (HashMap.insert w waiter holder) holder
    → (n a : ℕ) → follow w n a ≡ none
    → Ends (HashMap.insert w waiter holder) a
unfolding follow
Ends-insert w waiter holder end zero a p = cc
Ends-insert w waiter holder end (suc n) a p = elim (Bool-cases (waiter == a)) [
  | inl here ↦ Ends-step _ a holder (rw get-insert (ground arith)) end
  | inr other ↦
      let same : HashMap.get (HashMap.insert w waiter holder) a ≡ HashMap.get w a =
        rw get-insert (ground arith) in
      elim (Option-cases (HashMap.get w a)) [
        | inl last ↦ Ends-none _ a (rw same last)
        | inr (b, more) ↦
            Ends-step _ a b (rw same more) (Ends-insert w waiter holder end n b (ground arith))
      ]
]

Ends-remove : (w : HashMap ℕ) (k n a : ℕ) → follow w n a ≡ none → Ends (HashMap.remove w k) a
unfolding follow
Ends-remove w k zero a p = cc
Ends-remove w k (suc n) a p = elim (Bool-cases (k == a)) [
  | inl here ↦ Ends-none _ a (rw get-remove (ground arith))
  | inr other ↦
      let same : HashMap.get (HashMap.remove w k) a ≡ HashMap.get w a =
        rw get-remove (ground arith) in
      elim (Option-cases (HashMap.get w a)) [
        | inl last ↦ Ends-none _ a (rw same last)
        | inr (b, more) ↦ Ends-step _ a b (rw same more) (Ends-remove w k n b (ground arith))
      ]
]

wait_for-add_waiter : (s : WaitState) (h : ℕ) → (add_waiter s h).wait_for ≡ s.wait_for
unfolding add_waiter
wait_for-add_waiter s h = ground arith

wait_for-drop_waiter : (s : WaitState) (h : ℕ) → (drop_waiter s h).wait_for ≡ s.wait_for
unfolding drop_waiter
wait_for-drop_waiter s h = ground arith

wait_for-register_wait :
    (s t : WaitState) (waiter holder : ℕ)
    → register_wait s waiter holder ≡ some t
    → (check_cycle s.wait_for waiter holder ≡ false)
      × (t.wait_for ≡ HashMap.insert s.wait_for waiter holder)
unfolding register_wait add_waiter
wait_for-register_wait s t waiter holder e = ground arith

-- A wait that is registered leaves the graph without a cycle.
pub register_wait-IsAcyclic :
    (s t : WaitState) (waiter holder : ℕ)
    → IsAcyclic s
    → register_wait s waiter holder ≡ some t
    → IsAcyclic t
register_wait-IsAcyclic s t waiter holder ac e a =
    let (clear, graph) = wait_for-register_wait s t waiter holder e in
    rw graph (
      Ends-insert s.wait_for waiter holder (check_cycle-Ends s.wait_for waiter holder clear)
        (ac a).0 a (ac a).1)

wait_for-unregister_wait :
    (s : WaitState) (waiter : ℕ)
    → ((unregister_wait s waiter).wait_for ≡ s.wait_for)
      ⊎ ((unregister_wait s waiter).wait_for ≡ HashMap.remove s.wait_for waiter)
unfolding unregister_wait drop_waiter
wait_for-unregister_wait s waiter = ground arith

-- A waiter that gives up leaves the graph without a cycle.
pub unregister_wait-IsAcyclic :
    (s : WaitState) (waiter : ℕ) → IsAcyclic s → IsAcyclic (unregister_wait s waiter)
unregister_wait-IsAcyclic s waiter ac a = elim (wait_for-unregister_wait s waiter) [
  | inl same ↦ rw same (ac a)
  | inr gone ↦ rw gone (Ends-remove s.wait_for waiter (ac a).0 a (ac a).1)
]

wait_for-notify : (s : WaitState) (h : ℕ) → (notify_lock_released s h).wait_for ≡ s.wait_for
unfolding notify_lock_released
wait_for-notify s h = ground arith

-- The calls that transactions make of the lock manager, each one step.
pub data LockCall : Type 0 where
  register : ℕ → ℕ → LockCall
  unregister : ℕ → LockCall
  notify : ℕ → LockCall

unfoldable pub after_call : WaitState → LockCall → WaitState
after_call s (register waiter holder) = elim (register_wait s waiter holder) [
  | none ↦ s
  | some t ↦ t
]
after_call s (unregister waiter) = unregister_wait s waiter
after_call s (notify holder) = notify_lock_released s holder

unfoldable pub run_calls : WaitState → List LockCall → WaitState
unfolding after_call
run_calls s [] = s
run_calls s (c ∷ cs) = run_calls (after_call s c) cs

after_call-IsAcyclic : (s : WaitState) (c : LockCall) → IsAcyclic s → IsAcyclic (after_call s c)
unfolding after_call
after_call-IsAcyclic s (register waiter holder) ac =
    elim (Option-cases (register_wait s waiter holder)) [
      | inl refused ↦ rw (refused, after_call) ac
      | inr (t, done) ↦ rw (done, after_call) (register_wait-IsAcyclic s t waiter holder ac done)
    ]
after_call-IsAcyclic s (unregister waiter) ac = unregister_wait-IsAcyclic s waiter ac
after_call-IsAcyclic s (notify holder) ac = λ a. rw (wait_for-notify s holder) (ac a)

pub run_calls-IsAcyclic_from :
    (s : WaitState) (calls : List LockCall) → IsAcyclic s → IsAcyclic (run_calls s calls)
unfolding run_calls
run_calls-IsAcyclic_from s [] ac = ac
run_calls-IsAcyclic_from s (c ∷ calls) ac =
    run_calls-IsAcyclic_from (after_call s c) calls (after_call-IsAcyclic s c ac)

-- Whatever calls transactions make, in whatever order, the graph of a new lock manager never has a
-- cycle: every chain of waits ends at a transaction that does not wait.
pub run_calls-IsAcyclic : (calls : List LockCall) → IsAcyclic (run_calls new calls)
run_calls-IsAcyclic calls =
    run_calls-IsAcyclic_from new calls (λ a. Ends-none [] a (unfold HashMap.get in refl))
