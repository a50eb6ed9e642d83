-- ===== src/Tests/Locks.antt =====
-- Two transactions that wait in a row, and a third that would close the circle.
use h2database_rust.Prelude.{true, false, none, some, refl, List, [], ◌∷◌, ◌≡◌, ◌≢◌, ◌↔◌, arith}
use h2database_rust.Prelude.HashMap
use h2database_rust.Tx.Lock
use h2database_rust.Tx.Lock.{
  WaitState, check_cycle, cycle_loop, register_wait, notify_lock_released, wait_timeout, add_waiter,
  contains, or_true,
}
use h2database_rust.Tx.Lock.Termination.{cycle_loop-ne-none}
use h2database_rust.Tx.Lock.Acyclic.{
  IsAcyclic, LockCall, register, unregister, notify, after_call, run_calls, run_calls-IsAcyclic,
}
use h2database_rust.Tx.Lock.Exact.{Reaches, check_cycle_iff}
use h2database_rust.Tx.Lock.Woken.{wait_timeout-notify}

abbrev calls : List LockCall
calls = register 1 2 ∷ register 2 3 ∷ register 3 1 ∷ notify 3 ∷ []

run_calls-IsAcyclic_example : IsAcyclic (run_calls Lock.new calls)
run_calls-IsAcyclic_example = run_calls-IsAcyclic calls

cycle_loop-ne-none_example : cycle_loop 4 ((1, 2) ∷ (2, 1) ∷ []) 3 (1 ∷ 3 ∷ []) 1 ≢ none
cycle_loop-ne-none_example = cycle_loop-ne-none ((1, 2) ∷ (2, 1) ∷ []) 3 (1 ∷ 3 ∷ []) 1

check_cycle_iff_example :
    (check_cycle (run_calls Lock.new calls).wait_for 3 1 ≡ true)
    ↔ Reaches (run_calls Lock.new calls).wait_for 1 3
check_cycle_iff_example = check_cycle_iff (run_calls Lock.new calls) 3 1 (run_calls-IsAcyclic calls)

abbrev two_wait : WaitState
two_wait = record {
  wait_for = (3, 2) ∷ (1, 2) ∷ [];
  wait_cells = (2, (2, 0)) ∷ [];
  released = false ∷ [];
}

registered : register_wait (run_calls Lock.new (register 1 2 ∷ [])) 3 2 ≡ some two_wait
unfolding HashMap.get HashMap.insert HashMap.remove add_waiter run_calls after_call register_wait
    check_cycle cycle_loop contains or_true
registered = refl

wait_timeout-notify_example :
    wait_timeout
      (run_calls two_wait (register 4 2 ∷ []))
      (run_calls
        (notify_lock_released
          (run_calls (run_calls two_wait (register 4 2 ∷ [])) (unregister 1 ∷ notify 5 ∷ []))
          2)
        (unregister 3 ∷ []))
      2
    ≡ true
wait_timeout-notify_example =
    wait_timeout-notify (register 1 2 ∷ []) (register 4 2 ∷ []) (unregister 1 ∷ notify 5 ∷ [])
      (unregister 3 ∷ []) 3 2 two_wait (tt, tt) registered (omega arith, tt)
      (omega arith, (omega arith, tt))
