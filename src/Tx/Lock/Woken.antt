-- ===== src/Tx/Lock/Woken.antt =====
-- A waiter is woken when the locks of its holder are released in crates/h2-mvstore/src/tx/lock.rs.
use mathlib.Core.Path.{subst}
use h2database_rust.Prelude.{
  ℕ, zero, suc, ◌≡◌, ◌≢◌, refl, List, All, ◌++◌, get_elem?, set, Bool, true, false, some, [], ◌∷◌,
  arith, get_elem?-set_self, inl, inr, Option-cases,
}
use h2database_rust.Prelude.HashMap
use h2database_rust.Prelude.HashMap.{HashMap, get-insert, get-remove}
use h2database_rust.Tx.Lock.{
  WaitState, new, register_wait, unregister_wait, drop_waiter, notify_lock_released, wait_cell,
  wait_timeout, add_waiter,
}
use h2database_rust.Tx.Lock.Acyclic.{LockCall, register, unregister, notify, after_call, run_calls}
use h2database_rust.Tx.Lock.Cells.{
  HasFlags, register_wait-HasFlags, waiters, IsCounted, added, register_wait_lem, added-IsCounted,
  unregister-IsCounted, notify-IsCounted, unregister-HasFlags, notify-HasFlags,
}
use h2database_rust.Tx.Lock.Sleep.{
  Sleeps, added-Sleeps_new, IsApart, added-Sleeps, unregister-Sleeps, notify-Sleeps,
}

-- A flag that is set stays set.
released-append :
    (l : List Bool) (b : Bool) (i : ℕ)
    → get_elem? l i ≡ some true
    → get_elem? (l ++ (b ∷ [])) i ≡ some true
released-append [] b i e = absurd (cc)
released-append (x ∷ l) b zero e = e
released-append (x ∷ l) b (suc i) e = released-append l b i e

released-set :
    (l : List Bool) (c i : ℕ) → get_elem? l i ≡ some true → get_elem? (set l c true) i ≡ some true
released-set [] c i e = e
released-set (x ∷ l) zero zero e = refl
released-set (x ∷ l) zero (suc i) e = e
released-set (x ∷ l) (suc c) zero e = e
released-set (x ∷ l) (suc c) (suc i) e = released-set l c i e

after_call-released :
    (s : WaitState) (call : LockCall) (i : ℕ)
    → get_elem? s.released i ≡ some true
    → get_elem? (after_call s call).released i ≡ some true
unfolding after_call register_wait unregister_wait drop_waiter notify_lock_released add_waiter
after_call-released s (register w x) i e = ground (arith, e, released-append s.released false i)
after_call-released s (unregister w) i e = ground (arith, e)
after_call-released s (notify x) i e = elim (Option-cases (HashMap.get s.wait_cells x)) [
  | inl q ↦ ground (arith, q, e)
  | inr ((n, c), q) ↦ ground (arith, q, released-set s.released c i e)
]

run_calls-released :
    (s : WaitState) (calls : List LockCall) (i : ℕ)
    → get_elem? s.released i ≡ some true
    → get_elem? (run_calls s calls).released i ≡ some true
unfolding run_calls
run_calls-released s [] i e = e
run_calls-released s (c ∷ calls) i e =
    run_calls-released (after_call s c) calls i (after_call-released s c i e)

-- What holds of a call that registers, refused or not.
after_register :
    (P : WaitState → Type 0) (s : WaitState) (w x : ℕ)
    → P s
    → P (added s w x)
    → P (after_call s (register w x))
unfolding after_call
after_register P s w x refused done = elim (Option-cases (register_wait s w x)) [
  | inl e ↦ rw (e, after_call) refused
  | inr (t, e) ↦ rw (e, after_call) (subst P (register_wait_lem s t w x e) done)
]

after_call-Sleeps :
    (s : WaitState) (call : LockCall) (waiter holder cell : ℕ)
    → IsApart waiter holder call
    → Sleeps s waiter holder cell
    → Sleeps (after_call s call) waiter holder cell
unfolding after_call
after_call-Sleeps s (register w x) waiter holder cell a z =
    after_register (λ t. Sleeps t waiter holder cell) s w x z
      (added-Sleeps s w x waiter holder cell a z)
after_call-Sleeps s (unregister w) waiter holder cell a z =
    unregister-Sleeps s w waiter holder cell a z
after_call-Sleeps s (notify x) waiter holder cell a z = notify-Sleeps s x waiter holder cell a z

run_calls-Sleeps :
    (s : WaitState) (calls : List LockCall) (waiter holder cell : ℕ)
    → All (IsApart waiter holder) calls
    → Sleeps s waiter holder cell
    → Sleeps (run_calls s calls) waiter holder cell
unfolding run_calls
run_calls-Sleeps s [] waiter holder cell a z = z
run_calls-Sleeps s (c ∷ calls) waiter holder cell (a, more) z =
    run_calls-Sleeps (after_call s c) calls waiter holder cell more
      (after_call-Sleeps s c waiter holder cell a z)

-- The calls before the holder's release.
abbrev pub IsBefore : ℕ → LockCall → Type 0
IsBefore holder (register w x) = Unit {0}
IsBefore holder (unregister w) = Unit {0}
IsBefore holder (notify x) = x ≢ holder

after_call-counts :
    (s : WaitState) (call : LockCall) (holder : ℕ)
    → IsBefore holder call
    → HasFlags s
    → IsCounted s holder
    → HasFlags (after_call s call) × IsCounted (after_call s call) holder
unfolding after_call
after_call-counts s (register w x) holder b ok c = elim (Option-cases (register_wait s w x)) [
  | inl e ↦ rw (e, after_call) (ok, c)
  | inr (t, e) ↦
      rw (e, after_call)
        (
          register_wait-HasFlags s t w x ok e,
          subst (λ u. IsCounted u holder) (register_wait_lem s t w x e)
              (added-IsCounted s w x holder c),
        )
]
after_call-counts s (unregister w) holder b ok c =
    (unregister-HasFlags s w ok, unregister-IsCounted s w holder c)
after_call-counts s (notify x) holder b ok c =
    (notify-HasFlags s x ok, notify-IsCounted s x holder b c)

run_calls-counts :
    (s : WaitState) (calls : List LockCall) (holder : ℕ)
    → All (IsBefore holder) calls
    → HasFlags s
    → IsCounted s holder
    → HasFlags (run_calls s calls) × IsCounted (run_calls s calls) holder
unfolding run_calls
run_calls-counts s [] holder b ok c = (ok, c)
run_calls-counts s (x ∷ calls) holder (b, more) ok c =
    let (ok', c') = after_call-counts s x holder b ok c in
    run_calls-counts (after_call s x) calls holder more ok' c'

woken :
    (asleep s : WaitState) (later : List LockCall) (waiter holder cell : ℕ)
    → Sleeps asleep waiter holder cell
    → Sleeps s waiter holder cell
    → wait_timeout asleep (run_calls (notify_lock_released s holder) later) holder ≡ true
unfolding wait_timeout wait_cell notify_lock_released
woken asleep s later waiter holder cell y z =
    let set_now : get_elem? (notify_lock_released s holder).released cell ≡ some true =
      ground (arith, z.stands, get_elem?-set_self s.released cell true z.flagged) in
    ground (arith, y.stands, run_calls-released (notify_lock_released s holder) later cell set_now)

-- A transaction whose wait on a holder is registered, in a lock manager where any calls were made
-- but the release of the holder, and which goes to sleep some calls later, finds that the lock was
-- released once the holder has released its locks, with any calls of other waiters and releases of
-- other holders before that, and any calls at all after it.
pub wait_timeout-notify :
    (before early during later : List LockCall) (waiter holder : ℕ) (t : WaitState)
    → All (IsBefore holder) before
    → register_wait (run_calls new before) waiter holder ≡ some t
    → All (IsApart waiter holder) early
    → All (IsApart waiter holder) during
    → wait_timeout
        (run_calls t early)
        (run_calls (notify_lock_released (run_calls (run_calls t early) during) holder) later)
        holder
      ≡ true
unfolding waiters HashMap.get
wait_timeout-notify before early during later waiter holder t b e a d =
    let (ok, c) =
      run_calls-counts new before holder b (λ h count cell p. absurd (cc)) (omega arith) in
    let (cell, start) = added-Sleeps_new (run_calls new before) waiter holder ok c in
    let registered : Sleeps t waiter holder cell =
      subst (λ u. Sleeps u waiter holder cell)
        (register_wait_lem (run_calls new before) t waiter holder e) start in
    let asleep = run_calls-Sleeps t early waiter holder cell a registered in
    woken (run_calls t early) (run_calls (run_calls t early) during) later waiter holder cell asleep
      (run_calls-Sleeps (run_calls t early) during waiter holder cell d asleep)
