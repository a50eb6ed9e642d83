-- ===== src/Tx/Lock/Exact.antt =====
-- The search reports a deadlock exactly when the wait would close a cycle.
use h2database_rust.Prelude.{
  ℕ, zero, suc, ◌+◌, ◌≡◌, ◌≢◌, refl, Bool, true, false, Option, none, some, List, [], ◌∷◌, arith,
  ◌==◌, length, inl, inr, Bool-cases, Option-cases, ◌⊎◌, ◌↔◌, All,
}
use mathlib.Core.Path.{subst}
use h2database_rust.Prelude.HashMap
use h2database_rust.Prelude.HashMap.{HashMap}
use h2database_rust.Tx.Lock.{WaitState, contains, cycle_loop, check_cycle, or_true}
use h2database_rust.Tx.Lock.Termination.{cycle_loop-ne-none}
use h2database_rust.Tx.Lock.Acyclic.{follow, Ends, IsAcyclic}

-- `b` is some number of waits further on than `a`.
abbrev pub Reaches : HashMap ℕ → ℕ → ℕ → Type 0
Reaches w a b = (n : ℕ) × (follow w n a ≡ some b)

Reaches-here : (w : HashMap ℕ) (a : ℕ) → Reaches w a a
unfolding follow
Reaches-here w a = (0, refl)

Reaches-before :
    (w : HashMap ℕ) (a b c : ℕ) → HashMap.get w a ≡ some b → Reaches w b c → Reaches w a c
unfolding follow
Reaches-before w a b c e (n, p) = (suc n, rw (e, follow) p)

follow_further :
    (w : HashMap ℕ) (n a b c : ℕ)
    → follow w n a ≡ some b
    → HashMap.get w b ≡ some c
    → follow w (suc n) a ≡ some c
unfolding follow
follow_further w zero a b c p e = ground arith
follow_further w (suc n) a b c p e = elim (Option-cases (HashMap.get w a)) [
  | inl last ↦ absurd (ground arith)
  | inr (d, more) ↦ rw (more, follow) (follow_further w n d b c (ground arith) e)
]

-- A chain that comes back to its start never ends.
cycle-not-Ends : (w : HashMap ℕ) (n m a : ℕ) → follow w (suc m) a ≡ some a → follow w n a ≢ none
unfolding follow
cycle-not-Ends w zero m a p = λ e. cc
cycle-not-Ends w (suc n) m a p = λ e. elim (Option-cases (HashMap.get w a)) [
  | inl last ↦ absurd (ground arith)
  | inr (b, more) ↦
      cycle-not-Ends w n m b (follow_further w m b a b (ground arith) more) (ground arith)
]

All-contains {κ} : (P : ℕ → Type κ) (l : List ℕ) (x : ℕ) → All P l → contains l x ≡ true → P x
unfolding contains
All-contains P [] x h e = absurd (cc)
All-contains P (y ∷ l) x h e = elim (Bool-cases (y == x)) [
  | inl here ↦ let p : y ≡ x = ground arith in subst P p h.0
  | inr there ↦ All-contains P l x h.1 (ground arith)
]

All-extend :
    (w : HashMap ℕ) (waiter curr next : ℕ) (visited : List ℕ)
    → HashMap.get w curr ≡ some next
    → All (λ v. (v ≡ waiter) ⊎ Reaches w v curr) visited
    → All (λ v. (v ≡ waiter) ⊎ Reaches w v next) visited
All-extend w waiter curr next [] e h = tt
All-extend w waiter curr next (v ∷ l) e h = (
  elim h.0 [ inl p ↦ inl p | inr (n, r) ↦ inr (suc n, follow_further w n v curr next r e) ],
  All-extend w waiter curr next l e h.1,
)

cycle_loop-true :
    (fuel : ℕ) (w : HashMap ℕ) (waiter : ℕ) (visited : List ℕ) (curr : ℕ)
    → ((a : ℕ) → Ends w a)
    → All (λ v. (v ≡ waiter) ⊎ Reaches w v curr) visited
    → cycle_loop fuel w waiter visited curr ≡ some true
    → Reaches w curr waiter
unfolding cycle_loop
cycle_loop-true zero w waiter visited curr ac inv e = cc
cycle_loop-true (suc f) w waiter visited curr ac inv e = elim (Option-cases (HashMap.get w curr)) [
  | inl last ↦ absurd (ground arith)
  | inr (next, more) ↦ elim (Bool-cases (next == waiter)) [
    | inl found ↦
        let p : next ≡ waiter = ground arith in
        Reaches-before w curr next waiter more (subst (Reaches w next) p (Reaches-here w next))
    | inr further ↦ elim (Bool-cases (contains visited next)) [
      | inl again ↦
          elim (All-contains (λ v. (v ≡ waiter) ⊎ Reaches w v curr) visited next inv again) [
            | inl p ↦ absurd (ground arith)
            | inr (m, r) ↦ absurd (
                cycle-not-Ends w (ac next).0 m next (follow_further w m next curr next r more)
                  (ac next).1)
          ]
      | inr fresh ↦ Reaches-before w curr next waiter more (
          cycle_loop-true f w waiter (next ∷ visited) next ac
            (inr (Reaches-here w next), All-extend w waiter curr next visited more inv)
            (ground arith))
    ]
  ]
]

cycle_loop-false :
    (fuel : ℕ) (w : HashMap ℕ) (waiter : ℕ) (visited : List ℕ) (curr n : ℕ)
    → cycle_loop fuel w waiter visited curr ≡ some false
    → curr ≢ waiter
    → follow w n curr ≢ some waiter
unfolding cycle_loop follow
cycle_loop-false zero w waiter visited curr n e ne = λ p. cc
cycle_loop-false (suc f) w waiter visited curr zero e ne = λ p. absurd (ne (cc))
cycle_loop-false (suc f) w waiter visited curr (suc n) e ne = λ p.
    elim (Option-cases (HashMap.get w curr)) [
      | inl last ↦ absurd (ground arith)
      | inr (next, more) ↦
          cycle_loop-false f w waiter (next ∷ visited) next n (ground arith) (ground arith)
            (ground arith)
    ]

-- On a graph without a cycle a wait is refused exactly when the holder already waits, through
-- other transactions or none, for the waiter.
pub check_cycle_iff :
    (s : WaitState) (waiter holder : ℕ)
    → IsAcyclic s
    → (check_cycle s.wait_for waiter holder ≡ true) ↔ Reaches s.wait_for holder waiter
unfolding check_cycle or_true
check_cycle_iff s waiter holder ac = elim (Bool-cases (waiter == holder)) [
  | inl self ↦
      let p : holder ≡ waiter = ground arith in
      (λ _. subst (Reaches s.wait_for holder) p (Reaches-here s.wait_for holder), λ _. rw self)
  | inr other ↦
      rw other (search_iff (cycle_loop (length w + 2) w waiter start holder) refl (ground arith))
]
  where
    w : HashMap ℕ
    w = s.wait_for

    start : List ℕ
    start = holder ∷ waiter ∷ []

    search_iff :
        (o : Option Bool)
        → cycle_loop (length w + 2) w waiter start holder ≡ o
        → holder ≢ waiter
        → (or_true o ≡ true) ↔ Reaches w holder waiter
    search_iff none e ne = absurd (cycle_loop-ne-none w waiter start holder e)
    search_iff (some true) e ne = (
      λ _.
          cycle_loop-true (length w + 2) w waiter start holder ac
            (inr (Reaches-here w holder), (inl refl, tt)) e,
      λ _. refl,
    )
    search_iff (some false) e ne =
        (λ p. cc, λ r. absurd (cycle_loop-false (length w + 2) w waiter start holder r.0 e ne r.1))
