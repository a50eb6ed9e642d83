-- ===== src/Tx/VersionedValue/Vacuum.antt =====
-- What the vacuum may take away: versions that no snapshot from the horizon on can read.
use h2database_rust.Prelude.{
  ℕ, zero, suc, ◌+◌, ◌≤◌, ◌<◌, ◌≡◌, refl, true, none, some, List, [], ◌∷◌, arith, leb, take, inl,
  inr, Option-cases, Bool-cases, ap, ◌∙◌,
}
use h2database_rust.Tx.VersionedValue.{
  VersionRecord, VersionedValue, read_history, read_visible, find_cutoff, prune_old_versions,
  is_dead, is_dead_history,
}

find_cutoff-lt : (i : ℕ) (h : List VersionRecord) (z c : ℕ) → find_cutoff i h z ≡ some c → i < c
unfolding find_cutoff
find_cutoff-lt i [] z c e = cc
find_cutoff-lt i (r ∷ h) z c e = ground (arith, find_cutoff-lt (suc i) h z c)

read_history-cutoff :
    (i k : ℕ) (h : List VersionRecord) (z s : ℕ)
    → find_cutoff i h z ≡ some (i + k)
    → z ≤ s
    → read_history (take k h) s ≡ read_history h s
unfolding find_cutoff read_history
read_history-cutoff i k [] z s e le = cc
read_history-cutoff i zero (r ∷ h) z s e le =
    absurd (omega (arith, find_cutoff-lt i (r ∷ h) z (i + 0) e))
read_history-cutoff i (suc k) (r ∷ h) z s e le = elim (Bool-cases (leb r.commit_version z)) [
  | inl stop ↦ ground arith
  | inr on ↦
      let ih : read_history (take k h) s ≡ read_history h s =
        read_history-cutoff (suc i) k h z s (ground arith) le in
      ground arith
]

-- Pruning at a horizon changes no read at a snapshot from the horizon on, by any transaction.
pub read_visible-prune :
    (vv : VersionedValue) (z reader s : ℕ)
    → z ≤ s
    → read_visible (prune_old_versions vv z).0 reader s ≡ read_visible vv reader s
unfolding prune_old_versions read_visible
read_visible-prune vv z reader s le = elim (Option-cases (find_cutoff 0 vv.committed_history z)) [
  | inl e ↦ rw e (ground arith)
  | inr (c, e) ↦
      ground
        (arith, read_history-cutoff 0 c vv.committed_history z s (e ∙ (ap some (omega arith))) le)
]

-- A value that the vacuum takes for dead reads as absent at every snapshot from the horizon on.
pub read_visible-dead :
    (vv : VersionedValue) (z reader s : ℕ)
    → is_dead vv z ≡ true
    → z ≤ s
    → read_visible vv reader s ≡ none
unfolding is_dead read_visible read_history
read_visible-dead vv z reader s h le = elim (Option-cases vv.uncommitted) [
  | inl e ↦ rw (e, read_visible) (dead vv.committed_history (ground arith))
  | inr (u, e) ↦ absurd (ground arith)
]
  where
    dead : (l : List VersionRecord) → is_dead_history l z ≡ true → read_history l s ≡ none
    dead [] _ = refl
    dead (r ∷ l) k = ground arith
