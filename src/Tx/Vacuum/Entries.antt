-- ===== src/Tx/Vacuum/Entries.antt =====
-- What one entry of the vacuum of crates/h2-mvstore/src/tx/store.rs leaves.

use mathlib.Core.Path.{subst}
use h2database_rust.Prelude.{
  ℕ, ◌≤◌, Option, none, some, List, [], ◌∷◌, String, ◌==◌, ltb, if◌then◌else◌, All, ◌≡◌, refl, ap,
  sym, ◌∙◌, arith, inl, inr, Bool-cases, Option-cases,
}
use h2database_rust.Prelude.HashMap
use h2database_rust.Prelude.HashMap.{HashMap}
use h2database_rust.Bytes.Order.{Bytes, ◌≺◌, cmp_self}
use h2database_rust.Tree.{Entry}
use h2database_rust.Tree.Entries.{lookup, IsAscending}
use h2database_rust.Tx.VersionedValue.{VersionedValue, is_dead, prune_old_versions}
use h2database_rust.Tx.VersionedValue.Vacuum.{read_visible-prune, read_visible-dead}
use h2database_rust.Tx.Codec.{Codec, to_bytes, from_bytes}
use h2database_rust.Tx.Codec.Raw.{from_bytes-to_bytes}
use h2database_rust.Tx.Maps.{Maps, same_place}
use h2database_rust.Tx.Engine.{ok, Transaction, Engine, min_snapshot, oldest_active_version}
use h2database_rust.Tx.Reads.{get_bytes}
use h2database_rust.Tx.Reads.Agree.{IsStored, reads_stored}
use h2database_rust.Tx.Writes.Views.{AreStored, same_place_eq}
use h2database_rust.Tx.Writes.Undo.{IsSound}
use h2database_rust.Tx.Vacuum.{vacuum_entry}

min_snapshot-le :
    (m : HashMap ℕ) (id v : ℕ)
    → HashMap.get m id ≡ some v
    → (w : ℕ) × (min_snapshot m ≡ some w) × (w ≤ v)
unfolding HashMap.get min_snapshot
min_snapshot-le [] id v h = cc
min_snapshot-le ((i, a) ∷ m) id v h = elim (Bool-cases (i == id)) [
  | inl here ↦
      let p : a ≡ v = ground (arith, here, h) in
      elim (Option-cases (min_snapshot m)) [
        | inl n ↦ (a, rw (n, min_snapshot) refl, ground (arith, p))
        | inr (w, s) ↦ elim (Bool-cases (ltb w a)) [
          | inl less ↦ (w, rw (s, min_snapshot) (rw less refl), ground (arith, p, less))
          | inr more ↦ (a, rw (s, min_snapshot) (rw more refl), ground (arith, p))
        ]
      ]
  | inr there ↦
      let (w, s, le) = min_snapshot-le m id v (ground (arith, there, h)) in
      elim (Bool-cases (ltb w a)) [
        | inl less ↦ (w, rw (s, min_snapshot) (rw less refl), le)
        | inr more ↦ (a, rw (s, min_snapshot) (rw more refl), ground (arith, more, le))
      ]
]

-- The horizon of the vacuum is at most the snapshot of every active transaction.
pub oldest-le :
    {S : Type 0} (e : Engine S) (id v : ℕ)
    → HashMap.get e.active_transactions id ≡ some v
    → oldest_active_version e ≤ v
unfolding oldest_active_version
oldest-le e id v h =
    let (w, s, le) = min_snapshot-le e.active_transactions id v h in
    rw (s, oldest_active_version) le

pub All-both {ℓ κ μ} :
    {A : Type ℓ} (P : A → Type κ) (Q : A → Type μ) (R : A → Type μ) (xs : List A)
    → ((x : A) → P x → Q x → R x)
    → All P xs
    → All Q xs
    → All R xs
All-both P Q R [] f p q = tt
All-both P Q R (x ∷ xs) f p q = (f x p.0 q.0, All-both P Q R xs f p.1 q.1)

pub lookup_each : (es : List Entry) → IsAscending es → All (λ x. lookup es x.key ≡ some x.value) es
unfolding lookup
lookup_each [] a = tt
lookup_each (e ∷ es) a = (
  rw (cmp_self e.key, lookup) refl,
  All-both (λ f. e.key ≺ f.key) (λ f. lookup es f.key ≡ some f.value)
      (λ f. lookup (e ∷ es) f.key ≡ some f.value) es (λ f p q. rw (p, lookup) q) a.0
      (lookup_each es a.1),
)

module _ (maps : Maps) (codec : Codec) where
  open maps use {Store}

  unfoldable pub SameFrom : ℕ → Store → Store → Type 0
  SameFrom z s s' =
      (reader : Transaction) (n : String) (j : Bytes)
      → z ≤ reader.snapshot_version
      → get_bytes codec reader (maps.get s' n j) ≡ get_bytes codec reader (maps.get s n j)

  -- What one entry of the vacuum leaves.
  unfoldable pub Vacuumed : String → ℕ → Entry → Store → Store → Type 0
  Vacuumed m z x s s' =
      IsSound maps codec s'
      × SameFrom z s s'
      × ((j : Bytes) → x.key ≺ j → maps.get s' m j ≡ maps.get s m j)

  moved-Vacuumed :
      (m : String) (z : ℕ) (x : Entry) (s s' : Store) (o : Option Bytes)
      → IsSound maps codec s
      → AreStored maps codec o
      → ((n : String) (j : Bytes)
          → maps.get s' n j ≡ (if same_place m x.key n j then o else maps.get s n j))
      → ((reader : Transaction)
          → z ≤ reader.snapshot_version
          → get_bytes codec reader o ≡ get_bytes codec reader (maps.get s m x.key))
      → Vacuumed m z x s s'
  unfolding Vacuumed SameFrom same_place
  moved-Vacuumed m z x s s' o sound stored law reads = (
    λ n j. elim (Bool-cases (same_place m x.key n j)) [
      | inl here ↦ rw (law n j, here) stored
      | inr there ↦ rw (law n j, there) (sound n j)
    ],
    λ reader n j le. elim (Bool-cases (same_place m x.key n j)) [
      | inl here ↦
          let (q1, q2) = same_place_eq m x.key n j here in
          rw (law n j, here) (rw (sym q1, sym q2) (reads reader le))
      | inr there ↦ rw (law n j, there) refl
    ],
    λ j less. law m j ∙ ground (arith, less),
  )

  pub vacuum_entry-Vacuumed :
      (s : Store) (m : String) (z : ℕ) (x : Entry) (s' : Store) (c : ℕ)
      → IsSound maps codec s
      → maps.get s m x.key ≡ some x.value
      → vacuum_entry maps codec s m z x ≡ some (s', c)
      → Vacuumed m z x s s'
  unfolding vacuum_entry Vacuumed SameFrom get_bytes
  vacuum_entry-Vacuumed s m z x s' c sound at h =
      let (vv, st) = subst (AreStored maps codec) at (sound m x.key) in
      go vv st (from_bytes-to_bytes codec vv x.value st)
    where
      unchanged : ◌≡◌ {A = Option (Store × ℕ)} (some (s, 0)) (some (s', c)) → Vacuumed m z x s s'
      unchanged q =
          let p : s ≡ s' = cc in
          subst (λ t. Vacuumed m z x s t) p (sound, λ reader n j le. refl, λ j less. refl)

      go :
          (vv : VersionedValue)
          → to_bytes codec vv ≡ some x.value
          → from_bytes codec x.value ≡ some vv
          → Vacuumed m z x s s'
      go vv st d = elim (Bool-cases (is_dead vv z)) [
        | inl dead ↦
            let q : ◌≡◌ {A = Option (Store × ℕ)} (some (maps.remove s m x.key, 1)) (some (s', c)) =
              sym (rw (d, vacuum_entry) (rw dead refl)) ∙ h in
            let p : maps.remove s m x.key ≡ s' = cc in
            subst (λ t. Vacuumed m z x s t) p
              (moved-Vacuumed m z x s (maps.remove s m x.key) none sound tt
                (maps.get-remove s m x.key)
                (λ reader le.
                  let (full, fast, got) = reads_stored codec reader vv x.value st in
                  rw at (
                    sym (
                      got
                      ∙ ap ok
                          (read_visible-dead vv z reader.tx_id reader.snapshot_version dead le)))))
        | inr live ↦ elim (Bool-cases (prune_old_versions vv z).1) [
          | inr still ↦ unchanged (sym (rw (d, vacuum_entry) (rw live (rw still refl))) ∙ h)
          | inl changed ↦ elim (Option-cases (to_bytes codec (prune_old_versions vv z).0)) [
            | inl f ↦ absurd (ground (arith, d, live, changed, f, h))
            | inr (new, f) ↦
                let q : ◌≡◌ {A = Option (Store × ℕ)} (some (maps.put s m x.key new, 0))
                    (some (s', c)) =
                  sym (rw (d, vacuum_entry) (rw live (rw (changed, f) refl))) ∙ h in
                let p : maps.put s m x.key new ≡ s' = cc in
                subst (λ t. Vacuumed m z x s t) p
                  (moved-Vacuumed m z x s (maps.put s m x.key new) (some new) sound
                    ((prune_old_versions vv z).0, f) (maps.get-put s m x.key new)
                    (λ reader le.
                      let (full, fast, got) = reads_stored codec reader vv x.value st in
                      let (full', fast', got') =
                        reads_stored codec reader (prune_old_versions vv z).0 new f in
                      rw at (
                        got'
                        ∙ ap ok (read_visible-prune vv z reader.tx_id reader.snapshot_version le)
                        ∙ sym got)))
          ]
        ]
      ]

  -- What a scan of a sound store finds was stored by `to_bytes`.
  pub scan_all-IsStored :
      (s : Store) (m : String)
      → IsSound maps codec s
      → All (λ x. IsStored codec x.value) (maps.scan_all s m)
  scan_all-IsStored s m sound =
      let each = lookup_each (maps.scan_all s m) (maps.scan_all-IsAscending s m) in
      All-both (λ x. lookup (maps.scan_all s m) x.key ≡ some x.value)
        (λ x. lookup (maps.scan_all s m) x.key ≡ some x.value) (λ x. IsStored codec x.value)
        (maps.scan_all s m)
        (λ x p q.
          subst (AreStored maps codec) (sym (maps.lookup-scan_all s m x.key) ∙ p) (sound m x.key))
        each each
