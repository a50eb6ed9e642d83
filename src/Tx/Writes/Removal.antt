-- ===== src/Tx/Writes/Removal.antt =====
-- What `remove` returns, and what its transaction reads after it.
use mathlib.Core.Path.{subst}
use h2database_rust.Prelude.{
  Bool, true, false, Option, none, some, ◌∷◌, String, ◌≡◌, refl, ap, sym, ◌∙◌, arith, inl, inr,
  Option-cases,
}
use h2database_rust.Bytes.Order.{Bytes}
use h2database_rust.Tx.VersionedValue.{VersionedValue, read_visible}
use h2database_rust.Tx.VersionedValue.Reads.{read_visible-own}
use h2database_rust.Tx.Codec.{Codec, from_bytes}
use h2database_rust.Tx.Codec.Raw.{from_bytes-to_bytes}
use h2database_rust.Tx.Maps.{Maps}
use h2database_rust.Tx.Engine.{ok, Transaction, Engine, is_open, open_tx}
use h2database_rust.Tx.Reads.{get, get_bytes}
use h2database_rust.Tx.Reads.Agree.{reads_stored}
use h2database_rust.Tx.Writes.{
  Attempt, done, remove_attempt, remove_value, write, with_write, holder_of,
}
use h2database_rust.Tx.Writes.Views.{AreStored, write-done, same_place_self}

unfoldable pub is_some : {A : Type 0} → Option A → Bool
is_some none = false
is_some (some a) = true

module _ (maps : Maps) (codec : Codec) where
  open maps use {Store}

  -- An attempt to remove that succeeds on an open transaction, on a value that was stored by
  -- `to_bytes` or on none, says whether the transaction saw a value, and leaves it none to see.
  pub remove_attempt-get :
      (e : Engine Store) (tx : Transaction) (m : String) (k : Bytes) (e' : Engine Store)
      (tx' : Transaction) (removed : Bool)
      → tx.status ≡ open_tx
      → AreStored maps codec (maps.get e.store m k)
      → remove_attempt maps codec m k e tx ≡ done e' tx' removed
      → (seen : Option Bytes) × (get maps codec e tx m k ≡ ok seen)
        × (removed ≡ is_some seen)
        × (get maps codec e' tx' m k ≡ ok none)
  unfolding get remove_attempt write is_some get_bytes with_write is_open
  remove_attempt-get e tx m k e' tx' removed o stored h = go (maps.get e.store m k) refl stored
    where
      Claim : Type 0
      Claim =
          (seen : Option Bytes) × (get maps codec e tx m k ≡ ok seen)
          × (removed ≡ is_some seen)
          × (get maps codec e' tx' m k ≡ ok none)

      same :
          get maps codec e tx m k ≡ ok none
          → ◌≡◌ {A = Attempt Store Bool} (done e tx false) (done e' tx' removed)
          → Claim
      same g q =
          let p1 : e ≡ e' = cc in
          let p2 : tx ≡ tx' = cc in
          let p3 : false ≡ removed = cc in
          (
            none,
            g,
            sym p3,
            subst (λ d. get maps codec d tx' m k ≡ ok none) p1
                (subst (λ t. get maps codec e t m k ≡ ok none) p2 g),
          )

      write_none :
          (vv : VersionedValue)
          → write maps codec e tx m k (with_write vv tx.tx_id none) true ≡ done e' tx' removed
          → (removed ≡ true) × (get maps codec e' tx' m k ≡ ok none)
      write_none vv q =
          let (bytes, s, p1, p2) =
            write-done maps codec e tx m k (with_write vv tx.tx_id none) true e' tx' removed q in
          let here : maps.get (maps.put e.store m k bytes) m k ≡ some bytes =
            maps.get-put e.store m k bytes m k ∙ rw (same_place_self m k) refl in
          let logged : Transaction = record tx {
            undo_log = record { map_name = m; key = k } ∷ tx.undo_log;
          } in
          let read : get_bytes codec logged (some bytes) ≡ ok none =
            let (full, fast, got) =
              reads_stored codec logged (with_write vv tx.tx_id none) bytes s in
            got ∙ ap ok (read_visible-own vv tx.tx_id tx.snapshot_version none) in
          (ground (arith, s, q), rw (p1, p2, get) (rw (o, here) read))

      decided :
          (bytes : Bytes) (vv : VersionedValue)
          → maps.get e.store m k ≡ some bytes
          → from_bytes codec bytes ≡ some vv
          → get maps codec e tx m k ≡ ok (read_visible vv tx.tx_id tx.snapshot_version)
          → Claim
      decided bytes vv p d g = elim (Option-cases (holder_of e tx vv)) [
        | inr (holder, b) ↦ absurd (ground (arith, p, d, b, h))
        | inl free ↦ elim (Option-cases (read_visible vv tx.tx_id tx.snapshot_version)) [
          | inl n ↦ same (g ∙ ap ok n) (
              sym (
                rw (p, remove_attempt) (rw (d, remove_value) (rw (free, remove_value) (rw n refl))))
              ∙ h)
          | inr (v, s) ↦
              let (w1, w2) = write_none vv (
                sym (
                  rw (p, remove_attempt)
                    (rw (d, remove_value) (rw (free, remove_value) (rw s refl))))
                ∙ h) in
              (some v, g ∙ ap ok s, w1, w2)
        ]
      ]

      go : (r : Option Bytes) → maps.get e.store m k ≡ r → AreStored maps codec r → Claim
      go none p st = same (rw (o, get) (rw p refl)) (sym (rw (p, remove_attempt) refl) ∙ h)
      go (some bytes) p (vv, st) =
          let (full, fast, got) = reads_stored codec tx vv bytes st in
          decided bytes vv p (from_bytes-to_bytes codec vv bytes st) (rw (o, get) (rw p got))
