-- ===== src/Tx/Writes/Exclusive.antt =====
-- The promises of a write: it is seen by its own transaction and by no other, and it waits for
-- another writer of the key.

use h2database_rust.Prelude.{
  ℕ, true, none, some, ◌⊎◌, List, ◌∷◌, String, if◌then◌else◌, ◌≡◌, ◌≢◌, ◌↔◌, refl, ap, sym, ◌∙◌,
  arith, inl, inr, Bool-cases, Option-cases,
}
use h2database_rust.Bytes.Order.{Bytes}
use h2database_rust.Tx.VersionedValue.{VersionedValue, active_tx_id}
use h2database_rust.Tx.VersionedValue.Reads.{read_visible-own}
use h2database_rust.Tx.Codec.{Codec, to_bytes, from_bytes}
use h2database_rust.Tx.Maps.{Maps, same_place}
use h2database_rust.Tx.Engine.{
  Error, serialization, transaction, ok, err, Transaction, Engine, is_open, is_tx_active,
}
use h2database_rust.Tx.Reads.{get, get_bytes}
use h2database_rust.Tx.Reads.Agree.{reads_stored}
use h2database_rust.Tx.Writes.{
  Wait, done, blocked, failed, put, put_attempt, put_value, write, with_write, empty_value,
  holder_of,
}
use h2database_rust.Tx.Writes.Views.{
  locked_loop-done, put_attempt-done, AreStored, read-OldValue, read-with_write, same_place_self,
  same_place_eq,
}

module _ (maps : Maps) (codec : Codec) where
  open maps use {Store}

  attempt-own :
      (e : Engine Store) (tx : Transaction) (m : String) (k v : Bytes) (e' : Engine Store)
      (tx' : Transaction)
      → is_open tx.status ≡ true
      → put_attempt maps codec m k v e tx ≡ done e' tx' tt
      → get maps codec e' tx' m k ≡ ok (some v)
  unfolding get with_write
  attempt-own e tx m k v e' tx' o h =
      let (vv, bytes, old, free, stored, p1, p2) =
        put_attempt-done maps codec e tx m k v e' tx' h in
      let (full, fast, got) =
        reads_stored codec tx (with_write vv tx.tx_id (some v)) bytes stored in
      let here : maps.get (maps.put e.store m k bytes) m k ≡ some bytes =
        maps.get-put e.store m k bytes m k ∙ rw (same_place_self m k) refl in
      let logged : Transaction = record tx {
        undo_log = record { map_name = m; key = k } ∷ tx.undo_log;
      } in
      let read : get_bytes codec logged (some bytes) ≡ ok (some v) =
        let (full', fast', got') =
          reads_stored codec logged (with_write vv tx.tx_id (some v)) bytes stored in
        got' ∙ ap ok (read_visible-own vv tx.tx_id tx.snapshot_version (some v)) in
      rw (p1, p2, get) (rw (o, here) read)

  -- When `put` succeeds, after however many waits and whatever other threads did during them, the
  -- transaction reads back the value that it put.
  pub put-get :
      (waits : List (Wait Store)) (e : Engine Store) (tx : Transaction) (m : String) (k v : Bytes)
      (e' : Engine Store) (tx' : Transaction)
      → put maps codec waits e tx m k v ≡ some (e', tx', ok tt)
      → get maps codec e' tx' m k ≡ ok (some v)
  unfolding put
  put-get waits e tx m k v e' tx' h = elim (Bool-cases (is_open tx.status)) [
    | inl o ↦
        locked_loop-done maps codec (put_attempt maps codec m k v)
          (λ d t b. get maps codec d t m k ≡ ok (some v)) waits e tx e' tx' tt
          (λ d d' t' b q. attempt-own d tx m k v d' t' o q) (sym (rw (o, put) refl) ∙ h)
    | inr closed ↦ absurd (ground (arith, closed, h))
  ]

  -- When an attempt to put succeeds, no other active transaction sees it: every `get` of it, of any
  -- key in any map, returns what it returned before, if the old value under the key was stored by
  -- `to_bytes` or there was none.
  pub put-isolated :
      (e : Engine Store) (tx reader : Transaction) (m : String) (k v : Bytes) (e' : Engine Store)
      (tx' : Transaction)
      → put_attempt maps codec m k v e tx ≡ done e' tx' tt
      → AreStored maps codec (maps.get e.store m k)
      → is_tx_active e reader.tx_id ≡ true
      → tx.tx_id ≢ reader.tx_id
      → (n : String) (j : Bytes) → get maps codec e' reader n j ≡ get maps codec e reader n j
  unfolding get
  put-isolated e tx reader m k v e' tx' h a active other n j =
      let (vv, bytes, old, free, stored, p1, p2) =
        put_attempt-done maps codec e tx m k v e' tx' h in
      let moved : maps.get (maps.put e.store m k bytes) n j
          ≡ (if same_place m k n j then some bytes else maps.get e.store n j) =
        maps.get-put e.store m k bytes n j in
      let (full, fast, got) =
        reads_stored codec reader (with_write vv tx.tx_id (some v)) bytes stored in
      let same : get_bytes codec reader (some bytes)
          ≡ get_bytes codec reader (maps.get e.store m k) =
        got
        ∙ ap ok (read-with_write maps codec e tx reader vv (some v) free active other)
        ∙ sym (read-OldValue maps codec (maps.get e.store m k) vv reader a old) in
      let all : get_bytes codec reader (maps.get e'.store n j)
          ≡ get_bytes codec reader (maps.get e.store n j) =
        elim (Bool-cases (same_place m k n j)) [
          | inl here ↦
              let (q1, q2) = same_place_eq m k n j here in
              rw p1 (rw (moved, here) (rw (sym q1, sym q2) same))
          | inr there ↦ rw p1 (rw (moved, there) refl)
        ] in
      ap (λ r. if is_open reader.status then r else err transaction) all

  put_attempt-blocked_iff :
      (e : Engine Store) (tx : Transaction) (m : String) (k v : Bytes) (holder : ℕ)
      → (put_attempt maps codec m k v e tx ≡ blocked holder) ↔ (
          (bytes : Bytes) × (vv : VersionedValue) × (maps.get e.store m k ≡ some bytes)
          × (from_bytes codec bytes ≡ some vv)
          × (active_tx_id vv ≡ some holder)
          × (holder ≢ tx.tx_id)
          × (is_tx_active e holder ≡ true))
  unfolding put_attempt put_value holder_of write active_tx_id
  put_attempt-blocked_iff e tx m k v holder = (forward, backward)
    where
      held :
          (vv : VersionedValue)
          → put_value maps codec e tx m k v vv ≡ blocked holder
          → (active_tx_id vv ≡ some holder) × (holder ≢ tx.tx_id) × (is_tx_active e holder ≡ true)
      held vv q = elim (Option-cases (holder_of e tx vv)) [
        | inl n ↦ elim (Option-cases (to_bytes codec (with_write vv tx.tx_id (some v)))) [
          | inl f ↦ absurd (ground (arith, n, f, q))
          | inr (b, f) ↦ absurd (ground (arith, n, f, q))
        ]
        | inr (i, s) ↦
            let p : i ≡ holder = ground (arith, s, q) in
            elim (Option-cases vv.uncommitted) [
              | inl n ↦ absurd (ground (arith, n, s))
              | inr (u, w) ↦
                  (ground (arith, s, w, p), ground (arith, s, w, p), ground (arith, s, w, p))
            ]
      ]

      forward :
          put_attempt maps codec m k v e tx ≡ blocked holder
          → (bytes : Bytes) × (vv : VersionedValue) × (maps.get e.store m k ≡ some bytes)
            × (from_bytes codec bytes ≡ some vv)
            × (active_tx_id vv ≡ some holder)
            × (holder ≢ tx.tx_id)
            × (is_tx_active e holder ≡ true)
      forward h = elim (Option-cases (maps.get e.store m k)) [
        | inl n ↦
            let q : put_value maps codec e tx m k v empty_value ≡ blocked holder =
              sym (rw (n, put_attempt) refl) ∙ h in
            let (w, other, active) = held empty_value q in absurd (cc)
        | inr (bytes, s) ↦ elim (Option-cases (from_bytes codec bytes)) [
          | inl n ↦ absurd (ground (arith, s, n, h))
          | inr (vv, d) ↦
              let q : put_value maps codec e tx m k v vv ≡ blocked holder =
                sym (rw (s, put_attempt) (rw d refl)) ∙ h in
              let (w1, w2, w3) = held vv q in (bytes, vv, s, d, w1, w2, w3)
        ]
      ]

      backward :
          ((bytes : Bytes) × (vv : VersionedValue) × (maps.get e.store m k ≡ some bytes)
            × (from_bytes codec bytes ≡ some vv)
            × (active_tx_id vv ≡ some holder)
            × (holder ≢ tx.tx_id)
            × (is_tx_active e holder ≡ true))
          → put_attempt maps codec m k v e tx ≡ blocked holder
      backward (bytes, vv, s, d, w1, w2, w3) = elim (Option-cases vv.uncommitted) [
        | inl n ↦ absurd (ground (arith, n, w1))
        | inr (u, w) ↦
            let p : u.tx_id ≡ holder = ground (arith, w, w1) in ground (arith, s, d, w, p, w2, w3)
      ]

  -- What an attempt to put works on: nothing stored, or a value that can be read.
  abbrev pub Stored : Engine Store → String → Bytes → VersionedValue → Type 0
  Stored e m k vv =
      ((maps.get e.store m k ≡ none) × (vv ≡ empty_value))
      ⊎ ((bytes : Bytes) × (maps.get e.store m k ≡ some bytes) × (from_bytes codec bytes ≡ some vv))

  value_failed :
      (e : Engine Store) (tx : Transaction) (m : String) (k v : Bytes) (vv : VersionedValue)
      (x : Error)
      → put_value maps codec e tx m k v vv ≡ failed x
      → (x ≡ serialization) × (to_bytes codec (with_write vv tx.tx_id (some v)) ≡ none)
  unfolding put_value write
  value_failed e tx m k v vv x q = elim (Option-cases (holder_of e tx vv)) [
    | inl n ↦ elim (Option-cases (to_bytes codec (with_write vv tx.tx_id (some v)))) [
      | inl f ↦ (ground (arith, n, f, q), f)
      | inr (b, f) ↦ absurd (ground (arith, n, f, q))
    ]
    | inr (i, s) ↦ absurd (ground (arith, s, q))
  ]

  attempt_failed :
      (e : Engine Store) (tx : Transaction) (m : String) (k v : Bytes) (x : Error)
      → put_attempt maps codec m k v e tx ≡ failed x
      → (x ≡ serialization)
        × (((bytes : Bytes) × (maps.get e.store m k ≡ some bytes) × (from_bytes codec bytes ≡ none))
            ⊎ ((vv : VersionedValue) × Stored e m k vv
                × (to_bytes codec (with_write vv tx.tx_id (some v)) ≡ none)))
  unfolding put_attempt
  attempt_failed e tx m k v x h = elim (Option-cases (maps.get e.store m k)) [
    | inl n ↦
        let q : put_value maps codec e tx m k v empty_value ≡ failed x =
          sym (rw (n, put_attempt) refl) ∙ h in
        let (p, f) = value_failed e tx m k v empty_value x q in
        (p, inr (empty_value, inl (n, refl), f))
    | inr (bytes, s) ↦ elim (Option-cases (from_bytes codec bytes)) [
      | inl n ↦ (ground (arith, s, n, h), inl (bytes, s, n))
      | inr (vv, d) ↦
          let q : put_value maps codec e tx m k v vv ≡ failed x =
            sym (rw (s, put_attempt) (rw d refl)) ∙ h in
          let (p, f) = value_failed e tx m k v vv x q in (p, inr (vv, inr (bytes, s, d), f))
    ]
  ]

  -- An attempt to put waits for a transaction exactly when the stored value is held by that one, it
  -- is another one, and it is active. It fails only with a serialization error, and then the stored
  -- value cannot be read or the new one cannot be written; no version that was committed since the
  -- snapshot of the transaction is among the reasons.
  pub put_attempt-outcomes :
      (e : Engine Store) (tx : Transaction) (m : String) (k v : Bytes) (holder : ℕ) (x : Error)
      → ((put_attempt maps codec m k v e tx ≡ blocked holder) ↔ (
          (bytes : Bytes) × (vv : VersionedValue) × (maps.get e.store m k ≡ some bytes)
          × (from_bytes codec bytes ≡ some vv)
          × (active_tx_id vv ≡ some holder)
          × (holder ≢ tx.tx_id)
          × (is_tx_active e holder ≡ true)))
        × (put_attempt maps codec m k v e tx ≡ failed x
            → (x ≡ serialization)
              × (((bytes : Bytes) × (maps.get e.store m k ≡ some bytes)
                    × (from_bytes codec bytes ≡ none))
                  ⊎ ((vv : VersionedValue) × Stored e m k vv
                      × (to_bytes codec (with_write vv tx.tx_id (some v)) ≡ none))))
  put_attempt-outcomes e tx m k v holder x =
      (put_attempt-blocked_iff e tx m k v holder, attempt_failed e tx m k v x)
