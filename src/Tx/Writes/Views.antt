-- ===== src/Tx/Writes/Views.antt =====
-- What a write does to the reads of its own transaction and of the others.

use mathlib.Core.Path.{subst}
use text.Mathlib.Text.{◌==◌ as str_eq}
use text.Mathlib.TextEquality.{eq_iff}
use h2database_rust.Prelude.{
  ℕ, true, Option, none, some, List, [], ◌∷◌, String, ◌==◌, ◌≡◌, ◌≢◌, refl, ap, sym, ◌∙◌, arith,
  inl, inr, Bool-cases, Option-cases,
}
use h2database_rust.Bytes.Order.{Bytes, cmp_self, cmp_eq, cmp-cases}
use h2database_rust.Tx.VersionedValue.{VersionedValue, read_visible, read_history, active_tx_id}
use h2database_rust.Tx.VersionedValue.Reads.{read_visible-other}
use h2database_rust.Tx.Codec.{Codec, to_bytes, from_bytes}
use h2database_rust.Tx.Codec.Raw.{from_bytes-to_bytes}
use h2database_rust.Tx.Maps.{Maps, same_place, same_key}
use h2database_rust.Tx.Engine.{ok, err, Transaction, Engine, Outcome, is_tx_active}
use h2database_rust.Tx.Reads.{get_bytes}
use h2database_rust.Tx.Reads.Agree.{IsStored, reads_stored}
use h2database_rust.Tx.Writes.{
  Wait, Attempt, done, blocked, failed, Woken, retry, gave_up, wait_round, locked_loop, put_attempt,
  put_value, write, with_write, empty_value, holder_of,
}

pub same_key_self : (k : Bytes) → same_key k k ≡ true
same_key_self k = rw (same_key, cmp_self k) refl

pub same_key_eq : (k j : Bytes) → same_key k j ≡ true → k ≡ j
same_key_eq k j h = elim (cmp-cases k j) [
  | inl less ↦ absurd (ground (arith, less))
  | inr (inl same) ↦ cmp_eq k j same
  | inr (inr more) ↦ absurd (ground (arith, more))
]

pub same_place_self : (m : String) (k : Bytes) → same_place m k m k ≡ true
unfolding same_place
same_place_self m k = rw ((eq_iff m m).1 refl, same_key_self k)

pub same_place_eq :
    (m : String) (k : Bytes) (n : String) (j : Bytes)
    → same_place m k n j ≡ true
    → (m ≡ n) × (k ≡ j)
unfolding same_place
same_place_eq m k n j h = elim (Bool-cases (str_eq m n)) [
  | inl here ↦ elim (Bool-cases (same_key k j)) [
    | inl same ↦ ((eq_iff m n).0 here, same_key_eq k j same)
    | inr other ↦ absurd (ground (arith, here, other, h))
  ]
  | inr there ↦ absurd (ground (arith, there, h))
]

module _ (maps : Maps) (codec : Codec) where
  open maps use {Store}

  same_outcome {κ} :
      {A : Type 0} (P : Engine Store → Transaction → A → Type κ) (d' : Engine Store)
      (t' : Transaction) (b : A) (e' : Engine Store) (tx' : Transaction) (a : A)
      → P d' t' b
      → ◌≡◌ {A = Option (Outcome Store A)} (some (d', t', ok b)) (some (e', tx', ok a))
      → P e' tx' a
  same_outcome P d' t' b e' tx' a p r =
      let p1 : d' ≡ e' = cc in
      let p2 : t' ≡ tx' = cc in
      let p3 : b ≡ a = cc in
      subst (λ x. P x tx' a) p1 (subst (λ x. P d' x a) p2 (subst (λ x. P d' t' x) p3 p))

  -- A wait leaves the transaction as it is when the attempt is made again, so what holds after
  -- every attempt that succeeds holds after the loop.
  pub locked_loop-done {κ} :
      {A : Type 0} (attempt : Engine Store → Transaction → Attempt Store A)
      (P : Engine Store → Transaction → A → Type κ) (ws : List (Wait Store)) (e : Engine Store)
      (tx : Transaction) (e' : Engine Store) (tx' : Transaction) (a : A)
      → ((d d' : Engine Store) (t' : Transaction) (b : A) → attempt d tx ≡ done d' t' b → P d' t' b)
      → locked_loop maps codec attempt ws e tx ≡ some (e', tx', ok a)
      → P e' tx' a
  unfolding locked_loop
  locked_loop-done {A = A} attempt P [] e tx e' tx' a holds h = go (attempt e tx) refl h
    where
      go :
          (r : Attempt Store A)
          → attempt e tx ≡ r
          → locked_loop maps codec attempt [] e tx ≡ some (e', tx', ok a)
          → P e' tx' a
      go (done d' t' b) q k =
          same_outcome P d' t' b e' tx' a (holds e d' t' b q) (sym (rw (q, locked_loop) refl) ∙ k)
      go (failed x) q k = absurd (ground (arith, q, k))
      go (blocked holder) q k = absurd (ground (arith, q, k))
  locked_loop-done {A = A} attempt P (w ∷ ws) e tx e' tx' a holds h =
      go (λ e2 k. locked_loop-done attempt P ws e2 tx e' tx' a holds k) (attempt e tx) refl h
    where
      go :
          ((e2 : Engine Store)
            → locked_loop maps codec attempt ws e2 tx ≡ some (e', tx', ok a)
            → P e' tx' a)
          → (r : Attempt Store A) → attempt e tx ≡ r
          → locked_loop maps codec attempt (w ∷ ws) e tx ≡ some (e', tx', ok a)
          → P e' tx' a
      go again (done d' t' b) q k =
          same_outcome P d' t' b e' tx' a (holds e d' t' b q) (sym (rw (q, locked_loop) refl) ∙ k)
      go again (failed x) q k = absurd (ground (arith, q, k))
      go again (blocked holder) q k =
          woken (wait_round maps codec e tx holder w) (sym (rw (q, locked_loop) refl) ∙ k)
        where
          woken :
              (r : Woken Store)
              → elim r [
                | gave_up e2 tx2 x ↦ some (e2, tx2, err x)
                | retry e2 ↦ locked_loop maps codec attempt ws e2 tx
              ]
                ≡ some (e', tx', ok a)
              → P e' tx' a
          woken (gave_up e2 tx2 x) k = absurd (cc)
          woken (retry e2) k = again e2 k

  -- What a write leaves: the new value is stored at its place, and all other places are as they
  -- were.
  pub write-done :
      {A : Type 0} (e : Engine Store) (tx : Transaction) (m : String) (k : Bytes)
      (vv : VersionedValue) (a : A) (e' : Engine Store) (tx' : Transaction) (b : A)
      → write maps codec e tx m k vv a ≡ done e' tx' b
      → (bytes : Bytes) × (to_bytes codec vv ≡ some bytes)
        × (e' ≡ record e { store = maps.put e.store m k bytes })
        × (tx' ≡ record tx { undo_log = record { map_name = m; key = k } ∷ tx.undo_log })
  unfolding write
  write-done {A = A} e tx m k vv a e' tx' b h = elim (Option-cases (to_bytes codec vv)) [
    | inl n ↦ absurd (ground (arith, n, h))
    | inr (bytes, s) ↦
        let q : ◌≡◌ {A = Attempt Store A}
            (done (record e { store = maps.put e.store m k bytes })
              (record tx { undo_log = record { map_name = m; key = k } ∷ tx.undo_log }) a)
            (done e' tx' b) =
          sym (rw (s, write) refl) ∙ h in
        (bytes, s, cc, cc)
  ]

  -- The value that an attempt starts from.
  abbrev pub OldValue : Option Bytes → VersionedValue → Type 0
  OldValue none vv = vv ≡ empty_value
  OldValue (some bytes) vv = from_bytes codec bytes ≡ some vv

  abbrev pub AreStored : Option Bytes → Type 0
  AreStored none = Unit
  AreStored (some bytes) = IsStored codec bytes

  -- A finished attempt to put stores a value with the new one uncommitted over the history of the
  -- old one, which no other active transaction held.
  pub put_attempt-done :
      (e : Engine Store) (tx : Transaction) (m : String) (k v : Bytes) (e' : Engine Store)
      (tx' : Transaction)
      → put_attempt maps codec m k v e tx ≡ done e' tx' tt
      → (vv : VersionedValue) × (bytes : Bytes) × OldValue (maps.get e.store m k) vv
        × (holder_of e tx vv ≡ none)
        × (to_bytes codec (with_write vv tx.tx_id (some v)) ≡ some bytes)
        × (e' ≡ record e { store = maps.put e.store m k bytes })
        × (tx' ≡ record tx { undo_log = record { map_name = m; key = k } ∷ tx.undo_log })
  unfolding put_attempt
  put_attempt-done e tx m k v e' tx' h = go (maps.get e.store m k) refl
    where
      found :
          (vv : VersionedValue) (o : Option ℕ)
          → holder_of e tx vv ≡ o
          → put_value maps codec e tx m k v vv ≡ done e' tx' tt
          → (bytes : Bytes) × (holder_of e tx vv ≡ none)
            × (to_bytes codec (with_write vv tx.tx_id (some v)) ≡ some bytes)
            × (e' ≡ record e { store = maps.put e.store m k bytes })
            × (tx' ≡ record tx { undo_log = record { map_name = m; key = k } ∷ tx.undo_log })
      found vv none q r =
          let (bytes, s, p1, p2) =
            write-done e tx m k (with_write vv tx.tx_id (some v)) tt e' tx' tt
              (sym (rw (q, put_value) refl) ∙ r) in
          (bytes, q, s, p1, p2)
      found vv (some holder) q r = absurd (ground (arith, q, r))

      decoded :
          (bytes : Bytes) (o : Option VersionedValue)
          → maps.get e.store m k ≡ some bytes
          → from_bytes codec bytes ≡ o
          → (vv : VersionedValue) × (from_bytes codec bytes ≡ some vv)
            × (put_value maps codec e tx m k v vv ≡ done e' tx' tt)
      decoded bytes none p q = absurd (ground (arith, p, q, h))
      decoded bytes (some vv) p q = (vv, q, sym (rw (p, put_attempt) (rw q refl)) ∙ h)

      go :
          (o : Option Bytes)
          → maps.get e.store m k ≡ o
          → (vv : VersionedValue) × (bytes : Bytes) × OldValue (maps.get e.store m k) vv
            × (holder_of e tx vv ≡ none)
            × (to_bytes codec (with_write vv tx.tx_id (some v)) ≡ some bytes)
            × (e' ≡ record e { store = maps.put e.store m k bytes })
            × (tx' ≡ record tx { undo_log = record { map_name = m; key = k } ∷ tx.undo_log })
      go none p =
          let (bytes, r1, r2, r3, r4) =
            found empty_value (holder_of e tx empty_value) refl
              (sym (rw (p, put_attempt) refl) ∙ h) in
          (empty_value, bytes, rw p refl, r1, r2, r3, r4)
      go (some old) p =
          let (vv, q, r) = decoded old (from_bytes codec old) p refl in
          let (bytes, r1, r2, r3, r4) = found vv (holder_of e tx vv) refl r in
          (vv, bytes, rw p q, r1, r2, r3, r4)

  -- What a reader sees of the value that a write starts from.
  pub read-OldValue :
      (o : Option Bytes) (vv : VersionedValue) (reader : Transaction)
      → AreStored o
      → OldValue o vv
      → get_bytes codec reader o ≡ ok (read_visible vv reader.tx_id reader.snapshot_version)
  unfolding get_bytes read_visible read_history
  read-OldValue none vv reader a h = rw h refl
  read-OldValue (some bytes) vv reader (w, stored) h =
      let same : w ≡ vv =
        let p = from_bytes-to_bytes codec w bytes stored in
        let q : some w ≡ some vv = sym p ∙ h in cc in
      let (full, fast, got) = reads_stored codec reader w bytes stored in
      got ∙ ap (λ x. ok (read_visible x reader.tx_id reader.snapshot_version)) same

  -- A write over a value that another active transaction does not hold is invisible to it.
  pub read-with_write :
      (e : Engine Store) (tx reader : Transaction) (vv : VersionedValue) (v : Option Bytes)
      → holder_of e tx vv ≡ none
      → is_tx_active e reader.tx_id ≡ true
      → tx.tx_id ≢ reader.tx_id
      → read_visible (with_write vv tx.tx_id v) reader.tx_id reader.snapshot_version
        ≡ read_visible vv reader.tx_id reader.snapshot_version
  unfolding holder_of active_tx_id with_write read_visible
  read-with_write e tx reader vv v h active other = elim (Option-cases vv.uncommitted) [
    | inl n ↦
        rw (n, read_visible)
          (read_visible-other vv tx.tx_id reader.tx_id reader.snapshot_version v other)
    | inr (u, s) ↦ elim (Bool-cases (u.tx_id == reader.tx_id)) [
      | inl mine ↦
          let p : u.tx_id ≡ reader.tx_id = ground (arith, mine) in
          absurd (ground (arith, s, h, active, other, p))
      | inr not ↦
          rw (s, not, read_visible)
            (read_visible-other vv tx.tx_id reader.tx_id reader.snapshot_version v other)
    ]
  ]
