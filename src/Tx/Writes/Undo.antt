-- ===== src/Tx/Writes/Undo.antt =====
-- What `rollback` does to the reads of the other transactions and to the values it had written.
use mathlib.Core.Path.{subst}
use h2database_rust.Prelude.{
  ℕ, Bool, true, false, Option, none, some, List, [], ◌∷◌, String, ◌==◌, if◌then◌else◌, ◌≡◌, ◌≢◌,
  refl, ap, sym, ◌∙◌, arith, inl, inr, Bool-cases, Option-cases,
}
use h2database_rust.Prelude.HashMap
use h2database_rust.Bytes.Order.{Bytes}
use h2database_rust.Tx.VersionedValue.{
  VersionedValue, VersionRecord, read_visible, read_history, active_tx_id, rollback_uncommitted,
}
use h2database_rust.Tx.Codec.{Codec, to_bytes, from_bytes}
use h2database_rust.Tx.Codec.Raw.{from_bytes-to_bytes}
use h2database_rust.Tx.Maps.{Maps, same_place}
use h2database_rust.Tx.Engine.{
  transaction, ok, err, Transaction, UndoLogEntry, Engine, is_open, Status, open_tx, committed,
  rolled_back, is_tx_active, remove_active_tx,
}
use h2database_rust.Tx.Reads.{get, get_bytes}
use h2database_rust.Tx.Reads.Agree.{reads_stored}
use h2database_rust.Tx.Writes.{undo_one, undo_all, rollback_open, rollback, is_writer}
use h2database_rust.Tx.Writes.Views.{AreStored, same_place_eq}

module _ (maps : Maps) (codec : Codec) where
  open maps use {Store}

  -- Every value of the store was stored by `to_bytes`.
  abbrev pub IsSound : Store → Type 0
  IsSound s = (n : String) (j : Bytes) → AreStored maps codec (maps.get s n j)

  abbrev pub SameReads : ℕ → Store → Store → Type 0
  SameReads tx_id s s' =
      (reader : Transaction) (n : String) (j : Bytes)
      → tx_id ≢ reader.tx_id
      → get_bytes codec reader (maps.get s' n j) ≡ get_bytes codec reader (maps.get s n j)

  -- One write to a place: the store stays sound and reads stay the same if they do at the place.
  pub moved-SameReads :
      (tx_id : ℕ) (s s' : Store) (m : String) (k : Bytes) (o : Option Bytes)
      → IsSound s
      → AreStored maps codec o
      → ((n : String) (j : Bytes)
          → maps.get s' n j ≡ (if same_place m k n j then o else maps.get s n j))
      → ((reader : Transaction)
          → tx_id ≢ reader.tx_id
          → get_bytes codec reader o ≡ get_bytes codec reader (maps.get s m k))
      → IsSound s' × SameReads tx_id s s'
  moved-SameReads tx_id s s' m k o sound stored law reads = (
    λ n j. elim (Bool-cases (same_place m k n j)) [
      | inl here ↦ rw (law n j, here) stored
      | inr there ↦ rw (law n j, there) (sound n j)
    ],
    λ reader n j other. elim (Bool-cases (same_place m k n j)) [
      | inl here ↦
          let (q1, q2) = same_place_eq m k n j here in
          rw (law n j, here) (rw (sym q1, sym q2) (reads reader other))
      | inr there ↦ rw (law n j, there) refl
    ],
  )

  -- What another transaction sees of a value that is not its own.
  pub read-other :
      (vv : VersionedValue) (tx_id reader s : ℕ)
      → is_writer vv tx_id ≡ true
      → tx_id ≢ reader
      → read_visible vv reader s ≡ read_history vv.committed_history s
  unfolding is_writer read_visible active_tx_id
  read-other vv tx_id reader s w other = elim (Option-cases vv.uncommitted) [
    | inl n ↦ absurd (ground (arith, n, w))
    | inr (u, p) ↦ ground (arith, p, w, other)
  ]

  undo_one-SameReads :
      (s : Store) (tx_id : ℕ) (log : UndoLogEntry) (s' : Store)
      → IsSound s
      → undo_one maps codec s tx_id log ≡ some s'
      → IsSound s' × SameReads tx_id s s'
  unfolding undo_one rollback_uncommitted read_visible get_bytes read_history
  undo_one-SameReads s tx_id log s' sound h =
      go (maps.get s log.map_name log.key) refl (sound log.map_name log.key)
    where
      unchanged : some s ≡ some s' → IsSound s' × SameReads tx_id s s'
      unchanged q =
          let p : s ≡ s' = cc in
          subst (λ x. IsSound x × SameReads tx_id s x) p (sound, λ reader n j other. refl)

      written :
          (bytes : Bytes) (vv : VersionedValue) (hist : List VersionRecord)
          → maps.get s log.map_name log.key ≡ some bytes
          → to_bytes codec vv ≡ some bytes
          → from_bytes codec bytes ≡ some vv
          → is_writer vv tx_id ≡ true
          → vv.committed_history ≡ hist
          → IsSound s' × SameReads tx_id s s'
      written bytes vv [] e st d w c =
          let q : some (maps.remove s log.map_name log.key) ≡ some s' =
            sym (rw (e, undo_one) (rw (d, undo_one) (rw (w, c) refl))) ∙ h in
          let p : maps.remove s log.map_name log.key ≡ s' = cc in
          moved-SameReads tx_id s s' log.map_name log.key none sound tt
            (λ n j. ap (λ x. maps.get x n j) (sym p) ∙ maps.get-remove s log.map_name log.key n j)
            (λ reader other.
              let (full, fast, got) = reads_stored codec reader vv bytes st in
              rw e (
                sym (
                  got
                  ∙ ap ok (
                      read-other vv tx_id reader.tx_id reader.snapshot_version w other
                      ∙ rw c refl))))
      written bytes vv (r ∷ rs) e st d w c =
          elim (Option-cases (to_bytes codec (rollback_uncommitted vv))) [
            | inl f ↦ absurd (ground (arith, e, d, w, c, f, h))
            | inr (new, f) ↦
                let q : some (maps.put s log.map_name log.key new) ≡ some s' =
                  sym (rw (e, undo_one) (rw (d, undo_one) (rw (w, c, f) refl))) ∙ h in
                let p : maps.put s log.map_name log.key new ≡ s' = cc in
                moved-SameReads tx_id s s' log.map_name log.key (some new) sound
                  (rollback_uncommitted vv, f)
                  (λ n j.
                    ap (λ x. maps.get x n j) (sym p) ∙ maps.get-put s log.map_name log.key new n j)
                  (λ reader other.
                    let (full, fast, got) = reads_stored codec reader vv bytes st in
                    let (full', fast', got') =
                      reads_stored codec reader (rollback_uncommitted vv) new f in
                    rw e (
                      got'
                      ∙ sym (
                          got
                          ∙ ap ok
                              (read-other vv tx_id reader.tx_id reader.snapshot_version w other))))
          ]

      go :
          (o : Option Bytes)
          → maps.get s log.map_name log.key ≡ o
          → AreStored maps codec o
          → IsSound s' × SameReads tx_id s s'
      go none e st = unchanged (sym (rw (e, undo_one) refl) ∙ h)
      go (some bytes) e (vv, st) =
          let d : from_bytes codec bytes ≡ some vv = from_bytes-to_bytes codec vv bytes st in
          elim (Bool-cases (is_writer vv tx_id)) [
            | inl w ↦ written bytes vv vv.committed_history e st d w refl
            | inr not ↦ unchanged (sym (rw (e, undo_one) (rw (d, undo_one) (rw not refl))) ∙ h)
          ]

  undo_all-SameReads :
      (s : Store) (tx_id : ℕ) (logs : List UndoLogEntry)
      → IsSound s
      → IsSound (undo_all maps codec s tx_id logs).0
        × SameReads tx_id s (undo_all maps codec s tx_id logs).0
  unfolding undo_all
  undo_all-SameReads s tx_id [] sound = (sound, λ reader n j other. refl)
  undo_all-SameReads s tx_id (log ∷ logs) sound =
      step (λ s' sound'. undo_all-SameReads s' tx_id logs sound') (undo_one maps codec s tx_id log)
        refl
    where
      After : Store × List UndoLogEntry × Bool → Type 0
      After r = IsSound r.0 × SameReads tx_id s r.0

      step :
          ((s' : Store)
            → IsSound s'
            → IsSound (undo_all maps codec s' tx_id logs).0
              × SameReads tx_id s' (undo_all maps codec s' tx_id logs).0)
          → (o : Option Store) → undo_one maps codec s tx_id log ≡ o
          → IsSound (undo_all maps codec s tx_id (log ∷ logs)).0
            × SameReads tx_id s (undo_all maps codec s tx_id (log ∷ logs)).0
      step ih none e = rw (e, undo_all) (sound, λ reader n j other. refl)
      step ih (some s') e =
          let (sound', same) = undo_one-SameReads s tx_id log s' sound e in
          let (sound2, same2) = ih s' sound' in
          rw (e, undo_all)
            (sound2, λ reader n j other. same2 reader n j other ∙ same reader n j other)

  -- A rollback, whether it succeeds or fails, keeps all values of the store decodable, and every
  -- `get` of every other transaction returns what it returned before.
  pub rollback-isolated :
      (e : Engine Store) (tx reader : Transaction) (n : String) (j : Bytes)
      → IsSound e.store
      → tx.tx_id ≢ reader.tx_id
      → IsSound (rollback maps codec e tx).0.store
        × (get maps codec (rollback maps codec e tx).0 reader n j ≡ get maps codec e reader n j)
  unfolding rollback rollback_open get remove_active_tx
  rollback-isolated e tx reader n j sound other = go tx.status refl
    where
      undone : Store × List UndoLogEntry × Bool
      undone = undo_all maps codec e.store tx.tx_id tx.undo_log

      kept : IsSound undone.0 × SameReads tx.tx_id e.store undone.0
      kept = undo_all-SameReads e.store tx.tx_id tx.undo_log sound

      same : get maps codec (record e { store = undone.0 }) reader n j ≡ get maps codec e reader n j
      same =
          ap (λ r. if is_open reader.status then r else err transaction) (kept.1 reader n j other)

      finish :
          (b : Bool)
          → undone.2 ≡ b
          → IsSound (rollback_open maps codec e tx).0.store
            × (get maps codec (rollback_open maps codec e tx).0 reader n j
                ≡ get maps codec e reader n j)
      finish true f = rw (f, rollback_open) (kept.0, same)
      finish false f = rw (f, rollback_open) (kept.0, same)

      go :
          (st : Status)
          → tx.status ≡ st
          → IsSound (rollback maps codec e tx).0.store
            × (get maps codec (rollback maps codec e tx).0 reader n j ≡ get maps codec e reader n j)
      go open_tx o = rw (o, rollback) (finish undone.2 refl)
      go committed o = rw (o, rollback) (sound, refl)
      go rolled_back o = rw (o, rollback) (sound, refl)

  -- After a rollback of an open transaction that succeeds, the transaction is rolled back, it is no
  -- longer active, and every other transaction is active exactly when it was.
  pub rollback-closes :
      (e : Engine Store) (tx : Transaction) (other : ℕ)
      → tx.status ≡ open_tx
      → (rollback maps codec e tx).2 ≡ ok tt
      → ((rollback maps codec e tx).1.status ≡ rolled_back)
        × (is_tx_active (rollback maps codec e tx).0 other
            ≡ (if tx.tx_id == other then false else is_tx_active e other))
  unfolding rollback rollback_open remove_active_tx is_tx_active
  rollback-closes e tx other o h =
      elim (Bool-cases (undo_all maps codec e.store tx.tx_id tx.undo_log).2) [
        | inl f ↦
            rw (o, rollback)
              (rw (f, rollback_open)
                (refl, ground (arith, HashMap.get-remove e.active_transactions tx.tx_id other)))
        | inr f ↦ absurd (ground (arith, o, f, h))
      ]
