-- ===== src/Tx/Commit/Visible.antt =====
-- What a commit promises: all of its writes at one version, or none.
use mathlib.Core.Path.{subst}
use h2database_rust.Prelude.{
  ℕ, ◌+◌, ◌<◌, Bool, true, false, ◌&&◌, some, List, [], ◌∷◌, String, leb, if◌then◌else◌, length,
  ◌≡◌, ◌≢◌, refl, ap, sym, ◌∙◌, arith, inl, inr, Bool-cases, Option-cases,
}
use h2database_rust.Bytes.Order.{Bytes}
use h2database_rust.Tx.VersionedValue.{
  VersionedValue, UncommittedRecord, read_history, active_tx_id, commit_uncommitted,
}
use h2database_rust.Tx.VersionedValue.Reads.{read_visible-commit}
use h2database_rust.Tx.Codec.{Codec, to_bytes, from_bytes}
use h2database_rust.Tx.Codec.Raw.{from_bytes-to_bytes}
use h2database_rust.Tx.Maps.{Maps}
use h2database_rust.Tx.Engine.{
  Error, transaction, storage, serialization, UndoLogEntry, Transaction, Engine, Result, ok, err,
  open_tx, committed, is_open, remove_active_tx,
}
use h2database_rust.Tx.Reads.{get, get_bytes}
use h2database_rust.Tx.Reads.Agree.{reads_stored}
use h2database_rust.Tx.Writes.{is_writer, rollback}
use h2database_rust.Tx.Writes.Undo.{IsSound, rollback-isolated}
use h2database_rust.Tx.Commit.{
  WalChange, CommitQueue, Faults, Batch, CommitEnd, done, commit_failure, prepare, apply_changes,
  apply_records, last_version, flush, commit_with, close, commit_failed, commit_open, commit,
}
use h2database_rust.Tx.Commit.Effect.{logged, after_commit, apply-prepare, prepare_serialized}

module _ (maps : Maps) (codec : Codec) where
  open maps use {Store}

  commit_failed-ne-ok :
      (e : Engine Store) (tx : Transaction) (x : Error) (durable : Bool)
      → (commit_failed maps codec e tx x durable).2 ≢ ok tt
  unfolding commit_failed
  commit_failed-ne-ok e tx x true h = absurd (cc)
  commit_failed-ne-ok e tx x false h = go (rollback maps codec e tx).2 h
    where
      go :
          (r : Result (Unit {0}))
          → ◌≢◌ {A = Result (Unit {0})} (elim r [ ok _ ↦ err x | err y ↦ err y ]) (ok tt)
      go (ok _) k = absurd (cc)
      go (err y) k = absurd (cc)

  -- The engine after the version of the commit was taken.
  abbrev pub numbered : Engine Store → Engine Store
  numbered e = record e { next_commit_version = e.next_commit_version + 1 }

  -- A commit that was alone in its batch and succeeded has applied the changes that it prepared.
  commit_with-done :
      (faults : Faults) (batch : Batch Store) (e : Engine Store) (queue : CommitQueue) (tx_id : ℕ)
      (logs : List UndoLogEntry)
      → queue.pending ≡ []
      → batch.joined ≡ []
      → (commit_with maps codec faults batch e queue tx_id logs).2 ≡ done
      → (changes : List WalChange) × (prepare maps codec e.store tx_id
            (e.next_commit_version + 1)
            logs
          ≡ some changes)
        × ((commit_with maps codec faults batch e queue tx_id logs).0.store
            ≡ apply_changes maps codec (batch.meanwhile (numbered e)).store changes)
        × ((commit_with maps codec faults batch e queue tx_id logs).0.version
            ≡ e.next_commit_version + 1)
  unfolding commit_with flush apply_records last_version
  commit_with-done faults batch e queue tx_id logs p q h = elim (Bool-cases queue.poisoned) [
    | inl bad ↦ absurd (ground (arith, bad, h))
    | inr fine ↦
        elim (Option-cases (prepare maps codec e.store tx_id (e.next_commit_version + 1) logs)) [
          | inl f ↦ absurd (ground (arith, fine, f, h))
          | inr (changes, f) ↦ elim (Bool-cases faults.appended) [
            | inr not ↦ absurd (ground (arith, fine, f, not, h))
            | inl appended ↦ elim (Bool-cases faults.synced) [
              | inr not ↦ absurd (ground (arith, fine, f, appended, not, h))
              | inl synced ↦ (
                changes,
                f,
                rw (fine, commit_with) (rw (f, appended, p, q) (rw (synced, flush) refl)),
                rw (fine, commit_with) (rw (f, appended, p, q) (rw (synced, flush) refl)),
              )
            ]
          ]
        ]
  ]

  commit-done :
      (faults : Faults) (batch : Batch Store) (e : Engine Store) (queue : CommitQueue)
      (tx : Transaction) (log : UndoLogEntry) (logs : List UndoLogEntry)
      → tx.status ≡ open_tx
      → tx.undo_log ≡ log ∷ logs
      → (commit maps codec faults batch e queue tx).1.2 ≡ ok tt
      → ((commit_with maps codec faults batch e queue tx.tx_id tx.undo_log).2 ≡ done)
        × ((commit maps codec faults batch e queue tx).1.0
            ≡ remove_active_tx
                (commit_with maps codec faults batch e queue tx.tx_id tx.undo_log).0
                tx.tx_id)
        × ((commit maps codec faults batch e queue tx).1.1.status ≡ committed)
  unfolding commit commit_open close
  commit-done faults batch e queue tx log logs o l h =
      go (commit_with maps codec faults batch e queue tx.tx_id tx.undo_log).2 refl
    where
      end : CommitEnd
      end = (commit_with maps codec faults batch e queue tx.tx_id tx.undo_log).2

      go :
          (r : CommitEnd)
          → end ≡ r
          → (end ≡ done)
            × ((commit maps codec faults batch e queue tx).1.0
                ≡ remove_active_tx
                    (commit_with maps codec faults batch e queue tx.tx_id tx.undo_log).0
                    tx.tx_id)
            × ((commit maps codec faults batch e queue tx).1.1.status ≡ committed)
      go done q = (q, ground (arith, o, l, q), ground (arith, o, l, q))
      go (commit_failure x durable) q = absurd (
          commit_failed-ne-ok (commit_with maps codec faults batch e queue tx.tx_id tx.undo_log).0
            tx x durable (ground (arith, o, l, q, h)))

  -- When a commit that is alone in its batch succeeds, every open reader sees each write of the
  -- transaction if its snapshot is at least the new version, and otherwise sees what was committed
  -- at the key before. The write is one that the undo log names, stored over fewer than 32 versions,
  -- and no other thread touches the key before the sync. The version of the store is the new one,
  -- and the transaction is committed.
  pub commit-visible :
      (faults : Faults) (batch : Batch Store) (e : Engine Store) (queue : CommitQueue)
      (tx reader : Transaction) (n : String) (j bytes : Bytes) (vv : VersionedValue)
      (u : UncommittedRecord)
      → tx.status ≡ open_tx
      → reader.status ≡ open_tx
      → queue.pending ≡ []
      → batch.joined ≡ []
      → logged tx.undo_log n j ≡ true
      → maps.get e.store n j ≡ some bytes
      → to_bytes codec vv ≡ some bytes
      → vv.uncommitted ≡ some u
      → u.tx_id ≡ tx.tx_id
      → length vv.committed_history < 32
      → ((d : Engine Store) → maps.get (batch.meanwhile d).store n j ≡ maps.get d.store n j)
      → (commit maps codec faults batch e queue tx).1.2 ≡ ok tt
      → (get maps codec (commit maps codec faults batch e queue tx).1.0 reader n j
          ≡ ok (
              if leb (e.next_commit_version + 1) reader.snapshot_version
              then u.value
              else read_history vv.committed_history reader.snapshot_version))
        × ((commit maps codec faults batch e queue tx).1.0.version ≡ e.next_commit_version + 1)
        × ((commit maps codec faults batch e queue tx).1.1.status ≡ committed)
  unfolding get after_commit logged remove_active_tx is_open is_writer active_tx_id
  commit-visible faults batch e queue tx reader n j bytes vv u o ro p q l here stored un mine room
        still h =
      go tx.undo_log refl
    where
      c : ℕ
      c = e.next_commit_version + 1

      Claim : Type 0
      Claim =
          (get maps codec (commit maps codec faults batch e queue tx).1.0 reader n j
            ≡ ok (
                if leb (e.next_commit_version + 1) reader.snapshot_version
                then u.value
                else read_history vv.committed_history reader.snapshot_version))
          × ((commit maps codec faults batch e queue tx).1.0.version ≡ e.next_commit_version + 1)
          × ((commit maps codec faults batch e queue tx).1.1.status ≡ committed)

      committed_bytes :
          after_commit maps codec tx.tx_id c (some bytes) ≡ to_bytes codec (commit_uncommitted vv c)
      committed_bytes =
          let d = from_bytes-to_bytes codec vv bytes stored in ground (arith, d, un, mine)

      go : (logs : List UndoLogEntry) → tx.undo_log ≡ logs → Claim
      go [] k = absurd (ground (arith, k, l))
      go (log ∷ logs) k =
          let (w1, w2, w3) = commit-done faults batch e queue tx log logs o k h in
          let (changes, pr, st, ver) =
            commit_with-done faults batch e queue tx.tx_id tx.undo_log p q w1 in
          let placed =
            apply-prepare maps codec e.store (batch.meanwhile (numbered e)).store tx.tx_id c
              tx.undo_log changes n j pr (λ _. still (numbered e)) in
          let d : from_bytes codec bytes ≡ some vv = from_bytes-to_bytes codec vv bytes stored in
          let held : is_writer vv tx.tx_id ≡ true = ground (arith, un, mine) in
          elim (Option-cases (to_bytes codec (commit_uncommitted vv c))) [
            | inl f ↦ absurd (
                prepare_serialized maps codec e.store tx.tx_id c tx.undo_log changes n j bytes vv pr
                  l here d held f)
            | inr (new, f) ↦
                let now : maps.get
                      (apply_changes maps codec (batch.meanwhile (numbered e)).store changes) n j
                    ≡ some new =
                  placed ∙ rw (l, here) (committed_bytes ∙ f) in
                let (full, fast, got) = reads_stored codec reader (commit_uncommitted vv c) new f in
                let read =
                  got
                  ∙ ap ok
                      (read_visible-commit vv u c reader.tx_id reader.snapshot_version un room) in
                (rw (w2, get) (rw (ro, st, now) read), ap (λ x. x.version) w2 ∙ ver, w3)
          ]

  commit_with-not_durable :
      (faults : Faults) (batch : Batch Store) (e : Engine Store) (queue : CommitQueue) (tx_id : ℕ)
      (logs : List UndoLogEntry)
      → (faults.appended && faults.synced) ≡ false
      → ((d : Engine Store) → (batch.meanwhile d).store ≡ d.store)
      → (x : Error) × ((commit_with maps codec faults batch e queue tx_id logs).2
          ≡ commit_failure x false)
        × ((commit_with maps codec faults batch e queue tx_id logs).0.store ≡ e.store)
  unfolding commit_with flush
  commit_with-not_durable faults batch e queue tx_id logs fail still =
      elim (Bool-cases queue.poisoned) [
        | inl bad ↦ rw (bad, commit_with) (storage, refl, refl)
        | inr fine ↦
            elim (Option-cases
              (prepare maps codec e.store tx_id (e.next_commit_version + 1) logs)) [
                | inl f ↦ rw (fine, commit_with) (rw f (serialization, refl, refl))
                | inr (changes, f) ↦ elim (Bool-cases faults.appended) [
                  | inr not ↦ rw (fine, commit_with) (rw (f, not) (storage, refl, refl))
                  | inl appended ↦
                      let not : faults.synced ≡ false = ground (arith, appended, fail) in
                      rw (fine, commit_with)
                        (rw (f, appended) (rw (not, flush) (storage, refl, still (numbered e))))
                ]
              ]
      ]

  -- When the log cannot be appended to or synced, no other transaction sees anything of the commit:
  -- it returns an error, all values of the store stay decodable, and every `get` of the others
  -- returns what it returned before, if the other threads leave the store as it is meanwhile.
  pub commit-not_durable :
      (faults : Faults) (batch : Batch Store) (e : Engine Store) (queue : CommitQueue)
      (tx reader : Transaction) (log : UndoLogEntry) (logs : List UndoLogEntry) (n : String)
      (j : Bytes)
      → tx.status ≡ open_tx
      → tx.undo_log ≡ log ∷ logs
      → (faults.appended && faults.synced) ≡ false
      → ((d : Engine Store) → (batch.meanwhile d).store ≡ d.store)
      → IsSound maps codec e.store
      → tx.tx_id ≢ reader.tx_id
      → ((commit maps codec faults batch e queue tx).1.2 ≢ ok tt)
        × IsSound maps codec (commit maps codec faults batch e queue tx).1.0.store
        × (get maps codec (commit maps codec faults batch e queue tx).1.0 reader n j
            ≡ get maps codec e reader n j)
  unfolding commit commit_open commit_failed get
  commit-not_durable faults batch e queue tx reader log logs n j o l fail still sound other =
      let (x, w1, w2) =
        commit_with-not_durable faults batch e queue tx.tx_id tx.undo_log fail still in
      let e' : Engine Store =
        (commit_with maps codec faults batch e queue tx.tx_id tx.undo_log).0 in
      let failed : (commit maps codec faults batch e queue tx).1
          ≡ commit_failed maps codec e' tx x false =
        ground (arith, o, l, w1) in
      let sound' : IsSound maps codec e'.store = subst (IsSound maps codec) (sym w2) sound in
      let (kept, same) = rollback-isolated maps codec e' tx reader n j sound' other in
      (
        λ h. commit_failed-ne-ok e' tx x false (sym (ap (λ r. r.2) failed) ∙ h),
        subst (λ r. IsSound maps codec r.0.store) (sym failed) kept,
        ap (λ r. get maps codec r.0 reader n j) failed
            ∙ same
            ∙ ap
                (λ s.
                  if is_open reader.status
                  then get_bytes codec reader (maps.get s n j)
                  else err transaction)
                w2,
      )
