-- ===== src/Tx/Commit/Effect.antt =====
-- What the changes of a commit do to the store, place by place.
use mathlib.Core.Path.{subst}
use h2database_rust.Prelude.{
  ℕ, Bool, true, false, ◌||◌, Option, none, some, List, [], ◌∷◌, ◌++◌, String, if◌then◌else◌, ◌≡◌,
  ◌≢◌, ◌⊎◌, refl, ap, sym, ◌∙◌, arith, inl, inr, Bool-cases, Option-cases,
}
use h2database_rust.Bytes.Order.{Bytes}
use h2database_rust.Tx.VersionedValue.{VersionedValue, commit_uncommitted}
use h2database_rust.Tx.Codec.{Codec, to_bytes, from_bytes}
use h2database_rust.Tx.Maps.{Maps, same_place}
use h2database_rust.Tx.Engine.{UndoLogEntry}
use h2database_rust.Tx.Writes.{is_writer}
use h2database_rust.Tx.Writes.Views.{same_place_eq}
use h2database_rust.Tx.Commit.{WalChange, prepare_one, prepare, apply_change, apply_changes}

-- Whether the undo log has an entry for the place.
unfoldable pub logged : List UndoLogEntry → String → Bytes → Bool
unfolding same_place
logged [] n j = false
logged (log ∷ logs) n j = same_place log.map_name log.key n j || logged logs n j

module _ (maps : Maps) (codec : Codec) where
  open maps use {Store}

  -- What a commit makes of the bytes under a key.
  unfoldable pub after_commit : ℕ → ℕ → Option Bytes → Option Bytes
  unfolding is_writer commit_uncommitted
  after_commit tx_id c none = none
  after_commit tx_id c (some bytes) = elim (from_bytes codec bytes) [
    | none ↦ some bytes
    | some vv ↦ if is_writer vv tx_id then to_bytes codec (commit_uncommitted vv c) else some bytes
  ]

  apply_changes-append :
      (s : Store) (xs ys : List WalChange)
      → apply_changes maps codec s (xs ++ ys)
        ≡ apply_changes maps codec (apply_changes maps codec s xs) ys
  unfolding apply_changes
  apply_changes-append s [] ys = refl
  apply_changes-append s (x ∷ xs) ys = apply_changes-append (apply_change maps codec s x) xs ys

  -- A value that the transaction does not hold is left alone, and otherwise there is one change, to
  -- what the commit makes of the value.
  prepare_one-cases :
      (s : Store) (tx_id c : ℕ) (log : UndoLogEntry) (changes : List WalChange)
      → prepare_one maps codec s tx_id c log ≡ some changes
      → ((changes ≡ [])
          × (after_commit tx_id c (maps.get s log.map_name log.key)
              ≡ maps.get s log.map_name log.key))
        ⊎ (changes
            ≡ record {
              map_name = log.map_name;
              key = log.key;
              value = after_commit tx_id c (maps.get s log.map_name log.key);
            }
              ∷ [])
  unfolding prepare_one after_commit
  prepare_one-cases s tx_id c log changes h =
      elim (Option-cases (maps.get s log.map_name log.key)) [
        | inl n ↦
            let q : some (record { map_name = log.map_name; key = log.key; value = none } ∷ [])
                ≡ some changes =
              sym (rw (n, prepare_one) refl) ∙ h in
            inr (rw (n, after_commit) cc)
        | inr (bytes, e) ↦ elim (Option-cases (from_bytes codec bytes)) [
          | inl f ↦ absurd (ground (arith, e, f, h))
          | inr (vv, d) ↦ elim (Bool-cases (is_writer vv tx_id)) [
            | inr not ↦
                let q : ◌≡◌ {A = Option (List WalChange)} (some []) (some changes) =
                  sym (rw (e, prepare_one) (rw (d, not) refl)) ∙ h in
                inl (cc, rw (e, after_commit) (rw (d, not) refl))
            | inl w ↦ elim (Option-cases (to_bytes codec (commit_uncommitted vv c))) [
              | inl f ↦ absurd (ground (arith, e, d, w, f, h))
              | inr (new, f) ↦
                  let q : some
                        (record { map_name = log.map_name; key = log.key; value = some new } ∷ [])
                      ≡ some changes =
                    sym (rw (e, prepare_one) (rw (d, w) (rw f refl))) ∙ h in
                  inr (rw (e, after_commit) (rw (d, w) (rw f cc)))
            ]
          ]
        ]
      ]

  get-apply_change :
      (t : Store) (m : String) (k : Bytes) (o : Option Bytes) (n : String) (j : Bytes)
      → maps.get (apply_change maps codec t (record { map_name = m; key = k; value = o })) n j
        ≡ (if same_place m k n j then o else maps.get t n j)
  unfolding apply_change
  get-apply_change t m k none n j = maps.get-remove t m k n j
  get-apply_change t m k (some b) n j = maps.get-put t m k b n j

  apply-prepare_one :
      (s t : Store) (tx_id c : ℕ) (log : UndoLogEntry) (changes : List WalChange) (n : String)
      (j : Bytes)
      → prepare_one maps codec s tx_id c log ≡ some changes
      → (maps.get t n j ≡ maps.get s n j)
        ⊎ (maps.get t n j ≡ after_commit tx_id c (maps.get s n j))
        ⊎ (same_place log.map_name log.key n j ≡ false)
      → maps.get (apply_changes maps codec t changes) n j ≡ (
          if same_place log.map_name log.key n j
          then after_commit tx_id c (maps.get s n j)
          else maps.get t n j)
  unfolding apply_changes
  apply-prepare_one s t tx_id c log changes n j h agree =
      elim (prepare_one-cases s tx_id c log changes h) [
        | inr p ↦
            ap (λ x. maps.get (apply_changes maps codec t x) n j) p
            ∙ get-apply_change t log.map_name log.key
                (after_commit tx_id c (maps.get s log.map_name log.key)) n j
            ∙ elim (Bool-cases (same_place log.map_name log.key n j)) [
              | inl here ↦
                  let (q1, q2) = same_place_eq log.map_name log.key n j here in
                  rw here (rw (q1, q2) refl)
              | inr there ↦ rw there refl
            ]
        | inl (p, still) ↦
            ap (λ x. maps.get (apply_changes maps codec t x) n j) p
            ∙ elim (Bool-cases (same_place log.map_name log.key n j)) [
              | inl here ↦
                  let (q1, q2) = same_place_eq log.map_name log.key n j here in
                  let still' : after_commit tx_id c (maps.get s n j) ≡ maps.get s n j =
                    rw (sym q1, sym q2) still in
                  rw here (elim agree [
                    | inl same ↦ same ∙ sym still'
                    | inr (inl done) ↦ done
                    | inr (inr not) ↦ absurd (ground (arith, here, not))
                  ])
              | inr there ↦ rw there refl
            ]
      ]

  -- The changes that `prepare` returns, applied to a store that has the same values at the places
  -- of the undo log, commit these values and leave all other places as they are.
  pub apply-prepare :
      (s t : Store) (tx_id c : ℕ) (logs : List UndoLogEntry) (changes : List WalChange) (n : String)
      (j : Bytes)
      → prepare maps codec s tx_id c logs ≡ some changes
      → (logged logs n j ≡ true → maps.get t n j ≡ maps.get s n j)
      → maps.get (apply_changes maps codec t changes) n j
        ≡ (if logged logs n j then after_commit tx_id c (maps.get s n j) else maps.get t n j)
  unfolding prepare logged apply_changes
  apply-prepare s t tx_id c [] changes n j h agree =
      let p : ◌≡◌ {A = List WalChange} [] changes = cc in
      subst (λ x. maps.get (apply_changes maps codec t x) n j ≡ maps.get t n j) p refl
  apply-prepare s t tx_id c (log ∷ logs) changes n j h agree =
      elim (Option-cases (prepare maps codec s tx_id c logs)) [
        | inl f ↦ absurd (ground (arith, f, h))
        | inr (older, po) ↦ elim (Option-cases (prepare_one maps codec s tx_id c log)) [
          | inl f ↦ absurd (ground (arith, po, f, h))
          | inr (newest, pn) ↦
              let q : some (older ++ newest) ≡ some changes =
                sym (rw (po, prepare) (rw pn refl)) ∙ h in
              let p : older ++ newest ≡ changes = cc in
              let ih =
                apply-prepare s t tx_id c logs older n j po (λ l. agree (rw l (ground arith))) in
              let t1 = apply_changes maps codec t older in
              let start : (maps.get t1 n j ≡ maps.get s n j)
                  ⊎ (maps.get t1 n j ≡ after_commit tx_id c (maps.get s n j))
                  ⊎ (same_place log.map_name log.key n j ≡ false) =
                elim (Bool-cases (logged logs n j)) [
                  | inl l ↦ inr (inl (ih ∙ rw l refl))
                  | inr l ↦ elim (Bool-cases (same_place log.map_name log.key n j)) [
                    | inl here ↦ inl (ih ∙ rw l (agree (rw here refl)))
                    | inr there ↦ inr (inr there)
                  ]
                ] in
              ap (λ x. maps.get (apply_changes maps codec t x) n j) (sym p)
              ∙ ap (λ x. maps.get x n j) (apply_changes-append t older newest)
              ∙ apply-prepare_one s t1 tx_id c log newest n j pn start
              ∙ elim (Bool-cases (same_place log.map_name log.key n j)) [
                | inl here ↦ rw (here) refl
                | inr there ↦ rw there ih
              ]
        ]
      ]

  -- A value that the transaction holds and cannot be serialized fails the whole commit.
  pub prepare_serialized :
      (s : Store) (tx_id c : ℕ) (logs : List UndoLogEntry) (changes : List WalChange) (n : String)
      (j bytes : Bytes) (vv : VersionedValue)
      → prepare maps codec s tx_id c logs ≡ some changes
      → logged logs n j ≡ true
      → maps.get s n j ≡ some bytes
      → from_bytes codec bytes ≡ some vv
      → is_writer vv tx_id ≡ true
      → to_bytes codec (commit_uncommitted vv c) ≢ none
  unfolding prepare prepare_one logged
  prepare_serialized s tx_id c [] changes n j bytes vv h l g d w f = absurd (cc)
  prepare_serialized s tx_id c (log ∷ logs) changes n j bytes vv h l g d w f =
      elim (Option-cases (prepare maps codec s tx_id c logs)) [
        | inl bad ↦ absurd (ground (arith, bad, h))
        | inr (older, po) ↦ elim (Bool-cases (same_place log.map_name log.key n j)) [
          | inl here ↦
              let (q1, q2) = same_place_eq log.map_name log.key n j here in
              let at : maps.get s log.map_name log.key ≡ some bytes = rw (q1, q2) g in
              absurd (ground (arith, po, at, d, w, f, h))
          | inr there ↦
              prepare_serialized s tx_id c logs older n j bytes vv po (sym (rw there refl) ∙ l) g d
                w f
        ]
      ]
