-- ===== src/Quorum/Acks.antt =====
-- The loops over the answers of the nodes decide by their number alone.
use h2database_rust.Prelude.{
  ℕ, suc, ◌+◌, ◌-◌, ◌≤◌, ◌<◌, Bool, true, false, Option, none, some, List, [], ◌∷◌, length, ltb,
  leb, ◌≡◌, ◌≢◌, ◌↔◌, refl, ap, sym, ◌∙◌, arith, inl, inr, Bool-cases, Option-cases,
}
use h2database_rust.Quorum.Overlap.{members}
use h2database_rust.Quorum.{
  QuorumConfig, StorageFleet, lease_loop, acquire_lease_quorum, append_loop, append_records,
  append_logs_quorum, max,
}

-- The nodes that took the log.
unfoldable pub acks_of : List (Option ℕ) → ℕ
acks_of [] = 0
acks_of (some lsn ∷ answers) = suc (acks_of answers)
acks_of (none ∷ answers) = acks_of answers

acks_of-le : (answers : List (Option ℕ)) → acks_of answers ≤ length answers
unfolding acks_of
acks_of-le [] = omega arith
acks_of-le (some lsn ∷ answers) = omega (arith, acks_of-le answers)
acks_of-le (none ∷ answers) = omega (arith, acks_of-le answers)

loop-decides :
    (c : QuorumConfig) (total acks errors lsn : ℕ) (answers : List (Option ℕ))
    → acks + errors + length answers ≡ total
    → acks < c.write_quorum
    → ((append_loop c total acks errors lsn answers ≢ none)
        ↔ (c.write_quorum ≤ acks + acks_of answers))
unfolding append_loop acks_of
loop-decides c total acks errors lsn [] e less =
    ((λ h. absurd (h refl)), λ h. absurd (omega (arith, h, less)))
loop-decides c total acks errors lsn (some n ∷ answers) e less =
    elim (Bool-cases (leb c.write_quorum (acks + 1))) [
      | inl reached ↦
          rw (reached, append_loop) ((λ h. ground (arith, reached)), λ h. λ q. absurd (cc))
      | inr on ↦
          let (f, b) =
            loop-decides c total (acks + 1) errors (max lsn n) answers (omega (arith, e))
              (ground (arith, on)) in
          rw (on, append_loop) ((λ h. omega (arith, f h)), λ h. b (omega (arith, h)))
    ]
loop-decides c total acks errors lsn (none ∷ answers) e less =
    elim (Bool-cases (ltb (total - (errors + 1)) c.write_quorum)) [
      | inl lost ↦
          let few : total - (errors + 1) < c.write_quorum = ground (arith, lost) in
          rw (lost, append_loop)
            ((λ h. absurd (h refl)), λ h. absurd (omega (arith, h, few, e, acks_of-le answers)))
      | inr on ↦
          let (f, b) = loop-decides c total acks (errors + 1) lsn answers (omega (arith, e)) less in
          rw (on, append_loop) (f, b)
    ]

append_records-decides :
    (f : StorageFleet) (answers : List (Option ℕ))
    → 0 < f.config.write_quorum
    → length answers ≡ f.nodes
    → (((append_records f answers).1 ≢ none) ↔ (f.config.write_quorum ≤ acks_of answers))
      × ((append_records f answers).0.latest_committed_lsn
          ≡ elim (append_records f answers).1 [ none ↦ f.latest_committed_lsn | some lsn ↦ lsn ])
unfolding append_records
append_records-decides f answers some_quorum e =
    let (there, back) =
      loop-decides f.config f.nodes 0 0 0 answers (omega (arith, e)) some_quorum in
    elim (Option-cases (append_loop f.config f.nodes 0 0 0 answers)) [
      | inl n ↦
          rw (n, append_records)
            (((λ h. absurd (h refl)), λ h. absurd (back (omega (arith, h)) n)), refl)
      | inr (lsn, s) ↦
          rw (s, append_records)
            (
              (
                (λ h. omega (arith, there (λ q. let bad : some lsn ≡ none = sym s ∙ q in cc))),
                λ h. λ q. absurd (cc),
              ),
              refl,
            )
    ]

-- When every node answers, in whatever order, records are committed exactly when as many nodes as the
-- write quorum took them, and nothing else changes the committed LSN. Without records nothing changes
-- and the committed LSN is returned, whatever the nodes answer.
pub append_logs_quorum-decides :
    {R : Type 0} (f : StorageFleet) (r : R) (records : List R) (answers : List (Option ℕ))
    → 0 < f.config.write_quorum
    → length answers ≡ f.nodes
    → (((append_logs_quorum f (r ∷ records) answers).1 ≢ none)
        ↔ (f.config.write_quorum ≤ acks_of answers))
      × ((append_logs_quorum f (r ∷ records) answers).0.latest_committed_lsn
          ≡ elim (append_logs_quorum f (r ∷ records) answers).1 [
            | none ↦ f.latest_committed_lsn
            | some lsn ↦ lsn
          ])
      × (append_logs_quorum {R = R} f [] answers ≡ (f, some f.latest_committed_lsn))
unfolding append_logs_quorum
append_logs_quorum-decides f r records answers some_quorum e =
    let (decides, lsn) = append_records-decides f answers some_quorum e in (decides, lsn, refl)

-- The answers to a request for a lease, as answers to a write.
answers_of : List Bool → List (Option ℕ)
answers_of [] = []
answers_of (true ∷ answers) = some 0 ∷ answers_of answers
answers_of (false ∷ answers) = none ∷ answers_of answers

acks_of-answers_of : (answers : List Bool) → acks_of (answers_of answers) ≡ members answers
unfolding acks_of answers_of members
acks_of-answers_of [] = refl
acks_of-answers_of (true ∷ answers) = ap suc (acks_of-answers_of answers)
acks_of-answers_of (false ∷ answers) = acks_of-answers_of answers

length-answers_of : (answers : List Bool) → length (answers_of answers) ≡ length answers
unfolding answers_of
length-answers_of [] = refl
length-answers_of (true ∷ answers) = ap suc (length-answers_of answers)
length-answers_of (false ∷ answers) = ap suc (length-answers_of answers)

lease_loop-append_loop :
    (c : QuorumConfig) (total acks rejections lsn : ℕ) (answers : List Bool)
    → lease_loop c total acks rejections answers
      ≡ elim (append_loop c total acks rejections lsn (answers_of answers)) [
        | none ↦ false
        | some _ ↦ true
      ]
unfolding lease_loop append_loop answers_of
lease_loop-append_loop c total acks rejections lsn [] = refl
lease_loop-append_loop c total acks rejections lsn (true ∷ answers) =
    ground (arith, lease_loop-append_loop c total (acks + 1) rejections (max lsn 0) answers)
lease_loop-append_loop c total acks rejections lsn (false ∷ answers) =
    ground (arith, lease_loop-append_loop c total acks (rejections + 1) lsn answers)

-- When every node answers, in whatever order, a lease is acquired exactly when as many nodes as the
-- write quorum grant it.
pub acquire_lease_quorum-decides :
    (f : StorageFleet) (token : ℕ) (answers : List Bool)
    → 0 < f.config.write_quorum
    → length answers ≡ f.nodes
    → ((acquire_lease_quorum f token answers).1 ≡ true) ↔ (f.config.write_quorum ≤ members answers)
unfolding acquire_lease_quorum
acquire_lease_quorum-decides f token answers some_quorum e =
    let (there, back) =
      loop-decides f.config f.nodes 0 0 0 (answers_of answers)
        (omega (arith, e, length-answers_of answers)) some_quorum in
    let same = lease_loop-append_loop f.config f.nodes 0 0 0 answers in
    elim (Option-cases (append_loop f.config f.nodes 0 0 0 (answers_of answers))) [
      | inl n ↦
          let no : lease_loop f.config f.nodes 0 0 answers ≡ false = same ∙ rw n refl in
          rw (no, acquire_lease_quorum)
            (
              (λ h. absurd (cc)),
              λ h. absurd (back (omega (arith, h, acks_of-answers_of answers)) n),
            )
      | inr (lsn, s) ↦
          let yes_ : lease_loop f.config f.nodes 0 0 answers ≡ true = same ∙ rw s refl in
          rw (yes_, acquire_lease_quorum)
            (
              (λ h. omega (
                arith,
                there (λ q. let bad : some lsn ≡ none = sym s ∙ q in cc),
                acks_of-answers_of answers,
              )),
              λ h. refl,
            )
    ]
