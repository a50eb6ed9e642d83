-- ===== src/Map/Journal.antt =====
-- The journal of a map: replayed over what the map held at the last checkpoint, it gives what the
-- map holds now.

use h2database_rust.Prelude.{
  ◌+◌, true, Option, none, some, List, [], ◌∷◌, if◌then◌else◌, ◌≡◌, refl, ap, sym, ◌∙◌, arith, inl,
  inr, Option-cases,
}
use h2database_rust.Bytes.Order.{Bytes, cmp_eq}
use h2database_rust.Tree.{default_page_split_size}
use h2database_rust.Tree.Entries.{lookup}
use h2database_rust.Tree.Shape.{entries-IsAscending}
use h2database_rust.Tree.Model.{
  IsValid, contents, new-IsValid, put-insert, remove-erase, lookup-insert, lookup-erase, if_same,
}
use h2database_rust.Map.{
  MapJournal, MvMap, put, put_count, put_tree, remove, clear, take_journal, restore_journal,
  merge_journal, journal_change, journal_removed, sink_call, record_remove,
}
use h2database_rust.Map.Changes.{find, find-insert, find-extend, find-or_insert_all}

-- What a journal makes of what the map held before.
unfoldable pub replay : MapJournal → (Bytes → Option Bytes) → Bytes → Option Bytes
unfolding find
replay j base k = elim (find j.changes k) [ some v ↦ v | none ↦ if j.clear then none else base k ]

-- The map is sound, keeps a journal, and this one leads from `base` to what the map holds.
pub record Tracks (base : Bytes → Option Bytes) (m : MvMap) : Type 0 where
  pub valid : IsValid m.tree
  pub enabled : m.journal.enabled ≡ true
  pub replayed : (k : Bytes) → lookup (contents m.tree) k ≡ replay m.journal base k

pub data Call : Type 0 where
  put_call : Bytes → Bytes → Call
  remove_call : Bytes → Call
  clear_call : Call

unfoldable pub after_call : Call → MvMap → Option MvMap
unfolding put remove clear
after_call (put_call k v) m = put m k v
after_call (remove_call k) m = elim (remove m k) [ none ↦ none | some (m', _) ↦ some m' ]
after_call clear_call m = some (clear m)

unfoldable pub run_calls : List Call → MvMap → Option MvMap
unfolding after_call
run_calls [] m = some m
run_calls (c ∷ cs) m = elim (after_call c m) [ none ↦ none | some m' ↦ run_calls cs m' ]

put-Tracks :
    (base : Bytes → Option Bytes) (m : MvMap) (key value : Bytes)
    → Tracks base m
    → (m' : MvMap) × (put m key value ≡ some m') × Tracks base m'
unfolding put put_count put_tree journal_change replay
put-Tracks base m key value t =
    let (tree, done, valid, held) = put-insert m.tree key value t.valid in
    (
      record m {
        sink = (put_count m key value).sink;
        mod_count = (put_count m key value).mod_count;
        tree = tree;
        journal = journal_change m.journal key (some value);
      },
      rw (done, put_tree) refl,
      record {
        valid = valid;
        enabled = ground (arith, t.enabled);
        replayed = λ k.
            ap (λ es. lookup es k) held
            ∙ ground (
              arith,
              t.enabled,
              lookup-insert (contents m.tree) key value k,
              find-insert m.journal.changes key (some value) k,
              t.replayed k,
            );
      },
    )

remove-Tracks :
    (base : Bytes → Option Bytes) (m : MvMap) (key : Bytes)
    → Tracks base m
    → (m' : MvMap) × (after_call (remove_call key) m ≡ some m') × Tracks base m'
unfolding after_call remove journal_removed journal_change replay
remove-Tracks base m key t =
    let (tree, done, valid, held) = remove-erase m.tree key t.valid in
    let old = lookup (contents m.tree) key in
    let now : (k : Bytes)
        → lookup (contents tree) k ≡ if_same key k none (lookup (contents m.tree) k) =
      λ k.
        ap (λ es. lookup es k) held
        ∙ lookup-erase (contents m.tree) key k
            (entries-IsAscending m.tree.root none none t.valid.ordered) in
    (
      record m {
        sink = sink_call m.sink (record_remove m.name key);
        mod_count = m.mod_count + 1;
        tree = tree;
        journal = journal_removed m.journal key old;
      },
      rw (done, remove, after_call) refl,
      record {
        valid = valid;
        enabled = still old;
        replayed =
            λ k. now k ∙ elim (Option-cases old) [ inl n ↦ kept n k | inr (v, s) ↦ gone v s k ];
      },
    )
  where
    still : (o : Option Bytes) → (journal_removed m.journal key o).enabled ≡ true
    still none = t.enabled
    still (some v) = ground (arith, t.enabled)

    kept :
        lookup (contents m.tree) key ≡ none
        → (k : Bytes)
        → if_same key k none (lookup (contents m.tree) k)
          ≡ replay (journal_removed m.journal key (lookup (contents m.tree) key)) base k
    kept n k = rw n (ground (arith, cmp_eq key k, n, t.replayed k))

    gone :
        (v : Bytes)
        → lookup (contents m.tree) key ≡ some v
        → (k : Bytes)
        → if_same key k none (lookup (contents m.tree) k)
          ≡ replay (journal_removed m.journal key (lookup (contents m.tree) key)) base k
    gone v s k =
        rw s (ground (arith, t.enabled, find-insert m.journal.changes key none k, t.replayed k))

clear-Tracks : (base : Bytes → Option Bytes) (m : MvMap) → Tracks base m → Tracks base (clear m)
unfolding clear replay find lookup
clear-Tracks base m t =
    let (valid, empty) = new-IsValid default_page_split_size (omega arith) in
    record {
      valid = valid;
      enabled = ground (arith, t.enabled);
      replayed = λ k. ap (λ es. lookup es k) empty ∙ ground (arith, t.enabled);
    }

-- Any calls of a sound map that keeps a journal succeed, and the journal still leads from what the
-- map held at the start of it to what it holds.
pub run_calls-Tracks :
    (base : Bytes → Option Bytes) (cs : List Call) (m : MvMap)
    → Tracks base m
    → (m' : MvMap) × (run_calls cs m ≡ some m') × Tracks base m'
unfolding run_calls
run_calls-Tracks base [] m t = (m, refl, t)
run_calls-Tracks base (c ∷ cs) m t =
    let (m', done, t') = one c in
    let (m2, done2, t2) = run_calls-Tracks base cs m' t' in (m2, rw (done, run_calls) done2, t2)
  where
    one : (c : Call) → (m' : MvMap) × (after_call c m ≡ some m') × Tracks base m'
    one (put_call k v) = put-Tracks base m k v t
    one (remove_call k) = remove-Tracks base m k t
    one clear_call = (clear m, refl, clear-Tracks base m t)

-- The journal that `restore_journal` makes of a later and an earlier one leads as far as the two
-- one after the other.
replay-merge_journal :
    (current old : MapJournal) (base : Bytes → Option Bytes) (k : Bytes)
    → replay (merge_journal current old) base k ≡ replay current (replay old base) k
unfolding replay merge_journal
replay-merge_journal current old base k = ground (
  arith,
  find-extend old.changes current.changes k,
  find-or_insert_all current.changes old.changes k,
)

-- When a checkpoint takes the journal of a map, fails after any calls of the map, and restores the
-- journal, nothing is lost: no call panics, and the restored journal, replayed over what the map
-- held at the start of the taken one, gives what the map holds.
pub restore_journal-replay :
    (base : Bytes → Option Bytes) (m : MvMap) (cs : List Call)
    → Tracks base m
    → (m' : MvMap) × (run_calls cs (take_journal m).0 ≡ some m')
      × Tracks base (restore_journal m' (take_journal m).1)
unfolding take_journal restore_journal replay merge_journal find
restore_journal-replay base m cs t =
    let start : Tracks (replay m.journal base) (take_journal m).0 = record {
      valid = t.valid;
      enabled = t.enabled;
      replayed = t.replayed;
    } in
    let (m', done, t') = run_calls-Tracks (replay m.journal base) cs (take_journal m).0 start in
    (
      m',
      done,
      record {
        valid = t'.valid;
        enabled = ground (arith, t'.enabled);
        replayed = λ k. t'.replayed k ∙ sym (replay-merge_journal m'.journal m.journal base k);
      },
    )
