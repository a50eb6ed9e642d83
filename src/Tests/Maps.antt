-- ===== src/Tests/Maps.antt =====
-- A map that keeps a journal.
use h2database_rust.Prelude.{
  true, false, Option, none, some, List, [], ◌∷◌, ◌≡◌, refl, arith, ap, inr,
}
use h2database_rust.Bytes.Order.{Bytes}
use h2database_rust.Tree
use h2database_rust.Tree.{Page, MvTree, leaf, new_leaf}
use h2database_rust.Tree.Model.{new-IsValid}
use h2database_rust.Tree.Entries.{lookup}
use h2database_rust.Map.{
  MvMap, put_count, put_tree, take_journal, restore_journal, get_serialized_root,
}
use h2database_rust.Map.Changes
use h2database_rust.Map.Changes.{find}
use h2database_rust.Map.Journal.{
  Call, put_call, remove_call, clear_call, run_calls, Tracks, replay, restore_journal-replay,
}
use h2database_rust.Map.Cache.{IsFresh, put_tree-stale}

abbrev map : MvMap
map = record {
  name = "m";
  tree = Tree.new 2;
  sink = none;
  mod_count = 4;
  cached_root = none;
  journal = record { enabled = true; clear = false; changes = [] };
}

nothing : Bytes → Option Bytes
nothing k = none

map-Tracks : Tracks nothing map
unfolding replay nothing find lookup
map-Tracks = record {
  valid = (new-IsValid 2 (omega arith)).0;
  enabled = refl;
  replayed = λ k. ap (λ es. lookup es k) (new-IsValid 2 (omega arith)).1;
}

abbrev calls : List Call
calls = put_call (1 ∷ []) (5 ∷ []) ∷ clear_call ∷ remove_call (2 ∷ []) ∷ []

restore_journal-replay_example :
    (m : MvMap) × (run_calls calls (take_journal map).0 ≡ some m)
    × Tracks nothing (restore_journal m (take_journal map).1)
restore_journal-replay_example = restore_journal-replay nothing map calls map-Tracks

abbrev first_keys : Page → Option Bytes
first_keys (leaf []) = some []
first_keys (leaf (e ∷ es)) = some e.key
first_keys _ = none

abbrev cached : MvMap
cached = record map { tree = Tree.new 2; cached_root = some (4, []) }

cached-IsFresh : IsFresh first_keys cached
unfolding Tree.new new_leaf
cached-IsFresh = (omega arith, inr refl)

abbrev put_late : MvMap
put_late = record cached {
  mod_count = 5;
  cached_root = some (5, []);
  tree = record (Tree.new 2) { root = leaf (record { key = 1 ∷ []; value = 5 ∷ [] } ∷ []) };
  journal = record { enabled = true; clear = false; changes = (1 ∷ [], some (5 ∷ [])) ∷ [] };
}

put_late_run :
    put_tree
      (get_serialized_root first_keys (put_count cached (1 ∷ []) (5 ∷ []))).0
      (1 ∷ [])
      (5 ∷ [])
    ≡ some put_late
unfolding put_tree put_count get_serialized_root Tree.new new_leaf Tree.put Tree.insert_page
    Changes.insert
put_late_run = refl

put_tree-stale_example : (get_serialized_root first_keys put_late).1 ≡ some []
unfolding Tree.new new_leaf
put_tree-stale_example =
    put_tree-stale first_keys cached put_late (1 ∷ []) (5 ∷ []) [] cached-IsFresh refl put_late_run
