-- ===== src/Map.antt =====
-- crates/h2-mvstore/src/map.rs: a named map over a tree, with the journal of its changes since the
-- last checkpoint and a cache of its serialized root. Each method is one step: the journal's lock
-- is held through it. A method is `none` where the tree panics.
pub mod Changes
pub mod Journal
pub mod Cache
use h2database_rust.Prelude.{
  ℕ, ◌+◌, Bool, true, false, ◌&&◌, Option, none, some, List, [], ◌∷◌, String, ◌==◌, if◌then◌else◌,
}
use h2database_rust.Bytes.Order.{Bytes}
use h2database_rust.Tree
use h2database_rust.Tree.{Page, MvTree, default_page_split_size}
use Changes.{ChangeMap}

pub record MapJournal : Type 0 where
  pub enabled : Bool
  pub clear : Bool
  pub changes : ChangeMap

-- A call of the change sink.
pub data SinkCall : Type 0 where
  record_put : String → Bytes → Bytes → SinkCall
  record_remove : String → Bytes → SinkCall
  record_clear : String → SinkCall

-- The calls that the sink has taken, newest first, if there is a sink.
pub record MvMap : Type 0 where
  pub name : String
  pub tree : MvTree
  pub sink : Option (List SinkCall)
  pub mod_count : ℕ
  pub cached_root : Option (ℕ × Bytes)
  pub journal : MapJournal

unfoldable pub reset : MapJournal → MapJournal
reset j = record j { clear = false; changes = [] }

unfoldable pub new : String → MvTree → MvMap
new name tree = record {
  name = name;
  tree = tree;
  sink = none;
  mod_count = 1;
  cached_root = none;
  journal = record { enabled = false; clear = false; changes = [] };
}

unfoldable pub sink_call : Option (List SinkCall) → SinkCall → Option (List SinkCall)
sink_call none call = none
sink_call (some calls) call = some (call ∷ calls)

unfoldable pub journal_change : MapJournal → Bytes → Option Bytes → MapJournal
journal_change j key value =
    if j.enabled then record j { changes = Changes.insert j.changes key value } else j

unfoldable pub get : MvMap → Bytes → Option (Option Bytes)
get m key = Tree.get m.tree key

-- `put` tells the sink and counts the change, and then writes the tree and the journal. The lock of
-- the tree is taken for the second part only.
unfoldable pub put_count : MvMap → Bytes → Bytes → MvMap
unfolding sink_call
put_count m key value = record m {
  sink = sink_call m.sink (record_put m.name key value);
  mod_count = m.mod_count + 1;
}

unfoldable pub put_tree : MvMap → Bytes → Bytes → Option MvMap
unfolding journal_change
put_tree m key value = elim (Tree.put m.tree key value) [
  | none ↦ none
  | some tree ↦ some (record m { tree = tree; journal = journal_change m.journal key (some value) })
]

unfoldable pub put : MvMap → Bytes → Bytes → Option MvMap
unfolding put_count put_tree
put m key value = put_tree (put_count m key value) key value

unfoldable pub journal_removed : MapJournal → Bytes → Option Bytes → MapJournal
unfolding journal_change
journal_removed j key none = j
journal_removed j key (some _) = journal_change j key none

unfoldable pub remove : MvMap → Bytes → Option (MvMap × Option Bytes)
unfolding sink_call journal_removed
remove m key = elim (Tree.remove m.tree key) [
  | none ↦ none
  | some (tree, removed) ↦ some (
    record m {
      sink = sink_call m.sink (record_remove m.name key);
      mod_count = m.mod_count + 1;
      tree = tree;
      journal = journal_removed m.journal key removed;
    },
    removed,
  )
]

unfoldable pub clear : MvMap → MvMap
unfolding sink_call
clear m = record m {
  sink = sink_call m.sink (record_clear m.name);
  mod_count = m.mod_count + 1;
  tree = Tree.new default_page_split_size;
  journal =
      if m.journal.enabled then record m.journal { clear = true; changes = [] } else m.journal;
}

-- bincode is an argument; `none` is `H2Error::Serialization`.
unfoldable pub get_serialized_root : (Page → Option Bytes) → MvMap → MvMap × Option Bytes
get_serialized_root serialize m =
    let fresh : MvMap × Option Bytes = elim (serialize m.tree.root) [
      | none ↦ (m, none)
      | some bytes ↦ (record m { cached_root = some (m.mod_count, bytes) }, some bytes)
    ] in
    elim m.cached_root [
      | none ↦ fresh
      | some (mod_cnt, bytes) ↦ if mod_cnt == m.mod_count then (m, some bytes) else fresh
    ]

unfoldable pub take_journal : MvMap → MvMap × MapJournal
take_journal m = (
  record m { journal = record { enabled = m.journal.enabled; clear = false; changes = [] } },
  m.journal,
)

unfoldable pub set_journaling : MvMap → Bool → MvMap
set_journaling m enabled = record m { journal = record m.journal { enabled = enabled } }

unfoldable pub merge_journal : MapJournal → MapJournal → MapJournal
merge_journal current old =
    if current.clear
    then current
    else if old.clear
    then record current { clear = true; changes = Changes.extend old.changes current.changes }
    else record current { changes = Changes.or_insert_all current.changes old.changes }

unfoldable pub restore_journal : MvMap → MapJournal → MvMap
unfolding merge_journal
restore_journal m old = record m { journal = merge_journal m.journal old }
