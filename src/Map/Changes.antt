-- ===== src/Map/Changes.antt =====
-- `HashMap<Vec<u8>, Option<Vec<u8>>>`, the changes of a journal, as an association list; `none` is a
-- removal. The order of iteration is no part of what is proved.

use h2database_rust.Prelude.{Option, none, some, List, [], ◌∷◌, ◌≡◌, refl, arith}
use h2database_rust.Bytes.Order.{Bytes, cmp_eq, cmp_self}
use h2database_rust.Tree.Model.{if_same}

abbrev pub ChangeMap : Type 0
ChangeMap = List (Bytes × Option Bytes)

unfoldable pub find : ChangeMap → Bytes → Option (Option Bytes)
find [] key = none
find ((k, v) ∷ m) key = if_same k key (some v) (find m key)

unfoldable pub delete : ChangeMap → Bytes → ChangeMap
delete [] key = []
delete ((k, v) ∷ m) key = let rest = delete m key in if_same k key rest ((k, v) ∷ rest)

unfoldable pub insert : ChangeMap → Bytes → Option Bytes → ChangeMap
unfolding delete
insert m key value = (key, value) ∷ delete m key

-- `changes.extend(recent)`
unfoldable pub extend : ChangeMap → ChangeMap → ChangeMap
unfolding insert
extend m [] = m
extend m ((k, v) ∷ recent) = insert (extend m recent) k v

-- `current.changes.entry(key).or_insert(value)` for all changes of the old journal.
unfoldable pub or_insert_all : ChangeMap → ChangeMap → ChangeMap
unfolding insert find
or_insert_all m [] = m
or_insert_all m ((k, v) ∷ old) =
    let rest = or_insert_all m old in elim (find m k) [ none ↦ insert rest k v | some _ ↦ rest ]

find-delete : (m : ChangeMap) (k j : Bytes) → find (delete m k) j ≡ if_same k j none (find m j)
unfolding find delete
find-delete [] k j = ground arith
find-delete ((i, v) ∷ m) k j =
    ground (arith, find-delete m k j, cmp_eq i k, cmp_eq i j, cmp_eq k j, cmp_self k, cmp_self j)

pub find-insert :
    (m : ChangeMap) (k : Bytes) (v : Option Bytes) (j : Bytes)
    → find (insert m k v) j ≡ if_same k j (some v) (find m j)
unfolding find insert
find-insert m k v j = ground (arith, find-delete m k j)

pub find-extend :
    (m recent : ChangeMap) (j : Bytes)
    → find (extend m recent) j ≡ elim (find recent j) [ none ↦ find m j | some v ↦ some v ]
unfolding find extend
find-extend m [] j = refl
find-extend m ((k, v) ∷ recent) j =
    ground (arith, find-insert (extend m recent) k v j, find-extend m recent j)

pub find-or_insert_all :
    (m old : ChangeMap) (j : Bytes)
    → find (or_insert_all m old) j ≡ elim (find m j) [ none ↦ find old j | some v ↦ some v ]
unfolding find or_insert_all
find-or_insert_all m [] j = ground arith
find-or_insert_all m ((k, v) ∷ old) j =
    ground (arith, find-insert (or_insert_all m old) k v j, find-or_insert_all m old j, cmp_eq k j)
