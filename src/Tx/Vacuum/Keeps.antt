-- ===== src/Tx/Vacuum/Keeps.antt =====
-- The vacuum takes nothing away that an active transaction can read, whatever other threads do to
-- other entries meanwhile.

use h2database_rust.Prelude.{
  ℕ, ◌+◌, ◌≤◌, Option, none, some, List, [], ◌∷◌, String, if◌then◌else◌, All, ◌≡◌, refl, ap, sym,
  ◌∙◌,
}
use h2database_rust.Prelude.HashMap
use h2database_rust.Prelude.HashMap.{HashMap}
use h2database_rust.Bytes.Order.{Bytes, ◌≺◌}
use h2database_rust.Tree.{Entry}
use h2database_rust.Tree.Entries.{lookup, IsAscending}
use h2database_rust.Tx.Codec.{Codec}
use h2database_rust.Tx.Maps.{Maps}
use h2database_rust.Tx.Engine.{
  transaction, err, Transaction, Engine, oldest_active_version, is_open,
}
use h2database_rust.Tx.Reads.{get, get_bytes}
use h2database_rust.Tx.Writes.Undo.{IsSound}
use h2database_rust.Tx.Vacuum.{vacuum_entry, after_others, later, vacuum_entries, vacuum_map}
use h2database_rust.Tx.Vacuum.Entries.{
  oldest-le, All-both, lookup_each, SameFrom, Vacuumed, vacuum_entry-Vacuumed,
}

module _ (maps : Maps) (codec : Codec) where
  open maps use {Store}

  -- A step of another thread that leaves the values that are to be looked at, the soundness of the
  -- store, and what a reader sees at a key.
  pub record IsApart (reader : Transaction) (n : String) (j : Bytes) (m : String) (es : List Entry)
      (f : Engine Store → Engine Store) : Type 0 where
    pub sound : (e : Engine Store) → IsSound maps codec e.store → IsSound maps codec (f e).store
    pub entries :
        (e : Engine Store) → All (λ x. maps.get (f e).store m x.key ≡ maps.get e.store m x.key) es
    pub reads :
        (e : Engine Store)
        → get_bytes codec reader (maps.get (f e).store n j)
          ≡ get_bytes codec reader (maps.get e.store n j)

  module _ (reader : Transaction) (n : String) (j : Bytes) (m : String) where
    fewer :
        (x : Entry) (es : List Entry) (f : Engine Store → Engine Store)
        → IsApart reader n j m (x ∷ es) f
        → IsApart reader n j m es f
    fewer x es f p = record { sound = p.sound; entries = λ e. (p.entries e).1; reads = p.reads }

    -- What the store keeps: it is sound, the entries stand as they were scanned, and the reader sees
    -- what it saw.
    Kept : List Entry → Engine Store → Engine Store → Type 0
    Kept es e e' =
        IsSound maps codec e'.store
        × All (λ x. maps.get e'.store m x.key ≡ some x.value) es
        × (get_bytes codec reader (maps.get e'.store n j)
            ≡ get_bytes codec reader (maps.get e.store n j))

    others-Kept :
        (others : List (Engine Store → Engine Store)) (e : Engine Store) (es : List Entry)
        → All (IsApart reader n j m es) others
        → IsSound maps codec e.store
        → All (λ x. maps.get e.store m x.key ≡ some x.value) es
        → Kept es e (after_others maps codec others e)
          × All (IsApart reader n j m es) (later maps codec others)
    unfolding Kept
    others-Kept [] e es apart sound at = ((sound, at, refl), tt)
    others-Kept (f ∷ others) e es (p, rest) sound at = (
      (
        p.sound e sound,
        All-both (λ x. maps.get (f e).store m x.key ≡ maps.get e.store m x.key)
            (λ x. maps.get e.store m x.key ≡ some x.value)
            (λ x. maps.get (f e).store m x.key ≡ some x.value) es (λ x q h. q ∙ h) (p.entries e) at,
        p.reads e,
      ),
      rest,
    )

    All-fewer :
        (x : Entry) (es : List Entry) (others : List (Engine Store → Engine Store))
        → All (IsApart reader n j m (x ∷ es)) others
        → All (IsApart reader n j m es) others
    All-fewer x es [] a = tt
    All-fewer x es (f ∷ others) (p, rest) = (fewer x es f p, All-fewer x es others rest)

    module _ (z : ℕ) (seen : z ≤ reader.snapshot_version) where
      Reads : Engine Store → Engine Store → Type 0
      Reads e e' =
          IsSound maps codec e'.store
          × (get_bytes codec reader (maps.get e'.store n j)
              ≡ get_bytes codec reader (maps.get e.store n j))

      vacuum_entries-Reads :
          (others : List (Engine Store → Engine Store)) (e : Engine Store) (c : ℕ) (es : List Entry)
          → All (IsApart reader n j m es) others
          → IsSound maps codec e.store
          → IsAscending es
          → All (λ x. maps.get e.store m x.key ≡ some x.value) es
          → Reads e (vacuum_entries maps codec others e m z c es).0
      unfolding vacuum_entries Reads Vacuumed SameFrom Kept
      vacuum_entries-Reads others e c [] apart sound a at = (sound, refl)
      vacuum_entries-Reads others e c (x ∷ es) apart sound a at =
          let ((sound1, at1, same1), apart1) = others-Kept others e (x ∷ es) apart sound at in
          step sound1 at1 same1
            (λ e2 c'.
              vacuum_entries-Reads (later maps codec others) e2 c' es
                (All-fewer x es (later maps codec others) apart1))
            (vacuum_entry maps codec (after_others maps codec others e).store m z x) refl
        where
          e1 : Engine Store
          e1 = after_others maps codec others e

          step :
              IsSound maps codec e1.store
              → All (λ y. maps.get e1.store m y.key ≡ some y.value) (x ∷ es)
              → get_bytes codec reader (maps.get e1.store n j)
                ≡ get_bytes codec reader (maps.get e.store n j)
              → ((e2 : Engine Store) (c' : ℕ)
                  → IsSound maps codec e2.store
                  → IsAscending es
                  → All (λ y. maps.get e2.store m y.key ≡ some y.value) es
                  → Reads e2 (vacuum_entries maps codec (later maps codec others) e2 m z c' es).0)
              → (o : Option (Store × ℕ)) → vacuum_entry maps codec e1.store m z x ≡ o
              → Reads e (vacuum_entries maps codec others e m z c (x ∷ es)).0
          step sound1 at1 same1 ih none q = rw (q, vacuum_entries) (sound1, same1)
          step sound1 at1 same1 ih (some (s, d)) q =
              let (sound2, same2, rest) =
                vacuum_entry-Vacuumed maps codec e1.store m z x s d sound1 at1.0 q in
              let at2 =
                All-both (λ y. x.key ≺ y.key) (λ y. maps.get e1.store m y.key ≡ some y.value)
                  (λ y. maps.get s m y.key ≡ some y.value) es (λ y p q. rest y.key p ∙ q) a.0
                  at1.1 in
              let (sound3, same3) = ih (record e1 { store = s }) (c + d) sound2 a.1 at2 in
              rw (q, vacuum_entries) (sound3, same3 ∙ same2 reader n j seen ∙ same1)

  -- A vacuum of a map keeps all values of the store decodable, and an active transaction reads, at a
  -- key of any map, what it read before, whether the vacuum succeeds or fails. Between its steps
  -- other threads may do anything, as long as they keep the values of the store decodable, do not
  -- write the entries that the vacuum has scanned after it has scanned them, and do not change what
  -- the transaction reads at the key.
  pub vacuum_map-keeps :
      (others : List (Engine Store → Engine Store)) (e : Engine Store) (map_name : String)
      (reader : Transaction) (n : String) (j : Bytes)
      → IsSound maps codec e.store
      → HashMap.get e.active_transactions reader.tx_id ≡ some reader.snapshot_version
      → All (IsApart reader n j map_name []) others
      → All
          (IsApart reader n j map_name
            (maps.scan_all (after_others maps codec others e).store map_name))
          (later maps codec others)
      → IsSound maps codec (vacuum_map maps codec others e map_name).0.store
        × (get maps codec (vacuum_map maps codec others e map_name).0 reader n j
            ≡ get maps codec e reader n j)
  unfolding vacuum_map get Reads Kept
  vacuum_map-keeps others e map_name reader n j sound active calm apart =
      let e1 : Engine Store = after_others maps codec others e in
      let ((sound1, none_yet, same1), calm1) =
        others-Kept reader n j map_name others e [] calm sound tt in
      let es = maps.scan_all e1.store map_name in
      let ascending = maps.scan_all-IsAscending e1.store map_name in
      let at =
        All-both (λ x. lookup es x.key ≡ some x.value) (λ x. lookup es x.key ≡ some x.value)
          (λ x. maps.get e1.store map_name x.key ≡ some x.value) es
          (λ x p q. sym (maps.lookup-scan_all e1.store map_name x.key) ∙ p)
          (lookup_each es ascending) (lookup_each es ascending) in
      let (kept, same) =
        vacuum_entries-Reads reader n j map_name (oldest_active_version e)
          (oldest-le e reader.tx_id reader.snapshot_version active) (later maps codec others) e1 0
          es apart sound1 ascending at in
      (kept, ap (λ r. if is_open reader.status then r else err transaction) (same ∙ same1))
