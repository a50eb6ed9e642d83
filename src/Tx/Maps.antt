-- ===== src/Tx/Maps.antt =====
-- The maps of a store as transactions use them: `open_map(name)` of
-- crates/h2-mvstore/src/store.rs and the methods of crates/h2-mvstore/src/map.rs, as an interface.
pub mod Trees
use Prim.Native.Nat.{Ordering}
use text.Mathlib.Text.{◌==◌ as str_eq}
use h2database_rust.Prelude.{
  ℕ, Bool, true, false, ◌&&◌, Option, none, some, List, String, ◌≡◌, if◌then◌else◌,
}
use h2database_rust.Bytes.Order.{Bytes, cmp}
use h2database_rust.Tree.{Entry}
use h2database_rust.Tree.Entries.{lookup, IsAscending}
use h2database_rust.Tree.Scan.{Bound, starts_with}
use h2database_rust.Tree.Scan.Keep.{keep}
use h2database_rust.Tree.Scan.Range.{in_range}

abbrev pub same_key : Bytes → Bytes → Bool
same_key k j = elim (cmp k j) [ Ordering.lt ↦ false | Ordering.eq ↦ true | Ordering.gt ↦ false ]

-- Whether two names and keys are the same place.
unfoldable pub same_place : String → Bytes → String → Bytes → Bool
same_place m k n j = str_eq m n && same_key k j

pub record Maps : Type 1 where
  pub Store : Type 0
  pub get : Store → String → Bytes → Option Bytes
  pub put : Store → String → Bytes → Bytes → Store
  pub remove : Store → String → Bytes → Store
  pub scan_all : Store → String → List Entry
  pub scan_prefix : Store → String → Bytes → List Entry
  pub scan_range : Store → String → Bound → Bound → List Entry
  pub get-put :
      (s : Store) (m : String) (k v : Bytes) (n : String) (j : Bytes)
      → get (put s m k v) n j ≡ (if same_place m k n j then some v else get s n j)
  pub get-remove :
      (s : Store) (m : String) (k : Bytes) (n : String) (j : Bytes)
      → get (remove s m k) n j ≡ (if same_place m k n j then none else get s n j)
  pub lookup-scan_all : (s : Store) (m : String) (k : Bytes) → lookup (scan_all s m) k ≡ get s m k
  pub scan_all-IsAscending : (s : Store) (m : String) → IsAscending (scan_all s m)
  pub scan_prefix-keep :
      (s : Store) (m : String) (p : Bytes)
      → scan_prefix s m p ≡ keep (λ k. starts_with k p) (scan_all s m)
  pub scan_range-keep :
      (s : Store) (m : String) (start end : Bound)
      → scan_range s m start end ≡ keep (in_range start end) (scan_all s m)
