-- ===== src/Prelude/HashMap.antt =====
-- `std::collections::HashMap` with `u64`, `u32` or `usize` keys, as an association list. The code
-- that is modelled never depends on the order of iteration.
use h2database_rust.Prelude.Tests.{◌==◌, if◌then◌else◌}
use Prim.Native.Nat.{ℕ}
use mathlib.Core.Path.{◌≡◌}
use mathlib.Core.Option.{Option, none, some}
use mathlib.Core.List.{List, [], ◌∷◌}
use native.Mathlib.Omega.{arith}

abbrev pub HashMap {ℓ} : Type ℓ → Type ℓ
HashMap V = List (ℕ × V)

module _ {ℓ} {V : Type ℓ} where
  unfoldable pub get : HashMap V → ℕ → Option V
  get [] k = none
  get ((j, v) ∷ m) k = if j == k then some v else get m k

  unfoldable pub remove : HashMap V → ℕ → HashMap V
  remove [] k = []
  remove ((j, v) ∷ m) k = let rest = remove m k in if j == k then rest else (j, v) ∷ rest

  unfoldable pub insert : HashMap V → ℕ → V → HashMap V
  unfolding remove
  insert m k v = (k, v) ∷ remove m k

  pub get-remove :
      (m : HashMap V) (k j : ℕ) → get (remove m k) j ≡ (if k == j then none else get m j)
  unfolding get remove
  get-remove [] k j = ground arith
  get-remove ((i, v) ∷ m) k j = ground (arith, get-remove m k j)

  pub get-insert :
      (m : HashMap V) (k j : ℕ) (v : V)
      → get (insert m k v) j ≡ (if k == j then some v else get m j)
  unfolding get insert
  get-insert m k j v = ground (arith, get-remove m k j)

pub ruleset map_laws = (get-remove, get-insert)
