-- ===== src/Map/Cache.antt =====
-- The cache of the serialized root, and the moment of a `put` at which it can go stale.
use mathlib.Core.Path.{subst}
use h2database_rust.Prelude.{
  ℕ, ◌+◌, ◌≤◌, ◌<◌, false, Option, none, some, ◌==◌, ◌≡◌, refl, ap, sym, ◌∙◌, arith, inl, inr,
  Bool-cases, Option-cases, ◌⊎◌,
}
use h2database_rust.Bytes.Order.{Bytes}
use h2database_rust.Tree
use h2database_rust.Tree.{Page, MvTree}
use h2database_rust.Map.{MvMap, put, put_count, put_tree, remove, clear, get_serialized_root}
use h2database_rust.Map.Journal.{Call, put_call, remove_call, clear_call, after_call}

-- A cached root was counted no later than the last change, and is the root's if no change came
-- after it.
abbrev pub IsFreshRoot : (Page → Option Bytes) → Page → ℕ → Option (ℕ × Bytes) → Type 0
IsFreshRoot serialize root mod_count none = Unit
IsFreshRoot serialize root mod_count (some (n, bytes)) =
    (n ≤ mod_count) × ((n < mod_count) ⊎ (serialize root ≡ some bytes))

abbrev pub IsFresh : (Page → Option Bytes) → MvMap → Type 0
IsFresh serialize m = IsFreshRoot serialize m.tree.root m.mod_count m.cached_root

-- Whatever the cache holds, `get_serialized_root` returns the serialized root, and leaves the cache
-- fresh.
pub get_serialized_root-IsFresh :
    (serialize : Page → Option Bytes) (m : MvMap)
    → IsFresh serialize m
    → ((get_serialized_root serialize m).1 ≡ serialize m.tree.root)
      × IsFresh serialize (get_serialized_root serialize m).0
unfolding get_serialized_root
get_serialized_root-IsFresh serialize m f = go m.cached_root refl f
  where
    Claim : Type 0
    Claim =
        ((get_serialized_root serialize m).1 ≡ serialize m.tree.root)
        × IsFresh serialize (get_serialized_root serialize m).0

    anew :
        IsFresh serialize m
        → (get_serialized_root serialize m ≡ elim (serialize m.tree.root) [
          | none ↦ (m, none)
          | some bytes ↦ (record m { cached_root = some (m.mod_count, bytes) }, some bytes)
        ])
        → Claim
    anew g e = elim (Option-cases (serialize m.tree.root)) [
      | inl n ↦
          let q : get_serialized_root serialize m ≡ (m, none) = e ∙ rw n refl in
          (ap (λ r. r.1) q ∙ sym n, subst (λ r. IsFresh serialize r.0) (sym q) g)
      | inr (bytes, s) ↦
          let q : get_serialized_root serialize m
              ≡ (record m { cached_root = some (m.mod_count, bytes) }, some bytes) =
            e ∙ rw s refl in
          (ap (λ r. r.1) q ∙ sym s, subst (λ r. IsFresh serialize r.0) (sym q) (omega arith, inr s))
    ]

    go :
        (o : Option (ℕ × Bytes))
        → m.cached_root ≡ o
        → IsFreshRoot serialize m.tree.root m.mod_count o
        → Claim
    go none e g = anew (rw e g) (rw (e, get_serialized_root) refl)
    go (some (n, bytes)) e g = elim (Bool-cases (n == m.mod_count)) [
      | inl here ↦
          let p : n ≡ m.mod_count = ground (arith, here) in
          let q : get_serialized_root serialize m ≡ (m, some bytes) =
            simp (get_serialized_root, e, here) in
          let now : serialize m.tree.root ≡ some bytes = elim g.1 [
            | inl less ↦ absurd (omega (arith, less, p))
            | inr same ↦ same
          ] in
          (ap (λ r. r.1) q ∙ sym now, subst (λ r. IsFresh serialize r.0) (sym q) (rw e g))
      | inr not ↦ anew (rw e g) (rw (e, get_serialized_root) (rw not refl))
    ]

older :
    (serialize : Page → Option Bytes) (root new_root : Page) (n : ℕ) (o : Option (ℕ × Bytes))
    → IsFreshRoot serialize root n o
    → IsFreshRoot serialize new_root (n + 1) o
older serialize root new_root n none f = tt
older serialize root new_root n (some (k, bytes)) f = (omega (arith, f.0), inl (omega (arith, f.0)))

moved :
    (serialize : Page → Option Bytes) (m m' : MvMap)
    → IsFresh serialize m
    → m'.mod_count ≡ m.mod_count + 1
    → m'.cached_root ≡ m.cached_root
    → IsFresh serialize m'
moved serialize m m' f p q =
    rw (p, q) (older serialize m.tree.root m'.tree.root m.mod_count m.cached_root f)

-- Every call of a map that runs to its end with no read of the root in between keeps the cache
-- fresh.
pub after_call-IsFresh :
    (serialize : Page → Option Bytes) (c : Call) (m m' : MvMap)
    → IsFresh serialize m
    → after_call c m ≡ some m'
    → IsFresh serialize m'
unfolding after_call put put_count put_tree remove clear
after_call-IsFresh serialize (put_call k v) m m' f h = elim (Option-cases (Tree.put m.tree k v)) [
  | inl n ↦ absurd (ground (arith, n, h))
  | inr (t, s) ↦ moved serialize m m' f (ground (arith, s, h)) (ground (arith, s, h))
]
after_call-IsFresh serialize (remove_call k) m m' f h = elim (Option-cases (Tree.remove m.tree k)) [
  | inl n ↦ absurd (ground (arith, n, h))
  | inr (r, s) ↦ moved serialize m m' f (ground (arith, s, h)) (ground (arith, s, h))
]
after_call-IsFresh serialize clear_call m m' f h =
    moved serialize m m' f (ground (arith, h)) (ground (arith, h))

-- A cached root with an older count is not used.
uncached :
    (serialize : Page → Option Bytes) (m : MvMap) (bytes : Bytes)
    → (n : ℕ) → IsFreshRoot serialize m.tree.root n m.cached_root
    → m.mod_count ≡ n + 1
    → serialize m.tree.root ≡ some bytes
    → (get_serialized_root serialize m).0 ≡ record m { cached_root = some (m.mod_count, bytes) }
unfolding get_serialized_root
uncached serialize m bytes n f c s = go m.cached_root refl f
  where
    go :
        (o : Option (ℕ × Bytes))
        → m.cached_root ≡ o
        → IsFreshRoot serialize m.tree.root n o
        → (get_serialized_root serialize m).0 ≡ record m { cached_root = some (m.mod_count, bytes) }
    go none e g = ground (arith, e, s)
    go (some (k, b)) e g =
        let not : (k == m.mod_count) ≡ false = ground (arith, c, g.0) in
        simp (get_serialized_root, e, not, s)

used :
    (serialize : Page → Option Bytes) (m : MvMap) (bytes : Bytes)
    → m.cached_root ≡ some (m.mod_count, bytes)
    → (get_serialized_root serialize m).1 ≡ some bytes
unfolding get_serialized_root
used serialize m bytes e = ground (arith, e)

-- A read of the root between the two parts of a `put` caches the old root under the new count:
-- `get_serialized_root` then returns, after the `put`, the root as it was before it.
pub put_tree-stale :
    (serialize : Page → Option Bytes) (m m' : MvMap) (key value old : Bytes)
    → IsFresh serialize m
    → serialize m.tree.root ≡ some old
    → put_tree (get_serialized_root serialize (put_count m key value)).0 key value ≡ some m'
    → (get_serialized_root serialize m').1 ≡ some old
unfolding put_tree put_count
put_tree-stale serialize m m' key value old f s h =
    let m1 = put_count m key value in
    let cached = uncached serialize m1 old m.mod_count f refl s in
    let h' : put_tree (record m1 { cached_root = some (m1.mod_count, old) }) key value ≡ some m' =
      subst (λ x. put_tree x key value ≡ some m') cached h in
    elim (Option-cases (Tree.put m.tree key value)) [
      | inl n ↦ absurd (ground (arith, n, h'))
      | inr (t, p) ↦ used serialize m' old (ground (arith, p, h'))
    ]
