-- ===== src/Prelude/Sets.antt =====
-- A JavaScript `Set` of keys, as the list of its members in insertion order.
use mathlib.Core.Path.{◌≡◌, refl, ap}
use mathlib.Core.Logic.{inl, inr}
use mathlib.Core.Bool.{Bool, true, false, not, ◌&&◌, ◌||◌}
use mathlib.Core.List.{List, [], ◌∷◌}
use native.Mathlib.Omega.{arith}
use hyper_solid.Prelude.Tests.{if◌then◌else◌, Bool-cases}
use hyper_solid.Prelude.Keys.{Eq, ◌==◌}
use hyper_solid.Prelude.Lists.{keep}

module _ {ℓ} {K : Type ℓ} ⦃e : Eq K⦄ where
  -- `set.has(k)`, `xs.includes(k)`
  abbrev pub has : K → List K → Bool
  has k [] = false
  has k (j ∷ js) = j == k || has k js

  -- `[...new Set(ks)]`, past the members already taken
  abbrev dedup_past : List K → List K → List K
  dedup_past seen [] = []
  dedup_past seen (k ∷ ks) = if has k seen then dedup_past seen ks else k ∷ dedup_past (k ∷ seen) ks

  abbrev pub dedup : List K → List K
  dedup ks = dedup_past [] ks

  -- No key stands twice in the list.
  abbrev pub distinct : List K → Bool
  distinct [] = true
  distinct (k ∷ ks) = not (has k ks) && distinct ks

  has-dedup_past :
      (j : K) (seen ks : List K) → has j (dedup_past seen ks) ≡ (has j ks && not (has j seen))
  has-dedup_past j seen [] = refl
  has-dedup_past j seen (k ∷ ks) =
      ground (arith, e.same_iff k j, has-dedup_past j seen ks, has-dedup_past j (k ∷ seen) ks)

  distinct-dedup_past : (seen ks : List K) → distinct (dedup_past seen ks) ≡ true
  distinct-dedup_past seen [] = refl
  distinct-dedup_past seen (k ∷ ks) = ground (
    arith,
    e.same_iff k k,
    has-dedup_past k (k ∷ seen) ks,
    distinct-dedup_past seen ks,
    distinct-dedup_past (k ∷ seen) ks,
  )

  pub has-dedup : (j : K) (ks : List K) → has j (dedup ks) ≡ has j ks
  has-dedup j ks = ground (arith, has-dedup_past j [] ks)

  pub distinct-dedup : (ks : List K) → distinct (dedup ks) ≡ true
  distinct-dedup ks = distinct-dedup_past [] ks

  pub has-keep : (p : K → Bool) (j : K) (ks : List K) → has j (keep p ks) ≡ (has j ks && p j)
  has-keep p j [] = refl
  has-keep p j (k ∷ ks) = elim (Bool-cases (k == j)) [
    | inl h ↦ ground (arith, h, ap p ((e.same_iff k j).0 h), has-keep p j ks)
    | inr h ↦ ground (arith, h, has-keep p j ks)
  ]

  pub distinct-keep :
      (p : K → Bool) (ks : List K) → distinct ks ≡ true → distinct (keep p ks) ≡ true
  distinct-keep p [] d = refl
  distinct-keep p (k ∷ ks) d = ground (arith, has-keep p k ks, distinct-keep p ks)
