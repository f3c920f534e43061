-- ===== src/Prelude/Assoc.antt =====
-- A JavaScript `Map`: an association list in insertion order, where a write to a key that is there
-- keeps its place.
use mathlib.Core.Logic.{inl, inr}
use mathlib.Core.Bool.{false}
use mathlib.Core.Path.{◌≡◌, refl}
use mathlib.Core.List.{List, [], ◌∷◌}
use mathlib.Core.Option.{Option, none, some}
use native.Mathlib.Omega.{arith}
use hyper_solid.Prelude.Tests.{if◌then◌else◌, Bool-cases}
use hyper_solid.Prelude.Lists.{All}
use hyper_solid.Prelude.Keys.{Eq, ◌==◌}

abbrev pub Dict {ℓ κ} : Type ℓ → Type κ → Type (ℓ ⊔ κ)
Dict K V = List (K × V)

-- What holds of every value of a map holds of one that is looked up.
abbrev pub Given {κ μ} : {V : Type κ} → (V → Type μ) → Option V → Type μ
Given P none = Unit
Given P (some v) = P v

module _ {ℓ κ} {K : Type ℓ} {V : Type κ} ⦃e : Eq K⦄ where
  abbrev pub lookup : K → Dict K V → Option V
  lookup k [] = none
  lookup k ((j, v) ∷ d) = if j == k then some v else lookup k d

  -- `map.set(k, v)`
  abbrev pub insert : K → V → Dict K V → Dict K V
  insert k v [] = (k, v) ∷ []
  insert k v ((j, w) ∷ d) = if j == k then (j, v) ∷ d else (j, w) ∷ insert k v d

  -- `map.delete(k)`
  abbrev pub erase : K → Dict K V → Dict K V
  erase k [] = []
  erase k ((j, w) ∷ d) = if j == k then erase k d else (j, w) ∷ erase k d

  pub lookup-insert :
      (k j : K) (v : V) (d : Dict K V)
      → lookup j (insert k v d) ≡ (if k == j then some v else lookup j d)
  lookup-insert k j v [] = refl
  lookup-insert k j v ((i, w) ∷ d) =
      ground (arith, e.same_iff k j, e.same_iff i k, e.same_iff i j, lookup-insert k j v d)

  pub lookup-insert_self : (k : K) (v : V) (d : Dict K V) → lookup k (insert k v d) ≡ some v
  lookup-insert_self k v d = rw (lookup-insert k k v d, (e.same_iff k k).1 refl)

  pub lookup-insert_other :
      (k j : K) (v : V) (d : Dict K V) → (k == j) ≡ false → lookup j (insert k v d) ≡ lookup j d
  lookup-insert_other k j v d h = rw (lookup-insert k j v d, h)

  pub lookup-erase :
      (k j : K) (d : Dict K V) → lookup j (erase k d) ≡ (if k == j then none else lookup j d)
  lookup-erase k j [] = ground arith
  lookup-erase k j ((i, w) ∷ d) =
      ground (arith, e.same_iff k j, e.same_iff i k, e.same_iff i j, lookup-erase k j d)

  pub All-insert {μ} :
      (P : V → Type μ) (k : K) (v : V) (d : Dict K V)
      → P v
      → All (λ kv. P kv.1) d
      → All (λ kv. P kv.1) (insert k v d)
  All-insert P k v [] p ps = (p, tt)
  All-insert P k v ((j, w) ∷ d) p (q, ps) = elim (Bool-cases (j == k)) [
    | inl h ↦ rw h (p, ps)
    | inr h ↦ rw h (q, All-insert P k v d p ps)
  ]

  pub All-erase {μ} :
      (P : V → Type μ) (k : K) (d : Dict K V)
      → All (λ kv. P kv.1) d
      → All (λ kv. P kv.1) (erase k d)
  All-erase P k [] ps = tt
  All-erase P k ((j, w) ∷ d) (q, ps) = elim (Bool-cases (j == k)) [
    | inl h ↦ rw h (All-erase P k d ps)
    | inr h ↦ rw h (q, All-erase P k d ps)
  ]

  pub All-lookup {μ} :
      (P : V → Type μ) (k : K) (d : Dict K V) → All (λ kv. P kv.1) d → Given P (lookup k d)
  All-lookup P k [] ps = tt
  All-lookup P k ((j, w) ∷ d) (q, ps) = elim (Bool-cases (j == k)) [
    | inl h ↦ rw h q
    | inr h ↦ rw h (All-lookup P k d ps)
  ]
