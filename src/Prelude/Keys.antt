-- ===== src/Prelude/Keys.antt =====
-- `===` on the keys of a map, as an interface with its law.
use Prim.Native.Nat.{ℕ}
use Prim.Native.String.{String}
use mathlib.Core.Path.{◌≡◌}
use mathlib.Core.Logic.{◌↔◌}
use mathlib.Core.Bool.{Bool, true}
use text.Mathlib.Text.{◌==◌ as string_eqb}
use text.Mathlib.TextEquality.{eq_iff}
use hyper_solid.Prelude.Tests.{nat_eqb, nat_eqb_iff}

module _ {ℓ} (K : Type ℓ) where
  pub record Eq : Type ℓ where
    pub same : K → K → Bool
    pub same_iff : (j k : K) → (same j k ≡ true) ↔ (j ≡ k)

instance abbrev pub string_eq : Eq String
string_eq = record { same_iff = eq_iff; same = string_eqb }

instance abbrev pub nat_eq : Eq ℕ
nat_eq = record { same_iff = nat_eqb_iff; same = nat_eqb }

module _ {ℓ} {K : Type ℓ} ⦃keys : Eq K⦄ where
  infix 50 ◌==◌
  abbrev pub ◌==◌ : K → K → Bool
  j == k = keys.same j k
