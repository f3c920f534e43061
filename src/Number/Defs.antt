-- ===== src/Number/Defs.antt =====
-- The operations of a JavaScript `number` that the code uses, and the laws of its comparisons.
use hyper_solid.Prelude.{ℕ, String, Bool, true, not, ◌≡◌, ◌⊎◌}

pub record Number (N : Type 0) : Type 0 where
  -- an integer literal, or an integer that the code counts by
  pub of_ℕ : ℕ → N
  pub add : N → N → N
  pub sub : N → N → N
  pub mul : N → N → N
  pub div : N → N → N
  -- `<`, `<=` and `===`; `a > b` is `lt b a`, and `a >= b` is `le b a`
  pub lt : N → N → Bool
  pub le : N → N → Bool
  pub eq : N → N → Bool
  -- `Number.isFinite`, `Math.abs`, `Math.floor`, `Math.round`, `Math.max`, `Math.min`
  pub is_finite : N → Bool
  pub abs : N → N
  pub floor : N → N
  pub round : N → N
  pub largest : N → N → N
  pub smallest : N → N → N
  -- the text of the number in a template literal
  pub show : N → String

-- What IEEE 754 says of the comparisons, with NaN as the value that is not `<=` itself.
pub record IsOrdered (N : Type 0) ⦃num : Number N⦄ : Type 0 where
  pub refl_of_le : (x y : N) → num.le x y ≡ true → (num.le x x ≡ true) × (num.le y y ≡ true)
  pub le_trans : (x y z : N) → num.le x y ≡ true → num.le y z ≡ true → num.le x z ≡ true
  pub le_total :
      (x y : N) → num.le x x ≡ true → num.le y y ≡ true → (num.le x y ≡ true) ⊎ (num.le y x ≡ true)
  pub lt-eq-not_le :
      (x y : N) → num.le x x ≡ true → num.le y y ≡ true → num.lt x y ≡ not (num.le y x)
  pub lt_num : (x y : N) → num.lt x y ≡ true → (num.le x x ≡ true) × (num.le y y ≡ true)
  pub finite_num : (x : N) → num.is_finite x ≡ true → num.le x x ≡ true
  -- the literals are numbers
  pub of_ℕ_num : (n : ℕ) → num.le (num.of_ℕ n) (num.of_ℕ n) ≡ true
  -- `Math.max` and `Math.min` away from NaN give one of the two, on its side of both
  pub largest_lem :
      (x y : N)
      → num.le x x ≡ true
      → num.le y y ≡ true
      → (num.le x (num.largest x y) ≡ true) × (num.le y (num.largest x y) ≡ true)
  pub smallest_lem :
      (x y : N)
      → num.le x x ≡ true
      → num.le y y ≡ true
      → (num.le (num.smallest x y) x ≡ true) × (num.le (num.smallest x y) y ≡ true)
