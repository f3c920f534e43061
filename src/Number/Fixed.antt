-- ===== src/Number/Fixed.antt =====
-- A concrete number type for the tests and the witnesses: whole units with a sign.
use Prim.Native.String.{◌++◌}
use hyper_solid.Prelude.{
  ℕ, zero, suc, ◌+◌, ◌-◌, ◌*◌, ◌/◌, ◌%◌, String, Bool, true, arith, ltb, leb, if◌then◌else◌,
  nat_eqb,
}
use hyper_solid.Number.Defs.{Number, IsOrdered}

-- `negsuc n` is -(n + 1).
pub data ℤ : Type 0 where
  pos : ℕ → ℤ
  negsuc : ℕ → ℤ

abbrev pub Cents : Type 0
Cents = ℤ

abbrev pub pos_part : ℤ → ℕ
pos_part (pos n) = n
pos_part (negsuc n) = 0

abbrev pub neg_part : ℤ → ℕ
neg_part (pos n) = 0
neg_part (negsuc n) = suc n

-- a - b, as an integer
abbrev pub sub_ℕ : ℕ → ℕ → ℤ
sub_ℕ a b = if leb b a then pos (a - b) else negsuc (b - a - 1)

abbrev pub le_ℤ : ℤ → ℤ → Bool
le_ℤ a b = leb (pos_part a + neg_part b) (pos_part b + neg_part a)

abbrev pub lt_ℤ : ℤ → ℤ → Bool
lt_ℤ a b = ltb (pos_part a + neg_part b) (pos_part b + neg_part a)

abbrev pub eq_ℤ : ℤ → ℤ → Bool
eq_ℤ a b = nat_eqb (pos_part a + neg_part b) (pos_part b + neg_part a)

abbrev pub magnitude : ℤ → ℕ
magnitude a = pos_part a + neg_part a

-- a quotient rounded towards zero
abbrev pub div_ℤ : ℤ → ℤ → ℤ
div_ℤ a b =
    sub_ℕ
      (if le_ℤ (pos 0) a
        then (if le_ℤ (pos 0) b then magnitude a / magnitude b else 0)
        else (if le_ℤ (pos 0) b then 0 else magnitude a / magnitude b))
      (if le_ℤ (pos 0) a
        then (if le_ℤ (pos 0) b then 0 else magnitude a / magnitude b)
        else (if le_ℤ (pos 0) b then magnitude a / magnitude b else 0))

abbrev digit : ℕ → String
digit n =
    if nat_eqb n 0
    then "0"
    else if nat_eqb n 1
    then "1"
    else if nat_eqb n 2
    then "2"
    else if nat_eqb n 3
    then "3"
    else if nat_eqb n 4
    then "4"
    else if nat_eqb n 5
    then "5"
    else if nat_eqb n 6
    then "6"
    else if nat_eqb n 7
    then "7"
    else if nat_eqb n 8
    then "8"
    else "9"

-- The last digits of a number, as many as the fuel says: a time in milliseconds has thirteen.
show_digits : ℕ → ℕ → String
show_digits zero n = ""
show_digits (suc f) n =
    let rest = show_digits f (n / 10) in if ltb n 10 then digit n else rest ++ digit (n % 10)

unfoldable pub show_ℤ : ℤ → String
unfolding show_digits
show_ℤ a =
    if le_ℤ (pos 0) a then show_digits 20 (magnitude a) else "-" ++ show_digits 20 (magnitude a)

instance abbrev pub cents_number : Number ℤ
cents_number = record {
  of_ℕ = pos;
  add = λ a b. sub_ℕ (pos_part a + pos_part b) (neg_part a + neg_part b);
  sub = λ a b. sub_ℕ (pos_part a + neg_part b) (neg_part a + pos_part b);
  mul = λ a b.
      sub_ℕ (pos_part a * pos_part b + neg_part a * neg_part b)
        (pos_part a * neg_part b + neg_part a * pos_part b);
  div = div_ℤ;
  lt = lt_ℤ;
  le = le_ℤ;
  eq = eq_ℤ;
  is_finite = λ _. true;
  abs = λ a. pos (magnitude a);
  floor = λ a. a;
  round = λ a. a;
  largest = λ a b. if le_ℤ a b then b else a;
  smallest = λ a b. if le_ℤ a b then a else b;
  show = show_ℤ;
}

pub Cents-IsOrdered : IsOrdered ℤ
Cents-IsOrdered = record {
  refl_of_le = λ x y h. (ground arith, ground arith);
  le_trans = λ x y z h k. ground arith;
  le_total = λ x y h k. ground arith;
  lt-eq-not_le = λ x y h k. ground arith;
  lt_num = λ x y h. ground arith;
  finite_num = λ x h. ground arith;
  of_ℕ_num = λ n. ground arith;
  largest_lem = λ x y h k. ground arith;
  smallest_lem = λ x y h k. ground arith;
}
