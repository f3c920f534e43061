-- ===== src/Strategies/Values.antt =====
-- server/src/strategies/validate.ts: how it reads the fields of a request's JSON.
use hyper_solid.Prelude.{
  ℕ, String, Bool, true, false, ◌&&◌, Option, none, some, get_or, Dict, lookup, string_eq, ◌==◌,
  if◌then◌else◌, ltb,
}
use hyper_solid.Number.{Number}
use hyper_solid.Strategies.Types.{
  Side, buy, sell, Mode, long_only, symmetric, Direction, above, below,
}

-- A field of a JSON object: a number that is a natural is `whole`, and any other one is `number`.
pub data Value (N : Type 0) : Type 0 where
  absent : Value N
  null : Value N
  flag : Bool → Value N
  text : String → Value N
  whole : ℕ → Value N
  number : N → Value N
  other : Value N

pub data Checked (A : Type 0) : Type 0 where
  accepted : A → Checked A
  refused : String → Checked A

-- `if (o is wrong) return { ok: false, error };`
abbrev pub need : {A B : Type 0} → Option A → String → (A → Checked B) → Checked B
need none error k = refused error
need (some a) error k = k a

abbrev pub require : {B : Type 0} → Bool → String → Checked B → Checked B
require c error k = if c then k else refused error

module _ {N : Type 0} where
  abbrev pub field : String → Dict String (Value N) → Value N
  field name p = get_or (lookup name p) absent

  abbrev pub coin_of : Value N → Option String
  coin_of (text coin) = if coin == "" then none else some coin
  coin_of _ = none

  -- `p.deadMan !== undefined && typeof p.deadMan !== "boolean"` is the refusal.
  abbrev pub dead_man_of : Value N → Option Bool
  dead_man_of absent = some false
  dead_man_of (flag dead_man) = some dead_man
  dead_man_of _ = none

  abbrev pub side_of : Value N → Option Side
  side_of (text side) =
      if side == "buy" then some buy else if side == "sell" then some sell else none
  side_of _ = none

  abbrev pub direction_of : Value N → Option Direction
  direction_of (text direction) =
      if direction == "above" then some above else if direction == "below" then some below else none
  direction_of _ = none

  -- `g.mode ?? "longOnly"`
  abbrev pub mode_of : Value N → Option Mode
  mode_of absent = some long_only
  mode_of null = some long_only
  mode_of (text mode) =
      if mode == "longOnly"
      then some long_only
      else if mode == "symmetric"
      then some symmetric
      else none
  mode_of _ = none

  abbrev pub positive_integer : Value N → Option ℕ
  positive_integer (whole n) = if ltb 0 n then some n else none
  positive_integer _ = none

  abbrev pub is_absent : Value N → Bool
  is_absent absent = true
  is_absent _ = false

module _ {N : Type 0} ⦃num : Number N⦄ where
  open num use {of_ℕ, lt, le, is_finite}

  abbrev pub as_number : Value N → Option N
  as_number (whole n) = some (of_ℕ n)
  as_number (number x) = some x
  as_number _ = none

  abbrev pub is_positive : N → Bool
  is_positive x = is_finite x && lt (of_ℕ 0) x

  abbrev pub positive : Option N → Option N
  positive none = none
  positive (some x) = if is_positive x then some x else none

  abbrev pub positive_number : Value N → Option N
  positive_number v = positive (as_number v)

  -- A positive number, where one is given at all.
  abbrev pub positive_if_given : Value N → Option (Option N)
  positive_if_given absent = some none
  positive_if_given v = elim (positive_number v) [ none ↦ none | some x ↦ some (some x) ]
