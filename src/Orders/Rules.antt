-- ===== src/Orders/Rules.antt =====
-- mobile/src/lib/hyperliquid/order.ts and builderFee.ts: the exchange's rules on sizes, prices,
-- triggers and builder fees. The decimals of an asset are a natural.
use Prim.Native.String.{len, slice, find}
use hyper_solid.Prelude.{
  ℕ, zero, suc, ◌-◌, ◌^◌, String, Bool, true, false, not, ◌&&◌, ◌||◌, Option, none, some, string_eq,
  ◌==◌, ltb, if◌then◌else◌,
}
use hyper_solid.Number.{Number}
use hyper_solid.Strategies.Types.{Side, buy, sell}

-- How JavaScript writes numbers: `Number.isInteger`, `Number(x.toPrecision(n))` and `x.toFixed(n)`.
pub record Formats (N : Type 0) : Type 0 where
  pub is_integer : N → Bool
  pub to_precision : N → ℕ → N
  pub to_fixed : N → ℕ → String

pub data MarketKind : Type 0 where
  perp spot : MarketKind

pub data Tpsl : Type 0 where
  tp sl : Tpsl

pub data OrderRejection : Type 0 where
  tick_rejected min_trade_ntl_rejected size_rejected price_rejected bad_trigger_px_rejected
        unknown_asset builder_fee_rejected :
      OrderRejection

-- `/0+$/`: the text without the zeros at its end; the text has at most `fuel` characters.
abbrev pub drop_zeros : ℕ → String → String
drop_zeros zero s = s
drop_zeros (suc fuel) s =
    let shorter = drop_zeros fuel (slice s 0 (len s - 1)) in
    if slice s (len s - 1) (len s) == "0" then shorter else s

-- `/\.$/`
abbrev pub drop_dot : String → String
drop_dot s = if slice s (len s - 1) (len s) == "." then slice s 0 (len s - 1) else s

unfoldable pub strip_trailing_zeros : String → String
strip_trailing_zeros s = if ltb (find s ".") (len s) then drop_dot (drop_zeros (len s) s) else s

abbrev pub max_price_decimals : ℕ → MarketKind → ℕ
max_price_decimals sz_decimals perp = 6 - sz_decimals
max_price_decimals sz_decimals spot = 8 - sz_decimals

abbrev pub builder_fee_cap : MarketKind → ℕ
builder_fee_cap perp = 100
builder_fee_cap spot = 1000

-- `mustBeAbove`: above the entry for the profit of a long and the loss of a short
abbrev pub must_be_above : Side → Tpsl → Bool
must_be_above buy tp = true
must_be_above buy sl = false
must_be_above sell tp = false
must_be_above sell sl = true

module _ {N : Type 0} ⦃num : Number N⦄ where
  open num use {of_ℕ, mul, div, lt, le, is_finite, floor, round, largest, smallest, show}

  unfoldable pub round_size : N → ℕ → N
  round_size size sz_decimals = let f = of_ℕ (10 ^ sz_decimals) in div (round (mul size f)) f

  -- `l || 1`: 0, NaN and a value that is missing count as 1.
  abbrev pub or_one : Option N → N
  or_one none = of_ℕ 1
  or_one (some l) = if num.eq l (of_ℕ 0) || not (num.eq l l) then of_ℕ 1 else l

  unfoldable pub clamp_leverage : N → Option N → N
  clamp_leverage desired max_leverage =
      if not (is_finite desired) || lt desired (of_ℕ 1)
      then of_ℕ 1
      else smallest (floor desired) (largest (of_ℕ 1) (floor (or_one max_leverage)))

  unfoldable pub validate_trigger_side : Side → N → N → Tpsl → Option OrderRejection
  validate_trigger_side side entry_px trigger_px tpsl =
      if not (lt (of_ℕ 0) trigger_px) || (not (is_finite trigger_px) || not (lt (of_ℕ 0) entry_px))
      then some OrderRejection.price_rejected
      else if must_be_above side tpsl && le trigger_px entry_px
      then some OrderRejection.bad_trigger_px_rejected
      else if not (must_be_above side tpsl) && le entry_px trigger_px
      then some OrderRejection.bad_trigger_px_rejected
      else none

  unfoldable pub format_price : Formats N → N → ℕ → MarketKind → String
  unfolding strip_trailing_zeros
  format_price formats price sz_decimals kind =
      if formats.is_integer price
      then show price
      else strip_trailing_zeros
          (formats.to_fixed (formats.to_precision price 5) (max_price_decimals sz_decimals kind))

  unfoldable pub validate_order : N → N → ℕ → Option OrderRejection
  unfolding round_size
  validate_order price size sz_decimals =
      if not (lt (of_ℕ 0) price) || not (is_finite price)
      then some OrderRejection.price_rejected
      else if not (lt (of_ℕ 0) size) || not (is_finite size)
      then some OrderRejection.size_rejected
      else if le (round_size size sz_decimals) (of_ℕ 0)
      then some OrderRejection.size_rejected
      else if lt (mul (round_size size sz_decimals) price) (of_ℕ 10)
      then some OrderRejection.min_trade_ntl_rejected
      else none

  unfoldable pub is_builder_fee_within_cap : Formats N → N → MarketKind → Bool
  is_builder_fee_within_cap formats fee kind =
      formats.is_integer fee && (le (of_ℕ 0) fee && le fee (of_ℕ (builder_fee_cap kind)))
