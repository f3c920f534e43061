-- ===== src/Orders/Assets.antt =====
-- mobile/src/lib/hyperliquid/assetId.ts and cloid.ts: the ids of assets and of orders.
use Prim.Native.String.{◌++◌, len, slice, find}
use Prim.Native.Nat.{bit_and, bit_xor}
use hyper_solid.Prelude.{
  ℕ, ◌+◌, ◌-◌, ◌*◌, ◌/◌, ◌%◌, String, ◌&&◌, Option, none, some, List, [], ◌∷◌, Dict, lookup, insert,
  string_eq, ltb, leb, nat_eqb, if◌then◌else◌, map, range_from,
}
use hyper_solid.Orders.Rules.{MarketKind, perp, spot}

pub record AssetIndex : Type 0 where
  pub ids : Dict String ℕ
  pub decimals : Dict String ℕ
  pub coins : List String

pub record RawAsset : Type 0 where
  pub name : String
  pub sz_decimals : ℕ

pub record RawSpotAsset : Type 0 where
  pub name : String
  pub index : ℕ
  pub sz_decimals : Option ℕ

abbrev pub spot_asset_id_offset : ℕ
spot_asset_id_offset = 10000

abbrev pub market_kind_for_asset_id : ℕ → MarketKind
market_kind_for_asset_id asset =
    if leb spot_asset_id_offset asset && ltb asset 100000 then spot else perp

-- `normalize` is `coin.trim().toUpperCase()`.
module _ (normalize : String → String) where
  abbrev pub put_perps : ℕ → List RawAsset → AssetIndex → AssetIndex
  put_perps i [] index = index
  put_perps i (a ∷ universe) index = put_perps (i + 1) universe (record index {
    ids = insert (normalize a.name) i index.ids;
    decimals = insert (normalize a.name) a.sz_decimals index.decimals;
  })

  unfoldable pub build_asset_index : List RawAsset → AssetIndex
  build_asset_index universe =
      put_perps 0 universe (record { ids = []; decimals = []; coins = map (λ a. a.name) universe })

  abbrev pub put_decimals : String → Option ℕ → Dict String ℕ → Dict String ℕ
  put_decimals coin none decimals = decimals
  put_decimals coin (some d) decimals = insert coin d decimals

  abbrev pub put_spots : List RawSpotAsset → AssetIndex → AssetIndex
  put_spots [] index = index
  put_spots (a ∷ universe) index = put_spots universe (record index {
    ids = insert (normalize a.name) (spot_asset_id_offset + a.index) index.ids;
    decimals = put_decimals (normalize a.name) a.sz_decimals index.decimals;
  })

  unfoldable pub build_spot_asset_index : List RawSpotAsset → AssetIndex
  build_spot_asset_index universe =
      put_spots universe (record { ids = []; decimals = []; coins = map (λ a. a.name) universe })

  unfoldable pub id_of : AssetIndex → String → Option ℕ
  id_of index coin = lookup (normalize coin) index.ids

  unfoldable pub decimals_of : AssetIndex → String → Option ℕ
  decimals_of index coin = lookup (normalize coin) index.decimals

-- The value of a hexadecimal digit.
abbrev pub digit_of : String → ℕ
digit_of c = let k = find "0123456789abcdefABCDEF" c in if ltb k 16 then k else k - 6

-- `parseInt(hex.slice(i * 2, i * 2 + 2), 16)` of two digits
abbrev pub byte_at : String → ℕ → ℕ
byte_at hex i =
    16 * digit_of (slice hex (i * 2) (i * 2 + 1)) + digit_of (slice hex (i * 2 + 1) (i * 2 + 2))

-- `b.toString(16)`, padded to two digits
abbrev pub byte_text : ℕ → String
byte_text b =
    slice "0123456789abcdef" (b / 16) (b / 16 + 1) ++ slice "0123456789abcdef" (b % 16) (b % 16 + 1)

abbrev pub mixed : ℕ → ℕ → ℕ → ℕ
mixed index i b =
    if nat_eqb i 15
    then bit_xor b (bit_and index 255)
    else if nat_eqb i 14
    then bit_xor b (bit_and (index / 256) 255)
    else b

abbrev pub joined : List String → String
joined [] = ""
joined (s ∷ ss) = s ++ joined ss

-- An order id is `0x` and 32 hexadecimal digits.
unfoldable pub derive_cloid : String → ℕ → String
derive_cloid primary index =
    let hex = slice primary 2 (len primary) in
    if nat_eqb index 0
    then primary
    else "0x" ++ joined (map (λ i. byte_text (mixed index i (byte_at hex i))) (range_from 0 16))
