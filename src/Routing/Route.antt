-- ===== src/Routing/Route.antt =====
-- Which requests of the app go through a proxy, mobile/src/lib/routing/selectRoute.ts. A string that is
-- hashed is the list of its UTF-16 codes, and a signed 32-bit integer is its residue modulo 2 ^ 32.
use hyper_solid.Prelude.{
  ℕ, ◌+◌, ◌-◌, ◌*◌, ◌%◌, String, Bool, true, false, ◌&&◌, Option, none, some, List, [], ◌∷◌,
  get_elem?, length, is_empty, string_eq, ◌==◌, if◌then◌else◌, ltb,
}

pub data TrafficType : Type 0 where
  signed_exchange read_info private_ws public_ws : TrafficType

pub data RoutingMode : Type 0 where
  auto direct proxy : RoutingMode

-- `PROXY_ELIGIBLE`
abbrev pub is_eligible : TrafficType → Bool
is_eligible read_info = true
is_eligible public_ws = true
is_eligible _ = false

abbrev word : ℕ
word = 4294967296

-- `(Math.imul(31, h) + s.charCodeAt(i)) | 0`
abbrev hash_from : ℕ → List ℕ → ℕ
hash_from h [] = h
hash_from h (c ∷ cs) = hash_from ((31 * h + c) % word) cs

unfoldable pub hash_code : List ℕ → ℕ
hash_code codes = hash_from 0 codes

-- `((h % n) + n) % n`, where `%` of a negative number is minus that of its absolute value
unfoldable pub pool_index : ℕ → ℕ → ℕ
pool_index h n = if ltb h 2147483648 then (h % n + n) % n else (n - (word - h) % n) % n

unfoldable pub pick_proxy : List ℕ → List String → Option String
unfolding hash_code pool_index
pick_proxy user_id pool =
    if is_empty pool then none else get_elem? pool (pool_index (hash_code user_id) (length pool))

pub record RouteInput : Type 0 where
  pub mode : RoutingMode
  pub traffic : TrafficType
  pub user_id : List ℕ
  pub pool : List String
  pub direct_base : String
  pub proxy_recommended : Bool

pub record Route : Type 0 where
  pub base_url : String
  pub via_proxy : Bool

abbrev pub proxy_layer : RouteInput → Bool
proxy_layer input = elim input.mode [
  | auto ↦ input.proxy_recommended
  | direct ↦ false
  | proxy ↦ true
]

unfoldable pub select_route : RouteInput → Route
unfolding pick_proxy
select_route input =
    let straight : Route = record { base_url = input.direct_base; via_proxy = false } in
    if proxy_layer input && is_eligible input.traffic
    then elim (pick_proxy input.user_id input.pool) [
      | none ↦ straight
      | some p ↦ if p == "" then straight else record { base_url = p; via_proxy = true }
    ]
    else straight
