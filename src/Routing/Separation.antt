-- ===== src/Routing/Separation.antt =====
-- What mobile/src/lib/routing/selectRoute.ts sends through a proxy, and where to.
use hyper_solid.Prelude.{
  ℕ, zero, suc, ◌+◌, ◌-◌, ◌%◌, ◌<◌, String, true, ◌≡◌, refl, some, List, [], ◌∷◌, get_elem?, length,
  has, string_eq, ◌==◌, ◌⊎◌, ◌&&◌, false, arith, Bool-cases, Option-cases, inl, inr, ltb,
}
use native.Mathlib.Nat.{mod-lt}
use hyper_solid.Routing.Route.{
  RouteInput, TrafficType, signed_exchange, read_info, private_ws, public_ws, RoutingMode, auto,
  direct, proxy, is_eligible, proxy_layer, pool_index, hash_code, pick_proxy, select_route,
}

pool_index_lt : (h n : ℕ) → 0 < n → pool_index h n < n
unfolding pool_index
pool_index_lt h n pos = elim (Bool-cases (ltb h 2147483648)) [
  | inl e ↦ rw e (mod-lt (h % n + n) pos)
  | inr e ↦ rw e (mod-lt (n - (4294967296 - h) % n) pos)
]

get_elem?-some :
    (xs : List String) (i : ℕ) → i < length xs → (x : String) × (get_elem? xs i ≡ some x)
get_elem?-some [] i h = absurd (omega arith)
get_elem?-some (x ∷ xs) zero h = (x, refl)
get_elem?-some (x ∷ xs) (suc i) h = get_elem?-some xs i (omega arith)

get_elem?-has : (xs : List String) (i : ℕ) (x : String) → get_elem? xs i ≡ some x → has x xs ≡ true
get_elem?-has [] i x e = absurd (ground (arith, e))
get_elem?-has (y ∷ xs) zero x e = ground (arith, e, (string_eq.same_iff x x).1 refl)
get_elem?-has (y ∷ xs) (suc i) x e = ground (arith, get_elem?-has xs i x e)

-- A pool that is not empty always gives a proxy, one of its own.
pub pick_proxy-some :
    (user_id : List ℕ) (p : String) (ps : List String)
    → (q : String) × (pick_proxy user_id (p ∷ ps) ≡ some q) × (has q (p ∷ ps) ≡ true)
unfolding pick_proxy
pick_proxy-some user_id p ps =
    let i = pool_index (hash_code user_id) (length (p ∷ ps)) in
    let (q, e) =
      get_elem?-some (p ∷ ps) i
        (pool_index_lt (hash_code user_id) (length (p ∷ ps)) (omega arith)) in
    (q, e, get_elem?-has (p ∷ ps) i q e)

in_pool :
    (user_id : List ℕ) (pool : List String) (q : String)
    → pick_proxy user_id pool ≡ some q
    → has q pool ≡ true
unfolding pick_proxy
in_pool user_id [] q e = absurd (ground (arith, e))
in_pool user_id (p ∷ ps) q e =
    get_elem?-has (p ∷ ps) (pool_index (hash_code user_id) (length (p ∷ ps))) q e

eligible-cases : (t : TrafficType) → is_eligible t ≡ true → (t ≡ read_info) ⊎ (t ≡ public_ws)
eligible-cases signed_exchange e = ground arith
eligible-cases read_info e = inl refl
eligible-cases private_ws e = ground arith
eligible-cases public_ws e = inr refl

-- The proxies are in use: always, or where the environment recommends them.
abbrev pub Proxying : RouteInput → Type 0
Proxying input = (input.mode ≡ proxy) ⊎ ((input.mode ≡ auto) × (input.proxy_recommended ≡ true))

layer-Proxying : (input : RouteInput) → proxy_layer input ≡ true → Proxying input
layer-Proxying input h = go input.mode refl
  where
    go : (m : RoutingMode) → input.mode ≡ m → Proxying input
    go auto e = inr (e, ground (arith, h, e))
    go direct e = ground (arith, h, e)
    go proxy e = inl e

-- A request either goes straight to the direct address, or through a proxy of the pool. The second is
-- only for a read or a public socket, and only in proxy mode, or in automatic mode where the
-- environment recommends the proxies. So signed requests and private sockets always go direct.
pub proxied_only_public :
    (input : RouteInput)
    → ((select_route input).via_proxy ≡ false) × ((select_route input).base_url ≡ input.direct_base)
      ⊎ ((((select_route input).via_proxy ≡ true)
          × (has (select_route input).base_url input.pool ≡ true)
          × ((input.traffic ≡ read_info) ⊎ (input.traffic ≡ public_ws))
          × Proxying input))
unfolding select_route
proxied_only_public input = elim (Bool-cases (proxy_layer input && is_eligible input.traffic)) [
  | inr off ↦ rw off (inl (refl, refl))
  | inl on ↦ elim (Option-cases (pick_proxy input.user_id input.pool)) [
    | inl e ↦ rw (on, e) (inl (refl, refl))
    | inr (q, e) ↦ elim (Bool-cases (q == "")) [
      | inl blank ↦ rw (on, e, blank) (inl (refl, refl))
      | inr some_url ↦
          rw (on, e, some_url)
            (inr (
              refl,
              in_pool input.user_id input.pool q e,
              eligible-cases input.traffic (ground arith),
              layer-Proxying input (ground arith),
            ))
    ]
  ]
]
