-- ===== src/Routing/Tests.antt =====
-- The routes of concrete requests, and their theorems there.
use hyper_solid.Prelude.{String, true, false, ◌⊎◌, ◌≡◌, refl, some, [], ◌∷◌, has, string_eq}
use hyper_solid.Routing.Route.{
  RouteInput, proxy, signed_exchange, read_info, public_ws, pick_proxy, select_route, hash_code,
}
use hyper_solid.Routing.Separation.{Proxying, pick_proxy-some, proxied_only_public}

abbrev input : RouteInput
input = record {
  mode = proxy;
  traffic = read_info;
  user_id = 48 ∷ 120 ∷ 65 ∷ [];
  pool = "https://a" ∷ "https://b" ∷ [];
  direct_base = "https://c";
  proxy_recommended = true;
}

-- "hello" hashes as in Java.
hash_hello : hash_code (104 ∷ 101 ∷ 108 ∷ 108 ∷ 111 ∷ []) ≡ 99162322
unfolding hash_code
hash_hello = refl

pick_proxy-some_example :
    (q : String) × (pick_proxy (48 ∷ 120 ∷ []) ("https://a" ∷ "https://b" ∷ []) ≡ some q)
    × (has q ("https://a" ∷ "https://b" ∷ []) ≡ true)
pick_proxy-some_example = pick_proxy-some (48 ∷ 120 ∷ []) "https://a" ("https://b" ∷ [])

abbrev signed : RouteInput
signed = record input { traffic = signed_exchange }

proxied_only_public_example :
    ((select_route signed).via_proxy ≡ false) × ((select_route signed).base_url ≡ "https://c")
    ⊎ (((select_route signed).via_proxy ≡ true)
        × (has (select_route signed).base_url input.pool ≡ true)
        × ((signed_exchange ≡ read_info) ⊎ (signed_exchange ≡ public_ws))
        × Proxying signed)
proxied_only_public_example = proxied_only_public signed
