-- ===== src/Router/Tests.antt =====
-- The router with one script that serves its root and an api.
use ha_lua.Base.{
  ◌≡◌, refl, List, [], ◌∷◌, Text, codes, Map, ℕ, has_byte, lookup, has_prefix, if◌then◌else◌,
}
use ha_lua.Router.{
  split_mount, RouteSpec, register, not_found, redirect, forward_to, Request, serve_http,
  serve_parts, cut_prefix, cut_slash,
}
use ha_lua.Router.Table.{offered}
use ha_lua.Router.Serving.{serve-register}

abbrev get : Text
get = codes "GET"

abbrev heating : Text
heating = codes "heating"

abbrev specs : List RouteSpec
specs =
    record { method = get; prefix = codes "/" }
    ∷ record { method = codes "POST"; prefix = codes "/api" }
    ∷ []

abbrev runners : Map ℕ
runners = (heating, 7) ∷ []

abbrev index : Request
index = record { method = get; path = codes "/s/heating/index"; query = [] }

abbrev bare : Request
bare = record { method = get; path = codes "/s/heating"; query = codes "a=1" }

bare-redirect : serve_http runners [] bare ≡ redirect (codes "heating/?a=1")
unfolding serve_http serve_parts split_mount cut_prefix has_prefix cut_slash
bare-redirect = refl

serve-register_example : serve_http runners (register heating specs []) index ≡ (
    if offered get (codes "/index") specs
    then forward_to (lookup heating runners) (codes "/index")
    else not_found)
serve-register_example =
    serve-register runners [] heating (codes "index") specs index refl (unfold has_byte in refl)
      refl
