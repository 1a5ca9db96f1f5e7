-- ===== src/Router/Serving.antt =====
-- Which requests reach a script.
use ha_lua.Base.{
  ◌≡◌, ◌↔◌, refl, ap, ◌∙◌, Bool, true, false, List, ◌∷◌, ◌++◌, some, Text, text_eq_refl, is_empty,
  has_byte, Map, lookup, if◌then◌else◌, arith, Option-cases, Bool-cases,
}
use ha_lua.Router.{
  slash, mount, split_mount, Routes, RouteSpec, register, match, not_found, forward, Request,
  serve_http, serve_parts, forward_to,
}
use ha_lua.Router.Paths.{split_mount_iff}
use ha_lua.Router.Table.{offered, match-register}

same_parts :
    (parts : Text × Text × Bool) (path : Text)
    → parts.1 ≡ path
    → parts.2 ≡ true
    → parts ≡ (parts.0, path, true)
same_parts parts path e f i = (parts.0, e i, f i)

module _ {R : Type 0} where
  -- The parts that are forwarded.
  forward_parts :
      (runners : Map R) (routes : Routes) (r : Request) (runner : R) (path id p : Text) (b : Bool)
      → (serve_parts runners routes r (id, p, b) ≡ forward runner path) ↔ (
          (is_empty id ≡ false)
          × (p ≡ path)
          × (b ≡ true)
          × (match id r.method path routes ≡ true)
          × (lookup id runners ≡ some runner))
  unfolding serve_parts forward_to
  forward_parts runners routes r runner path id p b = (
    λ h. ground (arith, h, Option-cases (lookup id runners)),
    λ (named, same, slashed, matched, known). rw (named, same, slashed, matched, known) refl,
  )

  -- A request reaches a runner, with some path, exactly when the registry has that runner under a script that is
  -- not empty, the request's path selects the script and this path, and one of the script's routes matches.
  pub forward_iff :
      (runners : Map R) (routes : Routes) (r : Request) (runner : R) (path : Text)
      → (serve_http runners routes r ≡ forward runner path) ↔ (
          (id : Text) × (is_empty id ≡ false)
          × (split_mount r.path ≡ (id, path, true))
          × (match id r.method path routes ≡ true)
          × (lookup id runners ≡ some runner))
  unfolding serve_http
  forward_iff runners routes r runner path =
      let (id, p, b) = split_mount r.path in
      let both = forward_parts runners routes r runner path id p b in
      (
        λ h.
            let (named, same, slashed, matched, known) = both.0 h in
            (id, named, same_parts (split_mount r.path) path same slashed, matched, known),
        λ (i, named, parts, matched, known).
            ap (serve_parts runners routes r) parts
            ∙ (forward_parts runners routes r runner path i path true).1
                (named, refl, refl, matched, known),
      )

  -- A script's own namespace: for an id that is not empty and has no slash, a request for a path below the
  -- mount and the id is handed, once the script has registered its routes, to its runner if one is in the
  -- registry and one of these routes has the method and a prefix of the path, and is not found otherwise.
  pub serve-register :
      (runners : Map R) (routes : Routes) (id tail : Text) (specs : List RouteSpec) (r : Request)
      → is_empty id ≡ false
      → has_byte slash id ≡ false
      → r.path ≡ mount ++ id ++ slash ∷ tail
      → serve_http runners (register id specs routes) r ≡ (
          if offered r.method (slash ∷ tail) specs
          then forward_to (lookup id runners) (slash ∷ tail)
          else not_found)
  unfolding serve_http serve_parts
  serve-register runners routes id tail specs r named clear at =
      ap (serve_parts runners (register id specs routes) r)
        ((split_mount_iff r.path id tail).1 (clear, at))
      ∙ rw (named, match-register id id r.method (slash ∷ tail) specs routes, text_eq_refl id)
          (ground (arith, Bool-cases (offered r.method (slash ∷ tail) specs)))
