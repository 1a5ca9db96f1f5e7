-- ===== src/Router.antt =====
-- The HTTP router of the scripts' user interfaces: its route table, the path that selects a script, and
-- the decision of `ServeHTTP`.
pub mod Table
pub mod Paths
pub mod Serving
mod Tests
use ha_lua.Base.{
  ℕ, zero, suc, ◌+◌, Bool, true, false, not, ◌&&◌, ◌||◌, List, [], ◌∷◌, ◌++◌, Option, none, some,
  Text, text_eq, is_empty, has_prefix, drop, codes, Map, lookup, insert, delete, length, ltb, ◌==◌,
  if◌then◌else◌,
}

-- `RouteSpec`
pub record RouteSpec : Type 0 where
  pub method : Text
  pub prefix : Text

-- The routes of a script: method to prefixes.
abbrev pub Table : Type 0
Table = Map (List Text)

-- A read of a missing key gives the empty slice.
unfoldable pub prefixes_of : Text → Table → List Text
prefixes_of m t = elim (lookup m t) [ none ↦ [] | some prefixes ↦ prefixes ]

-- `byMethod[sp.Method] = append(byMethod[sp.Method], sp.Prefix)` for each route
unfoldable pub by_method : List RouteSpec → Table → Table
by_method [] t = t
by_method (sp ∷ specs) t =
    by_method specs (insert sp.method (prefixes_of sp.method t ++ sp.prefix ∷ []) t)

-- `sort.SliceStable`, longest first.
unfoldable pub insert_longest : Text → List Text → List Text
insert_longest p [] = p ∷ []
insert_longest p (q ∷ qs) =
    let rest = insert_longest p qs in if ltb (length p) (length q) then q ∷ rest else p ∷ q ∷ qs

unfoldable pub sort_longest : List Text → List Text
sort_longest [] = []
sort_longest (p ∷ ps) = insert_longest p (sort_longest ps)

unfoldable pub sort_all : Table → Table
sort_all [] = []
sort_all ((m, ps) ∷ t) = (m, sort_longest ps) ∷ sort_all t

-- `Router.routes`
abbrev pub Routes : Type 0
Routes = Map Table

unfoldable pub register : Text → List RouteSpec → Routes → Routes
register id specs routes = elim (sort_all (by_method specs [])) [
  | [] ↦ delete id routes
  | entry ∷ table ↦ insert id (entry ∷ table) routes
]

unfoldable pub unregister : Text → Routes → Routes
unregister id routes = delete id routes

unfoldable pub any_prefix : Text → List Text → Bool
any_prefix path [] = false
any_prefix path (prefix ∷ prefixes) = has_prefix path prefix || any_prefix path prefixes

-- A read of a missing script gives a nil map, whose reads give the empty slice.
unfoldable pub match : Text → Text → Text → Routes → Bool
match id method path routes = elim (lookup id routes) [
  | none ↦ false
  | some table ↦ any_prefix path (prefixes_of method table)
]

abbrev pub slash : ℕ
slash = 47

-- `Mount`
abbrev pub mount : Text
mount = codes "/s/"

-- `strings.CutPrefix`
unfoldable pub cut_prefix : Text → Text → Option Text
cut_prefix s prefix = if has_prefix s prefix then some (drop (length prefix) s) else none

-- The text before the first slash, and from it on, where there is one.
unfoldable pub cut_slash : Text → Option (Text × Text)
cut_slash [] = none
cut_slash (c ∷ s) =
    let later = cut_slash s in
    if c == slash
    then some ([], c ∷ s)
    else elim later [ none ↦ none | some (id, rest) ↦ some (c ∷ id, rest) ]

-- `splitMount`: the script, the stripped path, and whether a slash follows the script.
unfoldable pub split_mount : Text → Text × Text × Bool
split_mount path = elim (cut_prefix path mount) [
  | none ↦ ([], [], false)
  | some rest ↦ elim (cut_slash rest) [
    | some (id, stripped) ↦ (id, stripped, true)
    | none ↦ (rest, slash ∷ [], false)
  ]
]

-- What `ServeHTTP` does with a request: answer it itself, or hand it to a runner.
pub data Answer (R : Type 0) : Type 0 where
  not_found : Answer R
  redirect : Text → Answer R
  forward : R → Text → Answer R

-- A request as `ServeHTTP` reads it: `r.Method`, `r.URL.Path` and `r.URL.RawQuery`.
pub record Request : Type 0 where
  pub method : Text
  pub path : Text
  pub query : Text

module _ {R : Type 0} where
  -- A nil runner is a script that stopped since.
  unfoldable pub forward_to : Option R → Text → Answer R
  forward_to none path = not_found
  forward_to (some runner) path = forward runner path

  -- `ServeHTTP` behind `splitMount`, with the runners by script as the registry knows them.
  unfoldable pub serve_parts : Map R → Routes → Request → Text × Text × Bool → Answer R
  serve_parts runners routes r (id, path, has_slash) =
      if is_empty id
      then not_found
      else if not has_slash
      then redirect (id ++ slash ∷ (if is_empty r.query then [] else codes "?" ++ r.query))
      else if not (match id r.method path routes)
      then not_found
      else forward_to (lookup id runners) path

  unfoldable pub serve_http : Map R → Routes → Request → Answer R
  serve_http runners routes r = serve_parts runners routes r (split_mount r.path)
