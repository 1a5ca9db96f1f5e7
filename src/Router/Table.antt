-- ===== src/Router/Table.antt =====
-- What the route table answers after scripts register and unregister.
use ha_lua.Base.{
  ◌≡◌, refl, ap, ◌∙◌, Bool, false, ◌&&◌, ◌||◌, List, [], ◌∷◌, ◌++◌, Text, text_eq, text_eq_iff,
  has_prefix, lookup, insert, delete, lookup-insert, lookup-delete, if◌then◌else◌, arith,
  Bool-cases, inl, inr, length, ltb,
}
use ha_lua.Router.{
  RouteSpec, Table, prefixes_of, by_method, insert_longest, sort_longest, sort_all, Routes,
  register, any_prefix, match,
}

-- Whether one of the routes has the method and a prefix of the path.
unfoldable pub offered : Text → Text → List RouteSpec → Bool
offered method path [] = false
offered method path (sp ∷ specs) =
    (text_eq sp.method method && has_prefix path sp.prefix) || offered method path specs

any_prefix-append :
    (path : Text) (ps qs : List Text)
    → any_prefix path (ps ++ qs) ≡ (any_prefix path ps || any_prefix path qs)
unfolding any_prefix
any_prefix-append path [] qs = refl
any_prefix-append path (p ∷ ps) qs = ground (arith, any_prefix-append path ps qs)

any_prefix-insert_longest :
    (path p : Text) (ps : List Text)
    → any_prefix path (insert_longest p ps) ≡ (has_prefix path p || any_prefix path ps)
unfolding any_prefix insert_longest
any_prefix-insert_longest path p [] = refl
any_prefix-insert_longest path p (q ∷ qs) = elim (Bool-cases (ltb (length p) (length q))) [
  | inl shorter ↦ ground (arith, shorter, any_prefix-insert_longest path p qs)
  | inr longer ↦ ground (arith, longer)
]

any_prefix-sort_longest :
    (path : Text) (ps : List Text) → any_prefix path (sort_longest ps) ≡ any_prefix path ps
unfolding any_prefix sort_longest
any_prefix-sort_longest path [] = refl
any_prefix-sort_longest path (p ∷ ps) =
    any_prefix-insert_longest path p (sort_longest ps)
    ∙ ap (λ b. has_prefix path p || b) (any_prefix-sort_longest path ps)

-- Sorting the prefixes of every method changes no answer.
any_prefix-sort_all :
    (path method : Text) (t : Table)
    → any_prefix path (prefixes_of method (sort_all t)) ≡ any_prefix path (prefixes_of method t)
unfolding prefixes_of sort_all lookup
any_prefix-sort_all path method [] = refl
any_prefix-sort_all path method ((m, ps) ∷ t) =
    ground (arith, any_prefix-sort_all path method t, any_prefix-sort_longest path ps)

prefixes_of-insert :
    (k method : Text) (ps : List Text) (t : Table)
    → prefixes_of method (insert k ps t) ≡ (if text_eq k method then ps else prefixes_of method t)
unfolding prefixes_of
prefixes_of-insert k method ps t = ground (arith, lookup-insert k method ps t)

any_prefix-by_method :
    (path method : Text) (specs : List RouteSpec) (t : Table)
    → any_prefix path (prefixes_of method (by_method specs t))
      ≡ (any_prefix path (prefixes_of method t) || offered method path specs)
unfolding by_method offered any_prefix
any_prefix-by_method path method [] t = ground arith
any_prefix-by_method path method (sp ∷ specs) t =
    let own = prefixes_of sp.method t ++ sp.prefix ∷ [] in
    ground (
      arith,
      any_prefix-by_method path method specs (insert sp.method own t),
      prefixes_of-insert sp.method method own t,
      any_prefix-append path (prefixes_of sp.method t) (sp.prefix ∷ []),
      text_eq_iff sp.method method,
    )

-- The table that `register` stores answers by the routes it was made from.
any_prefix-table :
    (path method : Text) (specs : List RouteSpec)
    → any_prefix path (prefixes_of method (sort_all (by_method specs [])))
      ≡ offered method path specs
unfolding prefixes_of lookup any_prefix
any_prefix-table path method specs =
    any_prefix-sort_all path method (by_method specs []) ∙ any_prefix-by_method path method specs []

match-insert :
    (id other method path : Text) (t : Table) (routes : Routes)
    → match other method path (insert id t routes) ≡ (
        if text_eq id other
        then any_prefix path (prefixes_of method t)
        else match other method path routes)
unfolding match
match-insert id other method path t routes = ground (arith, lookup-insert id other t routes)

pub match-delete :
    (id other method path : Text) (routes : Routes)
    → match other method path (delete id routes)
      ≡ (if text_eq id other then false else match other method path routes)
unfolding match
match-delete id other method path routes = ground (arith, lookup-delete id other routes)

match_by :
    (id other method path : Text) (t : Table) (routes : Routes)
    → match other method path
        (elim t [ [] ↦ delete id routes | e ∷ es ↦ insert id (e ∷ es) routes ])
      ≡ (if text_eq id other
          then any_prefix path (prefixes_of method t)
          else match other method path routes)
match_by id other method path [] routes =
    rw (match-delete id other method path routes) (unfold prefixes_of lookup any_prefix in refl)
match_by id other method path (e ∷ t) routes = match-insert id other method path (e ∷ t) routes

-- After a script registers its routes, a request matches for that script exactly when one of these
-- routes has its method and a prefix of its path, and nothing changes for any other script.
pub match-register :
    (id other method path : Text) (specs : List RouteSpec) (routes : Routes)
    → match other method path (register id specs routes)
      ≡ (if text_eq id other then offered method path specs else match other method path routes)
unfolding register
match-register id other method path specs routes =
    match_by id other method path (sort_all (by_method specs [])) routes
    ∙ ap (λ b. if text_eq id other then b else match other method path routes)
        (any_prefix-table path method specs)
