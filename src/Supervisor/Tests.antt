-- ===== src/Supervisor/Tests.antt =====
-- A script that is loaded, reloaded while its old runner drains, and asked for a page.
use ha_lua.Base.{
  ◌≡◌, refl, ℕ, true, List, [], ◌∷◌, some, Text, codes, lookup, text_eq, insert, delete, has_prefix,
  keep, not,
}
use ha_lua.Router.{
  RouteSpec, match, Request, forward, serve_http, split_mount, register, by_method, sort_all,
  prefixes_of, sort_longest, insert_longest, unregister, any_prefix, cut_prefix, cut_slash,
  serve_parts, forward_to,
}
use ha_lua.Router.Table.{offered}
use ha_lua.Supervisor.{
  Action, start, stop, loaded, close, empty, act, act_all, start_script, after_load, stop_script,
  close_runner, remove, is_member,
}
use ha_lua.Supervisor.Lifecycle.{occurs, IsConsistent, empty-IsConsistent, act_all-IsConsistent}
use ha_lua.Supervisor.Requests.{after, forward-after}

abbrev s : Text
s = codes "s"

-- The timers as the list of their scripts.
abbrev drop_timers : Text → List Text → List Text
drop_timers id = keep (λ t. not (text_eq t id))

abbrev routes_of : ℕ → List RouteSpec
routes_of h = record { method = codes "GET"; prefix = codes "/" } ∷ []

abbrev reloaded : List Action
reloaded = start s ∷ loaded s 0 ∷ stop s ∷ start s ∷ close 0 ∷ loaded s 0 ∷ loaded s 1 ∷ []

abbrev page : Request
page = record { method = codes "GET"; path = codes "/s/s/"; query = [] }

supervisor_code : Unit {0}
unfolding empty act act_all start_script after_load stop_script close_runner remove is_member lookup
    text_eq insert delete register unregister by_method sort_all prefixes_of sort_longest
    insert_longest match any_prefix has_prefix split_mount cut_prefix cut_slash serve_http
    serve_parts forward_to occurs
supervisor_code = tt

page-forward :
    serve_http
      (after drop_timers routes_of (s ∷ []) reloaded).runners
      (after drop_timers routes_of (s ∷ []) reloaded).routes
      page
    ≡ forward 1 (codes "/")
unfolding supervisor_code
page-forward = refl

reloaded-closed : (after drop_timers routes_of (s ∷ []) reloaded).closed ≡ 0 ∷ []
unfolding supervisor_code
reloaded-closed = refl

act_all-IsConsistent_example :
    IsConsistent drop_timers routes_of (act_all drop_timers routes_of reloaded (empty (s ∷ [])))
act_all-IsConsistent_example =
    act_all-IsConsistent drop_timers routes_of reloaded (empty (s ∷ []))
      (empty-IsConsistent drop_timers routes_of (s ∷ []))

forward-after_example :
    (id : Text) × (split_mount page.path ≡ (id, codes "/", true))
    × (lookup id
          (act_all drop_timers routes_of [] (after drop_timers routes_of (s ∷ []) reloaded)).scripts
        ≡ some 1)
    × (occurs 1
          (act_all drop_timers routes_of [] (after drop_timers routes_of (s ∷ []) reloaded)).closed
        ≡ 0)
    × (old : ℕ) × (lookup id (after drop_timers routes_of (s ∷ []) reloaded).scripts ≡ some old)
    × (offered (codes "GET") (codes "/") (routes_of old) ≡ true)
forward-after_example =
    forward-after drop_timers routes_of (s ∷ []) reloaded [] page 1 (codes "/")
      (unfold supervisor_code in refl)
