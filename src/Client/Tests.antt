-- ===== src/Client/Tests.antt =====
-- A type registered before and one during a connection, and a command that waits when the connection ends.
use ha_lua.Base.{◌≡◌, refl, List, [], ◌∷◌, codes, text_eq}
use ha_lua.Client.{
  contains, new, mark, add_event_type, publish, mark_all, subscribe_all, hang_up, Move, add,
  connected, subscribe, disconnected, step, run,
}
use ha_lua.Client.Subscriptions.{IsSubscribed, new-IsSubscribed, run-IsSubscribed}

abbrev moves : List Move
moves =
    add (codes "a")
    ∷ connected
    ∷ disconnected
    ∷ connected
    ∷ add (codes "b")
    ∷ subscribe
    ∷ add (codes "a")
    ∷ []

moves-sent : (run moves new).sent ≡ codes "b" ∷ codes "state_changed" ∷ codes "a" ∷ []
unfolding contains new mark add_event_type publish mark_all subscribe_all hang_up step run text_eq
moves-sent = refl

run-IsSubscribed_example : IsSubscribed (run moves new)
run-IsSubscribed_example = run-IsSubscribed moves new new-IsSubscribed
