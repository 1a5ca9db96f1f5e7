-- ===== src/Runner/Loop/Tests.antt =====
-- The event loop on a window with two states of one lamp and a button press between them.
use ha_lua.Base.{◌≡◌, refl, false, List, [], ◌∷◌, ◌++◌, Text, codes, keep, text_eq, lookup, insert}
use ha_lua.Runner.Loop.{
  Event, ha_event, timer_fired, start, flush, Input, event, close, cancel, coalesce_key, postpone,
  coalesce, receive, step, run,
}
use ha_lua.Runner.Loop.Delivery.{accepted, events, plain, last_of}
use ha_lua.Runner.Loop.Runs.{IsOpen, run-start-keep, run-start-last_of, run-close}

abbrev entity : Text → Text
entity payload = payload

abbrev lamp : Event
lamp = ha_event (record { typ = codes "state_changed"; payload = codes "lamp" })

abbrev press : Event
press = timer_fired (codes "t")

abbrev service : Event
service = ha_event (record { typ = codes "call_service"; payload = [] })

abbrev inputs : List Input
inputs = event lamp ∷ event service ∷ event lamp ∷ event press ∷ event lamp ∷ []

inputs-handled :
    (run entity false (inputs ++ close ∷ []) start).handled ≡ lamp ∷ service ∷ press ∷ lamp ∷ []
unfolding start run step receive coalesce coalesce_key postpone flush text_eq lookup insert
inputs-handled = refl

cancelled-waiting : (run entity false (inputs ++ cancel ∷ []) start).pending ≡ lamp ∷ []
unfolding start run step receive coalesce coalesce_key postpone flush text_eq lookup insert
cancelled-waiting = refl

run-start-keep_example :
    keep (plain entity) (accepted (run entity false inputs start))
    ≡ keep (plain entity) (events inputs)
run-start-keep_example = run-start-keep entity false inputs

run-start-last_of_example :
    last_of entity (codes "lamp") (accepted (run entity false inputs start))
    ≡ last_of entity (codes "lamp") (events inputs)
run-start-last_of_example = run-start-last_of entity false inputs (codes "lamp")

inputs-IsOpen : IsOpen inputs
unfolding IsOpen
inputs-IsOpen = tt

run-close_example :
    let l = run entity false (inputs ++ close ∷ []) start in
    (l.pending ≡ [])
    × (keep (plain entity) l.handled ≡ keep (plain entity) (events inputs))
    × (last_of entity (codes "lamp") l.handled ≡ last_of entity (codes "lamp") (events inputs))
run-close_example = run-close entity false inputs (codes "lamp") inputs-IsOpen
