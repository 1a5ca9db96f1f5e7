-- ===== src/Handlers/Later.antt =====
-- Registrations after the load: they only append handlers.
use ha_lua.Base.{
  ℕ, ◌+◌, ◌≡◌, refl, sym, ap, ◌∙◌, Bool, not, has_prefix, List, [], ◌∷◌, ◌++◌, append-nil,
  append_assoc, Option, Text, text_eq, codes, Result, ok, err, if◌then◌else◌, if-elim, arith,
  Option-cases, inl, inr,
}
use ha_lua.Scheduler.Timers.{Calendar, TimerHeap}
use ha_lua.Scheduler.Engine.{State, register_every, register_at, register_after}
use ha_lua.Scheduler.Engine as Engine
use ha_lua.Script.{
  Raised, StateHandler, EventHandler, Api, Call, every, at, after, on_state_change, on_event,
  on_command, on_exception, immediate_events, serve, ui, keep_timer, registered_as, call, calls,
  plain, command,
}
use ha_lua.Handlers.{
  MqttHandler, Inputs, Invocation, mqtt_subscribe, handle_mqtt_message, state_calls, event_calls,
  handle_ha_event,
}
use ha_lua.Runner.Loop.{HaEvent}
use ha_lua.Mqtt.Broker as Broker
use ha_lua.Mqtt.Topic.{validate_filter}

-- The handlers of a script with some more at the end.
abbrev pub Extends : Api → Api → Type 0
Extends api later =
    (states : List StateHandler) × (events : List EventHandler) × (later.state_handlers
      ≡ api.state_handlers ++ states)
    × (later.event_handlers ≡ api.event_handlers ++ events)

same-Extends :
    (api later : Api)
    → later.state_handlers ≡ api.state_handlers
    → later.event_handlers ≡ api.event_handlers
    → Extends api later
same-Extends api later s e =
    ([], [], s ∙ sym (append-nil api.state_handlers), e ∙ sym (append-nil api.event_handlers))

Extends-Extends : (a b c : Api) → Extends a b → Extends b c → Extends a c
Extends-Extends a b c (s, e, hs, he) (t, f, ks, ke) = (
  s ++ t,
  e ++ f,
  ks ∙ ap (λ h. h ++ t) hs ∙ append_assoc a.state_handlers s t,
  ke ∙ ap (λ h. h ++ f) he ∙ append_assoc a.event_handlers e f,
)

registered-Extends :
    {S : Type 0} (fn : ℕ) (api : Api) (out : S × Result Engine.Error Text)
    → Extends api (registered_as fn api out).0.0
unfolding registered_as keep_timer
registered-Extends fn api (s, err e) = same-Extends api api refl refl
registered-Extends fn api (s, ok id) =
    same-Extends api (registered_as fn api (s, ok id)).0.0 (ground arith) (ground arith)

module _ (c : Calendar) {H : Type 0} (q : TimerHeap H) (write_fails : Text → Bool)
    (bad : Text → Bool) (upper : Text → Text) (script : Text) where
  abbrev after_call : ℕ → Option Text → Call → Api → State H → Api
  after_call now random k api s = (call c q write_fails bad upper script now random k (api, s)).0.0

  call-Extends :
      (now : ℕ) (random : Option Text) (k : Call) (api : Api) (s : State H)
      → Extends api (after_call now random k api s)
  unfolding call
  call-Extends now random (every spec fn) api s =
      if-elim (λ (out : (Api × State H) × Result Raised (Unit {0})). Extends api out.0.0) api.pruned
        _ _ (λ refused. same-Extends api api refl refl)
        (λ allowed.
          registered-Extends fn (record api { timer_seq = api.timer_seq + 1 })
            (register_every c q write_fails script spec (api.timer_seq + 1) now s))
  call-Extends now random (at spec fn) api s =
      if-elim (λ (out : (Api × State H) × Result Raised (Unit {0})). Extends api out.0.0) api.pruned
        _ _ (λ refused. same-Extends api api refl refl)
        (λ allowed.
          registered-Extends fn (record api { timer_seq = api.timer_seq + 1 })
            (register_at c q write_fails script spec (api.timer_seq + 1) now s))
  call-Extends now random (after spec fn) api s =
      registered-Extends fn api (register_after c q write_fails script spec random now s)
  call-Extends now random (on_state_change pattern fn initial) api s =
      if-elim (λ (out : (Api × State H) × Result Raised (Unit {0})). Extends api out.0.0)
        (bad pattern) _ _ (λ refused. same-Extends api api refl refl)
        (λ allowed. (
          record { pattern = pattern; fn = fn; initial = initial } ∷ [],
          [],
          refl,
          sym (append-nil api.event_handlers),
        ))
  call-Extends now random (on_event typ fn) api s = (
    [],
    record { event_type = typ; fn = plain fn } ∷ [],
    sym (append-nil api.state_handlers),
    refl,
  )
  call-Extends now random (on_command fn) api s = (
    [],
    record { event_type = codes "ha_lua_command"; fn = command fn } ∷ [],
    sym (append-nil api.state_handlers),
    refl,
  )
  call-Extends now random immediate_events api s = same-Extends api api refl refl
  call-Extends now random (on_exception fn) api s = same-Extends api api refl refl
  call-Extends now random (serve method prefix fn) api s =
      if-elim (λ (out : (Api × State H) × Result Raised (Unit {0})). Extends api out.0.0)
        (not (has_prefix prefix (codes "/"))) _ _ (λ refused. same-Extends api api refl refl)
        (λ allowed. same-Extends api api refl refl)
  call-Extends now random (ui title) api s = same-Extends api api refl refl

  pub calls-Extends :
      (list : List (ℕ × Option Text × Call)) (api : Api) (s : State H)
      → Extends api (calls c q write_fails bad upper script list (api, s)).0
  unfolding calls
  calls-Extends [] api s = same-Extends api api refl refl
  calls-Extends ((now, random, k) ∷ list) api s =
      let st = (call c q write_fails bad upper script now random k (api, s)).0 in
      Extends-Extends api st.0 (calls c q write_fails bad upper script list st).0
        (call-Extends now random k api s) (calls-Extends list st.0 st.1)

state_calls-append :
    (glob : Text → Text → Bool) (table_entity : Text → Text) (ev : HaEvent)
    (xs ys : List StateHandler)
    → state_calls glob table_entity ev (xs ++ ys)
      ≡ state_calls glob table_entity ev xs ++ state_calls glob table_entity ev ys
unfolding state_calls
state_calls-append glob table_entity ev [] ys = refl
state_calls-append glob table_entity ev (h ∷ xs) ys =
    ground (arith, state_calls-append glob table_entity ev xs ys)

event_calls-append :
    (glob : Text → Text → Bool) (table_entity : Text → Text) (ev : HaEvent)
    (xs ys : List EventHandler)
    → event_calls glob table_entity ev (xs ++ ys)
      ≡ event_calls glob table_entity ev xs ++ event_calls glob table_entity ev ys
unfolding event_calls
event_calls-append glob table_entity ev [] ys = refl
event_calls-append glob table_entity ev (h ∷ xs) ys =
    ground (arith, event_calls-append glob table_entity ev xs ys)

mqtt_calls-append :
    (topic : Text) (xs ys : List MqttHandler)
    → handle_mqtt_message topic (xs ++ ys)
      ≡ handle_mqtt_message topic xs ++ handle_mqtt_message topic ys
unfolding handle_mqtt_message
mqtt_calls-append topic [] ys = refl
mqtt_calls-append topic (h ∷ xs) ys = ground (arith, mqtt_calls-append topic xs ys)

-- The calls for an event, by handlers and by those that were added to them.
pub handle-Extends :
    (glob : Text → Text → Bool) (table_entity : Text → Text) (ev : HaEvent) (api later : Api)
    → Extends api later
    → (more : List Invocation) × (handle_ha_event glob table_entity ev later
        ≡ handle_ha_event glob table_entity ev api ++ more)
unfolding handle_ha_event
handle-Extends glob table_entity ev api later (states, events, s, e) = (
  if text_eq ev.typ (codes "state_changed")
      then state_calls glob table_entity ev states
      else event_calls glob table_entity ev events,
  ground (
    arith,
    s,
    e,
    state_calls-append glob table_entity ev api.state_handlers states,
    event_calls-append glob table_entity ev api.event_handlers events,
  ),
)

-- The calls of mqtt.subscribe, in order, with the answers that they get.
unfoldable pub subscriptions : (Text → Option Broker.Error) → List (Text × ℕ) → Inputs → Inputs
subscriptions answer [] inputs = inputs
subscriptions answer ((filter, fn) ∷ list) inputs =
    subscriptions answer list (mqtt_subscribe answer filter fn inputs).0

subscribed_more :
    (answer : Text → Option Broker.Error) (filter : Text) (fn : ℕ) (inputs : Inputs)
    → (more : List MqttHandler) × ((mqtt_subscribe answer filter fn inputs).0.mqtt_handlers
        ≡ inputs.mqtt_handlers ++ more)
unfolding mqtt_subscribe
subscribed_more answer filter fn inputs = elim (Option-cases (validate_filter filter)) [
  | inr (e, bad) ↦ ([], ground (arith, bad, append-nil inputs.mqtt_handlers))
  | inl good ↦ elim (Option-cases (answer filter)) [
    | inr (e, refused) ↦ ([], ground (arith, good, refused, append-nil inputs.mqtt_handlers))
    | inl fine ↦ (record { filter = filter; fn = fn } ∷ [], ground (arith, good, fine))
  ]
]

pub subscriptions_more :
    (answer : Text → Option Broker.Error) (list : List (Text × ℕ)) (inputs : Inputs)
    → (more : List MqttHandler) × ((subscriptions answer list inputs).mqtt_handlers
        ≡ inputs.mqtt_handlers ++ more)
unfolding subscriptions
subscriptions_more answer [] inputs = ([], sym (append-nil inputs.mqtt_handlers))
subscriptions_more answer ((filter, fn) ∷ list) inputs =
    let (now, e) = subscribed_more answer filter fn inputs in
    let (more, k) = subscriptions_more answer list (mqtt_subscribe answer filter fn inputs).0 in
    (now ++ more, k ∙ ap (λ h. h ++ more) e ∙ append_assoc inputs.mqtt_handlers now more)

pub mqtt-more :
    (topic : Text) (handlers later more : List MqttHandler)
    → later ≡ handlers ++ more
    → (extra : List Invocation) × (handle_mqtt_message topic later
        ≡ handle_mqtt_message topic handlers ++ extra)
mqtt-more topic handlers later more e = (
  handle_mqtt_message topic more,
  ap (handle_mqtt_message topic) e ∙ mqtt_calls-append topic handlers more,
)
