-- ===== src/Handlers.antt =====
-- What a script does with an event, a timer, a message or a request: the handlers of ha-lua/internal/lua/runner.go, api_mqtt.go
-- and api_syslog.go, as the calls that they make into Lua.
pub mod Later
pub mod Wanted
pub mod Timers
mod Tests
use ha_lua.Base.{
  ℕ, ◌+◌, ℤ, pos, Bool, true, false, not, ◌&&◌, ◌||◌, List, [], ◌∷◌, ◌++◌, map, Option, none, some,
  Text, text_eq, is_empty, codes, cut, trim_prefix, Map, lookup, insert, delete, if◌then◌else◌,
  Result, ok, err,
}
use ha_lua.Mqtt.Topic.{FilterError, validate_filter, match}
use ha_lua.Mqtt.Broker as Broker
use ha_lua.Runner.Loop.{HaEvent, Event, ha_event, timer_fired, mqtt_message, syslog_message}
use ha_lua.Dispatch.{Runner}
use ha_lua.Tracker.Mirror.{StateData, Mem}
use ha_lua.Tracker.Queries.{get_entities}
use ha_lua.Script.{
  StateHandler, EventHandler, Callback, plain, command, RouteEntry, Api, match_route,
}

-- `mqttHandler`
pub record MqttHandler : Type 0 where
  pub filter : Text
  pub fn : ℕ

-- What the modules `mqtt` and `syslog` register.
pub record Inputs : Type 0 where
  pub mqtt_handlers : List MqttHandler
  pub syslog_handlers : List ℕ
  pub wants_syslog : Bool

-- What a registration raises.
pub data Raised : Type 0 where
  bad_filter : FilterError → Raised
  subscribe_failed : Broker.Error → Raised
  syslog_disabled : Raised

-- `mqtt.subscribe`, with the result of `mqttSubscribe`
unfoldable pub mqtt_subscribe :
    (Text → Option Broker.Error) → Text → ℕ → Inputs → Inputs × Result Raised (Unit {0})
mqtt_subscribe answer filter fn inputs = elim (validate_filter filter) [
  | some e ↦ (inputs, err (bad_filter e))
  | none ↦ elim (answer filter) [
    | some e ↦ (inputs, err (subscribe_failed e))
    | none ↦ (
      record inputs {
        mqtt_handlers = inputs.mqtt_handlers ++ record { filter = filter; fn = fn } ∷ [];
      },
      ok tt,
    )
  ]
]

-- `syslog.on`
unfoldable pub syslog_on : Bool → ℕ → Inputs → Inputs × Result Raised (Unit {0})
syslog_on enabled fn inputs = if not enabled then (inputs, err syslog_disabled) else (
  record inputs { syslog_handlers = inputs.syslog_handlers ++ fn ∷ []; wants_syslog = true },
  ok tt,
)

-- A protected call: the label for errors, the function, and the event table that an error is reported with.
pub record Invocation : Type 0 where
  pub label : Text
  pub fn : Callback
  pub event : Option HaEvent

-- The end of the load, where the runner copies what its own goroutine does not need.
unfoldable pub cached : Api → Inputs → Runner → Runner
cached api inputs r = record r {
  loaded = true;
  state_patterns = map (λ (h : StateHandler). h.pattern) api.state_handlers;
  event_handlers = map (λ (h : EventHandler). h.event_type) api.event_handlers;
  mqtt_handlers = map (λ (h : MqttHandler). h.filter) inputs.mqtt_handlers;
  wants_syslog = inputs.wants_syslog;
}

-- `timerCallbackName`
unfoldable pub label_of : Text → Bool → Text × Bool
label_of typ found =
    if not found || is_empty typ
    then (codes "timer", false)
    else (codes "timer_" ++ typ, text_eq typ (codes "after"))

unfoldable pub timer_callback_name : Text → Text → Text × Bool
timer_callback_name script timer =
    let (typ, rest, found) = cut 124 (trim_prefix timer (script ++ codes "|")) in label_of typ found

-- `handleTimerFired`
unfoldable pub handle_timer_fired : Text → Text → Map ℕ → Map ℕ × List Invocation
handle_timer_fired script timer fns = elim (lookup timer fns) [
  | none ↦ (fns, [])
  | some fn ↦
      let (label, is_after) = timer_callback_name script timer in
      (
        if is_after then delete timer fns else fns,
        record { label = label; fn = plain fn; event = none } ∷ [],
      )
]

-- `handleMQTTMessage`
unfoldable pub handle_mqtt_message : Text → List MqttHandler → List Invocation
handle_mqtt_message topic [] = []
handle_mqtt_message topic (h ∷ handlers) =
    let rest = handle_mqtt_message topic handlers in
    if not (match h.filter topic)
    then rest
    else record { label = codes "mqtt_message"; fn = plain h.fn; event = none } ∷ rest

-- `handleSyslogMessage`
unfoldable pub handle_syslog_message : List ℕ → List Invocation
handle_syslog_message [] = []
handle_syslog_message (fn ∷ fns) =
    record { label = codes "syslog_message"; fn = plain fn; event = none }
    ∷ handle_syslog_message fns

-- `glob pattern id` is the Boolean result of filepath.Match; `table_entity` is the entity of the event's Lua table, "" without one.
module _ (glob : Text → Text → Bool) (table_entity : Text → Text) where
  unfoldable pub state_calls : HaEvent → List StateHandler → List Invocation
  state_calls ev [] = []
  state_calls ev (h ∷ handlers) =
      let rest = state_calls ev handlers in
      if glob h.pattern (table_entity ev.payload)
      then record { label = codes "state_changed"; fn = plain h.fn; event = some ev } ∷ rest
      else rest

  unfoldable pub event_calls : HaEvent → List EventHandler → List Invocation
  event_calls ev [] = []
  event_calls ev (h ∷ handlers) =
      let rest = event_calls ev handlers in
      if text_eq h.event_type ev.typ
      then record { label = codes "event"; fn = h.fn; event = some ev } ∷ rest
      else rest

  -- `handleHAEvent`
  unfoldable pub handle_ha_event : HaEvent → Api → List Invocation
  handle_ha_event ev api =
      if text_eq ev.typ (codes "state_changed")
      then state_calls ev api.state_handlers
      else event_calls ev api.event_handlers

  -- `handleEvent`; `topic_of` reads the topic of a message.
  unfoldable pub handle_event : (Text → Text) → Text → Event → Api → Inputs → Api × List Invocation
  handle_event topic_of script (ha_event ev) api inputs = (api, handle_ha_event ev api)
  handle_event topic_of script (timer_fired timer) api inputs =
      let (fns, calls) = handle_timer_fired script timer api.timer_fns in
      (record api { timer_fns = fns }, calls)
  handle_event topic_of script (mqtt_message m) api inputs =
      (api, handle_mqtt_message (topic_of m) inputs.mqtt_handlers)
  handle_event topic_of script (syslog_message m) api inputs =
      (api, handle_syslog_message inputs.syslog_handlers)

-- `deliverInitialStates`; `payload_of` is buildInitialEventData, and a pattern that the tracker refuses is logged.
module _ (glob : Text → Text → Option Bool) (payload_of : StateData → Text) where
  unfoldable pub initial_calls : ℕ → List StateData → List Invocation
  initial_calls fn [] = []
  initial_calls fn (s ∷ found) =
      record {
        label = codes "state_changed";
        fn = plain fn;
        event = some (record { typ = codes "state_changed"; payload = payload_of s });
      }
      ∷ initial_calls fn found

  unfoldable pub deliver_initial_states : Mem → List StateHandler → List Invocation
  deliver_initial_states mem [] = []
  deliver_initial_states mem (h ∷ handlers) =
      let rest = deliver_initial_states mem handlers in
      if not h.initial then rest else elim (get_entities glob h.pattern mem) [
        | err e ↦ rest
        | ok found ↦ initial_calls h.fn found ++ rest
      ]

-- `request` and `response`
pub record Request : Type 0 where
  pub method : Text
  pub path : Text
  pub query : Map Text
  pub headers : Map Text
  pub body : Text

pub record Response : Type 0 where
  pub status : ℤ
  pub body : Text
  pub headers : Map Text

-- What a Lua handler may return; a number is what int(n) makes of it, and a table has its keys and values as strings.
pub data Value : Type 0 where
  nil : Value
  number : ℤ → Value
  string : Text → Value
  table : Map Text → Value

unfoldable pub status_of : Value → ℤ
status_of (number n) = n
status_of _ = pos 200

unfoldable pub body_of : Value → Text
body_of (string s) = s
body_of _ = []

unfoldable pub headers_of : Value → Map Text
headers_of (table t) = t
headers_of _ = []

-- `callHandler`: the three values that PCall pads to, or the error that it raised.
unfoldable pub call_handler :
    (ℕ → Request → Result Text (Value × Value × Value)) → ℕ → Request → Result Text Response
call_handler run fn req = elim (run fn req) [
  | err e ↦ err e
  | ok values ↦ ok (record {
    status = status_of values.0;
    body = body_of values.1;
    headers = headers_of values.2;
  })
]

-- `handleRequest`
unfoldable pub handle_request :
    (ℕ → Request → Result Text (Value × Value × Value)) → Api → Request → Response
handle_request run api req = elim (match_route req.method req.path api.routes) [
  | none ↦ record { status = pos 404; body = codes "not found"; headers = [] }
  | some route ↦ elim (call_handler run route.fn req) [
    | err e ↦ record { status = pos 500; body = codes "internal error"; headers = [] }
    | ok response ↦ response
  ]
]
