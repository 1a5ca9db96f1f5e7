-- ===== src/Dispatch.antt =====
-- How the registry fans events out to the scripts: registry.go, with `wantsHAEvent`, `EventTypes` and
-- `MQTTFilters` of a runner.
pub mod Delivery
mod Tests
use ha_lua.Base.{
  ℕ, ◌+◌, Bool, true, false, not, ◌&&◌, ◌||◌, List, [], ◌∷◌, ◌++◌, map, Option, none, some, Text,
  text_eq, text_lt, codes, Map, lookup, insert, if◌then◌else◌,
}
use ha_lua.Mqtt.Topic.{match}
use ha_lua.Runner.Loop.{
  HaEvent, Event, ha_event, timer_fired, mqtt_message, syslog_message, Channel, send,
}

-- What the registry reads of a runner: whether its main chunk has finished, what the load cached, and its channel.
pub record Runner : Type 0 where
  pub loaded : Bool
  pub state_patterns : List Text
  pub event_handlers : List Text
  pub mqtt_handlers : List Text
  pub wants_syslog : Bool
  pub channel : Channel

unfoldable pub has_text : Text → List Text → Bool
has_text t [] = false
has_text t (u ∷ us) = text_eq u t || has_text t us

-- The loop of `EventTypes`, with the types seen so far.
unfoldable pub distinct : List Text → List Text → List Text
distinct seen [] = []
distinct seen (t ∷ ts) =
    let kept = distinct (t ∷ seen) ts in
    let skipped = distinct seen ts in if has_text t seen then skipped else t ∷ kept

unfoldable pub event_types : Runner → List Text
event_types r = if r.loaded then distinct [] r.event_handlers else []

unfoldable pub mqtt_filters : Runner → List Text
mqtt_filters r = if r.loaded then r.mqtt_handlers else []

-- `r.Send(ev)`, with its result.
unfoldable pub send_to : Event → Runner → Runner × Bool
send_to ev r = (record r { channel = (send ev r.channel).0 }, (send ev r.channel).1)

-- A loop over the runners that sends an event to those that want it.
unfoldable pub fan_out : (Runner → Bool) → Event → Map Runner → Map Runner
fan_out wants ev [] = []
fan_out wants ev ((id, r) ∷ runners) =
    (id, if wants r then (send_to ev r).0 else r) ∷ fan_out wants ev runners

-- The inner loop of `DispatchMQTT`, which breaks at the first match.
unfoldable pub matches_any : Text → List Text → Bool
matches_any topic [] = false
matches_any topic (filter ∷ filters) =
    if match filter topic then true else matches_any topic filters

unfoldable pub dispatch_mqtt : Text → Text → Map Runner → Map Runner
dispatch_mqtt topic msg runners =
    fan_out (λ r. matches_any topic (mqtt_filters r)) (mqtt_message msg) runners

-- How many of the wanting runners refuse, which `DispatchSyslog` adds to `syslogDropped`.
unfoldable pub refusals : (Runner → Bool) → Event → Map Runner → ℕ
refusals wants ev [] = 0
refusals wants ev ((id, r) ∷ runners) =
    (if wants r && not (send_to ev r).1 then 1 else 0) + refusals wants ev runners

unfoldable pub dispatch_syslog : Text → Map Runner → ℕ → Map Runner × ℕ
dispatch_syslog msg runners dropped = (
  fan_out (λ r. r.wants_syslog) (syslog_message msg) runners,
  dropped + refusals (λ r. r.wants_syslog) (syslog_message msg) runners,
)

-- A timer of a script without a runner is logged and forgotten.
unfoldable pub dispatch_to_timer : Text → Text → Map Runner → Map Runner
dispatch_to_timer script timer runners = elim (lookup script runners) [
  | none ↦ runners
  | some r ↦ insert script (send_to (timer_fired timer) r).0 runners
]

-- `glob pattern id` is the Boolean result of filepath.Match, false where it gives an error; `entity_of` is
-- `stateEventEntityID`.
module _ (glob : Text → Text → Bool) (entity_of : Text → Text) where
  unfoldable pub any_glob : Text → List Text → Bool
  any_glob id [] = false
  any_glob id (pattern ∷ patterns) = if glob pattern id then true else any_glob id patterns

  -- `wantsHAEvent`
  unfoldable pub wants_ha_event : HaEvent → Text → Runner → Bool
  wants_ha_event ev id r =
      if not r.loaded
      then true
      else if text_eq ev.typ (codes "state_changed")
      then any_glob id r.state_patterns
      else has_text ev.typ r.event_handlers

  unfoldable pub dispatch : HaEvent → Map Runner → Map Runner
  dispatch ev runners =
      (let id = if text_eq ev.typ (codes "state_changed") then entity_of ev.payload else [] in
        fan_out (wants_ha_event ev id) (ha_event ev) runners)
