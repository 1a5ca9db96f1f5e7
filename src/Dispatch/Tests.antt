-- ===== src/Dispatch/Tests.antt =====
-- Two scripts: one that has loaded and listens to lamps, doors and MQTT, and one that is loading.
use ha_lua.Base.{
  ◌≡◌, ◌≢◌, ◌↔◌, ◌⊎◌, refl, Bool, true, false, [], ◌∷◌, some, Text, codes, Map, lookup, text_eq,
  Any,
}
use ha_lua.Runner.Loop.{HaEvent, ha_event, Channel}
use ha_lua.Dispatch.{Runner, dispatch, event_types, distinct, has_text}
use ha_lua.Dispatch.Delivery.{offered, dispatch-lookup}

abbrev idle : Channel
idle = record { queue = []; dropped = 0 }

abbrev listening : Runner
listening = record {
  loaded = true;
  state_patterns = codes "lamp" ∷ [];
  event_handlers = codes "ring" ∷ codes "ring" ∷ codes "call" ∷ [];
  mqtt_handlers = codes "home/#" ∷ codes "home/+" ∷ [];
  wants_syslog = true;
  channel = idle;
}

abbrev loading : Runner
loading = record listening { loaded = false }

abbrev runners : Map Runner
runners = (codes "a", listening) ∷ (codes "b", loading) ∷ []

abbrev entity : Text → Text
entity payload = payload

abbrev lamp_on : HaEvent
lamp_on = record { typ = codes "state_changed"; payload = codes "lamp" }

known : lookup (codes "a") runners ≡ some listening
unfolding lookup text_eq
known = refl

types : event_types listening ≡ codes "ring" ∷ codes "call" ∷ []
unfolding event_types distinct has_text text_eq
types = refl

dispatch-lookup_example :
    (wanted : Bool) × (lookup (codes "a") (dispatch text_eq entity lamp_on runners)
      ≡ some (offered wanted (ha_event lamp_on) listening))
    × ((wanted ≡ true) ↔ (
        (true ≡ false)
        ⊎ (((lamp_on.typ ≡ codes "state_changed")
              × Any (λ p. text_eq p (entity lamp_on.payload) ≡ true) listening.state_patterns)
            ⊎ ((lamp_on.typ ≢ codes "state_changed")
                × Any (λ t. t ≡ lamp_on.typ) listening.event_handlers))))
dispatch-lookup_example = dispatch-lookup text_eq entity lamp_on (codes "a") runners listening known
