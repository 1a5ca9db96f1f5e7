-- ===== src/Dispatch/Delivery.antt =====
-- What each script's channel holds after a dispatch.
use ha_lua.Base.{
  ℕ, ◌+◌, ◌≡◌, ◌↔◌, refl, ap, ◌∙◌, Bool, true, false, not, List, [], ◌∷◌, ◌++◌, Option, none, some,
  Text, text_eq, text_eq_iff, Map, lookup, length, ltb, if◌then◌else◌, arith, Bool-cases,
  Option-cases, inl, inr, Any, ◌⊎◌, ◌≢◌, codes, lookup-insert,
}
use ha_lua.Mqtt.Topic.{match}
use ha_lua.Runner.Loop.{
  HaEvent, Event, ha_event, timer_fired, mqtt_message, syslog_message, send, channel_cap,
}
use ha_lua.Dispatch.{
  Runner, has_text, mqtt_filters, send_to, fan_out, matches_any, dispatch_mqtt, refusals,
  dispatch_syslog, dispatch_to_timer, any_glob, wants_ha_event, dispatch,
}

-- A runner after an event that it wants or not: the event behind the queue, or counted as dropped by a full one.
unfoldable pub offered : Bool → Event → Runner → Runner
offered wanted ev r =
    if not wanted
    then r
    else if ltb (length r.channel.queue) channel_cap
    then record r { channel = record r.channel { queue = r.channel.queue ++ ev ∷ [] } }
    else record r { channel = record r.channel { dropped = r.channel.dropped + 1 } }

-- A result of `Option` under a function.
abbrev pub then_offered : (Runner → Bool) → Event → Option Runner → Option Runner
then_offered wants ev none = none
then_offered wants ev (some r) = some (offered (wants r) ev r)

send_to-offered : (ev : Event) (r : Runner) → (send_to ev r).0 ≡ offered true ev r
unfolding send_to send offered
send_to-offered ev r = elim (Bool-cases (ltb (length r.channel.queue) channel_cap)) [
  | inl room ↦ rw (room) refl
  | inr full ↦ rw (full) refl
]

one-offered :
    (wanted : Bool) (ev : Event) (r : Runner)
    → (if wanted then (send_to ev r).0 else r) ≡ offered wanted ev r
unfolding offered
one-offered true ev r = unfold offered in send_to-offered ev r
one-offered false ev r = refl

lookup-fan_out :
    (wants : Runner → Bool) (ev : Event) (runners : Map Runner) (id : Text)
    → lookup id (fan_out wants ev runners) ≡ then_offered wants ev (lookup id runners)
unfolding fan_out lookup
lookup-fan_out wants ev [] id = refl
lookup-fan_out wants ev ((k, r) ∷ runners) id =
    ground (arith, lookup-fan_out wants ev runners id, one-offered (wants r) ev r)

has_text_iff : (t : Text) (ts : List Text) → (has_text t ts ≡ true) ↔ Any (λ u. u ≡ t) ts
unfolding has_text
has_text_iff t [] = ground arith
has_text_iff t (u ∷ ts) = ground (arith, has_text_iff t ts, text_eq_iff u t)

matches_any_iff :
    (topic : Text) (filters : List Text)
    → (matches_any topic filters ≡ true) ↔ Any (λ f. match f topic ≡ true) filters
unfolding matches_any
matches_any_iff topic [] = ground arith
matches_any_iff topic (f ∷ filters) = ground (arith, matches_any_iff topic filters)

-- After a message is dispatched, a script's runner has been offered it, once, exactly when it has loaded and
-- one of its filters or more match the topic; otherwise it is as before.
pub dispatch_mqtt-lookup :
    (topic msg id : Text) (runners : Map Runner) (r : Runner)
    → lookup id runners ≡ some r
    → (wanted : Bool) × (lookup id (dispatch_mqtt topic msg runners)
        ≡ some (offered wanted (mqtt_message msg) r))
      × ((wanted ≡ true) ↔ ((r.loaded ≡ true) × Any (λ f. match f topic ≡ true) r.mqtt_handlers))
unfolding dispatch_mqtt
dispatch_mqtt-lookup topic msg id runners r e =
    let wants = λ (x : Runner). matches_any topic (mqtt_filters x) in
    (
      wants r,
      lookup-fan_out wants (mqtt_message msg) runners id
          ∙ ap (then_offered wants (mqtt_message msg)) e,
      unfold mqtt_filters matches_any in ground (arith, matches_any_iff topic r.mqtt_handlers),
    )

-- The dropped events of all the channels.
unfoldable pub total_dropped : Map Runner → ℕ
total_dropped [] = 0
total_dropped ((id, r) ∷ runners) = r.channel.dropped + total_dropped runners

dropped-fan_out :
    (wants : Runner → Bool) (ev : Event) (runners : Map Runner)
    → total_dropped (fan_out wants ev runners) ≡ total_dropped runners + refusals wants ev runners
unfolding total_dropped fan_out refusals send_to send
dropped-fan_out wants ev [] = omega arith
dropped-fan_out wants ev ((id, r) ∷ runners) = ground (
  arith,
  dropped-fan_out wants ev runners,
  Bool-cases (wants r),
  Bool-cases (ltb (length r.channel.queue) channel_cap),
)

-- A syslog line raises the registry's counter by as much as the channels' own counters, taken together.
pub dispatch_syslog-dropped :
    (msg : Text) (runners : Map Runner) (dropped : ℕ)
    → total_dropped (dispatch_syslog msg runners dropped).0 + dropped
      ≡ total_dropped runners + (dispatch_syslog msg runners dropped).1
unfolding dispatch_syslog
dispatch_syslog-dropped msg runners dropped =
    omega (arith, dropped-fan_out (λ r. r.wants_syslog) (syslog_message msg) runners)

-- After a timer fires, its script's runner has been offered the event, and every other runner is as before.
pub dispatch_to_timer-lookup :
    (script timer id : Text) (runners : Map Runner)
    → lookup id (dispatch_to_timer script timer runners)
      ≡ then_offered (λ r. text_eq script id) (timer_fired timer) (lookup id runners)
unfolding dispatch_to_timer offered
dispatch_to_timer-lookup script timer id runners = elim (Option-cases (lookup script runners)) [
  | inl gone ↦ elim (Option-cases (lookup id runners)) [
    | inl none_here ↦ ground (arith, gone, none_here)
    | inr (r, here) ↦ ground (arith, gone, here, text_eq_iff script id)
  ]
  | inr (r, known) ↦ ground (
    arith,
    known,
    lookup-insert script id (send_to (timer_fired timer) r).0 runners,
    text_eq_iff script id,
    send_to-offered (timer_fired timer) r,
    Option-cases (lookup id runners),
  )
]

module _ (glob : Text → Text → Bool) (entity_of : Text → Text) where
  any_glob_iff :
      (id : Text) (patterns : List Text)
      → (any_glob glob entity_of id patterns ≡ true) ↔ Any (λ p. glob p id ≡ true) patterns
  unfolding any_glob
  any_glob_iff id [] = ground arith
  any_glob_iff id (p ∷ patterns) = ground (arith, any_glob_iff id patterns)

  -- After an event of Home Assistant is dispatched, a script's runner has been offered it, once, exactly when it
  -- is still loading, or the event is a state change and one of its patterns matches the entity, or the event
  -- is another one and it has a handler for the type; otherwise it is as before.
  pub dispatch-lookup :
      (ev : HaEvent) (id : Text) (runners : Map Runner) (r : Runner)
      → lookup id runners ≡ some r
      → (wanted : Bool) × (lookup id (dispatch glob entity_of ev runners)
          ≡ some (offered wanted (ha_event ev) r))
        × ((wanted ≡ true) ↔ (
            (r.loaded ≡ false)
            ⊎ (((ev.typ ≡ codes "state_changed")
                  × Any (λ p. glob p (entity_of ev.payload) ≡ true) r.state_patterns)
                ⊎ ((ev.typ ≢ codes "state_changed") × Any (λ t. t ≡ ev.typ) r.event_handlers))))
  unfolding dispatch
  dispatch-lookup ev id runners r e =
      let entity = if text_eq ev.typ (codes "state_changed") then entity_of ev.payload else [] in
      let wants = wants_ha_event glob entity_of ev entity in
      (
        wants r,
        lookup-fan_out wants (ha_event ev) runners id ∙ ap (then_offered wants (ha_event ev)) e,
        unfold wants_ha_event in
            ground (
              arith,
              any_glob_iff (entity_of ev.payload) r.state_patterns,
              has_text_iff ev.typ r.event_handlers,
              text_eq_iff ev.typ (codes "state_changed"),
            ),
      )
