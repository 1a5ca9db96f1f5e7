-- ===== src/Runner/Loop.antt =====
-- The event channel and the event loop of a script: `Send`, `haEventCoalesceKey` and the loop of
-- `Start`.
pub mod Window
pub mod Delivery
pub mod Rounds
pub mod Runs
mod Tests
use ha_lua.Base.{
  ℕ, zero, suc, ◌+◌, Bool, true, false, not, ◌&&◌, ◌||◌, List, [], ◌∷◌, ◌++◌, Option, none, some,
  Text, text_eq, is_empty, codes, Map, lookup, insert, length, set, ltb, if◌then◌else◌,
}

-- `ha.Event`: its type, and its data as JSON text.
pub record HaEvent : Type 0 where
  pub typ : Text
  pub payload : Text

-- `Event`: a script gets one of its four fields.
pub data Event : Type 0 where
  ha_event : HaEvent → Event
  timer_fired mqtt_message syslog_message : Text → Event

-- The event channel of capacity 256, and the counter of the events that a full one drops.
pub record Channel : Type 0 where
  pub queue : List Event
  pub dropped : ℕ

abbrev pub channel_cap : ℕ
channel_cap = 256

unfoldable pub send : Event → Channel → Channel × Bool
send ev c =
    if ltb (length c.queue) channel_cap
    then (record c { queue = c.queue ++ ev ∷ [] }, true)
    else (record c { dropped = c.dropped + 1 }, false)

-- `ev.TimerFired != nil || ev.MQTTMessage != nil || ev.SyslogMessage != nil`
abbrev pub bypasses : Event → Bool
bypasses (ha_event e) = false
bypasses (timer_fired id) = true
bypasses (mqtt_message m) = true
bypasses (syslog_message m) = true

-- The variables of the loop: `pending`, `coalesceIdx`, whether `flushC` is set, and the events that
-- were handed to `handleEvent`, in order.
pub record Loop : Type 0 where
  pub pending : List Event
  pub index : Map ℕ
  pub armed : Bool
  pub handled : List Event

unfoldable pub start : Loop
start = record { pending = []; index = []; armed = false; handled = [] }

unfoldable pub flush : Loop → Loop
flush l = record { pending = []; index = []; armed = false; handled = l.handled ++ l.pending }

-- What wakes the loop besides requests and the errors of asynchronous calls: an event, the flush timer,
-- the closed channel, or the cancelled context.
pub data Input : Type 0 where
  event : Event → Input
  tick close cancel : Input

-- `entity_of` is `stateEventEntityID`: the entity of a payload, or "".
module _ (entity_of : Text → Text) where
  -- `haEventCoalesceKey`
  unfoldable pub coalesce_key : Event → Option Text
  coalesce_key (ha_event e) =
      if text_eq e.typ (codes "state_changed")
      then if is_empty (entity_of e.payload) then none else some (entity_of e.payload)
      else none
  coalesce_key (timer_fired id) = none
  coalesce_key (mqtt_message m) = none
  coalesce_key (syslog_message m) = none

  -- `pending = append(pending, ev)`, which arms the timer
  unfoldable pub postpone : Event → Loop → Loop
  postpone ev l = record l { pending = l.pending ++ ev ∷ []; armed = true }

  -- The batched part of the loop, by the key of the event.
  unfoldable pub coalesce : Option Text → Event → Loop → Loop
  coalesce none ev l = postpone ev l
  coalesce (some key) ev l = elim (lookup key l.index) [
    | some i ↦ record l { pending = set l.pending i ev }
    | none ↦ postpone ev (record l { index = insert key (length l.pending) l.index })
  ]

  unfoldable pub receive : Bool → Event → Loop → Loop
  receive immediate ev l =
      if immediate || bypasses ev
      then record (flush l) { handled = l.handled ++ l.pending ++ ev ∷ [] }
      else coalesce (coalesce_key ev) ev l

  -- One round.
  unfoldable pub step : Bool → Input → Loop → Loop
  step immediate (event ev) l = receive immediate ev l
  step immediate tick l = flush l
  step immediate close l = flush l
  step immediate cancel l = l

  -- The loop: the closed channel and the cancelled context end it, whatever comes after.
  unfoldable pub run : Bool → List Input → Loop → Loop
  run immediate [] l = l
  run immediate (event ev ∷ inputs) l = run immediate inputs (step immediate (event ev) l)
  run immediate (tick ∷ inputs) l = run immediate inputs (step immediate tick l)
  run immediate (close ∷ inputs) l = step immediate close l
  run immediate (cancel ∷ inputs) l = step immediate cancel l
