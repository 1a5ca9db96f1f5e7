-- ===== src/Mqtt/Broker/Tests.antt =====
-- Two scripts, a subscription before the connection, one after, and a connection that is lost.
use ha_lua.Base.{
  ◌+◌, ◌≡◌, refl, true, List, [], ◌∷◌, none, text_eq, text_lt, codes, sort_by, insert_by, split,
  glue, has_byte, if◌then◌else◌,
}
use ha_lua.Mqtt.Topic.{validate_filter, levels_error, level_error}
use ha_lua.Mqtt.Broker.{
  contains, remove, Link, new, enabled, filter_list, start, on_connect, resubscribe,
  connection_lost, record_filter, subscribe, hand, Move, started, resubscribed, opened, lost, asked,
  handed, step, run,
}
use ha_lua.Mqtt.Broker.Covered.{times, run-covers}

abbrev moves : List Move
moves =
    asked (codes "b")
    ∷ started
    ∷ opened 3
    ∷ resubscribed
    ∷ asked (codes "a")
    ∷ handed (codes "a")
    ∷ asked (codes "a")
    ∷ lost (codes "eof") 9
    ∷ opened 12
    ∷ []

abbrev link : Link
link = run moves (new (codes "tcp://h"))

-- The reconnect has both filters to send, in order.
link-up : link.connected ≡ true
unfolding run step new enabled start on_connect resubscribe connection_lost record_filter subscribe
    hand contains remove text_eq validate_filter levels_error level_error split glue has_byte
    filter_list sort_by insert_by text_lt
link-up = refl

run-covers_example :
    (times (codes "a") link.sent + times (codes "a") link.pending + times (codes "a") link.inflight
      ≡ (if contains (codes "a") link.filters then 1 else 0))
    × (contains (codes "a") link.filters ≡ true → validate_filter (codes "a") ≡ none)
run-covers_example = run-covers moves (codes "tcp://h") (codes "a") link-up
