-- ===== src/Handlers/Wanted.antt =====
-- The registry's tests for a script, against what the script does with what it is sent.
use ha_lua.Base.{Bool, true, false, List, [], ◌∷◌}
use ha_lua.Mqtt.Broker as Broker
use ha_lua.Dispatch.{Runner}
use ha_lua.Script.{calls}
use ha_lua.Handlers.{Invocation}

-- Whether any call is made.
unfoldable pub calls_any : List Invocation → Bool
calls_any [] = false
calls_any (c ∷ calls) = true
