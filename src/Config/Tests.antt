-- ===== src/Config/Tests.antt =====
-- A broker that is named as a user types it, and one that is discovered.
use ha_lua.Base.{ℤ, pos, Bool, true, false, [], List, Option, some, none, Text, codes, ◌≡◌, refl}
use ha_lua.Config.{
  Config, IsTrimSpace, Service, Reply, status, defaults, as_addon, load, with_scheme,
  normalize_broker, contains_text,
}
use ha_lua.Config.Brokers.{IsReady, load-IsReady}

abbrev empty : Config
empty = record {
  url = [];
  token = [];
  scripts_dir = [];
  database = [];
  log_level = [];
  timezone = [];
  log_dir = [];
  http_port = pos 0;
  syslog_port = pos 0;
  ingress_port = pos 0;
  examples_dir = [];
  cards_dir = [];
  retention_days = pos 0;
  purge_every = [];
  keep_rules = [];
  mqtt = record { broker = []; username = []; password = []; client_id = [] };
  pprof_addr = [];
}

-- The trimming of texts without white space around them.
abbrev same : Text → Text
same s = s

same-IsTrimSpace : IsTrimSpace same
same-IsTrimSpace = record {
  again = λ s. refl;
  front = λ c s seen e. refl;
  back = λ s c seen e. refl;
}

abbrev service : Service
service = record {
  host = codes "mosquitto";
  port = pos 0;
  ssl = true;
  username = codes "u";
  password = codes "p";
}

abbrev answer : Reply
answer = status 200 (some service)

typed : normalize_broker same (codes "core-mosquitto") ≡ codes "tcp://core-mosquitto:1883"
unfolding normalize_broker with_scheme contains_text ha_lua.Base.has_prefix ha_lua.Base.has_byte
typed = refl

load-IsReady_example :
    IsReady same (λ n. codes "1883") (codes "t") answer (as_addon (codes "t") (defaults same empty))
load-IsReady_example =
    load-IsReady same same-IsTrimSpace (λ n. codes "1883") answer (some empty) true (codes "t")
      (as_addon (codes "t") (defaults same empty)) (unfold load in refl)
