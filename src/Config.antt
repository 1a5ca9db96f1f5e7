-- ===== src/Config.antt =====
-- The configuration and the choice of the broker: ha-lua/internal/config/config.go, ha-lua/internal/mqtt/supervisor.go, and startMQTT
-- of ha-lua/cmd/ha-lua/main.go.
pub mod Brokers
mod Tests
use ha_lua.Base.{
  ℕ, ◌+◌, ℤ, pos, Bool, true, false, not, ◌&&◌, ◌||◌, ◌==◌, ltb, leb, List, [], ◌∷◌, ◌++◌, ◌≡◌,
  Option, none, some, Text, is_empty, has_prefix, has_byte, codes, if◌then◌else◌, Result, ok, err,
}

-- `KeepRule`
pub record KeepRule : Type 0 where
  pub pattern : Text
  pub days : ℤ

-- `mqtt.Config`, and the option group of the same fields
pub record BrokerConfig : Type 0 where
  pub broker : Text
  pub username : Text
  pub password : Text
  pub client_id : Text

-- `Config`
pub record Config : Type 0 where
  pub url : Text
  pub token : Text
  pub scripts_dir : Text
  pub database : Text
  pub log_level : Text
  pub timezone : Text
  pub log_dir : Text
  pub http_port : ℤ
  pub syslog_port : ℤ
  pub ingress_port : ℤ
  pub examples_dir : Text
  pub cards_dir : Text
  pub retention_days : ℤ
  pub purge_every : Text
  pub keep_rules : List KeepRule
  pub mqtt : BrokerConfig
  pub pprof_addr : Text

-- `PurgeInterval`, in nanoseconds
unfoldable pub purge_interval : (Text → Option ℤ) → Config → Option ℤ
purge_interval parse_duration c =
    if is_empty c.purge_every then some (pos 3600000000000) else parse_duration c.purge_every

unfoldable pub or_default : Text → Text → Text
or_default s d = if is_empty s then d else s

unfoldable pub is_zero : ℤ → Bool
is_zero (pos n) = n == 0
is_zero _ = false

-- `strings.Contains(s, sub)`
unfoldable pub contains_text : Text → Text → Bool
contains_text [] sub = has_prefix [] sub
contains_text (c ∷ s) sub = has_prefix (c ∷ s) sub || contains_text s sub

-- A byte that is neither white space nor part of a longer character.
abbrev pub visible : ℕ → Bool
visible c = ltb 32 c && ltb c 127

-- What the source relies on of strings.TrimSpace.
pub record IsTrimSpace (trim_space : Text → Text) : Type 0 where
  pub again : (s : Text) → trim_space (trim_space s) ≡ trim_space s
  pub front : (c : ℕ) (s : Text) → visible c ≡ true → trim_space s ≡ s → trim_space (c ∷ s) ≡ c ∷ s
  pub back :
      (s : Text) (c : ℕ)
      → visible c ≡ true
      → trim_space s ≡ s
      → trim_space (s ++ c ∷ []) ≡ s ++ c ∷ []

-- What the add-on mode fixes.
unfoldable pub as_addon : Text → Config → Config
as_addon token c = record c {
  url = codes "ws://supervisor/core/websocket";
  token = token;
  ingress_port = pos 8099;
  log_dir = codes "/config/ha-lua/logs";
  examples_dir = codes "/config/ha-lua/examples";
  cards_dir = codes "/config/www/ha-lua";
}

module _ (trim_space : Text → Text) where
  -- `normalizeBroker`
  unfoldable pub with_scheme : Text → Text
  with_scheme broker =
      if is_empty broker || contains_text broker (codes "://")
      then broker
      else codes "tcp://" ++ (if not (has_byte 58 broker) then broker ++ codes ":1883" else broker)

  unfoldable pub normalize_broker : Text → Text
  normalize_broker broker = with_scheme (trim_space broker)

  -- `Defaults`
  unfoldable pub defaults : Config → Config
  defaults c = record c {
    scripts_dir = or_default c.scripts_dir (codes "/config/ha-lua/scripts");
    database = or_default c.database (codes "/data/ha-lua.db");
    log_level = or_default c.log_level (codes "info");
    retention_days = if is_zero c.retention_days then pos 2 else c.retention_days;
    purge_every = or_default c.purge_every (codes "1h");
    mqtt = record (c.mqtt) { broker = normalize_broker c.mqtt.broker };
  }

  -- `load`: the decoded file, none when it cannot be read or parsed.
  unfoldable pub load : Option Config → Bool → Text → Option Config
  load decoded addon token = elim decoded [
    | none ↦ none
    | some c ↦ let filled = defaults c in some (if addon then as_addon token filled else filled)
  ]

-- The service that the Supervisor reports.
pub record Service : Type 0 where
  pub host : Text
  pub port : ℤ
  pub ssl : Bool
  pub username : Text
  pub password : Text

-- The reply to the query: the request failed, or its status and the body, none if it does not decode.
pub data Reply : Type 0 where
  no_reply : Reply
  status : ℕ → Option Service → Reply

pub data Error : Type 0 where
  no_token query_failed bad_status bad_reply : Error

unfoldable pub no_broker : BrokerConfig
no_broker = record { broker = []; username = []; password = []; client_id = [] }

-- What `startMQTT` makes of the answer.
unfoldable pub found_or : BrokerConfig → Result Error BrokerConfig → BrokerConfig
found_or own (err e) = own
found_or own (ok found) = if not (is_empty found.broker) then found else own

-- `Discover`; `decimal` is %d.
module _ (decimal : ℤ → Text) where
  unfoldable pub service_config : Service → BrokerConfig
  service_config s = if is_empty s.host then no_broker else record {
    broker =
        (if s.ssl then codes "ssl" else codes "tcp")
        ++ codes "://"
        ++ s.host
        ++ 58 ∷ decimal (if is_zero s.port then pos 1883 else s.port);
    username = s.username;
    password = s.password;
    client_id = [];
  }

  unfoldable pub discovered : Reply → Result Error BrokerConfig
  discovered no_reply = err query_failed
  discovered (status code body) =
      if code == 400 || code == 404
      then ok no_broker
      else (if not (code == 200)
          then err bad_status
          else elim body [ none ↦ err bad_reply | some s ↦ ok (service_config s) ])

  unfoldable pub discover : Text → Reply → Result Error BrokerConfig
  discover token reply = if is_empty token then err no_token else discovered reply

  -- The start of `startMQTT`: the configuration that the client is built with.
  unfoldable pub chosen : Text → Reply → Config → BrokerConfig
  chosen token reply c =
      if is_empty c.mqtt.broker then found_or c.mqtt (discover token reply) else c.mqtt
