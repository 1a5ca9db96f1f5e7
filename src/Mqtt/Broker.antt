-- ===== src/Mqtt/Broker.antt =====
-- The broker connection that the scripts share: ha-lua/internal/mqtt/client.go.
pub mod Covered
mod Tests
use ha_lua.Base.{
  ℕ, ◌+◌, Bool, true, false, not, ◌&&◌, ◌||◌, List, [], ◌∷◌, ◌++◌, Option, none, some, Text,
  text_eq, text_lt, is_empty, codes, sort_by, if◌then◌else◌,
}
use ha_lua.Mqtt.Topic.{FilterError, validate_filter}

unfoldable pub contains : Text → List Text → Bool
contains t [] = false
contains t (u ∷ us) = if text_eq u t then true else contains t us

-- Takes the first occurrence out.
unfoldable pub remove : Text → List Text → List Text
remove t [] = []
remove t (u ∷ us) = if text_eq u t then us else u ∷ remove t us

-- The configuration's broker and the fields under the lock, `started` for a `cli` that is set. Then what goroutines have yet
-- to send: `pending` is the rest of the loop of the OnConnect handler, `inflight` the calls of `Subscribe` since the connection that
-- are past their critical section, and `late` both of these from earlier connections. `sent` and `stray` are the filters that the
-- former and the latter have handed to the broker since the connection.
pub record Link : Type 0 where
  pub broker : Text
  pub started : Bool
  pub connected : Bool
  pub filters : List Text
  pub reconnects : ℕ
  pub last_error : Option (Text × ℕ)
  pub connected_at : ℕ
  pub pending : List Text
  pub inflight : List Text
  pub late : List Text
  pub sent : List Text
  pub stray : List Text

unfoldable pub new : Text → Link
new broker = record {
  broker = broker;
  started = false;
  connected = false;
  filters = [];
  reconnects = 0;
  last_error = none;
  connected_at = 0;
  pending = [];
  inflight = [];
  late = [];
  sent = [];
  stray = [];
}

unfoldable pub enabled : Link → Bool
enabled c = not (is_empty c.broker)

-- What a token says when the wait for it is over.
pub data Token : Type 0 where
  unfinished finished : Token
  refused : Text → Token

pub data Error : Type 0 where
  disabled not_started not_connected timed_out : Error
  invalid : FilterError → Error
  broker_error : Text → Error

-- `wait`
unfoldable pub wait : Token → Option Error
wait unfinished = some timed_out
wait finished = none
wait (refused e) = some (broker_error e)

-- `filterList`
unfoldable pub filter_list : Link → List Text
filter_list c = sort_by text_lt c.filters

-- The section of `Start` that stores the client.
unfoldable pub start : Link → Link
start c = if enabled c then record c { started = true } else c

-- The critical section of the OnConnect handler, at an instant.
unfoldable pub on_connect : ℕ → Link → Link
on_connect now c = record c {
  connected = true;
  connected_at = now;
  pending = filter_list c;
  inflight = [];
  late = c.late ++ c.pending ++ c.inflight;
  sent = [];
  stray = [];
}

-- One pass of the handler's loop; a failure is logged.
unfoldable pub resubscribe : Link → Link
resubscribe c = elim (c.pending) [
  | [] ↦ c
  | f ∷ rest ↦ record c { pending = rest; sent = c.sent ++ f ∷ [] }
]

unfoldable pub connection_lost : Text → ℕ → Link → Link
connection_lost e now c = record c {
  connected = false;
  reconnects = c.reconnects + 1;
  last_error = some (e, now);
}

-- What `Subscribe` does when its critical section is over: it returns, or it sends and waits.
pub data Answer : Type 0 where
  failed : Error → Answer
  done sends : Answer

unfoldable pub record_filter : Text → Link → Link × Answer
record_filter f c =
    if contains f c.filters
    then (c, done)
    else (let known = record c { filters = c.filters ++ f ∷ [] } in
        if not c.started || not c.connected
        then (known, done)
        else (record known { inflight = known.inflight ++ f ∷ [] }, sends))

unfoldable pub subscribe : Text → Link → Link × Answer
subscribe f c =
    if not (enabled c)
    then (c, failed disabled)
    else elim (validate_filter f) [ some e ↦ (c, failed (invalid e)) | none ↦ record_filter f c ]

-- A goroutine hands its SUBSCRIBE to the client library; the result of the wait changes nothing here.
unfoldable pub hand : Text → Link → Link
hand f c =
    if contains f c.inflight
    then record c { inflight = remove f c.inflight; sent = c.sent ++ f ∷ [] }
    else c

unfoldable pub hand_late : Text → Link → Link
hand_late f c =
    if contains f c.late then record c { late = remove f c.late; stray = c.stray ++ f ∷ [] } else c

-- `Publish`, with the library's IsConnected and the token of its Publish
unfoldable pub publish : Bool → Token → Link → Option Error
publish is_connected token c =
    if not (enabled c)
    then some disabled
    else (if not c.started
        then some not_started
        else (if not is_connected then some not_connected else wait token))

-- `Stats`
pub record Stats : Type 0 where
  pub broker : Text
  pub connected : Bool
  pub connected_at : Option ℕ
  pub reconnects : ℕ
  pub last_error : Option (Text × ℕ)
  pub filters : List Text

unfoldable pub stats : Link → Stats
stats c = record {
  broker = c.broker;
  connected = c.connected;
  connected_at = if c.connected then some c.connected_at else none;
  reconnects = c.reconnects;
  last_error = c.last_error;
  filters = filter_list c;
}

-- `clientID`, with the result of os.Hostname
unfoldable pub client_id : Text → Option Text → Text
client_id configured hostname =
    if not (is_empty configured)
    then configured
    else codes "ha-lua-" ++ elim hostname [
      | none ↦ codes "addon"
      | some host ↦ if is_empty host then codes "addon" else host
    ]

-- `retryConnect`: what each round of its select meets, and the number of attempts up to its return.
pub data Round : Type 0 where
  cancelled : Round
  tick : Bool → Token → Round

unfoldable pub retry_connect : List Round → ℕ → ℕ × Bool
retry_connect [] n = (n, false)
retry_connect (cancelled ∷ rounds) n = (n, true)
retry_connect (tick is_connected token ∷ rounds) n =
    let rest = retry_connect rounds (n + 1) in
    if is_connected then (n, true) else elim (wait token) [ none ↦ (n + 1, true) | some e ↦ rest ]

-- What can happen, in any order; the library calls the handler of a connection only once `Start` has set it up.
pub data Move : Type 0 where
  started resubscribed : Move
  opened : ℕ → Move
  lost : Text → ℕ → Move
  asked handed handed_late : Text → Move

unfoldable pub step : Move → Link → Link
step started c = start c
step resubscribed c = resubscribe c
step (opened now) c = if c.started then on_connect now c else c
step (lost e now) c = connection_lost e now c
step (asked f) c = (subscribe f c).0
step (handed f) c = hand f c
step (handed_late f) c = hand_late f c

unfoldable pub run : List Move → Link → Link
run [] c = c
run (m ∷ ms) c = run ms (step m c)
