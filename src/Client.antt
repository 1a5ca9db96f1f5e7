-- ===== src/Client.antt =====
-- The client of Home Assistant's WebSocket: subscriptions over reconnects, the results of commands, and the
-- delay between attempts. ha-lua/internal/ha/client.go.
pub mod Subscriptions
pub mod Commands
pub mod Backoff
mod Tests
use ha_lua.Base.{
  ℕ, ◌+◌, ◌*◌, Bool, true, false, not, ◌&&◌, ◌||◌, List, [], ◌∷◌, ◌++◌, Option, none, some, Text,
  text_eq, codes, is_empty, ltb, leb, ◌==◌, if◌then◌else◌,
}

unfoldable pub contains : Text → List Text → Bool
contains t [] = false
contains t (u ∷ us) = if text_eq u t then true else contains t us

-- The fields for subscriptions: whether `conn` is set, `eventTypes` and `subscribed`. `sent` holds the subscribe
-- messages of the connection, in order, and `synced` tells whether `connect` has passed its subscribing section.
pub record Link : Type 0 where
  pub up : Bool
  pub event_types : List Text
  pub subscribed : List Text
  pub sent : List Text
  pub synced : Bool

unfoldable pub new : Link
new = record { up = false; event_types = []; subscribed = []; sent = []; synced = false }

-- A type is marked before its message is sent.
unfoldable pub mark : Text → Link → Link
mark t c =
    if contains t c.subscribed
    then c
    else record c { subscribed = t ∷ c.subscribed; sent = c.sent ++ t ∷ [] }

unfoldable pub add_event_type : Text → Link → Link
add_event_type t c =
    if contains t c.event_types
    then c
    else (let added = record c { event_types = c.event_types ++ t ∷ [] } in
        if c.up then mark t added else added)

-- `connect` after `auth`: a fresh connection has no subscription.
unfoldable pub publish : Link → Link
publish c = record c { up = true; subscribed = []; sent = []; synced = false }

unfoldable pub mark_all : List Text → Link → Link
mark_all [] c = c
mark_all (t ∷ ts) c = mark_all ts (mark t c)

-- The subscribing section of `connect`.
unfoldable pub subscribe_all : Link → Link
subscribe_all c = record (mark_all (codes "state_changed" ∷ c.event_types) c) { synced = true }

-- The deferred function of `connect`.
unfoldable pub hang_up : Link → Link
hang_up c = record c { up = false }

-- What can happen, each under the lock; a connection subscribes only after it is published.
pub data Move : Type 0 where
  add : Text → Move
  connected subscribe disconnected : Move

unfoldable pub step : Move → Link → Link
step (add t) c = add_event_type t c
step connected c = publish c
step subscribe c = if c.up then subscribe_all c else c
step disconnected c = hang_up c

unfoldable pub run : List Move → Link → Link
run [] c = c
run (m ∷ moves) c = run moves (step m c)

-- `cmdResult`, its payload as JSON text.
pub record CmdResult : Type 0 where
  pub success : Bool
  pub err_msg : Text
  pub result : Text

-- The message of a failed result: its text, its code, or a fixed one.
unfoldable pub error_text : Bool → Text → Text → Text
error_text success message code =
    if success
    then []
    else if not (is_empty message)
    then message
    else if not (is_empty code)
    then code
    else codes "unknown error"

-- What `deliverResult` makes of a frame that decodes.
unfoldable pub result_of : Bool → Text → Text → Text → CmdResult
result_of success message code payload = record {
  success = success;
  err_msg = error_text success message code;
  result = payload;
}

abbrev pub connection_lost : CmdResult
connection_lost = record { success = false; err_msg = codes "connection lost"; result = [] }

abbrev pub second : ℕ
second = 1000000000

-- The end of a round of `loop`: a connection that lived over a minute resets the delay; the result is the delay that
-- is waited and the next one.
unfoldable pub back_off : ℕ → ℕ → ℕ × ℕ
back_off lived backoff =
    (let now = if ltb (60 * second) lived then second else backoff in
      (now, if leb (now * 2) (60 * second) then now * 2 else 60 * second))

-- The delays waited over the rounds of `loop`, by how long each connection lived.
unfoldable pub delays : List ℕ → ℕ → List ℕ
delays [] backoff = []
delays (lived ∷ rounds) backoff =
    (back_off lived backoff).0 ∷ delays rounds (back_off lived backoff).1
