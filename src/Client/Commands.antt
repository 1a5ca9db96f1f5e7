-- ===== src/Client/Commands.antt =====
-- Commands in flight: send, forget, deliverResult, the deferred function of connect, and the goroutines that wait in
-- SendCommandAsync and Query. ha-lua/internal/ha/client.go.
pub mod Answers
pub mod Runs
mod Tests
use ha_lua.Base.{
  ℕ, ◌+◌, Bool, true, false, not, ◌==◌, List, [], ◌∷◌, map, Option, none, some, if◌then◌else◌,
}
use ha_lua.Client.{CmdResult, connection_lost}

-- The map that has the channel of a command: `c.pending`, the map that the deferred function took and has not reached it in yet, or
-- neither.
pub data Place : Type 0 where
  in_pending in_drain nowhere : Place

-- A command: its id, whether its goroutine still waits, and what its channel of capacity one holds.
pub record Command : Type 0 where
  pub id : ℕ
  pub place : Place
  pub waiting : Bool
  pub inbox : Option CmdResult

-- `conn != nil`, `msgID`, and every command that was ever registered.
pub record Session : Type 0 where
  pub up : Bool
  pub msg_id : ℕ
  pub commands : List Command

unfoldable pub new : Session
new = record { up = false; msg_id = 0; commands = [] }

-- A send that a full channel refuses.
unfoldable pub post : CmdResult → Command → Command
post res w = elim w.inbox [ none ↦ record w { inbox = some res } | some old ↦ w ]

unfoldable pub unregister : Command → Command
unregister w = elim w.place [
  | in_pending ↦ record w { place = nowhere }
  | in_drain ↦ w
  | nowhere ↦ w
]

unfoldable pub on_id : ℕ → (Command → Command) → Command → Command
on_id id f w = if w.id == id then f w else w

unfoldable pub each : (Command → Command) → Session → Session
each f s = record s { commands = map f s.commands }

-- NextID and the locked section of `send`; without a connection the caller gets an error.
unfoldable pub send : Session → Session
send s =
    let id = s.msg_id + 1 in
    record s {
      msg_id = id;
      commands =
          if s.up
          then record { id = id; place = in_pending; waiting = true; inbox = none } ∷ s.commands
          else s.commands;
    }

-- The deferred `forget`, which runs once the command's goroutine has stopped waiting.
unfoldable pub forget : ℕ → Session → Session
forget id s = each (on_id id (λ w. if w.waiting then w else unregister w)) s

-- The goroutine takes a result from its channel.
unfoldable pub take_result : Command → Command
take_result w =
    if w.waiting
    then elim w.inbox [ none ↦ w | some res ↦ record w { waiting = false; inbox = none } ]
    else w

-- It stops without one: by the timeout, its context, or a write that fails.
unfoldable pub give_up : Command → Command
give_up w = record w { waiting = false }

-- `deliverResult` for the `result_of` a frame: the lookup in `c.pending`, and the send, which only the goroutine of the connection does.
unfoldable pub accept : CmdResult → Command → Command
accept res w = elim w.place [ in_pending ↦ post res w | in_drain ↦ w | nowhere ↦ w ]

unfoldable pub deliver_result : ℕ → CmdResult → Session → Session
deliver_result id res s = each (on_id id (accept res)) s

-- The locked section of the deferred function: no connection any more, and the map is swapped for an empty one.
unfoldable pub swap : Command → Command
swap w = elim w.place [ in_pending ↦ record w { place = in_drain } | in_drain ↦ w | nowhere ↦ w ]

unfoldable pub hang_up : Session → Session
hang_up s = record (each swap s) { up = false }

-- One round of its loop, in any order of the ids, and all that are left.
unfoldable pub fill : Command → Command
fill w = elim w.place [
  | in_pending ↦ w
  | in_drain ↦ record (post connection_lost w) { place = nowhere }
  | nowhere ↦ w
]

unfoldable pub drain : Session → Session
drain s = each fill s

-- What can happen, in any order.
pub data Move : Type 0 where
  connected disconnected ask : Move
  result : ℕ → CmdResult → Move
  filled taken given_up forgotten : ℕ → Move

unfoldable pub step : Move → Session → Session
step connected s = record s { up = true }
step disconnected s = hang_up s
step ask s = send s
step (result id res) s = deliver_result id res s
step (filled id) s = each (on_id id fill) s
step (taken id) s = each (on_id id take_result) s
step (given_up id) s = each (on_id id give_up) s
step (forgotten id) s = forget id s

unfoldable pub run : List Move → Session → Session
run [] s = s
run (m ∷ moves) s = run moves (step m s)
