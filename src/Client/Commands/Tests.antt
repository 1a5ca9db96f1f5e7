-- ===== src/Client/Commands/Tests.antt =====
-- Two commands of a connection that ends, one of them answered in time, and one that is tried after it.
use ha_lua.Base.{refl, true, List, [], ◌∷◌, ◌++◌, All}
use ha_lua.Client.{CmdResult}
use ha_lua.Client.Commands.{
  new, drain, Move, connected, disconnected, ask, result, taken, forgotten, run,
}
use ha_lua.Client.Commands.Runs.{IsAnswered, drain-IsAnswered}

abbrev fine : CmdResult
fine = record { success = true; err_msg = []; result = [] }

abbrev before : List Move
before = connected ∷ ask ∷ ask ∷ result 1 fine ∷ taken 1 ∷ []

abbrev after : List Move
after = forgotten 1 ∷ ask ∷ []

drain-IsAnswered_example :
    All
      (IsAnswered (before ++ disconnected ∷ after))
      (drain (run (before ++ disconnected ∷ after) new)).commands
drain-IsAnswered_example = drain-IsAnswered before after (refl, (refl, tt))
