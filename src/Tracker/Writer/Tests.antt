-- ===== src/Tracker/Writer/Tests.antt =====
-- Tests of the writer, and the theorems at concrete acts.
use ha_lua.Base.{◌≤◌, ◌≡◌, refl, true, false, List, [], ◌∷◌, ◌++◌, codes, length}
use ha_lua.Tracker.Mirror.{StateData}
use ha_lua.Tracker.Writer.{
  WriteReq, upsert, flush, fresh, rows, markers, work, write_batch, commit_batch, Act, put, commit,
  step, run, write_queue_cap,
}
use ha_lua.Tracker.Writer.Order.{accepted, run-closed, run-history}

writer_code : Unit {0}
unfolding fresh rows markers work write_batch commit_batch step run accepted
writer_code = tt

abbrev reading : StateData
reading = record {
  entity_id = codes "t";
  state = codes "21";
  attributes = codes "{}";
  last_changed = codes "1";
  last_updated = codes "1";
  context = record { id = []; parent_id = []; user_id = [] };
}

abbrev acts : List Act
acts = put (upsert reading) ∷ put (flush 7) ∷ commit 5 false true ∷ put (flush 8) ∷ []

barrier : run fresh acts ≡ record { queue = flush 8 ∷ []; history = reading ∷ []; closed = 7 ∷ [] }
unfolding writer_code
barrier = refl

dropped :
    run fresh (put (upsert reading) ∷ put (flush 7) ∷ commit 1 false false ∷ [])
    ≡ record { queue = []; history = []; closed = 7 ∷ [] }
unfolding writer_code
dropped = refl

run-closed_example :
    (batch : List WriteReq) × (batch ++ (run fresh acts).queue ≡ accepted fresh acts)
    × ((run fresh acts).closed ≡ markers batch)
    × (length (run fresh acts).queue ≤ write_queue_cap)
run-closed_example = run-closed acts

run-history_example :
    (batch : List WriteReq) × (batch ++ (run fresh acts).queue ≡ accepted fresh acts)
    × ((run fresh acts).history ≡ rows batch)
    × ((run fresh acts).closed ≡ markers batch)
run-history_example = run-history acts (tt, (tt, (refl, (tt, tt))))
