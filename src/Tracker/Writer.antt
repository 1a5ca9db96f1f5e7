-- ===== src/Tracker/Writer.antt =====
-- The write-behind queue and the writer goroutine: `enqueue`, `drainQueue`, `commitBatch` and
-- `writeBatch` of tracker.go.
pub mod Order
mod Tests
use ha_lua.Base.{
  ℕ, zero, suc, ◌+◌, Bool, true, false, not, ◌&&◌, ◌||◌, List, [], ◌∷◌, ◌++◌, length, take, drop,
  ltb, if◌then◌else◌,
}
use ha_lua.Tracker.Mirror.{StateData}

-- `writeReq`; a flush marker is named by a number.
pub data WriteReq : Type 0 where
  upsert : StateData → WriteReq
  flush : ℕ → WriteReq

abbrev pub write_queue_cap : ℕ
write_queue_cap = 1024

-- The queue, the committed rows and the markers that are closed.
pub record Writer : Type 0 where
  pub queue : List WriteReq
  pub history : List StateData
  pub closed : List ℕ

pub fresh : Writer
fresh = record { queue = []; history = []; closed = [] }

-- The rows that the loop of `writeBatch` inserts.
pub rows : List WriteReq → List StateData
rows [] = []
rows (upsert s ∷ batch) = s ∷ rows batch
rows (flush n ∷ batch) = rows batch

-- The markers that the last loop of `commitBatch` closes.
pub markers : List WriteReq → List ℕ
markers [] = []
markers (upsert s ∷ batch) = markers batch
markers (flush n ∷ batch) = n ∷ markers batch

-- The count of the first loop of `commitBatch`.
pub work : List WriteReq → ℕ
work [] = 0
work (upsert s ∷ batch) = suc (work batch)
work (flush n ∷ batch) = work batch

-- `writeBatch`: a transaction that commits every row or, on any error, none.
pub write_batch : Bool → List WriteReq → List StateData → List StateData
write_batch succeeds batch history = if succeeds then history ++ rows batch else history

-- `commitBatch`, with the outcomes of the two attempts.
pub commit_batch : Bool → Bool → List WriteReq → Writer → Writer
commit_batch first second batch w = record w {
  history =
      if ltb 0 (work batch)
      then if first then write_batch true batch w.history else write_batch second batch w.history
      else w.history;
  closed = w.closed ++ markers batch;
}

-- What can happen to the queue: a caller puts a request, or the writer takes the first `suc n`
-- requests that are there and commits them.
pub data Act : Type 0 where
  put : WriteReq → Act
  commit : ℕ → Bool → Bool → Act

-- `enqueue`: a full queue blocks the caller, whose request is not in it yet.
pub step : Writer → Act → Writer
step w (put r) =
    if ltb (length w.queue) write_queue_cap then record w { queue = w.queue ++ r ∷ [] } else w
step w (commit n first second) =
    commit_batch first second (take (suc n) w.queue) (record w { queue = drop (suc n) w.queue })

pub run : Writer → List Act → Writer
run w [] = w
run w (a ∷ acts) = run (step w a) acts
