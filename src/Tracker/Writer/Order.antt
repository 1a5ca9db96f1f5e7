-- ===== src/Tracker/Writer/Order.antt =====
-- The writer keeps the order of the requests, and closes every marker.
use ha_lua.Base.{
  ℕ, suc, ◌≤◌, ◌≡◌, refl, sym, ap, ◌∙◌, Bool, true, false, ◌||◌, List, [], ◌∷◌, ◌++◌, length, take,
  drop, ltb, if◌then◌else◌, arith, append_assoc, append-nil, length-append, length-drop, Bool-cases,
  inl, inr, All, take-append-drop, ltb→lt,
}
use ha_lua.Tracker.Writer.{
  WriteReq, upsert, flush, Writer, write_queue_cap, fresh, rows, markers, work, write_batch,
  commit_batch, Act, put, commit, step, run,
}

-- The requests that a history of acts puts into the queue, in order.
unfoldable pub accepted : Writer → List Act → List WriteReq
accepted w [] = []
accepted w (put r ∷ acts) =
    let rest = accepted (step w (put r)) acts in
    if ltb (length w.queue) write_queue_cap then r ∷ rest else rest
accepted w (commit n first second ∷ acts) = accepted (step w (commit n first second)) acts

-- No batch fails twice.
abbrev pub Succeeds : Act → Type 0
Succeeds (put r) = Unit
Succeeds (commit n first second) = (first || second) ≡ true

rows-append : (xs ys : List WriteReq) → rows (xs ++ ys) ≡ rows xs ++ rows ys
unfolding rows
rows-append [] ys = refl
rows-append (upsert s ∷ xs) ys = ap (λ l. s ∷ l) (rows-append xs ys)
rows-append (flush n ∷ xs) ys = rows-append xs ys

markers-append : (xs ys : List WriteReq) → markers (xs ++ ys) ≡ markers xs ++ markers ys
unfolding markers
markers-append [] ys = refl
markers-append (upsert s ∷ xs) ys = markers-append xs ys
markers-append (flush n ∷ xs) ys = ap (λ l. n ∷ l) (markers-append xs ys)

rows_of_no_work : (batch : List WriteReq) → work batch ≡ 0 → rows batch ≡ []
unfolding rows work
rows_of_no_work [] h = refl
rows_of_no_work (upsert s ∷ batch) h = absurd (omega arith)
rows_of_no_work (flush n ∷ batch) h = rows_of_no_work batch h

commit_batch-history :
    (first second : Bool) (batch : List WriteReq) (w : Writer)
    → (first || second) ≡ true
    → (commit_batch first second batch w).history ≡ w.history ++ rows batch
unfolding commit_batch write_batch
commit_batch-history first second batch w h =
    ground (arith, rows_of_no_work batch, append-nil w.history)

commit_batch-closed :
    (first second : Bool) (batch : List WriteReq) (w : Writer)
    → (commit_batch first second batch w).closed ≡ w.closed ++ markers batch
unfolding commit_batch
commit_batch-closed first second batch w = refl

-- The requests `all` are a batch that is handled and then the queue, which is within its bound: the
-- markers of the batch are closed, and its rows, if `good` holds, are the history.
pub record Handled (all : List WriteReq) (good : Type 0) (w : Writer) : Type 0 where
  pub batch : List WriteReq
  pub split : batch ++ w.queue ≡ all
  pub closed : w.closed ≡ markers batch
  pub written : good → w.history ≡ rows batch
  pub bounded : length w.queue ≤ write_queue_cap

module _ (all : List WriteReq) (good : Type 0) (w : Writer) (h : Handled all good w) where
  put-Handled :
      (r : WriteReq)
      → ltb (length w.queue) write_queue_cap ≡ true
      → Handled (all ++ r ∷ []) good (step w (put r))
  unfolding step
  put-Handled r room = record {
    batch = h.batch;
    split = rw room (sym (append_assoc h.batch w.queue (r ∷ [])) ∙ ap (λ l. l ++ r ∷ []) h.split);
    closed = rw room h.closed;
    written = rw room h.written;
    bounded = rw room (omega (arith, length-append w.queue (r ∷ []), ltb→lt _ _ room));
  }

  full-Handled :
      (r : WriteReq)
      → ltb (length w.queue) write_queue_cap ≡ false
      → Handled all good (step w (put r))
  unfolding step
  full-Handled r full = rw full h

  commit-Handled :
      (n : ℕ) (first second : Bool)
      → Handled all (good × ((first || second) ≡ true)) (step w (commit n first second))
  unfolding step commit_batch
  commit-Handled n first second = record {
    batch = h.batch ++ take (suc n) w.queue;
    split =
        append_assoc h.batch (take (suc n) w.queue) (drop (suc n) w.queue)
        ∙ ap (λ l. h.batch ++ l) (take-append-drop (suc n) w.queue)
        ∙ h.split;
    closed =
        commit_batch-closed first second (take (suc n) w.queue)
          (record w { queue = drop (suc n) w.queue })
        ∙ ap (λ l. l ++ markers (take (suc n) w.queue)) h.closed
        ∙ sym (markers-append h.batch (take (suc n) w.queue));
    written = λ (g, s).
        commit_batch-history first second (take (suc n) w.queue)
          (record w { queue = drop (suc n) w.queue }) s
        ∙ ap (λ l. l ++ rows (take (suc n) w.queue)) (h.written g)
        ∙ sym (rows-append h.batch (take (suc n) w.queue));
    bounded = omega (arith, length-drop (suc n) w.queue, h.bounded);
  }

Handled-imp :
    (all all' : List WriteReq) (good good' : Type 0) (w : Writer)
    → all ≡ all'
    → (good' → good)
    → Handled all good w
    → Handled all' good' w
Handled-imp all all' good good' w e f h = record {
  batch = h.batch;
  split = h.split ∙ e;
  closed = h.closed;
  written = λ g. h.written (f g);
  bounded = h.bounded;
}

run-Handled :
    (all : List WriteReq) (good : Type 0) (w : Writer) (acts : List Act)
    → Handled all good w
    → Handled (all ++ accepted w acts) (good × All Succeeds acts) (run w acts)
unfolding run accepted
run-Handled all good w [] h =
    Handled-imp all (all ++ []) good _ w (sym (append-nil all)) (λ g. g.0) h
run-Handled all good w (put r ∷ acts) h = elim (Bool-cases (ltb (length w.queue) write_queue_cap)) [
  | inl room ↦ rw room (
      Handled-imp _ _ _ _ _ (append_assoc all (r ∷ []) _) (λ g. (g.0, g.1.1))
        (run-Handled (all ++ r ∷ []) good (step w (put r)) acts (put-Handled all good w h r room)))
  | inr full ↦ rw full (
      Handled-imp _ _ _ _ _ refl (λ g. (g.0, g.1.1))
        (run-Handled all good (step w (put r)) acts (full-Handled all good w h r full)))
]
run-Handled all good w (commit n first second ∷ acts) h =
    Handled-imp _ _ _ _ _ refl (λ g. ((g.0, g.1.0), g.1.1))
      (run-Handled all _ (step w (commit n first second)) acts
        (commit-Handled all good w h n first second))

run-fresh-Handled :
    (acts : List Act)
    → Handled (accepted fresh acts) (Unit {0} × All Succeeds acts) (run fresh acts)
unfolding fresh rows markers
run-fresh-Handled acts =
    run-Handled [] Unit fresh acts (record {
      batch = [];
      split = refl;
      closed = refl;
      written = λ g. refl;
      bounded = omega arith;
    })

-- After any history of puts and commits from an empty writer, whether batches were dropped or not,
-- the accepted requests are, in order, a part that is handled and then the queue; exactly the
-- flush markers of the handled part are closed, in order; and the queue holds at most 1024
-- requests.
pub run-closed :
    (acts : List Act)
    → (batch : List WriteReq) × (batch ++ (run fresh acts).queue ≡ accepted fresh acts)
      × ((run fresh acts).closed ≡ markers batch)
      × (length (run fresh acts).queue ≤ write_queue_cap)
run-closed acts = let h = run-fresh-Handled acts in (h.batch, h.split, h.closed, h.bounded)

-- If no batch fails twice, the history is, after any such history of acts, the rows of the handled part
-- of the accepted requests, in order, so that every row accepted before a closed flush marker is
-- written.
pub run-history :
    (acts : List Act)
    → All Succeeds acts
    → (batch : List WriteReq) × (batch ++ (run fresh acts).queue ≡ accepted fresh acts)
      × ((run fresh acts).history ≡ rows batch)
      × ((run fresh acts).closed ≡ markers batch)
run-history acts s =
    let h = run-fresh-Handled acts in (h.batch, h.split, h.written (tt, s), h.closed)
