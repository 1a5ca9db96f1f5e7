-- ===== src/Client/Commands/Runs.antt =====
-- Any sequence of moves, and the end of a connection.
use ha_lua.Base.{
  ℕ, ◌==◌, ◌+◌, ◌≡◌, ◌⊎◌, refl, ap, ◌∙◌, sym, subst, Bool, true, false, not, ◌||◌, List, [], ◌∷◌,
  ◌++◌, map, Option, none, some, Member, member-All, All, arith, inl, inr, if-elim, if◌then◌else◌,
}
use ha_lua.Client.{CmdResult, connection_lost}
use ha_lua.Client.Commands.{
  Place, in_pending, Command, Session, new, on_id, each, send, forget, take_result, give_up, accept,
  unregister, deliver_result, swap, hang_up, fill, drain, Move, connected, disconnected, ask,
  result, filled, taken, given_up, forgotten, step, run,
}
use ha_lua.Client.Commands.Answers.{
  at_fields, holds, served, Own, served-accept, served-fill, served-swap, served-take,
  served-forget, served_up, filled-answer, accept-Own, fill-Own, swap-Own, take-Own, forget-Own,
}

module _ (P Q : Command → Type 0) (f : Command → Command)
    (keeps : (w : Command) → P w → Q (f w)) where
  All-each : (list : List Command) → All P list → All Q (map f list)
  All-each [] h = tt
  All-each (w ∷ list) h = (keeps w h.0, All-each list h.1)

weaker :
    (P Q : Command → Type 0)
    → ((w : Command) → P w → Q w)
    → (list : List Command) → All P list
    → All Q list
weaker P Q f [] h = tt
weaker P Q f (w ∷ list) h = (f w h.0, weaker P Q f list h.1)

module _ (P : Command → Type 0) (id : ℕ) (f : Command → Command)
    (keeps : (w : Command) → w.id ≡ id → P w → P (f w)) where
  kept-on_id : (w : Command) → P w → P (on_id id f w)
  unfolding on_id
  kept-on_id w h =
      if-elim P (w.id == id) (f w) w (λ same. keeps w (ground (arith, same)) h) (λ other. h)

  All-on_id : (list : List Command) → All P list → All P (map (on_id id f) list)
  All-on_id list h = All-each P P (on_id id f) kept-on_id list h

-- What a move brings: a result frame for an id.
abbrev pub Brings : (ℕ → CmdResult → Type 0) → Move → Type 0
Brings came (result id res) = came id res
Brings came _ = Unit

module _ (came : ℕ → CmdResult → Type 0) where
  abbrev Good : Bool → Command → Type 0
  Good up w = (served up w ≡ true) × Own came w.id w.inbox

  abbrev pub IsGood : Session → Type 0
  IsGood s = All (Good s.up) s.commands

  sent-IsGood : (s : Session) → IsGood s → IsGood (send s)
  unfolding send
  sent-IsGood s h =
      if-elim (λ (list : List Command). All (Good s.up) list) s.up
        (record { id = s.msg_id + 1; place = in_pending; waiting = true; inbox = none }
          ∷ s.commands)
        s.commands (λ up. ((ground (arith, up), tt), h)) (λ down. h)

  step-IsGood : (m : Move) (s : Session) → Brings came m → IsGood s → IsGood (step m s)
  unfolding step each hang_up deliver_result forget
  step-IsGood connected s brings h =
      weaker (Good s.up) (Good true) (λ w g. (served_up s.up w g.0, g.1)) s.commands h
  step-IsGood disconnected s brings h =
      All-each (Good s.up) (Good false) swap
        (λ w g. (served-swap s.up w g.0, swap-Own came w.id w.place w.waiting w.inbox g.1))
        s.commands h
  step-IsGood ask s brings h = sent-IsGood s h
  step-IsGood (result id res) s brings h =
      All-on_id (Good s.up) id (accept res)
        (λ w same g. (
          served-accept s.up res w g.0,
          accept-Own came res w.id w.place w.waiting w.inbox
              (subst (λ i. came i res) (sym same) brings) g.1,
        ))
        s.commands h
  step-IsGood (filled id) s brings h =
      All-on_id (Good s.up) id fill
        (λ w same g. (served-fill s.up w g.0, fill-Own came w.id w.place w.waiting w.inbox g.1))
        s.commands h
  step-IsGood (taken id) s brings h =
      All-on_id (Good s.up) id take_result
        (λ w same g. (served-take s.up w g.0, take-Own came w.id w.place w.waiting w.inbox g.1))
        s.commands h
  step-IsGood (given_up id) s brings h =
      All-on_id (Good s.up) id give_up (λ w same g. unfold give_up in (refl, g.1)) s.commands h
  step-IsGood (forgotten id) s brings h =
      All-on_id (Good s.up) id (λ w. if w.waiting then w else unregister w)
        (λ w same g. (served-forget s.up w g.0, forget-Own came w.id w.place w.waiting w.inbox g.1))
        s.commands h

  run-IsGood :
      (moves : List Move) (s : Session) → All (Brings came) moves → IsGood s → IsGood (run moves s)
  unfolding run
  run-IsGood [] s brings h = h
  run-IsGood (m ∷ moves) s brings h =
      run-IsGood moves (step m s) brings.1 (step-IsGood m s brings.0 h)

-- Whether a move connects.
abbrev pub connects : Move → Bool
connects connected = true
connects _ = false

step_down : (m : Move) (s : Session) → connects m ≡ false → s.up ≡ false → (step m s).up ≡ false
unfolding step hang_up send deliver_result forget each
step_down connected s apart down = absurd (ground (arith, apart))
step_down disconnected s apart down = refl
step_down ask s apart down = down
step_down (result id res) s apart down = down
step_down (filled id) s apart down = down
step_down (taken id) s apart down = down
step_down (given_up id) s apart down = down
step_down (forgotten id) s apart down = down

run_down :
    (moves : List Move) (s : Session)
    → All (λ m. connects m ≡ false) moves
    → s.up ≡ false
    → (run moves s).up ≡ false
unfolding run
run_down [] s apart down = down
run_down (m ∷ moves) s apart down = run_down moves (step m s) apart.1 (step_down m s apart.0 down)

run-append :
    (before after : List Move) (s : Session) → run (before ++ after) s ≡ run after (run before s)
unfolding run
run-append [] after s = refl
run-append (m ∷ before) after s = run-append before after (step m s)

-- A command's goroutine has stopped waiting, or it can take a result, which came for its own id or says that the connection was lost.
abbrev pub IsAnswered : List Move → Command → Type 0
IsAnswered moves w =
    (w.waiting ≡ false)
    ⊎ ((res : CmdResult) × (w.inbox ≡ some res)
        × ((res ≡ connection_lost) ⊎ Member (result w.id res) moves))

brought :
    (moves : List Move) (m : Move)
    → Member m moves
    → Brings (λ id res. Member (result id res) moves) m
brought moves connected h = tt
brought moves disconnected h = tt
brought moves ask h = tt
brought moves (result id res) h = h
brought moves (filled id) h = tt
brought moves (taken id) h = tt
brought moves (given_up id) h = tt
brought moves (forgotten id) h = tt

answered :
    (moves : List Move) (id : ℕ) (p : Place) (b : Bool) (i : Option CmdResult)
    → (not b || holds i) ≡ true
    → Own (λ j res. Member (result j res) moves) id i
    → IsAnswered moves (at_fields id p b i)
answered moves id p false i h own = inl refl
answered moves id p true none h own = absurd (ground (arith, h))
answered moves id p true (some res) h own = inr (res, refl, own)

ended :
    (before after : List Move)
    → All (λ m. connects m ≡ false) after
    → (run (before ++ disconnected ∷ after) new).up ≡ false
ended before after apart =
    ap Session.up (run-append before (disconnected ∷ after) new)
    ∙ unfold run in
      run_down after (step disconnected (run before new)) apart (unfold step hang_up in refl)

-- Whatever commands are sent before and after a connection ends, in any order with the frames that arrive, the goroutines that stop and the rounds
-- of the deferred function: until the next connection, and once that function is through, each goroutine that still waits has a result to take. It
-- is one that came for its own id, or says that the connection was lost.
pub drain-IsAnswered :
    (before after : List Move)
    → All (λ m. connects m ≡ false) after
    → let moves = before ++ disconnected ∷ after in
      All (IsAnswered moves) (drain (run moves new)).commands
unfolding drain each
drain-IsAnswered before after apart =
    let moves = before ++ disconnected ∷ after in
    let came : ℕ → CmdResult → Type 0 = λ id res. Member (result id res) moves in
    let good : IsGood came (run moves new) =
      run-IsGood came moves new (member-All (Brings came) moves (brought moves))
        (unfold new in tt) in
    All-each (Good came (run moves new).up) (IsAnswered moves) fill
      (λ w g.
        answered moves (fill w).id (fill w).place (fill w).waiting (fill w).inbox
          (filled-answer w (subst (λ up. served up w ≡ true) (ended before after apart) g.0))
          (fill-Own came w.id w.place w.waiting w.inbox g.1))
      (run moves new).commands good
