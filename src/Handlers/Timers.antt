-- ===== src/Handlers/Timers.antt =====
-- A timer that the scheduler fires, at the script that registered it.
use ha_lua.Base.{
  ℕ, ◌≡◌, refl, sym, ap, ◌∙◌, Bool, true, false, [], ◌∷◌, ◌++◌, append_assoc, Option, none, some,
  Text, text_eq, has_byte, cut-append, trim_prefix, trim_prefix-append, codes, Map, lookup, delete,
  lookup-delete_self, arith, if◌then◌else◌, Result, ok,
}
use ha_lua.Scheduler.Timers.{Calendar, TimerHeap, Kind, every, at, after}
use ha_lua.Scheduler.Engine.{Error, State, timer_id, register_every, register_at, register_after}
use ha_lua.Scheduler.Engine.Rows.{every-id, at-id, after-id}
use ha_lua.Script.{plain}
use ha_lua.Handlers.{Invocation, label_of, timer_callback_name, handle_timer_fired}

-- The type of a timer is found whatever bars its script's name has.
label-timer_id :
    (script typ rest : Text)
    → has_byte 124 typ ≡ false
    → timer_callback_name script (timer_id script typ rest) ≡ label_of typ true
unfolding timer_callback_name
label-timer_id script typ rest h =
    let tail : Text = typ ++ (124 ∷ rest) in
    let split : trim_prefix (timer_id script typ rest) (script ++ codes "|") ≡ tail =
      ap (λ s. trim_prefix s (script ++ codes "|")) (sym (append_assoc script (codes "|") tail))
      ∙ trim_prefix-append (script ++ codes "|") tail in
    rw (split, cut-append 124 typ rest h) refl

fired_label :
    (script typ id rest : Text) (fns : Map ℕ) (fn : ℕ) (label : Text) (once : Bool)
    → id ≡ timer_id script typ rest
    → has_byte 124 typ ≡ false
    → label_of typ true ≡ (label, once)
    → lookup id fns ≡ some fn
    → handle_timer_fired script id fns ≡ (
      if once then delete id fns else fns,
      record { label = label; fn = plain fn; event = none } ∷ [],
    )
unfolding handle_timer_fired
fired_label script typ id rest fns fn label once same bars named there =
    let e : timer_callback_name script id ≡ (label, once) =
      ap (timer_callback_name script) same ∙ label-timer_id script typ rest bars ∙ named in
    ground (arith, there, e)

fired_again :
    (script id : Text) (fns : Map ℕ)
    → handle_timer_fired script id (delete id fns) ≡ (delete id fns, [])
unfolding handle_timer_fired
fired_again script id fns = rw (handle_timer_fired, lookup-delete_self id fns) refl

module _ (c : Calendar) {H : Type 0} (q : TimerHeap H) (write_fails : Text → Bool) where
  -- The result of the registration, by the type of the timer.
  abbrev pub registration : Kind → Text → Text → ℕ → ℕ → Option Text → State H → Result Error Text
  registration every script spec seq now random s =
      (register_every c q write_fails script spec seq now s).1
  registration at script spec seq now random s =
      (register_at c q write_fails script spec seq now s).1
  registration after script spec seq now random s =
      (register_after c q write_fails script spec random now s).1

  abbrev pub shown : Kind → Text
  shown every = codes "timer_every"
  shown at = codes "timer_at"
  shown after = codes "timer_after"

  abbrev pub runs_once : Kind → Bool
  runs_once after = true
  runs_once _ = false

  -- When a timer that a script registered fires, the script calls the function that it kept for it, labelled by the type of the timer. The function
  -- of a timer of `after` is gone when it is called, and a second fire of it does nothing; that of `every` or `at` stays and is called again.
  pub fired-registered :
      (typ : Kind) (script spec id : Text) (seq now : ℕ) (random : Option Text) (s : State H)
      (fns : Map ℕ) (fn : ℕ)
      → registration typ script spec seq now random s ≡ ok id
      → lookup id fns ≡ some fn
      → let left = if runs_once typ then delete id fns else fns in
        let call : Invocation = record { label = shown typ; fn = plain fn; event = none } in
        (handle_timer_fired script id fns ≡ (left, call ∷ []))
        × (handle_timer_fired script id left ≡ (left, if runs_once typ then [] else call ∷ []))
  unfolding label_of has_byte text_eq
  fired-registered every script spec id seq now random s fns fn e there =
      let (rest, same) = every-id c q write_fails script spec seq now s id e in
      let fired = fired_label script (codes "every") id rest fns fn _ false same refl refl there in
      (fired, fired)
  fired-registered at script spec id seq now random s fns fn e there =
      let (rest, same) = at-id c q write_fails script spec seq now s id e in
      let fired = fired_label script (codes "at") id rest fns fn _ false same refl refl there in
      (fired, fired)
  fired-registered after script spec id seq now random s fns fn e there =
      let (rest, same) = after-id c q write_fails script spec random now s id e in
      (
        fired_label script (codes "after") id rest fns fn _ true same refl refl there,
        fired_again script id fns,
      )
