-- ===== src/Client/Commands/Answers.antt =====
-- Every command is answered before its connection is gone for long.
use ha_lua.Base.{
  ℕ, ◌≡◌, ◌⊎◌, refl, Bool, true, false, not, ◌||◌, Option, none, some, arith, Option-cases, inl,
  inr, if◌then◌else◌,
}
use ha_lua.Client.{CmdResult, connection_lost}
use ha_lua.Client.Commands.{
  Place, in_pending, in_drain, nowhere, Command, post, unregister, take_result, accept, swap, fill,
}

-- A command that waits has a result, or its channel is in a map from which it will get one.
abbrev pub kept : Bool → Place → Bool
kept up in_pending = up
kept up in_drain = true
kept up nowhere = false

abbrev pub holds : Option CmdResult → Bool
holds none = false
holds (some res) = true

abbrev pub served : Bool → Command → Bool
served up w = not w.waiting || (holds w.inbox || kept up w.place)

-- What a channel holds came for its id, or says that the connection was lost.
abbrev pub Own : (ℕ → CmdResult → Type 0) → ℕ → Option CmdResult → Type 0
Own came id none = Unit
Own came id (some res) = (res ≡ connection_lost) ⊎ came id res

place-cases : (p : Place) → (p ≡ in_pending) ⊎ ((p ≡ in_drain) ⊎ (p ≡ nowhere))
place-cases in_pending = inl refl
place-cases in_drain = inr (inl refl)
place-cases nowhere = inr (inr refl)

served-post : (up : Bool) (res : CmdResult) (w : Command) → served up (post res w) ≡ true
unfolding post
served-post up res w = ground (arith, Option-cases w.inbox)

pub served-accept :
    (up : Bool) (res : CmdResult) (w : Command)
    → served up w ≡ true
    → served up (accept res w) ≡ true
unfolding accept
served-accept up res w h = ground (arith, h, served-post up res w, place-cases w.place)

pub served-fill : (up : Bool) (w : Command) → served up w ≡ true → served up (fill w) ≡ true
unfolding fill post
served-fill up w h = ground (arith, h, Option-cases w.inbox, place-cases w.place)

pub served-swap : (up : Bool) (w : Command) → served up w ≡ true → served false (swap w) ≡ true
unfolding swap
served-swap up w h = ground (arith, h, place-cases w.place)

pub served-take : (up : Bool) (w : Command) → served up w ≡ true → served up (take_result w) ≡ true
unfolding take_result
served-take up w h = ground (arith, h, Option-cases w.inbox)

pub served-forget :
    (up : Bool) (w : Command)
    → served up w ≡ true
    → served up (if w.waiting then w else unregister w) ≡ true
unfolding unregister
served-forget up w h = ground (arith, h, place-cases w.place)

pub served_up : (up : Bool) (w : Command) → served up w ≡ true → served true w ≡ true
served_up up w h = ground (arith, h, place-cases w.place)

-- Once there is no connection, the loop over the map leaves no one without a result.
pub filled-answer :
    (w : Command) → served false w ≡ true → (not (fill w).waiting || holds (fill w).inbox) ≡ true
unfolding fill post
filled-answer w h = ground (arith, h, Option-cases w.inbox, place-cases w.place)

-- A command from its fields.
abbrev pub at_fields : ℕ → Place → Bool → Option CmdResult → Command
at_fields id p b i = record { id = id; place = p; waiting = b; inbox = i }

module _ (came : ℕ → CmdResult → Type 0) where
  abbrev pub Owned : Command → Type 0
  Owned w = Own came w.id w.inbox

  post-Own :
      (res : CmdResult) (id : ℕ) (p : Place) (b : Bool) (i : Option CmdResult)
      → (res ≡ connection_lost) ⊎ came id res
      → Own came id i
      → Owned (post res (at_fields id p b i))
  unfolding post
  post-Own res id p b none new_one h = new_one
  post-Own res id p b (some old) new_one h = h

  pub accept-Own :
      (res : CmdResult) (id : ℕ) (p : Place) (b : Bool) (i : Option CmdResult)
      → came id res
      → Own came id i
      → Owned (accept res (at_fields id p b i))
  unfolding accept
  accept-Own res id in_pending b i new_one h = post-Own res id in_pending b i (inr new_one) h
  accept-Own res id in_drain b i new_one h = h
  accept-Own res id nowhere b i new_one h = h

  pub fill-Own :
      (id : ℕ) (p : Place) (b : Bool) (i : Option CmdResult)
      → Own came id i
      → Owned (fill (at_fields id p b i))
  unfolding fill post
  fill-Own id in_pending b i h = h
  fill-Own id in_drain b none h = inl refl
  fill-Own id in_drain b (some old) h = h
  fill-Own id nowhere b i h = h

  pub swap-Own :
      (id : ℕ) (p : Place) (b : Bool) (i : Option CmdResult)
      → Own came id i
      → Owned (swap (at_fields id p b i))
  unfolding swap
  swap-Own id in_pending b i h = h
  swap-Own id in_drain b i h = h
  swap-Own id nowhere b i h = h

  pub take-Own :
      (id : ℕ) (p : Place) (b : Bool) (i : Option CmdResult)
      → Own came id i
      → Owned (take_result (at_fields id p b i))
  unfolding take_result
  take-Own id p true none h = tt
  take-Own id p true (some res) h = tt
  take-Own id p false i h = h

  pub forget-Own :
      (id : ℕ) (p : Place) (b : Bool) (i : Option CmdResult)
      → Own came id i
      → Owned (if b then at_fields id p b i else unregister (at_fields id p b i))
  unfolding unregister
  forget-Own id p true i h = h
  forget-Own id in_pending false i h = h
  forget-Own id in_drain false i h = h
  forget-Own id nowhere false i h = h
