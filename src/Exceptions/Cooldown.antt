-- ===== src/Exceptions/Cooldown.antt =====
-- The mails of a script that keeps failing.
use ha_lua.Base.{
  ℕ, ◌+◌, ◌-◌, ◌≤◌, ◌≡◌, false, List, [], ◌∷◌, ◌++◌, length, Option, none, some, Text, arith,
  if-elim, ℤ,
}
use ha_lua.Exceptions.{Info, Settings, State, Attempt, cooling, attempt_of, start, email, email_all}

abbrev pub reported_all : List Attempt → ℕ
reported_all [] = 0
reported_all (a ∷ sent) = a.reported + reported_all sent

-- Each mail comes a whole cooldown after the one before it.
abbrev pub Spaced : ℕ → Option ℕ → List Attempt → Type 0
Spaced d last [] = Unit
Spaced d none (a ∷ sent) = Spaced d (some a.at) sent
Spaced d (some l) (a ∷ sent) = (d ≤ a.at - l) × Spaced d (some a.at) sent

module _ (decimal : ℕ → Text) (decimal_ℤ : ℤ → Text) (date : ℕ → Text) where
  cons-Spaced :
      (s : Settings) (now : ℕ) (last : Option ℕ) (i : Info) (st : State) (rest : List Attempt)
      → cooling s now last ≡ false
      → Spaced s.cooldown (some now) rest
      → Spaced s.cooldown last (attempt_of decimal decimal_ℤ date s now i st ∷ rest)
  unfolding cooling attempt_of
  cons-Spaced s now none i st rest warm h = h
  cons-Spaced s now (some l) i st rest warm h = (ground (arith, warm), h)

  email_all-Spaced :
      (s : Settings) (list : List (ℕ × Info)) (st : State)
      → Spaced s.cooldown st.last_attempt (email_all decimal decimal_ℤ date s list st).1
  unfolding email_all email attempt_of
  email_all-Spaced s [] st = tt
  email_all-Spaced s ((now, i) ∷ list) st =
      if-elim
        (λ (out : State × List Attempt).
          Spaced s.cooldown st.last_attempt
            (out.1 ++ (email_all decimal decimal_ℤ date s list out.0).1))
        (cooling s now st.last_attempt) _ _ (λ cold. email_all-Spaced s list _)
        (λ warm. cons-Spaced s now st.last_attempt i st _ warm (email_all-Spaced s list _))

  counted_all :
      (s : Settings) (list : List (ℕ × Info)) (st : State)
      → let (st', sent) = email_all decimal decimal_ℤ date s list st in
        length sent + reported_all sent + st'.suppressed ≡ length list + st.suppressed
  unfolding email_all email attempt_of
  counted_all s [] st = omega arith
  counted_all s ((now, i) ∷ list) st =
      if-elim
        (λ (out : State × List Attempt).
          length (out.1 ++ (email_all decimal decimal_ℤ date s list out.0).1)
            + reported_all (out.1 ++ (email_all decimal decimal_ℤ date s list out.0).1)
            + (email_all decimal decimal_ℤ date s list out.0).0.suppressed
          ≡ length ((now, i) ∷ list) + st.suppressed)
        (cooling s now st.last_attempt) _ _ (λ cold. omega (arith, counted_all s list _))
        (λ warm. omega (arith, counted_all s list _))

  -- Every exception of a script is mailed, or counted in the next mail, or still to be counted; and each mail is tried no
  -- earlier than a whole cooldown after the one before it, whether or not that one could be sent.
  pub email_all-counts :
      (s : Settings) (list : List (ℕ × Info))
      → let (st', sent) = email_all decimal decimal_ℤ date s list start in
        (length sent + reported_all sent + st'.suppressed ≡ length list)
        × Spaced s.cooldown none sent
  unfolding start
  email_all-counts s list = (omega (arith, counted_all s list start), email_all-Spaced s list start)
