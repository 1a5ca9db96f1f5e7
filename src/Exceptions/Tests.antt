-- ===== src/Exceptions/Tests.antt =====
-- Three errors in one cooldown, and one after it.
use ha_lua.Base.{arith, false, ℕ, ◌+◌, ◌≡◌, refl, List, [], ◌∷◌, none, codes, length, pos}
use ha_lua.Logwriter.{Disk, content, segment}
use ha_lua.Exceptions.Log.{Within, log_all-Within}
use ha_lua.Exceptions.{
  Io, entry, log_all, Info, Settings, State, Attempt, start, email_all, email, cooling,
  build_email_body, event_part,
}
use ha_lua.Exceptions.Cooldown.{reported_all, Spaced, email_all-counts}

abbrev info : Info
info = record {
  script_id = codes "s";
  error = codes "e";
  traceback = [];
  callback = codes "c";
  timestamp = codes "t";
  event = none;
}

abbrev settings : Settings
settings = record {
  to = codes "me";
  smtp_host = codes "h";
  smtp_port = pos 25;
  from = codes "you";
  subject_prefix = codes "p";
  cooldown = 10;
}

abbrev errors : List (ℕ × Info)
errors = (1, info) ∷ (2, info) ∷ (5, info) ∷ (11, info) ∷ []

abbrev out : State × List Attempt
out = email_all (λ n. n ∷ []) (λ n. []) (λ n. []) settings errors start

two_mails : length (out.1) ≡ 2
unfolding email_all email cooling start
two_mails = refl

email_all-counts_example :
    (length out.1 + reported_all out.1 + out.0.suppressed ≡ 4) × Spaced 10 none out.1
email_all-counts_example = email_all-counts (λ n. n ∷ []) (λ n. []) (λ n. []) settings errors

abbrev works : Io
works = record {
  mkdir_fails = false;
  stat_fails = false;
  rename_fails = false;
  open_fails = false;
  short = none;
}

abbrev absent : Disk
absent = record { active = none; backup = none }

-- The entry has 62 bytes.
log_all-Within_example : Within 2621501 (log_all ((works, info) ∷ []) absent)
unfolding segment entry build_email_body event_part content
log_all-Within_example =
    log_all-Within 2621501 ((works, info) ∷ []) absent ((((refl, refl), omega arith)), tt)
      (omega arith, omega arith)
