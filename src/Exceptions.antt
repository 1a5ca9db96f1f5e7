-- ===== src/Exceptions.antt =====
-- The exception handlers that a script may choose: ha-lua/internal/lua/exceptions.go.
pub mod Cooldown
pub mod Log
mod Tests
use ha_lua.Base.{
  ℕ, suc, ◌+◌, ◌-◌, ◌*◌, ◌^◌, ℤ, pos, pos_part, Bool, true, false, not, ◌&&◌, ◌||◌, ltb, ◌==◌, List,
  [], ◌∷◌, ◌++◌, Option, none, some, Text, is_empty, has_prefix, codes, if◌then◌else◌, Result, ok,
  err,
}
use ha_lua.Logwriter.{Disk, content, taken, rotate_if_large}

-- The fields of `info`; the event is its JSON, none without one or when it has none.
pub record Info : Type 0 where
  pub script_id : Text
  pub error : Text
  pub traceback : Text
  pub callback : Text
  pub timestamp : Text
  pub event : Option Text

-- `strings.ReplaceAll(s, "\n", "\n  ")`
unfoldable pub indent : Text → Text
indent [] = []
indent (c ∷ s) = if c == 10 then 10 ∷ 32 ∷ 32 ∷ indent s else c ∷ indent s

-- The last part of the body; an empty JSON text counts as none.
unfoldable pub event_part : Option Text → Text
event_part none = []
event_part (some e) =
    if is_empty e then [] else codes "Triggering event:" ++ 10 ∷ codes "  " ++ e ++ 10 ∷ []

-- `buildEmailBody`
unfoldable pub build_email_body : Info → Text
build_email_body i =
    codes "Script:   "
    ++ i.script_id
    ++ 10 ∷ codes "Time:     "
    ++ i.timestamp
    ++ 10 ∷ codes "Callback: "
    ++ i.callback
    ++ 10 ∷ 10 ∷ codes "Error:"
    ++ 10 ∷ codes "  "
    ++ i.error
    ++ 10 ∷ 10 ∷ []
    ++ (if is_empty i.traceback
        then []
        else codes "Traceback:" ++ 10 ∷ codes "  " ++ indent i.traceback ++ 10 ∷ 10 ∷ [])
    ++ event_part i.event

-- The settings of `ha.exceptions.email`, after the defaults.
pub record Settings : Type 0 where
  pub to : Text
  pub smtp_host : Text
  pub smtp_port : ℤ
  pub from : Text
  pub subject_prefix : Text
  pub cooldown : ℕ

-- What the table of a script gives: "" and none for a key that is missing or of another type.
pub record Given : Type 0 where
  pub to : Text
  pub smtp_host : Text
  pub smtp_port : Option ℤ
  pub username : Text
  pub from : Text
  pub subject_prefix : Text
  pub cooldown : Text

-- A quarter of an hour, and the durations of package time in nanoseconds; one that is negative suppresses nothing.
abbrev pub default_cooldown : ℕ
default_cooldown = 15 * 60 * 1000000000

unfoldable pub cooldown_of : (Text → Option ℤ) → Text → Option ℕ
cooldown_of parse_duration s =
    if is_empty s
    then some default_cooldown
    else elim (parse_duration s) [ none ↦ none | some d ↦ some (pos_part d) ]

-- The start of `email`, which raises for a bad cooldown.
unfoldable pub settings : (Text → Option ℤ) → Given → Option Settings
settings parse_duration g = elim (cooldown_of parse_duration g.cooldown) [
  | none ↦ none
  | some d ↦ some (record {
    to = g.to;
    smtp_host = g.smtp_host;
    smtp_port = elim (g.smtp_port) [ none ↦ pos 587 | some port ↦ port ];
    from = if is_empty g.from then g.username else g.from;
    subject_prefix = if is_empty g.subject_prefix then codes "[ha-lua]" else g.subject_prefix;
    cooldown = d;
  })
]

-- The variables of the handler: `lastAttempt`, zero before the first, `suppressed` and `suppressedSince`.
pub record State : Type 0 where
  pub last_attempt : Option ℕ
  pub suppressed : ℕ
  pub suppressed_since : Text

unfoldable pub start : State
start = record { last_attempt = none; suppressed = 0; suppressed_since = [] }

-- A mail that the handler tries to send: when, how many errors it reports as suppressed, and what smtpSendMail gets but for the credentials.
pub record Attempt : Type 0 where
  pub at : ℕ
  pub reported : ℕ
  pub addr : Text
  pub from : Text
  pub to : Text
  pub message : Text

-- Whether the cooldown is running.
unfoldable pub cooling : Settings → ℕ → Option ℕ → Bool
cooling s now none = false
cooling s now (some last) = ltb (now - last) s.cooldown

-- `%d` is `decimal` and `decimal_ℤ`, and `date` the instant in RFC 1123.
module _ (decimal : ℕ → Text) (decimal_ℤ : ℤ → Text) (date : ℕ → Text) where
  -- `buildSMTPMessage`
  unfoldable pub build_smtp_message : ℕ → Text → Text → Text → Text → Text
  build_smtp_message now from to subject body =
      codes "From: "
      ++ from
      ++ 13 ∷ 10 ∷ codes "To: "
      ++ to
      ++ 13 ∷ 10 ∷ codes "Subject: "
      ++ subject
      ++ 13 ∷ 10 ∷ codes "Date: "
      ++ date now
      ++ 13 ∷ 10 ∷ codes "MIME-Version: 1.0"
      ++ 13 ∷ 10 ∷ codes "Content-Type: text/plain; charset=utf-8"
      ++ 13 ∷ 10 ∷ 13 ∷ 10 ∷ body

  unfoldable pub suppressed_part : ℕ → Text → Text
  suppressed_part n since =
      if ltb 0 n
      then 10 ∷ decimal n ++ codes " similar errors suppressed since " ++ since ++ 10 ∷ []
      else []

  unfoldable pub attempt_of : Settings → ℕ → Info → State → Attempt
  attempt_of s now i st = record {
    at = now;
    reported = st.suppressed;
    addr = s.smtp_host ++ 58 ∷ decimal_ℤ s.smtp_port;
    from = s.from;
    to = s.to;
    message =
        build_smtp_message now s.from s.to
          (s.subject_prefix ++ codes " Error in script: " ++ i.script_id)
          (build_email_body i ++ suppressed_part st.suppressed st.suppressed_since);
  }

  -- The handler of `email`; a mail that fails raises, and the state is the same.
  unfoldable pub email : Settings → ℕ → Info → State → State × List Attempt
  email s now i st =
      if cooling s now st.last_attempt
      then (
        record st {
          suppressed_since = if st.suppressed == 0 then i.timestamp else st.suppressed_since;
          suppressed = st.suppressed + 1;
        },
        [],
      )
      else (record st { last_attempt = some now; suppressed = 0 }, attempt_of s now i st ∷ [])

  -- The exceptions of a script, in order.
  unfoldable pub email_all : Settings → List (ℕ × Info) → State → State × List Attempt
  email_all s [] st = (st, [])
  email_all s ((now, i) ∷ rest) st =
      let (st', sent) = email s now i st in
      let (last, more) = email_all s rest st' in (last, sent ++ more)

-- `log_file`: what registration refuses, with the results of filepath.IsAbs and filepath.Clean
pub data Refusal : Type 0 where
  not_relative no_log_dir : Refusal

unfoldable pub register_log_file : Bool → Text → Bool → Option Refusal
register_log_file is_abs clean has_root =
    if is_abs || has_prefix clean (codes "..")
    then some not_relative
    else (if not has_root then some no_log_dir else none)

-- maxExceptionLogBytes
abbrev pub max_exception_log_bytes : ℕ
max_exception_log_bytes = 5 * 2 ^ 20

-- What the handler appends, and the two files after it; a directory or an append that fails raises.
unfoldable pub entry : Info → Text
entry i = codes "---" ++ 10 ∷ build_email_body i ++ 10 ∷ []

-- `short` is how many bytes an append takes that then fails.
pub record Io : Type 0 where
  pub mkdir_fails : Bool
  pub stat_fails : Bool
  pub rename_fails : Bool
  pub open_fails : Bool
  pub short : Option ℕ

-- `appendToRoot`, with its error
unfoldable pub append_to_root : Io → Text → Disk → Disk × Bool
append_to_root io e d = if io.open_fails then (d, true) else (
  record d { active = some (content d.active ++ taken io.short e) },
  elim (io.short) [ none ↦ false | some n ↦ true ],
)

unfoldable pub log_file : Io → Info → Disk → Disk × Bool
log_file io i d =
    if io.mkdir_fails
    then (d, true)
    else append_to_root io (entry i)
        (rotate_if_large io.stat_fails io.rename_fails max_exception_log_bytes d)

unfoldable pub log_all : List (Io × Info) → Disk → Disk
log_all [] d = d
log_all ((io, i) ∷ rest) d = log_all rest (log_file io i d).0
