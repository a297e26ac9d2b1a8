-- ===== src/KLogging.antt =====
-- klogging.c: messages on the standard output, in colour on a terminal.
use k_h.Base.{ℕ, Bool, true, Option, none, some, List, [], ◌∷◌, ◌++◌, if◌then◌else◌}
use k_h.World.{fault, Cmd, pure, ◌>>=◌, ◌>>◌, Env}
use k_h.KString
use k_h.KString.{KString, c_string}

pub data KLogLevel : Type 0 where
  info : KLogLevel
  warning : KLogLevel
  error : KLogLevel

-- The static variables of `KLogString`.
pub record LogState : Type 0 where
  pub tty_checked : Bool
  pub is_tty : Bool

-- The system: whether `isatty` answers 1, and a write of bytes.
pub record Console : Type 0 where
  pub isatty : Cmd Bool
  pub print : List ℕ → Cmd (Unit {0})

-- `ESC [ tens units m`
abbrev pub ansi : (tens units : ℕ) → List ℕ
ansi tens units = 27 ∷ 91 ∷ tens ∷ units ∷ 109 ∷ []

-- `ESC [ 0 m`
abbrev pub ansi_reset : List ℕ
ansi_reset = 27 ∷ 91 ∷ 48 ∷ 109 ∷ []

-- `"%s\n"` of the message.
abbrev pub line : List ℕ → List ℕ
line message = message ++ 10 ∷ []

-- The message in the format that the level has on a terminal.
abbrev pub coloured : KLogLevel → List ℕ → List ℕ
coloured info message = ansi 51 50 ++ line message ++ ansi_reset
coloured warning message = ansi 51 51 ++ line message ++ ansi_reset
coloured error message = ansi 51 49 ++ line message ++ ansi_reset

abbrev pub check_tty : Console → LogState → Cmd LogState
check_tty console state =
    if state.tty_checked
    then pure state
    else do answer ← console.isatty; pure (record { tty_checked = true; is_tty = answer })

unfoldable pub log_string : Console → LogState → KLogLevel → Option KString → Cmd LogState
log_string console state level none = pure state
log_string console state level (some str) = do
  state ← check_tty console state
  message ← c_string str.buffer
  console.print (if state.is_tty then coloured level message else line message)
  pure state

-- `formatted` is what the format makes of the arguments.
unfoldable pub log : Env → Console → LogState → KLogLevel → (formatted : List ℕ) → Cmd LogState
unfolding log_string
log env console state level formatted = do
  str ← KString.new_with_format env formatted
  log_string console state level str

-- `prefixed` is what `"%s:%d %s"` makes of the file, the line and the message.
unfoldable pub log_file_line :
    Env
    → Console
    → LogState
    → KLogLevel
    → (prefixed : List ℕ → List ℕ) → (formatted : List ℕ) → Cmd LogState
unfolding log
log_file_line env console state level prefixed formatted = do
  str ← KString.new_with_format env formatted
  elim str [
    | none ↦ (λ _. fault)
    | some str ↦ do message ← c_string str.buffer; log env console state level (prefixed message)
  ]
