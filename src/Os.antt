-- ===== src/Os.antt =====
-- internal/adapters/exec/runner.go, and what the adapters use of the operating system: the calls that
-- leave the program, and what each one answers.
use localclaw.Common.{ℕ, String, Bool, Option, List, ℤ, string_eq}
use localclaw.Domain.Errors.{Error, Result}

-- One external command. `stdin` is what the reader gives.
pub record Command : Type 0 where
  pub name : String
  pub args : List String
  pub stdin : Option (List ℕ)
  pub env : List String
  pub sensitive : Bool

-- exec.Result
pub record Output : Type 0 where
  pub stdout : List ℕ
  pub stderr : List ℕ

-- What cmd.Run() of os/exec returns: nil, an *osexec.ExitError with its code, or another error.
pub data Ended : Type 0 where
  succeeded : Ended
  exited : ℤ → Ended
  broke : Error → Ended

-- One entry of the debug log; the duration is left out.
pub record LogEntry : Type 0 where
  pub name : String
  pub args : List String
  pub result : Ended
  pub sensitive : Bool
  pub stderr : Option (List ℕ)

-- What OpenDir returns: a file system, and fs.Stat on it as a test that stays the same while it is
-- held.
pub record Directory : Type 0 where
  pub id : ℕ
  pub exists : String → Bool

pub data Sys : Type 0 where
  -- the methods of exec.Runner
  run interactive : Command → Sys
  -- os/exec: the process with its output captured, or on the terminal; and the log
  spawn spawn_attached : Command → Sys
  log : LogEntry → Sys
  -- os.Stat and os.Lstat, with IsDir of what they find
  stat lstat : String → Sys
  mkdir_all : String → ℕ → Sys
  create_temp : String → String → Sys
  write : String → List ℕ → Sys
  chmod : String → ℕ → Sys
  close remove : String → Sys
  rename : String → String → Sys
  -- os.DirFS and fs.ReadFile
  dir_fs : String → Sys
  read_file : Directory → String → Sys
  home_dir : Sys
  -- time.Now() and a sleep that the context may end, in nanoseconds
  now : Sys
  sleep : ℕ → Sys
  -- standard output and standard error; fmt.Fprintf drops the error of a write
  print print_error : String → Sys
  print_json : String → Sys
  print_value : List ℕ → Sys
  -- where a value is read from
  value_file : String → Sys
  prompt : String → Sys
  read_stdin : Sys

abbrev pub Reply : Sys → Type 0
Reply (run c) = Result Output
Reply (interactive c) = Option Error
Reply (spawn c) = Output × Ended
Reply (spawn_attached c) = Ended
Reply (log entry) = Unit {0}
Reply (stat path) = Result Bool
Reply (lstat path) = Result Bool
Reply (mkdir_all path mode) = Option Error
Reply (create_temp dir pattern) = Result String
Reply (write file content) = Option Error
Reply (chmod file mode) = Option Error
Reply (close file) = Option Error
Reply (remove file) = Option Error
Reply (rename from to) = Option Error
Reply (dir_fs dir) = Directory
Reply (read_file dir path) = Result (List ℕ)
Reply home_dir = Result String
Reply now = ℕ
Reply (sleep interval) = Option Error
Reply (print text) = Unit
Reply (print_error text) = Unit
Reply (print_json text) = Option Error
Reply (print_value value) = Option Error
Reply (value_file path) = Result (List ℕ)
Reply (prompt text) = Result (List ℕ)
Reply read_stdin = Result (List ℕ)
