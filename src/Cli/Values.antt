-- ===== src/Cli/Values.antt =====
-- internal/cli/cli.go and secrets.go: usage errors, arguments, and where a value comes from. Flags are
-- parsed by a library: what it gives is a record.
use localclaw.Common.{
  ℕ, String, ◌<>◌, Bool, not, Option, none, some, List, [], ◌∷◌, if◌then◌else◌, ◌==◌, string_eq,
  nat_eq, quote,
}
use localclaw.App.Body.{M, pure, lift, func, or_return, call, ◌>>=◌, ◌>>◌}
use localclaw.App.Host.{Host, system}
use localclaw.Os.{print_error, value_file, prompt, read_stdin}
use localclaw.Domain.Errors.{Error, usage_error, failure, wrapped, text, Result, ok, err}

-- The arguments and the flags of the command that runs, the flags of the root, and whether the
-- composition root has set Prompt and Stdin.
pub record Invocation : Type 0 where
  pub args : List String
  pub destroy : Bool
  pub force : Bool
  pub from_file : String
  pub generate : Bool
  pub dir : String
  pub output : String
  pub has_prompt : Bool
  pub has_stdin : Bool

-- jsonOutput(cmd)
abbrev pub json_output : Invocation → Bool
json_output inv = inv.output == "json"

-- bytes.TrimSuffix by one byte.
trim_last : ℕ → List ℕ → List ℕ
trim_last d [] = []
trim_last d (c ∷ []) = if c == d then [] else c ∷ []
trim_last d (c ∷ e ∷ cs) = c ∷ trim_last d (e ∷ cs)

-- trimNewline(b)
unfoldable pub trim_newline : List ℕ → List ℕ
unfolding trim_last
trim_newline b = trim_last b'\r' (trim_last b'\n' b)

module _ {S : Type 0} ⦃H : Host S⦄ where
  -- usage(cmd, err)
  unfoldable pub usage : Error → M S Error
  usage e = func (do
    call (system (print_error ("lclaw: " <> (text e <> "\nRun 'lclaw --help' for usage.\n"))))
    pure (usage_error e))

  -- `return …, usage(cmd, errors.New(message))`
  unfoldable pub refuse : {A : Type 0} → String → M S (Result A)
  unfolding usage
  refuse message = func (do e ← lift (usage (failure message)); pure (err e))

  -- nameArg(cmd)
  unfoldable pub name_arg : List String → M S (Result String)
  unfolding refuse
  name_arg [] = refuse "missing secret name"
  name_arg (name ∷ []) = func (pure (ok name))
  name_arg (name ∷ extra ∷ rest) = refuse ("unexpected argument " <> quote extra)

  -- `if cmd.Args().Present() { return usage(…) }`
  unfoldable pub no_arg : List String → M S (Option Error)
  unfolding usage
  no_arg [] = func (pure none)
  no_arg (first ∷ rest) =
      func (do e ← lift (usage (failure ("unexpected argument " <> quote first))); pure (some e))

  -- scaffoldDir(cmd)
  unfoldable pub scaffold_dir : Invocation → M S (Result String)
  unfolding refuse
  scaffold_dir inv =
      if inv.dir == ""
      then refuse "no scaffold directory: pass --dir or set LCLAW_DIR"
      else func (pure (ok inv.dir))

  -- readValue(cmd, d, name)
  unfoldable pub read_value : Invocation → String → M S (Result (List ℕ))
  unfolding refuse trim_newline
  read_value inv name =
      if not (inv.from_file == "")
      then func (do
        answer ← call (system (value_file inv.from_file))
        b ← or_return (λ e. err (wrapped "read --from-file: " e "")) answer
        pure (ok (trim_newline b)))
      else if inv.has_prompt
      then func (do
        answer ← call (system (prompt ("value for " <> (name <> ": "))))
        b ← or_return (λ e. err (wrapped "prompt for value: " e "")) answer
        pure (ok b))
      else if not inv.has_stdin
      then refuse "no value: pass --from-file or pipe the value on stdin"
      else func (do
        answer ← call (system read_stdin)
        b ← or_return (λ e. err (wrapped "read stdin: " e "")) answer
        pure (ok (trim_newline b)))
