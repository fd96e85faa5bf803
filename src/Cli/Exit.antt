-- ===== src/Cli/Exit.antt =====
-- internal/cli/exit.go, and what run of cmd/lclaw/main.go makes of the error.
use localclaw.Common.{
  ℕ, String, ◌<>◌, Bool, true, ◌||◌, Option, none, some, if◌then◌else◌, ◌==◌, string_eq, nat_eq,
}
use localclaw.App.Body.{M, pure, lift, func, call, ◌>>◌}
use localclaw.App.Host.{Host, system}
use localclaw.Os.{print_error}
use localclaw.Domain.Errors.{
  Error, is, is_usage, text, canceled, unknown_secret, invalid_value, not_generatable,
  minter_unavailable, checks_failed, init_failed,
}

-- ExitCode(err)
unfoldable pub exit_code : Option Error → ℕ
exit_code none = 0
exit_code (some e) =
    if is_usage e
    then 2
    else if is canceled e
    then 130
    else if is unknown_secret e
        || is invalid_value e
        || is not_generatable e
        || is minter_unavailable e
    then 2
    else 1

-- Silent(err)
unfoldable pub silent : Option Error → Bool
silent none = true
silent (some e) = is_usage e || is checks_failed e || is init_failed e

module _ {S : Type 0} ⦃H : Host S⦄ where
  -- The end of run(args, stdout, stderr), behind root.Run.
  unfoldable pub finish : Option Error → M S ℕ
  unfolding exit_code silent
  finish e = func (do
    if exit_code e == 130
        then lift (func (call (system (print_error "lclaw: interrupted\n"))))
        else (if silent e
            then pure tt
            else lift (func (call (system (print_error ("lclaw: " <> (shown e <> "\n")))))))
    pure (exit_code e))
    where
      shown : Option Error → String
      shown none = ""
      shown (some e) = text e
