-- ===== src/Cli/Secrets/Refused.antt =====
-- A mistake on the command line touches nothing.
use localclaw.Common.{
  String, ◌<>◌, ◌≡◌, refl, ◌≢◌, true, Option, some, List, [], ◌∷◌, string_eq, nat_eq, length, quote,
}
use localclaw.App.Body.{Run, M, pure, return, lift, func, or_return, call, ◌>>=◌}
use localclaw.App.Host.{Host, system}
use localclaw.Os.{print_error}
use localclaw.Domain.Errors.{Error, is_usage, usage_error, failure, text, Result, err}
use localclaw.Cli.Commands.{Renderings}
use localclaw.Cli.Exit.{exit_code}
use localclaw.Cli.Secrets.{
  describe_command, set_command, update_command, delete_command, get_command,
}
use localclaw.Cli.Values.{Invocation, usage, refuse, name_arg}

-- What is wrong with the arguments.
abbrev pub complaint : List String → String
complaint [] = "missing secret name"
complaint (name ∷ []) = ""
complaint (name ∷ extra ∷ rest) = "unexpected argument " <> quote extra

usage_code : (e : Error) → is_usage e ≡ true → exit_code (some e) ≡ 2
unfolding exit_code
usage_code e h = rw h refl

module _ {S : Type 0} ⦃H : Host S⦄ where
  -- One message and no other call, and the exit code 2.
  abbrev pub Refuses : List String → M S (Option Error) → S → Type 0
  Refuses args m s =
      ((m s).events
        ≡ record {
          call =
              system (
                print_error ("lclaw: " <> (complaint args <> "\nRun 'lclaw --help' for usage.\n")));
          answer = tt;
        }
          ∷ [])
      × (exit_code (m s).value ≡ 2)

  abbrev refused : String → S → Run S (Result String)
  refused message s = record {
    value = err (usage_error (failure message));
    events =
        record {
          call =
              system (print_error ("lclaw: " <> (message <> "\nRun 'lclaw --help' for usage.\n")));
          answer = tt;
        }
        ∷ [];
    state =
        (H.answer
          (system (print_error ("lclaw: " <> (message <> "\nRun 'lclaw --help' for usage.\n"))))
          s).1;
  }

  name_arg_refused :
      (args : List String) (s : S) → length args ≢ 1 → name_arg args s ≡ refused (complaint args) s
  unfolding name_arg refuse usage text func ◌>>=◌ call lift pure
  name_arg_refused [] s h = refl
  name_arg_refused (name ∷ []) s h = absurd (h refl)
  name_arg_refused (name ∷ extra ∷ rest) s h = refl

  -- Without exactly one argument, `lclaw secrets describe`, `set`, `update`, `delete` and `get` print
  -- one message on standard error, which names what is missing or the second argument, call nothing
  -- else, and exit with 2.
  pub name_refused :
      (inv : Invocation) (views : Renderings) (s : S)
      → length inv.args ≢ 1
      → Refuses inv.args (describe_command inv views) s
        × (Refuses inv.args (set_command inv views) s
            × (Refuses inv.args (update_command inv views) s
                × (Refuses inv.args (delete_command inv views) s
                    × Refuses inv.args (get_command inv views) s)))
  unfolding describe_command set_command update_command delete_command get_command func ◌>>=◌ lift
      or_return return is_usage exit_code
  name_refused inv views s h =
      let e = name_arg_refused inv.args s h in
      (
        rw e (refl, refl),
        (rw e (refl, refl), (rw e (refl, refl), (rw e (refl, refl), rw e (refl, refl)))),
      )
