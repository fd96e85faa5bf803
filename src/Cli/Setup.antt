-- ===== src/Cli/Setup.antt =====
-- internal/cli/init.go and version.go, and the check of --output in cli.go.
use localclaw.Common.{
  String, ◌<>◌, Bool, false, not, ◌&&◌, ◌||◌, Option, none, some, List, [], ◌∷◌, if◌then◌else◌,
  ◌==◌, string_eq, nat_eq, length, codes, itoa, quote,
}
use localclaw.App.Body.{M, pure, lift, func, or_return, nil_or_return, call, ◌>>=◌, ◌>>◌}
use localclaw.App.Host.{Host, system}
use localclaw.App.Init.{
  created, skipped, keychain_state_eq, KeychainOutcome, InitFailure, InitReport, DefaultFile, is_ok,
  init,
}
use localclaw.Os.{print_error, print_json, print_value}
use localclaw.Domain.Errors.{Error, sentinel, failure, text, init_failed}
use localclaw.Cli.Commands.{Renderings, show}
use localclaw.Cli.Values.{Invocation, json_output, usage, scaffold_dir}

-- One line for each path, behind a word.
unfoldable pub path_lines : String → List String → String
path_lines word [] = ""
path_lines word (p ∷ ps) = word <> (p <> ("\n" <> path_lines word ps))

unfoldable pub failure_lines : List InitFailure → String
failure_lines [] = ""
failure_lines (f ∷ fs) =
    "failed   " <> (f.path <> (": " <> (text f.error <> ("\n" <> failure_lines fs))))

-- What %v shows of an error that may be nil.
abbrev pub error_text : Option Error → String
error_text none = "<nil>"
error_text (some e) = text e

unfoldable pub keychain_line : Option KeychainOutcome → String
keychain_line none = ""
keychain_line (some k) =
    if k.state == created
    then "created  " <> (k.path <> "\n")
    else if k.state == skipped
    then "skipped  " <> (k.path <> "\n")
    else "failed   "
      <> ((if k.path == "" then "keychain" else k.path) <> (": " <> (error_text k.error <> "\n")))

-- renderInitText(w, r)
unfoldable pub init_text : InitReport → String
unfolding path_lines failure_lines keychain_line
init_text r =
    path_lines "written  " r.written
    <> (path_lines "skipped  " r.skipped_files
        <> (failure_lines r.refused
            <> (keychain_line r.keychain
                <> ("\n"
                    <> (r.dir
                        <> (": "
                            <> (itoa (length r.written)
                                <> (" written, "
                                    <> (itoa (length r.skipped_files)
                                        <> (" skipped, "
                                            <> (itoa (length r.refused) <> " failed\n")))))))))))

abbrev pub keychain_created : Option KeychainOutcome → Bool
keychain_created none = false
keychain_created (some k) = k.state == created

abbrev pub empty_password_warning : String
empty_password_warning =
    "lclaw: warning: standard input is not a terminal, so security read the new keychain's password from it; an empty stdin creates a keychain with an empty password\n"

-- BuildInfo, and what package runtime says.
pub record BuildInfo : Type 0 where
  pub version : String
  pub commit : String
  pub date : String
  pub modified : Bool
  pub go : String
  pub platform : String

-- The text of `lclaw version`.
unfoldable pub version_text : BuildInfo → String
version_text b =
    "lclaw "
    <> (b.version
        <> ("\ncommit:   "
            <> ((if b.modified then b.commit <> " (modified)" else b.commit)
                <> ("\nbuilt:    "
                    <> (b.date <> ("\ngo:       " <> (b.go <> (" " <> (b.platform <> "\n")))))))))

module _ {S : Type 0} ⦃H : Host S⦄ (inv : Invocation) (views : Renderings) where
  -- The action of init; `defaults` are the files of Defaults.
  unfoldable pub init_command : (InitReport → String) → List DefaultFile → M S (Option Error)
  unfolding init_text
  init_command json defaults = func (do
    scaffold ← lift (scaffold_dir inv)
    dir ← or_return some scaffold
    (r, problem) ← lift (init defaults dir inv.force)
    nil_or_return some problem
    shown ← lift (show inv views (json r) (init_text r))
    nil_or_return some shown
    if keychain_created r.keychain && not inv.has_prompt
        then lift (func (call (system (print_error empty_password_warning))))
        else pure tt
    pure (if is_ok r then none else some (sentinel init_failed)))

  -- The action of version.
  unfoldable pub version_command : (BuildInfo → String) → BuildInfo → M S (Option Error)
  unfolding version_text
  version_command json b =
      if json_output inv
      then func (call (system (print_json (json b))))
      else func (call (system (print_value (codes (version_text b)))))

-- Before of the root command, which raises the level of the log besides.
unfoldable pub check_output : {S : Type 0} → ⦃H : Host S⦄ → Invocation → M S (Option Error)
check_output inv =
    if inv.output == "text" || inv.output == "json"
    then func (pure none)
    else func (do
      e ← lift (
          usage (
            failure ("invalid value " <> (quote inv.output <> " for --output: want text or json"))))
      pure (some e))
