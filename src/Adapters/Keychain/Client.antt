-- ===== src/Adapters/Keychain/Client.antt =====
-- internal/adapters/keychain/client.go.
pub mod Sealed
pub mod Missing
pub mod Reported
use localclaw.Common.{
  ℕ, zero, suc, ◌+◌, ◌-◌, ◌*◌, ◌/◌, ◌%◌, ◌^◌, ◌≤◌, ◌<◌, String, ◌<>◌, ◌≡◌, refl, sym, ap, ◌∙◌,
  subst, ◌≢◌, ◌↔◌, ◌⊎◌, inl, inr, Bool, true, false, not, ◌&&◌, ◌||◌, Option, none, some, List, [],
  ◌∷◌, ◌++◌, map, arith, if◌then◌else◌, Eq, ◌==◌, contains, string_eq, nat_eq, ltb, leb, Bool-cases,
  Option-cases, length, is_nil, select, find, reversed, length-append, All, All-append, Distinct,
  contains-append, codes, join, width, byte_len, dir_of, join_path, clean, is_digit, is_lower, itoa,
  itoa_ℤ, ℤ, pos, negsuc, is_pos, quote, trim_space, split, join_lines, same_text, take, drop,
  cut_prefix, has_prefix, contains_text, before, behind_first, before_last, fields, text_of,
  is_space,
}
use localclaw.App.Body.{
  on_error, and_then, Event, Run, Flow, next, done, M, Body, pure, return, lift, func, or_return,
  nil_or_return, call, still_running, ◌>>=◌, ◌>>◌,
}
use localclaw.App.Host.{Host, system}
use localclaw.Os.{Command, Output, stat, mkdir_all, run, interactive}
use localclaw.Domain.Errors.{
  Sentinel, Error, sentinel, exit_error, failure, wrapped, is, as_exit, Result, ok, err,
  tool_not_found, secret_not_found, secret_exists, keychain_missing, keychain_locked,
  wrong_password, not_exist, executable_not_found,
}
use localclaw.Domain.Secret.{
  Source, source_name, SecretItem, hex_encode, validate_name, validate_value,
}
use localclaw.Adapters.Libraries.{Libraries}
use localclaw.Adapters.Redact.{redact}
use localclaw.Adapters.Keychain.Parse.{parse_password, parse_attributes, strip_password}

abbrev pub tool : String
tool = "security"

abbrev pub service : String
service = "lclaw"

abbrev pub item_kind : String
item_kind = "LocalClaw secret"

abbrev pub lock_timeout : String
lock_timeout = "900"

-- exitCode(err)
abbrev pub exit_code : Error → ℤ
exit_code e = elim (as_exit e) [ some (code, stderr) ↦ code | none ↦ negsuc 0 ]

abbrev pub is_code : ℤ → ℕ → Bool
is_code (pos c) n = c == n
is_code (negsuc c) n = false

-- The sentinel of an exit code.
abbrev pub known_code : ℤ → Option Sentinel
known_code code =
    if is_code code 44
    then some secret_not_found
    else if is_code code 45
    then some secret_exists
    else if is_code code 36
    then some keychain_locked
    else if is_code code 50
    then some keychain_missing
    else if is_code code 51
    then some wrong_password
    else none

abbrev pub exit_cause : Option Sentinel → ℤ → List ℕ → Error
exit_cause (some known) code stderr = sentinel known
exit_cause none code stderr = exit_error code (strip_password stderr)

abbrev pub cause_of : Error → Option (ℤ × List ℕ) → Error
cause_of e none = e
cause_of e (some (code, stderr)) = exit_cause (known_code code) code stderr

-- What wrap puts behind %w.
abbrev pub cause : Error → Error
cause e = if is executable_not_found e then sentinel tool_not_found else cause_of e (as_exit e)

-- wrap(op, err)
unfoldable pub wrap : String → Error → Error
wrap op e = wrapped ("keychain: " <> (op <> ": ")) (cause e) ""

abbrev pub awkward : ℕ → Bool
awkward c = c == b'"' || c == 92 || c == 10 || c == 13

abbrev pub holds_any : (ℕ → Bool) → List ℕ → Bool
holds_any p [] = false
holds_any p (c ∷ cs) = p c || holds_any p cs

-- checkPath(path)
unfoldable pub check_path : String → Option Error
check_path path =
    if holds_any awkward (codes path)
    then some (
        failure (
          "keychain: path " <> (quote path <> " must not contain quotes, backslashes or newlines")))
    else none

-- The line that Put gives to `security -i`.
unfoldable pub add_line : String → String → List ℕ → Source → Bool → List ℕ
add_line path name hex_value source replace =
    codes (
      "add-generic-password -a "
      <> (name
          <> (" -s "
              <> (service <> (" -D \"" <> (item_kind <> ("\" -j " <> source_name source)))))))
    ++ ((if replace then codes " -U" else [])
        ++ (codes " -X " ++ (hex_value ++ codes (" \"" <> (path <> "\"\n")))))

-- A marked command.
abbrev pub hidden : List String → Option (List ℕ) → Command
hidden args stdin = record { name = tool; args = args; stdin = stdin; env = []; sensitive = true }

abbrev pub shown : List String → Command
shown args = record { name = tool; args = args; stdin = none; env = []; sensitive = false }

-- What Exists makes of os.Stat's answer.
unfoldable pub found_at : String → Result Bool → Result Bool
found_at path (ok dir) = ok true
found_at path (err e) =
    if is not_exist e then ok false else err (wrapped ("keychain: stat " <> (path <> ": ")) e "")

module _ {S : Type 0} ⦃H : Host S⦄ where
  -- c.Exists(ctx, path)
  unfoldable pub exists : String → M S (Result Bool)
  unfolding found_at
  exists path = func (do found ← call (system (stat path)); pure (found_at path found))

  -- c.Create(ctx, path)
  unfoldable pub create : String → M S (Option Error)
  create path = func (do
    nil_or_return some (check_path path)
    made ← call (system (mkdir_all (dir_of path) 0o700))
    nil_or_return (λ e. some (wrapped ("keychain: create " <> (path <> ": ")) e "")) made
    created ← call (system (interactive (shown ("create-keychain" ∷ path ∷ []))))
    nil_or_return (λ e. some (wrap "create-keychain" e)) created
    settled ← call (
        system (
          run (
            hidden ("set-keychain-settings" ∷ "-l" ∷ "-u" ∷ "-t" ∷ lock_timeout ∷ path ∷ []) none)))
    or_return (λ e. some (wrap "set-keychain-settings" e)) settled
    pure none)

  -- c.require(ctx, path)
  unfoldable pub require : String → M S (Option Error)
  require path = func (do
    found ← lift (exists path)
    there ← or_return some found
    if there
        then pure none
        else return (some (wrapped "keychain: " (sentinel keychain_missing) (" at " <> path))))

  -- c.run(ctx, path, stdin, args...)
  unfoldable pub run_security : String → Option (List ℕ) → List String → M S (Result Output)
  run_security path stdin args = func (do
    first ← call (system (run (hidden args stdin)))
    or_unlock ← pure (elim first [ ok out ↦ false | err e ↦ is_code (exit_code e) 36 ])
    if or_unlock then pure tt else return first
    unlocked ← call (system (interactive (shown ("unlock-keychain" ∷ path ∷ []))))
    nil_or_return err unlocked
    call (system (run (hidden args stdin))))

  -- c.Get(ctx, path, name)
  unfoldable pub get : String → String → M S (Result (List ℕ))
  get path name = func (do
    missing ← lift (require path)
    nil_or_return err missing
    answer ← lift (
        run_security path none
          ("find-generic-password" ∷ "-a" ∷ name ∷ "-s" ∷ service ∷ "-g" ∷ path ∷ []))
    out ← or_return (λ e. err (wrap ("get " <> name) e)) answer
    value ←
        or_return (λ e. err (wrapped ("keychain: get " <> (name <> ": ")) e ""))
          (parse_password out.stderr)
    pure (ok value))

  -- c.Describe(ctx, path, name)
  unfoldable pub describe : Libraries → String → String → M S (Result SecretItem)
  describe libs path name = func (do
    missing ← lift (require path)
    nil_or_return err missing
    answer ← lift (
        run_security path none ("find-generic-password" ∷ "-a" ∷ name ∷ "-s" ∷ service ∷ path ∷ []))
    out ← or_return (λ e. err (wrap ("describe " <> name) e)) answer
    item ←
        or_return (λ e. err (wrapped ("keychain: describe " <> (name <> ": ")) e ""))
          (parse_attributes libs out.stdout)
    pure (ok (record item { name = name })))

  -- c.Put(ctx, path, name, value, source, replace)
  unfoldable pub put : String → String → List ℕ → Source → Bool → M S (Option Error)
  put path name value source replace = func (do
    missing ← lift (require path)
    nil_or_return some missing
    nil_or_return (λ e. some (wrapped "keychain: put: " e "")) (validate_name name)
    nil_or_return (λ e. some (wrapped ("keychain: put " <> (name <> ": ")) e ""))
        (validate_value value)
    nil_or_return some (check_path path)
    answer ← lift (
        run_security path (some (add_line path name (hex_encode value) source replace)) ("-i" ∷ []))
    or_return (λ e. some (wrap ("put " <> name) (redact e (hex_encode value)))) answer
    pure none)

  -- c.Delete(ctx, path, name)
  unfoldable pub delete : String → String → M S (Option Error)
  delete path name = func (do
    missing ← lift (require path)
    nil_or_return some missing
    answer ← lift (
        run_security path none
          ("delete-generic-password" ∷ "-a" ∷ name ∷ "-s" ∷ service ∷ path ∷ []))
    or_return (λ e. some (wrap ("delete " <> name) e)) answer
    pure none)
