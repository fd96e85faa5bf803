-- ===== src/Domain/Errors.antt =====
-- Go error values: the sentinels that `errors.Is` looks for, the error types that `errors.As`
-- looks for, and the wrapping by `fmt.Errorf` with `%w`.
use localclaw.Common.{
  ◌≡◌, refl, ◌⊎◌, inl, inr, String, ◌<>◌, Bool, true, false, Option, none, some, List,
  if◌then◌else◌, Eq, ◌==◌, string_eq, nat_eq, length, is_nil, text_of, ℕ, itoa, itoa_ℤ, ℤ,
}
use localclaw.Domain.Finding.{Finding}

pub data Sentinel : Type 0 where
  tool_not_found invalid_name invalid_value secret_not_found secret_exists unknown_secret : Sentinel
  keychain_missing keychain_locked wrong_password not_generatable minter_unavailable : Sentinel
  not_exist exist canceled executable_not_found checks_failed init_failed : Sentinel

pub Sentinel-discrete : Discrete Sentinel
Sentinel-discrete = hlevel

instance unfoldable pub sentinel_eq : Eq Sentinel
unfolding Sentinel-discrete
sentinel_eq = record { dec = Sentinel-discrete }

pub data Error : Type 0 where
  sentinel : Sentinel → Error
  findings_error : List Finding → Error
  unknown_zone_error : String → Bool → Error
  exit_error : ℤ → List ℕ → Error
  usage_error : Error → Error
  -- errors.New, an error of a library, or fmt.Errorf without %w
  failure : String → Error
  -- fmt.Errorf with the text before %w and the text behind it
  wrapped : String → Error → String → Error

-- errors.Is(err, target)
unfoldable pub is : Sentinel → Error → Bool
is s (sentinel t) = s == t
is s (wrapped before e after) = is s e
is s (usage_error e) = is s e
is s _ = false

-- errors.As for *FindingsError, *exec.ExitError and *usageError
unfoldable pub as_findings : Error → Option (List Finding)
as_findings (findings_error fs) = some fs
as_findings (wrapped before e after) = as_findings e
as_findings (usage_error e) = as_findings e
as_findings _ = none

unfoldable pub as_exit : Error → Option (ℤ × List ℕ)
as_exit (exit_error code stderr) = some (code, stderr)
as_exit (wrapped before e after) = as_exit e
as_exit (usage_error e) = as_exit e
as_exit _ = none

unfoldable pub is_usage : Error → Bool
is_usage (usage_error e) = true
is_usage (wrapped before e after) = is_usage e
is_usage _ = false

sentinel_text : Sentinel → String
sentinel_text tool_not_found = "tool not found"
sentinel_text invalid_name = "invalid secret name"
sentinel_text invalid_value = "invalid secret value"
sentinel_text secret_not_found = "secret not found"
sentinel_text secret_exists = "secret already exists"
sentinel_text unknown_secret = "unknown secret"
sentinel_text keychain_missing = "keychain not found"
sentinel_text keychain_locked = "keychain is locked"
sentinel_text wrong_password = "wrong keychain password"
sentinel_text not_generatable = "secret cannot be generated"
sentinel_text minter_unavailable =
    "minting needs the services zone up; run `lclaw up services` first"
sentinel_text not_exist = "file does not exist"
sentinel_text exist = "file already exists"
sentinel_text canceled = "context canceled"
sentinel_text executable_not_found = "executable file not found in $PATH"
sentinel_text checks_failed = "checks failed"
sentinel_text init_failed = "init did not complete"

-- err.Error()
unfoldable pub text : Error → String
unfolding sentinel_text itoa itoa_ℤ text_of
text (sentinel s) = sentinel_text s
text (findings_error fs) = "lclaw.toml has " <> (itoa (length fs) <> " problem(s)")
text (unknown_zone_error name true) = "zone " <> (name <> " is named twice")
text (unknown_zone_error name false) =
    "unknown zone " <> (name <> "; the zones are infra, services, agent")
text (exit_error code stderr) =
    if is_nil stderr
    then "exit status " <> itoa_ℤ code
    else "exit status " <> (itoa_ℤ code <> (": " <> text_of stderr))
text (usage_error e) = text e
text (failure s) = s
text (wrapped before e after) = before <> (text e <> after)

-- What a fallible call returns.
pub data Result {ℓ} (A : Type ℓ) : Type ℓ where
  ok : A → Result A
  err : Error → Result A

pub Result-cases {ℓ} :
    {A : Type ℓ} (r : Result A) → ((a : A) × (r ≡ ok a)) ⊎ ((e : Error) × (r ≡ err e))
Result-cases (ok a) = inl (a, refl)
Result-cases (err e) = inr (e, refl)
