-- ===== src/Adapters/Litellm.antt =====
-- internal/adapters/litellm/minter.go. Durations are nanoseconds.
pub mod Waiting
use localclaw.Common.{
  ℕ, zero, suc, ◌+◌, ◌-◌, ◌*◌, ◌/◌, ◌%◌, ◌^◌, ◌≤◌, ◌<◌, String, ◌<>◌, ◌≡◌, refl, sym, ap, ◌∙◌,
  subst, ◌≢◌, ◌↔◌, ◌⊎◌, inl, inr, Bool, true, false, not, ◌&&◌, ◌||◌, Option, none, some, List, [],
  ◌∷◌, ◌++◌, map, arith, if◌then◌else◌, Eq, ◌==◌, contains, string_eq, nat_eq, ltb, leb, Bool-cases,
  Option-cases, length, is_nil, select, find, reversed, length-append, All, All-append, Distinct,
  contains-append, codes, join, width, byte_len, join_path, dir_of, clean, is_digit, is_lower, itoa,
  itoa_ℤ, ℤ, pos, negsuc, is_pos, quote, trim_space, split, join_lines, same_text, take, drop,
  cut_prefix, has_prefix, contains_text, before, behind_first, before_last, fields, text_of,
  is_space,
}
use localclaw.App.Body.{
  on_error, and_then, Event, Run, Flow, next, done, M, Body, pure, return, lift, func, or_return,
  nil_or_return, call, still_running, ◌>>=◌, ◌>>◌,
}
use localclaw.App.Host.{Host, system, ctx_err}
use localclaw.Os.{Command, run, now, sleep}
use localclaw.Domain.Errors.{
  Error, sentinel, failure, wrapped, is, as_exit, Result, ok, err, executable_not_found,
  minter_unavailable, tool_not_found,
}
use localclaw.Domain.Role.{machine_name}
use localclaw.Adapters.Libraries.{Libraries}
use localclaw.Adapters.Scripts.{ready_script, mint_script, revoke_script}
use localclaw.Adapters.Redact.{redact}

abbrev pub container : String
container = "litellm-litellm"

pub record Minter : Type 0 where
  pub timeout : ℕ
  pub interval : ℕ

abbrev pub second : ℕ
second = 1000000000

abbrev pub timeout_of : Minter → ℕ
timeout_of m = if m.timeout == 0 then 120 * second else m.timeout

abbrev pub interval_of : Minter → ℕ
interval_of m = if m.interval == 0 then 2 * second else m.interval

abbrev pub script_command : String → List ℕ → List String → Command
script_command script stdin args = record {
  name = "podman";
  args =
      "--connection" ∷ machine_name ∷ "exec" ∷ "-i" ∷ container ∷ "python3" ∷ "-c" ∷ script ∷ args;
  stdin = some stdin;
  env = [];
  sensitive = true;
}

abbrev pub absent : List ℕ → Bool
absent stderr =
    contains_text stderr (codes "no such container")
    || contains_text stderr (codes "is not running")

abbrev pub unavailable_of : Error → Option (ℤ × List ℕ) → Error
unavailable_of e (some (code, stderr)) =
    if absent stderr
    then sentinel minter_unavailable
    else if is executable_not_found e
    then wrapped "" (sentinel tool_not_found) ""
    else e
unavailable_of e none =
    if is executable_not_found e then wrapped "" (sentinel tool_not_found) "" else e

-- unavailable(err)
unfoldable pub unavailable : Error → Error
unavailable e = unavailable_of e (as_exit e)

abbrev pub last_line : List (List ℕ) → List ℕ
last_line [] = []
last_line (l ∷ []) = l
last_line (l ∷ m ∷ ls) = last_line (m ∷ ls)

-- redact(err) of this package.
unfoldable pub last_only : Error → Error
last_only e = elim (as_exit e) [
  | some (code, stderr) ↦ failure (text_of (last_line (split b'\n' (trim_space stderr))))
  | none ↦ e
]

-- What the loop of Ready has come to; `waiting` is a loop that goes on.
pub data Wait : Type 0 where
  ended : Option Error → Wait
  waiting : Wait

too_late : Libraries → Minter → Error → Error
unfolding last_only
too_late libs m e =
    wrapped ("litellm: not ready after " <> (libs.show_duration (timeout_of m) <> ": "))
      (last_only e) ""

-- `if err == nil { return nil }`
or_ready : {S A : Type 0} → Result A → Body S Wait Error
or_ready (ok a) = return (ended none)
or_ready (err e) = pure e

-- The loop goes on, or has ended.
go_on : {S : Type 0} → Wait → M S Wait → M S Wait
go_on (ended r) k = func (pure (ended r))
go_on waiting k = k

module _ {S : Type 0} ⦃H : Host S⦄ where
  -- `if ctx.Err() != nil { return ctx.Err() }`
  or_stopped : Option Error → Body S Wait (Unit {0})
  or_stopped none = pure tt
  or_stopped (some e) = do again ← call ctx_err; return (ended again)

  -- m.exec(ctx, script, stdin, args...)
  unfoldable pub run_script : String → List ℕ → List String → M S (Result (List ℕ))
  run_script script stdin args = func (do
    answer ← call (system (run (script_command script stdin args)))
    out ← or_return err answer
    pure (ok (trim_space out.stdout)))

module _ {S : Type 0} ⦃H : Host S⦄ where
  -- m.Mint(ctx, name)
  unfoldable pub mint : String → M S (Result (List ℕ))
  unfolding run_script unavailable
  mint name = func (do
    answer ← lift (run_script mint_script [] (name ∷ []))
    out ←
        or_return (λ e. err (wrapped ("litellm: mint " <> (name <> ": ")) (unavailable e) ""))
          answer
    pure (
        if is_nil out then err (failure ("litellm: mint " <> (name <> ": empty key"))) else ok out))

  -- m.Revoke(ctx, name, value)
  unfoldable pub revoke : String → List ℕ → M S (Option Error)
  unfolding run_script unavailable
  revoke name value = func (do
    answer ← lift (run_script revoke_script (value ++ (10 ∷ [])) [])
    or_return
        (λ e.
          some (wrapped ("litellm: revoke " <> (name <> ": ")) (redact (unavailable e) value) ""))
        answer
    pure none)

  module _ (libs : Libraries) (m : Minter) where
    -- One turn of the loop of Ready.
    unfoldable pub poll : ℕ → M S Wait
    unfolding run_script or_ready or_stopped too_late
    poll deadline = func (do
      answer ← lift (run_script ready_script [] [])
      e ← or_ready answer
      stopped ← call ctx_err
      or_stopped stopped
      time ← call (system now)
      if ltb deadline time then return (ended (some (too_late libs m e))) else pure tt
      slept ← call (system (sleep (interval_of m)))
      nil_or_return (λ e. ended (some e)) slept
      pure waiting)

    -- The loop of Ready, for so many turns.
    unfoldable pub polls : ℕ → ℕ → M S Wait
    unfolding poll go_on
    polls zero deadline = func (pure waiting)
    polls (suc fuel) deadline =
        func (do turn ← lift (poll deadline); lift (go_on turn (polls fuel deadline)))

    -- m.Ready(ctx)
    unfoldable pub ready : ℕ → M S Wait
    unfolding polls
    ready fuel = func (do start ← call (system now); lift (polls fuel (start + timeout_of m)))
