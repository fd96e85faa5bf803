-- ===== src/Adapters/Exec.antt =====
-- internal/adapters/exec/system.go: the runner over os/exec.
pub mod Logs
use localclaw.Common.{
  ℕ, zero, suc, ◌+◌, ◌-◌, ◌*◌, ◌/◌, ◌%◌, ◌^◌, ◌≤◌, ◌<◌, String, ◌<>◌, ◌≡◌, refl, sym, ap, ◌∙◌,
  subst, ◌≢◌, ◌↔◌, ◌⊎◌, inl, inr, Bool, true, false, not, ◌&&◌, ◌||◌, Option, none, some, List, [],
  ◌∷◌, ◌++◌, map, arith, if◌then◌else◌, Eq, ◌==◌, contains, string_eq, nat_eq, ltb, leb, Bool-cases,
  Option-cases, length, is_nil, select, find, reversed, length-append, All, All-append, Distinct,
  contains-append, codes, join, width, byte_len, join_path, clean, is_digit, is_lower, itoa, itoa_ℤ,
  ℤ, pos, negsuc, is_pos, quote, trim_space, split, join_lines, same_text, take, drop, cut_prefix,
  has_prefix, contains_text, before, behind_first, before_last, fields, text_of, is_space,
}
use localclaw.App.Body.{
  on_error, and_then, Event, Run, Flow, next, done, M, Body, pure, return, lift, func, or_return,
  nil_or_return, call, still_running, ◌>>=◌, ◌>>◌,
}
use localclaw.App.Host.{Host, system, ctx_err}
use localclaw.Domain.Errors.{Error, exit_error, wrapped, Result, ok, err}
use localclaw.Os.{
  Command, Output, Ended, succeeded, exited, broke, LogEntry, spawn, spawn_attached, log,
}

abbrev pub max_stderr_tail : ℕ
max_stderr_tail = 1024

-- tail(s)
unfoldable pub tail : List ℕ → List ℕ
tail s =
    let t = trim_space s in
    if ltb max_stderr_tail (length t) then drop (length t - max_stderr_tail) t else t

-- What Run logs of one command.
unfoldable pub entry_of : Command → Ended → List ℕ → LogEntry
entry_of c ended stderr = record {
  name = c.name;
  args = c.args;
  result = ended;
  sensitive = c.sensitive;
  stderr = if c.sensitive then none else some (tail stderr);
}

module _ {S : Type 0} ⦃H : Host S⦄ where
  -- classify(ctx, name, err, stderrTail)
  unfoldable pub classify : String → Ended → List ℕ → M S (Option Error)
  classify name succeeded stderr_tail = func (pure none)
  classify name (exited code) stderr_tail = func (do
    ended ← call ctx_err
    nil_or_return (λ e. some (wrapped (name <> ": ") e "")) ended
    pure (some (exit_error code stderr_tail)))
  classify name (broke problem) stderr_tail = func (do
    ended ← call ctx_err
    nil_or_return (λ e. some (wrapped (name <> ": ") e "")) ended
    pure (some (wrapped (name <> ": ") problem "")))

  -- s.Run(ctx, c); nothing reads the output that stands beside an error.
  unfoldable pub run_command : Command → M S (Result Output)
  unfolding entry_of
  run_command c = func (do
    (out, ended) ← call (system (spawn c))
    call (system (log (entry_of c ended out.stderr)))
    problem ← lift (classify c.name ended (tail out.stderr))
    nil_or_return err problem
    pure (ok out))

  -- s.Interactive(ctx, c); its log entry has neither the mark nor the output.
  unfoldable pub run_attached : Command → M S (Option Error)
  run_attached c = func (do
    ended ← call (system (spawn_attached c))
    call (
        system (
          log (record {
            name = c.name;
            args = c.args;
            result = ended;
            sensitive = false;
            stderr = none;
          })))
    lift (classify c.name ended []))
