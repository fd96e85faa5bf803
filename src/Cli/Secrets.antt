-- ===== src/Cli/Secrets.antt =====
-- internal/cli/secrets.go: the actions of the secrets commands.
pub mod Refused
use localclaw.Common.{
  ℕ, zero, suc, ◌+◌, ◌-◌, ◌*◌, ◌/◌, ◌%◌, ◌^◌, ◌≤◌, ◌<◌, String, ◌<>◌, ◌≡◌, refl, sym, ap, ◌∙◌,
  subst, ◌≢◌, ◌↔◌, ◌⊎◌, inl, inr, Bool, true, false, not, ◌&&◌, ◌||◌, Option, none, some, List, [],
  ◌∷◌, ◌++◌, map, arith, if◌then◌else◌, Eq, ◌==◌, contains, string_eq, nat_eq, ltb, leb, Bool-cases,
  Option-cases, length, is_nil, select, find, reversed, length-append, All, All-append, Distinct,
  contains-append, codes, join, width, byte_len, join_path, dir_of, base_of, is_abs, clean,
  is_digit, is_lower, itoa, itoa_ℤ, ℤ, pos, negsuc, is_pos, quote, trim_space, split, join_lines,
  same_text, take, drop, cut_prefix, has_prefix, contains_text, before, behind_first, before_last,
  fields, text_of, is_space,
}
use localclaw.App.Body.{
  on_error, and_then, Event, Run, Flow, next, done, M, Body, pure, return, lift, func, or_return,
  nil_or_return, call, still_running, ◌>>=◌, ◌>>◌,
}
use localclaw.App.Doctor as Doctor
use localclaw.App.Host.{Host, system}
use localclaw.App.Lifecycle.Down.{down}
use localclaw.App.Lifecycle.Status.{status}
use localclaw.App.Lifecycle.Up.{up}
use localclaw.App.Secrets.{SecretStatus, SecretDetail, Outcome, failed, store_state_eq}
use localclaw.App.Secrets.Commands as Secrets
use localclaw.Os.{print, print_error, print_json, print_value}
use localclaw.Domain.Errors.{Error, sentinel, failure, as_findings, checks_failed, Result, ok, err}
use localclaw.Domain.Finding.{Finding}
use localclaw.Domain.Report.{fail, Check, Report, worst, status_eq}
use localclaw.Domain.Role.{Role, select_roles}
use localclaw.Cli.Values.{
  Invocation, json_output, usage, refuse, name_arg, no_arg, scaffold_dir, read_value,
}
use localclaw.Cli.Views.{report_text, list_text, detail_text, outcome_text}
use localclaw.Cli.Commands.{Renderings, show, report_findings}

module _ {S : Type 0} ⦃H : Host S⦄ (inv : Invocation) (views : Renderings) where
  -- `if err != nil { return reportFindings(cmd, err) }`
  unfoldable pub or_findings : {A : Type 0} → Result A → Body S (Option Error) A
  unfolding report_findings
  or_findings (ok a) = pure a
  or_findings (err e) = do reported ← lift (report_findings inv views e); return reported

  -- renderOutcome(cmd, verb, o)
  unfoldable pub render_outcome : String → Outcome → M S (Option Error)
  unfolding show
  render_outcome verb o = func (do
    if o.warning == ""
        then pure tt
        else lift (func (call (system (print_error ("lclaw: warning: " <> (o.warning <> "\n"))))))
    problem ← lift (show inv views (views.outcome verb o) (outcome_text verb o))
    nil_or_return some problem
    pure (if o.store.state == failed then some (sentinel checks_failed) else none))

  unfoldable pub list_command : M S (Option Error)
  unfolding or_findings show
  list_command = func (do
    extra ← lift (no_arg inv.args)
    nil_or_return some extra
    scaffold ← lift (scaffold_dir inv)
    dir ← or_return some scaffold
    answer ← lift (Secrets.list_secrets dir)
    rows ← or_findings answer
    lift (show inv views (views.list rows) (list_text rows)))

  unfoldable pub describe_command : M S (Option Error)
  unfolding or_findings show
  describe_command = func (do
    named ← lift (name_arg inv.args)
    name ← or_return some named
    scaffold ← lift (scaffold_dir inv)
    dir ← or_return some scaffold
    answer ← lift (Secrets.describe dir name)
    detail ← or_findings answer
    lift (show inv views (views.detail detail) (detail_text views.show_time detail)))

  unfoldable pub set_command : M S (Option Error)
  unfolding or_findings render_outcome
  set_command = func (do
    named ← lift (name_arg inv.args)
    name ← or_return some named
    scaffold ← lift (scaffold_dir inv)
    dir ← or_return some scaffold
    given ← lift (read_value inv name)
    value ← or_return some given
    answer ← lift (Secrets.set dir name value)
    o ← or_findings answer
    lift (render_outcome "set" o))

  unfoldable pub update_command : M S (Option Error)
  unfolding or_findings render_outcome
  update_command = func (do
    named ← lift (name_arg inv.args)
    name ← or_return some named
    scaffold ← lift (scaffold_dir inv)
    dir ← or_return some scaffold
    given ← lift (
        if inv.generate && not (inv.from_file == "")
        then refuse "--generate and --from-file cannot be combined"
        else if inv.generate
        then func (pure (ok []))
        else read_value inv name)
    value ← or_return some given
    answer ← lift (Secrets.update dir name value inv.generate)
    o ← or_findings answer
    lift (render_outcome "updated" o))

  unfoldable pub delete_command : M S (Option Error)
  unfolding or_findings render_outcome
  delete_command = func (do
    named ← lift (name_arg inv.args)
    name ← or_return some named
    scaffold ← lift (scaffold_dir inv)
    dir ← or_return some scaffold
    answer ← lift (Secrets.delete dir name)
    o ← or_findings answer
    lift (render_outcome "deleted" o))

  unfoldable pub get_command : M S (Option Error)
  unfolding or_findings
  get_command = func (do
    named ← lift (name_arg inv.args)
    name ← or_return some named
    scaffold ← lift (scaffold_dir inv)
    dir ← or_return some scaffold
    answer ← lift (Secrets.get dir name)
    value ← or_findings answer
    call (system (print_value value)))
