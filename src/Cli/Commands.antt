-- ===== src/Cli/Commands.antt =====
-- internal/cli/lifecycle.go and doctor.go: the actions of the commands. What a JSON
-- rendering looks like is a parameter.
use localclaw.Common.{
  ℕ, String, true, not, ◌&&◌, Option, none, some, List, [], ◌∷◌, if◌then◌else◌, ◌==◌, string_eq,
  nat_eq, is_nil,
}
use localclaw.App.Body.{M, pure, lift, func, or_return, nil_or_return, call, ◌>>=◌, ◌>>◌}
use localclaw.App.Doctor as Doctor
use localclaw.App.Host.{Host, system}
use localclaw.App.Lifecycle.Down.{down}
use localclaw.App.Lifecycle.Status.{status}
use localclaw.App.Lifecycle.Up.{up}
use localclaw.App.Secrets.{SecretStatus, SecretDetail, Outcome, store_state_eq}
use localclaw.Os.{print, print_json}
use localclaw.Domain.Errors.{Error, sentinel, as_findings, checks_failed, Result, ok, err}
use localclaw.Domain.Finding.{Finding}
use localclaw.Domain.Report.{fail, Report, worst, status_eq}
use localclaw.Domain.Role.{Role, select_roles}
use localclaw.Cli.Values.{Invocation, json_output, usage, refuse, no_arg, scaffold_dir}
use localclaw.Cli.Views.{report_text}

pub record Renderings : Type 0 where
  pub report : Report → String
  pub list : List SecretStatus → String
  pub detail : SecretDetail → String
  pub outcome : String → Outcome → String
  -- Time.Format with RFC 3339 in UTC, and the text of a finding
  pub show_time : ℕ → String
  pub show_finding : Finding → String

-- findingsToChecks(findings)
unfoldable pub findings_to_checks : (Finding → String) → List Finding → Report
findings_to_checks shown [] = []
findings_to_checks shown (f ∷ fs) =
    record { name = f.place; status = fail; summary = shown f; hint = "" }
    ∷ findings_to_checks shown fs

-- `if report.Worst() == domain.Fail { return ErrChecksFailed }`
abbrev pub verdict : Report → Option Error
verdict r = if worst r == fail then some (sentinel checks_failed) else none

module _ {S : Type 0} ⦃H : Host S⦄ (inv : Invocation) (views : Renderings) where
  -- A rendering in one of the two formats.
  unfoldable pub show : String → String → M S (Option Error)
  show json text =
      if json_output inv
      then func (call (system (print_json json)))
      else func (do call (system (print text)); pure none)

  -- renderLifecycle(cmd, report), and the end of doctor's action.
  unfoldable pub render_lifecycle : Report → M S (Option Error)
  unfolding show
  render_lifecycle r = func (do
    problem ← lift (show (views.report r) (report_text r))
    nil_or_return some problem
    pure (verdict r))

  -- reportFindings(cmd, err)
  unfoldable pub report_findings : Error → M S (Option Error)
  unfolding show findings_to_checks
  report_findings e = elim (as_findings e) [
    | none ↦ func (pure (some e))
    | some fs ↦ func (do
      problem ← lift (
          show (views.report (findings_to_checks views.show_finding fs))
            (report_text (findings_to_checks views.show_finding fs)))
      nil_or_return some problem
      pure (some (sentinel checks_failed)))
  ]

  -- What a use case of the lifecycle gave.
  unfoldable pub report_or_findings : Report × Option Error → M S (Option Error)
  unfolding render_lifecycle report_findings
  report_or_findings (r, none) = render_lifecycle r
  report_or_findings (r, some e) = report_findings e

  -- zoneArgs(cmd)
  unfoldable pub zone_args : M S (Result (List Role))
  zone_args = elim (select_roles inv.args) [
    | ok roles ↦ func (pure (ok roles))
    | err e ↦ func (do marked ← lift (usage e); pure (err marked))
  ]

  -- The composition root always sets the minter.
  unfoldable pub up_command : M S (Option Error)
  unfolding zone_args report_or_findings
  up_command = func (do
    zones ← lift zone_args
    roles ← or_return some zones
    scaffold ← lift (scaffold_dir inv)
    dir ← or_return some scaffold
    answer ← lift (up true dir roles)
    lift (report_or_findings answer))

  unfoldable pub down_command : M S (Option Error)
  unfolding zone_args report_or_findings
  down_command = func (do
    zones ← lift zone_args
    roles ← or_return some zones
    whole ← lift (
        if inv.destroy && not (is_nil inv.args)
        then refuse "--destroy applies to the whole machine; name no zone"
        else func (pure (ok tt)))
    or_return some whole
    scaffold ← lift (scaffold_dir inv)
    dir ← or_return some scaffold
    answer ← lift (down dir roles inv.destroy)
    lift (report_or_findings answer))

  unfoldable pub status_command : M S (Option Error)
  unfolding report_or_findings
  status_command = func (do
    extra ← lift (no_arg inv.args)
    nil_or_return some extra
    scaffold ← lift (scaffold_dir inv)
    dir ← or_return some scaffold
    answer ← lift (status dir)
    lift (report_or_findings answer))

  -- Any error of the use case is returned as it is.
  unfoldable pub doctor_command : M S (Option Error)
  unfolding render_lifecycle
  doctor_command = func (do
    scaffold ← lift (scaffold_dir inv)
    dir ← or_return some scaffold
    (r, problem) ← lift (Doctor.doctor views.show_finding dir)
    nil_or_return some problem
    lift (render_lifecycle r))
