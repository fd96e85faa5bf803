-- ===== src/App/Lifecycle.antt =====
-- internal/app/lifecycle.go, the shared parts: loading, the checks and ensureMachine.
pub mod Calls
pub mod Gate
use localclaw.Common.{
  ℕ, zero, suc, ◌+◌, ◌-◌, ◌*◌, ◌/◌, ◌%◌, ◌^◌, ◌≤◌, ◌<◌, String, ◌<>◌, ◌≡◌, refl, sym, ap, ◌∙◌,
  subst, ◌≢◌, ◌↔◌, ◌⊎◌, inl, inr, Bool, true, false, not, ◌&&◌, ◌||◌, Option, none, some, List, [],
  ◌∷◌, ◌++◌, map, arith, if◌then◌else◌, Eq, ◌==◌, contains, string_eq, nat_eq, ltb, leb, Bool-cases,
  Option-cases, length, is_nil, select, find, reversed, length-append, All, All-append, update,
  Distinct, contains-append, codes, join, width, byte_len, join_path, clean, is_digit, is_lower,
  itoa, itoa_ℤ, ℤ, pos, negsuc, is_pos, quote,
}
use localclaw.App.Body.{
  M, Body, pure, return, lift, func, or_return, nil_or_return, call, still_running, ◌>>=◌, ◌>>◌,
}
use localclaw.App.Host.{
  Host, MachineInit, Directory, open_dir, load_topology, list_machines, init_machine, start_machine,
  step,
}
use localclaw.Domain.Catalogue.{Catalogue, new_catalogue}
use localclaw.Domain.Errors.{Error, text, findings_error, wrapped, Result, ok, err}
use localclaw.Domain.Report.{Report, Check, pass, warn, fail}
use localclaw.Domain.Role.{Machine, machine_name}
use localclaw.Domain.Secret.{builtin_secrets}
use localclaw.Domain.Topology.{Topology, declared_secrets, playbook_file}
use localclaw.Domain.Validate.{validate}
pub mod Up
pub mod Down
pub mod Status

-- What Up, Down and Status return.
abbrev pub Reported : Type 0
Reported = Report × Option Error

abbrev pub passed : String → String → Check
passed name summary = record { name = name; status = pass; summary = summary; hint = "" }

abbrev pub warned : String → String → String → Check
warned name summary hint = record { name = name; status = warn; summary = summary; hint = hint }

abbrev pub failed : String → Error → Check
failed name e = record { name = name; status = fail; summary = text e; hint = "" }

first_machine : List Machine → Option Machine
first_machine [] = none
first_machine (m ∷ ms) =
    let rest = first_machine ms in if m.name == machine_name then some m else rest

abbrev init_of : String → Topology → MachineInit
init_of dir top = record {
  name = machine_name;
  provider = top.provider;
  cpus = top.machine.cpus;
  memory_mib = top.machine.memory_mib;
  disk_gib = top.machine.disk_gib;
  volumes = top.machine.volumes;
  playbook = join_path dir playbook_file;
}

abbrev machine_failed : Error → Check × Option Error
machine_failed e = (failed "machine" e, some e)

module _ {S : Type 0} ⦃H : Host S⦄ where
  findings_or_catalogue :
      Topology → Directory → Body S (Result (Topology × Catalogue)) (Topology × Catalogue)
  findings_or_catalogue top fsys =
      let findings = validate top fsys.exists in
      if is_nil findings
      then pure (top, (new_catalogue builtin_secrets (declared_secrets top)).0)
      else return (err (findings_error findings))

  -- l.load(dir)
  unfoldable pub load : String → M S (Result (Topology × Catalogue))
  unfolding findings_or_catalogue
  load dir = func (do
    opened ← call (open_dir dir)
    fsys ← or_return (λ e. err (wrapped "lifecycle: " e "")) opened
    loaded ← call (load_topology fsys)
    top ← or_return (λ e. err (wrapped "lifecycle: " e "")) loaded
    both ← findings_or_catalogue top fsys
    pure (ok both))

  start : Topology → String → Body S (Check × Option Error) (Check × Option Error)
  start top summary = do
    call (step "machine" ("starting " <> machine_name))
    problem ← call (start_machine top.provider machine_name)
    nil_or_return machine_failed problem
    pure (passed "machine" summary, none)

  create_or_start :
      String → Topology → Option Machine → Body S (Check × Option Error) (Check × Option Error)
  unfolding start
  create_or_start dir top none = do
    call (step "machine" ("creating " <> machine_name))
    problem ← call (init_machine (init_of dir top))
    nil_or_return machine_failed problem
    start top "created and started"
  create_or_start dir top (some m) =
      if m.running then pure (passed "machine" "running", none) else start top "started"

  -- l.ensureMachine
  unfoldable pub ensure_machine : String → Topology → M S (Check × Option Error)
  unfolding create_or_start first_machine
  ensure_machine dir top = func (do
    listed ← call list_machines
    machines ← or_return machine_failed listed
    create_or_start dir top (first_machine machines))
