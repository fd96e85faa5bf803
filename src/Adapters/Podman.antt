-- ===== src/Adapters/Podman.antt =====
-- internal/adapters/podman and internal/adapters/flox: the clients of `podman` and `flox`. What a
-- client's call of the runner gives is decided by helpers that use no port.
pub mod Client
pub mod Answers
pub mod Listing
use localclaw.Common.{
  ℕ, zero, suc, ◌+◌, ◌-◌, ◌*◌, ◌/◌, ◌%◌, ◌^◌, ◌≤◌, ◌<◌, String, ◌<>◌, ◌≡◌, refl, sym, ap, ◌∙◌,
  subst, ◌≢◌, ◌↔◌, ◌⊎◌, inl, inr, Bool, true, false, not, ◌&&◌, ◌||◌, Option, none, some, List, [],
  ◌∷◌, ◌++◌, map, arith, if◌then◌else◌, Eq, ◌==◌, contains, string_eq, nat_eq, ltb, leb, Bool-cases,
  Option-cases, length, is_nil, select, find, reversed, length-append, All, All-append, Distinct,
  contains-append, codes, join, width, byte_len, join_path, dir_of, clean, is_digit, is_lower, itoa,
  itoa_ℤ, ℤ, pos, negsuc, is_pos, quote, trim_space, split, join_lines, same_text, take, drop,
  cut_prefix, has_prefix, contains_text, before, behind_first, before_last, fields, text_of,
  is_space,
}
use localclaw.App.Body.{
  on_error, and_then, Event, Run, Flow, next, done, M, Body, pure, return, lift, func, or_return,
  nil_or_return, call, still_running, ◌>>=◌, ◌>>◌,
}
use localclaw.App.Host.{Host, system, MachineInit}
use localclaw.Os.{Command, Output, run}
use localclaw.Domain.Errors.{
  Error, sentinel, failure, wrapped, is, as_exit, Result, ok, err, executable_not_found,
  tool_not_found,
}
use localclaw.Domain.NameOrder.{name_le}
use localclaw.Domain.Observe.{Pod, Container}
use localclaw.Domain.Role.{Machine, machine_name}
use localclaw.Domain.Version.{
  Version, VersionError, empty, too_many, not_a_number, Parsed, parsed, refused, parse_version,
}
use localclaw.Adapters.Libraries.{ContainerRow, PodRow, SecretRow, KubeSecret, Libraries}
use localclaw.Adapters.Redact.{redact}

abbrev pub podman : List String → Command
podman args = record { name = "podman"; args = args; stdin = none; env = []; sensitive = false }

abbrev pub on_machine : String → List String → Command
on_machine provider args = record {
  name = "podman";
  args = "machine" ∷ args;
  stdin = none;
  env = if provider == "" then [] else ("CONTAINERS_MACHINE_PROVIDER=" <> provider) ∷ [];
  sensitive = false;
}

-- connection(args...)
abbrev pub connection : List String → List String
connection args = "--connection" ∷ machine_name ∷ args

abbrev pub part_of_key : String
part_of_key = "app.kubernetes.io/part-of"

abbrev pub part_of_value : String
part_of_value = "localclaw"

abbrev pub part_of_label : String
part_of_label = part_of_key <> ("=" <> part_of_value)

-- wrap(op, err), which flox's client has for its one operation.
abbrev pub wrap_for : String → Error → Error
wrap_for who e =
    if is executable_not_found e
    then wrapped (who <> ": ") (sentinel tool_not_found) ""
    else wrapped (who <> ": ") e ""

abbrev pub wrap : String → Error → Error
wrap op e = wrap_for ("podman: " <> op) e

abbrev pub or_wrap : String → Result Output → Option Error
or_wrap op (ok out) = none
or_wrap op (err e) = some (wrap op e)

abbrev pub exists_code : Error → Option (ℤ × List ℕ) → String → Result Bool
exists_code e (some (pos code, stderr)) op = if code == 1 then ok false else err (wrap op e)
exists_code e (some (negsuc code, stderr)) op = err (wrap op e)
exists_code e none op = err (wrap op e)

-- existsResult(op, err)
unfoldable pub exists_result : String → Result Output → Result Bool
exists_result op (ok out) = ok true
exists_result op (err e) = exists_code e (as_exit e) op

-- One --network or --volume for each.
abbrev pub flags : String → List String → List String
flags flag [] = []
flags flag (v ∷ vs) = flag ∷ v ∷ flags flag vs

-- The arguments of `podman machine init`.
unfoldable pub init_args : MachineInit → List String
init_args m =
    ("init"
      ∷ m.name
      ∷ "--cpus"
      ∷ itoa_ℤ m.cpus
      ∷ "--memory"
      ∷ itoa_ℤ m.memory_mib
      ∷ "--disk-size"
      ∷ itoa_ℤ m.disk_gib
      ∷ "--playbook"
      ∷ m.playbook
      ∷ [])
    ++ ((if is_nil m.volumes then "--volume" ∷ "" ∷ [] else []) ++ flags "--volume" m.volumes)

-- The arguments of `podman kube play`.
unfoldable pub play_args : String → List String → String → List String
play_args file networks userns =
    ("kube" ∷ "play" ∷ "--replace" ∷ [])
    ++ (flags "--network" networks
        ++ ((if userns == "" then [] else "--userns" ∷ userns ∷ []) ++ (file ∷ [])))

unfoldable pub create_network_args : String → Bool → List String
create_network_args name internal =
    ("network" ∷ "create" ∷ []) ++ ((if internal then "--internal" ∷ [] else []) ++ (name ∷ []))

-- The name of the infra container of a pod: longer than six characters, ending in "-infra".
unfoldable pub is_infra : String → Bool
is_infra names =
    let s = codes names in ltb 6 (length s) && same_text (drop (length s - 6) s) (codes "-infra")

unfoldable pub own_containers : List ContainerRow → List Container
unfolding is_infra
own_containers [] = []
own_containers (c ∷ cs) =
    let rest = own_containers cs in
    if is_infra c.names then rest else record { name = c.names; state = c.status } ∷ rest

unfoldable pub pods_of : List PodRow → List Pod
unfolding own_containers
pods_of [] = []
pods_of (r ∷ rs) = record { name = r.name; containers = own_containers r.containers } ∷ pods_of rs

unfoldable pub machine_runs : List Machine → Bool
machine_runs [] = false
machine_runs (m ∷ ms) =
    let rest = machine_runs ms in if m.name == machine_name then m.running else rest

unfoldable pub insert_name : String → List String → List String
insert_name a [] = a ∷ []
insert_name a (b ∷ bs) = if name_le a b then a ∷ b ∷ bs else b ∷ insert_name a bs

-- The names of the secrets with lclaw's label, by sort.Strings.
unfoldable pub owned_names : List SecretRow → List String
unfolding insert_name
owned_names [] = []
owned_names (r ∷ rs) =
    let rest = owned_names rs in
    if r.labels part_of_key == part_of_value then insert_name r.name rest else rest
