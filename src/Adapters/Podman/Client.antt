-- ===== src/Adapters/Podman/Client.antt =====
-- internal/adapters/podman: the methods of the client; and the one of internal/adapters/flox.
use localclaw.Common.{
  ℕ, ◌+◌, ◌-◌, ◌*◌, ◌/◌, ◌%◌, String, ◌<>◌, Bool, true, false, Option, none, some, List, [], ◌∷◌,
  map, if◌then◌else◌, ◌==◌, string_eq, nat_eq, ltb, is_nil, quote, trim_space, fields, text_of,
}
use localclaw.App.Body.{M, pure, return, lift, func, or_return, call, ◌>>=◌, ◌>>◌}
use localclaw.App.Host.{Host, system, MachineInit}
use localclaw.Os.{Command, run}
use localclaw.Domain.Errors.{Error, failure, wrapped, Result, ok, err}
use localclaw.Domain.Observe.{Pod}
use localclaw.Domain.Role.{Machine}
use localclaw.Domain.Version.{
  Version, VersionError, empty, too_many, not_a_number, Parsed, parsed, refused, parse_version,
}
use localclaw.Adapters.Libraries.{KubeSecret, Libraries}
use localclaw.Adapters.Podman.{
  podman, on_machine, connection, part_of_label, wrap, wrap_for, or_wrap, exists_result, init_args,
  play_args, create_network_args, pods_of, machine_runs, owned_names,
}
use localclaw.Adapters.Redact.{redact}

abbrev pub zero_version : Version
zero_version = record { major = 0; minor = 0; patch = 0; raw = [] }

-- The errors of ParseVersion.
abbrev pub version_error : List ℕ → VersionError → Error
version_error raw empty = failure ("parse version " <> (quote (text_of raw) <> ": empty"))
version_error raw too_many =
    failure ("parse version " <> (quote (text_of raw) <> ": more than three components"))
version_error raw (not_a_number p) = failure (
    "parse version "
    <> (quote (text_of raw) <> (": " <> (quote (text_of p) <> " is not a non-negative integer"))))

abbrev pub version_or_error : String → List ℕ → Parsed → Version × Option Error
version_or_error who raw (parsed v) = (v, none)
version_or_error who raw (refused e) =
    (zero_version, some (wrapped (who <> ": version: ") (version_error raw e) ""))

last_field : List (List ℕ) → Option (List ℕ)
last_field [] = none
last_field (w ∷ []) = some w
last_field (w ∷ x ∷ ws) = last_field (x ∷ ws)

base64_std : ℕ → ℕ
base64_std d =
    if ltb d 26
    then b'A' + d
    else if ltb d 52
    then b'a' + (d - 26)
    else if ltb d 62
    then b'0' + (d - 52)
    else if d == 62
    then b'+'
    else b'/'

-- base64.StdEncoding.EncodeToString
unfoldable pub std_encode : List ℕ → List ℕ
unfolding base64_std
std_encode [] = []
std_encode (a ∷ []) = base64_std (a / 4) ∷ base64_std (a % 4 * 16) ∷ b'=' ∷ b'=' ∷ []
std_encode (a ∷ b ∷ []) =
    base64_std (a / 4) ∷ base64_std (a % 4 * 16 + b / 16) ∷ base64_std (b % 16 * 4) ∷ b'=' ∷ []
std_encode (a ∷ b ∷ c ∷ rest) =
    base64_std (a / 4)
    ∷ base64_std (a % 4 * 16 + b / 16)
    ∷ base64_std (b % 16 * 4 + c / 64)
    ∷ base64_std (c % 64)
    ∷ std_encode rest

-- The document of kubeSecret(name, value)
unfoldable pub kube_secret : String → List ℕ → KubeSecret
unfolding std_encode
kube_secret name value = record {
  api_version = "v1";
  kind = "Secret";
  metadata_name = name;
  secret_type = "Opaque";
  values = ("value", std_encode value) ∷ [];
}

abbrev pub store_command : String → List ℕ → Command
store_command name body = record {
  name = "podman";
  args =
      connection ("secret" ∷ "create" ∷ "--replace" ∷ "--label" ∷ part_of_label ∷ name ∷ "-" ∷ []);
  stdin = some body;
  env = [];
  sensitive = true;
}

-- The value of a decoder on a trimmed output; nothing is an empty list.
abbrev pub rows : {A : Type 0} → (List ℕ → Result (List A)) → List ℕ → Result (List A)
rows decode stdout = if is_nil (trim_space stdout) then ok [] else decode (trim_space stdout)

module _ {S : Type 0} ⦃H : Host S⦄ where
  -- Version of podman's client, and that of flox's.
  unfoldable pub podman_version : M S (Version × Option Error)
  unfolding last_field
  podman_version = func (do
    answer ← call (system (run (podman ("--version" ∷ []))))
    out ← or_return (λ e. (zero_version, some (wrap "version" e))) answer
    pure (elim (last_field (fields out.stdout)) [
      | none ↦ (zero_version, some (failure "podman: version: empty output"))
      | some w ↦ version_or_error "podman" (trim_space w) (parse_version w)
    ]))

  unfoldable pub flox_version : M S (Version × Option Error)
  flox_version = func (do
    answer ← call (
        system (
          run (record {
            name = "flox";
            args = "--version" ∷ [];
            stdin = none;
            env = [];
            sensitive = false;
          })))
    out ← or_return (λ e. (zero_version, some (wrap_for "flox: version" e))) answer
    pure (version_or_error "flox" (trim_space out.stdout) (parse_version (trim_space out.stdout))))

  -- A command whose output is not read.
  unfoldable pub effect : String → Command → M S (Option Error)
  effect op c = func (do answer ← call (system (run c)); pure (or_wrap op answer))

  -- InitMachine, StartMachine, StopMachine and RemoveMachine
  unfoldable pub init_machine : MachineInit → M S (Option Error)
  init_machine m = effect ("init machine " <> m.name) (on_machine m.provider (init_args m))

  unfoldable pub start_machine : String → String → M S (Option Error)
  start_machine provider name =
      effect ("start machine " <> name) (on_machine provider ("start" ∷ "--no-info" ∷ name ∷ []))

  unfoldable pub stop_machine : String → String → M S (Option Error)
  stop_machine provider name =
      effect ("stop machine " <> name) (on_machine provider ("stop" ∷ name ∷ []))

  unfoldable pub remove_machine : String → String → M S (Option Error)
  remove_machine provider name =
      effect ("remove machine " <> name) (on_machine provider ("rm" ∷ "--force" ∷ name ∷ []))

  -- CreateNetwork, RemoveNetwork, Build, Play and Down
  unfoldable pub create_network : String → Bool → M S (Option Error)
  create_network name internal =
      effect ("create network " <> name) (podman (connection (create_network_args name internal)))

  unfoldable pub remove_network : String → M S (Option Error)
  remove_network name =
      effect ("remove network " <> name) (podman (connection ("network" ∷ "rm" ∷ name ∷ [])))

  unfoldable pub build : String → String → M S (Option Error)
  build tag context =
      effect ("build " <> tag)
        (podman (connection ("build" ∷ "--quiet" ∷ "--tag" ∷ tag ∷ context ∷ [])))

  unfoldable pub play : String → List String → String → M S (Option Error)
  play file networks userns =
      effect ("kube play " <> file) (podman (connection (play_args file networks userns)))

  unfoldable pub kube_down : String → M S (Option Error)
  kube_down file = effect ("kube down " <> file) (podman (connection ("kube" ∷ "down" ∷ file ∷ [])))

  -- NetworkExists, SecretExists, and the question of RemoveVolume
  unfoldable pub question : String → String → M S (Result Bool)
  question what name = func (do
    answer ← call (system (run (podman (connection (what ∷ "exists" ∷ name ∷ [])))))
    pure (exists_result (what <> (" exists " <> name)) answer))

  unfoldable pub network_exists : String → M S (Result Bool)
  network_exists = question "network"

  unfoldable pub secret_exists : String → M S (Result Bool)
  secret_exists = question "secret"

  unfoldable pub remove_secret : String → M S (Option Error)
  remove_secret name =
      effect ("remove secret " <> name) (podman (connection ("secret" ∷ "rm" ∷ name ∷ [])))

  unfoldable pub remove_volume : String → M S (Option Error)
  remove_volume name = func (do
    found ← lift (question "volume" name)
    there ← or_return some found
    if there then pure tt else return none
    lift (effect ("remove volume " <> name) (podman (connection ("volume" ∷ "rm" ∷ name ∷ [])))))

  module _ (libs : Libraries) where
    -- ListMachines
    unfoldable pub list_machines : M S (Result (List Machine))
    list_machines = func (do
      answer ← call (system (run (podman ("machine" ∷ "list" ∷ "--format" ∷ "json" ∷ []))))
      out ← or_return (λ e. err (wrap "list machines" e)) answer
      found ←
          or_return (λ e. err (wrapped "podman: list machines: decode: " e ""))
            (rows libs.decode_machines out.stdout)
      pure (ok found))

    -- MachineRunning
    unfoldable pub machine_running : M S (Result Bool)
    machine_running = func (do
      answer ← lift list_machines
      machines ← or_return err answer
      pure (ok (machine_runs machines)))

    -- ListPods
    unfoldable pub list_pods : M S (Result (List Pod))
    list_pods = func (do
      answer ← call (
          system (
            run (
              podman (
                connection (
                  "pod"
                  ∷ "ps"
                  ∷ "--filter"
                  ∷ ("label=" <> part_of_label)
                  ∷ "--format"
                  ∷ "json"
                  ∷ [])))))
      out ← or_return (λ e. err (wrap "list pods" e)) answer
      found ←
          or_return (λ e. err (wrapped "podman: list pods: decode: " e ""))
            (rows libs.decode_pods out.stdout)
      pure (ok (pods_of found)))

    -- StoreSecret
    unfoldable pub store_secret : String → List ℕ → M S (Option Error)
    store_secret name value = func (do
      body ←
          or_return (λ e. some (wrapped ("podman: store secret " <> (name <> ": ")) e ""))
            (libs.marshal (kube_secret name value))
      answer ← call (system (run (store_command name body)))
      or_return (λ e. some (wrap ("store secret " <> name) (redact e (std_encode value)))) answer
      pure none)

    -- ListSecrets
    unfoldable pub list_secrets : M S (Result (List String))
    list_secrets = func (do
      answer ← call (system (run (podman (connection ("secret" ∷ "ls" ∷ "--quiet" ∷ [])))))
      out ← or_return (λ e. err (wrap "list secrets" e)) answer
      if is_nil (fields out.stdout) then return (ok []) else pure tt
      shown ← call (
          system
            (run (podman (connection ("secret" ∷ "inspect" ∷ map text_of (fields out.stdout))))))
      seen ← or_return (λ e. err (wrap "inspect secrets" e)) shown
      found ←
          or_return (λ e. err (wrapped "podman: inspect secrets: decode: " e ""))
            (libs.decode_secrets (trim_space seen.stdout))
      pure (ok (owned_names found)))
