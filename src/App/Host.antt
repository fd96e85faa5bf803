-- ===== src/App/Host.antt =====
-- internal/app/ports.go: the ports, as the calls that a use case makes and what each one answers.
-- What answers them is a parameter. The adapters' own calls are of the same type, so that a use case
-- and an adapter are functions of one kind.
use localclaw.Common.{ℕ, String, Bool, Option, List, string_eq, nat_eq, ℤ}
use localclaw.Domain.Errors.{Error, Result}
use localclaw.Domain.Observe.{Pod}
use localclaw.Domain.Role.{Machine}
use localclaw.Domain.Secret.{Source, SecretItem}
use localclaw.Domain.Topology.{Topology}
use localclaw.Domain.Version.{Version}
use localclaw.Os.{Sys, Reply}
pub use localclaw.Os.{Directory}

pub record MachineInit : Type 0 where
  pub name : String
  pub provider : String
  pub cpus : ℤ
  pub memory_mib : ℤ
  pub disk_gib : ℤ
  pub volumes : List String
  pub playbook : String

-- One constructor for each method of each port.
pub data Call : Type 0 where
  -- ctx.Err() and Progress.Step
  ctx_err : Call
  step : String → String → Call
  -- MachineRuntime
  podman_version list_machines : Call
  init_machine : MachineInit → Call
  start_machine stop_machine remove_machine : String → String → Call
  -- WorkloadRuntime
  network_exists remove_network : String → Call
  create_network : String → Bool → Call
  build : String → String → Call
  play : String → List String → String → Call
  kube_down : String → Call
  list_pods : Call
  -- EnvironmentManager
  flox_version : Call
  -- FileWriter and DirOpener, TopologyLoader
  write_file : String → List ℕ → Bool → Call
  open_dir : String → Call
  load_topology : Directory → Call
  -- Keychain
  keychain_exists keychain_create : String → Call
  keychain_get keychain_describe keychain_delete : String → String → Call
  keychain_put : String → String → List ℕ → Source → Bool → Call
  -- SecretTarget
  machine_running list_secrets : Call
  store_secret : String → List ℕ → Call
  secret_exists remove_secret remove_volume : String → Call
  -- KeyMinter
  minter_ready : Call
  mint : String → Call
  -- io.ReadFull from Random
  read_random : ℕ → Call
  -- what the adapters behind the ports call
  system : Sys → Call

-- A nil error is `none`, and a value with its error is a `Result`; a version comes with both.
abbrev pub Response : Call → Type 0
Response ctx_err = Option Error
Response (step name detail) = Unit {0}
Response podman_version = Version × Option Error
Response list_machines = Result (List Machine)
Response (init_machine m) = Option Error
Response (start_machine provider name) = Option Error
Response (stop_machine provider name) = Option Error
Response (remove_machine provider name) = Option Error
Response (network_exists name) = Result Bool
Response (remove_network name) = Option Error
Response (create_network name internal) = Option Error
Response (build tag dir) = Option Error
Response (play file networks userns) = Option Error
Response (kube_down file) = Option Error
Response list_pods = Result (List Pod)
Response flox_version = Version × Option Error
Response (write_file path content overwrite) = Option Error
Response (open_dir dir) = Result Directory
Response (load_topology dir) = Result Topology
Response (keychain_exists path) = Result Bool
Response (keychain_create path) = Option Error
Response (keychain_get path name) = Result (List ℕ)
Response (keychain_describe path name) = Result SecretItem
Response (keychain_delete path name) = Option Error
Response (keychain_put path name value source replace) = Option Error
Response machine_running = Result Bool
Response list_secrets = Result (List String)
Response (store_secret name value) = Option Error
Response (secret_exists name) = Result Bool
Response (remove_secret name) = Option Error
Response (remove_volume name) = Option Error
Response minter_ready = Option Error
Response (mint name) = Result (List ℕ)
Response (read_random n) = Result (List ℕ)
Response (system c) = Reply c

-- Everything outside, over a state of its own.
pub record Host (S : Type 0) : Type 0 where
  pub answer : (c : Call) → S → Response c × S
