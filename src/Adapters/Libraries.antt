-- ===== src/Adapters/Libraries.antt =====
-- The libraries that the adapters use and the repository does not hold: parameters of the model.
use localclaw.Common.{ℕ, String, Bool, List, string_eq, nat_eq, ℤ}
use localclaw.Domain.Errors.{Result}
use localclaw.Domain.Role.{Machine}

-- The fields that ListPods decodes of a row, and those of one of its containers.
pub record ContainerRow : Type 0 where
  pub names : String
  pub status : String

pub record PodRow : Type 0 where
  pub name : String
  pub containers : List ContainerRow

-- Spec.Name of a secret that was inspected, and its labels.
pub record SecretRow : Type 0 where
  pub name : String
  pub labels : String → String

-- The Kubernetes Secret that kubeSecret renders.
pub record KubeSecret : Type 0 where
  pub api_version : String
  pub kind : String
  pub metadata_name : String
  pub secret_type : String
  pub values : List (String × List ℕ)

-- The schema of lclaw.toml; a map is a list with one entry for each key.
pub record MachineTable : Type 0 where
  pub cpus : ℤ
  pub memory_mib : ℤ
  pub disk_gib : ℤ
  pub volumes : List String

pub record ZoneTable : Type 0 where
  pub internal : Bool
  pub workloads : List String
  pub secrets : List String
  pub bridges : List (String × List String)

pub record File : Type 0 where
  pub schema : ℤ
  pub provider : String
  pub keychain_path : String
  pub machine : MachineTable
  pub zones : List (String × ZoneTable)

pub record Libraries : Type 0 where
  -- time.ParseInLocation("20060102150405", s, time.UTC), in seconds; time.Duration's String
  pub parse_time : List ℕ → Result ℕ
  pub show_duration : ℕ → String
  -- encoding/json
  pub decode_machines : List ℕ → Result (List Machine)
  pub decode_pods : List ℕ → Result (List PodRow)
  pub decode_secrets : List ℕ → Result (List SecretRow)
  pub marshal : KubeSecret → Result (List ℕ)
  -- Decode of BurntSushi/toml, with the keys that it could not place
  pub decode_toml : List ℕ → Result (File × List String)
