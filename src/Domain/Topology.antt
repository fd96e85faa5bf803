-- ===== src/Domain/Topology.antt =====
-- internal/domain/topology.go, the data: what lclaw.toml describes.
pub mod Networks
use localclaw.Common.{
  ℕ, ◌+◌, String, ◌<>◌, Bool, false, Option, none, some, List, [], ◌∷◌, ◌++◌, if◌then◌else◌, ◌==◌,
  string_eq, nat_eq, leb, update, ℤ,
}
use localclaw.Domain.Role.{Role, role_name, roles}

pub record MachineSpec : Type 0 where
  pub cpus : ℤ
  pub memory_mib : ℤ
  pub disk_gib : ℤ
  pub volumes : List String

-- A workload is its name. The map from a workload to the zones that it also joins is an association
-- list; the loader builds it with one entry for each key.
pub record ZoneSpec : Type 0 where
  pub name : String
  pub internal : Bool
  pub workloads : List String
  pub secrets : List String
  pub bridges : List (String × List String)

pub record Topology : Type 0 where
  pub schema : ℤ
  pub provider : String
  pub keychain_path : String
  pub machine : MachineSpec
  pub zones : List ZoneSpec

abbrev pub topology_file : String
topology_file = "lclaw.toml"

abbrev pub playbook_file : String
playbook_file = "machine/playbook.yaml"

abbrev pub providers : List String
providers = "libkrun" ∷ "applehv" ∷ []

abbrev pub dir : String → String
dir w = "workloads/" <> w

abbrev pub pod_file : String → String
pod_file w = dir w <> "/pod.yaml"

abbrev pub image_tag : String → String
image_tag w = "localhost/lclaw/" <> (w <> ":latest")

-- path.Base of each required file, and the file of a base name.
abbrev pub required_names : List String
required_names = "Containerfile" ∷ "pod.yaml" ∷ ".containerignore" ∷ []

abbrev pub required_file : String → String → String
required_file w base = dir w <> ("/" <> base)

abbrev pub zones_workloads : List ZoneSpec → List String
zones_workloads [] = []
zones_workloads (z ∷ zs) = z.workloads ++ zones_workloads zs

-- t.Workloads()
unfoldable pub all_workloads : Topology → List String
all_workloads t = zones_workloads t.zones

find_zone : List ZoneSpec → String → Option ZoneSpec
find_zone [] name = none
find_zone (z ∷ zs) name = let rest = find_zone zs name in if z.name == name then some z else rest

-- t.Zone(r)
unfoldable pub zone : Topology → Role → Option ZoneSpec
unfolding find_zone
zone t r = find_zone t.zones (role_name r)

-- The zero ZoneSpec that t.Zone gives beside false.
abbrev pub zone_or_zero : Option ZoneSpec → ZoneSpec
zone_or_zero (some z) = z
zone_or_zero none = record {
  name = "";
  internal = false;
  workloads = [];
  secrets = [];
  bridges = [];
}

unfoldable pub bridges_of : List (String × List String) → String → List String
bridges_of [] w = []
bridges_of ((v, targets) ∷ rest) w =
    let more = bridges_of rest w in if v == w then targets else more

rank_in : List Role → ℕ → String → ℕ
rank_in [] i name = i
rank_in (r ∷ rs) i name =
    let rest = rank_in rs (i + 1) name in if role_name r == name then i else rest

unfoldable pub role_rank : String → ℕ
unfolding rank_in
role_rank name = rank_in roles 0 name

insert_by_rank : String → List String → List String
insert_by_rank b [] = b ∷ []
insert_by_rank b (c ∷ cs) =
    if leb (role_rank b) (role_rank c) then b ∷ c ∷ cs else c ∷ insert_by_rank b cs

-- sort.Slice by roleRank. Go leaves the order of equal ranks open; the model keeps it.
unfoldable pub sort_by_rank : List String → List String
unfolding insert_by_rank role_rank
sort_by_rank [] = []
sort_by_rank (b ∷ bs) = insert_by_rank b (sort_by_rank bs)

prefixed : List String → List String
prefixed [] = []
prefixed (b ∷ bs) = ("lclaw-" <> b) ∷ prefixed bs

-- z.Networks(w)
unfoldable pub networks : ZoneSpec → String → List String
unfolding bridges_of sort_by_rank prefixed
networks z w = ("lclaw-" <> z.name) ∷ prefixed (sort_by_rank (bridges_of z.bridges w))

declare_zones : List ZoneSpec → (String → Option (List String)) → String → Option (List String)
declare_zones [] declared = declared
declare_zones (z ∷ zs) declared = declare_zones zs (update declared z.name (some z.secrets))

-- t.DeclaredSecrets()
unfoldable pub declared_secrets : Topology → String → Option (List String)
unfolding declare_zones
declared_secrets t = declare_zones t.zones (λ _. none)
