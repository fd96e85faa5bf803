-- ===== src/Domain/Validate.antt =====
-- internal/domain/topology.go, Validate: every problem of a topology, in file order. The maps of the
-- loops are functions from their keys.
pub mod Accepted
pub mod Walked
pub mod Counted
use localclaw.Common.{
  ℕ, ◌+◌, String, ◌<>◌, Bool, true, false, not, ◌&&◌, ◌||◌, Option, none, some, List, [], ◌∷◌, ◌++◌,
  if◌then◌else◌, ◌==◌, contains, string_eq, nat_eq, ltb, is_nil, update, codes, is_digit, is_lower,
  itoa, ℤ, pos, negsuc, is_pos,
}
use localclaw.Domain.Catalogue.{new_catalogue}
use localclaw.Domain.Finding.{
  Message, schema_one, schema_wrong, provider_unknown, not_positive, bad_volume, unknown_zone,
  bad_workload_name, listed_twice, also_listed_under, is_missing, not_of_this_zone,
  bridges_out_of_internal, unknown_target, bridges_own_zone, zone_missing, zone_repeated,
  unreachable_internal, Finding,
}
use localclaw.Domain.NameOrder.{name_le}
use localclaw.Domain.Role.{Role, roles, role_name, parse_role}
use localclaw.Domain.Secret.{builtin_secrets}
use localclaw.Domain.Topology.{
  Topology, ZoneSpec, providers, dir, required_names, required_file, bridges_of, declared_secrets,
}

abbrev finding : String → Message → List Finding
finding place message = record { place = place; message = message } ∷ []

is_role : String → Bool
is_role name = elim (parse_role name) [ none ↦ false | some r ↦ true ]

name_codes : Bool → List ℕ → Bool
name_codes first [] = true
name_codes first (c ∷ cs) =
    (is_lower c || is_digit c || (c == b'-' && not first)) && name_codes false cs

unfoldable pub valid_workload_name : String → Bool
unfolding name_codes
valid_workload_name s = not (is_nil (codes s)) && name_codes true (codes s)

unfoldable pub schema_findings : ℤ → List Finding
schema_findings (pos n) =
    if n == 1
    then finding "schema" (schema_one 2)
    else if n == 2
    then []
    else finding "schema" (schema_wrong 2 (pos n))
schema_findings (negsuc n) = finding "schema" (schema_wrong 2 (negsuc n))

unfoldable pub provider_findings : String → List Finding
provider_findings p = if contains providers p then [] else finding "provider" (provider_unknown p)

unfoldable pub positive_findings : String → ℤ → List Finding
positive_findings place n = if is_pos n then [] else finding place (not_positive n)

-- strings.Cut at the colon, and the tests of the two parts.
starts_slash : List ℕ → Bool
starts_slash [] = false
starts_slash (c ∷ cs) = c == b'/'

cut_rest : List ℕ → Option (List ℕ)
cut_rest [] = none
cut_rest (c ∷ cs) = let rest = cut_rest cs in if c == b':' then some cs else rest

-- The part before the colon starts with a slash exactly when the whole text does.
unfoldable pub valid_volume : List ℕ → Bool
unfolding starts_slash cut_rest
valid_volume v = elim (cut_rest v) [
  | none ↦ false
  | some guest ↦ starts_slash v && starts_slash guest
]

unfoldable pub volume_findings : ℕ → List String → List Finding
volume_findings i [] = []
volume_findings i (v ∷ vs) =
    (if valid_volume (codes v)
      then []
      else finding ("machine.volumes[" <> (itoa i <> "]")) (bad_volume v))
    ++ volume_findings (i + 1) vs

-- What the loop over the zones keeps: the zone that listed each workload first, the tables of each
-- name, the zones that a bridge reaches, the workloads of the zone at hand, and the findings.
pub record Walk : Type 0 where
  pub seen : String → Option String
  pub counted : String → ℕ
  pub bridged : String → Bool
  pub own : String → Bool
  pub out : List Finding

abbrev add : String → Message → Walk → Walk
add place message s = record s { out = s.out ++ finding place message }

missing_from : (String → Bool) → String → List String → List String
missing_from exists w [] = []
missing_from exists w (base ∷ bases) =
    let rest = missing_from exists w bases in
    if exists (required_file w base) then rest else base ∷ rest

-- A workload that no zone has listed yet.
first_listing : (String → Bool) → ZoneSpec → String → Walk → Walk
unfolding missing_from
first_listing exists z w s =
    let t : Walk = record s { seen = update s.seen w (some z.name); own = update s.own w true } in
    let missing = missing_from exists w required_names in
    if is_nil missing
    then t
    else add ("zones." <> (z.name <> ".workloads")) (is_missing (dir w) missing) t

list_workload : (String → Bool) → ZoneSpec → String → Walk → Walk
unfolding first_listing
list_workload exists z w s =
    let place = "zones." <> (z.name <> ".workloads") in
    if not (valid_workload_name w) then add place (bad_workload_name w) s else elim (s.seen w) [
      | some first ↦
          if first == z.name
          then add place (listed_twice w) s
          else add place (also_listed_under w first) s
      | none ↦ first_listing exists z w s
    ]

list_workloads : (String → Bool) → ZoneSpec → List String → Walk → Walk
unfolding list_workload
list_workloads exists z [] s = s
list_workloads exists z (w ∷ ws) s = list_workloads exists z ws (list_workload exists z w s)

-- One target of a bridge, with the set `targets` of those before it.
bridge_target : ZoneSpec → String → String → (String → Bool) × Walk → (String → Bool) × Walk
unfolding is_role
bridge_target z place target (targets, s) =
    if not (is_role target)
    then (targets, add place (unknown_target target) s)
    else if target == z.name
    then (targets, add place bridges_own_zone s)
    else if targets target
    then (targets, add place (listed_twice target) s)
    else (update targets target true, record s { bridged = update s.bridged target true })

bridge_targets : ZoneSpec → String → List String → (String → Bool) × Walk → Walk
unfolding bridge_target
bridge_targets z place [] (targets, s) = s
bridge_targets z place (target ∷ rest) ts =
    bridge_targets z place rest (bridge_target z place target ts)

bridge : ZoneSpec → String → Walk → Walk
unfolding bridge_targets
bridge z w s =
    let place = "zones." <> (z.name <> (".bridges." <> w)) in
    if not (s.own w)
    then add place (not_of_this_zone w) s
    else if z.internal
    then add place bridges_out_of_internal s
    else bridge_targets z place (bridges_of z.bridges w) ((λ _. false), s)

bridge_all : ZoneSpec → List String → Walk → Walk
unfolding bridge
bridge_all z [] s = s
bridge_all z (w ∷ ws) s = bridge_all z ws (bridge z w s)

insert_text : String → List String → List String
insert_text a [] = a ∷ []
insert_text a (b ∷ bs) = if name_le a b then a ∷ b ∷ bs else b ∷ insert_text a bs

-- The keys of the map, by sort.Strings.
bridge_names : List (String × List String) → List String
unfolding insert_text
bridge_names [] = []
bridge_names ((w, _) ∷ rest) = insert_text w (bridge_names rest)

-- The body of the loop over the zones.
zone_step : (String → Bool) → ZoneSpec → Walk → Walk
unfolding list_workloads bridge_all bridge_names
zone_step exists z s =
    let counted : Walk = record s {
      counted = update s.counted z.name (s.counted z.name + 1);
      own = λ _. false;
      out = s.out ++ (if is_role z.name then [] else finding ("zones." <> z.name) unknown_zone);
    } in
    bridge_all z (bridge_names z.bridges) (list_workloads exists z z.workloads counted)

unfoldable pub walk : (String → Bool) → List ZoneSpec → Walk → Walk
unfolding zone_step
walk exists [] s = s
walk exists (z ∷ zs) s = walk exists zs (zone_step exists z s)

unfoldable pub start : Walk
start = record {
  seen = λ _. none;
  counted = λ _. 0;
  bridged = λ _. false;
  own = λ _. false;
  out = [];
}

unfoldable pub count_findings : (String → ℕ) → List Role → List Finding
count_findings counted [] = []
count_findings counted (r ∷ rs) =
    (if counted (role_name r) == 0
      then finding "zones" (zone_missing (role_name r))
      else if ltb 1 (counted (role_name r))
      then finding "zones" (zone_repeated (role_name r) (counted (role_name r)))
      else [])
    ++ count_findings counted rs

unfoldable pub reach_findings : Walk → List ZoneSpec → List Finding
unfolding is_role
reach_findings s [] = []
reach_findings s (z ∷ zs) =
    (if z.internal && is_role z.name && (s.counted z.name == 1) && not (s.bridged z.name)
      then finding ("zones." <> (z.name <> ".internal")) unreachable_internal
      else [])
    ++ reach_findings s zs

abbrev head_findings : Topology → List Finding
head_findings t =
    schema_findings t.schema
    ++ (provider_findings t.provider
        ++ (positive_findings "machine.cpus" t.machine.cpus
            ++ (positive_findings "machine.memory-mib" t.machine.memory_mib
                ++ (positive_findings "machine.disk-gib" t.machine.disk_gib
                    ++ volume_findings 0 t.machine.volumes))))

-- Validate(t, exists)
unfoldable pub validate : Topology → (String → Bool) → List Finding
unfolding walk start
validate t exists =
    let s : Walk = walk exists t.zones start in
    head_findings t
    ++ (s.out
        ++ (count_findings s.counted roles
            ++ (reach_findings s t.zones
                ++ (new_catalogue builtin_secrets (declared_secrets t)).1)))
