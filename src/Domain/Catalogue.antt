-- ===== src/Domain/Catalogue.antt =====
-- internal/domain/catalogue.go: the built-in entries merged with the names declared per zone.
pub mod Merging
use localclaw.Common.{
  String, ◌<>◌, Bool, true, false, not, ◌||◌, Option, none, some, List, [], ◌∷◌, ◌++◌,
  if◌then◌else◌, ◌==◌, string_eq, nat_eq, update,
}
use localclaw.Domain.Finding.{
  Message, listed_twice, bad_secret_name, collides_with_builtin, Finding,
}
use localclaw.Domain.Role.{Role, role_name, roles}
use localclaw.Domain.Secret.{SecretSpec, user, base64_url, used_by, valid_name}
use localclaw.Domain.NameOrder.{sort_by_name}

abbrev pub Catalogue : Type 0
Catalogue = List SecretSpec

has_name : List SecretSpec → String → Bool
has_name [] name = false
has_name (s ∷ specs) name = s.name == name || has_name specs name

-- entries[i].Zones = append(entries[i].Zones, role), at the entry of that name.
add_zone : String → Role → List SecretSpec → List SecretSpec
add_zone name r [] = []
add_zone name r (s ∷ specs) =
    if s.name == name
    then record s { zones = s.zones ++ (r ∷ []) } ∷ specs
    else s ∷ add_zone name r specs

declared_spec : String → Role → SecretSpec
declared_spec name r = record {
  name = name;
  source = user;
  zones = r ∷ [];
  generator = record { prefix = ""; bytes = 0; encoding = base64_url };
  rotatable = true;
}

pub record Merge : Type 0 where
  pub entries : List SecretSpec
  pub findings : List Finding

abbrev report : Role → Message → Merge → Merge
report r message m = record m {
  findings =
      m.findings
      ++ (record { place = "zones." <> (role_name r <> ".secrets"); message = message } ∷ []);
}

-- The map `byName` holds the position of every entry by its name, so that a name in it is a name
-- among the entries.
accept : String → Role → Merge → Merge
accept name r m = record m {
  entries =
      if has_name m.entries name
      then add_zone name r m.entries
      else m.entries ++ (declared_spec name r ∷ []);
}

-- The body of the inner loop: one name of one zone's list.
merge_name : List SecretSpec → Role → String → (String → Bool) → Merge → (String → Bool) × Merge
unfolding has_name accept add_zone declared_spec
merge_name builtin r name seen m =
    if not (valid_name name)
    then (seen, report r (bad_secret_name name) m)
    else if has_name builtin name
    then (seen, report r (collides_with_builtin name) m)
    else if seen name
    then (seen, report r (listed_twice name) m)
    else (update seen name true, accept name r m)

merge_names : List SecretSpec → Role → List String → (String → Bool) → Merge → Merge
unfolding merge_name
merge_names builtin r [] seen m = m
merge_names builtin r (name ∷ names) seen m =
    let (seen', m') = merge_name builtin r name seen m in merge_names builtin r names seen' m'

merge_zones : List SecretSpec → (String → Option (List String)) → List Role → Merge → Merge
unfolding merge_names
merge_zones builtin declared [] m = m
merge_zones builtin declared (r ∷ rs) m =
    merge_zones builtin declared rs (elim (declared (role_name r)) [
      | none ↦ m
      | some list ↦ merge_names builtin r list (λ _. false) m
    ])

-- The map `declared` is a function, `none` where it has no key.
unfoldable pub new_catalogue :
    List SecretSpec → (String → Option (List String)) → Catalogue × List Finding
unfolding merge_zones
new_catalogue builtin declared =
    let m = merge_zones builtin declared roles (record { entries = builtin; findings = [] }) in
    (sort_by_name m.entries, m.findings)

unfoldable pub lookup : Catalogue → String → Option SecretSpec
lookup [] name = none
lookup (s ∷ specs) name = let rest = lookup specs name in if s.name == name then some s else rest

unfoldable pub for_zone : Catalogue → Role → List SecretSpec
for_zone [] r = []
for_zone (s ∷ specs) r = let rest = for_zone specs r in if used_by s r then s ∷ rest else rest
