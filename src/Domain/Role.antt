-- ===== src/Domain/Role.antt =====
-- internal/domain/role.go: the zones, and the selection of zones on a command line.
use localclaw.Common.{
  ℕ, zero, suc, ◌+◌, ◌-◌, ◌*◌, ◌/◌, ◌%◌, ◌^◌, ◌≤◌, ◌<◌, String, ◌<>◌, ◌≡◌, refl, sym, ap, ◌∙◌,
  subst, ◌≢◌, ◌↔◌, ◌⊎◌, inl, inr, Bool, true, false, not, ◌&&◌, ◌||◌, Option, none, some, List, [],
  ◌∷◌, ◌++◌, map, arith, if◌then◌else◌, Eq, ◌==◌, contains, string_eq, nat_eq, ltb, leb, Bool-cases,
  Option-cases, length, is_nil, select, find, length-append, All, All-append, update, Distinct,
  contains-append, codes, join, width, byte_len, is_digit, is_lower, itoa, itoa_ℤ, ℤ, pos, negsuc,
  is_pos, quote,
}
use localclaw.Domain.Errors.{Error, unknown_zone_error, Result, ok, err}
pub mod Selection

pub data Role : Type 0 where
  infra services agent : Role

pub Role-discrete : Discrete Role
Role-discrete = hlevel

instance unfoldable pub role_eq : Eq Role
unfolding Role-discrete
role_eq = record { dec = Role-discrete }

abbrev pub machine_name : String
machine_name = "lclaw"

abbrev pub roles : List Role
roles = infra ∷ services ∷ agent ∷ []

abbrev pub role_name : Role → String
role_name infra = "infra"
role_name services = "services"
role_name agent = "agent"

abbrev pub network_name : Role → String
network_name r = "lclaw-" <> role_name r

parse_role_in : List Role → String → Option Role
parse_role_in [] s = none
parse_role_in (r ∷ rs) s =
    let rest = parse_role_in rs s in if role_name r == s then some r else rest

unfoldable pub parse_role : String → Option Role
unfolding parse_role_in
parse_role s = parse_role_in roles s

-- The loop over the names. The map `seen` is a function.
mark_names : List String → (Role → Bool) → Result (Role → Bool)
mark_names [] seen = ok seen
mark_names (n ∷ names) seen = elim (parse_role n) [
  | none ↦ err (unknown_zone_error n false)
  | some r ↦
      if seen r then err (unknown_zone_error n true) else mark_names names (update seen r true)
]

selected : Result (Role → Bool) → Result (List Role)
selected (ok seen) = ok (select seen roles)
selected (err e) = err e

unfoldable pub select_roles : List String → Result (List Role)
unfolding mark_names selected
select_roles [] = ok roles
select_roles (n ∷ names) = selected (mark_names (n ∷ names) (λ _. false))

-- What Podman reports about one machine.
pub record Machine : Type 0 where
  pub name : String
  pub running : Bool
