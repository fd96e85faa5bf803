-- ===== src/Tests/Rules.antt =====
-- The theorems on the domain's rules at concrete data.
use localclaw.Common.{
  ℕ, ◌+◌, ◌≤◌, String, ◌≡◌, refl, ◌↔◌, true, none, List, [], ◌∷◌, arith, ◌==◌, string_eq, nat_eq,
  length, select, All, Distinct, codes, byte_len,
}
use localclaw.Domain.Errors.{Result, ok}
use localclaw.Domain.Role.{infra, agent, select_roles}
use localclaw.Domain.Role.Selection.{IsZone, named, select_roles_iff}
use localclaw.Domain.Secret.{source_eq, generated, builtin_secrets, validate_name}
use localclaw.Domain.Secret.Names.{IsLabel, validate_name_iff}
use localclaw.Domain.Secret.Values.{IsByte, Makes, generate-builtin}
use localclaw.Domain.Version.{Version, at_least}
use localclaw.Domain.Version.Order.{Above, at_least_iff}
use localclaw.Domain.Report.{Report, pass, warn, fail, worst, count}
use localclaw.Domain.Report.Worst.{verdict, worst-verdict, count_total}

select_roles_iff_example : (select_roles ("agent" ∷ "infra" ∷ []) ≡ ok (infra ∷ agent ∷ [])) ↔ (
    All IsZone ("agent" ∷ "infra" ∷ [])
    × Distinct {A = String} ("agent" ∷ "infra" ∷ [])
    × (infra ∷ agent ∷ [] ≡ named ("agent" ∷ "infra" ∷ [])))
select_roles_iff_example = select_roles_iff "agent" ("infra" ∷ []) (infra ∷ agent ∷ [])

validate_name_iff_example :
    (validate_name "api-key" ≡ none)
    ↔ (IsLabel (codes "api-key") × (byte_len (codes "api-key") ≤ 63))
validate_name_iff_example = validate_name_iff "api-key"

abbrev thirty_two : List ℕ
thirty_two =
    0 ∷ 1 ∷ 2 ∷ 3 ∷ 4 ∷ 5 ∷ 6 ∷ 7 ∷ 8 ∷ 9 ∷ 10 ∷ 11 ∷ 12 ∷ 13 ∷ 14 ∷ 15 ∷ 16 ∷ 17 ∷ 18 ∷ 19 ∷ 20
    ∷ 21 ∷ 22 ∷ 23 ∷ 24 ∷ 25 ∷ 26 ∷ 27 ∷ 28 ∷ 29 ∷ 30 ∷ 255 ∷ []

abbrev reader : ℕ → ℕ → Result (List ℕ) × ℕ
reader n s = (ok thirty_two, s + n)

thirty_two-IsByte : All IsByte thirty_two
thirty_two-IsByte = ground arith

generate-builtin_example :
    All (Makes reader 0 32) (select (λ spec. spec.source == generated) builtin_secrets)
generate-builtin_example = generate-builtin reader 0 32 thirty_two refl refl thirty_two-IsByte

abbrev podman_min : Version
podman_min = record { major = 5; minor = 8; patch = 0; raw = [] }

abbrev podman_new : Version
podman_new = record { major = 5; minor = 10; patch = 1; raw = [] }

at_least_iff_example : (at_least podman_new podman_min ≡ true) ↔ Above podman_new podman_min
at_least_iff_example = at_least_iff podman_new podman_min

abbrev mixed : Report
mixed =
    record { name = "machine"; status = warn; summary = "stopped"; hint = "" }
    ∷ record { name = "keychain"; status = fail; summary = "not found"; hint = "" }
    ∷ record { name = "podman"; status = pass; summary = "5.8.0"; hint = "" }
    ∷ []

worst-verdict_example : worst mixed ≡ verdict mixed
worst-verdict_example = worst-verdict mixed

count_total_example : count pass mixed + count warn mixed + count fail mixed ≡ length mixed
count_total_example = count_total mixed
