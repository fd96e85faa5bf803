-- ===== src/Domain/Validate/Accepted.antt =====
-- internal/domain/topology.go, Validate: what a topology without findings is like.
use localclaw.Common.{
  ℕ, ◌+◌, String, ◌≡◌, inl, inr, Bool, true, List, [], ◌∷◌, arith, contains, string_eq, nat_eq,
  Bool-cases, All, codes, ℤ, pos, negsuc, is_pos,
}
use localclaw.Domain.Catalogue.{new_catalogue}
use localclaw.Domain.Role.{Role, roles, role_name}
use localclaw.Domain.Secret.{builtin_secrets}
use localclaw.Domain.Topology.{Topology, ZoneSpec, providers, declared_secrets}
use localclaw.Domain.Validate.{
  schema_findings, provider_findings, positive_findings, valid_volume, volume_findings, walk, start,
  count_findings, Walk, validate,
}
use localclaw.Domain.Validate.Counted.{tables, walk-counted}
use localclaw.Domain.Validate.Walked.{IsAccepted, append-nil, walk-out}

schema_findings-nil : (n : ℤ) → schema_findings n ≡ [] → n ≡ pos 2
unfolding schema_findings
schema_findings-nil (pos n) h = ground (arith, h)
schema_findings-nil (negsuc n) h = ground arith

provider_findings-nil : (p : String) → provider_findings p ≡ [] → contains providers p ≡ true
unfolding provider_findings
provider_findings-nil p h = elim (Bool-cases (contains providers p)) [
  | inl known ↦ known
  | inr unknown ↦ ground (arith, unknown, h)
]

positive_findings-nil : (place : String) (n : ℤ) → positive_findings place n ≡ [] → is_pos n ≡ true
unfolding positive_findings
positive_findings-nil place n h = elim (Bool-cases (is_pos n)) [
  | inl positive ↦ positive
  | inr other ↦ ground (arith, other, h)
]

volume_findings-nil :
    (i : ℕ) (vs : List String)
    → volume_findings i vs ≡ []
    → All (λ v. valid_volume (codes v) ≡ true) vs
unfolding volume_findings
volume_findings-nil i [] h = tt
volume_findings-nil i (v ∷ vs) h =
    let (here, rest) = append-nil _ (volume_findings (i + 1) vs) h in
    elim (Bool-cases (valid_volume (codes v))) [
      | inl valid ↦ (valid, volume_findings-nil (i + 1) vs rest)
      | inr bad ↦ ground (arith, bad, here)
    ]

count_findings-nil :
    (counted : String → ℕ) (rs : List Role)
    → count_findings counted rs ≡ []
    → All (λ r. counted (role_name r) ≡ 1) rs
unfolding count_findings
count_findings-nil counted [] h = tt
count_findings-nil counted (r ∷ rs) h =
    let (here, rest) = append-nil _ (count_findings counted rs) h in
    (ground (arith, here), count_findings-nil counted rs rest)

-- The size of the machine, and the directories that it shares.
abbrev pub IsSized : Topology → Type 0
IsSized t =
    (is_pos t.machine.cpus ≡ true)
    × (is_pos t.machine.memory_mib ≡ true)
    × (is_pos t.machine.disk_gib ≡ true)
    × All (λ v. valid_volume (codes v) ≡ true) t.machine.volumes

one_table :
    (exists : String → Bool) (zs : List ZoneSpec) (rs : List Role)
    → All (λ r. (walk exists zs start).counted (role_name r) ≡ 1) rs
    → All (λ r. tables (role_name r) zs ≡ 1) rs
unfolding start
one_table exists zs [] h = tt
one_table exists zs (r ∷ rs) (h, hs) =
    (omega (arith, h, walk-counted exists zs start (role_name r)), one_table exists zs rs hs)

-- When Validate has no finding: the schema is 2, the provider is one of the known ones, the sizes of
-- the machine are positive and its volumes are pairs of absolute paths. Every table of the file names
-- one of the zones, each zone has exactly one table, and every workload has a valid name and its three
-- files. The catalogue of the declared secrets has no finding either.
pub validate-nil :
    (t : Topology) (exists : String → Bool)
    → validate t exists ≡ []
    → (t.schema ≡ pos 2)
      × (contains providers t.provider ≡ true)
      × IsSized t
      × All (IsAccepted exists) t.zones
      × All (λ r. tables (role_name r) t.zones ≡ 1) roles
      × ((new_catalogue builtin_secrets (declared_secrets t)).1 ≡ [])
unfolding validate start
validate-nil t exists h =
    let s : Walk = walk exists t.zones start in
    let (head, rest) = append-nil _ _ h in
    let (schema, head2) = append-nil _ _ head in
    let (provider, head3) = append-nil _ _ head2 in
    let (cpus, head4) = append-nil _ _ head3 in
    let (memory, head5) = append-nil _ _ head4 in
    let (disk, volumes) = append-nil _ _ head5 in
    let (out, rest2) = append-nil _ _ rest in
    let (count, rest3) = append-nil _ _ rest2 in
    let (reach, secrets) = append-nil _ _ rest3 in
    (
      schema_findings-nil t.schema schema,
      provider_findings-nil t.provider provider,
      (
        positive_findings-nil "machine.cpus" t.machine.cpus cpus,
        positive_findings-nil "machine.memory-mib" t.machine.memory_mib memory,
        positive_findings-nil "machine.disk-gib" t.machine.disk_gib disk,
        volume_findings-nil 0 t.machine.volumes volumes,
      ),
      (walk-out exists t.zones start out).1,
      one_table exists t.zones roles (count_findings-nil s.counted roles count),
      secrets,
    )
