-- ===== src/Adapters/Toml/Zones.antt =====
-- The order of the zones that toDomain gives, and that they are those of the file.
use localclaw.Common.{
  ◌<◌, ◌⊎◌, Bool, codes, tally, String, ◌≡◌, refl, ◌∙◌, inl, inr, true, false, List, [], ◌∷◌, arith,
  string_eq, nat_eq, Bool-cases, All,
}
use localclaw.Domain.NameOrder.Sorting.{Below, name_le-Below, name_le_total, name_le_trans}
use localclaw.Domain.Topology.Networks.{place, role_rank-place}
use localclaw.Domain.Topology.{ZoneSpec}
use localclaw.Adapters.Libraries.{ZoneTable}
use localclaw.Adapters.Toml.{zone_le, spec_of, insert_zone, zones_of}

zone_le_total : (a b : String) → zone_le a b ≡ false → zone_le b a ≡ true
unfolding zone_le
zone_le_total a b h = ground (arith, name_le_total a b)

zone_le_trans : (a b c : String) → zone_le a b ≡ true → zone_le b c ≡ true → zone_le a c ≡ true
unfolding zone_le
zone_le_trans a b c h k = ground (arith, name_le_trans a b c)

-- Of two names the one that comes first: infra, services and agent in this order, then any other name
-- by its code points.
abbrev pub Precedes : String → String → Type 0
Precedes a b = (place a < place b) ⊎ ((place a ≡ place b) × Below (codes a) (codes b))

zone_le-Precedes : (a b : String) → zone_le a b ≡ true → Precedes a b
unfolding zone_le
zone_le-Precedes a b h = ground (arith, role_rank-place a, role_rank-place b, name_le-Below a b)

-- Each zone's name precedes the names behind it.
abbrev pub IsOrdered : List ZoneSpec → Type 0
IsOrdered [] = Unit
IsOrdered (z ∷ zs) = All (λ y. Precedes z.name y.name) zs × IsOrdered zs

-- The same by the code's own comparison.
unfoldable pub IsSorted : List ZoneSpec → Type 0
IsSorted [] = Unit
IsSorted (z ∷ zs) = All (λ y. zone_le z.name y.name ≡ true) zs × IsSorted zs

All-Precedes :
    (a : String) (zs : List ZoneSpec)
    → All (λ y. zone_le a y.name ≡ true) zs
    → All (λ y. Precedes a y.name) zs
All-Precedes a [] h = tt
All-Precedes a (z ∷ zs) (h, hs) = (zone_le-Precedes a z.name h, All-Precedes a zs hs)

pub IsSorted-IsOrdered : (zs : List ZoneSpec) → IsSorted zs → IsOrdered zs
unfolding IsSorted
IsSorted-IsOrdered [] h = tt
IsSorted-IsOrdered (z ∷ zs) (h, hs) = (All-Precedes z.name zs h, IsSorted-IsOrdered zs hs)

All-below :
    (a b : String) (zs : List ZoneSpec)
    → zone_le a b ≡ true
    → All (λ z. zone_le b z.name ≡ true) zs
    → All (λ z. zone_le a z.name ≡ true) zs
All-below a b [] h k = tt
All-below a b (z ∷ zs) h (k, ks) = (zone_le_trans a b z.name h k, All-below a b zs h ks)

All-insert :
    (P : ZoneSpec → Type 0) (z : ZoneSpec) (zs : List ZoneSpec)
    → P z
    → All P zs
    → All P (insert_zone z zs)
unfolding insert_zone
All-insert P z [] h k = (h, tt)
All-insert P z (y ∷ ys) h (k, ks) = elim (Bool-cases (zone_le z.name y.name)) [
  | inl le ↦ rw le (h, (k, ks))
  | inr gt ↦ rw gt (k, All-insert P z ys h ks)
]

insert_zone-IsSorted :
    (z : ZoneSpec) (zs : List ZoneSpec) → IsSorted zs → IsSorted (insert_zone z zs)
unfolding insert_zone IsSorted
insert_zone-IsSorted z [] h = (tt, tt)
insert_zone-IsSorted z (y ∷ ys) (h, hs) = elim (Bool-cases (zone_le z.name y.name)) [
  | inl le ↦ rw le ((le, All-below z.name y.name ys le h), (h, hs))
  | inr gt ↦
      rw gt (All-insert _ z ys (zone_le_total z.name y.name gt) h, insert_zone-IsSorted z ys hs)
]

pub zones_of-IsSorted : (entries : List (String × ZoneTable)) → IsSorted (zones_of entries)
unfolding zones_of IsSorted
zones_of-IsSorted [] = tt
zones_of-IsSorted (entry ∷ rest) =
    insert_zone-IsSorted (spec_of entry) (zones_of rest) (zones_of-IsSorted rest)

-- The zones that the file's tables describe.
abbrev pub zones_in : List (String × ZoneTable) → List ZoneSpec
zones_in [] = []
zones_in ((name, z) ∷ rest) =
    record {
      name = name;
      internal = z.internal;
      workloads = z.workloads;
      secrets = z.secrets;
      bridges = z.bridges;
    }
    ∷ zones_in rest

tally-insert_zone :
    (p : ZoneSpec → Bool) (z : ZoneSpec) (zs : List ZoneSpec)
    → tally p (insert_zone z zs) ≡ tally p (z ∷ zs)
unfolding insert_zone
tally-insert_zone p z [] = refl
tally-insert_zone p z (y ∷ ys) = ground (arith, tally-insert_zone p z ys)

pub tally-zones_of :
    (p : ZoneSpec → Bool) (entries : List (String × ZoneTable))
    → tally p (zones_of entries) ≡ tally p (zones_in entries)
unfolding zones_of
tally-zones_of p [] = refl
tally-zones_of p ((m, z) ∷ rest) =
    tally-insert_zone p (spec_of (m, z)) (zones_of rest) ∙ rw (tally-zones_of p rest) refl
