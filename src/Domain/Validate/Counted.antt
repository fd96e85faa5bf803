-- ===== src/Domain/Validate/Counted.antt =====
-- internal/domain/topology.go, Validate: the loop over the zones counts the tables of each name.
use localclaw.Common.{
  ℕ, suc, ◌+◌, String, ◌<>◌, ◌≡◌, refl, ◌∙◌, Bool, false, List, [], ◌∷◌, arith, if◌then◌else◌, ◌==◌,
  string_eq, nat_eq,
}
use localclaw.Domain.Topology.{ZoneSpec, bridges_of}
use localclaw.Domain.Validate.{
  Walk, first_listing, list_workload, list_workloads, bridge_target, bridge_targets, bridge,
  bridge_all, bridge_names, zone_step, walk,
}

-- How many tables have the name.
abbrev pub tables : String → List ZoneSpec → ℕ
tables n [] = 0
tables n (z ∷ zs) = let rest = tables n zs in if z.name == n then suc rest else rest

list_workload-counted :
    (exists : String → Bool) (z : ZoneSpec) (w : String) (s : Walk) (n : String)
    → (list_workload exists z w s).counted n ≡ s.counted n
unfolding list_workload first_listing
list_workload-counted exists z w s n = ground arith

list_workloads-counted :
    (exists : String → Bool) (z : ZoneSpec) (ws : List String) (s : Walk) (n : String)
    → (list_workloads exists z ws s).counted n ≡ s.counted n
unfolding list_workloads
list_workloads-counted exists z [] s n = refl
list_workloads-counted exists z (w ∷ ws) s n =
    list_workloads-counted exists z ws (list_workload exists z w s) n
    ∙ list_workload-counted exists z w s n

bridge_target-counted :
    (z : ZoneSpec) (place target : String) (ts : (String → Bool) × Walk) (n : String)
    → (bridge_target z place target ts).1.counted n ≡ ts.1.counted n
unfolding bridge_target
bridge_target-counted z place target (ts, s) n = ground arith

bridge_targets-counted :
    (z : ZoneSpec) (place : String) (targets : List String) (ts : (String → Bool) × Walk)
    (n : String)
    → (bridge_targets z place targets ts).counted n ≡ ts.1.counted n
unfolding bridge_targets
bridge_targets-counted z place [] ts n = refl
bridge_targets-counted z place (t ∷ rest) ts n =
    bridge_targets-counted z place rest (bridge_target z place t ts) n
    ∙ bridge_target-counted z place t ts n

bridge-counted :
    (z : ZoneSpec) (w : String) (s : Walk) (n : String) → (bridge z w s).counted n ≡ s.counted n
unfolding bridge
bridge-counted z w s n = ground (
  arith,
  bridge_targets-counted z ("zones." <> (z.name <> (".bridges." <> w))) (bridges_of z.bridges w)
      ((λ _. false), s) n,
)

bridge_all-counted :
    (z : ZoneSpec) (ws : List String) (s : Walk) (n : String)
    → (bridge_all z ws s).counted n ≡ s.counted n
unfolding bridge_all
bridge_all-counted z [] s n = refl
bridge_all-counted z (w ∷ ws) s n =
    bridge_all-counted z ws (bridge z w s) n ∙ bridge-counted z w s n

zone_step-counted :
    (exists : String → Bool) (z : ZoneSpec) (s : Walk) (n : String)
    → (zone_step exists z s).counted n ≡ s.counted n + (if z.name == n then 1 else 0)
unfolding zone_step
zone_step-counted exists z s n =
    bridge_all-counted z (bridge_names z.bridges) _ n
    ∙ list_workloads-counted exists z z.workloads _ n
    ∙ ground arith

pub walk-counted :
    (exists : String → Bool) (zs : List ZoneSpec) (s : Walk) (n : String)
    → (walk exists zs s).counted n ≡ s.counted n + tables n zs
unfolding walk
walk-counted exists [] s n = ground arith
walk-counted exists (z ∷ zs) s n =
    walk-counted exists zs (zone_step exists z s) n ∙ ground (arith, zone_step-counted exists z s n)
