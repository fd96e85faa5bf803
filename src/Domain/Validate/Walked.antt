-- ===== src/Domain/Validate/Walked.antt =====
-- internal/domain/topology.go, Validate: what the loop over the zones has found when it reports
-- nothing, and how it counts the zones.
use localclaw.Common.{
  String, ◌≡◌, refl, ◌≢◌, inl, inr, Bool, true, false, List, [], ◌∷◌, ◌++◌, arith, ◌==◌, string_eq,
  nat_eq, Bool-cases, Option-cases, is_nil, All,
}
use localclaw.Domain.Role.{parse_role}
use localclaw.Domain.Role.Selection.{IsZone, role_name-parse_role}
use localclaw.Domain.Topology.{ZoneSpec, required_names, required_file, bridges_of}
use localclaw.Domain.Validate.{
  is_role, valid_workload_name, Walk, missing_from, first_listing, list_workload, list_workloads,
  bridge_target, bridge_targets, bridge, bridge_all, bridge_names, zone_step, walk,
}

pub append-nil : {A : Type 0} (xs ys : List A) → xs ++ ys ≡ [] → (xs ≡ []) × (ys ≡ [])
append-nil [] ys h = (refl, h)
append-nil (x ∷ xs) ys h = ground (arith, h)

pub append_cons : {A : Type 0} (xs : List A) (y : A) → xs ++ (y ∷ []) ≢ []
append_cons xs y h = ground (arith, (append-nil xs (y ∷ []) h).1)

is_nil-nil : {A : Type 0} (xs : List A) → is_nil xs ≡ true → xs ≡ []
is_nil-nil [] h = refl
is_nil-nil (x ∷ xs) h = ground arith

-- A valid name, and a directory with all that it needs.
abbrev pub IsComplete : (String → Bool) → String → Type 0
IsComplete exists w =
    (valid_workload_name w ≡ true)
    × All (λ base. exists (required_file w base) ≡ true) required_names

missing_from-nil :
    (exists : String → Bool) (w : String) (bases : List String)
    → missing_from exists w bases ≡ []
    → All (λ base. exists (required_file w base) ≡ true) bases
unfolding missing_from
missing_from-nil exists w [] h = tt
missing_from-nil exists w (b ∷ bs) h = elim (Bool-cases (exists (required_file w b))) [
  | inl there ↦ (there, missing_from-nil exists w bs (rw there at h))
  | inr absent ↦ ground (arith, absent, h)
]

first_listing-out :
    (exists : String → Bool) (z : ZoneSpec) (w : String) (s : Walk)
    → (first_listing exists z w s).out ≡ []
    → (s.out ≡ []) × (missing_from exists w required_names ≡ [])
unfolding first_listing
first_listing-out exists z w s h =
    elim (Bool-cases (is_nil (missing_from exists w required_names))) [
      | inl all_there ↦
          (rw (all_there) at h, is_nil-nil (missing_from exists w required_names) all_there)
      | inr some_missing ↦ absurd (append_cons s.out _ (rw some_missing at h))
    ]

list_workload-out :
    (exists : String → Bool) (z : ZoneSpec) (w : String) (s : Walk)
    → (list_workload exists z w s).out ≡ []
    → (s.out ≡ []) × IsComplete exists w
unfolding list_workload
list_workload-out exists z w s h = elim (Bool-cases (valid_workload_name w)) [
  | inr bad ↦ absurd (append_cons s.out _ (rw bad at h))
  | inl good ↦ elim (Option-cases (s.seen w)) [
    | inr (first, listed) ↦ elim (Bool-cases (first == z.name)) [
      | inl same ↦ absurd (append_cons s.out _ (rw (good, listed, same) at h))
      | inr other ↦ absurd (append_cons s.out _ (rw (good, listed, other) at h))
    ]
    | inl new ↦
        let (p, missing) = first_listing-out exists z w s (rw (good, new) at h) in
        (p, (good, missing_from-nil exists w required_names missing))
  ]
]

list_workloads-out :
    (exists : String → Bool) (z : ZoneSpec) (ws : List String) (s : Walk)
    → (list_workloads exists z ws s).out ≡ []
    → (s.out ≡ []) × All (IsComplete exists) ws
unfolding list_workloads
list_workloads-out exists z [] s h = (h, tt)
list_workloads-out exists z (w ∷ ws) s h =
    let (p, rest) = list_workloads-out exists z ws (list_workload exists z w s) h in
    let (q, here) = list_workload-out exists z w s p in (q, (here, rest))

bridge_target-out :
    (z : ZoneSpec) (place target : String) (ts : String → Bool) (s : Walk)
    → (bridge_target z place target (ts, s)).1.out ≡ []
    → s.out ≡ []
unfolding bridge_target
bridge_target-out z place target ts s h = elim (Bool-cases (is_role target)) [
  | inr unknown ↦ absurd (append_cons s.out _ (rw unknown at h))
  | inl known ↦ elim (Bool-cases (target == z.name)) [
    | inl own ↦ absurd (append_cons s.out _ (rw (known, own) at h))
    | inr other ↦ elim (Bool-cases (ts target)) [
      | inl twice ↦ absurd (append_cons s.out _ (rw (known, other, twice) at h))
      | inr once ↦ rw (known, other, once) at h
    ]
  ]
]

bridge_targets-out :
    (z : ZoneSpec) (place : String) (targets : List String) (ts : (String → Bool) × Walk)
    → (bridge_targets z place targets ts).out ≡ []
    → ts.1.out ≡ []
unfolding bridge_targets
bridge_targets-out z place [] ts h = h
bridge_targets-out z place (t ∷ rest) (ts, s) h =
    bridge_target-out z place t ts s (bridge_targets-out z place rest _ h)

bridge-out : (z : ZoneSpec) (w : String) (s : Walk) → (bridge z w s).out ≡ [] → s.out ≡ []
unfolding bridge
bridge-out z w s h = elim (Bool-cases (s.own w)) [
  | inr foreign ↦ absurd (append_cons s.out _ (rw foreign at h))
  | inl own ↦ elim (Bool-cases z.internal) [
    | inl inside ↦ absurd (append_cons s.out _ (rw (own, inside) at h))
    | inr open_zone ↦
        bridge_targets-out z _ (bridges_of z.bridges w) ((λ _. false), s) (rw (own, open_zone) at h)
  ]
]

bridge_all-out :
    (z : ZoneSpec) (ws : List String) (s : Walk) → (bridge_all z ws s).out ≡ [] → s.out ≡ []
unfolding bridge_all
bridge_all-out z [] s h = h
bridge_all-out z (w ∷ ws) s h = bridge-out z w s (bridge_all-out z ws (bridge z w s) h)

is_role-IsZone : (n : String) → is_role n ≡ true → IsZone n
unfolding is_role
is_role-IsZone n h = elim (Option-cases (parse_role n)) [
  | inl unknown ↦ ground (arith, unknown)
  | inr (r, known) ↦ (r, role_name-parse_role n r known)
]

abbrev pub IsAccepted : (String → Bool) → ZoneSpec → Type 0
IsAccepted exists z = IsZone z.name × All (IsComplete exists) z.workloads

zone_step-out :
    (exists : String → Bool) (z : ZoneSpec) (s : Walk)
    → (zone_step exists z s).out ≡ []
    → (s.out ≡ []) × IsAccepted exists z
unfolding zone_step
zone_step-out exists z s h =
    let (p, complete) =
      list_workloads-out exists z z.workloads _ (bridge_all-out z (bridge_names z.bridges) _ h) in
    let (q, known) = append-nil s.out _ p in
    elim (Bool-cases (is_role z.name)) [
      | inl role ↦ (q, (is_role-IsZone z.name role, complete))
      | inr unknown ↦ ground (arith, unknown, known)
    ]

pub walk-out :
    (exists : String → Bool) (zs : List ZoneSpec) (s : Walk)
    → (walk exists zs s).out ≡ []
    → (s.out ≡ []) × All (IsAccepted exists) zs
unfolding walk
walk-out exists [] s h = (h, tt)
walk-out exists (z ∷ zs) s h =
    let (p, rest) = walk-out exists zs (zone_step exists z s) h in
    let (q, here) = zone_step-out exists z s p in (q, (here, rest))
