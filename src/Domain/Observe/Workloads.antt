-- ===== src/Domain/Observe/Workloads.antt =====
-- internal/domain/status.go: what a report without a warning says about the workloads.
use localclaw.Common.{
  subst, sym, ap, ◌∙◌, ◌⊎◌, inl, inr, ◌≢◌, ◌==◌, Bool-cases, Option-cases, String, ◌≡◌, refl, ◌↔◌,
  true, false, Option, none, some, List, [], ◌∷◌, ◌++◌, arith, string_eq, nat_eq, is_nil, All,
}
use localclaw.Domain.Observe.{
  Pod, Container, all_running, running, pod_named, pod_check, zone_checks, evaluate_workloads,
}
use localclaw.Domain.Report.{Check, pass, status_eq}
use localclaw.Domain.Role.{Role}
use localclaw.Domain.Topology.{Topology, ZoneSpec, zone}

-- A pod that has containers, all of them running.
abbrev pub Runs : Pod → Type 0
Runs p = (is_nil p.containers ≡ false) × All (λ c. c.state ≡ "running") p.containers

-- The pod is the last one of the list that has the name.
abbrev pub IsLast : String → Pod → List Pod → Type 0
IsLast name p [] = ⊥
IsLast name p (q ∷ qs) =
    IsLast name p qs ⊎ ((q ≡ p) × (q.name ≡ name) × All (λ r. r.name ≢ name) qs)

-- A workload's pod is there and runs.
abbrev pub IsUp : List Pod → String → Type 0
IsUp pods name = (p : Pod) × IsLast name p pods × Runs p

RunsIf : Option Pod → Type 0
RunsIf none = ⊥
RunsIf (some p) = Runs p

pod_named-none :
    (pods : List Pod) (w : String) → pod_named pods w ≡ none → All (λ p. p.name ≢ w) pods
unfolding pod_named
pod_named-none [] w h = tt
pod_named-none (p ∷ ps) w h = elim (Option-cases (pod_named ps w)) [
  | inl absent ↦
      let g = rw absent at h in
      (
        elim (Bool-cases (p.name == w)) [
          | inl same ↦ let k = rw same at g in absurd (ground arith)
          | inr other ↦ λ e. absurd (ground arith)
        ],
        pod_named-none ps w absent,
      )
  | inr (q, found) ↦ let g = rw found at h in absurd (ground arith)
]

none-pod_named :
    (pods : List Pod) (w : String) → All (λ p. p.name ≢ w) pods → pod_named pods w ≡ none
unfolding pod_named
none-pod_named [] w h = refl
none-pod_named (p ∷ ps) w (h, hs) =
    let other : (p.name == w) ≡ false = ground (arith, h) in rw (none-pod_named ps w hs, other) refl

pod_named-IsLast :
    (pods : List Pod) (w : String) (p : Pod) → pod_named pods w ≡ some p → IsLast w p pods
unfolding pod_named
pod_named-IsLast [] w p h = absurd (ground arith)
pod_named-IsLast (q ∷ qs) w p h = elim (Option-cases (pod_named qs w)) [
  | inl absent ↦
      let g = rw absent at h in
      elim (Bool-cases (q.name == w)) [
        | inl same ↦
            let k = rw same at g in
            inr (ground (arith, k), ground (arith, same), pod_named-none qs w absent)
        | inr other ↦ let k = rw other at g in absurd (ground arith)
      ]
  | inr (r, found) ↦ let g = rw found at h in inl (pod_named-IsLast qs w p (found ∙ g))
]

IsLast-pod_named :
    (pods : List Pod) (w : String) (p : Pod) → IsLast w p pods → pod_named pods w ≡ some p
unfolding pod_named
IsLast-pod_named [] w p h = absurd h
IsLast-pod_named (q ∷ qs) w p (inl h) = rw (IsLast-pod_named qs w p h) refl
IsLast-pod_named (q ∷ qs) w p (inr (same, named, others)) =
    let here : (q.name == w) ≡ true = ground (arith, named) in
    rw (none-pod_named qs w others, here) (ap some same)

IsUp-iff : (pods : List Pod) (w : String) → RunsIf (pod_named pods w) ↔ IsUp pods w
unfolding RunsIf
IsUp-iff pods w = (
  λ h. elim (Option-cases (pod_named pods w)) [
    | inl absent ↦ absurd (subst RunsIf absent h)
    | inr (p, found) ↦ (p, pod_named-IsLast pods w p found, subst RunsIf found h)
  ],
  λ (p, last, runs). subst RunsIf (sym (IsLast-pod_named pods w p last)) runs,
)

-- The workloads of a zone, none where the file has no such zone.
abbrev pub workloads_at : Option ZoneSpec → List String
workloads_at none = []
workloads_at (some z) = z.workloads

abbrev pub Passes : Check → Type 0
Passes c = c.status ≡ pass

all_running_iff :
    (cs : List Container) → (all_running cs ≡ true) ↔ All (λ c. c.state ≡ "running") cs
unfolding all_running
all_running_iff [] = (λ h. tt, λ h. refl)
all_running_iff (c ∷ cs) = ground (arith, all_running_iff cs)

running_iff : (p : Pod) → (running p ≡ true) ↔ Runs p
unfolding running
running_iff p = ground (arith, all_running_iff p.containers)

pod_check_iff : (r : Role) (w : String) (o : Option Pod) → Passes (pod_check r w o) ↔ RunsIf o
unfolding pod_check RunsIf
pod_check_iff r w none = ground arith
pod_check_iff r w (some p) = ground (arith, running_iff p)

All-append_iff : (xs ys : List Check) → All Passes (xs ++ ys) ↔ (All Passes xs × All Passes ys)
All-append_iff [] ys = (λ h. (tt, h), λ h. h.1)
All-append_iff (x ∷ xs) ys = ground (arith, All-append_iff xs ys)

zone_checks_iff :
    (r : Role) (pods : List Pod) (ws : List String)
    → All Passes (zone_checks r pods ws) ↔ All (λ w. IsUp pods w) ws
unfolding zone_checks
zone_checks_iff r pods [] = (λ h. tt, λ h. tt)
zone_checks_iff r pods (w ∷ ws) =
    let here = pod_check_iff r w (pod_named pods w) in
    let up = IsUp-iff pods w in
    let there = zone_checks_iff r pods ws in
    (λ (p, q). (up.0 (here.0 p), there.0 q), λ (p, q). (here.1 (up.1 p), there.1 q))

checks_at_iff :
    (r : Role) (pods : List Pod) (o : Option ZoneSpec)
    → All Passes (elim o [ none ↦ [] | some z ↦ zone_checks r pods z.workloads ])
      ↔ All (λ w. IsUp pods w) (workloads_at o)
checks_at_iff r pods none = (λ h. tt, λ h. tt)
checks_at_iff r pods (some z) = zone_checks_iff r pods z.workloads

-- All checks of the workloads pass exactly when for every workload of every given zone the last pod
-- of its name is there, has containers, and all of them are running.
pub evaluate_workloads_iff :
    (t : Topology) (rs : List Role) (pods : List Pod)
    → All Passes (evaluate_workloads t rs pods)
      ↔ All (λ r. All (λ w. IsUp pods w) (workloads_at (zone t r))) rs
unfolding evaluate_workloads
evaluate_workloads_iff t [] pods = (λ h. tt, λ h. tt)
evaluate_workloads_iff t (r ∷ rs) pods =
    let here = checks_at_iff r pods (zone t r) in
    let there = evaluate_workloads_iff t rs pods in
    let split = All-append_iff _ (evaluate_workloads t rs pods) in
    (λ h. (here.0 (split.0 h).0, there.0 (split.0 h).1), λ (p, q). split.1 (here.1 p, there.1 q))
