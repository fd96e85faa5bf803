-- ===== src/Domain/Topology/Networks.antt =====
-- internal/domain/topology.go: the networks that a workload joins.
use localclaw.Common.{
  subst, Bool, tally, ℕ, ◌≤◌, String, ◌<>◌, ◌≡◌, refl, ap, ◌∙◌, inl, inr, List, [], ◌∷◌, arith,
  if◌then◌else◌, ◌==◌, string_eq, nat_eq, leb, Bool-cases, All,
}
use localclaw.Domain.Topology.{
  ZoneSpec, bridges_of, role_rank, insert_by_rank, sort_by_rank, prefixed, networks,
}

-- The order of the zones' names: infra, services, agent, and any other name behind them.
abbrev pub place : String → ℕ
place name =
    if name == "infra"
    then 0
    else if name == "services"
    then 1
    else if name == "agent"
    then 2
    else 3

pub role_rank-place : (name : String) → role_rank name ≡ place name
unfolding role_rank
role_rank-place name = ground arith

-- No name comes behind one that has a later place.
abbrev pub InPlace : List String → Type 0
InPlace [] = Unit
InPlace (b ∷ bs) = All (λ c. place b ≤ place c) bs × InPlace bs

-- Each name ranks at most as high as the names behind it.
abbrev IsRanked : List String → Type 0
IsRanked [] = Unit
IsRanked (b ∷ bs) = All (λ c. role_rank b ≤ role_rank c) bs × IsRanked bs

All-place :
    (b : String) (cs : List String)
    → All (λ c. role_rank b ≤ role_rank c) cs
    → All (λ c. place b ≤ place c) cs
All-place b [] h = tt
All-place b (c ∷ cs) (h, hs) = (
  subst (λ n. n ≤ place c) (role_rank-place b) (subst (λ n. role_rank b ≤ n) (role_rank-place c) h),
  All-place b cs hs,
)

IsRanked-InPlace : (bs : List String) → IsRanked bs → InPlace bs
IsRanked-InPlace [] h = tt
IsRanked-InPlace (b ∷ bs) (h, hs) = (All-place b bs h, IsRanked-InPlace bs hs)

All-insert :
    (P : String → Type 0) (b : String) (cs : List String)
    → P b
    → All P cs
    → All P (insert_by_rank b cs)
unfolding insert_by_rank
All-insert P b [] h k = (h, tt)
All-insert P b (c ∷ cs) h (k, ks) = elim (Bool-cases (leb (role_rank b) (role_rank c))) [
  | inl le ↦ rw le (h, (k, ks))
  | inr gt ↦ rw gt (k, All-insert P b cs h ks)
]

All-below :
    (b c : String) (cs : List String)
    → role_rank b ≤ role_rank c
    → All (λ d. role_rank c ≤ role_rank d) cs
    → All (λ d. role_rank b ≤ role_rank d) cs
All-below b c [] h k = tt
All-below b c (d ∷ cs) h (k, ks) = (omega (arith, h, k), All-below b c cs h ks)

insert-IsRanked : (b : String) (cs : List String) → IsRanked cs → IsRanked (insert_by_rank b cs)
unfolding insert_by_rank
insert-IsRanked b [] h = (tt, tt)
insert-IsRanked b (c ∷ cs) (h, hs) = elim (Bool-cases (leb (role_rank b) (role_rank c))) [
  | inl le ↦ rw le ((ground (arith, le), All-below b c cs (ground (arith, le)) h), (h, hs))
  | inr gt ↦ rw gt (All-insert _ b cs (ground (arith, gt)) h, insert-IsRanked b cs hs)
]

sort_by_rank-IsRanked : (bs : List String) → IsRanked (sort_by_rank bs)
unfolding sort_by_rank
sort_by_rank-IsRanked [] = tt
sort_by_rank-IsRanked (b ∷ bs) = insert-IsRanked b (sort_by_rank bs) (sort_by_rank-IsRanked bs)

tally-insert :
    (p : String → Bool) (b : String) (cs : List String)
    → tally p (insert_by_rank b cs) ≡ tally p (b ∷ cs)
unfolding insert_by_rank
tally-insert p b [] = refl
tally-insert p b (c ∷ cs) = ground (arith, tally-insert p b cs)

tally-sort_by_rank : (p : String → Bool) (bs : List String) → tally p (sort_by_rank bs) ≡ tally p bs
unfolding sort_by_rank
tally-sort_by_rank p [] = refl
tally-sort_by_rank p (b ∷ bs) =
    tally-insert p b (sort_by_rank bs) ∙ ground (arith, tally-sort_by_rank p bs)

abbrev pub network_names : List String → List String
network_names [] = []
network_names (b ∷ bs) = ("lclaw-" <> b) ∷ network_names bs

prefixed-eq : (bs : List String) → prefixed bs ≡ network_names bs
unfolding prefixed
prefixed-eq [] = refl
prefixed-eq (b ∷ bs) = ap (λ rest. ("lclaw-" <> b) ∷ rest) (prefixed-eq bs)

-- A workload joins the network of its own zone first, and behind it the networks of the zones that it
-- is bridged to: each as often as the file lists it, infra before services, services before agent, and
-- a name that is no zone's behind them.
pub networks-InPlace :
    (z : ZoneSpec) (w : String)
    → (bridged : List String) × (networks z w ≡ ("lclaw-" <> z.name) ∷ network_names bridged)
      × InPlace bridged
      × ((p : String → Bool) → tally p bridged ≡ tally p (bridges_of z.bridges w))
unfolding networks
networks-InPlace z w = (
  sort_by_rank (bridges_of z.bridges w),
  ap (λ rest. ("lclaw-" <> z.name) ∷ rest) (prefixed-eq (sort_by_rank (bridges_of z.bridges w))),
  IsRanked-InPlace _ (sort_by_rank-IsRanked (bridges_of z.bridges w)),
  λ p. tally-sort_by_rank p (bridges_of z.bridges w),
)
