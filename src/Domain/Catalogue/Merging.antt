-- ===== src/Domain/Catalogue/Merging.antt =====
-- internal/domain/catalogue.go, NewCatalogue: the names of the merged catalogue.
pub mod Builtin
use localclaw.Common.{
  String, ◌≡◌, refl, sym, ap, ◌∙◌, inl, inr, Bool, false, Option, none, some, List, [], ◌∷◌, ◌++◌,
  arith, ◌==◌, contains, string_eq, nat_eq, Bool-cases, Distinct, contains-append,
}
use localclaw.Domain.Catalogue.{
  has_name, add_zone, declared_spec, Merge, accept, merge_name, merge_names, merge_zones,
  new_catalogue,
}
use localclaw.Domain.NameOrder.Sorting.{
  names, IsSorted, sort_by_name-IsSorted, sort_by_name-Distinct,
}
use localclaw.Domain.Role.{Role, roles, role_name}
use localclaw.Domain.Secret.{SecretSpec, valid_name}

has_name-contains :
    (specs : List SecretSpec) (n : String) → has_name specs n ≡ contains (names specs) n
unfolding has_name
has_name-contains [] n = refl
has_name-contains (s ∷ specs) n = ground (arith, has_name-contains specs n)

names-add_zone :
    (n : String) (r : Role) (specs : List SecretSpec) → names (add_zone n r specs) ≡ names specs
unfolding add_zone
names-add_zone n r [] = refl
names-add_zone n r (s ∷ specs) = elim (Bool-cases (s.name == n)) [
  | inl same ↦ rw same refl
  | inr other ↦ rw other (ap (λ ns. s.name ∷ ns) (names-add_zone n r specs))
]

names-append : (xs ys : List SecretSpec) → names (xs ++ ys) ≡ names xs ++ names ys
names-append [] ys = refl
names-append (x ∷ xs) ys = ap (λ ns. x.name ∷ ns) (names-append xs ys)

Distinct-snoc :
    (ns : List String) (n : String)
    → contains ns n ≡ false
    → Distinct ns
    → Distinct (ns ++ (n ∷ []))
Distinct-snoc [] n h d = (refl, tt)
Distinct-snoc (m ∷ ns) n h (d, ds) =
    (contains-append ns (n ∷ []) m ∙ ground (arith, h, d), Distinct-snoc ns n (ground arith) ds)

accept-Distinct :
    (n : String) (r : Role) (m : Merge)
    → Distinct (names m.entries)
    → Distinct (names (accept n r m).entries)
unfolding accept declared_spec
accept-Distinct n r m d = elim (Bool-cases (has_name m.entries n)) [
  | inl there ↦ rw (there, names-add_zone) d
  | inr new ↦
      rw (new, names-append)
        (Distinct-snoc (names m.entries) n (sym (has_name-contains m.entries n) ∙ new) d)
]

merge_name-Distinct :
    (builtin : List SecretSpec) (r : Role) (n : String) (seen : String → Bool) (m : Merge)
    → Distinct (names m.entries)
    → Distinct (names (merge_name builtin r n seen m).1.entries)
unfolding merge_name
merge_name-Distinct builtin r n seen m d = elim (Bool-cases (valid_name n)) [
  | inr bad ↦ rw bad d
  | inl good ↦ elim (Bool-cases (has_name builtin n)) [
    | inl clash ↦ rw (good, clash) d
    | inr free ↦ elim (Bool-cases (seen n)) [
      | inl twice ↦ rw (good, free, twice) d
      | inr once ↦ rw (good, free, once) (accept-Distinct n r m d)
    ]
  ]
]

merge_names-Distinct :
    (builtin : List SecretSpec) (r : Role) (ns : List String) (seen : String → Bool) (m : Merge)
    → Distinct (names m.entries)
    → Distinct (names (merge_names builtin r ns seen m).entries)
unfolding merge_names
merge_names-Distinct builtin r [] seen m d = d
merge_names-Distinct builtin r (n ∷ ns) seen m d =
    merge_names-Distinct builtin r ns _ _ (merge_name-Distinct builtin r n seen m d)

one_zone-Distinct :
    (builtin : List SecretSpec) (r : Role) (m : Merge) (o : Option (List String))
    → Distinct (names m.entries)
    → Distinct (
        names
          (elim o as (λ _. Merge) [
            | none ↦ m
            | some list ↦ merge_names builtin r list (λ _. false) m
          ]).entries)
one_zone-Distinct builtin r m none d = d
one_zone-Distinct builtin r m (some ns) d = merge_names-Distinct builtin r ns _ m d

merge_zones-Distinct :
    (builtin : List SecretSpec) (declared : String → Option (List String)) (rs : List Role)
    (m : Merge)
    → Distinct (names m.entries)
    → Distinct (names (merge_zones builtin declared rs m).entries)
unfolding merge_zones
merge_zones-Distinct builtin declared [] m d = d
merge_zones-Distinct builtin declared (r ∷ rs) m d =
    merge_zones-Distinct builtin declared rs _
      (one_zone-Distinct builtin r m (declared (role_name r)) d)

-- When the built-in entries have different names, NewCatalogue gives entries with different names, in
-- the order of the names, whatever the file declares and whether or not there are findings.
pub new_catalogue-Distinct :
    (builtin : List SecretSpec) (declared : String → Option (List String))
    → Distinct (names builtin)
    → Distinct (names (new_catalogue builtin declared).0)
      × IsSorted (new_catalogue builtin declared).0
unfolding new_catalogue
new_catalogue-Distinct builtin declared d = (
  sort_by_name-Distinct _
      (merge_zones-Distinct builtin declared roles (record { entries = builtin; findings = [] }) d),
  sort_by_name-IsSorted _,
)
