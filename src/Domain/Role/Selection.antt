-- ===== src/Domain/Role/Selection.antt =====
-- internal/domain/role.go: what SelectRoles accepts, and the zones that it gives.
use mathlib.Core.Option.{some-injective}
use localclaw.Common.{
  String, ◌≡◌, refl, sym, ap, ◌∙◌, subst, ◌≢◌, ◌↔◌, inl, inr, Bool, true, false, none, some, List,
  [], ◌∷◌, arith, if◌then◌else◌, contains, string_eq, nat_eq, Option-cases, select, All, update,
  Distinct,
}
use localclaw.Domain.Errors.{Result, ok, err}
use localclaw.Domain.Role.{
  Role, infra, services, agent, role_eq, roles, role_name, parse_role, mark_names, selected,
  select_roles,
}

-- A name of one of the zones.
abbrev pub IsZone : String → Type 0
IsZone n = (r : Role) × (role_name r ≡ n)

pub parse_role-role_name : (r : Role) → parse_role (role_name r) ≡ some r
unfolding parse_role string_eq
parse_role-role_name infra = refl
parse_role-role_name services = refl
parse_role-role_name agent = refl

pub role_name-parse_role : (n : String) (r : Role) → parse_role n ≡ some r → role_name r ≡ n
unfolding parse_role
role_name-parse_role n r h = ground arith

-- ParseRole gives a zone exactly for the name that String has for it.
pub parse_role_iff : (n : String) (r : Role) → (parse_role n ≡ some r) ↔ (n ≡ role_name r)
parse_role_iff n r = (
  λ h. sym (role_name-parse_role n r h),
  λ h. subst (λ m. parse_role m ≡ some r) (sym h) (parse_role-role_name r),
)

pub role_name_inj : (r s : Role) → role_name r ≡ role_name s → r ≡ s
role_name_inj r s h =
    some-injective r s (sym (parse_role-role_name r) ∙ ap parse_role h ∙ parse_role-role_name s)

-- What the loop over the names has established when it ends without an error.
record Marked (names : List String) (seen f : Role → Bool) : Type 0 where
  known : All IsZone names
  distinct : Distinct names
  fresh : (r : Role) → contains names (role_name r) ≡ true → seen r ≡ false
  marks : (r : Role) → f r ≡ (if contains names (role_name r) then true else seen r)

Marked-cons :
    (r : Role) (names : List String) (seen f : Role → Bool)
    → seen r ≡ false
    → Marked names (update seen r true) f
    → Marked (role_name r ∷ names) seen f
Marked-cons r names seen f new m = record {
  known = ((r, refl), m.known);
  distinct = (ground (arith, m.fresh r), m.distinct);
  fresh = λ s h. ground (arith, m.fresh s, role_name_inj r s);
  marks = λ s. ground (arith, m.marks s, role_name_inj r s);
}

mark_names-step :
    (n : String) (names : List String) (seen f : Role → Bool) (r : Role)
    → parse_role n ≡ some r
    → mark_names (n ∷ names) seen ≡ ok f
    → (seen r ≡ false) × (mark_names names (update seen r true) ≡ ok f)
unfolding mark_names
mark_names-step n names seen f r known h = ground arith

mark_names-unknown :
    (n : String) (names : List String) (seen f : Role → Bool)
    → parse_role n ≡ none
    → mark_names (n ∷ names) seen ≢ ok f
unfolding mark_names
mark_names-unknown n names seen f known h = ground arith

mark_names-Marked :
    (names : List String) (seen f : Role → Bool)
    → mark_names names seen ≡ ok f
    → Marked names seen f
unfolding mark_names
mark_names-Marked [] seen f h = record {
  known = tt;
  distinct = tt;
  fresh = λ r c. cc;
  marks = λ r. ground arith;
}
mark_names-Marked (n ∷ names) seen f h = elim (Option-cases (parse_role n)) [
  | inl unknown ↦ absurd (mark_names-unknown n names seen f unknown h)
  | inr (r, known) ↦
      let (new, rest) = mark_names-step n names seen f r known h in
      subst (λ m. Marked (m ∷ names) seen f) (role_name-parse_role n r known)
        (Marked-cons r names seen f new (mark_names-Marked names (update seen r true) f rest))
]

-- The other way round: names of zones, each given once, are accepted.
mark_names-ok :
    (names : List String) (seen : Role → Bool)
    → All IsZone names
    → Distinct names
    → ((r : Role) → contains names (role_name r) ≡ true → seen r ≡ false)
    → (f : Role → Bool) × (mark_names names seen ≡ ok f)
unfolding mark_names
mark_names-ok [] seen known distinct fresh = (seen, refl)
mark_names-ok (n ∷ names) seen ((r, e), known) (new, distinct) fresh =
    let (f, h) =
      mark_names-ok names (update seen r true) known distinct
        (λ s c. ground (arith, fresh s, role_name_inj r s)) in
    (f, ground (arith, parse_role-role_name r, fresh r))

pub select-eq :
    {A : Type 0} (p q : A → Bool) (xs : List A) → ((x : A) → p x ≡ q x) → select p xs ≡ select q xs
select-eq p q [] h = refl
select-eq p q (x ∷ xs) h = ground (arith, h x, select-eq p q xs h)

-- The zones that are named, in the fixed order.
abbrev pub named : List String → List Role
named names = select (λ r. contains names (role_name r)) roles

select_roles-cons :
    (n : String) (names : List String)
    → select_roles (n ∷ names) ≡ selected (mark_names (n ∷ names) (λ _. false))
unfolding select_roles
select_roles-cons n names = refl

selected-ok :
    (names : List String) (rs : List Role) (m : Result (Role → Bool))
    → mark_names names (λ _. false) ≡ m
    → selected m ≡ ok rs
    → All IsZone names × Distinct names × (rs ≡ named names)
unfolding selected
selected-ok names rs (ok f) e h =
    let m = mark_names-Marked names (λ _. false) f e in
    (
      m.known,
      m.distinct,
      cc (select-eq f (λ r. contains names (role_name r)) roles (λ r. ground (arith, m.marks r))),
    )
selected-ok names rs (err e) _ h = cc

ok-selected :
    (names : List String)
    → All IsZone names
    → Distinct names
    → selected (mark_names names (λ _. false)) ≡ ok (named names)
unfolding selected
ok-selected names known distinct =
    let (f, e) = mark_names-ok names (λ _. false) known distinct (λ r c. refl) in
    let m = mark_names-Marked names (λ _. false) f e in
    rw e (
      ap ok
        (select-eq f (λ r. contains names (role_name r)) roles (λ r. ground (arith, m.marks r))))

-- For at least one name, SelectRoles gives zones exactly when every name is one of a zone and none
-- is given twice. They are the zones that are named, in the fixed order of the zones.
pub select_roles_iff :
    (n : String) (names : List String) (rs : List Role)
    → (select_roles (n ∷ names) ≡ ok rs)
      ↔ (All IsZone (n ∷ names) × Distinct (n ∷ names) × (rs ≡ named (n ∷ names)))
select_roles_iff n names rs = (
  λ h. selected-ok (n ∷ names) rs _ refl (sym (select_roles-cons n names) ∙ h),
  λ (known, distinct, e).
      select_roles-cons n names ∙ ok-selected (n ∷ names) known distinct ∙ ap ok (sym e),
)
