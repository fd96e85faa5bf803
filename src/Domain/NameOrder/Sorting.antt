-- ===== src/Domain/NameOrder/Sorting.antt =====
-- The sort of the catalogue's entries: it orders them and keeps their names.
use localclaw.Common.{
  ◌<◌, ◌⊎◌, ℕ, String, ◌≡◌, refl, ◌∙◌, inl, inr, true, false, List, [], ◌∷◌, arith, contains,
  string_eq, nat_eq, Bool-cases, All, Distinct, codes,
}
use localclaw.Domain.NameOrder.{codes_le, name_le, insert_by_name, sort_by_name}
use localclaw.Domain.Secret.{SecretSpec}

abbrev pub names : List SecretSpec → List String
names [] = []
names (s ∷ specs) = s.name ∷ names specs

-- Each entry's name is at most the names behind it.
abbrev pub IsSorted : List SecretSpec → Type 0
IsSorted [] = Unit
IsSorted (s ∷ specs) = All (λ t. name_le s.name t.name ≡ true) specs × IsSorted specs

-- The lexicographic order, told apart from the comparison of the code.
abbrev pub Below : List ℕ → List ℕ → Type 0
Below [] ds = Unit
Below (c ∷ cs) [] = ⊥
Below (c ∷ cs) (d ∷ ds) = (c < d) ⊎ ((c ≡ d) × Below cs ds)

codes_le-Below : (cs ds : List ℕ) → codes_le cs ds ≡ true → Below cs ds
unfolding codes_le
codes_le-Below [] ds h = tt
codes_le-Below (c ∷ cs) [] h = absurd (ground arith)
codes_le-Below (c ∷ cs) (d ∷ ds) h = ground (arith, codes_le-Below cs ds)

pub name_le-Below : (a b : String) → name_le a b ≡ true → Below (codes a) (codes b)
unfolding name_le
name_le-Below a b h = codes_le-Below (codes a) (codes b) h

codes_le_total : (a b : List ℕ) → codes_le a b ≡ false → codes_le b a ≡ true
unfolding codes_le
codes_le_total [] b h = ground arith
codes_le_total (a ∷ xs) [] h = refl
codes_le_total (a ∷ xs) (b ∷ ys) h = ground (arith, codes_le_total xs ys)

codes_le_trans : (a b c : List ℕ) → codes_le a b ≡ true → codes_le b c ≡ true → codes_le a c ≡ true
unfolding codes_le
codes_le_trans [] b c h k = refl
codes_le_trans (a ∷ xs) [] c h k = ground arith
codes_le_trans (a ∷ xs) (b ∷ ys) [] h k = ground arith
codes_le_trans (a ∷ xs) (b ∷ ys) (c ∷ zs) h k = ground (arith, codes_le_trans xs ys zs)

pub name_le_total : (a b : String) → name_le a b ≡ false → name_le b a ≡ true
unfolding name_le
name_le_total a b h = codes_le_total (codes a) (codes b) h

pub name_le_trans : (a b c : String) → name_le a b ≡ true → name_le b c ≡ true → name_le a c ≡ true
unfolding name_le
name_le_trans a b c h k = codes_le_trans (codes a) (codes b) (codes c) h k

-- An entry below the first of a sorted list is below all of it.
All-below :
    (a b : String) (ts : List SecretSpec)
    → name_le a b ≡ true
    → All (λ t. name_le b t.name ≡ true) ts
    → All (λ t. name_le a t.name ≡ true) ts
All-below a b [] h k = tt
All-below a b (t ∷ ts) h (k, ks) = (name_le_trans a b t.name h k, All-below a b ts h ks)

All-insert :
    (P : SecretSpec → Type 0) (s : SecretSpec) (ts : List SecretSpec)
    → P s
    → All P ts
    → All P (insert_by_name s ts)
unfolding insert_by_name
All-insert P s [] h k = (h, tt)
All-insert P s (t ∷ ts) h (k, ks) = elim (Bool-cases (name_le s.name t.name)) [
  | inl le ↦ rw le (h, (k, ks))
  | inr gt ↦ rw gt (k, All-insert P s ts h ks)
]

insert-IsSorted :
    (s : SecretSpec) (ts : List SecretSpec) → IsSorted ts → IsSorted (insert_by_name s ts)
unfolding insert_by_name
insert-IsSorted s [] h = (tt, tt)
insert-IsSorted s (t ∷ ts) (h, hs) = elim (Bool-cases (name_le s.name t.name)) [
  | inl le ↦ rw le ((le, All-below s.name t.name ts le h), (h, hs))
  | inr gt ↦ rw gt (All-insert _ s ts (name_le_total s.name t.name gt) h, insert-IsSorted s ts hs)
]

pub sort_by_name-IsSorted : (specs : List SecretSpec) → IsSorted (sort_by_name specs)
unfolding sort_by_name
sort_by_name-IsSorted [] = tt
sort_by_name-IsSorted (s ∷ specs) =
    insert-IsSorted s (sort_by_name specs) (sort_by_name-IsSorted specs)

contains-insert :
    (s : SecretSpec) (ts : List SecretSpec) (n : String)
    → contains (names (insert_by_name s ts)) n ≡ contains (s.name ∷ names ts) n
unfolding insert_by_name
contains-insert s [] n = refl
contains-insert s (t ∷ ts) n = ground (arith, contains-insert s ts n)

pub contains-sort_by_name :
    (specs : List SecretSpec) (n : String)
    → contains (names (sort_by_name specs)) n ≡ contains (names specs) n
unfolding sort_by_name
contains-sort_by_name [] n = refl
contains-sort_by_name (s ∷ specs) n =
    contains-insert s (sort_by_name specs) n ∙ ground (arith, contains-sort_by_name specs n)

insert-Distinct :
    (s : SecretSpec) (ts : List SecretSpec)
    → contains (names ts) s.name ≡ false
    → Distinct (names ts)
    → Distinct (names (insert_by_name s ts))
unfolding insert_by_name
insert-Distinct s [] h d = (refl, tt)
insert-Distinct s (t ∷ ts) h (d, ds) = elim (Bool-cases (name_le s.name t.name)) [
  | inl le ↦ rw le (h, (d, ds))
  | inr gt ↦
      rw gt (contains-insert s ts t.name ∙ ground arith, insert-Distinct s ts (ground arith) ds)
]

pub sort_by_name-Distinct :
    (specs : List SecretSpec) → Distinct (names specs) → Distinct (names (sort_by_name specs))
unfolding sort_by_name
sort_by_name-Distinct [] d = tt
sort_by_name-Distinct (s ∷ specs) (d, ds) =
    insert-Distinct s (sort_by_name specs) (contains-sort_by_name specs s.name ∙ d)
      (sort_by_name-Distinct specs ds)
