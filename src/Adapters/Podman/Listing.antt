-- ===== src/Adapters/Podman/Listing.antt =====
-- Which secrets ListSecrets finds.
use localclaw.Common.{
  tally, codes, map, is_nil, fields, text_of, trim_space, ℕ, String, ◌≡◌, refl, ◌∙◌, inl, inr, Bool,
  true, List, [], ◌∷◌, arith, if◌then◌else◌, ◌==◌, string_eq, nat_eq, Bool-cases, All,
}
use localclaw.App.Body.{func, ◌>>=◌, or_return, call, pure, return}
use localclaw.App.Host.{Call, Host, system}
use localclaw.Os.{Output, run}
use localclaw.Domain.Errors.{Error, Result-cases, Result, ok, err}
use localclaw.Domain.NameOrder.{name_le}
use localclaw.Domain.NameOrder.Sorting.{Below, name_le-Below, name_le_total, name_le_trans}
use localclaw.Adapters.Libraries.{SecretRow, Libraries}
use localclaw.Adapters.Podman.{part_of_key, part_of_value, podman, insert_name, owned_names}
use localclaw.Adapters.Podman.Client.{list_secrets}

-- The names of the rows that carry the label.
abbrev pub labelled : List SecretRow → List String
labelled [] = []
labelled (r ∷ rs) =
    if r.labels "app.kubernetes.io/part-of" == "localclaw"
    then r.name ∷ labelled rs
    else labelled rs

-- Each name is at most those behind it, by its code points.
abbrev pub InOrder : List String → Type 0
InOrder [] = Unit
InOrder (a ∷ bs) = All (λ b. Below (codes a) (codes b)) bs × InOrder bs

-- The same, by the code's own comparison.
abbrev IsSorted : List String → Type 0
IsSorted [] = Unit
IsSorted (a ∷ bs) = All (λ b. name_le a b ≡ true) bs × IsSorted bs

All-Below :
    (a : String) (bs : List String)
    → All (λ b. name_le a b ≡ true) bs
    → All (λ b. Below (codes a) (codes b)) bs
All-Below a [] h = tt
All-Below a (b ∷ bs) (h, hs) = (name_le-Below a b h, All-Below a bs hs)

IsSorted-InOrder : (bs : List String) → IsSorted bs → InOrder bs
IsSorted-InOrder [] h = tt
IsSorted-InOrder (b ∷ bs) (h, hs) = (All-Below b bs h, IsSorted-InOrder bs hs)

All-below :
    (a b : String) (cs : List String)
    → name_le a b ≡ true
    → All (λ c. name_le b c ≡ true) cs
    → All (λ c. name_le a c ≡ true) cs
All-below a b [] h k = tt
All-below a b (c ∷ cs) h (k, ks) = (name_le_trans a b c h k, All-below a b cs h ks)

All-insert :
    (P : String → Type 0) (a : String) (bs : List String)
    → P a
    → All P bs
    → All P (insert_name a bs)
unfolding insert_name
All-insert P a [] h k = (h, tt)
All-insert P a (b ∷ bs) h (k, ks) = elim (Bool-cases (name_le a b)) [
  | inl le ↦ rw le (h, (k, ks))
  | inr gt ↦ rw gt (k, All-insert P a bs h ks)
]

insert_name-IsSorted : (a : String) (bs : List String) → IsSorted bs → IsSorted (insert_name a bs)
unfolding insert_name
insert_name-IsSorted a [] h = (tt, tt)
insert_name-IsSorted a (b ∷ bs) (h, hs) = elim (Bool-cases (name_le a b)) [
  | inl le ↦ rw le ((le, All-below a b bs le h), (h, hs))
  | inr gt ↦ rw gt (All-insert _ a bs (name_le_total a b gt) h, insert_name-IsSorted a bs hs)
]

tally-insert_name :
    (p : String → Bool) (a : String) (bs : List String)
    → tally p (insert_name a bs) ≡ tally p (a ∷ bs)
unfolding insert_name
tally-insert_name p a [] = refl
tally-insert_name p a (b ∷ bs) = ground (arith, tally-insert_name p a bs)

owned_names_sound :
    (rows : List SecretRow)
    → IsSorted (owned_names rows)
      × ((p : String → Bool) → tally p (owned_names rows) ≡ tally p (labelled rows))
unfolding owned_names
owned_names_sound [] = (tt, λ p. refl)
owned_names_sound (r ∷ rs) =
    let (order, same) = owned_names_sound rs in
    elim (Bool-cases (r.labels part_of_key == part_of_value)) [
      | inl own ↦ rw own (
        insert_name-IsSorted r.name (owned_names rs) order,
        λ p. tally-insert_name p r.name (owned_names rs) ∙ rw (same p) refl,
      )
      | inr other ↦ rw other (order, same)
    ]

-- A result that fails.
abbrev pub Fails : Result (List String) → Type 0
Fails r = (e : Error) × (r ≡ err e)

-- What the decoded rows of `podman secret inspect` make of the result.
abbrev pub Decoded : Result (List SecretRow) → Result (List String) → Type 0
Decoded (err e) r = Fails r
Decoded (ok rows) r =
    (names : List String) × (r ≡ ok names)
    × InOrder names
    × ((p : String → Bool) → tally p names ≡ tally p (labelled rows))

abbrev pub Inspected : Libraries → Result Output → Result (List String) → Type 0
Inspected libs (err e) r = Fails r
Inspected libs (ok seen) r = Decoded (libs.decode_secrets (trim_space seen.stdout)) r

abbrev pub ls_call : Call
ls_call = system (run (podman ("--connection" ∷ "lclaw" ∷ "secret" ∷ "ls" ∷ "--quiet" ∷ [])))

abbrev inspect_call : List (List ℕ) → Call
inspect_call ids =
    system (run (podman ("--connection" ∷ "lclaw" ∷ "secret" ∷ "inspect" ∷ map text_of ids)))

module _ {S : Type 0} ⦃H : Host S⦄ where
  abbrev pub Lists : Libraries → Result Output → S → Result (List String) → Type 0
  Lists libs (err e) s r = Fails r
  Lists libs (ok out) s r =
      if is_nil (fields out.stdout)
      then r ≡ ok []
      else Inspected libs (H.answer (inspect_call (fields out.stdout)) s).0 r

  -- ListSecrets fails if `podman secret ls` fails. If it prints nothing, the list is empty. Otherwise
  -- `podman secret inspect` is asked for what was printed: if it fails, or its output does not
  -- decode, so does ListSecrets; and if it decodes, the result is a list that holds the names of the
  -- secrets that carry lclaw's label, each as often as they do and no other, in the order of their
  -- code points.
  pub list_secrets_sound :
      (libs : Libraries) (s : S)
      → Lists libs (H.answer ls_call s).0 (H.answer ls_call s).1 (list_secrets libs s).value
  unfolding list_secrets func ◌>>=◌ or_return call pure return string_eq
  list_secrets_sound libs s = elim (Result-cases (H.answer ls_call s).0) [
    | inr (e, bad) ↦ rw bad (_, refl)
    | inl (out, good) ↦ rw good (elim (Bool-cases (is_nil (fields out.stdout))) [
      | inl empty ↦ rw empty refl
      | inr full ↦
          rw full
            (elim (Result-cases
              (H.answer (inspect_call (fields out.stdout)) (H.answer ls_call s).1).0) [
                | inr (e, bad) ↦ rw bad (_, refl)
                | inl (seen, shown) ↦
                    rw shown (elim (Result-cases (libs.decode_secrets (trim_space seen.stdout))) [
                      | inr (e, bad) ↦ rw bad (_, refl)
                      | inl (rows, decoded) ↦
                          let (order, same) = owned_names_sound rows in
                          rw decoded (owned_names rows, refl, IsSorted-InOrder _ order, same)
                    ])
              ])
    ])
  ]
