-- ===== src/Domain/Secret/Names.antt =====
-- internal/domain/secret.go: the names that ValidateName accepts.
use localclaw.Common.{
  ℕ, ◌≤◌, String, ◌≡◌, refl, sym, ap, subst, ◌↔◌, ◌⊎◌, Bool, true, none, List, [], ◌∷◌, ◌++◌, arith,
  string_eq, nat_eq, All, codes, byte_len,
}
use localclaw.Domain.Secret.{alnum, label_tail, name_pattern, valid_name, validate_name}

abbrev Letter : ℕ → Type 0
Letter c = alnum c ≡ true

abbrev Middle : ℕ → Type 0
Middle c = (alnum c ≡ true) ⊎ (c ≡ b'-')

-- `^[a-z0-9]([a-z0-9-]*[a-z0-9])?$`: one letter or digit, or one at each end with letters, digits and
-- hyphens between.
pub data IsLabel : List ℕ → Type 0 where
  single : (c : ℕ) → Letter c → IsLabel (c ∷ [])
  several :
      (c d : ℕ) (between : List ℕ)
      → Letter c
      → All Middle between
      → Letter d
      → IsLabel (c ∷ (between ++ (d ∷ [])))

tail_sound :
    (ok : Bool) (d : ℕ) (cs : List ℕ)
    → label_tail ok (d ∷ cs) ≡ true
    → (between : List ℕ) × (last : ℕ) × (d ∷ cs ≡ between ++ (last ∷ []))
      × All Middle between
      × Letter last
unfolding label_tail
tail_sound ok d [] h = ([], d, refl, tt, ground arith)
tail_sound ok d (e ∷ cs) h =
    let (between, last, split, middle, letter) = tail_sound (alnum d) e cs (ground arith) in
    (d ∷ between, last, ap (λ l. d ∷ l) split, (ground arith, middle), letter)

tail_complete :
    (ok : Bool) (between : List ℕ) (last : ℕ)
    → All Middle between
    → Letter last
    → label_tail ok (between ++ (last ∷ [])) ≡ true
unfolding label_tail
tail_complete ok [] last m l = ground arith
tail_complete ok (c ∷ between) last (m, ms) l =
    ground (arith, tail_complete (alnum c) between last ms l)

pattern_sound : (s : List ℕ) → name_pattern s ≡ true → IsLabel s
unfolding name_pattern
pattern_sound [] h = absurd cc
pattern_sound (c ∷ []) h = single c (ground arith)
pattern_sound (c ∷ d ∷ cs) h =
    let (between, last, split, middle, letter) = tail_sound true d cs (ground arith) in
    subst (λ l. IsLabel (c ∷ l)) (sym split) (several c last between (ground arith) middle letter)

pattern_complete : (s : List ℕ) → IsLabel s → name_pattern s ≡ true
unfolding name_pattern label_tail
pattern_complete _ (single c h) = ground arith
pattern_complete _ (several c d between hc m hd) = ground (arith, tail_complete true between d m hd)

-- ValidateName returns nil exactly for the labels of the pattern that have at most 63 bytes.
pub validate_name_iff :
    (name : String)
    → (validate_name name ≡ none) ↔ (IsLabel (codes name) × (byte_len (codes name) ≤ 63))
unfolding validate_name valid_name
validate_name_iff name = (
  λ h. (pattern_sound (codes name) (ground arith), ground arith),
  λ (label, short). ground (arith, pattern_complete (codes name) label),
)
