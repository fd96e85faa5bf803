-- ===== src/Domain/Version.antt =====
-- internal/domain/version.go: versions, over the code points of the text.
pub mod Order
use localclaw.Common.{
  ℕ, zero, suc, ◌+◌, ◌-◌, ◌*◌, ◌^◌, String, ◌<>◌, Bool, true, false, not, ◌&&◌, ◌||◌, Option, none,
  some, List, [], ◌∷◌, ◌++◌, if◌then◌else◌, ◌==◌, string_eq, nat_eq, ltb, leb, length, is_nil,
  is_digit, itoa, ℤ, pos, negsuc, trim_space, split,
}

pub record Version : Type 0 where
  pub major : ℕ
  pub minor : ℕ
  pub patch : ℕ
  pub raw : List ℕ

-- What ParseVersion says is wrong; its messages quote the trimmed text and the component.
pub data VersionError : Type 0 where
  empty too_many : VersionError
  not_a_number : List ℕ → VersionError

pub data Parsed : Type 0 where
  parsed : Version → Parsed
  refused : VersionError → Parsed

-- core[:i] at the first "-" or "+", or all of it.
unfoldable pub before_suffix : List ℕ → List ℕ
before_suffix [] = []
before_suffix (c ∷ cs) =
    let rest = before_suffix cs in if c == b'-' || c == b'+' then [] else c ∷ rest

digits_value : ℕ → List ℕ → Option ℕ
digits_value acc [] = some acc
digits_value acc (c ∷ cs) =
    let rest = digits_value (acc * 10 + (c - b'0')) cs in if is_digit c then rest else none

unsigned : List ℕ → Option ℕ
unsigned [] = none
unsigned (c ∷ cs) = digits_value 0 (c ∷ cs)

abbrev pub max_int : ℕ
max_int = 2 ^ 63 - 1

in_range : Bool → Option ℕ → Option ℤ
in_range negative none = none
in_range false (some n) = if leb n max_int then some (pos n) else none
in_range true (some zero) = some (pos 0)
in_range true (some (suc n)) = if leb n max_int then some (negsuc n) else none

-- strconv.Atoi, for a 64-bit int.
unfoldable pub atoi : List ℕ → Option ℤ
unfolding digits_value unsigned in_range
atoi [] = none
atoi (c ∷ cs) =
    if c == b'-'
    then in_range true (unsigned cs)
    else if c == b'+'
    then in_range false (unsigned cs)
    else in_range false (unsigned (c ∷ cs))

has_plus : List ℕ → Bool
has_plus [] = false
has_plus (c ∷ cs) = c == b'+'

-- The loop over the parts, before the numbers are stored.
component : List ℕ → Option ℕ
unfolding has_plus
component p = elim (atoi p) [
  | none ↦ none
  | some n ↦ elim n [ negsuc k ↦ none | pos k ↦ if has_plus p then none else some k ]
]

components : List (List ℕ) → (List ℕ → Parsed) → (List ℕ → Parsed) → List ℕ → Parsed
components [] bad done ns = done ns
components (p ∷ ps) bad done ns = elim (component p) [
  | none ↦ bad p
  | some n ↦ components ps bad done (ns ++ (n ∷ []))
]

-- `*dst[i] = n`; components that are not written stay zero.
store : List ℕ → List ℕ → Version
store raw [] = record { major = 0; minor = 0; patch = 0; raw = raw }
store raw (a ∷ []) = record { major = a; minor = 0; patch = 0; raw = raw }
store raw (a ∷ b ∷ []) = record { major = a; minor = b; patch = 0; raw = raw }
store raw (a ∷ b ∷ c ∷ _) = record { major = a; minor = b; patch = c; raw = raw }

parse_core : List ℕ → List ℕ → Parsed
parse_core raw [] = refused empty
parse_core raw (c ∷ cs) =
    let parts = split b'.' (c ∷ cs) in
    if ltb 3 (length parts)
    then refused too_many
    else components parts (λ p. refused (not_a_number p)) (λ ns. parsed (store raw ns)) []

unfoldable pub parse_version : List ℕ → Parsed
unfolding parse_core components component store
parse_version s = let raw = trim_space s in parse_core raw (before_suffix raw)

-- v.AtLeast(min)
unfoldable pub at_least : Version → Version → Bool
at_least v min =
    if not (v.major == min.major)
    then ltb min.major v.major
    else if not (v.minor == min.minor)
    then ltb min.minor v.minor
    else leb min.patch v.patch

unfoldable pub version_text : Version → String
version_text v = itoa v.major <> ("." <> (itoa v.minor <> ("." <> itoa v.patch)))
