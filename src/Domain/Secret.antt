-- ===== src/Domain/Secret.antt =====
-- internal/domain/secret.go: secret entries, their generators, and the rules for names and values.
-- A value is the list of its bytes.
pub mod Values
pub mod Names
pub mod Sources
use localclaw.Common.{
  ℕ, ◌+◌, ◌-◌, ◌*◌, ◌/◌, ◌%◌, String, ◌<>◌, Bool, true, false, not, ◌&&◌, ◌||◌, Option, none, some,
  List, [], ◌∷◌, ◌++◌, if◌then◌else◌, Eq, ◌==◌, contains, string_eq, nat_eq, ltb, length, is_nil,
  codes, byte_len, is_digit, is_lower, itoa, quote,
}
use localclaw.Domain.Errors.{
  Error, sentinel, invalid_name, invalid_value, failure, wrapped, Result, ok, err,
}
use localclaw.Domain.Role.{Role, services, agent, role_eq}

pub data Source : Type 0 where
  generated minted user : Source

pub Source-discrete : Discrete Source
Source-discrete = hlevel

instance unfoldable pub source_eq : Eq Source
unfolding Source-discrete
source_eq = record { dec = Source-discrete }

abbrev pub source_name : Source → String
source_name generated = "generated"
source_name minted = "minted"
source_name user = "user"

abbrev sources : List Source
sources = generated ∷ minted ∷ user ∷ []

parse_source_in : List Source → String → Option Source
parse_source_in [] s = none
parse_source_in (r ∷ rs) s =
    let rest = parse_source_in rs s in if source_name r == s then some r else rest

unfoldable pub parse_source : String → Option Source
unfolding parse_source_in
parse_source s = parse_source_in sources s

pub data Encoding : Type 0 where
  base64_url hex : Encoding

-- `bytes` is 0 where the entry has no generator.
pub record Generator : Type 0 where
  pub prefix : String
  pub bytes : ℕ
  pub encoding : Encoding

hex_code : ℕ → ℕ
hex_code d = if ltb d 10 then b'0' + d else b'a' + (d - 10)

-- hex.EncodeToString
unfoldable pub hex_encode : List ℕ → List ℕ
unfolding hex_code
hex_encode [] = []
hex_encode (b ∷ bs) = hex_code (b / 16) ∷ hex_code (b % 16) ∷ hex_encode bs

base64_code : ℕ → ℕ
base64_code d =
    if ltb d 26
    then b'A' + d
    else if ltb d 52
    then b'a' + (d - 26)
    else if ltb d 62
    then b'0' + (d - 52)
    else if d == 62
    then b'-'
    else b'_'

-- base64.RawURLEncoding.EncodeToString
unfoldable pub base64_encode : List ℕ → List ℕ
unfolding base64_code
base64_encode [] = []
base64_encode (a ∷ []) = base64_code (a / 4) ∷ base64_code (a % 4 * 16) ∷ []
base64_encode (a ∷ b ∷ []) =
    base64_code (a / 4) ∷ base64_code (a % 4 * 16 + b / 16) ∷ base64_code (b % 16 * 4) ∷ []
base64_encode (a ∷ b ∷ c ∷ rest) =
    base64_code (a / 4)
    ∷ base64_code (a % 4 * 16 + b / 16)
    ∷ base64_code (b % 16 * 4 + c / 64)
    ∷ base64_code (c % 64)
    ∷ base64_encode rest

unfoldable pub encoded : Encoding → List ℕ → List ℕ
encoded hex raw = hex_encode raw
encoded base64_url raw = base64_encode raw

unfoldable pub rendered : Generator → Result (List ℕ) → Result (List ℕ)
rendered g (ok raw) = ok (codes g.prefix ++ encoded g.encoding raw)
rendered g (err e) = err (wrapped "generate: read randomness: " e "")

-- g.Generate(random); `read n` is io.ReadFull of `n` bytes from the reader.
unfoldable pub generate {ℓ} :
    {S : Type ℓ} → (ℕ → S → Result (List ℕ) × S) → Generator → S → Result (List ℕ) × S
unfolding rendered encoded
generate read g s =
    if g.bytes == 0
    then (err (failure "generate: entry has no generator"), s)
    else let (raw, s') = read g.bytes s in (rendered g raw, s')

pub record SecretSpec : Type 0 where
  pub name : String
  pub source : Source
  pub zones : List Role
  pub generator : Generator
  pub rotatable : Bool

unfoldable pub used_by : SecretSpec → Role → Bool
used_by s r = contains s.zones r

-- Times are seconds; the zero time is 0.
pub record SecretItem : Type 0 where
  pub name : String
  pub source : Source
  pub created : ℕ
  pub modified : ℕ

abbrev pub max_secret_len : ℕ
max_secret_len = 1024

abbrev pub max_name_len : ℕ
max_name_len = 63

abbrev pub alnum : ℕ → Bool
alnum c = is_lower c || is_digit c

-- `([a-z0-9-]*[a-z0-9])?$`, behind a first character.
label_tail : Bool → List ℕ → Bool
label_tail last_ok [] = last_ok
label_tail last_ok (c ∷ cs) = (alnum c || c == b'-') && label_tail (alnum c) cs

-- namePattern.MatchString(name)
unfoldable pub name_pattern : List ℕ → Bool
unfolding label_tail
name_pattern [] = false
name_pattern (c ∷ cs) = alnum c && label_tail true cs

unfoldable pub valid_name : String → Bool
unfolding name_pattern
valid_name name = not (ltb max_name_len (byte_len (codes name)) || not (name_pattern (codes name)))

-- The error of ValidateName, or nil.
unfoldable pub validate_name : String → Option Error
unfolding valid_name
validate_name name =
    if valid_name name
    then none
    else some (
        wrapped "" (sentinel invalid_name)
          (": " <> (quote name <> " must be a lowercase DNS label of at most 63 characters")))

unfoldable pub validate_value : List ℕ → Option Error
validate_value v =
    if is_nil v
    then some (wrapped "" (sentinel invalid_value) ": empty")
    else if ltb max_secret_len (length v)
    then some (
        wrapped "" (sentinel invalid_value)
          (": " <> (itoa (length v) <> " bytes is over the 1024-byte limit")))
    else none

abbrev no_generator : Generator
no_generator = record { prefix = ""; bytes = 0; encoding = base64_url }

abbrev pub builtin_secrets : List SecretSpec
builtin_secrets =
    record {
      name = "litellm-master-key";
      source = generated;
      zones = services ∷ [];
      generator = record { prefix = "sk-"; bytes = 32; encoding = base64_url };
      rotatable = true;
    }
    ∷ record {
      name = "litellm-salt-key";
      source = generated;
      zones = services ∷ [];
      generator = record { prefix = ""; bytes = 32; encoding = hex };
      rotatable = false;
    }
    ∷ record {
      name = "litellm-db-password";
      source = generated;
      zones = services ∷ [];
      generator = record { prefix = ""; bytes = 32; encoding = base64_url };
      rotatable = true;
    }
    ∷ record {
      name = "openclaw-gateway-token";
      source = generated;
      zones = agent ∷ [];
      generator = record { prefix = ""; bytes = 32; encoding = base64_url };
      rotatable = true;
    }
    ∷ record {
      name = "openclaw-litellm-key";
      source = minted;
      zones = agent ∷ [];
      generator = no_generator;
      rotatable = true;
    }
    ∷ []
