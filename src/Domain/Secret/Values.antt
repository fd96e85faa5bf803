-- ===== src/Domain/Secret/Values.antt =====
-- internal/domain/secret.go: the values that generators make.
use localclaw.Common.{
  ℕ, ◌+◌, ◌*◌, ◌/◌, ◌%◌, ◌≤◌, ◌<◌, String, ◌≡◌, ap, ◌⊎◌, Bool, none, List, [], ◌∷◌, ◌++◌, arith,
  ◌==◌, string_eq, nat_eq, length, select, true, false, length-append, All, All-append, codes,
}
use localclaw.Domain.Role.{Role, services, agent}
use localclaw.Domain.Errors.{Result, ok}
use localclaw.Domain.Secret.{
  Encoding, base64_url, hex, Generator, hex_code, hex_encode, base64_code, base64_encode, encoded,
  rendered, generate, SecretSpec, generated, builtin_secrets, Source, source_eq, Source-discrete,
  validate_value,
}

-- A letter, a digit, a hyphen or an underscore: no character of it needs a quote.
abbrev pub IsPlain : ℕ → Type 0
IsPlain c =
    ((b'a' ≤ c) × (c ≤ b'z'))
    ⊎ ((b'A' ≤ c) × (c ≤ b'Z'))
    ⊎ ((b'0' ≤ c) × (c ≤ b'9'))
    ⊎ (c ≡ b'-')
    ⊎ (c ≡ b'_')

abbrev pub IsByte : ℕ → Type 0
IsByte b = b < 256

hex_code-IsPlain : (d : ℕ) → d < 16 → IsPlain (hex_code d)
unfolding hex_code
hex_code-IsPlain d h = ground arith

base64_code-IsPlain : (d : ℕ) → IsPlain (base64_code d)
unfolding base64_code
base64_code-IsPlain d = ground arith

pub hex_encode-IsPlain : (bs : List ℕ) → All IsByte bs → All IsPlain (hex_encode bs)
unfolding hex_encode
hex_encode-IsPlain [] _ = tt
hex_encode-IsPlain (b ∷ bs) (h, hs) = (
  hex_code-IsPlain (b / 16) (omega arith),
  (hex_code-IsPlain (b % 16) (omega arith), hex_encode-IsPlain bs hs),
)

pub base64_encode-IsPlain : (bs : List ℕ) → All IsPlain (base64_encode bs)
unfolding base64_encode
base64_encode-IsPlain [] = tt
base64_encode-IsPlain (a ∷ []) =
    (base64_code-IsPlain (a / 4), (base64_code-IsPlain (a % 4 * 16), tt))
base64_encode-IsPlain (a ∷ b ∷ []) = (
  base64_code-IsPlain (a / 4),
  (base64_code-IsPlain (a % 4 * 16 + b / 16), (base64_code-IsPlain (b % 16 * 4), tt)),
)
base64_encode-IsPlain (a ∷ b ∷ c ∷ rest) = (
  base64_code-IsPlain (a / 4),
  (
    base64_code-IsPlain (a % 4 * 16 + b / 16),
    (
      base64_code-IsPlain (b % 16 * 4 + c / 64),
      (base64_code-IsPlain (c % 64), base64_encode-IsPlain rest),
    ),
  ),
)

pub length-hex_encode : (bs : List ℕ) → length (hex_encode bs) ≡ 2 * length bs
unfolding hex_encode
length-hex_encode [] = omega arith
length-hex_encode (b ∷ bs) = omega (arith, length-hex_encode bs)

-- Three bytes make four characters, and the rest is not padded.
pub length-base64_encode : (bs : List ℕ) → length (base64_encode bs) ≡ (4 * length bs + 2) / 3
unfolding base64_encode
length-base64_encode [] = omega arith
length-base64_encode (a ∷ []) = omega arith
length-base64_encode (a ∷ b ∷ []) = omega arith
length-base64_encode (a ∷ b ∷ c ∷ rest) = omega (arith, length-base64_encode rest)

-- The generator of an entry gives a value that can be stored and that needs no quoting anywhere.
abbrev pub Makes : {S : Type 0} → (ℕ → S → Result (List ℕ) × S) → S → S → SecretSpec → Type 0
Makes read s s' spec =
    (v : List ℕ) × (generate read spec.generator s ≡ (ok v, s'))
    × (validate_value v ≡ none)
    × All IsPlain v

validate_value-short : (v : List ℕ) → 0 < length v → length v ≤ 1024 → validate_value v ≡ none
unfolding validate_value
validate_value-short [] p h = absurd (omega (arith, p))
validate_value-short (c ∷ cs) p h = ground arith

encoded-IsPlain : (e : Encoding) (raw : List ℕ) → All IsByte raw → All IsPlain (encoded e raw)
unfolding encoded
encoded-IsPlain base64_url raw b = base64_encode-IsPlain raw
encoded-IsPlain hex raw b = hex_encode-IsPlain raw b

length-encoded :
    (e : Encoding) (raw : List ℕ)
    → length raw ≡ 32
    → (0 < length (encoded e raw)) × (length (encoded e raw) ≤ 64)
unfolding encoded
length-encoded base64_url raw n = omega (arith, length-base64_encode raw)
length-encoded hex raw n = omega (arith, length-hex_encode raw)

makes :
    {S : Type 0} (read : ℕ → S → Result (List ℕ) × S) (s s' : S) (raw : List ℕ) (name : String)
    (source : Source) (zones : List Role) (rotatable : Bool) (prefix : String) (e : Encoding)
    → read 32 s ≡ (ok raw, s')
    → All IsPlain (codes prefix)
    → length (codes prefix) ≤ 3
    → length raw ≡ 32
    → All IsByte raw
    → Makes read s s' (record {
      name = name;
      source = source;
      zones = zones;
      generator = record { prefix = prefix; bytes = 32; encoding = e };
      rotatable = rotatable;
    })
unfolding generate rendered nat_eq
makes read s s' raw name source zones rotatable prefix e h q l n b =
    let g : Generator = record { prefix = prefix; bytes = 32; encoding = e } in
    let (p, m) = length-encoded e raw n in
    (
      codes prefix ++ encoded e raw,
      ap (λ x. (rendered g x.0, x.1)) h,
      validate_value-short _ (omega (arith, length-append (codes prefix) (encoded e raw)))
          (omega (arith, length-append (codes prefix) (encoded e raw))),
      All-append IsPlain (codes prefix) (encoded e raw) q (encoded-IsPlain e raw b),
    )

-- When the random source gives 32 bytes, the generator of every generated entry of the built-in
-- catalogue gives a value, and that value passes ValidateValue and has only letters, digits,
-- hyphens and underscores.
pub generate-builtin :
    {S : Type 0} (read : ℕ → S → Result (List ℕ) × S) (s s' : S) (raw : List ℕ)
    → read 32 s ≡ (ok raw, s')
    → length raw ≡ 32
    → All IsByte raw
    → All (Makes read s s') (select (λ spec. spec.source == generated) builtin_secrets)
unfolding source_eq Source-discrete
generate-builtin read s s' raw h n b = (
  makes read s s' raw "litellm-master-key" generated (services ∷ []) true "sk-" base64_url h
      (ground arith, (ground arith, (ground arith, tt))) (omega arith) n b,
  (
    makes read s s' raw "litellm-salt-key" generated (services ∷ []) false "" hex h tt (omega arith)
        n b,
    (
      makes read s s' raw "litellm-db-password" generated (services ∷ []) true "" base64_url h tt
          (omega arith) n b,
      (
        makes read s s' raw "openclaw-gateway-token" generated (agent ∷ []) true "" base64_url h tt
            (omega arith) n b,
        tt,
      ),
    ),
  ),
)
