-- ===== src/Adapters/Keychain/Parse/Roundtrip.antt =====
-- What `security` prints of a value is read back as that value.
use localclaw.Common.{
  ℕ, ◌+◌, ◌-◌, ◌/◌, ◌%◌, ◌<◌, ◌≡◌, refl, ap, inl, inr, Bool, true, false, not, ◌&&◌, some, List, [],
  ◌∷◌, ◌++◌, arith, if◌then◌else◌, ◌==◌, contains, string_eq, nat_eq, ltb, leb, Bool-cases, All,
  contains-append, codes, split, before, before_last,
}
use localclaw.Domain.Errors.{ok}
use localclaw.Adapters.Keychain.Parse.{
  hex_value, hex_pair, hex_decode, password_of, password_in, parse_password,
}

upper_code : ℕ → ℕ
upper_code d = if ltb d 10 then b'0' + d else b'A' + (d - 10)

upper_hex : List ℕ → List ℕ
unfolding upper_code
upper_hex [] = []
upper_hex (b ∷ bs) = upper_code (b / 16) ∷ upper_code (b % 16) ∷ upper_hex bs

-- Printable ASCII without a backslash.
abbrev pub plain : ℕ → Bool
plain c = leb 32 c && leb c 126 && not (c == 92)

all_plain : List ℕ → Bool
all_plain [] = true
all_plain (c ∷ cs) = plain c && all_plain cs

-- The line of find-generic-password -g, as the comment of parsePassword and the test data have it: a
-- value in hexadecimal is followed by a space, and behind it by a rendering of the value or nothing.
unfoldable pub printed : List ℕ → List ℕ → List ℕ
unfolding all_plain upper_hex
printed rendering [] = codes "password: "
printed rendering (c ∷ cs) =
    codes "password: "
    ++ (if all_plain (c ∷ cs)
        then b'"' ∷ ((c ∷ cs) ++ (b'"' ∷ []))
        else codes "0x" ++ (upper_hex (c ∷ cs) ++ (b' ' ∷ rendering)))

abbrev pub Byte : ℕ → Type 0
Byte b = b < 256

hex_value-upper_code : (d : ℕ) → d < 16 → hex_value (upper_code d) ≡ some d
unfolding hex_value upper_code
hex_value-upper_code d h = ground arith

hex_decode-upper_hex : (v : List ℕ) → All Byte v → hex_decode (upper_hex v) ≡ some v
unfolding hex_decode upper_hex hex_pair
hex_decode-upper_hex [] h = refl
hex_decode-upper_hex (b ∷ bs) (h, hs) =
    rw
      (
        hex_value-upper_code (b / 16) (omega arith),
        hex_value-upper_code (b % 16) (omega arith),
        hex_decode-upper_hex bs hs,
      )
      (ap (λ n. some (n ∷ bs)) (omega arith))

upper_hex-contains : (v : List ℕ) (d : ℕ) → All Byte v → d < 48 → contains (upper_hex v) d ≡ false
unfolding upper_hex upper_code
upper_hex-contains [] d h k = refl
upper_hex-contains (b ∷ bs) d (h, hs) k = ground (arith, upper_hex-contains bs d hs k)

all_plain-contains : (v : List ℕ) → all_plain v ≡ true → contains v b'\n' ≡ false
unfolding all_plain
all_plain-contains [] h = refl
all_plain-contains (c ∷ cs) h = ground (arith, all_plain-contains cs)

before_append : (d : ℕ) (s t : List ℕ) → contains s d ≡ false → before d (s ++ (d ∷ t)) ≡ s
before_append d [] t h = ground arith
before_append d (c ∷ s) t h = ground (arith, before_append d s t)

before_last_append : (d : ℕ) (s : List ℕ) → before_last d (s ++ (d ∷ [])) ≡ some s
before_last_append d [] = ground arith
before_last_append d (c ∷ s) = rw (before_last_append d s) refl

split_line : (d : ℕ) (s t : List ℕ) → contains s d ≡ false → split d (s ++ (d ∷ t)) ≡ s ∷ split d t
unfolding split
split_line d [] t h = ground arith
split_line d (c ∷ s) t h =
    let ih : split d (s ++ (d ∷ t)) ≡ s ∷ split d t = split_line d s t (ground arith) in
    let other : (c == d) ≡ false = ground arith in rw (other, ih) refl

printed-contains :
    (rendering v : List ℕ)
    → contains rendering b'\n' ≡ false
    → All Byte v
    → contains (printed rendering v) b'\n' ≡ false
unfolding printed nat_eq
printed-contains rendering [] k h = refl
printed-contains rendering (c ∷ cs) k h = elim (Bool-cases (all_plain (c ∷ cs))) [
  | inl shown ↦
      rw (shown, contains-append (c ∷ cs) (b'"' ∷ []) b'\n', all_plain-contains (c ∷ cs) shown) refl
  | inr other ↦
      rw
        (
          other,
          contains-append (upper_hex (c ∷ cs)) (b' ' ∷ rendering) b'\n',
          upper_hex-contains (c ∷ cs) b'\n' h (omega arith),
          k,
        )
        refl
]

password_in-printed :
    (rendering v : List ℕ) (rest : List (List ℕ))
    → All Byte v
    → password_in (printed rendering v ∷ rest) ≡ ok v
unfolding password_in password_of printed nat_eq
password_in-printed rendering [] rest h = refl
password_in-printed rendering (c ∷ cs) rest h = elim (Bool-cases (all_plain (c ∷ cs))) [
  | inl shown ↦ rw (shown, before_last_append b'"' (c ∷ cs)) refl
  | inr other ↦
      rw
        (
          other,
          before_append b' ' (upper_hex (c ∷ cs)) rendering
              (upper_hex-contains (c ∷ cs) b' ' h (omega arith)),
          hex_decode-upper_hex (c ∷ cs) h,
        )
        refl
]

-- A value of bytes that `security find-generic-password -g` prints is the value that parsePassword
-- reads, whatever lines follow: an empty value is printed as nothing, another one is quoted where every
-- byte is printable ASCII without a backslash, and otherwise in hexadecimal with a space behind it,
-- and behind that any rendering without a line break, or none.
pub parse_password-printed :
    (rendering v after : List ℕ)
    → contains rendering b'\n' ≡ false
    → All Byte v
    → parse_password (printed rendering v ++ (b'\n' ∷ after)) ≡ ok v
unfolding parse_password
parse_password-printed rendering v after k h =
    rw (split_line b'\n' (printed rendering v) after (printed-contains rendering v k h))
      (password_in-printed rendering v (split b'\n' after) h)
