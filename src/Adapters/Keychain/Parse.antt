-- ===== src/Adapters/Keychain/Parse.antt =====
-- internal/adapters/keychain/parse.go: what `security` prints. Texts are lists of code points.
pub mod Roundtrip
use localclaw.Common.{
  ℕ, zero, suc, ◌+◌, ◌-◌, ◌*◌, ◌/◌, ◌%◌, ◌^◌, ◌≤◌, ◌<◌, String, ◌<>◌, ◌≡◌, refl, sym, ap, ◌∙◌,
  subst, ◌≢◌, ◌↔◌, ◌⊎◌, inl, inr, Bool, true, false, not, ◌&&◌, ◌||◌, Option, none, some, List, [],
  ◌∷◌, ◌++◌, map, arith, if◌then◌else◌, Eq, ◌==◌, contains, string_eq, nat_eq, ltb, leb, Bool-cases,
  Option-cases, length, is_nil, select, find, reversed, length-append, All, All-append, Distinct,
  contains-append, codes, join, width, byte_len, join_path, clean, is_digit, is_lower, itoa, itoa_ℤ,
  ℤ, pos, negsuc, is_pos, quote, trim_space, split, join_lines, same_text, take, drop, cut_prefix,
  has_prefix, contains_text, before, behind_first, before_last, fields, text_of, is_space,
}
use localclaw.Adapters.Libraries.{Libraries}
use localclaw.Domain.Errors.{Error, failure, wrapped, Result, ok, err}
use localclaw.Domain.Secret.{Source, user, SecretItem, parse_source}

hex_value : ℕ → Option ℕ
hex_value c =
    if is_digit c
    then some (c - b'0')
    else if leb b'a' c && leb c b'f'
    then some (c - b'a' + 10)
    else if leb b'A' c && leb c b'F'
    then some (c - b'A' + 10)
    else none

hex_pair : Option ℕ → Option ℕ → Option (List ℕ) → Option (List ℕ)
hex_pair (some high) (some low) (some rest) = some ((high * 16 + low) ∷ rest)
hex_pair high low rest = none

-- hex.DecodeString, which refuses an odd length and what is no digit.
unfoldable pub hex_decode : List ℕ → Option (List ℕ)
unfolding hex_value hex_pair
hex_decode [] = some []
hex_decode (c ∷ []) = none
hex_decode (c ∷ d ∷ cs) = hex_pair (hex_value c) (hex_value d) (hex_decode cs)

-- One line behind "password: ".
unfoldable pub password_of : List ℕ → Result (List ℕ)
unfolding hex_decode
password_of rest =
    if has_prefix rest (codes "0x")
    then elim (hex_decode (before b' ' (drop 2 rest))) [
      | some v ↦ ok v
      | none ↦ err (wrapped "decode hexadecimal password: " (failure "encoding/hex") "")
    ]
    else if has_prefix rest (codes "\"")
    then elim (before_last b'"' (drop 1 rest)) [
      | some v ↦ ok v
      | none ↦ err (failure "unterminated quoted password")
    ]
    else ok []

unfoldable pub password_in : List (List ℕ) → Result (List ℕ)
unfolding password_of
password_in [] = err (failure "no password line in security output")
password_in (line ∷ lines) =
    let later = password_in lines in
    elim (cut_prefix line (codes "password: ")) [ some rest ↦ password_of rest | none ↦ later ]

-- parsePassword(stderr)
unfoldable pub parse_password : List ℕ → Result (List ℕ)
unfolding password_in
parse_password stderr = password_in (split b'\n' stderr)

abbrev pub is_password : List ℕ → Bool
is_password l = has_prefix (trim_space l) (codes "password:")

-- stripPassword(s)
unfoldable pub strip_password : List ℕ → List ℕ
strip_password s = trim_space (join_lines (select (λ l. not (is_password l)) (split b'\n' s)))

-- \w
abbrev pub is_word : ℕ → Bool
is_word c = is_digit c || is_lower c || (leb b'A' c && leb c b'Z') || c == b'_'

-- \s
abbrev pub is_blank : ℕ → Bool
is_blank c = c == 9 || c == 10 || c == 12 || c == 13 || c == 32

skip_blank : List ℕ → List ℕ
skip_blank [] = []
skip_blank (c ∷ cs) = let rest = skip_blank cs in if is_blank c then rest else c ∷ cs

take_word : List ℕ → List ℕ
take_word [] = []
take_word (c ∷ cs) = let rest = take_word cs in if is_word c then c ∷ rest else []

drop_word : List ℕ → List ℕ
drop_word [] = []
drop_word (c ∷ cs) = let rest = drop_word cs in if is_word c then rest else c ∷ cs

-- A word that is not empty, and what stands behind it and the text that closes it.
word_then : List ℕ → List ℕ → Option (List ℕ × List ℕ)
unfolding take_word drop_word
word_then close s = if is_nil (take_word s) then none else elim (cut_prefix (drop_word s) close) [
  | none ↦ none
  | some rest ↦ some (take_word s, rest)
]

-- attrLine.FindStringSubmatch(line): the name and the value of an attribute.
unfoldable pub attr_line : List ℕ → Option (List ℕ × List ℕ)
unfolding skip_blank word_then
attr_line line = elim (cut_prefix (skip_blank line) (codes "\"")) [
  | none ↦ none
  | some opened ↦ elim (word_then (codes "\"<") opened) [
    | none ↦ none
    | some (name, typed) ↦ elim (word_then (codes ">=") typed) [
      | none ↦ none
      | some (_, value) ↦ some (name, value)
    ]
  ]
]

-- s[:len(s)-1] where `c` ends it.
cut_end : ℕ → List ℕ → Option (List ℕ)
cut_end c [] = none
cut_end c (d ∷ []) = if d == c then some [] else none
cut_end c (d ∷ e ∷ ds) = elim (cut_end c (e ∷ ds)) [ none ↦ none | some kept ↦ some (d ∷ kept) ]

-- unquote(s)
unfoldable pub unquote : List ℕ → List ℕ
unfolding cut_end
unquote [] = []
unquote (c ∷ cs) = elim (cut_end b'"' cs) [
  | none ↦ []
  | some inner ↦ if c == b'"' then inner else []
]

-- strings.TrimSuffix(s, p)
unfoldable pub trim_suffix : List ℕ → List ℕ → List ℕ
trim_suffix s p =
    if leb (length p) (length s) && same_text (drop (length s - length p) s) p
    then take (length s - length p) s
    else s

module _ (libs : Libraries) where
  -- parseTime(s)
  unfoldable pub parse_time : List ℕ → Result ℕ
  unfolding trim_suffix
  parse_time s = elim (behind_first b'"' s) [
    | none ↦ err (failure ("no quoted time in " <> quote (text_of s)))
    | some q ↦
        libs.parse_time (trim_suffix (trim_suffix (before b'"' q) (codes "\\000")) (codes "Z"))
  ]

  -- One attribute, by its name.
  unfoldable pub take_attribute : SecretItem → List ℕ × List ℕ → Result SecretItem
  unfolding parse_time unquote
  take_attribute item (name, value) =
      if same_text name (codes "icmt")
      then elim (parse_source (text_of (unquote value))) [
        | some source ↦ ok (record item { source = source })
        | none ↦ ok item
      ]
      else if same_text name (codes "cdat")
      then elim (parse_time value) [
        | ok t ↦ ok (record item { created = t })
        | err e ↦ err (wrapped "parse cdat: " e "")
      ]
      else if same_text name (codes "mdat")
      then elim (parse_time value) [
        | ok t ↦ ok (record item { modified = t })
        | err e ↦ err (wrapped "parse mdat: " e "")
      ]
      else ok item

  unfoldable pub take_line : SecretItem → List ℕ → Result SecretItem
  unfolding attr_line take_attribute
  take_line item line = elim (attr_line line) [ none ↦ ok item | some m ↦ take_attribute item m ]

  take_lines : SecretItem → List (List ℕ) → Result SecretItem
  unfolding take_line
  take_lines item [] = ok item
  take_lines item (line ∷ lines) = elim (take_line item line) [
    | ok next ↦ take_lines next lines
    | err e ↦ err e
  ]

  -- parseAttributes(stdout)
  unfoldable pub parse_attributes : List ℕ → Result SecretItem
  unfolding take_lines
  parse_attributes stdout =
      take_lines (record { name = ""; source = user; created = 0; modified = 0 })
        (split b'\n' stdout)
