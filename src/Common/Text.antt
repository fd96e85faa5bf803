-- ===== src/Common/Text.antt =====
-- What the program uses of package strings and strconv. A text that is walked is the list of its
-- code points; a text that is only compared or joined is a native `String`.
use Prim.Native.Nat.{ℕ, zero, suc, ◌+◌, ◌/◌, ◌%◌, ◌<◌, compare, Ordering}
use mathlib.Core.Path.{◌≡◌}
use Prim.Native.Char.{Char, char, code, IsScalar}
use mathlib.Core.Logic.{dite}
use native.Mathlib.Decide.{dec_lt}
use native.Mathlib.Omega.{arith}
use Prim.Native.String.{String, ◌++◌ as ◌<>◌}
use mathlib.Core.Bool.{Bool, false, ◌&&◌, ◌||◌}
use mathlib.Core.List.{List, [], ◌∷◌}
use localclaw.Common.Equality.{◌==◌, nat_eq, ltb, leb, if◌then◌else◌}

abbrev pub codes : String → List ℕ
codes String.[] = []
codes (String.◌∷◌ c s) = code c ∷ codes s

pub ascii-IsScalar : (n : ℕ) → n < 128 → IsScalar n
ascii-IsScalar n h = let e : compare n 55296 ≡ Ordering.lt = ground arith in rw e tt

-- The character of a code point; one outside ASCII is shown as U+FFFD.
of_code : ℕ → Char
unfolding dec_lt
of_code n = dite (dec_lt n 128) (λ h. char n (ascii-IsScalar n h)) (λ _. char 65533 tt)

-- A text that was walked, to be compared or shown.
unfoldable pub text_of : List ℕ → String
unfolding of_code
text_of [] = String.[]
text_of (c ∷ cs) = String.◌∷◌ (of_code c) (text_of cs)

-- strings.Join(parts, ", ")
abbrev pub join : List String → String
join [] = ""
join (s ∷ []) = s
join (s ∷ rest) = s <> (", " <> join rest)

-- The number of bytes of a text in UTF-8, Go's `len`.
abbrev pub width : ℕ → ℕ
width c = if ltb c 0x80 then 1 else if ltb c 0x800 then 2 else if ltb c 0x10000 then 3 else 4

abbrev pub byte_len : List ℕ → ℕ
byte_len [] = 0
byte_len (c ∷ cs) = width c + byte_len cs

abbrev pub is_digit : ℕ → Bool
is_digit c = leb b'0' c && leb c b'9'

abbrev pub is_lower : ℕ → Bool
is_lower c = leb b'a' c && leb c b'z'

digit_text : ℕ → String
digit_text zero = "0"
digit_text (suc zero) = "1"
digit_text (suc (suc zero)) = "2"
digit_text (suc (suc (suc zero))) = "3"
digit_text (suc (suc (suc (suc zero)))) = "4"
digit_text (suc (suc (suc (suc (suc zero))))) = "5"
digit_text (suc (suc (suc (suc (suc (suc zero)))))) = "6"
digit_text (suc (suc (suc (suc (suc (suc (suc zero))))))) = "7"
digit_text (suc (suc (suc (suc (suc (suc (suc (suc zero)))))))) = "8"
digit_text _ = "9"

itoa_fuel : ℕ → ℕ → String
itoa_fuel zero n = ""
itoa_fuel (suc f) n =
    let rest = itoa_fuel f (n / 10) in
    if ltb n 10 then digit_text n else rest <> digit_text (n % 10)

-- fmt's %d of a number that is not negative; `n` has at most `n + 1` digits.
unfoldable pub itoa : ℕ → String
unfolding itoa_fuel digit_text
itoa n = itoa_fuel (suc n) n

-- Go's signed integers; `negsuc n` is -(n + 1).
pub data ℤ : Type 0 where
  pos : ℕ → ℤ
  negsuc : ℕ → ℤ

-- 0 < n
abbrev pub is_pos : ℤ → Bool
is_pos (pos n) = ltb 0 n
is_pos (negsuc n) = false

-- fmt's %d.
unfoldable pub itoa_ℤ : ℤ → String
unfolding itoa
itoa_ℤ (pos n) = itoa n
itoa_ℤ (negsuc n) = "-" <> itoa (suc n)

hex_digit : ℕ → String
unfolding digit_text
hex_digit d =
    if ltb d 10
    then digit_text d
    else if d == 10
    then "a"
    else if d == 11
    then "b"
    else if d == 12
    then "c"
    else if d == 13
    then "d"
    else if d == 14
    then "e"
    else "f"

-- One character of strconv.Quote. Code points from 0x80 are taken as printable.
quote_code : ℕ → String → String
unfolding hex_digit
quote_code c s =
    if c == b'"'
    then "\\\""
    else if c == 92
    then "\\\\"
    else if c == 7
    then "\\a"
    else if c == 8
    then "\\b"
    else if c == 12
    then "\\f"
    else if c == 10
    then "\\n"
    else if c == 13
    then "\\r"
    else if c == 9
    then "\\t"
    else if c == 11
    then "\\v"
    else if ltb c 32 || c == 127
    then "\\x" <> (hex_digit (c / 16) <> hex_digit (c % 16))
    else s

quote_body : String → String
quote_body String.[] = "\""
quote_body (String.◌∷◌ c s) = quote_code (code c) (String.◌∷◌ c String.[]) <> quote_body s

-- fmt's %q.
unfoldable pub quote : String → String
unfolding quote_body quote_code nat_eq
quote s = "\"" <> quote_body s
