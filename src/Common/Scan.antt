-- ===== src/Common/Scan.antt =====
-- What the program uses of package strings on texts that it walks: lists of code points. Output of a
-- command is such a text too.
pub mod Runs
use Prim.Native.Nat.{ℕ, zero, suc, ◌+◌, ◌-◌}
use Prim.Native.String.{String}
use mathlib.Core.Bool.{Bool, true, false, not, ◌&&◌, ◌||◌}
use mathlib.Core.Option.{Option, none, some}
use mathlib.Core.List.{List, [], ◌∷◌, ◌++◌}
use localclaw.Common.Equality.{◌==◌, nat_eq, ltb, leb, if◌then◌else◌}
use localclaw.Common.Lists.{is_nil, length}

-- unicode.IsSpace
abbrev pub is_space : ℕ → Bool
is_space c =
    (leb 9 c && leb c 13)
    || c == 32
    || c == 0x85
    || c == 0xa0
    || c == 0x1680
    || (leb 0x2000 c && leb c 0x200a)
    || c == 0x2028
    || c == 0x2029
    || c == 0x202f
    || c == 0x205f
    || c == 0x3000

unfoldable pub trim_start : List ℕ → List ℕ
trim_start [] = []
trim_start (c ∷ cs) = let rest = trim_start cs in if is_space c then rest else c ∷ cs

unfoldable pub trim_end : List ℕ → List ℕ
trim_end [] = []
trim_end (c ∷ cs) = let rest = trim_end cs in if is_space c && is_nil rest then [] else c ∷ rest

-- strings.TrimSpace
unfoldable pub trim_space : List ℕ → List ℕ
unfolding trim_start trim_end
trim_space s = trim_end (trim_start s)

cons_head : ℕ → List (List ℕ) → List (List ℕ)
cons_head c [] = (c ∷ []) ∷ []
cons_head c (w ∷ ws) = (c ∷ w) ∷ ws

-- strings.Split by one character.
unfoldable pub split : ℕ → List ℕ → List (List ℕ)
unfolding cons_head
split sep [] = [] ∷ []
split sep (c ∷ cs) = let rest = split sep cs in if c == sep then [] ∷ rest else cons_head c rest

-- strings.Join(lines, "\n")
unfoldable pub join_lines : List (List ℕ) → List ℕ
join_lines [] = []
join_lines (l ∷ []) = l
join_lines (l ∷ m ∷ rest) = l ++ (b'\n' ∷ join_lines (m ∷ rest))

abbrev pub same_text : List ℕ → List ℕ → Bool
same_text [] [] = true
same_text [] (d ∷ ds) = false
same_text (c ∷ cs) [] = false
same_text (c ∷ cs) (d ∷ ds) = c == d && same_text cs ds

abbrev pub take : ℕ → List ℕ → List ℕ
take zero xs = []
take (suc n) [] = []
take (suc n) (x ∷ xs) = x ∷ take n xs

abbrev pub drop : ℕ → List ℕ → List ℕ
drop zero xs = xs
drop (suc n) [] = []
drop (suc n) (x ∷ xs) = drop n xs

-- strings.CutPrefix(s, p)
abbrev pub cut_prefix : List ℕ → List ℕ → Option (List ℕ)
cut_prefix s [] = some s
cut_prefix [] (p ∷ ps) = none
cut_prefix (c ∷ cs) (p ∷ ps) = let rest = cut_prefix cs ps in if c == p then rest else none

-- strings.HasPrefix(s, p)
abbrev pub has_prefix : List ℕ → List ℕ → Bool
has_prefix s [] = true
has_prefix [] (p ∷ ps) = false
has_prefix (c ∷ cs) (p ∷ ps) = c == p && has_prefix cs ps

-- strings.Contains(s, p)
abbrev pub contains_text : List ℕ → List ℕ → Bool
contains_text [] p = has_prefix [] p
contains_text (c ∷ cs) p = has_prefix (c ∷ cs) p || contains_text cs p

-- s[:i] at the first `c`, or all of it.
abbrev pub before : ℕ → List ℕ → List ℕ
before c [] = []
before c (d ∷ ds) = let rest = before c ds in if d == c then [] else d ∷ rest

-- s[i+1:] at the first `c`.
abbrev pub behind_first : ℕ → List ℕ → Option (List ℕ)
behind_first c [] = none
behind_first c (d ∷ ds) = let rest = behind_first c ds in if d == c then some ds else rest

-- s[:i] at the last `c`.
abbrev pub before_last : ℕ → List ℕ → Option (List ℕ)
before_last c [] = none
before_last c (d ∷ ds) = elim (before_last c ds) [
  | some kept ↦ some (d ∷ kept)
  | none ↦ if d == c then some [] else none
]

-- strings.Fields(s)
fields_from : List ℕ → List ℕ → List (List ℕ)
fields_from word [] = if is_nil word then [] else word ∷ []
fields_from word (c ∷ cs) =
    let broken = fields_from [] cs in
    let longer = fields_from (word ++ (c ∷ [])) cs in
    if is_space c then (if is_nil word then broken else word ∷ broken) else longer

unfoldable pub fields : List ℕ → List (List ℕ)
unfolding fields_from
fields s = fields_from [] s
