-- ===== src/Common/Paths.antt =====
-- What the program uses of package path/filepath, with Unix paths.
use Prim.Native.Char.{code}
use Prim.Native.String.{String, ◌++◌ as ◌<>◌}
use text.Mathlib.TextLemmas.{cons-append}
use mathlib.Core.Path.{◌≡◌, refl}
use mathlib.Core.Bool.{Bool, true, false, ◌||◌}
use mathlib.Core.List.{List, [], ◌∷◌}
use localclaw.Common.Equality.{◌==◌, string_eq, nat_eq, if◌then◌else◌}

cons_part : String → List String → List String
cons_part c [] = c ∷ []
cons_part c (w ∷ ws) = (c <> w) ∷ ws

-- The parts between slashes.
path_parts : String → List String
path_parts String.[] = "" ∷ []
path_parts (String.◌∷◌ c s) =
    let rest = path_parts s in
    if code c == b'/' then "" ∷ rest else cons_part (String.◌∷◌ c String.[]) rest

-- A `..` behind the parts kept so far, the last of them first.
go_up : Bool → List String → List String
go_up true [] = []
go_up false [] = ".." ∷ []
go_up rooted (p ∷ kept) = if p == ".." then ".." ∷ p ∷ kept else kept

clean_parts : Bool → List String → List String → List String
clean_parts rooted kept [] = kept
clean_parts rooted kept (p ∷ ps) =
    clean_parts rooted
      (if p == "" || p == "." then kept else if p == ".." then go_up rooted kept else p ∷ kept) ps

join_slash : List String → String → String
join_slash [] out = out
join_slash (p ∷ kept) out = join_slash kept (if out == "" then p else p <> ("/" <> out))

-- filepath.IsAbs
unfoldable pub is_abs : String → Bool
is_abs String.[] = false
is_abs (String.◌∷◌ c s) = code c == b'/'

cleaned : Bool → String → String
cleaned true body = "/" <> body
cleaned false body = if body == "" then "." else body

-- filepath.Clean
unfoldable pub clean : String → String
unfolding path_parts cons_part go_up clean_parts join_slash is_abs cleaned string_eq nat_eq
clean p = cleaned (is_abs p) (join_slash (clean_parts (is_abs p) [] (path_parts p)) "")

cleaned_abs : (body : String) → is_abs (cleaned true body) ≡ true
unfolding cleaned is_abs nat_eq
cleaned_abs body = rw (cons-append "/" "" body) refl

pub clean_abs : (p : String) → is_abs p ≡ true → is_abs (clean p) ≡ true
unfolding clean
clean_abs p h = rw h (cleaned_abs (join_slash (clean_parts true [] (path_parts p)) ""))

-- filepath.Join of two elements, the second of which is not empty.
unfoldable pub join_path : String → String → String
unfolding clean
join_path a b = if a == "" then clean b else clean (a <> ("/" <> b))

-- path[:i+1] at the last slash.
up_to_slash : String → String
up_to_slash String.[] = ""
up_to_slash (String.◌∷◌ c s) =
    let rest = up_to_slash s in
    if rest == "" then (if code c == b'/' then "/" else "") else String.◌∷◌ c rest

-- filepath.Dir
unfoldable pub dir_of : String → String
unfolding clean up_to_slash
dir_of p = clean (up_to_slash p)

last_part : List String → String
last_part [] = ""
last_part (p ∷ ps) = let rest = last_part ps in if rest == "" then p else rest

-- filepath.Base
unfoldable pub base_of : String → String
unfolding path_parts cons_part last_part
base_of p =
    if p == ""
    then "."
    else if last_part (path_parts p) == ""
    then "/"
    else last_part (path_parts p)
