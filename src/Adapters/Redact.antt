-- ===== src/Adapters/Redact.antt =====
-- internal/adapters/exec/redact.go. Texts are lists of code points where Go counts bytes: a run of a
-- secret in ASCII, as hexadecimal and base64 are, is the same run in both.
pub mod Clean
use localclaw.Common.{
  ℕ, zero, suc, ◌+◌, ◌-◌, ◌*◌, ◌/◌, ◌%◌, ◌^◌, ◌≤◌, ◌<◌, String, ◌<>◌, ◌≡◌, refl, sym, ap, ◌∙◌,
  subst, ◌≢◌, ◌↔◌, ◌⊎◌, inl, inr, Bool, true, false, not, ◌&&◌, ◌||◌, Option, none, some, List, [],
  ◌∷◌, ◌++◌, map, arith, if◌then◌else◌, Eq, ◌==◌, contains, string_eq, nat_eq, ltb, leb, Bool-cases,
  Option-cases, length, is_nil, select, find, reversed, length-append, All, All-append, Distinct,
  contains-append, codes, join, width, byte_len, join_path, clean, is_digit, is_lower, itoa, itoa_ℤ,
  ℤ, pos, negsuc, is_pos, quote, trim_space, split, join_lines, same_text, take, drop, cut_prefix,
  has_prefix, contains_text, before, behind_first, before_last, fields, text_of, is_space,
}
use localclaw.Domain.Errors.{Error, as_exit, exit_error}

abbrev pub fragment_len : ℕ
fragment_len = 16

-- s[i:i+FragmentLen] for every i
unfoldable pub windows : List ℕ → List (List ℕ)
windows [] = []
windows (c ∷ cs) =
    let rest = windows cs in
    if ltb (length (c ∷ cs)) fragment_len then [] else take fragment_len (c ∷ cs) ∷ rest

unfoldable pub fragment_set : List ℕ → Option (List (List ℕ))
unfolding windows
fragment_set secret = if ltb (length secret) fragment_len then none else some (windows secret)

unfoldable pub has_text : List (List ℕ) → List ℕ → Bool
has_text [] w = false
has_text (f ∷ fs) w = same_text f w || has_text fs w

-- The loop over the windows of a line.
unfoldable pub carries_run : List (List ℕ) → List ℕ → Bool
unfolding has_text
carries_run fragments [] = false
carries_run fragments (c ∷ cs) =
    let rest = carries_run fragments cs in
    if ltb (length (c ∷ cs)) fragment_len
    then false
    else has_text fragments (take fragment_len (c ∷ cs)) || rest

unfoldable pub carries : List ℕ → List ℕ → Option (List (List ℕ)) → Bool
unfolding carries_run
carries line secret none = contains_text line secret
carries line secret (some fragments) = carries_run fragments line

unfoldable pub kept_lines : List ℕ → List (List ℕ) → List (List ℕ)
unfolding carries fragment_set
kept_lines secret lines = select (λ l. not (carries l secret (fragment_set secret))) lines

-- Redact(err, secret)
unfoldable pub redact : Error → List ℕ → Error
unfolding kept_lines
redact e secret = elim (as_exit e) [
  | none ↦ e
  | some (code, stderr) ↦
      if is_nil secret || is_nil stderr
      then e
      else exit_error code (trim_space (join_lines (kept_lines secret (split b'\n' stderr))))
]
