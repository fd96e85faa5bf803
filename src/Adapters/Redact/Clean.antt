-- ===== src/Adapters/Redact/Clean.antt =====
-- What is left of a secret in a redacted error.
use localclaw.Common.{
  ℕ, ◌≤◌, ◌<◌, ◌≡◌, refl, sym, ◌∙◌, subst, ◌⊎◌, inl, inr, true, false, ◌||◌, some, List, [], ◌∷◌,
  arith, if◌then◌else◌, contains, string_eq, nat_eq, ltb, Bool-cases, length, is_nil, All, ℤ,
  trim_space, split, join_lines, same_text, take, has_prefix, contains_text,
}
use localclaw.Common.Scan.Runs.{
  or_true, or_right, take-has_prefix, length-contains_text, same_text-take, Lacks,
  contains_text-join_lines, contains_text-trim_space,
}
use localclaw.Domain.Errors.{Error, as_exit, exit_error}
use localclaw.Adapters.Redact.{
  fragment_len, windows, fragment_set, has_text, carries_run, carries, kept_lines, redact,
}

-- Every run of the secret is one of its windows.
has_text-windows :
    (s w : List ℕ)
    → length w ≡ fragment_len
    → contains_text s w ≡ true
    → has_text (windows s) w ≡ true
unfolding windows has_text
has_text-windows [] w n h = absurd (omega (arith, length-contains_text [] w h))
has_text-windows (c ∷ s) w n h =
    let long = length-contains_text (c ∷ s) w h in
    let wide : ltb (length (c ∷ s)) fragment_len ≡ false = ground arith in
    elim (Bool-cases (has_prefix (c ∷ s) w)) [
      | inl here ↦ rw (wide, same_text-take fragment_len (c ∷ s) w n here) refl
      | inr later ↦
          let below : contains_text s w ≡ true = ground arith in
          rw (wide, has_text-windows s w n below)
            (or_true (same_text (take fragment_len (c ∷ s)) w))
    ]

-- A line without a window of the secret has no run of it.
carries_run-contains_text :
    (fs : List (List ℕ)) (line w : List ℕ)
    → length w ≡ fragment_len
    → has_text fs w ≡ true
    → carries_run fs line ≡ false
    → contains_text line w ≡ false
unfolding carries_run
carries_run-contains_text fs [] [] n f h = absurd (omega arith)
carries_run-contains_text fs [] (x ∷ w) n f h = refl
carries_run-contains_text fs (c ∷ line) w n f h = elim (Bool-cases (contains_text (c ∷ line) w)) [
  | inr away ↦ away
  | inl there ↦
      let long = length-contains_text (c ∷ line) w there in
      let wide : ltb (length (c ∷ line)) fragment_len ≡ false = ground arith in
      elim (Bool-cases (has_prefix (c ∷ line) w)) [
        | inl here ↦
            let same : take fragment_len (c ∷ line) ≡ w =
              subst (λ k. take k (c ∷ line) ≡ w) n (take-has_prefix (c ∷ line) w here).0 in
            let found : has_text fs (take fragment_len (c ∷ line)) ≡ true =
              subst (λ v. has_text fs v ≡ true) (sym same) f in
            let raised : true ≡ false = rw (wide, found) at h in absurd (ground arith)
        | inr later ↦
            let clear : carries_run fs line ≡ false =
              or_right (has_text fs (take fragment_len (c ∷ line))) _ (rw wide at h) in
            let below : contains_text line w ≡ false =
              carries_run-contains_text fs line w n f clear in
            ground arith
      ]
]

-- What must not be read in an error: a run of 16 characters of the secret, or all of a shorter one.
abbrev pub Guarded : List ℕ → List ℕ → Type 0
Guarded secret w =
    ((fragment_len ≤ length secret) × ((length w ≡ fragment_len) × (contains_text secret w ≡ true)))
    ⊎ ((length secret < fragment_len) × (w ≡ secret))

carries-Lacks :
    (secret w line : List ℕ)
    → Guarded secret w
    → carries line secret (fragment_set secret) ≡ false
    → Lacks w line
unfolding carries fragment_set
carries-Lacks secret w line (inl (long, (n, run))) h =
    let wide : ltb (length secret) fragment_len ≡ false = ground arith in
    carries_run-contains_text (windows secret) line w n (has_text-windows secret w n run)
      (rw wide at h)
carries-Lacks secret w line (inr (short, same)) h =
    let narrow : ltb (length secret) fragment_len ≡ true = ground arith in rw same (rw narrow at h)

kept_lines_lack :
    (secret w : List ℕ) (lines : List (List ℕ))
    → Guarded secret w
    → All (Lacks w) (kept_lines secret lines)
unfolding kept_lines
kept_lines_lack secret w [] g = tt
kept_lines_lack secret w (l ∷ lines) g =
    elim (Bool-cases (carries l secret (fragment_set secret))) [
      | inl leak ↦ rw leak (kept_lines_lack secret w lines g)
      | inr clear ↦ rw clear (carries-Lacks secret w l g clear, kept_lines_lack secret w lines g)
    ]

Guarded-is_nil : (secret w : List ℕ) → Guarded secret w → is_nil w ≡ false → is_nil secret ≡ false
Guarded-is_nil [] w (inl (long, _)) h = absurd (omega arith)
Guarded-is_nil [] w (inr (_, same)) h = rw same at h
Guarded-is_nil (c ∷ secret) w g h = refl

Lacks-nil : (w : List ℕ) → is_nil w ≡ false → Lacks w []
Lacks-nil [] h = absurd (ground arith)
Lacks-nil (c ∷ w) h = refl

redact_exit :
    (e : Error) (secret : List ℕ) (code : ℤ) (stderr : List ℕ)
    → as_exit e ≡ some (code, stderr)
    → redact e secret ≡ (
        if is_nil secret || is_nil stderr
        then e
        else exit_error code (trim_space (join_lines (kept_lines secret (split b'\n' stderr)))))
unfolding redact
redact_exit e secret code stderr h = rw (redact, h) refl

-- An error of a command, once redacted, keeps its exit code and no guarded run of a secret: no 16
-- characters in a row of one that is 16 or longer, and not all of a shorter one, as far as they
-- stand on one line.
pub redact_sound :
    (e : Error) (secret w : List ℕ) (code : ℤ) (stderr : List ℕ)
    → as_exit e ≡ some (code, stderr)
    → is_nil w ≡ false
    → contains w b'\n' ≡ false
    → Guarded secret w
    → (out : List ℕ) × ((as_exit (redact e secret) ≡ some (code, out)) × Lacks w out)
unfolding as_exit
redact_sound e secret w code [] h full line g =
    let kept : redact e secret ≡ e =
      redact_exit e secret code [] h ∙ rw (Guarded-is_nil secret w g full) refl in
    ([], (rw kept h, Lacks-nil w full))
redact_sound e secret w code (c ∷ stderr) h full line g = (
  trim_space (join_lines (kept_lines secret (split b'\n' (c ∷ stderr)))),
  (
    rw (redact_exit e secret code (c ∷ stderr) h, Guarded-is_nil secret w g full) refl,
    contains_text-trim_space _ w
        (contains_text-join_lines w _ full line (kept_lines_lack secret w _ g)),
  ),
)
