-- ===== src/Adapters/Exec/Logs.antt =====
-- What the runner logs and reports of a command's output.
use localclaw.Common.{
  ◌⊎◌, ℕ, zero, suc, ◌-◌, ◌≤◌, ◌≡◌, refl, sym, inl, inr, none, some, List, [], ◌∷◌, ◌++◌, arith,
  if◌then◌else◌, string_eq, nat_eq, ltb, Bool-cases, length, trim_space, take, drop,
}
use localclaw.App.Body.{Event, call}
use localclaw.App.Host.{Call, Host, system, ctx_err}
use localclaw.App.Trace.{Calls}
use localclaw.Os.{LogEntry, Output, Command, Ended, spawn, log}
use localclaw.Adapters.Exec.{max_stderr_tail, tail}

length-drop : (n : ℕ) (s : List ℕ) → length (drop n s) ≡ length s - n
length-drop zero s = ground arith
length-drop (suc n) [] = ground arith
length-drop (suc n) (c ∷ s) = ground (arith, length-drop n s)

take-drop : (n : ℕ) (s : List ℕ) → take n s ++ drop n s ≡ s
take-drop zero s = refl
take-drop (suc n) [] = refl
take-drop (suc n) (c ∷ s) = rw (take-drop n s) refl

-- The tail of an output is the end of the trimmed output, and at most 1024 characters of it.
pub tail_bounded :
    (s : List ℕ)
    → (length (tail s) ≤ max_stderr_tail) × ((front : List ℕ) × (trim_space s ≡ front ++ tail s))
unfolding tail
tail_bounded s =
    let t = trim_space s in
    elim (Bool-cases (ltb max_stderr_tail (length t))) [
      | inl long ↦ rw long (
        rw (length-drop (length t - max_stderr_tail) t) (ground arith),
        (take (length t - max_stderr_tail) t, sym (take-drop _ t)),
      )
      | inr short ↦ rw short (ground arith, ([], refl))
    ]

-- The last 1024 characters of a text, or all of it where it is shorter.
abbrev pub IsEnd : List ℕ → List ℕ → Type 0
IsEnd s out = (front : List ℕ) × (s ≡ front ++ out) × ((front ≡ []) ⊎ (length out ≡ 1024))

-- What is logged of a command that has ended: of a sensitive one no output, of another the end of its
-- trimmed error output.
abbrev pub IsEntry : Command → Ended → List ℕ → LogEntry → Type 0
IsEntry c ended stderr entry =
    (entry.name ≡ c.name)
    × (entry.args ≡ c.args)
    × (entry.result ≡ ended)
    × (entry.sensitive ≡ c.sensitive)
    × (if c.sensitive
        then entry.stderr ≡ none
        else (out : List ℕ) × (entry.stderr ≡ some out) × IsEnd (trim_space stderr) out)

-- The context is asked, and nothing else.
abbrev pub AsksContext : Call → Type 0
AsksContext c = c ≡ ctx_err

-- The process was started and has given this answer, an entry of it was logged, and what follows
-- are questions to the context.
abbrev pub RunsOnce : Command → Output × Ended → List Event → Type 0
RunsOnce c answer events =
    (entry : LogEntry) × (rest : List Event) × (events
      ≡ record { call = system (spawn c); answer = answer }
        ∷ record { call = system (log entry); answer = tt }
        ∷ rest)
    × IsEntry c answer.1 answer.0.stderr entry
    × Calls AsksContext rest
