-- ===== src/Adapters/Keychain/Client/Reported.antt =====
-- What the errors of the client of `security` show of a value.
use localclaw.Common.{
  ℕ, String, ◌≡◌, subst, inl, inr, false, Option, none, some, List, arith, contains, string_eq,
  nat_eq, Bool-cases, is_nil, ℤ, split,
}
use localclaw.Common.Scan.Runs.{
  Lacks, contains_text-join_lines, contains_text-trim_space, split-Lacks, All-select,
}
use localclaw.Domain.Errors.{Sentinel, Error, is, as_exit, executable_not_found}
use localclaw.Adapters.Redact.{redact}
use localclaw.Adapters.Redact.Clean.{Guarded, redact_sound}
use localclaw.Adapters.Keychain.Parse.{strip_password}
use localclaw.Adapters.Keychain.Client.{known_code, exit_cause, wrap}

strip_password-Lacks :
    (w s : List ℕ)
    → is_nil w ≡ false
    → contains w b'\n' ≡ false
    → Lacks w s
    → Lacks w (strip_password s)
unfolding strip_password
strip_password-Lacks w s full line h = contains_text-trim_space _ w (
    contains_text-join_lines w _ full line
      (All-select _ _ (split b'\n' s) (split-Lacks b'\n' w s full h)))

exit_cause-Lacks :
    (known : Option Sentinel) (code : ℤ) (w stderr : List ℕ)
    → is_nil w ≡ false
    → contains w b'\n' ≡ false
    → Lacks w stderr
    → (c : ℤ) (out : List ℕ) → as_exit (exit_cause known code stderr) ≡ some (c, out)
    → Lacks w out
unfolding as_exit
exit_cause-Lacks (some s) code w stderr full line lack c out k = absurd (ground arith)
exit_cause-Lacks none code w stderr full line lack c out k =
    let same : strip_password stderr ≡ out = cc in
    subst (Lacks w) same (strip_password-Lacks w stderr full line lack)

-- What wrap keeps of the output of a command.
wrap-Lacks :
    (op : String) (e : Error) (w : List ℕ) (code : ℤ) (stderr : List ℕ)
    → is_nil w ≡ false
    → contains w b'\n' ≡ false
    → as_exit e ≡ some (code, stderr)
    → Lacks w stderr
    → (c : ℤ) (out : List ℕ) → as_exit (wrap op e) ≡ some (c, out)
    → Lacks w out
unfolding wrap as_exit
wrap-Lacks op e w code stderr full line h lack c out k =
    elim (Bool-cases (is executable_not_found e)) [
      | inl gone ↦ let none_some = rw gone at k in absurd (ground arith)
      | inr ran ↦
          exit_cause-Lacks (known_code code) code w stderr full line lack c out (rw (ran, h) at k)
    ]

-- An error of a command that is redacted and then wrapped, as Put does with the hexadecimal value,
-- shows no run that Redact guards in the error output that it still has: no 16 characters in a row
-- of a secret that is 16 or longer, and not all of a shorter one, as far as they stand on one line.
pub wrap-redact_sound :
    (op : String) (e : Error) (secret w : List ℕ) (code : ℤ) (stderr : List ℕ)
    → as_exit e ≡ some (code, stderr)
    → is_nil w ≡ false
    → contains w b'\n' ≡ false
    → Guarded secret w
    → (c : ℤ) (out : List ℕ) → as_exit (wrap op (redact e secret)) ≡ some (c, out)
    → Lacks w out
wrap-redact_sound op e secret w code stderr h full line g c out k =
    let (kept, (exits, lack)) = redact_sound e secret w code stderr h full line g in
    wrap-Lacks op (redact e secret) w code kept full line exits lack c out k
