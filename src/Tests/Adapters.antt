-- ===== src/Tests/Adapters.antt =====
-- The theorems on the adapters, at concrete data.
use localclaw.Common.{
  contains, All, ℕ, suc, ◌+◌, ◌≤◌, ◌≡◌, refl, inl, true, false, Option, none, some, List, [], ◌∷◌,
  ◌++◌, arith, string_eq, nat_eq, length, codes, pos, trim_space, split, join_lines,
}
use localclaw.Tests.Ports.{fixed_host}
use localclaw.App.Host.{Call, Response, Host, system}
use localclaw.Domain.Errors.{
  Error, sentinel, sentinel_eq, exit_error, failure, wrapped, is, as_exit, not_exist, ok, err,
}
use localclaw.Domain.Secret.{user}
use localclaw.Os.{Command, run, stat, now, sleep}
use localclaw.Common.Scan.Runs.{Lacks}
use localclaw.Adapters.Libraries.{Libraries}
use localclaw.Adapters.Redact.{redact}
use localclaw.Adapters.Redact.Clean.{Guarded, redact_sound}
use localclaw.Adapters.Exec.{max_stderr_tail, tail}
use localclaw.Adapters.Exec.Logs.{tail_bounded}
use localclaw.Adapters.Keychain.Parse.{parse_password, strip_password}
use localclaw.Adapters.Keychain.Parse.Roundtrip.{Byte, printed, parse_password-printed}
use localclaw.Adapters.Keychain.Client.{wrap, get, describe, put, delete}
use localclaw.Adapters.Keychain.Client.Sealed.{Sealed}
use localclaw.Adapters.Keychain.Client.Missing.{missing, Stops, missing_untouched}
use localclaw.Adapters.Keychain.Client.Reported.{wrap-redact_sound}
use localclaw.Adapters.Litellm.{ended, ready}
use localclaw.Adapters.Litellm.Waiting.{Ticking, ready_ends}

abbrev pub no_libraries : Libraries
no_libraries = record {
  parse_time = λ s. ok 0;
  show_duration = λ n. "2m0s";
  decode_machines = λ s. ok [];
  decode_pods = λ s. ok [];
  decode_secrets = λ s. ok [];
  marshal = λ doc. ok (codes "{}");
  decode_toml = λ s. err (failure "no document");
}

abbrev long_secret : List ℕ
long_secret = codes "0123456789abcdef0123"

abbrev long_run : List ℕ
long_run = codes "123456789abcdef0"

abbrev echoed : List ℕ
echoed = codes "usage: security\nbad value 0123456789abcdef0123"

abbrev echoing : Error
echoing = wrapped "security: " (exit_error (pos 2) echoed) ""

long_run-Guarded : Guarded long_secret long_run
unfolding nat_eq
long_run-Guarded = inl (omega arith, (refl, refl))

redact_sound_example :
    (out : List ℕ) × ((as_exit (redact echoing long_secret) ≡ some (pos 2, out))
      × Lacks long_run out)
unfolding nat_eq as_exit
redact_sound_example =
    redact_sound echoing long_secret long_run (pos 2) echoed refl refl refl long_run-Guarded

reported :
    as_exit (wrap "put k" (redact echoing long_secret)) ≡ some (pos 2, codes "usage: security")
unfolding nat_eq as_exit wrap redact sentinel_eq is trim_space strip_password join_lines split
reported = refl

wrap-redact_sound_example : Lacks long_run (codes "usage: security")
unfolding nat_eq as_exit
wrap-redact_sound_example =
    wrap-redact_sound "put k" echoing long_secret long_run (pos 2) echoed refl refl refl
      long_run-Guarded (pos 2) (codes "usage: security") reported

-- No file is there.
bare : (c : Call) → Response c
bare (system (stat path)) = err (sentinel not_exist)
bare c = (fixed_host.answer c 0).0

abbrev bare_host : Host ℕ
unfolding bare
bare_host = record { answer = λ c n. (bare c, suc n) }

missing_untouched_example :
    Stops ⦃H = bare_host⦄ "/k" 0 (get ⦃H = bare_host⦄ "/k" "api-key") (err (missing "/k"))
    × (Stops ⦃H = bare_host⦄ "/k" 0
          (describe ⦃H = bare_host⦄ no_libraries "/k" "api-key")
          (err (missing "/k"))
        × (Stops ⦃H = bare_host⦄ "/k" 0
              (put ⦃H = bare_host⦄ "/k" "api-key" (b'x' ∷ []) user false)
              (some (missing "/k"))
            × Stops ⦃H = bare_host⦄ "/k" 0
                (delete ⦃H = bare_host⦄ "/k" "api-key")
                (some (missing "/k"))))
unfolding bare is sentinel_eq
missing_untouched_example =
    missing_untouched ⦃H = bare_host⦄ no_libraries "/k" "api-key" (b'x' ∷ []) user false 0
      (sentinel not_exist) refl refl

-- keychain/testdata: find-g-hex.stderr, and find-g-hex-rendered.stderr, where the value is
-- `he said "hi" \`.
abbrev quoted_hi : List ℕ
quoted_hi = codes "he said \"hi\" \\"

abbrev hi_rendering : List ℕ
hi_rendering = codes " \"he said \"hi\" \\134\""

printed_hex : printed [] (0 ∷ 255 ∷ 10 ∷ []) ≡ codes "password: 0x00FF0A "
unfolding printed nat_eq
printed_hex = refl

printed_rendered :
    printed hi_rendering quoted_hi
    ≡ codes "password: 0x686520736169642022686922205C  \"he said \"hi\" \\134\""
unfolding printed nat_eq
printed_rendered = refl

hi_rendering-contains : contains hi_rendering b'\n' ≡ false
unfolding nat_eq
hi_rendering-contains = refl

quoted_hi-Byte : All Byte quoted_hi
quoted_hi-Byte = ground arith

parse_password-printed_example :
    parse_password (printed hi_rendering quoted_hi ++ (b'\n' ∷ codes "keychain: /k")) ≡ ok quoted_hi
parse_password-printed_example =
    parse_password-printed hi_rendering quoted_hi (codes "keychain: /k") hi_rendering-contains
      quoted_hi-Byte

abbrev secret_command : Command
secret_command = record {
  name = "security";
  args = "-i" ∷ [];
  stdin = none;
  env = [];
  sensitive = true;
}

tail_bounded_example :
    (length (tail (codes " failed\n")) ≤ max_stderr_tail)
    × ((front : List ℕ) × (trim_space (codes " failed\n") ≡ front ++ tail (codes " failed\n")))
tail_bounded_example = tail_bounded (codes " failed\n")

-- LiteLLM never answers, and the state is the time.
ticks : (c : Call) → ℕ → Response c
ticks (system (run c)) n = err (exit_error (pos 1) (codes "refused"))
ticks (system now) n = n
ticks c n = (fixed_host.answer c n).0

moved : Call → ℕ → ℕ
moved (system (sleep i)) n = n + i
moved c n = n

abbrev ticking_host : Host ℕ
unfolding ticks moved
ticking_host = record { answer = λ c n. (ticks c n, moved c n) }

ticking : Ticking ℕ ticking_host
unfolding ticks moved
ticking = record {
  clock = λ n. n;
  forward = λ c n. moved_forward c n;
  reads = λ n. (omega arith, omega arith);
  sleeps = λ i n h. omega arith;
}
  where
    moved_forward : (c : Call) (n : ℕ) → n ≤ moved c n
    moved_forward (system (sleep i)) n = omega arith
    moved_forward c n = omega arith

ready_ends_example :
    (r : Option Error) × ((ready ⦃H = ticking_host⦄ no_libraries
        (record { timeout = 5; interval = 2 })
        4
        100).value
      ≡ ended r)
unfolding nat_eq
ready_ends_example =
    ready_ends ⦃H = ticking_host⦄ ticking no_libraries (record { timeout = 5; interval = 2 }) 3 100
      (omega arith)
