-- ===== src/Adapters/Keychain/Client/Sealed.antt =====
-- What the client of `security` runs: marked commands, and values on standard input only.
use localclaw.Common.{
  ℕ, String, ◌≡◌, refl, Bool, Option, none, some, List, [], ◌∷◌, string_eq, nat_eq,
}
use localclaw.App.Body.{call}
use localclaw.App.Host.{Call, Host, system}
use localclaw.App.Trace.{
  Only, Only-pure, Only-return, Only-lift, Only-func, Only-nil_or_return, Only-if, Only-bind,
  Only-call, only_rules,
}
use localclaw.Os.{stat, run, interactive}
use localclaw.Domain.Secret.{Source, hex_encode}
use localclaw.Adapters.Libraries.{Libraries}
use localclaw.Adapters.Keychain.Client.{
  service, hidden, shown, add_line, exists, require, run_security, get, describe, put, delete,
}

-- The keychain is asked for, `security` runs with these arguments and this input and is marked, and
-- the unlock dialog is shown.
abbrev pub Sealed : String → List String → Option (List ℕ) → Call → Type 0
Sealed path args stdin (system (stat p)) = p ≡ path
Sealed path args stdin (system (run c)) = c ≡ hidden args stdin
Sealed path args stdin (system (interactive c)) = c ≡ shown ("unlock-keychain" ∷ path ∷ [])
Sealed path args stdin _ = ⊥

module _ {S : Type 0} ⦃H : Host S⦄ (path : String) (args : List String)
    (stdin : Option (List ℕ)) where
  Only-require : Only {S = S} (Sealed path args stdin) (require path)
  unfolding require exists
  Only-require = search only_rules depth 40

  Only-run_security : Only {S = S} (Sealed path args stdin) (run_security path stdin args)
  unfolding run_security
  Only-run_security =
      let attempt = system (run (hidden args stdin)) in
      let unlock = system (interactive (shown ("unlock-keychain" ∷ path ∷ []))) in
      Only-func _ (
        Only-bind (call attempt) _ (Only-call attempt refl) λ first.
          Only-bind _ _ (Only-pure _) λ locked.
            Only-bind _ _ (Only-if _ _ _ (Only-pure _) (Only-return _)) λ _.
              Only-bind (call unlock) _ (Only-call unlock refl)
                λ unlocked. Only-bind _ _ (Only-nil_or_return _ _) λ _. Only-call attempt refl)

abbrev pub get_args : String → String → List String
get_args path name = "find-generic-password" ∷ "-a" ∷ name ∷ "-s" ∷ service ∷ "-g" ∷ path ∷ []

abbrev pub describe_args : String → String → List String
describe_args path name = "find-generic-password" ∷ "-a" ∷ name ∷ "-s" ∷ service ∷ path ∷ []

abbrev pub delete_args : String → String → List String
delete_args path name = "delete-generic-password" ∷ "-a" ∷ name ∷ "-s" ∷ service ∷ path ∷ []

module _ {S : Type 0} ⦃H : Host S⦄ where
  pub reads-Sealed :
      (libs : Libraries) (path name : String)
      → Only {S = S} (Sealed path (get_args path name) none) (get path name)
        × (Only {S = S} (Sealed path (describe_args path name) none) (describe libs path name)
            × Only {S = S} (Sealed path (delete_args path name) none) (delete path name))
  unfolding get describe delete
  reads-Sealed libs path name =
      let asked = Only-require path in
      let ran = Only-run_security path in
      (
        Only-func _ (
            Only-bind _ _ (Only-lift _ (asked _ none)) λ missing.
              Only-bind _ _ (Only-nil_or_return _ _)
                λ _. Only-bind _ _ (Only-lift _ (ran _ none)) λ answer. search only_rules depth 20),
        (
          Only-func _ (
              Only-bind _ _ (Only-lift _ (asked _ none)) λ missing.
                Only-bind _ _ (Only-nil_or_return _ _) λ _.
                  Only-bind _ _ (Only-lift _ (ran _ none)) λ answer. search only_rules depth 20),
          Only-func _ (
              Only-bind _ _ (Only-lift _ (asked _ none)) λ missing.
                Only-bind _ _ (Only-nil_or_return _ _) λ _.
                  Only-bind _ _ (Only-lift _ (ran _ none)) λ answer. search only_rules depth 20),
        ),
      )

  pub put-Sealed :
      (path name : String) (value : List ℕ) (source : Source) (replace : Bool)
      → Only {S = S}
          (Sealed path ("-i" ∷ []) (some (add_line path name (hex_encode value) source replace)))
          (put path name value source replace)
  unfolding put
  put-Sealed path name value source replace = Only-func _ (
      Only-bind _ _ (Only-lift _ (Only-require path _ _)) λ missing.
        Only-bind _ _ (Only-nil_or_return _ _) λ _. Only-bind _ _ (Only-nil_or_return _ _) λ _.
          Only-bind _ _ (Only-nil_or_return _ _) λ _. Only-bind _ _ (Only-nil_or_return _ _) λ _.
            Only-bind _ _ (Only-lift _ (Only-run_security path _ _))
              λ answer. search only_rules depth 20)
